-- ===== src/Plan.antt =====
-- include/lcc/plan.h, src/core/profile/plan.c and src/backends/amw0/ec-addr-map.h: a plan is the list
-- of the actions in its array, in order; `count` is the length. A builder of a plan goes on while its
-- status is LCC_OK, and else returns at once. Labels are never NULL.
pub mod Appends
use kuangshi16pro_series_gm.Prelude.{
  ℕ, ◌+◌, Bool, false, List, [], ◌∷◌, ◌++◌, ltb, leb, if◌then◌else◌, length,
}
use kuangshi16pro_series_gm.Text.{Text}
use kuangshi16pro_series_gm.Status.{Status, is_ok}

-- LCC_PLAN_MAX_ACTIONS
abbrev pub max_actions : ℕ
max_actions = 128

pub data ActionKind : Type 0 where
  stage custom_mode ec_write : ActionKind

-- lcc_write_action_t
pub record Action : Type 0 where
  pub kind : ActionKind
  pub addr : ℕ  -- uint16_t
  pub value : ℕ  -- uint8_t
  pub enabled : Bool
  pub label : Text

abbrev pub Plan : Type 0
Plan = List Action

abbrev pub Build : Type 0
Build = Plan → Status × Plan

infixl 5 ◌>>◌
abbrev pub ◌>>◌ : Build → Build → Build
◌>>◌ a b plan =
    let (s, plan') = a plan in let after = b plan' in if is_ok s then after else (s, plan')

-- The three appends write one action each.
append : Action → Build
append a plan =
    if leb max_actions (length plan)
    then (Status.buffer_too_small, plan)
    else (Status.ok, plan ++ a ∷ [])

abbrev pub stage_action : Text → Action
stage_action label = record {
  kind = ActionKind.stage;
  addr = 0;
  value = 0;
  enabled = false;
  label = label;
}

abbrev pub write_action : ℕ → ℕ → Text → Action
write_action addr value label = record {
  kind = ActionKind.ec_write;
  addr = addr;
  value = value;
  enabled = false;
  label = label;
}

-- `lcc_plan_append_stage`
unfoldable pub append_stage : Text → Build
unfolding append
append_stage label = append (stage_action label)

-- `lcc_plan_append_custom_mode`
unfoldable pub append_custom_mode : Bool → Text → Build
unfolding append
append_custom_mode enabled label = append (record {
  kind = ActionKind.custom_mode;
  addr = 0;
  value = 0;
  enabled = enabled;
  label = label;
})

-- `lcc_plan_append_write`
unfoldable pub append_write : ℕ → ℕ → Text → Build
unfolding append
append_write addr value label = append (write_action addr value label)

-- `lcc_plan_append_all`
unfoldable pub append_all : Plan → Build
append_all source target =
    if ltb max_actions (length target + length source)
    then (Status.buffer_too_small, target)
    else (Status.ok, target ++ source)
