-- ===== src/Plan/Appends.antt =====
-- Builders of plans (src/core/profile/plan.c): what they append where the array has the room, and that
-- no builder overruns the array.
use kuangshi16pro_series_gm.Prelude.{
  ℕ, ◌+◌, ◌≤◌, ◌≡◌, List, [], ◌∷◌, ◌++◌, arith, length, length-append, ap, ◌∙◌,
}
use mathlib.Core.List.{append_assoc}
use kuangshi16pro_series_gm.Text.{Text}
use kuangshi16pro_series_gm.Status.{Status}
use kuangshi16pro_series_gm.Plan.{
  max_actions, Action, Plan, Build, ◌>>◌, append, stage_action, write_action, append_stage,
  append_write, append_all,
}

-- The builder succeeds and appends these actions, on every plan that has the room for them.
abbrev pub Appends : List Action → Build → Type 0
Appends acts b =
    (plan : Plan) → length plan + length acts ≤ max_actions → b plan ≡ (Status.ok, plan ++ acts)

append-Appends : (a : Action) → Appends (a ∷ []) (append a)
unfolding append
append-Appends a plan h = ground arith

pub append_stage-Appends : (label : Text) → Appends (stage_action label ∷ []) (append_stage label)
unfolding append_stage
append_stage-Appends label plan h = append-Appends (stage_action label) plan h

pub append_write-Appends :
    (addr value : ℕ) (label : Text)
    → Appends (write_action addr value label ∷ []) (append_write addr value label)
unfolding append_write
append_write-Appends addr value label plan h = append-Appends (write_action addr value label) plan h

pub append_all-Appends : (source : Plan) → Appends source (append_all source)
unfolding append_all
append_all-Appends source plan h = ground arith

-- One builder after another appends both lists.
pub >>-Appends :
    (xs ys : List Action) (a b : Build) → Appends xs a → Appends ys b → Appends (xs ++ ys) (a >> b)
>>-Appends xs ys a b ha hb plan h = rw (ha plan (omega (arith, length-append {0} xs ys))) (
    hb (plan ++ xs) (omega (arith, length-append {0} xs ys, length-append {0} plan xs))
    ∙ ap (λ (p : Plan). (Status.ok, p)) (append_assoc plan xs ys))

-- The builder keeps the plan within its array, whatever it returns.
abbrev pub Keeps : Build → Type 0
Keeps b = (plan : Plan) → length plan ≤ max_actions → length (b plan).1 ≤ max_actions

append-Keeps : (a : Action) → Keeps (append a)
unfolding append
append-Keeps a plan h = ground (arith, length-append {0} plan (a ∷ []))

pub append_all-Keeps : (source : Plan) → Keeps (append_all source)
unfolding append_all
append_all-Keeps source plan h = ground (arith, length-append {0} plan source)
