-- ===== src/Profile/Document.antt =====
-- The plan of a profile document (src/core/profile/mode-profile.c).
use kuangshi16pro_series_gm.Prelude.{
  ℕ, ◌≤◌, ◌≡◌, ◌⊎◌, refl, Bool, true, false, ◌||◌, some, List, [], ◌∷◌, ◌++◌, arith, length,
  length-append, if◌then◌else◌, Bool-cases, inl, inr,
}
use mathlib.Core.List.{append-nil}
use kuangshi16pro_series_gm.Text.{Text, literal, is_same, is_same→eq}
use kuangshi16pro_series_gm.Status.{Status, is_ok}
use kuangshi16pro_series_gm.State.{Mode, OptionalByte, PowerLimits}
use kuangshi16pro_series_gm.Plan.{Action, Plan, Build, stage_action, write_action}
use kuangshi16pro_series_gm.Plan.Appends.{
  Appends, append_stage-Appends, append_write-Appends, append_all-Appends, >>-Appends,
}
use kuangshi16pro_series_gm.Fan.{IsTable, validate_fan_table, build_fan_plan}
use kuangshi16pro_series_gm.Fan.Program.{fan_program, length-fan_program, build_fan_plan-eq-program}
use kuangshi16pro_series_gm.Profile.{
  ProfileDocument, mode_name, mode_from_string, mode_index_hint, mode_hint, helper_hint,
  mode_stages, build_mode_plan, power_limits_present, limit_write, power_writes, build_power_plan,
  append_part, document_parts, build_profile_plan,
}

mode_read_back :
    (old mode : Mode) → mode_from_string (some (mode_name mode)) old ≡ (Status.ok, mode)
unfolding mode_from_string mode_name literal is_same
mode_read_back old Mode.gaming = refl
mode_read_back old Mode.office = refl
mode_read_back old Mode.turbo = refl
mode_read_back old Mode.custom = refl

-- `lcc_mode_from_string` reads the name of a mode back as that mode, and accepts no other text; where it
-- refuses the text it leaves the mode.
pub mode_from_string_iff :
    (t : Text) (old mode : Mode)
    → (mode_from_string (some (mode_name mode)) old ≡ (Status.ok, mode))
      × (let (s, found) = mode_from_string (some t) old in
          ((is_ok s ≡ true) × (t ≡ mode_name found)) ⊎ ((is_ok s ≡ false) × (found ≡ old)))
unfolding mode_from_string mode_name
mode_from_string_iff t old mode = (
  mode_read_back old mode,
  ground (
    arith,
    is_same→eq t (literal "gaming"),
    is_same→eq t (literal "office"),
    is_same→eq t (literal "turbo"),
    is_same→eq t (literal "custom"),
  ),
)

-- The stages of the plan of a mode.
unfoldable pub mode_program : Mode → List Action
mode_program mode =
    stage_action (literal "SetModeSwitchChangeThread -> candidate sequence")
    ∷ stage_action (literal "candidate: inspect mode/profile bytes 0x7AB and 0x7B0..0x7B2")
    ∷ stage_action (mode_index_hint mode)
    ∷ stage_action (mode_hint mode)
    ∷ stage_action (helper_hint mode)
    ∷ []

mode_stages-Appends : (mode : Mode) → Appends (mode_program mode) (mode_stages mode)
unfolding mode_stages mode_program
mode_stages-Appends mode = >>-Appends _ _ _ _ (append_stage-Appends _) (
    >>-Appends _ _ _ _ (append_stage-Appends _) (
      >>-Appends _ _ _ _ (append_stage-Appends _)
        (>>-Appends _ _ _ _ (append_stage-Appends _) (append_stage-Appends _))))

abbrev pub limit_program : ℕ → Text → OptionalByte → List Action
limit_program addr label b = if b.present then write_action addr b.value label ∷ [] else []

limit_write-Appends :
    (addr : ℕ) (label : Text) (b : OptionalByte)
    → Appends (limit_program addr label b) (limit_write addr label b)
unfolding limit_write
limit_write-Appends addr label b plan h = elim (Bool-cases b.present) [
  | inl e ↦ simp e (append_write-Appends addr b.value label plan (simp e at h))
  | inr e ↦ simp (e, append-nil)
]

-- The writes of the plan of power limits: one for each limit that is present.
unfoldable pub power_program : PowerLimits → List Action
power_program l =
    (stage_action (literal "ModeProfile CPU power-limit writes") ∷ [])
    ++ (limit_program 0x0783 (literal "PL1") l.pl1
        ++ (limit_program 0x0784 (literal "PL2") l.pl2
            ++ (limit_program 0x0785 (literal "PL4") l.pl4
                ++ limit_program 0x0786 (literal "TccOffset") l.tcc_offset)))

power_writes-Appends : (l : PowerLimits) → Appends (power_program l) (power_writes l)
unfolding power_writes power_program
power_writes-Appends l = >>-Appends _ _ _ _ (append_stage-Appends _) (
    >>-Appends _ _ _ _ (limit_write-Appends 0x0783 _ l.pl1) (
      >>-Appends _ _ _ _ (limit_write-Appends 0x0784 _ l.pl2) (
        >>-Appends _ _ _ _ (limit_write-Appends 0x0785 _ l.pl4)
          (limit_write-Appends 0x0786 _ l.tcc_offset))))

length-limit_program :
    (addr : ℕ) (label : Text) (b : OptionalByte) → length (limit_program addr label b) ≤ 1
length-limit_program addr label b = ground arith

length-power_program :
    (l : PowerLimits) → (1 ≤ length (power_program l)) × (length (power_program l) ≤ 5)
unfolding power_program
length-power_program l = ground arith

abbrev part_program : Bool → List Action → List Action
part_program given acts = if given then acts else []

append_part-Appends :
    (given : Bool) (build : Build) (acts : List Action)
    → (given ≡ true → build [] ≡ (Status.ok, acts))
    → Appends (part_program given acts) (append_part given build)
unfolding append_part
append_part-Appends true build acts h plan r = rw (h refl) (append_all-Appends acts plan r)
append_part-Appends false build acts h plan r = rw append-nil

build_power_plan-ok :
    (l : PowerLimits)
    → power_limits_present l ≡ true
    → build_power_plan l [] ≡ (Status.ok, power_program l)
unfolding build_power_plan
build_power_plan-ok l h = rw h (power_writes-Appends l [] (omega (arith, length-power_program l)))

build_mode_plan-ok : (mode : Mode) → build_mode_plan mode [] ≡ (Status.ok, mode_program mode)
unfolding build_mode_plan mode_program
build_mode_plan-ok mode = mode_stages-Appends mode [] (unfold mode_program in omega arith)

-- A document that gives at least one part, and whose parts are sound where they are given.
pub record IsSound (d : ProfileDocument) : Type 0 where
  pub given : (d.has_mode || d.has_power_limits || d.has_fan_table) ≡ true
  pub limits : d.has_power_limits ≡ true → power_limits_present d.power_limits ≡ true
  pub table : IsTable d.fan_table
  pub valid : d.has_fan_table ≡ true → validate_fan_table d.fan_table ≡ Status.ok

-- The actions of the plan of a document: those of the parts that it gives, in order.
unfoldable pub document_program : ProfileDocument → List Action
document_program d =
    part_program d.has_mode (mode_program d.mode)
    ++ (part_program d.has_power_limits (power_program d.power_limits)
        ++ part_program d.has_fan_table (fan_program d.fan_table))

document_parts-Appends :
    (d : ProfileDocument) → IsSound d → Appends (document_program d) (document_parts d)
unfolding document_parts document_program
document_parts-Appends d h =
    >>-Appends _ _ _ _
      (append_part-Appends d.has_mode (build_mode_plan d.mode) (mode_program d.mode)
        (λ _. build_mode_plan-ok d.mode))
      (>>-Appends _ _ _ _
        (append_part-Appends d.has_power_limits (build_power_plan d.power_limits)
          (power_program d.power_limits) (λ e. build_power_plan-ok d.power_limits (h.limits e)))
        (append_part-Appends d.has_fan_table (build_fan_plan d.fan_table) (fan_program d.fan_table)
          (λ e. (build_fan_plan-eq-program d.fan_table h.table [] (h.valid e)).0)))

length-part_program :
    (given : Bool) (acts : List Action)
    → length (part_program given acts) ≡ (if given then length acts else 0)
length-part_program true acts = refl
length-part_program false acts = refl

length-mode_program : (mode : Mode) → length (mode_program mode) ≡ 5
unfolding mode_program
length-mode_program mode = refl

length-document_program :
    (d : ProfileDocument)
    → IsSound d
    → (1 ≤ length (document_program d)) × (length (document_program d) ≤ 110)
unfolding document_program
length-document_program d h =
    simp (length-append, length-part_program)
      (ground (
        arith,
        h.given,
        length-mode_program d.mode,
        length-power_program d.power_limits,
        length-fan_program d.fan_table h.table,
      ))

-- For a document that is sound, `lcc_build_profile_plan` succeeds, whatever the plan held, with the
-- actions of the mode, the power limits and the fan table that the document gives, in this order: at
-- most 110 actions, which the array of 128 holds.
pub build_profile_plan-eq-program :
    (d : ProfileDocument) (plan : Plan)
    → IsSound d
    → (build_profile_plan d plan ≡ (Status.ok, document_program d))
      × (length (document_program d) ≤ 110)
unfolding build_profile_plan
build_profile_plan-eq-program d plan h =
    let bound = length-document_program d h in
    (rw (document_parts-Appends d h [] (omega (arith, bound))) (ground (arith, bound)), bound.1)
