-- ===== src/Request/Target.antt =====
-- The target that `transaction_stage_target` composes (src/daemon/transaction.c).
use kuangshi16pro_series_gm.Prelude.{
  ℕ, ◌≡◌, ◌≢◌, ◌<◌, refl, true, false, some, none, [], ◌∷◌, arith, all, length, lt→ltb,
}
use kuangshi16pro_series_gm.Text.{Text, literal, fit, fit_short}
use kuangshi16pro_series_gm.Status.{Status, is_ok}
use kuangshi16pro_series_gm.State.{name_max, Mode, OptionalByte, StateTarget}
use kuangshi16pro_series_gm.Reader.{copy_name}
use kuangshi16pro_series_gm.Request.Names.{
  mode_text, mode_to_profile_name-mode_text, mode_to_profile_name_sound,
}
use kuangshi16pro_series_gm.Request.{
  Request, set_profile, set_mode, set_power_limits, apply_fan_table, set_fan_boost, any_present,
  merge_optional_byte, merge_limits, name_is_safe, stage_target, mode_to_profile_name, is_name_char,
}

-- A field of a power request that is present replaces the one that was asked for before; a field that
-- is absent keeps it.
abbrev pub Overrides : OptionalByte → OptionalByte → OptionalByte → Type 0
Overrides old new b = (new.present ≡ true → b ≡ new) × (new.present ≡ false → b ≡ old)

-- What a request asks for: only its own part of the target changes.
abbrev pub Composes : StateTarget → Request → StateTarget → Type 0
Composes old (set_profile none) t = ⊥
Composes old (set_profile (some name)) t =
    (t ≡ record old { profile = name })
    × (name ≢ [])
    × (all is_name_char name ≡ true)
    × (length name < name_max)
Composes old (set_mode none) t = ⊥
Composes old (set_mode (some name)) t = t ≡ record old { profile = name }
Composes old (set_power_limits none) t = ⊥
Composes old (set_power_limits (some l)) t =
    (t ≡ record old { has_power_limits = true; power_limits = t.power_limits })
    × Overrides old.power_limits.pl1 l.pl1 t.power_limits.pl1
    × Overrides old.power_limits.pl2 l.pl2 t.power_limits.pl2
    × Overrides old.power_limits.pl4 l.pl4 t.power_limits.pl4
    × Overrides old.power_limits.tcc_offset l.tcc_offset t.power_limits.tcc_offset
    × (any_present l ≡ true)
Composes old (apply_fan_table none) t = ⊥
Composes old (apply_fan_table (some name)) t =
    (t ≡ record old { fan_table = name })
    × (name ≢ [])
    × (all is_name_char name ≡ true)
    × (length name < name_max)
Composes old (set_fan_boost b) t = t ≡ record old { has_fan_boost = true; fan_boost_enabled = b }

copy_name-ok :
    (n : ℕ) (t : Text) → is_ok (copy_name n t).0 ≡ true → (length t < n) × ((copy_name n t).1 ≡ t)
unfolding copy_name
copy_name-ok n [] h = absurd (cc)
copy_name-ok n (c ∷ t) h = ground (arith, fit_short n (c ∷ t))

name_is_safe-some :
    (t : Text) → name_is_safe (some t) ≡ true → (t ≢ []) × (all is_name_char t ≡ true)
unfolding name_is_safe
name_is_safe-some [] h = absurd (cc)
name_is_safe-some (c ∷ t) h = ((λ e. cc), h)

-- If `transaction_stage_target` accepts a request, the target is the one that was asked for before with
-- the part of this request put in whole, uncut: a profile or fan table name that is not empty, has
-- only safe characters and fits its buffer; the name of the mode; each power field that is present, at
-- least one; or the fan boost.
pub stage_target-Composes :
    (old : StateTarget) (req : Request)
    → is_ok (stage_target old req).0 ≡ true
    → Composes old req (stage_target old req).1
unfolding stage_target
stage_target-Composes old (set_profile none) h = unfold name_is_safe in cc
stage_target-Composes old (set_profile (some t)) h =
    ground (arith, name_is_safe-some t, copy_name-ok name_max t)
stage_target-Composes old (set_mode none) h = unfold mode_to_profile_name in cc
stage_target-Composes old (set_mode (some t)) h = ground (
  arith,
  mode_to_profile_name_sound t [] Mode.office,
  copy_name-ok name_max (mode_to_profile_name (some t) [] Mode.office).1,
)
stage_target-Composes old (set_power_limits none) h = cc
stage_target-Composes old (set_power_limits (some l)) h =
    unfold merge_limits merge_optional_byte in ground arith
stage_target-Composes old (apply_fan_table none) h = unfold name_is_safe in cc
stage_target-Composes old (apply_fan_table (some t)) h =
    ground (arith, name_is_safe-some t, copy_name-ok name_max t)
stage_target-Composes old (set_fan_boost b) h = refl

-- A request that says what it needs to say.
abbrev pub IsComplete : Request → Type 0
IsComplete (set_profile none) = ⊥
IsComplete (set_profile (some t)) = (t ≢ []) × (all is_name_char t ≡ true) × (length t < name_max)
IsComplete (set_mode none) = ⊥
IsComplete (set_mode (some t)) = (mode : Mode) × (t ≡ mode_text mode)
IsComplete (set_power_limits none) = ⊥
IsComplete (set_power_limits (some l)) = any_present l ≡ true
IsComplete (apply_fan_table none) = ⊥
IsComplete (apply_fan_table (some t)) =
    (t ≢ []) × (all is_name_char t ≡ true) × (length t < name_max)
IsComplete (set_fan_boost b) = Unit {0}

safe_accepted :
    (t : Text)
    → t ≢ []
    → all is_name_char t ≡ true
    → length t < name_max
    → (name_is_safe (some t) ≡ true) × (copy_name name_max t ≡ (Status.ok, t))
unfolding name_is_safe copy_name
safe_accepted [] e h l = absurd (e refl)
safe_accepted (c ∷ t) e h l = (h, rw (lt→ltb _ _ l, fit_short name_max (c ∷ t) l))

mode_text_accepted :
    (mode : Mode) → copy_name name_max (mode_text mode) ≡ (Status.ok, mode_text mode)
unfolding copy_name mode_text literal fit
mode_text_accepted Mode.gaming = refl
mode_text_accepted Mode.office = refl
mode_text_accepted Mode.turbo = refl
mode_text_accepted Mode.custom = refl

-- `transaction_stage_target` accepts every request that is complete: a safe name that fits its buffer,
-- the name of a mode, power limits of which one is present, or a fan boost.
pub stage_target_complete :
    (old : StateTarget) (req : Request) → IsComplete req → is_ok (stage_target old req).0 ≡ true
unfolding stage_target
stage_target_complete old (set_profile none) h = absurd h
stage_target_complete old (set_profile (some t)) h = ground (arith, safe_accepted t)
stage_target_complete old (set_mode none) h = absurd h
stage_target_complete old (set_mode (some t)) (mode, e) =
    rw (e, mode_to_profile_name-mode_text mode Mode.office [], mode_text_accepted mode)
stage_target_complete old (set_power_limits none) h = absurd h
stage_target_complete old (set_power_limits (some l)) h = rw h
stage_target_complete old (apply_fan_table none) h = absurd h
stage_target_complete old (apply_fan_table (some t)) h = ground (arith, safe_accepted t)
stage_target_complete old (set_fan_boost b) h = refl
