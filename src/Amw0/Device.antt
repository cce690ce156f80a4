-- ===== src/Amw0/Device.antt =====
-- src/backends/backend.h and src/backends/amw0/backend.c: the context of the amw0 backend, the shadow
-- state that it keeps of what it wrote and read, and the functions that only touch these.
use kuangshi16pro_series_gm.Prelude.{ℕ, Bool, true, false, ◌&&◌, ◌||◌, [], ltb, if◌then◌else◌}
use kuangshi16pro_series_gm.Text.{Text, literal}
use kuangshi16pro_series_gm.Status.{Status, is_ok}
use kuangshi16pro_series_gm.State.{
  name_max, backend_name_max, Mode, StateTarget, Attribution, EffectiveMeta, Snapshot,
  zero_snapshot,
}
use kuangshi16pro_series_gm.Attribution.{
  PowerField, copy_text, component_set, power_field_set, state_finalize,
}
use kuangshi16pro_series_gm.Metadata.{execution_set_all}
use kuangshi16pro_series_gm.Amw0.Transport.{Transport}
use kuangshi16pro_series_gm.Amw0.Control.{
  profile_name_for_mode, profile_name_to_mode, mode_control_for_mode, add_boost,
}

-- lcc_amw0_backend_t
pub record Amw0 (W : Type 0) : Type 0 where
  pub transport : Transport W
  pub ecrr_path : Text  -- char[64]
  pub has_ecrr_path : Bool
  pub route : ℕ  -- amw0_route_t
  pub fail_after_writes : ℕ  -- size_t
  pub write_count : ℕ  -- size_t
  pub has_shadow_mode_control : Bool
  pub shadow_mode_control : ℕ  -- uint8_t
  pub shadow_state : Snapshot

-- The `copy_name` of this file.
unfoldable pub copy_field : ℕ → Text → Text → Status × Text
copy_field n buffer value = copy_text n buffer value

abbrev put_profile : StateTarget → Text → StateTarget
put_profile t name = record t { profile = (copy_field name_max t.profile name).1 }

abbrev put_fan_table : StateTarget → Text → StateTarget
put_fan_table t name = record t { fan_table = (copy_field name_max t.fan_table name).1 }

-- The name of a profile, in what was requested and in what is in effect.
unfoldable pub name_profile : Snapshot → Text → Snapshot
name_profile s name = record s {
  requested = put_profile s.requested name;
  effective = put_profile s.effective name;
}

unfoldable pub name_fan_table : Snapshot → Text → Snapshot
name_fan_table s name = record s {
  requested = put_fan_table s.requested name;
  effective = put_fan_table s.effective name;
}

-- `set_mode_profile_state`; every mode has a name.
unfoldable pub set_mode_profile_state : Snapshot → Mode → Snapshot
set_mode_profile_state s mode = name_profile s (profile_name_for_mode mode)

-- `set_fan_boost_state`
unfoldable pub set_fan_boost_state : Snapshot → Bool → Snapshot
set_fan_boost_state s enabled = record s {
  requested = record s.requested { has_fan_boost = true; fan_boost_enabled = enabled };
  effective = record s.effective { has_fan_boost = true; fan_boost_enabled = enabled };
}

-- `shadow_mode_for_state`
unfoldable pub shadow_mode_for_state : Snapshot → Mode
shadow_mode_for_state s =
    let (e, effective) = profile_name_to_mode s.effective.profile Mode.office in
    let (r, requested) = profile_name_to_mode s.requested.profile effective in
    if is_ok e then effective else if is_ok r then requested else Mode.office

abbrev boosted : StateTarget → Bool
boosted t = t.has_fan_boost && t.fan_boost_enabled

-- `fallback_mode_control`, on the shadow state.
unfoldable pub fallback_mode_control : Snapshot → ℕ
fallback_mode_control s =
    let control = mode_control_for_mode (shadow_mode_for_state s) in
    if boosted s.effective || boosted s.requested then add_boost control else control

-- `set_component_from_readback`; `source` is the live source.
unfoldable pub component_from_readback : Bool → Bool → Text → Attribution
component_from_readback live cached source =
    if live && cached
    then (component_set (literal "mixed") (literal "mixed")).1
    else if live
    then (component_set source (literal "live")).1
    else if cached
    then (component_set (literal "cache") (literal "cache")).1
    else (component_set [] []).1

-- `power_value_is_plausible`
unfoldable pub power_value_is_plausible : PowerField → ℕ → Bool
power_value_is_plausible PowerField.tcc_offset raw = true
power_value_is_plausible _ raw = ltb 0 raw

-- `set_power_field_from_readback`
unfoldable pub power_field_from_readback : EffectiveMeta → PowerField → Bool → Bool → EffectiveMeta
power_field_from_readback m field live cached =
    if live && cached
    then (power_field_set m field (literal "mixed") (literal "mixed")).1
    else if live
    then (power_field_set m field (literal "amw0") (literal "live")).1
    else if cached
    then (power_field_set m field (literal "cache") (literal "cache")).1
    else (power_field_set m field [] []).1

abbrev pub cached_component : Attribution
cached_component = (component_set (literal "cache") (literal "cache")).1

-- The attribution of the profile and of the fan boost to the cache, as the writes of the mode do.
abbrev pub mark_mode_cached : Snapshot → Snapshot
mark_mode_cached s = state_finalize (record s {
  effective_meta = record s.effective_meta {
    profile = cached_component;
    fan_boost = cached_component;
  };
})

-- The shadow state that `seed_shadow_state` leaves.
abbrev named_shadow : Snapshot
named_shadow = record zero_snapshot {
  backend_name = (copy_field backend_name_max [] (literal "amw0")).1;
  backend_selected = (copy_field backend_name_max [] (literal "amw0")).1;
  execution = (execution_set_all (literal "amw0")).1;
}

unfoldable pub seeded_shadow : Snapshot
seeded_shadow =
    let s =
      name_fan_table (name_profile named_shadow (literal "office")) (literal "system-default") in
    state_finalize (record s {
      effective_meta = record s.effective_meta {
        profile = cached_component;
        fan_table = cached_component;
      };
    })

module _ {W : Type 0} where
  -- `cache_mode_control`
  abbrev pub cache_mode_control : Amw0 W → ℕ → Amw0 W
  cache_mode_control a control = record a {
    shadow_mode_control = control;
    has_shadow_mode_control = true;
  }

  -- `seed_shadow_state`
  unfoldable pub seed_shadow_state : Amw0 W → Amw0 W
  seed_shadow_state a = record a {
    shadow_state = seeded_shadow;
    has_shadow_mode_control = false;
    shadow_mode_control = 0;
  }
