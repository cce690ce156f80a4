-- ===== src/Attribution.antt =====
-- src/backends/backend.c, first half: the copying and merging of texts, and the attribution of each
-- part of the effective state to a source and a freshness (`lcc_effective_state_metadata_t`).
-- A function that writes through a pointer returns the new value, and its status first if it has
-- one. `has_text` does not tell NULL from the empty string, so NULL is the empty text here.
pub mod Consensus
pub mod Finalize
pub mod Cached
use kuangshi16pro_series_gm.Prelude.{
  ℕ, Bool, true, false, not, ◌&&◌, ◌||◌, List, [], ◌∷◌, ltb, if◌then◌else◌, length,
}
use kuangshi16pro_series_gm.Text.{Text, literal, is_empty, fit, is_same}
use kuangshi16pro_series_gm.Status.{Status, is_ok}
use kuangshi16pro_series_gm.State.{
  backend_name_max, OptionalByte, PowerLimits, Attribution, PowerFields, EffectiveMeta, Thermal,
  Snapshot, zero_attribution, zero_power_fields,
}

-- `lcc_backend_copy_text` into a buffer of n bytes that holds `buffer`.
unfoldable pub copy_text : ℕ → Text → Text → Status × Text
copy_text n buffer value =
    if is_empty value
    then (Status.invalid_argument, buffer)
    else (if ltb (length value) n then Status.ok else Status.buffer_too_small, fit n value)

abbrev pub has_text : Text → Bool
has_text t = not (is_empty t)

abbrev pub component_has_attribution : Attribution → Bool
component_has_attribution c = has_text c.source || has_text c.freshness

abbrev pub mixed : Text
mixed = literal "mixed"

-- `merge_text`, on a buffer of LCC_STATE_BACKEND_NAME_MAX bytes and the mixed value "mixed", as every
-- call passes.
unfoldable pub merge_text : Text → Text → Text
merge_text buffer value =
    if is_empty value
    then buffer
    else if is_empty buffer
    then (copy_text backend_name_max buffer value).1
    else if is_same buffer value
    then buffer
    else (copy_text backend_name_max [] mixed).1

-- Consecutive calls of `merge_text` on one buffer.
unfoldable pub merge_all : Text → List Text → Text
merge_all buffer [] = buffer
merge_all buffer (v ∷ vs) = merge_all (merge_text buffer v) vs

pub data PowerField : Type 0 where
  pl1 pl2 pl4 tcc_offset : PowerField

-- `power_field_component` gives a pointer into the metadata: here a read and a write.
abbrev pub power_field : EffectiveMeta → PowerField → Attribution
power_field m PowerField.pl1 = m.power_fields.pl1
power_field m PowerField.pl2 = m.power_fields.pl2
power_field m PowerField.pl4 = m.power_fields.pl4
power_field m PowerField.tcc_offset = m.power_fields.tcc_offset

abbrev pub set_power_field : EffectiveMeta → PowerField → Attribution → EffectiveMeta
set_power_field m PowerField.pl1 c = record m { power_fields = record m.power_fields { pl1 = c } }
set_power_field m PowerField.pl2 c = record m { power_fields = record m.power_fields { pl2 = c } }
set_power_field m PowerField.pl4 c = record m { power_fields = record m.power_fields { pl4 = c } }
set_power_field m PowerField.tcc_offset c = record m {
  power_fields = record m.power_fields { tcc_offset = c };
}

-- A text copied into an empty buffer of LCC_STATE_BACKEND_NAME_MAX bytes, if there is one.
abbrev pub set_text : Text → Status × Text
set_text value = if is_empty value then (Status.ok, []) else copy_text backend_name_max [] value

-- `lcc_backend_effective_component_set`
unfoldable pub component_set : Text → Text → Status × Attribution
component_set source freshness =
    let (s1, t1) = set_text source in
    let (s2, t2) = set_text freshness in
    if is_ok s1
    then (
      if is_ok s2 then Status.ok else Status.buffer_too_small,
      record { source = t1; freshness = t2 },
    )
    else (Status.buffer_too_small, record { source = t1; freshness = [] })

-- `lcc_backend_effective_component_merge`
unfoldable pub component_merge : Attribution → Text → Text → Attribution
component_merge c source freshness = record {
  source = merge_text c.source source;
  freshness = merge_text c.freshness freshness;
}

-- `lcc_backend_effective_power_field_set`
unfoldable pub power_field_set : EffectiveMeta → PowerField → Text → Text → Status × EffectiveMeta
power_field_set m k source freshness =
    let (s, c) = component_set source freshness in (s, set_power_field m k c)

-- `lcc_backend_effective_power_field_merge`
unfoldable pub power_field_merge : EffectiveMeta → PowerField → Text → Text → EffectiveMeta
power_field_merge m k source freshness =
    set_power_field m k (component_merge (power_field m k) source freshness)

-- `lcc_backend_effective_power_clear`
abbrev pub power_clear : EffectiveMeta → EffectiveMeta
power_clear m = record m { power = zero_attribution; power_fields = zero_power_fields }

abbrev set_if_present : OptionalByte → PowerField → Text → Text → EffectiveMeta → EffectiveMeta
set_if_present b k source freshness m =
    if b.present then (power_field_set m k source freshness).1 else m

-- The body of `lcc_backend_effective_power_set_from_limits` for limits that are given.
unfoldable pub power_set_given : EffectiveMeta → PowerLimits → Text → Text → EffectiveMeta
unfolding power_field_set
power_set_given m limits s f = set_if_present limits.tcc_offset PowerField.tcc_offset s f (
    set_if_present limits.pl4 PowerField.pl4 s f (
      set_if_present limits.pl2 PowerField.pl2 s f
        (set_if_present limits.pl1 PowerField.pl1 s f (power_clear m))))

-- `lcc_backend_effective_power_set_from_limits`; the flag tells limits that are given from NULL.
unfoldable pub power_set_from_limits :
    EffectiveMeta → Bool → PowerLimits → Text → Text → EffectiveMeta
unfolding power_set_given
power_set_from_limits m given limits source freshness =
    if given then power_set_given m limits source freshness else power_clear m

-- The loop of `lcc_backend_effective_meta_finalize` over the four power fields, on the flag
-- `has_power_field_attribution` and the component `power`.
unfoldable pub merge_power_fields : Bool → Attribution → List Attribution → Bool × Attribution
merge_power_fields found power [] = (found, power)
merge_power_fields found power (c ∷ cs) =
    merge_power_fields (component_has_attribution c || found)
      (if component_has_attribution c then component_merge power c.source c.freshness else power) cs

abbrev pub fields_list : PowerFields → List Attribution
fields_list f = f.pl1 ∷ f.pl2 ∷ f.pl4 ∷ f.tcc_offset ∷ []

unfoldable pub finalize_power : EffectiveMeta → Attribution
finalize_power m =
    let (found, power) = merge_power_fields false zero_attribution (fields_list m.power_fields) in
    if found then power else m.power

-- The five components that the overall attribution merges, in order.
abbrev pub components : EffectiveMeta → List Attribution
components m = m.profile ∷ m.fan_table ∷ m.fan_boost ∷ m.power ∷ m.thermal ∷ []

abbrev pub sources : List Attribution → List Text
sources [] = []
sources (c ∷ cs) = c.source ∷ sources cs

abbrev pub freshnesses : List Attribution → List Text
freshnesses [] = []
freshnesses (c ∷ cs) = c.freshness ∷ freshnesses cs

-- `lcc_backend_effective_meta_finalize`
unfoldable pub meta_finalize : EffectiveMeta → EffectiveMeta
meta_finalize m =
    let m1 = record m { power = finalize_power m } in
    record m1 {
      source = merge_all [] (sources (components m1));
      freshness = merge_all [] (freshnesses (components m1));
    }

-- `lcc_backend_state_finalize_effective_meta`
abbrev pub state_finalize : Snapshot → Snapshot
state_finalize s = record s { effective_meta = meta_finalize s.effective_meta }

abbrev pub has_thermal : Thermal → Bool
has_thermal t =
    t.has_cpu_temp_c || t.has_gpu_temp_c || t.has_cpu_fan_rpm || t.has_gpu_fan_rpm
    || t.has_vendor_fan_level

abbrev pub cache : Text
cache = literal "cache"

abbrev pub cache_if : Bool → Attribution
cache_if b = (component_set (if b then cache else []) (if b then cache else [])).1

-- `lcc_backend_state_mark_effective_cached`
unfoldable pub mark_effective_cached : Snapshot → Snapshot
mark_effective_cached s =
    let m1 = record s.effective_meta {
      profile = cache_if (has_text s.effective.profile);
      fan_table = cache_if (has_text s.effective.fan_table);
      fan_boost = cache_if s.effective.has_fan_boost;
    } in
    let m2 =
      power_set_from_limits m1 s.effective.has_power_limits s.effective.power_limits cache cache in
    let m3 = record m2 { thermal = cache_if (has_thermal s.thermal) } in
    record s { effective_meta = meta_finalize m3 }
