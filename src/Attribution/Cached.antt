-- ===== src/Attribution/Cached.antt =====
-- `lcc_backend_state_mark_effective_cached` of src/backends/backend.c: after a failed read, the whole
-- of what the snapshot still knows is attributed to the cache, and nothing else is.
use kuangshi16pro_series_gm.Prelude.{
  ◌≡◌, refl, Bool, true, false, ◌&&◌, ◌||◌, List, [], ◌∷◌, arith, if◌then◌else◌,
}
use kuangshi16pro_series_gm.Text.{Text, literal, fit, is_same}
use kuangshi16pro_series_gm.Status.{Status}
use kuangshi16pro_series_gm.State.{
  OptionalByte, StateTarget, Attribution, PowerFields, EffectiveMeta, Snapshot, zero_attribution,
}
use kuangshi16pro_series_gm.Attribution.{
  cache, has_text, has_thermal, copy_text, merge_text, merge_all, component_set, component_merge,
  power_set_from_limits, power_field_set, merge_power_fields, finalize_power, sources, freshnesses,
  meta_finalize, cache_if, mark_effective_cached,
}

-- The attribution of a part that the snapshot knows, or does not.
unfoldable pub cached : Bool → Attribution
cached b = if b then record { source = cache; freshness = cache } else zero_attribution

cache_if-eq-cached : (b : Bool) → cache_if b ≡ cached b
unfolding cached component_set copy_text fit literal
cache_if-eq-cached true = refl
cache_if-eq-cached false = refl

-- Which of the power fields the snapshot knows.
abbrev pub known : StateTarget → OptionalByte → Bool
known t b = t.has_power_limits && b.present

abbrev pub cached_fields : StateTarget → PowerFields
cached_fields t = record {
  pl1 = cached (known t t.power_limits.pl1);
  pl2 = cached (known t t.power_limits.pl2);
  pl4 = cached (known t t.power_limits.pl4);
  tcc_offset = cached (known t t.power_limits.tcc_offset);
}

abbrev pub knows_power : StateTarget → Bool
knows_power t =
    t.has_power_limits
    && (t.power_limits.pl1.present || t.power_limits.pl2.present || t.power_limits.pl4.present
        || t.power_limits.tcc_offset.present)

abbrev pub knows_any : Snapshot → Bool
knows_any s =
    has_text s.effective.profile
    || has_text s.effective.fan_table
    || s.effective.has_fan_boost
    || knows_power s.effective
    || has_thermal s.thermal

component_set-cache : component_set cache cache ≡ (Status.ok, cached true)
unfolding cached component_set copy_text fit literal
component_set-cache = refl

-- The power attribution is set field by field; the component itself is cleared.
power_set-cached :
    (m : EffectiveMeta) (t : StateTarget)
    → power_set_from_limits m t.has_power_limits t.power_limits cache cache
      ≡ record m { power = zero_attribution; power_fields = cached_fields t }
unfolding power_set_from_limits power_field_set cached
power_set-cached m t = ground (arith, component_set-cache)

-- Merging components that are each cached or unattributed.
cached_list : List Bool → List Attribution
cached_list [] = []
cached_list (b ∷ bs) = cached b ∷ cached_list bs

abbrev any : List Bool → Bool
any [] = false
any (b ∷ bs) = b || any bs

merge_all_cached :
    (bs : List Bool)
    → (merge_all cache (sources (cached_list bs)) ≡ cache)
      × (merge_all cache (freshnesses (cached_list bs)) ≡ cache)
unfolding merge_all merge_text cached cached_list literal is_same
merge_all_cached [] = (refl, refl)
merge_all_cached (true ∷ bs) = merge_all_cached bs
merge_all_cached (false ∷ bs) = merge_all_cached bs

abbrev text_if : Bool → Text
text_if b = if b then cache else []

merge_all_none :
    (bs : List Bool)
    → (merge_all [] (sources (cached_list bs)) ≡ text_if (any bs))
      × (merge_all [] (freshnesses (cached_list bs)) ≡ text_if (any bs))
unfolding merge_all merge_text copy_text fit cached cached_list literal
merge_all_none [] = (refl, refl)
merge_all_none (true ∷ bs) = merge_all_cached bs
merge_all_none (false ∷ bs) = merge_all_none bs

abbrev power_flags : StateTarget → List Bool
power_flags t =
    known t t.power_limits.pl1
    ∷ known t t.power_limits.pl2
    ∷ known t t.power_limits.pl4
    ∷ known t t.power_limits.tcc_offset
    ∷ []

-- The attribution that the finalization computes over cached fields.
finalize_power-cached :
    (m : EffectiveMeta) (t : StateTarget)
    → finalize_power (record m { power = zero_attribution; power_fields = cached_fields t })
      ≡ cached (knows_power t)
unfolding finalize_power merge_power_fields component_merge merge_text copy_text fit cached literal
    is_same
finalize_power-cached m t = ground arith

abbrev parts_flags : Snapshot → List Bool
parts_flags s =
    has_text s.effective.profile
    ∷ has_text s.effective.fan_table
    ∷ s.effective.has_fan_boost
    ∷ knows_power s.effective
    ∷ has_thermal s.thermal
    ∷ []

-- The attribution of a snapshot whose every part comes from the cache.
pub cached_meta : Snapshot → EffectiveMeta
cached_meta s = record {
  source = text_if (any (parts_flags s));
  freshness = text_if (any (parts_flags s));
  profile = cached (has_text s.effective.profile);
  fan_table = cached (has_text s.effective.fan_table);
  fan_boost = cached s.effective.has_fan_boost;
  power = cached (knows_power s.effective);
  power_fields = cached_fields s.effective;
  thermal = cached (has_thermal s.thermal);
}

-- The metadata with its other components attributed.
abbrev attributed : Snapshot → EffectiveMeta
attributed s = record s.effective_meta {
  profile = cached (has_text s.effective.profile);
  fan_table = cached (has_text s.effective.fan_table);
  fan_boost = cached s.effective.has_fan_boost;
  thermal = cached (has_thermal s.thermal);
}

-- For every snapshot, `lcc_backend_state_mark_effective_cached` attributes to the cache exactly those
-- parts of the effective state that the snapshot knows, leaves the others unattributed, says "cache"
-- of the whole if it knows any part, and changes nothing but the attribution.
pub mark_effective_cached_lem :
    (s : Snapshot) → mark_effective_cached s ≡ record s { effective_meta = cached_meta s }
unfolding mark_effective_cached meta_finalize cached_meta cached_list
mark_effective_cached_lem s = rw (
  cache_if-eq-cached (has_text s.effective.profile),
  cache_if-eq-cached (has_text s.effective.fan_table),
  cache_if-eq-cached s.effective.has_fan_boost,
  cache_if-eq-cached (has_thermal s.thermal),
  power_set-cached,
  finalize_power-cached (attributed s) s.effective,
  (merge_all_none (parts_flags s)).0,
  (merge_all_none (parts_flags s)).1,
)
