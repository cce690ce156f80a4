-- ===== src/Attribution/Finalize.antt =====
-- `lcc_backend_effective_meta_finalize` of src/backends/backend.c, against its description by what
-- the parts agree on.
use kuangshi16pro_series_gm.Prelude.{
  ◌<◌, ◌≡◌, refl, inl, inr, Bool, false, ◌||◌, List, [], ◌∷◌, arith, if◌then◌else◌, length,
  Bool-cases, ap, ◌∙◌,
}
use kuangshi16pro_series_gm.Text.{Text, literal}
use kuangshi16pro_series_gm.State.{backend_name_max, Attribution, EffectiveMeta, zero_attribution}
use kuangshi16pro_series_gm.Attribution.{
  merge_text, merge_all, component_has_attribution, component_merge, merge_power_fields,
  fields_list, finalize_power, components, sources, freshnesses, meta_finalize,
}
use kuangshi16pro_series_gm.Attribution.Consensus.{
  named, agreed, consensus, AllFit, merge_all-eq-consensus,
}

-- Both texts fit their buffers of LCC_STATE_BACKEND_NAME_MAX bytes.
abbrev pub Fits : Attribution → Type 0
Fits c = (length c.source < backend_name_max) × (length c.freshness < backend_name_max)

abbrev pub AllFits : List Attribution → Type 0
AllFits [] = Unit {0}
AllFits (c ∷ cs) = Fits c × AllFits cs

-- Every buffer that the finalization reads holds a C string.
pub record IsBounded (m : EffectiveMeta) : Type 0 where
  pub parts : AllFits (components m)
  pub fields : AllFits (fields_list m.power_fields)

AllFit-sources : (cs : List Attribution) → AllFits cs → AllFit (sources cs)
AllFit-sources [] h = tt
AllFit-sources (c ∷ cs) h = (h.0.0, AllFit-sources cs h.1)

AllFit-freshnesses : (cs : List Attribution) → AllFits cs → AllFit (freshnesses cs)
AllFit-freshnesses [] h = tt
AllFit-freshnesses (c ∷ cs) h = (h.0.1, AllFit-freshnesses cs h.1)

sources_agreed :
    (cs : List Attribution) → AllFits cs → merge_all [] (sources cs) ≡ consensus (sources cs)
sources_agreed cs h = merge_all-eq-consensus (sources cs) (AllFit-sources cs h)

freshnesses_agreed :
    (cs : List Attribution)
    → AllFits cs
    → merge_all [] (freshnesses cs) ≡ consensus (freshnesses cs)
freshnesses_agreed cs h = merge_all-eq-consensus (freshnesses cs) (AllFit-freshnesses cs h)

abbrev pub any_attributed : List Attribution → Bool
any_attributed [] = false
any_attributed (c ∷ cs) = component_has_attribution c || any_attributed cs

agreed_fits : (vs : List Text) → AllFit vs → length (agreed vs) < backend_name_max
unfolding literal
agreed_fits [] h = omega arith
agreed_fits (v ∷ vs) h = ground arith

named_fits : (vs : List Text) → AllFit vs → AllFit (named vs)
named_fits [] h = tt
named_fits ([] ∷ vs) h = named_fits vs h.1
named_fits ((c ∷ v) ∷ vs) h = (h.0, named_fits vs h.1)

consensus_fits : (vs : List Text) → AllFit vs → length (consensus vs) < backend_name_max
unfolding consensus
consensus_fits vs h = agreed_fits (named vs) (named_fits vs h)

-- The component that merging `c` and then `cs` into `p` leaves.
abbrev component_merged : Attribution → List Attribution → Attribution → Attribution
component_merged c cs p = record {
  source = merge_all p.source (sources (c ∷ cs));
  freshness = merge_all p.freshness (freshnesses (c ∷ cs));
}

merge_step :
    (p c : Attribution)
    → (if component_has_attribution c then component_merge p c.source c.freshness else p)
      ≡ component_merge p c.source c.freshness
unfolding component_merge merge_text
merge_step p c = ground arith

or_regroup : (a b c : Bool) → (b || (a || c)) ≡ ((a || b) || c)
or_regroup a b c = ground arith

-- The loop merges the texts of all four fields, since an unattributed one has none to merge.
merge_power_fields_lem :
    (b : Bool) (p : Attribution) (cs : List Attribution)
    → merge_power_fields b p cs ≡ (
      any_attributed cs || b,
      record {
        source = merge_all p.source (sources cs);
        freshness = merge_all p.freshness (freshnesses cs);
      },
    )
unfolding merge_power_fields merge_all component_merge
merge_power_fields_lem b p [] = refl
merge_power_fields_lem b p (c ∷ cs) = rw (merge_step p c) (
    merge_power_fields_lem (component_has_attribution c || b)
      (component_merge p c.source c.freshness) cs
    ∙ ap (λ (f : Bool). (f, component_merged c cs p))
        (or_regroup (component_has_attribution c) (any_attributed cs) b))

-- What the finalization makes of the power component.
pub power_summary : EffectiveMeta → Attribution
power_summary m =
    if any_attributed (fields_list m.power_fields)
    then record {
      source = consensus (sources (fields_list m.power_fields));
      freshness = consensus (freshnesses (fields_list m.power_fields));
    }
    else m.power

-- For all metadata, `lcc_backend_effective_meta_finalize` after itself changes nothing more.
pub meta_finalize_idem : (m : EffectiveMeta) → meta_finalize (meta_finalize m) ≡ meta_finalize m
unfolding meta_finalize finalize_power
meta_finalize_idem m = ground arith

-- The power component after the finalization.
finalize_power-eq-summary : (m : EffectiveMeta) → IsBounded m → finalize_power m ≡ power_summary m
unfolding finalize_power power_summary
finalize_power-eq-summary m h =
    rw
      (
        merge_power_fields_lem false zero_attribution (fields_list m.power_fields),
        sources_agreed (fields_list m.power_fields) h.fields,
        freshnesses_agreed (fields_list m.power_fields) h.fields,
      )
      (ground arith)

power_summary-Fits : (m : EffectiveMeta) → IsBounded m → Fits (power_summary m)
unfolding power_summary
power_summary-Fits m h =
    let fields = fields_list m.power_fields in
    elim (Bool-cases (any_attributed fields)) [
      | inl e ↦ rw e (
        consensus_fits (sources fields) (AllFit-sources fields h.fields),
        consensus_fits (freshnesses fields) (AllFit-freshnesses fields h.fields),
      )
      | inr e ↦ rw e h.parts.1.1.1.0
    ]

-- Replacing the power component by its summary.
abbrev pub summarised : EffectiveMeta → EffectiveMeta
summarised m = record m { power = power_summary m }

summarised_fits : (m : EffectiveMeta) → IsBounded m → AllFits (components (summarised m))
summarised_fits m h =
    (h.parts.0, (h.parts.1.0, (h.parts.1.1.0, (power_summary-Fits m h, h.parts.1.1.1.1))))

-- For metadata whose buffers hold C strings, `lcc_backend_effective_meta_finalize` sets the power
-- component to what the four power fields agree on (and leaves it if none of them is attributed), then
-- sets the overall source and freshness to what the five components agree on: nothing, the one text
-- they name, or "mixed". It changes nothing else.
pub meta_finalize-eq-summary :
    (m : EffectiveMeta)
    → IsBounded m
    → meta_finalize m ≡ record (summarised m) {
      source = consensus (sources (components (summarised m)));
      freshness = consensus (freshnesses (components (summarised m)));
    }
unfolding meta_finalize
meta_finalize-eq-summary m h =
    let fits : AllFits (components (summarised m)) = summarised_fits m h in
    rw (finalize_power-eq-summary m h) (λ i. record (summarised m) {
      source = sources_agreed (components (summarised m)) fits i;
      freshness = freshnesses_agreed (components (summarised m)) fits i;
    })
