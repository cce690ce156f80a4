-- ===== src/Converged/Split.antt =====
-- The mixed path of `converged_apply_power_limits` (src/backends/converged/backend.c).
use kuangshi16pro_series_gm.Prelude.{
  ◌≡◌, refl, true, false, not, some, ◌&&◌, ◌||◌, arith, if◌then◌else◌,
}
use kuangshi16pro_series_gm.Text.{Text, literal, fit}
use kuangshi16pro_series_gm.Status.{Status, is_ok}
use kuangshi16pro_series_gm.State.{PowerLimits, zero_byte}
use kuangshi16pro_series_gm.Attribution.{copy_text}
use kuangshi16pro_series_gm.Backend.{
  BackendResult, Backend, result_reset, backend_name, set_stage, set_executor, set_detail,
  backend_apply_power_limits,
}
use kuangshi16pro_series_gm.Request.{merge_limits, merge_optional_byte}
use kuangshi16pro_series_gm.Converged.{
  Converged, copy_subset, capability_for_route, standard_serves, amw0_serves, route_name,
}
use kuangshi16pro_series_gm.Converged.Apply.{call_standard, call_amw0}
use kuangshi16pro_series_gm.Converged.Chain.{Tried}
use kuangshi16pro_series_gm.Converged.Power.{
  mixed_result, set_mixed_power_detail, standard_part, amw0_part, is_mixed, apply_split,
  converged_apply_power_limits,
}

-- The two parts of a request for power limits, each put into the limits that were asked for before,
-- come to what the request itself comes to, in either order.
merge_limits-parts :
    (old limits : PowerLimits)
    → (merge_limits (merge_limits old (standard_part limits)) (amw0_part limits)
        ≡ merge_limits old limits)
      × (merge_limits (merge_limits old (amw0_part limits)) (standard_part limits)
          ≡ merge_limits old limits)
unfolding merge_limits merge_optional_byte copy_subset
merge_limits-parts old limits = ground arith

-- The PL1 and PL2 fields of a request, and its PL4 and TCC fields; the others are absent and 0.
abbrev pub pl1_and_pl2 : PowerLimits → PowerLimits
pl1_and_pl2 l = record { pl1 = l.pl1; pl2 = l.pl2; pl4 = zero_byte; tcc_offset = zero_byte }

abbrev pub pl4_and_tcc : PowerLimits → PowerLimits
pl4_and_tcc l = record { pl1 = zero_byte; pl2 = zero_byte; pl4 = l.pl4; tcc_offset = l.tcc_offset }

copy_subset_lem :
    (l : PowerLimits) → (standard_part l ≡ pl1_and_pl2 l) × (amw0_part l ≡ pl4_and_tcc l)
unfolding copy_subset
copy_subset_lem l = (refl, refl)

set_mixed_power_detail_lem :
    (r on_standard on_amw0 : BackendResult) (suffix : Text)
    → let r' = set_mixed_power_detail r on_standard on_amw0 suffix in
      (r'.hardware_write ≡ r.hardware_write)
      × (r'.changed ≡ r.changed)
      × (r'.reboot_required ≡ r.reboot_required)
      × (r'.executor_backend ≡ r.executor_backend)
unfolding set_mixed_power_detail set_detail
set_mixed_power_detail_lem r on_standard on_amw0 suffix = (refl, refl, refl, refl)

mixed_result_lem :
    (s : Status) (on_standard on_amw0 : BackendResult)
    → let r = mixed_result s on_standard on_amw0 in
      (r.hardware_write ≡ (on_standard.hardware_write || on_amw0.hardware_write))
      × (r.changed ≡ (on_standard.changed || on_amw0.changed))
      × (r.reboot_required ≡ false)
      × (r.executor_backend ≡ literal "mixed")
unfolding mixed_result set_stage set_executor literal fit copy_text
mixed_result_lem s on_standard on_amw0 = set_mixed_power_detail_lem _ on_standard on_amw0 _

set_executor_lem :
    (r : BackendResult) (t : Text)
    → let r' = set_executor r t in
      (r'.hardware_write ≡ r.hardware_write)
      × (r'.changed ≡ r.changed)
      × (r'.reboot_required ≡ r.reboot_required)
unfolding set_executor
set_executor_lem r t = (refl, refl, refl)

module _ {S A : Type 0} where
  -- Both backends are there, available and capable of power limits, and the request has a field for
  -- each.
  pub record HasBoth (b : Backend S) (a : Backend A) (limits : PowerLimits) (cv : Converged S A)
      : Type 0 where
    pub standard_backend : cv.standard_backend ≡ some b
    pub amw0_backend : cv.amw0_backend ≡ some a
    pub standard_available : cv.standard_available ≡ true
    pub amw0_available : cv.amw0_available ≡ true
    pub standard_capable : cv.standard_capabilities.can_apply_power_limits ≡ true
    pub amw0_capable : cv.amw0_capabilities.can_apply_power_limits ≡ true
    pub standard_fields : (limits.pl1.present || limits.pl2.present) ≡ true
    pub amw0_fields : (limits.pl4.present || limits.tcc_offset.present) ≡ true

  -- Both calls of the mixed path are accounted for in its outcome.
  pub IsSplit : Backend S → Backend A → PowerLimits → Converged S A → Tried S A → Type 0
  IsSplit b a limits cv (s, r, cv') =
      let (s1, r1, b1) = backend_apply_power_limits (some (pl1_and_pl2 limits)) b result_reset in
      let (s2, r2, a2) = backend_apply_power_limits (some (pl4_and_tcc limits)) a result_reset in
      (s ≡ (if is_ok s1 then s2 else s1))
      × (cv' ≡ (record cv {
        standard_backend = some b1;
        amw0_backend = some (if is_ok s1 then a2 else a);
      }))
      × (r.changed ≡ (r1.changed || (is_ok s1 && r2.changed)))
      × (r.hardware_write ≡ (r1.hardware_write || (is_ok s1 && r2.hardware_write)))
      × (r.reboot_required ≡ (not (is_ok s1) && r1.reboot_required))
      × (r.executor_backend ≡ (
          if is_ok s1
          then literal "mixed"
          else (set_executor r1 (backend_name b1)).executor_backend))

  HasBoth-mixed :
      (b : Backend S) (a : Backend A) (limits : PowerLimits) (cv : Converged S A)
      → HasBoth b a limits cv
      → is_mixed cv limits ≡ true
  unfolding is_mixed standard_serves amw0_serves capability_for_route
  HasBoth-mixed b a limits cv h =
      rw
        (
          h.standard_fields, h.amw0_fields, h.standard_available, h.amw0_available,
          h.standard_capable, h.amw0_capable,
        )
        refl

  converged_apply_power_limits-mixed :
      (b : Backend S) (a : Backend A) (limits : PowerLimits) (r : BackendResult)
      (cv : Converged S A)
      → HasBoth b a limits cv
      → converged_apply_power_limits limits r cv ≡ apply_split limits cv
  unfolding converged_apply_power_limits
  converged_apply_power_limits-mixed b a limits r cv h =
      ground (arith, HasBoth-mixed b a limits cv h, h.standard_fields)

  apply_split-IsSplit :
      (b : Backend S) (a : Backend A) (limits : PowerLimits) (cv : Converged S A)
      → HasBoth b a limits cv
      → IsSplit b a limits cv (apply_split limits cv)
  unfolding apply_split IsSplit call_standard call_amw0 route_name
  apply_split-IsSplit b a limits cv h =
      rw
        (
          apply_split,
          (copy_subset_lem limits).0,
          (copy_subset_lem limits).1,
          h.standard_backend,
          h.amw0_backend,
        )
        (grind (arith, mixed_result_lem, set_executor_lem))

  -- Where both backends are there, available and capable, and a request for power limits has fields for
  -- each, the standard backend gets the PL1 and PL2 fields, with PL4 and TCC absent, and, if it accepts
  -- them, amw0 gets the PL4 and TCC fields, with PL1 and PL2 absent; amw0 is left as it is if the
  -- standard backend refuses. The status is that of amw0, or that of the standard backend if it
  -- refuses. A change or a hardware write is reported exactly if one of the calls that were made did
  -- so, and a reboot that a call asked for only if the standard backend refused. The executor is
  -- "mixed" if the standard backend accepts, and else what `lcc_backend_result_set_executor` makes of
  -- the name of the standard backend.
  pub converged_apply_power_limits-IsSplit :
      (b : Backend S) (a : Backend A) (limits : PowerLimits) (r : BackendResult)
      (cv : Converged S A)
      → HasBoth b a limits cv
      → IsSplit b a limits cv (converged_apply_power_limits limits r cv)
  converged_apply_power_limits-IsSplit b a limits r cv h =
      rw (converged_apply_power_limits-mixed b a limits r cv h)
        (apply_split-IsSplit b a limits cv h)
