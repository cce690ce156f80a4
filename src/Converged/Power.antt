-- ===== src/Converged/Power.antt =====
-- src/backends/converged/backend.c: `converged_apply_power_limits`, which splits a request between the
-- two backends where both are capable and it has fields for each.
use kuangshi16pro_series_gm.Prelude.{
  Bool, true, false, not, some, [], ◌&&◌, ◌||◌, ◌++◌, if◌then◌else◌,
}
use kuangshi16pro_series_gm.Text.{Text, literal, is_empty, fit}
use kuangshi16pro_series_gm.Status.{Status, is_ok}
use kuangshi16pro_series_gm.State.{reason_max, PowerLimits}
use kuangshi16pro_series_gm.Backend.{
  BackendResult, Call, result_reset, set_stage, set_executor, set_detail,
  backend_apply_power_limits,
}
use kuangshi16pro_series_gm.Converged.{
  RouteKind, Route, Converged, has_standard_fields, has_amw0_fields, copy_subset, standard_serves,
  amw0_serves, set_result_executor,
}
use kuangshi16pro_series_gm.Converged.Apply.{call_standard, call_amw0, routed}

-- The stage of a result, "none" where it is empty, cut as "%.48s" cuts.
unfoldable pub stage_name : BackendResult → Text
stage_name r = fit 49 (if is_empty r.stage then literal "none" else r.stage)

-- `set_mixed_power_detail`
unfoldable pub set_mixed_power_detail :
    BackendResult → BackendResult → BackendResult → Text → BackendResult
set_mixed_power_detail r on_standard on_amw0 suffix = set_detail r (
    fit reason_max (
      literal "standard_stage="
      ++ (stage_name on_standard
          ++ (literal " amw0_stage="
              ++ (stage_name on_amw0
                  ++ (if is_empty suffix then [] else literal " reason=" ++ fit 57 suffix))))))

-- What the mixed path reports after both writes.
unfoldable pub mixed_result : Status → BackendResult → BackendResult → BackendResult
mixed_result s on_standard on_amw0 =
    set_mixed_power_detail
      (set_stage
        (set_executor
          (record result_reset {
            changed = on_standard.changed || on_amw0.changed;
            hardware_write = on_standard.hardware_write || on_amw0.hardware_write;
          })
          (literal "mixed"))
        (literal "mixed-power-apply"))
      on_standard on_amw0 (if is_ok s then [] else on_amw0.detail)

abbrev pub standard_part : PowerLimits → PowerLimits
standard_part limits = copy_subset limits true false

abbrev pub amw0_part : PowerLimits → PowerLimits
amw0_part limits = copy_subset limits false true

module _ {S A : Type 0} where
  -- The guard of the mixed path.
  unfoldable pub is_mixed : Converged S A → PowerLimits → Bool
  is_mixed cv limits =
      has_standard_fields limits
      && has_amw0_fields limits
      && (standard_serves cv RouteKind.apply_power_limits
          && amw0_serves cv RouteKind.apply_power_limits)

  -- The body of the mixed path.
  unfoldable pub apply_split : PowerLimits → Converged S A → Status × BackendResult × Converged S A
  apply_split limits cv =
      let (s, on_standard, cv') =
        call_standard (backend_apply_power_limits (some (standard_part limits))) result_reset cv in
      if is_ok s
      then (let (s', on_amw0, cv'') =
            call_amw0 (backend_apply_power_limits (some (amw0_part limits))) result_reset cv' in
          (s', mixed_result s' on_standard on_amw0, cv''))
      else (s, set_result_executor on_standard cv' Route.standard, cv')

  -- `converged_apply_power_limits`
  unfoldable pub converged_apply_power_limits : PowerLimits → Call (Converged S A)
  converged_apply_power_limits limits r cv =
      if not (has_standard_fields limits) && not (has_amw0_fields limits)
      then (
        Status.invalid_argument,
        set_detail result_reset (literal "power limit write requires at least one present field"),
        cv,
      )
      else if is_mixed cv limits
      then apply_split limits cv
      else routed RouteKind.apply_power_limits (literal "apply_power_limits")
          (literal "no converged backend can apply power limits")
          (backend_apply_power_limits (some limits)) (backend_apply_power_limits (some limits)) r cv
