-- ===== src/Converged/Selection.antt =====
-- src/backends/converged/backend.c: `lcc_converged_backend_init`, the selection of a family and the
-- reason for a fallback, and `converged_probe`.
use kuangshi16pro_series_gm.Prelude.{
  ℕ, ◌-◌, Bool, true, false, not, ◌&&◌, ◌||◌, Option, none, some, [], ◌++◌, leb, if◌then◌else◌,
  length,
}
use kuangshi16pro_series_gm.Text.{Text, literal, is_empty, is_same, fit}
use kuangshi16pro_series_gm.Status.{Status, is_ok, status_string}
use kuangshi16pro_series_gm.State.{backend_name_max, reason_max, zero_execution}
use kuangshi16pro_series_gm.Attribution.{copy_text}
use kuangshi16pro_series_gm.Metadata.{execution_set}
use kuangshi16pro_series_gm.Backend.{Capabilities, BackendResult, Backend, result_reset}
use kuangshi16pro_series_gm.Summary.{Filling}
use kuangshi16pro_series_gm.Converged.{RouteKind, Converged, primary_backend, route_backend_name}

-- `append_operation` on a buffer of n bytes; the name is never empty.
unfoldable pub append_operation : ℕ → Text → Filling → Filling
append_operation n name (buffer, first) =
    if leb (n - 1) (length buffer)
    then (buffer, first)
    else (buffer ++ fit (n - length buffer) ((if first then [] else literal ", ") ++ name), false)

abbrev append_if : Bool → Text → Filling → Filling
append_if b name filling = if b then append_operation 128 name filling else filling

abbrev pub is_amw0_name : Text → Bool
is_amw0_name t = is_same t (literal "amw0")

module _ {S A : Type 0} where
  abbrev primary_name : Converged S A → RouteKind → Text
  primary_name cv k = route_backend_name cv (primary_backend cv k)

  -- The operations that go to amw0 although the standard backend is selected.
  unfoldable pub fallback_ops : Converged S A → Text
  fallback_ops cv =
      (append_if (is_amw0_name cv.execution.apply_fan_boost) (literal "apply_fan_boost") (
        append_if (is_amw0_name cv.execution.apply_fan_table) (literal "apply_fan_table") (
          append_if (is_amw0_name cv.execution.apply_power_limits) (literal "apply_power_limits") (
            append_if (is_amw0_name cv.execution.apply_mode) (literal "apply_mode") (
              append_if (is_amw0_name cv.execution.apply_profile) (literal "apply_profile")
                ([], true)))))).0

  -- The operations that no backend has.
  unfoldable pub missing_ops : Converged S A → Text
  missing_ops cv =
      (append_if (not cv.standard_capabilities.can_apply_fan_boost) (literal "apply_fan_boost") (
        append_if (not cv.standard_capabilities.can_apply_fan_table) (literal "apply_fan_table") (
          append_if (not cv.standard_capabilities.can_apply_power_limits)
            (literal "apply_power_limits") ([], true)))).0

  -- The reason that is recorded when the standard backend is selected.
  unfoldable pub standard_reason : Converged S A → Text
  standard_reason cv =
      if not (is_empty (fallback_ops cv))
      then fit reason_max (
          literal "amw0 handles "
          ++ (fallback_ops cv ++ literal " because standard backend does not support them"))
      else if not cv.amw0_available && not (is_empty (missing_ops cv))
      then fit reason_max (literal "no amw0 fallback is available for " ++ missing_ops cv)
      else []

  -- The reason that is recorded when amw0 is selected.
  unfoldable pub amw0_reason : Converged S A → Text
  amw0_reason cv =
      if is_ok cv.standard_status
      then fit reason_max (literal "standard backend is unavailable for all requested capabilities")
      else fit reason_max (literal "standard probe failed: " ++ status_string cv.standard_status)

  -- `build_selection_metadata`
  unfoldable pub build_selection_metadata : Converged S A → Converged S A
  build_selection_metadata cv =
      let cleared = record cv {
        backend_selected = [];
        backend_fallback_reason = [];
        execution = zero_execution;
      } in
      let routes =
        execution_set (primary_name cv RouteKind.read_state)
          (primary_name cv RouteKind.apply_profile) (primary_name cv RouteKind.apply_mode)
          (primary_name cv RouteKind.apply_power_limits) (primary_name cv RouteKind.apply_fan_table)
          (primary_name cv RouteKind.apply_fan_boost) in
      let selected = λ (name : Text). record cleared {
        backend_selected = (copy_text backend_name_max [] name).1;
        execution = routes.1;
      } in
      let standard = selected (literal "standard") in
      let amw0 = selected (literal "amw0") in
      if cv.standard_available
      then record standard { backend_fallback_reason = standard_reason standard }
      else if cv.amw0_available
      then record amw0 { backend_fallback_reason = amw0_reason amw0 }
      else cleared

  -- `lcc_converged_backend_init` up to the binding of its operations. Capabilities that are NULL are
  -- those of `memset` to 0, which the caller gives.
  unfoldable pub converged_init :
      Option (Backend S)
      → Status
      → Capabilities
      → Option (Backend A)
      → Status
      → Capabilities
      → Status × Converged S A
  converged_init standard standard_status standard_caps amw0 amw0_status amw0_caps =
      let cv = build_selection_metadata (record {
        standard_backend = standard;
        amw0_backend = amw0;
        standard_available = elim standard [ none ↦ false | some _ ↦ is_ok standard_status ];
        amw0_available = elim amw0 [ none ↦ false | some _ ↦ is_ok amw0_status ];
        standard_status = standard_status;
        amw0_status = amw0_status;
        standard_capabilities = standard_caps;
        amw0_capabilities = amw0_caps;
        execution = zero_execution;
        backend_selected = [];
        backend_fallback_reason = [];
      }) in
      (if is_empty cv.backend_selected then Status.not_found else Status.ok, cv)

  abbrev pub has_route : Converged S A → RouteKind → Bool
  has_route cv k = elim (primary_backend cv k) [ none ↦ false | some _ ↦ true ]

  abbrev pub converged_capabilities : Converged S A → Capabilities
  converged_capabilities cv = record {
    can_read_state = has_route cv RouteKind.read_state;
    can_apply_profile = has_route cv RouteKind.apply_profile;
    can_apply_mode = has_route cv RouteKind.apply_mode;
    can_apply_power_limits = has_route cv RouteKind.apply_power_limits;
    can_apply_fan_table = has_route cv RouteKind.apply_fan_table;
    can_apply_fan_boost = has_route cv RouteKind.apply_fan_boost;
    has_platform_profile = cv.standard_available && cv.standard_capabilities.has_platform_profile;
    has_powercap = cv.standard_available && cv.standard_capabilities.has_powercap;
    needs_reboot_for_mux =
        cv.standard_capabilities.needs_reboot_for_mux || cv.amw0_capabilities.needs_reboot_for_mux;
  }

  -- `converged_probe`
  unfoldable pub converged_probe :
      Capabilities
      → BackendResult
      → Converged S A
      → Status × Capabilities × BackendResult × Converged S A
  converged_probe old r cv =
      let c = converged_capabilities cv in
      (
        if c.can_read_state || c.can_apply_profile || c.can_apply_mode || c.can_apply_power_limits
              || c.can_apply_fan_table || c.can_apply_fan_boost
            then Status.ok
            else Status.not_found,
        c,
        result_reset,
        cv,
      )
