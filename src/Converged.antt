-- ===== src/Converged.antt =====
-- src/backends/converged/backend.c, first part: the backend that routes each operation to the standard
-- backend or to the amw0 backend, by what each was found capable of. A pointer to one of the two is a
-- `Route`; the two are different objects. `S` and `A` are their contexts.
pub mod Selection
pub mod Apply
pub mod Power
pub mod Overlay
pub mod Unites
pub mod Read
pub mod InTurn
pub mod Named
pub mod Chain
pub mod Advertised
pub mod Split
use kuangshi16pro_series_gm.Prelude.{
  Bool, true, false, ◌&&◌, ◌||◌, Option, none, some, [], ◌++◌, if◌then◌else◌,
}
use kuangshi16pro_series_gm.Text.{Text, literal, is_empty, fit}
use kuangshi16pro_series_gm.Status.{Status, is_ok, status_string}
use kuangshi16pro_series_gm.State.{reason_max, OptionalByte, PowerLimits, Execution, zero_byte}
use kuangshi16pro_series_gm.Backend.{
  Capabilities, BackendResult, Backend, backend_name, set_executor, set_detail,
}

-- lcc_converged_route_kind_t
pub data RouteKind : Type 0 where
  read_state apply_profile apply_mode apply_power_limits apply_fan_table apply_fan_boost : RouteKind

pub data Route : Type 0 where
  standard amw0 : Route

-- lcc_converged_backend_t
pub record Converged (S A : Type 0) : Type 0 where
  pub standard_backend : Option (Backend S)
  pub amw0_backend : Option (Backend A)
  pub standard_available : Bool
  pub amw0_available : Bool
  pub standard_status : Status
  pub amw0_status : Status
  pub standard_capabilities : Capabilities
  pub amw0_capabilities : Capabilities
  pub execution : Execution
  pub backend_selected : Text  -- char[LCC_STATE_BACKEND_NAME_MAX]
  pub backend_fallback_reason : Text  -- char[LCC_STATE_REASON_MAX]

-- `capability_for_route`
unfoldable pub capability_for_route : Capabilities → RouteKind → Bool
capability_for_route c RouteKind.read_state = c.can_read_state
capability_for_route c RouteKind.apply_profile = c.can_apply_profile
capability_for_route c RouteKind.apply_mode = c.can_apply_mode
capability_for_route c RouteKind.apply_power_limits = c.can_apply_power_limits
capability_for_route c RouteKind.apply_fan_table = c.can_apply_fan_table
capability_for_route c RouteKind.apply_fan_boost = c.can_apply_fan_boost

-- `pointer != converged->standard_backend`, and the same for amw0.
abbrev pub is_standard : Route → Bool
is_standard Route.standard = true
is_standard Route.amw0 = false

abbrev pub is_amw0 : Route → Bool
is_amw0 Route.standard = false
is_amw0 Route.amw0 = true

-- `power_limits_has_standard_fields`, `power_limits_has_amw0_fields`
abbrev pub has_standard_fields : PowerLimits → Bool
has_standard_fields l = l.pl1.present || l.pl2.present

abbrev pub has_amw0_fields : PowerLimits → Bool
has_amw0_fields l = l.pl4.present || l.tcc_offset.present

-- `power_limits_copy_subset`
unfoldable pub copy_subset : PowerLimits → Bool → Bool → PowerLimits
copy_subset source standard_fields amw0_fields = record {
  pl1 = if standard_fields then source.pl1 else zero_byte;
  pl2 = if standard_fields then source.pl2 else zero_byte;
  pl4 = if amw0_fields then source.pl4 else zero_byte;
  tcc_offset = if amw0_fields then source.tcc_offset else zero_byte;
}

module _ {S A : Type 0} where
  -- Whether a backend is available and capable.
  unfoldable pub standard_serves : Converged S A → RouteKind → Bool
  standard_serves cv k = cv.standard_available && capability_for_route cv.standard_capabilities k

  unfoldable pub amw0_serves : Converged S A → RouteKind → Bool
  amw0_serves cv k = cv.amw0_available && capability_for_route cv.amw0_capabilities k

  -- `route_primary_backend`; as `lcc_converged_backend_init` leaves the pair, a backend that is
  -- available is not NULL.
  unfoldable pub primary_backend : Converged S A → RouteKind → Option Route
  primary_backend cv k =
      if standard_serves cv k
      then some Route.standard
      else if amw0_serves cv k
      then some Route.amw0
      else none

  -- `route_secondary_backend`
  unfoldable pub secondary_backend : Converged S A → RouteKind → Route → Option Route
  secondary_backend cv k primary =
      if is_amw0 primary && standard_serves cv k
      then some Route.standard
      else if is_standard primary && amw0_serves cv k
      then some Route.amw0
      else none

  -- `lcc_backend_name` of a route; that of NULL is "unknown".
  unfoldable pub route_name : Converged S A → Route → Text
  route_name cv Route.standard = elim cv.standard_backend [
    | none ↦ literal "unknown"
    | some b ↦ backend_name b
  ]
  route_name cv Route.amw0 = elim cv.amw0_backend [
    | none ↦ literal "unknown"
    | some b ↦ backend_name b
  ]

  -- `route_backend_name`
  abbrev pub route_backend_name : Converged S A → Option Route → Text
  route_backend_name cv none = []
  route_backend_name cv (some p) = route_name cv p

  -- `set_result_executor`
  abbrev pub set_result_executor : BackendResult → Converged S A → Route → BackendResult
  set_result_executor r cv p = set_executor r (route_name cv p)

  -- `set_fallback_detail`
  unfoldable pub set_fallback_detail :
      BackendResult → Text → Converged S A → Route → Option Route → Status → BackendResult
  set_fallback_detail r operation cv from none reason = set_detail r (
      fit reason_max (
        operation
        ++ (literal " stopped at "
            ++ (route_name cv from
                ++ (literal " because no fallback route is available after "
                    ++ status_string reason)))))
  set_fallback_detail r operation cv from (some to) reason = set_detail r (
      fit reason_max (
        operation
        ++ (literal " fell back from "
            ++ (route_name cv from
                ++ (literal " to "
                    ++ (route_name cv to ++ (literal " after " ++ status_string reason)))))))
