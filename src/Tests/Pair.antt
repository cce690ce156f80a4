-- ===== src/Tests/Pair.antt =====
-- The theorems on the pair of backends at concrete operations.
use kuangshi16pro_series_gm.Prelude.{ℕ, ◌≡◌, refl, true, none, some, arith}
use kuangshi16pro_series_gm.Text.{Text, literal}
use kuangshi16pro_series_gm.Status.{Status, is_ok}
use kuangshi16pro_series_gm.State.{
  Execution, Snapshot, zero_target, zero_thermal, zero_execution, zero_snapshot,
}
use kuangshi16pro_series_gm.Backend.{Backend, result_reset, backend_name, backend_apply_profile}
use kuangshi16pro_series_gm.Converged.{
  RouteKind, Converged, capability_for_route, primary_backend, route_name, route_backend_name,
}
use kuangshi16pro_series_gm.Converged.Selection.{
  converged_init, build_selection_metadata, converged_probe,
}
use kuangshi16pro_series_gm.Converged.Apply.{routed}
use kuangshi16pro_series_gm.Converged.Power.{converged_apply_power_limits}
use kuangshi16pro_series_gm.Converged.Chain.{outcome, capable, try_capable, routed-eq-try_capable}
use kuangshi16pro_series_gm.Converged.Overlay.{overlay_amw0_state}
use kuangshi16pro_series_gm.Converged.Unites.{Unites, overlay_amw0_state-Unites}
use kuangshi16pro_series_gm.Converged.Read.{converged_read_state}
use kuangshi16pro_series_gm.Converged.InTurn.{HasBackends, pair_read_in_turn}
use kuangshi16pro_series_gm.Converged.Named.{HasNames, Reports, converged_read_state-Names}
use kuangshi16pro_series_gm.Converged.Split.{HasBoth, IsSplit, converged_apply_power_limits-IsSplit}
use kuangshi16pro_series_gm.Converged.Advertised.{
  is_nonempty, any_capability, recorded, HasShortNames, selected_name, converged_probe-capable,
  converged_init_lem, build_selection_metadata_routes,
}
use kuangshi16pro_series_gm.Tests.{serving, all_capable, no_boost, two_limits, pair}

abbrev quiet : Text
quiet = literal "quiet"

routed-eq-try_capable_example :
    outcome (
      routed RouteKind.apply_profile
        (literal "apply_profile")
        (literal "missing")
        (backend_apply_profile (some quiet))
        (backend_apply_profile (some quiet))
        result_reset
        pair)
    ≡ outcome (
        try_capable
          (backend_apply_profile (some quiet))
          (backend_apply_profile (some quiet))
          (capable pair RouteKind.apply_profile)
          result_reset
          pair)
routed-eq-try_capable_example =
    routed-eq-try_capable RouteKind.apply_profile (literal "apply_profile") (literal "missing")
      (backend_apply_profile (some quiet)) (backend_apply_profile (some quiet)) result_reset pair

abbrev plain_backend : Backend ℕ
plain_backend = record { ops = some serving; ctx = 0 }

abbrev serving_pair : Converged ℕ ℕ
serving_pair = record pair { standard_backend = some plain_backend }

two_limits-HasBoth : HasBoth plain_backend plain_backend two_limits serving_pair
two_limits-HasBoth = record {
  standard_backend = refl;
  amw0_backend = refl;
  standard_available = refl;
  amw0_available = refl;
  standard_capable = refl;
  amw0_capable = refl;
  standard_fields = refl;
  amw0_fields = refl;
}

converged_apply_power_limits-IsSplit_example :
    IsSplit plain_backend plain_backend two_limits serving_pair
      (converged_apply_power_limits two_limits result_reset serving_pair)
converged_apply_power_limits-IsSplit_example =
    converged_apply_power_limits-IsSplit plain_backend plain_backend two_limits result_reset
      serving_pair two_limits-HasBoth

converged_probe-capable_example :
    let (s, c, _, cv') = converged_probe no_boost result_reset pair in
    (capability_for_route c RouteKind.apply_fan_boost
      ≡ is_nonempty (capable pair RouteKind.apply_fan_boost))
    × (is_ok s ≡ any_capability c)
    × (cv' ≡ pair)
converged_probe-capable_example =
    converged_probe-capable no_boost result_reset pair RouteKind.apply_fan_boost

pair_short : HasShortNames pair
unfolding route_name backend_name literal
pair_short = ground arith

build_selection_metadata_routes_example :
    let cv' = build_selection_metadata pair in
    (recorded cv'.execution RouteKind.apply_profile
      ≡ route_backend_name pair (primary_backend pair RouteKind.apply_profile))
    × (cv'.backend_selected ≡ selected_name pair)
build_selection_metadata_routes_example =
    build_selection_metadata_routes pair RouteKind.apply_profile pair_short

-- A pair whose amw0 serves the power limits, and two states to unite.
abbrev e_amw0 : Execution
e_amw0 = record zero_execution { apply_power_limits = literal "amw0" }

abbrev cool : Snapshot
cool = record zero_snapshot {
  effective = record zero_target { has_power_limits = true; power_limits = two_limits };
  thermal = record zero_thermal { has_cpu_temp_c = true; cpu_temp_c = 51 };
}

overlay_amw0_state-Unites_example :
    Unites e_amw0 zero_snapshot cool (overlay_amw0_state e_amw0 zero_snapshot cool)
overlay_amw0_state-Unites_example = overlay_amw0_state-Unites e_amw0 zero_snapshot cool

abbrev selected_pair : Converged ℕ ℕ
selected_pair = record pair { backend_selected = literal "standard" }

-- A pair whose standard backend cannot read, as it has no operation for that.
abbrev falling_pair : Converged ℕ ℕ
falling_pair = record selected_pair {
  standard_backend = some (record {
    ops = some (record serving { name = some (literal "standard"); read_state = none });
    ctx = 0;
  });
}

falling_pair-HasNames : HasNames falling_pair
unfolding route_name backend_name literal
falling_pair-HasNames = record {
  standard_given = refl;
  standard_fits = ground arith;
  amw0_given = refl;
  amw0_fits = ground arith;
  selected_given = refl;
  selected_fits = ground arith;
  reason_fits = ground arith;
}

falling_pair-HasBackends : HasBackends falling_pair
falling_pair-HasBackends = record { standard = λ _ e. cc; amw0 = λ _ e. cc }

converged_read_state-Names_example :
    let (s', state', _, _) =
      converged_read_state result_reset zero_snapshot result_reset falling_pair in
    Reports falling_pair (pair_read_in_turn falling_pair zero_snapshot result_reset) s' state'
converged_read_state-Names_example =
    converged_read_state-Names result_reset zero_snapshot result_reset falling_pair
      falling_pair-HasNames falling_pair-HasBackends

converged_init_lem_example :
    let (status, cv) =
      converged_init pair.standard_backend Status.io all_capable pair.amw0_backend Status.ok
        no_boost in
    (status ≡ Status.ok) × (cv.backend_selected ≡ literal "amw0")
converged_init_lem_example =
    converged_init_lem pair.standard_backend Status.io all_capable pair.amw0_backend Status.ok
      no_boost
