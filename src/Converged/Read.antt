-- ===== src/Converged/Read.antt =====
-- src/backends/converged/backend.c: `converged_read_state`, and the table of operations of the pair.
use kuangshi16pro_series_gm.Prelude.{Bool, ◌&&◌, ◌||◌, none, some, if◌then◌else◌}
use kuangshi16pro_series_gm.Text.{Text, literal, is_empty, is_same}
use kuangshi16pro_series_gm.Status.{Status, is_ok, is_not_supported, is_not_found}
use kuangshi16pro_series_gm.State.{Snapshot, zero_snapshot}
use kuangshi16pro_series_gm.Metadata.{state_set_metadata}
use kuangshi16pro_series_gm.Backend.{
  BackendResult, Backend, Ops, result_reset, set_detail, backend_read_state,
}
use kuangshi16pro_series_gm.Converged.{
  RouteKind, Route, Converged, is_standard, primary_backend, secondary_backend, route_name,
  set_result_executor, set_fallback_detail,
}
use kuangshi16pro_series_gm.Converged.Selection.{converged_probe}
use kuangshi16pro_series_gm.Converged.Apply.{
  converged_apply_profile, converged_apply_mode, converged_apply_fan_table,
  converged_apply_fan_boost,
}
use kuangshi16pro_series_gm.Converged.Power.{converged_apply_power_limits}
use kuangshi16pro_series_gm.Converged.Overlay.{overlay_amw0_state}

-- The answers after which another backend is tried.
abbrev pub is_unread : Status → Bool
is_unread s = is_not_supported s || is_not_found s

-- The status, the backend whose name is used, the state, the result and the pair after a read.
abbrev pub Reading : Type 0 → Type 0 → Type 0
Reading S A = Status × Route × Snapshot × BackendResult × Converged S A

module _ {S A : Type 0} where
  -- `lcc_backend_read_state` of a route, which refuses NULL.
  unfoldable pub read_route :
      Route
      → Snapshot
      → BackendResult
      → Converged S A
      → Status × Snapshot × BackendResult × Converged S A
  read_route Route.standard state r cv = elim cv.standard_backend [
    | none ↦ (Status.invalid_argument, state, r, cv)
    | some b ↦
        let (s, state', r', b') = backend_read_state b state r in
        (s, state', r', record cv { standard_backend = some b' })
  ]
  read_route Route.amw0 state r cv = elim cv.amw0_backend [
    | none ↦ (Status.invalid_argument, state, r, cv)
    | some b ↦
        let (s, state', r', b') = backend_read_state b state r in
        (s, state', r', record cv { amw0_backend = some b' })
  ]

  -- The read and `set_result_executor`.
  unfoldable pub try_read : Route → Snapshot → BackendResult → Converged S A → Reading S A
  try_read p state r cv =
      let (s, state', r', cv') = read_route p state r cv in
      (s, p, state', set_result_executor r' cv' p, cv')

  -- After the first backend answered NOT_SUPPORTED or NOT_FOUND. The detail always says NOT_SUPPORTED
  -- where there is another backend.
  unfoldable pub read_again :
      Status → Route → Snapshot → BackendResult → Converged S A → Reading S A
  read_again s p state r cv = elim (secondary_backend cv RouteKind.read_state p) [
    | none ↦ (s, p, state, set_fallback_detail r (literal "read_state") cv p none s, cv)
    | some q ↦
        let (s', q', state', r', cv') = try_read q state r cv in
        (
          s',
          q',
          state',
          if is_empty r'.detail
              then set_fallback_detail r' (literal "read_state") cv' p (some q) Status.not_supported
              else r',
          cv',
        )
  ]

  -- Up to the first return of the status of a read.
  unfoldable pub read_base : Route → Snapshot → BackendResult → Converged S A → Reading S A
  read_base p state r cv =
      let (s, p', state', r', cv') = try_read p state r cv in
      if is_unread s then read_again s p state' r' cv' else (s, p', state', r', cv')

  -- The read of amw0 on top, where the standard backend is the one that is tried first. `uninit` is the
  -- content of the local `amw0_result`.
  unfoldable pub read_overlay :
      BackendResult → Route → Snapshot → Converged S A → Snapshot × Converged S A
  read_overlay uninit p state cv =
      if is_standard p && cv.amw0_available
      then (let (s, amw0_state, _, cv') = read_route Route.amw0 zero_snapshot uninit cv in
          (if is_ok s then overlay_amw0_state cv'.execution state amw0_state else state, cv'))
      else (state, cv)

  -- `converged_read_state`
  unfoldable pub converged_read_state :
      BackendResult
      → Snapshot
      → BackendResult
      → Converged S A
      → Status × Snapshot × BackendResult × Converged S A
  converged_read_state uninit state r cv = elim (primary_backend cv RouteKind.read_state) [
    | none ↦ (
      Status.not_supported,
      state,
      set_detail result_reset (literal "no converged backend can read state"),
      cv,
    )
    | some p ↦
        let (s, used, state', r', cv') = read_base p state r cv in
        if is_ok s
        then (let (state'', cv'') = read_overlay uninit p state' cv' in
            let (s', final) =
              state_set_metadata state'' (route_name cv' used) cv''.backend_selected
                cv''.backend_fallback_reason cv''.execution in
            (s', final, r', cv''))
        else (s, state', r', cv')
  ]

  -- `lcc_converged_standard_backend_ops` and `lcc_converged_amw0_backend_ops`
  unfoldable pub converged_ops : BackendResult → Text → Ops (Converged S A)
  converged_ops uninit name = record {
    name = some name;
    probe = some converged_probe;
    read_state = some (converged_read_state uninit);
    apply_profile = some converged_apply_profile;
    apply_mode = some converged_apply_mode;
    apply_power_limits = some converged_apply_power_limits;
    apply_fan_table = some converged_apply_fan_table;
    apply_fan_boost = some converged_apply_fan_boost;
  }

  -- The end of `lcc_converged_backend_init`: the backend that is bound.
  unfoldable pub bind_converged : BackendResult → Converged S A → Backend (Converged S A)
  bind_converged uninit cv = record {
    ops = some (
        converged_ops uninit (
          if is_same cv.backend_selected (literal "standard")
          then literal "standard"
          else literal "amw0"));
    ctx = cv;
  }
