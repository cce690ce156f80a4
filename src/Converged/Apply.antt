-- ===== src/Converged/Apply.antt =====
-- src/backends/converged/backend.c: the operations that go to the first capable backend, and to the
-- other one where the first answers NOT_SUPPORTED.
use kuangshi16pro_series_gm.Prelude.{Bool, none, some, if◌then◌else◌}
use kuangshi16pro_series_gm.Text.{Text, literal, is_empty}
use kuangshi16pro_series_gm.Status.{Status, is_not_supported}
use kuangshi16pro_series_gm.State.{Mode}
use kuangshi16pro_series_gm.Backend.{
  BackendResult, Backend, Call, result_reset, set_detail, backend_apply_profile, backend_apply_mode,
  backend_apply_fan_table, backend_apply_fan_boost,
}
use kuangshi16pro_series_gm.Converged.{
  RouteKind, Route, Converged, primary_backend, secondary_backend, set_result_executor,
  set_fallback_detail,
}

-- One of the functions `lcc_backend_apply_*` at its argument.
abbrev pub Apply : Type 0 → Type 0
Apply C = Backend C → BackendResult → Status × BackendResult × Backend C

module _ {S A : Type 0} where
  -- A call of a backend of the pair; the functions refuse a backend that is NULL.
  unfoldable pub call_standard : Apply S → Call (Converged S A)
  call_standard apply r cv = elim cv.standard_backend [
    | none ↦ (Status.invalid_argument, r, cv)
    | some b ↦ let (s, r', b') = apply b r in (s, r', record cv { standard_backend = some b' })
  ]

  unfoldable pub call_amw0 : Apply A → Call (Converged S A)
  call_amw0 apply r cv = elim cv.amw0_backend [
    | none ↦ (Status.invalid_argument, r, cv)
    | some b ↦ let (s, r', b') = apply b r in (s, r', record cv { amw0_backend = some b' })
  ]

  abbrev pub call_route : Apply S → Apply A → Route → Call (Converged S A)
  call_route on_standard on_amw0 Route.standard = call_standard on_standard
  call_route on_standard on_amw0 Route.amw0 = call_amw0 on_amw0

  -- A call and the `set_result_executor` that follows it.
  unfoldable pub try_route : Apply S → Apply A → Route → Call (Converged S A)
  try_route on_standard on_amw0 p r cv =
      let (s, r', cv') = call_route on_standard on_amw0 p r cv in
      (s, set_result_executor r' cv' p, cv')

  -- After the first backend answered NOT_SUPPORTED.
  unfoldable pub fall_back : RouteKind → Text → Apply S → Apply A → Route → Call (Converged S A)
  fall_back kind operation on_standard on_amw0 p r cv = elim (secondary_backend cv kind p) [
    | none ↦
        (Status.not_supported, set_fallback_detail r operation cv p none Status.not_supported, cv)
    | some q ↦
        let (s, r', cv') = try_route on_standard on_amw0 q r cv in
        (
          s,
          if is_empty r'.detail
              then set_fallback_detail r' operation cv' p (some q) Status.not_supported
              else r',
          cv',
        )
  ]

  unfoldable pub routed : RouteKind → Text → Text → Apply S → Apply A → Call (Converged S A)
  routed kind operation missing on_standard on_amw0 r cv = elim (primary_backend cv kind) [
    | none ↦ (Status.not_supported, set_detail result_reset missing, cv)
    | some p ↦
        let (s, r', cv') = try_route on_standard on_amw0 p r cv in
        if is_not_supported s
        then fall_back kind operation on_standard on_amw0 p r' cv'
        else (s, r', cv')
  ]

  -- `converged_apply_profile`
  unfoldable pub converged_apply_profile : Text → Call (Converged S A)
  converged_apply_profile name =
      routed RouteKind.apply_profile (literal "apply_profile")
        (literal "no converged backend can apply profiles") (backend_apply_profile (some name))
        (backend_apply_profile (some name))

  -- `converged_apply_mode`
  unfoldable pub converged_apply_mode : Mode → Call (Converged S A)
  converged_apply_mode mode =
      routed RouteKind.apply_mode (literal "apply_mode")
        (literal "no converged backend can apply modes") (backend_apply_mode mode)
        (backend_apply_mode mode)

  -- `converged_apply_fan_table`
  unfoldable pub converged_apply_fan_table : Text → Call (Converged S A)
  converged_apply_fan_table name =
      routed RouteKind.apply_fan_table (literal "apply_fan_table")
        (literal "no converged backend can apply fan tables") (backend_apply_fan_table (some name))
        (backend_apply_fan_table (some name))

  -- `converged_apply_fan_boost`
  unfoldable pub converged_apply_fan_boost : Bool → Call (Converged S A)
  converged_apply_fan_boost enabled =
      routed RouteKind.apply_fan_boost (literal "apply_fan_boost")
        (literal "no converged backend can apply fan boost") (backend_apply_fan_boost enabled)
        (backend_apply_fan_boost enabled)
