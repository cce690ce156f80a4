-- ===== src/Converged/Chain.antt =====
-- The routing of one operation, against the list of the backends that are capable of it
-- (src/backends/converged/backend.c).
use kuangshi16pro_series_gm.Prelude.{
  ◌≡◌, refl, ap, Bool, true, false, Option, none, some, List, [], ◌∷◌, ◌++◌, arith, Bool-cases, inl,
  inr, if◌then◌else◌,
}
use kuangshi16pro_series_gm.Text.{Text, is_empty}
use kuangshi16pro_series_gm.Status.{Status, is_not_supported}
use kuangshi16pro_series_gm.Backend.{BackendResult, result_reset, set_detail}
use kuangshi16pro_series_gm.Converged.{
  RouteKind, Route, Converged, standard_serves, amw0_serves, primary_backend, secondary_backend,
  set_fallback_detail,
}
use kuangshi16pro_series_gm.Converged.Apply.{
  Apply, call_standard, call_amw0, try_route, fall_back, routed,
}

-- A result but for its detail, which says in words what was tried.
abbrev pub without_detail : BackendResult → BackendResult
without_detail r = record r { detail = [] }

set_detail_lem : (r : BackendResult) (t : Text) → without_detail (set_detail r t) ≡ without_detail r
unfolding set_detail
set_detail_lem r t = refl

if_without_detail :
    (b : Bool) (r r' : BackendResult)
    → without_detail r ≡ without_detail r'
    → without_detail (if b then r else r') ≡ without_detail r'
if_without_detail true r r' h = h
if_without_detail false r r' h = refl

not_supported_unique : (s : Status) → is_not_supported s ≡ true → Status.not_supported ≡ s
not_supported_unique s h = ground arith

-- The status, the result and the backends after an operation.
abbrev pub Tried : Type 0 → Type 0 → Type 0
Tried S A = Status × BackendResult × Converged S A

module _ {S A : Type 0} where
  set_fallback_detail_lem :
      (r : BackendResult) (operation : Text) (cv : Converged S A) (p : Route) (q : Option Route)
      (s : Status)
      → without_detail (set_fallback_detail r operation cv p q s) ≡ without_detail r
  unfolding set_fallback_detail
  set_fallback_detail_lem r operation cv p none s = set_detail_lem r _
  set_fallback_detail_lem r operation cv p (some q) s = set_detail_lem r _

  -- The backends that are available and capable of an operation, the standard one first.
  abbrev pub capable : Converged S A → RouteKind → List Route
  capable cv k =
      (if standard_serves cv k then Route.standard ∷ [] else [])
      ++ (if amw0_serves cv k then Route.amw0 ∷ [] else [])

  -- An outcome but for the detail.
  abbrev pub outcome : Tried S A → Tried S A
  outcome (s, r, cv) = (s, without_detail r, cv)

  -- The backends of a list are tried in turn, while the answer is NOT_SUPPORTED.
  unfoldable pub try_in_turn :
      Apply S → Apply A → Route → List Route → BackendResult → Converged S A → Tried S A
  try_in_turn on_standard on_amw0 p [] r cv = try_route on_standard on_amw0 p r cv
  try_in_turn on_standard on_amw0 p (q ∷ qs) r cv =
      let (s, r', cv') = try_route on_standard on_amw0 p r cv in
      let rest = try_in_turn on_standard on_amw0 q qs r' cv' in
      if is_not_supported s then rest else (s, r', cv')

  unfoldable pub try_capable :
      Apply S → Apply A → List Route → BackendResult → Converged S A → Tried S A
  try_capable on_standard on_amw0 [] r cv = (Status.not_supported, result_reset, cv)
  try_capable on_standard on_amw0 (p ∷ ps) r cv = try_in_turn on_standard on_amw0 p ps r cv

  try_route-serves :
      (on_standard : Apply S) (on_amw0 : Apply A) (p : Route) (r : BackendResult)
      (cv : Converged S A) (k : RouteKind)
      → let cv' = (try_route on_standard on_amw0 p r cv).2 in
        (standard_serves cv' k ≡ standard_serves cv k) × (amw0_serves cv' k ≡ amw0_serves cv k)
  unfolding try_route call_standard call_amw0 standard_serves amw0_serves
  try_route-serves on_standard on_amw0 Route.standard r cv k = ground arith
  try_route-serves on_standard on_amw0 Route.amw0 r cv k = ground arith

  secondary_backend-standard :
      (cv : Converged S A) (k : RouteKind)
      → secondary_backend cv k Route.standard ≡ (if amw0_serves cv k then some Route.amw0 else none)
  unfolding secondary_backend
  secondary_backend-standard cv k = refl

  -- amw0 is first only where the standard backend does not serve.
  secondary_backend-amw0 :
      (cv : Converged S A) (k : RouteKind)
      → standard_serves cv k ≡ false
      → secondary_backend cv k Route.amw0 ≡ none
  unfolding secondary_backend
  secondary_backend-amw0 cv k h = rw h refl

  module _ (kind : RouteKind) (operation missing : Text) (on_standard : Apply S)
      (on_amw0 : Apply A) where
    fall_back-none :
        (p : Route) (r : BackendResult) (cv : Converged S A)
        → secondary_backend cv kind p ≡ none
        → outcome (fall_back kind operation on_standard on_amw0 p r cv)
          ≡ outcome (Status.not_supported, r, cv)
    unfolding fall_back
    fall_back-none p r cv h =
        rw (fall_back, h)
          (ap (λ x. (Status.not_supported, x, cv))
            (set_fallback_detail_lem r operation cv p none _))

    fall_back-some :
        (p q : Route) (r : BackendResult) (cv : Converged S A)
        → secondary_backend cv kind p ≡ some q
        → outcome (fall_back kind operation on_standard on_amw0 p r cv)
          ≡ outcome (try_route on_standard on_amw0 q r cv)
    unfolding fall_back try_route
    fall_back-some p q r cv h =
        let (s, r', cv') = try_route on_standard on_amw0 q r cv in
        rw (fall_back, h)
          (ap (λ x. (s, x, cv'))
            (if_without_detail (is_empty r'.detail) _ r'
              (set_fallback_detail_lem r' operation cv' p _ _)))

    -- An operation that the pair routes comes to the same status, result but for its detail, and
    -- backends as when the available and capable backends are tried in turn, the standard one first,
    -- until one does not answer NOT_SUPPORTED. With no such backend the answer is NOT_SUPPORTED, and
    -- no backend is called.
    pub routed-eq-try_capable :
        (r : BackendResult) (cv : Converged S A)
        → outcome (routed kind operation missing on_standard on_amw0 r cv)
          ≡ outcome (try_capable on_standard on_amw0 (capable cv kind) r cv)
    unfolding routed try_capable try_in_turn primary_backend
    routed-eq-try_capable r cv = elim (Bool-cases (standard_serves cv kind)) [
      | inl e ↦
          (let (s, r', cv') = try_route on_standard on_amw0 Route.standard r cv in
            ground (
              arith,
              secondary_backend-standard cv' kind,
              fall_back-none Route.standard r' cv',
              fall_back-some Route.standard Route.amw0 r' cv',
              not_supported_unique s,
              try_route-serves on_standard on_amw0 Route.standard r cv kind,
            ))
      | inr e ↦ elim (Bool-cases (amw0_serves cv kind)) [
        | inl f ↦
            (let (s, r', cv') = try_route on_standard on_amw0 Route.amw0 r cv in
              ground (
                arith,
                secondary_backend-amw0 cv' kind,
                fall_back-none Route.amw0 r' cv',
                not_supported_unique s,
                try_route-serves on_standard on_amw0 Route.amw0 r cv kind,
              ))
        | inr f ↦ ground (arith, set_detail_lem result_reset missing)
      ]
    ]
