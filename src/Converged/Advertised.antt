-- ===== src/Converged/Advertised.antt =====
-- What the pair of backends says it can do, and what it does (src/backends/converged/backend.c).
use kuangshi16pro_series_gm.Prelude.{
  Option, not, ◌&&◌, ◌≡◌, ◌<◌, length, refl, Bool, Bool-cases, inl, inr, true, false, none, some,
  List, [], ◌∷◌, ◌||◌, arith, if◌then◌else◌,
}
use kuangshi16pro_series_gm.Text.{is_empty, Text, literal, fit}
use kuangshi16pro_series_gm.Status.{Status, is_ok}
use kuangshi16pro_series_gm.State.{backend_name_max, Execution, zero_execution}
use kuangshi16pro_series_gm.Attribution.{copy_text}
use kuangshi16pro_series_gm.Metadata.{execution_set}
use kuangshi16pro_series_gm.Metadata.Routes.{execution_set_short}
use kuangshi16pro_series_gm.Backend.{Capabilities, BackendResult, Backend}
use kuangshi16pro_series_gm.Converged.{
  RouteKind, Route, Converged, capability_for_route, standard_serves, amw0_serves, primary_backend,
  route_name, route_backend_name,
}
use kuangshi16pro_series_gm.Converged.Selection.{
  converged_init, build_selection_metadata, converged_capabilities, converged_probe,
}
use kuangshi16pro_series_gm.Converged.Chain.{capable}

abbrev pub is_nonempty : List Route → Bool
is_nonempty [] = false
is_nonempty (_ ∷ _) = true

abbrev pub any_capability : Capabilities → Bool
any_capability c =
    c.can_read_state || c.can_apply_profile || c.can_apply_mode || c.can_apply_power_limits
    || c.can_apply_fan_table || c.can_apply_fan_boost

is_ok-if : (b : Bool) → is_ok (if b then Status.ok else Status.not_found) ≡ b
is_ok-if true = refl
is_ok-if false = refl

-- The route that is on record for an operation.
abbrev pub recorded : Execution → RouteKind → Text
recorded e RouteKind.read_state = e.read_state
recorded e RouteKind.apply_profile = e.apply_profile
recorded e RouteKind.apply_mode = e.apply_mode
recorded e RouteKind.apply_power_limits = e.apply_power_limits
recorded e RouteKind.apply_fan_table = e.apply_fan_table
recorded e RouteKind.apply_fan_boost = e.apply_fan_boost

copied_standard : (copy_text backend_name_max [] (literal "standard")).1 ≡ literal "standard"
unfolding copy_text literal fit
copied_standard = refl

copied_amw0 : (copy_text backend_name_max [] (literal "amw0")).1 ≡ literal "amw0"
unfolding copy_text literal fit
copied_amw0 = refl

abbrev pub is_given : {X : Type 0} → Option X → Bool
is_given none = false
is_given (some _) = true

module _ {S A : Type 0} where
  has_primary :
      (cv : Converged S A) (k : RouteKind)
      → elim (primary_backend cv k) [ none ↦ false | some _ ↦ true ] ≡ is_nonempty (capable cv k)
  unfolding primary_backend
  has_primary cv k = ground arith

  probe_capability :
      (cv : Converged S A) (k : RouteKind)
      → capability_for_route (converged_capabilities cv) k ≡ is_nonempty (capable cv k)
  unfolding capability_for_route
  probe_capability cv RouteKind.read_state = has_primary cv RouteKind.read_state
  probe_capability cv RouteKind.apply_profile = has_primary cv RouteKind.apply_profile
  probe_capability cv RouteKind.apply_mode = has_primary cv RouteKind.apply_mode
  probe_capability cv RouteKind.apply_power_limits = has_primary cv RouteKind.apply_power_limits
  probe_capability cv RouteKind.apply_fan_table = has_primary cv RouteKind.apply_fan_table
  probe_capability cv RouteKind.apply_fan_boost = has_primary cv RouteKind.apply_fan_boost

  -- `converged_probe` says of each of the six operations that it can be done exactly if a backend is
  -- available and capable of it, and succeeds exactly if it says so of one of them. It changes nothing.
  pub converged_probe-capable :
      (old : Capabilities) (r : BackendResult) (cv : Converged S A) (k : RouteKind)
      → let (s, c, _, cv') = converged_probe old r cv in
        (capability_for_route c k ≡ is_nonempty (capable cv k))
        × (is_ok s ≡ any_capability c)
        × (cv' ≡ cv)
  unfolding converged_probe
  converged_probe-capable old r cv k = (probe_capability cv k, is_ok-if _, refl)

  selected_route :
      (cv : Converged S A) (k : RouteKind)
      → cv.standard_available ≡ false
      → cv.amw0_available ≡ false
      → primary_backend cv k ≡ none
  unfolding primary_backend standard_serves amw0_serves
  selected_route cv k h h' = rw (h, h') refl

  -- Both backends have names that fit the buffers of the state.
  abbrev pub HasShortNames : Converged S A → Type 0
  HasShortNames cv =
      (length (route_name cv Route.standard) < backend_name_max)
      × (length (route_name cv Route.amw0) < backend_name_max)

  primary_short :
      (cv : Converged S A) (k : RouteKind)
      → HasShortNames cv
      → length (route_backend_name cv (primary_backend cv k)) < backend_name_max
  unfolding primary_backend
  primary_short cv k (h, h') = ground arith

  -- The routes of all six operations.
  abbrev routes : Converged S A → Execution
  routes cv = record {
    read_state = route_backend_name cv (primary_backend cv RouteKind.read_state);
    apply_profile = route_backend_name cv (primary_backend cv RouteKind.apply_profile);
    apply_mode = route_backend_name cv (primary_backend cv RouteKind.apply_mode);
    apply_power_limits = route_backend_name cv (primary_backend cv RouteKind.apply_power_limits);
    apply_fan_table = route_backend_name cv (primary_backend cv RouteKind.apply_fan_table);
    apply_fan_boost = route_backend_name cv (primary_backend cv RouteKind.apply_fan_boost);
  }

  recorded-routes :
      (cv : Converged S A) (k : RouteKind)
      → recorded (routes cv) k ≡ route_backend_name cv (primary_backend cv k)
  recorded-routes cv RouteKind.read_state = refl
  recorded-routes cv RouteKind.apply_profile = refl
  recorded-routes cv RouteKind.apply_mode = refl
  recorded-routes cv RouteKind.apply_power_limits = refl
  recorded-routes cv RouteKind.apply_fan_table = refl
  recorded-routes cv RouteKind.apply_fan_boost = refl

  routes_short :
      (cv : Converged S A)
      → HasShortNames cv
      → let e = routes cv in
        execution_set e.read_state e.apply_profile e.apply_mode e.apply_power_limits
          e.apply_fan_table e.apply_fan_boost
        ≡ (Status.ok, e)
  routes_short cv h =
      execution_set_short (routes cv) (primary_short cv _ h) (primary_short cv _ h)
        (primary_short cv _ h) (primary_short cv _ h) (primary_short cv _ h) (primary_short cv _ h)

  routes_none :
      (cv : Converged S A)
      → cv.standard_available ≡ false
      → cv.amw0_available ≡ false
      → routes cv ≡ zero_execution
  routes_none cv h h' =
      rw
        (
          selected_route cv RouteKind.read_state h h',
          selected_route cv RouteKind.apply_profile h h',
          selected_route cv RouteKind.apply_mode h h',
          selected_route cv RouteKind.apply_power_limits h h',
          selected_route cv RouteKind.apply_fan_table h h',
          selected_route cv RouteKind.apply_fan_boost h h',
        )
        refl

  unfoldable pub selected_name : Converged S A → Text
  selected_name cv =
      if cv.standard_available
      then literal "standard"
      else if cv.amw0_available
      then literal "amw0"
      else []

  build_selection_metadata_lem :
      (cv : Converged S A)
      → HasShortNames cv
      → let cv' = build_selection_metadata cv in
        (cv'.execution ≡ routes cv) × (cv'.backend_selected ≡ selected_name cv)
  unfolding build_selection_metadata selected_name
  build_selection_metadata_lem cv h = elim (Bool-cases cv.standard_available) [
    | inl e ↦ simp (routes_short cv h, e, copied_standard) (refl, refl)
    | inr e ↦ elim (Bool-cases cv.amw0_available) [
      | inl f ↦ simp (routes_short cv h, e, f, copied_amw0) (refl, refl)
      | inr f ↦ (simp (e, f, routes_none cv e f), simp (e, f))
    ]
  ]

  -- After the selection, the route on record for each operation is the name of the backend that is
  -- tried first, or empty if none is; the selected backend is the standard one if it is available, else
  -- amw0, else none. The names of both backends must fit their buffers.
  pub build_selection_metadata_routes :
      (cv : Converged S A) (k : RouteKind)
      → HasShortNames cv
      → let cv' = build_selection_metadata cv in
        (recorded cv'.execution k ≡ route_backend_name cv (primary_backend cv k))
        × (cv'.backend_selected ≡ selected_name cv)
  build_selection_metadata_routes cv k h =
      let (e, n) = build_selection_metadata_lem cv h in (rw e (recorded-routes cv k), n)

  build_selection_metadata-selected :
      (cv : Converged S A) → (build_selection_metadata cv).backend_selected ≡ selected_name cv
  unfolding build_selection_metadata selected_name
  build_selection_metadata-selected cv = elim (Bool-cases cv.standard_available) [
    | inl e ↦ simp (e, copied_standard)
    | inr e ↦ elim (Bool-cases cv.amw0_available) [
      | inl f ↦ simp (e, f, copied_amw0)
      | inr f ↦ simp (e, f)
    ]
  ]

  selected_name_given :
      (cv : Converged S A)
      → is_empty (selected_name cv) ≡ not (cv.standard_available || cv.amw0_available)
  unfolding selected_name literal
  selected_name_given cv = ground arith

  start_lem :
      (cv : Converged S A)
      → let selected = (build_selection_metadata cv).backend_selected in
        ((if is_empty selected then Status.not_found else Status.ok)
          ≡ (if cv.standard_available || cv.amw0_available then Status.ok else Status.not_found))
        × (selected ≡ (
            if cv.standard_available
            then literal "standard"
            else if cv.amw0_available
            then literal "amw0"
            else []))
  unfolding selected_name
  start_lem cv = (
    rw (build_selection_metadata-selected cv) (ground (arith, selected_name_given cv)),
    build_selection_metadata-selected cv,
  )

  -- `lcc_converged_backend_init` returns LCC_OK exactly if one of the two backends is there and was
  -- probed with LCC_OK, and LCC_ERR_NOT_FOUND otherwise. The standard backend is selected if it is so,
  -- else amw0 if it is so, else none.
  pub converged_init_lem :
      (standard : Option (Backend S)) (s : Status) (c : Capabilities) (amw0 : Option (Backend A))
      (s' : Status) (c' : Capabilities)
      → let b = is_given standard && is_ok s in
        let b' = is_given amw0 && is_ok s' in
        let (status, cv) = converged_init standard s c amw0 s' c' in
        (status ≡ (if b || b' then Status.ok else Status.not_found))
        × (cv.backend_selected
            ≡ (if b then literal "standard" else if b' then literal "amw0" else []))
  unfolding converged_init
  converged_init_lem none s c none s' c' = start_lem _
  converged_init_lem none s c (some b) s' c' = start_lem _
  converged_init_lem (some a) s c none s' c' = start_lem _
  converged_init_lem (some a) s c (some b) s' c' = start_lem _
