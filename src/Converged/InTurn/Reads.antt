-- ===== src/Converged/InTurn/Reads.antt =====
-- The reading of `converged_read_state` is the one in turn.
use kuangshi16pro_series_gm.Prelude.{
  ◌≡◌, ◌≢◌, refl, ap, sym, ◌∙◌, Bool, true, false, ◌&&◌, Option, none, some, [], arith, Bool-cases,
  inl, inr, if◌then◌else◌,
}
use kuangshi16pro_series_gm.Text.{Text}
use kuangshi16pro_series_gm.Status.{Status}
use kuangshi16pro_series_gm.State.{Snapshot}
use kuangshi16pro_series_gm.Backend.{
  BackendResult, Backend, backend_name, set_executor, backend_read_state,
}
use kuangshi16pro_series_gm.Converged.{
  RouteKind, Route, Converged, capability_for_route, standard_serves, amw0_serves, primary_backend,
  route_name,
}
use kuangshi16pro_series_gm.Converged.Read.{read_base}
use kuangshi16pro_series_gm.Converged.InTurn.{
  asks_next, read_in_turn, pair_read_in_turn, named_reading, HasBackends,
}
use kuangshi16pro_series_gm.Converged.InTurn.Steps.{
  read_base-amw0, read_base-standard, read_base-both,
}

and_left : (x y : Bool) → (x && y) ≡ true → x ≡ true
and_left true y h = refl
and_left false y h = h

some_of : {B : Type 0} (o : Option B) → o ≢ none → (b : B) × (o ≡ some b)
some_of none h = absurd (h refl)
some_of (some b) h = (b, refl)

module _ {S A : Type 0} where
  -- A reading by the name that its route has in the pair.
  abbrev by_name : Converged S A → Status × Route × Snapshot → Status × Text × Snapshot
  by_name cv (s, used, state) = (s, route_name cv used, state)

  route_name-standard :
      (b : Backend S) (cv : Converged S A)
      → cv.standard_backend ≡ some b
      → route_name cv Route.standard ≡ backend_name b
  unfolding route_name
  route_name-standard b cv h = rw (route_name, h) refl

  route_name-amw0 :
      (a : Backend A) (cv : Converged S A)
      → cv.amw0_backend ≡ some a
      → route_name cv Route.amw0 ≡ backend_name a
  unfolding route_name
  route_name-amw0 a cv h = rw (route_name, h) refl

  both_by_name :
      (b : Backend S) (a : Backend A) (cv : Converged S A)
      → cv.standard_backend ≡ some b
      → cv.amw0_backend ≡ some a
      → (s s2 : Status) (state1 state2 : Snapshot)
      → by_name cv (if asks_next s then (s2, Route.amw0, state2) else (s, Route.standard, state1))
        ≡ (if asks_next s then (s2, backend_name a, state2) else (s, backend_name b, state1))
  both_by_name b a cv k l s s2 state1 state2 = elim (Bool-cases (asks_next s)) [
    | inl e ↦ rw (e) (rw (route_name-amw0 a cv l) refl)
    | inr e ↦ rw (e) (rw (route_name-standard b cv k) refl)
  ]

  -- What the pair may ask, in terms of its two pointers.
  pair-usable :
      (cv : Converged S A) (p q : Bool) (b : Option (Backend S)) (a : Option (Backend A))
      → (cv.standard_available && cv.standard_capabilities.can_read_state) ≡ p
      → (cv.amw0_available && cv.amw0_capabilities.can_read_state) ≡ q
      → cv.standard_backend ≡ b
      → cv.amw0_backend ≡ a
      → (state : Snapshot) (r : BackendResult)
      → pair_read_in_turn cv state r
        ≡ read_in_turn (if p then b else none) (if q then a else none) state r
  pair-usable cv p q b a c d k l state r = rw (c, d, k, l) refl

  alone_by_name :
      (p : Route) (name : Text) (cv : Converged S A)
      → route_name cv p ≡ name
      → (s : Status) (state : Snapshot) → by_name cv (s, p, state) ≡ (s, name, state)
  alone_by_name p name cv h s state = rw (h) refl

  standard_in_turn :
      (b : Backend S) (state : Snapshot) (r : BackendResult) (cv : Converged S A)
      → HasBackends cv
      → cv.standard_backend ≡ some b
      → (cv.standard_available && cv.standard_capabilities.can_read_state) ≡ true
      → named_reading cv (read_base Route.standard state r cv) ≡ pair_read_in_turn cv state r
  standard_in_turn b state r cv h k c =
      let (s, state1, r1, _) = backend_read_state b state r in
      elim (Bool-cases (cv.amw0_available && cv.amw0_capabilities.can_read_state)) [
        | inl d ↦
            (let (a, l) = some_of cv.amw0_backend (h.amw0 (and_left _ _ d)) in
              let (s2, state2, _, _) =
                backend_read_state a state1 (set_executor r1 (backend_name b)) in
              ap (by_name cv) (read_base-both b a state r cv k l d)
              ∙ both_by_name b a cv k l s s2 state1 state2
              ∙ sym (pair-usable cv true true (some b) (some a) c d k l state r))
        | inr d ↦
            ap (by_name cv) (read_base-standard b state r cv k d)
            ∙ alone_by_name Route.standard (backend_name b) cv (route_name-standard b cv k) s state1
            ∙ sym (pair-usable cv true false (some b) cv.amw0_backend c d k refl state r)
      ]

  amw0_in_turn :
      (a : Backend A) (state : Snapshot) (r : BackendResult) (cv : Converged S A)
      → cv.amw0_backend ≡ some a
      → (cv.standard_available && cv.standard_capabilities.can_read_state) ≡ false
      → (cv.amw0_available && cv.amw0_capabilities.can_read_state) ≡ true
      → named_reading cv (read_base Route.amw0 state r cv) ≡ pair_read_in_turn cv state r
  amw0_in_turn a state r cv k c d =
      let (s, state1, _, _) = backend_read_state a state r in
      ap (by_name cv) (read_base-amw0 a state r cv k c)
      ∙ alone_by_name Route.amw0 (backend_name a) cv (route_name-amw0 a cv k) s state1
      ∙ sym (pair-usable cv false true cv.standard_backend (some a) c d refl k state r)

  standard_first :
      (cv : Converged S A)
      → primary_backend cv RouteKind.read_state ≡ some Route.standard
      → (cv.standard_available && cv.standard_capabilities.can_read_state) ≡ true
  unfolding primary_backend standard_serves amw0_serves capability_for_route
  standard_first cv e = ground arith

  amw0_first :
      (cv : Converged S A)
      → primary_backend cv RouteKind.read_state ≡ some Route.amw0
      → ((cv.standard_available && cv.standard_capabilities.can_read_state) ≡ false)
        × ((cv.amw0_available && cv.amw0_capabilities.can_read_state) ≡ true)
  unfolding primary_backend standard_serves amw0_serves capability_for_route
  amw0_first cv e = ground arith

  none_first :
      (cv : Converged S A)
      → primary_backend cv RouteKind.read_state ≡ none
      → ((cv.standard_available && cv.standard_capabilities.can_read_state) ≡ false)
        × ((cv.amw0_available && cv.amw0_capabilities.can_read_state) ≡ false)
  unfolding primary_backend standard_serves amw0_serves capability_for_route
  none_first cv e = ground arith

  -- The first reading of `converged_read_state` is the one in turn.
  pub read_base-in_turn :
      (p : Route) (state : Snapshot) (r : BackendResult) (cv : Converged S A)
      → HasBackends cv
      → primary_backend cv RouteKind.read_state ≡ some p
      → named_reading cv (read_base p state r cv) ≡ pair_read_in_turn cv state r
  read_base-in_turn Route.standard state r cv h e =
      let c = standard_first cv e in
      let (b, k) = some_of cv.standard_backend (h.standard (and_left _ _ c)) in
      standard_in_turn b state r cv h k c
  read_base-in_turn Route.amw0 state r cv h e =
      let (c, d) = amw0_first cv e in
      let (a, k) = some_of cv.amw0_backend (h.amw0 (and_left _ _ d)) in
      amw0_in_turn a state r cv k c d

  -- Without a route there is nothing to read.
  pub no_read-in_turn :
      (state : Snapshot) (r : BackendResult) (cv : Converged S A)
      → primary_backend cv RouteKind.read_state ≡ none
      → pair_read_in_turn cv state r ≡ (Status.not_supported, [], state)
  no_read-in_turn state r cv e = let (c, d) = none_first cv e in rw (c, d) refl
