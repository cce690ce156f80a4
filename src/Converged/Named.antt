-- ===== src/Converged/Named.antt =====
-- What `converged_read_state` says of itself in the snapshot (src/backends/converged/backend.c).
use kuangshi16pro_series_gm.Prelude.{
  ◌≡◌, ◌<◌, ◌⊎◌, refl, inl, inr, Bool-cases, true, false, Option, none, some, [], sym, arith,
  length,
}
use kuangshi16pro_series_gm.Text.{Text, is_empty}
use kuangshi16pro_series_gm.Status.{Status, is_ok}
use kuangshi16pro_series_gm.State.{backend_name_max, reason_max, Snapshot}
use kuangshi16pro_series_gm.Metadata.{state_set_metadata}
use kuangshi16pro_series_gm.Metadata.Routes.{state_set_metadata_short}
use kuangshi16pro_series_gm.Backend.{BackendResult}
use kuangshi16pro_series_gm.Converged.{RouteKind, Route, Converged, primary_backend, route_name}
use kuangshi16pro_series_gm.Converged.InTurn.{HasBackends, named_reading, pair_read_in_turn}
use kuangshi16pro_series_gm.Converged.InTurn.Steps.{backend_read_state_name}
use kuangshi16pro_series_gm.Converged.InTurn.Reads.{read_base-in_turn, no_read-in_turn}
use kuangshi16pro_series_gm.Converged.Read.{
  is_unread, read_route, try_read, read_again, read_base, read_overlay, converged_read_state,
}

Option-cases : {B : Type 0} (o : Option B) → (o ≡ none) ⊎ ((b : B) × (o ≡ some b))
Option-cases none = inl refl
Option-cases (some b) = inr (b, refl)

ok_unique : (s : Status) → is_ok s ≡ true → Status.ok ≡ s
ok_unique s h = ground arith

module _ {S A : Type 0} where
  -- The pair says the same of itself: the names, the selection, its reason and the routes.
  pub record IsAlike (cv cv' : Converged S A) : Type 0 where
    pub standard_name : route_name cv' Route.standard ≡ route_name cv Route.standard
    pub amw0_name : route_name cv' Route.amw0 ≡ route_name cv Route.amw0
    pub selected : cv'.backend_selected ≡ cv.backend_selected
    pub reason : cv'.backend_fallback_reason ≡ cv.backend_fallback_reason
    pub execution : cv'.execution ≡ cv.execution

  IsAlike-refl : (cv : Converged S A) → IsAlike cv cv
  IsAlike-refl cv = record {
    standard_name = refl;
    amw0_name = refl;
    selected = refl;
    reason = refl;
    execution = refl;
  }

  IsAlike-trans : (a b c : Converged S A) → IsAlike a b → IsAlike b c → IsAlike a c
  IsAlike-trans a b c h k = record {
    standard_name = cc (h.standard_name, k.standard_name);
    amw0_name = cc (h.amw0_name, k.amw0_name);
    selected = cc (h.selected, k.selected);
    reason = cc (h.reason, k.reason);
    execution = cc (h.execution, k.execution);
  }

  IsAlike-name : (a b : Converged S A) (p : Route) → IsAlike a b → route_name b p ≡ route_name a p
  IsAlike-name a b Route.standard h = h.standard_name
  IsAlike-name a b Route.amw0 h = h.amw0_name

  read_route-IsAlike :
      (p : Route) (state : Snapshot) (r : BackendResult) (cv : Converged S A)
      → IsAlike cv (read_route p state r cv).3
  unfolding read_route route_name
  read_route-IsAlike Route.standard state r cv = record {
    standard_name = grind (arith, backend_read_state_name);
    amw0_name = ground arith;
    selected = ground arith;
    reason = ground arith;
    execution = ground arith;
  }
  read_route-IsAlike Route.amw0 state r cv = record {
    standard_name = ground arith;
    amw0_name = grind (arith, backend_read_state_name);
    selected = ground arith;
    reason = ground arith;
    execution = ground arith;
  }

  try_read-IsAlike :
      (p : Route) (state : Snapshot) (r : BackendResult) (cv : Converged S A)
      → IsAlike cv (try_read p state r cv).4
  unfolding try_read
  try_read-IsAlike p state r cv = read_route-IsAlike p state r cv

  read_again-IsAlike :
      (s : Status) (p : Route) (state : Snapshot) (r : BackendResult) (cv : Converged S A)
      → IsAlike cv (read_again s p state r cv).4
  unfolding read_again
  read_again-IsAlike s p state r cv = grind (arith, try_read-IsAlike, IsAlike-refl)

  read_base-IsAlike :
      (p : Route) (state : Snapshot) (r : BackendResult) (cv : Converged S A)
      → IsAlike cv (read_base p state r cv).4
  unfolding read_base
  read_base-IsAlike p state r cv =
      let (s, _, state', r', cv') = try_read p state r cv in
      let first = try_read-IsAlike p state r cv in
      elim (Bool-cases (is_unread s)) [
        | inl e ↦ rw e (IsAlike-trans cv cv' _ first (read_again-IsAlike s p state' r' cv'))
        | inr e ↦ rw e first
      ]

  read_overlay-IsAlike :
      (uninit : BackendResult) (p : Route) (state : Snapshot) (cv : Converged S A)
      → IsAlike cv (read_overlay uninit p state cv).1
  unfolding read_overlay
  read_overlay-IsAlike uninit p state cv = grind (arith, read_route-IsAlike, IsAlike-refl)

  -- Every name that the pair has fits its buffer and is not empty, and a backend is selected.
  pub record HasNames (cv : Converged S A) : Type 0 where
    pub standard_given : is_empty (route_name cv Route.standard) ≡ false
    pub standard_fits : length (route_name cv Route.standard) < backend_name_max
    pub amw0_given : is_empty (route_name cv Route.amw0) ≡ false
    pub amw0_fits : length (route_name cv Route.amw0) < backend_name_max
    pub selected_given : is_empty cv.backend_selected ≡ false
    pub selected_fits : length cv.backend_selected < backend_name_max
    pub reason_fits : length cv.backend_fallback_reason < reason_max

  HasNames-name :
      (cv : Converged S A) (p : Route)
      → HasNames cv
      → (is_empty (route_name cv p) ≡ false) × (length (route_name cv p) < backend_name_max)
  HasNames-name cv Route.standard h = (h.standard_given, h.standard_fits)
  HasNames-name cv Route.amw0 h = (h.amw0_given, h.amw0_fits)

  -- A reading that succeeded, with the overlay on top of it and the names.
  read_named :
      (uninit : BackendResult) (p used : Route) (state : Snapshot) (cv cv1 : Converged S A)
      → HasNames cv
      → IsAlike cv cv1
      → let (s2, cv2) = read_overlay uninit p state cv1 in
        state_set_metadata s2
          (route_name cv1 used)
          cv2.backend_selected
          cv2.backend_fallback_reason
          cv2.execution
        ≡ (
          Status.ok,
          record s2 {
            backend_name = route_name cv used;
            backend_selected = cv.backend_selected;
            backend_fallback_reason = cv.backend_fallback_reason;
            execution = cv.execution;
          },
        )
  read_named uninit p used state cv cv1 h k =
      let j = IsAlike-trans cv cv1 _ k (read_overlay-IsAlike uninit p state cv1) in
      let (given, fits) = HasNames-name cv used h in
      rw (j.selected, j.reason, j.execution, IsAlike-name cv cv1 used k)
        (state_set_metadata_short _ _ _ _ _ given h.selected_given fits h.selected_fits
          h.reason_fits)

  -- The snapshot has the name of the backend that was read, and the selection of the pair.
  abbrev pub Names : Converged S A → Text → Snapshot → Type 0
  Names cv name s =
      (s.backend_name ≡ name)
      × (s.backend_selected ≡ cv.backend_selected)
      × (s.backend_fallback_reason ≡ cv.backend_fallback_reason)
      × (s.execution ≡ cv.execution)

  -- What `converged_read_state` makes of a reading.
  abbrev pub Reports : Converged S A → Status × Text × Snapshot → Status → Snapshot → Type 0
  Reports cv (s, name, state1) s' state' =
      (s' ≡ s)
      × (((is_ok s ≡ true) × Names cv name state') ⊎ ((is_ok s ≡ false) × (state' ≡ state1)))

  read_state-route :
      (uninit : BackendResult) (p : Route) (state : Snapshot) (r : BackendResult)
      (cv : Converged S A)
      → HasNames cv
      → primary_backend cv RouteKind.read_state ≡ some p
      → let (s', state', _, _) = converged_read_state uninit state r cv in
        Reports cv (named_reading cv (read_base p state r cv)) s' state'
  unfolding converged_read_state
  read_state-route uninit p state r cv h e =
      let (s, used, state1, r1, cv1) = read_base p state r cv in
      elim (Bool-cases (is_ok s)) [
        | inl k ↦
            rw
              (
                converged_read_state,
                e,
                k,
                read_named uninit p used state1 cv cv1 h (read_base-IsAlike p state r cv),
              )
              (ok_unique s k, inl (refl, (refl, refl, refl, refl)))
        | inr k ↦ rw (converged_read_state, e, k) (refl, inr (refl, refl))
      ]

  read_state-no_route :
      (uninit : BackendResult) (state : Snapshot) (r : BackendResult) (cv : Converged S A)
      → primary_backend cv RouteKind.read_state ≡ none
      → let (s', state', _, _) = converged_read_state uninit state r cv in
        Reports cv (Status.not_supported, [], state) s' state'
  unfolding converged_read_state
  read_state-no_route uninit state r cv e = rw (converged_read_state, e) (refl, inr (refl, refl))

  -- Where the backends that are available are there, and the names of the pair are set and fit their
  -- buffers, `converged_read_state` comes to what asking the available and capable backends in turn
  -- comes to: the standard backend first and, where that answers NOT_SUPPORTED or NOT_FOUND, amw0. It
  -- returns the status of the last one asked, or NOT_SUPPORTED if there is none to ask; no failure of
  -- the additional read of amw0 is returned. On LCC_OK the snapshot has the name of the backend that
  -- answered, and the selection, its reason and the routes of the pair; on an error it is what the
  -- last backend that was asked left.
  pub converged_read_state-Names :
      (uninit : BackendResult) (state : Snapshot) (r : BackendResult) (cv : Converged S A)
      → HasNames cv
      → HasBackends cv
      → let (s', state', _, _) = converged_read_state uninit state r cv in
        Reports cv (pair_read_in_turn cv state r) s' state'
  converged_read_state-Names uninit state r cv h b =
      elim (Option-cases (primary_backend cv RouteKind.read_state)) [
        | inl e ↦
            rw⁻¹ (sym (no_read-in_turn state r cv e)) (read_state-no_route uninit state r cv e)
        | inr (p, e) ↦
            rw⁻¹ (read_base-in_turn p state r cv b e) (read_state-route uninit p state r cv h e)
      ]
