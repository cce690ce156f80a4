-- ===== src/Converged/InTurn.antt =====
-- The reads of a pair of backends one after the other, as `converged_read_state` makes them
-- (src/backends/converged/backend.c), without the routes of the pair.
pub mod Steps
pub mod Reads
use kuangshi16pro_series_gm.Prelude.{
  ◌≡◌, ◌≢◌, refl, ap, sym, ◌∙◌, Bool, true, false, ◌&&◌, Option, none, some, [], arith, Bool-cases,
  inl, inr, if◌then◌else◌,
}
use kuangshi16pro_series_gm.Text.{Text}
use kuangshi16pro_series_gm.Status.{Status}
use kuangshi16pro_series_gm.State.{Snapshot}
use kuangshi16pro_series_gm.Backend.{
  BackendResult, Backend, backend_name, set_executor, backend_read_state,
}
use kuangshi16pro_series_gm.Converged.{
  RouteKind, Route, Converged, capability_for_route, standard_serves, amw0_serves, primary_backend,
  secondary_backend, route_name,
}
use kuangshi16pro_series_gm.Converged.Read.{
  Reading, is_unread, read_route, try_read, read_again, read_base,
}

-- The answers after which the next backend is asked.
abbrev pub asks_next : Status → Bool
asks_next Status.not_supported = true
asks_next Status.not_found = true
asks_next _ = false

-- What a backend may be asked, if it is available and capable.
abbrev pub usable : {C : Type 0} → Bool → Bool → Option (Backend C) → Option (Backend C)
usable available capable b = if available && capable then b else none

module _ {S A : Type 0} where
  -- The status, the name of the backend that answered, and the snapshot that it left: the standard
  -- backend is asked first, and amw0 where the answer is NOT_SUPPORTED or NOT_FOUND. The second is
  -- asked with the snapshot and the result that the first left.
  abbrev pub read_in_turn :
      Option (Backend S) → Option (Backend A) → Snapshot → BackendResult → Status × Text × Snapshot
  read_in_turn none none state r = (Status.not_supported, [], state)
  read_in_turn (some b) none state r =
      let (s, state', _, _) = backend_read_state b state r in (s, backend_name b, state')
  read_in_turn none (some a) state r =
      let (s, state', _, _) = backend_read_state a state r in (s, backend_name a, state')
  read_in_turn (some b) (some a) state r =
      let (s, state', r', _) = backend_read_state b state r in
      let (s2, state2, _, _) = backend_read_state a state' (set_executor r' (backend_name b)) in
      if asks_next s then (s2, backend_name a, state2) else (s, backend_name b, state')

  -- The reads in turn of the backends of a pair that are available and capable of a read.
  abbrev pub pair_read_in_turn : Converged S A → Snapshot → BackendResult → Status × Text × Snapshot
  pair_read_in_turn cv =
      read_in_turn
        (usable cv.standard_available cv.standard_capabilities.can_read_state cv.standard_backend)
        (usable cv.amw0_available cv.amw0_capabilities.can_read_state cv.amw0_backend)

  -- What is said of a reading in terms of the pair, by the name of its route.
  abbrev pub named_reading : Converged S A → Reading S A → Status × Text × Snapshot
  named_reading cv (s, used, state, _, _) = (s, route_name cv used, state)

  -- A backend that is available is not NULL.
  pub record HasBackends (cv : Converged S A) : Type 0 where
    pub standard : cv.standard_available ≡ true → cv.standard_backend ≢ none
    pub amw0 : cv.amw0_available ≡ true → cv.amw0_backend ≢ none
