-- ===== src/Converged/InTurn/Steps.antt =====
-- What the steps of `converged_read_state` come to, by which of the two backends can be asked.
use kuangshi16pro_series_gm.Prelude.{
  ◌≡◌, refl, Bool, true, false, ◌&&◌, none, some, arith, Bool-cases, inl, inr, if◌then◌else◌,
}
use kuangshi16pro_series_gm.Status.{Status}
use kuangshi16pro_series_gm.State.{Snapshot}
use kuangshi16pro_series_gm.Backend.{
  BackendResult, Backend, backend_name, set_executor, backend_read_state,
}
use kuangshi16pro_series_gm.Converged.{
  RouteKind, Route, Converged, capability_for_route, standard_serves, amw0_serves,
  secondary_backend, route_name,
}
use kuangshi16pro_series_gm.Converged.Read.{
  Reading, is_unread, read_route, try_read, read_again, read_base,
}
use kuangshi16pro_series_gm.Converged.InTurn.{asks_next}

is_unread-eq-asks_next : (s : Status) → is_unread s ≡ asks_next s
is_unread-eq-asks_next Status.not_supported = refl
is_unread-eq-asks_next Status.not_found = refl
is_unread-eq-asks_next Status.ok = refl
is_unread-eq-asks_next Status.invalid_argument = refl
is_unread-eq-asks_next Status.io = refl
is_unread-eq-asks_next Status.permission = refl
is_unread-eq-asks_next Status.parse = refl
is_unread-eq-asks_next Status.range = refl
is_unread-eq-asks_next Status.unimplemented = refl
is_unread-eq-asks_next Status.buffer_too_small = refl

pub backend_read_state_name :
    {C : Type 0} (b : Backend C) (state : Snapshot) (r : BackendResult)
    → backend_name (backend_read_state b state r).3 ≡ backend_name b
unfolding backend_read_state backend_name
backend_read_state_name b state r = ground arith

if_same : {B : Type 0} (b : Bool) (x : B) → (if b then x else x) ≡ x
if_same true x = refl
if_same false x = refl

module _ {S A : Type 0} where
  try_read-standard :
      (b : Backend S) (state : Snapshot) (r : BackendResult) (cv : Converged S A)
      → cv.standard_backend ≡ some b
      → let (s, state', r', b') = backend_read_state b state r in
        try_read Route.standard state r cv ≡ (
          s,
          Route.standard,
          state',
          set_executor r' (backend_name b),
          record cv { standard_backend = some b' },
        )
  unfolding try_read read_route route_name
  try_read-standard b state r cv h =
      rw (try_read, read_route, h, route_name, backend_read_state_name b state r) refl

  try_read-amw0 :
      (a : Backend A) (state : Snapshot) (r : BackendResult) (cv : Converged S A)
      → cv.amw0_backend ≡ some a
      → let (s, state', r', a') = backend_read_state a state r in
        try_read Route.amw0 state r cv ≡ (
          s,
          Route.amw0,
          state',
          set_executor r' (backend_name a),
          record cv { amw0_backend = some a' },
        )
  unfolding try_read read_route route_name
  try_read-amw0 a state r cv h =
      rw (try_read, read_route, h, route_name, backend_read_state_name a state r) refl

  -- The other route of a read.
  secondary_read-standard :
      (cv : Converged S A)
      → secondary_backend cv RouteKind.read_state Route.standard ≡ (
          if cv.amw0_available && cv.amw0_capabilities.can_read_state
          then some Route.amw0
          else none)
  unfolding secondary_backend standard_serves amw0_serves capability_for_route
  secondary_read-standard cv = refl

  secondary_read-amw0 :
      (cv : Converged S A)
      → (cv.standard_available && cv.standard_capabilities.can_read_state) ≡ false
      → secondary_backend cv RouteKind.read_state Route.amw0 ≡ none
  unfolding secondary_backend standard_serves amw0_serves capability_for_route
  secondary_read-amw0 cv h = rw h refl

  -- What a reading says of the snapshot.
  abbrev pub answer : Reading S A → Status × Route × Snapshot
  answer (s, used, state, _, _) = (s, used, state)

  -- The two ways on after an answer that another backend may better.
  read_again-alone :
      (s : Status) (p : Route) (state : Snapshot) (r : BackendResult) (cv : Converged S A)
      → secondary_backend cv RouteKind.read_state p ≡ none
      → answer (read_again s p state r cv) ≡ (s, p, state)
  unfolding read_again
  read_again-alone s p state r cv h = rw (read_again, h) refl

  read_again-next :
      (s : Status) (p q : Route) (state : Snapshot) (r : BackendResult) (cv : Converged S A)
      → secondary_backend cv RouteKind.read_state p ≡ some q
      → answer (read_again s p state r cv) ≡ answer (try_read q state r cv)
  unfolding read_again
  read_again-next s p q state r cv h = rw (read_again, h) refl

  read_base-goes_on :
      (p : Route) (state : Snapshot) (r : BackendResult) (cv : Converged S A)
      → let (s, used, state', r', cv') = try_read p state r cv in
        answer (read_base p state r cv)
        ≡ (if asks_next s then answer (read_again s p state' r' cv') else (s, used, state'))
  unfolding read_base
  read_base-goes_on p state r cv =
      let (s, _, _, _, _) = try_read p state r cv in
      elim (Bool-cases (asks_next s)) [
        | inl e ↦ rw (read_base, is_unread-eq-asks_next s, e) refl
        | inr e ↦ rw (read_base, is_unread-eq-asks_next s, e) refl
      ]

  -- amw0 is asked first only where the standard backend cannot be asked.
  pub read_base-amw0 :
      (a : Backend A) (state : Snapshot) (r : BackendResult) (cv : Converged S A)
      → cv.amw0_backend ≡ some a
      → (cv.standard_available && cv.standard_capabilities.can_read_state) ≡ false
      → let (s, state', _, _) = backend_read_state a state r in
        answer (read_base Route.amw0 state r cv) ≡ (s, Route.amw0, state')
  read_base-amw0 a state r cv h e =
      let (s, state', r', a') = backend_read_state a state r in
      let cv' = record cv { amw0_backend = some a' } in
      rw
        (
          read_base-goes_on Route.amw0 state r cv,
          try_read-amw0 a state r cv h,
          read_again-alone s Route.amw0 state' (set_executor r' (backend_name a)) cv'
              (secondary_read-amw0 cv' e),
        )
        (if_same (asks_next s) (s, Route.amw0, state'))

  pub read_base-standard :
      (b : Backend S) (state : Snapshot) (r : BackendResult) (cv : Converged S A)
      → cv.standard_backend ≡ some b
      → (cv.amw0_available && cv.amw0_capabilities.can_read_state) ≡ false
      → let (s, state', _, _) = backend_read_state b state r in
        answer (read_base Route.standard state r cv) ≡ (s, Route.standard, state')
  read_base-standard b state r cv h e =
      let (s, state', r', b') = backend_read_state b state r in
      let cv' = record cv { standard_backend = some b' } in
      rw
        (
          read_base-goes_on Route.standard state r cv,
          try_read-standard b state r cv h,
          read_again-alone s Route.standard state' (set_executor r' (backend_name b)) cv'
              (rw (secondary_read-standard cv', e) refl),
        )
        (if_same (asks_next s) (s, Route.standard, state'))

  pub read_base-both :
      (b : Backend S) (a : Backend A) (state : Snapshot) (r : BackendResult) (cv : Converged S A)
      → cv.standard_backend ≡ some b
      → cv.amw0_backend ≡ some a
      → (cv.amw0_available && cv.amw0_capabilities.can_read_state) ≡ true
      → let (s, state1, r1, _) = backend_read_state b state r in
        let (s2, state2, _, _) = backend_read_state a state1 (set_executor r1 (backend_name b)) in
        answer (read_base Route.standard state r cv)
        ≡ (if asks_next s then (s2, Route.amw0, state2) else (s, Route.standard, state1))
  read_base-both b a state r cv h k e =
      let (s, state1, r1, b') = backend_read_state b state r in
      let cv' = record cv { standard_backend = some b' } in
      let r2 = set_executor r1 (backend_name b) in
      rw
        (
          read_base-goes_on Route.standard state r cv,
          try_read-standard b state r cv h,
          read_again-next s Route.standard Route.amw0 state1 r2 cv'
              (rw (secondary_read-standard cv', e) refl),
          try_read-amw0 a state1 r2 cv' k,
        )
        refl
