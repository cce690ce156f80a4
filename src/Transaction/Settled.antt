-- ===== src/Transaction/Settled.antt =====
-- However the backend behaves, `lcc_transaction_execute` settles (src/daemon/transaction.c): it never
-- returns with the transaction pending, and what it records agrees with what it returns.
use kuangshi16pro_series_gm.Prelude.{◌≡◌, ◌≢◌, ◌⊎◌, inl, inr, refl, Option, some, arith}
use kuangshi16pro_series_gm.Text.{Text}
use kuangshi16pro_series_gm.Status.{Status}
use kuangshi16pro_series_gm.State.{Mode, StateTarget, TransactionState, zero_transaction}
use kuangshi16pro_series_gm.Backend.{BackendResult}
use kuangshi16pro_series_gm.Manager.{Manager}
use kuangshi16pro_series_gm.Request.{Request, operation_name}
use kuangshi16pro_series_gm.Bookkeeping.{transaction_fail}
use kuangshi16pro_series_gm.Transaction.{
  capability_gate, refresh_state, apply_failed, complete, refresh_failed, finish, route, gate,
  execute,
}
use kuangshi16pro_series_gm.Transaction.Records.{transaction_fail_lem, refresh_state_keeps}

module _ {C : Type 0} where
  -- The failure of a request is on record, in the transaction and in the last apply.
  abbrev pub IsFailed : Request → Status → Manager C → Type 0
  IsFailed req s m =
      (m.state_cache.transaction.state ≡ TransactionState.failed)
      × (m.state_cache.transaction.operation ≡ operation_name req)
      × (m.state_cache.transaction.last_error ≡ s)
      × (m.state_cache.last_apply.error ≡ s)

  -- The return with LCC_OK goes with a transaction that is idle and a last apply without error, and
  -- the return with an error goes with the record of that failure.
  unfoldable pub Settled : Request → Status × Manager C → Type 0
  Settled req (s, m) =
      ((s ≡ Status.ok)
        × (m.state_cache.transaction ≡ zero_transaction)
        × (m.state_cache.last_apply.error ≡ Status.ok))
      ⊎ ((s ≢ Status.ok) × IsFailed req s m)

  transaction_fail-IsFailed :
      (req : Request) (stage backend : Text) (p : Option StateTarget) (s : Status) (m : Manager C)
      → IsFailed req s (transaction_fail (operation_name req) stage backend p s m)
  transaction_fail-IsFailed req stage backend p s m =
      rw (transaction_fail_lem req stage backend p s m) (refl, refl, refl, refl)

  refresh_state-IsFailed :
      (uninit : BackendResult) (req : Request) (s : Status) (m : Manager C)
      → IsFailed req s m
      → IsFailed req s (refresh_state uninit m).1
  refresh_state-IsFailed uninit req s m h =
      rw ((refresh_state_keeps uninit m).0, (refresh_state_keeps uninit m).1) h

  failed-Settled :
      (req : Request) (s : Status) (m : Manager C)
      → s ≢ Status.ok
      → IsFailed req s m
      → Settled req (s, m)
  unfolding Settled
  failed-Settled req s m h f = inr (h, f)

  complete-Settled :
      (req : Request) (t : StateTarget) (r : BackendResult) (m : Manager C)
      → Settled req (complete req t r m)
  unfolding complete Settled
  complete-Settled req t r m = inl (ground arith)

  refresh_failed-Settled :
      (req : Request) (t : StateTarget) (r : BackendResult) (s : Status) (m : Manager C)
      → s ≢ Status.ok
      → Settled req (refresh_failed req t r s m)
  unfolding refresh_failed
  refresh_failed-Settled req t r s m h =
      failed-Settled req s _ h (transaction_fail-IsFailed req _ r.executor_backend (some t) s m)

  apply_failed-Settled :
      (uninit : BackendResult) (req : Request) (t : StateTarget) (s : Status) (r : BackendResult)
      (m : Manager C)
      → s ≢ Status.ok
      → Settled req (apply_failed uninit req t s r m)
  unfolding apply_failed
  apply_failed-Settled uninit req t s r m h = failed-Settled req s _ h (
      refresh_state-IsFailed uninit req s _
        (transaction_fail-IsFailed req _ r.executor_backend (some t) s m))

  finish-Settled :
      (uninit : BackendResult) (req : Request) (t : StateTarget) (r : BackendResult) (m : Manager C)
      → Settled req (finish uninit req t r m)
  unfolding finish
  finish-Settled uninit req t r m = grind (arith, complete-Settled, refresh_failed-Settled)

  route-Settled :
      (uninit : BackendResult) (req : Request) (t : StateTarget) (mode : Mode) (m : Manager C)
      → Settled req (route uninit req t mode m)
  unfolding route
  route-Settled uninit req t mode m = grind (arith, finish-Settled, apply_failed-Settled)

  gate-Settled :
      (uninit : BackendResult) (req : Request) (t : StateTarget) (mode : Mode) (m : Manager C)
      → Settled req (gate uninit req t mode m)
  unfolding gate capability_gate
  gate-Settled uninit req t mode m =
      grind (arith, route-Settled, failed-Settled, transaction_fail-IsFailed)

  -- For every backend and every request, `lcc_transaction_execute` never leaves the transaction
  -- pending. If it returns LCC_OK the transaction is idle and cleared, and the last apply has no error;
  -- if it returns an error, the transaction is failed, and the operation of the request and that same
  -- error are on record, in the transaction and in the last apply.
  pub execute-Settled :
      (uninit : BackendResult) (m : Manager C) (req : Request) → Settled req (execute uninit m req)
  unfolding execute
  execute-Settled uninit m req =
      grind (arith, gate-Settled, failed-Settled, transaction_fail-IsFailed)
