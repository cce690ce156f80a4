-- ===== src/Transaction/Success.antt =====
-- When `lcc_transaction_execute` succeeds (src/daemon/transaction.c).
use kuangshi16pro_series_gm.Prelude.{◌≡◌, refl, sym, true, false, ◌||◌, arith, some}
use kuangshi16pro_series_gm.Text.{is_empty}
use kuangshi16pro_series_gm.Status.{Status, is_ok}
use kuangshi16pro_series_gm.State.{Mode, Snapshot, StateTarget, zero_snapshot}
use kuangshi16pro_series_gm.Backend.{BackendResult, Backend, backend_read_state}
use kuangshi16pro_series_gm.Reader.{carry_over, accept_read, reader_refresh}
use kuangshi16pro_series_gm.Manager.{Manager}
use kuangshi16pro_series_gm.Request.{Request, capability_supported, stage_target}
use kuangshi16pro_series_gm.Bookkeeping.{
  stage_capability_gate, stage_backend_route, stage_state_refresh, last_apply_update_backend,
  last_apply_set_target, last_apply_set_error, transaction_update_stage,
  transaction_mark_public_stage, transaction_set_pending_target,
}
use kuangshi16pro_series_gm.Transaction.{
  capability_gate, transaction_apply, refresh_state, record_result, complete, finish, route, gate,
  begin, execute,
}

-- The daemon holds what the backend read, and a hardware write that the call, the read or the state
-- reported.
pub record Holds (r r2 : BackendResult) (read s : Snapshot) : Type 0 where
  pub requested : s.requested ≡ read.requested
  pub effective : s.effective ≡ read.effective
  pub effective_meta : s.effective_meta ≡ read.effective_meta
  pub thermal : s.thermal ≡ read.thermal
  pub hardware_write :
      s.hardware_write ≡ (r.hardware_write || (r2.hardware_write || read.hardware_write))

module _ {C : Type 0} where
  -- The read that follows a call, of a backend that names itself.
  pub record Answers (uninit : BackendResult) (b : Backend C) : Type 0 where
    pub status : is_ok (backend_read_state b zero_snapshot uninit).0 ≡ true
    pub named : is_empty (backend_read_state b zero_snapshot uninit).1.backend_name ≡ false

  refresh_state-Answers :
      (uninit : BackendResult) (m : Manager C)
      → Answers uninit m.backend
      → let (_, read, r2, b2) = backend_read_state m.backend zero_snapshot uninit in
        refresh_state uninit m
        ≡ (Status.ok, record m { backend = b2; state_cache = carry_over m.state_cache r2 read })
  unfolding refresh_state reader_refresh accept_read carry_over
  refresh_state-Answers uninit m h = rw (h.status, h.named) refl

  complete-Holds :
      (req : Request) (t : StateTarget) (r r2 : BackendResult) (old read : Snapshot) (m : Manager C)
      → m.state_cache ≡ carry_over old r2 read
      → let (s, m') = complete req t r m in
        (s ≡ Status.ok) × (m'.backend ≡ m.backend) × Holds r r2 read m'.state_cache
  unfolding complete carry_over
  complete-Holds req t r r2 old read m h = ground (arith, h)

  record_result-backend :
      (r : BackendResult) (m : Manager C) → (record_result r m).backend ≡ m.backend
  unfolding record_result
  record_result-backend r m = ground arith

  finish-Holds :
      (uninit : BackendResult) (req : Request) (t : StateTarget) (r : BackendResult) (m : Manager C)
      → Answers uninit m.backend
      → let (_, read, r2, b2) = backend_read_state m.backend zero_snapshot uninit in
        let (s, m') = finish uninit req t r m in
        (s ≡ Status.ok) × (m'.backend ≡ b2) × Holds r r2 read m'.state_cache
  unfolding finish
  finish-Holds uninit req t r m h =
      let m1 = transaction_update_stage stage_state_refresh (
        last_apply_set_error Status.ok
          (last_apply_update_backend r.executor_backend (last_apply_set_target (some t) m))) in
      let (_, read, r2, b2) = backend_read_state m.backend zero_snapshot uninit in
      rw (refresh_state-Answers uninit m1 h) (
        complete-Holds req t r r2 m1.state_cache read
          (record m1 { backend = b2; state_cache = carry_over m1.state_cache r2 read }) refl)

  finish-Holds-along :
      (uninit : BackendResult) (req : Request) (t : StateTarget) (r : BackendResult) (m : Manager C)
      (b : Backend C)
      → m.backend ≡ b
      → Answers uninit b
      → let (_, read, r2, b2) = backend_read_state b zero_snapshot uninit in
        let (s, m') = finish uninit req t r m in
        (s ≡ Status.ok) × (m'.backend ≡ b2) × Holds r r2 read m'.state_cache
  finish-Holds-along uninit req t r m b p h = rw (sym p) (finish-Holds uninit req t r m (rw p h))

  route-Holds :
      (uninit : BackendResult) (req : Request) (t : StateTarget) (mode : Mode) (m : Manager C)
      → is_ok (transaction_apply m.backend req mode).0 ≡ true
      → Answers uninit (transaction_apply m.backend req mode).2
      → let (_, r, b) = transaction_apply m.backend req mode in
        let (_, read, r2, b2) = backend_read_state b zero_snapshot uninit in
        let (s, m') = route uninit req t mode m in
        (s ≡ Status.ok) × (m'.backend ≡ b2) × Holds r r2 read m'.state_cache
  unfolding route
  route-Holds uninit req t mode m e a =
      let (_, r, b) = transaction_apply m.backend req mode in
      let m1 = record (transaction_update_stage stage_backend_route m) { backend = b } in
      rw e (finish-Holds-along uninit req t r (record_result r m1) b (record_result-backend r m1) a)

  gate-Holds :
      (uninit : BackendResult) (req : Request) (t : StateTarget) (mode : Mode) (m : Manager C)
      → capability_supported m.backend_capabilities req ≡ true
      → is_ok (transaction_apply m.backend req mode).0 ≡ true
      → Answers uninit (transaction_apply m.backend req mode).2
      → let (_, r, b) = transaction_apply m.backend req mode in
        let (_, read, r2, b2) = backend_read_state b zero_snapshot uninit in
        let (s, m') = gate uninit req t mode m in
        (s ≡ Status.ok) × (m'.backend ≡ b2) × Holds r r2 read m'.state_cache
  unfolding gate capability_gate
  gate-Holds uninit req t mode m k e a =
      let m1 =
        transaction_mark_public_stage stage_capability_gate
          (transaction_set_pending_target (some t) m) in
      rw k (route-Holds uninit req t mode m1 e a)

  -- If a request is staged, the backend is capable of it, its call succeeds and the read after it
  -- succeeds with the name of a backend, then `lcc_transaction_execute` returns LCC_OK. The daemon
  -- then holds what the backend read, not what was asked for, and a hardware write if the call, the read
  -- or the state that was read reported one.
  pub execute-Holds :
      (uninit : BackendResult) (m : Manager C) (req : Request)
      → is_ok (stage_target m.state_cache.requested req).0 ≡ true
      → capability_supported m.backend_capabilities req ≡ true
      → is_ok (transaction_apply m.backend req (stage_target m.state_cache.requested req).2).0
        ≡ true
      → Answers uninit
          (transaction_apply m.backend req (stage_target m.state_cache.requested req).2).2
      → let (_, r, b) =
          transaction_apply m.backend req (stage_target m.state_cache.requested req).2 in
        let (_, read, r2, b2) = backend_read_state b zero_snapshot uninit in
        let (s, m') = execute uninit m req in
        (s ≡ Status.ok) × (m'.backend ≡ b2) × Holds r r2 read m'.state_cache
  unfolding execute begin
  execute-Holds uninit m req h k e a =
      let (_, t, mode) = stage_target m.state_cache.requested req in
      rw h (gate-Holds uninit req t mode (begin req m) k e a)
