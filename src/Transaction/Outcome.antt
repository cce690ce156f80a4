-- ===== src/Transaction/Outcome.antt =====
-- What `lcc_transaction_execute` reports of a request that reaches the backend
-- (src/daemon/transaction.c).
use kuangshi16pro_series_gm.Prelude.{◌≡◌, ◌⊎◌, refl, true, some, arith, Bool-cases, inl, inr}
use kuangshi16pro_series_gm.Text.{Text}
use kuangshi16pro_series_gm.Status.{Status, is_ok}
use kuangshi16pro_series_gm.State.{backend_name_max, Mode, StateTarget, LastApply}
use kuangshi16pro_series_gm.Backend.{BackendResult}
use kuangshi16pro_series_gm.Manager.{Manager}
use kuangshi16pro_series_gm.Request.{Request, operation_name, capability_supported, stage_target}
use kuangshi16pro_series_gm.Bookkeeping.{updated, transaction_fail}
use kuangshi16pro_series_gm.Transaction.{
  capability_gate, transaction_apply, refresh_state, record_result, apply_failed, complete,
  refresh_failed, finish, route, gate, begin, execute,
}
use kuangshi16pro_series_gm.Transaction.Records.{transaction_fail_lem, refresh_state_keeps}

-- The diagnostics of the last apply name the target, the executor that the backend reported and
-- whether it wrote to the hardware.
pub record Reports (target : StateTarget) (r : BackendResult) (a : LastApply) : Type 0 where
  pub has_target : a.has_target ≡ true
  pub target_composed : a.target ≡ target
  pub executor : a.backend ≡ updated backend_name_max r.executor_backend
  pub has_hardware_write : a.has_hardware_write ≡ true
  pub hardware_write : a.hardware_write ≡ r.hardware_write

-- The hardware write is on record, once `transaction_apply` has returned.
abbrev Wrote : BackendResult → LastApply → Type 0
Wrote r a = (a.has_hardware_write ≡ true) × (a.hardware_write ≡ r.hardware_write)

Reports-Wrote : (t : StateTarget) (r : BackendResult) (a : LastApply) → Reports t r a → Wrote r a
Reports-Wrote t r a h = (h.has_hardware_write, h.hardware_write)

module _ {C : Type 0} where
  record_result-Wrote :
      (r : BackendResult) (m : Manager C) → Wrote r (record_result r m).state_cache.last_apply
  unfolding record_result
  record_result-Wrote r m = ground arith

  transaction_fail-Reports :
      (req : Request) (stage : Text) (t : StateTarget) (r : BackendResult) (s : Status)
      (m : Manager C)
      → Wrote r m.state_cache.last_apply
      → let m' = transaction_fail (operation_name req) stage r.executor_backend (some t) s m in
        Reports t r m'.state_cache.last_apply
  transaction_fail-Reports req stage t r s m w =
      rw (transaction_fail_lem req stage r.executor_backend (some t) s m) (ground arith)

  refresh_state-Reports :
      (uninit : BackendResult) (t : StateTarget) (r : BackendResult) (m : Manager C)
      → Reports t r m.state_cache.last_apply
      → Reports t r (refresh_state uninit m).1.state_cache.last_apply
  refresh_state-Reports uninit t r m h = rw ((refresh_state_keeps uninit m).1) h

  apply_failed-Reports :
      (uninit : BackendResult) (req : Request) (t : StateTarget) (s : Status) (r : BackendResult)
      (m : Manager C)
      → Wrote r m.state_cache.last_apply
      → Reports t r (apply_failed uninit req t s r m).1.state_cache.last_apply
  unfolding apply_failed
  apply_failed-Reports uninit req t s r m w =
      refresh_state-Reports uninit t r _ (transaction_fail-Reports req _ t r s m w)

  refresh_failed-Reports :
      (req : Request) (t : StateTarget) (r : BackendResult) (s : Status) (m : Manager C)
      → Wrote r m.state_cache.last_apply
      → Reports t r (refresh_failed req t r s m).1.state_cache.last_apply
  unfolding refresh_failed
  refresh_failed-Reports req t r s m w = transaction_fail-Reports req _ t r s m w

  complete-Reports :
      (req : Request) (t : StateTarget) (r : BackendResult) (m : Manager C)
      → Reports t r m.state_cache.last_apply
      → Reports t r (complete req t r m).1.state_cache.last_apply
  unfolding complete
  complete-Reports req t r m h = ground arith

  finish-Reports :
      (uninit : BackendResult) (req : Request) (t : StateTarget) (r : BackendResult) (m : Manager C)
      → Wrote r m.state_cache.last_apply
      → Reports t r (finish uninit req t r m).1.state_cache.last_apply
  unfolding finish
  finish-Reports uninit req t r m w =
      grind (arith, complete-Reports, refresh_failed-Reports, refresh_state-Reports, Reports-Wrote)

  route-Reports :
      (uninit : BackendResult) (req : Request) (t : StateTarget) (mode : Mode) (m : Manager C)
      → Reports t
          (transaction_apply m.backend req mode).1
          (route uninit req t mode m).1.state_cache.last_apply
  unfolding route
  route-Reports uninit req t mode m =
      grind (arith, finish-Reports, apply_failed-Reports, record_result-Wrote)

  route_status :
      (uninit : BackendResult) (req : Request) (t : StateTarget) (mode : Mode) (m : Manager C)
      → let s = (transaction_apply m.backend req mode).0 in
        (is_ok s ≡ true) ⊎ ((route uninit req t mode m).0 ≡ s)
  unfolding route apply_failed
  route_status uninit req t mode m =
      elim (Bool-cases (is_ok (transaction_apply m.backend req mode).0)) [
        | inl e ↦ inl e
        | inr e ↦ inr (rw e refl)
      ]

  -- A request whose target is staged and which the backend is capable of reaches the backend. Whatever
  -- the call, the refresh after it and the return come to, the last apply then names the staged target,
  -- the executor that the call reported and whether the call wrote to the hardware. If the call fails,
  -- its status is returned, also if the refresh fails as well.
  pub execute-Reports :
      (uninit : BackendResult) (m : Manager C) (req : Request)
      → is_ok (stage_target m.state_cache.requested req).0 ≡ true
      → capability_supported m.backend_capabilities req ≡ true
      → let (_, target, mode) = stage_target m.state_cache.requested req in
        let (s, r, _) = transaction_apply m.backend req mode in
        let (s', m') = execute uninit m req in
        Reports target r m'.state_cache.last_apply × ((is_ok s ≡ true) ⊎ (s' ≡ s))
  unfolding execute gate capability_gate begin
  execute-Reports uninit m req h k =
      rw (h, k) (route-Reports uninit req _ _ _, route_status uninit req _ _ _)
