-- ===== src/Transaction/Gate.antt =====
-- A request that the preflight or the capability gate refuses never reaches the backend
-- (src/daemon/transaction.c, and docs/observability.md of the program for what the diagnostics mean).
use kuangshi16pro_series_gm.Prelude.{◌≡◌, refl, true, false, some, none, [], arith}
use kuangshi16pro_series_gm.Text.{literal, fit}
use kuangshi16pro_series_gm.Status.{Status, is_ok}
use kuangshi16pro_series_gm.State.{stage_max}
use kuangshi16pro_series_gm.Backend.{BackendResult}
use kuangshi16pro_series_gm.Reader.{copy_name}
use kuangshi16pro_series_gm.Manager.{Manager}
use kuangshi16pro_series_gm.Request.{Request, operation_name, capability_supported, stage_target}
use kuangshi16pro_series_gm.Bookkeeping.{
  stage_preflight, stage_capability_gate, updated, last_apply_begin,
}
use kuangshi16pro_series_gm.Transaction.{capability_gate, gate, begin, execute}
use kuangshi16pro_series_gm.Transaction.Records.{failed_transaction, transaction_fail_lem}

preflight_fits : updated stage_max stage_preflight ≡ stage_preflight
unfolding literal fit copy_name
preflight_fits = refl

gate_fits : updated stage_max stage_capability_gate ≡ stage_capability_gate
unfolding literal fit copy_name
gate_fits = refl

module _ {C : Type 0} where
  -- Nothing of the manager has changed but the transaction, the last apply and the log; and the last
  -- apply says that no backend was called: it names none and its hardware write is null.
  pub record IsUntouched (m m' : Manager C) : Type 0 where
    pub backend : m'.backend ≡ m.backend
    pub capabilities : m'.backend_capabilities ≡ m.backend_capabilities
    pub capabilities_path : m'.capabilities_path ≡ m.capabilities_path
    pub capabilities_json : m'.capabilities_json ≡ m.capabilities_json
    pub backend_name : m'.state_cache.backend_name ≡ m.state_cache.backend_name
    pub backend_selected : m'.state_cache.backend_selected ≡ m.state_cache.backend_selected
    pub backend_fallback_reason :
        m'.state_cache.backend_fallback_reason ≡ m.state_cache.backend_fallback_reason
    pub execution : m'.state_cache.execution ≡ m.state_cache.execution
    pub requested : m'.state_cache.requested ≡ m.state_cache.requested
    pub effective : m'.state_cache.effective ≡ m.state_cache.effective
    pub effective_meta : m'.state_cache.effective_meta ≡ m.state_cache.effective_meta
    pub thermal : m'.state_cache.thermal ≡ m.state_cache.thermal
    pub hardware_write : m'.state_cache.hardware_write ≡ m.state_cache.hardware_write
    pub no_executor : m'.state_cache.last_apply.backend ≡ []
    pub no_write : m'.state_cache.last_apply.has_hardware_write ≡ false

  -- A request that `transaction_stage_target` refuses returns that status. It leaves everything but the
  -- diagnostics as it was, with no target in the last apply, and stops at the preflight.
  pub execute_preflight :
      (uninit : BackendResult) (m : Manager C) (req : Request)
      → is_ok (stage_target m.state_cache.requested req).0 ≡ false
      → let (s, m') = execute uninit m req in
        (s ≡ (stage_target m.state_cache.requested req).0)
        × IsUntouched m m'
        × (m'.state_cache.last_apply.has_target ≡ false)
        × (m'.state_cache.last_apply.stage ≡ stage_preflight)
        × (m'.state_cache.transaction
            ≡ failed_transaction (operation_name req) stage_preflight none s)
  unfolding execute begin last_apply_begin
  execute_preflight uninit m req h =
      rw (h, transaction_fail_lem req stage_preflight [] none)
        (refl, ground arith, refl, preflight_fits, refl)

  -- A request whose target is staged, but which the backend is not capable of, returns
  -- LCC_ERR_NOT_SUPPORTED. It leaves everything but the diagnostics as it was, keeps the target in
  -- them, and stops at the capability gate.
  pub execute_gate :
      (uninit : BackendResult) (m : Manager C) (req : Request)
      → is_ok (stage_target m.state_cache.requested req).0 ≡ true
      → capability_supported m.backend_capabilities req ≡ false
      → let target = (stage_target m.state_cache.requested req).1 in
        let (s, m') = execute uninit m req in
        (s ≡ Status.not_supported)
        × IsUntouched m m'
        × (m'.state_cache.last_apply.target ≡ target)
        × (m'.state_cache.last_apply.stage ≡ stage_capability_gate)
        × (m'.state_cache.transaction
            ≡ failed_transaction (operation_name req) stage_capability_gate (some target) s)
  unfolding execute gate capability_gate begin last_apply_begin
  execute_gate uninit m req h k =
      rw (h, k, transaction_fail_lem req stage_capability_gate [])
        (refl, ground arith, refl, gate_fits, refl)
