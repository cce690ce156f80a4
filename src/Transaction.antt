-- ===== src/Transaction.antt =====
-- src/daemon/transaction.c from `transaction_capability_gate` on: the gate, the call of the backend, the
-- refresh, and `lcc_transaction_execute`. The steps of execute follow one another as the functions
-- `execute`, `gate`, `route`, `finish` below, each ending at a return of the source.
pub mod Records
pub mod Settled
pub mod Gate
pub mod Outcome
pub mod Logged
pub mod Success
use kuangshi16pro_series_gm.Prelude.{true, Option, none, some, [], ◌++◌, ◌&&◌, if◌then◌else◌}
use kuangshi16pro_series_gm.Text.{Text, literal, is_empty, fit}
use kuangshi16pro_series_gm.Status.{Status, is_ok, is_not_supported}
use kuangshi16pro_series_gm.State.{reason_max, Mode, StateTarget}
use kuangshi16pro_series_gm.Backend.{
  BackendResult, Backend, result_reset, backend_apply_profile, backend_apply_mode,
  backend_apply_power_limits, backend_apply_fan_table, backend_apply_fan_boost,
}
use kuangshi16pro_series_gm.Reader.{reader_refresh}
use kuangshi16pro_series_gm.Manager.{Level, Manager}
use kuangshi16pro_series_gm.Request.{
  Request, set_profile, set_mode, set_power_limits, apply_fan_table, set_fan_boost,
  mode_to_profile_name, operation_name, capability_name, capability_supported, stage_target,
}
use kuangshi16pro_series_gm.Summary.{nonnull_text, format_detail_summary}
use kuangshi16pro_series_gm.Bookkeeping.{
  stage_preflight, stage_capability_gate, stage_backend_route, stage_apply, stage_state_refresh,
  stage_complete, last_apply_begin, transaction_begin, on_last_apply, on_transaction,
  last_apply_update_stage, last_apply_update_backend, last_apply_set_target,
  last_apply_set_hardware_write, last_apply_set_error, transaction_update_stage,
  transaction_mark_public_stage, transaction_set_pending_target, log_event, transaction_clear,
  transaction_fail,
}

abbrev or_none : Option Text → Text
or_none none = literal "none"
or_none (some t) = t

-- The detail of a request that the preflight refuses.
unfoldable pub preflight_detail : Request → Text
preflight_detail (set_mode name) = fit reason_max (literal "could not parse mode=" ++ or_none name)
preflight_detail (set_profile name) = fit reason_max (literal "unsafe profile=" ++ or_none name)
preflight_detail (apply_fan_table name) =
    fit reason_max (literal "unsafe fan_table=" ++ or_none name)
preflight_detail (set_fan_boost _) = fit reason_max (literal "fan boost preflight rejected")
preflight_detail (set_power_limits _) =
    fit reason_max (literal "power target requires at least one present limit")

abbrev pub failure_stage : BackendResult → Status → Text
failure_stage r s =
    if is_empty r.stage
    then if is_not_supported s then stage_backend_route else stage_apply
    else r.stage

module _ {C : Type 0} where
  -- `transaction_capability_gate`: its status and the detail that it writes.
  unfoldable pub capability_gate : Manager C → Request → Status × Text
  capability_gate m req =
      if capability_supported m.backend_capabilities req then (Status.ok, []) else (
        Status.not_supported,
        fit reason_max (
            literal "manager capability gate rejected "
            ++ (capability_name req
                ++ (literal " for backend selection "
                    ++ nonnull_text m.state_cache.backend_selected))),
      )

  -- The profile case of `transaction_apply`: a backend that has no such operation may still have the
  -- mode that the profile is named after.
  unfoldable pub apply_profile_or_mode :
      Option Text → Mode → Backend C → Status × BackendResult × Backend C
  apply_profile_or_mode name mode b =
      let (s, r, b') = backend_apply_profile name b result_reset in
      let (found, _, named) = mode_to_profile_name name [] mode in
      if is_not_supported s && is_ok found then backend_apply_mode named b' r else (s, r, b')

  -- `transaction_apply`, which resets the result first, on the backend of the manager.
  unfoldable pub transaction_apply : Backend C → Request → Mode → Status × BackendResult × Backend C
  transaction_apply b (set_profile name) mode = apply_profile_or_mode name mode b
  transaction_apply b (set_mode _) mode = backend_apply_mode mode b result_reset
  transaction_apply b (set_power_limits limits) mode =
      backend_apply_power_limits limits b result_reset
  transaction_apply b (apply_fan_table name) mode = backend_apply_fan_table name b result_reset
  transaction_apply b (set_fan_boost enabled) mode = backend_apply_fan_boost enabled b result_reset

  -- `lcc_transaction_refresh_state`. `uninit` is the content of an uninitialised local of the reader.
  unfoldable pub refresh_state : BackendResult → Manager C → Status × Manager C
  refresh_state uninit m =
      let (s, cache, b) = reader_refresh uninit m.backend m.state_cache in
      (
        s,
        record m {
          backend = b;
          state_cache =
              if is_ok s then record cache { transaction = m.state_cache.transaction } else cache;
        },
      )

  -- The stages that the result of an apply sets.
  unfoldable pub record_result : BackendResult → Manager C → Manager C
  record_result r m =
      let m1 = last_apply_set_hardware_write r.hardware_write m in
      let m2 =
        if is_empty r.executor_backend
        then m1
        else last_apply_update_backend r.executor_backend m1 in
      if is_empty r.stage
      then last_apply_update_stage stage_apply m2
      else transaction_update_stage r.stage (last_apply_update_stage r.stage m2)

  -- The return after `transaction_apply` failed.
  unfoldable pub apply_failed :
      BackendResult
      → Request
      → StateTarget
      → Status
      → BackendResult
      → Manager C
      → Status × Manager C
  apply_failed uninit req target s r m =
      let m1 =
        transaction_fail (operation_name req) (failure_stage r s) r.executor_backend (some target) s
          m in
      let m2 = (refresh_state uninit m1).1 in
      (
        s,
        log_event Level.error (operation_name req)
            (if is_not_supported s then stage_backend_route else stage_apply) r.executor_backend
            (some target) s (format_detail_summary reason_max r.stage r.detail) m2,
      )

  -- The end of `lcc_transaction_execute`, after the refresh succeeded.
  unfoldable pub complete : Request → StateTarget → BackendResult → Manager C → Status × Manager C
  complete req target r m =
      let m1 =
        if r.hardware_write
        then record m { state_cache = record m.state_cache { hardware_write = true } }
        else m in
      let m2 = last_apply_set_error Status.ok m1 in
      let m3 = if is_empty r.stage then last_apply_update_stage stage_apply m2 else m2 in
      let m4 =
        log_event Level.info (operation_name req) stage_complete r.executor_backend (some target)
          Status.ok (format_detail_summary reason_max r.stage r.detail) m3 in
      (Status.ok, transaction_clear m4)

  unfoldable pub refresh_failed :
      Request → StateTarget → BackendResult → Status → Manager C → Status × Manager C
  refresh_failed req target r s m =
      let m1 =
        transaction_fail (operation_name req) stage_state_refresh r.executor_backend (some target) s
          m in
      (
        s,
        log_event Level.error (operation_name req) stage_state_refresh r.executor_backend
            (some target) s
            (format_detail_summary reason_max r.stage
              (literal "state refresh failed after backend apply"))
            m1,
      )

  -- From the apply that succeeded to the end.
  unfoldable pub finish :
      BackendResult → Request → StateTarget → BackendResult → Manager C → Status × Manager C
  finish uninit req target r m =
      let m1 = transaction_update_stage stage_state_refresh (
        last_apply_set_error Status.ok
          (last_apply_update_backend r.executor_backend (last_apply_set_target (some target) m))) in
      let (s, m2) = refresh_state uninit m1 in
      if is_ok s then complete req target r m2 else refresh_failed req target r s m2

  -- From the capability gate that was passed.
  unfoldable pub route :
      BackendResult → Request → StateTarget → Mode → Manager C → Status × Manager C
  route uninit req target mode m =
      let m1 = transaction_update_stage stage_backend_route m in
      let (s, r, b) = transaction_apply m1.backend req mode in
      let m2 = record_result r (record m1 { backend = b }) in
      if is_ok s then finish uninit req target r m2 else apply_failed uninit req target s r m2

  -- From the preflight that was passed.
  unfoldable pub gate :
      BackendResult → Request → StateTarget → Mode → Manager C → Status × Manager C
  gate uninit req target mode m =
      let m1 =
        transaction_mark_public_stage stage_capability_gate
          (transaction_set_pending_target (some target) m) in
      let (s, detail) = capability_gate m1 req in
      if is_ok s then route uninit req target mode m1 else (
        s,
        log_event Level.error (operation_name req) stage_capability_gate [] (some target) s detail
            (transaction_fail (operation_name req) stage_capability_gate [] (some target) s m1),
      )

  -- The manager once the transaction has begun.
  unfoldable pub begin : Request → Manager C → Manager C
  begin req m =
      let m1 =
        on_last_apply last_apply_begin
          (on_transaction (λ t. transaction_begin t (operation_name req)) m) in
      transaction_mark_public_stage stage_preflight
        (log_event Level.info (operation_name req) (literal "begin") [] none Status.ok [] m1)

  -- `lcc_transaction_execute`
  unfoldable pub execute : BackendResult → Manager C → Request → Status × Manager C
  execute uninit m req =
      let m1 = begin req m in
      let (s, target, mode) = stage_target m1.state_cache.requested req in
      if is_ok s then gate uninit req target mode m1 else (
        s,
        log_event Level.error (operation_name req) stage_preflight [] none s (preflight_detail req)
            (transaction_fail (operation_name req) stage_preflight [] none s m1),
      )
