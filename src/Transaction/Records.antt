-- ===== src/Transaction/Records.antt =====
-- What the parts of `lcc_transaction_execute` leave in the transaction, the last apply and the log
-- (src/daemon/transaction.c).
use kuangshi16pro_series_gm.Prelude.{◌≡◌, refl, Option, arith}
use kuangshi16pro_series_gm.Text.{Text, literal, fit}
use kuangshi16pro_series_gm.Status.{Status}
use kuangshi16pro_series_gm.State.{
  operation_max, stage_max, backend_name_max, StateTarget, TransactionState, TransactionSnapshot,
}
use kuangshi16pro_series_gm.Backend.{BackendResult}
use kuangshi16pro_series_gm.Reader.{copy_name}
use kuangshi16pro_series_gm.Reader.Preserves.{reader_refresh_keeps}
use kuangshi16pro_series_gm.Manager.{Manager}
use kuangshi16pro_series_gm.Request.{
  Request, set_profile, set_mode, set_power_limits, apply_fan_table, set_fan_boost, operation_name,
}
use kuangshi16pro_series_gm.Bookkeeping.{updated, target_or_zero, is_given, transaction_fail}
use kuangshi16pro_series_gm.Transaction.{refresh_state}

-- The name of every operation fits its buffer.
pub operation_name_fits :
    (r : Request) → (copy_name operation_max (operation_name r)).1 ≡ operation_name r
unfolding operation_name copy_name fit literal
operation_name_fits (set_profile _) = refl
operation_name_fits (set_mode _) = refl
operation_name_fits (set_power_limits _) = refl
operation_name_fits (apply_fan_table _) = refl
operation_name_fits (set_fan_boost _) = refl

-- The transaction that a failure leaves.
abbrev pub failed_transaction : Text → Text → Option StateTarget → Status → TransactionSnapshot
failed_transaction operation stage pending s = record {
  state = TransactionState.failed;
  operation = operation;
  stage = updated stage_max stage;
  has_pending_target = is_given pending;
  pending_target = target_or_zero pending;
  last_error = s;
}

module _ {C : Type 0} where
  pub transaction_fail_lem :
      (req : Request) (stage backend : Text) (pending : Option StateTarget) (s : Status)
      (m : Manager C)
      → transaction_fail (operation_name req) stage backend pending s m ≡ record m {
        state_cache = record m.state_cache {
          transaction = failed_transaction (operation_name req) stage pending s;
          last_apply = record m.state_cache.last_apply {
            stage = updated stage_max stage;
            backend = updated backend_name_max backend;
            has_target = is_given pending;
            target = target_or_zero pending;
            error = s;
          };
        };
      }
  unfolding transaction_fail
  transaction_fail_lem req stage backend pending s m = rw (operation_name_fits req)

  -- A refresh of the daemon's state keeps the transaction, the last apply, the log and what the
  -- backend was found capable of.
  pub refresh_state_keeps :
      (uninit : BackendResult) (m : Manager C)
      → let m' = (refresh_state uninit m).1 in
        (m'.state_cache.transaction ≡ m.state_cache.transaction)
        × (m'.state_cache.last_apply ≡ m.state_cache.last_apply)
        × (m'.log ≡ m.log)
        × (m'.backend_capabilities ≡ m.backend_capabilities)
  unfolding refresh_state
  refresh_state_keeps uninit m = ground (arith, reader_refresh_keeps uninit m.backend m.state_cache)
