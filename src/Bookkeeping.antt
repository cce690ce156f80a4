-- ===== src/Bookkeeping.antt =====
-- src/daemon/transaction.c: what a transaction writes into the state cache and into the log, from
-- `last_apply_begin` to `transaction_fail`, and `transaction_begin`. The tests of pointers that the
-- callers never leave NULL are left out.
use kuangshi16pro_series_gm.Prelude.{
  ℕ, Bool, true, false, Option, none, some, [], ◌∷◌, if◌then◌else◌,
}
use kuangshi16pro_series_gm.Text.{Text, literal, is_empty}
use kuangshi16pro_series_gm.Status.{Status}
use kuangshi16pro_series_gm.State.{
  operation_max, stage_max, backend_name_max, StateTarget, TransactionState, TransactionSnapshot,
  LastApply, zero_target, zero_transaction,
}
use kuangshi16pro_series_gm.Reader.{copy_name}
use kuangshi16pro_series_gm.Manager.{Level, Manager}
use kuangshi16pro_series_gm.Summary.{format_target_summary, format_target_none, nonnull_text}

abbrev pub stage_preflight : Text
stage_preflight = literal "preflight-validate"

abbrev pub stage_capability_gate : Text
stage_capability_gate = literal "capability-gate"

abbrev pub stage_backend_route : Text
stage_backend_route = literal "backend-route"

abbrev pub stage_apply : Text
stage_apply = literal "apply"

abbrev pub stage_state_refresh : Text
stage_state_refresh = literal "state-refresh"

abbrev pub stage_complete : Text
stage_complete = literal "complete"

-- A buffer of n bytes that is given a text, or cleared if the text is empty.
abbrev pub updated : ℕ → Text → Text
updated n t = if is_empty t then [] else (copy_name n t).1

abbrev pub target_or_zero : Option StateTarget → StateTarget
target_or_zero none = zero_target
target_or_zero (some t) = t

abbrev pub is_given : Option StateTarget → Bool
is_given none = false
is_given (some _) = true

-- `last_apply_begin`; the name of the backend and the stage are cleared, the rest is reset.
unfoldable pub last_apply_begin : LastApply → LastApply
last_apply_begin a = record {
  stage = [];
  backend = [];
  has_target = false;
  target = zero_target;
  has_hardware_write = false;
  hardware_write = false;
  error = Status.ok;
}

-- `transaction_begin`, on the transaction.
unfoldable pub transaction_begin : TransactionSnapshot → Text → TransactionSnapshot
transaction_begin t operation = record {
  state = TransactionState.pending;
  operation = (copy_name operation_max operation).1;
  stage = [];
  has_pending_target = false;
  pending_target = zero_target;
  last_error = Status.ok;
}

module _ {C : Type 0} where
  abbrev pub on_last_apply : (LastApply → LastApply) → Manager C → Manager C
  on_last_apply f m = record m {
    state_cache = record m.state_cache { last_apply = f m.state_cache.last_apply };
  }

  abbrev pub on_transaction : (TransactionSnapshot → TransactionSnapshot) → Manager C → Manager C
  on_transaction f m = record m {
    state_cache = record m.state_cache { transaction = f m.state_cache.transaction };
  }

  abbrev pub last_apply_update_stage : Text → Manager C → Manager C
  last_apply_update_stage s = on_last_apply (λ a. record a { stage = updated stage_max s })

  abbrev pub last_apply_update_backend : Text → Manager C → Manager C
  last_apply_update_backend b =
      on_last_apply (λ a. record a { backend = updated backend_name_max b })

  abbrev pub last_apply_set_target : Option StateTarget → Manager C → Manager C
  last_apply_set_target t =
      on_last_apply (λ a. record a { has_target = is_given t; target = target_or_zero t })

  abbrev pub last_apply_set_hardware_write : Bool → Manager C → Manager C
  last_apply_set_hardware_write w =
      on_last_apply (λ a. record a { has_hardware_write = true; hardware_write = w })

  abbrev pub last_apply_set_error : Status → Manager C → Manager C
  last_apply_set_error e = on_last_apply (λ a. record a { error = e })

  abbrev pub transaction_update_stage : Text → Manager C → Manager C
  transaction_update_stage s = on_transaction (λ t. record t { stage = updated stage_max s })

  abbrev pub transaction_mark_public_stage : Text → Manager C → Manager C
  transaction_mark_public_stage s m = last_apply_update_stage s (transaction_update_stage s m)

  abbrev pub transaction_set_pending_target : Option StateTarget → Manager C → Manager C
  transaction_set_pending_target p m = last_apply_set_target p (
      on_transaction
        (λ t. record t { has_pending_target = is_given p; pending_target = target_or_zero p }) m)

  -- `log_transaction_event`
  abbrev pub log_event :
      Level → Text → Text → Text → Option StateTarget → Status → Text → Manager C → Manager C
  log_event level operation stage backend target status detail m = record m {
    log =
        record {
          level = level;
          operation = operation;
          stage = nonnull_text stage;
          backend = nonnull_text backend;
          status = status;
          target = elim target [
            | none ↦ format_target_none 256
            | some t ↦ format_target_summary 256 t
          ];
          detail = nonnull_text detail;
        }
        ∷ m.log;
  }

  -- `transaction_clear`
  abbrev pub transaction_clear : Manager C → Manager C
  transaction_clear = on_transaction (λ _. zero_transaction)

  -- `transaction_fail`
  unfoldable pub transaction_fail :
      Text → Text → Text → Option StateTarget → Status → Manager C → Manager C
  transaction_fail operation stage backend pending status m =
      let m1 =
        on_transaction
          (λ t. record t {
            state = TransactionState.failed;
            operation = (copy_name operation_max operation).1;
          })
          m in
      let m2 = transaction_set_pending_target pending (transaction_update_stage stage m1) in
      let m3 = on_transaction (λ t. record t { last_error = status }) m2 in
      last_apply_update_backend backend
        (last_apply_update_stage stage (last_apply_set_error status m3))
