-- ===== src/Reader.antt =====
-- src/core/state/reader.c: `lcc_state_reader_refresh` reads the state anew from the backend and keeps
-- what the backend does not know: the transaction, the last apply, the selection.
pub mod Preserves
use kuangshi16pro_series_gm.Prelude.{ℕ, true, ◌&&◌, if◌then◌else◌, ltb, length}
use kuangshi16pro_series_gm.Text.{Text, is_empty, fit}
use kuangshi16pro_series_gm.Status.{Status, is_ok}
use kuangshi16pro_series_gm.State.{backend_name_max, reason_max, Snapshot, zero_snapshot}
use kuangshi16pro_series_gm.Attribution.{has_text, mark_effective_cached}
use kuangshi16pro_series_gm.Backend.{BackendResult, Backend, backend_name, backend_read_state}

-- `copy_name` of reader.c and of transaction.c: the text is copied before it is tested.
unfoldable pub copy_name : ℕ → Text → Status × Text
copy_name n value = (
  if is_empty value
      then Status.invalid_argument
      else if ltb (length value) n
      then Status.ok
      else Status.buffer_too_small,
  fit n value,
)

-- A text that the new snapshot lacks is copied from the old one.
abbrev keep_text : ℕ → Text → Text → Text
keep_text n new old = if is_empty new && has_text old then (copy_name n old).1 else new

-- The snapshot that replaces `state`, once the backend has named itself.
unfoldable pub carry_over : Snapshot → BackendResult → Snapshot → Snapshot
carry_over state result refreshed = record refreshed {
  hardware_write = if result.hardware_write then true else refreshed.hardware_write;
  transaction = state.transaction;
  last_apply = state.last_apply;
  backend_selected = keep_text backend_name_max refreshed.backend_selected state.backend_selected;
  backend_fallback_reason =
      keep_text reason_max refreshed.backend_fallback_reason state.backend_fallback_reason;
  execution =
      if is_empty refreshed.execution.read_state && has_text state.execution.read_state
      then state.execution
      else refreshed.execution;
}

module _ {C : Type 0} where
  -- After a read that succeeded. The name of a backend that does not fit fails, and leaves the state.
  unfoldable pub accept_read : Backend C → Snapshot → BackendResult → Snapshot → Status × Snapshot
  accept_read b state result refreshed =
      let (s, name) = copy_name backend_name_max (backend_name b) in
      if is_empty refreshed.backend_name
      then if is_ok s
        then (Status.ok, carry_over state result (record refreshed { backend_name = name }))
        else (s, state)
      else (Status.ok, carry_over state result refreshed)

  -- `lcc_state_reader_refresh`. `uninit` is the content of its local `result`, which it does not set
  -- before the call.
  unfoldable pub reader_refresh :
      BackendResult → Backend C → Snapshot → Status × Snapshot × Backend C
  unfolding accept_read
  reader_refresh uninit b state =
      let (s, refreshed, result, b') = backend_read_state b zero_snapshot uninit in
      if is_ok s
      then (let (s', state') = accept_read b' state result refreshed in (s', state', b'))
      else (s, mark_effective_cached state, b')
