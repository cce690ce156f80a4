-- ===== src/Backend.antt =====
-- include/lcc/backend.h and the second half of src/backends/backend.c: a backend is a table of
-- operations over a context of its own, and each call goes through a test that the table has the
-- operation. A pointer to an operation is `none` where it is NULL. An operation takes the result
-- record that it may write to and its context, and returns its status and both.
use kuangshi16pro_series_gm.Prelude.{Bool, false, Option, none, some, []}
use kuangshi16pro_series_gm.Text.{Text, literal}
use kuangshi16pro_series_gm.Status.{Status}
use kuangshi16pro_series_gm.State.{
  stage_max, backend_name_max, reason_max, Mode, PowerLimits, Snapshot,
}
use kuangshi16pro_series_gm.Attribution.{copy_text}

pub record Capabilities : Type 0 where
  pub can_read_state : Bool
  pub can_apply_profile : Bool
  pub can_apply_mode : Bool
  pub can_apply_power_limits : Bool
  pub can_apply_fan_table : Bool
  pub can_apply_fan_boost : Bool
  pub has_platform_profile : Bool
  pub has_powercap : Bool
  pub needs_reboot_for_mux : Bool

pub record BackendResult : Type 0 where
  pub changed : Bool
  pub hardware_write : Bool
  pub reboot_required : Bool
  pub stage : Text  -- char[LCC_STATE_STAGE_MAX]
  pub executor_backend : Text  -- char[LCC_STATE_BACKEND_NAME_MAX]
  pub detail : Text  -- char[LCC_STATE_REASON_MAX]

-- What `lcc_backend_result_reset` leaves.
abbrev pub result_reset : BackendResult
result_reset = record {
  changed = false;
  hardware_write = false;
  reboot_required = false;
  stage = [];
  executor_backend = [];
  detail = [];
}

-- `lcc_backend_result_set_stage`; an empty text leaves the buffer, as `copy_text` does.
unfoldable pub set_stage : BackendResult → Text → BackendResult
set_stage r stage = record r { stage = (copy_text stage_max r.stage stage).1 }

-- `lcc_backend_result_set_executor`
unfoldable pub set_executor : BackendResult → Text → BackendResult
set_executor r name = record r {
  executor_backend = (copy_text backend_name_max r.executor_backend name).1;
}

-- `lcc_backend_result_set_detail`
unfoldable pub set_detail : BackendResult → Text → BackendResult
set_detail r detail = record r { detail = (copy_text reason_max r.detail detail).1 }

-- A call of an operation on a context.
abbrev pub Call : Type 0 → Type 0
Call C = BackendResult → C → Status × BackendResult × C

-- lcc_backend_ops_t
pub record Ops (C : Type 0) : Type 0 where
  pub name : Option Text
  pub probe : Option (Capabilities → BackendResult → C → Status × Capabilities × BackendResult × C)
  pub read_state : Option (Snapshot → BackendResult → C → Status × Snapshot × BackendResult × C)
  pub apply_profile : Option (Text → Call C)
  pub apply_mode : Option (Mode → Call C)
  pub apply_power_limits : Option (PowerLimits → Call C)
  pub apply_fan_table : Option (Text → Call C)
  pub apply_fan_boost : Option (Bool → Call C)

-- lcc_backend_t
pub record Backend (C : Type 0) : Type 0 where
  pub ops : Option (Ops C)
  pub ctx : C

-- The result that `unsupported_operation` leaves.
abbrev pub unsupported : BackendResult
unsupported = set_detail result_reset (literal "backend operation unavailable")

module _ {C : Type 0} where
  -- The operation that a backend has under a field of its table, if it has the table.
  abbrev pub find_op : {A : Type 0} → (Ops C → Option A) → Backend C → Option A
  find_op field b = elim b.ops [ none ↦ none | some ops ↦ field ops ]

  -- A call through the table, or `unsupported_operation`.
  abbrev pub dispatch :
      {A : Type 0}
      → Option (A → Call C)
      → A
      → Backend C
      → BackendResult
      → Status × BackendResult × Backend C
  dispatch none a b r = (Status.not_supported, unsupported, b)
  dispatch (some op) a b r = let (s, r', c) = op a r b.ctx in (s, r', record b { ctx = c })

  -- The test of a pointer argument against NULL, before the dispatch.
  abbrev pub dispatch_given :
      {A : Type 0}
      → Option (A → Call C)
      → Option A
      → Backend C
      → BackendResult
      → Status × BackendResult × Backend C
  dispatch_given op none b r = (Status.invalid_argument, r, b)
  dispatch_given op (some a) b r = dispatch op a b r

  -- `lcc_backend_name`
  unfoldable pub backend_name : Backend C → Text
  backend_name b = elim (find_op (λ o. o.name) b) [ none ↦ literal "unknown" | some n ↦ n ]

  -- `lcc_backend_probe`
  unfoldable pub backend_probe :
      Backend C → Capabilities → BackendResult → Status × Capabilities × BackendResult × Backend C
  backend_probe b caps r = elim (find_op (λ o. o.probe) b) [
    | none ↦ (Status.not_supported, caps, unsupported, b)
    | some op ↦ let (s, caps', r', c) = op caps r b.ctx in (s, caps', r', record b { ctx = c })
  ]

  -- `lcc_backend_read_state`
  unfoldable pub backend_read_state :
      Backend C → Snapshot → BackendResult → Status × Snapshot × BackendResult × Backend C
  backend_read_state b state r = elim (find_op (λ o. o.read_state) b) [
    | none ↦ (Status.not_supported, state, unsupported, b)
    | some op ↦ let (s, state', r', c) = op state r b.ctx in (s, state', r', record b { ctx = c })
  ]

  -- `lcc_backend_apply_profile`
  unfoldable pub backend_apply_profile :
      Option Text → Backend C → BackendResult → Status × BackendResult × Backend C
  backend_apply_profile name b r = dispatch_given (find_op (λ o. o.apply_profile) b) name b r

  -- `lcc_backend_apply_mode`
  unfoldable pub backend_apply_mode :
      Mode → Backend C → BackendResult → Status × BackendResult × Backend C
  backend_apply_mode mode b r = dispatch (find_op (λ o. o.apply_mode) b) mode b r

  -- `lcc_backend_apply_power_limits`
  unfoldable pub backend_apply_power_limits :
      Option PowerLimits → Backend C → BackendResult → Status × BackendResult × Backend C
  backend_apply_power_limits limits b r =
      dispatch_given (find_op (λ o. o.apply_power_limits) b) limits b r

  -- `lcc_backend_apply_fan_table`
  unfoldable pub backend_apply_fan_table :
      Option Text → Backend C → BackendResult → Status × BackendResult × Backend C
  backend_apply_fan_table name b r = dispatch_given (find_op (λ o. o.apply_fan_table) b) name b r

  -- `lcc_backend_apply_fan_boost`
  unfoldable pub backend_apply_fan_boost :
      Bool → Backend C → BackendResult → Status × BackendResult × Backend C
  backend_apply_fan_boost enabled b r = dispatch (find_op (λ o. o.apply_fan_boost) b) enabled b r
