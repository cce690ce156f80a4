-- ===== src/Tests.antt =====
-- Concrete values for the examples: two backends that count the calls they serve, a manager over one of
-- them, and the pair of them.
mod Daemon
mod Plans
mod Pair
mod Amw0
mod Mock
mod Loader
mod Render
mod Detect
use kuangshi16pro_series_gm.Prelude.{ℕ, ◌+◌, Bool, true, false, none, some, []}
use kuangshi16pro_series_gm.Text.{Text, literal}
use kuangshi16pro_series_gm.Status.{Status}
use kuangshi16pro_series_gm.State.{
  OptionalByte, PowerLimits, Snapshot, zero_snapshot, zero_byte, zero_execution,
}
use kuangshi16pro_series_gm.Backend.{Capabilities, BackendResult, Call, Ops, Backend, result_reset}
use kuangshi16pro_series_gm.Manager.{Manager}
use kuangshi16pro_series_gm.Converged.{Converged}

-- An operation that writes and counts, and one that answers NOT_SUPPORTED.
abbrev pub served : {A : Type 0} → A → Call ℕ
served a r n = (
  Status.ok,
  record result_reset {
    changed = true;
    hardware_write = true;
    stage = literal "test-apply";
    executor_backend = literal "test";
  },
  n + 1,
)

abbrev pub refused : {A : Type 0} → A → Call ℕ
refused a r n = (Status.not_supported, r, n)

abbrev pub read_back : Snapshot → BackendResult → ℕ → Status × Snapshot × BackendResult × ℕ
read_back s r n = (Status.ok, record s { backend_name = literal "test" }, result_reset, n)

abbrev pub all_capable : Capabilities
all_capable = record {
  can_read_state = true;
  can_apply_profile = true;
  can_apply_mode = true;
  can_apply_power_limits = true;
  can_apply_fan_table = true;
  can_apply_fan_boost = true;
  has_platform_profile = false;
  has_powercap = false;
  needs_reboot_for_mux = false;
}

abbrev pub probed : Capabilities → BackendResult → ℕ → Status × Capabilities × BackendResult × ℕ
probed caps r n = (Status.ok, all_capable, result_reset, n)

abbrev pub serving : Ops ℕ
serving = record {
  name = some (literal "test");
  probe = some probed;
  read_state = some read_back;
  apply_profile = some served;
  apply_mode = some served;
  apply_power_limits = some served;
  apply_fan_table = some served;
  apply_fan_boost = some served;
}

abbrev pub refusing : Ops ℕ
refusing = record serving { apply_profile = some refused; apply_fan_boost = none }

abbrev pub no_boost : Capabilities
no_boost = record all_capable { can_apply_fan_boost = false }

abbrev pub manager : Capabilities → Manager ℕ
manager caps = record {
  backend = record { ops = some serving; ctx = 0 };
  backend_capabilities = caps;
  state_cache = zero_snapshot;
  capabilities_path = [];
  capabilities_json = [];
  log = [];
}

-- The standard backend refuses profiles, and amw0 serves them.
abbrev pub pair : Converged ℕ ℕ
pair = record {
  standard_backend = some (record { ops = some refusing; ctx = 0 });
  amw0_backend = some (record { ops = some serving; ctx = 0 });
  standard_available = true;
  amw0_available = true;
  standard_status = Status.ok;
  amw0_status = Status.ok;
  standard_capabilities = all_capable;
  amw0_capabilities = all_capable;
  execution = zero_execution;
  backend_selected = [];
  backend_fallback_reason = [];
}

abbrev pub two_limits : PowerLimits
two_limits = record {
  pl1 = record { present = true; value = 55 };
  pl2 = zero_byte;
  pl4 = record { present = true; value = 130 };
  tcc_offset = zero_byte;
}
