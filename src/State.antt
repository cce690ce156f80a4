-- ===== src/State.antt =====
-- The snapshot that the daemon keeps: include/lcc/state.h, include/lcc/power.h, and
-- `lcc_operating_mode_t` of include/lcc/profile.h. A `zero_` value is what `memset` to 0 leaves.
use kuangshi16pro_series_gm.Prelude.{ℕ, Bool, false, []}
use kuangshi16pro_series_gm.Text.{Text}
use kuangshi16pro_series_gm.Status.{Status}

-- LCC_STATE_NAME_MAX
abbrev pub name_max : ℕ
name_max = 64

-- LCC_STATE_BACKEND_NAME_MAX
abbrev pub backend_name_max : ℕ
backend_name_max = 32

-- LCC_STATE_OPERATION_MAX
abbrev pub operation_max : ℕ
operation_max = 32

-- LCC_STATE_STAGE_MAX
abbrev pub stage_max : ℕ
stage_max = 96

-- LCC_STATE_REASON_MAX
abbrev pub reason_max : ℕ
reason_max = 192

pub data Mode : Type 0 where
  gaming office turbo custom : Mode

pub record OptionalByte : Type 0 where
  pub present : Bool
  pub value : ℕ  -- uint8_t

pub record PowerLimits : Type 0 where
  pub pl1 : OptionalByte
  pub pl2 : OptionalByte
  pub pl4 : OptionalByte
  pub tcc_offset : OptionalByte

pub record StateTarget : Type 0 where
  pub profile : Text  -- char[LCC_STATE_NAME_MAX]
  pub fan_table : Text  -- char[LCC_STATE_NAME_MAX]
  pub has_fan_boost : Bool
  pub fan_boost_enabled : Bool
  pub has_power_limits : Bool
  pub power_limits : PowerLimits

pub record Thermal : Type 0 where
  pub has_cpu_fan_rpm : Bool
  pub has_gpu_fan_rpm : Bool
  pub has_vendor_fan_level : Bool
  pub has_cpu_temp_c : Bool
  pub has_gpu_temp_c : Bool
  pub cpu_fan_rpm : ℕ  -- uint16_t
  pub gpu_fan_rpm : ℕ  -- uint16_t
  pub vendor_fan_level : ℕ  -- uint8_t
  pub cpu_temp_c : ℕ  -- uint8_t
  pub gpu_temp_c : ℕ  -- uint8_t

pub data TransactionState : Type 0 where
  idle pending failed : TransactionState

pub record TransactionSnapshot : Type 0 where
  pub state : TransactionState
  pub operation : Text  -- char[LCC_STATE_OPERATION_MAX]
  pub stage : Text  -- char[LCC_STATE_STAGE_MAX]
  pub has_pending_target : Bool
  pub pending_target : StateTarget
  pub last_error : Status

pub record Execution : Type 0 where
  pub read_state : Text  -- char[LCC_STATE_BACKEND_NAME_MAX], as all six
  pub apply_profile : Text
  pub apply_mode : Text
  pub apply_power_limits : Text
  pub apply_fan_table : Text
  pub apply_fan_boost : Text

-- lcc_state_component_attribution_t
pub record Attribution : Type 0 where
  pub source : Text  -- char[LCC_STATE_BACKEND_NAME_MAX]
  pub freshness : Text  -- char[LCC_STATE_BACKEND_NAME_MAX]

-- lcc_power_field_attribution_t
pub record PowerFields : Type 0 where
  pub pl1 : Attribution
  pub pl2 : Attribution
  pub pl4 : Attribution
  pub tcc_offset : Attribution

-- lcc_effective_state_metadata_t
pub record EffectiveMeta : Type 0 where
  pub source : Text  -- char[LCC_STATE_BACKEND_NAME_MAX]
  pub freshness : Text  -- char[LCC_STATE_BACKEND_NAME_MAX]
  pub profile : Attribution
  pub fan_table : Attribution
  pub fan_boost : Attribution
  pub power : Attribution
  pub power_fields : PowerFields
  pub thermal : Attribution

pub record LastApply : Type 0 where
  pub stage : Text  -- char[LCC_STATE_STAGE_MAX]
  pub backend : Text  -- char[LCC_STATE_BACKEND_NAME_MAX]
  pub has_target : Bool
  pub target : StateTarget
  pub has_hardware_write : Bool
  pub hardware_write : Bool
  pub error : Status

-- lcc_state_snapshot_t
pub record Snapshot : Type 0 where
  pub backend_name : Text  -- char[LCC_STATE_BACKEND_NAME_MAX]
  pub backend_selected : Text  -- char[LCC_STATE_BACKEND_NAME_MAX]
  pub backend_fallback_reason : Text  -- char[LCC_STATE_REASON_MAX]
  pub execution : Execution
  pub hardware_write : Bool
  pub requested : StateTarget
  pub effective : StateTarget
  pub effective_meta : EffectiveMeta
  pub last_apply : LastApply
  pub transaction : TransactionSnapshot
  pub thermal : Thermal

abbrev pub zero_byte : OptionalByte
zero_byte = record { present = false; value = 0 }

abbrev pub zero_limits : PowerLimits
zero_limits = record { pl1 = zero_byte; pl2 = zero_byte; pl4 = zero_byte; tcc_offset = zero_byte }

abbrev pub zero_target : StateTarget
zero_target = record {
  profile = [];
  fan_table = [];
  has_fan_boost = false;
  fan_boost_enabled = false;
  has_power_limits = false;
  power_limits = zero_limits;
}

abbrev pub zero_thermal : Thermal
zero_thermal = record {
  has_cpu_fan_rpm = false;
  has_gpu_fan_rpm = false;
  has_vendor_fan_level = false;
  has_cpu_temp_c = false;
  has_gpu_temp_c = false;
  cpu_fan_rpm = 0;
  gpu_fan_rpm = 0;
  vendor_fan_level = 0;
  cpu_temp_c = 0;
  gpu_temp_c = 0;
}

abbrev pub zero_transaction : TransactionSnapshot
zero_transaction = record {
  state = idle;
  operation = [];
  stage = [];
  has_pending_target = false;
  pending_target = zero_target;
  last_error = Status.ok;
}

abbrev pub zero_execution : Execution
zero_execution = record {
  read_state = [];
  apply_profile = [];
  apply_mode = [];
  apply_power_limits = [];
  apply_fan_table = [];
  apply_fan_boost = [];
}

abbrev pub zero_attribution : Attribution
zero_attribution = record { source = []; freshness = [] }

abbrev pub zero_power_fields : PowerFields
zero_power_fields = record {
  pl1 = zero_attribution;
  pl2 = zero_attribution;
  pl4 = zero_attribution;
  tcc_offset = zero_attribution;
}

abbrev pub zero_meta : EffectiveMeta
zero_meta = record {
  source = [];
  freshness = [];
  profile = zero_attribution;
  fan_table = zero_attribution;
  fan_boost = zero_attribution;
  power = zero_attribution;
  power_fields = zero_power_fields;
  thermal = zero_attribution;
}

abbrev pub zero_last_apply : LastApply
zero_last_apply = record {
  stage = [];
  backend = [];
  has_target = false;
  target = zero_target;
  has_hardware_write = false;
  hardware_write = false;
  error = Status.ok;
}

abbrev pub zero_snapshot : Snapshot
zero_snapshot = record {
  backend_name = [];
  backend_selected = [];
  backend_fallback_reason = [];
  execution = zero_execution;
  hardware_write = false;
  requested = zero_target;
  effective = zero_target;
  effective_meta = zero_meta;
  last_apply = zero_last_apply;
  transaction = zero_transaction;
  thermal = zero_thermal;
}
