-- ===== src/Mock.antt =====
-- src/backends/mock/mock-backend.c and lcc_mock_backend_t of src/backends/backend.h: a backend that keeps
-- a snapshot of its own and fails once where a test asks for it. A name that is NULL or empty is refused
-- before it is used; the empty text stands for both.
pub mod Faults
pub mod Mirror
use kuangshi16pro_series_gm.Prelude.{
  ℕ, Bool, true, false, not, ◌&&◌, ◌||◌, none, some, [], ltb, ◌==◌, if◌then◌else◌, length,
}
use kuangshi16pro_series_gm.Text.{Text, literal, is_empty, fit, is_same}
use kuangshi16pro_series_gm.Status.{Status, is_ok}
use kuangshi16pro_series_gm.State.{
  name_max, backend_name_max, Mode, OptionalByte, PowerLimits, StateTarget, Attribution, Snapshot,
  zero_target, zero_snapshot,
}
use kuangshi16pro_series_gm.Attribution.{component_set, power_set_from_limits, state_finalize}
use kuangshi16pro_series_gm.Metadata.{execution_set_all, state_set_metadata}
use kuangshi16pro_series_gm.Backend.{
  Capabilities, BackendResult, Call, Ops, Backend, result_reset, set_executor, set_detail,
}
use kuangshi16pro_series_gm.Request.{any_present, merge_limits}

-- lcc_mock_backend_t
pub record Mock : Type 0 where
  pub capabilities : Capabilities
  pub state : Snapshot
  pub fail_profile : Status
  pub fail_mode : Status
  pub fail_power : Status
  pub fail_fan : Status
  pub fail_fan_boost : Status

-- The `copy_name` of this file, into a buffer of n bytes.
unfoldable pub copy_whole : ℕ → Text → Status × Text
copy_whole n value =
    (if ltb (length value) n then Status.ok else Status.buffer_too_small, fit n value)

-- `mode_name_for_backend`
unfoldable pub mode_name_for_backend : Mode → Text
mode_name_for_backend Mode.gaming = literal "gaming"
mode_name_for_backend Mode.office = literal "office"
mode_name_for_backend Mode.turbo = literal "turbo"
mode_name_for_backend Mode.custom = literal "custom"

-- `consume_failure`: the status of a slot, and what the slot holds then.
abbrev pub consume_failure : Status → Status × Status
consume_failure slot = (slot, Status.ok)

abbrev same_flag : Bool → Bool → Bool
same_flag true b = b
same_flag false b = not b

abbrev same_byte : OptionalByte → OptionalByte → Bool
same_byte l r = same_flag l.present r.present && l.value == r.value

-- `power_limits_equal`
unfoldable pub power_limits_equal : PowerLimits → PowerLimits → Bool
power_limits_equal l r =
    same_byte l.pl1 r.pl1
    && same_byte l.pl2 r.pl2
    && same_byte l.pl4 r.pl4
    && same_byte l.tcc_offset r.tcc_offset

abbrev pub mock_result : BackendResult
mock_result = set_executor result_reset (literal "mock")

abbrev live : Attribution
live = (component_set (literal "mock") (literal "live")).1

-- `mock_probe`
unfoldable pub mock_probe :
    Capabilities → BackendResult → Mock → Status × Capabilities × BackendResult × Mock
mock_probe caps r m = (Status.ok, m.capabilities, mock_result, m)

-- `mock_read_state`
unfoldable pub mock_read_state :
    Snapshot → BackendResult → Mock → Status × Snapshot × BackendResult × Mock
mock_read_state old r m = (
  Status.ok,
  (state_set_metadata m.state (literal "mock") (literal "mock") [] m.state.execution).1,
  mock_result,
  m,
)

-- `mock_apply_profile` after its failure slot: a name that does not fit is cut in what was requested,
-- and what is in effect stays.
unfoldable pub put_profile : Text → Call Mock
put_profile name r m =
    let s = m.state in
    let changed =
      not (is_same s.requested.profile name) || not (is_same s.effective.profile name) in
    let (c, copied) = copy_whole name_max name in
    let s1 = record s { requested = record s.requested { profile = copied } } in
    let s2 = record s1 { effective = record s1.effective { profile = copied } } in
    let s3 =
      state_finalize (record s2 { effective_meta = record s2.effective_meta { profile = live } }) in
    if is_ok c
    then (Status.ok, record r { changed = changed }, record m { state = s3 })
    else (c, r, record m { state = s1 })

-- `mock_apply_profile`
unfoldable pub mock_apply_profile : Text → Call Mock
mock_apply_profile name r m =
    let (failure, slot) = consume_failure m.fail_profile in
    let m1 = record m { fail_profile = slot } in
    if is_empty name
    then (Status.invalid_argument, r, m)
    else if is_ok failure
    then put_profile name mock_result m1
    else (failure, set_detail mock_result (literal "mock apply_profile failed"), m1)

-- `mock_apply_mode`; every mode has a name.
unfoldable pub mock_apply_mode : Mode → Call Mock
mock_apply_mode mode r m =
    let (failure, slot) = consume_failure m.fail_mode in
    let m1 = record m { fail_mode = slot } in
    if is_ok failure
    then mock_apply_profile (mode_name_for_backend mode) mock_result m1
    else (failure, set_detail mock_result (literal "mock apply_mode failed"), m1)

-- `mock_apply_power_limits` after its failure slot.
unfoldable pub put_limits : PowerLimits → Call Mock
put_limits l r m =
    let s = m.state in
    let merged = merge_limits s.requested.power_limits l in
    let changed =
      not s.requested.has_power_limits
      || not (power_limits_equal s.requested.power_limits merged) in
    let s1 = record s {
      requested = record s.requested { power_limits = merged; has_power_limits = true };
      effective = record s.effective { power_limits = merged; has_power_limits = true };
    } in
    let s2 = state_finalize (record s1 {
      effective_meta =
          power_set_from_limits s1.effective_meta true merged (literal "mock") (literal "live");
    }) in
    if any_present l
    then (Status.ok, record r { changed = changed }, record m { state = s2 })
    else (
      Status.invalid_argument,
      set_detail r (literal "mock apply_power_limits requires at least one limit"),
      m,
    )

-- `mock_apply_power_limits`
unfoldable pub mock_apply_power_limits : PowerLimits → Call Mock
mock_apply_power_limits l r m =
    let (failure, slot) = consume_failure m.fail_power in
    let m1 = record m { fail_power = slot } in
    if is_ok failure
    then put_limits l mock_result m1
    else (failure, set_detail mock_result (literal "mock apply_power_limits failed"), m1)

-- `mock_apply_fan_table` after its failure slot.
unfoldable pub put_table : Text → Call Mock
put_table name r m =
    let s = m.state in
    let changed =
      not (is_same s.requested.fan_table name) || not (is_same s.effective.fan_table name) in
    let (c, copied) = copy_whole name_max name in
    let s1 = record s { requested = record s.requested { fan_table = copied } } in
    let s2 = record s1 { effective = record s1.effective { fan_table = copied } } in
    let s3 =
      state_finalize
        (record s2 { effective_meta = record s2.effective_meta { fan_table = live } }) in
    if is_ok c
    then (Status.ok, record r { changed = changed }, record m { state = s3 })
    else (c, r, record m { state = s1 })

-- `mock_apply_fan_table`
unfoldable pub mock_apply_fan_table : Text → Call Mock
mock_apply_fan_table name r m =
    let (failure, slot) = consume_failure m.fail_fan in
    let m1 = record m { fail_fan = slot } in
    if is_empty name
    then (Status.invalid_argument, r, m)
    else if is_ok failure
    then put_table name mock_result m1
    else (failure, set_detail mock_result (literal "mock apply_fan_table failed"), m1)

-- `mock_apply_fan_boost` after its failure slot.
unfoldable pub put_boost : Bool → Call Mock
put_boost enabled r m =
    let s = m.state in
    let changed =
      not s.requested.has_fan_boost
      || not s.effective.has_fan_boost
      || not (same_flag s.requested.fan_boost_enabled enabled)
      || not (same_flag s.effective.fan_boost_enabled enabled) in
    let s1 = record s {
      requested = record s.requested { has_fan_boost = true; fan_boost_enabled = enabled };
      effective = record s.effective { has_fan_boost = true; fan_boost_enabled = enabled };
    } in
    let s2 =
      state_finalize
        (record s1 { effective_meta = record s1.effective_meta { fan_boost = live } }) in
    (Status.ok, record r { changed = changed }, record m { state = s2 })

-- `mock_apply_fan_boost`
unfoldable pub mock_apply_fan_boost : Bool → Call Mock
mock_apply_fan_boost enabled r m =
    let (failure, slot) = consume_failure m.fail_fan_boost in
    let m1 = record m { fail_fan_boost = slot } in
    if is_ok failure
    then put_boost enabled mock_result m1
    else (failure, set_detail mock_result (literal "mock apply_fan_boost failed"), m1)

-- lcc_mock_backend_ops
unfoldable pub mock_ops : Ops Mock
mock_ops = record {
  name = some (literal "mock");
  probe = some mock_probe;
  read_state = some mock_read_state;
  apply_profile = some mock_apply_profile;
  apply_mode = some mock_apply_mode;
  apply_power_limits = some mock_apply_power_limits;
  apply_fan_table = some mock_apply_fan_table;
  apply_fan_boost = some mock_apply_fan_boost;
}

abbrev byte : ℕ → OptionalByte
byte n = record { present = true; value = n }

-- The target that `lcc_mock_backend_seed_defaults` writes twice.
abbrev seeded_target : StateTarget
seeded_target = record zero_target {
  profile = (copy_whole name_max (literal "balanced")).1;
  fan_table = (copy_whole name_max (literal "M4T1")).1;
  has_fan_boost = true;
  has_power_limits = true;
  power_limits = record { pl1 = byte 55; pl2 = byte 95; pl4 = byte 125; tcc_offset = byte 10 };
}

abbrev seeded_state : Snapshot
seeded_state =
    let s = record zero_snapshot {
      backend_name = (copy_whole backend_name_max (literal "mock")).1;
      backend_selected = (copy_whole backend_name_max (literal "mock")).1;
      execution = (execution_set_all (literal "mock")).1;
      requested = seeded_target;
      effective = seeded_target;
      thermal = record {
        has_cpu_fan_rpm = true;
        has_gpu_fan_rpm = true;
        has_vendor_fan_level = true;
        has_cpu_temp_c = true;
        has_gpu_temp_c = true;
        cpu_fan_rpm = 2480;
        gpu_fan_rpm = 2310;
        vendor_fan_level = 6;
        cpu_temp_c = 61;
        gpu_temp_c = 56;
      };
    } in
    let m1 = record s.effective_meta { profile = live; fan_table = live; fan_boost = live } in
    let m2 =
      power_set_from_limits m1 true seeded_target.power_limits (literal "mock") (literal "live") in
    state_finalize (record s { effective_meta = record m2 { thermal = live } })

-- What `lcc_mock_backend_seed_defaults` leaves.
unfoldable pub seeded_mock : Mock
seeded_mock = record {
  capabilities = record {
    can_read_state = true;
    can_apply_profile = true;
    can_apply_mode = true;
    can_apply_power_limits = true;
    can_apply_fan_table = true;
    can_apply_fan_boost = true;
    has_platform_profile = false;
    has_powercap = false;
    needs_reboot_for_mux = false;
  };
  state = seeded_state;
  fail_profile = Status.ok;
  fail_mode = Status.ok;
  fail_power = Status.ok;
  fail_fan = Status.ok;
  fail_fan_boost = Status.ok;
}

-- `lcc_mock_backend_init`
unfoldable pub mock_init : Backend Mock
mock_init = record { ops = some mock_ops; ctx = seeded_mock }
