-- ===== src/Request.antt =====
-- src/daemon/transaction.h and the first part of src/daemon/transaction.c: what a client asks for, the
-- names of the operations, and the target that a request comes to. A `const char *` that may be NULL
-- is an `Option`.
pub mod Names
pub mod Target
use kuangshi16pro_series_gm.Prelude.{
  ℕ, Bool, true, false, ◌&&◌, ◌||◌, Option, none, some, [], leb, ◌==◌, if◌then◌else◌, all,
}
use kuangshi16pro_series_gm.Text.{Text, literal, is_empty, is_same}
use kuangshi16pro_series_gm.Status.{Status, is_ok}
use kuangshi16pro_series_gm.State.{name_max, Mode, OptionalByte, PowerLimits, StateTarget}
use kuangshi16pro_series_gm.Backend.{Capabilities}
use kuangshi16pro_series_gm.Reader.{copy_name}

-- lcc_transaction_request_t: the kind and the member of the union that goes with it.
pub data Request : Type 0 where
  set_profile : Option Text → Request
  set_mode : Option Text → Request
  set_power_limits : Option PowerLimits → Request
  apply_fan_table : Option Text → Request
  set_fan_boost : Bool → Request

-- `isalnum(c) || c == '-' || c == '_' || c == '.'`, in the C locale.
unfoldable pub is_name_char : ℕ → Bool
is_name_char c =
    (leb b'0' c && leb c b'9')
    || (leb b'A' c && leb c b'Z')
    || (leb b'a' c && leb c b'z')
    || c == b'-'
    || c == b'_'
    || c == b'.'

unfoldable pub name_is_safe : Option Text → Bool
name_is_safe none = false
name_is_safe (some []) = false
name_is_safe (some t) = all is_name_char t

unfoldable pub merge_optional_byte : OptionalByte → OptionalByte → OptionalByte
merge_optional_byte target source = if source.present then source else target

-- `mode_to_profile_name`; the last two arguments are what its out-parameters held.
unfoldable pub mode_to_profile_name : Option Text → Text → Mode → Status × Text × Mode
mode_to_profile_name none profile mode = (Status.invalid_argument, profile, mode)
mode_to_profile_name (some t) profile mode =
    if is_same t (literal "gaming")
    then (Status.ok, literal "gaming", Mode.gaming)
    else if is_same t (literal "office")
    then (Status.ok, literal "office", Mode.office)
    else if is_same t (literal "turbo")
    then (Status.ok, literal "turbo", Mode.turbo)
    else if is_same t (literal "custom")
    then (Status.ok, literal "custom", Mode.custom)
    else (Status.parse, profile, mode)

-- `transaction_operation_name`
unfoldable pub operation_name : Request → Text
operation_name (set_profile _) = literal "set-profile"
operation_name (set_mode _) = literal "set-mode"
operation_name (set_power_limits _) = literal "set-power-limits"
operation_name (apply_fan_table _) = literal "apply-fan-table"
operation_name (set_fan_boost _) = literal "set-fan-boost"

-- `transaction_capability_name`
unfoldable pub capability_name : Request → Text
capability_name (set_profile _) = literal "apply_profile"
capability_name (set_mode _) = literal "apply_mode"
capability_name (set_power_limits _) = literal "apply_power_limits"
capability_name (apply_fan_table _) = literal "apply_fan_table"
capability_name (set_fan_boost _) = literal "apply_fan_boost"

-- `transaction_capability_supported`
unfoldable pub capability_supported : Capabilities → Request → Bool
capability_supported caps (set_profile _) = caps.can_apply_profile
capability_supported caps (set_mode _) = caps.can_apply_mode
capability_supported caps (set_power_limits _) = caps.can_apply_power_limits
capability_supported caps (apply_fan_table _) = caps.can_apply_fan_table
capability_supported caps (set_fan_boost _) = caps.can_apply_fan_boost

abbrev pub any_present : PowerLimits → Bool
any_present l = l.pl1.present || l.pl2.present || l.pl4.present || l.tcc_offset.present

unfoldable pub merge_limits : PowerLimits → PowerLimits → PowerLimits
merge_limits target source = record {
  pl1 = merge_optional_byte target.pl1 source.pl1;
  pl2 = merge_optional_byte target.pl2 source.pl2;
  pl4 = merge_optional_byte target.pl4 source.pl4;
  tcc_offset = merge_optional_byte target.tcc_offset source.tcc_offset;
}

-- The profile case of `transaction_stage_target`, and its fan table case. A name that is safe is not
-- NULL; the text for `none` is not reached.
stage_profile : StateTarget → Option Text → Status × StateTarget
stage_profile target name =
    if name_is_safe name
    then (let (s, t) = copy_name name_max (elim name [ none ↦ [] | some t ↦ t ]) in
        (s, record target { profile = t }))
    else (Status.invalid_argument, target)

stage_fan_table : StateTarget → Option Text → Status × StateTarget
stage_fan_table target name =
    if name_is_safe name
    then (let (s, t) = copy_name name_max (elim name [ none ↦ [] | some t ↦ t ]) in
        (s, record target { fan_table = t }))
    else (Status.invalid_argument, target)

stage_power : StateTarget → Option PowerLimits → Status × StateTarget
stage_power target none = (Status.invalid_argument, target)
stage_power target (some limits) =
    if any_present limits
    then (
      Status.ok,
      record target {
        power_limits = merge_limits target.power_limits limits;
        has_power_limits = true;
      },
    )
    else (Status.invalid_argument, target)

stage_mode : StateTarget → Option Text → Status × StateTarget × Mode
stage_mode target name =
    let (found, profile, mode) = mode_to_profile_name name [] Mode.office in
    let (s, t) = copy_name name_max profile in
    if is_ok found
    then (s, record target { profile = t }, mode)
    else (Status.parse, target, Mode.office)

-- `transaction_stage_target`, from the requested target of the state cache. The last part is
-- `resolved_mode`.
unfoldable pub stage_target : StateTarget → Request → Status × StateTarget × Mode
unfolding stage_profile stage_fan_table stage_power stage_mode
stage_target requested (set_profile name) =
    let (s, t) = stage_profile requested name in (s, t, Mode.office)
stage_target requested (set_mode name) = stage_mode requested name
stage_target requested (set_power_limits limits) =
    let (s, t) = stage_power requested limits in (s, t, Mode.office)
stage_target requested (apply_fan_table name) =
    let (s, t) = stage_fan_table requested name in (s, t, Mode.office)
stage_target requested (set_fan_boost enabled) =
    (Status.ok, record requested { has_fan_boost = true; fan_boost_enabled = enabled }, Mode.office)
