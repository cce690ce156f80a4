-- ===== src/Profile.antt =====
-- include/lcc/profile.h, src/core/profile/mode-profile.c, src/core/profile/validator.c and
-- src/core/power/limits.c: the names of the modes, and the plans for a mode, for power limits and for
-- a whole profile document.
pub mod Document
use kuangshi16pro_series_gm.Prelude.{
  ℕ, Bool, true, false, not, ◌&&◌, ◌||◌, Option, none, some, [], ◌==◌, if◌then◌else◌, length,
}
use kuangshi16pro_series_gm.Text.{Text, literal, is_same}
use kuangshi16pro_series_gm.Status.{Status, is_ok}
use kuangshi16pro_series_gm.State.{Mode, OptionalByte, PowerLimits}
use kuangshi16pro_series_gm.Plan.{Plan, Build, ◌>>◌, append_stage, append_write, append_all}
use kuangshi16pro_series_gm.Fan.{FanTable, validate_fan_table, build_fan_plan}

-- lcc_profile_document_t
pub record ProfileDocument : Type 0 where
  pub has_mode : Bool
  pub mode : Mode
  pub has_power_limits : Bool
  pub power_limits : PowerLimits
  pub has_fan_table : Bool
  pub fan_table : FanTable

-- `lcc_profile_document_validate`
unfoldable pub document_validate : ProfileDocument → Status
document_validate d =
    if d.has_fan_table
    then validate_fan_table d.fan_table
    else if not d.has_mode && not d.has_power_limits && not d.has_fan_table
    then Status.invalid_argument
    else Status.ok

-- `lcc_mode_name`
unfoldable pub mode_name : Mode → Text
mode_name Mode.gaming = literal "gaming"
mode_name Mode.office = literal "office"
mode_name Mode.turbo = literal "turbo"
mode_name Mode.custom = literal "custom"

-- `lcc_mode_from_string`; the mode is left alone on an error.
unfoldable pub mode_from_string : Option Text → Mode → Status × Mode
mode_from_string none mode = (Status.invalid_argument, mode)
mode_from_string (some t) mode =
    if is_same t (literal "gaming")
    then (Status.ok, Mode.gaming)
    else if is_same t (literal "office")
    then (Status.ok, Mode.office)
    else if is_same t (literal "turbo")
    then (Status.ok, Mode.turbo)
    else if is_same t (literal "custom")
    then (Status.ok, Mode.custom)
    else (Status.parse, mode)

-- The three hints of the switch of `lcc_build_mode_plan`.
abbrev pub mode_index_hint : Mode → Text
mode_index_hint Mode.gaming = literal "candidate: mode index write 0x07AB = 0x00 (gaming)"
mode_index_hint Mode.office = literal "candidate: mode index write 0x07AB = 0x01 (office)"
mode_index_hint Mode.turbo = literal "candidate: mode index write 0x07AB = 0x02 (turbo)"
mode_index_hint Mode.custom = literal "candidate: mode index write 0x07AB = 0x03 (custom)"

abbrev pub mode_hint : Mode → Text
mode_hint Mode.gaming =
    literal
      "candidate: clear 0x0751 TBME/UFME bits for gaming, but do not treat 0x751 as a literal mode byte"
mode_hint Mode.office =
    literal
      "candidate: clear 0x0751 TBME/UFME bits for office; office vs gaming likely differs outside 0x751"
mode_hint Mode.turbo = literal "candidate: set 0x0751 bit4 mask 0x10 (TBME) for turbo"
mode_hint Mode.custom = literal "candidate: set 0x0751 bit7 mask 0x80 (UFME) for custom"

abbrev pub helper_hint : Mode → Text
helper_hint Mode.gaming =
    literal "candidate: compare 0x07B0..0x07B2 and 0x07C7 against office while switching"
helper_hint Mode.office =
    literal "candidate: compare 0x07B0..0x07B2 and 0x07C7 against gaming while switching"
helper_hint Mode.turbo = literal "candidate: inspect 0x07C7 helper bits while entering turbo"
helper_hint Mode.custom =
    literal "candidate: inspect 0x07C7 helper bits and custom profile slots 0x07B0..0x07B2"

-- The part of `lcc_build_mode_plan` after the reset.
unfoldable pub mode_stages : Mode → Build
mode_stages mode =
    append_stage (literal "SetModeSwitchChangeThread -> candidate sequence")
    >> (append_stage (literal "candidate: inspect mode/profile bytes 0x7AB and 0x7B0..0x7B2")
        >> (append_stage (mode_index_hint mode)
            >> (append_stage (mode_hint mode) >> append_stage (helper_hint mode))))

-- `lcc_build_mode_plan`
unfoldable pub build_mode_plan : Mode → Build
build_mode_plan mode plan = mode_stages mode []

-- `power_limits_present`
abbrev pub power_limits_present : PowerLimits → Bool
power_limits_present l = l.pl1.present || l.pl2.present || l.pl4.present || l.tcc_offset.present

-- A write of a limit that is present.
unfoldable pub limit_write : ℕ → Text → OptionalByte → Build
limit_write addr label b plan =
    if b.present then append_write addr b.value label plan else (Status.ok, plan)

-- The part of `lcc_build_power_plan` after the reset.
unfoldable pub power_writes : PowerLimits → Build
power_writes l =
    append_stage (literal "ModeProfile CPU power-limit writes")
    >> (limit_write 0x0783 (literal "PL1") l.pl1
        >> (limit_write 0x0784 (literal "PL2") l.pl2
            >> (limit_write 0x0785 (literal "PL4") l.pl4
                >> limit_write 0x0786 (literal "TccOffset") l.tcc_offset)))

-- `lcc_build_power_plan`
unfoldable pub build_power_plan : PowerLimits → Build
build_power_plan l plan =
    if power_limits_present l then power_writes l [] else (Status.invalid_argument, plan)

-- One part of `lcc_build_profile_plan`: the plan of the part is built aside and then appended whole.
unfoldable pub append_part : Bool → Build → Build
append_part given build plan =
    let (s, part) = build [] in
    let appended = append_all part plan in
    if given then if is_ok s then appended else (s, plan) else (Status.ok, plan)

unfoldable pub document_parts : ProfileDocument → Build
document_parts d =
    append_part d.has_mode (build_mode_plan d.mode)
    >> (append_part d.has_power_limits (build_power_plan d.power_limits)
        >> append_part d.has_fan_table (build_fan_plan d.fan_table))

-- `lcc_build_profile_plan`
unfoldable pub build_profile_plan : ProfileDocument → Build
build_profile_plan d plan =
    let (s, built) = document_parts d [] in
    if is_ok s
    then (if length built == 0 then Status.invalid_argument else Status.ok, built)
    else (s, built)
