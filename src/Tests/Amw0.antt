-- ===== src/Tests/Amw0.antt =====
-- The theorems on the amw0 backend at concrete values: a host whose call file answers 0x21 and counts
-- the writes to it, and a loader that always gives the demo table.
use kuangshi16pro_series_gm.Prelude.{
  ◌⊎◌, ℕ, ◌+◌, ◌≡◌, refl, true, false, none, [], ◌∷◌, ◌++◌, arith, length, ltb, if◌then◌else◌,
}
use kuangshi16pro_series_gm.Text.{Text, literal, is_empty}
use kuangshi16pro_series_gm.Status.{Status, is_ok}
use kuangshi16pro_series_gm.State.{Mode, zero_snapshot}
use kuangshi16pro_series_gm.Backend.{result_reset}
use kuangshi16pro_series_gm.Plan.{Plan, write_action, stage_action}
use kuangshi16pro_series_gm.Fan.{FanTable}
use kuangshi16pro_series_gm.Fan.Program.{fan_program}
use kuangshi16pro_series_gm.Amw0.Host.{Host, given}
use kuangshi16pro_series_gm.Amw0.Packet.{Packet, hex, print_to, packet_text, packet_format_expr}
use kuangshi16pro_series_gm.Amw0.Transport.{expr_max, transport_init}
use kuangshi16pro_series_gm.Amw0.Readback.{parse_u32_reply}
use kuangshi16pro_series_gm.Amw0.Control.{mode_control_for_mode}
use kuangshi16pro_series_gm.Amw0.Device.{Amw0}
use kuangshi16pro_series_gm.Amw0.ReadState.{amw0_read_state}
use kuangshi16pro_series_gm.Amw0.Apply.{mode_target}
use kuangshi16pro_series_gm.Amw0.FanPlan.{apply_fan_plan, amw0_apply_fan_table}
use kuangshi16pro_series_gm.Amw0.FanPlan.Writes.{action_writes, plan_writes, write_all}
use kuangshi16pro_series_gm.Amw0.FanPlan.Table.{programmed}
use kuangshi16pro_series_gm.Amw0.FanPlan.Loaded.{load, amw0_apply_fan_table-loads}
use kuangshi16pro_series_gm.Loader.Values.{Files, closed}
use kuangshi16pro_series_gm.Loader.Named.{fan_table_load_named}
use kuangshi16pro_series_gm.Amw0.FanPlan.Limited.{apply_fan_plan-limited}
use kuangshi16pro_series_gm.Amw0.Ops.{zero_amw0, given_path, amw0_init}
use kuangshi16pro_series_gm.Amw0.Encoding.{
  Encodes, mode_control_for_mode-Encodes, mode_target-Encodes,
}
use kuangshi16pro_series_gm.Amw0.Printed.{packet_format_expr-fits, parse_u32_reply-hex}
use kuangshi16pro_series_gm.Amw0.DryRun.{
  Shows, defaults, set_mode, set_boost, set_limits, change_all, run_commands,
}
use kuangshi16pro_series_gm.Amw0.DryRun.Session.{dry_run-Refines}
use kuangshi16pro_series_gm.Amw0.Failure.{
  apply_power_limits, Ends, run_operation, run_operation-Ends,
}
use kuangshi16pro_series_gm.Tests.{two_limits}

abbrev host : Host ℕ
host = record {
  write_file = λ path text n. (none, n + 1);
  read_file = λ path count n. (given (b'0' ∷ b'x' ∷ b'2' ∷ b'1' ∷ b'\n' ∷ []) none, n);
  append_file = λ path text n. (true, n);
}

abbrev world : ℕ
world = 0

abbrev fresh : Amw0 ℕ
fresh = zero_amw0 world

abbrev blank : FanTable
blank = record { name = []; activated = false; fan_control_respective = false; cpu = []; gpu = [] }

abbrev load_table : Text → ℕ → Status × FanTable × ℕ
load_table name w = (Status.ok, blank, w)

abbrev call_node : Text
call_node = literal "/proc/acpi/call"

mode_target-Encodes_example :
    Encodes (mode_target Mode.turbo (mode_control_for_mode Mode.gaming)) Mode.turbo false
mode_target-Encodes_example =
    mode_target-Encodes Mode.turbo (mode_control_for_mode-Encodes Mode.gaming)

abbrev packet : Packet
packet = record { slot = 0; sa0 = 0x51; sa1 = 0x07; sa2 = 0xA0; sa3 = 0; sac1 = 1 }

packet_format_expr-fits_example :
    packet_format_expr expr_max packet ≡ (Status.ok, packet_text packet)
packet_format_expr-fits_example = packet_format_expr-fits packet

parse_u32_reply-hex_example : parse_u32_reply (literal "0x" ++ hex 0x0751) 0 ≡ (Status.ok, 0x0751)
parse_u32_reply-hex_example = parse_u32_reply-hex 0x0751 0 (omega arith)

starts : (amw0_init world call_node [] true).0 ≡ Status.ok
unfolding amw0_init transport_init print_to given_path literal
starts = refl

dry_run-Refines_example :
    let a =
      run_commands host
        (set_mode Mode.turbo ∷ set_boost true ∷ set_limits two_limits ∷ set_mode Mode.gaming ∷ [])
        result_reset
        (amw0_init world call_node [] true).1 in
    let (s, state, result, a') = amw0_read_state host zero_snapshot result_reset a in
    (s ≡ Status.ok)
    × Shows state (
        change_all
          (set_mode Mode.turbo ∷ set_boost true ∷ set_limits two_limits ∷ set_mode Mode.gaming ∷ [])
          defaults)
    × (result.hardware_write ≡ false)
    × (a'.transport.world ≡ world)
dry_run-Refines_example =
    dry_run-Refines host world call_node []
      (set_mode Mode.turbo ∷ set_boost true ∷ set_limits two_limits ∷ set_mode Mode.gaming ∷ [])
      result_reset zero_snapshot starts

table_name_given : is_empty (literal "demo") ≡ false
unfolding literal
table_name_given = refl

-- No file opens, and the demo table needs none.
abbrev no_files : ℕ → Files
no_files w path = closed

amw0_apply_fan_table-loads_example :
    let (loaded, t) =
      fan_table_load_named (no_files fresh.transport.world) (literal "demo") blank in
    let (s, _, a') =
      amw0_apply_fan_table host (load host no_files blank) (literal "demo") result_reset fresh in
    let done = write_all host (plan_writes (fan_program t)) fresh in
    ((is_ok loaded ≡ false) × (s ≡ loaded) × (a' ≡ fresh))
    ⊎ ((loaded ≡ Status.ok) × (s ≡ done.0) × (a' ≡ programmed t done))
amw0_apply_fan_table-loads_example =
    amw0_apply_fan_table-loads host no_files blank (literal "demo") result_reset fresh
      table_name_given refl

-- Two writes, of which the second fails.
abbrev short_plan : Plan
short_plan =
    stage_action (literal "two writes")
    ∷ write_action 0x0F5D 1 (literal "one")
    ∷ write_action 0x0F5E 1 (literal "two")
    ∷ []

abbrev limited : Amw0 ℕ
limited = record fresh {
  transport = record fresh.transport { dry_run = true };
  fail_after_writes = 2;
}

two_writes : length (plan_writes short_plan) ≡ 2
unfolding plan_writes action_writes
two_writes = refl

apply_fan_plan-limited_example :
    let whole = ltb (length (plan_writes short_plan)) 2 in
    let (s, _, a') = apply_fan_plan host short_plan result_reset limited in
    (s ≡ (if whole then Status.ok else Status.io))
    × (a' ≡ record limited { write_count = if whole then length (plan_writes short_plan) else 2 })
apply_fan_plan-limited_example =
    apply_fan_plan-limited host short_plan result_reset limited refl refl (omega arith)
      (omega (arith, two_writes))

run_operation-Ends_example :
    Ends fresh (run_operation host load_table (apply_power_limits two_limits) result_reset fresh)
run_operation-Ends_example =
    run_operation-Ends host load_table (apply_power_limits two_limits) result_reset fresh
