-- ===== src/Amw0/Apply.antt =====
-- src/backends/amw0/backend.c: the writes of a mode, a profile, the power limits and the fan boost.
use kuangshi16pro_series_gm.Prelude.{ℕ, Bool, true, false, not, ◌&&◌, ◌||◌, ◌==◌, if◌then◌else◌}
use kuangshi16pro_series_gm.Text.{Text, literal, is_same}
use kuangshi16pro_series_gm.Status.{Status, is_ok}
use kuangshi16pro_series_gm.State.{Mode, OptionalByte, PowerLimits, Snapshot}
use kuangshi16pro_series_gm.Attribution.{power_set_from_limits, state_finalize}
use kuangshi16pro_series_gm.Backend.{BackendResult, Call, set_stage, set_detail}
use kuangshi16pro_series_gm.Request.{any_present, merge_limits}
use kuangshi16pro_series_gm.Amw0.Host.{Host}
use kuangshi16pro_series_gm.Amw0.Control.{
  profile_name_for_mode, profile_name_to_mode, mode_index_for_mode, mode_control_for_mode,
  has_boost, add_boost, drop_boost, mode_from_control,
}
use kuangshi16pro_series_gm.Amw0.Device.{
  Amw0, set_mode_profile_state, set_fan_boost_state, mark_mode_cached, cache_mode_control,
}
use kuangshi16pro_series_gm.Amw0.Access.{
  addr_mode_control, addr_mode_index, current_mode_control, write_ec_byte,
}
use kuangshi16pro_series_gm.Amw0.ReadState.{own_result}

abbrev pub same_flag : Bool → Bool → Bool
same_flag true b = b
same_flag false b = not b

abbrev byte_equal : OptionalByte → OptionalByte → Bool
byte_equal l r = same_flag l.present r.present && l.value == r.value

-- `power_limits_equal`
unfoldable pub limits_equal : PowerLimits → PowerLimits → Bool
limits_equal l r =
    byte_equal l.pl1 r.pl1
    && byte_equal l.pl2 r.pl2
    && byte_equal l.pl4 r.pl4
    && byte_equal l.tcc_offset r.tcc_offset

-- The control byte that a write of the mode writes: it keeps the fan boost.
unfoldable pub mode_target : Mode → ℕ → ℕ
mode_target mode current =
    if has_boost current then add_boost (mode_control_for_mode mode) else mode_control_for_mode mode

-- The shadow state after a write of the mode, or of the fan boost.
unfoldable pub shadow_mode : Snapshot → Mode → Bool → Snapshot
shadow_mode s mode boost =
    mark_mode_cached (set_fan_boost_state (set_mode_profile_state s mode) boost)

-- The shadow state after a write of the power limits.
unfoldable pub shadow_limits : Snapshot → PowerLimits → Snapshot
shadow_limits s merged = state_finalize (record s {
  requested = record s.requested { power_limits = merged; has_power_limits = true };
  effective = record s.effective { power_limits = merged; has_power_limits = true };
  effective_meta =
      power_set_from_limits s.effective_meta true merged (literal "cache") (literal "cache");
})

-- The flags that a write reports when it ends well.
abbrev pub report : {W : Type 0} → Bool → Amw0 W → BackendResult → BackendResult
report changed a r = record r { changed = changed; hardware_write = not a.transport.dry_run }

abbrev pub Wrote : Type 0 → Type 0
Wrote W = Status × BackendResult × Amw0 W

module _ {W : Type 0} (host : Host W) where
  -- A write under a stage, with the detail of its failure.
  abbrev write_stage :
      Text → Text → ℕ → ℕ → BackendResult → Amw0 W → Status × BackendResult × Amw0 W
  write_stage stage detail offset value r a =
      let staged = set_stage r stage in
      let (s, a') = write_ec_byte host a offset value in
      (s, if is_ok s then staged else set_detail staged detail, a')

  -- `amw0_apply_mode` from the read of the control byte on; that read always succeeds.
  unfoldable pub write_mode : Mode → Bool → ℕ → BackendResult → Amw0 W → Wrote W
  write_mode mode changed current r0 a0 =
      let target = mode_target mode current in
      let (s1, r1, a1) =
        write_stage (literal "set-mode-index") (literal "amw0 mode index write failed")
          addr_mode_index (mode_index_for_mode mode) r0 a0 in
      let (s2, r2, a2) =
        write_stage (literal "set-mode-control") (literal "amw0 mode control write failed")
          addr_mode_control target r1 a1 in
      let cached = cache_mode_control a2 target in
      let a3 = record cached {
        shadow_state = shadow_mode cached.shadow_state mode (has_boost target);
      } in
      if is_ok s1
      then if is_ok s2 then (Status.ok, report changed a3 r2, a3) else (s2, r2, a2)
      else (s1, r1, a1)

  -- `amw0_apply_mode`
  unfoldable pub amw0_apply_mode : Mode → Call (Amw0 W)
  amw0_apply_mode mode uninit a =
      let changed = not (is_same a.shadow_state.effective.profile (profile_name_for_mode mode)) in
      let (s, current, a1) = current_mode_control host a 0 in
      if is_ok s
      then write_mode mode changed current own_result a1
      else (s, set_detail own_result (literal "amw0 mode control readback failed"), a1)

  -- `amw0_apply_profile`; a name that is not known leaves the result as it was.
  unfoldable pub amw0_apply_profile : Text → Call (Amw0 W)
  amw0_apply_profile name r a =
      let (s, mode) = profile_name_to_mode name Mode.office in
      let applied = amw0_apply_mode mode r a in if is_ok s then applied else (s, r, a)

  -- One of the four writes of `amw0_apply_power_limits`, if the limit is given.
  unfoldable pub write_limit : OptionalByte → Text → Text → ℕ → BackendResult → Amw0 W → Wrote W
  write_limit b stage detail offset r a =
      let written = write_stage stage detail offset b.value r a in
      if b.present then written else (Status.ok, r, a)

  unfoldable pub write_limits : PowerLimits → BackendResult → Amw0 W → Wrote W
  write_limits l r0 a0 =
      let (s1, r1, a1) =
        write_limit l.pl1 (literal "write-pl1") (literal "amw0 PL1 write failed") 0x0783 r0 a0 in
      let (s2, r2, a2) =
        write_limit l.pl2 (literal "write-pl2") (literal "amw0 PL2 write failed") 0x0784 r1 a1 in
      let (s3, r3, a3) =
        write_limit l.pl4 (literal "write-pl4") (literal "amw0 PL4 write failed") 0x0785 r2 a2 in
      let last =
        write_limit l.tcc_offset (literal "write-tcc-offset")
          (literal "amw0 TCC offset write failed") 0x0786 r3 a3 in
      if is_ok s1
      then if is_ok s2 then if is_ok s3 then last else (s3, r3, a3) else (s2, r2, a2)
      else (s1, r1, a1)

  -- `amw0_apply_power_limits`
  unfoldable pub amw0_apply_power_limits : PowerLimits → Call (Amw0 W)
  amw0_apply_power_limits l uninit a =
      let old = a.shadow_state.effective in
      let merged = merge_limits old.power_limits l in
      let changed = not old.has_power_limits || not (limits_equal old.power_limits merged) in
      let (s, r, a1) = write_limits l own_result a in
      let a2 = record a1 { shadow_state = shadow_limits a1.shadow_state merged } in
      if any_present l
      then if is_ok s then (Status.ok, report changed a2 r, a2) else (s, r, a1)
      else (Status.invalid_argument, uninit, a)

  -- `amw0_apply_fan_boost` from the read of the control byte on.
  unfoldable pub write_boost : Bool → ℕ → BackendResult → Amw0 W → Wrote W
  write_boost enabled current r0 a0 =
      let target = if enabled then add_boost current else drop_boost current in
      let old = a0.shadow_state.effective in
      let changed =
        not old.has_fan_boost
        || not (same_flag old.fan_boost_enabled enabled)
        || not (current == target) in
      let (s1, r1, a1) =
        write_stage (literal "set-fan-boost") (literal "amw0 fan boost write failed")
          addr_mode_control target r0 a0 in
      let cached = cache_mode_control a1 target in
      let a2 = record cached {
        shadow_state = shadow_mode cached.shadow_state (mode_from_control target) enabled;
      } in
      if is_ok s1 then (Status.ok, report changed a2 r1, a2) else (s1, r1, a1)

  -- `amw0_apply_fan_boost`
  unfoldable pub amw0_apply_fan_boost : Bool → Call (Amw0 W)
  amw0_apply_fan_boost enabled uninit a =
      let (s, current, a1) = current_mode_control host a 0 in
      if is_ok s
      then write_boost enabled current own_result a1
      else (s, set_detail own_result (literal "amw0 mode control readback failed"), a1)
