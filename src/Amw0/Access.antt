-- ===== src/Amw0/Access.antt =====
-- src/backends/amw0/backend.c: reads and writes of a byte of the embedded controller, and the control
-- byte that a write of the mode starts from.
use kuangshi16pro_series_gm.Prelude.{ℕ, ◌+◌, ◌%◌, true, ◌&&◌, [], ltb, leb, if◌then◌else◌}
use kuangshi16pro_series_gm.Status.{Status, is_ok}
use kuangshi16pro_series_gm.Amw0.Host.{Host}
use kuangshi16pro_series_gm.Amw0.Transport.{probe_ecrr_path, send_ec_write}
use kuangshi16pro_series_gm.Amw0.Readback.{read_ecrr_u8}
use kuangshi16pro_series_gm.Amw0.Device.{Amw0, fallback_mode_control, cache_mode_control}

-- LCC_AMW0_ADDR_MODE_CONTROL, LCC_AMW0_ADDR_MODE_INDEX
abbrev pub addr_mode_control : ℕ
addr_mode_control = 0x0751

abbrev pub addr_mode_index : ℕ
addr_mode_index = 0x07AB

-- SIZE_MAX + 1
abbrev pub size_mod : ℕ
size_mod = 18446744073709551616

module _ {W : Type 0} (host : Host W) where
  -- `ensure_ecrr_path`
  unfoldable pub ensure_ecrr_path : Amw0 W → Status × Amw0 W
  ensure_ecrr_path a =
      let (s, path, t) = probe_ecrr_path host 64 [] a.ecrr_path a.transport in
      let probed = record a { transport = t; ecrr_path = path } in
      if a.has_ecrr_path
      then (Status.ok, a)
      else if a.transport.dry_run
      then (Status.ok, a)
      else if is_ok s
      then (Status.ok, record probed { has_ecrr_path = true })
      else (Status.not_found, probed)

  -- `read_live_byte`
  unfoldable pub read_live_byte : Amw0 W → ℕ → ℕ → Status × ℕ × Amw0 W
  read_live_byte a offset value =
      let (s, a') = ensure_ecrr_path a in
      let (r, value', t) = read_ecrr_u8 host a'.transport a'.ecrr_path offset value in
      if a.transport.dry_run
      then (Status.not_supported, value, a)
      else if is_ok s
      then (r, value', record a' { transport = t })
      else (s, value, a')

  -- `current_mode_control`; every branch gives LCC_OK.
  unfoldable pub current_mode_control : Amw0 W → ℕ → Status × ℕ × Amw0 W
  current_mode_control a control =
      let (s, live, a') = read_live_byte a addr_mode_control control in
      if is_ok s
      then (Status.ok, live, cache_mode_control a' live)
      else if a'.has_shadow_mode_control
      then (Status.ok, a'.shadow_mode_control, a')
      else (Status.ok, fallback_mode_control a'.shadow_state, a')

  -- `write_ec_byte`; it fails from the write on that a test asks for, if it asks for one.
  unfoldable pub write_ec_byte : Amw0 W → ℕ → ℕ → Status × Amw0 W
  write_ec_byte a offset value =
      let counted = record a { write_count = (a.write_count + 1) % size_mod } in
      let (s, _, t) = send_ec_write host a.transport a.route offset value [] in
      if ltb 0 a.fail_after_writes && leb a.fail_after_writes counted.write_count
      then (Status.io, counted)
      else (s, record counted { transport = t })
