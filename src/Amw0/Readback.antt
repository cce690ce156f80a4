-- ===== src/Amw0/Readback.antt =====
-- src/backends/amw0/ecmg.c: a byte of the embedded controller is read as the reply of the ACPI method
-- ECRR. A function that writes through a pointer takes what it held and returns the new value.
use kuangshi16pro_series_gm.Prelude.{ℕ, ◌%◌, Option, none, some, [], ◌∷◌, if◌then◌else◌}
use kuangshi16pro_series_gm.Text.{Text}
use kuangshi16pro_series_gm.Status.{Status, is_ok}
use kuangshi16pro_series_gm.Strtoul.{strtoul}
use kuangshi16pro_series_gm.Amw0.Host.{Host}
use kuangshi16pro_series_gm.Amw0.Transport.{Transport, read_ecrr}

abbrev parse_result : Option (ℕ × Text) → ℕ → Status × ℕ
parse_result none value = (Status.parse, value)
parse_result (some (n, [])) value = (Status.ok, n % 4294967296)
parse_result (some (n, _ ∷ _)) value = (Status.parse, value)

-- `parse_u32_reply`
unfoldable pub parse_u32_reply : Text → ℕ → Status × ℕ
parse_u32_reply text value = parse_result (strtoul text) value

module _ {W : Type 0} (host : Host W) where
  -- `read_ecrr_value`; its local `reply` is not initialised, and only a reply that was read is parsed.
  unfoldable pub read_ecrr_value : Transport W → Text → ℕ → ℕ → Status × ℕ × Transport W
  read_ecrr_value t path offset value =
      let (s, reply, t') = read_ecrr host t path offset [] in
      let (parsed, value') = parse_u32_reply reply value in
      if is_ok s then (parsed, value', t') else (s, value, t')

  -- `lcc_amw0_read_ecrr_u32`
  abbrev pub read_ecrr_u32 : Transport W → Text → ℕ → ℕ → Status × ℕ × Transport W
  read_ecrr_u32 t path offset value = read_ecrr_value t path offset value

  -- `lcc_amw0_read_ecrr_u8`
  unfoldable pub read_ecrr_u8 : Transport W → Text → ℕ → ℕ → Status × ℕ × Transport W
  read_ecrr_u8 t path offset value =
      let (s, raw, t') = read_ecrr_value t path offset 0 in
      (s, if is_ok s then raw % 256 else value, t')
