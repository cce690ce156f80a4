-- ===== src/Amw0/Packet.antt =====
-- src/backends/amw0/wmbc-pack.c and the packets of src/backends/amw0/transport.h: a call of the ACPI
-- method WMBC as a text.
use kuangshi16pro_series_gm.Prelude.{
  ℕ, zero, suc, ◌+◌, ◌-◌, ◌/◌, ◌%◌, [], ◌∷◌, ◌++◌, ltb, if◌then◌else◌, length,
}
use kuangshi16pro_series_gm.Text.{Text, literal, fit}
use kuangshi16pro_series_gm.Status.{Status}

-- A digit of `%X`.
unfoldable pub hex_digit : ℕ → ℕ
hex_digit d = if ltb d 10 then b'0' + d else b'A' + (d - 10)

unfoldable pub hex_fuel : ℕ → ℕ → Text → Text
hex_fuel zero n acc = acc
hex_fuel (suc f) n acc =
    let acc' = hex_digit (n % 16) ∷ acc in
    let rest = hex_fuel f (n / 16) acc' in if ltb n 16 then acc' else rest

-- `%X`, on fuel for the digits: four are enough for a uint16_t.
unfoldable pub hex : ℕ → Text
hex n = hex_fuel 4 n []

abbrev pub zeros : ℕ → Text
zeros zero = []
zeros (suc n) = b'0' ∷ zeros n

-- `%0wX`
unfoldable pub hex_padded : ℕ → ℕ → Text
hex_padded w n = zeros (w - length (hex n)) ++ hex n

-- `snprintf` into a buffer of n bytes, n > 0, with the test of its result.
unfoldable pub print_to : ℕ → Text → Status × Text
print_to n t = (if ltb (length t) n then Status.ok else Status.buffer_too_small, fit n t)

-- amw0_packet_t
pub record Packet : Type 0 where
  pub slot : ℕ  -- uint8_t
  pub sa0 : ℕ  -- uint8_t sa[4]
  pub sa1 : ℕ
  pub sa2 : ℕ
  pub sa3 : ℕ
  pub sac1 : ℕ  -- uint16_t

-- A byte of the braces, `0x%02X`.
unfoldable pub byte_text : ℕ → Text
byte_text n = literal "0x" ++ hex_padded 2 n

-- The bytes after the packet's own, which are always the same.
unfoldable pub packet_tail : Text
packet_tail =
    literal
      ",0x00,0x00,0x02,0x02,0x02,0x02,0x03,0x03,0x03,0x03,0x04,0x04,0x04,0x04,0x05,0x05,0x05,0x05,0x06,0x06,0x06,0x06,0x07,0x07,0x07,0x07,0x08,0x08,0x08,0x08,0x09,0x09,0x09,0x09}"

-- The text that `amw0_packet_format_expr` prints.
unfoldable pub packet_text : Packet → Text
packet_text p =
    literal "\\_SB.AMW0.WMBC 0x"
    ++ (hex p.slot
        ++ (literal " 0x4 {"
            ++ (byte_text p.sa0
                ++ (literal ","
                    ++ (byte_text p.sa1
                        ++ (literal ","
                            ++ (byte_text p.sa2
                                ++ (literal ","
                                    ++ (byte_text p.sa3
                                        ++ (literal ","
                                            ++ (byte_text (p.sac1 % 256)
                                                ++ (literal ","
                                                    ++ (byte_text ((p.sac1 / 256) % 256)
                                                        ++ packet_tail)))))))))))))

-- `amw0_packet_format_expr` into a buffer of n bytes, n > 0.
unfoldable pub packet_format_expr : ℕ → Packet → Status × Text
packet_format_expr n p = print_to n (packet_text p)
