-- ===== src/Amw0/Printed.antt =====
-- The texts of src/backends/amw0/wmbc-pack.c and transport.c fit in their buffers, and a number that is
-- printed is read back.
use kuangshi16pro_series_gm.Prelude.{
  ℕ, zero, suc, ◌+◌, ◌*◌, ◌/◌, ◌%◌, ◌≤◌, ◌<◌, ◌≡◌, refl, some, [], ◌∷◌, ◌++◌, arith, lt→ltb, ltb,
  length, length-append, Bool-cases, inl, inr, ◌∙◌, ap,
}
use kuangshi16pro_series_gm.Text.{Text, literal, fit_short}
use kuangshi16pro_series_gm.Status.{Status}
use kuangshi16pro_series_gm.Scan.{skip_space}
use kuangshi16pro_series_gm.Strtoul.{digit_value, scan_digits, split_base, strtoul}
use kuangshi16pro_series_gm.Amw0.Transport.{expr_max}
use kuangshi16pro_series_gm.Amw0.Readback.{parse_u32_reply}
use kuangshi16pro_series_gm.Amw0.Packet.{
  Packet, hex_digit, hex_fuel, hex, zeros, hex_padded, print_to, byte_text, packet_tail,
  packet_text, packet_format_expr,
}

length-hex_fuel : (f n : ℕ) (acc : Text) → length (hex_fuel f n acc) ≤ f + length acc
unfolding hex_fuel
length-hex_fuel zero n acc = omega arith
length-hex_fuel (suc f) n acc =
    ground (arith, length-hex_fuel f (n / 16) (hex_digit (n % 16) ∷ acc))

pub length-hex : (n : ℕ) → length (hex n) ≤ 4
unfolding hex
length-hex n = omega (arith, length-hex_fuel 4 n [])

length-zeros : (n : ℕ) → length (zeros n) ≡ n
length-zeros zero = refl
length-zeros (suc n) = omega (arith, length-zeros n)

length-packet_tail : length packet_tail ≡ 171
unfolding packet_tail literal
length-packet_tail = refl

length-packet_text : (p : Packet) → length (packet_text p) < 256
unfolding packet_text byte_text hex_padded literal
length-packet_text p =
    simp (length-append, length-zeros, length-packet_tail)
      (omega (
        arith,
        length-hex p.slot,
        length-hex p.sa0,
        length-hex p.sa1,
        length-hex p.sa2,
        length-hex p.sa3,
        length-hex (p.sac1 % 256),
        length-hex ((p.sac1 / 256) % 256),
      ))

-- For every packet, `amw0_packet_format_expr` prints a text that fits in the AMW0_EXPR_MAX bytes of
-- `amw0_backend_send_packet`: it returns LCC_OK and the whole text.
pub packet_format_expr-fits :
    (p : Packet) → packet_format_expr expr_max p ≡ (Status.ok, packet_text p)
unfolding packet_format_expr print_to
packet_format_expr-fits p =
    let h = length-packet_text p in
    rw (lt→ltb (length (packet_text p)) 256 h, fit_short 256 (packet_text p) h) refl

scan_hex_digit :
    (a d : ℕ) (t : Text)
    → d < 16
    → scan_digits 16 a (hex_digit d ∷ t) ≡ scan_digits 16 (a * 16 + d) t
unfolding scan_digits hex_digit digit_value
scan_hex_digit a d t h = ground arith

-- The numbers that so many digits hold.
abbrev capacity : ℕ → ℕ
capacity zero = 1
capacity (suc f) = 16 * capacity f

scan-hex_fuel :
    (f n : ℕ) (acc : Text)
    → n < capacity f
    → scan_digits 16 0 (hex_fuel f n acc) ≡ scan_digits 16 n acc
unfolding hex_fuel
scan-hex_fuel zero n acc h = let e : n ≡ 0 = omega arith in rw (e) refl
scan-hex_fuel (suc f) n acc h = elim (Bool-cases (ltb n 16)) [
  | inl e ↦
      let v : 0 * 16 + n % 16 ≡ n = ground (arith, e) in
      rw (e) (scan_hex_digit 0 (n % 16) acc (omega arith) ∙ ap (λ k. scan_digits 16 k acc) v)
  | inr e ↦
      let v : (n / 16) * 16 + n % 16 ≡ n = omega arith in
      rw (e) (
        scan-hex_fuel f (n / 16) (hex_digit (n % 16) ∷ acc) (omega arith)
        ∙ (scan_hex_digit (n / 16) (n % 16) acc (omega arith) ∙ ap (λ k. scan_digits 16 k acc) v))
]

-- The first digit of what is printed.
abbrev StartsHex : Text → Type 0
StartsHex t = (d : ℕ) × (ds : Text) × (t ≡ d ∷ ds) × (digit_value d < 16)

hex_digit-value : (d : ℕ) → d < 16 → digit_value (hex_digit d) < 16
unfolding hex_digit digit_value
hex_digit-value d h = ground arith

hex_fuel-StartsHex :
    (f n c : ℕ) (acc : Text) → digit_value c < 16 → StartsHex (hex_fuel f n (c ∷ acc))
unfolding hex_fuel
hex_fuel-StartsHex zero n c acc h = (c, acc, refl, h)
hex_fuel-StartsHex (suc f) n c acc h =
    let v = hex_digit-value (n % 16) (omega arith) in
    elim (Bool-cases (ltb n 16)) [
      | inl e ↦ rw (e) (hex_digit (n % 16), c ∷ acc, refl, v)
      | inr e ↦ rw (e) (hex_fuel-StartsHex f (n / 16) (hex_digit (n % 16)) (c ∷ acc) v)
    ]

hex-StartsHex : (n : ℕ) → StartsHex (hex n)
unfolding hex hex_fuel
hex-StartsHex n =
    let v = hex_digit-value (n % 16) (omega arith) in
    elim (Bool-cases (ltb n 16)) [
      | inl e ↦ rw (e) (hex_digit (n % 16), [], refl, v)
      | inr e ↦ rw (e) (hex_fuel-StartsHex 3 (n / 16) (hex_digit (n % 16)) [] v)
    ]

scan-hex : (n : ℕ) → n < 65536 → scan_digits 16 0 (hex n) ≡ (n, [])
unfolding hex scan_digits
scan-hex n h = scan-hex_fuel 4 n [] h

strtoul-prefixed :
    (d n : ℕ) (ds : Text)
    → n < 65536
    → digit_value d < 16
    → scan_digits 16 0 (d ∷ ds) ≡ (n, [])
    → strtoul (b'0' ∷ b'x' ∷ d ∷ ds) ≡ some (n, [])
unfolding strtoul skip_space split_base
strtoul-prefixed d n ds h v e = rw (lt→ltb (digit_value d) 16 v, e) (ground (arith, h))

strtoul-hex : (n : ℕ) → n < 65536 → strtoul (literal "0x" ++ hex n) ≡ some (n, [])
unfolding literal
strtoul-hex n h =
    let (d, ds, e, v) = hex-StartsHex n in
    let s : scan_digits 16 0 (d ∷ ds) ≡ (n, []) = rw (← e) (scan-hex n h) in
    rw (e) (strtoul-prefixed d n ds h v s)

-- Every 16-bit number that is printed as `0x%X`, the way that `amw0_backend_read_ecrr` prints an offset,
-- is read back by `parse_u32_reply` as the same number, whatever the variable held.
pub parse_u32_reply-hex :
    (n value : ℕ) → n < 65536 → parse_u32_reply (literal "0x" ++ hex n) value ≡ (Status.ok, n)
unfolding parse_u32_reply
parse_u32_reply-hex n value h =
    let e : n % 4294967296 ≡ n = omega arith in rw (strtoul-hex n h, e) refl
