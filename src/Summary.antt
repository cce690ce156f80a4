-- ===== src/Summary.antt =====
-- src/daemon/transaction.c: the texts that the log lines carry, built in buffers of a fixed size
-- (`format_target_summary`, `format_detail_summary` and what they call).
use kuangshi16pro_series_gm.Prelude.{
  ℕ, zero, suc, ◌+◌, ◌-◌, ◌/◌, ◌%◌, Bool, true, false, ◌||◌, [], ◌∷◌, ◌++◌, ltb, leb, if◌then◌else◌,
  length,
}
use kuangshi16pro_series_gm.Text.{Text, literal, is_empty, fit}
use kuangshi16pro_series_gm.State.{OptionalByte, StateTarget}

-- `%u`, on fuel for the digits: three are enough for a byte and five for a uint16_t.
unfoldable pub decimal_fuel : ℕ → ℕ → Text → Text
decimal_fuel zero n acc = acc
decimal_fuel (suc f) n acc =
    let acc' = (b'0' + n % 10) ∷ acc in
    let rest = decimal_fuel f (n / 10) acc' in if ltb n 10 then acc' else rest

unfoldable pub decimal : ℕ → Text
unfolding decimal_fuel
decimal n = decimal_fuel 5 n []

-- A buffer that is being filled, with the flag `first`.
abbrev pub Filling : Type 0
Filling = Text × Bool

-- `append_text_field` on a buffer of n bytes, n > 0. A NULL value is the empty text.
unfoldable pub append_text_field : ℕ → Text → Text → Filling → Filling
append_text_field n label value (buffer, first) =
    if is_empty label || is_empty value || leb (n - 1) (length buffer) then (buffer, first) else (
      buffer
          ++ fit (n - length buffer)
              ((if first then [] else literal " ") ++ (label ++ (literal "=" ++ value))),
      false,
    )

-- `append_optional_limit`; its `number` holds the three digits of a byte.
unfoldable pub append_optional_limit : ℕ → Text → OptionalByte → Filling → Filling
append_optional_limit n label value filling =
    if value.present
    then append_text_field n label (fit 32 (decimal value.value)) filling
    else filling

-- The fields of a target that is given, in the order of the calls.
unfoldable pub target_fields : ℕ → StateTarget → Filling → Filling
target_fields n t s0 =
    let s1 = append_text_field n (literal "profile") t.profile s0 in
    let s2 = append_text_field n (literal "fan_table") t.fan_table s1 in
    let s3 =
      if t.has_fan_boost
      then append_text_field n (literal "fan_boost")
          (if t.fan_boost_enabled then literal "true" else literal "false") s2
      else s2 in
    let s4 = append_optional_limit n (literal "pl1") t.power_limits.pl1 s3 in
    let s5 = append_optional_limit n (literal "pl2") t.power_limits.pl2 s4 in
    let s6 = append_optional_limit n (literal "pl4") t.power_limits.pl4 s5 in
    let s7 = append_optional_limit n (literal "tcc_offset") t.power_limits.tcc_offset s6 in
    if t.has_power_limits then s7 else s3

-- `format_target_summary` of a target that is not NULL; `format_target_none` is that of NULL.
unfoldable pub format_target_summary : ℕ → StateTarget → Text
format_target_summary n t =
    let (buffer, first) = target_fields n t ([], true) in
    if first then fit n (literal "none") else buffer

unfoldable pub format_target_none : ℕ → Text
format_target_none n = fit n (literal "none")

-- `nonnull_text`
abbrev pub nonnull_text : Text → Text
nonnull_text t = if is_empty t then literal "none" else t

-- `format_detail_summary`
unfoldable pub format_detail_summary : ℕ → Text → Text → Text
format_detail_summary n stage detail =
    if is_empty stage
    then fit n (if is_empty detail then literal "none" else detail)
    else if is_empty detail
    then fit n (literal "backend_stage=" ++ stage)
    else fit n (literal "backend_stage=" ++ (stage ++ (literal " reason=" ++ detail)))
