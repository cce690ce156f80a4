-- ===== src/Amw0/Control.antt =====
-- src/backends/amw0/backend.c, the encoding of the modes: their profile names, the index byte at 0x07AB,
-- and the control byte at 0x0751, of which bit 4 is turbo, bit 5 hi-mode, bit 6 the fan boost and bit 7
-- custom. A bit of a byte is read by `/` and `%`, and a mask of one bit is set or cleared by its weight.
use kuangshi16pro_series_gm.Prelude.{ℕ, ◌+◌, ◌-◌, ◌/◌, ◌%◌, Bool, ◌||◌, ◌==◌, if◌then◌else◌}
use kuangshi16pro_series_gm.Text.{Text, literal, is_same}
use kuangshi16pro_series_gm.Status.{Status}
use kuangshi16pro_series_gm.State.{Mode}

-- `profile_name_for_mode`
unfoldable pub profile_name_for_mode : Mode → Text
profile_name_for_mode Mode.gaming = literal "gaming"
profile_name_for_mode Mode.office = literal "office"
profile_name_for_mode Mode.turbo = literal "turbo"
profile_name_for_mode Mode.custom = literal "custom"

-- `profile_name_to_mode`; the mode is left alone where the name is not known.
unfoldable pub profile_name_to_mode : Text → Mode → Status × Mode
profile_name_to_mode name mode =
    if is_same name (literal "gaming") || is_same name (literal "balanced")
    then (Status.ok, Mode.gaming)
    else if is_same name (literal "office") || is_same name (literal "low-power")
    then (Status.ok, Mode.office)
    else if is_same name (literal "turbo") || is_same name (literal "performance")
    then (Status.ok, Mode.turbo)
    else if is_same name (literal "custom")
    then (Status.ok, Mode.custom)
    else (Status.not_supported, mode)

-- `mode_index_for_mode`
unfoldable pub mode_index_for_mode : Mode → ℕ
mode_index_for_mode Mode.gaming = 0
mode_index_for_mode Mode.office = 1
mode_index_for_mode Mode.turbo = 2
mode_index_for_mode Mode.custom = 3

-- `mode_control_for_mode`
unfoldable pub mode_control_for_mode : Mode → ℕ
mode_control_for_mode Mode.gaming = 0x20
mode_control_for_mode Mode.office = 0x00
mode_control_for_mode Mode.turbo = 0x10
mode_control_for_mode Mode.custom = 0xA0

-- `(control & weight) != 0`, for a weight that is a power of two.
abbrev pub has_bit : ℕ → ℕ → Bool
has_bit weight control = (control / weight) % 2 == 1

-- `control & LCC_AMW0_MODE_FANBOOST_BIT` as a test
unfoldable pub has_boost : ℕ → Bool
has_boost control = has_bit 0x40 control

-- `control | LCC_AMW0_MODE_FANBOOST_BIT`
unfoldable pub add_boost : ℕ → ℕ
add_boost control = if has_boost control then control else control + 0x40

-- `control & ~LCC_AMW0_MODE_FANBOOST_BIT`
unfoldable pub drop_boost : ℕ → ℕ
drop_boost control = if has_boost control then control - 0x40 else control

-- `mode_from_control`
unfoldable pub mode_from_control : ℕ → Mode
mode_from_control control =
    if has_bit 0x80 control
    then Mode.custom
    else if has_bit 0x10 control
    then Mode.turbo
    else if has_bit 0x20 control
    then Mode.gaming
    else Mode.office
