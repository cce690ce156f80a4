-- ===== src/Loader/Values.antt =====
-- src/core/profile/loader.c: the texts of values, the files, and the name that a table gets from its
-- path. A function that writes through a pointer takes what it held and returns the new value.
use kuangshi16pro_series_gm.Prelude.{
  ℕ, ◌+◌, Bool, true, false, ◌||◌, Option, none, some, List, [], ◌∷◌, ltb, leb, if◌then◌else◌,
  length,
}
use kuangshi16pro_series_gm.Text.{Text, literal, is_empty, fit, is_same}
use kuangshi16pro_series_gm.Status.{Status}
use kuangshi16pro_series_gm.Scan.{c_string, skip_space, trim_end, split_last}
use kuangshi16pro_series_gm.Strtoul.{strtoul}

-- What opening and reading a file comes to: it does not open, or it gives the bytes up to its end or up
-- to an error.
pub data File : Type 0 where
  closed : File
  opened : List ℕ → Bool → File  -- true where an error ends it

-- The files that can be opened, by their paths.
abbrev pub Files : Type 0
Files = Text → File

-- `trim`
unfoldable pub trim : Text → Text
trim text = trim_end (skip_space text)

abbrev u8_result : Option (ℕ × Text) → ℕ → Status × ℕ
u8_result none value = (Status.parse, value)
u8_result (some (_, _ ∷ _)) value = (Status.parse, value)
u8_result (some (n, [])) value = if leb n 0xff then (Status.ok, n) else (Status.range, value)

-- `parse_u8_text`
unfoldable pub parse_u8_text : Text → ℕ → Status × ℕ
parse_u8_text text value = u8_result (strtoul text) value

-- `parse_bool_text`
unfoldable pub parse_bool_text : Text → Bool → Status × Bool
parse_bool_text text value =
    if is_same text (literal "1")
      || is_same text (literal "true")
      || is_same text (literal "yes")
      || is_same text (literal "on")
    then (Status.ok, true)
    else if is_same text (literal "0")
        || is_same text (literal "false")
        || is_same text (literal "no")
        || is_same text (literal "off")
    then (Status.ok, false)
    else (Status.parse, value)

-- `load_text_file` into a buffer of n bytes: a file that fills n - 1 bytes is not known to have ended.
unfoldable pub load_text_file : ℕ → File → Status × Text
load_text_file n closed = (Status.io, [])
load_text_file n (opened bytes broken) =
    if ltb (length bytes + 1) n
    then if broken then (Status.io, []) else (Status.ok, c_string bytes)
    else (Status.buffer_too_small, [])

-- The last part of a path.
abbrev base_name : Text → Text
base_name path = elim (split_last b'/' path) [ some (_, base) ↦ base | none ↦ path ]

-- A name without its extension; a dot at the start does not begin one.
abbrev stem : Text → Text
stem base = elim (split_last b'.' base) [
  | some (before, _) ↦ if is_empty before then base else before
  | none ↦ base
]

-- `default_fan_name_from_path` into a buffer of n bytes, n > 0.
unfoldable pub default_fan_name_from_path : ℕ → Text → Text
default_fan_name_from_path n path =
    let name = stem (base_name path) in fit n (if is_empty name then literal "from-file" else name)
