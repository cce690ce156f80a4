-- ===== src/Loader/Document.antt =====
-- src/core/profile/loader.c: a profile document is read line by line. A line in brackets names the
-- section of the keys and values after it.
use kuangshi16pro_series_gm.Prelude.{
  ℕ, zero, suc, ◌-◌, Bool, true, false, not, ◌&&◌, ◌||◌, Option, none, some, List, [], ◌∷◌, ltb,
  leb, ◌==◌, if◌then◌else◌, length,
}
use kuangshi16pro_series_gm.Text.{Text, literal, is_empty, fit, is_same}
use kuangshi16pro_series_gm.Status.{Status, is_ok}
use kuangshi16pro_series_gm.State.{Mode, OptionalByte, PowerLimits, zero_limits}
use kuangshi16pro_series_gm.Scan.{c_string, find_char, until_char, has_prefix, after_first}
use kuangshi16pro_series_gm.Strtoul.{strtoul10}
use kuangshi16pro_series_gm.Fan.{fan_points, FanPoint, FanTable}
use kuangshi16pro_series_gm.Profile.{ProfileDocument, document_validate, mode_from_string}
use kuangshi16pro_series_gm.Loader.Values.{
  File, closed, opened, Files, trim, parse_u8_text, parse_bool_text, default_fan_name_from_path,
}
use kuangshi16pro_series_gm.Loader.Json.{copies, zero_point}

-- lcc_profile_section_t
pub data Section : Type 0 where
  none_yet in_mode in_power in_fan : Section

-- `profile_document_init`; LCC_MODE_GAMING is the value 0 of the modes.
abbrev pub blank_document : ProfileDocument
blank_document = record {
  has_mode = false;
  mode = Mode.gaming;
  has_power_limits = false;
  power_limits = zero_limits;
  has_fan_table = false;
  fan_table = record {
    name = [];
    activated = true;
    fan_control_respective = true;
    cpu = copies fan_points zero_point;
    gpu = copies fan_points zero_point;
  };
}

-- The loop of `parse_fan_triplet`, with so many rounds left, on the rest of the value: the numbers
-- read, and whether a comma follows the last of them.
unfoldable pub parse_numbers : ℕ → Text → Status × List ℕ × Bool
parse_numbers zero cursor = (Status.ok, [], true)
parse_numbers (suc rounds) cursor =
    let part = trim (until_char b',' cursor) in
    let (s, n) = parse_u8_text part 0 in
    let next = find_char b',' cursor in
    let (s', ns, more) = parse_numbers rounds (elim next [ none ↦ [] | some c ↦ after_first c ]) in
    if is_empty part
    then (Status.parse, [], false)
    else if not (is_ok s)
    then (s, [], false)
    else elim next [ none ↦ (Status.ok, n ∷ [], false) | some _ ↦ (s', n ∷ ns, more) ]

-- The point of three numbers that are not followed by a comma.
unfoldable pub triplet : List ℕ → Bool → FanPoint → Status × FanPoint
triplet (up ∷ down ∷ duty ∷ []) false p =
    (Status.ok, record { up_temp = up; down_temp = down; duty = duty })
triplet _ _ p = (Status.parse, p)

-- `parse_fan_triplet`
unfoldable pub parse_fan_triplet : Text → FanPoint → Status × FanPoint
parse_fan_triplet value p =
    let (s, ns, more) = parse_numbers 3 value in
    if leb 64 (length value)
    then (Status.buffer_too_small, p)
    else if is_ok s
    then triplet ns more p
    else (s, p)

-- `parse_fan_triplet(value, &points[index])`
unfoldable pub set_point : ℕ → Text → List FanPoint → Status × List FanPoint
set_point index value [] = (Status.range, [])
set_point zero value (p ∷ ps) = let (s, p') = parse_fan_triplet value p in (s, p' ∷ ps)
set_point (suc index) value (p ∷ ps) = let (s, ps') = set_point index value ps in (s, p ∷ ps')

abbrev index_of : Option (ℕ × Text) → Option ℕ
index_of none = none
index_of (some (_, _ ∷ _)) = none
index_of (some (n, [])) = if ltb n fan_points then some n else none

-- One curve of `parse_fan_point_assignment`; the text is the key behind the prefix.
abbrev assign_point : Text → Text → List FanPoint → Status × List FanPoint
assign_point index_text value points = elim (index_of (strtoul10 index_text)) [
  | none ↦ (Status.range, points)
  | some index ↦ set_point index value points
]

abbrev drop_prefix : Text → Text
drop_prefix key = after_first (after_first (after_first (after_first key)))

-- `parse_fan_point_assignment`
unfoldable pub parse_fan_point_assignment : Text → Text → FanTable → Status × FanTable
parse_fan_point_assignment key value t =
    let (c, cpu) = assign_point (drop_prefix key) value t.cpu in
    let (g, gpu) = assign_point (drop_prefix key) value t.gpu in
    if has_prefix (literal "cpu.") key
    then (c, record t { cpu = cpu })
    else if has_prefix (literal "gpu.") key
    then (g, record t { gpu = gpu })
    else (Status.parse, t)

-- `parse_mode_entry`
unfoldable pub parse_mode_entry : ProfileDocument → Text → Text → Status × ProfileDocument
parse_mode_entry d key value =
    let (s, mode) = mode_from_string (some value) Mode.office in
    if not (is_same key (literal "value"))
    then (Status.parse, d)
    else if is_ok s
    then (Status.ok, record d { has_mode = true; mode = mode })
    else (s, d)

-- The limit that `parse_power_entry` reads; a value that is refused leaves it.
abbrev read_limit_text : Text → OptionalByte → Status × OptionalByte
read_limit_text value b =
    let (s, n) = parse_u8_text value b.value in
    (s, if is_ok s then record { present = true; value = n } else b)

abbrev put_limits_read : ProfileDocument → Status → PowerLimits → ProfileDocument
put_limits_read d s l = record d {
  power_limits = l;
  has_power_limits = is_ok s || d.has_power_limits;
}

-- `parse_power_entry`
unfoldable pub parse_power_entry : ProfileDocument → Text → Text → Status × ProfileDocument
parse_power_entry d key value =
    let l = d.power_limits in
    let (s1, b1) = read_limit_text value l.pl1 in
    let (s2, b2) = read_limit_text value l.pl2 in
    let (s4, b4) = read_limit_text value l.pl4 in
    let (st, bt) = read_limit_text value l.tcc_offset in
    if is_same key (literal "pl1")
    then (s1, put_limits_read d s1 (record l { pl1 = b1 }))
    else if is_same key (literal "pl2")
    then (s2, put_limits_read d s2 (record l { pl2 = b2 }))
    else if is_same key (literal "pl4")
    then (s4, put_limits_read d s4 (record l { pl4 = b4 }))
    else if is_same key (literal "tcc_offset")
    then (st, put_limits_read d st (record l { tcc_offset = bt }))
    else (Status.parse, d)

-- What `parse_fan_entry` does to the table.
unfoldable pub fan_entry : FanTable → Text → Text → Status × FanTable
fan_entry t key value =
    let (a, activated) = parse_bool_text value t.activated in
    let (r, respective) = parse_bool_text value t.fan_control_respective in
    if is_same key (literal "name")
    then if leb 32 (length value)
      then (Status.buffer_too_small, t)
      else (Status.ok, record t { name = fit 32 value })
    else if is_same key (literal "activated")
    then (a, record t { activated = activated })
    else if is_same key (literal "fan_control_respective")
    then (r, record t { fan_control_respective = respective })
    else parse_fan_point_assignment key value t

-- `parse_fan_entry`
unfoldable pub parse_fan_entry : ProfileDocument → Text → Text → Status × ProfileDocument
parse_fan_entry d key value =
    let (s, t) = fan_entry d.fan_table key value in
    (s, record d { has_fan_table = true; fan_table = t })

-- The switch on the section.
unfoldable pub parse_entry : Section → ProfileDocument → Text → Text → Status × ProfileDocument
parse_entry none_yet d key value = (Status.parse, d)
parse_entry in_mode d key value = parse_mode_entry d key value
parse_entry in_power d key value = parse_power_entry d key value
parse_entry in_fan d key value = parse_fan_entry d key value

-- The name of a section, without its opening bracket: what it selects.
abbrev section_named : Text → Option Section
section_named name =
    if is_same name (literal "mode")
    then some in_mode
    else if is_same name (literal "power")
    then some in_power
    else if is_same name (literal "fan")
    then some in_fan
    else none

-- A text without its last byte, if that is a closing bracket.
abbrev close_bracket : Text → Option Text
close_bracket [] = none
close_bracket (c ∷ []) = if c == b']' then some [] else none
close_bracket (c ∷ d ∷ cs) = elim (close_bracket (d ∷ cs)) [
  | none ↦ none
  | some inner ↦ some (c ∷ inner)
]

-- A section line behind its bracket; a name of no bytes is refused.
abbrev section_line : Text → Option Section
section_line rest = elim (close_bracket rest) [
  | none ↦ none
  | some name ↦ if is_empty name then none else section_named name
]

abbrev is_comment : ℕ → Bool
is_comment c = c == b'#' || c == b';'

-- A line `key = value`.
unfoldable pub read_entry : Text → Section → ProfileDocument → Status × Section × ProfileDocument
read_entry text section d = elim (find_char b'=' text) [
  | none ↦ (Status.parse, section, d)
  | some separator ↦
      let (s, d') =
        parse_entry section d (trim (until_char b'=' text)) (trim (after_first separator)) in
      (s, section, d')
]

-- The body of the loop of `lcc_profile_document_load`, on a line that is trimmed.
unfoldable pub read_text : Text → Section → ProfileDocument → Status × Section × ProfileDocument
read_text [] section d = (Status.ok, section, d)
read_text (c ∷ rest) section d =
    if is_comment c
    then (Status.ok, section, d)
    else if c == b'['
    then elim (section_line rest) [ none ↦ (Status.parse, section, d) | some s ↦ (Status.ok, s, d) ]
    else read_entry (c ∷ rest) section d

-- The lines that `fgets` gives with a buffer of 256 bytes: up to 255 bytes, a newline with them. A line
-- that the end of the file cuts short is given, and one that a read error cuts short is not. The first
-- argument is whether an error ends the file, the second the room that the current line has left.
abbrev onto_line : Bool → ℕ → List (List ℕ) → List (List ℕ)
onto_line broken c [] = if broken then [] else (c ∷ []) ∷ []
onto_line broken c (line ∷ lines) = (c ∷ line) ∷ lines

unfoldable pub fgets_lines : Bool → ℕ → List ℕ → List (List ℕ)
fgets_lines broken room [] = []
fgets_lines broken room (c ∷ cs) =
    let fresh = fgets_lines broken 255 cs in
    let same = fgets_lines broken (room - 1) cs in
    if c == b'\n' || leb room 1 then (c ∷ []) ∷ fresh else onto_line broken c same

unfoldable pub read_lines : List (List ℕ) → Section → ProfileDocument → Status × ProfileDocument
read_lines [] section d = (Status.ok, d)
read_lines (line ∷ lines) section d =
    let (s, section', d') = read_text (trim (c_string line)) section d in
    let rest = read_lines lines section' d' in if is_ok s then rest else (s, d')

-- The end of the load: a table without a name gets that of the file.
unfoldable pub finish_document : Text → ProfileDocument → Status × ProfileDocument
finish_document path d =
    let named =
      if d.has_fan_table && is_empty d.fan_table.name
      then record d { fan_table = record d.fan_table { name = default_fan_name_from_path 32 path } }
      else d in
    (document_validate named, named)

unfoldable pub load_document : File → Text → ProfileDocument → Status × ProfileDocument
load_document closed path old = (Status.io, old)
load_document (opened bytes broken) path old =
    let (s, d) = read_lines (fgets_lines broken 255 bytes) none_yet blank_document in
    if is_ok s then finish_document path d else (s, d)

-- `lcc_profile_document_load`; a read error ends the loop as the end of the file does, and is not
-- reported.
unfoldable pub profile_document_load : Files → Text → ProfileDocument → Status × ProfileDocument
profile_document_load files path old = load_document (files path) path old
