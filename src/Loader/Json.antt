-- ===== src/Loader/Json.antt =====
-- src/core/profile/loader.c: the fan table of a JSON file. The scanner looks for the text of a key and
-- for the next colon after it; it does not read the structure of the document.
use kuangshi16pro_series_gm.Prelude.{
  ℕ, zero, suc, ◌+◌, ◌-◌, Bool, true, false, ◌||◌, Option, none, some, List, [], ◌∷◌, ◌++◌, leb,
  ◌==◌, if◌then◌else◌, length,
}
use kuangshi16pro_series_gm.Text.{Text, literal}
use kuangshi16pro_series_gm.Status.{Status, is_ok}
use kuangshi16pro_series_gm.Scan.{find_char, until_char, has_prefix, find_text, after_first}
use kuangshi16pro_series_gm.Strtoul.{strtoul10}
use kuangshi16pro_series_gm.Fan.{fan_points, FanPoint, FanTable, validate_fan_table}
use kuangshi16pro_series_gm.Loader.Values.{Files, load_text_file, default_fan_name_from_path}

-- The text after the colon that follows a key (`json_find_key`, then `strchr`).
abbrev after_colon : Text → Text → Option Text
after_colon key json = elim (find_text key json) [
  | none ↦ none
  | some cursor ↦ elim (find_char b':' cursor) [ none ↦ none | some c ↦ some (after_first c) ]
]

-- `json_parse_string` into a buffer of n bytes. The search for the quote starts at the colon.
unfoldable pub json_parse_string : ℕ → Text → Text → Option Text
json_parse_string n key json = elim (after_colon key json) [
  | none ↦ none
  | some rest ↦ elim (find_char b'"' rest) [
    | none ↦ none
    | some quoted ↦
        let value = until_char b'"' (after_first quoted) in
        elim (find_char b'"' (after_first quoted)) [
          | none ↦ none
          | some _ ↦ if leb (length value + 1) n then some value else none
        ]
  ]
]

abbrev is_json_space : ℕ → Bool
is_json_space c = c == b' ' || c == b'\n' || c == b'\r' || c == b'\t'

unfoldable pub skip_json_space : Text → Text
skip_json_space [] = []
skip_json_space (c ∷ cs) = let rest = skip_json_space cs in if is_json_space c then rest else c ∷ cs

-- `json_parse_bool`; the value is left alone where there is none.
unfoldable pub json_parse_bool : Text → Text → Bool → Bool
json_parse_bool key json value = elim (after_colon key json) [
  | none ↦ value
  | some rest ↦
      let text = skip_json_space rest in
      if has_prefix (literal "true") text
      then true
      else if has_prefix (literal "false") text
      then false
      else value
]

-- `json_parse_u8_from_object`
unfoldable pub json_parse_u8 : Text → Text → Option ℕ
json_parse_u8 key object = elim (after_colon key object) [
  | none ↦ none
  | some rest ↦ elim (strtoul10 (skip_json_space rest)) [
    | none ↦ none
    | some (n, _) ↦ if leb n 0xff then some n else none
  ]
]

-- The three values of a point; all of them must be there.
unfoldable pub parse_point : Text → Option FanPoint
parse_point object = elim (json_parse_u8 (literal "\"up\"") object) [
  | none ↦ none
  | some up ↦ elim (json_parse_u8 (literal "\"down\"") object) [
    | none ↦ none
    | some down ↦ elim (json_parse_u8 (literal "\"duty\"") object) [
      | none ↦ none
      | some duty ↦ some (record { up_temp = up; down_temp = down; duty = duty })
    ]
  ]
]

-- How the loop over the objects of an array ends, with the points read.
pub data Scanned : Type 0 where
  complete : List FanPoint → Scanned
  refused : Status → List FanPoint → Scanned
  out_of_fuel : Scanned

-- `*cursor == '\0' || *cursor == ']'`
abbrev pub at_end : Text → Bool
at_end [] = true
at_end (c ∷ _) = c == b']'

-- The skip to the next object, or to the end of the array.
unfoldable pub skip_to_object : Text → Text
skip_to_object [] = []
skip_to_object (c ∷ cs) =
    let rest = skip_to_object cs in if c == b'{' || c == b']' then c ∷ cs else rest

abbrev pub at_bracket : Text → Bool
at_bracket [] = false
at_bracket (c ∷ _) = c == b']'

-- One object at the cursor: its point and the text behind it.
unfoldable pub take_object : Text → List FanPoint → Status × Option (FanPoint × Text)
take_object cursor points = elim (find_char b'}' cursor) [
  | none ↦ (Status.parse, none)
  | some brace ↦
      let object = until_char b'}' cursor ++ b'}' ∷ [] in
      if leb 256 (length object)
      then (Status.buffer_too_small, none)
      else elim (parse_point object) [
        | none ↦ (Status.parse, none)
        | some point ↦
            if leb fan_points (length points)
            then (Status.range, none)
            else (Status.ok, some (point, after_first brace))
      ]
]

-- The loop of `parse_fan_json_array`, on fuel.
unfoldable pub scan_objects : ℕ → Text → List FanPoint → Scanned
scan_objects zero cursor points = out_of_fuel
scan_objects (suc f) cursor points =
    let start = skip_to_object cursor in
    let (s, taken) = take_object start points in
    let more : Scanned = elim taken [
      | none ↦ refused s points
      | some (point, rest) ↦ scan_objects f rest (points ++ point ∷ [])
    ] in
    if at_end cursor then complete points else if at_bracket start then complete points else more

-- The points that an array of old ones gets at its front.
unfoldable pub put_points : List FanPoint → List FanPoint → List FanPoint
put_points [] old = old
put_points (_ ∷ _) [] = []
put_points (p ∷ ps) (_ ∷ old) = p ∷ put_points ps old

-- So many copies of the last point; `last` is what it is at first.
abbrev last_point : FanPoint → List FanPoint → FanPoint
last_point last [] = last
last_point last (p ∷ ps) = last_point p ps

abbrev pub copies : ℕ → FanPoint → List FanPoint
copies zero p = []
copies (suc n) p = p ∷ copies n p

abbrev pub zero_point : FanPoint
zero_point = record { up_temp = 0; down_temp = 0; duty = 0 }

-- The end of `parse_fan_json_array`: the array is filled up with the last point. `out_of_fuel` does
-- not come up.
unfoldable pub fill_points : Scanned → List FanPoint → Status × List FanPoint
fill_points out_of_fuel old = (Status.parse, old)
fill_points (refused s points) old = (s, put_points points old)
fill_points (complete []) old = (Status.parse, old)
fill_points (complete (p ∷ ps)) old = (
  Status.ok,
  put_points ((p ∷ ps) ++ copies (fan_points - length (p ∷ ps)) (last_point p ps)) old,
)

-- `parse_fan_json_array`: 17 rounds are enough, since the 17th object is refused.
unfoldable pub parse_fan_json_array : Text → Text → List FanPoint → Status × List FanPoint
parse_fan_json_array key json old = elim (find_text key json) [
  | none ↦ (Status.parse, old)
  | some found ↦ elim (find_char b'[' found) [
    | none ↦ (Status.parse, old)
    | some bracket ↦ fill_points (scan_objects (fan_points + 1) (after_first bracket) []) old
  ]
]

-- What `memset` leaves of the table, with its two flags set.
abbrev fresh_table : FanTable
fresh_table = record {
  name = [];
  activated = true;
  fan_control_respective = true;
  cpu = copies fan_points zero_point;
  gpu = copies fan_points zero_point;
}

abbrev pub named_table : Text → Text → FanTable
named_table path json =
    let respective = json_parse_bool (literal "\"fan_control_respective\"") json true in
    let activated = json_parse_bool (literal "\"activated\"") json true in
    record fresh_table {
      name = elim (json_parse_string 32 (literal "\"name\"") json) [
        | some name ↦ name
        | none ↦ default_fan_name_from_path 32 path
      ];
      activated = json_parse_bool (literal "\"Activated\"") json activated;
      fan_control_respective = json_parse_bool (literal "\"FanControlRespective\"") json respective;
    }

-- `parse_fan_table_json`
unfoldable pub parse_fan_table_json : Files → Text → FanTable → Status × FanTable
parse_fan_table_json files path table =
    let (s, json) = load_text_file 4096 (files path) in
    let t0 = named_table path json in
    let (c, cpu) = parse_fan_json_array (literal "\"cpu\"") json t0.cpu in
    let t1 = record t0 { cpu = cpu } in
    let (g, gpu) = parse_fan_json_array (literal "\"gpu\"") json t1.gpu in
    let t2 = record t1 { gpu = gpu } in
    if is_ok s
    then if is_ok c then if is_ok g then (validate_fan_table t2, t2) else (g, t2) else (c, t1)
    else (s, table)
