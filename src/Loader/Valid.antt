-- ===== src/Loader/Valid.antt =====
-- What src/core/profile/loader.c loads is a fan table that is valid.
use kuangshi16pro_series_gm.Prelude.{
  ℕ, zero, suc, ◌≡◌, refl, false, ◌&&◌, ◌⊎◌, inl, inr, List, [], ◌∷◌, arith, length, Bool-cases, ap,
}
use kuangshi16pro_series_gm.Text.{Text, literal, is_empty, is_same}
use kuangshi16pro_series_gm.Status.{Status, is_ok, is_ok→eq}
use kuangshi16pro_series_gm.Scan.{c_string}
use kuangshi16pro_series_gm.Fan.{FanPoint, FanTable, IsTable, validate_fan_table}
use kuangshi16pro_series_gm.Fan.Demo.{fan_table_build_demo-valid}
use kuangshi16pro_series_gm.Profile.{ProfileDocument, document_validate}
use kuangshi16pro_series_gm.Loader.Values.{File, closed, opened, Files, load_text_file, trim}
use kuangshi16pro_series_gm.Loader.Json.{named_table, parse_fan_json_array, parse_fan_table_json}
use kuangshi16pro_series_gm.Loader.Document.{
  Section, none_yet, in_mode, in_power, in_fan, blank_document, set_point,
  parse_fan_point_assignment, parse_mode_entry, parse_power_entry, fan_entry, parse_fan_entry,
  parse_entry, read_entry, read_text, read_lines, fgets_lines, finish_document, load_document,
  profile_document_load,
}
use kuangshi16pro_series_gm.Loader.Named.{
  is_json, table_of, fan_table_load_file, load_first, fan_table_load_named,
}
use kuangshi16pro_series_gm.Loader.Rounds.{length-parse_fan_json_array}

-- A load that does not fail gives a table with 16 points in each curve that is valid.
abbrev pub Loads : Status × FanTable → Type 0
Loads (s, t) =
    (is_ok s ≡ false) ⊎ ((s ≡ Status.ok) × IsTable t × (validate_fan_table t ≡ Status.ok))

validate-Loads : (t : FanTable) → IsTable t → Loads (validate_fan_table t, t)
validate-Loads t w = elim (Bool-cases (is_ok (validate_fan_table t))) [
  | inl e ↦ inr (is_ok→eq (validate_fan_table t) e, w, is_ok→eq (validate_fan_table t) e)
  | inr e ↦ inl e
]

parse_fan_table_json-Loads :
    (files : Files) (path : Text) (old : FanTable) → Loads (parse_fan_table_json files path old)
unfolding parse_fan_table_json
parse_fan_table_json-Loads files path old =
    let (s, json) = load_text_file 4096 (files path) in
    let t0 = named_table path json in
    let (c, cpu) = parse_fan_json_array (literal "\"cpu\"") json t0.cpu in
    let (g, gpu) = parse_fan_json_array (literal "\"gpu\"") json t0.gpu in
    let w : IsTable (record t0 { cpu = cpu; gpu = gpu }) = record {
      cpu_points = length-parse_fan_json_array (literal "\"cpu\"") json t0.cpu;
      gpu_points = length-parse_fan_json_array (literal "\"gpu\"") json t0.gpu;
    } in
    elim (Bool-cases (is_ok s)) [
      | inl e ↦ elim (Bool-cases (is_ok c)) [
        | inl e' ↦ elim (Bool-cases (is_ok g)) [
          | inl e'' ↦ rw (e, e', e'') (validate-Loads _ w)
          | inr e'' ↦ rw (e, e', e'') (inl e'')
        ]
        | inr e' ↦ rw (e, e') (inl e')
      ]
      | inr e ↦ rw (e) (inl e)
    ]

length-set_point :
    (i : ℕ) (value : Text) (ps : List FanPoint) → length (set_point i value ps).1 ≡ length ps
unfolding set_point
length-set_point i value [] = refl
length-set_point zero value (p ∷ ps) = refl
length-set_point (suc i) value (p ∷ ps) = ap suc (length-set_point i value ps)

fan_entry-IsTable :
    (t : FanTable) (key value : Text) → IsTable t → IsTable (fan_entry t key value).1
unfolding fan_entry parse_fan_point_assignment
fan_entry-IsTable t key value h = record {
  cpu_points = grind (arith, length-set_point, h.cpu_points);
  gpu_points = grind (arith, length-set_point, h.gpu_points);
}

-- The table of a document keeps its two curves of 16 points.
abbrev HasTable : ProfileDocument → Type 0
HasTable d = IsTable d.fan_table

parse_entry-HasTable :
    (x : Section) (d : ProfileDocument) (key value : Text)
    → HasTable d
    → HasTable (parse_entry x d key value).1
unfolding parse_entry parse_mode_entry parse_power_entry parse_fan_entry
parse_entry-HasTable none_yet d key value h = h
parse_entry-HasTable in_mode d key value h = ground (arith, h)
parse_entry-HasTable in_power d key value h = ground (arith, h)
parse_entry-HasTable in_fan d key value h = fan_entry-IsTable d.fan_table key value h

read_entry-HasTable :
    (text : Text) (x : Section) (d : ProfileDocument)
    → HasTable d
    → HasTable (read_entry text x d).2
unfolding read_entry
read_entry-HasTable text x d h = grind (arith, parse_entry-HasTable)

read_text-HasTable :
    (text : Text) (x : Section) (d : ProfileDocument) → HasTable d → HasTable (read_text text x d).2
unfolding read_text
read_text-HasTable [] x d h = h
read_text-HasTable (c ∷ rest) x d h = grind (arith, read_entry-HasTable)

read_lines-HasTable :
    (lines : List (List ℕ)) (x : Section) (d : ProfileDocument)
    → HasTable d
    → HasTable (read_lines lines x d).1
unfolding read_lines
read_lines-HasTable [] x d h = h
read_lines-HasTable (line ∷ lines) x d h =
    let (s, x', d') = read_text (trim (c_string line)) x d in
    let k = read_text-HasTable (trim (c_string line)) x d h in
    elim (Bool-cases (is_ok s)) [
      | inl e ↦ rw (e) (read_lines-HasTable lines x' d' k)
      | inr e ↦ rw (e) k
    ]

-- A document that is loaded, with or without a table, and validated.
abbrev LoadsDocument : Status × ProfileDocument → Type 0
LoadsDocument (s, d) = HasTable d × (s ≡ document_validate d ⊎ (is_ok s ≡ false))

finish_document-LoadsDocument :
    (path : Text) (d : ProfileDocument) → HasTable d → LoadsDocument (finish_document path d)
unfolding finish_document
finish_document-LoadsDocument path d h =
    elim (Bool-cases (d.has_fan_table && is_empty d.fan_table.name)) [
      | inl e ↦ rw (e) (record { cpu_points = h.cpu_points; gpu_points = h.gpu_points }, inl refl)
      | inr e ↦ rw (e) (h, inl refl)
    ]

load_document-LoadsDocument :
    (file : File) (path : Text) (old : ProfileDocument)
    → HasTable old
    → LoadsDocument (load_document file path old)
unfolding load_document
load_document-LoadsDocument closed path old h = (h, inr refl)
load_document-LoadsDocument (opened bytes broken) path old h =
    let (s, d) = read_lines (fgets_lines broken 255 bytes) none_yet blank_document in
    let k =
      read_lines-HasTable (fgets_lines broken 255 bytes) none_yet blank_document
        (record { cpu_points = refl; gpu_points = refl }) in
    elim (Bool-cases (is_ok s)) [
      | inl e ↦ rw (e) (finish_document-LoadsDocument path d k)
      | inr e ↦ rw (e) (k, inr e)
    ]

table_of-Loads :
    (s : Status) (d : ProfileDocument) (old : FanTable)
    → LoadsDocument (s, d)
    → Loads (table_of (s, d) old)
unfolding document_validate
table_of-Loads s d old h = ground (arith, h, is_ok→eq s)

pub fan_table_load_file-Loads :
    (files : Files) (path : Text) (old : FanTable) → Loads (fan_table_load_file files path old)
unfolding fan_table_load_file profile_document_load
fan_table_load_file-Loads files path old = elim (Bool-cases (is_json path)) [
  | inl e ↦ rw (e) (parse_fan_table_json-Loads files path old)
  | inr e ↦
      let (s, d) = load_document (files path) path blank_document in
      rw (e) (
        table_of-Loads s d old (
          load_document-LoadsDocument (files path) path blank_document
            (record { cpu_points = refl; gpu_points = refl })))
]

load_first-Loads :
    (files : Files) (paths : List Text) (old : FanTable) → Loads (load_first files paths old)
unfolding load_first
load_first-Loads files [] old = inl refl
load_first-Loads files (path ∷ paths) old =
    let (s, t) = fan_table_load_file files path old in
    let h = fan_table_load_file-Loads files path old in
    elim (Bool-cases (is_ok s)) [
      | inl e ↦ rw (e) (ground (arith, h, e))
      | inr e ↦ rw (e) (load_first-Loads files paths t)
    ]

-- For all files, names and contents of the table, `lcc_fan_table_load_named` either fails or gives, with
-- LCC_OK, a table that has 16 points in each curve and passes `lcc_validate_fan_table`, from whichever
-- JSON file, profile document or demo table it takes it.
pub fan_table_load_named-Loads :
    (files : Files) (name : Text) (old : FanTable) → Loads (fan_table_load_named files name old)
unfolding fan_table_load_named
fan_table_load_named-Loads files name old = elim (Bool-cases (is_empty name)) [
  | inl e ↦ rw (e) (inl refl)
  | inr e ↦ elim (Bool-cases (is_same name (literal "demo"))) [
    | inl d ↦ rw (e, d) (inr (fan_table_build_demo-valid old name e))
    | inr d ↦ rw (e, d) (load_first-Loads files _ old)
  ]
]
