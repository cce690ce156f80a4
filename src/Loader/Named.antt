-- ===== src/Loader/Named.antt =====
-- src/core/profile/loader.c: a fan table is loaded from a path, or by its name.
use kuangshi16pro_series_gm.Prelude.{Bool, none, some, List, [], ◌∷◌, ◌++◌, if◌then◌else◌}
use kuangshi16pro_series_gm.Text.{Text, literal, is_empty, fit, is_same}
use kuangshi16pro_series_gm.Status.{Status, is_ok}
use kuangshi16pro_series_gm.Scan.{split_last}
use kuangshi16pro_series_gm.Fan.{FanTable, fan_table_build_demo}
use kuangshi16pro_series_gm.Profile.{ProfileDocument}
use kuangshi16pro_series_gm.Loader.Values.{Files}
use kuangshi16pro_series_gm.Loader.Json.{parse_fan_table_json}
use kuangshi16pro_series_gm.Loader.Document.{blank_document, profile_document_load}

-- Whether a path ends in `.json` (`strrchr` from the last dot on).
abbrev pub is_json : Text → Bool
is_json path = elim (split_last b'.' path) [
  | none ↦ Bool.false
  | some (_, extension) ↦ is_same extension (literal "json")
]

-- The table of a profile document, if it has one.
abbrev pub table_of : Status × ProfileDocument → FanTable → Status × FanTable
table_of (s, d) old =
    if is_ok s
    then if d.has_fan_table then (Status.ok, d.fan_table) else (Status.parse, old)
    else (s, old)

-- `lcc_fan_table_load_file`. The content of its local `document` before the load is not used after it.
unfoldable pub fan_table_load_file : Files → Text → FanTable → Status × FanTable
fan_table_load_file files path table =
    if is_json path
    then parse_fan_table_json files path table
    else table_of (profile_document_load files path blank_document) table

abbrev prefixes : List Text
prefixes =
    literal "data/fan-tables/"
    ∷ literal "kuangshi16pro-lcc/data/fan-tables/"
    ∷ literal "/usr/share/kuangshi16pro-lcc/data/fan-tables/"
    ∷ []

-- The paths that `lcc_fan_table_load_named` tries, in a buffer of 512 bytes.
abbrev candidates : Text → List Text → List Text
candidates name [] = []
candidates name (p ∷ ps) =
    fit 512 (p ++ (name ++ literal ".json"))
    ∷ fit 512 (p ++ (name ++ literal ".ini"))
    ∷ candidates name ps

-- The loop over the candidates.
unfoldable pub load_first : Files → List Text → FanTable → Status × FanTable
load_first files [] table = (Status.not_found, table)
load_first files (path ∷ paths) table =
    let (s, t) = fan_table_load_file files path table in
    let rest = load_first files paths t in if is_ok s then (Status.ok, t) else rest

-- `lcc_fan_table_load_named`
unfoldable pub fan_table_load_named : Files → Text → FanTable → Status × FanTable
fan_table_load_named files name table =
    if is_empty name
    then (Status.invalid_argument, table)
    else if is_same name (literal "demo")
    then fan_table_build_demo table name
    else load_first files (candidates name prefixes) table
