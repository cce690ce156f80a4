-- ===== src/Tests/Loader.antt =====
-- The theorems on the loader at concrete values.
use kuangshi16pro_series_gm.Prelude.{◌≡◌, true, false, [], arith}
use kuangshi16pro_series_gm.Text.{Text, literal}
use kuangshi16pro_series_gm.Fan.{FanTable}
use kuangshi16pro_series_gm.Loader.Values.{Files, opened}
use kuangshi16pro_series_gm.Loader.Json.{scan_objects}
use kuangshi16pro_series_gm.Loader.Named.{fan_table_load_named}
use kuangshi16pro_series_gm.Loader.Rounds.{ends, scan_objects-ends}
use kuangshi16pro_series_gm.Loader.Valid.{Loads, fan_table_load_named-Loads}

abbrev one_point : Text
one_point = literal "{\"up\": 40, \"down\": 37, \"duty\": 20}]"

-- Every path opens a file that is not a table.
abbrev text_files : Files
text_files path = opened one_point false

abbrev no_table : FanTable
no_table = record {
  name = [];
  activated = false;
  fan_control_respective = false;
  cpu = [];
  gpu = [];
}

scan_objects-ends_example :
    (ends (scan_objects 20 one_point []) ≡ true)
    × (scan_objects 20 one_point [] ≡ scan_objects 17 one_point [])
scan_objects-ends_example = scan_objects-ends 20 one_point (omega arith)

fan_table_load_named-Loads_example :
    Loads (fan_table_load_named text_files (literal "quiet") no_table)
fan_table_load_named-Loads_example =
    fan_table_load_named-Loads text_files (literal "quiet") no_table
