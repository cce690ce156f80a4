-- ===== src/Tests/Plans.antt =====
-- The theorems on fan tables and plans at concrete tables and documents.
use kuangshi16pro_series_gm.Prelude.{◌≡◌, ◌≤◌, ◌⊎◌, ◌↔◌, refl, true, false, some, [], length}
use kuangshi16pro_series_gm.Text.{Text, literal, is_empty}
use kuangshi16pro_series_gm.Status.{Status, is_ok}
use kuangshi16pro_series_gm.State.{Mode}
use kuangshi16pro_series_gm.Fan.{
  FanTable, IsTable, validate_fan_table, fan_table_build_demo, build_fan_plan,
}
use kuangshi16pro_series_gm.Fan.Valid.{IsCurve, validate_fan_table_iff}
use kuangshi16pro_series_gm.Fan.Demo.{fan_table_build_demo-valid}
use kuangshi16pro_series_gm.Fan.Program.{fan_program, build_fan_plan-eq-program}
use kuangshi16pro_series_gm.Fan.Window.{addresses, ascending, build_fan_plan_window}
use kuangshi16pro_series_gm.Profile.{
  ProfileDocument, mode_name, mode_from_string, build_profile_plan,
}
use kuangshi16pro_series_gm.Profile.Document.{
  IsSound, document_program, mode_from_string_iff, build_profile_plan-eq-program,
}
use kuangshi16pro_series_gm.Tests.{two_limits}

abbrev blank : FanTable
blank = record { name = []; activated = false; fan_control_respective = false; cpu = []; gpu = [] }

abbrev demo_name : Text
demo_name = literal "demo"

demo_name_given : is_empty demo_name ≡ false
unfolding literal
demo_name_given = refl

fan_table_build_demo-valid_example :
    let (s, d) = fan_table_build_demo blank demo_name in
    (s ≡ Status.ok) × IsTable d × (validate_fan_table d ≡ Status.ok)
fan_table_build_demo-valid_example = fan_table_build_demo-valid blank demo_name demo_name_given

abbrev demo : FanTable
demo = (fan_table_build_demo blank demo_name).1

demo-IsTable : IsTable demo
demo-IsTable = fan_table_build_demo-valid_example.1

demo_valid : validate_fan_table demo ≡ Status.ok
demo_valid = fan_table_build_demo-valid_example.2

validate_fan_table_iff_example :
    (validate_fan_table demo ≡ Status.ok)
    ↔ ((is_empty demo.name ≡ false) × IsCurve demo.cpu × IsCurve demo.gpu)
validate_fan_table_iff_example = validate_fan_table_iff demo demo-IsTable

build_fan_plan-eq-program_example :
    (build_fan_plan demo [] ≡ (Status.ok, fan_program demo)) × (length (fan_program demo) ≡ 100)
build_fan_plan-eq-program_example = build_fan_plan-eq-program demo demo-IsTable [] demo_valid

build_fan_plan_window_example : addresses (build_fan_plan demo []).1 ≡ ascending 0x0F00 96
build_fan_plan_window_example = build_fan_plan_window demo demo-IsTable [] demo_valid

abbrev turbo_document : ProfileDocument
turbo_document = record {
  has_mode = true;
  mode = Mode.turbo;
  has_power_limits = true;
  power_limits = two_limits;
  has_fan_table = true;
  fan_table = demo;
}

turbo_document-IsSound : IsSound turbo_document
turbo_document-IsSound = record {
  given = refl;
  limits = λ _. refl;
  table = demo-IsTable;
  valid = λ _. demo_valid;
}

build_profile_plan-eq-program_example :
    (build_profile_plan turbo_document [] ≡ (Status.ok, document_program turbo_document))
    × (length (document_program turbo_document) ≤ 110)
build_profile_plan-eq-program_example =
    build_profile_plan-eq-program turbo_document [] turbo_document-IsSound

mode_from_string_iff_example :
    (mode_from_string (some (mode_name Mode.turbo)) Mode.office ≡ (Status.ok, Mode.turbo))
    × (let (s, found) = mode_from_string (some (literal "quiet")) Mode.office in
        ((is_ok s ≡ true) × (literal "quiet" ≡ mode_name found))
        ⊎ ((is_ok s ≡ false) × (found ≡ Mode.office)))
mode_from_string_iff_example = mode_from_string_iff (literal "quiet") Mode.office Mode.turbo
