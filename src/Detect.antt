-- ===== src/Detect.antt =====
-- src/core/capabilities/detect.c and src/core/capabilities/model-map.c: the text of the capabilities,
-- from what was probed and from the file of the model. `lcc_capabilities_detect_json` is `detect_json`.
pub mod Fits
use kuangshi16pro_series_gm.Prelude.{
  ℕ, ◌+◌, Bool, true, false, ◌||◌, Option, none, some, [], ◌∷◌, ltb, leb, ◌==◌, if◌then◌else◌,
  length,
}
use kuangshi16pro_series_gm.Text.{Text, literal, is_empty}
use kuangshi16pro_series_gm.Status.{Status, is_ok}
use kuangshi16pro_series_gm.Scan.{
  c_string, find_char, until_char, has_prefix, find_text, after_first,
}
use kuangshi16pro_series_gm.Backend.{Capabilities}
use kuangshi16pro_series_gm.Loader.Values.{File, closed, opened, Files}
use kuangshi16pro_series_gm.Amw0.Packet.{print_to}
use kuangshi16pro_series_gm.Render.{join, flag}

-- lcc_model_map_t; both texts have buffers of 32 bytes.
pub record ModelMap : Type 0 where
  pub model : Text
  pub platform_profile_preferred : Bool
  pub platform_profile_fallback_required : Bool
  pub feature_fan_table_1p5 : Bool
  pub feature_smart_apc : Bool
  pub gpu_mux : Text

-- `lcc_model_map_seed_defaults`
abbrev pub model_map_defaults : ModelMap
model_map_defaults = record {
  model = literal "GM6PX0X";
  platform_profile_preferred = true;
  platform_profile_fallback_required = true;
  feature_fan_table_1p5 = true;
  feature_smart_apc = true;
  gpu_mux = literal "experimental";
}

-- `load_text_file` of detect.c, into a buffer of n bytes.
unfoldable pub load_model_file : ℕ → File → Status × Text
load_model_file n closed = (Status.not_found, [])
load_model_file n (opened bytes broken) =
    if ltb (length bytes + 1) n
    then if broken then (Status.io, []) else (Status.ok, c_string bytes)
    else (Status.buffer_too_small, [])

abbrev is_blank : ℕ → Bool
is_blank c = c == b' ' || c == b'\n' || c == b'\t'

unfoldable pub skip_blanks : Text → Text
skip_blanks [] = []
skip_blanks (c ∷ cs) = let rest = skip_blanks cs in if is_blank c then rest else c ∷ cs

-- `parse_json_bool`; the value is left alone where there is none.
unfoldable pub parse_json_bool : Text → Text → Bool → Bool
parse_json_bool json key value = elim (find_text key json) [
  | none ↦ value
  | some match ↦ elim (find_char b':' match) [
    | none ↦ value
    | some colon ↦
        let cursor = skip_blanks (after_first colon) in
        if has_prefix (literal "true") cursor
        then true
        else if has_prefix (literal "false") cursor
        then false
        else value
  ]
]

-- The text of a key, up to its closing quote.
unfoldable pub quoted_value : Text → Text → Option Text
quoted_value json key = elim (find_text key json) [
  | none ↦ none
  | some match ↦ elim (find_char b':' match) [
    | none ↦ none
    | some colon ↦ elim (find_char b'"' colon) [
      | none ↦ none
      | some quote ↦ elim (find_char b'"' (after_first quote)) [
        | none ↦ none
        | some _ ↦ some (until_char b'"' (after_first quote))
      ]
    ]
  ]
]

-- A text into a buffer of n bytes, which is left alone where there is none that fits.
unfoldable pub put_value : ℕ → Option Text → Text → Text
put_value n none buffer = buffer
put_value n (some value) buffer = if leb (length value + 1) n then value else buffer

-- `parse_json_string`
unfoldable pub parse_json_string : Text → Text → ℕ → Text → Text
parse_json_string json key n buffer = put_value n (quoted_value json key) buffer

-- `apply_json_overrides`
unfoldable pub apply_json_overrides : Text → ModelMap → ModelMap
apply_json_overrides json m = record {
  model = parse_json_string json (literal "\"model\"") 32 m.model;
  platform_profile_preferred =
      parse_json_bool json (literal "\"preferred\"") m.platform_profile_preferred;
  platform_profile_fallback_required =
      parse_json_bool json (literal "\"fallback_required\"") m.platform_profile_fallback_required;
  feature_fan_table_1p5 =
      parse_json_bool json (literal "\"fan_table_1p5\"") m.feature_fan_table_1p5;
  feature_smart_apc = parse_json_bool json (literal "\"smart_apc\"") m.feature_smart_apc;
  gpu_mux = parse_json_string json (literal "\"gpu_mux\"") 32 m.gpu_mux;
}

-- The map of the model with what its file overrides; a file that cannot be read overrides nothing.
unfoldable pub model_map_of : File → ModelMap
model_map_of file =
    let (s, json) = load_model_file 2048 file in
    if is_ok s then apply_json_overrides json model_map_defaults else model_map_defaults

unfoldable pub capabilities_text : Text → Capabilities → ModelMap → Text
capabilities_text selected c m = join (
    literal "{\"model\":\""
    ∷ m.model
    ∷ literal "\",\"service\":\"lccd\",\"backend_selected\":\""
    ∷ selected
    ∷ literal "\",\"support\":{\"read_state\":"
    ∷ flag c.can_read_state
    ∷ literal ",\"apply_profile\":"
    ∷ flag c.can_apply_profile
    ∷ literal ",\"apply_mode\":"
    ∷ flag c.can_apply_mode
    ∷ literal ",\"apply_power_limits\":"
    ∷ flag c.can_apply_power_limits
    ∷ literal ",\"apply_fan_table\":"
    ∷ flag c.can_apply_fan_table
    ∷ literal ",\"apply_fan_boost\":"
    ∷ flag c.can_apply_fan_boost
    ∷ literal "},\"platform_profile\":{\"preferred\":"
    ∷ flag m.platform_profile_preferred
    ∷ literal ",\"fallback_required\":"
    ∷ flag m.platform_profile_fallback_required
    ∷ literal ",\"available\":"
    ∷ flag c.has_platform_profile
    ∷ literal "},\"powercap\":{\"available\":"
    ∷ flag c.has_powercap
    ∷ literal "},\"features\":{\"fan_table_1p5\":"
    ∷ flag m.feature_fan_table_1p5
    ∷ literal ",\"smart_apc\":"
    ∷ flag m.feature_smart_apc
    ∷ literal ",\"gpu_mux\":\""
    ∷ m.gpu_mux
    ∷ literal "\",\"needs_reboot_for_mux\":"
    ∷ flag c.needs_reboot_for_mux
    ∷ literal "}}"
    ∷ [])

-- `lcc_capabilities_detect_json` with a path that is given, into a buffer of n bytes, n > 0, that holds
-- `buffer`.
unfoldable pub detect_json : Files → ℕ → Text → Capabilities → Text → Text → Status × Text
detect_json files n selected c path buffer =
    if is_empty selected
    then (Status.invalid_argument, buffer)
    else print_to n (capabilities_text selected c (model_map_of (files path)))
