-- ===== src/Detect/Fits.antt =====
-- The text of src/core/capabilities/detect.c fits its buffer, whatever the file of the model holds.
use kuangshi16pro_series_gm.Prelude.{
  ℕ, ◌+◌, ◌≤◌, ◌<◌, ◌≡◌, refl, Bool, true, false, Option, none, some, arith, leb, leb→le, lt→ltb,
  length, length-append, Bool-cases, inl, inr,
}
use kuangshi16pro_series_gm.Text.{Text, literal, is_empty, fit_short}
use kuangshi16pro_series_gm.Status.{Status, is_ok}
use kuangshi16pro_series_gm.Backend.{Capabilities}
use kuangshi16pro_series_gm.Loader.Values.{File, Files}
use kuangshi16pro_series_gm.Amw0.Packet.{print_to}
use kuangshi16pro_series_gm.Render.{join, flag}
use kuangshi16pro_series_gm.Detect.{
  ModelMap, model_map_defaults, quoted_value, put_value, parse_json_string, apply_json_overrides,
  load_model_file, model_map_of, capabilities_text, detect_json,
}

length-put_value :
    (n : ℕ) (value : Option Text) (buffer : Text)
    → length buffer < n
    → length (put_value n value buffer) < n
unfolding put_value
length-put_value n none buffer h = h
length-put_value n (some value) buffer h = elim (Bool-cases (leb (length value + 1) n)) [
  | inl e ↦ rw (e) (omega (arith, leb→le (length value + 1) n e))
  | inr e ↦ rw (e) h
]

-- The texts of a map keep to their buffers.
pub record ModelFits (m : ModelMap) : Type 0 where
  pub model : length m.model < 32
  pub gpu_mux : length m.gpu_mux < 32

model_map_defaults-Fits : ModelFits model_map_defaults
unfolding literal
model_map_defaults-Fits = record { model = omega arith; gpu_mux = omega arith }

apply_json_overrides-Fits :
    (json : Text) (m : ModelMap) → ModelFits m → ModelFits (apply_json_overrides json m)
unfolding apply_json_overrides parse_json_string
apply_json_overrides-Fits json m h = record {
  model = length-put_value 32 (quoted_value json (literal "\"model\"")) m.model h.model;
  gpu_mux = length-put_value 32 (quoted_value json (literal "\"gpu_mux\"")) m.gpu_mux h.gpu_mux;
}

pub model_map_of-Fits : (file : File) → ModelFits (model_map_of file)
unfolding model_map_of
model_map_of-Fits file =
    let (s, json) = load_model_file 2048 file in
    elim (Bool-cases (is_ok s)) [
      | inl e ↦ rw (e) (apply_json_overrides-Fits json model_map_defaults model_map_defaults-Fits)
      | inr e ↦ rw (e) model_map_defaults-Fits
    ]

length-flag : (b : Bool) → length (flag b) ≤ 5
unfolding literal
length-flag true = omega arith
length-flag false = omega arith

pub length-capabilities_text :
    (t : Text) (c : Capabilities) (m : ModelMap)
    → ModelFits m
    → length (capabilities_text t c m) ≤ length t + 600
unfolding capabilities_text join literal
length-capabilities_text t c m h = simp (length-append) (
    omega (
      arith,
      h.model,
      h.gpu_mux,
      length-flag c.can_read_state,
      length-flag c.can_apply_profile,
      length-flag c.can_apply_mode,
      length-flag c.can_apply_power_limits,
      length-flag c.can_apply_fan_table,
      length-flag c.can_apply_fan_boost,
      length-flag m.platform_profile_preferred,
      length-flag m.platform_profile_fallback_required,
      length-flag c.has_platform_profile,
      length-flag c.has_powercap,
      length-flag m.feature_fan_table_1p5,
      length-flag m.feature_smart_apc,
      length-flag c.needs_reboot_for_mux,
    ))

pub detect_json-fits :
    (files : Files) (t : Text) (c : Capabilities) (path buffer : Text)
    → is_empty t ≡ false
    → length t < 1024
    → detect_json files 4096 t c path buffer
      ≡ (Status.ok, capabilities_text t c (model_map_of (files path)))
unfolding detect_json print_to
detect_json-fits files t c path buffer e h =
    let text = capabilities_text t c (model_map_of (files path)) in
    let short : length text < 4096 = omega (
      arith,
      h,
      length-capabilities_text t c (model_map_of (files path)) (model_map_of-Fits (files path)),
    ) in
    rw (detect_json, e, print_to, lt→ltb (length text) 4096 short, fit_short 4096 text short) refl
