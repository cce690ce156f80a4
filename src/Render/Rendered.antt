-- ===== src/Render/Rendered.antt =====
-- No part of the document of src/core/state/model.c is cut.
use kuangshi16pro_series_gm.Prelude.{
  ℕ, ◌+◌, ◌≤◌, ◌<◌, ◌≡◌, refl, Bool, true, false, some, arith, length, length-append, ap,
  if◌then◌else◌,
}
use kuangshi16pro_series_gm.Text.{Text, literal, fit, fit_short}
use kuangshi16pro_series_gm.Status.{Status, status_string}
use kuangshi16pro_series_gm.State.{StateTarget, Execution, EffectiveMeta, Snapshot}
use kuangshi16pro_series_gm.Backend.{Capabilities}
use kuangshi16pro_series_gm.Amw0.Packet.{print_to}
use kuangshi16pro_series_gm.Render.{
  join, null, number_text, bool_text, quoted, string_text, execution_text, append_execution_json,
  meta_text, append_effective_meta_json,
}
use kuangshi16pro_series_gm.Render.Whole.{
  whole_target, whole_execution, whole_component, whole_power_meta, whole_meta, TargetFits,
  ExecutionFits, MetaFits,
}
use kuangshi16pro_series_gm.Render.Fits.{
  append_number-whole, append_bool-whole, append_string-whole, append_name, name_text,
  string_text_short, append_target_json-whole, length-whole_component, append_component_json-whole,
  length-whole_power_meta, append_power_meta_json-whole,
}
use kuangshi16pro_series_gm.Render.Document.{
  append_given_target, error_text, Parts, document_text, print_parts, render_json,
}

length-execution_text :
    (a b c d e f : Text)
    → length (execution_text a b c d e f)
      ≡ length a + length b + length c + length d + length e + length f + 106
unfolding execution_text join literal
length-execution_text a b c d e f = simp (length-append) (omega arith)

append_execution_json-whole :
    (e : Execution) → ExecutionFits e → append_execution_json 320 e ≡ some (whole_execution e)
unfolding append_execution_json whole_execution
append_execution_json-whole e h =
    rw
      (
        append_name e.read_state h.read_state,
        append_name e.apply_profile h.apply_profile,
        append_name e.apply_mode h.apply_mode,
        append_name e.apply_power_limits h.apply_power_limits,
        append_name e.apply_fan_table h.apply_fan_table,
        append_name e.apply_fan_boost h.apply_fan_boost,
      )
      (ap some (
        fit_short 320 (whole_execution e) (
          omega (
            arith,
            length-execution_text (string_text e.read_state) (string_text e.apply_profile)
                (string_text e.apply_mode) (string_text e.apply_power_limits)
                (string_text e.apply_fan_table) (string_text e.apply_fan_boost),
            name_text e.read_state h.read_state,
            name_text e.apply_profile h.apply_profile,
            name_text e.apply_mode h.apply_mode,
            name_text e.apply_power_limits h.apply_power_limits,
            name_text e.apply_fan_table h.apply_fan_table,
            name_text e.apply_fan_boost h.apply_fan_boost,
          ))))

length-meta_text :
    (a b c d e f g : Text)
    → length (meta_text a b c d e f g)
      ≡ length a + length b + length c + length d + length e + length f + length g + 96
unfolding meta_text join literal
length-meta_text a b c d e f g = simp (length-append) (omega arith)

append_effective_meta_json-whole :
    (m : EffectiveMeta) → MetaFits m → append_effective_meta_json 1024 m ≡ some (whole_meta m)
unfolding append_effective_meta_json whole_meta
append_effective_meta_json-whole m h =
    rw
      (
        append_name m.source h.source,
        append_name m.freshness h.freshness,
        append_component_json-whole m.profile h.profile,
        append_component_json-whole m.fan_table h.fan_table,
        append_component_json-whole m.fan_boost h.fan_boost,
        append_power_meta_json-whole m h,
        append_component_json-whole m.thermal h.thermal,
      )
      (ap some (
        fit_short 1024 (whole_meta m) (
          omega (
            arith,
            length-meta_text (string_text m.source) (string_text m.freshness)
                (whole_component m.profile) (whole_component m.fan_table)
                (whole_component m.fan_boost) (whole_power_meta m) (whole_component m.thermal),
            name_text m.source h.source,
            name_text m.freshness h.freshness,
            length-whole_component m.profile h.profile,
            length-whole_component m.fan_table h.fan_table,
            length-whole_component m.fan_boost h.fan_boost,
            length-whole_power_meta m h,
            length-whole_component m.thermal h.thermal,
          ))))

-- The texts of a snapshot are shorter than their buffers.
pub record SnapshotFits (s : Snapshot) : Type 0 where
  pub backend_selected : length s.backend_selected < 32
  pub fallback_reason : length s.backend_fallback_reason < 192
  pub execution : ExecutionFits s.execution
  pub requested : TargetFits s.requested
  pub effective : TargetFits s.effective
  pub effective_meta : MetaFits s.effective_meta
  pub last_stage : length s.last_apply.stage < 96
  pub last_backend : length s.last_apply.backend < 32
  pub last_target : TargetFits s.last_apply.target
  pub operation : length s.transaction.operation < 32
  pub stage : length s.transaction.stage < 96
  pub pending : TargetFits s.transaction.pending_target

abbrev given_target : Bool → StateTarget → Text
given_target given t = if given then whole_target t else null

-- The document with every part whole.
abbrev pub whole_parts : Snapshot → Parts
whole_parts s = record {
  backend_selected = string_text s.backend_selected;
  fallback_reason = string_text s.backend_fallback_reason;
  execution = whole_execution s.execution;
  requested = whole_target s.requested;
  effective = whole_target s.effective;
  effective_meta = whole_meta s.effective_meta;
  pending = given_target s.transaction.has_pending_target s.transaction.pending_target;
  last_stage = string_text s.last_apply.stage;
  last_backend = string_text s.last_apply.backend;
  last_error = error_text s.last_apply.error;
  last_write = bool_text s.last_apply.has_hardware_write s.last_apply.hardware_write;
  last_target = given_target s.last_apply.has_target s.last_apply.target;
  operation = string_text s.transaction.operation;
  stage = string_text s.transaction.stage;
  error = error_text s.transaction.last_error;
  cpu_temp = number_text s.thermal.has_cpu_temp_c s.thermal.cpu_temp_c;
  gpu_temp = number_text s.thermal.has_gpu_temp_c s.thermal.gpu_temp_c;
  cpu_fan = number_text s.thermal.has_cpu_fan_rpm s.thermal.cpu_fan_rpm;
  gpu_fan = number_text s.thermal.has_gpu_fan_rpm s.thermal.gpu_fan_rpm;
  fan_level = number_text s.thermal.has_vendor_fan_level s.thermal.vendor_fan_level;
}

append_given_target-whole :
    (b : Bool) (t : StateTarget) → TargetFits t → append_given_target 256 b t ≡ given_target b t
unfolding append_given_target literal fit
append_given_target-whole true t h = append_target_json-whole t h
append_given_target-whole false t h = refl

fit_error : (s : Status) → fit 64 (error_text s) ≡ error_text s
unfolding error_text quoted join status_string literal fit
fit_error Status.ok = refl
fit_error Status.invalid_argument = refl
fit_error Status.io = refl
fit_error Status.not_found = refl
fit_error Status.permission = refl
fit_error Status.parse = refl
fit_error Status.range = refl
fit_error Status.not_supported = refl
fit_error Status.unimplemented = refl
fit_error Status.buffer_too_small = refl

fit_string :
    (k n : ℕ) (t : Text) → length t ≤ n → 2 ≤ n → n + 2 < k → fit k (string_text t) ≡ string_text t
fit_string k n t h m f = fit_short k (string_text t) (omega (arith, string_text_short t n h m, f))

print_parts-whole : (s : Snapshot) → SnapshotFits s → print_parts s ≡ some (whole_parts s)
unfolding print_parts
print_parts-whole s h =
    let t = s.thermal in
    rw
      (
        append_effective_meta_json-whole s.effective_meta h.effective_meta,
        append_execution_json-whole s.execution h.execution,
        append_name s.backend_selected h.backend_selected,
        append_string-whole 256 191 s.backend_fallback_reason (omega (arith, h.fallback_reason))
            (omega arith) (omega arith),
        append_string-whole 128 95 s.last_apply.stage (omega (arith, h.last_stage)) (omega arith)
            (omega arith),
        append_name s.last_apply.backend h.last_backend,
        append_target_json-whole s.requested h.requested,
        append_target_json-whole s.effective h.effective,
        append_given_target-whole s.transaction.has_pending_target s.transaction.pending_target
            h.pending,
        append_given_target-whole s.last_apply.has_target s.last_apply.target h.last_target,
        fit_error s.last_apply.error,
        fit_error s.transaction.last_error,
        append_bool-whole 16 s.last_apply.has_hardware_write s.last_apply.hardware_write
            (omega arith),
        fit_string 64 31 s.transaction.operation (omega (arith, h.operation)) (omega arith)
            (omega arith),
        fit_string 128 95 s.transaction.stage (omega (arith, h.stage)) (omega arith) (omega arith),
        append_number-whole 32 t.has_cpu_temp_c t.cpu_temp_c (omega arith),
        append_number-whole 32 t.has_gpu_temp_c t.gpu_temp_c (omega arith),
        append_number-whole 32 t.has_cpu_fan_rpm t.cpu_fan_rpm (omega arith),
        append_number-whole 32 t.has_gpu_fan_rpm t.gpu_fan_rpm (omega arith),
        append_number-whole 32 t.has_vendor_fan_level t.vendor_fan_level (omega arith),
      )
      refl

-- For a snapshot whose texts are shorter than their buffers, and any capabilities, none of the 20
-- buffers that `lcc_state_render_json` prints the parts of the document into is too small: it prints
-- the document made of the whole parts into the buffer that it is given, and returns LCC_OK if that
-- document fits there and LCC_ERR_BUFFER_TOO_SMALL if not.
pub render_json-whole :
    (s : Snapshot) (c : Capabilities) (n : ℕ) (buffer : Text)
    → SnapshotFits s
    → render_json s c n buffer ≡ print_to n (document_text s c (whole_parts s))
unfolding render_json
render_json-whole s c n buffer h = rw (render_json, print_parts-whole s h) refl
