-- ===== src/Render/Document.antt =====
-- src/core/state/model.c: the whole document (`lcc_state_render_json`), and the one of the thermal values
-- (`lcc_state_render_thermal_json`).
use kuangshi16pro_series_gm.Prelude.{ℕ, Bool, Option, none, some, [], ◌∷◌, if◌then◌else◌}
use kuangshi16pro_series_gm.Text.{Text, literal, fit}
use kuangshi16pro_series_gm.Status.{Status, is_ok, status_string}
use kuangshi16pro_series_gm.State.{StateTarget, TransactionState, idle, pending, failed, Snapshot}
use kuangshi16pro_series_gm.Backend.{Capabilities}
use kuangshi16pro_series_gm.Amw0.Packet.{print_to}
use kuangshi16pro_series_gm.Render.{
  ◌>>=◌, join, null, flag, append_number, append_bool, append_target_json, quoted, string_text,
  append_string, append_execution_json, append_effective_meta_json,
}

-- `transaction_state_name`; its default is not reached.
unfoldable pub transaction_state_name : TransactionState → Text
transaction_state_name idle = literal "idle"
transaction_state_name pending = literal "pending"
transaction_state_name failed = literal "failed"

-- A target that may be missing.
unfoldable pub append_given_target : ℕ → Bool → StateTarget → Text
append_given_target n given t = if given then append_target_json n t else fit n null

-- A status other than LCC_OK, by its text.
unfoldable pub error_text : Status → Text
error_text s = if is_ok s then null else quoted (status_string s)

-- The parts of the document that are printed before it.
pub record Parts : Type 0 where
  pub backend_selected : Text
  pub fallback_reason : Text
  pub execution : Text
  pub requested : Text
  pub effective : Text
  pub effective_meta : Text
  pub pending : Text
  pub last_stage : Text
  pub last_backend : Text
  pub last_error : Text
  pub last_write : Text
  pub last_target : Text
  pub operation : Text
  pub stage : Text
  pub error : Text
  pub cpu_temp : Text
  pub gpu_temp : Text
  pub cpu_fan : Text
  pub gpu_fan : Text
  pub fan_level : Text

unfoldable pub support_text : Capabilities → Text
support_text c = join (
    literal "\"support\":{\"read_state\":"
    ∷ flag c.can_read_state
    ∷ literal ",\"apply_profile\":"
    ∷ flag c.can_apply_profile
    ∷ literal ",\"apply_mode\":"
    ∷ flag c.can_apply_mode
    ∷ literal ",\"apply_power_limits\":"
    ∷ flag c.can_apply_power_limits
    ∷ literal ",\"apply_fan_table\":"
    ∷ flag c.can_apply_fan_table
    ∷ literal ",\"apply_fan_boost\":"
    ∷ flag c.can_apply_fan_boost
    ∷ literal ",\"platform_profile\":"
    ∷ flag c.has_platform_profile
    ∷ literal ",\"powercap\":"
    ∷ flag c.has_powercap
    ∷ literal ",\"mux_reboot_required\":"
    ∷ flag c.needs_reboot_for_mux
    ∷ literal "}"
    ∷ [])

unfoldable pub document_text : Snapshot → Capabilities → Parts → Text
document_text s c p = join (
    literal "{\"service\":\"lccd\",\"backend\":\""
    ∷ s.backend_name
    ∷ literal "\",\"backend_selected\":"
    ∷ p.backend_selected
    ∷ literal ",\"backend_fallback_reason\":"
    ∷ p.fallback_reason
    ∷ literal ",\"execution\":"
    ∷ p.execution
    ∷ literal ",\"hardware_write\":"
    ∷ flag s.hardware_write
    ∷ literal ","
    ∷ support_text c
    ∷ literal ",\"requested\":"
    ∷ p.requested
    ∷ literal ",\"effective\":"
    ∷ p.effective
    ∷ literal ",\"effective_meta\":"
    ∷ p.effective_meta
    ∷ literal ",\"pending\":"
    ∷ p.pending
    ∷ literal ",\"last_apply_stage\":"
    ∷ p.last_stage
    ∷ literal ",\"last_apply_backend\":"
    ∷ p.last_backend
    ∷ literal ",\"last_apply_error\":"
    ∷ p.last_error
    ∷ literal ",\"last_apply_hardware_write\":"
    ∷ p.last_write
    ∷ literal ",\"last_apply_target\":"
    ∷ p.last_target
    ∷ literal ",\"transaction\":{\"state\":\""
    ∷ transaction_state_name s.transaction.state
    ∷ literal "\",\"operation\":"
    ∷ p.operation
    ∷ literal ",\"stage\":"
    ∷ p.stage
    ∷ literal ",\"last_error\":"
    ∷ p.error
    ∷ literal "},\"thermal\":{\"cpu_temp_c\":"
    ∷ p.cpu_temp
    ∷ literal ",\"gpu_temp_c\":"
    ∷ p.gpu_temp
    ∷ literal ",\"cpu_fan_rpm\":"
    ∷ p.cpu_fan
    ∷ literal ",\"gpu_fan_rpm\":"
    ∷ p.gpu_fan
    ∷ literal ",\"vendor_fan_level\":"
    ∷ p.fan_level
    ∷ literal "}}"
    ∷ [])

-- All parts, or `none` where one that is tested does not fit.
unfoldable pub print_parts : Snapshot → Option Parts
print_parts s = do
  effective_meta ← append_effective_meta_json 1024 s.effective_meta
  execution ← append_execution_json 320 s.execution
  selected ← append_string 64 s.backend_selected
  reason ← append_string 256 s.backend_fallback_reason
  last_stage ← append_string 128 s.last_apply.stage
  last_backend ← append_string 64 s.last_apply.backend
  some (record {
    backend_selected = selected;
    fallback_reason = reason;
    execution = execution;
    requested = append_target_json 256 s.requested;
    effective = append_target_json 256 s.effective;
    effective_meta = effective_meta;
    pending = append_given_target 256 s.transaction.has_pending_target s.transaction.pending_target;
    last_stage = last_stage;
    last_backend = last_backend;
    last_error = fit 64 (error_text s.last_apply.error);
    last_write = append_bool 16 s.last_apply.has_hardware_write s.last_apply.hardware_write;
    last_target = append_given_target 256 s.last_apply.has_target s.last_apply.target;
    operation = fit 64 (string_text s.transaction.operation);
    stage = fit 128 (string_text s.transaction.stage);
    error = fit 64 (error_text s.transaction.last_error);
    cpu_temp = append_number 32 s.thermal.has_cpu_temp_c s.thermal.cpu_temp_c;
    gpu_temp = append_number 32 s.thermal.has_gpu_temp_c s.thermal.gpu_temp_c;
    cpu_fan = append_number 32 s.thermal.has_cpu_fan_rpm s.thermal.cpu_fan_rpm;
    gpu_fan = append_number 32 s.thermal.has_gpu_fan_rpm s.thermal.gpu_fan_rpm;
    fan_level = append_number 32 s.thermal.has_vendor_fan_level s.thermal.vendor_fan_level;
  })

-- `lcc_state_render_json` into a buffer of n bytes, n > 0, that holds `buffer`.
unfoldable pub render_json : Snapshot → Capabilities → ℕ → Text → Status × Text
render_json s c n buffer = elim (print_parts s) [
  | none ↦ (Status.io, buffer)
  | some p ↦ print_to n (document_text s c p)
]

unfoldable pub thermal_text : Snapshot → Text → Text → Text → Text → Text → Text
thermal_text s cpu_temp gpu_temp cpu_fan gpu_fan fan_level = join (
    literal "{\"service\":\"lccd\",\"source\":\""
    ∷ s.backend_name
    ∷ literal "\",\"profile\":\""
    ∷ s.effective.profile
    ∷ literal "\",\"cpu_temp_c\":"
    ∷ cpu_temp
    ∷ literal ",\"gpu_temp_c\":"
    ∷ gpu_temp
    ∷ literal ",\"cpu_fan_rpm\":"
    ∷ cpu_fan
    ∷ literal ",\"gpu_fan_rpm\":"
    ∷ gpu_fan
    ∷ literal ",\"vendor_fan_level\":"
    ∷ fan_level
    ∷ literal "}"
    ∷ [])

-- `lcc_state_render_thermal_json`
unfoldable pub render_thermal_json : Snapshot → ℕ → Status × Text
render_thermal_json s n =
    let t = s.thermal in
    print_to n (
      thermal_text s (append_number 32 t.has_cpu_temp_c t.cpu_temp_c)
        (append_number 32 t.has_gpu_temp_c t.gpu_temp_c)
        (append_number 32 t.has_cpu_fan_rpm t.cpu_fan_rpm)
        (append_number 32 t.has_gpu_fan_rpm t.gpu_fan_rpm)
        (append_number 32 t.has_vendor_fan_level t.vendor_fan_level))
