-- ===== src/Daemon.antt =====
-- src/daemon/manager.c: the start of the daemon and the operations that it offers. `detect` is the part
-- of `lcc_capabilities_detect_json` that the manager sees: from the selected backend, its capabilities,
-- a path and what the buffer held, a status and what the buffer then holds (`Detect.detect_json` is one). `uninit` is the content of
-- the results that the source does not initialise.
pub mod Reachable
pub mod Detected
use kuangshi16pro_series_gm.Prelude.{
  ℕ, Bool, true, false, Option, none, some, List, [], ◌∷◌, if◌then◌else◌,
}
use kuangshi16pro_series_gm.Text.{Text, literal, is_empty, fit}
use kuangshi16pro_series_gm.Status.{Status, is_ok}
use kuangshi16pro_series_gm.State.{PowerLimits, zero_snapshot}
use kuangshi16pro_series_gm.Backend.{
  Capabilities, BackendResult, Backend, backend_name, backend_probe,
}
use kuangshi16pro_series_gm.Manager.{Manager}
use kuangshi16pro_series_gm.Request.{Request}
use kuangshi16pro_series_gm.Transaction.{refresh_state, execute}
use kuangshi16pro_series_gm.Render.Document.{render_json, render_thermal_json}

abbrev pub Detect : Type 0
Detect = Text → Capabilities → Text → Text → Status × Text

-- What `memset` to 0 leaves.
abbrev pub zero_capabilities : Capabilities
zero_capabilities = record {
  can_read_state = false;
  can_apply_profile = false;
  can_apply_mode = false;
  can_apply_power_limits = false;
  can_apply_fan_table = false;
  can_apply_fan_boost = false;
  has_platform_profile = false;
  has_powercap = false;
  needs_reboot_for_mux = false;
}

-- `default_capability_paths`
abbrev pub default_capability_paths : List Text
default_capability_paths =
    literal "data/capabilities/gm6px0x.json"
    ∷ literal "kuangshi16pro-lcc/data/capabilities/gm6px0x.json"
    ∷ literal "/usr/share/kuangshi16pro-lcc/data/capabilities/gm6px0x.json"
    ∷ []

-- `fallback_capabilities_json`
abbrev pub fallback_capabilities_json : Text
fallback_capabilities_json =
    literal
      "{\"model\":\"GM6PX0X\",\"service\":\"lccd\",\"backend_order\":[\"standard\",\"amw0\",\"uefi\"],\"features\":{\"fan_table_1p5\":true,\"smart_apc\":true,\"gpu_mux\":\"experimental\"}}"

module _ {C : Type 0} where
  -- `set_default_capabilities`, into a buffer of LCC_MANAGER_JSON_MAX bytes.
  unfoldable pub set_default_capabilities : Manager C → Manager C
  set_default_capabilities m = record m { capabilities_json = fit 4096 fallback_capabilities_json }

  -- The name that the capabilities are detected for.
  abbrev pub selected_or_name : Manager C → Text
  selected_or_name m =
      if is_empty m.state_cache.backend_selected
      then backend_name m.backend
      else m.state_cache.backend_selected

  -- A detection at one path: whether it succeeded, and the manager with the buffer as it is left.
  unfoldable pub detect_at : Detect → Text → Manager C → Bool × Manager C
  detect_at detect path m =
      let (s, json) = detect (selected_or_name m) m.backend_capabilities path m.capabilities_json in
      let read = record m { capabilities_json = json } in
      if is_ok s then (true, record read { capabilities_path = fit 256 path }) else (false, read)

  -- The loop over the default paths, and what follows it.
  unfoldable pub detect_first : Detect → List Text → Manager C → Manager C
  detect_first detect [] m = set_default_capabilities (record m { capabilities_path = [] })
  detect_first detect (path ∷ paths) m =
      let (found, m') = detect_at detect path m in
      let rest = detect_first detect paths m' in if found then m' else rest

  -- `init_capabilities`, which always succeeds.
  unfoldable pub init_capabilities : Detect → Option Text → Manager C → Manager C
  init_capabilities detect none m = detect_first detect default_capability_paths m
  init_capabilities detect (some path) m =
      let (found, m') = detect_at detect path m in if found then m' else set_default_capabilities m'

  -- The manager before the probe.
  abbrev pub blank : Backend C → Manager C
  blank b = record {
    backend = b;
    backend_capabilities = zero_capabilities;
    state_cache = zero_snapshot;
    capabilities_path = [];
    capabilities_json = [];
    log = [];
  }

  -- `lcc_manager_init`
  unfoldable pub manager_init :
      Detect → BackendResult → Backend C → Option Text → Status × Manager C
  manager_init detect uninit b path =
      let (s, caps, _, b') = backend_probe b zero_capabilities uninit in
      let probed = record (blank b') { backend_capabilities = caps } in
      let (s', read) = refresh_state uninit probed in
      if is_ok s
      then if is_ok s' then (Status.ok, init_capabilities detect path read) else (s', read)
      else (s, probed)

  -- `lcc_manager_set_mode`
  unfoldable pub manager_set_mode : BackendResult → Manager C → Option Text → Status × Manager C
  manager_set_mode uninit m name = execute uninit m (Request.set_mode name)

  -- `lcc_manager_set_profile`
  unfoldable pub manager_set_profile : BackendResult → Manager C → Option Text → Status × Manager C
  manager_set_profile uninit m name = execute uninit m (Request.set_profile name)

  -- `lcc_manager_apply_fan_table`
  unfoldable pub manager_apply_fan_table :
      BackendResult → Manager C → Option Text → Status × Manager C
  manager_apply_fan_table uninit m name = execute uninit m (Request.apply_fan_table name)

  -- `lcc_manager_set_fan_boost`
  unfoldable pub manager_set_fan_boost : BackendResult → Manager C → Bool → Status × Manager C
  manager_set_fan_boost uninit m enabled = execute uninit m (Request.set_fan_boost enabled)

  -- `lcc_manager_set_power_limits`
  unfoldable pub manager_set_power_limits :
      BackendResult → Manager C → Option PowerLimits → Status × Manager C
  manager_set_power_limits uninit m limits = execute uninit m (Request.set_power_limits limits)

  -- `lcc_manager_capabilities_json`
  unfoldable pub manager_capabilities_json : Manager C → Text
  manager_capabilities_json m =
      if is_empty m.capabilities_json then fallback_capabilities_json else m.capabilities_json

  -- `lcc_manager_get_state_json` into a buffer of n bytes, n > 0.
  unfoldable pub manager_get_state_json : Manager C → ℕ → Text → Status × Text
  manager_get_state_json m n buffer = render_json m.state_cache m.backend_capabilities n buffer

  -- `lcc_manager_get_thermal_json`
  unfoldable pub manager_get_thermal_json : Manager C → ℕ → Status × Text
  manager_get_thermal_json m n = render_thermal_json m.state_cache n
