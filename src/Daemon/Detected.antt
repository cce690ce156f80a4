-- ===== src/Daemon/Detected.antt =====
-- src/daemon/manager.c over src/core/capabilities/detect.c: which file of the model the daemon uses.
use kuangshi16pro_series_gm.Prelude.{◌<◌, ◌≡◌, refl, true, false, Option, none, some, length}
use kuangshi16pro_series_gm.Text.{Text, literal, is_empty, fit}
use kuangshi16pro_series_gm.Manager.{Manager}
use kuangshi16pro_series_gm.Loader.Values.{Files}
use kuangshi16pro_series_gm.Detect.{model_map_of, capabilities_text, detect_json}
use kuangshi16pro_series_gm.Detect.Fits.{detect_json-fits}
use kuangshi16pro_series_gm.Daemon.{selected_or_name, detect_at, detect_first, init_capabilities}

-- The path that is given, or the first of the default ones.
abbrev pub path_used : Option Text → Text
path_used none = literal "data/capabilities/gm6px0x.json"
path_used (some path) = path

module _ {C : Type 0} (files : Files) where
  -- The manager with the text of the capabilities for a path, and the path.
  abbrev pub detected : Text → Manager C → Manager C
  detected path m = record m {
    capabilities_json =
        capabilities_text (selected_or_name m) m.backend_capabilities (model_map_of (files path));
    capabilities_path = fit 256 path;
  }

  detect_at-fits :
      (m : Manager C) (path : Text)
      → is_empty (selected_or_name m) ≡ false
      → length (selected_or_name m) < 1024
      → detect_at (detect_json files 4096) path m ≡ (true, detected path m)
  unfolding detect_at
  detect_at-fits m path e h =
      rw
        (detect_json-fits files (selected_or_name m) m.backend_capabilities path m.capabilities_json
          e h)
        refl

  -- Where the selected backend has a name, of less than 1024 bytes, the start takes the first path it
  -- looks at, the one that is given or else the first of the three default paths, whatever the files
  -- hold and also if no file can be opened: the text of the capabilities is the one made from the file
  -- of that path, complete in its buffer, and that path is recorded. The other default paths and the
  -- fixed text of the capabilities are not used.
  pub init_capabilities-detects :
      (m : Manager C) (path : Option Text)
      → is_empty (selected_or_name m) ≡ false
      → length (selected_or_name m) < 1024
      → init_capabilities (detect_json files 4096) path m ≡ detected (path_used path) m
  unfolding init_capabilities detect_first
  init_capabilities-detects m none e h = rw (detect_at-fits m (path_used none) e h) refl
  init_capabilities-detects m (some path) e h = rw (detect_at-fits m path e h) refl
