-- ===== src/Tests/Detect.antt =====
-- The theorem on the detection of the capabilities where no file can be opened.
use kuangshi16pro_series_gm.Prelude.{◌≡◌, refl, none, arith}
use kuangshi16pro_series_gm.Backend.{backend_name}
use kuangshi16pro_series_gm.Loader.Values.{Files, closed}
use kuangshi16pro_series_gm.Detect.{detect_json}
use kuangshi16pro_series_gm.Daemon.{init_capabilities}
use kuangshi16pro_series_gm.Text.{literal}
use kuangshi16pro_series_gm.Daemon.Detected.{path_used, detected, init_capabilities-detects}
use kuangshi16pro_series_gm.Tests.{manager, all_capable}

abbrev no_files : Files
no_files path = closed

init_capabilities-detects_example :
    init_capabilities (detect_json no_files 4096) none (manager all_capable)
    ≡ detected no_files (path_used none) (manager all_capable)
unfolding literal backend_name
init_capabilities-detects_example =
    init_capabilities-detects no_files (manager all_capable) none refl (omega arith)
