-- ===== src/Manager.antt =====
-- src/daemon/manager.h: `lcc_manager_t`, the state of the daemon, with the log lines that it has
-- written (newest first). `backend` is never NULL: `lcc_manager_init` refuses that.
use kuangshi16pro_series_gm.Prelude.{List}
use kuangshi16pro_series_gm.Text.{Text}
use kuangshi16pro_series_gm.Status.{Status}
use kuangshi16pro_series_gm.State.{Snapshot}
use kuangshi16pro_series_gm.Backend.{Capabilities, Backend}

pub data Level : Type 0 where
  info warn error : Level

-- The arguments of the log line of `log_transaction_event`.
pub record LogEntry : Type 0 where
  pub level : Level
  pub operation : Text
  pub stage : Text
  pub backend : Text
  pub status : Status
  pub target : Text
  pub detail : Text

pub record Manager (C : Type 0) : Type 0 where
  pub backend : Backend C
  pub backend_capabilities : Capabilities
  pub state_cache : Snapshot
  pub capabilities_path : Text  -- char[256]
  pub capabilities_json : Text  -- char[LCC_MANAGER_JSON_MAX]
  pub log : List LogEntry
