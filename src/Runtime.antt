-- ===== src/Runtime.antt =====
-- src/runtime.rs: what the service shows of its ingestion, and the policy of a reset.
use signalguard_rs.Common.{String, Bool, false, not, ◌&&◌, Option, none, some, List}
use signalguard_rs.External.{Externals, DateTime}
use signalguard_rs.Domain.Symbol.{Symbol}
use signalguard_rs.Config.Settings.{IngestionMode}

pub data RuntimeMode : Type 0 where
  replay live : RuntimeMode

pub data RuntimeModeStatus : Type 0 where
  starting running switching failed stopped completed : RuntimeModeStatus

pub data RuntimeModeSource : Type 0 where
  config runtime : RuntimeModeSource

-- `RuntimeMode::as_str`
unfoldable pub runtime_mode_as_str : RuntimeMode → String
runtime_mode_as_str replay = "replay"
runtime_mode_as_str live = "live"

-- `RuntimeMode::label`
unfoldable pub label : RuntimeMode → String
label replay = "Replay Demo"
label live = "Public Demo"

-- `RuntimeModeStatus::as_str`
unfoldable pub runtime_status_as_str : RuntimeModeStatus → String
runtime_status_as_str starting = "starting"
runtime_status_as_str running = "running"
runtime_status_as_str switching = "switching"
runtime_status_as_str failed = "failed"
runtime_status_as_str stopped = "stopped"
runtime_status_as_str completed = "completed"

-- `RuntimeModeSource::as_str`
unfoldable pub runtime_source_as_str : RuntimeModeSource → String
runtime_source_as_str config = "config"
runtime_source_as_str runtime = "runtime"

-- `RuntimeMode::from`
unfoldable pub mode_from : IngestionMode → RuntimeMode
mode_from IngestionMode.replay = replay
mode_from IngestionMode.live = live

pub record RuntimeResetPolicy : Type 0 where
  pub reset_state : Bool
  pub reset_storage : Bool

-- `matches!(flag, Some(true))`
abbrev pub is_set : Option Bool → Bool
is_set none = false
is_set (some flag) = flag

-- `RuntimeResetPolicy::from_optional_flags`
unfoldable pub from_optional_flags : Option Bool → Option Bool → RuntimeResetPolicy
from_optional_flags reset_state reset_storage = record {
  reset_state = is_set reset_state;
  reset_storage = is_set reset_storage;
}

-- `RuntimeResetPolicy::is_noop`
unfoldable pub is_noop : RuntimeResetPolicy → Bool
is_noop policy = not policy.reset_state && not policy.reset_storage

module _ ⦃x : Externals⦄ where
  pub record RuntimeModeSnapshot : Type 0 where
    pub mode : RuntimeMode
    pub status : RuntimeModeStatus
    pub symbols : List Symbol
    pub switching_supported : Bool
    pub source : RuntimeModeSource
    pub last_started_at : DateTime
    pub last_switched_at : Option DateTime
    pub last_error : Option String

  -- `RuntimeModeSnapshot::from_startup_config`
  unfoldable pub from_startup_config :
      IngestionMode → List Symbol → DateTime → Bool → RuntimeModeSnapshot
  unfolding mode_from
  from_startup_config mode symbols started_at switching_supported = record {
    mode = mode_from mode;
    status = running;
    symbols = symbols;
    switching_supported = switching_supported;
    source = config;
    last_started_at = started_at;
    last_switched_at = none;
    last_error = none;
  }
