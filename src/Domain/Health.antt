-- ===== src/Domain/Health.antt =====
-- src/domain/health.rs
use signalguard_rs.Common.{String, Option, none, some, str_eq, if◌then◌else◌}

pub data Severity : Type 0 where
  info warning critical : Severity

pub data HealthStatus : Type 0 where
  healthy degraded unhealthy : HealthStatus

-- `Severity::as_str`
unfoldable pub severity_as_str : Severity → String
severity_as_str info = "info"
severity_as_str warning = "warning"
severity_as_str critical = "critical"

-- `Severity::parse`; `none` is its error.
unfoldable pub parse_severity : String → Option Severity
parse_severity value =
    if str_eq value "info"
    then some info
    else if str_eq value "warning"
    then some warning
    else if str_eq value "critical"
    then some critical
    else none
