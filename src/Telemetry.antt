-- ===== src/Telemetry.antt =====
-- crates/telemetry/src/server.rs, and the labels of metrics.rs: what the metrics endpoint answers.
pub mod Registry
use Prim.Native.String.{String}
use text.Mathlib.Text.{◌==◌}
use hass_sma_rs.Prelude.{ℕ, Option, none, some, if◌then◌else◌}

pub record InverterLabels : Type 0 where
  pub slot : String

pub record DeviceLabels : Type 0 where
  pub slot : String
  pub device : String

unfoldable pub same : String → DeviceLabels
same s = record { slot = s; device = s }

pub record Response : Type 0 where
  pub status : ℕ
  pub content_type : Option String
  pub body : String

-- `encoded` is the text of the registry.
unfoldable pub handle : String → String → Response
handle path encoded =
    if path == "/metrics"
    then record {
      status = 200;
      content_type = some "application/openmetrics-text; version=1.0.0; charset=utf-8";
      body = encoded;
    }
    else if path == "/health"
    then record { status = 200; content_type = none; body = "ok" }
    else record { status = 404; content_type = none; body = "not found" }
