-- ===== src/Transport/Interface.antt =====
-- crates/bluez-transport/src/lib.rs: the `Transport` trait and its errors. A call gives its result
-- and the transport afterwards.
use hass_sma_rs.Prelude.{ℕ, List, Result}

-- What the operating system says about a failed call is not modelled.
pub data TransportError : Type 0 where
  io closed mock_exhausted : TransportError
  timeout : ℕ → TransportError

pub record Transport (T : Type 0) : Type 0 where
  pub send_frame : T → List ℕ → Result TransportError ℕ × T
  pub recv_frame : T → ℕ → Result TransportError (List ℕ) × T
  pub close : T → Result TransportError (Unit {0}) × T
