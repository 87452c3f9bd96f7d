-- ===== src/Client/Errors.antt =====
-- `SessionError` of crates/inverter-client/src/session.rs.
use hass_sma_rs.Prelude.{ℕ, Bool, true, false}
use hass_sma_rs.Protocol.Stuffing.{ParseError}
use hass_sma_rs.Transport.Interface.{TransportError}

-- The phase names that occur in the code, which tags errors with string literals.
pub data Phase : Type 0 where
  hello hello_ctrl hello_short topology init logon : Phase
  query query_not_logged_in : Phase
  event_log event_log_not_logged_in event_log_retcode : Phase

pub data SessionError : Type 0 where
  transport : TransportError → SessionError
  parse : ParseError → SessionError
  logon_failed : ℕ → SessionError
  firmware_too_old : ℕ → SessionError
  protocol : Phase → SessionError
  silent : Phase → SessionError

-- `matches!(phase, "query" | "event-log")`
pub is_per_device : Phase → Bool
is_per_device query = true
is_per_device event_log = true
is_per_device _ = false

not_per_device : Bool → Bool
not_per_device true = false
not_per_device false = true

unfoldable pub is_session_fatal : SessionError → Bool
unfolding is_per_device not_per_device
is_session_fatal (transport e) = true
is_session_fatal (parse e) = true
is_session_fatal (logon_failed code) = true
is_session_fatal (firmware_too_old version) = true
is_session_fatal (protocol phase) = not_per_device (is_per_device phase)
is_session_fatal (silent phase) = not_per_device (is_per_device phase)
