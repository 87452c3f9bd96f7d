-- ===== src/Daemon/Poll/Isolation.antt =====
-- Each visit of a sweep in crates/daemon/src/main.rs keeps the books of its own target, and leaves those
-- of the others alone.
use hass_sma_rs.Transport.Interface.{Transport}
use hass_sma_rs.Client.Session.{Session}
use hass_sma_rs.Daemon.Readings.{Floats, Outputs}
use hass_sma_rs.Daemon.Poll.{Visit, Tracker, Polled, SweepWorld}
use hass_sma_rs.Daemon.Poll.Books.{Booked, OthersKept}

module _ {T F W : Type 0} (net : Transport T) (floats : Floats F) (outputs : Outputs F W) where
  abbrev World' : Type 0
  World' = SweepWorld net floats outputs

  -- A visit has booked its outcome for its own target only.
  abbrev pub Isolated : Visit → Tracker → Polled × Tracker × World' → Type 0
  Isolated v t (p, t', w') = Booked v t p t' × OthersKept v.target.serial t t'
