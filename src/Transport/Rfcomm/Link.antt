-- ===== src/Transport/Rfcomm/Link.antt =====
-- The `Transport` of crates/bluez-transport/src/rfcomm.rs as the client crate uses it: a socket,
-- together with the kernel that it belongs to.
use hass_sma_rs.Prelude.{ℕ, List, none, some, Result, err}
use hass_sma_rs.Transport.Interface.{Transport, TransportError, io}
use hass_sma_rs.Transport.Rfcomm.Socket.{
  Kernel, RfcommTransport, Received, send_frame, recv_frame, close,
}

abbrev pub Link : Type 0 → Type 0
Link K = RfcommTransport × K

module _ {K : Type 0} (sys : Kernel K) (fuel : ℕ) where
  -- A receive that is out of fuel gives an error.
  abbrev pub received : Link K → Received sys → Result TransportError (List ℕ) × Link K
  received link none = (err io, link)
  received link (some (r, t, k)) = (r, (t, k))

  abbrev pub sent : RfcommTransport → Result TransportError ℕ × K → Result TransportError ℕ × Link K
  sent t (r, k) = (r, (t, k))

  abbrev pub released :
      Result TransportError (Unit {0}) × RfcommTransport × K
      → Result TransportError (Unit {0}) × Link K
  released (r, t, k) = (r, (t, k))

  unfoldable pub rfcomm : Transport (Link K)
  rfcomm = record {
    send_frame =
        λ (link : Link K) (bytes : List ℕ). sent link.0 (send_frame sys link.0 bytes link.1);
    recv_frame = λ (link : Link K) (ms : ℕ). received link (recv_frame sys fuel link.0 ms link.1);
    close = λ (link : Link K). released (close sys link.0 link.1);
  }
