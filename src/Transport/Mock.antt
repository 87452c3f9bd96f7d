-- ===== src/Transport/Mock.antt =====
-- crates/bluez-transport/src/mock.rs: the scripted transport. The clones of a handle share one
-- state, which is this record.
use hass_sma_rs.Prelude.{
  ℕ, List, [], ◌∷◌, ◌++◌, Bool, true, false, if◌then◌else◌, length, Result, ok, err,
}
use hass_sma_rs.Transport.Interface.{TransportError, closed, mock_exhausted, Transport}

pub record MockTransport : Type 0 where
  pub replies : List (List ℕ)
  pub sent : List (List ℕ)
  pub is_closed : Bool

unfoldable pub new : MockTransport
new = record { replies = []; sent = []; is_closed = false }

unfoldable pub queue_reply : MockTransport → List ℕ → MockTransport
queue_reply t frame = record t { replies = t.replies ++ frame ∷ [] }

unfoldable pub queue_replies : MockTransport → List (List ℕ) → MockTransport
queue_replies t [] = t
queue_replies t (frame ∷ rest) = queue_replies (queue_reply t frame) rest

abbrev pub send_frame : MockTransport → List ℕ → Result TransportError ℕ × MockTransport
send_frame t bytes =
    if t.is_closed
    then (err closed, t)
    else (ok (length bytes), record t { sent = t.sent ++ bytes ∷ [] })

-- `pop_front`, with `MockExhausted` on an empty queue.
abbrev pub pop_reply :
    MockTransport → List (List ℕ) → Result TransportError (List ℕ) × MockTransport
pop_reply t [] = (err mock_exhausted, t)
pop_reply t (frame ∷ rest) = (ok frame, record t { replies = rest })

abbrev pub recv_frame : MockTransport → ℕ → Result TransportError (List ℕ) × MockTransport
recv_frame t timeout_ms = if t.is_closed then (err closed, t) else pop_reply t t.replies

abbrev pub close : MockTransport → Result TransportError (Unit {0}) × MockTransport
close t = (ok tt, record t { is_closed = true })

abbrev pub mock_transport : Transport MockTransport
mock_transport = record { send_frame = send_frame; recv_frame = recv_frame; close = close }
