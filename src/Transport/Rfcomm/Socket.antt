-- ===== src/Transport/Rfcomm/Socket.antt =====
-- crates/bluez-transport/src/rfcomm.rs: `connect_blocking` and the `Transport` of a socket. The calls
-- of the kernel are parameters; a call that answers -1 is `none`, its errno is not modelled.
use hass_sma_rs.Prelude.{
  ℕ, zero, suc, ◌+◌, ◌*◌, List, [], ◌∷◌, Bool, true, false, Option, none, some, ltb, if◌then◌else◌,
  Result, ok, err,
}
use hass_sma_rs.Protocol.Mac.{Mac}
use hass_sma_rs.Transport.Interface.{TransportError, io, closed, timeout}
use hass_sma_rs.Transport.Framer.{FrameReader, new, push, pop_frame}

pub record SockaddrRc : Type 0 where
  pub rc_family : ℕ
  pub rc_bdaddr : Mac
  pub rc_channel : ℕ

abbrev pub af_bluetooth : ℕ
af_bluetooth = 31

abbrev pub btproto_rfcomm : ℕ
btproto_rfcomm = 3

-- `libc::socket` to `libc::close`, and the clock, on the state of the kernel. `recv` is asked for at
-- most 4096 bytes, and an empty list is the end of the stream.
pub record Kernel (K : Type 0) : Type 0 where
  pub socket : K → ℕ → ℕ → Option ℕ × K
  pub bind : K → ℕ → SockaddrRc → Bool × K
  pub connect : K → ℕ → SockaddrRc → Bool × K
  pub set_recv_timeout : K → ℕ → ℕ → Bool × K
  pub send : K → ℕ → List ℕ → Option ℕ × K
  pub recv : K → ℕ → Option (List ℕ) × K
  pub close : K → ℕ → K
  pub now : K → ℕ

pub record RfcommTransport : Type 0 where
  pub fd : Option ℕ
  pub reader : FrameReader

abbrev pub address : Mac → SockaddrRc
address mac = record { rc_family = af_bluetooth; rc_bdaddr = mac; rc_channel = 1 }

module _ {K : Type 0} (sys : Kernel K) where
  -- The socket option is a backstop: its failure is logged only.
  unfoldable pub connected : ℕ → Bool × K → Result TransportError RfcommTransport × K
  connected fd (false, k) = (err io, sys.close k fd)
  connected fd (true, k) =
      let (_, k') = sys.set_recv_timeout k fd 15 in (ok (record { fd = some fd; reader = new }), k')

  unfoldable pub bound : Mac → ℕ → Bool × K → Result TransportError RfcommTransport × K
  unfolding connected
  bound remote fd (false, k) = (err io, sys.close k fd)
  bound remote fd (true, k) = connected fd (sys.connect k fd (address remote))

  abbrev pub bind_local : Option Mac → ℕ → K → Bool × K
  bind_local none fd k = (true, k)
  bind_local (some local) fd k = sys.bind k fd (address local)

  unfoldable pub opened :
      Mac → Option Mac → Option ℕ × K → Result TransportError RfcommTransport × K
  unfolding bound
  opened remote local (none, k) = (err io, k)
  opened remote local (some fd, k) = bound remote fd (bind_local local fd k)

  -- `SOCK_STREAM` is 1.
  unfoldable pub connect_blocking : Mac → Option Mac → K → Result TransportError RfcommTransport × K
  unfolding opened
  connect_blocking remote local k = opened remote local (sys.socket k 1 btproto_rfcomm)

  abbrev pub send_result : Option ℕ × K → Result TransportError ℕ × K
  send_result (none, k) = (err io, k)
  send_result (some n, k) = (ok n, k)

  abbrev pub send_on : Option ℕ → List ℕ → K → Result TransportError ℕ × K
  send_on none bytes k = (err closed, k)
  send_on (some fd) bytes k = send_result (sys.send k fd bytes)

  unfoldable pub send_frame : RfcommTransport → List ℕ → K → Result TransportError ℕ × K
  send_frame t bytes k = send_on t.fd bytes k

  -- The blocking read: a stream that has ended is `Closed`.
  abbrev pub chunk_of : Option (List ℕ) × K → Result TransportError (List ℕ) × K
  chunk_of (none, k) = (err io, k)
  chunk_of (some [], k) = (err closed, k)
  chunk_of (some (b ∷ bs), k) = (ok (b ∷ bs), k)

  unfoldable pub read_chunk : Option ℕ → K → Result TransportError (List ℕ) × K
  read_chunk none k = (err closed, k)
  read_chunk (some fd) k = chunk_of (sys.recv k fd)

  -- The clock counts nanoseconds. `timeout_ms > 0` gives a deadline, past which a read without a whole frame is a timeout.
  abbrev pub deadline_of : K → ℕ → Option ℕ
  deadline_of k zero = none
  deadline_of k (suc ms) = some (sys.now k + 1000000 * suc ms)

  abbrev pub is_over : Option ℕ → K → Bool
  is_over none k = false
  is_over (some deadline) k = ltb deadline (sys.now k)

  abbrev pub with_reader : RfcommTransport → FrameReader → RfcommTransport
  with_reader t r = record t { reader = r }

  -- What a call gives: its result, the transport and the kernel; `none` is a loop out of fuel.
  abbrev pub Received : Type 0
  Received = Option (Result TransportError (List ℕ) × RfcommTransport × K)

  -- Behind one read: a frame ends the loop, and so does a deadline that is over.
  unfoldable pub after_push :
      ℕ
      → Option ℕ
      → K
      → (RfcommTransport → K → Received)
      → RfcommTransport
      → Option (List ℕ) × FrameReader
      → Received
  after_push ms deadline k again t (some frame, r) = some (ok frame, with_reader t r, k)
  after_push ms deadline k again t (none, r) =
      if is_over deadline k
      then some (err (timeout ms), with_reader t r, k)
      else again (with_reader t r) k

  unfoldable pub after_read :
      ℕ
      → Option ℕ
      → (RfcommTransport → K → Received)
      → RfcommTransport
      → Result TransportError (List ℕ) × K
      → Received
  unfolding after_push
  after_read ms deadline again t (err e, k) = some (err e, t, k)
  after_read ms deadline again t (ok chunk, k) = elim (push t.reader chunk) [
    | none ↦ none
    | some r ↦ after_push ms deadline k again t (pop_frame r)
  ]

  unfoldable pub recv_loop : ℕ → ℕ → Option ℕ → RfcommTransport → K → Received
  unfolding after_read read_chunk
  recv_loop zero ms deadline t k = none
  recv_loop (suc fuel) ms deadline t k =
      after_read ms deadline (recv_loop fuel ms deadline) t (read_chunk t.fd k)

  unfoldable pub buffered_or :
      ℕ → ℕ → RfcommTransport → K → Option (List ℕ) × FrameReader → Received
  unfolding recv_loop
  buffered_or fuel ms t k (some frame, r) = some (ok frame, with_reader t r, k)
  buffered_or fuel ms t k (none, r) = recv_loop fuel ms (deadline_of k ms) (with_reader t r) k

  -- A frame that is complete already is returned without a read.
  unfoldable pub recv_frame : ℕ → RfcommTransport → ℕ → K → Received
  unfolding buffered_or
  recv_frame fuel t ms k = buffered_or fuel ms t k (pop_frame t.reader)

  abbrev pub close_fd : Option ℕ → K → K
  close_fd none k = k
  close_fd (some fd) k = sys.close k fd

  unfoldable pub close :
      RfcommTransport → K → Result TransportError (Unit {0}) × RfcommTransport × K
  close t k = (ok tt, record t { fd = none }, close_fd t.fd k)
