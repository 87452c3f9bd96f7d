-- ===== src/Transport/Rfcomm/Returns.antt =====
-- `recv_frame` with a timeout returns: the loop ends by its deadline.
use hass_sma_rs.Prelude.{
  ℕ, zero, suc, ◌+◌, ◌-◌, ◌*◌, ◌≤◌, ◌<◌, ◌≡◌, refl, List, [], ◌∷◌, Bool-cases, false, ltb, inl, inr,
  Option, none, some, ok, err, Result, arith,
}
use hass_sma_rs.Transport.Interface.{TransportError, timeout, io, closed}
use hass_sma_rs.Transport.Framer.{FrameReader, pop_frame}
use hass_sma_rs.Transport.Framer.Invariant.{IsValid, push-IsValid}
use hass_sma_rs.Transport.Framer.Behind.{pop_frame-cases}
use hass_sma_rs.Transport.Rfcomm.Socket.{
  Kernel, RfcommTransport, recv_frame, recv_loop, after_read, after_push, read_chunk, chunk_of,
  buffered_or,
}

-- A read that gives bytes takes at least one nanosecond.
pub record Ticks {K : Type 0} (sys : Kernel K) : Type 0 where
  pub on_recv :
      (k k' : K) (fd : ℕ) (chunk : List ℕ)
      → sys.recv k fd ≡ (some chunk, k')
      → sys.now k < sys.now k'

ltb_false→le : (a b : ℕ) → ltb a b ≡ false → b ≤ a
ltb_false→le a b h = ground arith

module _ {K : Type 0} (sys : Kernel K) where
  abbrev RecvOutcome : Type 0
  RecvOutcome = Result TransportError (List ℕ) × RfcommTransport × K

  -- The call gives a result within its fuel.
  abbrev pub Returns : Option RecvOutcome → Type 0
  Returns received = (o : RecvOutcome) × (received ≡ some o)

  -- A loop that returns from every state whose clock has passed `start` and not the deadline.
  abbrev ReturnsAfter : ℕ → ℕ → (RfcommTransport → K → Option RecvOutcome) → Type 0
  ReturnsAfter start deadline again =
      (t : RfcommTransport) (k : K)
      → IsValid t.reader
      → start < sys.now k
      → sys.now k ≤ deadline
      → Returns (again t k)

  after_push-Returns :
      (ms deadline start : ℕ) (k : K) (again : RfcommTransport → K → Option RecvOutcome)
      (t : RfcommTransport) (r : FrameReader)
      → ReturnsAfter start deadline again
      → IsValid r
      → start < sys.now k
      → Returns (after_push sys ms (some deadline) k again t (pop_frame r))
  unfolding after_push
  after_push-Returns ms deadline start k again t r returns v later = elim (pop_frame-cases r) [
    | inl (_, empty) ↦ elim (Bool-cases (ltb deadline (sys.now k))) [
      | inl over ↦ ((err (timeout ms), record t { reader = r }, k), rw (empty, after_push, over))
      | inr early ↦
          let (o, e) =
            returns (record t { reader = r }) k v later (ltb_false→le deadline (sys.now k) early) in
          (o, rw (empty, after_push, early) e)
    ]
    | inr (f, fs, _, popped) ↦
        ((ok f, record t { reader = record r { completed = fs } }, k), rw (popped, after_push))
  ]

  after_read-Returns :
      (ms deadline start : ℕ) (again : RfcommTransport → K → Option RecvOutcome)
      (t : RfcommTransport) (chunk : List ℕ) (k : K)
      → ReturnsAfter start deadline again
      → IsValid t.reader
      → start < sys.now k
      → Returns (after_read sys ms (some deadline) again t (ok chunk, k))
  unfolding after_read
  after_read-Returns ms deadline start again t chunk k returns v later =
      let (r, pushed, w) = push-IsValid t.reader chunk v in
      let (o, e) = after_push-Returns ms deadline start k again t r returns w later in
      (o, rw (pushed, after_read) e)

  module _ (ticks : Ticks sys) where
    read-Returns :
        (ms deadline : ℕ) (again : RfcommTransport → K → Option RecvOutcome) (t : RfcommTransport)
        (k : K)
        → IsValid t.reader
        → ReturnsAfter (sys.now k) deadline again
        → Returns (after_read sys ms (some deadline) again t (read_chunk sys t.fd k))
    unfolding after_read read_chunk
    read-Returns ms deadline again t k v returns = by_fd t.fd
      where
        by_answer :
            (fd : ℕ) (a : Option (List ℕ) × K)
            → sys.recv k fd ≡ a
            → Returns (after_read sys ms (some deadline) again t (chunk_of sys a))
        by_answer fd (none, k') e = ((err io, t, k'), refl)
        by_answer fd (some [], k') e = ((err closed, t, k'), refl)
        by_answer fd (some (b ∷ bs), k') e =
            after_read-Returns ms deadline (sys.now k) again t (b ∷ bs) k' returns v
              (ticks.on_recv k k' fd (b ∷ bs) e)

        by_fd :
            (fd : Option ℕ)
            → Returns (after_read sys ms (some deadline) again t (read_chunk sys fd k))
        by_fd none = ((err closed, t, k), refl)
        by_fd (some fd) = by_answer fd (sys.recv k fd) refl

    recv_loop-Returns :
        (fuel ms deadline : ℕ) (t : RfcommTransport) (k : K)
        → IsValid t.reader
        → sys.now k ≤ deadline
        → deadline - sys.now k < fuel
        → Returns (recv_loop sys fuel ms (some deadline) t k)
    unfolding recv_loop
    recv_loop-Returns zero ms deadline t k v early enough = absurd (omega arith)
    recv_loop-Returns (suc fuel) ms deadline t k v early enough =
        read-Returns ms deadline (recv_loop sys fuel ms (some deadline)) t k v
          (λ (t' : RfcommTransport) (k' : K) (v' : IsValid t'.reader)
              (later : sys.now k < sys.now k') (early' : sys.now k' ≤ deadline).
            recv_loop-Returns fuel ms deadline t' k' v' early' (omega arith))

    -- With a timeout of some milliseconds and a clock that moves on with every read that gives bytes,
    -- a receive on a valid reader gives a result in no more rounds of its loop than the timeout has
    -- nanoseconds, and one more, whatever the socket answers: noise without end is cut off by the
    -- deadline.
    pub recv_frame-Returns :
        (fuel ms : ℕ) (t : RfcommTransport) (k : K)
        → IsValid t.reader
        → 0 < ms
        → 1000000 * ms < fuel
        → Returns (recv_frame sys fuel t ms k)
    unfolding recv_frame
    recv_frame-Returns fuel zero t k v some_time enough = absurd (omega arith)
    recv_frame-Returns fuel (suc ms) t k v some_time enough = elim (pop_frame-cases t.reader) [
      | inl (_, empty) ↦
          let (o, e) =
            recv_loop-Returns fuel (suc ms) (sys.now k + 1000000 * suc ms) t k v (omega arith)
              (omega arith) in
          (o, rw (empty, buffered_or) e)
      | inr (f, fs, _, popped) ↦ (
        (ok f, record t { reader = record t.reader { completed = fs } }, k),
        rw (popped, buffered_or),
      )
    ]
