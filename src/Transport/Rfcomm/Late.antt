-- ===== src/Transport/Rfcomm/Late.antt =====
-- A timeout is found behind a read that gave bytes only.
use hass_sma_rs.Prelude.{
  ℕ, zero, suc, ◌≤◌, ◌<◌, ◌≡◌, refl, sym, ap, ◌∙◌, List, [], ◌∷◌, length, length-append, Bool-cases,
  inl, inr, Option, Option-cases, none, some, ok, err, Result, arith,
}
use mathlib.Core.Option.{some-injective}
use mathlib.Core.Path.{subst}
use hass_sma_rs.Transport.Interface.{TransportError, io, closed, mock_exhausted, timeout}
use hass_sma_rs.Transport.Framer.{FrameReader, push, pop_frame}
use hass_sma_rs.Transport.Framer.Behind.{pop_frame-cases}
use hass_sma_rs.Transport.Rfcomm.Socket.{
  Kernel, RfcommTransport, recv_frame, recv_loop, after_read, after_push, read_chunk, chunk_of,
  buffered_or, deadline_of, is_over,
}
use hass_sma_rs.Transport.Rfcomm.Order.{IsStream}

module _ {K : Type 0} (sys : Kernel K) (received : K → List ℕ) where
  abbrev RecvOutcome : Type 0
  RecvOutcome = Result TransportError (List ℕ) × RfcommTransport × K

  -- If the result is a timeout, more than `n` bytes have been received.
  abbrev pub IsLate : ℕ → Result TransportError (List ℕ) → K → Type 0
  IsLate n (ok frame) k = Unit {0}
  IsLate n (err io) k = Unit {0}
  IsLate n (err closed) k = Unit {0}
  IsLate n (err mock_exhausted) k = Unit {0}
  IsLate n (err (timeout ms)) k = n < length (received k)

  abbrev At : ℕ → RecvOutcome → Type 0
  At n (r, t, k) = IsLate n r k

  abbrev Lates : ℕ → (RfcommTransport → K → Option RecvOutcome) → Type 0
  Lates n again =
      (t : RfcommTransport) (k : K) (o : RecvOutcome)
      → n ≤ length (received k)
      → again t k ≡ some o
      → At n o

  late-At : (n : ℕ) (o o' : RecvOutcome) → some o ≡ some o' → At n o → At n o'
  late-At n o o' e h = subst (At n) (some-injective o o' e) h

  after_push-Lates :
      (n ms : ℕ) (deadline : Option ℕ) (k : K) (again : RfcommTransport → K → Option RecvOutcome)
      (t : RfcommTransport) (r : FrameReader) (o : RecvOutcome)
      → Lates n again
      → n < length (received k)
      → after_push sys ms deadline k again t (pop_frame r) ≡ some o
      → At n o
  unfolding after_push
  after_push-Lates n ms deadline k again t r o lates h e = elim (pop_frame-cases r) [
    | inl (_, empty) ↦
        let e' = ap (after_push sys ms deadline k again t) (sym empty) ∙ e in
        elim (Bool-cases (is_over sys deadline k)) [
          | inl over ↦ late-At n (err (timeout ms), record t { reader = r }, k) o (rw over at e') h
          | inr early ↦ lates (record t { reader = r }) k o (omega arith) (rw early at e')
        ]
    | inr (f, fs, _, popped) ↦
        late-At n (ok f, record t { reader = record r { completed = fs } }, k) o
          (ap (after_push sys ms deadline k again t) (sym popped) ∙ e) tt
  ]

  after_read-Lates :
      (n ms : ℕ) (deadline : Option ℕ) (again : RfcommTransport → K → Option RecvOutcome)
      (t : RfcommTransport) (chunk : List ℕ) (k : K) (o : RecvOutcome)
      → Lates n again
      → n < length (received k)
      → after_read sys ms deadline again t (ok chunk, k) ≡ some o
      → At n o
  unfolding after_read
  after_read-Lates n ms deadline again t chunk k o lates h e =
      elim (Option-cases (push t.reader chunk)) [
        | inl stuck ↦ absurd (cc (rw (stuck, after_read) at e))
        | inr (r, pushed) ↦
            after_push-Lates n ms deadline k again t r o lates h (rw (pushed, after_read) at e)
      ]

  module _ (stream : IsStream sys received) where
    chunk-longer :
        (n fd : ℕ) (k k' : K) (b : ℕ) (bs : List ℕ)
        → sys.recv k fd ≡ (some (b ∷ bs), k')
        → n ≤ length (received k)
        → n < length (received k')
    chunk-longer n fd k k' b bs e h =
        rw (stream.on_recv k k' fd (b ∷ bs) e) (omega (arith, length-append (received k) (b ∷ bs)))

    read-Lates :
        (n ms : ℕ) (deadline : Option ℕ) (again : RfcommTransport → K → Option RecvOutcome)
        (t : RfcommTransport) (k : K) (o : RecvOutcome)
        → Lates n again
        → n ≤ length (received k)
        → after_read sys ms deadline again t (read_chunk sys t.fd k) ≡ some o
        → At n o
    unfolding after_read read_chunk
    read-Lates n ms deadline again t k o lates h = by_fd t.fd
      where
        by_answer :
            (fd : ℕ) (a : Option (List ℕ) × K)
            → sys.recv k fd ≡ a
            → after_read sys ms deadline again t (chunk_of sys a) ≡ some o
            → At n o
        by_answer fd (none, k') _ e = late-At n (err io, t, k') o e tt
        by_answer fd (some [], k') _ e = late-At n (err closed, t, k') o e tt
        by_answer fd (some (b ∷ bs), k') read e =
            after_read-Lates n ms deadline again t (b ∷ bs) k' o lates
              (chunk-longer n fd k k' b bs read h) e

        by_fd :
            (fd : Option ℕ)
            → after_read sys ms deadline again t (read_chunk sys fd k) ≡ some o
            → At n o
        by_fd none e = late-At n (err closed, t, k) o e tt
        by_fd (some fd) e = by_answer fd (sys.recv k fd) refl e

    recv_loop-Lates :
        (n fuel ms : ℕ) (deadline : Option ℕ) → Lates n (recv_loop sys fuel ms deadline)
    unfolding recv_loop
    recv_loop-Lates n zero ms deadline t k o h e = absurd (cc e)
    recv_loop-Lates n (suc fuel) ms deadline t k o h e =
        read-Lates n ms deadline (recv_loop sys fuel ms deadline) t k o
          (recv_loop-Lates n fuel ms deadline) h e

    -- A receive reports a timeout only if it has read bytes: a socket on which nothing arrives never
    -- makes it one, however long the call has waited.
    pub recv_frame-IsLate :
        (fuel ms : ℕ) (t t' : RfcommTransport) (k k' : K) (r : Result TransportError (List ℕ))
        → recv_frame sys fuel t ms k ≡ some (r, t', k')
        → IsLate (length (received k)) r k'
    unfolding recv_frame
    recv_frame-IsLate fuel ms t t' k k' r e = elim (pop_frame-cases t.reader) [
      | inl (_, empty) ↦
          recv_loop-Lates (length (received k)) fuel ms (deadline_of sys k ms) t k (r, t', k')
            (omega arith) (ap (buffered_or sys fuel ms t k) (sym empty) ∙ e)
      | inr (f, fs, _, popped) ↦
          late-At (length (received k))
            (ok f, record t { reader = record t.reader { completed = fs } }, k) (r, t', k')
            (ap (buffered_or sys fuel ms t k) (sym popped) ∙ e) tt
    ]
