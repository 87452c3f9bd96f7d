-- ===== src/Transport/Rfcomm/Order.antt =====
-- The frames that a socket hands out are those of the bytes that it received.
use hass_sma_rs.Prelude.{
  ℕ, zero, suc, ◌≡◌, refl, sym, ap, ◌∙◌, List, [], ◌∷◌, ◌++◌, append_assoc, append-nil, Bool-cases,
  inl, inr, Option, Option-cases, none, some, ok, err, Result,
}
use mathlib.Core.Option.{some-injective}
use mathlib.Core.Path.{subst}
use hass_sma_rs.Transport.Interface.{TransportError, timeout}
use hass_sma_rs.Transport.Framer.{FrameReader, new, push, pop_frame}
use hass_sma_rs.Transport.Framer.Delivery.{push-append}
use hass_sma_rs.Transport.Framer.Behind.{behind, push-nil, push-behind, pop_frame-cases}
use hass_sma_rs.Transport.Rfcomm.Socket.{
  Kernel, RfcommTransport, send_frame, send_on, send_result, recv_frame, recv_loop, after_read,
  after_push, read_chunk, chunk_of, buffered_or, deadline_of, is_over,
}

-- `received` is what the socket of the connection has handed over: a read adds its bytes at the
-- end, and a send takes none.
pub record IsStream {K : Type 0} (sys : Kernel K) (received : K → List ℕ) : Type 0 where
  pub on_recv :
      (k k' : K) (fd : ℕ) (chunk : List ℕ)
      → sys.recv k fd ≡ (some chunk, k')
      → received k' ≡ received k ++ chunk
  pub on_recv_error : (k k' : K) (fd : ℕ) → sys.recv k fd ≡ (none, k') → received k' ≡ received k
  pub on_send :
      (k k' : K) (fd : ℕ) (bytes : List ℕ) (n : Option ℕ)
      → sys.send k fd bytes ≡ (n, k')
      → received k' ≡ received k

-- The bytes so far complete the frames handed out, then those that wait, and leave what is in
-- progress.
abbrev pub Tracks : List ℕ → List (List ℕ) → FrameReader → Type 0
Tracks bytes done r = push new bytes ≡ some (behind done r)

push-Tracks :
    (bytes chunk : List ℕ) (done : List (List ℕ)) (r r' : FrameReader)
    → Tracks bytes done r
    → push r chunk ≡ some r'
    → Tracks (bytes ++ chunk) done r'
push-Tracks bytes chunk done r r' h e =
    push-append new (behind done r) bytes chunk h ∙ push-behind done r r' chunk e

pop-Tracks :
    (bytes : List ℕ) (done fs : List (List ℕ)) (f : List ℕ) (r : FrameReader)
    → Tracks bytes done r
    → r.completed ≡ f ∷ fs
    → Tracks bytes (done ++ f ∷ []) (record r { completed = fs })
pop-Tracks bytes done fs f r h e =
    h
    ∙ ap (λ (queue : List (List ℕ)). some (record r { completed = queue }))
        (ap (λ (queue : List (List ℕ)). done ++ queue) e ∙ sym (append_assoc done (f ∷ []) fs))

-- The frame of a result, as a list.
abbrev pub frame_of : Result TransportError (List ℕ) → List (List ℕ)
frame_of (ok frame) = frame ∷ []
frame_of (err e) = []

abbrev chunk_in : Result TransportError (List ℕ) → List ℕ
chunk_in (ok chunk) = chunk
chunk_in (err e) = []

module _ {K : Type 0} (sys : Kernel K) (received : K → List ℕ) where
  abbrev RecvOutcome : Type 0
  RecvOutcome = Result TransportError (List ℕ) × RfcommTransport × K

  abbrev Holds : List (List ℕ) → RecvOutcome → Type 0
  Holds done (r, t, k) = Tracks (received k) (done ++ frame_of r) t.reader

  abbrev Keeps : (RfcommTransport → K → Option RecvOutcome) → Type 0
  Keeps again =
      (t : RfcommTransport) (k : K) (done : List (List ℕ)) (o : RecvOutcome)
      → Tracks (received k) done t.reader
      → again t k ≡ some o
      → Holds done o

  Holds-at :
      (done : List (List ℕ)) (o o' : RecvOutcome) → some o ≡ some o' → Holds done o → Holds done o'
  Holds-at done o o' e h = subst (Holds done) (some-injective o o' e) h

  nothing_new :
      (done : List (List ℕ)) (e : TransportError) (t : RfcommTransport) (k : K)
      → Tracks (received k) done t.reader
      → Holds done (err e, t, k)
  nothing_new done e t k h = rw (append-nil done) h

  after_push-Keeps :
      (ms : ℕ) (deadline : Option ℕ) (k : K) (again : RfcommTransport → K → Option RecvOutcome)
      (t : RfcommTransport) (r : FrameReader) (done : List (List ℕ)) (o : RecvOutcome)
      → Keeps again
      → Tracks (received k) done r
      → after_push sys ms deadline k again t (pop_frame r) ≡ some o
      → Holds done o
  unfolding after_push
  after_push-Keeps ms deadline k again t r done o keeps h e = elim (pop_frame-cases r) [
    | inl (_, empty) ↦
        let e' = ap (after_push sys ms deadline k again t) (sym empty) ∙ e in
        elim (Bool-cases (is_over sys deadline k)) [
          | inl over ↦
              Holds-at done _ o (rw over at e')
                (nothing_new done (timeout ms) (record t { reader = r }) k h)
          | inr early ↦ keeps (record t { reader = r }) k done o h (rw early at e')
        ]
    | inr (f, fs, queue, popped) ↦
        Holds-at done _ o (ap (after_push sys ms deadline k again t) (sym popped) ∙ e)
          (pop-Tracks (received k) done fs f r h queue)
  ]

  after_read-Keeps :
      (ms : ℕ) (deadline : Option ℕ) (again : RfcommTransport → K → Option RecvOutcome)
      (t : RfcommTransport) (k : K) (read : Result TransportError (List ℕ)) (done : List (List ℕ))
      (o : RecvOutcome) (bytes : List ℕ)
      → Keeps again
      → Tracks bytes done t.reader
      → received k ≡ bytes ++ chunk_in read
      → after_read sys ms deadline again t (read, k) ≡ some o
      → Holds done o
  unfolding after_read
  after_read-Keeps ms deadline again t k (err x) done o bytes keeps h same e =
      Holds-at done _ o e (nothing_new done x t k (rw (same ∙ append-nil bytes) h))
  after_read-Keeps ms deadline again t k (ok chunk) done o bytes keeps h more e =
      elim (Option-cases (push t.reader chunk)) [
        | inl stuck ↦ absurd (cc (rw (stuck, after_read) at e))
        | inr (r, pushed) ↦
            after_push-Keeps ms deadline k again t r done o keeps
              (rw more (push-Tracks bytes chunk done t.reader r h pushed))
              (rw (pushed, after_read) at e)
      ]

  module _ (stream : IsStream sys received) where
    read_chunk-IsStream :
        (fd : Option ℕ) (k : K)
        → received (read_chunk sys fd k).1 ≡ received k ++ chunk_in (read_chunk sys fd k).0
    unfolding read_chunk
    read_chunk-IsStream none k = sym (append-nil (received k))
    read_chunk-IsStream (some fd) k = by_answer (sys.recv k fd) refl
      where
        by_answer :
            (a : Option (List ℕ) × K)
            → sys.recv k fd ≡ a
            → received (chunk_of sys a).1 ≡ received k ++ chunk_in (chunk_of sys a).0
        by_answer (none, k') e = stream.on_recv_error k k' fd e ∙ sym (append-nil (received k))
        by_answer (some [], k') e = stream.on_recv k k' fd [] e
        by_answer (some (b ∷ bs), k') e = stream.on_recv k k' fd (b ∷ bs) e

    recv_loop-Keeps : (fuel ms : ℕ) (deadline : Option ℕ) → Keeps (recv_loop sys fuel ms deadline)
    unfolding recv_loop
    recv_loop-Keeps zero ms deadline t k done o h e = absurd (cc e)
    recv_loop-Keeps (suc fuel) ms deadline t k done o h e =
        after_read-Keeps ms deadline (recv_loop sys fuel ms deadline) t (read_chunk sys t.fd k).1
          (read_chunk sys t.fd k).0 done o (received k) (recv_loop-Keeps fuel ms deadline) h
          (read_chunk-IsStream t.fd k) e

    recv_frame-Keeps :
        (fuel ms : ℕ) → Keeps (λ (t : RfcommTransport) (k : K). recv_frame sys fuel t ms k)
    unfolding recv_frame
    recv_frame-Keeps fuel ms t k done o h e = elim (pop_frame-cases t.reader) [
      | inl (_, empty) ↦
          recv_loop-Keeps fuel ms (deadline_of sys k ms) t k done o h
            (ap (buffered_or sys fuel ms t k) (sym empty) ∙ e)
      | inr (f, fs, queue, popped) ↦
          Holds-at done _ o (ap (buffered_or sys fuel ms t k) (sym popped) ∙ e)
            (pop-Tracks (received k) done fs f t.reader h queue)
    ]

-- A connection in use: sends and receives in any order, with the frames that came out.
pub data Uses {K : Type 0} (sys : Kernel K)
    : RfcommTransport → K → List (List ℕ) → RfcommTransport → K → Type 0 where
  idle : (t : RfcommTransport) (k : K) → Uses sys t k [] t k
  sending :
      (t : RfcommTransport) (k k' : K) (bytes : List ℕ) (r : Result TransportError ℕ)
      (fs : List (List ℕ)) (t₂ : RfcommTransport) (k₂ : K)
      → send_frame sys t bytes k ≡ (r, k')
      → Uses sys t k' fs t₂ k₂
      → Uses sys t k fs t₂ k₂
  receiving :
      (t t' : RfcommTransport) (k k' : K) (fuel ms : ℕ) (r : Result TransportError (List ℕ))
      (fs : List (List ℕ)) (t₂ : RfcommTransport) (k₂ : K)
      → recv_frame sys fuel t ms k ≡ some (r, t', k')
      → Uses sys t' k' fs t₂ k₂
      → Uses sys t k (frame_of r ++ fs) t₂ k₂

module _ {K : Type 0} (sys : Kernel K) (received : K → List ℕ)
    (stream : IsStream sys received) where
  send_frame-IsStream :
      (t : RfcommTransport) (k k' : K) (bytes : List ℕ) (r : Result TransportError ℕ)
      → send_frame sys t bytes k ≡ (r, k')
      → received k' ≡ received k
  unfolding send_frame
  send_frame-IsStream t k k' bytes r e =
      ap (λ (o : Result TransportError ℕ × K). received o.1) (sym e) ∙ by_fd t.fd
    where
      by_answer :
          (fd : ℕ) (a : Option ℕ × K)
          → sys.send k fd bytes ≡ a
          → received (send_result sys a).1 ≡ received k
      by_answer fd (none, k₁) e₁ = stream.on_send k k₁ fd bytes none e₁
      by_answer fd (some n, k₁) e₁ = stream.on_send k k₁ fd bytes (some n) e₁

      by_fd : (fd : Option ℕ) → received (send_on sys fd bytes k).1 ≡ received k
      by_fd none = refl
      by_fd (some fd) = by_answer fd (sys.send k fd bytes) refl

  Uses-Tracks :
      (t t' : RfcommTransport) (k k' : K) (done fs : List (List ℕ))
      → Uses sys t k fs t' k'
      → Tracks (received k) done t.reader
      → Tracks (received k') (done ++ fs) t'.reader
  Uses-Tracks _ _ _ _ done _ (idle t k) h = rw (append-nil done) h
  Uses-Tracks _ _ _ _ done _ (sending t k k₁ bytes r fs t₂ k₂ e rest) h =
      Uses-Tracks t t₂ k₁ k₂ done fs rest (rw (send_frame-IsStream t k k₁ bytes r e) h)
  Uses-Tracks _ _ _ _ done _ (receiving t t₁ k k₁ fuel ms r fs t₂ k₂ e rest) h =
      rw (← append_assoc done (frame_of r) fs) (
        Uses-Tracks t₁ t₂ k₁ k₂ (done ++ frame_of r) fs rest
          (recv_frame-Keeps sys received stream fuel ms t k done (r, t₁, k₁) h e))

  -- However a connection is used from its start, with errors and timeouts between, the bytes that
  -- the socket handed over, given to one reader, complete exactly the frames that came out, in
  -- order, and then those that still wait.
  pub Uses-in_order :
      (t t' : RfcommTransport) (k k' : K) (fs : List (List ℕ))
      → t.reader ≡ new
      → received k ≡ []
      → Uses sys t k fs t' k'
      → push new (received k') ≡ some (behind fs t'.reader)
  Uses-in_order t t' k k' fs fresh start uses =
      Uses-Tracks t t' k k' [] fs uses (rw (fresh, start) (push-nil new))
