-- ===== src/Client/Sockets.antt =====
-- Sessions of crates/inverter-client over a socket of crates/bluez-transport: they open and close no
-- descriptor, up to the call of `close`.
use hass_sma_rs.Prelude.{
  ℕ, zero, suc, ◌≡◌, refl, ap, ◌∙◌, List, [], ◌∷◌, Bool-cases, inl, inr, Option, none, some, Result,
  ok, err,
}
use hass_sma_rs.Transport.Interface.{TransportError}
use hass_sma_rs.Transport.Framer.{FrameReader, push, pop_frame}
use hass_sma_rs.Transport.Rfcomm.Socket.{
  Kernel, RfcommTransport, Received, send_frame, send_on, send_result, recv_frame, recv_loop,
  after_read, after_push, read_chunk, chunk_of, buffered_or, deadline_of, is_over,
  close as close_socket,
}
use hass_sma_rs.Transport.Rfcomm.Handles.{Counts, closed_latest}
use hass_sma_rs.Transport.Rfcomm.Link.{Link, rfcomm, received}
use hass_sma_rs.Client.Session.{Session, set_state}
use hass_sma_rs.Client.Session.Handshake.{handshake_and_logon}
use hass_sma_rs.Client.Session.Handshake.Steps.{handshake_and_logon-Keeps}
use hass_sma_rs.Client.Session.Query.States.{graceful_close-kept}
use hass_sma_rs.Client.Session.Keeps.{Kept}
use hass_sma_rs.Client.Session.Query.{close, graceful_close}

-- `send` and `recv` open and close no descriptor.
pub record Conserves {K : Type 0} (sys : Kernel K) (handles : K → List ℕ) : Type 0 where
  pub on_send : (k : K) (fd : ℕ) (bytes : List ℕ) → handles (sys.send k fd bytes).1 ≡ handles k
  pub on_recv : (k : K) (fd : ℕ) → handles (sys.recv k fd).1 ≡ handles k

module _ {K : Type 0} (sys : Kernel K) (handles : K → List ℕ)
    (conserves : Conserves sys handles) where
  -- The descriptor, and those that are open, behind a receive.
  abbrev pub IsSame : Option ℕ → List ℕ → Received sys → Type 0
  IsSame fd n none = Unit {0}
  IsSame fd n (some (r, t, k)) = (t.fd ≡ fd) × (handles k ≡ n)

  read_chunk-handles : (fd : Option ℕ) (k : K) → handles (read_chunk sys fd k).1 ≡ handles k
  unfolding read_chunk
  read_chunk-handles none k = refl
  read_chunk-handles (some fd) k = by_answer (sys.recv k fd) (conserves.on_recv k fd)
    where
      by_answer :
          (a : Option (List ℕ) × K)
          → handles a.1 ≡ handles k
          → handles (chunk_of sys a).1 ≡ handles k
      by_answer (none, k') h = h
      by_answer (some [], k') h = h
      by_answer (some (b ∷ bs), k') h = h

  -- The rounds of a receive that are left.
  abbrev Again : Option ℕ → List ℕ → (RfcommTransport → K → Received sys) → Type 0
  Again fd n again =
      (t : RfcommTransport) (k : K) → t.fd ≡ fd → handles k ≡ n → IsSame fd n (again t k)

  module _ (fd : Option ℕ) (n : List ℕ) (ms : ℕ) (deadline : Option ℕ)
      (again : RfcommTransport → K → Received sys) (later : Again fd n again) where
    after_push-IsSame :
        (t : RfcommTransport) (k : K) (popped : Option (List ℕ) × FrameReader)
        → t.fd ≡ fd
        → handles k ≡ n
        → IsSame fd n (after_push sys ms deadline k again t popped)
    unfolding after_push
    after_push-IsSame t k (some frame, r) e h = (e, h)
    after_push-IsSame t k (none, r) e h = elim (Bool-cases (is_over sys deadline k)) [
      | inl over ↦ rw over (e, h)
      | inr early ↦ rw early (later (record t { reader = r }) k e h)
    ]

    after_read-IsSame :
        (t : RfcommTransport) (a : Result TransportError (List ℕ) × K)
        → t.fd ≡ fd
        → handles a.1 ≡ n
        → IsSame fd n (after_read sys ms deadline again t a)
    unfolding after_read
    after_read-IsSame t (err x, k) e h = (e, h)
    after_read-IsSame t (ok chunk, k) e h = by_pushed (push t.reader chunk)
      where
        by_pushed :
            (o : Option FrameReader)
            → IsSame fd n (elim o [
              | none ↦ none
              | some r ↦ after_push sys ms deadline k again t (pop_frame r)
            ])
        by_pushed none = tt
        by_pushed (some r) = after_push-IsSame t k (pop_frame r) e h

  recv_loop-IsSame :
      (fd : Option ℕ) (n : List ℕ) (fuel ms : ℕ) (deadline : Option ℕ)
      → Again fd n (recv_loop sys fuel ms deadline)
  unfolding recv_loop
  recv_loop-IsSame fd n zero ms deadline t k e h = tt
  recv_loop-IsSame fd n (suc fuel) ms deadline t k e h =
      after_read-IsSame fd n ms deadline (recv_loop sys fuel ms deadline)
        (recv_loop-IsSame fd n fuel ms deadline) t (read_chunk sys t.fd k) e
        (read_chunk-handles t.fd k ∙ h)

  pub recv_frame-IsSame :
      (fuel ms : ℕ) (t : RfcommTransport) (k : K)
      → IsSame t.fd (handles k) (recv_frame sys fuel t ms k)
  unfolding recv_frame
  recv_frame-IsSame fuel ms t k = by_queue (pop_frame t.reader)
    where
      by_queue :
          (o : Option (List ℕ) × FrameReader)
          → IsSame t.fd (handles k) (buffered_or sys fuel ms t k o)
      by_queue (some frame, r) = unfold buffered_or in (refl, refl)
      by_queue (none, r) =
          unfold buffered_or in
          recv_loop-IsSame t.fd (handles k) fuel ms (deadline_of sys k ms) (record t { reader = r })
            k refl refl

  pub send_frame-handles :
      (t : RfcommTransport) (bytes : List ℕ) (k : K)
      → handles (send_frame sys t bytes k).1 ≡ handles k
  unfolding send_frame
  send_frame-handles t bytes k = by_fd t.fd
    where
      by_answer :
          (a : Option ℕ × K) → handles a.1 ≡ handles k → handles (send_result sys a).1 ≡ handles k
      by_answer (none, k') h = h
      by_answer (some n, k') h = h

      by_fd : (fd : Option ℕ) → handles (send_on sys fd bytes k).1 ≡ handles k
      by_fd none = refl
      by_fd (some fd) = by_answer (sys.send k fd bytes) (conserves.on_send k fd bytes)

  module _ (fuel : ℕ) where
    -- The same descriptor, and the same ones open as before.
    abbrev pub Held : Session (Link K) → Session (Link K) → Type 0
    Held s s' = (s'.link.0.fd ≡ s.link.0.fd) × (handles s'.link.1 ≡ handles s.link.1)

    pub received-Held :
        (link : Link K) (o : Received sys)
        → IsSame link.0.fd (handles link.1) o
        → ((received sys fuel link o).1.0.fd ≡ link.0.fd)
          × (handles (received sys fuel link o).1.1 ≡ handles link.1)
    received-Held link none h = (refl, refl)
    received-Held link (some (r, t, k)) h = h

    -- Every method of a session but `close` keeps its descriptor, and those that are open.
    unfoldable pub held : Kept (rfcomm sys fuel)
    unfolding rfcomm
    held = record {
      rel = Held;
      reflexive = λ s. (refl, refl);
      transitive = λ p q. (q.0 ∙ p.0, q.1 ∙ p.1);
      on_send = λ s bytes. (refl, send_frame-handles s.link.0 bytes s.link.1);
      on_recv = λ s.
          received-Held s.link (recv_frame sys fuel s.link.0 s.cfg.timeout_ms s.link.1)
            (recv_frame-IsSame fuel s.cfg.timeout_ms s.link.0 s.link.1);
      on_pcktid = λ s id. (refl, refl);
      on_identity = λ s susy serial. (refl, refl);
    }

    -- The session holds a descriptor, which is open besides those of others.
    abbrev pub HasSocket : List ℕ → Session (Link K) → Type 0
    HasSocket n s = (fd : ℕ) × (s.link.0.fd ≡ some fd) × (handles s.link.1 ≡ fd ∷ n)

    pub Held-HasSocket :
        (n : List ℕ) (s s' : Session (Link K)) → Held s s' → HasSocket n s → HasSocket n s'
    Held-HasSocket n s s' h (fd, e, ours) = (fd, h.0 ∙ e, h.1 ∙ ours)

    module _ (counts : Counts sys handles) where
      -- Closing gives the descriptor back, and closing again changes nothing.
      pub close-handles :
          (n : List ℕ) (s : Session (Link K))
          → HasSocket n s
          → (handles (close (rfcomm sys fuel) s).1.link.1 ≡ n)
            × ((graceful_close (rfcomm sys fuel) (close (rfcomm sys fuel) s).1).1.link.1
                ≡ (close (rfcomm sys fuel) s).1.link.1)
      unfolding close rfcomm graceful_close close_socket
      close-handles n s (fd, e, ours) =
          (rw e (closed_latest sys handles counts s.link.1 fd n ours), refl)

      -- A graceful close, and a second one, which sends and closes nothing.
      pub graceful_close-handles :
          (n : List ℕ) (s : Session (Link K))
          → HasSocket n s
          → (handles (graceful_close (rfcomm sys fuel) s).1.link.1 ≡ n)
            × (handles
                  (graceful_close (rfcomm sys fuel) (graceful_close (rfcomm sys fuel) s).1).1.link.1
                ≡ n)
      unfolding held
      graceful_close-handles n s h =
          let (s', r, e) = graceful_close-kept held s in
          let (back, again) = close-handles n s' (Held-HasSocket n s s' r h) in
          (rw e back, rw e (ap handles again ∙ back))

    -- A handshake, whatever comes of it.
    pub handshake_and_logon-HasSocket :
        (n : List ℕ) (now_epoch : ℕ) (s : Session (Link K))
        → HasSocket n s
        → HasSocket n (handshake_and_logon (rfcomm sys fuel) now_epoch s).1
    unfolding held set_state
    handshake_and_logon-HasSocket n now_epoch s h =
        Held-HasSocket n s (handshake_and_logon (rfcomm sys fuel) now_epoch s).1
          ((handshake_and_logon-Keeps (rfcomm sys fuel) {k = held}
              (λ state. record { at = λ s'. (refl, refl) }) now_epoch).at
            s)
          h
