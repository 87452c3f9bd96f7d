-- ===== src/Transport/Rfcomm/Handles.antt =====
-- The descriptor of a connection: opened once, closed on every failure and by `close`.
use hass_sma_rs.Prelude.{
  ℕ, ◌≡◌, refl, ap, ◌∙◌, List, [], ◌∷◌, ◌==◌, ==_refl, if◌then◌else◌, Bool, true, false, Option,
  none, some, ok, err, Result,
}
use hass_sma_rs.Protocol.Mac.{Mac}
use hass_sma_rs.Transport.Interface.{TransportError, closed}
use hass_sma_rs.Transport.Framer.{new}
use hass_sma_rs.Transport.Rfcomm.Socket.{
  Kernel, SockaddrRc, RfcommTransport, btproto_rfcomm, address, connect_blocking, opened, bound,
  connected, bind_local, send_frame, close,
}

-- The table of open descriptors behind `close(2)`: a descriptor that is not open changes nothing.
unfoldable pub without : ℕ → List ℕ → List ℕ
without fd [] = []
without fd (other ∷ rest) =
    let later = without fd rest in if other == fd then rest else other ∷ later

-- `handles` are the open descriptors, the latest first: `socket` opens one if it succeeds, `close`
-- closes the one that it is given, and the other calls open and close none.
pub record Counts {K : Type 0} (sys : Kernel K) (handles : K → List ℕ) : Type 0 where
  pub on_socket :
      (k k' : K) (a b fd : ℕ) → sys.socket k a b ≡ (some fd, k') → handles k' ≡ fd ∷ handles k
  pub on_socket_error :
      (k k' : K) (a b : ℕ) → sys.socket k a b ≡ (none, k') → handles k' ≡ handles k
  pub on_bind : (k : K) (fd : ℕ) (a : SockaddrRc) → handles (sys.bind k fd a).1 ≡ handles k
  pub on_connect : (k : K) (fd : ℕ) (a : SockaddrRc) → handles (sys.connect k fd a).1 ≡ handles k
  pub on_option : (k : K) (fd s : ℕ) → handles (sys.set_recv_timeout k fd s).1 ≡ handles k
  pub on_close : (k : K) (fd : ℕ) → handles (sys.close k fd) ≡ without fd (handles k)

without_first : (fd : ℕ) (rest : List ℕ) → without fd (fd ∷ rest) ≡ rest
unfolding without
without_first fd rest = rw (==_refl fd)

module _ {K : Type 0} (sys : Kernel K) (handles : K → List ℕ) where
  -- A connection holds one more descriptor, its own, a failure none.
  unfoldable pub Balanced : List ℕ → Result TransportError RfcommTransport × K → Type 0
  Balanced n (err e, k) = handles k ≡ n
  Balanced n (ok t, k) = (t.reader ≡ new) × ((fd : ℕ) × (t.fd ≡ some fd) × (handles k ≡ fd ∷ n))

  module _ (counts : Counts sys handles) where
    -- Closing the latest descriptor leaves the others.
    pub closed_latest :
        (k : K) (fd : ℕ) (n : List ℕ) → handles k ≡ fd ∷ n → handles (sys.close k fd) ≡ n
    closed_latest k fd n h = counts.on_close k fd ∙ ap (without fd) h ∙ without_first fd n

    connected-Balanced :
        (fd : ℕ) (n : List ℕ) (c : Bool × K)
        → handles c.1 ≡ fd ∷ n
        → Balanced n (connected sys fd c)
    unfolding connected Balanced
    connected-Balanced fd n (false, k) h = closed_latest k fd n h
    connected-Balanced fd n (true, k) h = (refl, (fd, refl, counts.on_option k fd 15 ∙ h))

    bound-Balanced :
        (remote : Mac) (fd : ℕ) (n : List ℕ) (b : Bool × K)
        → handles b.1 ≡ fd ∷ n
        → Balanced n (bound sys remote fd b)
    unfolding bound Balanced
    bound-Balanced remote fd n (false, k) h = closed_latest k fd n h
    bound-Balanced remote fd n (true, k) h =
        connected-Balanced fd n (sys.connect k fd (address remote))
          (counts.on_connect k fd (address remote) ∙ h)

    bind_local-handles :
        (local : Option Mac) (fd : ℕ) (k : K) → handles (bind_local sys local fd k).1 ≡ handles k
    bind_local-handles none fd k = refl
    bind_local-handles (some local) fd k = counts.on_bind k fd (address local)

    -- A connect that fails, at whichever of its calls, leaves the descriptors open that were; one that
    -- succeeds leaves one more, held by a transport with a new reader.
    pub connect_blocking-Balanced :
        (remote : Mac) (local : Option Mac) (k : K)
        → Balanced (handles k) (connect_blocking sys remote local k)
    unfolding connect_blocking
    connect_blocking-Balanced remote local k = by_answer (sys.socket k 1 btproto_rfcomm) refl
      where
        by_answer :
            (a : Option ℕ × K)
            → sys.socket k 1 btproto_rfcomm ≡ a
            → Balanced (handles k) (opened sys remote local a)
        by_answer (none, k') e = unfold Balanced in counts.on_socket_error k k' 1 btproto_rfcomm e
        by_answer (some fd, k') e =
            unfold opened in
            bound-Balanced remote fd (handles k) (bind_local sys local fd k')
              (bind_local-handles local fd k' ∙ counts.on_socket k k' 1 btproto_rfcomm fd e)

    -- Closing gives the descriptor back, a second time closes nothing, and what is sent afterwards
    -- is refused.
    close-gives_back :
        (t : RfcommTransport) (k : K) (fd : ℕ) (n bytes : List ℕ)
        → t.fd ≡ some fd
        → handles k ≡ fd ∷ n
        → (handles (close sys t k).2 ≡ n)
          × (close sys (close sys t k).1 (close sys t k).2 ≡ close sys t k)
          × (send_frame sys (close sys t k).1 bytes (close sys t k).2
              ≡ (err closed, (close sys t k).2))
    unfolding close send_frame
    close-gives_back t k fd n bytes e h = (rw e (closed_latest k fd n h), refl, refl)
