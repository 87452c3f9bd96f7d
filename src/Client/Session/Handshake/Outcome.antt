-- ===== src/Client/Session/Handshake/Outcome.antt =====
-- How the handshake ends: logged in exactly when it succeeds.
use hass_sma_rs.Prelude.{ℕ, ◌≡◌, refl, sym, Result, ok, err}
use mathlib.Core.Path.{subst}
use hass_sma_rs.Transport.Interface.{Transport}
use hass_sma_rs.Client.Errors.{SessionError}
use hass_sma_rs.Client.Session.{
  Session, SessionState, handshaking, enumerating, logged_in, Method, ◌>>=◌, proceed, set_state,
}
use hass_sma_rs.Client.Session.Keeps.{Keeps, unchanged}
use hass_sma_rs.Client.Session.Handshake.Steps.{
  recv_hello-Keeps, echo_and_topology-Keeps, identify-Keeps, send_logoff-Keeps, send_logon-Keeps,
  await_logon-Keeps,
}
use hass_sma_rs.Client.Session.Handshake.{handshake_and_logon}

-- In the middle of a handshake.
pub IsMid : SessionState → Type 0
IsMid handshaking = Unit
IsMid enumerating = Unit
IsMid _ = ⊥

-- The state that goes with a result: logged in after a success, in the middle after a failure.
unfoldable pub IsSettled : Result SessionError (Unit {0}) → SessionState → Type 0
IsSettled (ok done) state = state ≡ logged_in
IsSettled (err e) state = IsMid state

record Settles {T : Type 0} (m : Method T (Unit {0})) : Type 0 where
  at : (s : Session T) → IsMid s.state → IsSettled (m s).0 (m s).1.state

module _ {T A : Type 0} (f : A → Method T (Unit {0})) (later : (a : A) → Settles (f a)) where
  proceed-IsSettled :
      (r : Result SessionError A) (s : Session T)
      → IsMid s.state
      → let (q, s') = proceed f r s in IsSettled q s'.state
  unfolding IsSettled
  proceed-IsSettled (ok a) s mid = (later a).at s mid
  proceed-IsSettled (err e) s mid = mid

bind-Settles :
    {T A : Type 0} {net : Transport T} (m : Method T A) (f : A → Method T (Unit {0}))
    → Keeps (unchanged net) m
    → ((a : A) → Settles (f a))
    → Settles (m >>= f)
unfolding ◌>>=◌
bind-Settles m f km later = record {
  at = λ s mid.
      let (r, s') = m s in proceed-IsSettled f later r s' (subst IsMid (sym (km.at s).state) mid);
}

enter-Settles :
    {T : Type 0} (state : SessionState) (m : Method T (Unit {0}))
    → IsMid state
    → Settles m
    → (s : Session T) → let (r, s') = (set_state state >>= λ _. m) s in IsSettled r s'.state
unfolding ◌>>=◌ set_state
enter-Settles state m mid later s = later.at (record s { state = state }) mid

login-Settles : {T : Type 0} → Settles (set_state {T = T} logged_in)
unfolding set_state IsSettled
login-Settles = record { at = λ s mid. refl }

module _ {T : Type 0} (net : Transport T) (now_epoch : ℕ) where
  -- Over any transport, a handshake that succeeds leaves the session logged in, and one that fails
  -- leaves it in the middle, at `handshaking` or `enumerating`.
  pub handshake_and_logon-IsSettled :
      (s : Session T) → let (r, s') = handshake_and_logon net now_epoch s in IsSettled r s'.state
  unfolding handshake_and_logon IsMid
  handshake_and_logon-IsSettled = enter-Settles handshaking _ tt (
      bind-Settles {net = net} _ _ (recv_hello-Keeps net) (λ h.
        bind-Settles {net = net} _ _ (echo_and_topology-Keeps net h) (λ _. record {
          at = λ s mid.
              enter-Settles enumerating _ tt
                (bind-Settles {net = net} _ _ (identify-Keeps net h.inverter_bt) (λ _.
                  bind-Settles {net = net} _ _ (send_logoff-Keeps net) (λ _.
                    bind-Settles {net = net} _ _ (send_logon-Keeps net now_epoch) (λ pkt_id.
                      bind-Settles {net = net} _ _ (await_logon-Keeps net pkt_id)
                        (λ _. login-Settles)))))
                s;
        })))
