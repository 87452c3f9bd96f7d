-- ===== src/Daemon/Task/Holds.antt =====
-- The descriptors of a task: one while it is connected, given back on every way to the next connect.
use Prim.Native.String.{String}
use hass_sma_rs.Prelude.{ℕ, ◌≡◌, refl, ap, ◌∙◌, List, ◌∷◌, Bool-cases, inl, inr, Result, ok, err}
use mathlib.Core.Path.{subst}
use hass_sma_rs.Transport.Rfcomm.Socket.{Kernel}
use hass_sma_rs.Transport.Rfcomm.Handles.{Counts, Balanced, connect_blocking-Balanced}
use hass_sma_rs.Transport.Rfcomm.Link.{Link, rfcomm}
use hass_sma_rs.Client.Sockets.{
  Conserves, held, HasSocket, Held-HasSocket, close-handles, graceful_close-handles,
  handshake_and_logon-HasSocket,
}
use hass_sma_rs.Client.Errors.{SessionError}
use hass_sma_rs.Client.Session.{Session, new_with_app_serial}
use hass_sma_rs.Client.Session.Handshake.{handshake_and_logon}
use hass_sma_rs.Mqtt.Publisher.{Outcome, panicked, returned}
use hass_sma_rs.Daemon.Readings.{Floats, Outputs}
use hass_sma_rs.Daemon.Backoff.{Effect}
use hass_sma_rs.Daemon.Poll.{Target, Swept}
use hass_sma_rs.Daemon.Poll.Sessions.{OnReturn, FromSwept, sweep-kept}
use hass_sma_rs.Daemon.Start.Sessions.{FromIdentified}
use hass_sma_rs.Daemon.Task.Keeps.{start-kept}
use hass_sma_rs.Daemon.Targets.{session_targets, yields_at}
use hass_sma_rs.Daemon.Task.{
  Settings, Broker, Task, Serving, Stage, connecting, linked, serving, dead, Reading, visits,
  on_logon, with_out, new_session, reject, leave, served, welcome, swept, yield_session,
  counted_poll, tick, Step, refused, accepted, rejected, welcomed, ticked, Run, here, further,
}

module _ {K F W : Type 0} (sys : Kernel K) (handles : K → List ℕ)
    (conserves : Conserves sys handles) (counts : Counts sys handles) (fuel : ℕ) (floats : Floats F)
    (outputs : Outputs F W) (rfc3339 : ℕ → String) (broker : Broker W) (cfg : Settings) where
  -- The descriptors of others are open, and the one of the task while it is connected.
  pub Holds : List ℕ → Stage K W → Type 0
  Holds n (connecting k t) = handles k ≡ n
  Holds n (linked t s) = HasSocket sys handles conserves fuel n s
  Holds n (serving t v) = HasSocket sys handles conserves fuel n v.session
  Holds n dead = Unit

  moved :
      (n : List ℕ) (s s' : Session (Link K))
      → (held sys handles conserves fuel).rel s s'
      → HasSocket sys handles conserves fuel n s
      → HasSocket sys handles conserves fuel n s'
  unfolding held
  moved n s s' h = Held-HasSocket sys handles conserves fuel n s s' h

  leave-Holds :
      (n : List ℕ) (t : Task W) (s : Session (Link K))
      → HasSocket sys handles conserves fuel n s
      → Holds n (leave sys fuel floats outputs rfc3339 broker cfg t s)
  unfolding leave Holds
  leave-Holds n t s h = (graceful_close-handles sys handles conserves fuel counts n s h).0

  -- The second close of a yield finds the descriptor gone.
  yield-Holds :
      (n : List ℕ) (now : ℕ) (t : Task W) (v : Serving K)
      → HasSocket sys handles conserves fuel n v.session
      → Holds n (yield_session sys fuel floats outputs rfc3339 broker cfg now t v)
  unfolding yield_session leave Holds
  yield-Holds n now t v h =
      (graceful_close-handles sys handles conserves fuel counts n v.session h).1

  swept-Holds :
      (n : List ℕ) (t : Task W) (v : Serving K)
      (o : Outcome (Swept (rfcomm sys fuel) floats outputs))
      → HasSocket sys handles conserves fuel n v.session
      → OnReturn
          (FromSwept (rfcomm sys fuel) (held sys handles conserves fuel) outputs floats v.session)
          o
      → Holds n (swept sys fuel floats outputs rfc3339 broker cfg t v o)
  unfolding Holds
  swept-Holds n t v panicked h r = tt
  swept-Holds n t v (returned o) h r =
      let h' = moved n v.session o.world.0 r h in
      elim (Bool-cases o.cycle_ok) [
        | inl good ↦ rw good h'
        | inr broken ↦ rw broken (leave-Holds n (with_out t o.world.1) o.world.0 h')
      ]

  tick-Holds :
      (n : List ℕ) (now : ℕ) (readings : ℕ → Reading) (t : Task W) (v : Serving K)
      → HasSocket sys handles conserves fuel n v.session
      → Holds n (tick sys fuel floats outputs rfc3339 broker cfg readings now t v)
  unfolding tick
  tick-Holds n now readings t v h =
      let k = held sys handles conserves fuel in
      elim (Bool-cases (yields_at cfg.inv (counted_poll v).poll_count)) [
        | inl yields ↦ rw yields (yield-Holds n now t (counted_poll v) h)
        | inr polls ↦ rw polls (
            swept-Holds n t (counted_poll v) _ h (
              sweep-kept (rfcomm sys fuel) k outputs floats (visits readings 0 v.targets) 0
                v.tracker v.session v.session t.out (k.reflexive v.session)))
      ]

  welcome-Holds :
      (n : List ℕ) (end : ℕ) (t : Task W) (s : Session (Link K))
      → HasSocket sys handles conserves fuel n s
      → Holds n (welcome sys fuel floats outputs rfc3339 broker cfg end t s)
  unfolding welcome Holds
  welcome-Holds n end t s h =
      let targets = session_targets cfg.inv t.identity s.inverter_susy_id s.inverter_serial in
      let t' = on_logon broker cfg.inv s.inverter_susy_id s.inverter_serial t in
      by_start t' _ (
        start-kept sys fuel floats outputs rfc3339 broker cfg (held sys handles conserves fuel) end
          targets s t'.out)
    where
      by_start :
          (t' : Task W) (o : Outcome (List Target × Session (Link K) × W))
          → OnReturn
              (FromIdentified (rfcomm sys fuel) (held sys handles conserves fuel) outputs rfc3339 s)
              o
          → Holds n (served sys fuel floats outputs rfc3339 broker cfg t' o)
      by_start t' panicked r = tt
      by_start t' (returned (targets, s', w)) r = moved n s s' r h

  handshake-HasSocket :
      (n : List ℕ) (now_epoch : ℕ) (s : Session (Link K))
      (o : Result SessionError (Unit {0}) × Session (Link K))
      → handshake_and_logon (rfcomm sys fuel) now_epoch s ≡ o
      → HasSocket sys handles conserves fuel n s
      → HasSocket sys handles conserves fuel n o.1
  handshake-HasSocket n now_epoch s o e h =
      subst
        (λ (x : Result SessionError (Unit {0}) × Session (Link K)).
          HasSocket sys handles conserves fuel n x.1)
        e (handshake_and_logon-HasSocket sys handles conserves fuel n now_epoch s h)

  step-Holds :
      (n : List ℕ) (es : List Effect) (a b : Stage K W)
      → Step sys fuel floats outputs rfc3339 broker cfg a es b
      → Holds n a
      → Holds n b
  unfolding Holds Balanced reject new_session new_with_app_serial
  step-Holds n es a b (refused {k} {k'} {t} {e} is_down now now' answer) h =
      subst (Balanced sys handles (handles k)) answer
        (connect_blocking-Balanced sys handles counts cfg.inverter_bt cfg.local_bt k)
      ∙ h
  step-Holds n es a b (accepted {k} {k'} {t} {socket} answer) h =
      let (_, (fd, e, more)) =
        subst (Balanced sys handles (handles k)) answer
          (connect_blocking-Balanced sys handles counts cfg.inverter_bt cfg.local_bt k) in
      (fd, e, more ∙ ap (λ (fds : List ℕ). fd ∷ fds) h)
  step-Holds n es a b (rejected {t} {s} {s'} {e} now_epoch answer) h =
      (close-handles sys handles conserves fuel counts n s'
        (handshake-HasSocket n now_epoch s (err e, s') answer h)).0
  step-Holds n es a b (welcomed {t} {s} {s'} now_epoch end answer) h =
      welcome-Holds n end t s' (handshake-HasSocket n now_epoch s (ok tt, s') answer h)
  step-Holds n es a b (ticked {t} {v} readings now) h = tick-Holds n now readings t v h

  onward-Holds :
      (n : List ℕ) (a : Stage K W)
      → Holds n a
      → (es : List Effect) (b : Stage K W) → Run sys fuel floats outputs rfc3339 broker cfg a es b
      → Holds n b
  onward-Holds n a h es b here = h
  onward-Holds n a h es c (further {b = b} {es = gs} {fs = hs} run step) =
      step-Holds n hs b c step (onward-Holds n a h gs b run)

  -- Wherever a run of a task stands that has not panicked, the descriptors are open that were in
  -- front of its first connect, and no others but the one that its session holds, from a connect that
  -- succeeds to the end of that session: a failed logon, a yield, which closes twice, and a session
  -- that is dead all close that one, and no other.
  pub Run-Holds :
      (k : K) (t : Task W) (es : List Effect) (b : Stage K W)
      → Run sys fuel floats outputs rfc3339 broker cfg (connecting k t) es b
      → Holds (handles k) b
  unfolding Holds
  Run-Holds k t es b run = onward-Holds (handles k) (connecting k t) refl es b run
