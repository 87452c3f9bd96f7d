-- ===== src/Daemon/Task/Serves.antt =====
-- The session of a task that polls: logged in, under the one serial of the task.
use Prim.Native.String.{String}
use native.Mathlib.Nat.{mod_self}
use hass_sma_rs.Prelude.{
  ℕ, ◌+◌, ◌%◌, ◌^◌, ◌<◌, ◌≡◌, ◌≢◌, refl, ◌∙◌, List, false, Bool-cases, inl, inr, ltb, ◌==◌, ◌&&◌,
  Result, ok, arith,
}
use mathlib.Core.Path.{subst}
use hass_sma_rs.Transport.Interface.{Transport}
use hass_sma_rs.Transport.Rfcomm.Socket.{Kernel}
use hass_sma_rs.Transport.Rfcomm.Link.{Link, rfcomm}
use hass_sma_rs.Client.Errors.{SessionError}
use hass_sma_rs.Client.Session.{Session, logged_in, set_state, new_with_app_serial}
use hass_sma_rs.Client.Session.Keeps.{Kept, Unchanged, unchanged}
use hass_sma_rs.Client.Session.Handshake.{handshake_and_logon}
use hass_sma_rs.Client.Session.Handshake.Steps.{handshake_and_logon-Keeps}
use hass_sma_rs.Client.Session.Handshake.Outcome.{IsSettled, handshake_and_logon-IsSettled}
use hass_sma_rs.Mqtt.Publisher.{Outcome, panicked, returned}
use hass_sma_rs.Daemon.Readings.{Floats, Outputs}
use hass_sma_rs.Daemon.Backoff.{Effect}
use hass_sma_rs.Daemon.Poll.{Target, Swept}
use hass_sma_rs.Daemon.Poll.Sessions.{OnReturn, FromSwept, sweep-kept}
use hass_sma_rs.Daemon.Start.Sessions.{FromIdentified}
use hass_sma_rs.Daemon.Targets.{session_targets, yields_at}
use hass_sma_rs.Daemon.Task.{
  Settings, Broker, Task, Serving, Stage, connecting, linked, serving, dead, Reading, visits,
  on_logon, session_config, new_session, reject, leave, served, welcome, swept, yield_session,
  counted_poll, tick, Step, refused, accepted, rejected, welcomed, ticked, Run, here, further,
}
use hass_sma_rs.Daemon.Task.Keeps.{start-kept}

-- A tick that does not yield, below the number of polls at which it would.
pub counted_below :
    (every count : ℕ)
    → every < 2 ^ 32
    → count < every
    → (ltb 0 every && ((count + 1) % 2 ^ 32) % every == 0) ≡ false
    → ((count + 1) % 2 ^ 32 ≡ count + 1) × (count + 1 < every)
counted_below every count small below polls =
    let same : (count + 1) % 2 ^ 32 ≡ count + 1 = omega arith in
    (same, ground (arith, not_yet same))
  where
    not_yet : (count + 1) % 2 ^ 32 ≡ count + 1 → count + 1 ≢ every
    not_yet same e =
        let at_zero : (ltb 0 every && 0 == 0) ≡ false =
          subst (λ (m : ℕ). (ltb 0 every && m == 0) ≡ false) (mod_self every)
            (subst (λ (c : ℕ). (ltb 0 every && c % every == 0) ≡ false) (same ∙ e) polls) in
        ground arith

-- The configuration and the serial of a session are those of the task.
pub record IsOurs {T : Type 0} (cfg : Settings) (s : Session T) : Type 0 where
  pub configured : s.cfg ≡ session_config cfg
  pub numbered : s.app_serial ≡ cfg.app_serial

record SameNames {T : Type 0} (s s' : Session T) : Type 0 where
  same_cfg : s'.cfg ≡ s.cfg
  same_serial : s'.app_serial ≡ s.app_serial

names : {T : Type 0} (net : Transport T) → Kept net
names net = record {
  rel = SameNames;
  reflexive = λ s. record { same_cfg = refl; same_serial = refl };
  transitive = λ p q. record {
    same_cfg = q.same_cfg ∙ p.same_cfg;
    same_serial = q.same_serial ∙ p.same_serial;
  };
  on_send = λ s bytes. record { same_cfg = refl; same_serial = refl };
  on_recv = λ s. record { same_cfg = refl; same_serial = refl };
  on_pcktid = λ s id. record { same_cfg = refl; same_serial = refl };
  on_identity = λ s susy serial. record { same_cfg = refl; same_serial = refl };
}

module _ {K F W : Type 0} (sys : Kernel K) (fuel : ℕ) (floats : Floats F) (outputs : Outputs F W)
    (rfc3339 : ℕ → String) (broker : Broker W) (cfg : Settings) where
  abbrev net : Transport (Link K)
  net = rfcomm sys fuel

  -- A poll loop: its session is logged in and the task's, and a yield is still to come.
  pub record IsServing (v : Serving K) : Type 0 where
    pub up : v.session.state ≡ logged_in
    pub ours : IsOurs cfg v.session
    pub below : 0 < cfg.inv.yield_every → v.poll_count < cfg.inv.yield_every

  pub Serves : Stage K W → Type 0
  Serves (connecting k t) = Unit
  Serves (linked t s) = IsOurs cfg s
  Serves (serving t v) = IsServing v
  Serves dead = Unit

  moved :
      (s s' : Session (Link K))
      → Unchanged s s'
      → (s.state ≡ logged_in) × IsOurs cfg s
      → (s'.state ≡ logged_in) × IsOurs cfg s'
  moved s s' u (up, ours) = (
    u.state ∙ up,
    record { configured = u.cfg ∙ ours.configured; numbered = u.app_serial ∙ ours.numbered },
  )

  swept-Serves :
      (t : Task W) (v : Serving K) (o : Outcome (Swept net floats outputs))
      → IsServing v
      → OnReturn (FromSwept net (unchanged net) outputs floats v.session) o
      → Serves (swept sys fuel floats outputs rfc3339 broker cfg t v o)
  unfolding Serves leave
  swept-Serves t v panicked h r = tt
  swept-Serves t v (returned o) h r = elim (Bool-cases o.cycle_ok) [
    | inl good ↦
        let (up, ours) = moved v.session o.world.0 r (h.up, h.ours) in
        rw good (record { up = up; ours = ours; below = h.below })
    | inr broken ↦ rw broken tt
  ]

  tick-Serves :
      (now : ℕ) (readings : ℕ → Reading) (t : Task W) (v : Serving K)
      → cfg.inv.yield_every < 2 ^ 32
      → IsServing v
      → Serves (tick sys fuel floats outputs rfc3339 broker cfg readings now t v)
  unfolding Serves tick yield_session leave
  tick-Serves now readings t v small h =
      elim (Bool-cases (yields_at cfg.inv (counted_poll v).poll_count)) [
        | inl yields ↦ rw yields tt
        | inr polls ↦ rw polls (
            swept-Serves t (counted_poll v) _
              (record {
                up = h.up;
                ours = h.ours;
                below = λ on.
                    let (same, next) =
                      counted_below cfg.inv.yield_every v.poll_count small (h.below on) polls in
                    omega (arith, same, next);
              })
              (sweep-kept net (unchanged net) outputs floats (visits readings 0 v.targets) 0
                v.tracker v.session v.session t.out ((unchanged net).reflexive v.session)))
      ]

  welcome-Serves :
      (end : ℕ) (t : Task W) (s : Session (Link K))
      → s.state ≡ logged_in
      → IsOurs cfg s
      → Serves (welcome sys fuel floats outputs rfc3339 broker cfg end t s)
  unfolding welcome Serves
  welcome-Serves end t s up ours =
      let targets = session_targets cfg.inv t.identity s.inverter_susy_id s.inverter_serial in
      let t' = on_logon broker cfg.inv s.inverter_susy_id s.inverter_serial t in
      by_start t' _
        (start-kept sys fuel floats outputs rfc3339 broker cfg (unchanged net) end targets s t'.out)
    where
      by_start :
          (t' : Task W) (o : Outcome (List Target × Session (Link K) × W))
          → OnReturn (FromIdentified net (unchanged net) outputs rfc3339 s) o
          → Serves (served sys fuel floats outputs rfc3339 broker cfg t' o)
      by_start t' panicked r = tt
      by_start t' (returned (targets, s', w)) r =
          let (up', ours') = moved s s' r (up, ours) in
          record { up = up'; ours = ours'; below = λ on. on }

  -- A session that has logged in is logged in, and still the task's.
  logon-IsOurs :
      (now_epoch : ℕ) (s s' : Session (Link K))
      → handshake_and_logon net now_epoch s ≡ (ok tt, s')
      → IsOurs cfg s
      → (s'.state ≡ logged_in) × IsOurs cfg s'
  unfolding IsSettled names set_state
  logon-IsOurs now_epoch s s' e ours =
      let kept : SameNames s s' =
        subst (λ (o : Result SessionError (Unit {0}) × Session (Link K)). SameNames s o.1) e
          ((handshake_and_logon-Keeps net {k = names net}
              (λ state. record { at = λ s'. record { same_cfg = refl; same_serial = refl } })
              now_epoch).at
            s) in
      (
        subst (λ (o : Result SessionError (Unit {0}) × Session (Link K)). IsSettled o.0 o.1.state) e
            (handshake_and_logon-IsSettled net now_epoch s),
        record {
          configured = kept.same_cfg ∙ ours.configured;
          numbered = kept.same_serial ∙ ours.numbered;
        },
      )

  step-Serves :
      (es : List Effect) (a b : Stage K W)
      → cfg.inv.yield_every < 2 ^ 32
      → Step sys fuel floats outputs rfc3339 broker cfg a es b
      → Serves a
      → Serves b
  unfolding Serves reject new_session new_with_app_serial
  step-Serves es a b small (refused is_down now now' answer) h = tt
  step-Serves es a b small (accepted answer) h = record { configured = refl; numbered = refl }
  step-Serves es a b small (rejected now_epoch answer) h = tt
  step-Serves es a b small (welcomed {t} {s} {s'} now_epoch end answer) h =
      let (up, ours) = logon-IsOurs now_epoch s s' answer h in welcome-Serves end t s' up ours
  step-Serves es a b small (ticked {t} {v} readings now) h = tick-Serves now readings t v small h

  -- In any run of a task, with a number of polls between yields that fits 32 bits, each session has
  -- the task's configuration and application serial, one that is polled is logged in, and it has had
  -- fewer polls than make a yield due.
  pub Run-Serves :
      (k : K) (t : Task W) (es : List Effect) (b : Stage K W)
      → cfg.inv.yield_every < 2 ^ 32
      → Run sys fuel floats outputs rfc3339 broker cfg (connecting k t) es b
      → Serves b
  unfolding Serves
  Run-Serves k t es b small here = tt
  Run-Serves k t es c small (further {b = b} {es = gs} {fs = hs} run step) =
      step-Serves hs b c small step (Run-Serves k t gs b small run)
