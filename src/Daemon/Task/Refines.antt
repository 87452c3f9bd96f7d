-- ===== src/Daemon/Task/Refines.antt =====
-- The task against its back-off: whatever else happens, its pauses are those of `Backoff`.
use Prim.Native.String.{String}
use hass_sma_rs.Prelude.{
  ℕ, ◌≡◌, refl, sym, ap, ◌∙◌, List, [], ◌∷◌, ◌++◌, append_assoc, append-nil, false, Option, none,
  some, Bool-cases, inl, inr, All,
}
use mathlib.Core.Path.{subst}
use hass_sma_rs.Transport.Rfcomm.Socket.{Kernel}
use hass_sma_rs.Transport.Rfcomm.Link.{Link, rfcomm}
use hass_sma_rs.Client.Session.{Session}
use hass_sma_rs.Client.Session.Query.{graceful_close}
use hass_sma_rs.Mqtt.Publisher.{Outcome, panicked, returned}
use hass_sma_rs.Daemon.Readings.{Floats, Outputs, ◌>>=◌}
use hass_sma_rs.Daemon.Backoff.{
  Reconnect, Attempt, connect_failed, handshake_failed, session_ended, Effect, publish_online,
  at_start, on_connected, on_handshake_failed, grace_after, reconnect, attempts,
}
use hass_sma_rs.Daemon.Backoff.Bounds.{IsBounded, IsPause, attempts-IsBounded}
use hass_sma_rs.Daemon.Poll.{Target, Swept}
use hass_sma_rs.Daemon.Targets.{session_targets, yields_at}
use hass_sma_rs.Daemon.Start.{identify_each}
use hass_sma_rs.Daemon.Task.{
  Settings, Broker, Task, Serving, on_refused, on_accepted, on_rejected, Stage, connecting, linked,
  serving, dead, Reading, on_logon, on_yield, with_out, reject, leave, fetch, served, welcome,
  swept, yield_session, counted_poll, tick, Step, refused, accepted, rejected, welcomed, ticked,
  Run, here, further,
}

-- One round more.
attempts-snoc :
    (r r' : Reconnect) (rounds : List Attempt) (es : List Effect) (a : Attempt)
    → attempts r rounds ≡ (r', es)
    → attempts r (rounds ++ a ∷ []) ≡ ((reconnect r' a).0, es ++ (reconnect r' a).1)
unfolding attempts
attempts-snoc r r' [] es a h =
    let same : r ≡ r' = ap (λ (o : Reconnect × List Effect). o.0) h in
    let none_yet : [] ≡ es = ap (λ (o : Reconnect × List Effect). o.1) h in
    rw (← same, ← none_yet)
      (ap (λ (fs : List Effect). ((reconnect r a).0, fs)) (append-nil (reconnect r a).1))
attempts-snoc r r' (b ∷ rest) es a h =
    let r₁ = (reconnect r b).0 in
    let fs = (reconnect r b).1 in
    let later = attempts r₁ rest in
    let same : later.0 ≡ r' = ap (λ (o : Reconnect × List Effect). o.0) h in
    let split : fs ++ later.1 ≡ es = ap (λ (o : Reconnect × List Effect). o.1) h in
    let ih = attempts-snoc r₁ r' rest later.1 a (ap (λ (x : Reconnect). (x, later.1)) same) in
    ap (λ (o : Reconnect × List Effect). (o.0, fs ++ o.1)) ih
    ∙ ap (λ (gs : List Effect). ((reconnect r' a).0, gs))
        (sym (append_assoc fs later.1 (reconnect r' a).1)
          ∙ ap (λ (gs : List Effect). gs ++ (reconnect r' a).1) split)

-- The back-off while a session is up.
abbrev while_up : Reconnect → Reconnect
while_up r = record (on_connected r) { published_offline = false }

-- The rounds that stand behind a stage: those that are over, and the one that is not.
Sim : {K W : Type 0} → Reconnect → List Effect → Stage K W → Type 0
Sim r es (connecting k t) = (rounds : List Attempt) × (attempts r rounds ≡ (t.reconnect, es))
Sim r es (linked t s) =
    (rounds : List Attempt) × (r' : Reconnect) × (attempts r rounds ≡ (r', es))
    × (t.reconnect ≡ on_connected r')
Sim r es (serving t v) =
    (rounds : List Attempt) × (r' : Reconnect) × (fs : List Effect) × (attempts r rounds ≡ (r', fs))
    × (t.reconnect ≡ while_up r')
    × (es ≡ fs ++ publish_online ∷ [])
Sim r es dead = Unit

module _ {K F W : Type 0} (sys : Kernel K) (fuel : ℕ) (floats : Floats F) (outputs : Outputs F W)
    (rfc3339 : ℕ → String) (broker : Broker W) (cfg : Settings) where
  -- A session that ends, by a yield or not.
  leave-Sim :
      (r r' : Reconnect) (rounds : List Attempt) (fs es : List Effect) (yielded : Option ℕ)
      (t : Task W) (s : Session (Link K))
      → attempts r rounds ≡ (r', fs)
      → t.reconnect ≡ record (while_up r') { post_yield_deadline = grace_after yielded }
      → es ≡ fs ++ publish_online ∷ []
      → Sim r es (leave sys fuel floats outputs rfc3339 broker cfg t s)
  unfolding leave Sim reconnect
  leave-Sim r r' rounds fs es yielded t s h e split = (
    rounds ++ session_ended yielded ∷ [],
    attempts-snoc r r' rounds fs (session_ended yielded) h
        ∙ ap (λ (o : Reconnect × List Effect). (o.0, o.1)) (rw (e, split) refl),
  )

  swept-Sim :
      (r : Reconnect) (es : List Effect) (t : Task W) (v : Serving K)
      (o : Outcome (Swept (rfcomm sys fuel) floats outputs))
      → Sim r es (serving t v)
      → Sim r es (swept sys fuel floats outputs rfc3339 broker cfg t v o)
  unfolding Sim
  swept-Sim r es t v panicked h = tt
  swept-Sim r es t v (returned o) (rounds, r', fs, h, e, split) = elim (Bool-cases o.cycle_ok) [
    | inl good ↦ rw good (rounds, r', fs, h, e, split)
    | inr broken ↦
        rw broken (leave-Sim r r' rounds fs es none (with_out t o.world.1) o.world.0 h e split)
  ]

  tick-Sim :
      (r : Reconnect) (es : List Effect) (readings : ℕ → Reading) (now : ℕ) (t : Task W)
      (v : Serving K)
      → Sim r es (serving t v)
      → Sim r es (tick sys fuel floats outputs rfc3339 broker cfg readings now t v)
  unfolding Sim tick on_yield
  tick-Sim r es readings now t v (rounds, r', fs, h, e, split) =
      elim (Bool-cases (yields_at cfg.inv (counted_poll v).poll_count)) [
        | inl yields ↦
            rw (yields, yield_session)
              (leave-Sim r r' rounds fs es (some now) (on_yield now t)
                (graceful_close (rfcomm sys fuel) (counted_poll v).session).1 h
                (ap (λ (x : Reconnect). record x { post_yield_deadline = grace_after (some now) })
                  e)
                split)
        | inr polls ↦ rw polls (swept-Sim r es t (counted_poll v) _ (rounds, r', fs, h, e, split))
      ]

  welcome-Sim :
      (r : Reconnect) (es : List Effect) (end : ℕ) (t : Task W) (s : Session (Link K))
      → Sim r es (linked t s)
      → Sim r
          (es ++ publish_online ∷ [])
          (welcome sys fuel floats outputs rfc3339 broker cfg end t s)
  unfolding Sim welcome on_logon
  welcome-Sim r es end t s (rounds, r', h, e) = by_start (
      fetch sys fuel floats outputs rfc3339 broker cfg end targets (s, t'.out)
      >>= identify_each (rfcomm sys fuel) outputs rfc3339 targets)
    where
      targets : List Target
      targets = session_targets cfg.inv t.identity s.inverter_susy_id s.inverter_serial

      t' : Task W
      t' = on_logon broker cfg.inv s.inverter_susy_id s.inverter_serial t

      by_start :
          (o : Outcome (List Target × Session (Link K) × W))
          → Sim r
              (es ++ publish_online ∷ [])
              (served sys fuel floats outputs rfc3339 broker cfg t' o)
      by_start panicked = tt
      by_start (returned o) = (
        rounds,
        r',
        es,
        h,
        ap (λ (x : Reconnect). record x { published_offline = false }) e,
        refl,
      )

  step-Sim :
      (r : Reconnect) (es fs : List Effect) (a b : Stage K W)
      → Step sys fuel floats outputs rfc3339 broker cfg a fs b
      → Sim r es a
      → Sim r (es ++ fs) b
  unfolding Sim on_refused on_accepted on_rejected reject reconnect on_handshake_failed
  step-Sim r es fs a b (refused {k} {k'} {t} {e} is_down now now' answer) (rounds, h) = (
    rounds ++ connect_failed is_down now now' ∷ [],
    attempts-snoc r t.reconnect rounds es (connect_failed is_down now now') h,
  )
  step-Sim r es fs a b (accepted {k} {k'} {t} answer) (rounds, h) = (
    rounds,
    t.reconnect,
    h ∙ ap (λ (gs : List Effect). (t.reconnect, gs)) (sym (append-nil es)),
    refl,
  )
  step-Sim r es fs a b (rejected {t} now_epoch answer) (rounds, r', h, e) = (
    rounds ++ handshake_failed ∷ [],
    attempts-snoc r r' rounds es handshake_failed h
        ∙ ap (λ (x : Reconnect). ((on_handshake_failed x).0, es ++ (on_handshake_failed x).1))
            (sym e),
  )
  step-Sim r es fs a b (welcomed {t} {s} {s'} now_epoch end answer) h = welcome-Sim r es end t s' h
  step-Sim r es fs a b (ticked {t} {v} readings now) h =
      subst
        (λ (gs : List Effect).
          Sim r gs (tick sys fuel floats outputs rfc3339 broker cfg readings now t v))
        (sym (append-nil es)) (tick-Sim r es readings now t v h)

  onward-Sim :
      (r : Reconnect) (es : List Effect) (a : Stage K W)
      → Sim r es a
      → (fs : List Effect) (b : Stage K W) → Run sys fuel floats outputs rfc3339 broker cfg a fs b
      → Sim r (es ++ fs) b
  onward-Sim r es a h fs b here = subst (λ (gs : List Effect). Sim r gs a) (sym (append-nil es)) h
  onward-Sim r es a h fs c (further {b = b} {es = gs} {fs = hs} run step) =
      subst (λ (all : List Effect). Sim r all c) (append_assoc es gs hs)
        (step-Sim r (es ++ gs) hs b c step (onward-Sim r es a h gs b run))

  -- Whatever sockets, inverters, clocks and publishers do: between two connects of a task, what its
  -- back-off makes it do, pauses and changes to offline and online, and the back-off that it is left
  -- with, are those of some rounds of the reconnect loop.
  Run-attempts :
      (es : List Effect) (k k' : K) (t t' : Task W)
      → Run sys fuel floats outputs rfc3339 broker cfg (connecting k t) es (connecting k' t')
      → (rounds : List Attempt) × (attempts t.reconnect rounds ≡ (t'.reconnect, es))
  unfolding Sim attempts
  Run-attempts es k k' t t' run =
      onward-Sim t.reconnect [] (connecting k t) ([], refl) es (connecting k' t') run

  -- In any run of a task from its start to one of its connects, no pause of the back-off is shorter
  -- than two seconds or longer than ten minutes, and the back-off stays between two seconds and a
  -- minute.
  pub Run-IsPause :
      (es : List Effect) (k k' : K) (t t' : Task W)
      → t.reconnect ≡ at_start
      → Run sys fuel floats outputs rfc3339 broker cfg (connecting k t) es (connecting k' t')
      → IsBounded t'.reconnect × All IsPause es
  Run-IsPause es k k' t t' start run =
      let (rounds, h) = Run-attempts es k k' t t' run in
      let h' = ap (λ (x : Reconnect). attempts x rounds) (sym start) ∙ h in
      subst (λ (o : Reconnect × List Effect). IsBounded o.0 × All IsPause o.1) h'
        (attempts-IsBounded rounds)
