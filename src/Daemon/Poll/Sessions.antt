-- ===== src/Daemon/Poll/Sessions.antt =====
-- What a sweep of crates/daemon/src/main.rs keeps of the session that it uses.
use hass_sma_rs.Prelude.{ℕ, suc, List, [], ◌∷◌, Bool, true, false, if◌then◌else◌, Result, ok, err}
use hass_sma_rs.Protocol.Commands.{QueryKind}
use hass_sma_rs.Transport.Interface.{Transport}
use hass_sma_rs.Client.Errors.{SessionError, is_session_fatal}
use hass_sma_rs.Client.Session.{Session}
use hass_sma_rs.Client.Session.Keeps.{Kept}
use hass_sma_rs.Client.Session.Query.{query_for_device}
use hass_sma_rs.Client.Session.Query.States.{query_for_device-Keeps}
use hass_sma_rs.Mqtt.Publisher.{Outcome, panicked, returned}
use hass_sma_rs.Daemon.Readings.{Floats, Outputs, publish_query_result, ◌>>=◌}
use hass_sma_rs.Daemon.Poll.{
  Target, Visit, Tracker, Polled, answered, device_failed, session_failed, per_tick_queries,
  counted, past_gate, is_cooling, SweepWorld, Swept, on_error, on_reply, query_each,
  publish_failure, publish_success, settle, visit_target, go_on, sweep, cleared, cooled, counting,
}

-- What holds of the value, if there is one.
abbrev pub OnReturn : {A : Type 0} → (A → Type 0) → Outcome A → Type 0
OnReturn P panicked = Unit {0}
OnReturn P (returned a) = P a

pub bind-OnReturn :
    {A B : Type 0} (P : A → Type 0) (Q : B → Type 0) (m : Outcome A) (f : A → Outcome B)
    → OnReturn P m
    → ((a : A) → P a → OnReturn Q (f a))
    → OnReturn Q (m >>= f)
bind-OnReturn P Q panicked f h later = tt
bind-OnReturn P Q (returned a) f h later = later a h

-- A step whose value does not matter.
pub skip-OnReturn :
    {A B : Type 0} (Q : B → Type 0) (m : Outcome A) (f : A → Outcome B)
    → ((a : A) → OnReturn Q (f a))
    → OnReturn Q (m >>= f)
skip-OnReturn Q panicked f later = tt
skip-OnReturn Q (returned a) f later = later a

module _ {T F W : Type 0} (net : Transport T) (k : Kept net) (outputs : Outputs F W) where
  module _ (floats : Floats F) where
    -- A visit so far, from the session `s`.
    abbrev FromPolled : Session T → Polled × Session T × W → Type 0
    FromPolled s (p, s', w') = k.rel s s'

    abbrev FromVisit : Session T → Polled × Tracker × SweepWorld net floats outputs → Type 0
    FromVisit s (p, t', (s', w')) = k.rel s s'

    abbrev pub FromSwept : Session T → Swept net floats outputs → Type 0
    FromSwept s o = k.rel s o.world.0

    query_each-kept :
        (kinds : List QueryKind) (target : Target) (s₀ s : Session T) (w : W)
        → k.rel s₀ s
        → OnReturn (FromPolled s₀) (query_each net floats outputs kinds target (s, w))
    unfolding query_each on_error
    query_each-kept [] target s₀ s w h = h
    query_each-kept (kind ∷ kinds) target s₀ s w h =
        by_reply (query_for_device net target.susy target.serial kind s)
          (k.transitive h
            ((query_for_device-Keeps net {k = k} target.susy target.serial kind).at s))
          (query_each-kept kinds target s₀)
      where
        by_reply :
            (o : Result SessionError (List ℕ) × Session T)
            → k.rel s₀ o.1
            → ((s' : Session T) (w' : W)
                → k.rel s₀ s'
                → OnReturn (FromPolled s₀) (query_each net floats outputs kinds target (s', w')))
            → OnReturn (FromPolled s₀) (
                on_reply net floats outputs
                  (query_each net floats outputs kinds target)
                  kind
                  target
                  w
                  o)
        by_reply (ok body, s') h' rest =
            skip-OnReturn (FromPolled s₀)
              (publish_query_result outputs floats kind body target.identity w)
              (λ (w' : W). query_each net floats outputs kinds target (s', w'))
              (λ w'. rest s' w' h')
        by_reply (err e, s') h' rest =
            skip-OnReturn (FromPolled s₀)
              (outputs.put_value w target.identity "poll_status" "error")
              (λ (w' : W).
                returned (if is_session_fatal e then session_failed else device_failed, s', w'))
              (λ w'. h')

    settle-kept :
        (v : Visit) (t : Tracker) (s₀ : Session T) (o : Polled × Session T × W)
        → FromPolled s₀ o
        → OnReturn (FromVisit s₀) (settle net floats outputs v t o)
    unfolding settle
    settle-kept v t s₀ (answered, s, w) h =
        skip-OnReturn (FromVisit s₀) (publish_success net floats outputs v w)
          (λ (w' : W). returned (answered, cleared v t, (s, w'))) (λ w'. h)
    settle-kept v t s₀ (device_failed, s, w) h =
        let cf = counted v.target.serial t in
        skip-OnReturn (FromVisit s₀) (publish_failure net floats outputs v cf w)
          (λ (w' : W). returned (device_failed, cooled v cf (counting v t), (s, w'))) (λ w'. h)
    settle-kept v t s₀ (session_failed, s, w) h = h

    visit_target-kept :
        (v : Visit) (t : Tracker) (s₀ s : Session T) (w : W)
        → k.rel s₀ s
        → OnReturn (FromVisit s₀) (visit_target net floats outputs v t (s, w))
    unfolding visit_target
    visit_target-kept v t s₀ s w h =
        bind-OnReturn (FromPolled s₀) (FromVisit s₀)
          (query_each net floats outputs per_tick_queries v.target (s, w))
          (settle net floats outputs v (past_gate v t))
          (query_each-kept per_tick_queries v.target s₀ s w h) (settle-kept v (past_gate v t) s₀)

    -- A sweep, over whatever targets, leaves a session that the relation allows.
    pub sweep-kept :
        (vs : List Visit) (n : ℕ) (t : Tracker) (s₀ s : Session T) (w : W)
        → k.rel s₀ s
        → OnReturn (FromSwept s₀) (sweep net floats outputs vs n t (s, w))
    unfolding sweep
    sweep-kept [] n t s₀ s w h = h
    sweep-kept (v ∷ vs) n t s₀ s w h =
        by_gate (is_cooling v t) (sweep-kept vs n t s₀ s w h)
          (by_visit (λ m t' s' w' h'. sweep-kept vs m t' s₀ s' w' h'))
      where
        by_visit :
            ((m : ℕ) (t' : Tracker) (s' : Session T) (w' : W)
              → k.rel s₀ s'
              → OnReturn (FromSwept s₀) (sweep net floats outputs vs m t' (s', w')))
            → (o : Polled × Tracker × SweepWorld net floats outputs) → FromVisit s₀ o
            → OnReturn (FromSwept s₀) (go_on net floats outputs (sweep net floats outputs vs) n o)
        by_visit rest (answered, t', (s', w')) h' = rest (suc n) t' s' w' h'
        by_visit rest (device_failed, t', (s', w')) h' = rest n t' s' w' h'
        by_visit rest (session_failed, t', (s', w')) h' = h'

        by_gate :
            (cold : Bool)
            → OnReturn (FromSwept s₀) (sweep net floats outputs vs n t (s, w))
            → ((o : Polled × Tracker × SweepWorld net floats outputs)
                → FromVisit s₀ o
                → OnReturn
                    (FromSwept s₀)
                    (go_on net floats outputs (sweep net floats outputs vs) n o))
            → OnReturn (FromSwept s₀) (
                if cold
                then sweep net floats outputs vs n t (s, w)
                else (visit_target net floats outputs v t (s, w)
                    >>= go_on net floats outputs (sweep net floats outputs vs) n))
        by_gate true skipped visited = skipped
        by_gate false skipped visited =
            bind-OnReturn (FromVisit s₀) (FromSwept s₀) (visit_target net floats outputs v t (s, w))
              (go_on net floats outputs (sweep net floats outputs vs) n)
              (visit_target-kept v t s₀ s w h) visited
