-- ===== src/Daemon/Poll/Panics.antt =====
-- With the publisher of the MQTT crate, a sweep panics at the end of its first visit.
use Prim.Native.String.{String}
use hass_sma_rs.Prelude.{ℕ, ◌≡◌, refl, ap, ◌⊎◌, inl, inr, List, ◌∷◌, Bool, false, Option}
use hass_sma_rs.Prelude.Texts.{decimal}
use hass_sma_rs.Transport.Interface.{Transport}
use hass_sma_rs.Client.Session.{Session}
use hass_sma_rs.Mqtt.Catalog.{sensor_catalog}
use hass_sma_rs.Mqtt.Publisher.{
  InverterIdentity, MqttClientConfig, MqttClient, Outcome, panicked, returned,
}
use hass_sma_rs.Mqtt.Keys.{has_key}
use hass_sma_rs.Mqtt.Topics.{publish_value-panics_iff}
use hass_sma_rs.Daemon.Readings.{Number, Floats, Outputs, ◌>>=◌}
use hass_sma_rs.Daemon.Readings.Publishing.{mqtt_outputs, dropped}
use hass_sma_rs.Daemon.Poll.{
  Visit, Tracker, fresh, Polled, answered, device_failed, session_failed, per_tick_queries, counted,
  past_gate, SweepWorld, Swept, query_each, publish_success, publish_failure, settle, visit_target,
  sweep, go_on,
}

unlisted : has_key sensor_catalog "consecutive_failures" ≡ false
unfolding sensor_catalog
unlisted = refl

then_panics :
    {A B : Type 0} (m : Outcome A) (f : A → Outcome B)
    → ((a : A) → f a ≡ panicked)
    → (m >>= f) ≡ panicked
then_panics panicked f h = refl
then_panics (returned a) f h = h a

stops : {A B : Type 0} (m : Outcome A) (f : A → Outcome B) → m ≡ panicked → (m >>= f) ≡ panicked
stops m f h = rw h

module _ {T F C : Type 0} (net : Transport T) (floats : Floats F) (mqtt : MqttClient C)
    (cfg : MqttClientConfig) (set_gauge : C → String → InverterIdentity → Number F → C)
    (archive : Option (C → String → ℕ → String → Number F → Bool × C)) where
  abbrev out : Outputs F C
  out = mqtt_outputs mqtt cfg set_gauge archive

  failures_panic :
      (id : InverterIdentity) (text : String) (c : C)
      → out.put_value c id "consecutive_failures" text ≡ panicked
  failures_panic id text c =
      ap dropped ((publish_value-panics_iff mqtt cfg id "consecutive_failures" text c).1 unlisted)

  success_panics : (v : Visit) (c : C) → publish_success net floats out v c ≡ panicked
  unfolding publish_success
  success_panics v c = then_panics _ _ (λ c'. failures_panic v.target.identity "0" c')

  failure_panics : (v : Visit) (cf : ℕ) (c : C) → publish_failure net floats out v cf c ≡ panicked
  unfolding publish_failure
  failure_panics v cf c = failures_panic v.target.identity (decimal cf) c

  -- A visit panics, or has met a dead session.
  abbrev Fails : Outcome (Polled × Tracker × SweepWorld net floats out) → Type 0
  Fails o =
      (o ≡ panicked)
      ⊎ ((t : Tracker) × (w : SweepWorld net floats out) × (o ≡ returned (session_failed, t, w)))

  settle-Fails :
      (v : Visit) (t : Tracker) (o : Polled × Session T × C) → Fails (settle net floats out v t o)
  unfolding settle
  settle-Fails v t (answered, s, c) = inl (stops _ _ (success_panics v c))
  settle-Fails v t (device_failed, s, c) =
      inl (stops _ _ (failure_panics v (counted v.target.serial t) c))
  settle-Fails v t (session_failed, s, c) = inr (t, (s, c), refl)

  visit-Fails :
      (v : Visit) (t : Tracker) (w : SweepWorld net floats out)
      → Fails (visit_target net floats out v t w)
  unfolding visit_target
  visit-Fails v t w = by_queries (query_each net floats out per_tick_queries v.target w)
    where
      by_queries :
          (o : Outcome (Polled × Session T × C))
          → Fails (o >>= settle net floats out v (past_gate v t))
      by_queries panicked = inl refl
      by_queries (returned o) = settle-Fails v (past_gate v t) o

  -- The first sweep of a session, over one target or more, panics, or ends because a query found
  -- the session dead: the key of the failure count is not in the catalogue, so no visit comes to its
  -- end.
  pub sweep-panics :
      (v : Visit) (vs : List Visit) (w : SweepWorld net floats out)
      → (sweep net floats out (v ∷ vs) 0 fresh w ≡ panicked)
        ⊎ ((o : Swept net floats out) × (sweep net floats out (v ∷ vs) 0 fresh w ≡ returned o)
            × (o.cycle_ok ≡ false))
  unfolding sweep fresh
  sweep-panics v vs w = elim (visit-Fails v fresh w) [
    | inl panic ↦ inl (stops _ _ panic)
    | inr (t, w', dead) ↦ inr (
      record { cycle_ok = false; published = 0; tracker = t; world = w' },
      ap
          (λ (o : Outcome (Polled × Tracker × SweepWorld net floats out)).
            o >>= go_on net floats out (sweep net floats out vs) 0)
          dead,
      refl,
    )
  ]
