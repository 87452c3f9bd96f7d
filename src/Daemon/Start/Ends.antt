-- ===== src/Daemon/Start/Ends.antt =====
-- The start of a session publishes under keys of the catalogue only.
use Prim.Native.String.{String}
use hass_sma_rs.Prelude.{
  ℕ, ◌≡◌, refl, List, [], ◌∷◌, true, Option, none, some, length, Result, ok, err,
}
use hass_sma_rs.Prelude.Texts.{◌<>◌, decimal}
use hass_sma_rs.Transport.Interface.{Transport}
use hass_sma_rs.Protocol.Commands.{QueryKind}
use hass_sma_rs.Client.Errors.{SessionError}
use hass_sma_rs.Client.Session.{Session}
use hass_sma_rs.Client.Session.Query.{query_for_device, query_event_log_for_device}
use hass_sma_rs.Client.Values.Readings.{parse_single_watts_record}
use hass_sma_rs.Client.Values.Electrical.{parse_type_label_raw}
use hass_sma_rs.Client.Values.EventLog.{EventRecord, tag, parse_event_log_records}
use hass_sma_rs.Client.Values.Names.{type_label_text, event_text, parse_software_version, or_else}
use hass_sma_rs.Mqtt.Catalog.{sensor_catalog}
use hass_sma_rs.Mqtt.Publisher.{InverterIdentity, Outcome, returned}
use hass_sma_rs.Mqtt.Keys.{has_key}
use hass_sma_rs.Daemon.Readings.{Outputs, ◌>>=◌}
use hass_sma_rs.Daemon.Poll.{Target}
use hass_sma_rs.Daemon.Start.{
  latest, bind_option, day_before, Started, tell_latest, on_event_log, fetch_event_logs, Use,
  on_body, ask_once, set_firmware, set_model, tell_watts, tell_model, identify_target,
  identify_each,
}

-- A publisher that takes the keys of the catalogue.
pub record TakesCatalog {F W : Type 0} (outputs : Outputs F W) : Type 0 where
  pub on_known :
      (w : W) (id : InverterIdentity) (key text : String)
      → has_key sensor_catalog key ≡ true
      → (w' : W) × (outputs.put_value w id key text ≡ returned w')

abbrev pub Ends : {A : Type 0} → Outcome A → Type 0
Ends {A} o = (a : A) × (o ≡ returned a)

then-Ends :
    {A B : Type 0} (m : Outcome A) (f : A → Outcome B)
    → Ends m
    → ((a : A) → Ends (f a))
    → Ends (m >>= f)
then-Ends m f (a, e) h = let (b, e') = h a in (b, rw e e')

module _ {T F W : Type 0} (net : Transport T) (outputs : Outputs F W) (rfc3339 : ℕ → String)
    (takes : TakesCatalog outputs) where
  tell_latest-Ends :
      (t : Target) (records : List EventRecord) (w : W) (r : Option EventRecord)
      → Ends (tell_latest net outputs rfc3339 t records w r)
  unfolding sensor_catalog
  tell_latest-Ends t records w none = (w, refl)
  tell_latest-Ends t records w (some r) =
      let (w₁, e₁) =
        takes.on_known w t.identity "last_event"
          (or_else (event_text r) ("TagID " <> decimal (tag r))) refl in
      let (w₂, e₂) = takes.on_known w₁ t.identity "last_event_at" (rfc3339 r.timestamp) refl in
      let (w₃, e₃) =
        takes.on_known w₂ t.identity "last_event_count_24h" (decimal (length records)) refl in
      (w₃, rw (e₁, e₂, e₃))

  on_event_log-Ends :
      (t : Target) (w : W) (o : Result SessionError (List ℕ) × Session T)
      → Ends (on_event_log net outputs rfc3339 t w o)
  on_event_log-Ends t w (ok body, s) =
      then-Ends _ _
        (tell_latest-Ends t (parse_event_log_records body) w
          (latest (parse_event_log_records body)))
        (λ w'. ((s, w'), refl))
  on_event_log-Ends t w (err e, s) = ((s, w), refl)

  -- With a publisher that takes the keys of the catalogue, the event logs of all targets are
  -- published without a panic, whatever the transport answers.
  fetch_event_logs-Ends :
      (end : ℕ) (ts : List Target) (s : Session T) (w : W)
      → Ends (fetch_event_logs net outputs rfc3339 end ts (s, w))
  unfolding fetch_event_logs
  fetch_event_logs-Ends end [] s w = ((s, w), refl)
  fetch_event_logs-Ends end (t ∷ ts) s w =
      then-Ends _ _
        (on_event_log-Ends t w
          (query_event_log_for_device net t.susy t.serial (day_before end) end s))
        (λ o. fetch_event_logs-Ends end ts o.0 o.1)

  set_firmware-Ends :
      (t : Target) (w : W) (v : Option String) → Ends (set_firmware net outputs rfc3339 t w v)
  unfolding sensor_catalog
  set_firmware-Ends t w none = ((t, w), refl)
  set_firmware-Ends t w (some version) =
      then-Ends _ _ (takes.on_known w t.identity "firmware_version" version refl) (λ w'. (_, refl))

  set_model-Ends :
      (t : Target) (w : W) (v : Option String) → Ends (set_model net outputs rfc3339 t w v)
  unfolding sensor_catalog
  set_model-Ends t w none = ((t, w), refl)
  set_model-Ends t w (some model) =
      then-Ends _ _ (takes.on_known w t.identity "inverter_model" model refl) (λ w'. (_, refl))

  tell_watts-Ends :
      (key : String) (t : Target) (w : W) (v : Option ℕ)
      → has_key sensor_catalog key ≡ true
      → Ends (tell_watts net outputs rfc3339 key t w v)
  tell_watts-Ends key t w none h = ((t, w), refl)
  tell_watts-Ends key t w (some watts) h =
      then-Ends _ _ (takes.on_known w t.identity key (decimal watts) h) (λ w'. ((t, w'), refl))

  abbrev UseEnds : Use net outputs rfc3339 → Type 0
  UseEnds f = (body : List ℕ) (t : Target) (w : W) → Ends (f body t w)

  ask_once-Ends :
      (kind : QueryKind) (f : Use net outputs rfc3339)
      → UseEnds f
      → (o : Started net outputs rfc3339) → Ends (ask_once net outputs rfc3339 kind f o)
  unfolding ask_once
  ask_once-Ends kind f h (t, s, w) = by_reply (query_for_device net t.susy t.serial kind s)
    where
      by_reply :
          (r : Result SessionError (List ℕ) × Session T)
          → Ends (on_body net outputs rfc3339 f t w r)
      by_reply (ok body, s') = then-Ends _ _ (h body t w) (λ o. ((o.0, s', o.1), refl))
      by_reply (err e, s') = ((t, s', w), refl)

  tell_model-Ends : (o : Started net outputs rfc3339) → Ends (tell_model net outputs rfc3339 o)
  unfolding sensor_catalog
  tell_model-Ends (t, s, w) =
      then-Ends _ _ (takes.on_known w t.identity "inverter_model" t.identity.model refl)
        (λ w'. ((t, s, w'), refl))

  identify_target-Ends :
      (o : Started net outputs rfc3339) → Ends (identify_target net outputs rfc3339 o)
  unfolding identify_target sensor_catalog
  identify_target-Ends o =
      then-Ends _ _
        (then-Ends _ _
          (then-Ends _ _
            (then-Ends _ _
              (ask_once-Ends QueryKind.software_version _
                (λ body t w. set_firmware-Ends t w (parse_software_version body)) o)
              tell_model-Ends)
            (ask_once-Ends QueryKind.type_label _ (λ body t w.
              set_model-Ends t w (bind_option (parse_type_label_raw body) type_label_text))))
          (ask_once-Ends QueryKind.nominal_ac_power _ (λ body t w.
            tell_watts-Ends "nominal_ac_power_w" t w
              (parse_single_watts_record body 0x00411e00 0x00411e19) refl)))
        (ask_once-Ends QueryKind.max_feed_in_power _ (λ body t w.
          tell_watts-Ends "max_feedin_w" t w (parse_single_watts_record body 0x00411f00 0x00411f19)
            refl))

  -- With a publisher that takes the keys of the catalogue, the identity queries of all targets end
  -- without a panic, whatever the transport answers, and keep one target for each.
  identify_each-ends :
      (ts : List Target) (s : Session T) (w : W)
      → (o : List Target × Session T × W) × (identify_each net outputs rfc3339 ts (s, w)
          ≡ returned o)
        × (length o.0 ≡ length ts)
  unfolding identify_each
  identify_each-ends [] s w = (([], s, w), refl, refl)
  identify_each-ends (t ∷ ts) s w =
      let ((t', s', w'), e) = identify_target-Ends (t, s, w) in
      let ((ts', s₂, w₂), e', l) = identify_each-ends ts s' w' in
      ((t' ∷ ts', s₂, w₂), rw (e, e'), rw l)
