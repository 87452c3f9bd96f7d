-- ===== src/Daemon/Poll.antt =====
-- One tick of the poll loop of `run_inverter` in crates/daemon/src/main.rs: the sweep over the
-- targets of a session, and the cooldown of those that do not answer. Times are in seconds.
pub mod Books
pub mod Panics
pub mod Isolation
pub mod Sessions
use Prim.Native.String.{String}
use Prim.Native.Nat.{min}
use hass_sma_rs.Prelude.{
  ℕ, suc, ◌+◌, ◌-◌, ◌^◌, List, [], ◌∷◌, Bool, true, false, Option, none, some, leb, ltb, ◌==◌,
  if◌then◌else◌, get_or, Result, ok, err,
}
use hass_sma_rs.Prelude.Texts.{decimal}
use hass_sma_rs.Protocol.Commands.{QueryKind}
use hass_sma_rs.Transport.Interface.{Transport}
use hass_sma_rs.Client.Errors.{SessionError, is_session_fatal}
use hass_sma_rs.Client.Session.{Session}
use hass_sma_rs.Client.Session.Query.{query_for_device}
use hass_sma_rs.Mqtt.Publisher.{InverterIdentity, Outcome, panicked, returned}
use hass_sma_rs.Daemon.Readings.{Floats, Outputs, publish_query_result, ◌>>=◌}

pub record Target : Type 0 where
  pub identity : InverterIdentity
  pub susy : ℕ
  pub serial : ℕ

abbrev pub per_tick_queries : List QueryKind
per_tick_queries =
    QueryKind.spot_ac_total_power ∷ QueryKind.spot_ac_power ∷ QueryKind.spot_ac_voltage
    ∷ QueryKind.spot_dc_power ∷ QueryKind.spot_dc_voltage ∷ QueryKind.energy_production
    ∷ QueryKind.operation_time ∷ QueryKind.inverter_temperature ∷ QueryKind.spot_grid_frequency
    ∷ QueryKind.device_status ∷ QueryKind.grid_relay_status ∷ QueryKind.spot_cos_phi ∷ []

abbrev pub cooldown_threshold : ℕ
cooldown_threshold = 3

abbrev pub cooldown_ladder : List ℕ
cooldown_ladder = 60 ∷ 300 ∷ 900 ∷ 1800 ∷ []

-- The rung of a count, and the last one past the end.
unfoldable pub cooldown_secs : ℕ → ℕ
cooldown_secs cf = get_or cooldown_ladder (cf - cooldown_threshold) 1800

-- `HashMap<u32, _>`
abbrev pub lookup : {V : Type 0} → ℕ → List (ℕ × V) → Option V
lookup key [] = none
lookup key ((k, v) ∷ rest) = if k == key then some v else lookup key rest

abbrev pub insert : {V : Type 0} → ℕ → V → List (ℕ × V) → List (ℕ × V)
insert key v [] = (key, v) ∷ []
insert key v ((k, w) ∷ rest) = if k == key then (key, v) ∷ rest else (k, w) ∷ insert key v rest

abbrev pub remove : {V : Type 0} → ℕ → List (ℕ × V) → List (ℕ × V)
remove key [] = []
remove key ((k, v) ∷ rest) = if k == key then remove key rest else (k, v) ∷ remove key rest

-- What the tick knows of the targets.
pub record Tracker : Type 0 where
  pub failures : List (ℕ × ℕ)
  pub skip_until : List (ℕ × ℕ)

unfoldable pub fresh : Tracker
fresh = record { failures = []; skip_until = [] }

-- A target with the readings of the clocks while it is visited: at its gate and at its end, and the
-- texts of the time and of the uptime.
pub record Visit : Type 0 where
  pub target : Target
  pub gate_now : ℕ
  pub end_now : ℕ
  pub poll_time : String
  pub uptime : String

pub data Polled : Type 0 where
  answered device_failed session_failed : Polled

-- A target in its cooldown is left out.
abbrev pub is_before : ℕ → Option ℕ → Bool
is_before now none = false
is_before now (some until) = ltb now until

abbrev pub is_cooling : Visit → Tracker → Bool
is_cooling v t = is_before v.gate_now (lookup v.target.serial t.skip_until)

abbrev pub or_zero : Option ℕ → ℕ
or_zero none = 0
or_zero (some n) = n

-- `saturating_add(1)` on 32 bits, from 0 for a target without an entry.
abbrev pub counted : ℕ → Tracker → ℕ
counted serial t = min (or_zero (lookup serial t.failures) + 1) (2 ^ 32 - 1)

abbrev pub cooled : Visit → ℕ → Tracker → Tracker
cooled v cf t =
    if leb cooldown_threshold cf
    then record t {
      skip_until = insert v.target.serial (v.end_now + cooldown_secs cf) t.skip_until;
    }
    else t

abbrev pub counting : Visit → Tracker → Tracker
counting v t = record t { failures = insert v.target.serial (counted v.target.serial t) t.failures }

abbrev pub cleared : Visit → Tracker → Tracker
cleared v t = record t { failures = insert v.target.serial 0 t.failures }

-- The gate takes an expired deadline away.
abbrev pub past_gate : Visit → Tracker → Tracker
past_gate v t = record t { skip_until = remove v.target.serial t.skip_until }

module _ {T F W : Type 0} (net : Transport T) (floats : Floats F) (outputs : Outputs F W) where
  abbrev pub SweepWorld : Type 0
  SweepWorld = Session T × W

  abbrev pub publish_text : InverterIdentity → String → String → W → Outcome W
  publish_text id key text w = outputs.put_value w id key text

  -- A failed query: the poll status is told, and the error decides what goes on.
  unfoldable pub on_error : Target → SessionError → SweepWorld → Outcome (Polled × Session T × W)
  on_error target e (s, w) = publish_text target.identity "poll_status" "error" w >>= λ w'.
      returned (if is_session_fatal e then session_failed else device_failed, s, w')

  abbrev pub on_reply :
      (SweepWorld → Outcome (Polled × Session T × W))
      → QueryKind
      → Target
      → W
      → Result SessionError (List ℕ) × Session T
      → Outcome (Polled × Session T × W)
  on_reply rest kind target w (ok body, s) =
      publish_query_result outputs floats kind body target.identity w >>= λ w'. rest (s, w')
  on_reply rest kind target w (err e, s) = on_error target e (s, w)

  -- The queries of one target, up to the first that fails.
  unfoldable pub query_each :
      List QueryKind → Target → SweepWorld → Outcome (Polled × Session T × W)
  unfolding on_error
  query_each [] target (s, w) = returned (answered, s, w)
  query_each (kind ∷ kinds) target (s, w) =
      on_reply (query_each kinds target) kind target w
        (query_for_device net target.susy target.serial kind s)

  -- The state topics of a target whose queries were all answered.
  unfoldable pub publish_success : Visit → W → Outcome W
  publish_success v w =
      publish_text v.target.identity "last_poll" v.poll_time w
      >>= publish_text v.target.identity "poll_status" "ok"
      >>= publish_text v.target.identity "session_uptime" v.uptime
      >>= publish_text v.target.identity "consecutive_failures" "0"

  unfoldable pub publish_failure : Visit → ℕ → W → Outcome W
  publish_failure v cf w = publish_text v.target.identity "consecutive_failures" (decimal cf) w

  -- The end of a visit, by how its queries went.
  unfoldable pub settle :
      Visit → Tracker → Polled × Session T × W → Outcome (Polled × Tracker × SweepWorld)
  unfolding publish_success publish_failure
  settle v t (answered, s, w) =
      publish_success v w >>= λ w'. returned (answered, cleared v t, (s, w'))
  settle v t (device_failed, s, w) =
      let cf = counted v.target.serial t in
      publish_failure v cf w >>= λ w'. returned (device_failed, cooled v cf (counting v t), (s, w'))
  settle v t (session_failed, s, w) = returned (session_failed, t, (s, w))

  unfoldable pub visit_target :
      Visit → Tracker → SweepWorld → Outcome (Polled × Tracker × SweepWorld)
  unfolding query_each settle
  visit_target v t world = query_each per_tick_queries v.target world >>= settle v (past_gate v t)

  -- The end of a sweep: how many targets were published, and whether the session is still good.
  pub record Swept : Type 0 where
    pub cycle_ok : Bool
    pub published : ℕ
    pub tracker : Tracker
    pub world : SweepWorld

  -- A visit that meets a dead session ends the sweep.
  abbrev pub go_on :
      (ℕ → Tracker → SweepWorld → Outcome Swept) → ℕ → Polled × Tracker × SweepWorld → Outcome Swept
  go_on rest n (answered, t, world) = rest (suc n) t world
  go_on rest n (device_failed, t, world) = rest n t world
  go_on rest n (session_failed, t, world) =
      returned (record { cycle_ok = false; published = n; tracker = t; world = world })

  unfoldable pub sweep : List Visit → ℕ → Tracker → SweepWorld → Outcome Swept
  unfolding visit_target
  sweep [] n t world =
      returned (record { cycle_ok = true; published = n; tracker = t; world = world })
  sweep (v ∷ vs) n t world =
      let skipped = sweep vs n t world in
      if is_cooling v t then skipped else visit_target v t world >>= go_on (sweep vs) n
