-- ===== src/Daemon/Uploader.antt =====
-- crates/daemon/src/pvoutput_uploader.rs, and the tasks that main.rs starts for it. The HTTP client is
-- a parameter, and so are the gauges that are read at each tick.
pub mod Requests
use Prim.Native.String.{String}
use text.Mathlib.Text.{◌==◌}
use text.Mathlib.TextPositions.{eq_refl}
use mathlib.Core.List.{map, Memᴰ}
use mathlib.Core.List.Memᴰ
use mathlib.Core.Path.{subst}
use hass_sma_rs.Prelude.{
  ℕ, ◌≡◌, sym, ap, ◌∙◌, List, [], ◌∷◌, ◌++◌, append_assoc, append-nil, Bool, true, false, ◌&&◌,
  ◌||◌, Option, none, some, All, arith,
}
use hass_sma_rs.Telemetry.{DeviceLabels}
use hass_sma_rs.Mqtt.Publisher.{InverterIdentity}
use hass_sma_rs.Daemon.Config.{InverterCfg, DeviceCfg}
use hass_sma_rs.Daemon.Poll.{Target}
use hass_sma_rs.Daemon.Targets.{device_target, targets_for, session_targets}
use hass_sma_rs.Daemon.Pvoutput.{
  PvoutputSystem, PvoutputCfg, Status, Texts, Observed, build_status_body, collect_status,
  has_device, is_single, owner_slot,
}

pub record UploaderTask : Type 0 where
  pub api_key : String
  pub system_id : ℕ
  pub device_slot : String
  pub device_inner_slot : String
  pub interval : ℕ

unfoldable pub uploader_task : List InverterCfg → PvoutputCfg → PvoutputSystem → UploaderTask
uploader_task inverters pv sys = record {
  api_key = pv.api_key;
  system_id = sys.system_id;
  device_slot = owner_slot inverters sys.slot;
  device_inner_slot = sys.slot;
  interval = pv.upload_interval;
}

-- One task for each system, in a build with the feature; none without, or without a configuration.
unfoldable pub uploader_tasks : Bool → List InverterCfg → Option PvoutputCfg → List UploaderTask
uploader_tasks false inverters pv = []
uploader_tasks true inverters none = []
uploader_tasks true inverters (some pv) = map (uploader_task inverters pv) pv.systems

-- The labels under which the gauges are read.
unfoldable pub read_labels : UploaderTask → DeviceLabels
read_labels task = record { slot = task.device_slot; device = task.device_inner_slot }

-- The labels under which the poll loop sets the gauges of a target.
unfoldable pub poll_labels : InverterCfg → Target → DeviceLabels
poll_labels inv t = record { slot = inv.slot; device = t.identity.slot }

abbrev pub endpoint : String
endpoint = "https://pvoutput.org/service/r2/addstatus.jsp"

pub record Request : Type 0 where
  pub url : String
  pub api_key : String
  pub system_id : ℕ
  pub body : String

-- What `send` tells of a request: the status of the answer, or none.
pub record Http (H : Type 0) : Type 0 where
  pub post : H → Request → Option ℕ × H

module _ {D F H : Type 0} (texts : Texts D F) (is_positive : F → Bool) (http : Http H) where
  unfoldable pub request_for : UploaderTask → Status D F → Request
  request_for task status = record {
    url = endpoint;
    api_key = task.api_key;
    system_id = task.system_id;
    body = build_status_body texts status;
  }

  -- The answer is logged only.
  abbrev pub upload : UploaderTask → Option (Status D F) → H → H
  upload task none h = h
  upload task (some status) h = (http.post h (request_for task status)).1

  -- The loop, on the readings at each of its ticks.
  unfoldable pub upload_each : UploaderTask → List (D × Observed F) → H → H
  upload_each task [] h = h
  upload_each task ((now, o) ∷ rest) h =
      upload_each task rest (upload task (collect_status is_positive now o) h)

  -- The first tick fires at once and is let pass. Without a client there are no uploads.
  abbrev pub behind_first : {A : Type 0} → List A → List A
  behind_first [] = []
  behind_first (a ∷ rest) = rest

  unfoldable pub upload_loop : Bool → UploaderTask → List (D × Observed F) → H → H
  unfolding upload_each
  upload_loop false task ticks h = h
  upload_loop true task ticks h = upload_each task (behind_first ticks) h

-- An entry of the configuration that does not have the slot.
abbrev pub IsForeign : String → InverterCfg → Type 0
IsForeign slot inv =
    (has_device inv.devices slot || (inv.slot == slot && is_single inv.devices)) ≡ false

owner_slot-first :
    (before after : List InverterCfg) (inv : InverterCfg) (slot : String)
    → All (IsForeign slot) before
    → (has_device inv.devices slot || (inv.slot == slot && is_single inv.devices)) ≡ true
    → owner_slot (before ++ inv ∷ after) slot ≡ inv.slot
unfolding owner_slot
owner_slot-first [] after inv slot foreign own = rw own
owner_slot-first (b ∷ before) after inv slot (f, foreign) own =
    rw f (owner_slot-first before after inv slot foreign own)

has_device-Mem :
    (identity : InverterIdentity) (susy : ℕ) (ds : List DeviceCfg) (t : Target)
    → Memᴰ t (map (device_target identity susy) ds)
    → has_device ds t.identity.slot ≡ true
has_device-Mem identity susy [] t m = absurd (Memᴰ.not-nil m)
has_device-Mem identity susy (d ∷ ds) t (Memᴰ.head e) =
    let same : t.identity.slot ≡ d.slot = ap (λ (x : Target). x.identity.slot) e in
    rw (same, eq_refl d.slot)
has_device-Mem identity susy (d ∷ ds) t (Memᴰ.tail m) =
    ground (arith, has_device-Mem identity susy ds t m)

own_target :
    (inv : InverterCfg) (identity : InverterIdentity) (susy serial : ℕ) (ds : List DeviceCfg)
    (t : Target)
    → identity.slot ≡ inv.slot
    → Memᴰ t (targets_for ds identity susy serial)
    → (has_device ds t.identity.slot || (inv.slot == t.identity.slot && is_single ds)) ≡ true
own_target inv identity susy serial [] t e (Memᴰ.head same) =
    let slots : t.identity.slot ≡ inv.slot = ap (λ (x : Target). x.identity.slot) same ∙ e in
    rw (slots, eq_refl inv.slot)
own_target inv identity susy serial [] t e (Memᴰ.tail m) = absurd (Memᴰ.not-nil m)
own_target inv identity susy serial (d ∷ ds) t e m =
    let mine = has_device-Mem identity susy (d ∷ ds) t m in ground (arith, mine)

-- The uploader of a slot reads the gauges that the poll loop sets for the target of that slot,
-- behind a repeater or not, if no entry in front of the target's own has the slot.
pub read_labels-poll_labels :
    (before after : List InverterCfg) (inv : InverterCfg) (pv : PvoutputCfg) (sys : PvoutputSystem)
    (identity : InverterIdentity) (susy serial : ℕ) (t : Target)
    → identity.slot ≡ inv.slot
    → Memᴰ t (session_targets inv identity susy serial)
    → sys.slot ≡ t.identity.slot
    → All (IsForeign sys.slot) before
    → read_labels (uploader_task (before ++ inv ∷ after) pv sys) ≡ poll_labels inv t
unfolding read_labels uploader_task poll_labels session_targets
read_labels-poll_labels before after inv pv sys identity susy serial t e m same foreign =
    let own = own_target inv (record identity { serial = serial }) susy serial inv.devices t e m in
    let own' : (has_device inv.devices sys.slot || (inv.slot == sys.slot && is_single inv.devices))
        ≡ true =
      subst
        (λ (x : String).
          (has_device inv.devices x || (inv.slot == x && is_single inv.devices)) ≡ true)
        (sym same) own in
    ap (labels_of sys.slot) (owner_slot-first before after inv sys.slot foreign own')
    ∙ ap (labels_of_device inv.slot) same
  where
    labels_of : String → String → DeviceLabels
    labels_of d s = record { slot = s; device = d }

    labels_of_device : String → String → DeviceLabels
    labels_of_device s d = record { slot = s; device = d }
