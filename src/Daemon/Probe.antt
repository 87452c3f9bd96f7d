-- ===== src/Daemon/Probe.antt =====
-- `run_probe` of crates/daemon/src/main.rs: one logon, a snippet for the configuration, and a close.
use Prim.Native.String.{String}
use hass_sma_rs.Prelude.{ℕ, ◌≡◌, refl, List, [], ◌∷◌, true, Option, none, some, Result, ok, err}
use hass_sma_rs.Prelude.Texts.{◌<>◌, decimal}
use hass_sma_rs.Protocol.Mac.{Mac}
use hass_sma_rs.Protocol.Auth.{user}
use hass_sma_rs.Transport.Interface.{TransportError}
use hass_sma_rs.Transport.Rfcomm.Address.{parse_bt_mac}
use hass_sma_rs.Transport.Rfcomm.Socket.{Kernel, RfcommTransport, connect_blocking}
use hass_sma_rs.Transport.Rfcomm.Handles.{Counts, Balanced, connect_blocking-Balanced}
use hass_sma_rs.Transport.Rfcomm.Link.{Link, rfcomm}
use hass_sma_rs.Client.Sockets.{
  Conserves, HasSocket, graceful_close-handles, handshake_and_logon-HasSocket,
}
use hass_sma_rs.Client.Errors.{SessionError}
use hass_sma_rs.Client.Session.{Session, SessionConfig, new_with_app_serial}
use hass_sma_rs.Client.Session.Handshake.{zero_bt, handshake_and_logon}
use hass_sma_rs.Client.Session.Query.{graceful_close}

-- The arguments of the subcommand; a text is its bytes.
pub record ProbeArgs : Type 0 where
  pub mac : List ℕ
  pub shown_mac : String
  pub password : List ℕ
  pub local : Option (List ℕ)
  pub timeout_ms : ℕ

pub data ProbeError : Type 0 where
  invalid_mac : ProbeError
  not_connected : TransportError → ProbeError
  not_logged_on : SessionError → ProbeError

-- An address that does not parse counts as none given, and `[0; 6]` is bound either way.
abbrev pub parsed_local : Option (List ℕ) → Option Mac
parsed_local none = none
parsed_local (some text) = parse_bt_mac text

abbrev pub or_zeros : Option Mac → Mac
or_zeros none = zero_bt
or_zeros (some mac) = mac

unfoldable pub probe_config : ProbeArgs → Mac → SessionConfig
probe_config args mac = record {
  inverter_bt = mac;
  local_bt = or_zeros (parsed_local args.local);
  password = args.password;
  user_group = user;
  timeout_ms = args.timeout_ms;
  mis_enabled = true;
}

-- What is printed.
unfoldable pub snippet : String → ℕ → List String
snippet mac serial =
    ""
    ∷ "# Probe complete. Devices seen in logon replies are logged"
    ∷ "# above at INFO level. Paste into addon YAML as:"
    ∷ "inverters:"
    ∷ "  - slot: repeater"
    ∷ ("    bt_address: \"" <> mac <> "\"")
    ∷ "    password: \"<paste>\""
    ∷ "    devices:"
    ∷ "      - slot: <your-name>"
    ∷ ("        app_serial: " <> decimal serial)
    ∷ "        model: \"<SB-xxxx-xx>\""
    ∷ "      # ... repeat per device reported above."
    ∷ ""
    ∷ []

module _ {K : Type 0} (sys : Kernel K) (fuel : ℕ) where
  abbrev pub Probed : Type 0
  Probed = Result ProbeError (List String) × K

  -- A logon that fails returns at once, and leaves the socket to the end of the process.
  unfoldable pub probe_logged_on :
      ProbeArgs → Result SessionError (Unit {0}) × Session (Link K) → Probed
  probe_logged_on args (err e, s) = (err (not_logged_on e), s.link.1)
  probe_logged_on args (ok done, s) =
      (ok (snippet args.shown_mac s.inverter_serial), (graceful_close (rfcomm sys fuel) s).1.link.1)

  unfoldable pub probe_connected :
      ProbeArgs → ℕ → ℕ → Mac → Result TransportError RfcommTransport × K → Probed
  unfolding probe_logged_on
  probe_connected args session_id now_epoch mac (err e, k) = (err (not_connected e), k)
  probe_connected args session_id now_epoch mac (ok socket, k) = probe_logged_on args (
      handshake_and_logon (rfcomm sys fuel) now_epoch
        (new_with_app_serial (socket, k) (probe_config args mac) session_id))

  -- `session_id` is random; `now_epoch` is the time of the logon.
  unfoldable pub run_probe : ProbeArgs → ℕ → ℕ → K → Probed
  unfolding probe_connected
  run_probe args session_id now_epoch k = elim (parse_bt_mac args.mac) [
    | none ↦ (err invalid_mac, k)
    | some mac ↦
        probe_connected args session_id now_epoch mac
          (connect_blocking sys mac (some (or_zeros (parsed_local args.local))) k)
  ]

  module _ (handles : K → List ℕ) (conserves : Conserves sys handles)
      (counts : Counts sys handles) where
    -- The descriptors that are open behind a probe, and those in front of it.
    unfoldable pub IsClean : List ℕ → Probed → Type 0
    IsClean n (ok lines, k) = handles k ≡ n
    IsClean n (err invalid_mac, k) = handles k ≡ n
    IsClean n (err (not_connected e), k) = handles k ≡ n
    IsClean n (err (not_logged_on e), k) = (fd : ℕ) × (handles k ≡ fd ∷ n)

    logged_on-IsClean :
        (n : List ℕ) (args : ProbeArgs) (o : Result SessionError (Unit {0}) × Session (Link K))
        → HasSocket sys handles conserves fuel n o.1
        → IsClean n (probe_logged_on args o)
    unfolding IsClean probe_logged_on
    logged_on-IsClean n args (err e, s) (fd, _, more) = (fd, more)
    logged_on-IsClean n args (ok done, s) h =
        (graceful_close-handles sys handles conserves fuel counts n s h).0

    connected-IsClean :
        (n : List ℕ) (session_id now_epoch : ℕ) (args : ProbeArgs) (mac : Mac)
        (c : Result TransportError RfcommTransport × K)
        → Balanced sys handles n c
        → IsClean n (probe_connected args session_id now_epoch mac c)
    unfolding IsClean probe_connected Balanced new_with_app_serial
    connected-IsClean n session_id now_epoch args mac (err e, k) h = h
    connected-IsClean n session_id now_epoch args mac (ok socket, k) (_, owned) =
        let s : Session (Link K) =
          new_with_app_serial (socket, k) (probe_config args mac) session_id in
        logged_on-IsClean n args (handshake_and_logon (rfcomm sys fuel) now_epoch s)
          (handshake_and_logon-HasSocket sys handles conserves fuel n now_epoch s owned)

    -- A probe that prints its snippet has closed its own descriptor and no other, and so has one
    -- that fails in front of the logon; one whose logon fails leaves one more open.
    pub run_probe-IsClean :
        (args : ProbeArgs) (session_id now_epoch : ℕ) (k : K)
        → IsClean (handles k) (run_probe args session_id now_epoch k)
    unfolding run_probe IsClean
    run_probe-IsClean args session_id now_epoch k = by_mac (parse_bt_mac args.mac)
      where
        by_mac :
            (o : Option Mac)
            → IsClean (handles k) (elim o [
              | none ↦ (err invalid_mac, k)
              | some mac ↦
                  probe_connected args session_id now_epoch mac
                    (connect_blocking sys mac (some (or_zeros (parsed_local args.local))) k)
            ])
        by_mac none = refl
        by_mac (some mac) = connected-IsClean (handles k) session_id now_epoch args mac _ (
            connect_blocking-Balanced sys handles counts mac
              (some (or_zeros (parsed_local args.local))) k)
