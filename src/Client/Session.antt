-- ===== src/Client/Session.antt =====
-- crates/inverter-client/src/session.rs: the session state machine, over any transport.
pub mod Receive
pub mod Keeps
pub mod Replies
pub mod Reads
pub mod Handshake
pub mod Query
use Prim.Native.Nat.{max}
use hass_sma_rs.Prelude.{ℕ, ◌+◌, ◌%◌, List, Bool, Option, Result, ok, err}
use hass_sma_rs.Protocol.Mac.{Mac}
use hass_sma_rs.Protocol.Auth.{UserGroup}
use hass_sma_rs.Transport.Interface.{TransportError, io, closed, mock_exhausted, timeout, Transport}
use hass_sma_rs.Client.Errors.{Phase, SessionError, transport, silent}

pub record L2Reply : Type 0 where
  pub pkt_id : ℕ
  pub error_code : ℕ
  pub app_susy_id : ℕ
  pub app_serial : ℕ
  pub body : List ℕ

pub record SessionConfig : Type 0 where
  pub inverter_bt : Mac
  pub local_bt : Mac
  pub password : List ℕ
  pub user_group : UserGroup
  pub timeout_ms : ℕ
  pub mis_enabled : Bool

pub data SessionState : Type 0 where
  disconnected handshaking enumerating logged_in degraded : SessionState

pub record Session (T : Type 0) : Type 0 where
  pub link : T
  pub cfg : SessionConfig
  pub state : SessionState
  pub app_serial : ℕ
  pub pcktid : ℕ
  pub inverter_susy_id : ℕ
  pub inverter_serial : ℕ

unfoldable pub new_with_app_serial : {T : Type 0} → T → SessionConfig → ℕ → Session T
new_with_app_serial link cfg app_serial = record {
  link = link;
  cfg = cfg;
  state = disconnected;
  app_serial = app_serial;
  pcktid = 0;
  inverter_susy_id = 0;
  inverter_serial = 0;
}

-- A method of `Session`: its result, and the session afterwards.
abbrev pub Method : Type 0 → Type 0 → Type 0
Method T A = Session T → Result SessionError A × Session T

abbrev pub ret : {T A : Type 0} → A → Method T A
ret a s = (ok a, s)

abbrev pub fail : {T A : Type 0} → SessionError → Method T A
fail e s = (err e, s)

abbrev pub proceed :
    {T A B : Type 0}
    → (A → Method T B)
    → Result SessionError A
    → Session T
    → Result SessionError B × Session T
proceed f (ok a) s = f a s
proceed f (err e) s = (err e, s)

infixl 5 ◌>>=◌
unfoldable pub ◌>>=◌ : {T A B : Type 0} → Method T A → (A → Method T B) → Method T B
◌>>=◌ m f s = let (r, s') = m s in proceed f r s'

-- The session as it is now.
unfoldable pub ask : {T : Type 0} → Method T (Session T)
ask s = (ok s, s)

-- A method whose failure its caller looks at.
unfoldable pub attempt : {T A : Type 0} → Method T A → Method T (Result SessionError A)
attempt m s = let (r, s') = m s in (ok r, s')

-- `pcktid.wrapping_add(1).max(1)`, on sixteen bits.
abbrev pub after_pcktid : ℕ → ℕ
after_pcktid id = max ((id + 1) % 65536) 1

unfoldable pub next_pcktid : {T : Type 0} → Method T ℕ
next_pcktid s = let id = after_pcktid s.pcktid in (ok id, record s { pcktid = id })

unfoldable pub set_state : {T : Type 0} → SessionState → Method T (Unit {0})
set_state state s = (ok tt, record s { state = state })

-- A receive timeout is `Silent`, any other failure keeps its cause.
abbrev pub recv_error : Phase → TransportError → SessionError
recv_error phase (timeout ms) = silent phase
recv_error phase io = transport io
recv_error phase closed = transport closed
recv_error phase mock_exhausted = transport mock_exhausted

abbrev pub map_err : {E F A : Type 0} → (E → F) → Result E A → Result F A
map_err f (ok a) = ok a
map_err f (err e) = err (f e)

module _ {T : Type 0} (net : Transport T) where
  unfoldable pub recv_frame : Phase → Method T (List ℕ)
  recv_frame phase s =
      let (r, link) = net.recv_frame s.link s.cfg.timeout_ms in
      (map_err (recv_error phase) r, record s { link = link })

  unfoldable pub send_frame : List ℕ → Method T ℕ
  send_frame bytes s =
      let (r, link) = net.send_frame s.link bytes in (map_err transport r, record s { link = link })
