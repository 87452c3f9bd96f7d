-- ===== src/Daemon/Backoff.antt =====
-- The reconnect loop of `run_inverter` in crates/daemon/src/main.rs: the waits between attempts and
-- the change to offline. Times are in seconds.
pub mod Bounds
pub mod Sleep
use Prim.Native.Nat.{min}
use hass_sma_rs.Prelude.{
  ℕ, suc, ◌+◌, ◌*◌, ◌%◌, ◌^◌, List, [], ◌∷◌, ◌++◌, Bool, true, false, not, ◌&&◌, Option, none, some,
  leb, ltb, ◌==◌, if◌then◌else◌,
}

abbrev pub min_backoff : ℕ
min_backoff = 2

abbrev pub max_transient_backoff : ℕ
max_transient_backoff = 60

abbrev pub sleep_backoff : ℕ
sleep_backoff = 600

abbrev pub post_yield_grace : ℕ
post_yield_grace = 180

abbrev pub post_yield_retry : ℕ
post_yield_retry = 15

-- The pause between a failed handshake and the next attempt.
abbrev pub handshake_pause : ℕ
handshake_pause = 5

pub record Reconnect : Type 0 where
  pub backoff : ℕ
  pub host_down_streak : ℕ
  pub published_offline : Bool
  pub post_yield_deadline : Option ℕ

unfoldable pub at_start : Reconnect
at_start = record {
  backoff = min_backoff;
  host_down_streak = 0;
  published_offline = false;
  post_yield_deadline = none;
}

-- One round of the loop: a connect that fails, a handshake that fails on a connection, or a session
-- that comes up and ends, by a yield at the given time or by an error. A failed connect reads the
-- clock twice; the error says whether the host is down.
pub data Attempt : Type 0 where
  connect_failed : Bool → ℕ → ℕ → Attempt
  handshake_failed : Attempt
  session_ended : Option ℕ → Attempt

pub data Effect : Type 0 where
  publish_offline publish_online : Effect
  sleep : ℕ → Effect

abbrev pub in_grace : Option ℕ → ℕ → Bool
in_grace none now = false
in_grace (some deadline) now = ltb now deadline

abbrev pub unexpired : Option ℕ → ℕ → Option ℕ
unexpired none now = none
unexpired (some deadline) now = if leb deadline now then none else some deadline

-- A 32-bit counter.
abbrev pub host_down : Reconnect → Reconnect
host_down r = record r { host_down_streak = (r.host_down_streak + 1) % 2 ^ 32 }

abbrev pub goes_offline : Reconnect → Bool
goes_offline r = r.host_down_streak == 3 && not r.published_offline

abbrev pub wait_of : Bool → Bool → Reconnect → ℕ
wait_of grace is_down r =
    if grace && is_down
    then post_yield_retry
    else if leb 3 r.host_down_streak
    then sleep_backoff
    else r.backoff

abbrev pub next_backoff : Bool → Reconnect → ℕ
next_backoff grace r =
    if not grace && ltb r.host_down_streak 3
    then min (r.backoff * 2) max_transient_backoff
    else r.backoff

abbrev pub offline_of : Bool → List Effect
offline_of true = publish_offline ∷ []
offline_of false = []

abbrev pub mark_offline : Bool → Reconnect → Reconnect
mark_offline true r = record r { published_offline = true }
mark_offline false r = r

-- The tail of a failed connect, once the streak is counted.
unfoldable pub retry : Bool → Bool → ℕ → Bool → Reconnect → Reconnect × List Effect
retry grace is_down now' flips r = (
  record (mark_offline flips r) {
    backoff = next_backoff grace r;
    post_yield_deadline = unexpired r.post_yield_deadline now';
  },
  offline_of flips ++ sleep (wait_of grace is_down r) ∷ [],
)

unfoldable pub on_connect_failed : Bool → ℕ → ℕ → Reconnect → Reconnect × List Effect
unfolding retry
on_connect_failed is_down now now' r =
    let grace = in_grace r.post_yield_deadline now in
    let counted = host_down r in
    if is_down && not grace
    then retry grace is_down now' (goes_offline counted) counted
    else retry grace is_down now' false r

-- A connection clears the streak and the deadline, and resets the back-off.
abbrev pub on_connected : Reconnect → Reconnect
on_connected r = record r {
  backoff = min_backoff;
  host_down_streak = 0;
  post_yield_deadline = none;
}

unfoldable pub on_handshake_failed : Reconnect → Reconnect × List Effect
on_handshake_failed r =
    let up = on_connected r in
    (record up { backoff = min (up.backoff * 2) 60 }, sleep handshake_pause ∷ [])

abbrev pub grace_after : Option ℕ → Option ℕ
grace_after none = none
grace_after (some now) = some (now + post_yield_grace)

unfoldable pub on_session : Option ℕ → Reconnect → Reconnect × List Effect
on_session yielded r = (
  record (on_connected r) { published_offline = false; post_yield_deadline = grace_after yielded },
  publish_online ∷ [],
)

unfoldable pub reconnect : Reconnect → Attempt → Reconnect × List Effect
unfolding on_connect_failed on_handshake_failed on_session
reconnect r (connect_failed is_down now now') = on_connect_failed is_down now now' r
reconnect r handshake_failed = on_handshake_failed r
reconnect r (session_ended yielded) = on_session yielded r

unfoldable pub attempts : Reconnect → List Attempt → Reconnect × List Effect
unfolding reconnect
attempts r [] = (r, [])
attempts r (a ∷ rest) =
    let (r₁, effects) = reconnect r a in
    let (r₂, later) = attempts r₁ rest in (r₂, effects ++ later)
