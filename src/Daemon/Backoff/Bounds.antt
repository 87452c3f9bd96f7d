-- ===== src/Daemon/Backoff/Bounds.antt =====
-- Bounds on the back-off and on every pause.
use hass_sma_rs.Prelude.{
  ℕ, ◌≤◌, List, [], ◌∷◌, Bool, true, false, not, ◌&&◌, Bool-cases, inl, inr, arith, All, All-append,
}
use hass_sma_rs.Daemon.Backoff.{
  Reconnect, Attempt, connect_failed, handshake_failed, session_ended, Effect, publish_offline,
  publish_online, sleep, at_start, in_grace, host_down, goes_offline, next_backoff, wait_of, retry,
  reconnect, attempts,
}

pub record IsBounded (r : Reconnect) : Type 0 where
  pub low : 2 ≤ r.backoff
  pub high : r.backoff ≤ 60

-- A pause has at least two seconds and at most ten minutes.
abbrev pub IsPause : Effect → Type 0
IsPause publish_offline = Unit {0}
IsPause publish_online = Unit {0}
IsPause (sleep n) = (2 ≤ n) × (n ≤ 600)

at_start-IsBounded : IsBounded at_start
unfolding at_start
at_start-IsBounded = record { low = omega arith; high = omega arith }

next_backoff-IsBounded :
    (grace : Bool) (r : Reconnect)
    → IsBounded r
    → (2 ≤ next_backoff grace r) × (next_backoff grace r ≤ 60)
next_backoff-IsBounded grace r h = (ground (arith, h.low, h.high), ground (arith, h.low, h.high))

wait_of-IsPause :
    (grace is_down : Bool) (r : Reconnect) → IsBounded r → IsPause (sleep (wait_of grace is_down r))
wait_of-IsPause grace is_down r h = (ground (arith, h.low, h.high), ground (arith, h.low, h.high))

retry-IsBounded :
    (grace is_down flips : Bool) (now' : ℕ) (r : Reconnect)
    → IsBounded r
    → IsBounded (retry grace is_down now' flips r).0
      × All IsPause (retry grace is_down now' flips r).1
unfolding retry
retry-IsBounded grace is_down true now' r h =
    let (low, high) = next_backoff-IsBounded grace r h in
    (record { low = low; high = high }, (tt, (wait_of-IsPause grace is_down r h, tt)))
retry-IsBounded grace is_down false now' r h =
    let (low, high) = next_backoff-IsBounded grace r h in
    (record { low = low; high = high }, (wait_of-IsPause grace is_down r h, tt))

attempt-IsBounded :
    (r : Reconnect) (a : Attempt)
    → IsBounded r
    → IsBounded (reconnect r a).0 × All IsPause (reconnect r a).1
unfolding reconnect
attempt-IsBounded r (connect_failed is_down now now') h =
    let grace = in_grace r.post_yield_deadline now in
    elim (Bool-cases (is_down && not grace)) [
      | inl counted ↦ rw counted (
          retry-IsBounded grace is_down (goes_offline (host_down r)) now' (host_down r)
            (record { low = h.low; high = h.high }))
      | inr other ↦ rw other (retry-IsBounded grace is_down false now' r h)
    ]
attempt-IsBounded r handshake_failed h =
    (record { low = omega arith; high = omega arith }, ((omega arith, omega arith), tt))
attempt-IsBounded r (session_ended yielded) h =
    (record { low = omega arith; high = omega arith }, (tt, tt))

attempts-IsBounded_from :
    (r : Reconnect) (rounds : List Attempt)
    → IsBounded r
    → IsBounded (attempts r rounds).0 × All IsPause (attempts r rounds).1
unfolding attempts
attempts-IsBounded_from r [] h = (h, tt)
attempts-IsBounded_from r (a ∷ rest) h =
    let (h₁, pauses) = attempt-IsBounded r a h in
    let (h₂, later) = attempts-IsBounded_from (reconnect r a).0 rest h₁ in
    (h₂, All-append IsPause (reconnect r a).1 (attempts (reconnect r a).0 rest).1 pauses later)

-- Whatever happens from the start, the back-off stays between two seconds and a minute, and no
-- pause is shorter than two seconds or longer than ten minutes.
pub attempts-IsBounded :
    (rounds : List Attempt)
    → IsBounded (attempts at_start rounds).0 × All IsPause (attempts at_start rounds).1
attempts-IsBounded rounds = attempts-IsBounded_from at_start rounds at_start-IsBounded
