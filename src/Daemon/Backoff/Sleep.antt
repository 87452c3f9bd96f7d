-- ===== src/Daemon/Backoff/Sleep.antt =====
-- An inverter that sleeps, one that has yielded, and handshakes that fail.
use Prim.Native.Nat.{min}
use hass_sma_rs.Prelude.{
  ℕ, suc, ◌+◌, ◌*◌, ◌%◌, ◌^◌, ◌≤◌, ◌<◌, ◌≡◌, refl, ap, ◌∙◌, List, [], ◌∷◌, ◌++◌, length, replicate,
  append_assoc, Bool, Option, true, false, none, some, if◌then◌else◌, lt→ltb, lt→leb_false, le→leb,
  le→ltb_false, and_false, sym, zero, arith, All,
}
use hass_sma_rs.Daemon.Backoff.{
  Reconnect, Attempt, connect_failed, handshake_failed, session_ended, Effect, publish_offline,
  publish_online, sleep, reconnect, attempts, post_yield_grace,
}

abbrev pub offline_count : List Effect → ℕ
offline_count [] = 0
offline_count (publish_offline ∷ rest) = suc (offline_count rest)
offline_count (publish_online ∷ rest) = offline_count rest
offline_count (sleep n ∷ rest) = offline_count rest

offline_count-append :
    (xs ys : List Effect) → offline_count (xs ++ ys) ≡ offline_count xs + offline_count ys
offline_count-append [] ys = omega arith
offline_count-append (publish_offline ∷ xs) ys = omega (arith, offline_count-append xs ys)
offline_count-append (publish_online ∷ xs) ys = offline_count-append xs ys
offline_count-append (sleep n ∷ xs) ys = offline_count-append xs ys

-- Rounds in which no session comes up.
abbrev pub IsFailure : Attempt → Type 0
IsFailure (connect_failed is_down now now') = Unit {0}
IsFailure handshake_failed = Unit {0}
IsFailure (session_ended yielded) = ⊥

-- How often the change to offline may still be told.
abbrev left_to_tell : Reconnect → ℕ
left_to_tell r = if r.published_offline then 0 else 1

attempt-tells :
    (r : Reconnect) (a : Attempt)
    → IsFailure a
    → offline_count (reconnect r a).1 + left_to_tell (reconnect r a).0 ≤ left_to_tell r
unfolding reconnect
attempt-tells r (connect_failed is_down now now') h = ground arith
attempt-tells r handshake_failed h = omega arith
attempt-tells r (session_ended yielded) h = absurd h

attempts-tell :
    (r : Reconnect) (rounds : List Attempt)
    → All IsFailure rounds
    → offline_count (attempts r rounds).1 ≤ left_to_tell r
unfolding attempts
attempts-tell r [] h = ground arith
attempts-tell r (a ∷ rest) (f, h) = omega (
  arith,
  attempt-tells r a f,
  attempts-tell (reconnect r a).0 rest h,
  offline_count-append (reconnect r a).1 (attempts (reconnect r a).0 rest).1,
)

-- From one session to the next, and before the first, the devices are told to be offline at most
-- once.
attempts-offline_once :
    (r : Reconnect) (rounds : List Attempt)
    → All IsFailure rounds
    → offline_count (attempts r rounds).1 ≤ 1
attempts-offline_once r rounds h =
    let told : left_to_tell r ≤ 1 = ground arith in omega (arith, attempts-tell r rounds h)

-- Connects that fail because the host is down, each with the two readings of the clock.
abbrev pub downs : List (ℕ × ℕ) → List Attempt
downs [] = []
downs ((now, now') ∷ rest) = connect_failed true now now' ∷ downs rest

-- So many connects in a row have found the host down; whether its devices were told to be offline,
-- and the end of a grace window.
abbrev pub away : ℕ → ℕ → Bool → Option ℕ → Reconnect
away backoff streak told deadline = record {
  backoff = backoff;
  host_down_streak = streak;
  published_offline = told;
  post_yield_deadline = deadline;
}

abbrev asleep : ℕ → ℕ → Reconnect
asleep backoff streak = away backoff streak true none

-- There is no grace window, or it is over.
abbrev pub IsPast : Option ℕ → ℕ → Type 0
IsPast none now = Unit {0}
IsPast (some deadline) now = deadline ≤ now

-- The change to offline, unless it was told before.
abbrev pub offline_unless : Bool → List Effect
offline_unless told = if told then [] else publish_offline ∷ []

down_first :
    (backoff now now' : ℕ) (told : Bool) (deadline : Option ℕ)
    → IsPast deadline now
    → now ≤ now'
    → reconnect (away backoff 0 told deadline) (connect_failed true now now')
      ≡ (away (min (backoff * 2) 60) 1 told none, sleep backoff ∷ [])
unfolding reconnect
down_first backoff now now' told none past order = refl
down_first backoff now now' told (some deadline) past order =
    rw (le→ltb_false now deadline past, le→leb deadline now' (omega (arith, past, order))) refl

down_second :
    (backoff now now' : ℕ) (told : Bool)
    → reconnect (away backoff 1 told none) (connect_failed true now now')
      ≡ (away (min (backoff * 2) 60) 2 told none, sleep backoff ∷ [])
unfolding reconnect
down_second backoff now now' told = refl

down_third :
    (backoff now now' : ℕ) (told : Bool)
    → reconnect (away backoff 2 told none) (connect_failed true now now')
      ≡ (asleep backoff 3, offline_unless told ++ sleep 600 ∷ [])
unfolding reconnect
down_third backoff now now' true = refl
down_third backoff now now' false = refl

down_later :
    (backoff streak now now' : ℕ)
    → 3 ≤ streak
    → streak + 1 < 2 ^ 32
    → reconnect (asleep backoff streak) (connect_failed true now now')
      ≡ (asleep backoff (streak + 1), sleep 600 ∷ [])
unfolding reconnect
down_later backoff streak now now' h l =
    let same : (streak + 1) % 2 ^ 32 ≡ streak + 1 = omega arith in
    rw (
      same,
      le→leb 3 (streak + 1) (omega arith),
      le→ltb_false (streak + 1) 3 (omega arith),
      and_false,
    )

attempts_step :
    (r r' : Reconnect) (a : Attempt) (effects : List Effect) (rest : List Attempt)
    → reconnect r a ≡ (r', effects)
    → (attempts r (a ∷ rest)).1 ≡ effects ++ (attempts r' rest).1
unfolding attempts
attempts_step r r' a effects rest e =
    ap (λ (o : Reconnect × List Effect). o.1 ++ (attempts o.0 rest).1) e

downs-asleep :
    (backoff streak : ℕ) (times : List (ℕ × ℕ))
    → 3 ≤ streak
    → streak + length times < 2 ^ 32
    → (attempts (asleep backoff streak) (downs times)).1 ≡ replicate (length times) (sleep 600)
downs-asleep backoff streak [] h l = unfold attempts in refl
downs-asleep backoff streak ((now, now') ∷ rest) h l =
    attempts_step _ _ _ _ (downs rest) (down_later backoff streak now now' h (omega arith))
    ∙ ap (λ (es : List Effect). sleep 600 ∷ es)
        (downs-asleep backoff (streak + 1) rest (omega arith) (omega arith))

-- Whatever its back-off, and whether its devices were told to be offline or not: outside a grace
-- window and with no such connect before them, the first three connects in a row that find the host
-- down wait the back-off, its double up to a minute, and ten minutes, with the change to offline told
-- in front of that last wait unless it was told before; each further one, of fewer than 2 ^ 32 in all,
-- waits ten minutes and tells nothing.
pub attempts-downs :
    (backoff now₁ now₁' now₂ now₂' now₃ now₃' : ℕ) (told : Bool) (deadline : Option ℕ)
    (times : List (ℕ × ℕ))
    → IsPast deadline now₁
    → now₁ ≤ now₁'
    → length times + 3 < 2 ^ 32
    → (attempts
        (away backoff 0 told deadline)
        (downs ((now₁, now₁') ∷ (now₂, now₂') ∷ (now₃, now₃') ∷ times))).1
      ≡ sleep backoff
        ∷ sleep (min (backoff * 2) 60)
        ∷ (offline_unless told ++ sleep 600 ∷ replicate (length times) (sleep 600))
attempts-downs backoff now₁ now₁' now₂ now₂' now₃ now₃' told deadline times past order h =
    attempts_step _ _ _ _ _ (down_first backoff now₁ now₁' told deadline past order)
    ∙ ap (λ (es : List Effect). sleep backoff ∷ es)
        (attempts_step _ _ _ _ _ (down_second (min (backoff * 2) 60) now₂ now₂' told)
          ∙ ap (λ (es : List Effect). sleep (min (backoff * 2) 60) ∷ es)
              (attempts_step _ _ _ _ _
                  (down_third (min (min (backoff * 2) 60 * 2) 60) now₃ now₃' told)
                ∙ append_assoc (offline_unless told) (sleep 600 ∷ []) _
                ∙ ap (λ (es : List Effect). offline_unless told ++ sleep 600 ∷ es)
                    (downs-asleep _ 3 times (omega arith) (omega arith))))

-- Readings of the clock before a deadline, in order.
abbrev pub Before : ℕ → ℕ × ℕ → Type 0
Before deadline (now, now') = (now ≤ now') × (now' < deadline)

grace_step :
    (r : Reconnect) (deadline now now' : ℕ)
    → r.post_yield_deadline ≡ some deadline
    → now ≤ now'
    → now' < deadline
    → reconnect r (connect_failed true now now') ≡ (r, sleep 15 ∷ [])
unfolding reconnect
grace_step r deadline now now' e l h =
    rw (e, lt→ltb now deadline (omega arith), lt→leb_false deadline now' (omega arith), sym e)

grace_steps :
    (r : Reconnect) (deadline : ℕ) (times : List (ℕ × ℕ))
    → r.post_yield_deadline ≡ some deadline
    → All (Before deadline) times
    → (attempts r (downs times)).1 ≡ replicate (length times) (sleep 15)
grace_steps r deadline [] e h = unfold attempts in refl
grace_steps r deadline ((now, now') ∷ rest) e ((l, b), h) =
    attempts_step _ _ _ _ (downs rest) (grace_step r deadline now now' e l b)
    ∙ ap (λ (es : List Effect). sleep 15 ∷ es) (grace_steps r deadline rest e h)

-- For three minutes after a yield, a host that is down is tried again every fifteen seconds: no
-- sleep, no change to offline.
pub attempts-grace :
    (r : Reconnect) (yielded : ℕ) (times : List (ℕ × ℕ))
    → All (Before (yielded + post_yield_grace)) times
    → (attempts r (session_ended (some yielded) ∷ downs times)).1
      ≡ publish_online ∷ replicate (length times) (sleep 15)
unfolding reconnect
attempts-grace r yielded times h =
    attempts_step _ _ _ _ (downs times) refl
    ∙ ap (λ (es : List Effect). publish_online ∷ es)
        (grace_steps (reconnect r (session_ended (some yielded))).0 (yielded + post_yield_grace)
          times refl h)

-- However many handshakes fail in a row, each pauses five seconds, and the back-off behind them is
-- four: its doubling is undone by the next connection.
attempts-handshakes :
    (r : Reconnect) (n : ℕ)
    → ((attempts r (replicate (suc n) handshake_failed)).1 ≡ replicate (suc n) (sleep 5))
      × ((attempts r (replicate (suc n) handshake_failed)).0.backoff ≡ 4)
unfolding attempts
attempts-handshakes r zero = unfold reconnect in (refl, refl)
attempts-handshakes r (suc n) =
    let (pauses, backoff) = attempts-handshakes (reconnect r handshake_failed).0 n in
    (
      attempts_step r _ handshake_failed (sleep 5 ∷ []) (replicate (suc n) handshake_failed)
            (unfold reconnect in refl)
          ∙ ap (λ (es : List Effect). sleep 5 ∷ es) pauses,
      backoff,
    )
