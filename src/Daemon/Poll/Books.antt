-- ===== src/Daemon/Poll/Books.antt =====
-- The books that a sweep keeps of its targets.
use hass_sma_rs.Prelude.{
  ℕ, ◌+◌, ◌≡◌, ◌≢◌, refl, ◌∙◌, inl, inr, List, [], ◌∷◌, Bool-cases, Option, none, some, leb,
  if◌then◌else◌, arith,
}
use hass_sma_rs.Daemon.Poll.{
  Visit, Tracker, Polled, answered, device_failed, session_failed, cooldown_secs, lookup, insert,
  remove, counted, counting, cooled, cleared, past_gate,
}

module _ (key : ℕ) where
  lookup-insert_same : (v : ℕ) (m : List (ℕ × ℕ)) → lookup key (insert key v m) ≡ some v
  lookup-insert_same v [] = ground arith
  lookup-insert_same v ((k, w) ∷ m) = ground (arith, lookup-insert_same v m)

  lookup-insert_other :
      (other v : ℕ) (m : List (ℕ × ℕ))
      → other ≢ key
      → lookup other (insert key v m) ≡ lookup other m
  lookup-insert_other other v [] h = ground arith
  lookup-insert_other other v ((k, w) ∷ m) h = ground (arith, lookup-insert_other other v m h)

  lookup-remove_other :
      (other : ℕ) (m : List (ℕ × ℕ)) → other ≢ key → lookup other (remove key m) ≡ lookup other m
  lookup-remove_other other [] h = refl
  lookup-remove_other other ((k, w) ∷ m) h = ground (arith, lookup-remove_other other m h)

  lookup-remove_same : (m : List (ℕ × ℕ)) → lookup key (remove key m) ≡ none
  lookup-remove_same [] = refl
  lookup-remove_same ((k, w) ∷ m) = ground (arith, lookup-remove_same m)

-- The cooldown that a count asks for: none up to two, then a minute to half an hour.
abbrev pub deadline_after : Visit → ℕ → Option ℕ
deadline_after v cf = if leb 3 cf then some (v.end_now + cooldown_secs cf) else none

-- What a visit has written down, by how it went.
unfoldable pub Booked : Visit → Tracker → Polled → Tracker → Type 0
Booked v t answered t' =
    (lookup v.target.serial t'.failures ≡ some 0) × (lookup v.target.serial t'.skip_until ≡ none)
Booked v t device_failed t' =
    (lookup v.target.serial t'.failures ≡ some (counted v.target.serial t))
    × (lookup v.target.serial t'.skip_until ≡ deadline_after v (counted v.target.serial t))
Booked v t session_failed t' =
    (t'.failures ≡ t.failures) × (lookup v.target.serial t'.skip_until ≡ none)

-- The books of every other target are as they were.
abbrev pub OthersKept : ℕ → Tracker → Tracker → Type 0
OthersKept serial t t' =
    (other : ℕ)
    → other ≢ serial
    → (lookup other t'.failures ≡ lookup other t.failures)
      × (lookup other t'.skip_until ≡ lookup other t.skip_until)

module _ (v : Visit) where
  cooled-skip :
      (cf : ℕ) (t : Tracker)
      → lookup v.target.serial t.skip_until ≡ none
      → lookup v.target.serial (cooled v cf t).skip_until ≡ deadline_after v cf
  cooled-skip cf t h = elim (Bool-cases (leb 3 cf)) [
    | inl long ↦
        rw long (lookup-insert_same v.target.serial (v.end_now + cooldown_secs cf) t.skip_until)
    | inr short ↦ rw short h
  ]

  cooled-failures : (cf : ℕ) (t : Tracker) → (cooled v cf t).failures ≡ t.failures
  cooled-failures cf t = elim (Bool-cases (leb 3 cf)) [ inl long ↦ rw long | inr short ↦ rw short ]

  cooled-other :
      (cf : ℕ) (t : Tracker) (other : ℕ)
      → other ≢ v.target.serial
      → lookup other (cooled v cf t).skip_until ≡ lookup other t.skip_until
  cooled-other cf t other h = elim (Bool-cases (leb 3 cf)) [
    | inl long ↦
        rw long
          (lookup-insert_other v.target.serial other (v.end_now + cooldown_secs cf) t.skip_until h)
    | inr short ↦ rw short
  ]

  pub failed-Booked :
      (t : Tracker)
      → Booked v t device_failed (cooled v (counted v.target.serial t) (counting v (past_gate v t)))
  unfolding Booked
  failed-Booked t =
      let serial = v.target.serial in
      (
        rw (cooled-failures (counted serial t) (counting v (past_gate v t)))
            (lookup-insert_same serial (counted serial t) t.failures),
        cooled-skip (counted serial t) (counting v (past_gate v t))
            (lookup-remove_same serial t.skip_until),
      )

  pub failed-OthersKept :
      (t : Tracker)
      → OthersKept v.target.serial t
          (cooled v (counted v.target.serial t) (counting v (past_gate v t)))
  failed-OthersKept t other h =
      let serial = v.target.serial in
      (
        rw (cooled-failures (counted serial t) (counting v (past_gate v t)))
            (lookup-insert_other serial other (counted serial t) t.failures h),
        cooled-other (counted serial t) (counting v (past_gate v t)) other h
            ∙ lookup-remove_other serial other t.skip_until h,
      )

  pub answered-Booked : (t : Tracker) → Booked v t answered (cleared v (past_gate v t))
  unfolding Booked
  answered-Booked t = (
    lookup-insert_same v.target.serial 0 t.failures,
    lookup-remove_same v.target.serial t.skip_until,
  )

  pub answered-OthersKept : (t : Tracker) → OthersKept v.target.serial t (cleared v (past_gate v t))
  answered-OthersKept t other h = (
    lookup-insert_other v.target.serial other 0 t.failures h,
    lookup-remove_other v.target.serial other t.skip_until h,
  )

  pub dead-Booked : (t : Tracker) → Booked v t session_failed (past_gate v t)
  unfolding Booked
  dead-Booked t = (refl, lookup-remove_same v.target.serial t.skip_until)

  pub dead-OthersKept : (t : Tracker) → OthersKept v.target.serial t (past_gate v t)
  dead-OthersKept t other h = (refl, lookup-remove_other v.target.serial other t.skip_until h)
