-- ===== src/Transport/Framer/Steps.antt =====
-- One byte at a time: what `push_byte` does in each phase, and that its recursion ends.
use hass_sma_rs.Prelude.{
  ℕ, suc, ◌+◌, ◌≤◌, ◌<◌, ◌≡◌, refl, ◌∙◌, List, [], ◌∷◌, ◌++◌, Option, Option-cases, sym, inl, inr,
  none, some, ◌==◌, if◌then◌else◌, length, length-append, arith, le→leb, lt→leb_false,
}
use mathlib.Core.Option.{some-injective}
use hass_sma_rs.Protocol.Constants.{frame_delimiter}
use hass_sma_rs.Transport.Framer.{FrameReader, header_length, push_all, push_byte_fuel}

-- A reader between frames or inside a header, and one inside a body of known length.
abbrev pub heading : List ℕ → List (List ℕ) → FrameReader
heading p done = record { in_progress = p; expected_len = none; completed = done }

abbrev pub reading : List ℕ → ℕ → List (List ℕ) → FrameReader
reading p want done = record { in_progress = p; expected_len = some want; completed = done }

-- The bytes in progress after one more, as long as the header is not complete.
abbrev pub next_header : List ℕ → ℕ → List ℕ
next_header [] b = if b == frame_delimiter then b ∷ [] else []
next_header (p ∷ ps) b = (p ∷ ps) ++ b ∷ []

pub length-next_header : (p : List ℕ) (b : ℕ) → length (next_header p b) ≤ length p + 1
length-next_header [] b = ground arith
length-next_header (p ∷ ps) b = omega (arith, length-append ps (b ∷ []))

pub push_all_step :
    (step : FrameReader → ℕ → Option FrameReader) (r r' : FrameReader) (b : ℕ) (bs : List ℕ)
    → step r b ≡ some r'
    → push_all step r (b ∷ bs) ≡ push_all step r' bs
unfolding push_all
push_all_step step r r' b bs h = rw (h, push_all)

pub push_all_stop :
    (step : FrameReader → ℕ → Option FrameReader) (r : FrameReader) (b : ℕ) (bs : List ℕ)
    → step r b ≡ none
    → push_all step r (b ∷ bs) ≡ none
unfolding push_all
push_all_stop step r b bs h = rw (h, push_all)

-- Pushing a list is pushing its parts in turn.
pub push_all-append :
    (step : FrameReader → ℕ → Option FrameReader) (r r' : FrameReader) (xs ys : List ℕ)
    → push_all step r xs ≡ some r'
    → push_all step r (xs ++ ys) ≡ push_all step r' ys
push_all-append step r r' [] ys h =
    let same : r ≡ r' = some-injective r r' (unfold push_all in h) in rw same
push_all-append step r r' (x ∷ xs) ys h = elim (Option-cases (step r x)) [
  | inl stop ↦ absurd (cc (push_all_stop step r x xs stop))
  | inr (q, e) ↦
      push_all_step step r q x (xs ++ ys) e
      ∙ push_all-append step q r' xs ys (sym (push_all_step step r q x xs e) ∙ h)
]

module _ (fuel : ℕ) (done : List (List ℕ)) where
  pub push-header :
      (p : List ℕ) (b : ℕ)
      → length p ≤ 2
      → push_byte_fuel (suc fuel) (heading p done) b ≡ some (heading (next_header p b) done)
  unfolding push_byte_fuel
  push-header [] b l = ground arith
  push-header (x ∷ []) b l = refl
  push-header (x ∷ y ∷ []) b l = refl
  push-header (x ∷ y ∷ z ∷ p) b l = absurd (omega arith)

  pub push-header_valid :
      (x y z b want : ℕ)
      → header_length (x ∷ y ∷ z ∷ b ∷ []) ≡ some want
      → push_byte_fuel (suc fuel) (heading (x ∷ y ∷ z ∷ []) done) b
        ≡ some (reading (x ∷ y ∷ z ∷ b ∷ []) want done)
  unfolding push_byte_fuel
  push-header_valid x y z b want h = rw h

  -- An invalid header: its last three bytes are pushed again.
  pub push-header_invalid :
      (x y z b : ℕ)
      → header_length (x ∷ y ∷ z ∷ b ∷ []) ≡ none
      → push_byte_fuel (suc fuel) (heading (x ∷ y ∷ z ∷ []) done) b
        ≡ push_all (push_byte_fuel fuel) (heading [] done) (y ∷ z ∷ b ∷ [])
  unfolding push_byte_fuel
  push-header_invalid x y z b h = rw h

  pub push-body_grows :
      (p : ℕ) (ps : List ℕ) (want b : ℕ)
      → length (p ∷ ps) + 1 < want
      → push_byte_fuel (suc fuel) (reading (p ∷ ps) want done) b
        ≡ some (reading ((p ∷ ps) ++ b ∷ []) want done)
  unfolding push_byte_fuel
  push-body_grows p ps want b h =
      rw
        (lt→leb_false want (length ((p ∷ ps) ++ b ∷ [])) (omega (arith, length-append ps (b ∷ []))))

  pub push-body_done :
      (p : ℕ) (ps : List ℕ) (want b : ℕ)
      → want ≤ length (p ∷ ps) + 1
      → push_byte_fuel (suc fuel) (reading (p ∷ ps) want done) b
        ≡ some (heading [] (done ++ ((p ∷ ps) ++ b ∷ []) ∷ []))
  unfolding push_byte_fuel
  push-body_done p ps want b h =
      rw (le→leb want (length ((p ∷ ps) ++ b ∷ [])) (omega (arith, length-append ps (b ∷ []))))

  -- The replay of three bytes never meets a complete header.
  pub push_all_replay :
      (x y z : ℕ)
      → push_all (push_byte_fuel (suc fuel)) (heading [] done) (x ∷ y ∷ z ∷ [])
        ≡ some (heading (next_header (next_header (next_header [] x) y) z) done)
  push_all_replay x y z =
      let p = next_header [] x in
      let q = next_header p y in
      let lp : length p ≤ 1 = length-next_header [] x in
      let lq : length q ≤ 2 = omega (arith, length-next_header p y) in
      push_all_step _ _ _ x (y ∷ z ∷ []) (push-header [] x (omega arith))
      ∙ push_all_step _ _ _ y (z ∷ []) (push-header p y (omega arith))
      ∙ push_all_step _ _ _ z [] (push-header q z lq)
      ∙ (unfold push_all in refl)
