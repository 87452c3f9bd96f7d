-- ===== src/Transport/Framer/Behind.antt =====
-- A reader whose queue has more frames in front: it takes bytes as it did without them.
use hass_sma_rs.Prelude.{
  ℕ, zero, suc, ◌≡◌, refl, sym, ap, ◌∙◌, List, [], ◌∷◌, ◌++◌, append_assoc, Bool-cases, inl, inr,
  Option, Option-cases, none, some, ◌==◌, length, leb, ◌⊎◌,
}
use mathlib.Core.Option
use mathlib.Core.Option.{some-injective}
use hass_sma_rs.Protocol.Constants.{frame_delimiter}
use hass_sma_rs.Transport.Framer.{
  FrameReader, header_length, header_len, push_all, push_byte_fuel, push_byte, push_step, grow,
  grow_header, grow_body, push, pop_frame,
}
use hass_sma_rs.Transport.Framer.Steps.{push_all_step, push_all_stop}

abbrev pub behind : List (List ℕ) → FrameReader → FrameReader
behind done r = record r { completed = done ++ r.completed }

abbrev Step : Type 0
Step = FrameReader → ℕ → Option FrameReader

abbrev Replay : Type 0
Replay = FrameReader → List ℕ → Option FrameReader

module _ (done : List (List ℕ)) where
  push_all-behind_step :
      (step : Step)
      → ((r : FrameReader) (b : ℕ) → step (behind done r) b ≡ Option.map (behind done) (step r b))
      → (r : FrameReader) (bs : List ℕ)
      → push_all step (behind done r) bs ≡ Option.map (behind done) (push_all step r bs)
  unfolding push_all
  push_all-behind_step step h r [] = refl
  push_all-behind_step step h r (b ∷ bs) = elim (Option-cases (step r b)) [
    | inl stop ↦
        push_all_stop step (behind done r) b bs (h r b ∙ ap (Option.map (behind done)) stop)
        ∙ ap (Option.map (behind done)) (sym (push_all_stop step r b bs stop))
    | inr (q, e) ↦
        push_all_step step (behind done r) (behind done q) b bs
          (h r b ∙ ap (Option.map (behind done)) e)
        ∙ push_all-behind_step step h q bs
        ∙ ap (Option.map (behind done)) (sym (push_all_step step r q b bs e))
  ]

  grow_body-behind :
      (r : FrameReader) (want : ℕ) (grown : List ℕ)
      → grow_body (behind done r) want grown ≡ behind done (grow_body r want grown)
  unfolding grow_body
  grow_body-behind r want grown = elim (Bool-cases (leb want (length grown))) [
    | inl whole ↦ rw (whole, append_assoc done r.completed (grown ∷ []))
    | inr part ↦ rw part
  ]

  grow_header-behind :
      (replay : Replay)
      → ((r : FrameReader) (bs : List ℕ)
          → replay (behind done r) bs ≡ Option.map (behind done) (replay r bs))
      → (r : FrameReader) (grown : List ℕ)
      → grow_header replay (behind done r) grown
        ≡ Option.map (behind done) (grow_header replay r grown)
  unfolding grow_header
  grow_header-behind replay h r grown = elim (Bool-cases (length grown == header_len)) [
    | inl four ↦ elim (Option-cases (header_length grown)) [
      | inl bad ↦ rw (four, bad) (h _ _)
      | inr (want, good) ↦ rw (four, good)
    ]
    | inr few ↦ rw few
  ]

  grow-behind :
      (replay : Replay)
      → ((r : FrameReader) (bs : List ℕ)
          → replay (behind done r) bs ≡ Option.map (behind done) (replay r bs))
      → (r : FrameReader) (want : Option ℕ) (grown : List ℕ)
      → grow replay (behind done r) want grown ≡ Option.map (behind done) (grow replay r want grown)
  unfolding grow
  grow-behind replay h r none grown = grow_header-behind replay h r grown
  grow-behind replay h r (some want) grown = ap some (grow_body-behind r want grown)

  push_step-behind :
      (replay : Replay)
      → ((r : FrameReader) (bs : List ℕ)
          → replay (behind done r) bs ≡ Option.map (behind done) (replay r bs))
      → (r : FrameReader) (p : List ℕ) (b : ℕ)
      → push_step replay (behind done r) p b ≡ Option.map (behind done) (push_step replay r p b)
  unfolding push_step
  push_step-behind replay h r [] b = elim (Bool-cases (b == frame_delimiter)) [
    | inl start ↦ rw start
    | inr noise ↦ rw noise
  ]
  push_step-behind replay h r (p ∷ ps) b =
      grow-behind replay h r r.expected_len ((p ∷ ps) ++ b ∷ [])

  push_byte_fuel-behind :
      (fuel : ℕ) (r : FrameReader) (b : ℕ)
      → push_byte_fuel fuel (behind done r) b ≡ Option.map (behind done) (push_byte_fuel fuel r b)
  unfolding push_byte_fuel
  push_byte_fuel-behind zero r b = refl
  push_byte_fuel-behind (suc fuel) r b =
      push_step-behind (push_all (push_byte_fuel fuel))
        (push_all-behind_step (push_byte_fuel fuel) (push_byte_fuel-behind fuel)) r r.in_progress b

  pub push-behind :
      (r r' : FrameReader) (bs : List ℕ)
      → push r bs ≡ some r'
      → push (behind done r) bs ≡ some (behind done r')
  unfolding push
  push-behind r r' bs h =
      push_all-behind_step push_byte (unfold push_byte in push_byte_fuel-behind 2) r bs ∙ rw h

pub push-nil : (r : FrameReader) → push r [] ≡ some r
unfolding push push_all
push-nil r = refl

-- A pop: an empty queue leaves the reader alone, another loses its first frame.
pub pop_frame-cases :
    (r : FrameReader)
    → ((r.completed ≡ []) × (pop_frame r ≡ (none, r)))
      ⊎ ((f : List ℕ) × (fs : List (List ℕ)) × (r.completed ≡ f ∷ fs)
          × (pop_frame r ≡ (some f, record r { completed = fs })))
unfolding pop_frame
pop_frame-cases r = by_queue r.completed refl
  where
    by_queue :
        (queue : List (List ℕ))
        → r.completed ≡ queue
        → ((r.completed ≡ []) × (pop_frame r ≡ (none, r)))
          ⊎ ((f : List ℕ) × (fs : List (List ℕ)) × (r.completed ≡ f ∷ fs)
              × (pop_frame r ≡ (some f, record r { completed = fs })))
    by_queue [] e = inl (e, rw e)
    by_queue (f ∷ fs) e = inr (f, fs, e, rw e)
