-- ===== src/Transport/Framer/Invariant.antt =====
-- The reader's invariant: it holds of a new reader and every byte keeps it.
use hass_sma_rs.Prelude.{
  ℕ, ◌+◌, ◌≤◌, ◌<◌, ◌≡◌, refl, ◌∙◌, List, [], ◌∷◌, ◌++◌, Bool-cases, inl, inr, Option, some,
  Option-cases, ◌==◌, ==_iff, length, length-append, get_or, All, All-append, arith,
}
use native.Mathlib.Decide.{dec_lt}
use hass_sma_rs.Protocol.Constants.{frame_delimiter}
use hass_sma_rs.Transport.Framer.{FrameReader, new, header_length, push_all, push_byte, push}
use hass_sma_rs.Transport.Framer.Steps.{
  heading, reading, next_header, length-next_header, push_all_step, push-header, push-header_valid,
  push-header_invalid, push-body_grows, push-body_done, push_all_replay,
}

-- A frame as the reader hands it out: a start delimiter, a valid header, the declared length.
pub record IsWhole (f : List ℕ) : Type 0 where
  pub start : get_or f 0 0 ≡ frame_delimiter
  pub header : header_length f ≡ some (length f)

-- The bytes in progress are none or begin with the delimiter.
abbrev Starts : List ℕ → Type 0
Starts [] = Unit {0}
Starts (p ∷ ps) = p ≡ frame_delimiter

-- No frame is in progress longer than its header declares, and all that are completed are whole.
pub data IsValid : FrameReader → Type 0 where
  in_header :
      (p : List ℕ) (done : List (List ℕ))
      → Starts p
      → length p ≤ 3
      → All IsWhole done
      → IsValid (heading p done)
  in_body :
      (x y z b : ℕ) (p : List ℕ) (want : ℕ) (done : List (List ℕ))
      → x ≡ frame_delimiter
      → header_length (x ∷ y ∷ z ∷ b ∷ []) ≡ some want
      → length p + 4 < want
      → All IsWhole done
      → IsValid (reading (x ∷ y ∷ z ∷ b ∷ p) want done)

pub new-IsValid : IsValid new
unfolding new
new-IsValid = in_header [] [] tt (omega arith) tt

next_header-Starts : (p : List ℕ) (b : ℕ) → Starts p → Starts (next_header p b)
next_header-Starts [] b h = elim (Bool-cases (b == frame_delimiter)) [
  | inl e ↦ rw e ((==_iff _ _).0 e)
  | inr e ↦ rw e tt
]
next_header-Starts (p ∷ ps) b h = h

-- A header declares at least its own four bytes and more.
pub header_length-ge : (h : List ℕ) (want : ℕ) → header_length h ≡ some want → 18 ≤ want
unfolding header_length
header_length-ge h want e = ground arith

-- Only the first four bytes count.
pub header_length-four :
    (x y z b : ℕ) (p : List ℕ)
    → header_length (x ∷ y ∷ z ∷ b ∷ p) ≡ header_length (x ∷ y ∷ z ∷ b ∷ [])
unfolding header_length
header_length-four x y z b p = refl

-- The next state is defined, and valid.
abbrev Steps : Option FrameReader → Type 0
Steps o = (r : FrameReader) × (o ≡ some r) × IsValid r

step-short :
    (p : List ℕ) (done : List (List ℕ)) (b : ℕ)
    → Starts p
    → length p ≤ 2
    → All IsWhole done
    → Steps (push_byte (heading p done) b)
unfolding push_byte
step-short p done b s l w = (
  heading (next_header p b) done,
  push-header 1 done p b l,
  in_header (next_header p b) done (next_header-Starts p b s)
      (omega (arith, length-next_header p b)) w,
)

step-replayed :
    (y z b : ℕ) (done : List (List ℕ))
    → All IsWhole done
    → IsValid (heading (next_header (next_header (next_header [] y) z) b) done)
step-replayed y z b done w =
    let p = next_header [] y in
    let q = next_header p z in
    let s = next_header-Starts q b (next_header-Starts p z (next_header-Starts [] y tt)) in
    in_header (next_header q b) done s
      (omega (arith, length-next_header [] y, length-next_header p z, length-next_header q b)) w

step-header :
    (p : List ℕ) (done : List (List ℕ)) (b : ℕ)
    → Starts p
    → length p ≤ 3
    → All IsWhole done
    → Steps (push_byte (heading p done) b)
step-header [] done b s l w = step-short [] done b s (omega arith) w
step-header (x ∷ []) done b s l w = step-short (x ∷ []) done b s (omega arith) w
step-header (x ∷ y ∷ []) done b s l w = step-short (x ∷ y ∷ []) done b s (omega arith) w
step-header (x ∷ y ∷ z ∷ []) done b s l w =
    unfold push_byte in
    elim (Option-cases (header_length (x ∷ y ∷ z ∷ b ∷ []))) [
      | inl bad ↦ (
        heading (next_header (next_header (next_header [] y) z) b) done,
        push-header_invalid 1 done x y z b bad ∙ push_all_replay 0 done y z b,
        step-replayed y z b done w,
      )
      | inr (want, good) ↦ (
        reading (x ∷ y ∷ z ∷ b ∷ []) want done,
        push-header_valid 1 done x y z b want good,
        in_body x y z b [] want done s good
            (omega (arith, header_length-ge (x ∷ y ∷ z ∷ b ∷ []) want good)) w,
      )
    ]
step-header (x ∷ y ∷ z ∷ x' ∷ p) done b s l w = absurd (omega arith)

done-IsWhole :
    (x y z b : ℕ) (p : List ℕ) (want : ℕ)
    → x ≡ frame_delimiter
    → header_length (x ∷ y ∷ z ∷ b ∷ []) ≡ some want
    → length p + 4 ≡ want
    → IsWhole (x ∷ y ∷ z ∷ b ∷ p)
done-IsWhole x y z b p want s h l = record {
  start = s;
  header =
      header_length-four x y z b p
      ∙ h
      ∙ (let e : want ≡ length (x ∷ y ∷ z ∷ b ∷ p) = omega arith in rw e);
}

step-body :
    (x y z b : ℕ) (p : List ℕ) (want : ℕ) (done : List (List ℕ)) (c : ℕ)
    → x ≡ frame_delimiter
    → header_length (x ∷ y ∷ z ∷ b ∷ []) ≡ some want
    → length p + 4 < want
    → All IsWhole done
    → Steps (push_byte (reading (x ∷ y ∷ z ∷ b ∷ p) want done) c)
unfolding push_byte
step-body x y z b p want done c s h l w = elim (dec_lt (length p + 5) want) [
  | yes more ↦ (
    reading (x ∷ y ∷ z ∷ b ∷ (p ++ c ∷ [])) want done,
    push-body_grows 1 done x (y ∷ z ∷ b ∷ p) want c (omega arith),
    in_body x y z b (p ++ c ∷ []) want done s h (omega (arith, length-append p (c ∷ []))) w,
  )
  | no last ↦ (
    heading [] (done ++ (x ∷ y ∷ z ∷ b ∷ (p ++ c ∷ [])) ∷ []),
    push-body_done 1 done x (y ∷ z ∷ b ∷ p) want c (omega arith),
    in_header [] _ tt (omega arith) (
        All-append IsWhole done _ w (
          done-IsWhole x y z b (p ++ c ∷ []) want s h (omega (arith, length-append p (c ∷ []))),
          tt,
        )),
  )
]

-- Every byte is taken within the fuel of `push_byte`, and keeps the invariant.
pub push_byte-IsValid :
    (r : FrameReader) (b : ℕ)
    → IsValid r
    → (r' : FrameReader) × (push_byte r b ≡ some r') × IsValid r'
push_byte-IsValid _ c (in_header p done s l w) = step-header p done c s l w
push_byte-IsValid _ c (in_body x y z b p want done s h l w) =
    step-body x y z b p want done c s h l w

push_all-IsValid :
    (r : FrameReader) (bs : List ℕ)
    → IsValid r
    → (r' : FrameReader) × (push_all push_byte r bs ≡ some r') × IsValid r'
push_all-IsValid r [] v = (r, (unfold push_all in refl), v)
push_all-IsValid r (b ∷ bs) v =
    let (q, e, w) = push_byte-IsValid r b v in
    let (r', e', v') = push_all-IsValid q bs w in (r', push_all_step push_byte r q b bs e ∙ e', v')

-- Every run of bytes, noise or not, is taken by a valid reader and leaves a valid one: the replay
-- of a bad header ends, and every frame that comes out is whole.
pub push-IsValid :
    (r : FrameReader) (bs : List ℕ)
    → IsValid r
    → (r' : FrameReader) × (push r bs ≡ some r') × IsValid r'
unfolding push
push-IsValid r bs v = push_all-IsValid r bs v
