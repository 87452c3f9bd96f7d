-- ===== src/Transport/Framer/Delivery.antt =====
-- Whole frames come out of the reader as they went in, in order, whatever noise stands between.
use hass_sma_rs.Prelude.{
  ℕ, ◌+◌, ◌*◌, ◌≤◌, ◌<◌, ◌≡◌, ◌≢◌, ◌⊎◌, none, refl, sym, ap, ◌∙◌, List, [], ◌∷◌, ◌++◌, append_assoc,
  append-nil, false, some, ◌==◌, length, length-append, All, arith,
}
use hass_sma_rs.Protocol.Constants.{frame_delimiter}
use hass_sma_rs.Protocol.Frame.{header_cks}
use hass_sma_rs.Transport.Framer.{FrameReader, header_length, new, push_all, push_byte, push}
use hass_sma_rs.Transport.Framer.Steps.{
  heading, reading, next_header, push_all_step, push_all-append, push-header, push-header_valid,
  push-body_grows, push-body_done, push-header_invalid, push_all_replay,
}
use hass_sma_rs.Transport.Framer.Invariant.{IsWhole, header_length-ge, header_length-four}

-- The rest of a frame whose header was read.
body-delivery :
    (x y z b : ℕ) (p : List ℕ) (want : ℕ) (done : List (List ℕ)) (q : List ℕ)
    → 0 < length q
    → length p + 4 + length q ≡ want
    → push_all push_byte (reading (x ∷ y ∷ z ∷ b ∷ p) want done) q
      ≡ some (heading [] (done ++ (x ∷ y ∷ z ∷ b ∷ (p ++ q)) ∷ []))
unfolding push_byte push_all
body-delivery x y z b p want done [] some_left l = absurd (omega arith)
body-delivery x y z b p want done (c ∷ []) some_left l =
    push_all_step push_byte _ _ c [] (push-body_done 1 done x (y ∷ z ∷ b ∷ p) want c (omega arith))
    ∙ refl
body-delivery x y z b p want done (c ∷ d ∷ q) some_left l =
    push_all_step push_byte _ (reading (x ∷ y ∷ z ∷ b ∷ (p ++ c ∷ [])) want done) c (d ∷ q)
      (push-body_grows 1 done x (y ∷ z ∷ b ∷ p) want c (omega arith))
    ∙ body-delivery x y z b (p ++ c ∷ []) want done (d ∷ q) (omega arith)
        (omega (arith, length-append p (c ∷ [])))
    ∙ rw (append_assoc p (c ∷ []) (d ∷ q))

frame-delivery :
    (f : List ℕ) (done : List (List ℕ))
    → IsWhole f
    → push_all push_byte (heading [] done) f ≡ some (heading [] (done ++ f ∷ []))
unfolding push_byte push_all
frame-delivery [] done w = absurd (omega (arith, header_length-ge _ _ w.header))
frame-delivery (x ∷ []) done w = absurd (omega (arith, header_length-ge _ _ w.header))
frame-delivery (x ∷ y ∷ []) done w = absurd (omega (arith, header_length-ge _ _ w.header))
frame-delivery (x ∷ y ∷ z ∷ []) done w = absurd (omega (arith, header_length-ge _ _ w.header))
frame-delivery (x ∷ y ∷ z ∷ b ∷ p) done w =
    let want = length (x ∷ y ∷ z ∷ b ∷ p) in
    let started : next_header [] x ≡ x ∷ [] = rw w.start in
    let long : 18 ≤ want = header_length-ge _ _ w.header in
    push_all_step push_byte _ (heading (x ∷ []) done) x (y ∷ z ∷ b ∷ p)
      ((push-header 1 done [] x (omega arith) ∙ ap (λ (h : List ℕ). some (heading h done)) started))
    ∙ push_all_step push_byte _ (heading (x ∷ y ∷ []) done) y (z ∷ b ∷ p)
        (push-header 1 done (x ∷ []) y (omega arith))
    ∙ push_all_step push_byte _ (heading (x ∷ y ∷ z ∷ []) done) z (b ∷ p)
        (push-header 1 done (x ∷ y ∷ []) z (omega arith))
    ∙ push_all_step push_byte _ (reading (x ∷ y ∷ z ∷ b ∷ []) want done) b p
        (push-header_valid 1 done x y z b want (sym (header_length-four x y z b p) ∙ w.header))
    ∙ body-delivery x y z b [] want done p (omega arith) (omega arith)

-- Behind a start delimiter, three bytes that make no header: a wrong checksum, or a length that no
-- frame has.
abbrev pub IsFalse : ℕ → ℕ → ℕ → Type 0
IsFalse lo hi cks = (cks ≢ header_cks lo hi) ⊎ (lo + 256 * hi < 18) ⊎ (2048 < lo + 256 * hi)

-- Bytes between frames: none of them is a start delimiter, but for those of false headers, which
-- may overlap and end with the noise at the latest.
pub data IsNoise : List ℕ → Type 0 where
  silence : IsNoise []
  stray : {b : ℕ} {bs : List ℕ} → (b == frame_delimiter) ≡ false → IsNoise bs → IsNoise (b ∷ bs)
  false_start :
      {lo hi cks : ℕ} {bs : List ℕ}
      → IsFalse lo hi cks
      → IsNoise (lo ∷ hi ∷ cks ∷ bs)
      → IsNoise (frame_delimiter ∷ lo ∷ hi ∷ cks ∷ bs)

IsFalse-refused :
    (lo hi cks : ℕ)
    → IsFalse lo hi cks
    → header_length (frame_delimiter ∷ lo ∷ hi ∷ cks ∷ []) ≡ none
unfolding header_length
IsFalse-refused lo hi cks h = ground (arith, h)

-- A false header is dropped by its first byte: the three behind it are read anew.
false_start-replayed :
    (lo hi cks : ℕ) (bs : List ℕ) (done : List (List ℕ))
    → IsFalse lo hi cks
    → push_all push_byte (heading [] done) (frame_delimiter ∷ lo ∷ hi ∷ cks ∷ bs)
      ≡ push_all push_byte (heading [] done) (lo ∷ hi ∷ cks ∷ bs)
unfolding push_byte
false_start-replayed lo hi cks bs done h =
    let d = frame_delimiter in
    push_all_step push_byte _ (heading (d ∷ []) done) d (lo ∷ hi ∷ cks ∷ bs)
      (push-header 1 done [] d (omega arith))
    ∙ push_all_step push_byte _ (heading (d ∷ lo ∷ []) done) lo (hi ∷ cks ∷ bs)
        (push-header 1 done (d ∷ []) lo (omega arith))
    ∙ push_all_step push_byte _ (heading (d ∷ lo ∷ hi ∷ []) done) hi (cks ∷ bs)
        (push-header 1 done (d ∷ lo ∷ []) hi (omega arith))
    ∙ push_all_step push_byte _ _ cks bs (
        push-header_invalid 1 done d lo hi cks (IsFalse-refused lo hi cks h)
        ∙ push_all_replay 0 done lo hi cks)
    ∙ sym (
        push_all-append push_byte (heading [] done) _ (lo ∷ hi ∷ cks ∷ []) bs
          (push_all_replay 1 done lo hi cks))

noise-dropped :
    (bs : List ℕ) (done : List (List ℕ))
    → IsNoise bs
    → push_all push_byte (heading [] done) bs ≡ some (heading [] done)
unfolding push_byte push_all
noise-dropped bs done silence = refl
noise-dropped bs done (stray {b} {bs = rest} hb n) =
    push_all_step push_byte _ (heading [] done) b rest
      ((push-header 1 done [] b (omega arith) ∙ rw hb))
    ∙ noise-dropped rest done n
noise-dropped bs done (false_start {lo} {hi} {cks} {bs = rest} h n) =
    false_start-replayed lo hi cks rest done h ∙ noise-dropped (lo ∷ hi ∷ cks ∷ rest) done n

-- What a receiver sees: noise, a frame, noise, a frame, and so on.
abbrev pub on_wire : List (List ℕ × List ℕ) → List ℕ
on_wire [] = []
on_wire ((noise, f) ∷ rest) = noise ++ (f ++ on_wire rest)

abbrev pub frames : List (List ℕ × List ℕ) → List (List ℕ)
frames [] = []
frames ((noise, f) ∷ rest) = f ∷ frames rest

abbrev pub Sent : List ℕ × List ℕ → Type 0
Sent p = IsNoise p.0 × IsWhole p.1

wire-delivery :
    (ps : List (List ℕ × List ℕ)) (done : List (List ℕ))
    → All Sent ps
    → push_all push_byte (heading [] done) (on_wire ps) ≡ some (heading [] (done ++ frames ps))
unfolding push_byte push_all
wire-delivery [] done h = rw (append-nil done) refl
wire-delivery ((noise, f) ∷ ps) done ((n, w), h) =
    push_all-append push_byte _ (heading [] done) noise (f ++ on_wire ps)
      (noise-dropped noise done n)
    ∙ push_all-append push_byte _ _ f (on_wire ps) (frame-delivery f done w)
    ∙ wire-delivery ps (done ++ f ∷ []) h
    ∙ rw (append_assoc done (f ∷ []) (frames ps))

-- Whole frames with noise before each of them, false headers included, pushed into a new reader, are
-- completed in order, unchanged, and nothing is left in progress.
pub push-on_wire :
    (ps : List (List ℕ × List ℕ))
    → All Sent ps
    → push new (on_wire ps) ≡ some (heading [] (frames ps))
unfolding push new
push-on_wire ps h = wire-delivery ps [] h

-- The reader does not see how the bytes were cut into reads.
pub push-append :
    (r r' : FrameReader) (xs ys : List ℕ) → push r xs ≡ some r' → push r (xs ++ ys) ≡ push r' ys
unfolding push
push-append r r' xs ys h = push_all-append push_byte r r' xs ys h
