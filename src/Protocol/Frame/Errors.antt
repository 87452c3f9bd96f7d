-- ===== src/Protocol/Frame/Errors.antt =====
-- What `Frame::parse` refuses, and why.
use hass_sma_rs.Prelude.{
  ℕ, ◌+◌, ◌≤◌, ◌<◌, ◌≡◌, ◌≢◌, refl, List, [], ◌∷◌, ◌++◌, Option, none, some, ◌⊎◌, le→ltb_false,
  !=_refl, length-drop, ◌!=◌, !=_true, !=_false, !=_of_ne, Bool-cases, Bool, true, false, ◌==◌,
  ==_iff, if◌then◌else◌, ◌-◌, inl, inr, length, length-append, get_or-append_lt, take,
  take-append_le, drop, drop-append_le, slice, ok, err, ◌>>=◌, arith, Result, sym, ◌∙◌,
}
use mathlib.Core.Path.{subst}
use hass_sma_rs.Protocol.Constants.{frame_delimiter, stuff_escape}
use hass_sma_rs.Protocol.Stuffing.RoundTrip.{unstuff_plain, unstuff_escaped}
use hass_sma_rs.Protocol.Stuffing.{
  ParseError, too_short, missing_start, missing_end, length_mismatch, header_checksum,
  truncated_escape, push_first, unstuff,
}
use hass_sma_rs.Protocol.Frame.{
  Frame, l2_wrapped, header_cks, declared_len, byte_at, l2_sig_offset, has_trailer, strip_fcs,
  parse_l2_payload, parsed, parse_payload, parse,
}
use hass_sma_rs.Protocol.Frame.Shape.{parse-IsAccepted}

-- Stuffed bytes whose last escape has nothing behind it.
pub data Dangles : List ℕ → Type 0 where
  lone : Dangles (stuff_escape ∷ [])
  escaped : {n : ℕ} {bs : List ℕ} → Dangles bs → Dangles (stuff_escape ∷ n ∷ bs)
  plain : {b : ℕ} {bs : List ℕ} → b ≢ stuff_escape → Dangles bs → Dangles (b ∷ bs)

-- The stuffed bytes of a frame from the signature on, without the delimiter at the end, if there is
-- one.
abbrev pub stuffed : List ℕ → ℕ → List ℕ
stuffed raw off = slice raw off (if has_trailer raw then length raw - 1 else length raw)

-- The checks that are made before the payload is read.
pub record IsChecked (raw : List ℕ) : Type 0 where
  pub long_enough : 18 ≤ length raw
  pub start : byte_at raw 0 ≡ frame_delimiter
  pub checksum : byte_at raw 3 ≡ header_cks (byte_at raw 1) (byte_at raw 2)
  pub whole : declared_len raw ≡ length raw

-- Unstuffed bytes that are too few for a checksum.
pub record IsShort (region : List ℕ) (got need : ℕ) : Type 0 where
  pub unstuffed : List ℕ
  pub comes_out : unstuff region ≡ ok unstuffed
  pub is_length : got ≡ length unstuffed
  pub too_few : got < 2
  pub needs : need ≡ 2

-- Why a frame is refused with each error, in the order of the checks.
abbrev pub Explains : List ℕ → ParseError → Type 0
Explains raw (too_short got need) =
    ((length raw < 18) × (got ≡ length raw) × (need ≡ 18))
    ⊎ (IsChecked raw
        × ((off : ℕ) × (l2_sig_offset raw ≡ some off)
            × (has_trailer raw ≡ true)
            × IsShort (stuffed raw off) got need))
Explains raw (missing_start b) = (18 ≤ length raw) × (b ≡ byte_at raw 0) × (b ≢ frame_delimiter)
Explains raw (missing_end b) = ⊥
Explains raw (header_checksum got expected) =
    (18 ≤ length raw)
    × (byte_at raw 0 ≡ frame_delimiter)
    × (got ≡ byte_at raw 3)
    × (expected ≡ header_cks (byte_at raw 1) (byte_at raw 2))
    × (got ≢ expected)
Explains raw (length_mismatch declared actual) =
    (18 ≤ length raw)
    × (byte_at raw 0 ≡ frame_delimiter)
    × (byte_at raw 3 ≡ header_cks (byte_at raw 1) (byte_at raw 2))
    × (declared ≡ declared_len raw)
    × (actual ≡ length raw)
    × (declared ≢ actual)
Explains raw truncated_escape =
    IsChecked raw × ((off : ℕ) × (l2_sig_offset raw ≡ some off) × Dangles (stuffed raw off))

push_first-err :
    (b : ℕ) (r : Result ParseError (List ℕ)) (e : ParseError) → push_first b r ≡ err e → r ≡ err e
push_first-err b (ok out) e h = cc
push_first-err b (err e') e h = h

escape-Dangles :
    (b n : ℕ) (rest : List ℕ) → (b == stuff_escape) ≡ true → Dangles rest → Dangles (b ∷ n ∷ rest)
escape-Dangles b n rest esc d =
    subst (λ (x : ℕ). Dangles (x ∷ n ∷ rest)) (sym ((==_iff b stuff_escape).0 esc)) (escaped d)

nil_fault : (e : ParseError) → unstuff [] ≡ err e → ⊥
unfolding unstuff
nil_fault e h = cc h

lone_fault :
    (b : ℕ) (e : ParseError)
    → unstuff (b ∷ []) ≡ err e
    → ((b == stuff_escape) ≡ true) × (e ≡ truncated_escape)
unfolding unstuff
lone_fault b e h = (ground (arith, h), ground (arith, h))

-- The only fault of stuffing is an escape with nothing behind it.
unstuff-err :
    (bs : List ℕ) (e : ParseError) → unstuff bs ≡ err e → (e ≡ truncated_escape) × Dangles bs
unstuff-err [] e h = absurd (nil_fault e h)
unstuff-err (b ∷ []) e h =
    let (esc, same) = lone_fault b e h in
    (same, subst (λ (x : ℕ). Dangles (x ∷ [])) (sym ((==_iff b stuff_escape).0 esc)) lone)
unstuff-err (b ∷ n ∷ rest) e h =
    let skipped : unstuff rest ≡ err e → (e ≡ truncated_escape) × Dangles rest =
      unstuff-err rest e in
    let passed : unstuff (n ∷ rest) ≡ err e → (e ≡ truncated_escape) × Dangles (n ∷ rest) =
      unstuff-err (n ∷ rest) e in
    elim (Bool-cases (b == stuff_escape)) [
      | inl esc ↦
          let (same, d) = skipped (push_first-err _ _ e (sym (unstuff_escaped b n rest esc) ∙ h)) in
          (same, escape-Dangles b n rest esc d)
      | inr other ↦
          let (same, d) =
            passed (push_first-err b _ e (sym (unstuff_plain b (n ∷ rest) other) ∙ h)) in
          (same, plain (ground (arith, other)) d)
    ]

abbrev PayloadFault : List ℕ → Bool → ParseError → Type 0
PayloadFault region trailer (too_short got need) = (trailer ≡ true) × IsShort region got need
PayloadFault region trailer truncated_escape = Dangles region
PayloadFault region trailer _ = ⊥

strip_fcs-err :
    (region u : List ℕ) (e : ParseError)
    → unstuff region ≡ ok u
    → strip_fcs u ≡ err e
    → PayloadFault region true e
unfolding strip_fcs
strip_fcs-err region u (too_short got need) out h = (
  refl,
  record {
    unstuffed = u;
    comes_out = out;
    is_length = ground (arith, h);
    too_few = ground (arith, h);
    needs = ground (arith, h);
  },
)
strip_fcs-err region u _ out h = ground (arith, h)

strip_or_keep-err :
    (region : List ℕ) (r : Result ParseError (List ℕ)) (trailer : Bool) (e : ParseError)
    → unstuff region ≡ r
    → (r >>= λ u. if trailer then strip_fcs u else ok u) ≡ err e
    → PayloadFault region trailer e
strip_or_keep-err region (ok u) true e out h = strip_fcs-err region u e out h
strip_or_keep-err region (ok u) false e out h = absurd (cc h)
strip_or_keep-err region (err e') trailer e out h =
    let (same, d) = unstuff-err region e' out in
    let same' : e ≡ truncated_escape = cc (h, same) in
    subst (PayloadFault region trailer) (sym same') d

parse_l2_payload-err :
    (raw : List ℕ) (off : ℕ) (e : ParseError)
    → parse_l2_payload raw off ≡ err e
    → PayloadFault (stuffed raw off) (has_trailer raw) e
unfolding parse_l2_payload
parse_l2_payload-err raw off e h =
    strip_or_keep-err (stuffed raw off) (unstuff (stuffed raw off)) (has_trailer raw) e refl h

parse_payload_mismatch :
    (raw : List ℕ) (o : Option ℕ)
    → (declared_len raw != length raw) ≡ true
    → parse_payload raw o ≡ err (length_mismatch (declared_len raw) (length raw))
unfolding parse_payload
parse_payload_mismatch raw none d = rw d
parse_payload_mismatch raw (some off) d = rw d

bind_ok-err :
    (r : Result ParseError (List ℕ)) (f : List ℕ → Frame) (e : ParseError)
    → (r >>= λ u. ok (f u)) ≡ err e
    → r ≡ err e
bind_ok-err (ok u) f e h = absurd cc
bind_ok-err (err e') f e h = cc

parse_payload_match-err :
    (raw : List ℕ) (o : Option ℕ) (e : ParseError)
    → (declared_len raw != length raw) ≡ false
    → parse_payload raw o ≡ err e
    → (off : ℕ) × (o ≡ some off) × PayloadFault (stuffed raw off) (has_trailer raw) e
unfolding parse_payload
parse_payload_match-err raw none e d h = absurd (cc (rw d at h))
parse_payload_match-err raw (some off) e d h = (
  off,
  refl,
  parse_l2_payload-err raw off e (bind_ok-err _ (parsed l2_wrapped raw) e (rw d at h)),
)

module _ (raw : List ℕ) where
  fault-Explains :
      (e : ParseError) (off : ℕ)
      → IsChecked raw
      → l2_sig_offset raw ≡ some off
      → PayloadFault (stuffed raw off) (has_trailer raw) e
      → Explains raw e
  fault-Explains (too_short got need) off c o p = inr (c, (off, o, p.0, p.1))
  fault-Explains truncated_escape off c o p = (c, (off, o, p))
  fault-Explains (missing_start _) off c o p = absurd p
  fault-Explains (missing_end _) off c o p = absurd p
  fault-Explains (length_mismatch _ _) off c o p = absurd p
  fault-Explains (header_checksum _ _) off c o p = absurd p

  payload_reason :
      (e : ParseError)
      → 18 ≤ length raw
      → byte_at raw 0 ≡ frame_delimiter
      → byte_at raw 3 ≡ header_cks (byte_at raw 1) (byte_at raw 2)
      → parse_payload raw (l2_sig_offset raw) ≡ err e
      → Explains raw e
  payload_reason e l s c h = elim (Bool-cases (declared_len raw != length raw)) [
    | inl differs ↦
        let same : length_mismatch (declared_len raw) (length raw) ≡ e =
          cc (parse_payload_mismatch raw (l2_sig_offset raw) differs, h) in
        rw (← same) (l, s, c, refl, refl, !=_true _ _ differs)
    | inr agrees ↦
        let (off, o, p) = parse_payload_match-err raw (l2_sig_offset raw) e agrees h in
        fault-Explains e off
          (record { long_enough = l; start = s; checksum = c; whole = !=_false _ _ agrees }) o p
  ]

declared_len-append :
    (raw more : List ℕ) → 18 ≤ length raw → declared_len (raw ++ more) ≡ declared_len raw
declared_len-append raw more l =
    let dropped : drop 1 (raw ++ more) ≡ drop 1 raw ++ more =
      drop-append_le 1 raw more (omega arith) in
    let taken : take 2 (drop 1 raw ++ more) ≡ take 2 (drop 1 raw) =
      take-append_le 2 (drop 1 raw) more (omega (arith, length-drop 1 raw)) in
    rw (dropped, taken)

-- Every error of `parse` has its reason in the bytes, and the checks before it were passed; a
-- missing end is never reported.
pub parse-Explains : (raw : List ℕ) (e : ParseError) → parse raw ≡ err e → Explains raw e
unfolding parse
parse-Explains raw (too_short got need) h = ground (arith, payload_reason raw (too_short got need))
parse-Explains raw e h = ground (arith, payload_reason raw e)

-- The checks passed, `parse` is what stands behind them.
parse_checked :
    (raw : List ℕ)
    → 18 ≤ length raw
    → byte_at raw 0 ≡ frame_delimiter
    → byte_at raw 3 ≡ header_cks (byte_at raw 1) (byte_at raw 2)
    → parse raw ≡ parse_payload raw (l2_sig_offset raw)
unfolding parse
parse_checked raw l s c =
    rw (le→ltb_false (length raw) 18 l, s, c, !=_refl (header_cks (byte_at raw 1) (byte_at raw 2)))

-- Bytes behind an accepted frame make it refused: a frame is never a proper prefix of another.
pub parse-append :
    (raw more : List ℕ) (f : Frame)
    → parse raw ≡ ok f
    → 0 < length more
    → parse (raw ++ more) ≡ err (length_mismatch (length raw) (length raw + length more))
parse-append raw more f h nonempty =
    let a = parse-IsAccepted raw f h in
    let kept : (i : ℕ) → i < 18 → byte_at (raw ++ more) i ≡ byte_at raw i =
      λ i lt. get_or-append_lt raw more i 0 (omega (arith, a.long_enough)) in
    let lo : byte_at (raw ++ more) 1 ≡ byte_at raw 1 = kept 1 (omega arith) in
    let hi : byte_at (raw ++ more) 2 ≡ byte_at raw 2 = kept 2 (omega arith) in
    let longer : length (raw ++ more) ≡ length raw + length more = length-append raw more in
    let declared : declared_len (raw ++ more) ≡ length raw =
      declared_len-append raw more a.long_enough ∙ a.whole in
    parse_checked (raw ++ more) (omega (arith, a.long_enough, longer))
      (kept 0 (omega arith) ∙ a.start) (kept 3 (omega arith) ∙ a.checksum ∙ rw (lo, hi))
    ∙ parse_payload_mismatch (raw ++ more) (l2_sig_offset (raw ++ more))
        (!=_of_ne _ _ (omega (arith, declared, longer, nonempty)))
    ∙ rw (declared, longer)
