-- ===== src/Protocol/Stuffing/RoundTrip.antt =====
-- Byte stuffing against its inverse, and what a stuffed list never holds.
use hass_sma_rs.Prelude.{
  ℕ, ◌*◌, ◌≤◌, ◌≡◌, refl, List, [], ◌∷◌, ◌++◌, true, false, bit_xor, ◌==◌, Bool-cases, inl, inr,
  length, All, ok, arith, append-nil, ◌∙◌, ◌⊎◌,
}
use hass_sma_rs.Prelude.Bits.{toggle_twice}
use hass_sma_rs.Prelude.Words.{IsByte}
use hass_sma_rs.Protocol.Constants.{stuff_bytes, stuff_escape, stuff_xor}
use hass_sma_rs.Protocol.Stuffing.{contains, stuff, push_first, unstuff}

-- A byte that is no escape is passed through, whatever follows it.
pub unstuff_plain :
    (b : ℕ) (rest : List ℕ)
    → (b == stuff_escape) ≡ false
    → unstuff (b ∷ rest) ≡ push_first b (unstuff rest)
unfolding unstuff
unstuff_plain b [] h = rw h
unstuff_plain b (n ∷ rest) h = rw (h, unstuff)

pub unstuff_escaped :
    (b n : ℕ) (rest : List ℕ)
    → (b == stuff_escape) ≡ true
    → unstuff (b ∷ n ∷ rest) ≡ push_first (bit_xor n stuff_xor) (unstuff rest)
unfolding unstuff
unstuff_escaped b n rest h = rw (h, unstuff)

stuff_reserved :
    (b : ℕ) (bs : List ℕ)
    → contains stuff_bytes b ≡ true
    → stuff (b ∷ bs) ≡ stuff_escape ∷ bit_xor b stuff_xor ∷ stuff bs
unfolding stuff
stuff_reserved b bs h = rw h

stuff_plain : (b : ℕ) (bs : List ℕ) → contains stuff_bytes b ≡ false → stuff (b ∷ bs) ≡ b ∷ stuff bs
unfolding stuff
stuff_plain b bs h = rw h

not_escape : (b : ℕ) → contains stuff_bytes b ≡ false → (b == stuff_escape) ≡ false
not_escape b h = ground arith

-- What is stuffed comes back, in front of any rest.
pub unstuff-stuff-append :
    (bs rest out : List ℕ)
    → All IsByte bs
    → unstuff rest ≡ ok out
    → unstuff (stuff bs ++ rest) ≡ ok (bs ++ out)
unstuff-stuff-append [] rest out h e = unfold stuff in e
unstuff-stuff-append (b ∷ bs) rest out (hb, hbs) e =
    let ih : unstuff (stuff bs ++ rest) ≡ ok (bs ++ out) = unstuff-stuff-append bs rest out hbs e in
    elim (Bool-cases (contains stuff_bytes b)) [
      | inl reserved ↦
          rw (stuff_reserved b bs reserved)
            (unstuff_escaped _ _ _ refl ∙ rw (ih, toggle_twice b hb))
      | inr plain ↦ rw (stuff_plain b bs plain) (unstuff_plain b _ (not_escape b plain) ∙ rw ih)
    ]

-- `unstuff` gives back every list of bytes that was stuffed.
pub unstuff-stuff : (bs : List ℕ) → All IsByte bs → unstuff (stuff bs) ≡ ok bs
unstuff-stuff bs h =
    rw (append-nil (stuff bs), append-nil bs) at
      (unstuff-stuff-append bs [] [] h (unfold unstuff in refl))

-- The bytes that may not stand in a stuffed body: all that are reserved but the escape itself.
abbrev pub IsStuffed : ℕ → Type 0
IsStuffed b = contains (0x7e ∷ 0x11 ∷ 0x12 ∷ 0x13 ∷ []) b ≡ false

reserved_cases :
    (b : ℕ)
    → contains stuff_bytes b ≡ true
    → (b ≡ 0x7d) ⊎ (b ≡ 0x7e) ⊎ (b ≡ 0x11) ⊎ (b ≡ 0x12) ⊎ (b ≡ 0x13)
reserved_cases b h = ground arith

escaped-IsStuffed : (b : ℕ) → contains stuff_bytes b ≡ true → IsStuffed (bit_xor b stuff_xor)
escaped-IsStuffed b h = elim (reserved_cases b h) [
  | inl e ↦ rw e
  | inr (inl e) ↦ rw e
  | inr (inr (inl e)) ↦ rw e
  | inr (inr (inr (inl e))) ↦ rw e
  | inr (inr (inr (inr e))) ↦ rw e
]

plain-IsStuffed : (b : ℕ) → contains stuff_bytes b ≡ false → IsStuffed b
plain-IsStuffed b h = ground arith

-- No delimiter and no reserved control byte stands in a stuffed list.
stuff-IsStuffed : (bs : List ℕ) → All IsStuffed (stuff bs)
stuff-IsStuffed [] = unfold stuff in tt
stuff-IsStuffed (b ∷ bs) =
    let ih : All IsStuffed (stuff bs) = stuff-IsStuffed bs in
    elim (Bool-cases (contains stuff_bytes b)) [
      | inl reserved ↦ rw (stuff_reserved b bs reserved) (refl, (escaped-IsStuffed b reserved, ih))
      | inr plain ↦ rw (stuff_plain b bs plain) (plain-IsStuffed b plain, ih)
    ]

-- Stuffing never shortens a list and at most doubles it.
pub length-stuff :
    (bs : List ℕ) → (length bs ≤ length (stuff bs)) × (length (stuff bs) ≤ 2 * length bs)
length-stuff [] = unfold stuff in omega arith
length-stuff (b ∷ bs) =
    let ih : (length bs ≤ length (stuff bs)) × (length (stuff bs) ≤ 2 * length bs) =
      length-stuff bs in
    elim (Bool-cases (contains stuff_bytes b)) [
      | inl reserved ↦ rw (stuff_reserved b bs reserved) (omega arith)
      | inr plain ↦ rw (stuff_plain b bs plain) (omega arith)
    ]
