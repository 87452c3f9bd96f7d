-- ===== src/Client/Values/Labels.antt =====
-- The search for the type label, against the list of records.
use hass_sma_rs.Prelude.{
  ℕ, zero, suc, ◌≤◌, ◌<◌, ◌≡◌, refl, List, [], ◌∷◌, ◌++◌, Option, none, some, Option-cases, inl,
  inr, true, leb, length, length-append, le→leb, lt→leb_false, All, arith,
}
use hass_sma_rs.Client.Values.Electrical.{label_in, label_loop, parse_type_label_raw}
use hass_sma_rs.Client.Values.Walk.{
  joined, HasLength, drop-exact, take-exact, length-joined, region_of,
}

-- The first record with a label.
unfoldable pub first_label : List (List ℕ) → Option ℕ
first_label [] = none
first_label (r ∷ rs) = elim (label_in r) [ some found ↦ some found | none ↦ first_label rs ]

label_loop-joined :
    (n : ℕ) (rs : List (List ℕ)) (rest : List ℕ)
    → length rs ≤ n
    → All (HasLength 40) rs
    → length rest < 40
    → label_loop n (joined rs rest) ≡ first_label rs
unfolding label_loop joined HasLength first_label
label_loop-joined zero [] rest enough h few = refl
label_loop-joined (suc n) [] rest enough h few = rw (label_loop, lt→leb_false 40 (length rest) few)
label_loop-joined zero (r ∷ rs) rest enough h few = absurd (omega arith)
label_loop-joined (suc n) (r ∷ rs) rest enough (hr, h) few =
    let region = r ++ joined rs rest in
    let long : leb 40 (length region) ≡ true =
      le→leb 40 (length region) (omega (arith, length-append r (joined rs rest))) in
    let later : label_loop n (joined rs rest) ≡ first_label rs =
      label_loop-joined n rs rest (omega arith) h few in
    elim (Option-cases (label_in r)) [
      | inl missing ↦
          rw
            (
              label_loop,
              long,
              take-exact 40 r (joined rs rest) hr,
              missing,
              drop-exact 40 r (joined rs rest) hr,
              first_label,
            )
            later
      | inr (found, e) ↦ rw (label_loop, long, take-exact 40 r (joined rs rest) hr, e, first_label)
    ]

-- Behind any prefix of twelve bytes, the type label is that of the first record of forty bytes that
-- has one; a rest that is too short for a record is ignored.
parse_type_label_raw-joined :
    (prefix : List ℕ) (rs : List (List ℕ)) (rest : List ℕ)
    → length prefix ≡ 12
    → All (HasLength 40) rs
    → length rest < 40
    → parse_type_label_raw (prefix ++ joined rs rest) ≡ first_label rs
unfolding parse_type_label_raw
parse_type_label_raw-joined prefix rs rest twelve h few =
    rw (region_of prefix (joined rs rest) twelve) (
      label_loop-joined (length (joined rs rest)) rs rest (length-joined 40 rs rest (omega arith) h)
        h few)
