-- ===== src/Client/Values/Walk.antt =====
-- The walks over records visit each record once, in order.
use mathlib.Core.List.{foldl}
use hass_sma_rs.Prelude.{
  ℕ, zero, suc, ◌+◌, ◌≤◌, ◌<◌, ◌≡◌, refl, sym, ◌∙◌, List, [], ◌∷◌, ◌++◌, true, false, leb, length,
  length-append, take, drop, drop-append, take-append, le→leb, lt→leb_false, All, arith,
}
use hass_sma_rs.Client.Values.{
  records_region, visit, walk_28, for_each_28_record, walk_16, for_each_16_record,
}

-- Records one after another.
unfoldable pub joined : List (List ℕ) → List ℕ → List ℕ
joined [] rest = rest
joined (r ∷ rs) rest = r ++ joined rs rest

unfoldable pub HasLength : ℕ → List ℕ → Type 0
HasLength n r = length r ≡ n

pub drop-exact : (n : ℕ) (xs ys : List ℕ) → length xs ≡ n → drop n (xs ++ ys) ≡ ys
drop-exact n xs ys e = rw (sym e) (drop-append xs ys)

pub take-exact : (n : ℕ) (xs ys : List ℕ) → length xs ≡ n → take n (xs ++ ys) ≡ xs
take-exact n xs ys e = rw (sym e) (take-append xs ys)

pub length-joined :
    (size : ℕ) (rs : List (List ℕ)) (rest : List ℕ)
    → 0 < size
    → All (HasLength size) rs
    → length rs ≤ length (joined rs rest)
unfolding joined HasLength
length-joined size [] rest positive h = omega arith
length-joined size (r ∷ rs) rest positive (hr, h) =
    omega (arith, length-append r (joined rs rest), length-joined size rs rest positive h)

length-joined_last :
    (rs : List (List ℕ)) (last rest : List ℕ)
    → All (HasLength 28) rs
    → length last ≡ 20
    → length rs + 1 ≤ length (joined rs (last ++ rest))
unfolding joined HasLength
length-joined_last [] last rest h cut = omega (arith, length-append last rest)
length-joined_last (r ∷ rs) last rest (hr, h) cut =
    omega (arith, length-append r (joined rs (last ++ rest)), length-joined_last rs last rest h cut)

pub region_of :
    (prefix region : List ℕ) → length prefix ≡ 12 → records_region (prefix ++ region) ≡ region
unfolding records_region
region_of prefix region twelve =
    rw (le→leb 12 (length (prefix ++ region)) (omega (arith, length-append prefix region)))
      (drop-exact 12 prefix region twelve)

module _ {S : Type 0} (f : S → ℕ → ℕ → List ℕ → S) where
  walk_16-short : (n : ℕ) (rest : List ℕ) (s : S) → length rest < 16 → walk_16 f n rest s ≡ s
  unfolding walk_16
  walk_16-short zero rest s few = refl
  walk_16-short (suc n) rest s few = rw (walk_16, lt→leb_false 16 (length rest) few)

  walk_16-step :
      (n : ℕ) (r rest : List ℕ) (s : S)
      → length r ≡ 16
      → walk_16 f (suc n) (r ++ rest) s ≡ walk_16 f n rest (visit f s r)
  unfolding walk_16
  walk_16-step n r rest s e =
      let long : leb 16 (length (r ++ rest)) ≡ true =
        le→leb 16 (length (r ++ rest)) (omega (arith, length-append r rest)) in
      rw (walk_16, long, drop-exact 16 r rest e, take-exact 16 r rest e)

  walk_16-joined :
      (n : ℕ) (rs : List (List ℕ)) (rest : List ℕ) (s : S)
      → length rs ≤ n
      → All (HasLength 16) rs
      → length rest < 16
      → walk_16 f n (joined rs rest) s ≡ foldl (visit f) s rs
  unfolding joined HasLength
  walk_16-joined n [] rest s enough h few = walk_16-short n rest s few
  walk_16-joined zero (r ∷ rs) rest s enough h few = absurd (omega arith)
  walk_16-joined (suc n) (r ∷ rs) rest s enough (hr, h) few =
      walk_16-step n r (joined rs rest) s hr
      ∙ walk_16-joined n rs rest (visit f s r) (omega arith) h few

  -- Behind any prefix of twelve bytes, the walk over records of sixteen bytes visits each once, in
  -- order, and ignores a rest that is too short for one.
  for_each_16_record-joined :
      (prefix : List ℕ) (rs : List (List ℕ)) (rest : List ℕ) (s : S)
      → length prefix ≡ 12
      → All (HasLength 16) rs
      → length rest < 16
      → for_each_16_record f (prefix ++ joined rs rest) s ≡ foldl (visit f) s rs
  unfolding for_each_16_record
  for_each_16_record-joined prefix rs rest s twelve h few =
      rw (region_of prefix (joined rs rest) twelve) (
        walk_16-joined (length (joined rs rest)) rs rest s
          (length-joined 16 rs rest (omega arith) h) h few)

  walk_28-short : (n : ℕ) (rest : List ℕ) (s : S) → length rest < 20 → walk_28 f n rest s ≡ s
  unfolding walk_28
  walk_28-short zero rest s few = refl
  walk_28-short (suc n) rest s few = rw (walk_28, lt→leb_false 20 (length rest) few)

  walk_28-step :
      (n : ℕ) (r rest : List ℕ) (s : S)
      → length r ≡ 28
      → walk_28 f (suc n) (r ++ rest) s ≡ walk_28 f n rest (visit f s r)
  unfolding walk_28
  walk_28-step n r rest s e =
      let long : leb 20 (length (r ++ rest)) ≡ true =
        le→leb 20 (length (r ++ rest)) (omega (arith, length-append r rest)) in
      let full : leb 28 (length (r ++ rest)) ≡ true =
        le→leb 28 (length (r ++ rest)) (omega (arith, length-append r rest)) in
      rw (walk_28, long, full, drop-exact 28 r rest e, take-exact 28 r rest e)

  -- The last record may be cut down to twenty bytes, with a few bytes more behind it.
  walk_28-last :
      (n : ℕ) (r rest : List ℕ) (s : S)
      → length r ≡ 20
      → length rest < 8
      → walk_28 f (suc n) (r ++ rest) s ≡ visit f s r
  unfolding walk_28
  walk_28-last n r rest s e few =
      let long : leb 20 (length (r ++ rest)) ≡ true =
        le→leb 20 (length (r ++ rest)) (omega (arith, length-append r rest)) in
      let cut : leb 28 (length (r ++ rest)) ≡ false =
        lt→leb_false 28 (length (r ++ rest)) (omega (arith, length-append r rest)) in
      rw (walk_28, long, cut, drop-exact 20 r rest e, take-exact 20 r rest e)
        (walk_28-short n rest (visit f s r) (omega arith))

  walk_28-joined :
      (n : ℕ) (rs : List (List ℕ)) (last rest : List ℕ) (s : S)
      → length rs + 1 ≤ n
      → All (HasLength 28) rs
      → length last ≡ 20
      → length rest < 8
      → walk_28 f n (joined rs (last ++ rest)) s ≡ visit f (foldl (visit f) s rs) last
  unfolding joined HasLength
  walk_28-joined zero rs last rest s enough h cut few = absurd (omega arith)
  walk_28-joined (suc n) [] last rest s enough h cut few = walk_28-last n last rest s cut few
  walk_28-joined (suc n) (r ∷ rs) last rest s enough (hr, h) cut few =
      walk_28-step n r (joined rs (last ++ rest)) s hr
      ∙ walk_28-joined n rs last rest (visit f s r) (omega arith) h cut few

  -- Behind any prefix of twelve bytes, the walk over spot values visits each record of 28 bytes
  -- once, in order, then a last one that is cut down to twenty bytes, and ignores up to seven bytes
  -- behind it.
  pub for_each_28_record-joined :
      (prefix : List ℕ) (rs : List (List ℕ)) (last rest : List ℕ) (s : S)
      → length prefix ≡ 12
      → All (HasLength 28) rs
      → length last ≡ 20
      → length rest < 8
      → for_each_28_record f (prefix ++ joined rs (last ++ rest)) s
        ≡ visit f (foldl (visit f) s rs) last
  unfolding for_each_28_record
  for_each_28_record-joined prefix rs last rest s twelve h cut few =
      rw (region_of prefix (joined rs (last ++ rest)) twelve) (
        walk_28-joined (length (joined rs (last ++ rest))) rs last rest s
          (length-joined_last rs last rest h cut) h cut few)
