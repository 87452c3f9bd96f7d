-- ===== src/Client/Values.antt =====
-- crates/inverter-client/src/values.rs: the walk over the records of a reply. A closure that updates
-- what it captured is a function of that state.
pub mod Lri
pub mod Readings
pub mod Electrical
pub mod Labels
pub mod Names
pub mod EventLog
pub mod Fragments
pub mod Walk
use hass_sma_rs.Prelude.{
  ℕ, zero, suc, ◌+◌, ◌*◌, ◌-◌, List, [], ◌∷◌, Option, none, some, Bool, true, false, ◌||◌, ltb, leb,
  ◌==◌, if◌then◌else◌, bit_and, length, take, drop, slice, get_or,
}
use hass_sma_rs.Prelude.Words.{read_u32}

-- `LittleEndian::read_u64`, on a slice of eight bytes.
abbrev pub read_u64 : List ℕ → ℕ
read_u64 bs = read_u32 bs + 4294967296 * read_u32 (drop 4 bs)

-- An `i32`.
pub data ℤ : Type 0 where
  pos negsuc : ℕ → ℤ

-- `LittleEndian::read_i32`: the two's complement of a word.
unfoldable pub to_i32 : ℕ → ℤ
to_i32 v = if ltb v 2147483648 then pos v else negsuc (4294967295 - v)

-- What stands behind the prefix of twelve bytes.
unfoldable pub records_region : List ℕ → List ℕ
records_region body = if leb 12 (length body) then drop 12 body else []

unfoldable pub record_lri : ℕ → ℕ
record_lri code = bit_and code 0x00ffff00

abbrev pub u32_nan : ℕ
u32_nan = 0xffffffff

abbrev pub i32_nan : ℕ
i32_nan = 0x80000000

abbrev pub u64_nan : ℕ
u64_nan = 0x8000000000000000

module _ {S : Type 0} (f : S → ℕ → ℕ → List ℕ → S) where
  -- The call of the closure for one record.
  abbrev pub visit : S → List ℕ → S
  visit s rec = f s (record_lri (read_u32 (slice rec 0 4))) (read_u32 (slice rec 4 8)) rec

  -- `while i + MIN <= region.len()`, on fuel, over the region from `i` on.
  unfoldable pub walk_28 : ℕ → List ℕ → S → S
  walk_28 zero region s = s
  walk_28 (suc n) region s = elim (leb 20 (length region)) [
    | false ↦ s
    | true ↦
        let stride = if leb 28 (length region) then 28 else 20 in
        walk_28 n (drop stride region) (visit s (take stride region))
  ]

  -- A record has a byte, so a region has no more records than bytes.
  unfoldable pub for_each_28_record : List ℕ → S → S
  for_each_28_record body s = let region = records_region body in walk_28 (length region) region s

  unfoldable pub walk_16 : ℕ → List ℕ → S → S
  walk_16 zero region s = s
  walk_16 (suc n) region s = elim (leb 16 (length region)) [
    | false ↦ s
    | true ↦ walk_16 n (drop 16 region) (visit s (take 16 region))
  ]

  unfoldable pub for_each_16_record : List ℕ → S → S
  for_each_16_record body s = let region = records_region body in walk_16 (length region) region s

unfoldable pub i32_value_28 : List ℕ → Option ℤ
i32_value_28 rec =
    if ltb (length rec) 20
    then none
    else (let v = read_u32 (slice rec 16 20) in if v == i32_nan then none else some (to_i32 v))

unfoldable pub u32_value_28 : List ℕ → Option ℕ
u32_value_28 rec =
    if ltb (length rec) 20
    then none
    else (let v = read_u32 (slice rec 16 20) in
        if v == u32_nan || v == i32_nan then none else some v)

unfoldable pub u64_value_16 : List ℕ → Option ℕ
u64_value_16 rec =
    if ltb (length rec) 16
    then none
    else (let v = read_u64 (slice rec 8 16) in
        if v == u64_nan || v == 0xffffffffffffffff then none else some v)
