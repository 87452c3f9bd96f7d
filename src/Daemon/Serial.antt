-- ===== src/Daemon/Serial.antt =====
-- The application serial of an inverter's task, in crates/daemon/src/main.rs: minted once, kept in a
-- file of four bytes.
use hass_sma_rs.Prelude.{
  ℕ, ◌+◌, ◌*◌, ◌%◌, ◌^◌, ◌≤◌, ◌≡◌, ap, List, [], ◌∷◌, Bool, true, Option, none, some, ◌==◌,
  if◌then◌else◌, length, arith, bit_and,
}
use hass_sma_rs.Prelude.Words.{u32_bytes, read_u32, u32_of_bytes}
use hass_sma_rs.Prelude.Masks.{bit_and_le}

-- The slot mixed into the clock, in 32 bits that wrap.
unfoldable pub mixed : ℕ → List ℕ → ℕ
mixed h [] = h
mixed h (b ∷ bs) = mixed ((h * 31 + b) % 2 ^ 32) bs

unfoldable pub minted : List ℕ → ℕ → ℕ
unfolding mixed
minted slot secs = (900000000 + bit_and (mixed secs slot) 0x05f5e0ff) % 2 ^ 32

-- The file is written if the system allows it; the serial is the same in any case.
unfoldable pub mint_new_app_serial : List ℕ → ℕ → Bool → Option (List ℕ) → ℕ × Option (List ℕ)
unfolding minted
mint_new_app_serial slot secs writes file =
    (minted slot secs, if writes then some (u32_bytes (minted slot secs) []) else file)

-- The serial of a start of the daemon, by what the file has.
unfoldable pub stable_app_serial : List ℕ → ℕ → Bool → Option (List ℕ) → ℕ × Option (List ℕ)
unfolding mint_new_app_serial
stable_app_serial slot secs writes none = mint_new_app_serial slot secs writes none
stable_app_serial slot secs writes (some bytes) =
    if length bytes == 4
    then (read_u32 bytes, some bytes)
    else mint_new_app_serial slot secs writes (some bytes)

minted-range :
    (slot : List ℕ) (secs : ℕ) → (900000000 ≤ minted slot secs) × (minted slot secs ≤ 999999999)
unfolding minted
minted-range slot secs = (
  omega (arith, bit_and_le (mixed secs slot) 0x05f5e0ff),
  omega (arith, bit_and_le (mixed secs slot) 0x05f5e0ff),
)

-- A start without a file, when the file can be written, takes a serial between 900,000,000 and
-- 999,999,999, and the next start, at whatever time, takes the same one.
stable_app_serial-again :
    (slot : List ℕ) (secs secs' : ℕ) (writes : Bool)
    → (900000000 ≤ (stable_app_serial slot secs true none).0)
      × ((stable_app_serial slot secs true none).0 ≤ 999999999)
      × (stable_app_serial slot secs' writes (stable_app_serial slot secs true none).1
          ≡ stable_app_serial slot secs true none)
unfolding stable_app_serial
stable_app_serial-again slot secs secs' writes =
    let (low, high) = minted-range slot secs in
    (
      low,
      high,
      ap (λ (n : ℕ). (n, some (u32_bytes (minted slot secs) [])))
          (u32_of_bytes (minted slot secs) (omega arith)),
    )
