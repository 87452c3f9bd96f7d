-- ===== src/Protocol/Fcs/Reference.antt =====
-- The table-driven checksum of crates/sma-bt-protocol/src/fcs.rs against the shift register that it
-- stands for.
use hass_sma_rs.Prelude.{
  ℕ, zero, suc, ◌/◌, ◌%◌, ◌<◌, ◌≡◌, refl, sym, ap, ◌∙◌, List, [], ◌∷◌, true, false, Bool-cases, inl,
  inr, bit_and, bit_xor, get_or, ◌==◌, ◌!=◌, if◌then◌else◌, All, arith,
}
use mathlib.Core.Path.{subst}
use Prim.Native.Nat.{differ}
use hass_sma_rs.Prelude.Bits.{agree, agree_sound, low_byte}
use hass_sma_rs.Prelude.Xor.{xor_half, xor_low, xor_high, xor_zero, xor_swap}
use hass_sma_rs.Prelude.Masks.{bit_and_one}
use hass_sma_rs.Prelude.Words.{IsByte, IsU16}
use hass_sma_rs.Protocol.Fcs.{
  fcs_step, fcs_steps, table_from, fcs_tab, Fcs16, new, update, update_slice, finalize, compute,
}

-- One bit into the register of x^16 + x^12 + x^5 + 1, lowest bit first.
unfoldable pub shift_in : ℕ → ℕ → ℕ
shift_in register bit =
    if differ (register % 2) bit == 1 then bit_xor (register / 2) 0x8408 else register / 2

unfoldable pub shift_bits : ℕ → ℕ → ℕ → ℕ
shift_bits zero register bits = register
shift_bits (suc n) register bits = shift_bits n (shift_in register (bits % 2)) (bits / 2)

unfoldable pub shift_all : ℕ → List ℕ → ℕ
shift_all register [] = register
shift_all register (b ∷ bytes) = shift_all (shift_bits 8 register b) bytes

spread : ℕ → ℕ
unfolding fcs_steps
spread v = bit_xor (v / 256) (fcs_steps 8 (v % 256))

fcs_steps-spread : (v : ℕ) → v < 65536 → fcs_steps 8 v ≡ spread v
unfolding agree fcs_steps fcs_step spread
fcs_steps-spread = agree_sound (fcs_steps 8) spread 65536 refl

fcs_tab-entry : (v : ℕ) → v < 256 → get_or fcs_tab v 0 ≡ fcs_steps 8 v
unfolding agree fcs_steps fcs_step fcs_tab table_from
fcs_tab-entry = agree_sound (λ (v : ℕ). get_or fcs_tab v 0) (fcs_steps 8) 256 refl

-- What is left of a number without its lowest bits.
without_bits : ℕ → ℕ → ℕ
without_bits zero b = b
without_bits (suc n) b = without_bits n (b / 2)

fcs_step-shift_in : (s b : ℕ) → fcs_step (bit_xor s b) ≡ bit_xor (shift_in s (b % 2)) (b / 2)
unfolding fcs_step shift_in
fcs_step-shift_in s b =
    let parity : bit_and (bit_xor s b) 1 ≡ differ (s % 2) (b % 2) =
      bit_and_one (bit_xor s b) ∙ xor_low s b in
    elim (Bool-cases (differ (s % 2) (b % 2) == 1)) [
      | inl odd ↦
          let odd' : (bit_and (bit_xor s b) 1 != 0) ≡ true = ground (arith, parity, odd) in
          rw (odd', odd)
            (ap (λ (x : ℕ). bit_xor x 0x8408) (xor_half s b) ∙ xor_swap (s / 2) (b / 2) 0x8408)
      | inr even ↦
          let even' : (bit_and (bit_xor s b) 1 != 0) ≡ false =
            ground (arith, parity, even, xor_low s b) in
          rw (even', even) (xor_half s b)
    ]

fcs_steps-shift_bits :
    (n s b : ℕ) → fcs_steps n (bit_xor s b) ≡ bit_xor (shift_bits n s b) (without_bits n b)
unfolding fcs_steps shift_bits without_bits
fcs_steps-shift_bits zero s b = refl
fcs_steps-shift_bits (suc n) s b =
    ap (fcs_steps n) (fcs_step-shift_in s b) ∙ fcs_steps-shift_bits n (shift_in s (b % 2)) (b / 2)

tap_small : (r : ℕ) → r < 65536 → bit_xor (r / 2) 0x8408 / 65536 ≡ 0
unfolding agree
tap_small = agree_sound (λ r. bit_xor (r / 2) 0x8408 / 65536) (λ r. 0) 65536 refl

shift_in-IsU16 : (r bit : ℕ) → IsU16 r → IsU16 (shift_in r bit)
unfolding shift_in
shift_in-IsU16 r bit h = ground (arith, h, tap_small r h)

shift_bits-IsU16 : (n r b : ℕ) → IsU16 r → IsU16 (shift_bits n r b)
unfolding shift_bits
shift_bits-IsU16 zero r b h = h
shift_bits-IsU16 (suc n) r b h =
    shift_bits-IsU16 n (shift_in r (b % 2)) (b / 2) (shift_in-IsU16 r (b % 2) h)

pub shift_all-IsU16 : (r : ℕ) (bytes : List ℕ) → IsU16 r → IsU16 (shift_all r bytes)
unfolding shift_all
shift_all-IsU16 r [] h = h
shift_all-IsU16 r (b ∷ bytes) h =
    shift_all-IsU16 (shift_bits 8 r b) bytes (shift_bits-IsU16 8 r b h)

-- Eight bits are eight rounds of the loop that makes the table, on the register and the byte at once.
pub fcs_steps-byte : (s b : ℕ) → IsByte b → fcs_steps 8 (bit_xor s b) ≡ shift_bits 8 s b
unfolding without_bits
fcs_steps-byte s b byte =
    fcs_steps-shift_bits 8 s b
    ∙ ap (bit_xor (shift_bits 8 s b)) (none_left b byte)
    ∙ xor_zero (shift_bits 8 s b)
  where
    none_left : (b : ℕ) → IsByte b → without_bits 8 b ≡ 0
    none_left b byte = omega (arith, byte)

-- A step over the table is eight steps of the register.
update-shift_bits :
    (f : Fcs16) (b : ℕ) → IsU16 f.state → IsByte b → (update f b).state ≡ shift_bits 8 f.state b
unfolding update spread
update-shift_bits f b small byte =
    let v = bit_xor f.state b in
    let same_high : v / 256 ≡ f.state / 256 = xor_high f.state b byte in
    let small' : v < 65536 = omega (arith, same_high, small) in
    let looked_up : get_or fcs_tab (bit_and v 0xff) 0 ≡ fcs_steps 8 (v % 256) =
      ap (λ (i : ℕ). get_or fcs_tab i 0) (low_byte v small')
      ∙ fcs_tab-entry (v % 256) (omega arith) in
    ap (bit_xor (f.state / 256)) looked_up
    ∙ ap (λ (h : ℕ). bit_xor h (fcs_steps 8 (v % 256))) (sym same_high)
    ∙ sym (fcs_steps-spread v small')
    ∙ fcs_steps-byte f.state b byte

update_slice-shift_all :
    (f : Fcs16) (bytes : List ℕ)
    → IsU16 f.state
    → All IsByte bytes
    → (update_slice f bytes).state ≡ shift_all f.state bytes
unfolding update_slice shift_all
update_slice-shift_all f [] small h = refl
update_slice-shift_all f (b ∷ bytes) small (byte, rest) =
    let same = update-shift_bits f b small byte in
    let small' : IsU16 (update f b).state =
      subst IsU16 (sym same) (shift_bits-IsU16 8 f.state b small) in
    update_slice-shift_all (update f b) bytes small' rest ∙ ap (λ (r : ℕ). shift_all r bytes) same

-- The checksum of bytes is that of the shift register, fed bit by bit, lowest first, and inverted at
-- both ends: the table, with its one look-up a byte, changes nothing.
pub compute-shift_all :
    (bytes : List ℕ) → All IsByte bytes → compute bytes ≡ bit_xor (shift_all 0xffff bytes) 0xffff
unfolding compute finalize new
compute-shift_all bytes h =
    ap (λ (r : ℕ). bit_xor r 0xffff) (update_slice-shift_all new bytes (omega arith) h)
