-- ===== src/Protocol/Frame/Residue.antt =====
-- The checksum that the builder of crates/sma-bt-protocol/src/frame.rs appends, as a receiver checks it.
use hass_sma_rs.Prelude.{
  ℕ, ◌+◌, ◌*◌, ◌-◌, ◌/◌, ◌%◌, ◌<◌, ◌≡◌, refl, sym, ap, ◌∙◌, List, [], ◌∷◌, ◌++◌, bit_xor, All,
  arith,
}
use hass_sma_rs.Prelude.Bits.{agree, agree_sound}
use hass_sma_rs.Prelude.Words.{IsByte}
use hass_sma_rs.Protocol.Fcs.{fcs_step, fcs_steps, compute}
use hass_sma_rs.Protocol.Fcs.Reference.{
  fcs_steps-byte, shift_bits, shift_all, shift_all-IsU16, compute-shift_all,
}
use hass_sma_rs.Protocol.Frame.{with_fcs}

shift_all-append : (r : ℕ) (xs ys : List ℕ) → shift_all r (xs ++ ys) ≡ shift_all (shift_all r xs) ys
unfolding shift_all
shift_all-append r [] ys = refl
shift_all-append r (x ∷ xs) ys = shift_all-append (shift_bits 8 r x) xs ys

-- The register behind its own complement, low byte first.
behind_own : ℕ → ℕ
behind_own r =
    let fcs_val = bit_xor r 0xffff in
    shift_bits 8 (shift_bits 8 r (fcs_val % 256)) (fcs_val / 256 % 256)

low_complement : (r : ℕ) → r < 65536 → bit_xor r (bit_xor r 0xffff % 256) ≡ r / 256 * 256 + 255
unfolding agree
low_complement =
    agree_sound (λ r. bit_xor r (bit_xor r 0xffff % 256)) (λ r. r / 256 * 256 + 255) 65536 refl

high_complement : (r : ℕ) → r < 65536 → bit_xor r 0xffff / 256 % 256 ≡ 255 - r / 256
unfolding agree
high_complement = agree_sound (λ r. bit_xor r 0xffff / 256 % 256) (λ r. 255 - r / 256) 65536 refl

-- Both bytes, on the high byte of the register.
both_bytes : ℕ → ℕ
both_bytes h = fcs_steps 8 (bit_xor (fcs_steps 8 (h * 256 + 255)) (255 - h))

both_bytes-good : (h : ℕ) → h < 256 → both_bytes h ≡ 0xf0b8
unfolding agree both_bytes fcs_steps fcs_step
both_bytes-good = agree_sound both_bytes (λ h. 0xf0b8) 256 refl

behind_own-good : (r : ℕ) → r < 65536 → behind_own r ≡ 0xf0b8
unfolding behind_own both_bytes
behind_own-good r small =
    let fcs_val = bit_xor r 0xffff in
    let first : shift_bits 8 r (fcs_val % 256) ≡ fcs_steps 8 (r / 256 * 256 + 255) =
      sym (fcs_steps-byte r (fcs_val % 256) (omega arith))
      ∙ ap (fcs_steps 8) (low_complement r small) in
    let second : (s : ℕ)
        → shift_bits 8 s (fcs_val / 256 % 256) ≡ fcs_steps 8 (bit_xor s (255 - r / 256)) =
      λ (s : ℕ).
        sym (fcs_steps-byte s (fcs_val / 256 % 256) (omega arith))
        ∙ ap (λ (b : ℕ). fcs_steps 8 (bit_xor s b)) (high_complement r small) in
    ap (λ (s : ℕ). shift_bits 8 s (fcs_val / 256 % 256)) first
    ∙ second (fcs_steps 8 (r / 256 * 256 + 255))
    ∙ both_bytes-good (r / 256) (omega (arith, small))

-- Whatever bytes the payload has, a receiver that runs the shift register over the payload and the
-- checksum behind it, as the builder writes them, is left with the constant 0xf0b8.
pub with_fcs-residue :
    (payload : List ℕ) → All IsByte payload → shift_all 0xffff (with_fcs payload) ≡ 0xf0b8
unfolding with_fcs shift_all behind_own
with_fcs-residue payload h =
    let r = shift_all 0xffff payload in
    let trailer : ℕ → List ℕ = λ (c : ℕ). (c % 256) ∷ (c / 256 % 256) ∷ [] in
    shift_all-append 0xffff payload (trailer (compute payload))
    ∙ ap (λ (c : ℕ). shift_all r (trailer c)) (compute-shift_all payload h)
    ∙ behind_own-good r (shift_all-IsU16 0xffff payload (omega arith))
