-- ===== src/Protocol/Mac.antt =====
-- The Bluetooth addresses of the frames: `[u8; 6]`, in wire order.
use hass_sma_rs.Prelude.{ℕ, ◌+◌, List, ◌∷◌, Bool, ◌&&◌, ◌==◌, get_or}

pub record Mac : Type 0 where
  pub b0 : ℕ
  pub b1 : ℕ
  pub b2 : ℕ
  pub b3 : ℕ
  pub b4 : ℕ
  pub b5 : ℕ

-- The six bytes in front of `rest`.
abbrev pub mac_bytes : Mac → List ℕ → List ℕ
mac_bytes m rest = m.b0 ∷ m.b1 ∷ m.b2 ∷ m.b3 ∷ m.b4 ∷ m.b5 ∷ rest

-- `copy_from_slice(&raw[i..i + 6])`, for a range inside `raw`.
abbrev pub mac_at : List ℕ → ℕ → Mac
mac_at raw i = record {
  b0 = get_or raw i 0;
  b1 = get_or raw (i + 1) 0;
  b2 = get_or raw (i + 2) 0;
  b3 = get_or raw (i + 3) 0;
  b4 = get_or raw (i + 4) 0;
  b5 = get_or raw (i + 5) 0;
}

abbrev pub mac_eq : Mac → Mac → Bool
mac_eq m n =
    m.b0 == n.b0 && m.b1 == n.b1 && m.b2 == n.b2 && m.b3 == n.b3 && m.b4 == n.b4 && m.b5 == n.b5
