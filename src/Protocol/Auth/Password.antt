-- ===== src/Protocol/Auth/Password.antt =====
-- What the encoded password tells.
use hass_sma_rs.Prelude.{
  ℕ, zero, suc, ◌+◌, ◌-◌, ◌%◌, ◌≤◌, ◌<◌, ◌≡◌, refl, List, [], ◌∷◌, ◌++◌, length, take, replicate,
  length-take, All, arith, ap,
}
use hass_sma_rs.Prelude.Words.{IsByte}
use hass_sma_rs.Protocol.Auth.{UserGroup, user, installer, key, add_key, encode_password}

-- The byte that was added to `key` to give `c`.
abbrev pub sub_key : ℕ → ℕ → ℕ
sub_key key c = (c + 256 - key) % 256

abbrev pub sub_keys : ℕ → List ℕ → List ℕ
sub_keys key [] = []
sub_keys key (c ∷ cs) = sub_key key c ∷ sub_keys key cs

length-add_key : (k : ℕ) (bs out : List ℕ) → length (add_key k bs out) ≡ length out
unfolding add_key
length-add_key k [] out = refl
length-add_key k (b ∷ bs) [] = refl
length-add_key k (b ∷ bs) (o ∷ out) = ap suc (length-add_key k bs out)

-- Whatever the password, twelve bytes are sent.
pub length-encode_password :
    (pwd : List ℕ) (group : UserGroup) → length (encode_password pwd group) ≡ 12
unfolding encode_password
length-encode_password pwd group =
    length-add_key (key group) (take 12 pwd) (replicate 12 (key group))

sub_keys-replicate : (k n : ℕ) → k < 256 → sub_keys k (replicate n k) ≡ replicate n 0
sub_keys-replicate k zero h = refl
sub_keys-replicate k (suc n) h =
    let e : sub_key k k ≡ 0 = omega arith in rw (e, sub_keys-replicate k n h)

sub_keys-add_key :
    (k n : ℕ) (bs : List ℕ)
    → k < 256
    → All IsByte bs
    → length bs ≤ n
    → sub_keys k (add_key k bs (replicate n k)) ≡ bs ++ replicate (n - length bs) 0
unfolding add_key
sub_keys-add_key k n [] hk h l = let e : n - 0 ≡ n = omega arith in rw e (sub_keys-replicate k n hk)
sub_keys-add_key k zero (b ∷ bs) hk h l = absurd (omega arith)
sub_keys-add_key k (suc n) (b ∷ bs) hk (hb, hbs) l =
    let e : sub_key k ((b + k) % 256) ≡ b = omega arith in
    let m : suc n - suc (length bs) ≡ n - length bs = omega arith in
    rw (e, m, sub_keys-add_key k n bs hk hbs (omega arith))

take-IsByte : (n : ℕ) (bs : List ℕ) → All IsByte bs → All IsByte (take n bs)
take-IsByte zero bs h = tt
take-IsByte (suc n) [] h = tt
take-IsByte (suc n) (b ∷ bs) (hb, hbs) = (hb, take-IsByte n bs hbs)

key-lt : (group : UserGroup) → key group < 256
unfolding key
key-lt user = omega arith
key-lt installer = omega arith

-- Taking the key off again gives the first twelve bytes of the password, filled up with zeros: the
-- encoding hides nothing from who knows the user group, and drops whatever is longer.
sub_keys-encode_password :
    (pwd : List ℕ) (group : UserGroup)
    → All IsByte pwd
    → sub_keys (key group) (encode_password pwd group)
      ≡ take 12 pwd ++ replicate (12 - length (take 12 pwd)) 0
unfolding encode_password
sub_keys-encode_password pwd group h =
    sub_keys-add_key (key group) 12 (take 12 pwd) (key-lt group) (take-IsByte 12 pwd h)
      (omega (arith, length-take 12 pwd))
