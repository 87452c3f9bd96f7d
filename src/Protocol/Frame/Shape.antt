-- ===== src/Protocol/Frame/Shape.antt =====
-- What `Frame::parse` accepts, and the L1-only shape.
use hass_sma_rs.Prelude.{
  ℕ, ◌+◌, ◌*◌, ◌≤◌, ◌<◌, ◌≡◌, refl, List, [], ◌∷◌, Bool, true, false, ◌==◌, and_false, !=_of_eq,
  lt→ltb, ltb, leb, if◌then◌else◌, ◌!=◌, Bool-cases, ◌&&◌, ==_iff, Option, none, some, ◌⊎◌, inl,
  inr, length, drop, slice, All, ok, arith, ◌∙◌,
}
use hass_sma_rs.Prelude.Words.{IsByte, IsU16, read_u16}
use hass_sma_rs.Protocol.Constants.{frame_delimiter, bt_l2_signature}
use hass_sma_rs.Protocol.Mac.{Mac, mac_at}
use hass_sma_rs.Protocol.Frame.{
  l1_only, Frame, FrameBuilder, new_with_kind, extend, build, header_cks, declared_len, byte_at,
  l2_sig_offset, parsed, parse_payload, parse, l1_header,
}
use hass_sma_rs.Protocol.Frame.RoundTrip.{
  signed, parse-l1_header, declared-l1_header, parsed-l1_header,
}

-- The payload begins with the L2 signature, or with the separator and the signature.
abbrev pub BeginsL2 : List ℕ → Type 0
BeginsL2 payload =
    ((body : List ℕ) × (payload ≡ signed body))
    ⊎ ((body : List ℕ) × (payload ≡ frame_delimiter ∷ signed body))

signature_bytes :
    (a b c d : ℕ)
    → IsByte a
    → IsByte b
    → IsByte c
    → IsByte d
    → (a + 256 * b + 65536 * c + 16777216 * d == bt_l2_signature) ≡ true
    → (a ≡ 0xff) × (b ≡ 0x03) × (c ≡ 0x60) × (d ≡ 0x65)
signature_bytes a b c d ha hb hc hd h = ground arith

-- Four bytes that read as the signature are the signature.
not_signature :
    (a b c d : ℕ) (rest : List ℕ)
    → All IsByte (a ∷ b ∷ c ∷ d ∷ rest)
    → ¬ ((body : List ℕ) × (a ∷ b ∷ c ∷ d ∷ rest ≡ signed body))
    → (a + 256 * b + 65536 * c + 16777216 * d == bt_l2_signature) ≡ false
not_signature a b c d rest (ha, (hb, (hc, (hd, _)))) other =
    elim (Bool-cases (a + 256 * b + 65536 * c + 16777216 * d == bt_l2_signature)) [
      | inl e ↦
          let (ea, eb, ec, ed) = signature_bytes a b c d ha hb hc hd e in
          absurd (other (rest, cc (ea, eb, ec, ed)))
      | inr e ↦ e
    ]

not_separator :
    (q : Bool) (a b c d e : ℕ) (rest : List ℕ)
    → All IsByte (a ∷ b ∷ c ∷ d ∷ e ∷ rest)
    → ¬ ((body : List ℕ) × (a ∷ b ∷ c ∷ d ∷ e ∷ rest ≡ frame_delimiter ∷ signed body))
    → (q && a == frame_delimiter && b + 256 * c + 65536 * d + 16777216 * e == bt_l2_signature)
      ≡ false
not_separator false a b c d e rest h other = refl
not_separator true a b c d e rest (_, h) other = elim (Bool-cases (a == frame_delimiter)) [
  | inl sep ↦
      rw sep (
        not_signature b c d e rest h (λ r. other (r.0, cc (r.1, (==_iff a frame_delimiter).0 sep))))
  | inr plain ↦ rw plain
]

l2_sig_offset-none :
    (total : ℕ) (b : FrameBuilder) (payload : List ℕ)
    → All IsByte payload
    → ¬ (BeginsL2 payload)
    → l2_sig_offset (l1_header total b payload) ≡ none
unfolding l2_sig_offset l1_header
l2_sig_offset-none total b [] h other = refl
l2_sig_offset-none total b (p0 ∷ []) h other = refl
l2_sig_offset-none total b (p0 ∷ p1 ∷ []) h other = refl
l2_sig_offset-none total b (p0 ∷ p1 ∷ p2 ∷ []) h other = refl
l2_sig_offset-none total b (p0 ∷ p1 ∷ p2 ∷ p3 ∷ []) h other =
    rw (not_signature p0 p1 p2 p3 [] h (λ r. other (inl r)))
l2_sig_offset-none total b (p0 ∷ p1 ∷ p2 ∷ p3 ∷ p4 ∷ r) h other = rw (
  not_signature p0 p1 p2 p3 (p4 ∷ r) h (λ q. other (inl q)),
  and_false (leb 22 (length (l1_header total b (p0 ∷ p1 ∷ p2 ∷ p3 ∷ p4 ∷ r)))),
  not_separator (leb 23 (length (l1_header total b (p0 ∷ p1 ∷ p2 ∷ p3 ∷ p4 ∷ r)))) p0 p1 p2 p3 p4 r
      h (λ q. other (inr q)),
)

-- `raw[18..]` where there is any.
l1_payload :
    (total : ℕ) (b : FrameBuilder) (payload : List ℕ)
    → (if ltb 18 (length (l1_header total b payload))
        then drop 18 (l1_header total b payload)
        else [])
      ≡ payload
unfolding l1_header
l1_payload total b [] = refl
l1_payload total b (p ∷ ps) = rw (lt→ltb 18 (length (l1_header total b (p ∷ ps))) (omega arith))

-- A payload that does not begin like an L2 one is parsed back from the L1 frame of the builder.
parse-build_l1 :
    (local_bt dest_bt : Mac) (control : ℕ) (payload : List ℕ)
    → All IsByte payload
    → ¬ (BeginsL2 payload)
    → IsU16 control
    → length payload + 18 < 65536
    → parse (build (extend (new_with_kind l1_only local_bt dest_bt control) payload))
      ≡ ok (record {
        kind = l1_only;
        local_bt = local_bt;
        dest_bt = dest_bt;
        control = control;
        payload = payload;
      })
unfolding build extend new_with_kind parse_payload
parse-build_l1 local_bt dest_bt control payload h other c fits =
    let b = extend (new_with_kind l1_only local_bt dest_bt control) payload in
    let total = 18 + length payload in
    let matching : (total != length (l1_header total b payload)) ≡ false =
      !=_of_eq _ _ (unfold l1_header in omega arith) in
    parse-l1_header total b payload
    ∙ rw (
      l2_sig_offset-none total b payload h other,
      declared-l1_header total b payload (omega arith),
      matching,
      l1_payload total b payload,
      parsed-l1_header total b payload l1_only payload c,
    )

-- Every frame that is accepted satisfies the checks of the format, and its fields are those bytes.
pub record IsAccepted (raw : List ℕ) (f : Frame) : Type 0 where
  pub long_enough : 18 ≤ length raw
  pub start : byte_at raw 0 ≡ frame_delimiter
  pub checksum : byte_at raw 3 ≡ header_cks (byte_at raw 1) (byte_at raw 2)
  pub whole : declared_len raw ≡ length raw
  pub local_bt : f.local_bt ≡ mac_at raw 4
  pub dest_bt : f.dest_bt ≡ mac_at raw 10
  pub control : f.control ≡ read_u16 (slice raw 16 18)

parse_payload-ok :
    (raw : List ℕ) (o : Option ℕ) (f : Frame)
    → parse_payload raw o ≡ ok f
    → (declared_len raw ≡ length raw)
      × (f.local_bt ≡ mac_at raw 4)
      × (f.dest_bt ≡ mac_at raw 10)
      × (f.control ≡ read_u16 (slice raw 16 18))
unfolding parse_payload parsed
parse_payload-ok raw none f e = ground arith
parse_payload-ok raw (some off) f e = ground arith

-- An accepted frame has at least eighteen bytes, a start delimiter, a right header checksum and the
-- declared length, and its addresses and control word are those bytes.
pub parse-IsAccepted : (raw : List ℕ) (f : Frame) → parse raw ≡ ok f → IsAccepted raw f
unfolding parse
parse-IsAccepted raw f e = ground (arith, parse_payload-ok raw (l2_sig_offset raw) f)
