-- ===== src/Wire.antt =====
-- The crates together: what `FrameBuilder` writes goes through `FrameReader` and back through
-- `Frame::parse` and `L2Header::decode`.
use hass_sma_rs.Prelude.{
  ℕ, ◌+◌, ◌*◌, ◌≤◌, ◌≡◌, refl, sym, ◌∙◌, ap, List, [], ◌∷◌, ◌++◌, Option, none, some, ==_refl,
  le→leb, length, length-append, All, drop, ok, err, arith, ◌%◌, ◌/◌,
}
use mathlib.Core.Path.{subst}
use mathlib.Core.List.{map}
use hass_sma_rs.Prelude.Words.{IsByte, IsU16}
use hass_sma_rs.Protocol.Constants.{frame_delimiter}
use hass_sma_rs.Protocol.Mac.{Mac}
use hass_sma_rs.Protocol.Fcs
use hass_sma_rs.Protocol.Stuffing.{stuff}
use hass_sma_rs.Protocol.Stuffing.RoundTrip.{length-stuff}
use hass_sma_rs.Protocol.Frame.{
  Frame, l2_wrapped, header_cks, FrameBuilder, new, extend, l1_header, build, parse,
}
use hass_sma_rs.Protocol.Frame.RoundTrip.{signed, length-framed, build-framed, parse-build_l2}
use hass_sma_rs.Protocol.Packet.{L2Header, encode_l2, decode_l2}
use hass_sma_rs.Protocol.Packet.RoundTrip.{IsWire, decode_l2-encode_l2}
use hass_sma_rs.Transport.Framer.{FrameReader, header_length, push}
use hass_sma_rs.Transport.Framer
use hass_sma_rs.Transport.Framer.Invariant.{IsWhole}
use hass_sma_rs.Transport.Framer.Delivery.{IsNoise, on_wire, frames, Sent, push-on_wire}

-- An L2 packet with the addresses of its frame.
pub record Packet : Type 0 where
  pub local_bt : Mac
  pub dest_bt : Mac
  pub control : ℕ
  pub header : L2Header
  pub body : List ℕ

abbrev pub frame_of : Packet → List ℕ
frame_of p = build (extend (new p.local_bt p.dest_bt p.control) (encode_l2 p.header p.body))

-- The fields of a packet fit their widths, and its body the limit of the reader even if every
-- byte of it is stuffed.
pub record IsSendable (p : Packet) : Type 0 where
  pub control : IsU16 p.control
  pub header : IsWire p.header
  pub longwords : IsByte p.header.longwords
  pub ctrl : IsByte p.header.ctrl
  pub body : All IsByte p.body
  pub short : length p.body ≤ 900

-- The bytes of `encode_l2` behind the signature.
abbrev tail_of : L2Header → List ℕ → List ℕ
tail_of h body = drop 4 (encode_l2 h body)

encode_l2-signed : (h : L2Header) (body : List ℕ) → encode_l2 h body ≡ signed (tail_of h body)
unfolding encode_l2
encode_l2-signed h body = refl

tail-IsByte :
    (h : L2Header) (body : List ℕ)
    → IsByte h.longwords
    → IsByte h.ctrl
    → All IsByte body
    → All IsByte (tail_of h body)
unfolding encode_l2
tail-IsByte h body hl hc hb = ground arith

length-tail : (h : L2Header) (body : List ℕ) → length (tail_of h body) ≡ 24 + length body
unfolding encode_l2
length-tail h body = omega arith

-- What begins with a header that declares its length is whole.
headed-IsWhole :
    (total : ℕ) (b : FrameBuilder) (rest : List ℕ)
    → 18 ≤ total
    → total ≤ 2048
    → total ≡ length (l1_header total b rest)
    → IsWhole (l1_header total b rest)
unfolding header_length l1_header
headed-IsWhole total b rest lower upper same =
    let declared : total % 256 + 256 * (total / 256 % 256) ≡ total = omega arith in
    record {
      start = refl;
      header =
          rw
            (
              ==_refl (header_cks (total % 256) (total / 256 % 256)),
              declared,
              le→leb 18 total lower,
              le→leb total 2048 upper,
            )
            (ap some same);
    }

module _ (local_bt dest_bt : Mac) (control : ℕ) (body : List ℕ) (short : length body ≤ 924) where
  abbrev built : List ℕ
  built = build (extend (new local_bt dest_bt control) (signed body))

  pub length-built : (length built ≤ 2048) × (18 ≤ length built)
  length-built =
      let x = Fcs.compute (signed body) % 256 in
      let y = Fcs.compute (signed body) / 256 % 256 in
      rw (build-framed local_bt dest_bt control body) (
        omega (
          arith,
          length-framed local_bt dest_bt control body x y,
          length-stuff (signed body ++ x ∷ y ∷ []),
          length-append (signed body) (x ∷ y ∷ []),
        ))

  pub built-IsWhole : IsWhole built
  built-IsWhole =
      let x = Fcs.compute (signed body) % 256 in
      let y = Fcs.compute (signed body) / 256 % 256 in
      let stuffed = stuff (signed body ++ x ∷ y ∷ []) in
      let total = 18 + 1 + length stuffed + 1 in
      let (upper, lower) = length-built in
      let is_total : length built ≡ total =
        ap length (build-framed local_bt dest_bt control body)
        ∙ length-framed local_bt dest_bt control body x y in
      subst IsWhole (sym (build-framed local_bt dest_bt control body)) (
        headed-IsWhole total (extend (new local_bt dest_bt control) (signed body))
          (frame_delimiter ∷ (stuffed ++ frame_delimiter ∷ [])) (omega arith) (omega arith)
          (sym (length-framed local_bt dest_bt control body x y)))

-- The header as it arrives, without the top bit of the packet id.
abbrev pub arriving : L2Header → L2Header
arriving h = record h { pkt_id = h.pkt_id % 32768 }

-- The packet in a frame: the frame is parsed, its payload decoded.
pub unpack : List ℕ → Option (L2Header × List ℕ)
unpack bytes = elim (parse bytes) [ err e ↦ none | ok frame ↦ decode_l2 frame.payload ]

-- What the frame of a packet parses to.
abbrev pub parsed_packet : Packet → Frame
parsed_packet p = record {
  kind = l2_wrapped;
  local_bt = p.local_bt;
  dest_bt = p.dest_bt;
  control = p.control;
  payload = encode_l2 p.header p.body;
}

module _ (p : Packet) (sendable : IsSendable p) where
  pub parse-frame_of : parse (frame_of p) ≡ ok (parsed_packet p)
  unfolding encode_l2
  parse-frame_of =
      let body = tail_of p.header p.body in
      let short : length body ≤ 924 = omega (arith, length-tail p.header p.body, sendable.short) in
      let fits = length-built p.local_bt p.dest_bt p.control body short in
      parse-build_l2 p.local_bt p.dest_bt p.control body
        (tail-IsByte p.header p.body sendable.longwords sendable.ctrl sendable.body)
        sendable.control (omega (arith, fits))

  pub unpack-frame_of : unpack (frame_of p) ≡ some (arriving p.header, p.body)
  unfolding unpack
  unpack-frame_of =
      rw (unpack, parse-frame_of) (decode_l2-encode_l2 p.header p.body sendable.header)

  pub frame_of-IsWhole : IsWhole (frame_of p)
  frame_of-IsWhole =
      let body = tail_of p.header p.body in
      let short : length body ≤ 924 = omega (arith, length-tail p.header p.body, sendable.short) in
      subst (λ q. IsWhole (build (extend (new p.local_bt p.dest_bt p.control) q)))
        (sym (encode_l2-signed p.header p.body))
        (built-IsWhole p.local_bt p.dest_bt p.control body short)

-- The packets that a receiver gets from the bytes of a connection, `none` standing for a reader
-- that ran out of fuel.
pub receive : List ℕ → Option (List (Option (L2Header × List ℕ)))
receive bytes = elim (push Framer.new bytes) [
  | none ↦ none
  | some r ↦ some (map unpack r.completed)
]

-- The connection: noise before each packet.
pub transmit : List (List ℕ × Packet) → List ℕ
transmit sent = on_wire (map (λ q. (q.0, frame_of q.1)) sent)

unfoldable pub IsClean : List ℕ × Packet → Type 0
IsClean q = IsNoise q.0 × IsSendable q.1

unpack-frames :
    (sent : List (List ℕ × Packet))
    → All IsClean sent
    → map unpack (frames (map (λ q. (q.0, frame_of q.1)) sent))
      ≡ map (λ q. some (arriving q.1.header, q.1.body)) sent
unfolding IsClean
unpack-frames [] h = refl
unpack-frames ((noise, p) ∷ sent) ((_, sendable), h) =
    rw (unpack-frame_of p sendable, unpack-frames sent h)

map-Sent :
    (sent : List (List ℕ × Packet))
    → All IsClean sent
    → All Sent (map (λ q. (q.0, frame_of q.1)) sent)
unfolding IsClean
map-Sent [] h = tt
map-Sent ((noise, p) ∷ sent) ((quiet, sendable), h) =
    ((quiet, frame_of-IsWhole p sendable), map-Sent sent h)

-- Packets whose fields fit their widths and whose bodies have at most 900 bytes, one frame behind
-- the other on a connection, arrive in order, with their headers, but for the top bit of the packet
-- id, and their bodies. Before each frame there may be noise: stray bytes, and starts with three
-- bytes behind them that make no valid header.
pub receive-transmit :
    (sent : List (List ℕ × Packet))
    → All IsClean sent
    → receive (transmit sent) ≡ some (map (λ q. some (arriving q.1.header, q.1.body)) sent)
unfolding receive transmit
receive-transmit sent h = rw (
  receive,
  push-on_wire (map (λ q. (q.0, frame_of q.1)) sent) (map-Sent sent h),
  unpack-frames sent h,
)
