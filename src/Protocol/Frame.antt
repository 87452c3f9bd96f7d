-- ===== src/Protocol/Frame.antt =====
-- crates/sma-bt-protocol/src/frame.rs: `Frame::parse`, `FrameBuilder` and `parse_l2_only_blob`.
pub mod RoundTrip
pub mod Shape
pub mod Errors
pub mod Residue
use hass_sma_rs.Prelude.{
  ℕ, ◌+◌, ◌-◌, ◌/◌, ◌%◌, List, [], ◌∷◌, ◌++◌, Bool, ◌&&◌, bit_xor, Option, none, some, ltb, leb,
  ◌==◌, ◌!=◌, if◌then◌else◌, length, get_or, take, drop, slice, Result, ok, err, ◌>>=◌,
}
use hass_sma_rs.Prelude.Words.{read_u16, read_u32}
use hass_sma_rs.Protocol.Constants.{frame_delimiter, bt_l2_signature}
use hass_sma_rs.Protocol.Mac.{Mac, mac_bytes, mac_at}
use hass_sma_rs.Protocol.Fcs
use hass_sma_rs.Protocol.Stuffing.{
  ParseError, too_short, missing_start, missing_end, length_mismatch, header_checksum, stuff,
  unstuff,
}

abbrev pub min_frame_len : ℕ
min_frame_len = 18

pub data FrameKind : Type 0 where
  l1_only l2_wrapped : FrameKind

pub record Frame : Type 0 where
  pub kind : FrameKind
  pub local_bt : Mac
  pub dest_bt : Mac
  pub control : ℕ
  pub payload : List ℕ

-- `raw[i]`. Every use stands behind a length check that keeps `i` inside.
abbrev pub byte_at : List ℕ → ℕ → ℕ
byte_at raw i = get_or raw i 0

-- `FRAME_DELIMITER ^ len_lo ^ len_hi`
abbrev pub header_cks : ℕ → ℕ → ℕ
header_cks lo hi = bit_xor (bit_xor frame_delimiter lo) hi

abbrev pub declared_len : List ℕ → ℕ
declared_len raw = read_u16 (slice raw 1 3)

pub l2_sig_offset : List ℕ → Option ℕ
l2_sig_offset raw =
    if leb 22 (length raw) && read_u32 (slice raw 18 22) == bt_l2_signature
    then some 18
    else if leb 23 (length raw)
        && byte_at raw 18 == frame_delimiter
        && read_u32 (slice raw 19 23) == bt_l2_signature
    then some 19
    else none

pub has_trailer : List ℕ → Bool
has_trailer raw = byte_at raw (length raw - 1) == frame_delimiter

-- Strip the two bytes of the FCS.
pub strip_fcs : List ℕ → Result ParseError (List ℕ)
strip_fcs unstuffed =
    if ltb (length unstuffed) 2
    then err (too_short (length unstuffed) 2)
    else ok (take (length unstuffed - 2) unstuffed)

pub parse_l2_payload : List ℕ → ℕ → Result ParseError (List ℕ)
unfolding has_trailer strip_fcs
parse_l2_payload raw sig_off = do
  let trailer = has_trailer raw
  unstuffed ← unstuff (slice raw sig_off (if trailer then length raw - 1 else length raw))
  if trailer then strip_fcs unstuffed else ok unstuffed

pub parsed : FrameKind → List ℕ → List ℕ → Frame
parsed kind raw payload = record {
  kind = kind;
  local_bt = mac_at raw 4;
  dest_bt = mac_at raw 10;
  control = read_u16 (slice raw 16 18);
  payload = payload;
}

-- Both shapes begin with the same test of the declared length.
pub parse_payload : List ℕ → Option ℕ → Result ParseError Frame
unfolding parse_l2_payload parsed
parse_payload raw (some sig_off) =
    if declared_len raw != length raw
    then err (length_mismatch (declared_len raw) (length raw))
    else parse_l2_payload raw sig_off >>= λ payload. ok (parsed l2_wrapped raw payload)
parse_payload raw none =
    if declared_len raw != length raw
    then err (length_mismatch (declared_len raw) (length raw))
    else ok (parsed l1_only raw (if ltb 18 (length raw) then drop 18 raw else []))

unfoldable pub parse : List ℕ → Result ParseError Frame
unfolding l2_sig_offset parse_payload
parse raw =
    if ltb (length raw) min_frame_len
    then err (too_short (length raw) min_frame_len)
    else if byte_at raw 0 != frame_delimiter
    then err (missing_start (byte_at raw 0))
    else (let expected_cks = header_cks (byte_at raw 1) (byte_at raw 2) in
        if byte_at raw 3 != expected_cks
        then err (header_checksum (byte_at raw 3) expected_cks)
        else parse_payload raw (l2_sig_offset raw))

pub record FrameBuilder : Type 0 where
  pub kind : FrameKind
  pub local_bt : Mac
  pub dest_bt : Mac
  pub control : ℕ
  pub payload : List ℕ

unfoldable pub new_with_kind : FrameKind → Mac → Mac → ℕ → FrameBuilder
new_with_kind kind local_bt dest_bt control = record {
  kind = kind;
  local_bt = local_bt;
  dest_bt = dest_bt;
  control = control;
  payload = [];
}

unfoldable pub new : Mac → Mac → ℕ → FrameBuilder
unfolding new_with_kind
new = new_with_kind l2_wrapped

unfoldable pub extend : FrameBuilder → List ℕ → FrameBuilder
extend b bytes = record b { payload = b.payload ++ bytes }

-- The eighteen bytes that both shapes push first, and what follows them.
unfoldable pub l1_header : ℕ → FrameBuilder → List ℕ → List ℕ
l1_header total_len b rest =
    let len_lo = total_len % 256 in
    let len_hi = total_len / 256 % 256 in
    frame_delimiter
    ∷ len_lo
    ∷ len_hi
    ∷ header_cks len_lo len_hi
    ∷ mac_bytes b.local_bt
        (mac_bytes b.dest_bt ((b.control % 256) ∷ (b.control / 256 % 256) ∷ rest))

pub build_l1_only : FrameBuilder → List ℕ
unfolding l1_header
build_l1_only b = l1_header (18 + length b.payload) b b.payload

-- What is stuffed: the payload with its FCS, low byte first.
pub with_fcs : List ℕ → List ℕ
with_fcs payload =
    let fcs_val = Fcs.compute payload in payload ++ (fcs_val % 256) ∷ (fcs_val / 256 % 256) ∷ []

pub build_l2_wrapped : FrameBuilder → List ℕ
unfolding with_fcs l1_header
build_l2_wrapped b =
    let stuffed = stuff (with_fcs b.payload) in
    l1_header (18 + 1 + length stuffed + 1) b (frame_delimiter ∷ (stuffed ++ frame_delimiter ∷ []))

pub build_as : FrameKind → FrameBuilder → List ℕ
unfolding build_l1_only build_l2_wrapped
build_as l1_only b = build_l1_only b
build_as l2_wrapped b = build_l2_wrapped b

unfoldable pub build : FrameBuilder → List ℕ
unfolding build_as
build b = build_as b.kind b

-- The index of the first delimiter at or after position `i`, where `rest` begins.
pub find_delimiter : ℕ → List ℕ → Option ℕ
find_delimiter i [] = none
find_delimiter i (b ∷ rest) =
    let later = find_delimiter (i + 1) rest in if b == frame_delimiter then some i else later

parse_blob_body : List ℕ → Option ℕ → Result ParseError (List ℕ)
unfolding strip_fcs
parse_blob_body raw none = err (missing_end 0)
parse_blob_body raw (some end) = do unstuffed ← unstuff (slice raw 1 end); strip_fcs unstuffed

unfoldable pub parse_l2_only_blob : List ℕ → Result ParseError (List ℕ)
unfolding find_delimiter parse_blob_body
parse_l2_only_blob raw =
    if ltb (length raw) 6
    then err (too_short (length raw) 6)
    else if byte_at raw 0 != frame_delimiter
    then err (missing_start (byte_at raw 0))
    else if byte_at raw 1 == 0xff
        && byte_at raw 2 == 0x03
        && byte_at raw 3 == 0x60
        && byte_at raw 4 == 0x65
    then parse_blob_body raw (find_delimiter 5 (drop 5 raw))
    else err (header_checksum (byte_at raw 1) 0xff)
