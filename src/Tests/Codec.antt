-- ===== src/Tests/Codec.antt =====
-- The protocol and the reader at concrete bytes.
use hass_sma_rs.Protocol.Fcs.Reference.{shift_all, compute-shift_all}
use hass_sma_rs.Protocol.Frame.Residue.{with_fcs-residue}
use hass_sma_rs.Prelude.{
  ℕ, ◌+◌, ◌<◌, ◌≡◌, refl, List, [], ◌∷◌, ◌++◌, some, ok, err, inl, inr, arith, All, length, ◌%◌,
  bit_xor,
}
use mathlib.Core.List.{map}
use hass_sma_rs.Protocol.Fcs.{fcs_step, fcs_steps, table_from, fcs_tab, update, compute}
use hass_sma_rs.Protocol.Stuffing.{length_mismatch, too_short, stuff}
use hass_sma_rs.Protocol.Frame.{new, extend, l1_header, with_fcs, build, parse}
use hass_sma_rs.Protocol.Frame.RoundTrip.{signed, parsed_l2, framed, parse-build_l2, parse_any_fcs}
use hass_sma_rs.Protocol.Frame.Shape.{BeginsL2, IsAccepted, parse-IsAccepted}
use hass_sma_rs.Protocol.Frame.Errors.{Explains, parse-Explains, parse-append}
use hass_sma_rs.Protocol.Packet.{encode_l2, decode_l2}
use hass_sma_rs.Protocol.Packet.RoundTrip.{decode_l2-encode_l2}
use hass_sma_rs.Protocol.Packet.Identifier.{decode_l2-pkt_id}
use hass_sma_rs.Transport.Framer.{FrameReader, push}
use hass_sma_rs.Transport.Framer
use hass_sma_rs.Transport.Framer.Steps.{heading}
use hass_sma_rs.Transport.Framer.Invariant.{IsValid, new-IsValid, push-IsValid}
use hass_sma_rs.Transport.Framer.Delivery.{
  IsNoise, silence, stray, false_start, Sent, frames, on_wire, push-on_wire,
}
use hass_sma_rs.Wire.{
  Packet, arriving, built-IsWhole, length-built, IsClean, receive, transmit, receive-transmit,
}
use hass_sma_rs.Tests.Samples.{
  our_bt, inverter_bt, reply_body, reply_header, reply_packet, reply_header-IsWire,
  reply_body-IsByte, reply_packet-IsSendable,
}

-- The check value of the PPP FCS.
compute_check : compute (0x31 ∷ 0x32 ∷ 0x33 ∷ 0x34 ∷ 0x35 ∷ 0x36 ∷ 0x37 ∷ 0x38 ∷ 0x39 ∷ []) ≡ 0x906e
unfolding compute update fcs_tab table_from fcs_steps fcs_step
compute_check = refl

abbrev pin : List ℕ
pin = 0x31 ∷ 0x39 ∷ 0xc3 ∷ 0xa9 ∷ []

decode_l2-encode_l2_example :
    decode_l2 (encode_l2 reply_header reply_body)
    ≡ some (record reply_header { pkt_id = reply_header.pkt_id % 32768 }, reply_body)
decode_l2-encode_l2_example = decode_l2-encode_l2 reply_header reply_body reply_header-IsWire

decode_l2-pkt_id_example : reply_header.pkt_id < 32768
decode_l2-pkt_id_example =
    decode_l2-pkt_id (encode_l2 reply_header reply_body) reply_header reply_body
      (decode_l2-encode_l2 reply_header reply_body reply_header-IsWire)

-- The builder's frame for a short body, and a body with every reserved byte.
abbrev short_frame : List ℕ
short_frame = build (extend (new our_bt inverter_bt 1) (signed reply_body))

short_frame_fits : length short_frame < 65536
short_frame_fits = omega (arith, length-built our_bt inverter_bt 1 reply_body (omega arith))

parse-build_l2_example : parse short_frame ≡ ok (parsed_l2 our_bt inverter_bt 1 reply_body)
parse-build_l2_example =
    parse-build_l2 our_bt inverter_bt 1 reply_body reply_body-IsByte (omega arith) short_frame_fits

-- Two checksum bytes that are wrong.
wrong_frame_fits : length (framed our_bt inverter_bt 1 reply_body 0x7e 0x00) < 65536
unfolding stuff l1_header
wrong_frame_fits = omega arith

parse_any_fcs_example : parse (framed our_bt inverter_bt 1 reply_body 0x7e 0x00) ≡ parse short_frame
parse_any_fcs_example =
    parse_any_fcs our_bt inverter_bt 1 reply_body 0x7e 0x00 reply_body-IsByte (omega arith)
      (omega arith) (omega arith) wrong_frame_fits short_frame_fits

reply_body_plain : ¬ (BeginsL2 reply_body)
reply_body_plain (inl (body, e)) = absurd (cc e)
reply_body_plain (inr (body, e)) = absurd (cc e)

parse-IsAccepted_example : IsAccepted short_frame (parsed_l2 our_bt inverter_bt 1 reply_body)
parse-IsAccepted_example =
    parse-IsAccepted short_frame (parsed_l2 our_bt inverter_bt 1 reply_body) parse-build_l2_example

parse-append_example :
    parse (short_frame ++ 0x7e ∷ [])
    ≡ err (length_mismatch (length short_frame) (length short_frame + 1))
parse-append_example =
    parse-append short_frame (0x7e ∷ []) (parsed_l2 our_bt inverter_bt 1 reply_body)
      parse-build_l2_example (omega arith)

truncated : parse (0x7e ∷ 0x12 ∷ []) ≡ err (too_short 2 18)
unfolding parse
truncated = refl

parse-Explains_example : Explains (0x7e ∷ 0x12 ∷ []) (too_short 2 18)
parse-Explains_example = parse-Explains (0x7e ∷ 0x12 ∷ []) (too_short 2 18) truncated

push-IsValid_example : (r' : FrameReader) × (push Framer.new short_frame ≡ some r') × IsValid r'
push-IsValid_example = push-IsValid Framer.new short_frame new-IsValid

-- A stray byte and a false header, whose last byte is a delimiter again.
abbrev noise : List ℕ
noise = 0x55 ∷ 0x7e ∷ 0x00 ∷ 0x7e ∷ 0xff ∷ 0x12 ∷ 0x00 ∷ []

noise-IsNoise : IsNoise noise
noise-IsNoise = stray refl (
    false_start (inr (inr (omega arith))) (
      stray refl
        (false_start (inl (λ e. absurd (cc e))) (stray refl (stray refl (stray refl silence))))))

-- A connection with noise in front of the first frame.
abbrev connection : List (List ℕ × List ℕ)
connection = (noise, short_frame) ∷ ([], short_frame) ∷ []

connection-Sent : All Sent connection
connection-Sent =
    let whole = built-IsWhole our_bt inverter_bt 1 reply_body (omega arith) in
    ((noise-IsNoise, whole), ((silence, whole), tt))

push-on_wire_example : push Framer.new (on_wire connection) ≡ some (heading [] (frames connection))
push-on_wire_example = push-on_wire connection connection-Sent

abbrev sent : List (List ℕ × Packet)
sent = (noise, reply_packet) ∷ ([], reply_packet) ∷ []

sent-IsClean : All IsClean sent
unfolding IsClean
sent-IsClean = ((noise-IsNoise, reply_packet-IsSendable), ((silence, reply_packet-IsSendable), tt))

receive-transmit_example :
    receive (transmit sent) ≡ some (map (λ q. some (arriving q.1.header, q.1.body)) sent)
receive-transmit_example = receive-transmit sent sent-IsClean

compute-shift_all_example : compute reply_body ≡ bit_xor (shift_all 0xffff reply_body) 0xffff
compute-shift_all_example = compute-shift_all reply_body reply_body-IsByte

with_fcs-residue_example : shift_all 0xffff (with_fcs reply_body) ≡ 0xf0b8
with_fcs-residue_example = with_fcs-residue reply_body reply_body-IsByte
