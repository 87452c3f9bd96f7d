-- ===== src/Protocol/Frame/RoundTrip.antt =====
-- `Frame::parse` against `FrameBuilder::build`.
use hass_sma_rs.Prelude.{
  ℕ, ◌+◌, ◌-◌, ◌/◌, ◌%◌, ◌<◌, ◌≡◌, refl, List, [], ◌∷◌, ◌++◌, true, !=_refl, some, length,
  length-append, take-append, slice, get_or-last, slice-last, All, All-append, ok, arith, sym, ◌∙◌,
  le→ltb_false,
}
use hass_sma_rs.Prelude.Words.{IsByte, IsU16, u16_of_bytes}
use hass_sma_rs.Protocol.Constants.{frame_delimiter}
use hass_sma_rs.Protocol.Mac.{Mac}
use hass_sma_rs.Protocol.Fcs
use hass_sma_rs.Protocol.Stuffing.{stuff}
use hass_sma_rs.Protocol.Stuffing.RoundTrip.{unstuff-stuff}
use hass_sma_rs.Protocol.Frame.{
  FrameKind, l2_wrapped, Frame, FrameBuilder, header_cks, l2_sig_offset, has_trailer, strip_fcs,
  parse_l2_payload, parsed, parse_payload, parse, l1_header, with_fcs, new, extend, new, extend,
  build, declared_len,
}

module _ (total : ℕ) (b : FrameBuilder) (rest : List ℕ) where
  -- A header that the builder wrote passes the three checks of `parse`.
  pub parse-l1_header :
      parse (l1_header total b rest)
      ≡ parse_payload (l1_header total b rest) (l2_sig_offset (l1_header total b rest))
  unfolding parse l1_header
  parse-l1_header = rw (
    le→ltb_false (length (l1_header total b rest)) 18 (omega arith),
    !=_refl (header_cks (total % 256) (total / 256 % 256)),
  )

  pub declared-l1_header : total < 65536 → declared_len (l1_header total b rest) ≡ total
  unfolding l1_header
  declared-l1_header h = u16_of_bytes total h

  pub parsed-l1_header :
      (k : FrameKind) (payload : List ℕ)
      → IsU16 b.control
      → parsed k (l1_header total b rest) payload ≡ record {
        kind = k;
        local_bt = b.local_bt;
        dest_bt = b.dest_bt;
        control = b.control;
        payload = payload;
      }
  unfolding parsed l1_header
  parsed-l1_header k payload h = rw (u16_of_bytes b.control h)

  length-l1_header : length (l1_header total b rest) ≡ length rest + 18
  unfolding l1_header
  length-l1_header = omega arith

abbrev pub closed_frame : ℕ → FrameBuilder → List ℕ → List ℕ
closed_frame total b body = l1_header total b (frame_delimiter ∷ (body ++ frame_delimiter ∷ []))

closed_frame-append :
    (total : ℕ) (b : FrameBuilder) (body : List ℕ)
    → closed_frame total b body ≡ l1_header total b (frame_delimiter ∷ body) ++ frame_delimiter ∷ []
unfolding l1_header
closed_frame-append total b body = refl

has_trailer-closed_frame :
    (total : ℕ) (b : FrameBuilder) (body : List ℕ) → has_trailer (closed_frame total b body) ≡ true
unfolding has_trailer
has_trailer-closed_frame total b body = rw (
  closed_frame-append total b body,
  get_or-last (l1_header total b (frame_delimiter ∷ body)) frame_delimiter 0,
)

slice-closed_frame :
    (total : ℕ) (b : FrameBuilder) (body : List ℕ)
    → slice (closed_frame total b body) 19 (length (closed_frame total b body) - 1) ≡ body
slice-closed_frame total b body = rw (closed_frame-append total b body) (
    slice-last 19 (l1_header total b (frame_delimiter ∷ body)) frame_delimiter
      (unfold l1_header in omega arith)
    ∙ (unfold l1_header in refl))

-- The signature behind the separator, in a body that begins with it.
l2_sig_offset-closed_frame :
    (total : ℕ) (b : FrameBuilder) (tail : List ℕ)
    → l2_sig_offset (closed_frame total b (0xff ∷ 0x03 ∷ 0x60 ∷ 0x65 ∷ tail)) ≡ some 19
unfolding l2_sig_offset l1_header
l2_sig_offset-closed_frame total b tail = ground arith

strip_fcs-append : (xs : List ℕ) (x y : ℕ) → strip_fcs (xs ++ x ∷ y ∷ []) ≡ ok xs
unfolding strip_fcs
strip_fcs-append xs x y =
    let e : length (xs ++ x ∷ y ∷ []) - 2 ≡ length xs =
      omega (arith, length-append xs (x ∷ y ∷ [])) in
    rw (
      le→ltb_false (length (xs ++ x ∷ y ∷ [])) 2 (omega (arith, length-append xs (x ∷ y ∷ []))),
      e,
      take-append xs (x ∷ y ∷ []),
    )

parse_l2_payload-closed_frame :
    (total : ℕ) (b : FrameBuilder) (payload : List ℕ) (x y : ℕ)
    → All IsByte payload
    → IsByte x
    → IsByte y
    → parse_l2_payload (closed_frame total b (stuff (payload ++ x ∷ y ∷ []))) 19 ≡ ok payload
unfolding parse_l2_payload
parse_l2_payload-closed_frame total b payload x y h hx hy =
    let stuffed = stuff (payload ++ x ∷ y ∷ []) in
    let bytes : All IsByte (payload ++ x ∷ y ∷ []) =
      All-append IsByte payload (x ∷ y ∷ []) h (hx, (hy, tt)) in
    rw
      (
        has_trailer-closed_frame total b stuffed,
        slice-closed_frame total b stuffed,
        unstuff-stuff (payload ++ x ∷ y ∷ []) bytes,
      )
      (strip_fcs-append payload x y)

-- The L2 signature and what follows it.
abbrev pub signed : List ℕ → List ℕ
signed body = 0xff ∷ 0x03 ∷ 0x60 ∷ 0x65 ∷ body

signed-IsByte : (body : List ℕ) → All IsByte body → All IsByte (signed body)
signed-IsByte body h = (omega arith, (omega arith, (omega arith, (omega arith, h))))

-- The signature holds no reserved byte, so it stands unchanged in front of the stuffed body.
stuff-signed : (body : List ℕ) → stuff (signed body) ≡ signed (stuff body)
unfolding stuff
stuff-signed body = refl

l2_sig_offset-stuffed :
    (total : ℕ) (b : FrameBuilder) (stuffed tail : List ℕ)
    → stuffed ≡ signed tail
    → l2_sig_offset (closed_frame total b stuffed) ≡ some 19
l2_sig_offset-stuffed total b stuffed tail e = rw e (l2_sig_offset-closed_frame total b tail)

abbrev pub parsed_l2 : Mac → Mac → ℕ → List ℕ → Frame
parsed_l2 local_bt dest_bt control body = record {
  kind = l2_wrapped;
  local_bt = local_bt;
  dest_bt = dest_bt;
  control = control;
  payload = signed body;
}

module _ (local_bt dest_bt : Mac) (control : ℕ) (body : List ℕ) (x y : ℕ) where
  -- The frame that the builder would write for `body` if its checksum were `x`, `y`.
  abbrev pub framed : List ℕ
  framed =
      let stuffed = stuff (signed body ++ x ∷ y ∷ []) in
      closed_frame (18 + 1 + length stuffed + 1)
        (extend (new local_bt dest_bt control) (signed body)) stuffed

  pub length-framed : length framed ≡ 18 + 1 + length (stuff (signed body ++ x ∷ y ∷ [])) + 1
  unfolding l1_header
  length-framed =
      omega (arith, length-append (stuff (signed body ++ x ∷ y ∷ [])) (frame_delimiter ∷ []))

  parse-framed :
      All IsByte body
      → IsByte x
      → IsByte y
      → IsU16 control
      → length framed < 65536
      → parse framed ≡ ok (parsed_l2 local_bt dest_bt control body)
  unfolding parse_payload
  parse-framed h hx hy c fits =
      let b = extend (new local_bt dest_bt control) (signed body) in
      let stuffed = stuff (signed body ++ x ∷ y ∷ []) in
      let total = 18 + 1 + length stuffed + 1 in
      let rest = frame_delimiter ∷ (stuffed ++ frame_delimiter ∷ []) in
      let declared : declared_len framed ≡ length framed =
        declared-l1_header total b rest (omega (arith, length-framed)) ∙ sym length-framed in
      let offset : l2_sig_offset framed ≡ some 19 =
        l2_sig_offset-stuffed total b stuffed _ (stuff-signed (body ++ x ∷ y ∷ [])) in
      let fields : parsed l2_wrapped framed (signed body)
          ≡ parsed_l2 local_bt dest_bt control body =
        unfold new extend in parsed-l1_header total b rest l2_wrapped (signed body) c in
      parse-l1_header total b rest
      ∙ rw (
        offset,
        declared,
        !=_refl (length framed),
        parse_l2_payload-closed_frame total b (signed body) x y (signed-IsByte body h) hx hy,
        fields,
      )

pub build-framed :
    (local_bt dest_bt : Mac) (control : ℕ) (body : List ℕ)
    → build (extend (new local_bt dest_bt control) (signed body))
      ≡ framed local_bt dest_bt control body
          (Fcs.compute (signed body) % 256)
          (Fcs.compute (signed body) / 256 % 256)
unfolding build new extend with_fcs
build-framed local_bt dest_bt control body = refl

-- A payload of bytes that begins with the L2 signature, in a frame of less than 2 ^ 16 bytes, is
-- parsed back from the frame that the builder wrote, with its addresses and its control word.
pub parse-build_l2 :
    (local_bt dest_bt : Mac) (control : ℕ) (body : List ℕ)
    → All IsByte body
    → IsU16 control
    → length (build (extend (new local_bt dest_bt control) (signed body))) < 65536
    → parse (build (extend (new local_bt dest_bt control) (signed body)))
      ≡ ok (parsed_l2 local_bt dest_bt control body)
parse-build_l2 local_bt dest_bt control body h c fits =
    let e = build-framed local_bt dest_bt control body in
    rw e (
      parse-framed local_bt dest_bt control body _ _ h (omega arith) (omega arith) c (rw e at fits))

-- The parser does not look at the checksum: whatever two bytes stand in its place, the frame is
-- taken with the same payload as the builder's own.
pub parse_any_fcs :
    (local_bt dest_bt : Mac) (control : ℕ) (body : List ℕ) (x y : ℕ)
    → All IsByte body
    → IsByte x
    → IsByte y
    → IsU16 control
    → length (framed local_bt dest_bt control body x y) < 65536
    → length (build (extend (new local_bt dest_bt control) (signed body))) < 65536
    → parse (framed local_bt dest_bt control body x y)
      ≡ parse (build (extend (new local_bt dest_bt control) (signed body)))
parse_any_fcs local_bt dest_bt control body x y h hx hy c fits fits' =
    parse-framed local_bt dest_bt control body x y h hx hy c fits
    ∙ sym (parse-build_l2 local_bt dest_bt control body h c fits')
