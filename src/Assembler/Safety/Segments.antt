-- ===== src/Assembler/Safety/Segments.antt =====
-- The loops over the segments, for a packet whose octets are all there and a buffer that holds the
-- picture, with the fields of RFC 4175.
use obs_st.Base.{
  ℕ, zero, suc, ◌+◌, ◌/◌, ◌%◌, ◌^◌, ◌≤◌, ◌<◌, ◌≡◌, refl, arith, Bool, true, not, List, [], ◌∷◌,
  ◌++◌, length, Bytes, IsBytes, get_or-IsByte, ok, splice, length-splice, memcpy-eq-ok, bit_and,
  and_low, and_bit, u16, ltb, leb, ltb→le, ◌==◌, if◌then◌else◌, Bool-cases, inl, inr,
  IsBytes-splice, ◌*◌,
}
use obs_st.Rtp.Reads.{be16, read_be16-eq-ok}
use obs_st.Assembler.{Assembler, buf_size, IsReady}
use obs_st.Assembler.Segments.{Segment, Headers, parse_headers, copy_payloads, dst_offset}

-- RFC 4175, section 4.1: a length of 16 bits, F and a line number of 15, C and an offset of 15.
abbrev pub segment_at : Bytes → ℕ → Segment
segment_at pkt p = record {
  line_no = be16 pkt (p + 2) % 2 ^ 15;
  pixel_offset = be16 pkt (p + 4) % 2 ^ 15;
  seg_length = be16 pkt p;
}

abbrev pub continues_at : Bytes → ℕ → Bool
continues_at pkt p = be16 pkt (p + 4) / 2 ^ 15 % 2 == 1

-- The headers from `p` on, at most `room` of them.
unfoldable pub headers_view : Bytes → ℕ → ℕ → ℕ → List Segment → Headers
headers_view pkt end zero p segments = record { segments = []; payloads = p }
headers_view pkt end (suc room) p segments =
    let found = segments ++ (segment_at pkt p ∷ []) in
    let rest = headers_view pkt end room (p + 6) found in
    if leb (p + 6) end
    then (if continues_at pkt p then rest else record { segments = found; payloads = p + 6 })
    else record { segments = []; payloads = p }

module _ (pkt : Bytes) (end : ℕ) (octets : IsBytes pkt) (inside : end ≤ length pkt) where
  be16-lt : (i : ℕ) → be16 pkt i < 2 ^ 16
  be16-lt i = omega (arith, get_or-IsByte pkt i octets, get_or-IsByte pkt (i + 1) octets)

  low_15 : (i : ℕ) → u16 (bit_and (be16 pkt i) 0x7FFF) ≡ be16 pkt i % 2 ^ 15
  low_15 i = omega (arith, and_low 15 (be16 pkt i))

  top_bit : (i : ℕ) → not (bit_and (be16 pkt i) 0x8000 == 0) ≡ (be16 pkt i / 2 ^ 15 % 2 == 1)
  top_bit i = ground (arith, and_bit 15 (be16 pkt i))

  pub parse_headers-eq-view :
      (room p : ℕ) (segments : List Segment)
      → parse_headers pkt end room p segments ≡ ok (headers_view pkt end room p segments)
  unfolding parse_headers headers_view
  parse_headers-eq-view zero p segments = refl
  parse_headers-eq-view (suc room) p segments = elim (Bool-cases (ltb end (p + 6))) [
    | inl short ↦ ground arith
    | inr long ↦
        let room_left = ltb→le end (p + 6) long in
        let reached : leb (p + 6) end ≡ true = ground arith in
        rw
          (
            long,
            reached,
            read_be16-eq-ok pkt p octets (omega arith),
            read_be16-eq-ok pkt (p + 2) octets (omega arith),
            read_be16-eq-ok pkt (p + 4) octets (omega arith),
            low_15 (p + 2),
            low_15 (p + 4),
            top_bit (p + 4),
            parse_headers-eq-view room (p + 6) (segments ++ (segment_at pkt p ∷ [])),
          )
          (ground arith)
  ]

-- At most so many segments are in a packet that is stored.
abbrev pub segment_limit : ℕ
segment_limit = 8

-- A line of the picture has a group of octets for every two pixels, and the lines follow each other:
-- the place of a segment is its line's, and in the line that of the group of its first pixel.
abbrev pub line_octets : Assembler → ℕ
line_octets a = a.width / 2 * a.pgroup_size

abbrev pub picture_size : Assembler → ℕ
picture_size a = line_octets a * a.height

abbrev pub place : Assembler → Segment → ℕ
place a seg = seg.line_no * line_octets a + seg.pixel_offset / 2 * a.pgroup_size

-- The blocks of a ready assembler hold such a picture.
pub picture_size-eq-buf_size : {a : Assembler} → IsReady a → picture_size a ≡ buf_size a
picture_size-eq-buf_size ready = rw ready.line_holds refl

place-eq-dst_offset : {a : Assembler} (seg : Segment) → IsReady a → place a seg ≡ dst_offset a seg
place-eq-dst_offset seg ready = rw (ready.line_holds, ready.groups) refl

-- The picture after the payloads from `p` on are stored in it.
unfoldable pub painted : Assembler → Bytes → ℕ → List Segment → ℕ → Bytes → Bytes
painted a pkt end [] p fill = fill
painted a pkt end (seg ∷ segs) p fill =
    let next = p + seg.seg_length in
    let skip = painted a pkt end segs next fill in
    let copy = painted a pkt end segs next (splice fill (place a seg) pkt p seg.seg_length) in
    if leb a.height seg.line_no
    then skip
    else (if leb next end
        then (if leb (place a seg + seg.seg_length) (picture_size a) then copy else skip)
        else fill)

module _ (a : Assembler) (pkt : Bytes) (end : ℕ) (inside : end ≤ length pkt) where
  pub copy_payloads-eq-painted :
      (segs : List Segment) (p : ℕ) (fill : Bytes)
      → IsReady a
      → length fill ≡ picture_size a
      → copy_payloads a pkt end segs p fill ≡ ok (painted a pkt end segs p fill)
  unfolding copy_payloads painted
  copy_payloads-eq-painted [] p fill ready e = refl
  copy_payloads-eq-painted (seg ∷ segs) p fill ready e =
      let n = seg.seg_length in
      let at = place a seg in
      ground (
        arith,
        memcpy-eq-ok fill at pkt p n,
        length-splice fill at pkt p n,
        copy_payloads-eq-painted segs (p + n) fill ready e,
        copy_payloads-eq-painted segs (p + n) (splice fill at pkt p n) ready,
        place-eq-dst_offset seg ready,
        picture_size-eq-buf_size ready,
      )

  pub length-painted :
      (segs : List Segment) (p : ℕ) (fill : Bytes)
      → length fill ≡ picture_size a
      → length (painted a pkt end segs p fill) ≡ picture_size a
  unfolding painted
  length-painted [] p fill e = e
  length-painted (seg ∷ segs) p fill e =
      let n = seg.seg_length in
      let at = place a seg in
      ground (
        arith,
        length-splice fill at pkt p n,
        length-painted segs (p + n) fill e,
        length-painted segs (p + n) (splice fill at pkt p n),
      )

  pub IsBytes-painted :
      (segs : List Segment) (p : ℕ) (fill : Bytes)
      → IsBytes pkt
      → IsBytes fill
      → IsBytes (painted a pkt end segs p fill)
  unfolding painted
  IsBytes-painted [] p fill octets h = h
  IsBytes-painted (seg ∷ segs) p fill octets h =
      let n = seg.seg_length in
      let skip = IsBytes-painted segs (p + n) fill octets h in
      let copy =
        IsBytes-painted segs (p + n) (splice fill (place a seg) pkt p n) octets
          (IsBytes-splice fill (place a seg) pkt p n h octets) in
      elim (Bool-cases (leb a.height seg.line_no)) [
        | inl above ↦ rw above skip
        | inr below ↦ elim (Bool-cases (leb (p + n) end)) [
          | inr cut ↦ rw (below, cut) h
          | inl inside_packet ↦ elim (Bool-cases (leb (place a seg + n) (picture_size a))) [
            | inr wild ↦ rw (below, inside_packet, wild) skip
            | inl fits ↦ rw (below, inside_packet, fits) copy
          ]
        ]
      ]
