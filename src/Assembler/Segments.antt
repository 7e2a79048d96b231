-- ===== src/Assembler/Segments.antt =====
-- The two loops of `rx_assembler_process_packet`: the line headers, then the payloads.
use obs_st.Base.{
  ℕ, zero, suc, ◌+◌, ◌*◌, ◌/◌, not, List, [], ◌∷◌, ◌++◌, Bytes, Exec, ok, ◌>>=◌, memcpy, bit_and,
  u16, ltb, leb, ◌==◌, if◌then◌else◌,
}
use obs_st.Rtp.{read_be16}
use obs_st.Assembler.{Assembler, buf_size}

pub record Segment : Type 0 where
  pub line_no : ℕ
  pub pixel_offset : ℕ
  pub seg_length : ℕ

abbrev pub max_segments : ℕ
max_segments = 8

-- The headers read, and the offset behind them. No header is what a packet gives that is dropped.
pub record Headers : Type 0 where
  pub segments : List Segment
  pub payloads : ℕ

-- `for (;;)` over the headers from `p` on, with room for `room` more in the array: `segments` are
-- the entries stored so far.
unfoldable pub parse_headers : Bytes → ℕ → ℕ → ℕ → List Segment → Exec Headers
parse_headers pkt end zero p segments = ok (record { segments = []; payloads = p })
parse_headers pkt end (suc room) p segments =
    if ltb end (p + 6) then ok (record { segments = []; payloads = p }) else (do
      seg_length ← read_be16 pkt p
      line_field ← read_be16 pkt (p + 2)
      offset_cont ← read_be16 pkt (p + 4)
      let continuation = not (bit_and offset_cont 0x8000 == 0)
      let segments' =
          segments
          ++ (record {
            line_no = u16 (bit_and line_field 0x7FFF);
            pixel_offset = u16 (bit_and offset_cont 0x7FFF);
            seg_length = seg_length;
          }
              ∷ [])
      let rest = parse_headers pkt end room (p + 6) segments'
      (if continuation then rest else ok (record { segments = segments'; payloads = p + 6 })))

-- Where a segment goes in the fill buffer.
abbrev pub dst_offset : Assembler → Segment → ℕ
dst_offset a seg =
    seg.line_no * a.fill_stride + seg.pixel_offset / a.pixels_per_group * a.pgroup_size

-- `for (i = 0; i < n_segments; ++i)`, from the payload at `p` on; the result is `fill_buf`.
unfoldable pub copy_payloads : Assembler → Bytes → ℕ → List Segment → ℕ → Bytes → Exec Bytes
copy_payloads a pkt end [] p fill = ok fill
copy_payloads a pkt end (seg ∷ segs) p fill =
    let skip = copy_payloads a pkt end segs (p + seg.seg_length) fill in
    let copy = memcpy fill (dst_offset a seg) pkt p seg.seg_length >>= λ fill'.
    copy_payloads a pkt end segs (p + seg.seg_length) fill' in
    if leb a.height seg.line_no
    then skip
    else (if ltb end (p + seg.seg_length)
        then ok fill
        else (if ltb (buf_size a) (dst_offset a seg + seg.seg_length) then skip else copy))
