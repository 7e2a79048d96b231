-- ===== src/Sender/Filled.antt =====
-- The packet that the test sender fills in: both headers and the segment.
use obs_st.Base.{
  refl, splice_below, splice_inside, ℕ, refl, ◌+◌, ◌/◌, ◌%◌, ◌^◌, ◌<◌, ◌≤◌, ◌≡◌, arith, Bool, true,
  false, [], ◌∷◌, Bytes, IsBytes, length, get_or, Returns, u16, bit_or, and_low, or_disjoint,
  store_all-Writes, if◌then◌else◌, ◌∙◌, memcpy-eq-ok, splice, inl, length-splice, IsBytes-splice,
  some, take, ◌*◌, drop, length-take, get_or-take, get_or_ext, length-drop, sym, dec_lt,
  get_or-drop, get_or_beyond,
}
use obs_st.Sender.{segment_octets, write_rtp_header, fill_buffer}
use obs_st.Sender.Header.{
  from_zero, header_octets, rtp_octets-eq-header, header-IsBytes, view_written,
}
use obs_st.Rtp.View.{view}
use obs_st.Assembler.Safety.Segments.{segment_at}

-- The six octets, as arithmetic.
abbrev pub segment_split : ℕ → ℕ → ℕ → Bool → Bytes
segment_split seg_len line pixel_offset continuation =
    (seg_len / 256)
    ∷ (seg_len % 256)
    ∷ (line / 256)
    ∷ (line % 256)
    ∷ ((if continuation then 128 else 0) + pixel_offset / 256)
    ∷ (pixel_offset % 256)
    ∷ []

continuation_octet :
    (continuation : Bool) (n : ℕ)
    → n < 128
    → bit_or (if continuation then 0x80 else 0) n ≡ (if continuation then 128 else 0) + n
continuation_octet true n h = or_disjoint 7 128 n refl h
continuation_octet false n h = or_disjoint 7 0 n refl h

-- A datagram whose two headers, as the receiver's readers find them, are those meant, with a segment
-- of the frame behind them.
pub record IsPacket (seg_len line pixel_offset : ℕ) (frame : Bytes) (from seq ts : ℕ)
    (marker : Bool) (d : Bytes) : Type 0 where
  pub size : length d ≡ 18 + seg_len
  pub rtp :
      view d (length d) ≡ some (record { payload = 12; seq = seq; timestamp = ts; marker = marker })
  pub segment :
      segment_at d 12 ≡ record { line_no = line; pixel_offset = pixel_offset; seg_length = seg_len }
  pub payload : drop 18 d ≡ take seg_len (drop from frame)

module _ (seg_len line pixel_offset : ℕ) (continuation : Bool) (len_range : seg_len < 2 ^ 16)
    (line_range : line < 2 ^ 15) (offset_range : pixel_offset < 2 ^ 15) where
  pub segment_octets-eq-split :
      segment_octets seg_len line pixel_offset continuation
      ≡ segment_split seg_len line pixel_offset continuation
  segment_octets-eq-split =
      rw
        (
          and_low 8 seg_len,
          and_low 8 line,
          and_low 8 pixel_offset,
          continuation_octet continuation (pixel_offset / 256) (omega arith),
        )
        (ground arith)

  pub split-IsBytes : IsBytes (segment_split seg_len line pixel_offset continuation)
  split-IsBytes = ground arith

  -- The octets of the buffer behind the packet: twelve of the RTP header, six of the segment's, and
  -- the segment.
  pub record IsFilled (frame : Bytes) (from seq ts ssrc : ℕ) (marker : Bool) (packet out : Bytes)
      : Type 0 where
    pub same_length : length out ≡ length packet
    pub octets : IsBytes frame → IsBytes out
    pub rtp : (i : ℕ) → i < 12 → get_or out i 0 ≡ get_or (header_octets seq ts ssrc marker) i 0
    pub header :
        (i : ℕ)
        → i < 6
        → get_or out (12 + i) 0 ≡ get_or (segment_split seg_len line pixel_offset continuation) i 0
    pub payload : (i : ℕ) → i < seg_len → get_or out (18 + i) 0 ≡ get_or frame (from + i) 0

  pub fill_buffer-IsFilled :
      (packet frame : Bytes) (from seq ts ssrc : ℕ) (is_last_packet : Bool)
      → IsBytes packet
      → ts < 2 ^ 32
      → ssrc < 2 ^ 32
      → 18 + seg_len ≤ length packet
      → from + seg_len ≤ length frame
      → Returns
          (fill_buffer packet frame from seg_len seq ts ssrc is_last_packet line pixel_offset
            continuation)
          (IsFilled frame from (u16 seq) ts ssrc is_last_packet packet)
  unfolding fill_buffer write_rtp_header
  fill_buffer-IsFilled packet frame from seq ts ssrc is_last_packet octets ts_range ssrc_range room
        have =
      let (out1, e1, (w1, octets1)) =
        store_all-Writes (header_octets (u16 seq) ts ssrc is_last_packet) packet 0 (omega arith)
          octets
          (header-IsBytes (u16 seq) ts ssrc is_last_packet (omega arith) ts_range ssrc_range) in
      let (out2, e2, (w2, octets2)) =
        store_all-Writes (segment_split seg_len line pixel_offset continuation) out1 12
          (omega (arith, w1.same_length)) octets1 split-IsBytes in
      let room2 : 18 + seg_len ≤ length out2 = omega (arith, w1.same_length, w2.same_length) in
      let below = splice_below out2 18 frame from seg_len room2 have in
      (
        splice out2 18 frame from seg_len,
        rw
            (
              rtp_octets-eq-header (u16 seq) ts ssrc is_last_packet (omega arith) ts_range
                  ssrc_range,
              e1,
              segment_octets-eq-split,
              e2,
              memcpy-eq-ok out2 18 frame from seg_len room2 have,
            )
            refl,
        record {
          same_length =
              length-splice out2 18 frame from seg_len room2 have ∙ w2.same_length ∙ w1.same_length;
          octets = λ frame_octets. IsBytes-splice out2 18 frame from seg_len octets2 frame_octets;
          rtp = λ i lt.
              below i (omega arith)
              ∙ w2.outside i (inl lt)
              ∙ from_zero (λ k. get_or out1 k 0) i (w1.inside i lt);
          header = λ i lt. below (12 + i) (omega arith) ∙ w2.inside i lt;
          payload = splice_inside out2 18 frame from seg_len room2 have;
        },
      )

  continuation_low :
      (c : Bool)
      → (((if c then 128 else 0) + pixel_offset / 256) * 256 + pixel_offset % 256) % 2 ^ 15
        ≡ pixel_offset
  continuation_low true = omega arith
  continuation_low false = omega arith

  segment_read :
      (d : Bytes)
      → ((i : ℕ)
          → i < 6
          → get_or d (12 + i) 0 ≡ get_or (segment_split seg_len line pixel_offset continuation) i 0)
      → segment_at d 12
        ≡ record { line_no = line; pixel_offset = pixel_offset; seg_length = seg_len }
  segment_read d header =
      let octet0 = header 0 (omega arith) in
      let octet1 = header 1 (omega arith) in
      let octet2 = header 2 (omega arith) in
      let octet3 = header 3 (omega arith) in
      let octet4 = header 4 (omega arith) in
      let octet5 = header 5 (omega arith) in
      let line_low : (line / 256 * 256 + line % 256) % 2 ^ 15 ≡ line = omega arith in
      let len_whole : seg_len / 256 * 256 + seg_len % 256 ≡ seg_len = omega arith in
      rw
        (
          octet0,
          octet1,
          octet2,
          octet3,
          octet4,
          octet5,
          line_low,
          len_whole,
          continuation_low continuation,
        )
        refl

  -- The first octets of a buffer that is filled are such a datagram.
  pub filled-IsPacket :
      (frame : Bytes) (from seq ts ssrc : ℕ) (marker : Bool) (packet out : Bytes)
      → seq < 2 ^ 16
      → ts < 2 ^ 32
      → ssrc < 2 ^ 32
      → 18 + seg_len ≤ length packet
      → from + seg_len ≤ length frame
      → IsFilled frame from seq ts ssrc marker packet out
      → IsPacket seg_len line pixel_offset frame from seq ts marker (take (18 + seg_len) out)
  filled-IsPacket frame from seq ts ssrc marker packet out seq_range ts_range ssrc_range room have
        f =
      let d = take (18 + seg_len) out in
      let size : length d ≡ 18 + seg_len =
        omega (arith, length-take (18 + seg_len) out, f.same_length) in
      let same : (i : ℕ) → i < 18 + seg_len → get_or d i 0 ≡ get_or out i 0 =
        λ i lt. get_or-take (18 + seg_len) out i 0 lt in
      let left : length (drop 18 d) ≡ seg_len = omega (arith, length-drop 18 d, size) in
      let right : length (take seg_len (drop from frame)) ≡ seg_len =
        omega (arith, length-take seg_len (drop from frame), length-drop from frame) in
      record {
        size = size;
        rtp =
            view_written seq ts ssrc marker seq_range ts_range ssrc_range d (length d)
              (omega (arith, size)) (λ i lt. same i (omega arith) ∙ f.rtp i lt);
        segment = segment_read d (λ i lt. same (12 + i) (omega arith) ∙ f.header i lt);
        payload = get_or_ext 0 (drop 18 d) (take seg_len (drop from frame)) (left ∙ sym right) λ i.
            elim (dec_lt i seg_len) [
              | yes inside ↦
                  get_or-drop 18 d i (18 + i) 0 refl
                  ∙ same (18 + i) (omega arith)
                  ∙ f.payload i inside
                  ∙ sym (get_or-drop from frame i (from + i) 0 refl)
                  ∙ sym (get_or-take seg_len (drop from frame) i 0 inside)
              | no behind ↦
                  get_or_beyond (drop 18 d) i 0 (omega (arith, left))
                  ∙ sym (get_or_beyond (take seg_len (drop from frame)) i 0 (omega (arith, right)))
            ];
      }
