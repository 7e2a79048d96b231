-- ===== src/Sender/Mismatch.antt =====
-- The segment header of the test sender, where it writes it and where the receiver reads it.
use obs_st.Base.{
  refl, ℕ, refl, ◌+◌, ◌*◌, ◌/◌, ◌%◌, ◌^◌, ◌<◌, ◌≤◌, ◌≡◌, arith, Bool, true, false, Bytes, IsBytes,
  length, get_or, Returns, if◌then◌else◌, ◌∙◌, take, get_or-take,
}
use obs_st.Rtp.Reads.{be16}
use obs_st.Assembler.Safety.Segments.{segment_at}
use obs_st.Sender.{fill_packet}
use obs_st.Sender.Filled.{segment_split, fill_buffer-IsFilled}

module _ (seg_len line pixel_offset : ℕ) (continuation : Bool) (len_range : seg_len < 2 ^ 16)
    (line_range : line < 2 ^ 15) (offset_range : pixel_offset < 2 ^ 15) where
  continuation_low :
      (c : Bool)
      → (((if c then 128 else 0) + pixel_offset / 256) * 256 + pixel_offset % 256) % 2 ^ 15
        ≡ pixel_offset
  continuation_low true = omega arith
  continuation_low false = omega arith

  -- The octets of a packet from 12 on: the segment header and the segment.
  record IsSent (frame : Bytes) (from : ℕ) (out : Bytes) : Type 0 where
    header :
        (i : ℕ)
        → i < 6
        → get_or out (12 + i) 0 ≡ get_or (segment_split seg_len line pixel_offset continuation) i 0
    payload : (i : ℕ) → i < seg_len → get_or out (18 + i) 0 ≡ get_or frame (from + i) 0

  fill_packet-IsSent :
      (packet frame : Bytes) (from seq ts ssrc : ℕ) (is_last_packet : Bool)
      → IsBytes packet
      → ts < 2 ^ 32
      → ssrc < 2 ^ 32
      → 18 + seg_len ≤ length packet
      → from + seg_len ≤ length frame
      → Returns
          (fill_packet packet frame from seg_len seq ts ssrc is_last_packet line pixel_offset
            continuation)
          (IsSent frame from)
  unfolding fill_packet
  fill_packet-IsSent packet frame from seq ts ssrc is_last_packet octets ts_range ssrc_range room
        have =
      let (out, e, f) =
        fill_buffer-IsFilled seg_len line pixel_offset continuation len_range line_range
          offset_range packet frame from seq ts ssrc is_last_packet octets ts_range ssrc_range room
          have in
      (
        take (18 + seg_len) out,
        rw e refl,
        record {
          header = λ i lt. get_or-take (18 + seg_len) out (12 + i) 0 (omega arith) ∙ f.header i lt;
          payload =
              λ i lt. get_or-take (18 + seg_len) out (18 + i) 0 (omega arith) ∙ f.payload i lt;
        },
      )

  -- What the two readings of a packet find: the sender's, from octet 12 on, and the receiver's, which
  -- skips two octets first.
  pub record IsMisread (frame : Bytes) (from : ℕ) (out : Bytes) : Type 0 where
    pub meant :
        segment_at out 12
        ≡ record { line_no = line; pixel_offset = pixel_offset; seg_length = seg_len }
    pub found : segment_at out 14 ≡ record {
      line_no = pixel_offset;
      pixel_offset = be16 frame from % 2 ^ 15;
      seg_length = line;
    }

  -- Any packet of the test sender with at least two octets of a line, for a segment shorter than 2 ^ 16
  -- and a line and an offset below 2 ^ 15: at octet 12 it has the segment header that the sender means.
  -- At octet 14, where the receiver reads, since it skips an extended sequence number that the sender
  -- does not write, the length is the number of the line, the line is the offset, and the offset is
  -- picture data.
  pub fill_packet-IsMisread :
      (packet frame : Bytes) (from seq ts ssrc : ℕ) (is_last_packet : Bool)
      → IsBytes packet
      → ts < 2 ^ 32
      → ssrc < 2 ^ 32
      → 18 + seg_len ≤ length packet
      → from + seg_len ≤ length frame
      → 2 ≤ seg_len
      → Returns
          (fill_packet packet frame from seg_len seq ts ssrc is_last_packet line pixel_offset
            continuation)
          (IsMisread frame from)
  fill_packet-IsMisread packet frame from seq ts ssrc is_last_packet octets ts_range ssrc_range room
        have two =
      let (out, e, sent) =
        fill_packet-IsSent packet frame from seq ts ssrc is_last_packet octets ts_range ssrc_range
          room have in
      let from0 : from + 0 ≡ from = omega arith in
      let octet0 = sent.header 0 (omega arith) in
      let octet1 = sent.header 1 (omega arith) in
      let octet2 = sent.header 2 (omega arith) in
      let octet3 = sent.header 3 (omega arith) in
      let octet4 = sent.header 4 (omega arith) in
      let octet5 = sent.header 5 (omega arith) in
      let line_low : (line / 256 * 256 + line % 256) % 2 ^ 15 ≡ line = omega arith in
      let line_whole : line / 256 * 256 + line % 256 ≡ line = omega arith in
      let len_whole : seg_len / 256 * 256 + seg_len % 256 ≡ seg_len = omega arith in
      (
        out,
        e,
        record {
          meant =
              rw
                (
                  octet0,
                  octet1,
                  octet2,
                  octet3,
                  octet4,
                  octet5,
                  line_low,
                  len_whole,
                  continuation_low continuation,
                )
                refl;
          found =
              rw
                (
                  octet2,
                  octet3,
                  octet4,
                  octet5,
                  line_whole,
                  continuation_low continuation,
                  sent.payload 0 (omega arith),
                  sent.payload 1 (omega arith),
                  from0,
                )
                refl;
        },
      )
