-- ===== src/Assembler/Safety/Widths.antt =====
-- The numbers of the assembler and of the frames that it hands out, in the C types of their fields.
use obs_st.Base.{
  [], List, ℕ, ◌<◌, ◌∷◌, ◌^◌, Ensures, ◌≤◌, arith, Ensures-bind, Ensures-if, Ensures-after,
  Ensures-ok, memset_zero, some, true, refl, ok, inl, inr, Bytes, ◌&&◌, ◌≡◌, Bool-cases, not, ◌+◌,
  ◌==◌, if◌then◌else◌, u16, u64,
}
use obs_st.Assembler.{Assembler, buf_size}
use obs_st.Types.{Frame, PixFmt}
use obs_st.Assembler.Packet.{
  Progress, check_marker, deliver_counted, Processed, accept_packet, check_seq, check_timestamp,
  store_segments, remember, seq_gap,
}
use obs_st.Assembler.Deliver.{deliver_frame, frame_of, timestamp_to_ns, swap_buffers}
use obs_st.Rtp.{RtpHeader}
use obs_st.Assembler.Safety.InOrder.{collect}
use obs_st.Assembler.Segments.{parse_headers, max_segments, copy_payloads}

-- The fields of `rx_frame_assembler_t` in their types.
pub record HasTypes (a : Assembler) : Type 0 where
  pub stride : a.fill_stride < 2 ^ 32
  pub width : a.width < 2 ^ 32
  pub height : a.height < 2 ^ 32
  pub seq : a.last_seq < 2 ^ 16
  pub ts : a.last_ts < 2 ^ 32
  pub number : a.frame_number < 2 ^ 32
  pub incomplete : a.delivered_incomplete ≤ 1
  pub timestamp : a.delivered_timestamp < 2 ^ 32

-- The fields of a frame in theirs; the time, of 64 bits, stays below 2 ^ 46 nanoseconds.
pub record IsTyped (f : Frame) : Type 0 where
  pub linesize : f.linesize < 2 ^ 32
  pub width : f.width < 2 ^ 32
  pub height : f.height < 2 ^ 32
  pub number : f.frame_number < 2 ^ 32
  pub time : f.timestamp_ns < 2 ^ 46

abbrev pub AreTyped : List Frame → Type 0
AreTyped [] = Unit {0}
AreTyped (f ∷ fs) = IsTyped f × AreTyped fs

abbrev pub Types : Assembler → List Frame → Type 0
Types a frames = HasTypes a × AreTyped frames

abbrev Progressed : Progress (List Frame) → Type 0
Progressed s = Types s.asm s.user

time-range : (timestamp : ℕ) → timestamp < 2 ^ 32 → timestamp_to_ns timestamp < 2 ^ 46
time-range timestamp h = omega arith

frame_of-IsTyped :
    (a : Assembler) (fmt : PixFmt) (timestamp : ℕ)
    → HasTypes a
    → timestamp < 2 ^ 32
    → IsTyped (frame_of a fmt timestamp)
frame_of-IsTyped a fmt timestamp h p = record {
  linesize = h.stride;
  width = h.width;
  height = h.height;
  number = h.number;
  time = time-range timestamp p;
}

-- What the function leaves, with a count of 64 bits.
pub record Typed (r : Processed (List Frame)) : Type 0 where
  pub asm : Assembler
  pub is_asm : r.asm ≡ some asm
  pub types : Types asm r.user
  pub lost : ℕ
  pub is_lost : r.lost ≡ some lost
  pub lost_range : lost < 2 ^ 64

module _ (fmt : PixFmt) where
  deliver_counted-Types :
      (s : Progress (List Frame)) (timestamp : ℕ)
      → Progressed s
      → timestamp < 2 ^ 32
      → Ensures (deliver_counted s collect fmt timestamp) Progressed
  unfolding deliver_counted deliver_frame
  deliver_counted-Types s timestamp (h, hs) p =
      Ensures-bind (λ (r : Assembler × List Frame). Types r.0 r.1) Progressed
        (deliver_frame s.asm collect s.user fmt timestamp) _
        (Ensures-after (λ r. Types r.0 r.1) (memset_zero s.asm.deliver_buf (buf_size s.asm)) _
          λ fill.
            Ensures-ok (λ r. Types r.0 r.1) _
              (
                ground (arith, h),
                (frame_of-IsTyped (swap_buffers s.asm) fmt timestamp (ground (arith, h)) p, hs),
              ))
        λ r kept. Ensures-ok Progressed _ kept

  check_marker-Types :
      (s : Progress (List Frame)) (header : RtpHeader)
      → Progressed s
      → header.timestamp < 2 ^ 32
      → Ensures (check_marker s collect fmt header) Progressed
  unfolding check_marker
  check_marker-Types s header h p =
      Ensures-if Progressed header.marker _ _
        (Ensures-bind Progressed Progressed (deliver_counted s collect fmt header.timestamp) _
          (deliver_counted-Types s header.timestamp h p)
          λ s' kept. Ensures-ok Progressed _ (ground (arith, kept.0), kept.1))
        (Ensures-ok Progressed s h)

  check_timestamp-Types :
      (s : Progress (List Frame)) (header : RtpHeader)
      → Progressed s
      → Ensures (check_timestamp s collect fmt header) Progressed
  unfolding check_timestamp
  check_timestamp-Types s header h =
      Ensures-if Progressed (s.asm.has_prev_packet && not (header.timestamp == s.asm.last_ts)) _ _
        (Ensures-bind Progressed Progressed
          (if not s.asm.frame_delivered && not header.marker
            then deliver_counted (record s { asm = record s.asm { frame_incomplete = true } })
                collect fmt s.asm.last_ts
            else ok s)
          _
          (Ensures-if Progressed (not s.asm.frame_delivered && not header.marker) _ _
            (deliver_counted-Types (record s { asm = record s.asm { frame_incomplete = true } })
              s.asm.last_ts (ground (arith, h.0), h.1) h.0.ts)
            (Ensures-ok Progressed s h))
          λ s' kept. Ensures-ok Progressed _ (ground (arith, kept.0), kept.1))
        (Ensures-ok Progressed s h)

  store_segments-Types :
      (a : Assembler) (pkt : Bytes) (p end : ℕ)
      → HasTypes a
      → Ensures (store_segments a pkt p end) HasTypes
  unfolding store_segments
  store_segments-Types a pkt p end h =
      Ensures-after HasTypes (parse_headers pkt end max_segments p []) _ λ headers.
        Ensures-after HasTypes
          (copy_payloads a pkt end headers.segments headers.payloads a.fill_buf) _
          λ fill. Ensures-ok HasTypes (record a { fill_buf = fill }) (ground (arith, h))

  check_seq-Types :
      (a : Assembler) (seq lost : ℕ)
      → HasTypes a
      → lost < 2 ^ 64
      → HasTypes (check_seq a seq (some lost)).0
        × (l : ℕ) × ((check_seq a seq (some lost)).1 ≡ some l)
        × (l < 2 ^ 64)
  unfolding check_seq
  check_seq-Types a seq lost h p =
      elim (Bool-cases (a.has_prev_packet && not (seq == u16 (a.last_seq + 1)))) [
        | inl gap ↦ rw gap (ground (arith, h), u64 (lost + seq_gap a seq), refl, omega arith)
        | inr none_missing ↦ rw none_missing (h, lost, refl, p)
      ]

  pub accept_packet-Types :
      (a : Assembler) (pkt : Bytes) (pkt_len : ℕ) (frames : List Frame) (lost : ℕ)
      (header : RtpHeader)
      → Types a frames
      → lost < 2 ^ 64
      → header.seq < 2 ^ 16
      → header.timestamp < 2 ^ 32
      → Ensures (accept_packet a pkt pkt_len collect frames fmt (some lost) header) Typed
  unfolding accept_packet
  accept_packet-Types a pkt pkt_len frames lost header (h, hs) range p q =
      let (checked, l, is_l, l_range) = check_seq-Types a header.seq lost h range in
      Ensures-bind Progressed Typed
        (check_timestamp
          (record { asm = (check_seq a header.seq (some lost)).0; user = frames; completed = 0 })
          collect fmt header)
        _ (check_timestamp-Types _ header (checked, hs))
        λ s kept.
          Ensures-bind HasTypes Typed
            (store_segments (remember s.asm header) pkt (header.payload + 2) pkt_len) _
            (store_segments-Types (remember s.asm header) pkt (header.payload + 2) pkt_len
              (ground (arith, kept.0, p, q)))
            λ stored kept'.
              Ensures-bind Progressed Typed
                (check_marker (record s { asm = stored }) collect fmt header) _
                (check_marker-Types (record s { asm = stored }) header (kept', kept.1) q)
                λ done kept''. Ensures-ok Typed _ (record {
                  asm = done.asm;
                  is_asm = refl;
                  types = kept'';
                  lost = l;
                  is_lost = is_l;
                  lost_range = l_range;
                })
