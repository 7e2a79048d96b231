-- ===== src/Receiver/Showing.antt =====
-- One packet of a frame in sequence, at a live receiver: what it does to the picture and the callback.
use obs_st.Base.{
  ℕ, zero, suc, refl, ◌+◌, ◌<◌, ◌≤◌, ◌≡◌, arith, true, false, some, [], ◌∷◌, ◌++◌, Bytes, IsBytes,
  length, take, drop, splice, memcpy-eq-ok, ok, Ensures, Ensures-after, Ensures-ok, ap, ◌==◌,
}
use obs_st.Stats.{Floats, rx_stats_packet}
use obs_st.Rtp.{RtpHeader, extract_rtp_timestamp}
use obs_st.Assembler.{Assembler, IsReady}
use obs_st.Assembler.Deliver.{frame_of, swap_buffers}
use obs_st.Assembler.Safety.InOrder.{IsNext, advanced, closed, process_next, process_last}
use obs_st.Assembler.Safety.Prefix.{process_packet-prefix}
use obs_st.Receiver.{Rx}
use obs_st.Receiver.Frames.{Sink, rx_internal_frame_cb}
use obs_st.Receiver.Packet.{rx_process_packet, receive, account}

take_whole : (n : ℕ) (xs : Bytes) → length xs ≤ n → take n xs ≡ xs
take_whole zero [] h = refl
take_whole (suc n) [] h = refl
take_whole zero (x ∷ xs) h = absurd (omega arith)
take_whole (suc n) (x ∷ xs) h = ap (◌∷◌ x) (take_whole n xs (omega arith))

-- A packet in front of what an earlier one left in the buffer.
splice_front : (dst src : Bytes) → splice dst 0 src 0 (length src) ≡ src ++ drop (length src) dst
unfolding splice
splice_front dst src =
    let e : 0 + length src ≡ length src = omega arith in
    rw (e, take_whole (length src) src (omega arith)) refl

module _ {F : Floats} {X : Type 0} where
  -- A receiver with the assembler `a`, and the user's state `x`.
  abbrev pub Leaves : Assembler → X → Rx F X × X → Type 0
  Leaves a x r = (r.0.assembler ≡ a) × (r.1 ≡ x)

  -- `recvfrom` puts the packet in front of the buffer.
  pub receive-eq :
      (rx : Rx F X) (user : X) (pkt : Bytes) (now_us : ℕ)
      → 0 < length pkt
      → length pkt ≤ rx.pkt_buf_size
      → rx.pkt_buf_size ≡ length rx.pkt_buf
      → let buf = pkt ++ drop (length pkt) rx.pkt_buf in
        receive F rx user pkt now_us
        ≡ rx_process_packet F (record rx { pkt_buf = buf }) user buf (length pkt) now_us
  unfolding receive
  receive-eq rx user pkt now_us some_octets fit holds =
      let some_length : (length pkt == 0) ≡ false = ground arith in
      rw
        (
          take_whole rx.pkt_buf_size pkt fit,
          some_length,
          memcpy-eq-ok rx.pkt_buf 0 pkt 0 (length pkt) (omega arith) (omega arith),
          splice_front rx.pkt_buf pkt,
        )
        refl

  module _ (rx : Rx F X) (user : X) (pkt rest : Bytes) (now_us : ℕ) (header : RtpHeader)
      (octets : IsBytes pkt) (more_octets : IsBytes rest) (ready : IsReady rx.assembler) where
    -- A packet that does not end its frame is stored, and the callback is not called.
    pub process_packet-next :
        IsNext rx.assembler false pkt header
        → Ensures
            (rx_process_packet F rx user (pkt ++ rest) (length pkt) now_us)
            (Leaves (advanced rx.assembler pkt header) user)
    unfolding rx_process_packet account
    process_packet-next next =
        Ensures-after (Leaves (advanced rx.assembler pkt header) user)
          (extract_rtp_timestamp (some (pkt ++ rest)) (length pkt)) _
          λ t.
            Ensures-after (Leaves (advanced rx.assembler pkt header) user)
              (rx_stats_packet F rx.stats t now_us) _
              λ stats.
                rw
                  (
                    process_packet-prefix pkt rest octets more_octets rx.assembler
                        (rx_internal_frame_cb rx.config rx.convert_stride)
                        (record { convert_buf = rx.convert_buf; user = user }) rx.config.input_fmt
                        (some 0),
                    process_next rx.assembler (rx_internal_frame_cb rx.config rx.convert_stride)
                        (record { convert_buf = rx.convert_buf; user = user }) rx.config.input_fmt
                        (some 0) pkt header ready next,
                  )
                  (Ensures-ok (Leaves (advanced rx.assembler pkt header) user) _ (refl, refl))

    -- A packet that ends its frame, for a callback inside the receiver that leaves `sink'`.
    pub process_packet-last :
        (sink' : Sink X)
        → IsNext rx.assembler true pkt header
        → rx_internal_frame_cb rx.config rx.convert_stride
            (frame_of
              (swap_buffers (advanced rx.assembler pkt header))
              rx.config.input_fmt
              header.timestamp)
            (record { convert_buf = rx.convert_buf; user = user })
          ≡ ok sink'
        → Ensures
            (rx_process_packet F rx user (pkt ++ rest) (length pkt) now_us)
            (Leaves (closed rx.assembler pkt header) sink'.user)
    unfolding rx_process_packet account
    process_packet-last sink' next called =
        Ensures-after (Leaves (closed rx.assembler pkt header) sink'.user)
          (extract_rtp_timestamp (some (pkt ++ rest)) (length pkt)) _
          λ t.
            Ensures-after (Leaves (closed rx.assembler pkt header) sink'.user)
              (rx_stats_packet F rx.stats t now_us) _
              λ stats.
                rw
                  (
                    process_packet-prefix pkt rest octets more_octets rx.assembler
                        (rx_internal_frame_cb rx.config rx.convert_stride)
                        (record { convert_buf = rx.convert_buf; user = user }) rx.config.input_fmt
                        (some 0),
                    process_last rx.assembler (rx_internal_frame_cb rx.config rx.convert_stride)
                        (record { convert_buf = rx.convert_buf; user = user }) rx.config.input_fmt
                        (some 0) pkt header ready sink' next called,
                  )
                  (Ensures-ok (Leaves (closed rx.assembler pkt header) sink'.user) _ (refl, refl))
