-- ===== src/Assembler/Safety/InOrder.antt =====
-- One packet that comes in order: the next sequence number, the same timestamp.
use obs_st.Base.{
  some, refl, subst, memset_zero, memset_zero-eq-ok, ℕ, refl, ◌+◌, ◌≤◌, ◌≡◌, arith, Bool, true,
  false, Option, some, List, ◌∷◌, Bytes, IsBytes, length, ok, ◌>>=◌, u16, ◌&&◌, ltb, not, ◌-◌, ◌==◌,
  replicate, inl, inr, if◌then◌else◌, ◌⊎◌, Bool-cases,
}
use obs_st.Types.{PixFmt, Frame, FrameCb}
use obs_st.Rtp.{RtpHeader}
use obs_st.Rtp.View.{view, parse_rtp_header-eq-view}
use obs_st.Assembler.{Assembler, IsReady, buf_size}
use obs_st.Assembler.Packet.{
  remember, rx_assembler_process_packet, accept_packet, check_seq, check_timestamp, check_marker,
  deliver_counted,
}
use obs_st.Assembler.Packet.{deliver_counted}
use obs_st.Assembler.Deliver.{deliver_frame, frame_of, swap_buffers}
use obs_st.Assembler.Safety.Frames.{delivered}
use obs_st.Assembler.Safety.Whole.{stored, store_segments-eq-stored, view_bounds, remember-IsReady}

-- A callback that keeps every frame, the latest first.
abbrev pub collect : FrameCb (List Frame)
collect frame frames = ok (frame ∷ frames)

-- A packet that goes on where the last one stopped: the next sequence number, and the same timestamp or,
-- where the last frame was delivered, any.
pub record IsNext (a : Assembler) (marker : Bool) (pkt : Bytes) (header : RtpHeader) : Type 0 where
  pub octets : IsBytes pkt
  pub parsed : view pkt (length pkt) ≡ some header
  pub long : header.payload + 2 ≤ length pkt
  pub mark : header.marker ≡ marker
  pub seq : a.has_prev_packet ≡ true → header.seq ≡ u16 (a.last_seq + 1)
  pub timestamp :
      a.has_prev_packet ≡ true → (header.timestamp ≡ a.last_ts) ⊎ (a.frame_delivered ≡ true)

-- Another timestamp begins a frame that was not delivered.
abbrev pub restarted : Assembler → RtpHeader → Assembler
restarted a header = record a {
  frame_delivered =
      if a.has_prev_packet && not (header.timestamp == a.last_ts) then false else a.frame_delivered;
}

-- The assembler behind such a packet.
abbrev pub advanced : Assembler → Bytes → RtpHeader → Assembler
advanced a pkt header =
    stored (remember (restarted a header) header) pkt (header.payload + 2) (length pkt)

no_alarm : (b : Bool) (x y : ℕ) → (b ≡ true → x ≡ y) → (b && not (x == y)) ≡ false
no_alarm true x y h = let e = h refl in ground arith
no_alarm false x y h = refl

check_seq-quiet :
    (a : Assembler) (seq : ℕ) (lost : Option ℕ)
    → (a.has_prev_packet ≡ true → seq ≡ u16 (a.last_seq + 1))
    → check_seq a seq lost ≡ (a, lost)
unfolding check_seq
check_seq-quiet a seq lost h = rw (no_alarm a.has_prev_packet seq (u16 (a.last_seq + 1)) h) refl

pub check_timestamp-quiet {ℓ} :
    {U : Type ℓ} (a : Assembler) (frame_cb : FrameCb U) (user : U) (fmt : PixFmt)
    (header : RtpHeader)
    → (a.has_prev_packet ≡ true → (header.timestamp ≡ a.last_ts) ⊎ (a.frame_delivered ≡ true))
    → check_timestamp (record { asm = a; user = user; completed = 0 }) frame_cb fmt header
      ≡ ok (record { asm = restarted a header; user = user; completed = 0 })
unfolding check_timestamp
check_timestamp-quiet a frame_cb user fmt header h =
    elim (Bool-cases (a.has_prev_packet && not (header.timestamp == a.last_ts))) [
      | inr same ↦ rw same refl
      | inl other ↦
          let is_delivered : a.frame_delivered ≡ true = ground (arith, h (ground arith)) in
          rw (other, is_delivered) refl
    ]

pub restarted-IsReady :
    {a : Assembler} (header : RtpHeader) → IsReady a → IsReady (restarted a header)
restarted-IsReady header r = ground arith

-- The assembler behind the marked packet of a frame.
abbrev pub closed : Assembler → Bytes → RtpHeader → Assembler
closed a pkt header = record (delivered (advanced a pkt header) header.timestamp) {
  frame_delivered = true;
}

module _ {ℓ} {U : Type ℓ} (a : Assembler) (frame_cb : FrameCb U) (user : U) (fmt : PixFmt)
    (lost : Option ℕ) (pkt : Bytes) (header : RtpHeader) (ready : IsReady a) where
  -- Up to the check of the marker, nothing is delivered and nothing is lost.
  reach_marker :
      (marker : Bool)
      → IsNext a marker pkt header
      → rx_assembler_process_packet (some a) (some pkt) (length pkt) (some frame_cb) user fmt lost
        ≡ (check_marker
              (record { asm = advanced a pkt header; user = user; completed = 0 })
              frame_cb
              fmt
              header
            >>= λ done. ok (record {
              asm = some done.asm;
              user = done.user;
              lost = lost;
              completed = done.completed;
            }))
  unfolding rx_assembler_process_packet accept_packet
  reach_marker marker next =
      let (seq_range, ts_range, inside) = view_bounds pkt (length pkt) next.octets next.parsed in
      let long : ltb (length pkt - header.payload) 2 ≡ false = ground (arith, next.long) in
      rw
        (
          parse_rtp_header-eq-view pkt (length pkt) next.octets (omega arith),
          next.parsed,
          long,
          check_seq-quiet a header.seq lost next.seq,
          check_timestamp-quiet a frame_cb user fmt header next.timestamp,
          store_segments-eq-stored (remember (restarted a header) header) pkt (header.payload + 2)
              (length pkt)
              (remember-IsReady header seq_range ts_range (restarted-IsReady header ready))
              next.octets (omega arith),
        )
        refl

  pub process_next :
      IsNext a false pkt header
      → rx_assembler_process_packet (some a) (some pkt) (length pkt) (some frame_cb) user fmt lost
        ≡ ok
            (record { asm = some (advanced a pkt header); user = user; lost = lost; completed = 0 })
  unfolding check_marker
  process_next next = rw (reach_marker false next, next.mark) refl

  pub process_last :
      (user' : U)
      → IsNext a true pkt header
      → frame_cb (frame_of (swap_buffers (advanced a pkt header)) fmt header.timestamp) user
        ≡ ok user'
      → rx_assembler_process_packet (some a) (some pkt) (length pkt) (some frame_cb) user fmt lost
        ≡ ok (record { asm = some (closed a pkt header); user = user'; lost = lost; completed = 1 })
  unfolding check_marker deliver_counted deliver_frame
  process_last user' next called =
      let clear : memset_zero a.deliver_buf (buf_size a) ≡ ok (replicate (length a.deliver_buf) 0) =
        subst (λ n. memset_zero a.deliver_buf n ≡ ok (replicate (length a.deliver_buf) 0))
          ready.deliver_holds (memset_zero-eq-ok a.deliver_buf) in
      rw (reach_marker true next, next.mark, called, clear) refl
