-- ===== src/Assembler/Safety/Whole.antt =====
-- A whole packet: the check of the sequence number, the segments and the frame's ends together.
use obs_st.Base.{
  ℕ, ◌+◌, ◌-◌, ◌^◌, ◌≤◌, ◌<◌, ◌≡◌, refl, ◌∙◌, sym, arith, Option, some, length, [], Bytes, IsBytes,
  get_or-IsByte, ok, Returns, Returns-bind, ltb, Bool-cases, Option-cases, inl, inr,
}
use obs_st.Types.{FrameCb, PixFmt, Frame}
use obs_st.Rtp.{RtpHeader}
use obs_st.Rtp.View.{view, parse_rtp_header-eq-view}
use obs_st.Assembler.{Assembler, IsReady}
use obs_st.Assembler.Packet.{
  Processed, check_seq, remember, store_segments, accept_packet, ignored,
  rx_assembler_process_packet,
}
use obs_st.Assembler.Safety.Segments.{
  headers_view, parse_headers-eq-view, painted, copy_payloads-eq-painted, length-painted,
  IsBytes-painted, segment_limit, picture_size-eq-buf_size,
}
use obs_st.Assembler.Safety.Frames.{
  IsWhole, SameShape, SameShape-refl, check_timestamp-Keeps, check_marker-Keeps,
}

-- The assembler once the segments from `payload` on are stored.
abbrev pub stored : Assembler → Bytes → ℕ → ℕ → Assembler
stored a pkt payload end =
    let headers = headers_view pkt end segment_limit payload [] in
    record a { fill_buf = painted a pkt end headers.segments headers.payloads a.fill_buf }

-- For a ready assembler and octets that are all there, the block that stores the segments makes no
-- access out of bounds: it reads headers of RFC 4175 until one is not continued, drops the packet
-- at the ninth header or a short one, and copies each payload that lies inside the picture to the line
-- and the group that its header names: line n begins behind n lines of a group for every two pixels.
pub store_segments-eq-stored :
    (a : Assembler) (pkt : Bytes) (payload end : ℕ)
    → IsReady a
    → IsBytes pkt
    → end ≤ length pkt
    → store_segments a pkt payload end ≡ ok (stored a pkt payload end)
unfolding store_segments
store_segments-eq-stored a pkt payload end ready octets inside =
    let headers = headers_view pkt end segment_limit payload [] in
    rw
      (
        parse_headers-eq-view pkt end octets inside segment_limit payload [],
        copy_payloads-eq-painted a pkt end inside headers.segments headers.payloads a.fill_buf ready
            (ready.fill_holds ∙ sym (picture_size-eq-buf_size ready)),
      )
      refl

pub stored-IsReady :
    {a : Assembler} (pkt : Bytes) (payload end : ℕ)
    → IsBytes pkt
    → end ≤ length pkt
    → IsReady a
    → IsReady (stored a pkt payload end)
stored-IsReady {a} pkt payload end octets inside r =
    let headers = headers_view pkt end segment_limit payload [] in
    ground (
      arith,
      length-painted a pkt end inside headers.segments headers.payloads a.fill_buf
          (r.fill_holds ∙ sym (picture_size-eq-buf_size r)),
      picture_size-eq-buf_size r,
      IsBytes-painted a pkt end inside headers.segments headers.payloads a.fill_buf octets
          r.fill_octets,
    )

pub stored-SameShape :
    {a : Assembler} (b : Assembler) (header : RtpHeader) (pkt : Bytes) (payload end : ℕ)
    → SameShape a b
    → SameShape a (stored (remember b header) pkt payload end)
stored-SameShape b header pkt payload end shape = ground arith

-- The numbers of a parsed header fit their fields, and the header ends inside the packet.
pub view_bounds :
    (pkt : Bytes) (len : ℕ) {header : RtpHeader}
    → IsBytes pkt
    → view pkt len ≡ some header
    → (header.seq < 2 ^ 16) × (header.timestamp < 2 ^ 32) × (header.payload ≤ len)
view_bounds pkt len octets e = ground (
  arith,
  get_or-IsByte pkt 2 octets,
  get_or-IsByte pkt 3 octets,
  get_or-IsByte pkt 4 octets,
  get_or-IsByte pkt 5 octets,
  get_or-IsByte pkt 6 octets,
  get_or-IsByte pkt 7 octets,
)

pub check_seq-IsReady :
    {a : Assembler} (seq : ℕ) (lost : Option ℕ) → IsReady a → IsReady (check_seq a seq lost).0
unfolding check_seq
check_seq-IsReady seq lost r = ground arith

pub check_seq-SameShape :
    (a : Assembler) (seq : ℕ) (lost : Option ℕ) → SameShape a (check_seq a seq lost).0
unfolding check_seq
check_seq-SameShape a seq lost = ground arith

pub remember-IsReady :
    {a : Assembler} (header : RtpHeader)
    → header.seq < 2 ^ 16
    → header.timestamp < 2 ^ 32
    → IsReady a
    → IsReady (remember a header)
remember-IsReady header p q r = ground arith

module _ {ℓ κ} {U : Type ℓ} (a : Assembler) (fmt : PixFmt) (frame_cb : FrameCb U) (J : U → Type κ)
    (accepts : (f : Frame) (u : U) → IsWhole a fmt f → J u → Returns (frame_cb f u) J) where
  -- What a packet leaves: a ready assembler of the same dimensions, and at most one frame more.
  pub record Sound (r : Processed U) : Type κ where
    pub asm : Assembler
    pub is_asm : r.asm ≡ some asm
    pub ready : IsReady asm
    pub shape : SameShape a asm
    pub user_kept : J r.user
    pub few : r.completed ≤ 1

  accept_packet-Sound :
      (pkt : Bytes) (pkt_len : ℕ) (u : U) (lost : Option ℕ) (header : RtpHeader)
      → IsReady a
      → IsBytes pkt
      → pkt_len ≤ length pkt
      → header.seq < 2 ^ 16
      → header.timestamp < 2 ^ 32
      → J u
      → Returns (accept_packet a pkt pkt_len frame_cb u fmt lost header) Sound
  unfolding accept_packet
  accept_packet-Sound pkt pkt_len u lost header ready octets inside p q j =
      Returns-bind
        (check_timestamp-Keeps a fmt frame_cb J accepts header (record {
          ready = check_seq-IsReady header.seq lost ready;
          shape = check_seq-SameShape a header.seq lost;
          user_kept = j;
          few = omega arith;
        }))
        λ s k.
          let r = remember-IsReady header p q k.ready in
          rw
            (store_segments-eq-stored (remember s.asm header) pkt (header.payload + 2) pkt_len r
              octets inside)
            (Returns-bind
              (check_marker-Keeps a fmt frame_cb J accepts header (record {
                ready = stored-IsReady pkt (header.payload + 2) pkt_len octets inside r;
                shape = stored-SameShape s.asm header pkt (header.payload + 2) pkt_len k.shape;
                user_kept = k.user_kept;
                few = k.few;
              }))
              λ t k'. (
                _,
                refl,
                record {
                  asm = t.asm;
                  is_asm = refl;
                  ready = k'.ready;
                  shape = k'.shape;
                  user_kept = k'.user_kept;
                  few = k'.few;
                },
              ))

  -- For a ready assembler, a packet of octets whose length is inside its buffer, and a callback that
  -- returns for every frame whose plane holds the picture, `rx_assembler_process_packet` makes no
  -- access out of bounds; it leaves a ready assembler of the same dimensions, keeps what the callback
  -- keeps, and completes at most one frame.
  pub process_packet-Sound :
      (pkt : Bytes) (pkt_len : ℕ) (u : U) (lost : Option ℕ)
      → IsReady a
      → IsBytes pkt
      → pkt_len ≤ length pkt
      → J u
      → Returns
          (rx_assembler_process_packet (some a) (some pkt) pkt_len (some frame_cb) u fmt lost)
          Sound
  unfolding rx_assembler_process_packet
  process_packet-Sound pkt pkt_len u lost ready octets inside j =
      rw (parse_rtp_header-eq-view pkt pkt_len octets inside)
        (elim (Option-cases (view pkt pkt_len)) [
          | inl bad ↦ rw bad (_, refl, untouched)
          | inr (header, good) ↦
              let (p, q, _) = view_bounds pkt pkt_len octets good in
              rw good (elim (Bool-cases (ltb (pkt_len - header.payload) 2)) [
                | inl short ↦ rw short (_, refl, untouched)
                | inr long ↦
                    rw long
                      (accept_packet-Sound pkt pkt_len u lost header ready octets inside p q j)
              ])
        ])
    where
      untouched : Sound (ignored (some a) u lost)
      untouched = record {
        asm = a;
        is_asm = refl;
        ready = ready;
        shape = SameShape-refl a;
        user_kept = j;
        few = omega arith;
      }
