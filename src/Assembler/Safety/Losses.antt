-- ===== src/Assembler/Safety/Losses.antt =====
-- The count of lost packets over a sequence of packets with gaps.
use obs_st.Base.{
  ℕ, refl, ◌+◌, ◌-◌, ◌^◌, ◌<◌, ◌≤◌, ◌≡◌, arith, true, some, Option, List, [], ◌∷◌, Bytes, IsBytes,
  length, u16, u64, Returns, Returns-both, Ensures, Ensures-after, Ensures-bind, Ensures-ok,
  Ensures-if, ◌∙◌, memset_zero, false, ap, ltb, subst,
}
use obs_st.Types.{Frame, FrameCb, PixFmt}
use obs_st.Rtp.{RtpHeader}
use obs_st.Rtp.View.{view, parse_rtp_header-eq-view}
use obs_st.Assembler.{Assembler, IsReady, buf_size}
use obs_st.Assembler.Deliver.{deliver_frame, frame_of, swap_buffers}
use obs_st.Assembler.Packet.{
  Processed, Progress, check_seq, check_marker, check_timestamp, deliver_counted, store_segments,
  remember, accept_packet, rx_assembler_process_packet,
}
use obs_st.Assembler.Safety.Whole.{process_packet-Sound}
use obs_st.Assembler.Safety.InOrder.{collect}
use obs_st.Assembler.Safety.Frame.{feed}
use obs_st.Assembler.Segments.{parse_headers, max_segments, copy_payloads}

-- A packet that is not too short.
pub record IsAccepted (pkt : Bytes) (header : RtpHeader) : Type 0 where
  pub octets : IsBytes pkt
  pub parsed : view pkt (length pkt) ≡ some header
  pub long : header.payload + 2 ≤ length pkt

-- The sequence number stays.
abbrev SameSeq : Assembler → Assembler → Type 0
SameSeq a b = (b.last_seq ≡ a.last_seq) × (b.has_prev_packet ≡ a.has_prev_packet)

store_segments-SameSeq :
    (a : Assembler) (pkt : Bytes) (p end : ℕ) → Ensures (store_segments a pkt p end) (SameSeq a)
unfolding store_segments
store_segments-SameSeq a pkt p end =
    Ensures-after (SameSeq a) (parse_headers pkt end max_segments p []) _ λ headers.
      Ensures-after (SameSeq a)
        (copy_payloads a pkt end headers.segments headers.payloads a.fill_buf) _
        λ fill. Ensures-ok (SameSeq a) (record a { fill_buf = fill }) (refl, refl)

module _ {ℓ} {U : Type ℓ} (frame_cb : FrameCb U) (fmt : PixFmt) where
  abbrev SameSeqs : Assembler → Progress U → Type 0
  SameSeqs a s = SameSeq a s.asm

  deliver_frame-SameSeq :
      (a : Assembler) (user : U) (timestamp : ℕ)
      → Ensures (deliver_frame a frame_cb user fmt timestamp) (λ r. SameSeq a r.0)
  unfolding deliver_frame
  deliver_frame-SameSeq a user timestamp =
      Ensures-after (λ r. SameSeq a r.0) (frame_cb (frame_of (swap_buffers a) fmt timestamp) user) _
        λ user'.
          Ensures-after (λ r. SameSeq a r.0) (memset_zero a.deliver_buf (buf_size a)) _
            λ fill. Ensures-ok (λ r. SameSeq a r.0) _ (refl, refl)

  deliver_counted-SameSeq :
      (s : Progress U) (timestamp : ℕ)
      → Ensures (deliver_counted s frame_cb fmt timestamp) (SameSeqs s.asm)
  unfolding deliver_counted
  deliver_counted-SameSeq s timestamp =
      Ensures-bind (λ (r : Assembler × U). SameSeq s.asm r.0) (SameSeqs s.asm)
        (deliver_frame s.asm frame_cb s.user fmt timestamp) _
        (deliver_frame-SameSeq s.asm s.user timestamp) λ r kept. Ensures-ok (SameSeqs s.asm) _ kept

  check_marker-SameSeq :
      (s : Progress U) (header : RtpHeader)
      → Ensures (check_marker s frame_cb fmt header) (SameSeqs s.asm)
  unfolding check_marker
  check_marker-SameSeq s header =
      Ensures-if (SameSeqs s.asm) header.marker _ _
        (Ensures-bind (SameSeqs s.asm) (SameSeqs s.asm)
          (deliver_counted s frame_cb fmt header.timestamp) _
          (deliver_counted-SameSeq s header.timestamp)
          λ s' kept. Ensures-ok (SameSeqs s.asm) _ kept)
        (Ensures-ok (SameSeqs s.asm) s (refl, refl))

  -- What an accepted packet leaves: its own sequence number, and the count of lost packets.
  abbrev Counted : RtpHeader → Option ℕ → Processed U → Type 0
  Counted header lost r =
      (b : Assembler) × (r.asm ≡ some b)
      × (b.last_seq ≡ header.seq)
      × (b.has_prev_packet ≡ true)
      × (r.lost ≡ lost)

  accept_packet-Counted :
      (a : Assembler) (pkt : Bytes) (pkt_len : ℕ) (user : U) (lost : Option ℕ) (header : RtpHeader)
      → Ensures
          (accept_packet a pkt pkt_len frame_cb user fmt lost header)
          (Counted header (check_seq a header.seq lost).1)
  unfolding accept_packet
  accept_packet-Counted a pkt pkt_len user lost header =
      let lost' = (check_seq a header.seq lost).1 in
      let Q = λ (r : Processed U). Counted header lost' r in
      Ensures-after Q
        (check_timestamp
          (record { asm = (check_seq a header.seq lost).0; user = user; completed = 0 }) frame_cb
          fmt header)
        _
        λ s.
          Ensures-bind (SameSeq (remember s.asm header)) Q
            (store_segments (remember s.asm header) pkt (header.payload + 2) pkt_len) _
            (store_segments-SameSeq (remember s.asm header) pkt (header.payload + 2) pkt_len)
            λ stored kept.
              Ensures-bind (SameSeqs stored) Q
                (check_marker (record s { asm = stored }) frame_cb fmt header) _
                (check_marker-SameSeq (record s { asm = stored }) header)
                λ done kept'.
                  Ensures-ok Q _ (done.asm, refl, kept'.0 ∙ kept.0, kept'.1 ∙ kept.1, refl)

module _ (a : Assembler) (pkt : Bytes) (frames : List Frame) (fmt : PixFmt) (lost : Option ℕ)
    (header : RtpHeader) (accepted : IsAccepted pkt header) where
  process_packet-Counted :
      Ensures
        (rx_assembler_process_packet
          (some a)
          (some pkt)
          (length pkt)
          (some collect)
          frames
          fmt
          lost)
        (Counted collect fmt header (check_seq a header.seq lost).1)
  unfolding rx_assembler_process_packet
  process_packet-Counted =
      let long : ltb (length pkt - header.payload) 2 ≡ false = ground (arith, accepted.long) in
      rw
        (
          parse_rtp_header-eq-view pkt (length pkt) accepted.octets (omega arith),
          accepted.parsed,
          long,
        )
        (accept_packet-Counted collect fmt a pkt (length pkt) frames lost header)

  -- Such a packet is served, with a ready assembler behind it.
  process_packet-Returns :
      IsReady a
      → Returns
          (rx_assembler_process_packet
            (some a)
            (some pkt)
            (length pkt)
            (some collect)
            frames
            fmt
            lost)
          (λ r.
            (b : Assembler) × IsReady b
            × (r.asm ≡ some b)
            × (b.last_seq ≡ header.seq)
            × (b.has_prev_packet ≡ true)
            × (r.lost ≡ (check_seq a header.seq lost).1))
  process_packet-Returns ready =
      let (r, e, (sound, (b, is_b, seq, prev, counted))) =
        Returns-both _
          (process_packet-Sound a fmt collect (λ u. Unit {0}) (λ f u whole k. (_, refl, tt)) pkt
            (length pkt) frames lost ready accepted.octets (omega arith) tt)
          process_packet-Counted in
      let same : sound.asm ≡ b = cc (sound.is_asm) in
      (r, e, (b, subst IsReady same sound.ready, is_b, seq, prev, counted))

-- The numbers of 16 bits, counted on: e behind the last packet, and those of the packets to come.
lost_between :
    (e e' l : ℕ) (a : Assembler)
    → a.has_prev_packet ≡ true
    → a.last_seq ≡ u16 e
    → e < e'
    → e' ≤ e + 2 ^ 16
    → l < 2 ^ 64
    → (check_seq a (u16 e') (some l)).1 ≡ some (u64 (l + (e' - e - 1)))
unfolding check_seq
lost_between e e' l a prev last later near range = ground arith

-- Packets with their headers and their numbers, counted on beyond 16 bits: each is later than the one
-- before it, by 2 ^ 16 at most.
abbrev pub IsStream : ℕ → List Bytes → List ℕ → Type 0
IsStream e [] [] = Unit {0}
IsStream e (pkt ∷ pkts) (e' ∷ es) =
    ((header : RtpHeader) × IsAccepted pkt header × (header.seq ≡ u16 e'))
    × (e < e')
    × (e' ≤ e + 2 ^ 16)
    × IsStream e' pkts es
IsStream e [] (e' ∷ es) = ⊥
IsStream e (pkt ∷ pkts) [] = ⊥

-- The last of the numbers.
abbrev pub last_of : ℕ → List ℕ → ℕ
last_of e [] = e
last_of e (e' ∷ es) = last_of e' es

last_of-le :
    (e : ℕ) (pkts : List Bytes) (es : List ℕ) → IsStream e pkts es → e + length pkts ≤ last_of e es
last_of-le e [] [] s = omega arith
last_of-le e (pkt ∷ pkts) (e' ∷ es) (h, later, near, s) = omega (arith, last_of-le e' pkts es s)
last_of-le e [] (e' ∷ es) s = absurd s
last_of-le e (pkt ∷ pkts) [] s = absurd s

-- Packets of octets that are not too short, whose sequence numbers, counted on beyond 16 bits, follow the
-- last one and grow by 2 ^ 16 at most from one to the next, at a ready assembler that has seen a packet:
-- the calls of rx_assembler_process_packet return, and add to the count of lost packets the numbers
-- between the first and the last that no packet has, whatever the packets hold.
pub feed-CountsLost :
    (pkts : List Bytes) (es : List ℕ) (e l : ℕ) (a : Assembler) (before : Processed (List Frame))
    (fmt : PixFmt)
    → before.asm ≡ some a
    → before.lost ≡ some l
    → IsReady a
    → a.has_prev_packet ≡ true
    → a.last_seq ≡ u16 e
    → l < 2 ^ 64
    → IsStream e pkts es
    → Returns
        (feed fmt before pkts)
        (λ r. r.lost ≡ some (u64 (l + (last_of e es - e - length pkts))))
feed-CountsLost [] [] e l a before fmt is_a is_l ready prev last range s =
    (before, refl, is_l ∙ ap some (omega arith))
feed-CountsLost (pkt ∷ pkts) (e' ∷ es) e l a before fmt is_a is_l ready prev last range
      ((header, accepted, seq), later, near, s) =
    let (r, run, (b, ready', is_b, seq', prev', counted)) =
      process_packet-Returns a pkt before.user fmt (some l) header accepted ready in
    let lost' = u64 (l + (e' - e - 1)) in
    let is_lost : r.lost ≡ some lost' =
      counted ∙ rw seq (lost_between e e' l a prev last later near range) in
    let (r', run', total) =
      feed-CountsLost pkts es e' lost' b (record r { completed = before.completed + r.completed })
        fmt is_b is_lost ready' prev' (seq' ∙ seq) (omega arith) s in
    (r', rw (is_a, is_l, run) run', total ∙ ap some (omega (arith, last_of-le e' pkts es s)))
feed-CountsLost [] (e' ∷ es) e l a before fmt is_a is_l ready prev last range s = absurd s
feed-CountsLost (pkt ∷ pkts) [] e l a before fmt is_a is_l ready prev last range s = absurd s
