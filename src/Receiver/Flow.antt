-- ===== src/Receiver/Flow.antt =====
-- `rx_process_packet` at a live receiver.
use obs_st.Base.{
  ℕ, refl, ◌+◌, ◌^◌, ◌%◌, ◌<◌, ◌≤◌, ◌≡◌, ◌⊎◌, inl, inr, arith, Option, some, length, Returns,
  Bool-cases, Bytes, IsBytes, ltb, ltb→le, get_or-IsByte, sym, ◌∙◌, ap,
}
use obs_st.Types.{FrameCb}
use obs_st.Assembler.Packet.{Processed}
use obs_st.Rtp.{extract_rtp_timestamp}
use obs_st.Rtp.Reads.{read_be32-eq-ok, be32}
use obs_st.Assembler.Safety.Whole.{process_packet-Sound}
use obs_st.Stats.{Floats, rx_stats_lost, rx_stats_frame}
use obs_st.Stats.Jitter.{rx_stats_packet-IsCounted}
use obs_st.Receiver.{Rx, StatsState, Assembler}
use obs_st.Receiver.Frames.{Sink, rx_internal_frame_cb}
use obs_st.Receiver.Packet.{rx_process_packet, account, count_lost, count_frames}
use obs_st.Receiver.Live.{IsLive}
use obs_st.Receiver.Stream.{Accepts, Holds, internal_frame_cb-SinkOk}

extract_rtp_timestamp-Returns :
    (pkt : Bytes) (n : ℕ)
    → IsBytes pkt
    → n ≤ length pkt
    → Returns (extract_rtp_timestamp (some pkt) n) (λ t. t < 2 ^ 32)
unfolding extract_rtp_timestamp
extract_rtp_timestamp-Returns pkt n octets inside = elim (Bool-cases (ltb n 8)) [
  | inl short ↦ rw short (0, refl, omega arith)
  | inr long ↦
      let room = ltb→le n 8 long in
      rw (long, read_be32-eq-ok pkt 4 octets (omega arith))
        (
          be32 pkt 4,
          refl,
          omega (
            arith,
            get_or-IsByte pkt 4 octets,
            get_or-IsByte pkt 5 octets,
            get_or-IsByte pkt 6 octets,
            get_or-IsByte pkt 7 octets,
          ),
        )
]

-- The later counts leave the packet's own count alone, and count one frame at most.
record IsTallied {F : Floats} (before after : StatsState F) : Type 0 where
  packets_same : after.packets_received ≡ before.packets_received
  ts_same : after.last_rtp_ts ≡ before.last_rtp_ts
  arrival_same : after.last_arrival_us ≡ before.last_arrival_us
  frames_next :
      (after.frames_received ≡ before.frames_received)
      ⊎ (after.frames_received ≡ (before.frames_received + 1) % 2 ^ 64)

count-IsTallied :
    {F : Floats} (s : StatsState F) (lost : Option ℕ) (asm : Assembler) (completed : ℕ)
    → IsTallied s (count_frames F (count_lost F s lost) asm completed)
unfolding rx_stats_lost rx_stats_frame
count-IsTallied s lost asm completed = ground arith

module _ {κ} {F : Floats} {X : Type 0} (rx : Rx F X) (live : IsLive rx.config rx)
    (frame_cb : FrameCb X) (is_cb : rx.config.frame_cb ≡ some frame_cb) (K : X → Type κ)
    (accepts : Accepts rx.config frame_cb K) where
  -- What a packet leaves: a live receiver, a user's state that is kept, and one packet and at most one
  -- frame more in the statistics.
  pub record IsServed (now_us : ℕ) (r : Rx F X × X) : Type κ where
    pub live_after : IsLive rx.config r.0
    pub kept : K r.1
    pub arrived : r.0.stats.last_arrival_us ≡ now_us
    pub packets : r.0.stats.packets_received ≡ (rx.stats.packets_received + 1) % 2 ^ 64
    pub frames :
        (r.0.stats.frames_received ≡ rx.stats.frames_received)
        ⊎ (r.0.stats.frames_received ≡ (rx.stats.frames_received + 1) % 2 ^ 64)

  abbrev accounted : StatsState F → Processed (Sink X) → Assembler → Rx F X
  accounted stats r asm = record rx {
    assembler = asm;
    convert_buf = r.user.convert_buf;
    stats = count_frames F (count_lost F stats r.lost) asm r.completed;
  }

  account-eq :
      (stats : StatsState F) (r : Processed (Sink X)) (asm : Assembler)
      → r.asm ≡ some asm
      → account F rx stats r ≡ (accounted stats r asm, r.user.user)
  unfolding account
  account-eq stats r asm e = ground arith

  pub process_packet-IsServed :
      (user : X) (pkt : Bytes) (n now_us : ℕ)
      → IsBytes pkt
      → n ≤ length pkt
      → rx.stats.last_arrival_us ≤ now_us
      → now_us < 2 ^ 63
      → K user
      → Returns (rx_process_packet F rx user pkt n now_us) (IsServed now_us)
  unfolding rx_process_packet
  process_packet-IsServed user pkt n now_us octets inside monotone range k =
      let (t, e, t_range) = extract_rtp_timestamp-Returns pkt n octets inside in
      let (stats, e', counted) =
        rx_stats_packet-IsCounted F rx.stats t now_us t_range live.stats_range monotone range in
      let (r, e'', sound) =
        process_packet-Sound rx.assembler rx.config.input_fmt
          (rx_internal_frame_cb rx.config rx.convert_stride) (Holds rx.config K rx.convert_stride)
          (λ f sink whole h.
            internal_frame_cb-SinkOk rx.config frame_cb K accepts rx.assembler live.ready
              live.asm_width live.asm_height live.asm_pgroup rx.convert_stride live.stride f sink
              whole h is_cb)
          pkt n (record { convert_buf = rx.convert_buf; user = user }) (some 0) live.ready octets
          inside (record { holds = live.convert_holds; kept = k }) in
      let tally = count-IsTallied stats r.lost sound.asm r.completed in
      (
        (accounted stats r sound.asm, r.user.user),
        rw (e, e', e'', account-eq stats r sound.asm sound.is_asm) refl,
        record {
          live_after = record {
            same_config = refl;
            ready = sound.ready;
            asm_width = sym sound.shape.same_width ∙ live.asm_width;
            asm_height = sym sound.shape.same_height ∙ live.asm_height;
            asm_pgroup = live.asm_pgroup ∙ ap some sound.shape.same_pgroup;
            stride = live.stride;
            convert_holds = sound.user_kept.holds;
            pkt_holds = live.pkt_holds;
            pkt_room = live.pkt_room;
            pkt_octets = live.pkt_octets;
            stats_range = omega (arith, tally.ts_same, counted.remembered.0);
          };
          kept = sound.user_kept.kept;
          arrived = tally.arrival_same ∙ counted.remembered.1;
          packets = tally.packets_same ∙ counted.packets;
          frames = ground (arith, tally.frames_next, counted.others.0);
        },
      )
