-- ===== src/Receiver/Packet.antt =====
-- `rx_process_packet` of libst2110rx/src/rx_core.c, and the loop that feeds it.
use obs_st.Base.{
  ℕ, not, Option, none, some, List, [], ◌∷◌, Bytes, Exec, ok, ◌>>=◌, ltb, ◌==◌, if◌then◌else◌, take,
  length, memcpy,
}
use obs_st.Rtp.{extract_rtp_timestamp}
use obs_st.Assembler.{Assembler}
use obs_st.Assembler.Packet.{Processed, rx_assembler_process_packet}
use obs_st.Stats.{Floats, StatsState, rx_stats_packet, rx_stats_frame, rx_stats_lost}
use obs_st.Receiver.{Rx}
use obs_st.Receiver.Frames.{Sink, rx_internal_frame_cb}

module _ (F : Floats) where
  -- `if (lost)`
  abbrev pub count_lost : StatsState F → Option ℕ → StatsState F
  count_lost stats none = stats
  count_lost stats (some lost) = if lost == 0 then stats else rx_stats_lost F stats lost

  -- `if (completed > 0)`
  abbrev pub count_frames : StatsState F → Assembler → ℕ → StatsState F
  count_frames stats asm completed =
      if ltb 0 completed
      then rx_stats_frame F stats (not (asm.delivered_incomplete == 0))
      else stats

-- One return of `recvfrom`: an error, or a datagram, with what the clock shows when it is counted.
pub data Arrival : Type 0 where
  failed : Arrival
  datagram : Bytes → ℕ → Arrival

module _ (F : Floats) {X : Type 0} where
  -- What the assembler's call left, stored back into the receiver.
  unfoldable pub account : Rx F X → StatsState F → Processed (Sink X) → Rx F X × X
  account rx stats r = elim r.asm [
    | none ↦ (rx, r.user.user)
    | some asm ↦ (
      record rx {
        assembler = asm;
        convert_buf = r.user.convert_buf;
        stats = count_frames F (count_lost F stats r.lost) asm r.completed;
      },
      r.user.user,
    )
  ]

  -- A packet of n octets in `pkt`, that came when the clock showed `now_us`.
  unfoldable pub rx_process_packet : Rx F X → X → Bytes → ℕ → ℕ → Exec (Rx F X × X)
  rx_process_packet rx user pkt n now_us = do
    timestamp ← extract_rtp_timestamp (some pkt) n
    stats ← rx_stats_packet F rx.stats timestamp now_us
    r ←
        rx_assembler_process_packet (some rx.assembler) (some pkt) n
          (some (rx_internal_frame_cb rx.config rx.convert_stride))
          (record { convert_buf = rx.convert_buf; user = user }) rx.config.input_fmt (some 0)
    ok (account rx stats r)

  -- `recvfrom` puts a datagram, or as much of it as fits, into `pkt_buf`; an empty one is skipped.
  unfoldable pub receive : Rx F X → X → Bytes → ℕ → Exec (Rx F X × X)
  receive rx user payload now_us =
      let octets = take rx.pkt_buf_size payload in
      let n = length octets in
      if n == 0 then ok (rx, user) else (do
        buf ← memcpy rx.pkt_buf 0 octets 0 n
        rx_process_packet (record rx { pkt_buf = buf }) user buf n now_us)

  -- `rx_receiver_loop` (Linux) over what arrives until `running` is 0.
  unfoldable pub rx_receiver_loop : Rx F X → X → List Arrival → Exec (Rx F X × X)
  rx_receiver_loop rx user [] = ok (rx, user)
  rx_receiver_loop rx user (failed ∷ rest) = rx_receiver_loop rx user rest
  rx_receiver_loop rx user (datagram payload now_us ∷ rest) =
      receive rx user payload now_us >>= λ r. rx_receiver_loop r.0 r.1 rest
