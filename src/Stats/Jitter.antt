-- ===== src/Stats/Jitter.antt =====
-- `rx_stats_packet` under a clock that does not run backwards.
use obs_st.Base.{
  ℕ, refl, ◌+◌, ◌-◌, ◌*◌, ◌/◌, ◌%◌, ◌^◌, ◌≤◌, ◌<◌, ◌≡◌, arith, true, Returns, pos, ℤ, int64, ◌-ℤ◌,
  ok, abs, Bool-cases, if◌then◌else◌, inr, ltb, inl, negsuc,
}
use obs_st.Stats.{
  Floats, StatsState, rx_stats_packet, update_estimates, arrival_elapsed_us, rtp_elapsed_us,
}

abbrev pub distance : ℕ → ℕ → ℕ
distance a b = if ltb a b then b - a else a - b

-- The 90 kHz ticks between two timestamps of 32 bits, in microseconds.
abbrev pub ticks_us : ℕ → ℕ → ℕ
ticks_us earlier later = (later + 2 ^ 32 - earlier) % 2 ^ 32 * 100 / 9

module _ (F : Floats) (s : StatsState F) (rtp now : ℕ) (rtp_range : rtp < 2 ^ 32)
    (last_range : s.last_rtp_ts < 2 ^ 32) (monotone : s.last_arrival_us ≤ now)
    (now_range : now < 2 ^ 63) where
  -- What a packet leaves in the statistics.
  pub record IsCounted (s' : StatsState F) : Type 0 where
    pub packets : s'.packets_received ≡ (s.packets_received + 1) % 2 ^ 64
    pub jitter : s'.jitter ≡ (
        if s.has_prev
        then F.plus s.jitter (
            F.over
              (F.minus
                (F.of_int (pos (distance (now - s.last_arrival_us) (ticks_us s.last_rtp_ts rtp))))
                s.jitter)
              (F.of_int (pos 16)))
        else s.jitter)
    pub gap : s'.avg_interpacket_gap_us ≡ (
        if s.has_prev
        then F.plus s.avg_interpacket_gap_us (
            F.over
              (F.minus (F.of_int (pos (now - s.last_arrival_us))) s.avg_interpacket_gap_us)
              (F.of_int (pos 256)))
        else s.avg_interpacket_gap_us)
    pub parity : s'.seq % 2 ≡ s.seq % 2
    pub others :
        (s'.frames_received ≡ s.frames_received)
        × (s'.frames_dropped ≡ s.frames_dropped)
        × (s'.packets_lost ≡ s.packets_lost)
    pub remembered : (s'.last_rtp_ts ≡ rtp) × (s'.last_arrival_us ≡ now) × (s'.has_prev ≡ true)

  arrival : arrival_elapsed_us F s now ≡ pos (now - s.last_arrival_us)
  arrival = ground arith

  elapsed : rtp_elapsed_us F s rtp ≡ ticks_us s.last_rtp_ts rtp
  elapsed = omega arith

  ticks-lt : ticks_us s.last_rtp_ts rtp < 2 ^ 40
  ticks-lt = omega arith

  difference :
      (a b : ℕ)
      → a < 2 ^ 63
      → b < 2 ^ 40
      → (d : ℤ) × (int64 (pos a -ℤ pos b) ≡ ok d) × (int64 (pos (abs d)) ≡ ok (pos (distance a b)))
  difference a b p q = elim (Bool-cases (ltb a b)) [
    | inl less ↦ (negsuc (b - a - 1), ground arith, ground arith)
    | inr more ↦ (pos (a - b), ground arith, ground arith)
  ]

  -- With a clock that does not run backwards and stays below 2 ^ 63 microseconds, and timestamps of 32
  -- bits, a packet is counted modulo 2 ^ 64 with no signed overflow. If there was one before, the jitter
  -- x becomes x + (d - x) / 16, where d is the distance of the time since that packet and the ticks
  -- between the timestamps, and the gap x becomes x + (t - x) / 256, where t is that time, each in the
  -- operations of `double`, and both stay otherwise. `seq` is even again if it was, the packet's
  -- timestamp and time are remembered, and no other counter moves.
  pub rx_stats_packet-IsCounted : Returns (rx_stats_packet F s rtp now) IsCounted
  unfolding rx_stats_packet update_estimates
  rx_stats_packet-IsCounted =
      let (d, e, e') =
        difference (now - s.last_arrival_us) (ticks_us s.last_rtp_ts rtp) (omega arith) ticks-lt in
      elim (Bool-cases s.has_prev) [
        | inr first ↦ rw first (
          _,
          refl,
          record {
            packets = refl;
            jitter = refl;
            gap = refl;
            parity = refl;
            others = (refl, refl, refl);
            remembered = (refl, refl, refl);
          },
        )
        | inl later ↦
            rw (later, arrival, elapsed, e, e')
              (
                _,
                refl,
                record {
                  packets = refl;
                  jitter = refl;
                  gap = refl;
                  parity = omega arith;
                  others = (refl, refl, refl);
                  remembered = (refl, refl, refl);
                },
              )
      ]
