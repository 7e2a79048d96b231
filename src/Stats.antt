-- ===== src/Stats.antt =====
-- libst2110rx/src/rx_stats.c: the counters and the timing estimates of a receiver.
pub mod Jitter
pub mod Reading
pub mod Clock
pub mod Seqlock
use obs_st.Base.{
  ℕ, zero, suc, ◌+◌, ◌-◌, ◌*◌, ◌/◌, ◌%◌, ◌^◌, Bool, true, false, not, ◌||◌, Option, none, some,
  Exec, ok, ◌>>=◌, u32, u64, ltb, ◌==◌, if◌then◌else◌, ℤ, pos, negsuc, ◌-ℤ◌, abs, to_int64, int64,
  bit_and,
}

-- The machine's `double`: the values and the operations that the code applies to them.
pub record Floats : Type 1 where
  pub Double : Type 0
  pub of_int : ℤ → Double
  pub plus : Double → Double → Double
  pub minus : Double → Double → Double
  pub over : Double → Double → Double

module _ (F : Floats) where
  -- `rx_stats_state_t`. A counter is the 64 bits of its `rx_atomic64_t`.
  pub record StatsState : Type 0 where
    pub frames_received : ℕ
    pub frames_dropped : ℕ
    pub packets_received : ℕ
    pub packets_lost : ℕ
    pub seq : ℕ
    pub jitter : F.Double
    pub avg_interpacket_gap_us : F.Double
    pub last_rtp_ts : ℕ
    pub last_arrival_us : ℕ
    pub has_prev : Bool

  -- `rx_stats_init`: all bytes zero, which is also the double 0.
  abbrev pub rx_stats_init : StatsState
  rx_stats_init = record {
    frames_received = 0;
    frames_dropped = 0;
    packets_received = 0;
    packets_lost = 0;
    seq = 0;
    jitter = F.of_int (pos 0);
    avg_interpacket_gap_us = F.of_int (pos 0);
    last_rtp_ts = 0;
    last_arrival_us = 0;
    has_prev = false;
  }

  -- `rx_atomic64_add`
  abbrev pub atomic_add : ℕ → ℕ → ℕ
  atomic_add n k = u64 (n + k)

  -- `x += (d - x) / weight`
  abbrev pub smooth : F.Double → ℤ → ℕ → F.Double
  smooth x d weight = F.plus x (F.over (F.minus (F.of_int d) x) (F.of_int (pos weight)))

  -- `(int64_t)(uint32_t)(rtp_timestamp - s->last_rtp_ts) * 1000000LL / 90000LL`
  abbrev pub rtp_elapsed_us : StatsState → ℕ → ℕ
  rtp_elapsed_us s rtp_timestamp = u32 (rtp_timestamp + 2 ^ 32 - s.last_rtp_ts) * 1000000 / 90000

  -- `(int64_t)(now_us - s->last_arrival_us)`
  abbrev pub arrival_elapsed_us : StatsState → ℕ → ℤ
  arrival_elapsed_us s now_us = to_int64 (u64 (now_us + 2 ^ 64 - s.last_arrival_us))

  -- The estimates, between the two increments of `seq`.
  unfoldable pub update_estimates : StatsState → ℕ → ℕ → Exec StatsState
  update_estimates s rtp_timestamp now_us = do
    let d_arrival = arrival_elapsed_us s now_us
    diff ← int64 (d_arrival -ℤ pos (rtp_elapsed_us s rtp_timestamp))
    magnitude ← int64 (pos (abs diff))
    ok (record s {
      seq = atomic_add (atomic_add s.seq 1) 1;
      jitter = smooth s.jitter magnitude 16;
      avg_interpacket_gap_us = smooth s.avg_interpacket_gap_us d_arrival 256;
    })

  -- `rx_stats_packet`, where the clock reads `now_us`.
  unfoldable pub rx_stats_packet : StatsState → ℕ → ℕ → Exec StatsState
  rx_stats_packet s rtp_timestamp now_us = do
    let counted = record s { packets_received = atomic_add s.packets_received 1 }
    s' ← (if s.has_prev then update_estimates counted rtp_timestamp now_us else ok counted)
    ok (record s' { last_rtp_ts = rtp_timestamp; last_arrival_us = now_us; has_prev = true })

  unfoldable pub rx_stats_frame : StatsState → Bool → StatsState
  rx_stats_frame s incomplete =
      let received = record s { frames_received = atomic_add s.frames_received 1 } in
      if incomplete
      then record received { frames_dropped = atomic_add s.frames_dropped 1 }
      else received

  unfoldable pub rx_stats_lost : StatsState → ℕ → StatsState
  rx_stats_lost s count = record s { packets_lost = atomic_add s.packets_lost count }

  -- What one round of the reader's loop sees: the two loads of `seq` and the pair between them.
  pub record Attempt : Type 0 where
    pub seq1 : ℕ
    pub jitter_us : F.Double
    pub gap_us : F.Double
    pub seq2 : ℕ

  -- The condition of the loop: `seq1 != seq2 || (seq1 & 1)`.
  abbrev pub must_retry : Attempt → Bool
  must_retry r = not (r.seq1 == r.seq2) || not (bit_and r.seq1 1 == 0)

  -- The loop at round i, with `left` rounds before it gives up.
  unfoldable pub read_pair : (ℕ → Attempt) → ℕ → ℕ → Attempt
  read_pair rounds zero i = rounds i
  read_pair rounds (suc left) i =
      let rest = read_pair rounds left (i + 1) in if must_retry (rounds i) then rest else rounds i

  -- `st2110rx_stats_t`
  pub record Snapshot : Type 0 where
    pub frames_received : ℕ
    pub frames_dropped : ℕ
    pub packets_received : ℕ
    pub packets_lost : ℕ
    pub avg_interpacket_gap_us : F.Double
    pub jitter_us : F.Double

  -- `rx_stats_snapshot` of the counters in `s`, where the writer may run between the loads of the
  -- rounds; `none` is NULL.
  unfoldable pub rx_stats_snapshot :
      Option StatsState → Option Snapshot → (ℕ → Attempt) → Option Snapshot
  rx_stats_snapshot none out rounds = out
  rx_stats_snapshot (some s) none rounds = none
  rx_stats_snapshot (some s) (some out) rounds =
      let seen = read_pair rounds 1000 0 in
      some (record {
        frames_received = s.frames_received;
        frames_dropped = s.frames_dropped;
        packets_received = s.packets_received;
        packets_lost = s.packets_lost;
        avg_interpacket_gap_us = seen.gap_us;
        jitter_us = seen.jitter_us;
      })
