-- ===== src/Tests/Counters.antt =====
-- The statistics at concrete packets and schedules.
use obs_st.Base.{some, ℕ, refl, zero, suc, ◌≡◌, arith, true, Returns}
use obs_st.Stats.{Snapshot, Attempt, StatsState, rx_stats_init, rx_stats_packet, must_retry}
use obs_st.Stats.Jitter.{IsCounted, rx_stats_packet-IsCounted}
use obs_st.Stats.Seqlock.{
  Shared, outside, at_jitter, at_gap, closing, IsLock, Run, enter, put_jitter, put_gap, leave,
  still, later, round, round-consistent,
}
use obs_st.Receiver.Report.{IsReported, st2110rx_get_stats, get_stats-IsReported}
use obs_st.Tests.Data.{whole_numbers, running}

-- The second packet of a stream, 100 ticks and a millisecond behind the first.
abbrev seen_one : StatsState whole_numbers
seen_one = record (rx_stats_init whole_numbers) {
  packets_received = 1;
  last_rtp_ts = 1000;
  last_arrival_us = 5000;
  has_prev = true;
}

rx_stats_packet-IsCounted_example : Returns (rx_stats_packet whole_numbers seen_one 1100 6000) (
    IsCounted whole_numbers seen_one 1100 6000
      (omega arith)
      (omega arith)
      (omega arith)
      (omega arith))
rx_stats_packet-IsCounted_example =
    rx_stats_packet-IsCounted whole_numbers seen_one 1100 6000 (omega arith) (omega arith)
      (omega arith) (omega arith)

-- The writer is busy in the first two rounds.
abbrev rounds : ℕ → Attempt whole_numbers
rounds zero = record { seq1 = 1; jitter_us = 0; gap_us = 0; seq2 = 1 }
rounds (suc zero) = record { seq1 = 1; jitter_us = 0; gap_us = 3; seq2 = 2 }
rounds (suc (suc i)) = record { seq1 = 2; jitter_us = 5; gap_us = 3; seq2 = 2 }

abbrev quiet : Shared whole_numbers
quiet = record { seq = 2; jitter = 5; gap = 3; writer = outside }

quiet-IsLock : IsLock whole_numbers quiet
quiet-IsLock = record { range = omega arith; parity = refl }

abbrev entered : Shared whole_numbers
entered = record quiet { seq = 3; writer = at_jitter }

abbrev half_done : Shared whole_numbers
half_done = record entered { jitter = 8; writer = at_gap }

-- A round that the writer enters, and one before it.
torn_round :
    must_retry whole_numbers (round whole_numbers quiet half_done half_done half_done) ≡ true
torn_round = refl

round-consistent_example :
    (quiet.jitter ≡ quiet.jitter) × (quiet.gap ≡ quiet.gap) × (quiet.writer ≡ outside)
round-consistent_example =
    round-consistent whole_numbers {s = quiet} {t = quiet} {u = quiet} {v = quiet} quiet-IsLock
      still still still (omega arith) refl

-- The writer's whole section, from one even value of `seq` to the next.
section-Run : Run whole_numbers quiet 2 (record quiet { seq = 4; jitter = 8; gap = 9 })
section-Run =
    later
      (later (later (later still (enter quiet refl) refl) (put_jitter entered 8 refl) refl)
        (put_gap half_done 9 refl) refl)
      (leave (record half_done { gap = 9; writer = closing }) refl) refl

abbrev blank_report : Snapshot whole_numbers
blank_report = record {
  frames_received = 0;
  frames_dropped = 0;
  packets_received = 0;
  packets_lost = 0;
  avg_interpacket_gap_us = 0;
  jitter_us = 0;
}

get_stats-IsReported_example :
    IsReported whole_numbers running rounds
      (st2110rx_get_stats whole_numbers (some running) (some blank_report) rounds)
get_stats-IsReported_example = get_stats-IsReported whole_numbers running blank_report rounds
