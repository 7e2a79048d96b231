-- ===== src/Receiver/Report.antt =====
-- `st2110rx_get_stats` of libst2110rx/src/rx_core.c.
use obs_st.Base.{ℕ, refl, ◌≤◌, ◌<◌, ◌≡◌, ◌⊎◌, true, false, Option, none, some, ap}
use obs_st.Types.{Status, ok_status, err_invalid}
use obs_st.Stats.{Floats, Attempt, Snapshot, must_retry, read_pair, rx_stats_snapshot}
use obs_st.Stats.Reading.{read_pair-first}
use obs_st.Receiver.{Rx}

module _ (F : Floats) {X : Type 0} where
  -- `none` is NULL; `rounds` is what the reader's loads find, round by round.
  unfoldable pub st2110rx_get_stats :
      Option (Rx F X) → Option (Snapshot F) → (ℕ → Attempt F) → Option (Snapshot F) × Status
  st2110rx_get_stats none stats rounds = (stats, err_invalid)
  st2110rx_get_stats (some rx) none rounds = (none, err_invalid)
  st2110rx_get_stats (some rx) (some stats) rounds =
      (rx_stats_snapshot F (some rx.stats) (some stats) rounds, ok_status)

  -- The counters of the receiver, and the estimates of the first round that no store tore, or of the
  -- last of 1001 rounds.
  pub record IsReported (rx : Rx F X) (rounds : ℕ → Attempt F) (r : Option (Snapshot F) × Status)
      : Type 0 where
    pub status : r.1 ≡ ok_status
    pub out : Snapshot F
    pub is_out : r.0 ≡ some out
    pub frames_received : out.frames_received ≡ rx.stats.frames_received
    pub frames_dropped : out.frames_dropped ≡ rx.stats.frames_dropped
    pub packets_received : out.packets_received ≡ rx.stats.packets_received
    pub packets_lost : out.packets_lost ≡ rx.stats.packets_lost
    pub round : ℕ
    pub few : round ≤ 1000
    pub gap : out.avg_interpacket_gap_us ≡ (rounds round).gap_us
    pub jitter : out.jitter_us ≡ (rounds round).jitter_us
    pub stop : (must_retry F (rounds round) ≡ false) ⊎ (round ≡ 1000)
    pub before : (j : ℕ) → j < round → must_retry F (rounds j) ≡ true

  -- `st2110rx_get_stats` at a receiver and a place for the result: the status is ST2110RX_OK, the
  -- counters are those of the receiver, and the jitter and the gap are what the first round read that
  -- met one even value of `seq` twice; without such a round, what round 1001 read.
  pub get_stats-IsReported :
      (rx : Rx F X) (stats : Snapshot F) (rounds : ℕ → Attempt F)
      → IsReported rx rounds (st2110rx_get_stats (some rx) (some stats) rounds)
  unfolding st2110rx_get_stats rx_stats_snapshot
  get_stats-IsReported rx stats rounds =
      let (k, few, e, stop, before) = read_pair-first F rounds in
      record {
        status = refl;
        out = record {
          frames_received = rx.stats.frames_received;
          frames_dropped = rx.stats.frames_dropped;
          packets_received = rx.stats.packets_received;
          packets_lost = rx.stats.packets_lost;
          avg_interpacket_gap_us = (read_pair F rounds 1000 0).gap_us;
          jitter_us = (read_pair F rounds 1000 0).jitter_us;
        };
        is_out = refl;
        frames_received = refl;
        frames_dropped = refl;
        packets_received = refl;
        packets_lost = refl;
        round = k;
        few = few;
        gap = ap (λ a. a.gap_us) e;
        jitter = ap (λ a. a.jitter_us) e;
        stop = stop;
        before = before;
      }
