-- ===== src/Receiver/Shutdown.antt =====
-- `st2110rx_stop` beside the receive thread of POSIX, both of libst2110rx/src/rx_core.c, as interleaved
-- steps.
pub mod Bounded
use obs_st.Base.{
  none, true, false, suc, ok, ℕ, ◌+◌, ◌≡◌, Bytes, ◌≤◌, ◌<◌, length, memcpy, refl, ◌∙◌, ap, arith,
  Ensures-ok_of, Returns, IsBytes, ◌^◌,
}
use obs_st.Stats.{Floats}
use obs_st.Receiver.{Rx}
use obs_st.Receiver.Packet.{rx_process_packet}
use obs_st.Receiver.Served.{process_packet-handles}

-- Where the receive thread stands: at the test of its loop, in `recvfrom`, before the call for a packet
-- of n octets that came when the clock showed `now_us`, at the test behind an error, or ended.
pub data Place : Type 0 where
  at_test in_recvfrom behind_error ended : Place
  at_packet : (n now_us : ℕ) → Place

-- Where `st2110rx_stop` stands: not called, before the socket is closed, before the thread is joined,
-- before the sockets are cleaned up, or returned.
pub data Stopper : Type 0 where
  not_called at_socket at_join joined done : Stopper

-- The steps and the packets that are left to the thread once `running` is 0.
abbrev pub steps_left : Place → ℕ
steps_left at_test = 1
steps_left in_recvfrom = 3
steps_left behind_error = 1
steps_left ended = 0
steps_left (at_packet n now_us) = 2

abbrev pub packets_left : Place → ℕ
packets_left in_recvfrom = 1
packets_left (at_packet n now_us) = 1
packets_left at_test = 0
packets_left behind_error = 0
packets_left ended = 0

pub left_few : (p : Place) → (steps_left p ≤ 3) × (packets_left p ≤ 1)
left_few at_test = ground arith
left_few in_recvfrom = ground arith
left_few behind_error = ground arith
left_few ended = ground arith
left_few (at_packet n now_us) = ground arith

module _ (F : Floats) (X : Type 0) where
  pub record Threads : Type 0 where
    pub rx : Rx F X
    pub user : X
    pub place : Place
    pub stopper : Stopper

  -- A step of the receive thread, with the number of packets that it serves. A datagram has octets, no
  -- more than fit, and the clock, below 2 ^ 63 microseconds, does not run backwards.
  pub data ThreadStep : Threads → ℕ → Threads → Type 0 where
    enter :
        (s : Threads)
        → s.place ≡ at_test
        → s.rx.running ≡ true
        → ThreadStep s 0 (record s { place = in_recvfrom })
    leave :
        (s : Threads)
        → s.place ≡ at_test
        → s.rx.running ≡ false
        → ThreadStep s 0 (record s { place = ended })
    fail :
        (s : Threads) → s.place ≡ in_recvfrom → ThreadStep s 0 (record s { place = behind_error })
    get :
        (s : Threads) (octets buf : Bytes) (now_us : ℕ)
        → s.place ≡ in_recvfrom
        → 0 < length octets
        → length octets ≤ s.rx.pkt_buf_size
        → IsBytes octets
        → s.rx.stats.last_arrival_us ≤ now_us
        → now_us < 2 ^ 63
        → memcpy s.rx.pkt_buf 0 octets 0 (length octets) ≡ ok buf
        → ThreadStep s 0 (record s {
          rx = record s.rx { pkt_buf = buf };
          place = at_packet (length octets) now_us;
        })
    serve :
        (s : Threads) (n now_us : ℕ) (r : Rx F X × X)
        → s.place ≡ at_packet n now_us
        → rx_process_packet F s.rx s.user s.rx.pkt_buf n now_us ≡ ok r
        → ThreadStep s 1 (record s { rx = r.0; user = r.1; place = at_test })
    go_on :
        (s : Threads)
        → s.place ≡ behind_error
        → s.rx.running ≡ true
        → ThreadStep s 0 (record s { place = at_test })
    give_up :
        (s : Threads)
        → s.place ≡ behind_error
        → s.rx.running ≡ false
        → ThreadStep s 0 (record s { place = ended })

  -- A step of `st2110rx_stop`, built for POSIX. What it closes a waiting `recvfrom` may still deliver or
  -- fail for, as the thread's steps say.
  pub data StopStep : Threads → Threads → Type 0 where
    clear :
        (s : Threads)
        → s.stopper ≡ not_called
        → StopStep s (record s { rx = record s.rx { running = false }; stopper = at_socket })
    close :
        (s : Threads)
        → s.stopper ≡ at_socket
        → StopStep s (record s { rx = record s.rx { sock = none }; stopper = at_join })
    join :
        (s : Threads)
        → s.stopper ≡ at_join
        → s.rx.thread_started ≡ true
        → s.place ≡ ended
        → StopStep s (record s { rx = record s.rx { thread_started = false }; stopper = joined })
    skip :
        (s : Threads)
        → s.stopper ≡ at_join
        → s.rx.thread_started ≡ false
        → StopStep s (record s { stopper = joined })
    clean_up :
        (s : Threads)
        → s.stopper ≡ joined
        → StopStep s (record s { rx = record s.rx { sockets_initialized = false }; stopper = done })

  -- What both do between two moments, with the thread's steps and the packets that it serves.
  pub data Run (s : Threads) : ℕ → ℕ → Threads → Type 0 where
    still : Run s 0 0 s
    thread :
        {t u : Threads} {k n m m' : ℕ}
        → Run s k n t
        → ThreadStep t m u
        → m' ≡ n + m
        → Run s (suc k) m' u
    stop : {t u : Threads} {k n : ℕ} → Run s k n t → StopStep t u → Run s k n u

module _ {F : Floats} {X : Type 0} where
  -- `running` is 0, and at most these steps and packets came behind the moment s.
  pub record IsEnding (s : Threads F X) (k n : ℕ) (t : Threads F X) : Type 0 where
    pub off : t.rx.running ≡ false
    pub steps : k + steps_left t.place ≤ steps_left s.place
    pub packets : n + packets_left t.place ≤ packets_left s.place

  served_running :
      (rx : Rx F X) (user : X) (pkt : Bytes) (n now_us : ℕ) (r : Rx F X × X)
      → rx_process_packet F rx user pkt n now_us ≡ ok r
      → r.0.running ≡ rx.running
  served_running rx user pkt n now_us r e =
      ap (λ r. r.running) (Ensures-ok_of _ (process_packet-handles rx user pkt n now_us) e)

  IsEnding-step :
      {s t u : Threads F X} {k n : ℕ} (m : ℕ)
      → IsEnding s k n t
      → u.rx.running ≡ t.rx.running
      → suc (steps_left u.place) ≤ steps_left t.place
      → m + packets_left u.place ≤ packets_left t.place
      → IsEnding s (suc k) (n + m) u
  IsEnding-step m e running steps packets = record {
    off = running ∙ e.off;
    steps = ground arith;
    packets = ground arith;
  }

  thread-IsEnding :
      {s t u : Threads F X} {k n m : ℕ}
      → IsEnding s k n t
      → ThreadStep F X t m u
      → IsEnding s (suc k) (n + m) u
  thread-IsEnding e (enter t at on) = absurd (ground arith)
  thread-IsEnding e (leave t at off) = IsEnding-step _ e refl (ground arith) (ground arith)
  thread-IsEnding e (fail t at) = IsEnding-step _ e refl (ground arith) (ground arith)
  thread-IsEnding e (get t octets buf now_us at some_octets fit is_bytes later range stored) =
      IsEnding-step _ e refl (ground arith) (ground arith)
  thread-IsEnding e (serve t n' now_us r at gave) =
      IsEnding-step _ e (served_running _ _ _ _ _ _ gave) (ground arith) (ground arith)
  thread-IsEnding e (go_on t at on) = absurd (ground arith)
  thread-IsEnding e (give_up t at off) = IsEnding-step _ e refl (ground arith) (ground arith)

  stop-IsEnding :
      {s t u : Threads F X} {k n : ℕ} → IsEnding s k n t → StopStep F X t u → IsEnding s k n u
  stop-IsEnding e (clear t at) = record { off = refl; steps = e.steps; packets = e.packets }
  stop-IsEnding e (close t at) = record { off = e.off; steps = e.steps; packets = e.packets }
  stop-IsEnding e (join t at started gone) = record {
    off = e.off;
    steps = e.steps;
    packets = e.packets;
  }
  stop-IsEnding e (skip t at none_started) = record {
    off = e.off;
    steps = e.steps;
    packets = e.packets;
  }
  stop-IsEnding e (clean_up t at) = record { off = e.off; steps = e.steps; packets = e.packets }

  pub run-IsEnding :
      {s t : Threads F X} {k n : ℕ} → s.rx.running ≡ false → Run F X s k n t → IsEnding s k n t
  run-IsEnding off still = record { off = off; steps = ground arith; packets = ground arith }
  run-IsEnding off (thread run step total) = rw total (thread-IsEnding (run-IsEnding off run) step)
  run-IsEnding off (stop run step) = stop-IsEnding (run-IsEnding off run) step
