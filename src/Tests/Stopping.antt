-- ===== src/Tests/Stopping.antt =====
-- The receive thread of POSIX behind a stop, at a concrete run.
use obs_st.Base.{refl, ◌≡◌, ◌≤◌, none, arith, false, splice, length, memcpy-eq-ok, inl, ℕ}
use obs_st.Receiver.Shutdown.{
  Threads, Run, at_packet, at_socket, at_join, in_recvfrom, still, thread, stop, get, close,
}
use obs_st.Receiver.Shutdown.Bounded.{IsSound, stop-IsBounded, Going}
use obs_st.Tests.Data.{whole_numbers, config, running, plane_length, packet, packet-IsBytes, IsSize}
use obs_st.Tests.Serving.{accepts_shown}

-- A stop has cleared `running` while the thread waits.
abbrev cleared : Threads whole_numbers ℕ
cleared = record {
  rx = record running { running = false };
  user = 0;
  place = in_recvfrom;
  stopper = at_socket;
}

-- Then a packet arrives, and the socket is closed.
abbrev filled : Threads whole_numbers ℕ
filled = record cleared {
  rx = record cleared.rx { pkt_buf = splice cleared.rx.pkt_buf 0 packet 0 (length packet) };
  place = at_packet (length packet) 1000;
}

abbrev closed : Threads whole_numbers ℕ
closed = record filled { rx = record filled.rx { sock = none }; stopper = at_join }

cleared-IsSound : IsSound config plane_length refl IsSize accepts_shown cleared
cleared-IsSound = record { live = ground arith; kept = inl refl; held = tt }

closing : Run whole_numbers ℕ cleared 1 0 closed
closing =
    stop
      (thread still
        (get cleared packet filled.rx.pkt_buf 1000 refl (omega arith) (omega arith) packet-IsBytes
          (omega arith) (omega arith)
          (memcpy-eq-ok cleared.rx.pkt_buf 0 packet 0 (length packet) (omega arith) (omega arith)))
        refl)
      (close filled refl)

stop-IsBounded_example : (1 ≤ 3) × (0 ≤ 1) × (closed.rx.running ≡ false) × Going closed
stop-IsBounded_example =
    stop-IsBounded config plane_length refl IsSize accepts_shown refl cleared-IsSound closing
