-- ===== src/Tests/Completions.antt =====
-- The receive loop of Windows at a receiver of one line of two pixels.
use obs_st.Base.{true, false, refl, [], List, Returns, replicate, ◌∷◌, ◌⊎◌, ◌≡◌, ℕ, ◌<◌, arith}
use obs_st.Tests.Data.{whole_numbers, config, running, plane_length, packet, packet-IsBytes, IsSize}
use obs_st.Tests.Serving.{accepts_shown, running-HasServed}
use obs_st.Receiver.Pool.{Completes}
use obs_st.Receiver.Completions.{
  Dequeue, receive_completions, completed, num_buffers, pending, wakeup, refused,
}
use obs_st.Receiver.Completing.{handled}
use obs_st.Receiver.Windows.{HasCompleted, receive_completions-HasCompleted}

-- The first buffer is completed and posted again; then the receiver is stopped.
abbrev calls : List Dequeue
calls =
    record {
      succeeded = true;
      entries =
          completed (record {
            buffer = 0;
            octets = packet;
            transferred = 24;
            now_us = 1000;
            running = true;
            answer = pending;
          })
          ∷ wakeup
          ∷ [];
      running = true;
    }
    ∷ record { succeeded = false; entries = []; running = false }
    ∷ []

calls-Completes : Completes 0 (replicate num_buffers true) (handled calls)
calls-Completes = ground (arith, packet-IsBytes)

receive_completions-HasCompleted_example :
    Returns (receive_completions whole_numbers (λ i. pending) calls running 0) (λ w.
      HasCompleted config plane_length refl IsSize accepts_shown 0 1 (handled calls) w
      ⊎ ((w.rx ≡ running) × (w.user ≡ 0) × ((j : ℕ) × (j < num_buffers) × (pending ≡ refused))))
receive_completions-HasCompleted_example =
    receive_completions-HasCompleted config plane_length refl IsSize accepts_shown (λ i. pending)
      calls running 0 0 0 0 running-HasServed calls-Completes
