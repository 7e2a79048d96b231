-- ===== src/Tests/Serving.antt =====
-- A packet served by the receiver, up to the user's callback.
use obs_st.Base.{ℕ, refl, inl, arith, Returns, length, inr, List, ◌∷◌, []}
use obs_st.Types.{Frame}
use obs_st.Receiver.Packet.{Arrival, failed, datagram, rx_receiver_loop}
use obs_st.Receiver.Loop.{HasServed, IsFeed, receiver_loop-HasServed}
use obs_st.Receiver.Live.{IsLive, IsShown}
use obs_st.Receiver.Flow.{IsServed, process_packet-IsServed}
use obs_st.Receiver.Packet.{rx_process_packet}
use obs_st.Tests.Data.{whole_numbers, config, running, plane_length, packet, packet-IsBytes, IsSize}

running-IsLive : IsLive config running
running-IsLive = ground arith

pub accepts_shown :
    (out : Frame) (n : ℕ) → IsShown config out → IsSize n → Returns (plane_length out n) IsSize
accepts_shown out n shown k = (length out.plane, refl, inr (ground arith))

process_packet-IsServed_example :
    Returns
      (rx_process_packet whole_numbers running 0 packet 24 1000)
      (IsServed running running-IsLive plane_length refl IsSize accepts_shown 1000)
process_packet-IsServed_example =
    process_packet-IsServed running running-IsLive plane_length refl IsSize accepts_shown 0 packet
      24 1000 packet-IsBytes (omega arith) (omega arith) (omega arith) (inl refl)

abbrev arrivals : List Arrival
arrivals =
    datagram packet 1000
    ∷ failed
    ∷ datagram [] 1500
    ∷ datagram (1 ∷ 2 ∷ []) 2000
    ∷ datagram packet 2000
    ∷ []

arrivals-IsFeed : IsFeed 0 arrivals
arrivals-IsFeed = ground (arith, packet-IsBytes)

pub running-HasServed : HasServed config plane_length refl IsSize accepts_shown 0 0 0 (running, 0)
running-HasServed = record {
  live = running-IsLive;
  kept = inl refl;
  clock = omega arith;
  packets = refl;
}

receiver_loop-HasServed_example :
    Returns
      (rx_receiver_loop whole_numbers running 0 arrivals)
      (λ r. (t : ℕ) × HasServed config plane_length refl IsSize accepts_shown 0 t 3 r)
receiver_loop-HasServed_example =
    receiver_loop-HasServed config plane_length refl IsSize accepts_shown arrivals running 0 0 0 0
      running-HasServed arrivals-IsFeed
