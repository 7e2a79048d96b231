-- ===== src/Receiver/Served.antt =====
-- What serving packets leaves alone: the handles of a receiver.
use obs_st.Base.{
  refl, [], ◌∷◌, Bytes, List, ℕ, Ensures, ◌≡◌, Ensures-after, Ensures-if, Ensures-ok, arith, length,
  Ensures-bind, some, take, ◌==◌, ◌∙◌, Ensures-weaken, ap,
}
use obs_st.Stats.{Floats, rx_stats_packet}
use obs_st.Receiver.{Rx, StatsState, zero_assembler, rx_stats_init, Held}
use obs_st.Receiver.Packet.{
  failed, datagram, account, receive, rx_process_packet, rx_receiver_loop, Arrival, datagram,
}
use obs_st.Assembler.Packet.{Processed}
use obs_st.Receiver.Frames.{Sink}
use obs_st.Rtp.{extract_rtp_timestamp}
use obs_st.Resources.{Platform}
use obs_st.Receiver.Ownership.{IsRunning, IsAccounted}

module _ {F : Floats} {X : Type 0} where
  -- The receiver without what a packet changes.
  abbrev pub handles : Rx F X → Rx F X
  handles rx = record rx {
    assembler = zero_assembler;
    convert_buf = [];
    pkt_buf = [];
    stats = rx_stats_init F;
  }

  account-handles :
      (rx : Rx F X) (stats : StatsState F) (r : Processed (Sink X))
      → handles (account F rx stats r).0 ≡ handles rx
  unfolding account
  account-handles rx stats r = ground arith

  pub process_packet-handles :
      (rx : Rx F X) (user : X) (pkt : Bytes) (n now_us : ℕ)
      → Ensures (rx_process_packet F rx user pkt n now_us) (λ r. handles r.0 ≡ handles rx)
  unfolding rx_process_packet
  process_packet-handles rx user pkt n now_us =
      Ensures-after _ (extract_rtp_timestamp (some pkt) n) _ λ t.
        Ensures-after _ (rx_stats_packet F rx.stats t now_us) _
          λ stats. Ensures-after _ _ _ λ r. Ensures-ok _ _ (account-handles rx stats r)

  receive-handles :
      (rx : Rx F X) (user : X) (payload : Bytes) (now_us : ℕ)
      → Ensures (receive F rx user payload now_us) (λ r. handles r.0 ≡ handles rx)
  unfolding receive
  receive-handles rx user payload now_us =
      Ensures-if _ (length (take rx.pkt_buf_size payload) == 0) _ _ (Ensures-ok _ _ refl) (
        Ensures-after _ _ _
          λ buf. process_packet-handles (record rx { pkt_buf = buf }) user buf _ now_us)

  -- Whatever arrives, the receive loop changes neither the socket nor the thread, the port or the pool
  -- of the receiver, nor its configuration.
  pub receiver_loop-handles :
      (arrivals : List Arrival) (rx : Rx F X) (user : X)
      → Ensures (rx_receiver_loop F rx user arrivals) (λ r. handles r.0 ≡ handles rx)
  unfolding rx_receiver_loop
  receiver_loop-handles [] rx user = Ensures-ok _ _ refl
  receiver_loop-handles (failed ∷ rest) rx user = receiver_loop-handles rest rx user
  receiver_loop-handles (datagram payload now_us ∷ rest) rx user =
      Ensures-bind _ _ _ _ (receive-handles rx user payload now_us)
        λ r e. Ensures-weaken _ _ _ (receiver_loop-handles rest r.0 r.1) λ r' e'. e' ∙ e

  pub handles-IsAccounted :
      {p : Platform} {b : ℕ} {rx rx' : Rx F X} {held : Held}
      → handles rx' ≡ handles rx
      → IsAccounted p b rx held
      → IsAccounted p b rx' held
  handles-IsAccounted e a = record {
    blocks = a.blocks;
    sockets = rw (ap (λ r. r.sock) e) a.sockets;
    memberships = rw (ap (λ r. r.sock) e) a.memberships;
    startups = rw (ap (λ r. r.sockets_initialized) e) a.startups;
    ports = rw (ap (λ r. r.iocp) e) a.ports;
    pools = rw (ap (λ r. r.iocp_buffers) e) a.pools;
    threads = rw (ap (λ r. r.thread_started) e) a.threads;
  }

  pub handles-IsRunning :
      {p : Platform} {rx rx' : Rx F X} → handles rx' ≡ handles rx → IsRunning p rx → IsRunning p rx'
  handles-IsRunning e r = record {
    running = ap (λ r. r.running) e ∙ r.running;
    started = ap (λ r. r.thread_started) e ∙ r.started;
    initialized = ap (λ r. r.sockets_initialized) e ∙ r.initialized;
    has_socket = rw (ap (λ r. r.sock) e) r.has_socket;
    has_port = λ w. ap (λ r. r.iocp) e ∙ r.has_port w;
    has_pool = λ w. ap (λ r. r.iocp_buffers) e ∙ r.has_pool w;
  }
