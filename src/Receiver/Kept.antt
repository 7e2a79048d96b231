-- ===== src/Receiver/Kept.antt =====
-- What starting a receiver leaves alone: its buffers, its assembler, its statistics and configuration.
use obs_st.Base.{
  refl, Ensures, none, false, ◌≡◌, Ensures-after, Ensures-bind, Ensures-ok, arith, ◌∙◌, Option, not,
  some, true, ◌+◌, Ensures-if, Ensures-weaken, subst, sym,
}
use obs_st.Resources.{windows, posix, Platform, free_pool}
use obs_st.Stats.{Floats}
use obs_st.Receiver.{Rx, Held, Socket, Config}
use obs_st.Receiver.Lifecycle.{
  abandon, cleanup_sockets, drop_iocp, drop_socket, start_thread, Answers, open_iocp,
  st2110rx_start, with_socket, open_socket, rx_socket_init,
}
use obs_st.Types.{Status, err_alloc, err_socket, err_thread}
use obs_st.Socket.{rx_udp_destroy}
use obs_st.Receiver.Live.{IsLive}

module _ {F : Floats} {X : Type 0} where
  -- The receiver without what `st2110rx_start` sets.
  abbrev pub core : Rx F X → Rx F X
  core rx = record rx {
    sock = none;
    running = false;
    thread_started = false;
    sockets_initialized = false;
    iocp = false;
    iocp_buffers = false;
  }

  cleanup_sockets-core :
      (p : Platform) (rx : Rx F X) (held : Held)
      → Ensures (cleanup_sockets F p rx held) (λ r. core r.0 ≡ core rx)
  unfolding cleanup_sockets Ensures
  cleanup_sockets-core p rx held = ground arith

  drop_socket-core :
      (rx : Rx F X) (held : Held) → Ensures (drop_socket F rx held) (λ r. core r.0 ≡ core rx)
  unfolding drop_socket
  drop_socket-core rx held =
      Ensures-after _ (rx_udp_destroy rx.sock held) _ λ h. Ensures-ok _ _ refl

  drop_iocp-core :
      (p : Platform) (rx : Rx F X) (held : Held)
      → Ensures (drop_iocp F p rx held) (λ r. core r.0 ≡ core rx)
  unfolding drop_iocp Ensures
  drop_iocp-core p rx held = ground arith

  abandon-core :
      (p : Platform) (rx : Rx F X) (held : Held) (code : Status)
      → Ensures (abandon F p rx held code) (λ r. core r.0 ≡ core rx)
  unfolding abandon
  abandon-core p rx held code =
      Ensures-bind _ _ _ _ (drop_socket-core rx held) λ r e.
        Ensures-bind _ _ _ _ (cleanup_sockets-core p r.0 r.1) λ r' e'. Ensures-ok _ _ (e' ∙ e)

  start_thread-core :
      (p : Platform) (answers : Answers) (rx : Rx F X) (held : Held)
      → Ensures (start_thread F p answers rx held) (λ r. core r.0 ≡ core rx)
  unfolding start_thread
  start_thread-core p answers rx held = Ensures-if _ answers.thread_ok _ _ (Ensures-ok _ _ refl) (
      Ensures-bind _ _ _ _ (drop_iocp-core p (record rx { running = false }) held)
        λ r e. Ensures-weaken _ _ _ (abandon-core p r.0 r.1 err_thread) λ r' e'. e' ∙ e)

  open_iocp-core :
      (p : Platform) (answers : Answers) (rx : Rx F X) (held : Held)
      → Ensures (open_iocp F p answers rx held) (λ r. core r.0 ≡ core rx)
  unfolding open_iocp
  open_iocp-core posix answers rx held = start_thread-core posix answers rx held
  open_iocp-core windows answers rx held =
      Ensures-if _ (not answers.pool_ok) _ _ (abandon-core windows rx held err_alloc) (
        Ensures-if _ (not answers.port_ok) _ _
          (Ensures-after _ (free_pool (record held { pools = held.pools + 1 })) _
            λ h. abandon-core windows rx h err_socket)
          (start_thread-core windows answers (record rx { iocp_buffers = true; iocp = true }) _))

  with_socket-core :
      (p : Platform) (answers : Answers) (rx : Rx F X) (r : Option Socket × Held)
      → Ensures (with_socket F p answers rx r) (λ r'. core r'.0 ≡ core rx)
  unfolding with_socket
  with_socket-core p answers rx (none, held) =
      Ensures-bind _ _ _ _ (cleanup_sockets-core p (record rx { sock = none }) held)
        λ r e. Ensures-ok _ _ e
  with_socket-core p answers rx (some s, held) =
      open_iocp-core p answers (record rx { sock = some s }) held

  -- Whatever `st2110rx_start` returns, the receiver has the buffers, the assembler, the statistics and
  -- the configuration that it had.
  pub start-core :
      (p : Platform) (answers : Answers) (rx : Rx F X) (held : Held)
      → Ensures (st2110rx_start F p answers rx held) (λ r. core r.0 ≡ core rx)
  unfolding st2110rx_start open_socket
  start-core p answers rx held = Ensures-if _ rx.running _ _ (Ensures-ok _ _ refl) (
      Ensures-if _ (not (rx_socket_init p answers.startup_ok held).1) _ _ (Ensures-ok _ _ refl) (
        Ensures-after _ _ _
          (with_socket-core p answers (record rx { sockets_initialized = true }))))

  pub core-IsLive :
      {config : Config X} {rx rx' : Rx F X}
      → core rx' ≡ core rx
      → IsLive config rx
      → IsLive config rx'
  core-IsLive {config} {rx} {rx'} e l = from (subst (IsLive config) (sym e) (to l))
    where
      to : IsLive config rx → IsLive config (core rx)
      to l = record {
        same_config = l.same_config;
        ready = l.ready;
        asm_width = l.asm_width;
        asm_height = l.asm_height;
        asm_pgroup = l.asm_pgroup;
        stride = l.stride;
        convert_holds = l.convert_holds;
        pkt_holds = l.pkt_holds;
        pkt_room = l.pkt_room;
        pkt_octets = l.pkt_octets;
        stats_range = l.stats_range;
      }

      from : IsLive config (core rx') → IsLive config rx'
      from l = record {
        same_config = l.same_config;
        ready = l.ready;
        asm_width = l.asm_width;
        asm_height = l.asm_height;
        asm_pgroup = l.asm_pgroup;
        stride = l.stride;
        convert_holds = l.convert_holds;
        pkt_holds = l.pkt_holds;
        pkt_room = l.pkt_room;
        pkt_octets = l.pkt_octets;
        stats_range = l.stats_range;
      }
