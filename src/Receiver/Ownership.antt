-- ===== src/Receiver/Ownership.antt =====
-- What `st2110rx_start`, `st2110rx_stop` and `st2110rx_destroy` hold of the system's resources.
use obs_st.Base.{ℕ, refl, ◌≡◌, arith, Bool, true, false, none, Returns, ok, is_null, not, ◌&&◌, suc}
use obs_st.Resources.{Platform, windows, posix, Held, nothing}
use obs_st.Socket.{rx_udp_destroy}
use obs_st.Stats.{Floats}
use obs_st.Receiver.{Rx}
use obs_st.Receiver.Lifecycle.{
  is_windows, cleanup_sockets, drop_socket, drop_iocp, st2110rx_stop, st2110rx_destroy,
}

abbrev pub one_if : Bool → ℕ
one_if true = 1
one_if false = 0

module _ {F : Floats} {X : Type 0} where
  -- The receiver holds b blocks, and of everything else exactly what its fields say.
  pub record IsAccounted (p : Platform) (b : ℕ) (rx : Rx F X) (held : Held) : Type 0 where
    pub blocks : held.blocks ≡ b
    pub sockets : held.sockets ≡ one_if (not (is_null rx.sock))
    pub memberships : held.memberships ≡ one_if (not (is_null rx.sock))
    pub startups : held.startups ≡ one_if (is_windows p && rx.sockets_initialized)
    pub ports : held.ports ≡ one_if (is_windows p && rx.iocp)
    pub pools : held.pools ≡ one_if (is_windows p && rx.iocp_buffers)
    pub threads : held.threads ≡ one_if rx.thread_started

  -- All of it, and the receiver is marked as running.
  pub record IsRunning (p : Platform) (rx : Rx F X) : Type 0 where
    pub running : rx.running ≡ true
    pub started : rx.thread_started ≡ true
    pub initialized : rx.sockets_initialized ≡ true
    pub has_socket : is_null rx.sock ≡ false
    pub has_port : is_windows p ≡ true → rx.iocp ≡ true
    pub has_pool : is_windows p ≡ true → rx.iocp_buffers ≡ true

  pub record IsStopped (p : Platform) (rx : Rx F X) : Type 0 where
    pub not_running : rx.running ≡ false
    pub no_thread : rx.thread_started ≡ false
    pub not_initialized : rx.sockets_initialized ≡ false
    pub no_socket : rx.sock ≡ none
    pub no_port : (is_windows p && rx.iocp) ≡ false
    pub no_pool : (is_windows p && rx.iocp_buffers) ≡ false

  abbrev stopped_rx : Platform → Rx F X → Rx F X
  stopped_rx windows rx = record rx {
    sock = none;
    running = false;
    thread_started = false;
    sockets_initialized = false;
    iocp = false;
    iocp_buffers = false;
  }
  stopped_rx posix rx = record rx {
    sock = none;
    running = false;
    thread_started = false;
    sockets_initialized = false;
  }

  stop-eq-stopped :
      (p : Platform) (b : ℕ) (rx : Rx F X) (held : Held)
      → IsAccounted p b rx held
      → st2110rx_stop F p true rx held ≡ ok (stopped_rx p rx, record nothing { blocks = b })
  unfolding st2110rx_stop drop_socket drop_iocp cleanup_sockets rx_udp_destroy
  stop-eq-stopped windows b rx held a = ground arith
  stop-eq-stopped posix b rx held a = ground arith

  stopped_rx-IsStopped : (p : Platform) (rx : Rx F X) → IsStopped p (stopped_rx p rx)
  stopped_rx-IsStopped windows rx = ground arith
  stopped_rx-IsStopped posix rx = ground arith

  -- `st2110rx_stop` at a receiver that is accounted for, whatever its state, where a join of its thread
  -- returns: nothing is given back
  -- that is not held, and afterwards the receiver is stopped and holds nothing but its b blocks.
  pub stop-IsStopped :
      (p : Platform) (b : ℕ) {joins : Bool} (rx : Rx F X) (held : Held)
      → joins ≡ true
      → IsAccounted p b rx held
      → Returns
          (st2110rx_stop F p joins rx held)
          (λ r. IsStopped p r.0 × (r.1 ≡ record nothing { blocks = b }))
  stop-IsStopped p b rx held ends a =
      (_, rw ends (stop-eq-stopped p b rx held a), (stopped_rx-IsStopped p rx, refl))

  -- `st2110rx_destroy` at a receiver whose five blocks are held beside b others leaves those.
  pub destroy-eq-blocks :
      (p : Platform) (b : ℕ) {joins : Bool} (rx : Rx F X) (held : Held)
      → joins ≡ true
      → IsAccounted p (suc (suc (suc (suc (suc b))))) rx held
      → st2110rx_destroy F p joins rx held ≡ ok (record nothing { blocks = b })
  unfolding st2110rx_destroy
  destroy-eq-blocks p b rx held ends a =
      rw (ends, stop-eq-stopped p (suc (suc (suc (suc (suc b))))) rx held a) refl

  -- `st2110rx_destroy` at a receiver with its five blocks, where a join of its thread returns, gives
  -- everything back, once.
  pub destroy-eq-nothing :
      (p : Platform) {joins : Bool} (rx : Rx F X) (held : Held)
      → joins ≡ true
      → IsAccounted p 5 rx held
      → st2110rx_destroy F p joins rx held ≡ ok nothing
  destroy-eq-nothing p rx held ends a = destroy-eq-blocks p 0 rx held ends a
