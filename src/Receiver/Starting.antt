-- ===== src/Receiver/Starting.antt =====
-- The last steps of `st2110rx_start`: the thread, and the ways out behind the open socket.
use obs_st.Base.{
  ℕ, refl, ◌≡◌, ◌≢◌, ◌⊎◌, inl, inr, arith, Bool, true, false, none, Returns, ok, Bool-cases,
  is_null, not, ◌&&◌,
}
use obs_st.Types.{Status, ok_status, err_thread}
use obs_st.Resources.{Platform, windows, posix, Held, nothing}
use obs_st.Socket.{rx_udp_destroy}
use obs_st.Stats.{Floats}
use obs_st.Receiver.{Rx}
use obs_st.Receiver.Lifecycle.{
  Answers, is_windows, cleanup_sockets, drop_socket, drop_iocp, abandon, start_thread,
}
use obs_st.Receiver.Ownership.{IsAccounted, IsRunning, IsStopped}

abbrev portless_held : Platform → Held → Held
portless_held windows held = record held { ports = 0; pools = 0 }
portless_held posix held = held

module _ {F : Floats} {X : Type 0} (p : Platform) (b : ℕ) where
  -- What a start leaves: a running receiver, or an error and a stopped one that holds its blocks.
  pub record IsSettled (r : Rx F X × Held × Status) : Type 0 where
    pub accounted : IsAccounted p b r.0 r.1
    pub outcome : ((r.2 ≡ ok_status) × IsRunning p r.0) ⊎ ((r.2 ≢ ok_status) × IsStopped p r.0)

  -- The moments of a start: the sockets are initialised, the socket is open, no thread runs yet.
  pub record IsStarting (has_sock has_iocp : Bool) (rx : Rx F X) (held : Held) : Type 0 where
    pub accounted : IsAccounted p b rx held
    pub initialized : rx.sockets_initialized ≡ true
    pub socket_state : is_null rx.sock ≡ not has_sock
    pub no_thread : rx.thread_started ≡ false
    pub port_state : (is_windows p && rx.iocp) ≡ (is_windows p && has_iocp)
    pub pool_state : (is_windows p && rx.iocp_buffers) ≡ (is_windows p && has_iocp)

  abbrev pub closed : Rx F X → Rx F X
  closed rx = record rx { sock = none; sockets_initialized = false }

  pub abandon-eq :
      (rx : Rx F X) (held : Held) (code : Status)
      → IsStarting true false rx held
      → abandon F p rx held code ≡ ok (closed rx, record nothing { blocks = b }, code)
  unfolding abandon drop_socket cleanup_sockets rx_udp_destroy
  abandon-eq rx held code s = ground (arith, s.accounted)

  pub closed-IsSettled :
      (rx : Rx F X) (held : Held) (code : Status)
      → IsStarting true false rx held
      → rx.running ≡ false
      → code ≢ ok_status
      → IsSettled (closed rx, record nothing { blocks = b }, code)
  closed-IsSettled rx held code s off bad = record {
    accounted = ground arith;
    outcome = inr (bad, ground arith);
  }

  abbrev portless : Rx F X → Rx F X
  portless rx = elim p [
    | windows ↦ record rx { running = false; iocp = false; iocp_buffers = false }
    | posix ↦ record rx { running = false }
  ]

  drop_iocp-eq :
      (rx : Rx F X) (held : Held)
      → IsStarting true true rx held
      → drop_iocp F p (record rx { running = false }) held ≡ ok (portless rx, portless_held p held)
  unfolding drop_iocp
  drop_iocp-eq rx held s = ground (arith, s.accounted)

  portless-IsStarting :
      (rx : Rx F X) (held : Held)
      → IsStarting true true rx held
      → IsStarting true false (portless rx) (portless_held p held)
  portless-IsStarting rx held s = ground (arith, s.accounted)

  portless-running : (rx : Rx F X) → (portless rx).running ≡ false
  portless-running rx = ground arith

  pub start_thread-IsSettled :
      (answers : Answers) (rx : Rx F X) (held : Held)
      → IsStarting true true rx held
      → rx.running ≡ false
      → Returns (start_thread F p answers rx held) IsSettled
  unfolding start_thread
  start_thread-IsSettled answers rx held s off = elim (Bool-cases answers.thread_ok) [
    | inl created ↦
        rw created
          (_, refl, record { accounted = ground arith; outcome = inl (refl, ground arith) })
    | inr failed ↦
        let s' = portless-IsStarting rx held s in
        rw
          (
            failed,
            drop_iocp-eq rx held s,
            abandon-eq (portless rx) (portless_held p held) err_thread s',
          )
          (
            _,
            refl,
            closed-IsSettled (portless rx) (portless_held p held) err_thread s'
                (portless-running rx) (ground arith),
          )
  ]
