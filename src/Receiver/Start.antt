-- ===== src/Receiver/Start.antt =====
-- `st2110rx_start` as a whole.
use native.Mathlib.Numerals.{add-one}
use obs_st.Base.{
  ℕ, refl, ◌+◌, ◌≡◌, ◌≢◌, inl, inr, arith, Bool, true, false, Option, none, some, Returns, ok,
  Bool-cases, Returns-bind,
}
use obs_st.Types.{Status, ok_status, err_socket, err_bind, err_alloc}
use obs_st.Resources.{Platform, windows, posix, Held, nothing}
use obs_st.Socket.{Socket}
use obs_st.Socket.Open.{udp_create-Opens, Opens, IsOpened}
use obs_st.Stats.{Floats}
use obs_st.Receiver.{Rx}
use obs_st.Receiver.Lifecycle.{
  Answers, cleanup_sockets, open_iocp, open_socket, st2110rx_start, rx_socket_init, with_socket,
}
use obs_st.Receiver.Starting.{
  IsSettled, IsStarting, abandon-eq, closed-IsSettled, start_thread-IsSettled,
}
use obs_st.Receiver.Ownership.{IsAccounted, IsStopped}

abbrev with_iocp_held : Held → Held
with_iocp_held held = record held { pools = held.pools + 1; ports = held.ports + 1 }

module _ {F : Floats} {X : Type 0} where
  abbrev with_iocp : Platform → Rx F X → Rx F X
  with_iocp windows rx = record rx { iocp_buffers = true; iocp = true }
  with_iocp posix rx = rx

  windows-IsStarting :
      (b : ℕ) (rx : Rx F X) (held : Held)
      → IsStarting windows b true false rx held
      → IsStarting windows b true true (with_iocp windows rx) (with_iocp_held held)
  windows-IsStarting b rx held s = ground (arith, s.accounted)

  posix-IsStarting :
      (b : ℕ) (rx : Rx F X) (held : Held)
      → IsStarting posix b true false rx held
      → IsStarting posix b true true rx held
  posix-IsStarting b rx held s = ground (arith, s.accounted)

  open_iocp-IsSettled :
      (p : Platform) (b : ℕ) (answers : Answers) (rx : Rx F X) (held : Held)
      → IsStarting p b true false rx held
      → rx.running ≡ false
      → Returns (open_iocp F p answers rx held) (IsSettled p b)
  unfolding open_iocp
  open_iocp-IsSettled posix b answers rx held s off =
      start_thread-IsSettled posix b answers rx held (posix-IsStarting b rx held s) off
  open_iocp-IsSettled windows b answers rx held s off = elim (Bool-cases answers.pool_ok) [
    | inr no_pool ↦ (
      _,
      rw no_pool (abandon-eq windows b rx held err_alloc s),
      closed-IsSettled windows b rx held err_alloc s off (ground arith),
    )
    | inl pool ↦ elim (Bool-cases answers.port_ok) [
      | inr no_port ↦ (
        _,
        rw (pool, no_port, add-one) (abandon-eq windows b rx held err_socket s),
        closed-IsSettled windows b rx held err_socket s off (ground arith),
      )
      | inl port ↦
          let (r, e, settled) =
            start_thread-IsSettled windows b answers (with_iocp windows rx) (with_iocp_held held)
              (windows-IsStarting b rx held s) off in
          (r, simp (pool, port) e, settled)
    ]
  ]

  cleanup-eq :
      (p : Platform) (b : ℕ) (rx : Rx F X) (held : Held)
      → IsStarting p b false false rx held
      → cleanup_sockets F p rx held
        ≡ ok (record rx { sockets_initialized = false }, record nothing { blocks = b })
  unfolding cleanup_sockets
  cleanup-eq p b rx held s = ground (arith, s.accounted)

  uninitialized-IsSettled :
      (p : Platform) (b : ℕ) (rx : Rx F X) (held : Held) (code : Status)
      → IsStarting p b false false rx held
      → rx.running ≡ false
      → code ≢ ok_status
      → IsSettled p b
          (record rx { sockets_initialized = false }, record nothing { blocks = b }, code)
  uninitialized-IsSettled p b rx held code s off bad = record {
    accounted = ground arith;
    outcome = inr (bad, ground arith);
  }

  socket-IsStarting :
      (p : Platform) (b : ℕ) (rx : Rx F X) (held : Held) (s : Socket)
      → IsStarting p b false false rx held
      → IsStarting p b true false
          (record rx { sock = some s })
          (record held { sockets = held.sockets + 1; memberships = held.memberships + 1 })
  socket-IsStarting p b rx held s st = ground (arith, st.accounted)

  with_socket-IsSettled :
      (p : Platform) (b : ℕ) (answers : Answers) (rx : Rx F X) (held : Held)
      → IsStarting p b false false rx held
      → rx.running ≡ false
      → (r : Option Socket × Held) → Opens (IsOpened answers.net rx.config) held r
      → Returns (with_socket F p answers rx r) (IsSettled p b)
  unfolding with_socket
  with_socket-IsSettled p b answers rx held s off (none, held') opens =
      let s' : IsStarting p b false false (record rx { sock = none }) held' =
        ground (arith, s.accounted) in
      rw (cleanup-eq p b (record rx { sock = none }) held' s') (
        _,
        refl,
        uninitialized-IsSettled p b (record rx { sock = none }) held' err_bind s' off
            (ground arith),
      )
  with_socket-IsSettled p b answers rx held s off (some sock, held') opens = rw opens.1 (
      open_iocp-IsSettled p b answers (record rx { sock = some sock }) _
        (socket-IsStarting p b rx held sock s) off)

  open_socket-IsSettled :
      (p : Platform) (b : ℕ) (answers : Answers) (rx : Rx F X) (held : Held)
      → IsStarting p b false false rx held
      → rx.running ≡ false
      → Returns (open_socket F p answers rx held) (IsSettled p b)
  unfolding open_socket
  open_socket-IsSettled p b answers rx held s off =
      Returns-bind (udp_create-Opens answers.net rx.config held)
        (with_socket-IsSettled p b answers rx held s off)

  initialized-IsStarting :
      (p : Platform) (b : ℕ) (rx : Rx F X) (held : Held) (startup_ok : Bool)
      → IsAccounted p b rx held
      → IsStopped p rx
      → (rx_socket_init p startup_ok held).1 ≡ true
      → IsStarting p b false false
          (record rx { sockets_initialized = true })
          (rx_socket_init p startup_ok held).0
  initialized-IsStarting p b rx held startup_ok a st h = ground arith

  start-eq-open :
      (p : Platform) (answers : Answers) (rx : Rx F X) (held : Held)
      → rx.running ≡ false
      → (rx_socket_init p answers.startup_ok held).1 ≡ true
      → st2110rx_start F p answers rx held
        ≡ open_socket F p answers
            (record rx { sockets_initialized = true })
            (rx_socket_init p answers.startup_ok held).0
  unfolding st2110rx_start
  start-eq-open p answers rx held off e = ground arith

  start-eq-refused :
      (p : Platform) (answers : Answers) (rx : Rx F X) (held : Held)
      → rx.running ≡ false
      → (rx_socket_init p answers.startup_ok held).1 ≡ false
      → st2110rx_start F p answers rx held ≡ ok (rx, held, err_socket)
  unfolding st2110rx_start
  start-eq-refused p answers rx held off e = ground arith

  -- `st2110rx_start` at a stopped receiver takes everything or nothing: it returns, and either the
  -- result is ST2110RX_OK and the receiver runs with its thread, its socket and, on Windows, its port
  -- and pool, or the result is an error and the receiver is stopped; in both cases exactly what its
  -- fields say is held.
  pub start-IsSettled :
      (p : Platform) (b : ℕ) (answers : Answers) (rx : Rx F X) (held : Held)
      → IsAccounted p b rx held
      → IsStopped p rx
      → Returns (st2110rx_start F p answers rx held) (IsSettled p b)
  unfolding st2110rx_start
  start-IsSettled p b answers rx held a st =
      elim (Bool-cases (rx_socket_init p answers.startup_ok held).1) [
        | inr failed ↦ (
          (rx, held, err_socket),
          start-eq-refused p answers rx held st.not_running failed,
          record { accounted = a; outcome = inr (ground arith, st) },
        )
        | inl initialized ↦ rw (start-eq-open p answers rx held st.not_running initialized) (
            open_socket-IsSettled p b answers (record rx { sockets_initialized = true })
              (rx_socket_init p answers.startup_ok held).0
              (initialized-IsStarting p b rx held answers.startup_ok a st initialized)
              st.not_running)
      ]
