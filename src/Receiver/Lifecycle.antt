-- ===== src/Receiver/Lifecycle.antt =====
-- `st2110rx_start`, `st2110rx_stop` and `st2110rx_destroy` of libst2110rx/src/rx_core.c, with what
-- they take from the system and give back.
use obs_st.Base.{◌+◌, Bool, true, false, not, none, some, Exec, ok, ◌>>=◌, if◌then◌else◌, Option}
use obs_st.Types.{Status, ok_status, err_socket, err_bind, err_thread, err_alloc}
use obs_st.Resources.{
  Platform, windows, posix, Held, free_block, wsa_cleanup, close_port, free_pool, join_thread,
}
use obs_st.Socket.{Socket, Net, rx_udp_create, rx_udp_destroy}
use obs_st.Stats.{Floats}
use obs_st.Receiver.{Rx}

-- The system's answers while a receiver starts.
pub record Answers : Type 0 where
  pub startup_ok : Bool
  pub net : Net
  pub pool_ok : Bool
  pub port_ok : Bool
  pub thread_ok : Bool

abbrev pub is_windows : Platform → Bool
is_windows windows = true
is_windows posix = false

-- `rx_socket_init` and `rx_socket_cleanup`: nothing on POSIX.
abbrev pub rx_socket_init : Platform → Bool → Held → Held × Bool
rx_socket_init posix startup_ok held = (held, true)
rx_socket_init windows false held = (held, false)
rx_socket_init windows true held = (record held { startups = held.startups + 1 }, true)

abbrev pub rx_socket_cleanup : Platform → Held → Exec Held
rx_socket_cleanup posix held = ok held
rx_socket_cleanup windows held = wsa_cleanup held

module _ (F : Floats) {X : Type 0} where
  -- `if (rx->sockets_initialized) { rx_socket_cleanup(); ... }`
  unfoldable pub cleanup_sockets : Platform → Rx F X → Held → Exec (Rx F X × Held)
  cleanup_sockets p rx held =
      if rx.sockets_initialized
      then (do
        held' ← rx_socket_cleanup p held
        ok (record rx { sockets_initialized = false }, held'))
      else ok (rx, held)

  -- `rx_udp_destroy(rx->sock, &rx->mreq); rx->sock = RX_INVALID_SOCKET`
  unfoldable pub drop_socket : Rx F X → Held → Exec (Rx F X × Held)
  drop_socket rx held = do
    held' ← rx_udp_destroy rx.sock held
    ok (record rx { sock = none }, held')

  -- `if (rx->iocp) { CloseHandle(rx->iocp); ... } free(rx->iocp_buffers); ...`, on Windows.
  unfoldable pub drop_iocp : Platform → Rx F X → Held → Exec (Rx F X × Held)
  drop_iocp posix rx held = ok (rx, held)
  drop_iocp windows rx held = do
    held1 ← (if rx.iocp then close_port held else ok held)
    held2 ← (if rx.iocp_buffers then free_pool held1 else ok held1)
    ok (record rx { iocp = false; iocp_buffers = false }, held2)

  -- The ways out of a start that failed with the socket open.
  unfoldable pub abandon : Platform → Rx F X → Held → Status → Exec (Rx F X × Held × Status)
  abandon p rx held status = do
    (rx1, held1) ← drop_socket rx held
    (rx2, held2) ← cleanup_sockets p rx1 held1
    ok (rx2, held2, status)

  -- From `rx_atomic64_store(&rx->running, 1)` on.
  unfoldable pub start_thread : Platform → Answers → Rx F X → Held → Exec (Rx F X × Held × Status)
  start_thread p answers rx held =
      if answers.thread_ok
      then ok (
        record rx { running = true; thread_started = true },
        record held { threads = held.threads + 1 },
        ok_status,
      )
      else (do
        (rx1, held1) ← drop_iocp p (record rx { running = false }) held
        abandon p rx1 held1 err_thread)

  -- The pool and the completion port of Windows.
  unfoldable pub open_iocp : Platform → Answers → Rx F X → Held → Exec (Rx F X × Held × Status)
  open_iocp posix answers rx held = start_thread posix answers rx held
  open_iocp windows answers rx held =
      if not answers.pool_ok
      then abandon windows rx held err_alloc
      else (let with_pool = record held { pools = held.pools + 1 } in
          if not answers.port_ok
          then (free_pool with_pool >>= λ held'. abandon windows rx held' err_socket)
          else start_thread windows answers (record rx { iocp_buffers = true; iocp = true })
              (record with_pool { ports = with_pool.ports + 1 }))

  -- Behind the call of `rx_udp_create`.
  unfoldable pub with_socket :
      Platform → Answers → Rx F X → Option Socket × Held → Exec (Rx F X × Held × Status)
  with_socket p answers rx (none, held) = do
    (rx1, held1) ← cleanup_sockets p (record rx { sock = none }) held
    ok (rx1, held1, err_bind)
  with_socket p answers rx (some s, held) = open_iocp p answers (record rx { sock = some s }) held

  unfoldable pub open_socket : Platform → Answers → Rx F X → Held → Exec (Rx F X × Held × Status)
  open_socket p answers rx held =
      rx_udp_create answers.net (some rx.config) held >>= with_socket p answers rx

  -- `st2110rx_start` at a receiver that is not NULL; at NULL it returns ST2110RX_ERR_INVALID.
  unfoldable pub st2110rx_start : Platform → Answers → Rx F X → Held → Exec (Rx F X × Held × Status)
  st2110rx_start p answers rx held =
      if rx.running
      then ok (rx, held, ok_status)
      else (let (held1, initialized) = rx_socket_init p answers.startup_ok held in
          if not initialized
          then ok (rx, held1, err_socket)
          else open_socket p answers (record rx { sockets_initialized = true }) held1)

  -- `st2110rx_stop` at a receiver that is not NULL; at NULL it does nothing. The wake-up that it posts
  -- to the completion port takes nothing from the system. `joins` tells whether the join of the
  -- receive thread returns.
  unfoldable pub st2110rx_stop : Platform → Bool → Rx F X → Held → Exec (Rx F X × Held)
  st2110rx_stop p joins rx held = do
    (rx1, held1) ← drop_socket (record rx { running = false }) held
    (rx2, held2) ←
        (if rx1.thread_started
          then (join_thread joins held1 >>= λ h. ok (record rx1 { thread_started = false }, h))
          else ok (rx1, held1))
    (rx3, held3) ← drop_iocp p rx2 held2
    cleanup_sockets p rx3 held3

  -- `st2110rx_destroy` at a receiver that is not NULL: the two buffers of the assembler, the two of the
  -- receiver and the object itself go back.
  unfoldable pub st2110rx_destroy : Platform → Bool → Rx F X → Held → Exec Held
  st2110rx_destroy p joins rx held = do
    (rx1, held1) ← st2110rx_stop p joins rx held
    held2 ← free_block held1
    held3 ← free_block held2
    held4 ← free_block held3
    held5 ← free_block held4
    free_block held5
