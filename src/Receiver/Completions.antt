-- ===== src/Receiver/Completions.antt =====
-- The receive loop of Windows: `rx_iocp_post` and `rx_receiver_loop` of libst2110rx/src/rx_core.c.
use obs_st.Base.{
  ℕ, zero, suc, ◌+◌, Bool, true, false, not, ◌||◌, none, some, List, [], ◌∷◌, Bytes, Exec, ok,
  fault, ◌>>=◌, ltb, ◌==◌, if◌then◌else◌, length, get_elem?, set, replicate,
}
use obs_st.Types.{Rc, success, failure}
use obs_st.Stats.{Floats}
use obs_st.Receiver.{Rx}
use obs_st.Receiver.Packet.{rx_process_packet}

-- `RX_IOCP_NUM_BUFFERS`
abbrev pub num_buffers : ℕ
num_buffers = 64

-- Buffer i of the pool is with the system, from its posting to its completion.
abbrev pub Pool : Type 0
Pool = List Bool

-- The answer of `WSARecvFrom`: 0, an error that is WSA_IO_PENDING, or another error.
pub data Posting : Type 0 where
  inline pending refused : Posting

-- `rx_iocp_post`. To post a buffer that the system still fills, or one that is not there, faults.
unfoldable pub rx_iocp_post : Pool → ℕ → Posting → Exec (Pool × Rc)
rx_iocp_post pool i answer = elim (get_elem? pool i) [
  | none ↦ fault
  | some posted ↦ elim posted [
    | true ↦ fault
    | false ↦ elim answer [ refused ↦ ok (pool, failure) | _ ↦ ok (set pool i true, success) ]
  ]
]

-- The first loop, at buffer i with `left` buffers left: every buffer is posted, until one is refused.
unfoldable pub prime : (ℕ → Posting) → ℕ → ℕ → Pool → Exec (Pool × Rc)
prime answers zero i pool = ok (pool, success)
prime answers (suc left) i pool = rx_iocp_post pool i (answers i) >>= λ r. elim r.1 [
  | success ↦ prime answers left (i + 1) r.0
  | failure ↦ ok (r.0, failure)
]

-- An entry that `GetQueuedCompletionStatusEx` dequeued: the wake-up of `st2110rx_stop`, or a buffer,
-- with its octets, of which the system has stored n; then what `running` is behind it, and the answer if
-- the buffer is posted again.
pub record Completion : Type 0 where
  pub buffer : ℕ
  pub octets : Bytes
  pub transferred : ℕ
  pub now_us : ℕ
  pub running : Bool
  pub answer : Posting

pub data Entry : Type 0 where
  wakeup : Entry
  completed : Completion → Entry

-- One call of `GetQueuedCompletionStatusEx`: whether it succeeded, what it dequeued, and what `running`
-- is behind it.
pub record Dequeue : Type 0 where
  pub succeeded : Bool
  pub entries : List Entry
  pub running : Bool

-- The receiver, the user's data and the pool.
pub record Work (F : Floats) (X : Type 0) : Type 0 where
  pub rx : Rx F X
  pub user : X
  pub pool : Pool

-- `if (rx_atomic64_load(&rx->running)) (void)rx_iocp_post(rx, buf)`, at a buffer that came back.
unfoldable pub repost : Completion → Pool → Exec Pool
repost c pool = if c.running then (rx_iocp_post pool c.buffer c.answer >>= λ r. ok r.0) else ok pool

module _ (F : Floats) {X : Type 0} where
  -- The body of the loop over the entries. The completed buffer is the loop's again.
  unfoldable pub complete : Completion → Work F X → Exec (Work F X)
  complete c w = do
    (rx, user) ←
        (if ltb 0 c.transferred
          then rx_process_packet F w.rx w.user c.octets c.transferred c.now_us
          else ok (w.rx, w.user))
    pool ← repost c (set w.pool c.buffer false)
    ok (record { rx = rx; user = user; pool = pool })

  unfoldable pub complete_all : List Entry → Work F X → Exec (Work F X)
  complete_all [] w = ok w
  complete_all (wakeup ∷ rest) w = complete_all rest w
  complete_all (completed c ∷ rest) w = complete c w >>= complete_all rest

  -- The outer loop, over its calls of `GetQueuedCompletionStatusEx` until `running` is 0 at its test.
  unfoldable pub dequeue_loop : List Dequeue → Work F X → Exec (Work F X)
  dequeue_loop [] w = ok w
  dequeue_loop (d ∷ rest) w =
      let next = complete_all d.entries w >>= dequeue_loop rest in
      let skip = dequeue_loop rest w in
      if not d.running
      then ok w
      else (if not d.succeeded || length d.entries == 0 then skip else next)

  -- Behind the first loop: if a buffer was refused there, the thread ends.
  unfoldable pub serve_primed : List Dequeue → Rx F X → X → Pool × Rc → Exec (Work F X)
  serve_primed calls rx user (pool, success) =
      dequeue_loop calls (record { rx = rx; user = user; pool = pool })
  serve_primed calls rx user (pool, failure) = ok (record { rx = rx; user = user; pool = pool })

  -- `rx_receiver_loop`, on a new pool.
  unfoldable pub receive_completions : (ℕ → Posting) → List Dequeue → Rx F X → X → Exec (Work F X)
  receive_completions answers calls rx user =
      prime answers num_buffers 0 (replicate num_buffers false) >>= serve_primed calls rx user
