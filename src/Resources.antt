-- ===== src/Resources.antt =====
-- What the system has given a receiver and has not got back. To give back what is not held faults, and
-- so does a call that waits for ever.
use obs_st.Base.{ℕ, zero, suc, Exec, ok, fault, ◌>>=◌, Bool, if◌then◌else◌}

pub data Platform : Type 0 where
  windows posix : Platform

-- Blocks of memory, open sockets, multicast memberships, `WSAStartup` calls, completion ports, pools
-- of overlapped buffers, and threads that were not joined.
pub record Held : Type 0 where
  pub blocks : ℕ
  pub sockets : ℕ
  pub memberships : ℕ
  pub startups : ℕ
  pub ports : ℕ
  pub pools : ℕ
  pub threads : ℕ

abbrev pub give_back : ℕ → Exec ℕ
give_back zero = fault
give_back (suc n) = ok n

abbrev pub free_block : Held → Exec Held
free_block h = do n ← give_back h.blocks; ok (record h { blocks = n })

abbrev pub close_socket : Held → Exec Held
close_socket h = do n ← give_back h.sockets; ok (record h { sockets = n })

abbrev pub drop_membership : Held → Exec Held
drop_membership h = do n ← give_back h.memberships; ok (record h { memberships = n })

abbrev pub wsa_cleanup : Held → Exec Held
wsa_cleanup h = do n ← give_back h.startups; ok (record h { startups = n })

abbrev pub close_port : Held → Exec Held
close_port h = do n ← give_back h.ports; ok (record h { ports = n })

abbrev pub free_pool : Held → Exec Held
free_pool h = do n ← give_back h.pools; ok (record h { pools = n })

-- `joins` tells whether the join returns: the thread may not end, and then the call waits for ever.
abbrev pub join_thread : Bool → Held → Exec Held
join_thread joins h =
    if joins then (do n ← give_back h.threads; ok (record h { threads = n })) else fault

abbrev pub nothing : Held
nothing = record {
  blocks = 0;
  sockets = 0;
  memberships = 0;
  startups = 0;
  ports = 0;
  pools = 0;
  threads = 0;
}
