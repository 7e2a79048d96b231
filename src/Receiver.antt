-- ===== src/Receiver.antt =====
-- `struct st2110rx` of libst2110rx/src/rx_core.c, with what `st2110rx_create` puts in it.
pub mod Frames
pub mod Packet
pub mod Lifecycle
pub mod Create
pub mod Ownership
pub mod Starting
pub mod Start
pub mod Stream
pub mod Presented
pub mod Flow
pub mod Live
pub mod Kept
pub mod Served
pub mod Shutdown
pub mod Report
pub mod Fresh
pub mod Loop
pub mod Showing
pub mod Delivery
pub mod WholeFrame
pub mod Video
pub mod Completions
pub mod Pool
pub mod Completing
pub mod Priming
pub mod Windows
use obs_st.Base.{
  ℕ, zero, suc, ◌*◌, ◌%◌, ◌+◌, Bool, true, false, not, ◌||◌, Option, none, some, List, [], ◌∷◌,
  Bytes, u32, ◌==◌, if◌then◌else◌,
}
use obs_st.Types.{Config, Rc, success, failure}
use obs_st.Assembler.{Assembler, rx_assembler_init}
use obs_st.Stats.{Floats, StatsState, rx_stats_init}
use obs_st.Socket.{Socket}
use obs_st.Resources.{Held}

-- The fields of both platforms: `iocp` and `iocp_buffers` tell whether the handle and the pool of
-- Windows are there. The group joined stands in the socket.
pub record Rx (F : Floats) (X : Type 0) : Type 0 where
  pub config : Config X
  pub sock : Option Socket
  pub running : Bool
  pub thread_started : Bool
  pub sockets_initialized : Bool
  pub assembler : Assembler
  pub stats : StatsState F
  pub pkt_buf : Bytes
  pub pkt_buf_size : ℕ
  pub convert_buf : Bytes
  pub convert_stride : ℕ
  pub iocp : Bool
  pub iocp_buffers : Bool

-- Octet i of a new block is `f i`.
abbrev pub tabulate : ℕ → (ℕ → ℕ) → Bytes
tabulate zero f = []
tabulate (suc n) f = f 0 ∷ tabulate n (λ i. f (suc i))

-- The system's answers to the allocations, in their order: a block that `malloc` gives has any
-- contents.
pub record Grants : Type 0 where
  pub object : Bool
  pub packet : Option (ℕ → ℕ)
  pub convert : Option (ℕ → ℕ)
  pub fill : Bool
  pub deliver : Bool

-- The assembler inside the object that `calloc` cleared.
abbrev pub zero_assembler : Assembler
zero_assembler = record {
  fill_buf = [];
  deliver_buf = [];
  fill_stride = 0;
  width = 0;
  height = 0;
  pgroup_size = 0;
  pixels_per_group = 0;
  last_seq = 0;
  last_ts = 0;
  has_prev_packet = false;
  frame_incomplete = false;
  frame_delivered = false;
  frame_number = 0;
  delivered_incomplete = 0;
  delivered_timestamp = 0;
}

module _ (F : Floats) {X : Type 0} where
  -- The object, with the blocks that it owns, once all allocations succeeded.
  abbrev pub new_rx : Config X → (ℕ → ℕ) → (ℕ → ℕ) → Assembler → Rx F X
  new_rx config packet convert assembler =
      let size = if config.enable_jumbo then 9200 else 1500 in
      let stride = u32 (config.width * 2) in
      record {
        config = config;
        sock = none;
        running = false;
        thread_started = false;
        sockets_initialized = false;
        assembler = assembler;
        stats = rx_stats_init F;
        pkt_buf = tabulate size packet;
        pkt_buf_size = size;
        convert_buf = tabulate (stride * config.height) convert;
        convert_stride = stride;
        iocp = false;
        iocp_buffers = false;
      }
