-- ===== src/Tests/Data.antt =====
-- The concrete data of the tests: a picture of one line of two pixels, eight bits each.
use obs_st.Base.{
  ℕ, refl, ◌+◌, ◌-◌, ◌/◌, ◌≡◌, ◌⊎◌, arith, [], ◌∷◌, Bytes, ok, length, Returns, abs, IsBytes, inr,
  some, true, none, pos, false,
}
use obs_st.Types.{uyvy, Frame, FrameCb, Config}
use obs_st.Assembler.{Assembler, cleared, IsReady}
use obs_st.Assembler.Safety.Frames.{IsWhole}
use obs_st.Stats.{Floats}
use obs_st.Socket.{Net}
use obs_st.Receiver.{Rx, new_rx, tabulate}
use obs_st.Receiver.Lifecycle.{Answers}

abbrev pub two_pixels : Assembler
two_pixels = cleared 2 1 4 (0 ∷ 0 ∷ 0 ∷ 0 ∷ []) (9 ∷ 9 ∷ 9 ∷ 9 ∷ [])

pub two_pixels-IsReady : IsReady two_pixels
two_pixels-IsReady = ground arith

-- A marked packet: the fixed header, the extended sequence number, one segment of four octets.
abbrev pub packet : Bytes
packet =
    128 ∷ 224 ∷ 0 ∷ 7 ∷ 0 ∷ 0 ∷ 0 ∷ 9 ∷ 0 ∷ 0 ∷ 0 ∷ 0 ∷ 0 ∷ 0 ∷ 0 ∷ 4 ∷ 0 ∷ 0 ∷ 0 ∷ 0 ∷ 1 ∷ 2 ∷ 3
    ∷ 4 ∷ []

pub packet-IsBytes : IsBytes packet
packet-IsBytes = ground arith

-- A callback that keeps the length of the plane that it was shown.
abbrev pub plane_length : FrameCb ℕ
plane_length frame n = ok (length frame.plane)

abbrev pub IsSize : ℕ → Type 0
IsSize n = (n ≡ 0) ⊎ (n ≡ 4)

pub plane_length-accepts :
    (f : Frame) (n : ℕ) → IsWhole two_pixels uyvy f → IsSize n → Returns (plane_length f n) IsSize
plane_length-accepts f n whole k = (length f.plane, refl, inr (ground arith))

-- Whole numbers in place of the machine's floating point.
abbrev pub whole_numbers : Floats
whole_numbers = record {
  Double = ℕ;
  of_int = abs;
  plus = λ x y. x + y;
  minus = λ x y. x - y;
  over = λ x y. x / y;
}

abbrev pub config : Config ℕ
config = record {
  multicast_addr = some (50 ∷ 51 ∷ 57 ∷ []);
  port = 0;
  interface_addr = none;
  width = 2;
  height = 1;
  input_fmt = uyvy;
  output_fmt = uyvy;
  socket_buffer_size = 0;
  enable_jumbo = false;
  frame_cb = some plane_length;
}

abbrev pub net : Net
net = record { socket = some 3; bind_ok = true; inet_addr = λ name. some 239; join_ok = true }

abbrev pub answers : Answers
answers = record { startup_ok = true; net = net; pool_ok = true; port_ok = true; thread_ok = true }

-- The receiver that is at rest; its packet buffer is cut to what the tests need.
abbrev pub idle : Rx whole_numbers ℕ
idle = record (new_rx whole_numbers config (λ i. 0) (λ i. 0) two_pixels) {
  pkt_buf = tabulate 24 (λ i. 0);
  pkt_buf_size = 24;
}

abbrev pub running : Rx whole_numbers ℕ
running = record idle {
  sock = some (record {
    handle = 3;
    rcvbuf = pos 134217728;
    port = 20000;
    group = record { multiaddr = 239; interface = 0 };
  });
  running = true;
  thread_started = true;
  sockets_initialized = true;
  iocp = true;
  iocp_buffers = true;
}
