-- ===== src/Types.antt =====
-- libst2110rx/include/st2110rx.h: pixel formats, frames and status codes.
use obs_st.Base.{ℕ, Bool, Bytes, Exec, Option, ◌*◌, true, false, ◌≢◌, ◌≡◌, arith}

-- `st2110rx_pixfmt_t`. `unnamed` is an integer that is cast to the type and is no enumerator.
pub data PixFmt : Type 0 where
  ycbcr422_10bit uyvy p010 v210 : PixFmt
  unnamed : ℕ → PixFmt

-- `st2110rx_frame_t`. Only the first of the four planes is ever set; `plane` is what its pointer
-- shows while the callback runs.
pub record Frame : Type 0 where
  pub plane : Bytes
  pub linesize : ℕ
  pub width : ℕ
  pub height : ℕ
  pub format : PixFmt
  pub timestamp_ns : ℕ
  pub frame_number : ℕ
  pub incomplete : Bool

-- What the functions of the library return: 0 or a negative code.
pub data Status : Type 0 where
  ok_status err_socket err_bind err_igmp err_thread err_invalid err_alloc : Status

-- `rc == ST2110RX_OK`
abbrev pub is_ok : Status → Bool
is_ok ok_status = true
is_ok _ = false

pub is_ok_bad : (code : Status) → code ≢ ok_status → is_ok code ≡ false
is_ok_bad code bad = ground arith

-- An `int` that is 0 or -1.
pub data Rc : Type 0 where
  success failure : Rc

-- `st2110rx_frame_cb`, as a step on what its `user_data` points to.
abbrev pub FrameCb {ℓ} : Type ℓ → Type ℓ
FrameCb U = Frame → U → Exec U

-- `st2110rx_config_t`, without the callback that takes log messages. An address is the characters
-- of its C string; `none` is NULL.
pub record Config {ℓ} (X : Type ℓ) : Type ℓ where
  pub multicast_addr : Option Bytes
  pub port : ℕ
  pub interface_addr : Option Bytes
  pub width : ℕ
  pub height : ℕ
  pub input_fmt : PixFmt
  pub output_fmt : PixFmt
  pub socket_buffer_size : ℕ
  pub enable_jumbo : Bool
  pub frame_cb : Option (FrameCb X)

abbrev pub default_socket_buf : ℕ
default_socket_buf = 128 * 1024 * 1024

abbrev pub default_port : ℕ
default_port = 20000
