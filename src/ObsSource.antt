-- ===== src/ObsSource.antt =====
-- obs-plugin/src/obs-st2110-source.c: the source of the OBS plugin.
pub mod Callback
pub mod Lifecycle
pub mod Shown
pub mod Owned
pub mod Life
pub mod Page
pub mod Offered
use obs_st.Base.{
  Bytes, Option, some, ℕ, List, if◌then◌else◌, ℤ, ◌∷◌, [], pos, ◌==◌, ◌%◌, ◌^◌, negsuc, ◌-◌, none,
}
use obs_st.Types.{PixFmt, ycbcr422_10bit, uyvy, p010, v210, Status, unnamed}
use obs_st.Stats.{Floats, Snapshot}
use obs_st.Receiver.{Rx}

-- What OBS shows: the fields of `struct obs_source_frame` that the code sets. `plane` is what its
-- data pointer shows. Its format is VIDEO_FORMAT_UYVY, and its colours are those of VIDEO_CS_709 and VIDEO_RANGE_PARTIAL.
pub record ObsFrame : Type 0 where
  pub plane : Bytes
  pub linesize : ℕ
  pub width : ℕ
  pub height : ℕ
  pub timestamp : ℕ

-- What `blog` prints of the callback and of the receiver's start.
pub data Line (F : Floats) : Type 0 where
  window :
      (seconds : F.Double) (delivered : ℕ) (fps : F.Double) (incomplete_total : ℕ)
      (lib : Snapshot F)
      → Line F
  missing_settings create_failed receiving : Line F
  start_failed : Status → Line F

-- The fields of `struct st2110_source` that the callback changes, the number of times that it has read
-- the clock, and what it has handed to OBS, the latest first.
pub record Ctx (F : Floats) : Type 0 where
  pub frames_delivered : ℕ
  pub frames_skipped_incomplete : ℕ
  pub last_log_frames : ℕ
  pub last_log_time_ns : ℕ
  pub readings : ℕ
  pub shown : List ObsFrame
  pub lines : List (Line F)

-- `struct st2110_source`, but for the `source` that it passes on to OBS.
pub record Source (F : Floats) : Type 0 where
  pub rx : Option (Rx F (Ctx F))
  pub width : ℕ
  pub height : ℕ
  pub ctx : Ctx F

-- What `obs_data_get_string` and `obs_data_get_int` say of the settings; `none` is NULL.
pub record Settings : Type 0 where
  pub multicast_addr : Option Bytes
  pub port : ℤ
  pub interface_addr : Option Bytes
  pub width : ℤ
  pub height : ℤ
  pub socket_buffer_mb : ℤ
  pub input_depth : ℤ

-- A `long long` cast to an unsigned type of w bits.
abbrev pub to_word : ℕ → ℤ → ℕ
to_word w (pos n) = n % 2 ^ w
to_word w (negsuc n) = 2 ^ w - 1 - n % 2 ^ w

-- `(st2110rx_pixfmt_t)n` for a word of 32 bits.
abbrev pub pixfmt_of : ℕ → PixFmt
pixfmt_of n =
    if n == 0
    then ycbcr422_10bit
    else (if n == 1 then uyvy else (if n == 2 then p010 else (if n == 3 then v210 else unnamed n)))

-- `st2110_defaults`
abbrev pub st2110_defaults : Settings
st2110_defaults = record {
  multicast_addr = some (50 ∷ 51 ∷ 57 ∷ 46 ∷ 49 ∷ 48 ∷ 46 ∷ 50 ∷ 49 ∷ 46 ∷ 50 ∷ 48 ∷ []);
  port = pos 5000;
  interface_addr = some [];
  width = pos 1920;
  height = pos 1080;
  socket_buffer_mb = pos 128;
  input_depth = pos 1;
}

-- `st2110_get_width` and `st2110_get_height`; `none` is NULL.
abbrev pub st2110_get_width : {F : Floats} → Option (Source F) → ℕ
st2110_get_width none = 0
st2110_get_width (some source) = source.width

abbrev pub st2110_get_height : {F : Floats} → Option (Source F) → ℕ
st2110_get_height none = 0
st2110_get_height (some source) = source.height
