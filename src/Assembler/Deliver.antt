-- ===== src/Assembler/Deliver.antt =====
-- `deliver_frame` of libst2110rx/src/rx_rfc4175.c.
use obs_st.Base.{ℕ, ◌+◌, ◌*◌, ◌/◌, false, Exec, ok, ◌>>=◌, memset_zero, u32, u64, if◌then◌else◌}
use obs_st.Types.{PixFmt, Frame, FrameCb}
use obs_st.Assembler.{Assembler, buf_size}

abbrev pub swap_buffers : Assembler → Assembler
swap_buffers a = record a { deliver_buf = a.fill_buf; fill_buf = a.deliver_buf }

-- `((uint64_t)timestamp * 1000000000ULL) / 90000ULL`
abbrev pub timestamp_to_ns : ℕ → ℕ
timestamp_to_ns timestamp = u64 (timestamp * 1000000000) / 90000

abbrev pub frame_of : Assembler → PixFmt → ℕ → Frame
frame_of a output_fmt timestamp = record {
  plane = a.deliver_buf;
  linesize = a.fill_stride;
  width = a.width;
  height = a.height;
  format = output_fmt;
  timestamp_ns = timestamp_to_ns timestamp;
  frame_number = a.frame_number;
  incomplete = a.frame_incomplete;
}

unfoldable pub deliver_frame {ℓ} :
    {U : Type ℓ} → Assembler → FrameCb U → U → PixFmt → ℕ → Exec (Assembler × U)
deliver_frame a frame_cb user output_fmt timestamp = do
  let shown = swap_buffers a
  user' ← frame_cb (frame_of shown output_fmt timestamp) user
  fill ← memset_zero shown.fill_buf (buf_size shown)
  ok (
    record shown {
      fill_buf = fill;
      frame_number = u32 (shown.frame_number + 1);
      delivered_incomplete = if shown.frame_incomplete then 1 else 0;
      delivered_timestamp = timestamp;
      frame_incomplete = false;
    },
    user',
  )
