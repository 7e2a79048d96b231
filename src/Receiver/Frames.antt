-- ===== src/Receiver/Frames.antt =====
-- `rx_internal_frame_cb` of libst2110rx/src/rx_core.c: the step from an assembled frame to the
-- frame that the user's callback gets.
use obs_st.Base.{ℕ, Bool, true, false, none, some, Bytes, Exec, ok, ◌>>=◌, if◌then◌else◌}
use obs_st.Types.{PixFmt, uyvy, ycbcr422_10bit, Frame, FrameCb, Config}
use obs_st.Convert.{rx_convert_be10_to_uyvy}

-- What the callback changes: the receiver's conversion buffer, and what the user's callback does.
pub record Sink (X : Type 0) : Type 0 where
  pub convert_buf : Bytes
  pub user : X

abbrev pub is_uyvy : PixFmt → Bool
is_uyvy uyvy = true
is_uyvy _ = false

abbrev pub is_10bit : PixFmt → Bool
is_10bit ycbcr422_10bit = true
is_10bit _ = false

module _ {X : Type 0} where
  abbrev pub call_user : FrameCb X → Frame → Sink X → Exec (Sink X)
  call_user frame_cb out sink = do user ← frame_cb out sink.user; ok (record sink { user = user })

  -- The picture in the conversion buffer, as the user's callback sees it.
  unfoldable pub convert_frame : FrameCb X → ℕ → Frame → Sink X → Exec (Sink X)
  convert_frame frame_cb convert_stride frame sink = do
    converted ←
        rx_convert_be10_to_uyvy frame.plane frame.linesize sink.convert_buf convert_stride
          frame.width frame.height
    call_user frame_cb
        (record frame { plane = converted; linesize = convert_stride; format = uyvy })
        (record sink { convert_buf = converted })

  unfoldable pub rx_internal_frame_cb : Config X → ℕ → FrameCb (Sink X)
  rx_internal_frame_cb config convert_stride frame sink = elim config.frame_cb [
    | none ↦ ok sink
    | some frame_cb ↦
        if is_uyvy config.output_fmt
        then (if is_uyvy frame.format
            then call_user frame_cb (record frame { format = uyvy }) sink
            else (if is_10bit frame.format
                then convert_frame frame_cb convert_stride frame sink
                else ok sink))
        else call_user frame_cb frame sink
  ]
