-- ===== src/ObsSource/Shown.antt =====
-- What `st2110_frame_cb` hands to OBS and counts.
use obs_st.Base.{
  refl, [], List, ◌∷◌, ◌≡◌, ◌*◌, length, ℕ, ◌+◌, ◌%◌, arith, ◌^◌, Returns, if◌then◌else◌, ◌⊎◌, ◌≤◌,
  ◌-◌,
}
use obs_st.Types.{uyvy, Config, Frame}
use obs_st.ObsSource.{ObsFrame, Ctx}
use obs_st.Stats.{Floats}
use obs_st.ObsSource.Callback.{
  World, st2110_frame_cb, output_video, count_and_log, on_frame, log_window,
}
use obs_st.Receiver.Stream.{Accepts}

-- A frame of VIDEO_FORMAT_UYVY: two octets for each pixel, and all lines there.
pub record IsUyvy (f : ObsFrame) : Type 0 where
  pub line : f.linesize ≡ 2 * f.width
  pub holds : length f.plane ≡ f.linesize * f.height

abbrev pub AllUyvy : List ObsFrame → Type 0
AllUyvy [] = Unit
AllUyvy (f ∷ rest) = IsUyvy f × AllUyvy rest

abbrev pub HasShown : {F : Floats} → Ctx F → Type 0
HasShown ctx = AllUyvy ctx.shown

module _ {F : Floats} (world : World F) where
  -- The frame that OBS gets for `frame` when the clock has been read i times.
  abbrev pub shown_of : Frame → ℕ → ObsFrame
  shown_of frame i = record {
    plane = frame.plane;
    linesize = frame.linesize;
    width = frame.width;
    height = frame.height;
    timestamp = world.clock i;
  }

  -- What the callback makes of `ctx` at a frame.
  pub record IsDelivered (frame : Frame) (ctx after : Ctx F) : Type 0 where
    pub shown : after.shown ≡ shown_of frame ctx.readings ∷ ctx.shown
    pub delivered : after.frames_delivered ≡ (ctx.frames_delivered + 1) % 2 ^ 64
    pub incomplete : after.frames_skipped_incomplete ≡ (
        if frame.incomplete
        then (ctx.frames_skipped_incomplete + 1) % 2 ^ 64
        else ctx.frames_skipped_incomplete)
    pub readings : after.readings ≡ ctx.readings + 2
    pub window :
        ((after.lines ≡ ctx.lines)
          × (after.last_log_time_ns ≡ ctx.last_log_time_ns)
          × (after.last_log_frames ≡ ctx.last_log_frames))
        ⊎ ((after.last_log_time_ns ≡ world.clock (ctx.readings + 1))
            × (after.last_log_frames ≡ after.frames_delivered)
            × (((ctx.last_log_time_ns ≡ 0) × (after.lines ≡ ctx.lines))
                ⊎ (5000000000
                    ≤ (world.clock (ctx.readings + 1) + 2 ^ 64 - ctx.last_log_time_ns) % 2 ^ 64)))

  -- `st2110_frame_cb` at any frame and any counters: OBS gets one frame more, with the octets, the
  -- dimensions and the line size that the receiver shows and the time of the clock; the frame is
  -- counted, in 64 bits, and once more if it is incomplete; and the window of the log stays as it is,
  -- or begins anew at this frame, without a line where none has begun and otherwise after 5 s at least.
  pub on_frame-IsDelivered :
      (frame : Frame) (ctx : Ctx F) → Returns (on_frame world frame ctx) (IsDelivered frame ctx)
  unfolding st2110_frame_cb output_video count_and_log log_window
  on_frame-IsDelivered frame ctx = (_, refl, ground arith)

  pub on_frame-accepts :
      (config : Config (Ctx F))
      → config.output_fmt ≡ uyvy
      → Accepts config (on_frame world) HasShown
  on_frame-accepts config out frame ctx shown k =
      let (after, e, d) = on_frame-IsDelivered frame ctx in
      (
        after,
        e,
        rw d.shown (record { line = ground (arith, shown.shape); holds = shown.plane_holds }, k),
      )
