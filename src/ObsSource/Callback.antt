-- ===== src/ObsSource/Callback.antt =====
-- `st2110_frame_cb` of obs-plugin/src/obs-st2110-source.c.
use obs_st.Base.{
  Option, ℕ, some, u64, ◌+◌, if◌then◌else◌, ◌^◌, ◌∷◌, ◌-◌, ◌==◌, leb, pos, none, ok, fault, Bool,
}
use obs_st.Stats.{Floats, Attempt}
use obs_st.Types.{Frame, FrameCb, is_ok}
use obs_st.ObsSource.{Ctx, Rx, Snapshot, window}
use obs_st.Receiver.Report.{st2110rx_get_stats}

-- `clock i` is the i-th reading of `os_gettime_ns`. `rx i` is the receiver as the callback finds it
-- when it has read the clock i times, and `rounds i` what the loads of its statistics see then; `unset`
-- is what the stack has in the place for the statistics. `joins` tells whether the joins of receive
-- threads return.
pub record World (F : Floats) : Type 0 where
  pub clock : ℕ → ℕ
  pub rx : ℕ → Option (Rx F (Ctx F))
  pub rounds : ℕ → ℕ → Attempt F
  pub unset : Snapshot F
  pub joins : Bool

module _ {F : Floats} (world : World F) where
  -- `ctx->rx && st2110rx_get_stats(ctx->rx, &stats) == ST2110RX_OK`
  unfoldable pub lib_stats : ℕ → Option (Snapshot F)
  lib_stats i = elim (world.rx i) [
    | none ↦ none
    | some rx ↦
        let (stats, status) = st2110rx_get_stats F (some rx) (some world.unset) (world.rounds i) in
        if is_ok status then stats else none
  ]

  -- The summary at the end of a window, where the clock reads `now`.
  unfoldable pub log_window : Ctx F → ℕ → Ctx F
  log_window ctx now =
      let window_frames = u64 (ctx.frames_delivered + 2 ^ 64 - ctx.last_log_frames) in
      let seconds =
        F.over (F.of_int (pos (u64 (now + 2 ^ 64 - ctx.last_log_time_ns))))
          (F.of_int (pos 1000000000)) in
      elim (lib_stats ctx.readings) [
        | none ↦ ctx
        | some stats ↦ record ctx {
          lines =
              window seconds window_frames (F.over (F.of_int (pos window_frames)) seconds)
                ctx.frames_skipped_incomplete stats
              ∷ ctx.lines;
        }
      ]

  -- The part behind `obs_source_output_video`.
  unfoldable pub count_and_log : Ctx F → Ctx F
  count_and_log ctx =
      let now = world.clock ctx.readings in
      let counted = record ctx {
        frames_delivered = u64 (ctx.frames_delivered + 1);
        readings = ctx.readings + 1;
      } in
      if ctx.last_log_time_ns == 0
      then record counted { last_log_time_ns = now; last_log_frames = counted.frames_delivered }
      else (if leb 5000000000 (u64 (now + 2 ^ 64 - ctx.last_log_time_ns))
          then record (log_window counted now) {
            last_log_time_ns = now;
            last_log_frames = counted.frames_delivered;
          }
          else counted)

  -- `obs_source_output_video` with the frame that the code fills in.
  unfoldable pub output_video : Frame → Ctx F → Ctx F
  output_video frame ctx = record ctx {
    readings = ctx.readings + 1;
    shown =
        record {
          plane = frame.plane;
          linesize = frame.linesize;
          width = frame.width;
          height = frame.height;
          timestamp = world.clock ctx.readings;
        }
        ∷ ctx.shown;
  }

  -- `none` is NULL.
  unfoldable pub st2110_frame_cb : Option Frame → Option (Ctx F) → Option (Ctx F)
  st2110_frame_cb (some frame) (some ctx) =
      let marked =
        if frame.incomplete
        then record ctx { frames_skipped_incomplete = u64 (ctx.frames_skipped_incomplete + 1) }
        else ctx in
      some (count_and_log (output_video frame marked))
  st2110_frame_cb _ ctx = ctx

  -- The callback as the receiver calls it, with `user_data` and the frame there.
  abbrev pub on_frame : FrameCb (Ctx F)
  on_frame frame ctx = elim (st2110_frame_cb (some frame) (some ctx)) [
    | none ↦ fault
    | some ctx' ↦ ok ctx'
  ]
