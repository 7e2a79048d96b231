-- ===== src/Cli/Counted.antt =====
-- `frame_cb` of libst2110rx/tools/st2110rx-cli.c.
use obs_st.Base.{
  true, ℕ, Bool, ◌≡◌, ◌+◌, ◌<◌, length, ◌%◌, ◌≤◌, ◌*◌, ◌^◌, Returns, if◌then◌else◌, ◌∷◌, ltb, ◌&&◌,
  leb, refl, ok, arith, take_all, u32, sym,
}
use obs_st.Stats.{Floats}
use obs_st.Cli.{
  World, Frame, frame_cb, CliState, write_frame, print_stats, check_limit, count_frame,
}
use obs_st.Types.{Config}
use obs_st.Receiver.Stream.{Accepts}

module _ {F : Floats} (world : World F) where
  -- What the callback makes of the state at a frame.
  pub record IsCounted (frame : Frame) (state after : CliState F) : Type 0 where
    pub seen : after.frames_seen ≡ (state.frames_seen + 1) % 2 ^ 32
    pub written :
        after.written ≡ (if state.output then frame.plane ∷ state.written else state.written)
    pub stop : after.stop_requested ≡ (
        if ltb 0 state.count_limit && leb state.count_limit after.frames_seen
        then true
        else state.stop_requested)
    pub same_limit : after.count_limit ≡ state.count_limit
    pub same_output : after.output ≡ state.output

  write_frame-eq :
      (frame : Frame) (state : CliState F)
      → length frame.plane ≡ frame.linesize * frame.height
      → write_frame world frame state
        ≡ ok (record state {
          written = if state.output then frame.plane ∷ state.written else state.written;
        })
  unfolding write_frame
  write_frame-eq frame state holds =
      let whole = take_all (frame.linesize * frame.height) frame.plane (sym holds) in
      let inside : leb (frame.linesize * frame.height) (length frame.plane) ≡ true = ground arith in
      rw (inside, whole) (ground arith)

  -- The statistics that are printed change nothing else.
  record IsPrinted (state after : CliState F) : Type 0 where
    seen : after.frames_seen ≡ state.frames_seen
    written : after.written ≡ state.written
    stop : after.stop_requested ≡ state.stop_requested
    limit : after.count_limit ≡ state.count_limit
    output : after.output ≡ state.output

  print_stats-IsPrinted :
      (count : ℕ) (state : CliState F) → IsPrinted state (print_stats world count state)
  unfolding print_stats
  print_stats-IsPrinted count state = ground arith

  -- The callback at a frame whose plane has all lines: it returns, one frame more is counted, in 32
  -- bits, the whole plane goes to the file that is open, and the stop is requested, and stays so, when
  -- the count reaches a limit that is not 0.
  pub frame_cb-IsCounted :
      (frame : Frame) (state : CliState F)
      → length frame.plane ≡ frame.linesize * frame.height
      → Returns (frame_cb world frame state) (IsCounted frame state)
  unfolding frame_cb check_limit
  frame_cb-IsCounted frame state holds =
      let counted = count_frame world frame state in
      let p = print_stats-IsPrinted (u32 (state.frames_seen + 1)) (record counted {
        written = if state.output then frame.plane ∷ state.written else state.written;
      }) in
      rw (write_frame-eq frame counted holds)
        (_, refl, ground (arith, p.seen, p.written, p.stop, p.limit, p.output))

  -- A state with the limit c that has requested the stop if its count has reached the limit.
  pub record IsLimited (c : ℕ) (output : Bool) (state : CliState F) : Type 0 where
    pub limit : state.count_limit ≡ c
    pub same_output : state.output ≡ output
    pub stops : 0 < c → c ≤ state.frames_seen → state.stop_requested ≡ true

  pub frame_cb-accepts :
      (c : ℕ) (output : Bool) (config : Config (CliState F))
      → Accepts config (frame_cb world) (IsLimited c output)
  frame_cb-accepts c output config frame state shown k =
      let (after, e, counted) = frame_cb-IsCounted frame state shown.plane_holds in
      (
        after,
        e,
        ground
            (arith, counted.seen, counted.stop, counted.same_limit, counted.same_output, k.stops),
      )
