-- ===== src/Cli.antt =====
-- libst2110rx/tools/st2110rx-cli.c: the command-line receiver.
pub mod Arguments
pub mod Spelled
pub mod Main
pub mod Counted
pub mod Waiting
pub mod Exits
use obs_st.Base.{
  none, some, true, ok, fault, Bool, ℕ, Exec, List, Option, if◌then◌else◌, u32, Bytes, ltb, ◌*◌,
  ◌+◌, leb, ◌&&◌, length, ◌%◌, take, ◌==◌, ◌∷◌, ◌>>=◌,
}
use obs_st.Stats.{Floats, Snapshot, Attempt}
use obs_st.Types.{Frame, FrameCb, is_ok}
use obs_st.Receiver.{Rx}
use obs_st.Receiver.Report.{st2110rx_get_stats}

-- What the program prints of frames and statistics.
pub data Line (F : Floats) : Type 0 where
  frame_line : (number width height bytes : ℕ) (incomplete : Bool) → Line F
  stats_line final_line : Snapshot F → Line F

-- `cli_state_t`, but for the receiver, with what was printed and what was handed to `fwrite`, the
-- latest first. `output` tells whether the file is open.
pub record CliState (F : Floats) : Type 0 where
  pub output : Bool
  pub count_limit : ℕ
  pub stats_every : ℕ
  pub frames_seen : ℕ
  pub stop_requested : Bool
  pub printed : List (Line F)
  pub written : List Bytes

-- The receiver as the callback finds it at its frame i, what the loads of its statistics see then, and
-- what the stack has in the place for the statistics.
pub record World (F : Floats) : Type 0 where
  pub rx : ℕ → Option (Rx F (CliState F))
  pub rounds : ℕ → ℕ → Attempt F
  pub unset : Snapshot F

module _ {F : Floats} (world : World F) where
  unfoldable pub signal_handler : CliState F → CliState F
  signal_handler state = record state { stop_requested = true }

  -- `fwrite` of the first `frame_bytes` octets that the plane's pointer shows.
  unfoldable pub write_frame : Frame → CliState F → Exec (CliState F)
  write_frame frame state =
      let frame_bytes = frame.linesize * frame.height in
      if state.output
      then (if leb frame_bytes (length frame.plane)
          then ok (record state { written = take frame_bytes frame.plane ∷ state.written })
          else fault)
      else ok state

  -- The statistics every `stats_every` frames.
  unfoldable pub print_stats : ℕ → CliState F → CliState F
  print_stats count state =
      if ltb 0 state.stats_every && count % state.stats_every == 0
      then (elim (world.rx count) [
        | none ↦ state
        | some rx ↦
            let (stats, status) =
              st2110rx_get_stats F (some rx) (some world.unset) (world.rounds count) in
            elim stats [
              | none ↦ state
              | some stats' ↦
                  if is_ok status
                  then record state { printed = stats_line stats' ∷ state.printed }
                  else state
            ]
      ])
      else state

  -- `if (state->count_limit > 0 && count >= state->count_limit)`
  unfoldable pub check_limit : ℕ → CliState F → CliState F
  check_limit count state =
      if ltb 0 state.count_limit && leb state.count_limit count
      then record state { stop_requested = true }
      else state

  -- The frame is counted and printed.
  abbrev pub count_frame : Frame → CliState F → CliState F
  count_frame frame state = record state {
    frames_seen = u32 (state.frames_seen + 1);
    printed =
        frame_line frame.frame_number frame.width frame.height (u32 (frame.linesize * frame.height))
          frame.incomplete
        ∷ state.printed;
  }

  -- `frame_cb`, with the frame and the state there.
  unfoldable pub frame_cb : FrameCb (CliState F)
  frame_cb frame state = do
    let count = u32 (state.frames_seen + 1)
    written ← write_frame frame (count_frame frame state)
    ok (check_limit count (print_stats count written))
