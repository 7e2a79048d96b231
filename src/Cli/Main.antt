-- ===== src/Cli/Main.antt =====
-- `main` of libst2110rx/tools/st2110rx-cli.c, on POSIX.
use Prim.Native.String.{String}
use obs_st.Base.{
  ◌>>=◌, none, some, true, false, [], ok, Bool, ℕ, Exec, List, Option, if◌then◌else◌, u16, ◌∷◌,
}
use obs_st.Types.{uyvy, ycbcr422_10bit, Config, Status}
use obs_st.Resources.{posix, Held, give_back, nothing}
use obs_st.Stats.{Floats}
use obs_st.Cli.{
  CliState, World, Rx, Attempt, is_ok, signal_handler, st2110rx_get_stats, final_line, frame_cb,
}
use obs_st.Receiver.{Grants}
use obs_st.Arguments.{shows_help, refused, proceed, Strtoul, codes, Outcome}
use obs_st.Receiver.Lifecycle.{Answers, st2110rx_start, st2110rx_stop, st2110rx_destroy}
use obs_st.Cli.Arguments.{Args, parse_args}
use obs_st.Receiver.Packet.{Arrival, rx_receiver_loop}
use obs_st.Receiver.Create.{st2110rx_create}

-- What the program meets: the answers of the system, what arrives before the thread ends, whether a
-- SIGINT comes, what the loads of the last statistics see, and whether a join of the receive thread
-- returns.
pub record Surroundings (F : Floats) : Type 0 where
  pub file_ok : Bool
  pub grants : Grants
  pub answers : Answers
  pub arrivals : List Arrival
  pub interrupted : Bool
  pub last_rounds : ℕ → Attempt F
  pub joins : Bool

-- What `main` comes to: an exit, with what is still held and how many files are open, or the loop that
-- waits for `stop_requested`.
pub data End (F : Floats) : Type 0 where
  exited : (code : ℕ) → Held → (files : ℕ) → CliState F → End F
  waiting : CliState F → End F

-- `memset(&g_cli, 0, sizeof(g_cli))`
abbrev pub zero_state : {F : Floats} → CliState F
zero_state = record {
  output = false;
  count_limit = 0;
  stats_every = 0;
  frames_seen = 0;
  stop_requested = false;
  printed = [];
  written = [];
}

-- `if (g_cli.output) { fclose(g_cli.output); }`
abbrev pub close_output : {F : Floats} → CliState F → ℕ → Exec ℕ
close_output state files = if state.output then give_back files else ok files

module _ {F : Floats} (world : World F) (strtoul : Strtoul) (around : Surroundings F) where
  abbrev pub config_of : Args → Config (CliState F)
  config_of args = record {
    multicast_addr = some (codes args.addr);
    port = u16 args.port;
    interface_addr = some (codes args.iface);
    width = args.width;
    height = args.height;
    input_fmt = ycbcr422_10bit;
    output_fmt = uyvy;
    socket_buffer_size = 0;
    enable_jumbo = false;
    frame_cb = some (frame_cb world);
  }

  -- The statistics at the end.
  unfoldable pub print_final : Rx F (CliState F) → CliState F → CliState F
  print_final rx state =
      let (stats, status) = st2110rx_get_stats F (some rx) (some world.unset) around.last_rounds in
      elim stats [
        | none ↦ state
        | some stats' ↦
            if is_ok status
            then record state { printed = final_line stats' ∷ state.printed }
            else state
      ]

  -- Behind the loop that waits.
  unfoldable pub finish : Rx F (CliState F) → CliState F → Held → ℕ → Exec (End F)
  finish rx state held files = do
    (stopped, held1) ← st2110rx_stop F posix around.joins rx held
    let state' = print_final stopped state
    held2 ← st2110rx_destroy F posix around.joins stopped held1
    files' ← close_output state' files
    ok (exited 0 held2 files' state')

  -- The receiver runs: its thread serves what arrives, and `main` waits for `stop_requested`.
  unfoldable pub wait : Rx F (CliState F) → CliState F → Held → ℕ → Exec (End F)
  wait rx state held files = do
    (rx', served) ← rx_receiver_loop F rx state around.arrivals
    let state' = if around.interrupted then signal_handler world served else served
    if state'.stop_requested then finish rx' state' held files else ok (waiting state')

  -- Behind `st2110rx_start`.
  unfoldable pub started : CliState F → ℕ → Rx F (CliState F) × Held × Status → Exec (End F)
  started state files (rx, held, status) = if is_ok status then wait rx state held files else (do
    held' ← st2110rx_destroy F posix around.joins rx held
    files' ← close_output state files
    ok (exited 1 held' files' state))

  -- Behind `st2110rx_create`.
  unfoldable pub created : CliState F → ℕ → Option (Rx F (CliState F)) × Held → Exec (End F)
  created state files (none, held) = do
    files' ← close_output state files
    ok (exited 1 held files' state)
  created state files (some rx, held) =
      st2110rx_start F posix around.answers rx held >>= started state files

  -- Behind `fopen`.
  unfoldable pub run : Args → Bool → ℕ → Exec (End F)
  run args output files =
      st2110rx_create F around.grants (some (config_of args)) nothing
      >>= created
          (record zero_state {
            output = output;
            count_limit = args.count;
            stats_every = args.stats_every;
          })
          files

  -- `if (output_path)`
  unfoldable pub open_output : Args → Option String → Exec (End F)
  open_output args none = run args false 0
  open_output args (some path) =
      if around.file_ok then run args true 1 else ok (exited 1 nothing 0 zero_state)

  -- Behind the loop over the arguments.
  unfoldable pub enter : Outcome Args → Exec (End F)
  enter shows_help = ok (exited 0 nothing 0 zero_state)
  enter refused = ok (exited 1 nothing 0 zero_state)
  enter (proceed args) = open_output args args.output_path

  -- `main` with the arguments behind the program's name.
  unfoldable pub main : List String → Exec (End F)
  main argv = enter (parse_args strtoul argv)
