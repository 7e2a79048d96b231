-- ===== src/Cli/Exits.antt =====
-- Every way out of `main` of libst2110rx/tools/st2110rx-cli.c.
use Prim.Native.String.{String}
use obs_st.Base.{
  some, false, ◌≡◌, arith, ℕ, Returns, ◌<◌, Returns-bind, Returns-both, ap, true, refl, inl, inr,
  Bool, ◌∙◌, List, none, Option, Returns-if,
}
use obs_st.Resources.{posix, nothing, Held}
use obs_st.Stats.{Floats, rx_stats_init}
use obs_st.Cli.Main.{
  Surroundings, config_of, main, run, started, created, open_output, enter, zero_state,
}
use obs_st.Cli.{World, CliState, Rx, frame_cb}
use obs_st.Arguments.{Strtoul, proceed, refused, shows_help, Outcome}
use obs_st.Receiver.Ownership.{IsAccounted, IsStopped, one_if, destroy-eq-nothing}
use obs_st.Types.{Config, Status, is_ok_bad}
use obs_st.Receiver.Live.{IsLive}
use obs_st.Receiver.Loop.{IsFeed}
use obs_st.Cli.Counted.{IsLimited}
use obs_st.Receiver.Starting.{IsSettled}
use obs_st.Cli.Arguments.{Args, parse_args}
use obs_st.Receiver.Kept.{core, core-IsLive, start-core}
use obs_st.Receiver.Fresh.{create-IsNew, IsNew}
use obs_st.Receiver.Start.{start-IsSettled}
use obs_st.Cli.Waiting.{IsEnd, close_output-eq, wait-IsEnd}

module _ {F : Floats} (world : World F) (strtoul : Strtoul) (around : Surroundings F) where
  -- The system's memory holds octets.
  abbrev HasOctets : Type 0
  HasOctets = (f : ℕ → ℕ) → around.grants.packet ≡ some f → (i : ℕ) → f i < 256

  started-IsEnd :
      (state : CliState F) (config : Config (CliState F)) (rx rx' : Rx F (CliState F)) (held : Held)
      (code : Status)
      → around.joins ≡ true
      → IsLive config rx
      → config.frame_cb ≡ some (frame_cb world)
      → rx.stats ≡ rx_stats_init F
      → IsSettled posix 5 (rx', held, code)
      → core rx' ≡ core rx
      → IsFeed 0 around.arrivals
      → IsLimited world state.count_limit state.output state
      → Returns (started world strtoul around state (one_if state.output) (rx', held, code)) IsEnd
  unfolding started
  started-IsEnd state config rx rx' held code ends live is_cb fresh settled same feed limited =
      elim settled.outcome [
        | inl (fine, running) ↦ rw fine (
            wait-IsEnd world strtoul around rx' state held config ends settled.accounted
              (core-IsLive same live) is_cb (ap (λ r. r.stats) same ∙ fresh) feed limited)
        | inr (bad, stopped) ↦
            rw
              (
                is_ok_bad code bad,
                destroy-eq-nothing posix rx' held ends settled.accounted,
                close_output-eq world strtoul around state.output state refl,
              )
              (_, refl, (refl, refl, omega arith))
      ]

  -- The state with which the receiver is created.
  abbrev first_state : Args → Bool → CliState F
  first_state args output = record zero_state {
    output = output;
    count_limit = args.count;
    stats_every = args.stats_every;
  }

  first-IsLimited :
      (args : Args) (output : Bool) → IsLimited world args.count output (first_state args output)
  first-IsLimited args output = record {
    limit = refl;
    same_output = refl;
    stops = λ p q. absurd (omega arith);
  }

  new-IsAccounted :
      (config : Config (CliState F)) (rx : Rx F (CliState F)) (held : Held)
      → IsNew config nothing (some rx, held)
      → IsAccounted posix 5 rx held × IsStopped posix rx
  new-IsAccounted config rx held
        (live, off, no_sock, no_thread, clear, e, no_port, no_pool, fresh) =
      ground arith

  created-IsEnd :
      (args : Args) (output : Bool) (r : Option (Rx F (CliState F)) × Held)
      → around.joins ≡ true
      → IsFeed 0 around.arrivals
      → IsNew (config_of world strtoul around args) nothing r
      → Returns (created world strtoul around (first_state args output) (one_if output) r) IsEnd
  unfolding created
  created-IsEnd args output (none, held) ends feed e =
      rw (close_output-eq world strtoul around output (first_state args output) refl)
        (_, refl, (e, refl, omega arith))
  created-IsEnd args output (some rx, held) ends feed new =
      let config = config_of world strtoul around args in
      let (accounted, stopped) = new-IsAccounted config rx held new in
      let (live, _, _, _, _, _, _, _, fresh) = new in
      Returns-bind
        (Returns-both _ (start-IsSettled posix 5 around.answers rx held accounted stopped)
          (start-core posix around.answers rx held))
        λ r h.
          started-IsEnd (first_state args output) config rx r.0 r.1 r.2 ends live refl fresh h.0 h.1
            feed (first-IsLimited args output)

  run-IsEnd :
      (args : Args) (output : Bool)
      → around.joins ≡ true
      → HasOctets
      → IsFeed 0 around.arrivals
      → Returns (run world strtoul around args output (one_if output)) IsEnd
  unfolding run
  run-IsEnd args output ends octets feed =
      Returns-bind (create-IsNew (config_of world strtoul around args) nothing around.grants octets)
        λ r new. created-IsEnd args output r ends feed new

  open_output-IsEnd :
      (args : Args) (path : Option String)
      → around.joins ≡ true
      → HasOctets
      → IsFeed 0 around.arrivals
      → Returns (open_output world strtoul around args path) IsEnd
  unfolding open_output
  open_output-IsEnd args none ends octets feed = run-IsEnd args false ends octets feed
  open_output-IsEnd args (some path) ends octets feed =
      Returns-if around.file_ok (λ opened. run-IsEnd args true ends octets feed)
        (λ refusal. (_, refl, (refl, refl, omega arith)))

  enter-IsEnd :
      (o : Outcome Args)
      → around.joins ≡ true
      → HasOctets
      → IsFeed 0 around.arrivals
      → Returns (enter world strtoul around o) IsEnd
  unfolding enter
  enter-IsEnd shows_help ends octets feed = (_, refl, (refl, refl, omega arith))
  enter-IsEnd refused ends octets feed = (_, refl, (refl, refl, omega arith))
  enter-IsEnd (proceed args) ends octets feed =
      open_output-IsEnd args args.output_path ends octets feed

  -- `main`, for every command line, every answer of the system, and every sequence of errors and
  -- octets from the network at moments that do not run backwards and stay below 2 ^ 63 microseconds:
  -- where a join of the receive thread returns, it returns from every call, with no access out of
  -- bounds and nothing given back twice. Either it
  -- exits with 0 or 1, holds nothing and has no file open, or it waits, no stop is requested, and its
  -- count of frames is below its limit, if it has one.
  pub main-IsEnd :
      (argv : List String)
      → around.joins ≡ true
      → HasOctets
      → IsFeed 0 around.arrivals
      → Returns (main world strtoul around argv) IsEnd
  unfolding main
  main-IsEnd argv ends octets feed = enter-IsEnd (parse_args strtoul argv) ends octets feed
