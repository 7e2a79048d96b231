-- ===== src/Cli/Waiting.antt =====
-- The loop of `main` that waits, and what comes behind it: libst2110rx/tools/st2110rx-cli.c.
use obs_st.Base.{
  some, false, ok, ◌≡◌, arith, ℕ, ◌≤◌, Returns, ◌<◌, Returns-bind, Returns-both, ap, true, refl,
  inl, inr, Bool, Bool-cases, dec_lt, if◌then◌else◌, ◌∙◌, sym,
}
use obs_st.Resources.{posix, nothing, Held}
use obs_st.Stats.{Floats, rx_stats_init}
use obs_st.Cli.Main.{End, exited, Surroundings, finish, print_final, wait, close_output, waiting}
use obs_st.Cli.{World, CliState, Rx, signal_handler, frame_cb}
use obs_st.Arguments.{Strtoul}
use obs_st.Receiver.Ownership.{IsAccounted, IsStopped, one_if, stop-IsStopped, destroy-eq-nothing}
use obs_st.Types.{Config}
use obs_st.Receiver.Live.{IsLive}
use obs_st.Receiver.Loop.{IsFeed, receiver_loop-HasServed_until}
use obs_st.Cli.Counted.{IsLimited, frame_cb-accepts}
use obs_st.Receiver.Served.{receiver_loop-handles, handles-IsAccounted}

-- An exit that holds nothing and has no file open, or a wait in which no stop is requested: the count
-- is below its limit, if it has one.
abbrev pub IsEnd : {F : Floats} → End F → Type 0
IsEnd (exited code held files state) = (held ≡ nothing) × (files ≡ 0) × (code ≤ 1)
IsEnd (waiting state) =
    (state.stop_requested ≡ false) × (0 < state.count_limit → state.frames_seen < state.count_limit)

module _ {F : Floats} (world : World F) (strtoul : Strtoul) (around : Surroundings F) where
  pub close_output-eq :
      (output : Bool) (state : CliState F)
      → state.output ≡ output
      → close_output state (one_if output) ≡ ok 0
  close_output-eq output state e = ground arith

  print_final-output :
      (rx : Rx F (CliState F)) (state : CliState F)
      → (print_final world strtoul around rx state).output ≡ state.output
  unfolding print_final
  print_final-output rx state = ground arith

  stopped-IsAccounted :
      (rx : Rx F (CliState F)) (held : Held)
      → IsStopped posix rx
      → held ≡ record nothing { blocks = 5 }
      → IsAccounted posix 5 rx held
  stopped-IsAccounted rx held s e = ground arith

  finish-IsEnd :
      (rx : Rx F (CliState F)) (output : Bool) (state : CliState F) (held : Held)
      → around.joins ≡ true
      → IsAccounted posix 5 rx held
      → state.output ≡ output
      → Returns (finish world strtoul around rx state held (one_if output)) IsEnd
  unfolding finish
  finish-IsEnd rx output state held ends a e =
      Returns-bind (stop-IsStopped posix 5 rx held ends a) λ r s.
        rw
          (
            destroy-eq-nothing posix r.0 r.1 ends (stopped-IsAccounted r.0 r.1 s.0 s.1),
            close_output-eq output (print_final world strtoul around r.0 state)
                (print_final-output r.0 state ∙ e),
          )
          (_, refl, (refl, refl, omega arith))

  -- The state behind the loop that waits, where a signal may have come.
  abbrev interrupted_state : Bool → CliState F → CliState F
  interrupted_state b state = if b then signal_handler world state else state

  interrupted-IsLimited :
      (b : Bool) (c : ℕ) (output : Bool) (state : CliState F)
      → IsLimited world c output state
      → IsLimited world c output (interrupted_state b state)
  unfolding signal_handler
  interrupted-IsLimited true c output state k = record {
    limit = k.limit;
    same_output = k.same_output;
    stops = λ p q. refl;
  }
  interrupted-IsLimited false c output state k = k

  waiting-IsEnd :
      (c : ℕ) (output : Bool) (state : CliState F)
      → IsLimited world c output state
      → state.stop_requested ≡ false
      → IsEnd (waiting state)
  waiting-IsEnd c output state k off = (
    off,
    λ limited. elim (dec_lt state.frames_seen c) [
      | yes below ↦ rw k.limit below
      | no reached ↦ absurd (false_true (sym off ∙ k.stops (omega (arith, k.limit)) (omega arith)))
    ],
  )
    where
      false_true : false ≡ true → ⊥
      false_true e = cc

  pub wait-IsEnd :
      (rx : Rx F (CliState F)) (state : CliState F) (held : Held) (config : Config (CliState F))
      → around.joins ≡ true
      → IsAccounted posix 5 rx held
      → IsLive config rx
      → config.frame_cb ≡ some (frame_cb world)
      → rx.stats ≡ rx_stats_init F
      → IsFeed 0 around.arrivals
      → IsLimited world state.count_limit state.output state
      → Returns (wait world strtoul around rx state held (one_if state.output)) IsEnd
  unfolding wait
  wait-IsEnd rx state held config ends a live is_cb fresh feed limited =
      Returns-bind
        (Returns-both _
          (receiver_loop-HasServed_until config (frame_cb world) is_cb
            (IsLimited world state.count_limit state.output)
            (frame_cb-accepts world state.count_limit state.output config) around.arrivals rx state
            0 0 0
            (record {
              live = live;
              kept = limited;
              clock = omega (arith, ap (λ s. s.last_arrival_us) fresh);
              packets = omega (arith, ap (λ s. s.packets_received) fresh);
            })
            feed)
          (receiver_loop-handles around.arrivals rx state))
        λ r h.
          let state' = interrupted_state around.interrupted r.1 in
          let k =
            interrupted-IsLimited around.interrupted state.count_limit state.output r.1 h.0.kept in
          elim (Bool-cases state'.stop_requested) [
            | inl stop ↦ rw stop (
                finish-IsEnd r.0 state.output state' held ends (handles-IsAccounted h.1 a)
                  k.same_output)
            | inr go_on ↦
                rw go_on (_, refl, waiting-IsEnd state.count_limit state.output state' k go_on)
          ]
