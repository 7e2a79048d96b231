-- ===== src/Tests/Receiving.antt =====
-- The command-line receiver at concrete command lines.
use Prim.Native.String.{String}
use obs_st.Base.{none, true, refl, [], zero, suc, Returns, ℕ, arith, ◌-◌, ◌≡◌, ap, ◌==◌, ◌∷◌}
use obs_st.Tests.Data.{whole_numbers, answers, packet, packet-IsBytes}
use obs_st.Tests.Source.{frame, snapshot, attempt}
use obs_st.Tests.Lifecycle.{grants, sevens}
use obs_st.Receiver.Packet.{failed, datagram}
use obs_st.Arguments.{Strtoul, proceed}
use obs_st.Cli.Spelled.{Reads, spell, parse_args-spell}
use obs_st.Cli.Arguments.{parse_args, defaults}
use obs_st.Cli.{CliState, World, frame_cb}
use obs_st.Cli.Main.{Surroundings, main, zero_state}
use obs_st.Cli.Counted.{IsCounted, frame_cb-IsCounted}
use obs_st.Cli.Waiting.{IsEnd}
use obs_st.Cli.Exits.{main-IsEnd}

-- A number as strokes, one more than it says.
abbrev strokes : ℕ → String
strokes zero = "1"
strokes (suc n) = String.◌∷◌ "1" (strokes n)

abbrev count : String → ℕ
count String.[] = 0
count (String.◌∷◌ c s) = suc (count s)

count-strokes : (n : ℕ) → count (strokes n) ≡ suc n
count-strokes zero = refl
count-strokes (suc n) = ap suc (count-strokes n)

abbrev pub strtoul_strokes : Strtoul
strtoul_strokes s = record { value = count s - 1; at_start = count s == 0; at_end = true }

strokes-Reads : Reads strtoul_strokes strokes
strokes-Reads n range = let e = count-strokes n in rw e (ground arith)

parse_args-spell_example :
    parse_args strtoul_strokes (spell strokes (record defaults { port = 7; count = 3 }))
    ≡ proceed (record defaults { port = 7; count = 3 })
parse_args-spell_example =
    parse_args-spell strtoul_strokes strokes strokes-Reads (record defaults { port = 7; count = 3 })
      (ground arith)

abbrev world : World whole_numbers
world = record { rx = λ i. none; rounds = λ i j. attempt; unset = snapshot }

abbrev writing : CliState whole_numbers
writing = record zero_state { output = true; count_limit = 1 }

frame_cb-IsCounted_example : Returns (frame_cb world frame writing) (IsCounted world frame writing)
frame_cb-IsCounted_example = frame_cb-IsCounted world frame writing refl

abbrev around : Surroundings whole_numbers
around = record {
  file_ok = true;
  grants = grants;
  answers = answers;
  arrivals = datagram packet 1000 ∷ failed ∷ [];
  interrupted = true;
  joins = true;
  last_rounds = λ i. attempt;
}

main-IsEnd_example :
    Returns (main world strtoul_strokes around ("--output" ∷ "frames.uyvy" ∷ [])) IsEnd
main-IsEnd_example =
    main-IsEnd world strtoul_strokes around ("--output" ∷ "frames.uyvy" ∷ []) refl sevens
      (packet-IsBytes, omega arith, omega arith, tt)
