-- ===== src/Tests/Transmitting.antt =====
-- The test sender at a concrete command line and at a picture of two lines of four pixels.
use obs_st.Base.{some, true, Returns, arith, replicate, IsBytes-replicate, ◌∷◌, []}
use obs_st.Tests.Lifecycle.{sevens}
use obs_st.Tests.Receiving.{strtoul_strokes}
use obs_st.Resources.{windows}
use obs_st.Arguments.{Satisfies}
use obs_st.Sender.Sending.{Network, Picture, Tx, send_frames}
use obs_st.Sender.Segment.{Fits}
use obs_st.Sender.Main.{Host, run}
use obs_st.Sender.Accepted.{IsValid, parse_args-IsValid}
use obs_st.Sender.Arguments.{defaults, parse_args}
use obs_st.Sender.Whole.{HasSent, copies, frames-HasSent}
use obs_st.Sender.Exits.{IsEnd, run-IsEnd}

parse_args-IsValid_example :
    Satisfies IsValid (parse_args strtoul_strokes ("--width" ∷ "111" ∷ "--burst" ∷ []))
parse_args-IsValid_example = parse_args-IsValid strtoul_strokes ("--width" ∷ "111" ∷ "--burst" ∷ [])

abbrev network : Network
network = record { rand = λ i. i; send_ok = λ i. true }

abbrev picture : Picture
picture = record { frame = replicate 20 0; stride = 10; height = 2; max_segment = 5; drop_pct = 0 }

picture-Fits : Fits picture
picture-Fits = ground (arith, IsBytes-replicate 20)

abbrev tx : Tx
tx = record { packet = replicate 23 0; seq = 65535; draws = 0; sends = 0 }

frames-HasSent_example :
    Returns
      (send_frames network picture 3000 2 7 tx)
      (HasSent network picture (copies network picture picture-Fits 2))
frames-HasSent_example =
    frames-HasSent network picture picture-Fits 3000 2 7 tx (omega arith)
      (record { room = omega arith; octets = IsBytes-replicate 23 })

abbrev host : Host
host = record {
  frame_block = some (λ i. 7);
  packet_block = some (λ i. 7);
  startup_ok = true;
  socket_ok = true;
  inet_addr = λ name. some 239;
  multicast_if_ok = true;
  network = network;
  rounds = 3;
}

run-IsEnd_example : Returns (run strtoul_strokes windows host defaults) (IsEnd 1472)
run-IsEnd_example =
    run-IsEnd strtoul_strokes windows host defaults (ground arith) (omega arith) (omega arith)
      (sevens, sevens)
