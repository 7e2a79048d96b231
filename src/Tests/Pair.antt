-- ===== src/Tests/Pair.antt =====
-- A line of four pixels that comes in two packets.
use obs_st.Base.{
  splice, refl, ◌≡◌, arith, true, false, some, [], ◌∷◌, List, Bytes, Returns, ℕ, ◌++◌, length, inl,
  inr,
}
use obs_st.Tests.Data.{config, running, plane_length, whole_numbers}
use obs_st.Types.{Frame, uyvy, Config}
use obs_st.Rtp.{RtpHeader}
use obs_st.Assembler.{Assembler, cleared, IsReady}
use obs_st.Assembler.Safety.Segments.{painted, headers_view}
use obs_st.Assembler.Packet.{Processed, rx_assembler_process_packet}
use obs_st.Assembler.Safety.InOrder.{IsNext, advanced, collect}
use obs_st.Assembler.Safety.Frame.{last, more, feed, picture, IsDelivered, feed-IsDelivered}
use obs_st.Receiver.Packet.{failed, Arrival, rx_receiver_loop, datagram}
use obs_st.Receiver.{Rx, tabulate}
use obs_st.Receiver.Stream.{Accepts}
use obs_st.Receiver.Loop.{HasServed}
use obs_st.Tests.Data.{plane_length, whole_numbers, running}
use obs_st.Receiver.WholeFrame.{handed}
use obs_st.Assembler.Safety.Prefix.{process_packet-prefix}
use obs_st.Receiver.Live.{IsLive}
use obs_st.Receiver.Video.{AreShown, loop-AreShown, one_more, no_more, all_arrivals}

abbrev pub four_pixels : Assembler
four_pixels =
    cleared 4 1 4 (0 ∷ 0 ∷ 0 ∷ 0 ∷ 0 ∷ 0 ∷ 0 ∷ 0 ∷ []) (9 ∷ 9 ∷ 9 ∷ 9 ∷ 9 ∷ 9 ∷ 9 ∷ 9 ∷ [])

four_pixels-IsReady : IsReady four_pixels
four_pixels-IsReady = ground arith

abbrev pub left_half : Bytes
left_half =
    128 ∷ 96 ∷ 255 ∷ 255 ∷ 0 ∷ 0 ∷ 0 ∷ 9 ∷ 0 ∷ 0 ∷ 0 ∷ 0 ∷ 0 ∷ 0 ∷ 0 ∷ 4 ∷ 0 ∷ 0 ∷ 0 ∷ 0 ∷ 1 ∷ 2 ∷ 3
    ∷ 4 ∷ []

abbrev pub right_half : Bytes
right_half =
    128 ∷ 224 ∷ 0 ∷ 0 ∷ 0 ∷ 0 ∷ 0 ∷ 9 ∷ 0 ∷ 0 ∷ 0 ∷ 0 ∷ 0 ∷ 0 ∷ 0 ∷ 4 ∷ 0 ∷ 0 ∷ 0 ∷ 2 ∷ 5 ∷ 6 ∷ 7
    ∷ 8 ∷ []

abbrev pub left_header : RtpHeader
left_header = record { payload = 12; seq = 65535; timestamp = 9; marker = false }

abbrev right_header : RtpHeader
right_header = record { payload = 12; seq = 0; timestamp = 9; marker = true }

pub left-IsNext : IsNext four_pixels false left_half left_header
left-IsNext = record {
  octets = ground arith;
  parsed = refl;
  long = omega arith;
  mark = refl;
  seq = λ e. absurd (ground arith);
  timestamp = λ e. absurd (ground arith);
}

pub right-IsNext : IsNext (advanced four_pixels left_half left_header) true right_half right_header
right-IsNext = record {
  octets = ground arith;
  parsed = refl;
  long = omega arith;
  mark = refl;
  seq = λ e. refl;
  timestamp = λ e. inl refl;
}

abbrev no_frames : Processed (List Frame)
no_frames = record { asm = some four_pixels; user = []; lost = some 0; completed = 0 }

feed-IsDelivered_example :
    Returns
      (feed uyvy no_frames (left_half ∷ right_half ∷ []))
      (IsDelivered four_pixels uyvy (left_half ∷ right_half ∷ []) no_frames)
feed-IsDelivered_example =
    feed-IsDelivered uyvy [] (some 0) 0 (more left-IsNext (last right-IsNext)) four_pixels-IsReady

pair_picture :
    picture four_pixels (left_half ∷ right_half ∷ []) four_pixels.fill_buf
    ≡ 1 ∷ 2 ∷ 3 ∷ 4 ∷ 5 ∷ 6 ∷ 7 ∷ 8 ∷ []
unfolding painted headers_view splice
pair_picture = refl

-- The same packets at a receiver whose picture has four pixels.
abbrev wide : Config ℕ
wide = record config { width = 4 }

abbrev receiver : Rx whole_numbers ℕ
receiver = record running {
  config = wide;
  assembler = four_pixels;
  convert_buf = tabulate 8 (λ i. 0);
  convert_stride = 8;
}

abbrev Any : ℕ → Type 0
Any n = Unit {0}

any_shown : Accepts wide plane_length Any
any_shown out n shown k = (length out.plane, refl, tt)

receiver-HasServed : HasServed wide plane_length refl Any any_shown 0 0 0 (receiver, 0)
receiver-HasServed = record { live = ground arith; kept = tt; clock = omega arith; packets = refl }

abbrev pair_arrivals : List Arrival
pair_arrivals = datagram left_half 1000 ∷ failed ∷ datagram right_half 1500 ∷ []

-- The next frame, of one packet with the next number and another timestamp.
abbrev next_half : Bytes
next_half =
    128 ∷ 224 ∷ 0 ∷ 1 ∷ 0 ∷ 0 ∷ 0 ∷ 30 ∷ 0 ∷ 0 ∷ 0 ∷ 0 ∷ 0 ∷ 0 ∷ 0 ∷ 4 ∷ 0 ∷ 0 ∷ 0 ∷ 0 ∷ 9 ∷ 9 ∷ 9
    ∷ 9 ∷ []

abbrev next_header : RtpHeader
next_header = record { payload = 12; seq = 1; timestamp = 30; marker = true }

abbrev behind_pair : Assembler
behind_pair = handed (advanced (advanced four_pixels left_half left_header) right_half right_header)

next_half-IsNext : IsNext behind_pair true next_half next_header
next_half-IsNext = record {
  octets = ground arith;
  parsed = refl;
  long = omega arith;
  mark = refl;
  seq = λ e. refl;
  timestamp = λ e. inr refl;
}

abbrev frames : List (List Arrival)
frames = pair_arrivals ∷ (datagram next_half 2000 ∷ []) ∷ []

loop-AreShown_example :
    Returns
      (rx_receiver_loop whole_numbers receiver 0 (all_arrivals frames))
      (λ r. IsLive wide r.0 × AreShown wide plane_length four_pixels frames 0 r.1)
loop-AreShown_example =
    loop-AreShown wide plane_length refl Any any_shown frames receiver 0 0 0 0 receiver-HasServed
      (
        left-IsNext.octets,
        omega arith,
        omega arith,
        (
          right-IsNext.octets,
          omega arith,
          omega arith,
          (next_half-IsNext.octets, omega arith, omega arith, tt),
        ),
      )
      (omega arith)
      (one_more (more left-IsNext (last right-IsNext)) (one_more (last next_half-IsNext) no_more))

process_packet-prefix_example :
    rx_assembler_process_packet
      (some four_pixels)
      (some (left_half ++ right_half))
      24
      (some collect)
      []
      uyvy
      (some 0)
    ≡ rx_assembler_process_packet
        (some four_pixels)
        (some left_half)
        24
        (some collect)
        []
        uyvy
        (some 0)
process_packet-prefix_example =
    process_packet-prefix left_half right_half left-IsNext.octets right-IsNext.octets four_pixels
      collect [] uyvy (some 0)
