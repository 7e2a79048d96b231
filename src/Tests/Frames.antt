-- ===== src/Tests/Frames.antt =====
-- Packets and the assembler at concrete inputs.
use obs_st.Base.{
  refl, ◌≡◌, inl, arith, true, false, some, [], ◌∷◌, ok, Returns, ◌↔◌, byte, replicate, memcpy,
  splice, memset_zero,
}
use obs_st.Types.{uyvy, success}
use obs_st.Rtp.{parse_rtp_header, read_be16, read_be32}
use obs_st.Assembler.Packet.{
  rx_assembler_process_packet, store_segments, accept_packet, check_seq, check_timestamp,
  check_marker, deliver_counted,
}
use obs_st.Assembler.Segments.{parse_headers, copy_payloads}
use obs_st.Assembler.Deliver.{deliver_frame}
use obs_st.Assembler.Safety.Whole.{process_packet-Sound, Sound, stored, store_segments-eq-stored}
use obs_st.Rtp.View.{view, parse_rtp_header-eq-view}
use obs_st.Assembler.{Assembler, rx_assembler_init, IsReady, allocate, pgroup_of, buf_size}
use obs_st.Assembler.Init.{init-IsReady, init-success_iff, Acceptable}
use obs_st.Tests.Data.{
  two_pixels, two_pixels-IsReady, packet, packet-IsBytes, plane_length, IsSize,
  plane_length-accepts,
}

parse_rtp_header-eq-view_example : parse_rtp_header (some packet) 24 ≡ ok (view packet 24)
parse_rtp_header-eq-view_example = parse_rtp_header-eq-view packet 24 packet-IsBytes (omega arith)

packet_header :
    parse_rtp_header (some packet) 24
    ≡ ok (some (record { payload = 12; seq = 7; timestamp = 9; marker = true }))
unfolding parse_rtp_header read_be16 byte read_be32
packet_header = refl

process_packet-Sound_example :
    Returns
      (rx_assembler_process_packet
        (some two_pixels)
        (some packet)
        24
        (some plane_length)
        0
        uyvy
        (some 0))
      (Sound two_pixels uyvy plane_length IsSize plane_length-accepts)
process_packet-Sound_example =
    process_packet-Sound two_pixels uyvy plane_length IsSize plane_length-accepts packet 24 0
      (some 0) two_pixels-IsReady packet-IsBytes (omega arith) (inl refl)

-- The picture is delivered and the callback has seen its four octets.
packet_delivers :
    rx_assembler_process_packet
      (some two_pixels)
      (some packet)
      24
      (some plane_length)
      0
      uyvy
      (some 0)
    ≡ ok (record {
      asm = some (record two_pixels {
        fill_buf = 0 ∷ 0 ∷ 0 ∷ 0 ∷ [];
        deliver_buf = 1 ∷ 2 ∷ 3 ∷ 4 ∷ [];
        last_seq = 7;
        last_ts = 9;
        has_prev_packet = true;
        frame_delivered = true;
        frame_number = 1;
        delivered_timestamp = 9;
      });
      user = 4;
      lost = some 0;
      completed = 1;
    })
unfolding rx_assembler_process_packet parse_rtp_header read_be16 byte read_be32 accept_packet
    check_seq check_timestamp store_segments parse_headers copy_payloads memcpy splice check_marker
    deliver_counted deliver_frame memset_zero
packet_delivers = refl

init-success_iff_example :
    ((rx_assembler_init (some two_pixels) 2 1 uyvy true true).1 ≡ success)
    ↔ Acceptable 2 1 uyvy true true
init-success_iff_example = init-success_iff two_pixels 2 1 uyvy true true

init_succeeds : (rx_assembler_init (some two_pixels) 2 1 uyvy true true).1 ≡ success
unfolding rx_assembler_init allocate
init_succeeds = refl

init-IsReady_example :
    (a' : Assembler) × ((rx_assembler_init (some two_pixels) 2 1 uyvy true true).0 ≡ some a')
    × IsReady a'
    × (pgroup_of uyvy ≡ some a'.pgroup_size)
    × (a'.width ≡ 2)
    × (a'.height ≡ 1)
    × (a'.fill_buf ≡ replicate (buf_size a') 0)
    × (a'.deliver_buf ≡ replicate (buf_size a') 0)
    × (a'.has_prev_packet ≡ false)
    × (a'.frame_number ≡ 0)
init-IsReady_example = init-IsReady two_pixels 2 1 uyvy true true init_succeeds

store_segments-eq-stored_example :
    store_segments two_pixels packet 14 24 ≡ ok (stored two_pixels packet 14 24)
store_segments-eq-stored_example =
    store_segments-eq-stored two_pixels packet 14 24 two_pixels-IsReady packet-IsBytes (omega arith)
