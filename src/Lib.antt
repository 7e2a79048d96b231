-- ===== src/Lib.antt =====
-- obs-st2110: a receiver of SMPTE ST 2110-20 video, as a model with proofs.
--
-- A datagram comes in through the multicast socket (libst2110rx/src/rx_socket.c). The receiver's
-- thread (libst2110rx/src/rx_core.c) counts it (libst2110rx/src/rx_stats.c) and gives it to the frame
-- assembler (libst2110rx/src/rx_rfc4175.c), which reads the RTP header and the segment headers of
-- RFC 4175, copies the segments into the picture that it fills, and delivers the picture when its
-- last packet came. A delivered picture is converted (libst2110rx/src/rx_convert.c) and handed to the
-- user's callback: that of the OBS source (obs-plugin/src/obs-st2110-source.c), which owns one
-- receiver and hands the pictures to OBS, or that of the command-line receiver
-- (libst2110rx/tools/st2110rx-cli.c). The test sender (libst2110rx/tools/st2110tx-test.c) sends
-- colour bars.
--
-- The files:
--   Base           shared helpers: words as natural numbers with the wrap-around written out, lists,
--                  bit operations, integers, and `Exec`, in which an access out of bounds, a signed
--                  overflow, a release of what is not held or a wait without end is the value `fault`
--   Types          libst2110rx/include/st2110rx.h
--   Rtp            parse_rtp_header, rx_extract_rtp_timestamp; Rtp/View has the fields of RFC 3550
--   Assembler      rx_frame_assembler_t, rx_assembler_init, rx_assembler_free; its children
--                  Deliver (deliver_frame), Segments (the two loops over the segments) and Packet
--                  (rx_assembler_process_packet); Init and Safety hold the proofs: Safety/Frame a
--                  whole frame, Losses gaps, Order, Repeated and Reordered packets in another order
--                  and more than once, with what has arrived as a quotient, Prefix a packet in a longer buffer, and Widths
--                  and Typed the ranges of the fields
--   Convert        rx_convert_be10_to_uyvy; Groups and Rows hold the proofs
--   Stats          the counters, the estimates and the reader's loop; Seqlock has the writer and the
--                  reader as interleaved steps, Clock has get_time_us
--   Resources      what the system has given and has not got back
--   Socket         rx_udp_create, rx_udp_destroy
--   Receiver       struct st2110rx; its children Create, Frames, Packet, Lifecycle, Report and
--                  Completions have the functions of rx_core.c, Shutdown has st2110rx_stop and
--                  the receive thread as interleaved steps, the others hold the proofs;
--                  WholeFrame and Video go from the datagrams to the user's callback
--   ObsSource      struct st2110_source; Callback has st2110_frame_cb, Lifecycle the operations of the
--                  source, Page the page of settings, Life their sequences together with the
--                  receive loop; Shown, Owned and Offered hold the proofs
--   Arguments      the loop over the arguments that both tools have
--   Cli            cli_state_t and frame_cb of st2110rx-cli.c; Arguments has its options, Main its main;
--                  Counted, Spelled, Waiting and Exits hold the proofs
--   Sender         the packing, the picture and the headers of st2110tx-test.c; Arguments has its
--                  options, Sending its loops, Main its main; the other children hold the proofs
--   Tests          runs at concrete inputs
--
-- A buffer is the list of its octets; a pointer into it is an index. A callback is a step on what its
-- user data points to. Code of the system is an argument: the answers of its calls (`Net`, `Answers`,
-- `Grants`), what its clocks say, what arrives, and the type `double` with its operations (`Floats`). Loops are
-- structural recursion: over the lines and the groups of a picture, over the segments, of which the
-- array holds eight, over the 1000 rounds of the reader, and over the list of what arrives.
-- The loop over the segments of a line runs on fuel, as many rounds as the line has octets: a round
-- sends at least one. A sender without a count of frames runs for as many frames as an argument says.
-- Packets that arrive between two updates of an OBS source are served by the loop of POSIX. What a
-- callback finds in the receiver's statistics is an argument (`World`), since the receiver is busy with
-- the packet then; st2110rx_get_stats reads it.
--
-- Not modelled: log messages and what the tools print of errors, the pause between the frames of the
-- test sender, the registration of the OBS source and its log callback, which pass constants and texts
-- to OBS, and the wrappers of the system's threads. The moment of a packet is an argument of the
-- receiver, in microseconds as get_time_us gives them. st2110rx_stop is interleaved with the receive
-- thread of POSIX in Receiver/Shutdown; elsewhere a receive loop runs over what arrives until it ends.
-- Whether a join of the receive thread in st2110rx_stop returns is an argument (`joins`): on Linux the
-- thread may wait in recvfrom for ever, and the join with it. A theorem for which the join has to
-- return has that as a hypothesis. The five blocks that st2110rx_destroy gives back are counted, not
-- told apart, and the writer and the reader of the estimates are interleaved one access at a time.
pub mod Base
pub mod Types
pub mod Rtp
pub mod Assembler
pub mod Convert
pub mod Stats
pub mod Resources
pub mod Socket
pub mod Receiver
pub mod ObsSource
pub mod Arguments
pub mod Cli
pub mod Sender
pub mod Tests
