-- ===== src/Sender/Main.antt =====
-- `main` of libst2110rx/tools/st2110tx-test.c.
use Prim.Native.String.{String}
use obs_st.Base.{
  ◌>>=◌, none, some, true, false, [], ok, Option, ℕ, Bool, Bytes, List, Exec, if◌then◌else◌, not,
  u32, ◌-◌, ◌/◌, is_null, leb, ◌*◌, ◌==◌, min, ◌&&◌, ◌+◌, ◌||◌, ltb,
}
use obs_st.Arguments.{proceed, refused, shows_help, Strtoul, Outcome, same_text, codes}
use obs_st.Resources.{Platform, Held, free_block, nothing, close_socket}
use obs_st.Sender.Arguments.{TxConfig, parse_args}
use obs_st.Sender.Sending.{Network, Picture, Sent, send_frames}
use obs_st.Receiver.Lifecycle.{rx_socket_init, rx_socket_cleanup}
use obs_st.Receiver.Create.{take_block}
use obs_st.Sender.{generate_colorbars_be10}
use obs_st.Receiver.{tabulate}

-- What the program meets: the contents of the blocks that `malloc` gives, and the answers of the
-- system. `rounds` bounds the frames that a run without a count sends.
pub record Host : Type 0 where
  pub frame_block : Option (ℕ → ℕ)
  pub packet_block : Option (ℕ → ℕ)
  pub startup_ok : Bool
  pub socket_ok : Bool
  pub inet_addr : Bytes → Option ℕ
  pub multicast_if_ok : Bool
  pub network : Network
  pub rounds : ℕ

-- What `main` comes to: an exit, with what it holds then and the datagrams that were sent, or it goes
-- on behind the bound of frames.
pub data End : Type 0 where
  exited : (code : ℕ) → Held → List Bytes → End
  sending : List Bytes → End

module _ (strtoul : Strtoul) (platform : Platform) (host : Host) where
  -- The label `fail`, and the calls in front of the last `return`, with both blocks there.
  unfoldable pub give_up : Bool → ℕ → List Bytes → Held → Exec End
  give_up has_socket code datagrams held = do
    held1 ← free_block held
    held2 ← free_block held1
    held3 ← (if has_socket then close_socket held2 else ok held2)
    held4 ← rx_socket_cleanup platform held3
    ok (exited code held4 datagrams)

  abbrev pub ts_step_of : TxConfig → ℕ
  ts_step_of cfg = 90000 / cfg.fps

  abbrev pub stride_of : TxConfig → ℕ
  stride_of cfg = u32 (cfg.width / 2 * 5)

  abbrev pub max_udp_payload_of : TxConfig → ℕ
  max_udp_payload_of cfg = cfg.mtu - 28

  abbrev pub max_segment_of : TxConfig → ℕ
  max_segment_of cfg = (max_udp_payload_of cfg - 12 - 6) / 5 * 5

  abbrev pub picture_of : TxConfig → Bytes → Picture
  picture_of cfg frame = record {
    frame = frame;
    stride = stride_of cfg;
    height = cfg.height;
    max_segment = max_segment_of cfg;
    drop_pct = cfg.drop_pct;
  }

  -- The number of frames that the loop sends before it ends or the run is cut off.
  abbrev pub frames_of : TxConfig → ℕ
  frames_of cfg = if cfg.count == 0 then host.rounds else min cfg.count host.rounds

  -- Behind the loop over the frames.
  unfoldable pub finish : TxConfig → Held → Sent → Exec End
  finish cfg held sent =
      if sent.send_failed
      then give_up true 1 sent.datagrams held
      else (if cfg.count == 0 || ltb host.rounds cfg.count
          then ok (sending sent.datagrams)
          else give_up true 0 sent.datagrams held)

  unfoldable pub send : TxConfig → Bytes → Bytes → Held → Exec End
  send cfg frame packet held =
      send_frames host.network (picture_of cfg frame) (ts_step_of cfg) (frames_of cfg) 0
        (record { packet = packet; seq = 1; draws = 0; sends = 0 })
      >>= finish cfg held

  -- `cfg.iface && cfg.iface[0] != '\0' && strcmp(cfg.iface, "0.0.0.0") != 0`
  abbrev pub names_interface : TxConfig → Bool
  names_interface cfg = not (same_text cfg.iface "") && not (same_text cfg.iface "0.0.0.0")

  -- The addresses, with the socket open.
  unfoldable pub address : TxConfig → Bytes → Bytes → Held → Exec End
  address cfg frame packet held =
      if is_null (host.inet_addr (codes cfg.addr))
      then give_up true 1 [] held
      else (if names_interface cfg
          then (if is_null (host.inet_addr (codes cfg.iface)) || not host.multicast_if_ok
              then give_up true 1 [] held
              else send cfg frame packet held)
          else send cfg frame packet held)

  -- `WSAStartup`, on Windows, and `socket`, with both blocks there.
  unfoldable pub connect : TxConfig → Bytes → Bytes → Held → Exec End
  connect cfg frame packet held =
      let (held1, initialized) = rx_socket_init platform host.startup_ok held in
      if not initialized
      then (do held2 ← free_block held1; held3 ← free_block held2; ok (exited 1 held3 []))
      else (if host.socket_ok
          then address cfg frame packet (record held1 { sockets = held1.sockets + 1 })
          else give_up false 1 [] held1)

  -- The sizes and the packet's buffer, with the picture drawn.
  unfoldable pub allocate_packet : TxConfig → Held → Bytes → Exec End
  allocate_packet cfg held frame =
      if leb cfg.mtu 28
      then (free_block held >>= λ h. ok (exited 1 h []))
      else elim host.packet_block [
        | none ↦ free_block held >>= λ h. ok (exited 1 h [])
        | some packet ↦
            let both = take_block held in
            if max_segment_of cfg == 0
            then (do held1 ← free_block both; held2 ← free_block held1; ok (exited 1 held2 []))
            else connect cfg frame (tabulate (max_udp_payload_of cfg) packet) both
      ]

  -- The frame's buffer and its picture.
  unfoldable pub allocate_frame : TxConfig → Option (ℕ → ℕ) → Exec End
  allocate_frame cfg none = ok (exited 1 nothing [])
  allocate_frame cfg (some frame) =
      generate_colorbars_be10 (tabulate (stride_of cfg * cfg.height) frame) cfg.width cfg.height
        (stride_of cfg)
      >>= allocate_packet cfg (take_block nothing)

  -- Behind `parse_args`.
  unfoldable pub run : TxConfig → Exec End
  run cfg = allocate_frame cfg host.frame_block

  unfoldable pub enter : Outcome TxConfig → Exec End
  enter shows_help = ok (exited 0 nothing [])
  enter refused = ok (exited 1 nothing [])
  enter (proceed cfg) = run cfg

  -- `main` with the arguments behind the program's name.
  unfoldable pub main : List String → Exec End
  main argv = enter (parse_args strtoul argv)
