-- ===== src/Sender/Exits.antt =====
-- Every way out of `main` of libst2110rx/tools/st2110tx-test.c.
use obs_st.Base.{
  some, true, refl, [], ok, ℕ, List, ◌≡◌, Bool, Bytes, ◌<◌, ◌≤◌, arith, ◌^◌, IsBytes, ◌-◌, ◌∷◌,
  Returns, length, Returns-if, ◌*◌, ◌==◌, ◌||◌, ltb, Returns-bind, ◌+◌, is_null, not, false, inl,
  inr, Option-cases, leb, subst, ◌>>=◌, sym, ◌∙◌, none, Option,
}
use obs_st.Sender.Main.{
  Host, End, exited, give_up, finish, send, sending, stride_of, max_udp_payload_of, picture_of,
  ts_step_of, frames_of, address, names_interface, allocate_packet, connect, run, max_segment_of,
  allocate_frame,
}
use obs_st.Arguments.{Strtoul, codes}
use obs_st.Resources.{Platform, Held, nothing, free_block}
use obs_st.Sender.Arguments.{TxConfig}
use obs_st.Sender.Accepted.{IsValid}
use obs_st.Sender.Lines.{AreShort}
use obs_st.Receiver.Ownership.{one_if}
use obs_st.Receiver.Lifecycle.{is_windows, rx_socket_init}
use obs_st.Sender.Sending.{Sent}
use obs_st.Sender.Segment.{Fits}
use obs_st.Sender.Whole.{frames-HasSent}
use obs_st.Receiver.{tabulate}
use obs_st.Receiver.Fresh.{IsBytes-tabulate, length-tabulate}
use obs_st.Sender.Picture.{generate_colorbars_be10-IsPicture}

-- An exit with 0 or 1 that holds nothing, or a run that goes on; no datagram is longer than the limit.
abbrev pub IsEnd : ℕ → End → Type 0
IsEnd limit (exited code held datagrams) = (held ≡ nothing) × (code ≤ 1) × AreShort limit datagrams
IsEnd limit (sending datagrams) = AreShort limit datagrams

AreShort-le : (m n : ℕ) (ds : List Bytes) → m ≤ n → AreShort m ds → AreShort n ds
AreShort-le m n [] h s = tt
AreShort-le m n (d ∷ rest) h s = (omega (arith, s.0), AreShort-le m n rest h s.1)

-- The memory that `malloc` gives holds octets.
abbrev pub HasOctets : Host → Type 0
HasOctets host =
    ((f : ℕ → ℕ) → host.frame_block ≡ some f → (i : ℕ) → f i < 256)
    × ((f : ℕ → ℕ) → host.packet_block ≡ some f → (i : ℕ) → f i < 256)

module _ (strtoul : Strtoul) (platform : Platform) (host : Host) where
  -- Both blocks, and what else is taken before the loops.
  abbrev open_held : Bool → Held
  open_held has_socket = record nothing {
    blocks = 2;
    sockets = one_if has_socket;
    startups = one_if (is_windows platform);
  }

  give_up-eq :
      (has_socket : Bool) (code : ℕ) (datagrams : List Bytes)
      → give_up strtoul platform host has_socket code datagrams (open_held has_socket)
        ≡ ok (exited code nothing datagrams)
  unfolding give_up
  give_up-eq has_socket code datagrams = ground arith

  module _ (cfg : TxConfig) (valid : IsValid cfg) (width_fits : cfg.width < 2 ^ 15)
      (height_fits : cfg.height ≤ 2 ^ 15) where
    give_up-IsEnd :
        (has_socket : Bool) (code : ℕ) (datagrams : List Bytes)
        → code ≤ 1
        → AreShort (cfg.mtu - 28) datagrams
        → Returns
            (give_up strtoul platform host has_socket code datagrams (open_held has_socket))
            (IsEnd (cfg.mtu - 28))
    give_up-IsEnd has_socket code datagrams small short =
        (_, give_up-eq has_socket code datagrams, (refl, small, short))

    finish-IsEnd :
        (sent : Sent)
        → AreShort (cfg.mtu - 28) sent.datagrams
        → Returns (finish strtoul platform host cfg (open_held true) sent) (IsEnd (cfg.mtu - 28))
    unfolding finish
    finish-IsEnd sent short =
        Returns-if sent.send_failed (λ bad. give_up-IsEnd true 1 sent.datagrams (omega arith) short)
          (λ good.
            Returns-if (cfg.count == 0 || ltb host.rounds cfg.count) (λ more. (_, refl, short))
              (λ done. give_up-IsEnd true 0 sent.datagrams (omega arith) short))

    picture-Fits :
        (frame : Bytes)
        → IsBytes frame
        → length frame ≡ stride_of strtoul platform host cfg * cfg.height
        → Fits (picture_of strtoul platform host cfg frame)
    picture-Fits frame octets size = record {
      stride_groups = omega arith;
      stride_range = omega arith;
      height_range = height_fits;
      segment_groups = omega arith;
      segment_nonzero = ground (arith, valid.mtu_sizes);
      segment_range = ground (arith, valid.mtu_sizes);
      holds = grind arith;
      octets = octets;
    }

    send-IsEnd :
        (frame packet : Bytes)
        → IsBytes frame
        → length frame ≡ stride_of strtoul platform host cfg * cfg.height
        → IsBytes packet
        → length packet ≡ max_udp_payload_of strtoul platform host cfg
        → Returns
            (send strtoul platform host cfg frame packet (open_held true))
            (IsEnd (cfg.mtu - 28))
    unfolding send
    send-IsEnd frame packet octets size packet_octets packet_size =
        let p = picture_of strtoul platform host cfg frame in
        Returns-bind
          (frames-HasSent host.network p (picture-Fits frame octets size)
            (ts_step_of strtoul platform host cfg) (frames_of strtoul platform host cfg) 0
            (record { packet = packet; seq = 1; draws = 0; sends = 0 }) (omega arith)
            (record {
              room = ground (arith, valid.mtu_sizes, packet_size);
              octets = packet_octets;
            }))
          λ sent s. finish-IsEnd sent (
            AreShort-le (18 + p.max_segment) (cfg.mtu - 28) sent.datagrams
              (ground (arith, valid.mtu_sizes)) s.sizes)

    -- The resources behind `rx_socket_init`.
    abbrev initial : Held × Bool
    initial = rx_socket_init platform host.startup_ok (record nothing { blocks = 2 })

    refused-eq :
        not initial.1 ≡ true
        → (free_block initial.0 >>= λ h. free_block h >>= λ h'. ok (exited 1 h' []))
          ≡ ok (exited 1 nothing [])
    refused-eq h = ground arith

    no_socket_held : not initial.1 ≡ false → initial.0 ≡ open_held false
    no_socket_held h = ground arith

    socket_held :
        not initial.1 ≡ false
        → record initial.0 { sockets = initial.0.sockets + 1 } ≡ open_held true
    socket_held h = ground arith

    module _ (frame packet : Bytes) (octets : IsBytes frame)
        (size : length frame ≡ stride_of strtoul platform host cfg * cfg.height)
        (packet_octets : IsBytes packet)
        (packet_size : length packet ≡ max_udp_payload_of strtoul platform host cfg) where
      address-IsEnd :
          Returns
            (address strtoul platform host cfg frame packet (open_held true))
            (IsEnd (cfg.mtu - 28))
      unfolding address
      address-IsEnd =
          let send_all = send-IsEnd frame packet octets size packet_octets packet_size in
          let leave = give_up-IsEnd true 1 [] (omega arith) tt in
          Returns-if (is_null (host.inet_addr (codes cfg.addr))) (λ bad. leave)
            (λ good.
              Returns-if (names_interface strtoul platform host cfg)
                (λ named.
                  Returns-if
                    (is_null (host.inet_addr (codes cfg.iface)) || not host.multicast_if_ok)
                    (λ bad. leave) (λ set. send_all))
                (λ unnamed. send_all))

      connect-IsEnd :
          Returns
            (connect strtoul platform host cfg frame packet (record nothing { blocks = 2 }))
            (IsEnd (cfg.mtu - 28))
      unfolding connect
      connect-IsEnd =
          let init = rx_socket_init platform host.startup_ok (record nothing { blocks = 2 }) in
          Returns-if (not init.1) (λ refusal. (_, refused-eq refusal, (refl, omega arith, tt)))
            (λ initialized.
              Returns-if host.socket_ok
                (λ opened.
                  subst
                    (λ h.
                      Returns (address strtoul platform host cfg frame packet h)
                        (IsEnd (cfg.mtu - 28)))
                    (sym (socket_held initialized)) address-IsEnd)
                (λ closed.
                  subst
                    (λ h.
                      Returns (give_up strtoul platform host false 1 [] h) (IsEnd (cfg.mtu - 28)))
                    (sym (no_socket_held initialized)) (give_up-IsEnd false 1 [] (omega arith) tt)))

    allocate_packet-IsEnd :
        (frame : Bytes)
        → HasOctets host
        → IsBytes frame
        → length frame ≡ stride_of strtoul platform host cfg * cfg.height
        → Returns
            (allocate_packet strtoul platform host cfg (record nothing { blocks = 1 }) frame)
            (IsEnd (cfg.mtu - 28))
    unfolding allocate_packet
    allocate_packet-IsEnd frame memory octets size =
        Returns-if (leb cfg.mtu 28) (λ small. (_, refl, (refl, omega arith, tt)))
          (λ large. elim (Option-cases host.packet_block) [
            | inl nothing_granted ↦ rw nothing_granted (_, refl, (refl, omega arith, tt))
            | inr (packet, granted) ↦ rw granted (
                Returns-if (max_segment_of strtoul platform host cfg == 0)
                  (λ empty. (_, refl, (refl, omega arith, tt)))
                  (λ room.
                    connect-IsEnd frame
                      (tabulate (max_udp_payload_of strtoul platform host cfg) packet) octets size
                      (IsBytes-tabulate _ packet (memory.1 packet granted))
                      (length-tabulate _ packet)))
          ])

    allocate_frame-IsEnd :
        (o : Option (ℕ → ℕ))
        → ((f : ℕ → ℕ) → o ≡ some f → (i : ℕ) → f i < 256)
        → HasOctets host
        → Returns (allocate_frame strtoul platform host cfg o) (IsEnd (cfg.mtu - 28))
    unfolding allocate_frame
    allocate_frame-IsEnd none block_octets memory = (_, refl, (refl, omega arith, tt))
    allocate_frame-IsEnd (some block) block_octets memory =
        let stride = stride_of strtoul platform host cfg in
        let frame = tabulate (stride * cfg.height) block in
        let size = length-tabulate (stride * cfg.height) block in
        Returns-bind
          (generate_colorbars_be10-IsPicture frame cfg.width cfg.height stride
            (IsBytes-tabulate _ block (block_octets block refl)) (omega arith)
            (grind (arith, size)))
          λ drawn d. allocate_packet-IsEnd drawn memory d.1.octets (d.0 ∙ size)

    -- For a configuration that `parse_args` accepts, of at most 2 ^ 15 lines of less than 2 ^ 15
    -- pixels, and memory that holds octets, whatever the system answers: `main` returns behind
    -- `parse_args` with no access out of bounds, gives back once what it took on each of its ways out,
    -- and sends no datagram that is longer than the MTU leaves room for.
    pub run-IsEnd : HasOctets host → Returns (run strtoul platform host cfg) (IsEnd (cfg.mtu - 28))
    unfolding run
    run-IsEnd memory = allocate_frame-IsEnd host.frame_block memory.0 memory
