-- ===== src/Receiver/Delivery.antt =====
-- The packets of a whole frame at a live receiver, from the datagrams to the user's callback.
use obs_st.Base.{
  ℕ, refl, ◌+◌, ◌^◌, ◌<◌, ◌≤◌, ◌≡◌, ◌⊎◌, inl, inr, arith, true, false, some, List, [], ◌∷◌, Bytes,
  IsBytes, length, ok, Returns, Returns-both, Ensures, sym, drop, subst, ◌++◌, length-append,
  IsBytes-drop, length-drop, IsBytes-append, ap,
}
use obs_st.Types.{Config, FrameCb, Frame}
use obs_st.Stats.{Floats}
use obs_st.Rtp.{RtpHeader}
use obs_st.Assembler.{Assembler, IsReady}
use obs_st.Assembler.Safety.InOrder.{IsNext, advanced, closed}
use obs_st.Assembler.Safety.Frame.{IsFrame, last, more, advanced-IsReady}
use obs_st.Receiver.{Rx}
use obs_st.Receiver.Packet.{Arrival, failed, datagram, rx_receiver_loop, receive, rx_process_packet}
use obs_st.Receiver.Live.{IsLive}
use obs_st.Receiver.Stream.{Accepts, internal_frame_cb-SinkOk}
use obs_st.Receiver.Loop.{HasServed, filled, serve}
use obs_st.Receiver.Presented.{IsPresented, internal_frame_cb-Presents}
use obs_st.Receiver.Showing.{receive-eq, process_packet-next, process_packet-last, Leaves}
use obs_st.Assembler.Deliver.{frame_of, swap_buffers}
use obs_st.Assembler.Safety.Frames.{IsWhole}
use obs_st.Receiver.Frames.{Sink, rx_internal_frame_cb}
use obs_st.Receiver.Served.{process_packet-handles, handles}

-- The datagrams among what arrives.
abbrev pub packets_of : List Arrival → List Bytes
packets_of [] = []
packets_of (failed ∷ rest) = packets_of rest
packets_of (datagram payload now_us ∷ rest) = payload ∷ packets_of rest

-- None is longer than the receiver's buffer.
abbrev pub Fit : ℕ → List Arrival → Type 0
Fit size [] = Unit {0}
Fit size (failed ∷ rest) = Fit size rest
Fit size (datagram payload now_us ∷ rest) = (length payload ≤ size) × Fit size rest

-- The first packet of a frame: the only one, or one before the others.
pub IsFrame-first :
    {a b : Assembler} {pkts : List Bytes}
    → IsFrame a pkts b
    → (pkt : Bytes) (rest : List Bytes) → pkts ≡ pkt ∷ rest
    → ((header : RtpHeader) × IsNext a true pkt header × (rest ≡ []) × (b ≡ advanced a pkt header))
      ⊎ ((header : RtpHeader) × IsNext a false pkt header × IsFrame (advanced a pkt header) rest b)
IsFrame-first {a} (last {pkt = first} {header} next) pkt rest e =
    let same : first ≡ pkt = cc in
    inl (
      header,
      subst (λ q. IsNext a true q header) same next,
      cc,
      ap (λ q. advanced a q header) same,
    )
IsFrame-first {a} {b} (more {pkt = first} {header} {rest = others} next frame) pkt rest e =
    let same : first ≡ pkt = cc in
    let same_rest : others ≡ rest = cc in
    inr (
      header,
      subst (λ q. IsNext a false q header) same next,
      subst (λ q. IsFrame (advanced a q header) rest b) same
          (subst (λ r. IsFrame (advanced a first header) r b) same_rest frame),
    )

module _ {F : Floats} {X : Type 0} where
  pub loop_quiet :
      (arrivals : List Arrival) (rx : Rx F X) (user : X)
      → packets_of arrivals ≡ []
      → rx_receiver_loop F rx user arrivals ≡ ok (rx, user)
  unfolding rx_receiver_loop
  loop_quiet [] rx user e = refl
  loop_quiet (failed ∷ rest) rx user e = loop_quiet rest rx user e
  loop_quiet (datagram payload now_us ∷ rest) rx user e = cc

-- The frame that the marked packet of a frame completes.
abbrev pub completed_frame : {X : Type 0} → Config X → Assembler → Bytes → RtpHeader → Frame
completed_frame config a pkt header =
    frame_of (swap_buffers (advanced a pkt header)) config.input_fmt header.timestamp

module _ {F : Floats} {X : Type 0} (rx : Rx F X) (live : IsLive rx.config rx) (frame_cb : FrameCb X)
    (is_cb : rx.config.frame_cb ≡ some frame_cb) (K : X → Type 0)
    (accepts : Accepts rx.config frame_cb K) (user : X) (kept : K user) (pkt : Bytes)
    (header : RtpHeader) (ready : IsReady (advanced rx.assembler pkt header)) where
  abbrev frame : Frame
  frame = completed_frame rx.config rx.assembler pkt header

  whole : IsWhole rx.assembler rx.config.input_fmt frame
  whole = record {
    plane_holds = ready.fill_holds;
    plane_octets = ready.fill_octets;
    same_linesize = refl;
    same_width = refl;
    same_height = refl;
    same_format = refl;
  }

  sink : Sink X
  sink = record { convert_buf = rx.convert_buf; user = user }

  -- The callback inside the receiver returns, and has shown the frame to the user's callback.
  called_at :
      (sink' : Sink X) × (rx_internal_frame_cb rx.config rx.convert_stride frame
          (record { convert_buf = rx.convert_buf; user = user })
        ≡ ok sink')
      × (out : Frame) × IsPresented rx.config.output_fmt frame out
      × (frame_cb out user ≡ ok sink'.user)
  called_at =
      let (sink', e, (kept', (out, presented, called))) =
        Returns-both _
          (internal_frame_cb-SinkOk rx.config frame_cb K accepts rx.assembler live.ready
            live.asm_width live.asm_height live.asm_pgroup rx.convert_stride live.stride frame
            (record { convert_buf = rx.convert_buf; user = user }) whole
            (record { holds = live.convert_holds; kept = kept }) is_cb)
          (internal_frame_cb-Presents rx.config frame_cb is_cb rx.assembler live.ready
            live.asm_pgroup rx.convert_stride frame
            (record { convert_buf = rx.convert_buf; user = user }) whole
            (omega (arith, live.stride, live.asm_width))
            (rw (live.asm_height) (live.convert_holds))) in
      (sink', e, out, presented, called)

module _ {F : Floats} {X : Type 0} (config : Config X) (frame_cb : FrameCb X)
    (is_cb : config.frame_cb ≡ some frame_cb) (K : X → Type 0)
    (accepts : Accepts config frame_cb K) where
  module _ (rx : Rx F X) (user : X) (pkt : Bytes) (now_us before t n : ℕ) (header : RtpHeader)
      (h : HasServed config frame_cb is_cb K accepts before t n (rx, user)) (octets : IsBytes pkt)
      (fit : length pkt ≤ rx.pkt_buf_size) (later : t ≤ now_us) (range : now_us < 2 ^ 63) where
    abbrev rest : Bytes
    rest = drop (length pkt) rx.pkt_buf

    abbrev loaded : Rx F X
    loaded = record rx { pkt_buf = pkt ++ rest }

    loaded-HasServed : HasServed config frame_cb is_cb K accepts before t n (loaded, user)
    loaded-HasServed =
        filled config frame_cb is_cb K accepts rx user (pkt ++ rest) before t n h
          (omega
            (arith, length-append pkt rest, length-drop (length pkt) rx.pkt_buf, h.live.pkt_holds))
          (IsBytes-append pkt rest octets (IsBytes-drop (length pkt) rx.pkt_buf h.live.pkt_octets))

    abbrev pub Received : Assembler → X → Rx F X × X → Type 0
    Received a x r =
        (HasServed config frame_cb is_cb K accepts before now_us (1 + n) r
          × (handles r.0 ≡ handles rx))
        × Leaves a x r

    receive-Received :
        (a : Assembler) (x : X)
        → 0 < length pkt
        → Ensures (rx_process_packet F loaded user (pkt ++ rest) (length pkt) now_us) (Leaves a x)
        → Returns (receive F rx user pkt now_us) (Received a x)
    receive-Received a x some_octets leaves =
        rw (receive-eq rx user pkt now_us some_octets fit (sym h.live.pkt_holds)) (
          Returns-both _
            (Returns-both _
              (serve config frame_cb is_cb K accepts loaded user (pkt ++ rest) (length pkt) now_us
                before t n loaded-HasServed loaded-HasServed.live.pkt_octets
                (omega (arith, length-append pkt rest)) later range)
              (process_packet-handles loaded user (pkt ++ rest) (length pkt) now_us))
            leaves)

    pub receive-next :
        IsNext rx.assembler false pkt header
        → Returns (receive F rx user pkt now_us) (Received (advanced rx.assembler pkt header) user)
    receive-next next = receive-Received _ _ (omega (arith, next.long)) (
        process_packet-next loaded user pkt rest now_us header octets
          (IsBytes-drop (length pkt) rx.pkt_buf h.live.pkt_octets) h.live.ready next)

    -- The last packet: the user's callback is called with a frame that shows the completed one.
    pub receive-last :
        IsNext rx.assembler true pkt header
        → (x : X) × Returns
            (receive F rx user pkt now_us)
            (Received (closed rx.assembler pkt header) x)
          × (out : Frame) × IsPresented config.output_fmt
              (completed_frame config rx.assembler pkt header)
              out
          × (frame_cb out user ≡ ok x)
    receive-last next =
        let same = h.live.same_config in
        let (sink', e, out, presented, called) =
          called_at rx (subst (λ c. IsLive c rx) (sym same) h.live) frame_cb (rw same is_cb) K
            (subst (λ c. Accepts c frame_cb K) (sym same) accepts) user h.kept pkt header
            (advanced-IsReady next h.live.ready) in
        (
          sink'.user,
          receive-Received _ _ (omega (arith, next.long)) (
              process_packet-last loaded user pkt rest now_us header octets
                (IsBytes-drop (length pkt) rx.pkt_buf h.live.pkt_octets) h.live.ready sink' next e),
          out,
          subst (λ c. IsPresented c.output_fmt (completed_frame c rx.assembler pkt header) out) same
              presented,
          called,
        )
