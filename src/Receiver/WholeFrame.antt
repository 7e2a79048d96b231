-- ===== src/Receiver/WholeFrame.antt =====
-- `rx_receiver_loop` over the packets of a whole frame, from the datagrams to the user's callback.
use obs_st.Base.{
  ℕ, refl, ◌+◌, ◌≡◌, inl, inr, some, List, [], ◌∷◌, Bytes, ok, Returns, ap, sym, ◌∙◌, subst, false,
  true,
}
use obs_st.Types.{Config, FrameCb, Frame}
use obs_st.Stats.{Floats}
use obs_st.Assembler.{Assembler}
use obs_st.Assembler.Safety.Frame.{
  IsFrame, picture, picture-SameShape, advanced-SameShape, advanced_fill, last, more,
}
use obs_st.Receiver.{Rx}
use obs_st.Receiver.Packet.{Arrival, failed, datagram, rx_receiver_loop}
use obs_st.Receiver.Stream.{Accepts}
use obs_st.Receiver.Loop.{HasServed, IsFeed}
use obs_st.Receiver.Presented.{IsPresented}
use obs_st.Receiver.Delivery.{
  packets_of, Fit, IsFrame-first, loop_quiet, completed_frame, receive-next, receive-last,
}
use obs_st.Rtp.{RtpHeader}
use obs_st.Assembler.Safety.InOrder.{IsNext, advanced}
use obs_st.Assembler.Safety.Frames.{delivered}

IsFrame-cons : {a b : Assembler} {pkts : List Bytes} → IsFrame a pkts b → pkts ≡ [] → ⊥
IsFrame-cons (last next) e = cc
IsFrame-cons (more next others) e = cc

-- The assembler behind the delivery of the frame that was complete in `b`.
abbrev pub handed : Assembler → Assembler
handed b = record (delivered b b.last_ts) { frame_delivered = true }

-- One call of the user's callback, with a frame `out` that shows the frame with the painted picture.
pub record IsCall {X : Type 0} (config : Config X) (frame_cb : FrameCb X) (a : Assembler)
    (pkts : List Bytes) (user user' : X) : Type 0 where
  pub frame : Frame
  pub plane : frame.plane ≡ picture a pkts a.fill_buf
  pub dimensions :
      (frame.linesize ≡ a.fill_stride)
      × (frame.width ≡ a.width)
      × (frame.height ≡ a.height)
      × (frame.format ≡ config.input_fmt)
  pub frame_number : frame.frame_number ≡ a.frame_number
  pub incomplete : frame.incomplete ≡ a.frame_incomplete
  pub out : Frame
  pub presented : IsPresented config.output_fmt frame out
  pub called : frame_cb out user ≡ ok user'

module _ {F : Floats} {X : Type 0} (config : Config X) (frame_cb : FrameCb X)
    (is_cb : config.frame_cb ≡ some frame_cb) (K : X → Type 0)
    (accepts : Accepts config frame_cb K) where
  -- One call of the user's callback, and the assembler behind the delivery.
  pub record IsShownOnce (a : Assembler) (pkts : List Bytes) (b : Assembler) (user : X)
      (r : Rx F X × X) : Type 0 where
    pub call : IsCall config frame_cb a pkts user r.1
    pub next : r.0.assembler ≡ handed b

  -- A packet before the others of its frame does not change what they are to show.
  IsShownOnce-more :
      {a b : Assembler} {pkt : Bytes} {header : RtpHeader} {pkts : List Bytes} {user : X}
      {r : Rx F X × X}
      → IsNext a false pkt header
      → IsShownOnce (advanced a pkt header) pkts b user r
      → IsShownOnce a (pkt ∷ pkts) b user r
  IsShownOnce-more {a} {pkt} {header} {pkts} next d = record {
    call = record {
      frame = d.call.frame;
      plane =
          d.call.plane
          ∙ picture-SameShape a (advanced a pkt header) pkts (advanced a pkt header).fill_buf
              (advanced-SameShape a pkt header)
          ∙ ap (picture a pkts) (advanced_fill a next);
      dimensions = d.call.dimensions;
      frame_number = d.call.frame_number;
      incomplete = d.call.incomplete;
      out = d.call.out;
      presented = d.call.presented;
      called = d.call.called;
    };
    next = d.next;
  }

  -- One frame: `b` is the assembler when its last packet is stored.
  pub loop-IsShownOnce :
      (arrivals : List Arrival) (rx : Rx F X) (user : X) (before t n : ℕ) (b : Assembler)
      → HasServed config frame_cb is_cb K accepts before t n (rx, user)
      → IsFeed t arrivals
      → Fit rx.pkt_buf_size arrivals
      → IsFrame rx.assembler (packets_of arrivals) b
      → Returns
          (rx_receiver_loop F rx user arrivals)
          (IsShownOnce rx.assembler (packets_of arrivals) b user)
  unfolding rx_receiver_loop
  loop-IsShownOnce [] rx user before t n b h feed fit frame = absurd (IsFrame-cons frame refl)
  loop-IsShownOnce (failed ∷ rest) rx user before t n b h feed fit frame =
      loop-IsShownOnce rest rx user before t n b h feed fit frame
  loop-IsShownOnce (datagram pkt now_us ∷ rest) rx user before t n b h (octets, later, range, feed)
        (fits, fit) frame =
      elim (IsFrame-first frame pkt (packets_of rest) refl) [
        | inl (header, next, none_left, reached) ↦
            let (x, (r, e, ((served, handles_same), (asm, user_same))), out, presented, called) =
              receive-last config frame_cb is_cb K accepts rx user pkt now_us before t n header h
                octets fits later range next in
            (
              r,
              rw e (loop_quiet rest r.0 r.1 none_left),
              record {
                call = record {
                  frame = completed_frame config rx.assembler pkt header;
                  plane = rw none_left (advanced_fill rx.assembler next);
                  dimensions = (refl, refl, refl, refl);
                  frame_number = refl;
                  incomplete = refl;
                  out = out;
                  presented = presented;
                  called = called ∙ ap ok (sym user_same);
                };
                next = asm ∙ ap handed (sym reached);
              },
            )
        | inr (header, next, others) ↦
            let (r, e, ((served, handles_same), (asm, user_same))) =
              receive-next config frame_cb is_cb K accepts rx user pkt now_us before t n header h
                octets fits later range next in
            let (r', e', shown) =
              loop-IsShownOnce rest r.0 r.1 before now_us (1 + n) b served feed
                (subst (λ size. Fit size rest) (sym (ap (λ rx. rx.pkt_buf_size) handles_same)) fit)
                (subst (λ a. IsFrame a (packets_of rest) b) (sym asm) others) in
            (
              r',
              rw e e',
              IsShownOnce-more next (
                  subst (λ a. IsShownOnce a (packets_of rest) b user r') asm
                    (subst (λ x. IsShownOnce r.0.assembler (packets_of rest) b x r') user_same
                      shown)),
            )
      ]
