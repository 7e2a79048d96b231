-- ===== src/Receiver/Video.antt =====
-- `rx_receiver_loop` over a sequence of whole frames.
use obs_st.Base.{
  ℕ, refl, ◌+◌, ◌≡◌, some, List, [], ◌∷◌, ◌++◌, ok, ◌>>=◌, Returns, Returns-both, Ensures-Returns,
  ap, sym, ◌∙◌, subst, bind_ext, bind_assoc,
}
use obs_st.Types.{Config, FrameCb}
use obs_st.Stats.{Floats}
use obs_st.Assembler.{Assembler}
use obs_st.Assembler.Safety.Frame.{IsFrame}
use obs_st.Receiver.{Rx}
use obs_st.Receiver.Packet.{Arrival, failed, datagram, rx_receiver_loop, receive}
use obs_st.Receiver.Live.{IsLive}
use obs_st.Receiver.Stream.{Accepts}
use obs_st.Receiver.Loop.{HasServed, IsFeed, last_time, datagrams, receiver_loop-HasServed_until}
use obs_st.Receiver.Served.{handles, receiver_loop-handles}
use obs_st.Receiver.Delivery.{packets_of, Fit}
use obs_st.Receiver.WholeFrame.{IsCall, handed, loop-IsShownOnce}

-- What arrives, frame after frame.
abbrev pub all_arrivals : List (List Arrival) → List Arrival
all_arrivals [] = []
all_arrivals (arrivals ∷ rest) = arrivals ++ all_arrivals rest

-- Each is the packets of one frame, for the assembler that the one before it leaves.
pub data IsVideo : Assembler → List (List Arrival) → Type 0 where
  no_more : {a : Assembler} → IsVideo a []
  one_more :
      {a b : Assembler} {arrivals : List Arrival} {rest : List (List Arrival)}
      → IsFrame a (packets_of arrivals) b
      → IsVideo (handed b) rest
      → IsVideo a (arrivals ∷ rest)

-- The calls of the user's callback from the state `user` to `user'`: one for each frame, in order, each
-- for the assembler that the one before it leaves.
pub data AreShown {X : Type 0} (config : Config X) (frame_cb : FrameCb X)
    : Assembler → List (List Arrival) → X → X → Type 0 where
  no_call :
      {a : Assembler} {user user' : X} → user ≡ user' → AreShown config frame_cb a [] user user'
  one_call :
      {a b : Assembler} {arrivals : List Arrival} {rest : List (List Arrival)} {user mid user' : X}
      → IsFrame a (packets_of arrivals) b
      → IsCall config frame_cb a (packets_of arrivals) user mid
      → AreShown config frame_cb (handed b) rest mid user'
      → AreShown config frame_cb a (arrivals ∷ rest) user user'

IsFeed-append :
    (t : ℕ) (xs ys : List Arrival) → IsFeed t (xs ++ ys) → IsFeed t xs × IsFeed (last_time t xs) ys
IsFeed-append t [] ys h = (tt, h)
IsFeed-append t (failed ∷ xs) ys h = IsFeed-append t xs ys h
IsFeed-append t (datagram payload now_us ∷ xs) ys (octets, later, range, h) =
    let (hx, hy) = IsFeed-append now_us xs ys h in ((octets, later, range, hx), hy)

Fit-append : (size : ℕ) (xs ys : List Arrival) → Fit size (xs ++ ys) → Fit size xs × Fit size ys
Fit-append size [] ys h = (tt, h)
Fit-append size (failed ∷ xs) ys h = Fit-append size xs ys h
Fit-append size (datagram payload now_us ∷ xs) ys (fits, h) =
    let (hx, hy) = Fit-append size xs ys h in ((fits, hx), hy)

module _ {F : Floats} {X : Type 0} where
  receiver_loop-append :
      (xs ys : List Arrival) (rx : Rx F X) (user : X)
      → rx_receiver_loop F rx user (xs ++ ys)
        ≡ (rx_receiver_loop F rx user xs >>= λ r. rx_receiver_loop F r.0 r.1 ys)
  unfolding rx_receiver_loop
  receiver_loop-append [] ys rx user = refl
  receiver_loop-append (failed ∷ xs) ys rx user = receiver_loop-append xs ys rx user
  receiver_loop-append (datagram payload now_us ∷ xs) ys rx user =
      bind_ext (receive F rx user payload now_us) _ _ (λ r. receiver_loop-append xs ys r.0 r.1)
      ∙ sym (bind_assoc (receive F rx user payload now_us) _ _)

module _ {F : Floats} {X : Type 0} (config : Config X) (frame_cb : FrameCb X)
    (is_cb : config.frame_cb ≡ some frame_cb) (K : X → Type 0)
    (accepts : Accepts config frame_cb K) where
  -- One frame, with all that the next one needs.
  frame_step :
      (arrivals : List Arrival) (rx : Rx F X) (user : X) (before t n : ℕ) (b : Assembler)
      → HasServed config frame_cb is_cb K accepts before t n (rx, user)
      → IsFeed t arrivals
      → Fit rx.pkt_buf_size arrivals
      → IsFrame rx.assembler (packets_of arrivals) b
      → (r : Rx F X × X) × (rx_receiver_loop F rx user arrivals ≡ ok r)
        × IsCall config frame_cb rx.assembler (packets_of arrivals) user r.1
        × (r.0.assembler ≡ handed b)
        × HasServed config frame_cb is_cb K accepts before
            (last_time t arrivals)
            (n + datagrams arrivals)
            r
        × (handles r.0 ≡ handles rx)
  frame_step arrivals rx user before t n b h feed fit frame =
      let (r, e, ((once, same), served)) =
        Returns-both _
          (Returns-both _
            (loop-IsShownOnce config frame_cb is_cb K accepts arrivals rx user before t n b h feed
              fit frame)
            (receiver_loop-handles arrivals rx user))
          (Ensures-Returns _ (
            receiver_loop-HasServed_until config frame_cb is_cb K accepts arrivals rx user before t
              n h feed)) in
      (r, e, once.call, once.next, served, same)

  shown_from :
      {a : Assembler} {frames : List (List Arrival)}
      → IsVideo a frames
      → (rx : Rx F X) (user : X) (before t n : ℕ) → rx.assembler ≡ a
      → HasServed config frame_cb is_cb K accepts before t n (rx, user)
      → IsFeed t (all_arrivals frames)
      → Fit rx.pkt_buf_size (all_arrivals frames)
      → Returns
          (rx_receiver_loop F rx user (all_arrivals frames))
          (λ r. IsLive config r.0 × AreShown config frame_cb a frames user r.1)
  unfolding rx_receiver_loop
  shown_from no_more rx user before t n same h feed fit = ((rx, user), refl, (h.live, no_call refl))
  shown_from (one_more {a} {b} {arrivals} {rest} frame video) rx user before t n same h feed fit =
      let (feed_now, feed_later) = IsFeed-append t arrivals (all_arrivals rest) feed in
      let (fit_now, fit_later) = Fit-append rx.pkt_buf_size arrivals (all_arrivals rest) fit in
      let (r, e, call, next, served, kept) =
        frame_step arrivals rx user before t n b h feed_now fit_now
          (subst (λ a. IsFrame a (packets_of arrivals) b) (sym same) frame) in
      let (r', e', (live, calls)) =
        shown_from video r.0 r.1 before (last_time t arrivals) (n + datagrams arrivals) next served
          feed_later
          (subst (λ size. Fit size (all_arrivals rest)) (sym (ap (λ rx. rx.pkt_buf_size) kept))
            fit_later) in
      (
        r',
        receiver_loop-append arrivals (all_arrivals rest) rx user ∙ rw e e',
        (
          live,
          one_call frame
              (subst (λ a. IsCall config frame_cb a (packets_of arrivals) user r.1) same call)
              calls,
        ),
      )

  -- A live receiver, and datagrams of octets that fit its buffer, with errors of recvfrom between them,
  -- at moments that do not run backwards and stay below 2 ^ 63 microseconds. Where the datagrams are the
  -- packets of one frame after the other, in sequence, only the last of each frame marked, each with the
  -- timestamp of the one before it or, behind a delivered frame, any, the receive loop of POSIX returns,
  -- with the receiver live, and with the user's state as the calls of the user's callback leave it, one
  -- for each frame in order. The frame of each call shows the fill buffer of the assembler that the frame
  -- before it leaves, which is blank then, with all segments of its own packets painted in their order,
  -- as it is or, where ten bits came and UYVY is asked for, with the top eight bits of each sample, and has
  -- the dimensions, the number and the mark of incompleteness of that assembler.
  pub loop-AreShown :
      (frames : List (List Arrival)) (rx : Rx F X) (user : X) (before t n : ℕ)
      → HasServed config frame_cb is_cb K accepts before t n (rx, user)
      → IsFeed t (all_arrivals frames)
      → Fit rx.pkt_buf_size (all_arrivals frames)
      → IsVideo rx.assembler frames
      → Returns
          (rx_receiver_loop F rx user (all_arrivals frames))
          (λ r. IsLive config r.0 × AreShown config frame_cb rx.assembler frames user r.1)
  loop-AreShown frames rx user before t n h feed fit video =
      shown_from video rx user before t n refl h feed fit
