-- ===== src/Receiver/Loop.antt =====
-- `rx_receiver_loop` over everything that arrives.
use obs_st.Base.{
  IsBytes-take, refl, ℕ, ◌+◌, ◌^◌, ◌%◌, ◌<◌, ◌≤◌, ◌≡◌, arith, some, length, Returns, Bytes, IsBytes,
  sym, List, [], ◌∷◌, subst, Returns-bind, ok, take, length-take, ◌==◌, false, true, splice,
  length-splice, IsBytes-splice, IsBytes-take, memcpy-eq-ok, ◌∙◌,
}
use obs_st.Types.{FrameCb, Config}
use obs_st.Stats.{Floats}
use obs_st.Receiver.{Rx}
use obs_st.Receiver.Packet.{Arrival, failed, datagram, rx_process_packet, receive, rx_receiver_loop}
use obs_st.Receiver.Live.{IsLive}
use obs_st.Receiver.Stream.{Accepts}
use obs_st.Receiver.Flow.{process_packet-IsServed}

-- What arrives from the moment `t` on: octets, at moments that do not run backwards.
abbrev pub IsFeed : ℕ → List Arrival → Type 0
IsFeed t [] = Unit
IsFeed t (failed ∷ rest) = IsFeed t rest
IsFeed t (datagram payload now_us ∷ rest) =
    IsBytes payload × (t ≤ now_us) × (now_us < 2 ^ 63) × IsFeed now_us rest

-- The datagrams that are not empty.
abbrev pub datagrams : List Arrival → ℕ
datagrams [] = 0
datagrams (failed ∷ rest) = datagrams rest
datagrams (datagram [] now_us ∷ rest) = datagrams rest
datagrams (datagram (x ∷ payload) now_us ∷ rest) = 1 + datagrams rest

-- The moment of the last arrival.
abbrev pub last_time : ℕ → List Arrival → ℕ
last_time t [] = t
last_time t (failed ∷ rest) = last_time t rest
last_time t (datagram payload now_us ∷ rest) = last_time now_us rest

module _ {κ} {F : Floats} {X : Type 0} (config : Config X) (frame_cb : FrameCb X)
    (is_cb : config.frame_cb ≡ some frame_cb) (K : X → Type κ)
    (accepts : Accepts config frame_cb K) where
  -- A live receiver that has counted n packets more than `before`, with no arrival behind `t`, and a
  -- user whose invariant holds.
  pub record HasServed (before t n : ℕ) (r : Rx F X × X) : Type κ where
    pub live : IsLive config r.0
    pub kept : K r.1
    pub clock : r.0.stats.last_arrival_us ≤ t
    pub packets : r.0.stats.packets_received ≡ (before + n) % 2 ^ 64

  pub serve :
      (rx : Rx F X) (user : X) (pkt : Bytes) (size now_us before t n : ℕ)
      → HasServed before t n (rx, user)
      → IsBytes pkt
      → size ≤ length pkt
      → t ≤ now_us
      → now_us < 2 ^ 63
      → Returns (rx_process_packet F rx user pkt size now_us) (HasServed before now_us (1 + n))
  serve rx user pkt size now_us before t n h octets inside later range =
      let same = h.live.same_config in
      let (r, e, served) =
        process_packet-IsServed rx (subst (λ c. IsLive c rx) (sym same) h.live) frame_cb
          (rw same is_cb) K (subst (λ c. Accepts c frame_cb K) (sym same) accepts) user pkt size
          now_us octets inside (omega (arith, h.clock)) range h.kept in
      (
        r,
        e,
        record {
          live = subst (λ c. IsLive c r.0) same served.live_after;
          kept = served.kept;
          clock = omega (arith, served.arrived);
          packets = omega (arith, served.packets, h.packets);
        },
      )

  relax :
      {before t t' n : ℕ} {r : Rx F X × X}
      → t ≤ t'
      → HasServed before t n r
      → HasServed before t' n r
  relax later h = record {
    live = h.live;
    kept = h.kept;
    clock = omega (arith, h.clock);
    packets = h.packets;
  }

  pub filled :
      (rx : Rx F X) (user : X) (buf : Bytes) (before t n : ℕ)
      → HasServed before t n (rx, user)
      → length buf ≡ rx.pkt_buf_size
      → IsBytes buf
      → HasServed before t n (record rx { pkt_buf = buf }, user)
  filled rx user buf before t n h holds octets = record {
    live = record {
      same_config = h.live.same_config;
      ready = h.live.ready;
      asm_width = h.live.asm_width;
      asm_height = h.live.asm_height;
      asm_pgroup = h.live.asm_pgroup;
      stride = h.live.stride;
      convert_holds = h.live.convert_holds;
      pkt_holds = holds;
      pkt_room = h.live.pkt_room;
      pkt_octets = octets;
      stats_range = h.live.stats_range;
    };
    kept = h.kept;
    clock = h.clock;
    packets = h.packets;
  }

  receive-HasServed :
      (rx : Rx F X) (user : X) (x : ℕ) (payload : Bytes) (now_us before t n : ℕ)
      → HasServed before t n (rx, user)
      → IsBytes (x ∷ payload)
      → t ≤ now_us
      → now_us < 2 ^ 63
      → Returns (receive F rx user (x ∷ payload) now_us) (HasServed before now_us (1 + n))
  unfolding receive
  receive-HasServed rx user x payload now_us before t n h octets later range =
      let got = take rx.pkt_buf_size (x ∷ payload) in
      let size : length got ≤ rx.pkt_buf_size =
        omega (arith, length-take rx.pkt_buf_size (x ∷ payload)) in
      let some_octets : (length got == 0) ≡ false =
        ground (arith, length-take rx.pkt_buf_size (x ∷ payload), h.live.pkt_room) in
      let room : 0 + length got ≤ length rx.pkt_buf = omega (arith, h.live.pkt_holds) in
      let buf = splice rx.pkt_buf 0 got 0 (length got) in
      let holds : length buf ≡ length rx.pkt_buf =
        length-splice rx.pkt_buf 0 got 0 (length got) room (omega arith) in
      let buf_octets =
        IsBytes-splice rx.pkt_buf 0 got 0 (length got) h.live.pkt_octets
          (IsBytes-take rx.pkt_buf_size (x ∷ payload) octets) in
      rw (some_octets, memcpy-eq-ok rx.pkt_buf 0 got 0 (length got) room (omega arith))
        (serve (record rx { pkt_buf = buf }) user buf (length got) now_us before t n
          (filled rx user buf before t n h (holds ∙ h.live.pkt_holds) buf_octets) buf_octets
          (omega arith) later range)

  receive_empty :
      (rx : Rx F X) (user : X) (now_us : ℕ) → receive F rx user [] now_us ≡ ok (rx, user)
  unfolding receive
  receive_empty rx user now_us =
      let nil : Bytes = [] in
      let none_got : (length (take rx.pkt_buf_size nil) == 0) ≡ true =
        ground (arith, length-take rx.pkt_buf_size nil) in
      rw none_got refl

  pub receiver_loop-HasServed_until :
      (arrivals : List Arrival) (rx : Rx F X) (user : X) (before t n : ℕ)
      → HasServed before t n (rx, user)
      → IsFeed t arrivals
      → Returns
          (rx_receiver_loop F rx user arrivals)
          (HasServed before (last_time t arrivals) (n + datagrams arrivals))
  unfolding rx_receiver_loop
  receiver_loop-HasServed_until [] rx user before t n h feed =
      let e : n ≡ n + 0 = omega arith in ((rx, user), refl, rw (← e) h)
  receiver_loop-HasServed_until (failed ∷ rest) rx user before t n h feed =
      receiver_loop-HasServed_until rest rx user before t n h feed
  receiver_loop-HasServed_until (datagram [] now_us ∷ rest) rx user before t n h
        (octets, later, range, feed) =
      rw (receive_empty rx user now_us)
        (receiver_loop-HasServed_until rest rx user before now_us n (relax later h) feed)
  receiver_loop-HasServed_until (datagram (x ∷ payload) now_us ∷ rest) rx user before t n h
        (octets, later, range, feed) =
      Returns-bind (receive-HasServed rx user x payload now_us before t n h octets later range)
        λ r h'.
          let e : 1 + n + datagrams rest ≡ n + (1 + datagrams rest) = omega arith in
          subst
            (λ m.
              Returns (rx_receiver_loop F r.0 r.1 rest)
                (HasServed before (last_time now_us rest) m))
            e (receiver_loop-HasServed_until rest r.0 r.1 before now_us (1 + n) h' feed)

  -- The receive loop of POSIX, over octets that arrive at moments that do not run backwards and stay
  -- below 2 ^ 63 microseconds: it returns from every such sequence of errors and datagrams, however
  -- malformed, with no access out of bounds, the receiver live, the user's invariant kept, and every
  -- datagram that is not empty counted.
  pub receiver_loop-HasServed :
      (arrivals : List Arrival) (rx : Rx F X) (user : X) (before t n : ℕ)
      → HasServed before t n (rx, user)
      → IsFeed t arrivals
      → Returns
          (rx_receiver_loop F rx user arrivals)
          (λ r. (t' : ℕ) × HasServed before t' (n + datagrams arrivals) r)
  receiver_loop-HasServed arrivals rx user before t n h feed =
      let (r, e, served) = receiver_loop-HasServed_until arrivals rx user before t n h feed in
      (r, e, (last_time t arrivals, served))
