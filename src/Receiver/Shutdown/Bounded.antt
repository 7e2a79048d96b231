-- ===== src/Receiver/Shutdown/Bounded.antt =====
-- How the receive thread of POSIX ends behind `st2110rx_stop`.
use obs_st.Base.{
  ◌≡◌, ok, some, Bool, ◌≤◌, Option, ℕ, ◌<◌, Returns, ◌^◌, arith, false, refl, Bytes, subst, length,
  sym, IsBytes, Ensures-ok_of, memcpy, Ensures-Returns, ◌+◌, memcpy-eq-ok, length-splice, ◌∙◌,
  IsBytes-splice,
}
use obs_st.Receiver.{Rx, Floats, Config, Socket}
use obs_st.Receiver.Live.{IsLive}
use obs_st.Receiver.Stream.{Accepts}
use obs_st.Receiver.Flow.{process_packet-IsServed}
use obs_st.Receiver.Shutdown.{
  still, thread, stop, at_test, in_recvfrom, behind_error, ended, at_packet, Threads, ThreadStep,
  StopStep, Run, Place, Stopper, at_packet, ended, in_recvfrom, rx_process_packet, serve, clear,
  enter, leave, run-IsEnding, thread, close, fail, give_up, left_few, stop, get, join, skip,
  clean_up, go_on,
}
use obs_st.Types.{FrameCb}

module _ {F : Floats} {X : Type 0} where
  -- What the thread can do from a place where it does not wait: it has ended, waits in `recvfrom`, or has
  -- a step.
  pub data Going (t : Threads F X) : Type 0 where
    over : t.place ≡ ended → Going t
    is_waiting : t.place ≡ in_recvfrom → Going t
    can_step : (m : ℕ) (u : Threads F X) → ThreadStep F X t m u → Going t

  -- A packet in the buffer, if there is one, came within the buffer and in time.
  abbrev IsHeld : Rx F X → Place → Type 0
  IsHeld rx (at_packet n now_us) =
      (n ≤ rx.pkt_buf_size) × (rx.stats.last_arrival_us ≤ now_us) × (now_us < 2 ^ 63)
  IsHeld rx at_test = Unit
  IsHeld rx in_recvfrom = Unit
  IsHeld rx behind_error = Unit
  IsHeld rx ended = Unit

  -- What stop changes and a packet in the buffer do not concern the receiver's buffers.
  IsLive-stopped :
      (config : Config X) (rx : Rx F X) (running started up : Bool) (sock : Option Socket)
      → IsLive config rx
      → IsLive config (record rx {
        running = running;
        thread_started = started;
        sockets_initialized = up;
        sock = sock;
      })
  IsLive-stopped config rx running started up sock h = record {
    same_config = h.same_config;
    ready = h.ready;
    asm_width = h.asm_width;
    asm_height = h.asm_height;
    asm_pgroup = h.asm_pgroup;
    stride = h.stride;
    convert_holds = h.convert_holds;
    pkt_holds = h.pkt_holds;
    pkt_room = h.pkt_room;
    pkt_octets = h.pkt_octets;
    stats_range = h.stats_range;
  }

  IsLive-filled :
      (config : Config X) (rx : Rx F X) (buf : Bytes)
      → IsLive config rx
      → length buf ≡ rx.pkt_buf_size
      → IsBytes buf
      → IsLive config (record rx { pkt_buf = buf })
  IsLive-filled config rx buf h holds octets = record {
    same_config = h.same_config;
    ready = h.ready;
    asm_width = h.asm_width;
    asm_height = h.asm_height;
    asm_pgroup = h.asm_pgroup;
    stride = h.stride;
    convert_holds = h.convert_holds;
    pkt_holds = holds;
    pkt_room = h.pkt_room;
    pkt_octets = octets;
    stats_range = h.stats_range;
  }

module _ {F : Floats} {X : Type 0} (config : Config X) (frame_cb : FrameCb X)
    (is_cb : config.frame_cb ≡ some frame_cb) (K : X → Type 0)
    (accepts : Accepts config frame_cb K) where
  -- A live receiver, a user whose invariant holds, and a packet in the buffer that can be served.
  pub record IsSound (t : Threads F X) : Type 0 where
    pub live : IsLive config t.rx
    pub kept : K t.user
    pub held : IsHeld t.rx t.place

  serve-Returns :
      (t : Threads F X) (n now_us : ℕ)
      → IsSound t
      → t.place ≡ at_packet n now_us
      → Returns
          (rx_process_packet F t.rx t.user t.rx.pkt_buf n now_us)
          (λ r. IsLive config r.0 × K r.1)
  serve-Returns t n now_us s at =
      let (inside, later, range) = subst (IsHeld t.rx) at s.held in
      let same = s.live.same_config in
      let (r, e, served) =
        process_packet-IsServed t.rx (subst (λ c. IsLive c t.rx) (sym same) s.live) frame_cb
          (rw same is_cb) K (subst (λ c. Accepts c frame_cb K) (sym same) accepts) t.user
          t.rx.pkt_buf n now_us s.live.pkt_octets (omega (arith, s.live.pkt_holds)) later range
          s.kept in
      (r, e, (subst (λ c. IsLive c r.0) same served.live_after, served.kept))

  get-IsSound :
      (t : Threads F X) (octets buf : Bytes) (now_us : ℕ)
      → IsSound t
      → length octets ≤ t.rx.pkt_buf_size
      → IsBytes octets
      → t.rx.stats.last_arrival_us ≤ now_us
      → now_us < 2 ^ 63
      → memcpy t.rx.pkt_buf 0 octets 0 (length octets) ≡ ok buf
      → IsSound (record t {
        rx = record t.rx { pkt_buf = buf };
        place = at_packet (length octets) now_us;
      })
  get-IsSound t octets buf now_us s fit is_bytes later range stored =
      let room : 0 + length octets ≤ length t.rx.pkt_buf = omega (arith, s.live.pkt_holds) in
      let holds_octets =
        Ensures-ok_of (λ b. (length b ≡ t.rx.pkt_buf_size) × IsBytes b)
          (Ensures-Returns _ (
            _,
            memcpy-eq-ok t.rx.pkt_buf 0 octets 0 (length octets) room (omega arith),
            (
              length-splice t.rx.pkt_buf 0 octets 0 (length octets) room (omega arith)
                  ∙ s.live.pkt_holds,
              IsBytes-splice t.rx.pkt_buf 0 octets 0 (length octets) s.live.pkt_octets is_bytes,
            ),
          ))
          stored in
      record {
        live = IsLive-filled config t.rx buf s.live holds_octets.0 holds_octets.1;
        kept = s.kept;
        held = (fit, later, range);
      }

  thread-IsSound : {t u : Threads F X} {m : ℕ} → IsSound t → ThreadStep F X t m u → IsSound u
  thread-IsSound s (enter t at on) = record { live = s.live; kept = s.kept; held = tt }
  thread-IsSound s (leave t at off) = record { live = s.live; kept = s.kept; held = tt }
  thread-IsSound s (fail t at) = record { live = s.live; kept = s.kept; held = tt }
  thread-IsSound s (get t octets buf now_us at some_octets fit is_bytes later range stored) =
      get-IsSound t octets buf now_us s fit is_bytes later range stored
  thread-IsSound s (serve t n now_us r at gave) =
      let (live, kept) =
        Ensures-ok_of (λ r. IsLive config r.0 × K r.1)
          (Ensures-Returns _ (serve-Returns t n now_us s at)) gave in
      record { live = live; kept = kept; held = tt }
  thread-IsSound s (go_on t at on) = record { live = s.live; kept = s.kept; held = tt }
  thread-IsSound s (give_up t at off) = record { live = s.live; kept = s.kept; held = tt }

  IsHeld-stopped :
      (rx rx' : Rx F X) (p : Place)
      → rx'.pkt_buf_size ≡ rx.pkt_buf_size
      → rx'.stats ≡ rx.stats
      → IsHeld rx p
      → IsHeld rx' p
  IsHeld-stopped rx rx' at_test size stats h = tt
  IsHeld-stopped rx rx' in_recvfrom size stats h = tt
  IsHeld-stopped rx rx' behind_error size stats h = tt
  IsHeld-stopped rx rx' ended size stats h = tt
  IsHeld-stopped rx rx' (at_packet n now_us) size stats (inside, later, range) =
      (rw size inside, rw stats later, range)

  stopped :
      (t : Threads F X) (running started up : Bool) (sock : Option Socket) (stopper : Stopper)
      → IsSound t
      → IsSound (record t {
        rx = record t.rx {
          running = running;
          thread_started = started;
          sockets_initialized = up;
          sock = sock;
        };
        stopper = stopper;
      })
  stopped t running started up sock stopper s = record {
    live = IsLive-stopped config t.rx running started up sock s.live;
    kept = s.kept;
    held =
        IsHeld-stopped t.rx
          (record t.rx {
            running = running;
            thread_started = started;
            sockets_initialized = up;
            sock = sock;
          })
          t.place refl refl s.held;
  }

  stop-IsSound : {t u : Threads F X} → IsSound t → StopStep F X t u → IsSound u
  stop-IsSound s (clear t at) = stopped t _ _ _ _ _ s
  stop-IsSound s (close t at) = stopped t _ _ _ _ _ s
  stop-IsSound s (join t at started gone) = stopped t _ _ _ _ _ s
  stop-IsSound s (skip t at none_started) = stopped t _ _ _ _ _ s
  stop-IsSound s (clean_up t at) = stopped t _ _ _ _ _ s

  run-IsSound : {s t : Threads F X} {k n : ℕ} → IsSound s → Run F X s k n t → IsSound t
  run-IsSound s still = s
  run-IsSound s (thread run step total) = thread-IsSound (run-IsSound s run) step
  run-IsSound s (stop run step) = stop-IsSound (run-IsSound s run) step

  going : (t : Threads F X) (p : Place) → t.place ≡ p → t.rx.running ≡ false → IsSound t → Going t
  going t at_test at off s = can_step 0 _ (leave t at off)
  going t in_recvfrom at off s = is_waiting at
  going t behind_error at off s = can_step 0 _ (give_up t at off)
  going t ended at off s = over at
  going t (at_packet n now_us) at off s =
      let (r, gave, _) = serve-Returns t n now_us s at in can_step 1 _ (serve t n now_us r at gave)

  -- Once `running` is 0, with the rest of st2110rx_stop at any point and its steps between those of the
  -- receive thread of POSIX in any order, at a live receiver with octets that arrive below 2 ^ 63
  -- microseconds at moments that do not run backwards: the thread makes three steps at most, serves one
  -- packet at most, `running` stays 0, and after every such run the thread has ended, waits in recvfrom,
  -- or has a step to make.
  pub stop-IsBounded :
      {s t : Threads F X} {k n : ℕ}
      → s.rx.running ≡ false
      → IsSound s
      → Run F X s k n t
      → (k ≤ 3) × (n ≤ 1) × (t.rx.running ≡ false) × Going t
  stop-IsBounded {s} {t} off sound run =
      let e = run-IsEnding off run in
      let few = left_few s.place in
      (ground arith, ground arith, e.off, going t t.place refl e.off (run-IsSound sound run))
