-- ===== src/ObsSource/Life.antt =====
-- The life of a source, with what its receiver gets in between.
use obs_st.Base.{
  none, some, refl, [], ok, inl, inr, ℕ, List, Exec, ◌∷◌, Returns, ◌>>=◌, Returns-bind,
  Returns-both, arith, ◌≡◌, ◌≤◌, ◌<◌, ◌^◌, true,
}
use obs_st.Resources.{posix, Held, nothing}
use obs_st.ObsSource.Lifecycle.{System, st2110_update, st2110_create, st2110_destroy}
use obs_st.Stats.{Floats}
use obs_st.ObsSource.{Settings, Source, ObsFrame, Rx, Ctx}
use obs_st.ObsSource.Callback.{World, on_frame}
use obs_st.Receiver.Packet.{Arrival, rx_receiver_loop}
use obs_st.ObsSource.Owned.{
  HasOctets, IsOwned, update-IsOwned, Runs, create-IsOwned, destroy_source-eq,
}
use obs_st.Receiver.Loop.{IsFeed, last_time, receiver_loop-HasServed_until}
use obs_st.ObsSource.Shown.{HasShown, on_frame-accepts, AllUyvy}
use obs_st.Receiver.Served.{receiver_loop-handles, handles, handles-IsAccounted, handles-IsRunning}
use obs_st.Receiver.Live.{IsLive}

-- What happens to a source between `st2110_create` and `st2110_destroy`: OBS updates it, or its
-- receiver's thread gets packets.
pub data Event : Type 0 where
  updated : System → Settings → Event
  received : List Arrival → Event

-- Octets, at moments from t on that do not run backwards.
abbrev pub IsHistory : ℕ → List Event → Type 0
IsHistory t [] = Unit
IsHistory t (updated system settings ∷ rest) = HasOctets system × IsHistory t rest
IsHistory t (received arrivals ∷ rest) = IsFeed t arrivals × IsHistory (last_time t arrivals) rest

module _ {F : Floats} (world : World F) where
  -- Without a receiver no thread runs. The receive loop is that of POSIX.
  unfoldable pub on_event : Event → Source F → Held → Exec (Source F × Held)
  on_event (updated system settings) source held =
      st2110_update world posix system settings source held
  on_event (received arrivals) source held = elim source.rx [
    | none ↦ ok (source, held)
    | some rx ↦ do
      (rx', ctx) ← rx_receiver_loop F rx source.ctx arrivals
      ok (record source { rx = some rx'; ctx = ctx }, held)
  ]

  unfoldable pub on_events : List Event → Source F → Held → Exec (Source F × Held)
  on_events [] source held = ok (source, held)
  on_events (event ∷ rest) source held = on_event event source held >>= λ r. on_events rest r.0 r.1

  -- The whole life: what OBS has been shown, and what is held in the end.
  unfoldable pub live : System → Settings → List Event → Exec (List ObsFrame × Held)
  live system settings events = do
    (source, held) ← st2110_create world posix system settings nothing
    (source', held') ← on_events events source held
    left ← st2110_destroy world posix (some source') held'
    ok (source'.ctx.shown, left)

  received-Runs :
      {t : ℕ} {source : Source F} {rx rx' : Rx F (Ctx F)} {held : Held} (t' : ℕ) (ctx : Ctx F)
      (runs : Runs world posix t source rx held)
      → IsLive runs.config rx'
      → rx'.stats.last_arrival_us ≤ t'
      → rx'.stats.packets_received < 2 ^ 64
      → handles rx' ≡ handles rx
      → Runs world posix t' (record source { rx = some rx'; ctx = ctx }) rx' held
  received-Runs t' ctx runs live clock counted same = record {
    config = runs.config;
    live = live;
    callback = runs.callback;
    output = runs.output;
    same_width = runs.same_width;
    same_height = runs.same_height;
    accounted = handles-IsAccounted same runs.accounted;
    running = handles-IsRunning same runs.running;
    clock = clock;
    counted = counted;
  }

  receive-IsOwned :
      (t : ℕ) (arrivals : List Arrival) (source : Source F) (held : Held)
      → IsOwned world posix t source held
      → IsFeed t arrivals
      → Returns
          (on_event (received arrivals) source held)
          (λ r. IsOwned world posix (last_time t arrivals) r.0 r.1)
  unfolding on_event
  receive-IsOwned t arrivals source held o feed = elim o.owned [
    | inl (absent, e) ↦ rw absent (_, refl, record { owned = inl (refl, e); shown = o.shown })
    | inr (rx, present, runs) ↦ rw present (
        Returns-bind
          (Returns-both _
            (receiver_loop-HasServed_until runs.config (on_frame world) runs.callback HasShown
              (on_frame-accepts world runs.config runs.output) arrivals rx source.ctx
              rx.stats.packets_received t 0
              (record {
                live = runs.live;
                kept = o.shown;
                clock = runs.clock;
                packets = omega (arith, runs.counted);
              })
              feed)
            (receiver_loop-handles arrivals rx source.ctx))
          λ r h. (
            _,
            refl,
            record {
              owned = inr (
                r.0,
                refl,
                received-Runs (last_time t arrivals) r.1 runs h.0.live h.0.clock
                    (omega (arith, h.0.packets)) h.1,
              );
              shown = h.0.kept;
            },
          ))
  ]

  -- The source after the last event.
  on_events-IsOwned :
      (t : ℕ) (events : List Event) (source : Source F) (held : Held)
      → world.joins ≡ true
      → IsOwned world posix t source held
      → IsHistory t events
      → Returns (on_events events source held) (λ r. (t' : ℕ) × IsOwned world posix t' r.0 r.1)
  unfolding on_events on_event
  on_events-IsOwned t [] source held ends o history = (_, refl, (t, o))
  on_events-IsOwned t (updated system settings ∷ rest) source held ends o (octets, history) =
      Returns-bind (update-IsOwned world posix t system settings source held ends octets o)
        λ r o'. on_events-IsOwned t rest r.0 r.1 ends o' history
  on_events-IsOwned t (received arrivals ∷ rest) source held ends o (feed, history) =
      Returns-bind (receive-IsOwned t arrivals source held o feed)
        λ r o'. on_events-IsOwned (last_time t arrivals) rest r.0 r.1 ends o' history

  -- From `st2110_create` to `st2110_destroy`, with any updates and any octets from the network in
  -- between, at moments that do not run backwards and stay below 2 ^ 63 microseconds, and any answers
  -- of the system, where each join of a receive thread returns: every call returns, with no access out of bounds and nothing given back twice, in
  -- the end nothing is held, and every frame that OBS was handed has two octets for each pixel and
  -- all its lines.
  pub live-eq-nothing :
      (system : System) (settings : Settings) (events : List Event)
      → world.joins ≡ true
      → HasOctets system
      → IsHistory 0 events
      → Returns (live system settings events) (λ r. AllUyvy r.0 × (r.1 ≡ nothing))
  unfolding live
  live-eq-nothing system settings events ends octets history =
      Returns-bind (create-IsOwned world posix 0 system settings ends octets) λ r o.
        Returns-bind (on_events-IsOwned 0 events r.0 r.1 ends o history) λ r' h.
          let (t, o') = h in
          rw (destroy_source-eq world posix t r'.0 r'.1 ends o') (_, refl, (o'.shown, refl))
