-- ===== src/ObsSource/Owned.antt =====
-- The receiver that a source owns, through the source's operations.
use obs_st.Base.{
  none, some, refl, ok, inl, inr, ℕ, ◌≡◌, ◌<◌, ◌⊎◌, Option, Returns, Returns-bind, ◌≤◌, Bool-cases,
  Returns-both, arith, ap, ◌==◌, ◌||◌, ◌^◌, true,
}
use obs_st.Types.{uyvy, Config, is_ok_bad}
use obs_st.Stats.{Floats, rx_stats_init}
use obs_st.ObsSource.Callback.{World, on_frame}
use obs_st.Resources.{Platform, Held, nothing}
use obs_st.ObsSource.{Settings, Source, Rx, Ctx, Status}
use obs_st.ObsSource.Lifecycle.{
  System, st2110_destroy_receiver, config_of, after_start, start_receiver, configure, st2110_create,
  st2110_destroy, st2110_update, st2110_create_receiver, zero_source, is_blank,
}
use obs_st.ObsSource.Shown.{HasShown}
use obs_st.Receiver.Live.{IsLive}
use obs_st.Receiver.Ownership.{destroy-eq-blocks, IsAccounted, IsRunning, IsStopped}
use obs_st.Receiver.Lifecycle.{Answers}
use obs_st.Receiver.Starting.{IsSettled}
use obs_st.Receiver.Kept.{core, core-IsLive, start-core}
use obs_st.Receiver.Fresh.{IsNew, create-IsNew}
use obs_st.Receiver.Start.{start-IsSettled}

-- The system's memory holds octets.
abbrev pub HasOctets : System → Type 0
HasOctets system = (f : ℕ → ℕ) → system.grants.packet ≡ some f → (i : ℕ) → f i < 256

module _ {F : Floats} (world : World F) (p : Platform) where
  -- A receiver that runs for the dimensions of the source, with the source's callback, and whose last
  -- packet came until the moment t; everything that is held is the receiver's, but for the block of the source itself.
  pub record Runs (t : ℕ) (source : Source F) (rx : Rx F (Ctx F)) (held : Held) : Type 0 where
    pub config : Config (Ctx F)
    pub live : IsLive config rx
    pub callback : config.frame_cb ≡ some (on_frame world)
    pub output : config.output_fmt ≡ uyvy
    pub same_width : config.width ≡ source.width
    pub same_height : config.height ≡ source.height
    pub accounted : IsAccounted p 6 rx held
    pub running : IsRunning p rx
    pub clock : rx.stats.last_arrival_us ≤ t
    pub counted : rx.stats.packets_received < 2 ^ 64

  -- The source has a receiver that runs, or none and holds its own block alone.
  pub record IsOwned (t : ℕ) (source : Source F) (held : Held) : Type 0 where
    pub owned :
        ((source.rx ≡ none) × (held ≡ record nothing { blocks = 1 }))
        ⊎ ((rx : Rx F (Ctx F)) × (source.rx ≡ some rx) × Runs t source rx held)
    pub shown : HasShown source.ctx

  destroy_receiver-eq :
      (t : ℕ) (source : Source F) (held : Held)
      → world.joins ≡ true
      → IsOwned t source held
      → st2110_destroy_receiver world p source held
        ≡ ok (record source { rx = none }, record nothing { blocks = 1 })
  unfolding st2110_destroy_receiver
  destroy_receiver-eq t source held ends o = elim o.owned [
    | inl (absent, e) ↦ rw (absent, e) refl
    | inr (rx, present, r) ↦ rw (present, destroy-eq-blocks p 1 rx held ends r.accounted) refl
  ]

  module _ (t : ℕ) (settings : Settings) (source : Source F) (ends : world.joins ≡ true)
      (shown : HasShown source.ctx) (same_width : (config_of world p settings).width ≡ source.width)
      (same_height : (config_of world p settings).height ≡ source.height) where
    after_start-IsOwned :
        (rx rx' : Rx F (Ctx F)) (held : Held) (code : Status)
        → IsLive (config_of world p settings) rx
        → rx.stats ≡ rx_stats_init F
        → IsSettled p 6 (rx', held, code)
        → core rx' ≡ core rx
        → Returns (after_start world p source (rx', held, code)) (λ r. IsOwned t r.0 r.1)
    unfolding after_start st2110_destroy_receiver
    after_start-IsOwned rx rx' held code live fresh settled same = elim settled.outcome [
      | inl (fine, running) ↦ rw fine (
        _,
        refl,
        record {
          owned = inr (
            rx',
            refl,
            record {
              config = config_of world p settings;
              live = core-IsLive same live;
              callback = refl;
              output = refl;
              same_width = same_width;
              same_height = same_height;
              accounted = settled.accounted;
              running = running;
              clock = omega (
                arith,
                ap (λ r. r.stats.last_arrival_us) same,
                ap (λ s. s.last_arrival_us) fresh,
              );
              counted = omega (
                arith,
                ap (λ r. r.stats.packets_received) same,
                ap (λ s. s.packets_received) fresh,
              );
            },
          );
          shown = shown;
        },
      )
      | inr (bad, stopped) ↦
          rw (is_ok_bad code bad, destroy-eq-blocks p 1 rx' held ends settled.accounted)
            (_, refl, record { owned = inl (refl, refl); shown = shown })
    ]

    new-IsAccounted :
        (rx : Rx F (Ctx F)) (held : Held)
        → IsNew (config_of world p settings) (record nothing { blocks = 1 }) (some rx, held)
        → IsAccounted p 6 rx held × IsStopped p rx
    new-IsAccounted rx held (live, off, no_sock, no_thread, clear, e, no_port, no_pool, fresh) =
        ground arith

    start_receiver-IsOwned :
        (answers : Answers) (r : Option (Rx F (Ctx F)) × Held)
        → IsNew (config_of world p settings) (record nothing { blocks = 1 }) r
        → Returns (start_receiver world p answers source r) (λ r. IsOwned t r.0 r.1)
    unfolding start_receiver
    start_receiver-IsOwned answers (none, held) e =
        (_, refl, record { owned = inl (refl, e); shown = shown })
    start_receiver-IsOwned answers (some rx, held) new =
        let (accounted, stopped) = new-IsAccounted rx held new in
        let (live, _, _, _, _, _, _, _, fresh) = new in
        Returns-bind
          (Returns-both _ (start-IsSettled p 6 answers rx held accounted stopped)
            (start-core p answers rx held))
          λ r h. after_start-IsOwned rx r.0 r.1 r.2 live fresh h.0 h.1

  configure-IsOwned :
      (t : ℕ) (system : System) (settings : Settings) (source : Source F)
      → world.joins ≡ true
      → HasOctets system
      → source.rx ≡ none
      → HasShown source.ctx
      → Returns
          (configure world p system settings source (record nothing { blocks = 1 }))
          (λ r. IsOwned t r.0 r.1)
  unfolding configure
  configure-IsOwned t system settings source ends octets absent shown =
      let cfg = config_of world p settings in
      elim (Bool-cases (cfg.width == 0 || cfg.height == 0 || is_blank cfg.multicast_addr)) [
        | inl missing ↦ rw missing (_, refl, record { owned = inl (absent, refl); shown = shown })
        | inr usable ↦ rw usable (
            Returns-bind (create-IsNew cfg (record nothing { blocks = 1 }) system.grants octets)
              λ r new.
                start_receiver-IsOwned t settings
                  (record source { width = cfg.width; height = cfg.height }) ends shown refl refl
                  system.answers r new)
      ]

  -- `st2110_update`, at a source that has a receiver that runs or none, for any settings and any
  -- answers of the system, where a join of the receive thread returns: the update returns, nothing is
  -- given back twice, and the source again has either a receiver that runs for the dimensions that it tells OBS, or none and holds its own block alone.
  pub update-IsOwned :
      (t : ℕ) (system : System) (settings : Settings) (source : Source F) (held : Held)
      → world.joins ≡ true
      → HasOctets system
      → IsOwned t source held
      → Returns (st2110_update world p system settings source held) (λ r. IsOwned t r.0 r.1)
  unfolding st2110_update st2110_create_receiver
  update-IsOwned t system settings source held ends octets o =
      rw (destroy_receiver-eq t source held ends o)
        (configure-IsOwned t system settings (record source { rx = none }) ends octets refl o.shown)

  pub create-IsOwned :
      (t : ℕ) (system : System) (settings : Settings)
      → world.joins ≡ true
      → HasOctets system
      → Returns (st2110_create world p system settings nothing) (λ r. IsOwned t r.0 r.1)
  unfolding st2110_create st2110_create_receiver st2110_destroy_receiver
  create-IsOwned t system settings ends octets =
      configure-IsOwned t system settings (zero_source world p) ends octets refl tt

  pub destroy_source-eq :
      (t : ℕ) (source : Source F) (held : Held)
      → world.joins ≡ true
      → IsOwned t source held
      → st2110_destroy world p (some source) held ≡ ok nothing
  unfolding st2110_destroy
  destroy_source-eq t source held ends o = rw (destroy_receiver-eq t source held ends o) refl
