-- ===== src/ObsSource/Lifecycle.antt =====
-- Creating, updating and destroying a source: obs-plugin/src/obs-st2110-source.c.
use obs_st.Base.{
  none, some, true, false, [], ok, Option, Bytes, ◌∷◌, Bool, Exec, if◌then◌else◌, ◌>>=◌, ◌==◌, u32,
  ◌||◌, ◌*◌,
}
use obs_st.Types.{uyvy, Config, is_ok}
use obs_st.Receiver.{Grants}
use obs_st.Stats.{Floats}
use obs_st.Receiver.Lifecycle.{Answers, st2110rx_destroy, st2110rx_start}
use obs_st.ObsSource.Callback.{World, on_frame}
use obs_st.Resources.{Platform, Held, free_block}
use obs_st.ObsSource.{
  Line, Settings, Source, Rx, Ctx, Status, create_failed, to_word, pixfmt_of, receiving,
  missing_settings, start_failed,
}
use obs_st.Receiver.Create.{take_block, st2110rx_create}

-- The system's answers while a receiver is created and started.
pub record System : Type 0 where
  pub grants : Grants
  pub answers : Answers

-- `!cfg.multicast_addr || cfg.multicast_addr[0] == '\0'`
abbrev pub is_blank : Option Bytes → Bool
is_blank none = true
is_blank (some []) = true
is_blank (some (c ∷ s)) = false

module _ {F : Floats} (world : World F) (p : Platform) where
  -- The configuration that `st2110_create_receiver` fills in.
  abbrev pub config_of : Settings → Config (Ctx F)
  config_of settings = record {
    multicast_addr = settings.multicast_addr;
    port = to_word 16 settings.port;
    interface_addr = settings.interface_addr;
    width = to_word 32 settings.width;
    height = to_word 32 settings.height;
    input_fmt = pixfmt_of (to_word 32 settings.input_depth);
    output_fmt = uyvy;
    socket_buffer_size = u32 (to_word 64 settings.socket_buffer_mb * 1024 * 1024);
    enable_jumbo = false;
    frame_cb = some (on_frame world);
  }

  abbrev pub log : Line F → Source F → Source F
  log line source = record source { ctx = record source.ctx { lines = line ∷ source.ctx.lines } }

  unfoldable pub st2110_destroy_receiver : Source F → Held → Exec (Source F × Held)
  st2110_destroy_receiver source held = elim source.rx [
    | none ↦ ok (source, held)
    | some rx ↦ do
      held' ← st2110rx_destroy F p world.joins rx held
      ok (record source { rx = none }, held')
  ]

  -- Behind `st2110rx_start`, whose result is `status`.
  unfoldable pub after_start : Source F → Rx F (Ctx F) × Held × Status → Exec (Source F × Held)
  after_start source (rx, held, status) =
      let started = record source { rx = some rx } in
      if is_ok status
      then ok (log receiving started, held)
      else st2110_destroy_receiver (log (start_failed status) started) held

  -- Behind `st2110rx_create`.
  unfoldable pub start_receiver :
      Answers → Source F → Option (Rx F (Ctx F)) × Held → Exec (Source F × Held)
  start_receiver answers source (none, held) =
      ok (log create_failed (record source { rx = none }), held)
  start_receiver answers source (some rx, held) =
      st2110rx_start F p answers rx held >>= after_start source

  -- Behind the first call of `st2110_destroy_receiver`.
  unfoldable pub configure : System → Settings → Source F → Held → Exec (Source F × Held)
  configure system settings source held =
      let cfg = config_of settings in
      if cfg.width == 0 || cfg.height == 0 || is_blank cfg.multicast_addr
      then ok (log missing_settings source, held)
      else (st2110rx_create F system.grants (some cfg) held
          >>= start_receiver system.answers
              (record source { width = cfg.width; height = cfg.height }))

  unfoldable pub st2110_create_receiver :
      System → Settings → Source F → Held → Exec (Source F × Held)
  st2110_create_receiver system settings source held =
      st2110_destroy_receiver source held >>= λ r. configure system settings r.0 r.1

  -- `bzalloc` clears the object; it does not return NULL.
  abbrev pub zero_source : Source F
  zero_source = record {
    rx = none;
    width = 0;
    height = 0;
    ctx = record {
      frames_delivered = 0;
      frames_skipped_incomplete = 0;
      last_log_frames = 0;
      last_log_time_ns = 0;
      readings = 0;
      shown = [];
      lines = [];
    };
  }

  unfoldable pub st2110_create : System → Settings → Held → Exec (Source F × Held)
  st2110_create system settings held =
      st2110_create_receiver system settings zero_source (take_block held)

  unfoldable pub st2110_update : System → Settings → Source F → Held → Exec (Source F × Held)
  st2110_update system settings source held = st2110_create_receiver system settings source held

  -- `none` is NULL.
  unfoldable pub st2110_destroy : Option (Source F) → Held → Exec Held
  st2110_destroy none held = ok held
  st2110_destroy (some source) held = do
    (source', held') ← st2110_destroy_receiver source held
    free_block held'
