-- ===== src/Receiver/Fresh.antt =====
-- What `st2110rx_create` returns.
use native.Mathlib.Numerals.{add-one}
use obs_st.Base.{
  ℕ, refl, suc, zero, ◌%◌, ◌<◌, ◌≡◌, inl, inr, arith, Bool, false, Option, none, some, length,
  Returns, ok, Bool-cases, Option-cases, IsBytes, ap, is_null, ◌||◌, ◌==◌, not,
}
use obs_st.Types.{Config, Rc, success, failure}
use obs_st.Resources.{Held, free_block}
use obs_st.Assembler.{Assembler, rx_assembler_init, IsReady, pgroup_of}
use obs_st.Assembler.Init.{init-IsReady}
use obs_st.Stats.{Floats, rx_stats_init}
use obs_st.Receiver.{Rx, Grants, new_rx, zero_assembler, tabulate}
use obs_st.Receiver.Create.{adopt, build, take_block, st2110rx_create}
use obs_st.Receiver.Live.{IsLive}

pub length-tabulate : (n : ℕ) (f : ℕ → ℕ) → length (tabulate n f) ≡ n
length-tabulate zero f = refl
length-tabulate (suc n) f = ap suc (length-tabulate n (λ i. f (suc i)))

pub IsBytes-tabulate : (n : ℕ) (f : ℕ → ℕ) → ((i : ℕ) → f i < 256) → IsBytes (tabulate n f)
IsBytes-tabulate zero f h = tt
IsBytes-tabulate (suc n) f h = (h 0, IsBytes-tabulate n (λ i. f (suc i)) (λ i. h (suc i)))

free_taken : (h : Held) → free_block (take_block h) ≡ ok h
free_taken h = rw add-one

-- What `rx_assembler_init` says of the assembler that it leaves.
abbrev Serves : {X : Type 0} → Config X → Assembler → Type 0
Serves config a =
    IsReady a
    × (pgroup_of config.input_fmt ≡ some a.pgroup_size)
    × (a.width ≡ config.width)
    × (a.height ≡ config.height)

init-Serves :
    {X : Type 0} (config : Config X) (fill deliver : Bool)
    → (rx_assembler_init
        (some zero_assembler)
        config.width
        config.height
        config.input_fmt
        fill
        deliver).1
      ≡ success
    → (a : Assembler) × ((rx_assembler_init
          (some zero_assembler)
          config.width
          config.height
          config.input_fmt
          fill
          deliver).0
        ≡ some a)
      × Serves config a
init-Serves config fill deliver h =
    let (a, e, ready, pgroup, w, height, _, _, _, _) =
      init-IsReady zero_assembler config.width config.height config.input_fmt fill deliver h in
    (a, e, (ready, pgroup, w, height))

module _ {F : Floats} {X : Type 0} (config : Config X) (held : Held) where
  -- NULL with nothing held in addition, or a receiver at rest with its five blocks and cleared
  -- statistics that can serve the configuration.
  abbrev pub IsNew : Option (Rx F X) × Held → Type 0
  IsNew (none, held') = held' ≡ held
  IsNew (some rx, held') =
      IsLive config rx
      × (rx.running ≡ false)
      × (rx.sock ≡ none)
      × (rx.thread_started ≡ false)
      × (rx.sockets_initialized ≡ false)
      × (held' ≡ take_block (take_block (take_block (take_block (take_block held)))))
      × (rx.iocp ≡ false)
      × (rx.iocp_buffers ≡ false)
      × (rx.stats ≡ rx_stats_init F)

  new_rx-IsLive :
      (packet convert : ℕ → ℕ) (a : Assembler)
      → ((i : ℕ) → packet i < 256)
      → IsReady a
      → pgroup_of config.input_fmt ≡ some a.pgroup_size
      → a.width ≡ config.width
      → a.height ≡ config.height
      → IsLive config (new_rx F config packet convert a)
  new_rx-IsLive packet convert a octets ready pgroup w h = record {
    same_config = refl;
    ready = ready;
    asm_width = w;
    asm_height = h;
    asm_pgroup = pgroup;
    stride = omega (arith, ready.width_range);
    convert_holds = length-tabulate _ convert;
    pkt_holds = length-tabulate _ packet;
    pkt_room = ground arith;
    pkt_octets = IsBytes-tabulate _ packet octets;
    stats_range = omega arith;
  }

  adopt-IsNew :
      (packet convert : ℕ → ℕ)
      → ((i : ℕ) → packet i < 256)
      → (o : Option Assembler) (rc : Rc)
      → (rc ≡ success → (a : Assembler) × (o ≡ some a) × Serves config a)
      → Returns
          (adopt F config packet convert o rc (take_block (take_block (take_block held))))
          IsNew
  unfolding adopt
  adopt-IsNew packet convert octets (some a) success serves =
      let (b, e, (ready, pgroup, w, h)) = serves refl in
      let same : a ≡ b = cc in
      (
        _,
        refl,
        (
          new_rx-IsLive packet convert a octets (rw same ready) (rw same pgroup) (rw same w)
              (rw same h),
          refl,
          refl,
          refl,
          refl,
          refl,
          refl,
          refl,
          refl,
        ),
      )
  adopt-IsNew packet convert octets none success serves = absurd (none_assembler (serves refl))
    where
      none_assembler : (a : Assembler) × (none ≡ some a) × Serves config a → ⊥
      none_assembler (a, e, s) = cc
  adopt-IsNew packet convert octets none failure serves =
      rw (free_taken (take_block (take_block held)), free_taken (take_block held), free_taken held)
        ((none, held), refl, refl)
  adopt-IsNew packet convert octets (some a) failure serves =
      rw (free_taken (take_block (take_block held)), free_taken (take_block held), free_taken held)
        ((none, held), refl, refl)

  build-IsNew :
      (grants : Grants)
      → ((f : ℕ → ℕ) → grants.packet ≡ some f → (i : ℕ) → f i < 256)
      → Returns (build F grants config (take_block held)) IsNew
  unfolding build
  build-IsNew grants octets = elim (Option-cases grants.packet) [
    | inl no_packet ↦ rw (no_packet, free_taken held) ((none, held), refl, refl)
    | inr (packet, has_packet) ↦ elim (Option-cases grants.convert) [
      | inl no_convert ↦
          rw (has_packet, no_convert, free_taken (take_block held), free_taken held)
            ((none, held), refl, refl)
      | inr (convert, has_convert) ↦
          rw (has_packet, has_convert)
            (adopt-IsNew packet convert (octets packet has_packet)
              (rx_assembler_init (some zero_assembler) config.width config.height config.input_fmt
                grants.fill grants.deliver).0
              (rx_assembler_init (some zero_assembler) config.width config.height config.input_fmt
                grants.fill grants.deliver).1
              (init-Serves config grants.fill grants.deliver))
    ]
  ]

  -- `st2110rx_create` returns, whatever blocks the system grants, for memory that holds octets: either
  -- NULL, with every block given back that it took, or a receiver at rest with its five blocks and cleared statistics, whose
  -- buffers fit the dimensions and the formats of the configuration.
  pub create-IsNew :
      (grants : Grants)
      → ((f : ℕ → ℕ) → grants.packet ≡ some f → (i : ℕ) → f i < 256)
      → Returns (st2110rx_create F grants (some config) held) IsNew
  unfolding st2110rx_create
  create-IsNew grants octets =
      elim (Bool-cases (
        is_null config.multicast_addr
        || is_null config.frame_cb
        || config.width == 0
        || config.height == 0)) [
          | inl unfit ↦ rw unfit ((none, held), refl, refl)
          | inr fit ↦ rw fit (elim (Bool-cases (not (config.width % 2 == 0))) [
            | inl odd ↦ rw odd ((none, held), refl, refl)
            | inr even ↦ rw even (elim (Bool-cases (not grants.object)) [
              | inl refused ↦ rw refused ((none, held), refl, refl)
              | inr granted ↦ rw granted (build-IsNew grants octets)
            ])
          ])
        ]
