-- ===== src/Receiver/Create.antt =====
-- `st2110rx_create` of libst2110rx/src/rx_core.c.
use obs_st.Base.{
  ℕ, ◌+◌, ◌%◌, not, ◌||◌, Option, none, some, Exec, ok, ◌>>=◌, is_null, ◌==◌, if◌then◌else◌,
}
use obs_st.Types.{Config, Rc, success}
use obs_st.Assembler.{Assembler, rx_assembler_init}
use obs_st.Stats.{Floats}
use obs_st.Resources.{Held, free_block}
use obs_st.Receiver.{Rx, Grants, new_rx, zero_assembler}

abbrev pub take_block : Held → Held
take_block h = record h { blocks = h.blocks + 1 }

module _ (F : Floats) {X : Type 0} where
  -- Behind `rx_assembler_init`, which has taken two blocks of its own if it returned 0.
  unfoldable pub adopt :
      Config X → (ℕ → ℕ) → (ℕ → ℕ) → Option Assembler → Rc → Held → Exec (Option (Rx F X) × Held)
  adopt config packet convert (some assembler) success held =
      ok (some (new_rx F config packet convert assembler), take_block (take_block held))
  adopt config packet convert _ _ held = do
    h1 ← free_block held
    h2 ← free_block h1
    h3 ← free_block h2
    ok (none, h3)

  -- The allocations behind that of the object itself.
  unfoldable pub build : Grants → Config X → Held → Exec (Option (Rx F X) × Held)
  build grants config held = elim grants.packet [
    | none ↦ free_block held >>= λ h. ok (none, h)
    | some packet ↦
        let with_packet = take_block held in
        elim grants.convert [
          | none ↦ do h1 ← free_block with_packet; h2 ← free_block h1; ok (none, h2)
          | some convert ↦
              let (assembler, rc) =
                rx_assembler_init (some zero_assembler) config.width config.height config.input_fmt
                  grants.fill grants.deliver in
              adopt config packet convert assembler rc (take_block with_packet)
        ]
  ]

  -- `st2110rx_create`; `none` is NULL.
  unfoldable pub st2110rx_create : Grants → Option (Config X) → Held → Exec (Option (Rx F X) × Held)
  st2110rx_create grants none held = ok (none, held)
  st2110rx_create grants (some config) held =
      if is_null config.multicast_addr
        || is_null config.frame_cb
        || config.width == 0
        || config.height == 0
      then ok (none, held)
      else (if not (config.width % 2 == 0)
          then ok (none, held)
          else (if not grants.object
              then ok (none, held)
              else build grants config (take_block held)))
