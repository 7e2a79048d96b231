-- ===== src/Assembler/Init.antt =====
-- `rx_assembler_init`: which arguments it accepts, and what it establishes.
use obs_st.Base.{
  refl, ℕ, ◌%◌, ◌≤◌, ◌<◌, ◌≡◌, ◌⊎◌, arith, Bool, true, some, ◌/◌, inl, ◌*◌, inr, length-replicate,
  IsBytes, IsBytes-replicate,
}
use obs_st.Types.{PixFmt, ycbcr422_10bit, uyvy, success}
use obs_st.Assembler.{Assembler, allocate, rx_assembler_init, pgroup_of, cleared}
use obs_st.Assembler.{Bytes, IsReady}
use obs_st.Base.{◌↔◌}
use obs_st.Base.{replicate}
use obs_st.Assembler.{length}
use obs_st.Assembler.{buf_size, u32}
use obs_st.Assembler.{false}

-- The arguments that the receiver can serve, with both blocks granted.
abbrev pub Acceptable : ℕ → ℕ → PixFmt → Bool → Bool → Type 0
Acceptable width height fmt g1 g2 =
    (0 < width)
    × (width ≤ 8192)
    × (width % 2 ≡ 0)
    × (0 < height)
    × (height ≤ 4320)
    × ((fmt ≡ ycbcr422_10bit) ⊎ (fmt ≡ uyvy))
    × (g1 ≡ true)
    × (g2 ≡ true)

module _ (a : Assembler) (width height : ℕ) (fmt : PixFmt) (g1 g2 : Bool) where
  init_accepts :
      Acceptable width height fmt g1 g2
      → (rx_assembler_init (some a) width height fmt g1 g2).1 ≡ success
  unfolding rx_assembler_init allocate
  init_accepts h = ground arith

  init_refuses :
      (rx_assembler_init (some a) width height fmt g1 g2).1 ≡ success
      → Acceptable width height fmt g1 g2
  unfolding rx_assembler_init allocate
  init_refuses h = ground arith

  -- `rx_assembler_init` returns 0 exactly for an even width from 2 to 8192, a height from 1 to 4320
  -- and one of the two formats that it knows, with both blocks granted.
  pub init-success_iff :
      ((rx_assembler_init (some a) width height fmt g1 g2).1 ≡ success)
      ↔ Acceptable width height fmt g1 g2
  init-success_iff = (init_refuses, init_accepts)

-- What `cleared` gives for blocks that hold the picture is ready.
cleared-IsReady :
    {width height : ℕ} (pgroup : ℕ) (fill deliver : Bytes)
    → (pgroup ≡ 5) ⊎ (pgroup ≡ 4)
    → (0 < width) × (width ≤ 8192) × (width % 2 ≡ 0) × (0 < height) × (height ≤ 4320)
    → IsBytes fill
    → IsBytes deliver
    → length fill ≡ u32 (width / 2 * pgroup) * height
    → length deliver ≡ u32 (width / 2 * pgroup) * height
    → IsReady (cleared width height pgroup fill deliver)
cleared-IsReady pgroup fill deliver p h o o' e e' = ground arith

init-eq-cleared :
    (a : Assembler) (width height : ℕ) (fmt : PixFmt) (g1 g2 : Bool) (pgroup : ℕ)
    → Acceptable width height fmt g1 g2
    → pgroup_of fmt ≡ some pgroup
    → let size = u32 (width / 2 * pgroup) * height in
      (rx_assembler_init (some a) width height fmt g1 g2).0
      ≡ some (cleared width height pgroup (replicate size 0) (replicate size 0))
unfolding rx_assembler_init allocate
init-eq-cleared a width height fmt g1 g2 pgroup h e = ground arith

pgroup_of_accepted :
    (fmt : PixFmt)
    → (fmt ≡ ycbcr422_10bit) ⊎ (fmt ≡ uyvy)
    → (pgroup : ℕ) × (pgroup_of fmt ≡ some pgroup) × ((pgroup ≡ 5) ⊎ (pgroup ≡ 4))
pgroup_of_accepted fmt (inl e) = (5, ground arith, inl refl)
pgroup_of_accepted fmt (inr e) = (4, ground arith, inr refl)

-- When `rx_assembler_init` returns 0 the assembler is ready, has the dimensions asked for, blank
-- buffers of the picture's size, and no packet or frame behind it.
pub init-IsReady :
    (a : Assembler) (width height : ℕ) (fmt : PixFmt) (g1 g2 : Bool)
    → (rx_assembler_init (some a) width height fmt g1 g2).1 ≡ success
    → (a' : Assembler) × ((rx_assembler_init (some a) width height fmt g1 g2).0 ≡ some a')
      × IsReady a'
      × (pgroup_of fmt ≡ some a'.pgroup_size)
      × (a'.width ≡ width)
      × (a'.height ≡ height)
      × (a'.fill_buf ≡ replicate (buf_size a') 0)
      × (a'.deliver_buf ≡ replicate (buf_size a') 0)
      × (a'.has_prev_packet ≡ false)
      × (a'.frame_number ≡ 0)
init-IsReady a width height fmt g1 g2 h =
    let args = (init-success_iff a width height fmt g1 g2).0 h in
    let (pgroup, found, five_or_four) = pgroup_of_accepted fmt args.5 in
    let size = u32 (width / 2 * pgroup) * height in
    let blank : Bytes = replicate size 0 in
    (
      cleared width height pgroup blank blank,
      init-eq-cleared a width height fmt g1 g2 pgroup args found,
      cleared-IsReady pgroup blank blank five_or_four (args.0, args.1, args.2, args.3, args.4)
          (IsBytes-replicate size) (IsBytes-replicate size) (length-replicate size 0)
          (length-replicate size 0),
      found,
      refl,
      refl,
      refl,
      refl,
      refl,
      refl,
    )
