-- ===== src/Convert.antt =====
-- `rx_convert_be10_to_uyvy` of libst2110rx/src/rx_convert.c. The two pictures are distinct blocks.
pub mod Groups
pub mod Rows
use obs_st.Base.{
  ℕ, zero, suc, ◌+◌, ◌*◌, ◌/◌, Bytes, Exec, ok, ◌>>=◌, byte, store, bit_and, bit_or, u8, u16, ◌<<<◌,
  ◌>>>◌,
}

-- The body of the inner loop: five octets at `sp` give four at `dp`.
unfoldable pub convert_group : Bytes → ℕ → Bytes → ℕ → Exec Bytes
convert_group src sp dst dp = do
  s0 ← byte src sp
  s1 ← byte src (sp + 1)
  s2 ← byte src (sp + 2)
  s3 ← byte src (sp + 3)
  s4 ← byte src (sp + 4)
  let cb = u16 (bit_or (s0 <<< 2) (s1 >>> 6))
  let y0 = u16 (bit_or (bit_and s1 0x3F <<< 4) (s2 >>> 4))
  let cr = u16 (bit_or (bit_and s2 0x0F <<< 6) (s3 >>> 2))
  let y1 = u16 (bit_or (bit_and s3 0x03 <<< 8) s4)
  d1 ← store dst dp (u8 (cb >>> 2))
  d2 ← store d1 (dp + 1) (u8 (y0 >>> 2))
  d3 ← store d2 (dp + 2) (u8 (cr >>> 2))
  store d3 (dp + 3) (u8 (y1 >>> 2))

-- The inner loop, with `groups` rounds left.
unfoldable pub convert_row : Bytes → ℕ → ℕ → Bytes → ℕ → Exec Bytes
convert_row src zero sp dst dp = ok dst
convert_row src (suc groups) sp dst dp =
    convert_group src sp dst dp >>= λ dst'. convert_row src groups (sp + 5) dst' (dp + 4)

-- The outer loop at line `y`, with `lines` rounds left.
unfoldable pub convert_rows : Bytes → ℕ → ℕ → ℕ → ℕ → ℕ → Bytes → Exec Bytes
convert_rows src src_stride dst_stride pgroups zero y dst = ok dst
convert_rows src src_stride dst_stride pgroups (suc lines) y dst =
    convert_row src pgroups (y * src_stride) dst (y * dst_stride) >>= λ dst'.
    convert_rows src src_stride dst_stride pgroups lines (y + 1) dst'

unfoldable pub rx_convert_be10_to_uyvy : Bytes → ℕ → Bytes → ℕ → ℕ → ℕ → Exec Bytes
rx_convert_be10_to_uyvy src src_stride dst dst_stride width height =
    convert_rows src src_stride dst_stride (width / 2) height 0 dst
