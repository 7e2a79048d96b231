-- ===== src/Convert/Rows.antt =====
-- The whole conversion of `rx_convert_be10_to_uyvy`, line by line.
use obs_st.Base.{
  ℕ, zero, suc, refl, ◌+◌, ◌*◌, ◌/◌, ◌≤◌, ◌<◌, ◌⊎◌, inl, Bytes, IsBytes, length, arith, get_or, ◌≡◌,
  ◌∙◌, Returns, Returns-bind, Writes,
}
use obs_st.Convert.{convert_rows, rx_convert_be10_to_uyvy}
use obs_st.Convert.Groups.{sample, convert_row-Writes}

-- The lines `y` to `y + lines - 1` of `out` are the converted ones of `src`, and all else is as in `dst`.
pub record IsConverted (src : Bytes) (src_stride : ℕ) (dst : Bytes) (dst_stride groups y lines : ℕ)
    (out : Bytes) : Type 0 where
  pub same_length : length out ≡ length dst
  pub inside :
      (k i : ℕ)
      → k < lines
      → i < 4 * groups
      → get_or out ((y + k) * dst_stride + i) 0 ≡ sample src ((y + k) * src_stride) i
  pub outside :
      (j : ℕ)
      → ((k : ℕ) → k < lines → (j < (y + k) * dst_stride) ⊎ ((y + k) * dst_stride + 4 * groups ≤ j))
      → get_or out j 0 ≡ get_or dst j 0

module _ (src : Bytes) (src_stride dst_stride groups : ℕ) (octets : IsBytes src)
    (src_line : 5 * groups ≤ src_stride) (dst_line : 4 * groups ≤ dst_stride) where
  line_end : (y stride n : ℕ) → n ≤ stride → y * stride + n ≤ (y + 1) * stride
  line_end y stride n h = grind arith

  apart :
      (t t' j : ℕ)
      → t ≡ t'
      → (j < t * dst_stride) ⊎ (t * dst_stride + 4 * groups ≤ j)
      → (j < t' * dst_stride) ⊎ (t' * dst_stride + 4 * groups ≤ j)
  apart t t' j e h = rw (← e) h

  IsConverted-next :
      {dst mid out : Bytes} {y lines : ℕ}
      → Writes dst (y * dst_stride) (4 * groups) (sample src (y * src_stride)) mid
      → IsConverted src src_stride mid dst_stride groups (y + 1) lines out
      → IsConverted src src_stride dst dst_stride groups y (suc lines) out
  IsConverted-next {mid} {out} {y} {lines} w rest = record {
    same_length = rest.same_length ∙ w.same_length;
    inside = inside;
    outside = λ j h.
        rest.outside j
          (λ k lt. apart (y + suc k) (y + 1 + k) j (omega arith) (h (suc k) (omega arith)))
        ∙ w.outside j (apart (y + 0) y j (omega arith) (h 0 (omega arith)));
  }
    where
      inside :
          (k i : ℕ)
          → k < suc lines
          → i < 4 * groups
          → get_or out ((y + k) * dst_stride + i) 0 ≡ sample src ((y + k) * src_stride) i
      inside zero i lt in_line =
          let e : y + 0 ≡ y = omega arith in
          rw e (
            rest.outside (y * dst_stride + i)
              (λ k below. inl (grind (arith, line_end y dst_stride (4 * groups) dst_line)))
            ∙ w.inside i in_line)
      inside (suc k) i lt in_line =
          let e : y + suc k ≡ y + 1 + k = omega arith in
          rw e (rest.inside k i (omega arith) in_line)

  line_inside :
      (y lines stride n size : ℕ)
      → n ≤ stride
      → (y + suc lines) * stride ≤ size
      → y * stride + n ≤ size
  line_inside y lines stride n size h k = grind arith

  convert_rows-IsConverted :
      (lines y : ℕ) (dst : Bytes)
      → (y + lines) * src_stride ≤ length src
      → (y + lines) * dst_stride ≤ length dst
      → Returns
          (convert_rows src src_stride dst_stride groups lines y dst)
          (IsConverted src src_stride dst dst_stride groups y lines)
  unfolding convert_rows
  convert_rows-IsConverted zero y dst have room = (
    dst,
    refl,
    record { same_length = refl; inside = λ k i lt. absurd (omega arith); outside = λ j h. refl },
  )
  convert_rows-IsConverted (suc lines) y dst have room =
      let e : y + 1 + lines ≡ y + suc lines = omega arith in
      Returns-bind
        (convert_row-Writes src octets groups (y * src_stride) dst (y * dst_stride)
          (line_inside y lines src_stride (5 * groups) (length src) src_line have)
          (line_inside y lines dst_stride (4 * groups) (length dst) dst_line room))
        λ mid w.
          let (out, e', rest) =
            convert_rows-IsConverted lines (y + 1) mid (rw e have) (rw (e, w.same_length) room) in
          (out, e', IsConverted-next w rest)

-- For a source of octets that holds `height` lines of whole groups, and a destination that holds as
-- many converted lines, `rx_convert_be10_to_uyvy` makes no access out of bounds. In each line, octet
-- i of the result is the top eight bits of the ten-bit sample i, read from the big-endian groups of
-- forty bits; every octet behind the groups of a line, and behind the last line, is left alone.
pub convert-IsConverted :
    (src : Bytes) (src_stride : ℕ) (dst : Bytes) (dst_stride width height : ℕ)
    → IsBytes src
    → 5 * (width / 2) ≤ src_stride
    → 4 * (width / 2) ≤ dst_stride
    → height * src_stride ≤ length src
    → height * dst_stride ≤ length dst
    → Returns
        (rx_convert_be10_to_uyvy src src_stride dst dst_stride width height)
        (IsConverted src src_stride dst dst_stride (width / 2) 0 height)
unfolding rx_convert_be10_to_uyvy
convert-IsConverted src src_stride dst dst_stride width height octets src_line dst_line have room =
    let e : 0 + height ≡ height = omega arith in
    convert_rows-IsConverted src src_stride dst_stride (width / 2) octets src_line dst_line height 0
      dst (rw e have) (rw e room)
