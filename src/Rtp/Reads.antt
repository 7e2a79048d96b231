-- ===== src/Rtp/Reads.antt =====
-- What the reads of big-endian fields return, as arithmetic on the packet's octets.
use obs_st.Base.{
  ℕ, ◌+◌, ◌*◌, ◌^◌, ◌<◌, ◌≤◌, ◌≡◌, arith, length, get_or, Bytes, IsBytes, get_or-IsByte, ok,
  byte-eq-ok, bit_or, or_disjoint, u32, ◌<<<◌, ◌∙◌,
}
use obs_st.Rtp.{read_be16, read_be32}

-- The numbers that two and four octets spell, the most significant first.
abbrev pub be16 : Bytes → ℕ → ℕ
be16 b i = get_or b i 0 * 256 + get_or b (i + 1) 0

abbrev pub be32 : Bytes → ℕ → ℕ
be32 b i = be16 b i * 65536 + be16 b (i + 2)

pub read_be16-eq-ok :
    (b : Bytes) (i : ℕ) → IsBytes b → i + 2 ≤ length b → read_be16 b i ≡ ok (be16 b i)
unfolding read_be16
read_be16-eq-ok b i octets room =
    let hi = get_or-IsByte b i octets in
    let lo = get_or-IsByte b (i + 1) octets in
    rw
      (
        byte-eq-ok b i (omega arith),
        byte-eq-ok b (i + 1) (omega arith),
        or_disjoint 8 (get_or b i 0 * 2 ^ 8) (get_or b (i + 1) 0) (omega arith) (omega arith),
      )
      (ground arith)

join_octets :
    (x0 x1 x2 x3 : ℕ)
    → x0 < 256
    → x1 < 256
    → x2 < 256
    → x3 < 256
    → bit_or (bit_or (bit_or (u32 (x0 <<< 24)) (u32 (x1 <<< 16))) (u32 (x2 <<< 8))) x3
      ≡ (x0 * 256 + x1) * 65536 + (x2 * 256 + x3)
join_octets x0 x1 x2 x3 h0 h1 h2 h3 =
    let a : bit_or (u32 (x0 <<< 24)) (u32 (x1 <<< 16)) ≡ x0 * 2 ^ 24 + x1 * 2 ^ 16 =
      or_disjoint 24 (u32 (x0 <<< 24)) (u32 (x1 <<< 16)) (omega arith) (omega arith)
      ∙ omega arith in
    let b : bit_or (x0 * 2 ^ 24 + x1 * 2 ^ 16) (u32 (x2 <<< 8))
        ≡ x0 * 2 ^ 24 + x1 * 2 ^ 16 + x2 * 2 ^ 8 =
      or_disjoint 16 (x0 * 2 ^ 24 + x1 * 2 ^ 16) (u32 (x2 <<< 8)) (omega arith) (omega arith)
      ∙ omega arith in
    rw (a, b)
      (or_disjoint 8 (x0 * 2 ^ 24 + x1 * 2 ^ 16 + x2 * 2 ^ 8) x3 (omega arith) (omega arith)
        ∙ omega arith)

pub read_be32-eq-ok :
    (b : Bytes) (i : ℕ) → IsBytes b → i + 4 ≤ length b → read_be32 b i ≡ ok (be32 b i)
unfolding read_be32
read_be32-eq-ok b i octets room =
    let x0 = get_or b i 0 in
    let x1 = get_or b (i + 1) 0 in
    let x2 = get_or b (i + 2) 0 in
    let x3 = get_or b (i + 3) 0 in
    let h0 : x0 < 256 = get_or-IsByte b i octets in
    let h1 : x1 < 256 = get_or-IsByte b (i + 1) octets in
    let h2 : x2 < 256 = get_or-IsByte b (i + 2) octets in
    let h3 : x3 < 256 = get_or-IsByte b (i + 3) octets in
    rw
      (
        byte-eq-ok b i (omega arith),
        byte-eq-ok b (i + 1) (omega arith),
        byte-eq-ok b (i + 2) (omega arith),
        byte-eq-ok b (i + 3) (omega arith),
        join_octets x0 x1 x2 x3 h0 h1 h2 h3,
      )
      (ground arith)
