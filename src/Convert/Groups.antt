-- ===== src/Convert/Groups.antt =====
-- What a group and a row of `rx_convert_be10_to_uyvy` write: the top eight bits of each sample.
use obs_st.Base.{
  refl, zero, suc, bit_and, bit_or, ℕ, Bytes, ◌/◌, IsBytes, get_or, length, ◌+◌, ◌^◌, u8, ◌%◌, ◌*◌,
  ◌≡◌, suc, u16, ◌<◌, bit_or, ◌<<<◌, ◌≤◌, ◌>>>◌, bit_and, Returns, and_low, get_or-IsByte,
  or_disjoint, arith, set, length-set, byte-eq-ok, store-eq-ok, Returns-bind, Writes, Writes-append,
  Writes-set,
}
use obs_st.Convert.{convert_group, convert_row}

-- The octets `sp` to `sp + 4` as one big-endian number of 40 bits: four samples of ten.
abbrev pub pgroup_bits : Bytes → ℕ → ℕ
pgroup_bits src sp =
    get_or src sp 0 * 2 ^ 32
    + get_or src (sp + 1) 0 * 2 ^ 24
    + get_or src (sp + 2) 0 * 2 ^ 16
    + get_or src (sp + 3) 0 * 2 ^ 8
    + get_or src (sp + 4) 0

-- Sample k of a group, Cb, Y0, Cr, Y1 from the top, without its two low bits.
abbrev pub top_bits : ℕ → ℕ → ℕ
top_bits bits zero = bits / 2 ^ 30 % 2 ^ 10 / 4
top_bits bits (suc zero) = bits / 2 ^ 20 % 2 ^ 10 / 4
top_bits bits (suc (suc zero)) = bits / 2 ^ 10 % 2 ^ 10 / 4
top_bits bits (suc (suc (suc k))) = bits % 2 ^ 10 / 4

-- Octet i of a converted row whose packed row begins at `sp`.
abbrev pub sample : Bytes → ℕ → ℕ → ℕ
sample src sp i = top_bits (pgroup_bits src (sp + 5 * (i / 4))) (i % 4)

module _ (src : Bytes) (octets : IsBytes src) where
  module _ (sp : ℕ) where
    abbrev octet : ℕ → ℕ
    octet k = get_or src (sp + k) 0

    abbrev bits : ℕ
    bits = pgroup_bits src sp

    bound : (k : ℕ) → octet k < 256
    bound k = get_or-IsByte src (sp + k) octets

    first_bound : get_or src sp 0 < 256
    first_bound = get_or-IsByte src sp octets

    cb_sample : u8 (u16 (bit_or (get_or src sp 0 <<< 2) (octet 1 >>> 6)) >>> 2) ≡ top_bits bits 0
    cb_sample =
        rw
          (or_disjoint 2 (get_or src sp 0 * 2 ^ 2) (octet 1 / 2 ^ 6) (omega arith)
            (omega (arith, bound 1)))
          (omega (arith, first_bound, bound 1, bound 2, bound 3, bound 4))

    y0_sample :
        u8 (u16 (bit_or (bit_and (octet 1) 0x3F <<< 4) (octet 2 >>> 4)) >>> 2) ≡ top_bits bits 1
    y0_sample =
        rw
          (
            and_low 6 (octet 1),
            or_disjoint 4 (octet 1 % 2 ^ 6 * 2 ^ 4) (octet 2 / 2 ^ 4) (omega arith)
                (omega (arith, bound 2)),
          )
          (omega (arith, first_bound, bound 1, bound 2, bound 3, bound 4))

    cr_sample :
        u8 (u16 (bit_or (bit_and (octet 2) 0x0F <<< 6) (octet 3 >>> 2)) >>> 2) ≡ top_bits bits 2
    cr_sample =
        rw
          (
            and_low 4 (octet 2),
            or_disjoint 6 (octet 2 % 2 ^ 4 * 2 ^ 6) (octet 3 / 2 ^ 2) (omega arith)
                (omega (arith, bound 3)),
          )
          (omega (arith, first_bound, bound 1, bound 2, bound 3, bound 4))

    y1_sample : u8 (u16 (bit_or (bit_and (octet 3) 0x03 <<< 8) (octet 4)) >>> 2) ≡ top_bits bits 3
    y1_sample =
        rw
          (
            and_low 2 (octet 3),
            or_disjoint 8 (octet 3 % 2 ^ 2 * 2 ^ 8) (octet 4) (omega arith) (bound 4),
          )
          (omega (arith, first_bound, bound 1, bound 2, bound 3, bound 4))

    pub convert_group-Writes :
        (dst : Bytes) (dp : ℕ)
        → sp + 5 ≤ length src
        → dp + 4 ≤ length dst
        → Returns (convert_group src sp dst dp) (Writes dst dp 4 (top_bits bits))
    unfolding convert_group
    convert_group-Writes dst dp have room =
        let d1 = set dst dp (top_bits bits 0) in
        let d2 = set d1 (dp + 1) (top_bits bits 1) in
        let d3 = set d2 (dp + 2) (top_bits bits 2) in
        let d4 = set d3 (dp + 3) (top_bits bits 3) in
        let e1 = length-set dst dp (top_bits bits 0) in
        let e2 = length-set d1 (dp + 1) (top_bits bits 1) in
        let e3 = length-set d2 (dp + 2) (top_bits bits 2) in
        let e4 = length-set d3 (dp + 3) (top_bits bits 3) in
        (
          d4,
          rw
              (
                byte-eq-ok src sp (omega arith),
                byte-eq-ok src (sp + 1) (omega arith),
                byte-eq-ok src (sp + 2) (omega arith),
                byte-eq-ok src (sp + 3) (omega arith),
                byte-eq-ok src (sp + 4) (omega arith),
                cb_sample,
                y0_sample,
                cr_sample,
                y1_sample,
                store-eq-ok dst dp (top_bits bits 0) (omega arith),
                store-eq-ok d1 (dp + 1) (top_bits bits 1) (omega arith),
                store-eq-ok d2 (dp + 2) (top_bits bits 2) (omega arith),
                store-eq-ok d3 (dp + 3) (top_bits bits 3) (omega arith),
              )
              refl,
          Writes-append {f = top_bits bits} {g = λ i. top_bits bits (3 + i)} (omega arith)
              (omega arith) (λ i lt. refl) (λ i lt. refl)
              (Writes-append {f = top_bits bits} {g = λ i. top_bits bits (2 + i)} (omega arith)
                (omega arith) (λ i lt. refl) (λ i lt. refl)
                (Writes-append {f = top_bits bits} {g = λ i. top_bits bits (1 + i)} (omega arith)
                  (omega arith) (λ i lt. refl) (λ i lt. refl)
                  (Writes-set dst dp (top_bits bits) (omega arith))
                  (Writes-set d1 (dp + 1) (λ i. top_bits bits (1 + i)) (omega arith)))
                (Writes-set d2 (dp + 2) (λ i. top_bits bits (2 + i)) (omega arith)))
              (Writes-set d3 (dp + 3) (λ i. top_bits bits (3 + i)) (omega arith)),
        )

  sample_first : (sp i : ℕ) → i < 4 → top_bits (pgroup_bits src sp) i ≡ sample src sp i
  sample_first sp i lt =
      let q : sp + 5 * (i / 4) ≡ sp = omega arith in let r : i % 4 ≡ i = omega arith in rw (q, r)

  sample_next : (sp i : ℕ) → sample src (sp + 5) i ≡ sample src sp (4 + i)
  sample_next sp i =
      let q : sp + 5 * ((4 + i) / 4) ≡ sp + 5 + 5 * (i / 4) = omega arith in
      let r : (4 + i) % 4 ≡ i % 4 = omega arith in rw (q, r)

  pub convert_row-Writes :
      (groups sp : ℕ) (dst : Bytes) (dp : ℕ)
      → sp + 5 * groups ≤ length src
      → dp + 4 * groups ≤ length dst
      → Returns (convert_row src groups sp dst dp) (Writes dst dp (4 * groups) (sample src sp))
  unfolding convert_row
  convert_row-Writes zero sp dst dp have room = (
    dst,
    refl,
    record { same_length = refl; inside = λ i lt. absurd (omega arith); outside = λ j p. refl },
  )
  convert_row-Writes (suc groups) sp dst dp have room =
      Returns-bind (convert_group-Writes sp dst dp (omega arith) (omega arith)) λ mid w.
        let (out, e, w') =
          convert_row-Writes groups (sp + 5) mid (dp + 4) (omega arith)
            (omega (arith, w.same_length)) in
        (
          out,
          e,
          Writes-append (omega arith) (omega arith) (sample_first sp) (λ i lt. sample_next sp i) w
              w',
        )
