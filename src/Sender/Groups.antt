-- ===== src/Sender/Groups.antt =====
-- `pack_group`, and what the receiver's conversion makes of a group.
use obs_st.Base.{
  ℕ, zero, suc, ◌+◌, ◌*◌, ◌/◌, ◌%◌, ◌^◌, ◌<◌, ◌≤◌, ◌≡◌, arith, [], ◌∷◌, Bytes, IsBytes, length,
  get_or, Returns, Returns-bind, ◌>>=◌, and_low, or_disjoint, Writes, store_all-Writes, subst, ◌∙◌,
}
use obs_st.Convert.{convert_group}
use obs_st.Convert.Groups.{pgroup_bits, top_bits, convert_group-Writes}
use obs_st.Sender.{packed, pack_group}

-- Four samples of ten bits as one number.
abbrev pub samples_bits : ℕ → ℕ → ℕ → ℕ → ℕ
samples_bits cb y0 cr y1 = cb * 2 ^ 30 + y0 * 2 ^ 20 + cr * 2 ^ 10 + y1

-- The octets that `pack_group` stores, as arithmetic.
abbrev pub split : ℕ → ℕ → ℕ → ℕ → Bytes
split cb y0 cr y1 =
    cb / 4
    ∷ (cb % 4 * 64 + y0 / 16)
    ∷ (y0 % 16 * 16 + cr / 64)
    ∷ (cr % 64 * 4 + y1 / 256)
    ∷ y1 % 256
    ∷ []

module _ (cb y0 cr y1 : ℕ) (cb_range : cb < 2 ^ 10) (y0_range : y0 < 2 ^ 10)
    (cr_range : cr < 2 ^ 10) (y1_range : y1 < 2 ^ 10) where
  pub packed-eq-split : packed cb y0 cr y1 ≡ split cb y0 cr y1
  packed-eq-split =
      rw
        (
          and_low 2 cb,
          and_low 4 y0,
          and_low 6 cr,
          and_low 8 y1,
          or_disjoint 6 (cb % 2 ^ 2 * 2 ^ 6) (y0 / 2 ^ 4) (omega arith) (omega arith),
          or_disjoint 4 (y0 % 2 ^ 4 * 2 ^ 4) (cr / 2 ^ 6) (omega arith) (omega arith),
          or_disjoint 2 (cr % 2 ^ 6 * 2 ^ 2) (y1 / 2 ^ 8) (omega arith) (omega arith),
        )
        (ground arith)

  split-IsBytes : IsBytes (split cb y0 cr y1)
  split-IsBytes = ground arith

  written_bits :
      {dst out : Bytes} {at : ℕ}
      → Writes dst at 5 (λ i. get_or (split cb y0 cr y1) i 0) out
      → pgroup_bits out at ≡ samples_bits cb y0 cr y1
  written_bits {out} {at} w =
      let at0 : at + 0 ≡ at = omega arith in
      let first : get_or out at 0 ≡ cb / 4 =
        subst (λ k. get_or out k 0 ≡ cb / 4) at0 (w.inside 0 (omega arith)) in
      omega (
        arith,
        first,
        w.inside 1 (omega arith),
        w.inside 2 (omega arith),
        w.inside 3 (omega arith),
        w.inside 4 (omega arith),
      )

  -- What `pack_group` leaves: the four samples as one big-endian number, and octets elsewhere as before.
  pub record IsPacked (dst : Bytes) (at : ℕ) (out : Bytes) : Type 0 where
    pub writes : Writes dst at 5 (λ i. get_or (split cb y0 cr y1) i 0) out
    pub octets : IsBytes out
    pub bits : pgroup_bits out at ≡ samples_bits cb y0 cr y1

  pub pack_group-IsPacked :
      (dst : Bytes) (at : ℕ)
      → IsBytes dst
      → at + 5 ≤ length dst
      → Returns (pack_group dst at cb y0 cr y1) (IsPacked dst at)
  unfolding pack_group
  pack_group-IsPacked dst at octets room =
      let (out, e, (w, out_octets)) =
        store_all-Writes (split cb y0 cr y1) dst at room octets split-IsBytes in
      (out, rw packed-eq-split e, record { writes = w; octets = out_octets; bits = written_bits w })

  -- The octets that the receiver makes of a group: its samples without their two low bits.
  abbrev pub shown : Bytes
  shown = cb / 4 ∷ y0 / 4 ∷ cr / 4 ∷ y1 / 4 ∷ []

  top_bits_lem : (i : ℕ) → i < 4 → top_bits (samples_bits cb y0 cr y1) i ≡ get_or shown i 0
  top_bits_lem zero lt = omega arith
  top_bits_lem (suc zero) lt = omega arith
  top_bits_lem (suc (suc zero)) lt = omega arith
  top_bits_lem (suc (suc (suc zero))) lt = omega arith
  top_bits_lem (suc (suc (suc (suc i)))) lt = absurd (omega arith)

  -- A group of four samples below 1024, packed by the test sender into a buffer of octets and
  -- converted by the receiver: both make no access out of bounds, and the four octets that come out
  -- are Cb, Y0, Cr and Y1 divided by four; the octets around them stay.
  pub convert_group-pack_group :
      (packet : Bytes) (at : ℕ) (dst : Bytes) (dp : ℕ)
      → IsBytes packet
      → at + 5 ≤ length packet
      → dp + 4 ≤ length dst
      → Returns
          (pack_group packet at cb y0 cr y1 >>= λ filled. convert_group filled at dst dp)
          (Writes dst dp 4 (λ i. get_or shown i 0))
  convert_group-pack_group packet at dst dp octets room room' =
      Returns-bind (pack_group-IsPacked packet at octets room) λ filled p.
        let (out, e, w) =
          convert_group-Writes filled p.octets at dst dp (omega (arith, p.writes.same_length))
            room' in
        (
          out,
          e,
          record {
            same_length = w.same_length;
            inside = λ i lt. w.inside i lt ∙ (rw p.bits (top_bits_lem i lt));
            outside = w.outside;
          },
        )
