-- ===== src/Stats/Reading.antt =====
-- The reader's loop of `rx_stats_snapshot`.
use obs_st.Base.{
  ℕ, zero, suc, refl, ◌+◌, ◌≤◌, ◌<◌, ◌≡◌, ◌⊎◌, inl, inr, arith, true, false, Bool-cases, dec_le,
  subst,
}
use obs_st.Stats.{Floats, Attempt, must_retry, read_pair}

module _ (F : Floats) (rounds : ℕ → Attempt F) where
  read_pair_lem :
      (left i : ℕ)
      → (k : ℕ) × (i ≤ k)
        × (k ≤ i + left)
        × (read_pair F rounds left i ≡ rounds k)
        × ((must_retry F (rounds k) ≡ false) ⊎ (k ≡ i + left))
        × ((j : ℕ) → i ≤ j → j < k → must_retry F (rounds j) ≡ true)
  unfolding read_pair
  read_pair_lem zero i =
      (i, omega arith, omega arith, refl, inr (omega arith), λ j p q. absurd (omega arith))
  read_pair_lem (suc left) i = elim (Bool-cases (must_retry F (rounds i))) [
    | inr good ↦
        (i, omega arith, omega arith, rw good refl, inl good, λ j p q. absurd (omega arith))
    | inl bad ↦
        let (k, p, q, e, stop, before) = read_pair_lem left (i + 1) in
        (
          k,
          omega arith,
          omega arith,
          rw bad e,
          elim stop [ inl good ↦ inl good | inr last ↦ inr (omega arith) ],
          λ j p' q'. elim (dec_le (i + 1) j) [
            | yes above ↦ before j above q'
            | no not_above ↦
                let same : i ≡ j = omega arith in
                subst (λ t. must_retry F (rounds t) ≡ true) same bad
          ],
        )
  ]

  -- The loop of `rx_stats_snapshot` ends within 1001 rounds. It returns what the first round saw that
  -- met the same even value of `seq` twice; without such a round, what round 1001 saw.
  pub read_pair-first :
      (k : ℕ) × (k ≤ 1000)
      × (read_pair F rounds 1000 0 ≡ rounds k)
      × ((must_retry F (rounds k) ≡ false) ⊎ (k ≡ 1000))
      × ((j : ℕ) → j < k → must_retry F (rounds j) ≡ true)
  read_pair-first =
      let (k, p, q, e, stop, before) = read_pair_lem 1000 0 in
      (
        k,
        omega arith,
        e,
        elim stop [ inl good ↦ inl good | inr last ↦ inr (omega arith) ],
        λ j lt. before j (omega arith) lt,
      )
