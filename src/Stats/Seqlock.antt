-- ===== src/Stats/Seqlock.antt =====
-- The writer of `rx_stats_packet` and the reader of `rx_stats_snapshot`, interleaved: one step of
-- the writer is one store of a shared field, and the reader's loads may stand between any two.
use obs_st.Base.{refl, ℕ, ◌+◌, ◌%◌, ◌^◌, ◌<◌, ◌≡◌, u64, arith, false, and_low, ◌∙◌}
use obs_st.Stats.{Floats, Attempt, must_retry}

-- Where the writer stands: outside, or before its store of the jitter, of the gap, or of `seq`.
pub data Writer : Type 0 where
  outside at_jitter at_gap closing : Writer

module _ (F : Floats) where
  -- The shared fields, with the writer's place in the code.
  pub record Shared : Type 0 where
    pub seq : ℕ
    pub jitter : F.Double
    pub gap : F.Double
    pub writer : Writer

  -- One store of the writer, with the number of increments of `seq` that it makes.
  pub data Step : Shared → ℕ → Shared → Type 0 where
    enter :
        (s : Shared)
        → s.writer ≡ outside
        → Step s 1 (record s { seq = u64 (s.seq + 1); writer = at_jitter })
    put_jitter :
        (s : Shared) (x : F.Double)
        → s.writer ≡ at_jitter
        → Step s 0 (record s { jitter = x; writer = at_gap })
    put_gap :
        (s : Shared) (x : F.Double)
        → s.writer ≡ at_gap
        → Step s 0 (record s { gap = x; writer = closing })
    leave :
        (s : Shared)
        → s.writer ≡ closing
        → Step s 1 (record s { seq = u64 (s.seq + 1); writer = outside })

  -- What the writer does between two moments, with its increments of `seq`.
  pub data Run (s : Shared) : ℕ → Shared → Type 0 where
    still : Run s 0 s
    later : {t u : Shared} {k n m : ℕ} → Run s k t → Step t n u → m ≡ k + n → Run s m u

  abbrev busy : Writer → ℕ
  busy outside = 0
  busy _ = 1

  -- `seq` fits its 64 bits, and is even exactly outside the critical section.
  pub record IsLock (s : Shared) : Type 0 where
    pub range : s.seq < 2 ^ 64
    pub parity : s.seq % 2 ≡ busy s.writer

  Step-IsLock : {s t : Shared} {n : ℕ} → Step s n t → IsLock s → IsLock t
  Step-IsLock (enter s e) l = ground arith
  Step-IsLock (put_jitter s x e) l = ground arith
  Step-IsLock (put_gap s x e) l = ground arith
  Step-IsLock (leave s e) l = ground arith

  Step-seq : {s t : Shared} {n : ℕ} → Step s n t → IsLock s → t.seq ≡ (s.seq + n) % 2 ^ 64
  Step-seq (enter s e) l = refl
  Step-seq (put_jitter s x e) l = omega arith
  Step-seq (put_gap s x e) l = omega arith
  Step-seq (leave s e) l = refl

  Run-IsLock : {s t : Shared} {k : ℕ} → Run s k t → IsLock s → IsLock t
  Run-IsLock still l = l
  Run-IsLock (later r st e) l = Step-IsLock st (Run-IsLock r l)

  Run-seq : {s t : Shared} {k : ℕ} → Run s k t → IsLock s → t.seq ≡ (s.seq + k) % 2 ^ 64
  Run-seq still l = omega arith
  Run-seq (later r st e) l = omega (arith, Run-seq r l, Step-seq st (Run-IsLock r l))

  -- Outside, a step that does not touch `seq` is none.
  record IsSame (s t : Shared) : Type 0 where
    jitter_same : t.jitter ≡ s.jitter
    gap_same : t.gap ≡ s.gap
    stays_outside : t.writer ≡ outside

  Step-quiet : {s t : Shared} {n : ℕ} → Step s n t → s.writer ≡ outside → n ≡ 0 → ⊥
  Step-quiet (enter s e) out z = omega arith
  Step-quiet (put_jitter s x e) out z = ground arith
  Step-quiet (put_gap s x e) out z = ground arith
  Step-quiet (leave s e) out z = omega arith

  Run-quiet : {s t : Shared} {k : ℕ} → Run s k t → s.writer ≡ outside → k ≡ 0 → IsSame s t
  Run-quiet still out z = record { jitter_same = refl; gap_same = refl; stays_outside = out }
  Run-quiet (later r st e) out z =
      absurd (Step-quiet st (Run-quiet r out (omega arith)).stays_outside (omega arith))

  -- A round of the reader whose four loads fall at the moments s, t, u and v, in this order.
  abbrev pub round : Shared → Shared → Shared → Shared → Attempt F
  round s t u v = record { seq1 = s.seq; jitter_us = t.jitter; gap_us = u.gap; seq2 = v.seq }

  -- However the writer's stores fall between the loads of a round, fewer than 2 ^ 64 increments of
  -- `seq` among them: if the round ends the loop by its condition, the pair that it read is the pair
  -- of the moment of its first load, and the writer was outside its critical section then.
  pub round-consistent :
      {s t u v : Shared} {k m n : ℕ}
      → IsLock s
      → Run s k t
      → Run t m u
      → Run u n v
      → k + m + n < 2 ^ 64
      → must_retry F (round s t u v) ≡ false
      → (t.jitter ≡ s.jitter) × (u.gap ≡ s.gap) × (s.writer ≡ outside)
  round-consistent {s} {t} {u} {v} {k} {m} {n} l r1 r2 r3 few stop =
      let same : s.seq ≡ v.seq = ground arith in
      let even : s.seq % 2 ≡ 0 = ground (arith, and_low 1 s.seq) in
      let e1 = Run-seq r1 l in
      let l1 = Run-IsLock r1 l in
      let e2 = Run-seq r2 l1 in
      let e3 = Run-seq r3 (Run-IsLock r2 l1) in
      let out : s.writer ≡ outside = ground (arith, l.parity) in
      let q1 = Run-quiet r1 out (omega (arith, l.range)) in
      let q2 = Run-quiet r2 q1.stays_outside (omega (arith, l.range)) in
      (q1.jitter_same, q2.gap_same ∙ q1.gap_same, out)
