-- ===== src/Sender/Lines.antt =====
-- The loop of the test sender over the segments of a line.
use obs_st.Base.{
  true, false, [], ℕ, List, Bytes, ◌<◌, ◌^◌, ◌≡◌, ◌∷◌, ◌≤◌, ◌%◌, u16, ◌-◌, ◌+◌, ◌/◌, ◌*◌, arith,
  refl, zero, suc, inl, inr, length, u32, ◌++◌, Returns, Bool-cases, sym, ◌==◌, ◌∙◌, Returns-bind,
  Returns-if, subst,
}
use obs_st.Sender.Sending.{Network, Picture, Sent, Tx, send_segments, behind}
use obs_st.Sender.Segment.{Fits, HasRoom, IsDatagram, pixel_of, seg_of, IsStep, send_segment-IsStep}

abbrev pub AreShort : ℕ → List Bytes → Type 0
AreShort limit [] = Unit
AreShort limit (d ∷ rest) = (length d ≤ limit) × AreShort limit rest

pub AreShort-append :
    (limit : ℕ) (xs ys : List Bytes)
    → AreShort limit xs
    → AreShort limit ys
    → AreShort limit (xs ++ ys)
AreShort-append limit [] ys p q = q
AreShort-append limit (x ∷ xs) ys p q = (p.0, AreShort-append limit xs ys p.1 q)

module _ (network : Network) (p : Picture) (ts line : ℕ) where
  -- Datagrams that bring the last `remaining` octets of the line, in order and with consecutive
  -- sequence numbers.
  abbrev pub IsLine : ℕ → ℕ → List Bytes → Type 0
  IsLine remaining seq [] = remaining ≡ 0
  IsLine remaining seq (d ∷ rest) =
      IsDatagram network p ts line remaining seq d
      × IsLine (remaining - seg_of network p ts line remaining) (u32 (seq + 1)) rest

  -- What the loop leaves: room in the buffer and datagrams that are not too long; where nothing is
  -- lost, those of the line.
  pub record IsSentLine (remaining seq : ℕ) (r : Sent) : Type 0 where
    pub has_room : HasRoom p r.tx
    pub sizes : AreShort (18 + p.max_segment) r.datagrams
    pub lossless :
        p.drop_pct ≡ 0
        → ((i : ℕ) → network.send_ok i ≡ true)
        → (r.send_failed ≡ false) × IsLine remaining seq r.datagrams

  module _ (fits : Fits p) (ts_range : ts < 2 ^ 32) (line_range : line < p.height) where
    next_pixel :
        (remaining : ℕ)
        → 0 < remaining
        → remaining ≤ p.stride
        → remaining % 5 ≡ 0
        → u16 (pixel_of network p ts line remaining + seg_of network p ts line remaining / 5 * 2)
          ≡ pixel_of network p ts line (remaining - seg_of network p ts line remaining)
    next_pixel remaining more left groups =
        omega (arith, fits.stride_range, fits.segment_groups, fits.stride_groups)

    step-AreShort :
        (remaining : ℕ) (tx : Tx) (r : Sent)
        → IsStep network p ts line remaining tx r
        → AreShort (18 + p.max_segment) r.datagrams
    step-AreShort remaining tx r step = elim step.taken [
      | inl lost ↦ rw lost tt
      | inr (d, e, sent) ↦ rw e (omega (arith, sent.size), tt)
    ]

    -- A step that failed ends the loop.
    stopped-IsSentLine :
        (remaining : ℕ) (tx : Tx) (r : Sent)
        → IsStep network p ts line remaining tx r
        → r.send_failed ≡ true
        → IsSentLine remaining tx.seq r
    stopped-IsSentLine remaining tx r step stop = record {
      has_room = step.has_room;
      sizes = step-AreShort remaining tx r step;
      lossless = λ kept fine. absurd (differ (sym stop ∙ (step.lossless kept fine).0));
    }
      where
        differ : true ≡ false → ⊥
        differ e = cc

    joined-IsSentLine :
        (remaining : ℕ) (tx : Tx) (r rest : Sent)
        → IsStep network p ts line remaining tx r
        → IsSentLine (remaining - seg_of network p ts line remaining) r.tx.seq rest
        → IsSentLine remaining tx.seq (behind r.datagrams rest)
    joined-IsSentLine remaining tx r rest step sent = record {
      has_room = record { room = sent.has_room.room; octets = sent.has_room.octets };
      sizes =
          AreShort-append (18 + p.max_segment) r.datagrams rest.datagrams
            (step-AreShort remaining tx r step) sent.sizes;
      lossless = λ kept fine.
          let (_, d, e, is_d) = step.lossless kept fine in
          let (ok_rest, is_rest) = sent.lossless kept fine in
          (ok_rest, rw e (is_d, rw (← step.seq) is_rest));
    }

    -- Enough fuel for the octets that are left: the loop does not run out of it.
    pub send_segments-IsSentLine :
        (fuel remaining : ℕ) (tx : Tx)
        → remaining ≤ fuel
        → remaining ≤ p.stride
        → remaining % 5 ≡ 0
        → HasRoom p tx
        → Returns
            (send_segments network p fuel ts line remaining
              (pixel_of network p ts line remaining)
              tx)
            (IsSentLine remaining tx.seq)
    unfolding send_segments
    send_segments-IsSentLine zero remaining tx enough left groups has_room =
        let e : remaining ≡ 0 = omega arith in
        rw e (
          _,
          refl,
          record { has_room = has_room; sizes = tt; lossless = λ kept fine. (refl, refl) },
        )
    send_segments-IsSentLine (suc fuel) remaining tx enough left groups has_room =
        elim (Bool-cases (remaining == 0)) [
          | inl done ↦ rw done (
            _,
            refl,
            record {
              has_room = has_room;
              sizes = tt;
              lossless = λ kept fine. (refl, ground arith);
            },
          )
          | inr more ↦
              let positive : 0 < remaining = ground arith in
              rw more (
                Returns-bind
                  (send_segment-IsStep network p ts line fits ts_range line_range remaining positive
                    left groups tx has_room)
                  λ r step.
                    let seg = seg_of network p ts line remaining in
                    let pixel = pixel_of network p ts line in
                    Returns-if r.send_failed
                      (λ stop. (r, refl, stopped-IsSentLine remaining tx r step stop))
                      (λ go_on.
                        Returns-bind
                          (subst
                            (λ offset.
                              Returns
                                (send_segments network p fuel ts line (remaining - seg) offset r.tx)
                                (IsSentLine (remaining - seg) r.tx.seq))
                            (sym (next_pixel remaining positive left groups))
                            (send_segments-IsSentLine fuel (remaining - seg) r.tx
                              (omega (arith, fits.segment_nonzero)) (omega arith)
                              (omega (arith, fits.segment_groups)) step.has_room))
                          λ rest sent. (_, refl, joined-IsSentLine remaining tx r rest step sent)))
        ]
