-- ===== src/Sender/Whole.antt =====
-- The loops of the test sender over the lines of a frame and over the frames.
use obs_st.Base.{
  true, false, refl, [], zero, suc, Bytes, Exec, ℕ, Returns, ◌<◌, ◌++◌, ◌+◌, ◌^◌, ◌≡◌, ◌≤◌, take,
  Returns-if, drop, ◌*◌, Returns-bind, sym, arith, ◌∙◌, ap₂, ok, length, ◌-◌, u32, ap, subst,
}
use obs_st.Sender.Sending.{
  Network, Picture, Sent, Tx, send_lines, send_segments, then_unless_failed, send_frames,
}
use obs_st.Sender.Segment.{Fits, HasRoom, pixel_of}
use obs_st.Sender.Lines.{AreShort, AreShort-append, send_segments-IsSentLine}
use obs_st.Sender.Payloads.{payloads, payloads-append, piece-append, payloads-IsLine}

module _ (network : Network) (p : Picture) where
  -- What a loop leaves: room in the buffer and datagrams that are not too long; where nothing is
  -- lost, no failure and datagrams that carry `octets`.
  pub record HasSent (octets : Bytes) (r : Sent) : Type 0 where
    pub has_room : HasRoom p r.tx
    pub sizes : AreShort (18 + p.max_segment) r.datagrams
    pub lossless :
        p.drop_pct ≡ 0
        → ((i : ℕ) → network.send_ok i ≡ true)
        → (r.send_failed ≡ false) × (payloads r.datagrams ≡ octets)

  none-HasSent :
      (tx : Tx)
      → HasRoom p tx
      → HasSent [] (record { tx = tx; datagrams = []; send_failed = false })
  none-HasSent tx has_room = record {
    has_room = has_room;
    sizes = tt;
    lossless = λ kept fine. (refl, refl);
  }

  -- A loop after a step, by what each carries.
  then-HasSent :
      (first : Sent) (next : Tx → Exec Sent) (a b c : Bytes)
      → HasSent a first
      → (HasRoom p first.tx → Returns (next first.tx) (HasSent b))
      → a ++ b ≡ c
      → Returns (then_unless_failed first next) (HasSent c)
  then-HasSent first next a b c sent rest whole =
      Returns-if first.send_failed
        (λ stop. (
          first,
          refl,
          record {
            has_room = sent.has_room;
            sizes = sent.sizes;
            lossless = λ kept fine. absurd (differ (sym stop ∙ (sent.lossless kept fine).0));
          },
        ))
        (λ go_on. Returns-bind (rest sent.has_room) λ r s. (
          _,
          refl,
          record {
            has_room = record { room = s.has_room.room; octets = s.has_room.octets };
            sizes =
                AreShort-append (18 + p.max_segment) first.datagrams r.datagrams sent.sizes s.sizes;
            lossless = λ kept fine.
                let (_, left) = sent.lossless kept fine in
                let (fine_rest, right) = s.lossless kept fine in
                (
                  fine_rest,
                  payloads-append first.datagrams r.datagrams ∙ ap₂ ◌++◌ left right ∙ whole,
                );
          },
        ))
    where
      differ : true ≡ false → ⊥
      differ e = cc

  module _ (fits : Fits p) where
    line_room :
        (line left : ℕ) → line + suc left ≤ p.height → line * p.stride + p.stride ≤ length p.frame
    line_room line left inside = grind (arith, fits.holds)

    line-HasSent :
        (ts line : ℕ) (tx : Tx)
        → ts < 2 ^ 32
        → line < p.height
        → HasRoom p tx
        → Returns
            (send_segments network p p.stride ts line p.stride 0 tx)
            (HasSent (take p.stride (drop (line * p.stride) p.frame)))
    line-HasSent ts line tx ts_range line_range has_room =
        let nothing_sent : p.stride - p.stride ≡ 0 = omega arith in
        let start : pixel_of network p ts line p.stride ≡ 0 = omega arith in
        let at : line * p.stride + (p.stride - p.stride) ≡ line * p.stride = omega arith in
        let (r, e, sent) =
          send_segments-IsSentLine network p ts line fits ts_range line_range p.stride p.stride tx
            (omega arith) (omega arith) fits.stride_groups has_room in
        (
          r,
          subst (λ offset. send_segments network p p.stride ts line p.stride offset tx ≡ ok r) start
              e,
          record {
            has_room = sent.has_room;
            sizes = sent.sizes;
            lossless = λ kept fine.
                let (good, is_line) = sent.lossless kept fine in
                (
                  good,
                  payloads-IsLine network p ts line fits line_range p.stride tx.seq r.datagrams
                        (omega arith) is_line
                      ∙ ap (λ k. take p.stride (drop k p.frame)) at,
                );
          },
        )

    lines-HasSent :
        (ts left line : ℕ) (tx : Tx)
        → ts < 2 ^ 32
        → line + left ≤ p.height
        → HasRoom p tx
        → Returns
            (send_lines network p ts left line tx)
            (HasSent (take (left * p.stride) (drop (line * p.stride) p.frame)))
    unfolding send_lines
    lines-HasSent ts zero line tx ts_range inside has_room =
        let e : 0 * p.stride ≡ 0 = omega arith in rw e (_, refl, none-HasSent tx has_room)
    lines-HasSent ts (suc left) line tx ts_range inside has_room =
        Returns-bind (line-HasSent ts line tx ts_range (omega arith) has_room) λ first sent.
          then-HasSent first (send_lines network p ts left (line + 1))
            (take p.stride (drop (line * p.stride) p.frame))
            (take (left * p.stride) (drop ((line + 1) * p.stride) p.frame)) _ sent
            (λ room. lines-HasSent ts left (line + 1) first.tx ts_range (omega arith) room)
            (piece-append (line * p.stride) p.stride (left * p.stride) ((line + 1) * p.stride)
              (suc left * p.stride) p.frame (line_room line left inside) (omega arith)
              (grind arith))

    -- n frames, the same picture each time.
    abbrev pub copies : ℕ → Bytes
    copies zero = []
    copies (suc n) = take (p.height * p.stride) p.frame ++ copies n

    -- The loop over the frames, for n rounds, a picture that fits the fields of the segment headers, and
    -- a buffer with room: it returns, with no access out of bounds, in spite of losses and failures,
    -- and no datagram is longer than 18 octets and the largest segment. Where no packet is dropped
    -- and no call of `sendto` fails, the octets behind the headers, put together in the order of the
    -- datagrams, are n copies of the picture.
    pub frames-HasSent :
        (ts_step n ts : ℕ) (tx : Tx)
        → ts < 2 ^ 32
        → HasRoom p tx
        → Returns (send_frames network p ts_step n ts tx) (HasSent (copies n))
    unfolding send_frames
    frames-HasSent ts_step zero ts tx ts_range has_room = (_, refl, none-HasSent tx has_room)
    frames-HasSent ts_step (suc n) ts tx ts_range has_room =
        let at : 0 * p.stride ≡ 0 = omega arith in
        Returns-bind (lines-HasSent ts p.height 0 tx ts_range (omega arith) has_room) λ first sent.
          then-HasSent first (send_frames network p ts_step n (u32 (ts + ts_step)))
            (take (p.height * p.stride) (drop (0 * p.stride) p.frame)) (copies n) _ sent
            (λ room. frames-HasSent ts_step n (u32 (ts + ts_step)) first.tx (omega arith) room)
            (ap (λ k. take (p.height * p.stride) (drop k p.frame) ++ copies n) at)
