-- ===== src/Sender/Segment.antt =====
-- One datagram of the test sender.
use obs_st.Base.{
  true, false, [], ℕ, ◌%◌, Bytes, min, ◌*◌, ◌+◌, ◌<◌, ◌≡◌, length, ◌-◌, ◌^◌, ◌≤◌, IsBytes, ◌/◌, ◌⊎◌,
  ltb, u16, ◌∷◌, ◌==◌, ◌&&◌, not, arith, take, refl, Returns, inl, inr, u32, Bool-cases, sym, ◌∙◌,
}
use obs_st.Sender.Sending.{Network, Picture, Tx, Sent, ssrc, send_segment, transmit, is_kept}
use obs_st.Sender.Filled.{IsPacket, fill_buffer-IsFilled, filled-IsPacket}

-- A picture whose lines and pixels fit the fields of a segment header, in a frame that holds it, and
-- segments of whole groups.
pub record Fits (p : Picture) : Type 0 where
  pub stride_groups : p.stride % 5 ≡ 0
  pub stride_range : 2 * p.stride < 5 * 2 ^ 15
  pub height_range : p.height ≤ 2 ^ 15
  pub segment_groups : p.max_segment % 5 ≡ 0
  pub segment_nonzero : 0 < p.max_segment
  pub segment_range : p.max_segment < 2 ^ 16
  pub holds : p.height * p.stride ≤ length p.frame
  pub octets : IsBytes p.frame

-- A buffer of octets with room for the largest packet.
pub record HasRoom (p : Picture) (tx : Tx) : Type 0 where
  pub room : 18 + p.max_segment ≤ length tx.packet
  pub octets : IsBytes tx.packet

module _ (network : Network) (p : Picture) (ts line : ℕ) where
  abbrev pub seg_of : ℕ → ℕ
  seg_of remaining = min remaining p.max_segment

  -- The number of the pixel at which a segment begins, with `remaining` octets of the line left.
  abbrev pub pixel_of : ℕ → ℕ
  pixel_of remaining = 2 * ((p.stride - remaining) / 5)

  -- A datagram with the next octets of a line, for the sequence number `seq`.
  abbrev pub IsDatagram : ℕ → ℕ → Bytes → Type 0
  IsDatagram remaining seq =
      IsPacket (seg_of remaining) line (pixel_of remaining) p.frame
        (line * p.stride + (p.stride - remaining)) (u16 seq) ts
        (line + 1 == p.height && not (ltb (seg_of remaining) remaining))

  -- A step of the loop over the segments. The datagram is left out only if it was dropped.
  pub record IsStep (remaining : ℕ) (tx : Tx) (r : Sent) : Type 0 where
    pub has_room : HasRoom p r.tx
    pub seq : r.tx.seq ≡ (tx.seq + 1) % 2 ^ 32
    pub taken :
        (r.datagrams ≡ []) ⊎ ((d : Bytes) × (r.datagrams ≡ d ∷ []) × IsDatagram remaining tx.seq d)
    pub lossless :
        p.drop_pct ≡ 0
        → ((i : ℕ) → network.send_ok i ≡ true)
        → (r.send_failed ≡ false)
          × (d : Bytes) × (r.datagrams ≡ d ∷ [])
          × IsDatagram remaining tx.seq d

  transmit-IsStep :
      (remaining n : ℕ) (tx tx' : Tx)
      → HasRoom p tx'
      → tx'.seq ≡ (tx.seq + 1) % 2 ^ 32
      → IsDatagram remaining tx.seq (take n tx'.packet)
      → IsStep remaining tx (transmit network p n tx')
  unfolding transmit
  transmit-IsStep remaining n tx tx' has_room seq sent = elim (Bool-cases (is_kept network p tx')) [
    | inr dropped ↦ rw dropped (record {
      has_room = record { room = has_room.room; octets = has_room.octets };
      seq = seq;
      taken = inl refl;
      lossless = λ none_dropped all_ok. absurd (kept none_dropped dropped);
    })
    | inl keep ↦ rw keep (elim (Bool-cases (network.send_ok tx'.sends)) [
      | inl fine ↦ rw fine (record {
        has_room = record { room = has_room.room; octets = has_room.octets };
        seq = seq;
        taken = inr (take n tx'.packet, refl, sent);
        lossless = λ none_dropped all_ok. (refl, take n tx'.packet, refl, sent);
      })
      | inr bad ↦ rw bad (record {
        has_room = record { room = has_room.room; octets = has_room.octets };
        seq = seq;
        taken = inl refl;
        lossless = λ none_dropped all_ok. absurd (differ (sym (all_ok tx'.sends) ∙ bad));
      })
    ])
  ]
    where
      differ : true ≡ false → ⊥
      differ e = cc

      kept : p.drop_pct ≡ 0 → is_kept network p tx' ≡ false → ⊥
      kept e h = ground arith

  module _ (fits : Fits p) (ts_range : ts < 2 ^ 32) (line_range : line < p.height) (remaining : ℕ)
      (more : 0 < remaining) (left : remaining ≤ p.stride) (groups : remaining % 5 ≡ 0) where
    line_inside : line * p.stride + p.stride ≤ length p.frame
    line_inside = grind (arith, fits.holds)

    pub send_segment-IsStep :
        (tx : Tx)
        → HasRoom p tx
        → Returns
            (send_segment network p ts line remaining (pixel_of remaining) tx)
            (IsStep remaining tx)
    unfolding send_segment
    send_segment-IsStep tx has_room =
        let seg_len = seg_of remaining in
        let from = line * p.stride + (p.stride - remaining) in
        let marker = line + 1 == p.height && not (ltb seg_len remaining) in
        let inside = line_inside in
        let room : 18 + seg_len ≤ length tx.packet = omega (arith, has_room.room) in
        let have : from + seg_len ≤ length p.frame = omega (arith, inside) in
        let len_range : seg_len < 2 ^ 16 = omega (arith, fits.segment_range) in
        let in_range : line < 2 ^ 15 = omega (arith, fits.height_range) in
        let offset_range : pixel_of remaining < 2 ^ 15 = omega (arith, fits.stride_range) in
        let (out, e, f) =
          fill_buffer-IsFilled seg_len line (pixel_of remaining) (ltb seg_len remaining) len_range
            in_range offset_range tx.packet p.frame from tx.seq ts ssrc marker has_room.octets
            ts_range (omega arith) room have in
        let d =
          filled-IsPacket seg_len line (pixel_of remaining) (ltb seg_len remaining) len_range
            in_range offset_range p.frame from (u16 tx.seq) ts ssrc marker tx.packet out
            (omega arith) ts_range (omega arith) room have f in
        let tx' = record tx { packet = out; seq = u32 (tx.seq + 1) } in
        let has_room' : HasRoom p tx' = record {
          room = omega (arith, has_room.room, f.same_length);
          octets = f.octets fits.octets;
        } in
        rw e (_, refl, transmit-IsStep remaining (18 + seg_len) tx tx' has_room' refl d)
