-- ===== src/Sender/Sending.antt =====
-- The loops of `main` that send the frames: libst2110rx/tools/st2110tx-test.c.
use obs_st.Base.{
  ◌>>=◌, true, false, [], zero, suc, ok, fault, Bool, Bytes, Exec, List, ℕ, if◌then◌else◌, min, u32,
  ◌++◌, ◌+◌, ◌==◌, ltb, take, ◌-◌, ◌||◌, leb, u16, ◌&&◌, ◌∷◌, not, ◌%◌, ◌/◌, ◌*◌,
}
use obs_st.Sender.{fill_buffer}

-- `rand i` is the i-th result of `rand`; `send_ok i` tells whether the i-th `sendto` succeeds.
pub record Network : Type 0 where
  pub rand : ℕ → ℕ
  pub send_ok : ℕ → Bool

-- What the loops change: the packet's buffer, the sequence number, and how often `rand` and `sendto`
-- were called.
pub record Tx : Type 0 where
  pub packet : Bytes
  pub seq : ℕ
  pub draws : ℕ
  pub sends : ℕ

-- What a loop leaves: its state, the datagrams that `sendto` took, and whether one failed.
pub record Sent : Type 0 where
  pub tx : Tx
  pub datagrams : List Bytes
  pub send_failed : Bool

-- The picture and what is computed before the loops.
pub record Picture : Type 0 where
  pub frame : Bytes
  pub stride : ℕ
  pub height : ℕ
  pub max_segment : ℕ
  pub drop_pct : ℕ

abbrev pub ssrc : ℕ
ssrc = 0x11223344

-- The datagrams of a step in front of those of the steps behind it.
abbrev pub behind : List Bytes → Sent → Sent
behind datagrams rest = record rest { datagrams = datagrams ++ rest.datagrams }

-- The next step, unless `sendto` has failed.
abbrev pub then_unless_failed : Sent → (Tx → Exec Sent) → Exec Sent
then_unless_failed first next =
    if first.send_failed
    then ok first
    else (next first.tx >>= λ rest. ok (behind first.datagrams rest))

module _ (network : Network) (p : Picture) where
  -- `cfg.drop_pct == 0 || (rand() % 100) >= (int)cfg.drop_pct`
  abbrev pub is_kept : Tx → Bool
  is_kept tx = p.drop_pct == 0 || leb p.drop_pct (network.rand tx.draws % 100)

  -- `sendto` of the first `pkt_len` octets, or none.
  unfoldable pub transmit : ℕ → Tx → Sent
  transmit pkt_len tx =
      let drawn = record tx { draws = if p.drop_pct == 0 then tx.draws else tx.draws + 1 } in
      if is_kept tx
      then (let called = record drawn { sends = tx.sends + 1 } in
          if network.send_ok tx.sends
          then record { tx = called; datagrams = take pkt_len tx.packet ∷ []; send_failed = false }
          else record { tx = called; datagrams = []; send_failed = true })
      else record { tx = drawn; datagrams = []; send_failed = false }

  -- The body of the loop over the segments of a line.
  unfoldable pub send_segment : ℕ → ℕ → ℕ → ℕ → Tx → Exec Sent
  send_segment ts line remaining pixel_offset tx = do
    let seg_len = min remaining p.max_segment
    let continuation = ltb seg_len remaining
    let is_last_packet = line + 1 == p.height && not continuation
    packet ←
        fill_buffer tx.packet p.frame (line * p.stride + (p.stride - remaining)) seg_len tx.seq ts
          ssrc is_last_packet line pixel_offset continuation
    ok (transmit (18 + seg_len) (record tx { packet = packet; seq = u32 (tx.seq + 1) }))

  -- `while (remaining > 0)`, for `fuel` rounds at most; a loop that is not done then faults.
  unfoldable pub send_segments : ℕ → ℕ → ℕ → ℕ → ℕ → Tx → Exec Sent
  send_segments zero ts line remaining pixel_offset tx =
      if remaining == 0 then ok (record { tx = tx; datagrams = []; send_failed = false }) else fault
  send_segments (suc fuel) ts line remaining pixel_offset tx =
      let seg_len = min remaining p.max_segment in
      if remaining == 0
      then ok (record { tx = tx; datagrams = []; send_failed = false })
      else (send_segment ts line remaining pixel_offset tx >>= λ first.
          then_unless_failed first (
            send_segments fuel ts line (remaining - seg_len)
              (u16 (pixel_offset + seg_len / 5 * 2))))

  -- The loop over the lines from `line` on, with `left` rounds left.
  unfoldable pub send_lines : ℕ → ℕ → ℕ → Tx → Exec Sent
  send_lines ts zero line tx = ok (record { tx = tx; datagrams = []; send_failed = false })
  send_lines ts (suc left) line tx = send_segments p.stride ts line p.stride 0 tx >>= λ first.
      then_unless_failed first (send_lines ts left (line + 1))

  -- The loop over the frames, for n rounds, with the timestamp of the first.
  unfoldable pub send_frames : ℕ → ℕ → ℕ → Tx → Exec Sent
  send_frames ts_step zero ts tx = ok (record { tx = tx; datagrams = []; send_failed = false })
  send_frames ts_step (suc n) ts tx = send_lines ts p.height 0 tx >>= λ first.
      then_unless_failed first (send_frames ts_step n (u32 (ts + ts_step)))
