-- ===== src/Assembler/Packet.antt =====
-- `rx_assembler_process_packet` of libst2110rx/src/rx_rfc4175.c, in the order of its blocks.
use obs_st.Base.{
  ℕ, ◌+◌, ◌-◌, ◌^◌, true, false, not, ◌&&◌, Option, none, some, [], Bytes, Exec, ok, ◌>>=◌, u16,
  u64, ltb, ◌==◌, if◌then◌else◌,
}
use obs_st.Types.{FrameCb, PixFmt}
use obs_st.Rtp.{RtpHeader, parse_rtp_header}
use obs_st.Assembler.{Assembler}
use obs_st.Assembler.Deliver.{deliver_frame}
use obs_st.Assembler.Segments.{parse_headers, copy_payloads, max_segments}

-- The gap in sequence numbers: `(uint16_t)(seq - expected)`.
abbrev pub seq_gap : Assembler → ℕ → ℕ
seq_gap a seq = let expected = u16 (a.last_seq + 1) in u16 (seq + 2 ^ 16 - expected)

-- `*packets_lost += gap`, if the pointer is not NULL.
abbrev pub add_lost : ℕ → Option ℕ → Option ℕ
add_lost gap none = none
add_lost gap (some lost) = some (u64 (lost + gap))

-- The check of the sequence number.
unfoldable pub check_seq : Assembler → ℕ → Option ℕ → Assembler × Option ℕ
check_seq a seq lost =
    if a.has_prev_packet && not (seq == u16 (a.last_seq + 1))
    then (record a { frame_incomplete = true }, add_lost (seq_gap a seq) lost)
    else (a, lost)

-- The assembler, what `user_data` points to, and the frames completed so far.
pub record Progress {ℓ} (U : Type ℓ) : Type ℓ where
  pub asm : Assembler
  pub user : U
  pub completed : ℕ

-- Delivers a frame and counts it.
unfoldable pub deliver_counted {ℓ} :
    {U : Type ℓ} → Progress U → FrameCb U → PixFmt → ℕ → Exec (Progress U)
deliver_counted s frame_cb output_fmt timestamp = do
  (asm, user) ← deliver_frame s.asm frame_cb s.user output_fmt timestamp
  ok (record { asm = asm; user = user; completed = s.completed + 1 })

-- A change of timestamp: a frame that was not delivered goes out incomplete, with its own
-- timestamp, unless this packet ends a frame.
unfoldable pub check_timestamp {ℓ} :
    {U : Type ℓ} → Progress U → FrameCb U → PixFmt → RtpHeader → Exec (Progress U)
check_timestamp s frame_cb output_fmt header =
    if s.asm.has_prev_packet && not (header.timestamp == s.asm.last_ts)
    then (do
      s' ←
          (if not s.asm.frame_delivered && not header.marker
            then deliver_counted (record s { asm = record s.asm { frame_incomplete = true } })
                frame_cb output_fmt s.asm.last_ts
            else ok s)
      ok (record s' { asm = record s'.asm { frame_delivered = false } }))
    else ok s

-- `last_seq`, `last_ts` and `has_prev_packet`.
abbrev pub remember : Assembler → RtpHeader → Assembler
remember a header = record a {
  last_seq = header.seq;
  last_ts = header.timestamp;
  has_prev_packet = true;
}

-- The block that stores the packet's segments.
unfoldable pub store_segments : Assembler → Bytes → ℕ → ℕ → Exec Assembler
store_segments a pkt payload end = do
  headers ← parse_headers pkt end max_segments payload []
  fill ← copy_payloads a pkt end headers.segments headers.payloads a.fill_buf
  ok (record a { fill_buf = fill })

-- The end of a frame.
unfoldable pub check_marker {ℓ} :
    {U : Type ℓ} → Progress U → FrameCb U → PixFmt → RtpHeader → Exec (Progress U)
check_marker s frame_cb output_fmt header =
    if header.marker
    then (do
      s' ← deliver_counted s frame_cb output_fmt header.timestamp
      ok (record s' { asm = record s'.asm { frame_delivered = true } }))
    else ok s

-- What the function leaves behind, and `frames_completed`, which it returns.
pub record Processed {ℓ} (U : Type ℓ) : Type ℓ where
  pub asm : Option Assembler
  pub user : U
  pub lost : Option ℕ
  pub completed : ℕ

-- All behind the check of the extended sequence number, whose two octets end at `payload`.
unfoldable pub accept_packet {ℓ} :
    {U : Type ℓ}
    → Assembler
    → Bytes
    → ℕ
    → FrameCb U
    → U
    → PixFmt
    → Option ℕ
    → RtpHeader
    → Exec (Processed U)
accept_packet a pkt pkt_len frame_cb user output_fmt lost header = do
  let (checked, lost') = check_seq a header.seq lost
  s ←
      check_timestamp (record { asm = checked; user = user; completed = 0 }) frame_cb output_fmt
        header
  stored ← store_segments (remember s.asm header) pkt (header.payload + 2) pkt_len
  done ← check_marker (record s { asm = stored }) frame_cb output_fmt header
  ok (record { asm = some done.asm; user = done.user; lost = lost'; completed = done.completed })

-- `return 0` with nothing changed.
abbrev pub ignored {ℓ} : {U : Type ℓ} → Option Assembler → U → Option ℕ → Processed U
ignored a user lost = record { asm = a; user = user; lost = lost; completed = 0 }

-- `rx_assembler_process_packet`; `none` is NULL.
unfoldable pub rx_assembler_process_packet {ℓ} :
    {U : Type ℓ}
    → Option Assembler
    → Option Bytes
    → ℕ
    → Option (FrameCb U)
    → U
    → PixFmt
    → Option ℕ
    → Exec (Processed U)
rx_assembler_process_packet none pkt pkt_len frame_cb user output_fmt lost =
    ok (ignored none user lost)
rx_assembler_process_packet (some a) none pkt_len frame_cb user output_fmt lost =
    ok (ignored (some a) user lost)
rx_assembler_process_packet (some a) (some pkt) pkt_len none user output_fmt lost =
    ok (ignored (some a) user lost)
rx_assembler_process_packet (some a) (some pkt) pkt_len (some frame_cb) user output_fmt lost = do
  parsed ← parse_rtp_header (some pkt) pkt_len
  elim parsed [
    | none ↦ ok (ignored (some a) user lost)
    | some header ↦
        if ltb (pkt_len - header.payload) 2
        then ok (ignored (some a) user lost)
        else accept_packet a pkt pkt_len frame_cb user output_fmt lost header
  ]
