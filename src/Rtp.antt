-- ===== src/Rtp.antt =====
-- The RTP header: `parse_rtp_header` of libst2110rx/src/rx_rfc4175.c and
-- `rx_extract_rtp_timestamp` of libst2110rx/src/rx_core.c.
-- A pointer into the packet is an offset from its start.
pub mod View
pub mod Reads
use obs_st.Base.{
  ℕ, ◌+◌, ◌*◌, Bool, Option, none, some, not, Bytes, Exec, ok, ◌>>=◌, byte, bit_and, bit_or, u16,
  u32, ◌<<<◌, ltb, ◌==◌, if◌then◌else◌,
}

abbrev pub rtp_marker_mask : ℕ
rtp_marker_mask = 0x0080

abbrev pub rtp_x_mask : ℕ
rtp_x_mask = 0x1000

-- What the parser writes to its out parameters, with the pointer that it returns.
pub record RtpHeader : Type 0 where
  pub payload : ℕ
  pub seq : ℕ
  pub timestamp : ℕ
  pub marker : Bool

-- `(uint16_t)((b[i] << 8) | b[i + 1])`
unfoldable pub read_be16 : Bytes → ℕ → Exec ℕ
read_be16 b i = do hi ← byte b i; lo ← byte b (i + 1); ok (u16 (bit_or (hi <<< 8) lo))

-- The four bytes of a timestamp, each cast to `uint32_t` before its shift.
unfoldable pub read_be32 : Bytes → ℕ → Exec ℕ
read_be32 b i = do
  b0 ← byte b i
  b1 ← byte b (i + 1)
  b2 ← byte b (i + 2)
  b3 ← byte b (i + 3)
  ok (bit_or (bit_or (bit_or (u32 (b0 <<< 24)) (u32 (b1 <<< 16))) (u32 (b2 <<< 8))) b3)

-- The end of the header extension that starts at `hdr_len`; `none` if the packet ends before.
unfoldable pub extension_end : Bytes → ℕ → ℕ → Exec (Option ℕ)
extension_end pkt len hdr_len = if ltb len (hdr_len + 4) then ok none else (do
  ext_len_words ← read_be16 pkt (hdr_len + 2)
  ok (some (hdr_len + (4 + ext_len_words * 4))))

-- The last check of the function, at the end of the header where that is known.
abbrev pub header_at : ℕ → ℕ → ℕ → Bool → Option ℕ → Option RtpHeader
header_at len seq timestamp marker none = none
header_at len seq timestamp marker (some end) =
    if ltb len end
    then none
    else some (record { payload = end; seq = seq; timestamp = timestamp; marker = marker })

-- `none` is the NULL that the function returns. The out parameters are never NULL at its call.
unfoldable pub parse_rtp_header : Option Bytes → ℕ → Exec (Option RtpHeader)
parse_rtp_header none len = ok none
parse_rtp_header (some pkt) len = if ltb len 12 then ok none else (do
  flags ← read_be16 pkt 0
  let marker = not (bit_and flags rtp_marker_mask == 0)
  seq ← read_be16 pkt 2
  timestamp ← read_be32 pkt 4
  first ← byte pkt 0
  let hdr_len = 12 + bit_and first 0x0F * 4
  reached ←
      (if bit_and flags rtp_x_mask == 0 then ok (some hdr_len) else extension_end pkt len hdr_len)
  ok (header_at len seq timestamp marker reached))

-- `rx_extract_rtp_timestamp`
unfoldable pub extract_rtp_timestamp : Option Bytes → ℕ → Exec ℕ
extract_rtp_timestamp none len = ok 0
extract_rtp_timestamp (some pkt) len = if ltb len 8 then ok 0 else read_be32 pkt 4
