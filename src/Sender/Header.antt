-- ===== src/Sender/Header.antt =====
-- The headers that the test sender writes, as the receiver reads them.
use obs_st.Base.{
  refl, true, false, ◌==◌, ltb, leb, ℕ, refl, ◌+◌, ◌*◌, ◌/◌, ◌%◌, ◌^◌, ◌<◌, ◌≤◌, ◌≡◌, arith, Bool,
  true, false, some, [], ◌∷◌, Bytes, IsBytes, length, get_or, ok, ◌>>=◌, u8, bit_or, and_low,
  store_all-Writes, if◌then◌else◌, subst,
}
use obs_st.Rtp.{parse_rtp_header}
use obs_st.Rtp.Reads.{be32}
use obs_st.Rtp.View.{view, parse_rtp_header-eq-view}
use obs_st.Sender.{rtp_octets, write_rtp_header}

-- The octets of the header, as arithmetic.
abbrev pub header_octets : ℕ → ℕ → ℕ → Bool → Bytes
header_octets seq ts ssrc marker =
    128
    ∷ (if marker then 224 else 96)
    ∷ (seq / 256)
    ∷ (seq % 256)
    ∷ (ts / 2 ^ 24)
    ∷ (ts / 2 ^ 16 % 256)
    ∷ (ts / 2 ^ 8 % 256)
    ∷ (ts % 256)
    ∷ (ssrc / 2 ^ 24)
    ∷ (ssrc / 2 ^ 16 % 256)
    ∷ (ssrc / 2 ^ 8 % 256)
    ∷ (ssrc % 256)
    ∷ []

flag_octet :
    (marker : Bool) → u8 (bit_or 96 (if marker then 0x80 else 0)) ≡ (if marker then 224 else 96)
flag_octet true = refl
flag_octet false = refl

mark_bit : (marker : Bool) → ((if marker then 224 else 96) / 128 % 2 == 1) ≡ marker
mark_bit true = refl
mark_bit false = refl

-- An octet behind place 0.
pub from_zero : (f : ℕ → ℕ) {x : ℕ} (i : ℕ) → f (0 + i) ≡ x → f i ≡ x
from_zero f {x} i h = let e : 0 + i ≡ i = omega arith in subst (λ k. f k ≡ x) e h

module _ (seq ts ssrc : ℕ) (marker : Bool) (seq_range : seq < 2 ^ 16) (ts_range : ts < 2 ^ 32)
    (ssrc_range : ssrc < 2 ^ 32) where
  pub rtp_octets-eq-header : rtp_octets seq ts ssrc marker ≡ header_octets seq ts ssrc marker
  rtp_octets-eq-header =
      rw
        (
          flag_octet marker,
          and_low 8 seq,
          and_low 8 (ts / 2 ^ 16),
          and_low 8 (ts / 2 ^ 8),
          and_low 8 ts,
          and_low 8 (ssrc / 2 ^ 16),
          and_low 8 (ssrc / 2 ^ 8),
          and_low 8 ssrc,
        )
        (ground arith)

  pub header-IsBytes : IsBytes (header_octets seq ts ssrc marker)
  header-IsBytes = ground arith

  pub view_written :
      (out : Bytes) (len : ℕ)
      → 12 ≤ len
      → ((i : ℕ) → i < 12 → get_or out i 0 ≡ get_or (header_octets seq ts ssrc marker) i 0)
      → view out len ≡ some (record { payload = 12; seq = seq; timestamp = ts; marker = marker })
  view_written out len room written =
      let spelled : be32 out 4 ≡ ts = omega (
        arith,
        written 4 (omega arith),
        written 5 (omega arith),
        written 6 (omega arith),
        written 7 (omega arith),
      ) in
      let joined : seq / 256 * 256 + seq % 256 ≡ seq = omega arith in
      let long : ltb len 12 ≡ false = ground arith in
      let covered : leb 12 len ≡ true = ground arith in
      rw
        (
          written 0 (omega arith),
          written 1 (omega arith),
          written 2 (omega arith),
          written 3 (omega arith),
          spelled,
          joined,
          mark_bit marker,
          long,
          covered,
        )
        refl

  -- A header that the test sender writes into a block of octets, for a sequence number of 16 bits and
  -- a timestamp and a source of 32, is the header that the receiver's parser finds there, for every
  -- length that covers it: it has twelve octets, the sequence number, the timestamp and the mark.
  pub parse_rtp_header-write_rtp_header :
      (pkt : Bytes) (len : ℕ)
      → IsBytes pkt
      → 12 ≤ len
      → len ≤ length pkt
      → (write_rtp_header pkt seq ts ssrc marker >>= λ written. parse_rtp_header (some written) len)
        ≡ ok (some (record { payload = 12; seq = seq; timestamp = ts; marker = marker }))
  unfolding write_rtp_header
  parse_rtp_header-write_rtp_header pkt len octets room inside =
      let (out, e, (w, out_octets)) =
        store_all-Writes (header_octets seq ts ssrc marker) pkt 0 (omega arith) octets
          header-IsBytes in
      rw
        (
          rtp_octets-eq-header,
          e,
          parse_rtp_header-eq-view out len out_octets (omega (arith, w.same_length)),
          view_written out len room (λ i lt. from_zero (λ k. get_or out k 0) i (w.inside i lt)),
        )
        refl
