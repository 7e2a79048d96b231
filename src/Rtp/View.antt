-- ===== src/Rtp/View.antt =====
-- What `parse_rtp_header` returns for a packet whose octets are all there.
use obs_st.Base.{
  ℕ, ◌+◌, ◌*◌, ◌/◌, ◌%◌, ◌≤◌, ◌<◌, ◌≡◌, refl, arith, Bool, Option, none, some, not, length, get_or,
  Bytes, IsBytes, get_or-IsByte, ok, byte-eq-ok, bit_and, and_low, and_bit, ltb, leb, ltb→le, ◌==◌,
  if◌then◌else◌, Bool-cases, inl, inr, ap,
}
use obs_st.Rtp.{RtpHeader, header_at, extension_end, parse_rtp_header, rtp_x_mask, rtp_marker_mask}
use obs_st.Rtp.Reads.{be16, be32, read_be16-eq-ok, read_be32-eq-ok}

-- RFC 3550, section 5.1: twelve octets, then CC sources of four, then, if X is set, an extension
-- of four octets and the words that it counts. `none` where the packet is shorter.
abbrev pub has_extension : Bytes → Bool
has_extension pkt = get_or pkt 0 0 / 16 % 2 == 1

abbrev pub fixed_length : Bytes → ℕ
fixed_length pkt = 12 + get_or pkt 0 0 % 16 * 4

abbrev pub header_length : Bytes → ℕ → Option ℕ
header_length pkt len =
    if has_extension pkt
    then (if ltb len (fixed_length pkt + 4)
        then none
        else some (fixed_length pkt + (4 + be16 pkt (fixed_length pkt + 2) * 4)))
    else some (fixed_length pkt)

abbrev pub marked : Bytes → Bool
marked pkt = get_or pkt 1 0 / 128 % 2 == 1

-- The octets must cover the header.
abbrev pub fields : Bytes → ℕ → Option ℕ → Option RtpHeader
fields pkt len none = none
fields pkt len (some end) =
    if leb end len
    then some
        (record { payload = end; seq = be16 pkt 2; timestamp = be32 pkt 4; marker = marked pkt })
    else none

header_at-eq-fields :
    (pkt : Bytes) (len : ℕ) (o : Option ℕ)
    → header_at len (be16 pkt 2) (be32 pkt 4) (marked pkt) o ≡ fields pkt len o
header_at-eq-fields pkt len none = refl
header_at-eq-fields pkt len (some end) = ground arith

abbrev pub view : Bytes → ℕ → Option RtpHeader
view pkt len = if ltb len 12 then none else fields pkt len (header_length pkt len)

module _ (pkt : Bytes) (len : ℕ) (octets : IsBytes pkt) (inside : len ≤ length pkt) where
  first : get_or pkt 0 0 < 256
  first = get_or-IsByte pkt 0 octets

  second : get_or pkt 1 0 < 256
  second = get_or-IsByte pkt 1 octets

  extension_flag : (bit_and (be16 pkt 0) rtp_x_mask == 0) ≡ not (has_extension pkt)
  extension_flag = ground (arith, and_bit 12 (be16 pkt 0), first, second)

  marker_flag : not (bit_and (be16 pkt 0) rtp_marker_mask == 0) ≡ (get_or pkt 1 0 / 128 % 2 == 1)
  marker_flag = ground (arith, and_bit 7 (be16 pkt 0), first, second)

  sources : bit_and (get_or pkt 0 0) 0x0F ≡ get_or pkt 0 0 % 16
  sources = and_low 4 (get_or pkt 0 0)

  extension_end-eq-ok :
      (h : ℕ)
      → extension_end pkt len h
        ≡ ok (if ltb len (h + 4) then none else some (h + (4 + be16 pkt (h + 2) * 4)))
  unfolding extension_end
  extension_end-eq-ok h = elim (Bool-cases (ltb len (h + 4))) [
    | inl short ↦ rw short refl
    | inr long ↦
        rw (long, read_be16-eq-ok pkt (h + 2) octets (omega (arith, ltb→le len (h + 4)))) refl
  ]

  settled :
      (if not (has_extension pkt)
        then ok (some (fixed_length pkt))
        else ok (
            if ltb len (fixed_length pkt + 4)
            then none
            else some (fixed_length pkt + (4 + be16 pkt (fixed_length pkt + 2) * 4))))
      ≡ ok (header_length pkt len)
  settled = ground arith

  -- For a packet of octets and a length inside its buffer, `parse_rtp_header` returns the fields of the
  -- header and the place where it ends, or nothing for a packet that is too short, and makes no read
  -- out of bounds.
  pub parse_rtp_header-eq-view : parse_rtp_header (some pkt) len ≡ ok (view pkt len)
  unfolding parse_rtp_header
  parse_rtp_header-eq-view = elim (Bool-cases (ltb len 12)) [
    | inl short ↦ rw short refl
    | inr long ↦
        let room = ltb→le len 12 long in
        rw
          (
            long,
            read_be16-eq-ok pkt 0 octets (omega arith),
            read_be16-eq-ok pkt 2 octets (omega arith),
            read_be32-eq-ok pkt 4 octets (omega arith),
            byte-eq-ok pkt 0 (omega arith),
            sources,
            extension_flag,
            marker_flag,
            extension_end-eq-ok (fixed_length pkt),
            settled,
          )
          (ap ok (header_at-eq-fields pkt len (header_length pkt len)))
  ]
