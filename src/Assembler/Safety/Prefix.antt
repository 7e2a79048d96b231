-- ===== src/Assembler/Safety/Prefix.antt =====
-- What stands behind the end of a packet does not matter to `rx_assembler_process_packet`.
use obs_st.Base.{
  ℕ, zero, suc, ◌+◌, ◌≤◌, ◌<◌, ◌≡◌, refl, arith, List, [], ◌∷◌, ◌++◌, length, Bytes, IsBytes,
  get_or, take, drop, splice, memcpy, ltb, leb, ltb→le, Bool-cases, inl, inr, get_or-append_left,
  some, none, Option, IsBytes-append, bind_ext, length-append, Option-cases, ap, length-drop,
}
use obs_st.Types.{FrameCb, PixFmt}
use obs_st.Rtp.{RtpHeader}
use obs_st.Rtp.Reads.{be16}
use obs_st.Rtp.View.{view, fields, header_length, parse_rtp_header-eq-view, fixed_length}
use obs_st.Assembler.{Assembler}
use obs_st.Assembler.Segments.{Segment, copy_payloads, dst_offset, max_segments}
use obs_st.Assembler.Packet.{rx_assembler_process_packet, accept_packet, store_segments}
use obs_st.Assembler.Safety.Segments.{headers_view, segment_at, parse_headers-eq-view}

take_prefix : (n : ℕ) (xs ys : Bytes) → n ≤ length xs → take n (xs ++ ys) ≡ take n xs
take_prefix zero xs ys h = refl
take_prefix (suc n) [] ys h = absurd (omega arith)
take_prefix (suc n) (x ∷ xs) ys h = ap (◌∷◌ x) (take_prefix n xs ys (omega arith))

drop_prefix : (n : ℕ) (xs ys : Bytes) → n ≤ length xs → drop n (xs ++ ys) ≡ drop n xs ++ ys
drop_prefix zero xs ys h = refl
drop_prefix (suc n) [] ys h = absurd (omega arith)
drop_prefix (suc n) (x ∷ xs) ys h = drop_prefix n xs ys (omega arith)

module _ (pkt rest : Bytes) where
  octet_prefix : (i : ℕ) → i < length pkt → get_or (pkt ++ rest) i 0 ≡ get_or pkt i 0
  octet_prefix i h = get_or-append_left pkt rest i 0 h

  be16_prefix : (i : ℕ) → i + 2 ≤ length pkt → be16 (pkt ++ rest) i ≡ be16 pkt i
  be16_prefix i h = rw (octet_prefix i (omega arith), octet_prefix (i + 1) (omega arith)) refl

  header_length_prefix :
      12 ≤ length pkt → header_length (pkt ++ rest) (length pkt) ≡ header_length pkt (length pkt)
  header_length_prefix h =
      let n = fixed_length pkt in
      rw (octet_prefix 0 (omega arith)) (elim (Bool-cases (ltb (length pkt) (n + 4))) [
        | inl short ↦ rw short refl
        | inr long ↦
            let room = ltb→le (length pkt) (n + 4) long in
            rw (be16_prefix (n + 2) (omega arith)) refl
      ])

  fields_prefix :
      12 ≤ length pkt
      → (o : Option ℕ) → fields (pkt ++ rest) (length pkt) o ≡ fields pkt (length pkt) o
  fields_prefix h none = refl
  fields_prefix h (some end) =
      rw
        (
          be16_prefix 2 (omega arith),
          be16_prefix 4 (omega arith),
          be16_prefix 6 (omega arith),
          octet_prefix 1 (omega arith),
        )
        refl

  view_prefix : view (pkt ++ rest) (length pkt) ≡ view pkt (length pkt)
  view_prefix = elim (Bool-cases (ltb (length pkt) 12)) [
    | inl short ↦ rw short refl
    | inr long ↦
        let room = ltb→le (length pkt) 12 long in
        rw (long, header_length_prefix room) (fields_prefix room (header_length pkt (length pkt)))
  ]

  headers_prefix :
      (room p : ℕ) (segments : List Segment)
      → headers_view (pkt ++ rest) (length pkt) room p segments
        ≡ headers_view pkt (length pkt) room p segments
  unfolding headers_view
  headers_prefix zero p segments = refl
  headers_prefix (suc room) p segments = elim (Bool-cases (leb (p + 6) (length pkt))) [
    | inr short ↦ rw short refl
    | inl long ↦
        let inside : p + 6 ≤ length pkt = ground arith in
        rw
          (
            long,
            be16_prefix p (omega arith),
            be16_prefix (p + 2) (omega arith),
            be16_prefix (p + 4) (omega arith),
            headers_prefix room (p + 6) (segments ++ (segment_at pkt p ∷ [])),
          )
          refl
  ]

  slice_prefix :
      (from n : ℕ)
      → from + n ≤ length pkt
      → take n (drop from (pkt ++ rest)) ≡ take n (drop from pkt)
  slice_prefix from n h =
      rw (drop_prefix from pkt rest (omega arith))
        (take_prefix n (drop from pkt) rest (omega (arith, length-drop from pkt)))

  memcpy_prefix :
      (fill : Bytes) (at from n : ℕ)
      → from + n ≤ length pkt
      → memcpy fill at (pkt ++ rest) from n ≡ memcpy fill at pkt from n
  unfolding memcpy splice
  memcpy_prefix fill at from n h =
      rw (slice_prefix from n h) (ground (arith, length-append pkt rest))

  copy_prefix :
      (a : Assembler) (segs : List Segment) (p : ℕ) (fill : Bytes)
      → copy_payloads a (pkt ++ rest) (length pkt) segs p fill
        ≡ copy_payloads a pkt (length pkt) segs p fill
  unfolding copy_payloads
  copy_prefix a [] p fill = refl
  copy_prefix a (seg ∷ segs) p fill =
      let n = seg.seg_length in
      elim (Bool-cases (ltb (length pkt) (p + n))) [
        | inl cut ↦ rw (cut, copy_prefix a segs (p + n) fill) refl
        | inr inside ↦
            rw
              (
                inside,
                copy_prefix a segs (p + n) fill,
                memcpy_prefix fill (dst_offset a seg) p n (ltb→le (length pkt) (p + n) inside),
                bind_ext _ _ _ (λ fill'. copy_prefix a segs (p + n) fill'),
              )
              refl
      ]

  module _ (octets : IsBytes pkt) (more_octets : IsBytes rest) where
    store_prefix :
        (a : Assembler) (p : ℕ)
        → store_segments a (pkt ++ rest) p (length pkt) ≡ store_segments a pkt p (length pkt)
    unfolding store_segments
    store_prefix a p =
        rw
          (
            parse_headers-eq-view (pkt ++ rest) (length pkt)
                (IsBytes-append pkt rest octets more_octets) (omega (arith, length-append pkt rest))
                max_segments p [],
            parse_headers-eq-view pkt (length pkt) octets (omega arith) max_segments p [],
            headers_prefix max_segments p [],
            copy_prefix a _ _ a.fill_buf,
          )
          refl

    accept_prefix {ℓ} :
        {U : Type ℓ} (a : Assembler) (frame_cb : FrameCb U) (user : U) (fmt : PixFmt)
        (lost : Option ℕ) (header : RtpHeader)
        → accept_packet a (pkt ++ rest) (length pkt) frame_cb user fmt lost header
          ≡ accept_packet a pkt (length pkt) frame_cb user fmt lost header
    unfolding accept_packet
    accept_prefix a frame_cb user fmt lost header = simp store_prefix

    -- For a packet of octets in a buffer of octets, `rx_assembler_process_packet` with the packet's length
    -- does what it does for the packet alone: what stands behind that length in the buffer, such as the
    -- end of an earlier and longer packet, does not matter.
    pub process_packet-prefix {ℓ} :
        {U : Type ℓ} (a : Assembler) (frame_cb : FrameCb U) (user : U) (fmt : PixFmt)
        (lost : Option ℕ)
        → rx_assembler_process_packet
            (some a)
            (some (pkt ++ rest))
            (length pkt)
            (some frame_cb)
            user
            fmt
            lost
          ≡ rx_assembler_process_packet
              (some a)
              (some pkt)
              (length pkt)
              (some frame_cb)
              user
              fmt
              lost
    unfolding rx_assembler_process_packet
    process_packet-prefix a frame_cb user fmt lost =
        rw
          (
            parse_rtp_header-eq-view (pkt ++ rest) (length pkt)
                (IsBytes-append pkt rest octets more_octets)
                (omega (arith, length-append pkt rest)),
            parse_rtp_header-eq-view pkt (length pkt) octets (omega arith),
            view_prefix,
          )
          (elim (Option-cases (view pkt (length pkt))) [
            | inl bad ↦ rw bad refl
            | inr (header, good) ↦ rw (good, accept_prefix a frame_cb user fmt lost header) refl
          ])
