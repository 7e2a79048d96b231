-- ===== src/Tests/Arrivals.antt =====
-- Packets that come with a gap, and in another order, for a line of four pixels.
use mathlib.Core.List.{Permᴰ}
use obs_st.Base.{
  refl, ◌≡◌, arith, true, false, some, [], ◌∷◌, List, Bytes, Returns, u64, ◌+◌, ◌-◌, inl, inr,
  Bool-cases, ltb,
}
use obs_st.Types.{Frame, uyvy}
use obs_st.Rtp.{RtpHeader}
use obs_st.Assembler.{Assembler, IsReady}
use obs_st.Assembler.Packet.{Processed}
use obs_st.Assembler.Safety.Frame.{feed}
use obs_st.Assembler.Safety.Losses.{IsAccepted, feed-CountsLost}
use obs_st.Assembler.Safety.Repeated.{no_packet, once, more_often}
use obs_st.Assembler.Safety.Order.{PairwiseAgree, arrived}
use obs_st.Assembler.Safety.Reordered.{AreParts, IsPainted, feed-perm}
use obs_st.Tests.Pair.{four_pixels, left_half, left_header, left-IsNext, right_half, right-IsNext}
use obs_st.Assembler.Safety.Shades.{shade}
use obs_st.Assembler.Safety.Segments.{headers_view}
use obs_st.Assembler.Safety.Widths.{Typed}
use obs_st.Assembler.Safety.Typed.{feed-HasTypes}

-- The assembler within the frame of timestamp 9, behind the packet 65530.
abbrev under_way : Assembler
under_way = record four_pixels { has_prev_packet = true; last_seq = 65530; last_ts = 9 }

under_way-IsReady : IsReady under_way
under_way-IsReady = ground arith

-- The right half, unmarked, with the number 3.
abbrev right_part : Bytes
right_part =
    128 ∷ 96 ∷ 0 ∷ 3 ∷ 0 ∷ 0 ∷ 0 ∷ 9 ∷ 0 ∷ 0 ∷ 0 ∷ 0 ∷ 0 ∷ 0 ∷ 0 ∷ 4 ∷ 0 ∷ 0 ∷ 0 ∷ 2 ∷ 5 ∷ 6 ∷ 7 ∷ 8
    ∷ []

abbrev right_part_header : RtpHeader
right_part_header = record { payload = 12; seq = 3; timestamp = 9; marker = false }

left-IsAccepted : IsAccepted left_half left_header
left-IsAccepted = record { octets = left-IsNext.octets; parsed = refl; long = omega arith }

right-IsAccepted : IsAccepted right_part right_part_header
right-IsAccepted = record { octets = ground arith; parsed = refl; long = omega arith }

abbrev before : Processed (List Frame)
before = record { asm = some under_way; user = []; lost = some 7; completed = 0 }

-- The packets 65535 and 65539, behind 65530: seven are missing.
feed-CountsLost_example :
    Returns
      (feed uyvy before (left_half ∷ right_part ∷ []))
      (λ r. r.lost ≡ some (u64 (7 + (65539 - 65530 - 2))))
feed-CountsLost_example =
    feed-CountsLost (left_half ∷ right_part ∷ []) (65535 ∷ 65539 ∷ []) 65530 7 under_way before uyvy
      refl refl under_way-IsReady refl refl (omega arith)
      (
        (left_header, left-IsAccepted, refl),
        omega arith,
        omega arith,
        ((right_part_header, right-IsAccepted, refl), omega arith, omega arith, tt),
      )

parts : AreParts 9 (left_half ∷ right_part ∷ [])
parts = (
  record { header = left_header; accepted = left-IsAccepted; unmarked = refl; timestamp = refl },
  (
    record {
      header = right_part_header;
      accepted = right-IsAccepted;
      unmarked = refl;
      timestamp = refl;
    },
    tt,
  ),
)

agree : PairwiseAgree under_way (left_half ∷ right_part ∷ [])
unfolding shade headers_view
agree = (
  (
    λ j. elim (Bool-cases (ltb j 4)) [
      | inl near ↦ inr (inl (ground arith))
      | inr far ↦ inl (ground arith)
    ],
    tt,
  ),
  (tt, tt),
)

-- The right half comes first, the left half twice behind it.
feed-perm_example :
    Returns (feed uyvy before (left_half ∷ right_part ∷ [])) (
      IsPainted under_way under_way-IsReady before
        (arrived under_way (left_half ∷ right_part ∷ [])))
    × Returns (feed uyvy before (right_part ∷ left_half ∷ left_half ∷ [])) (
        IsPainted under_way under_way-IsReady before
          (arrived under_way (left_half ∷ right_part ∷ [])))
feed-perm_example =
    feed-perm under_way before uyvy refl under_way-IsReady parts agree
      (more_often (once (once no_packet)))
      (Permᴰ.trans (Permᴰ.cons refl (Permᴰ.swap refl refl)) (Permᴰ.swap refl refl))

-- The last number of a frame is the last of its field.
abbrev numbered : Assembler
numbered = record under_way { frame_number = 4294967295 }

abbrev before_numbered : Processed (List Frame)
before_numbered = record before { asm = some numbered }

feed-HasTypes_example :
    Returns (feed uyvy before_numbered (left_half ∷ right_part ∷ right_half ∷ [])) Typed
feed-HasTypes_example =
    feed-HasTypes uyvy (left_half ∷ right_part ∷ right_half ∷ []) numbered before_numbered 7 refl
      refl (ground arith) (ground arith) tt (omega arith)
      (left-IsNext.octets, (right-IsAccepted.octets, (right-IsNext.octets, tt)))
