-- ===== src/Tests/Pictures.antt =====
-- The conversion at a concrete group.
use obs_st.Base.{refl, ◌≡◌, arith, [], ◌∷◌, Bytes, ok, Returns, byte, store}
use obs_st.Convert.{convert_rows, convert_row, convert_group, rx_convert_be10_to_uyvy}
use obs_st.Convert.Rows.{IsConverted, convert-IsConverted}

-- The samples 4 * 16 + 1, 4 * 32 + 2, 4 * 48 + 3 and 4 * 64 of ten bits each.
abbrev group : Bytes
group = 16 ∷ 72 ∷ 35 ∷ 13 ∷ 0 ∷ []

abbrev blank : Bytes
blank = 0 ∷ 0 ∷ 0 ∷ 0 ∷ []

convert-IsConverted_example :
    Returns (rx_convert_be10_to_uyvy group 5 blank 4 2 1) (IsConverted group 5 blank 4 1 0 1)
convert-IsConverted_example =
    convert-IsConverted group 5 blank 4 2 1 (ground arith) (omega arith) (omega arith) (omega arith)
      (omega arith)

group_converts : rx_convert_be10_to_uyvy group 5 blank 4 2 1 ≡ ok (16 ∷ 32 ∷ 48 ∷ 64 ∷ [])
unfolding rx_convert_be10_to_uyvy convert_rows convert_row convert_group byte store
group_converts = refl
