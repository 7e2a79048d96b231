-- ===== src/Sender/Picture.antt =====
-- The picture of the test sender: eight bars of one width, whose rest belongs to the last one.
use native.Mathlib.Nat.{div-add-mod', mod-lt, mul-le-mul_right}
use obs_st.Base.{
  inl, inr, ℕ, Bytes, if◌then◌else◌, ◌≤◌, IsBytes, ltb, ◌*◌, ◌<◌, ◌≡◌, arith, ◌+◌, ◌/◌, ◌⊎◌, refl,
  [], zero, suc, Bool-cases, List, get_or, length, Returns, ◌∷◌, ◌∙◌,
}
use obs_st.Sender.{bar_of, groups_per_bar_of, generate_colorbars_be10, bars}
use obs_st.Convert.Groups.{pgroup_bits}
use obs_st.Sender.Bars.{draw_rows-IsFilled}
use obs_st.Sender.Groups.{samples_bits}

-- The four ten-bit samples of a group of each bar, Cb, Y, Cr and Y again, from left to right.
abbrev pub bar_bits : List ℕ
bar_bits =
    samples_bits 512 940 512 940
    ∷ samples_bits 64 877 553 877
    ∷ samples_bits 671 754 159 754
    ∷ samples_bits 223 691 200 691
    ∷ samples_bits 800 566 824 566
    ∷ samples_bits 352 503 865 503
    ∷ samples_bits 960 380 471 380
    ∷ samples_bits 512 64 512 64
    ∷ []

-- An eighth of the groups of a line, one group at least.
abbrev pub bar_width : ℕ → ℕ
bar_width groups = if ltb groups 8 then 1 else groups / 8

-- Group g of a line stands in the bar b.
pub record IsInBar (groups g b : ℕ) : Type 0 where
  pub few : b ≤ 7
  pub behind_start : b * bar_width groups ≤ g
  pub before_end : (g < (b + 1) * bar_width groups) ⊎ (b ≡ 7)

-- In each line every group has the samples of the bar that it stands in.
pub record IsPicture (groups stride height : ℕ) (out : Bytes) : Type 0 where
  pub octets : IsBytes out
  pub inside :
      (y g : ℕ)
      → y < height
      → g < groups
      → (b : ℕ) × IsInBar groups g b × (pgroup_bits out (y * stride + g * 5) ≡ get_or bar_bits b 0)

bar_width-groups_per_bar_of : (groups : ℕ) → groups_per_bar_of groups ≡ bar_width groups
bar_width-groups_per_bar_of groups = ground arith

-- The bar of a group, for bars of w groups.
bar_of_range :
    (w g : ℕ)
    → 0 < w
    → (bar_of w g ≤ 7) × (bar_of w g * w ≤ g) × ((g < (bar_of w g + 1) * w) ⊎ (bar_of w g ≡ 7))
bar_of_range w g some_groups =
    let whole = div-add-mod' g w in
    let rest = mod-lt g some_groups in
    elim (Bool-cases (ltb 7 (g / w))) [
      | inl last ↦
          let past : 7 ≤ g / w = ground arith in
          rw last (omega arith, omega (arith, mul-le-mul_right w past, whole), inr refl)
      | inr early ↦ rw early (ground arith, omega (arith, whole), inl (grind (arith, whole, rest)))
    ]

bar_of-IsInBar : (groups g : ℕ) → IsInBar groups g (bar_of (groups_per_bar_of groups) g)
bar_of-IsInBar groups g =
    let (few, behind_start, before_end) = bar_of_range (bar_width groups) g (ground arith) in
    rw (bar_width-groups_per_bar_of groups)
      (record { few = few; behind_start = behind_start; before_end = before_end })

bits_of_bar :
    (b : ℕ)
    → b ≤ 7
    → (let bar = get_or bars b (record { cb = 0; luma = 0; cr = 0 }) in
        samples_bits bar.cb bar.luma bar.cr bar.luma)
      ≡ get_or bar_bits b 0
bits_of_bar zero h = refl
bits_of_bar (suc zero) h = refl
bits_of_bar (suc (suc zero)) h = refl
bits_of_bar (suc (suc (suc zero))) h = refl
bits_of_bar (suc (suc (suc (suc zero)))) h = refl
bits_of_bar (suc (suc (suc (suc (suc zero))))) h = refl
bits_of_bar (suc (suc (suc (suc (suc (suc zero)))))) h = refl
bits_of_bar (suc (suc (suc (suc (suc (suc (suc zero))))))) h = refl
bits_of_bar (suc (suc (suc (suc (suc (suc (suc (suc i)))))))) h = absurd (omega arith)

-- `generate_colorbars_be10` on a block of octets that holds `height` lines makes no access out of
-- bounds, neither of the block nor of the table of bars, and leaves a picture in which every group of
-- each line has the samples of the bar that it stands in: of eight bars, each an eighth of the line's groups
-- wide, rounded down to one group at least, where the last has the rest as well.
pub generate_colorbars_be10-IsPicture :
    (frame : Bytes) (width height stride : ℕ)
    → IsBytes frame
    → width / 2 * 5 ≤ stride
    → height * stride ≤ length frame
    → Returns
        (generate_colorbars_be10 frame width height stride)
        (λ out. (length out ≡ length frame) × IsPicture (width / 2) stride height out)
unfolding generate_colorbars_be10
generate_colorbars_be10-IsPicture frame width height stride octets line_holds room =
    let groups = width / 2 in
    let e : 0 + height ≡ height = omega arith in
    let (out, e', f) =
      draw_rows-IsFilled (groups_per_bar_of groups) groups stride line_holds height frame 0 octets
        (rw e room) in
    (
      out,
      e',
      (
        f.same_length,
        record {
          octets = f.picture.octets;
          inside = λ y g p q.
              let bar = bar_of-IsInBar groups g in
              (
                bar_of (groups_per_bar_of groups) g,
                bar,
                f.picture.inside y g (omega arith) (omega arith) q
                    ∙ bits_of_bar (bar_of (groups_per_bar_of groups) g) bar.few,
              );
        },
      ),
    )
