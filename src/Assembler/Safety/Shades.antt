-- ===== src/Assembler/Safety/Shades.antt =====
-- What a packet stores at one octet of the picture.
use obs_st.Base.{
  ℕ, ◌+◌, ◌-◌, ◌≤◌, ◌≡◌, refl, arith, Option, none, some, List, [], ◌∷◌, length, Bytes, get_or,
  splice, splice_below, splice_inside, splice_above, length-splice, ltb, leb, if◌then◌else◌,
  Bool-cases, inl, inr, ◌&&◌, ◌∙◌, ap, sym,
}
use obs_st.Assembler.{Assembler}
use obs_st.Assembler.Segments.{Segment}
use obs_st.Assembler.Safety.Segments.{painted, place, picture_size}

-- The value stored, where there is one, in place of what was there.
abbrev pub over : Option ℕ → ℕ → ℕ
over none before = before
over (some v) before = v

-- The later of two values stored.
abbrev later_of : Option ℕ → Option ℕ → Option ℕ
later_of earlier none = earlier
later_of earlier (some v) = some v

over-later_of : (x y : Option ℕ) (v : ℕ) → over (later_of x y) v ≡ over y (over x v)
over-later_of x none v = refl
over-later_of x (some w) v = refl

-- What a copy of n octets of `pkt` from `from` on stores at `j`, if it goes to `at`.
abbrev copied : Bytes → ℕ → ℕ → ℕ → ℕ → Option ℕ
copied pkt at from n j =
    if leb at j && ltb j (at + n) then some (get_or pkt (from + (j - at)) 0) else none

-- What the payloads from `p` on store at `j`.
unfoldable pub shade : Assembler → Bytes → ℕ → List Segment → ℕ → ℕ → Option ℕ
shade a pkt end [] p j = none
shade a pkt end (seg ∷ segs) p j =
    let at = place a seg in
    let next = p + seg.seg_length in
    let later = shade a pkt end segs next j in
    if leb a.height seg.line_no
    then later
    else (if leb next end
        then (if leb (at + seg.seg_length) (picture_size a)
            then later_of (copied pkt at p seg.seg_length j) later
            else later)
        else none)

splice_at :
    (fill : Bytes) (at : ℕ) (pkt : Bytes) (from n j : ℕ)
    → at + n ≤ length fill
    → from + n ≤ length pkt
    → get_or (splice fill at pkt from n) j 0 ≡ over (copied pkt at from n j) (get_or fill j 0)
splice_at fill at pkt from n j room have = elim (Bool-cases (leb at j)) [
  | inr above ↦ rw above (splice_below fill at pkt from n room have j (ground arith))
  | inl reached ↦ elim (Bool-cases (ltb j (at + n))) [
    | inl inside ↦
        let e : at + (j - at) ≡ j = ground arith in
        rw (reached, inside)
          (ap (λ k. get_or (splice fill at pkt from n) k 0) (sym e)
            ∙ splice_inside fill at pkt from n room have (j - at) (ground arith))
    | inr behind ↦ rw (reached, behind) (splice_above fill at pkt from n room have j (ground arith))
  ]
]

module _ (a : Assembler) (pkt : Bytes) (end : ℕ) (inside : end ≤ length pkt) where
  pub painted_at :
      (segs : List Segment) (p : ℕ) (fill : Bytes) (j : ℕ)
      → length fill ≡ picture_size a
      → get_or (painted a pkt end segs p fill) j 0
        ≡ over (shade a pkt end segs p j) (get_or fill j 0)
  unfolding painted shade
  painted_at [] p fill j e = refl
  painted_at (seg ∷ segs) p fill j e =
      let n = seg.seg_length in
      let at = place a seg in
      let skip = painted_at segs (p + n) fill j e in
      elim (Bool-cases (leb a.height seg.line_no)) [
        | inl wild ↦ rw wild skip
        | inr below ↦ elim (Bool-cases (leb (p + n) end)) [
          | inr cut ↦ rw (below, cut) refl
          | inl held ↦ elim (Bool-cases (leb (at + n) (picture_size a))) [
            | inr far ↦ rw (below, held, far) skip
            | inl fits ↦
                let room : at + n ≤ length fill = ground arith in
                let have : p + n ≤ length pkt = ground arith in
                rw (below, held, fits)
                  (painted_at segs (p + n) (splice fill at pkt p n) j
                      (length-splice fill at pkt p n room have ∙ e)
                    ∙ ap (over (shade a pkt end segs (p + n) j))
                        (splice_at fill at pkt p n j room have)
                    ∙ sym (
                        over-later_of (copied pkt at p n j) (shade a pkt end segs (p + n) j)
                          (get_or fill j 0)))
          ]
        ]
      ]
