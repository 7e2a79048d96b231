-- ===== src/Assembler/Safety/Order.antt =====
-- Packets of one frame in any order: the picture of packets that agree.
use mathlib.Core.Quot
use mathlib.Core.Quot.{Quot, Quot-set}
use mathlib.Core.List.{Permᴰ}
use obs_st.Base.{
  ℕ, ◌≡◌, ◌⊎◌, inl, inr, refl, arith, Option, none, some, List, [], ◌∷◌, length, Bytes, get_or,
  get_or_ext, subst, sym, ◌∙◌, ap, ◌+◌,
}
use obs_st.Rtp.{RtpHeader}
use obs_st.Rtp.View.{view}
use obs_st.Assembler.{Assembler}
use obs_st.Assembler.Safety.Segments.{headers_view, length-painted, picture_size, segment_limit}
use obs_st.Assembler.Safety.Frame.{paint, paint_segments, picture}
use obs_st.Assembler.Safety.Shades.{shade, over, painted_at}

-- What a packet stores at the octet `j` of the picture.
abbrev shade_segments : Assembler → Bytes → Option RtpHeader → ℕ → Option ℕ
shade_segments a pkt none j = none
shade_segments a pkt (some header) j =
    let headers = headers_view pkt (length pkt) segment_limit (header.payload + 2) [] in
    shade a pkt (length pkt) headers.segments headers.payloads j

abbrev pub shade_of : Assembler → Bytes → ℕ → Option ℕ
shade_of a pkt = shade_segments a pkt (view pkt (length pkt))

-- At every octet one of the packets stores nothing, or both store the same.
abbrev pub Agree : Assembler → Bytes → Bytes → Type 0
Agree a p q =
    (j : ℕ)
    → (shade_of a p j ≡ none) ⊎ ((shade_of a q j ≡ none) ⊎ (shade_of a p j ≡ shade_of a q j))

abbrev pub AllAgree : Assembler → Bytes → List Bytes → Type 0
AllAgree a p [] = Unit {0}
AllAgree a p (q ∷ qs) = Agree a p q × AllAgree a p qs

abbrev pub PairwiseAgree : Assembler → List Bytes → Type 0
PairwiseAgree a [] = Unit {0}
PairwiseAgree a (p ∷ ps) = AllAgree a p ps × PairwiseAgree a ps

over_comm :
    (x y : Option ℕ) (v : ℕ)
    → (x ≡ none) ⊎ ((y ≡ none) ⊎ (x ≡ y))
    → over x (over y v) ≡ over y (over x v)
over_comm none y v h = refl
over_comm (some x) none v h = refl
over_comm (some x) (some y) v h = ground arith

over_again : (x : Option ℕ) (v : ℕ) → over x (over x v) ≡ over x v
over_again none v = refl
over_again (some x) v = refl

module _ (a : Assembler) where
  Agree-sym : (p q : Bytes) → Agree a p q → Agree a q p
  Agree-sym p q h j = elim (h j) [
    | inl e ↦ inr (inl e)
    | inr other ↦ elim other [ inl e ↦ inl e | inr e ↦ inr (inr (sym e)) ]
  ]

  length-paint_segments :
      (pkt fill : Bytes) (o : Option RtpHeader)
      → length fill ≡ picture_size a
      → length (paint_segments a pkt fill o) ≡ picture_size a
  length-paint_segments pkt fill none e = e
  length-paint_segments pkt fill (some header) e =
      length-painted a pkt (length pkt) (omega arith) _ _ fill e

  paint_segments_at :
      (pkt fill : Bytes) (o : Option RtpHeader) (j : ℕ)
      → length fill ≡ picture_size a
      → get_or (paint_segments a pkt fill o) j 0 ≡ over (shade_segments a pkt o j) (get_or fill j 0)
  paint_segments_at pkt fill none j e = refl
  paint_segments_at pkt fill (some header) j e =
      painted_at a pkt (length pkt) (omega arith) _ _ fill j e

  length-paint :
      (pkt fill : Bytes) → length fill ≡ picture_size a → length (paint a pkt fill) ≡ picture_size a
  length-paint pkt fill e = length-paint_segments pkt fill (view pkt (length pkt)) e

  paint_at :
      (pkt fill : Bytes) (j : ℕ)
      → length fill ≡ picture_size a
      → get_or (paint a pkt fill) j 0 ≡ over (shade_of a pkt j) (get_or fill j 0)
  paint_at pkt fill j e = paint_segments_at pkt fill (view pkt (length pkt)) j e

  paint_comm :
      (p q fill : Bytes)
      → length fill ≡ picture_size a
      → Agree a p q
      → paint a q (paint a p fill) ≡ paint a p (paint a q fill)
  paint_comm p q fill e agree =
      get_or_ext 0 (paint a q (paint a p fill)) (paint a p (paint a q fill))
        (length-paint q (paint a p fill) (length-paint p fill e)
          ∙ sym (length-paint p (paint a q fill) (length-paint q fill e)))
        λ j.
          paint_at q (paint a p fill) j (length-paint p fill e)
          ∙ ap (over (shade_of a q j)) (paint_at p fill j e)
          ∙ sym (over_comm (shade_of a p j) (shade_of a q j) (get_or fill j 0) (agree j))
          ∙ sym (
              paint_at p (paint a q fill) j (length-paint q fill e)
              ∙ ap (over (shade_of a p j)) (paint_at q fill j e))

  paint_again :
      (p fill : Bytes) → length fill ≡ picture_size a → paint a p (paint a p fill) ≡ paint a p fill
  paint_again p fill e =
      get_or_ext 0 (paint a p (paint a p fill)) (paint a p fill)
        (length-paint p (paint a p fill) (length-paint p fill e) ∙ sym (length-paint p fill e))
        λ j.
          paint_at p (paint a p fill) j (length-paint p fill e)
          ∙ ap (over (shade_of a p j)) (paint_at p fill j e)
          ∙ over_again (shade_of a p j) (get_or fill j 0)
          ∙ sym (paint_at p fill j e)

  -- Two neighbours that agree, exchanged, or a packet that comes twice, taken once.
  pub data Exchanged : List Bytes → List Bytes → Type 0 where
    here :
        {p q : Bytes} {rest : List Bytes}
        → Agree a p q
        → Exchanged (p ∷ (q ∷ rest)) (q ∷ (p ∷ rest))
    again : {p : Bytes} {rest : List Bytes} → Exchanged (p ∷ (p ∷ rest)) (p ∷ rest)
    there : {p : Bytes} {ps qs : List Bytes} → Exchanged ps qs → Exchanged (p ∷ ps) (p ∷ qs)

  pub picture-Exchanged :
      (fill : Bytes) {ps qs : List Bytes}
      → length fill ≡ picture_size a
      → Exchanged ps qs
      → picture a ps fill ≡ picture a qs fill
  picture-Exchanged fill e (here {p} {q} {rest} agree) =
      ap (picture a rest) (paint_comm p q fill e agree)
  picture-Exchanged fill e (again {p} {rest}) = ap (picture a rest) (paint_again p fill e)
  picture-Exchanged fill e (there {p} x) =
      picture-Exchanged (paint a p fill) (length-paint p fill e) x

  -- The packets that have arrived, up to the order of those that agree and to repetitions.
  abbrev pub Arrived : Type 0
  Arrived = Quot Exchanged

  abbrev pub arrived : List Bytes → Arrived
  arrived = Quot.mk

  -- The picture of what has arrived.
  unfoldable pub shown : (fill : Bytes) → length fill ≡ picture_size a → Arrived → Bytes
  shown fill e =
      Quot.lift (hlevel) (λ pkts. picture a pkts fill) (λ ps qs x. picture-Exchanged fill e x)

  AllAgree-perm : (p : Bytes) {xs ys : List Bytes} → Permᴰ xs ys → AllAgree a p xs → AllAgree a p ys
  AllAgree-perm p Permᴰ.nil h = tt
  AllAgree-perm p (Permᴰ.cons e perm) (h, hs) = (subst (Agree a p) e h, AllAgree-perm p perm hs)
  AllAgree-perm p (Permᴰ.swap e e') (h, (h', hs)) =
      (subst (Agree a p) e' h', (subst (Agree a p) e h, hs))
  AllAgree-perm p (Permᴰ.trans perm perm') h = AllAgree-perm p perm' (AllAgree-perm p perm h)

  PairwiseAgree-perm : {xs ys : List Bytes} → Permᴰ xs ys → PairwiseAgree a xs → PairwiseAgree a ys
  PairwiseAgree-perm Permᴰ.nil h = tt
  PairwiseAgree-perm (Permᴰ.cons {a = x} {l₂ = ys} e perm) (h, hs) =
      (subst (λ p. AllAgree a p ys) e (AllAgree-perm x perm h), PairwiseAgree-perm perm hs)
  PairwiseAgree-perm (Permᴰ.swap {a = x} {b = y} {b' = x'} {l} e e') ((h, hs), (h', hs')) = (
    (
      subst (λ y'. Agree a y' x') e' (subst (Agree a y) e (Agree-sym x y h)),
      subst (λ y'. AllAgree a y' l) e' h',
    ),
    (subst (λ x'. AllAgree a x' l) e hs, hs'),
  )
  PairwiseAgree-perm (Permᴰ.trans perm perm') h =
      PairwiseAgree-perm perm' (PairwiseAgree-perm perm h)

  -- One packet before the others.
  unfoldable pub put : Bytes → Arrived → Arrived
  put p = Quot.lift Quot-set (λ xs. arrived (p ∷ xs)) (λ xs ys x. Quot.sound (there x))

  pub arrived_cons :
      (p : Bytes) {xs ys : List Bytes}
      → arrived xs ≡ arrived ys
      → arrived (p ∷ xs) ≡ arrived (p ∷ ys)
  unfolding put
  arrived_cons p e = ap (put p) e

  pub arrived-perm :
      {xs ys : List Bytes} → Permᴰ xs ys → PairwiseAgree a xs → arrived xs ≡ arrived ys
  arrived-perm Permᴰ.nil h = refl
  arrived-perm (Permᴰ.cons {a = x} {l₂ = ys} e perm) (h, hs) =
      arrived_cons x (arrived-perm perm hs) ∙ ap (λ y. arrived (y ∷ ys)) e
  arrived-perm (Permᴰ.swap {a = x} {b = y} {a' = y'} {l} e e') ((h, hs), rest) =
      Quot.sound (here h)
      ∙ ap (λ y'. arrived (y' ∷ (x ∷ l))) e'
      ∙ ap (λ x'. arrived (y' ∷ (x' ∷ l))) e
  arrived-perm (Permᴰ.trans perm perm') h =
      arrived-perm perm h ∙ arrived-perm perm' (PairwiseAgree-perm perm h)
