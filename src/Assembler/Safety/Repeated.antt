-- ===== src/Assembler/Safety/Repeated.antt =====
-- Packets of one frame that come more than once.
use mathlib.Core.Quot
use obs_st.Base.{refl, [], inr, List, Bytes, ◌∷◌, ◌≡◌, ◌∙◌}
use obs_st.Assembler.{Assembler}
use obs_st.Assembler.Safety.Order.{AllAgree, PairwiseAgree, arrived, Agree, arrived_cons, again}

-- The second list has each packet of the first one once or more often, in a row.
pub data Repeated : List Bytes → List Bytes → Type 0 where
  no_packet : Repeated [] []
  once : {p : Bytes} {xs ys : List Bytes} → Repeated xs ys → Repeated (p ∷ xs) (p ∷ ys)
  more_often :
      {p : Bytes} {xs ys : List Bytes}
      → Repeated (p ∷ xs) (p ∷ ys)
      → Repeated (p ∷ xs) (p ∷ (p ∷ ys))

module _ (a : Assembler) where
  AllAgree-Repeated :
      (p : Bytes) {xs ys : List Bytes} → Repeated xs ys → AllAgree a p xs → AllAgree a p ys
  AllAgree-Repeated p no_packet h = tt
  AllAgree-Repeated p (once r) (h, hs) = (h, AllAgree-Repeated p r hs)
  AllAgree-Repeated p (more_often r) (h, hs) = (h, AllAgree-Repeated p r (h, hs))

  pub PairwiseAgree-Repeated :
      {xs ys : List Bytes} → Repeated xs ys → PairwiseAgree a xs → PairwiseAgree a ys
  PairwiseAgree-Repeated no_packet h = tt
  PairwiseAgree-Repeated (once {p} r) (h, hs) =
      (AllAgree-Repeated p r h, PairwiseAgree-Repeated r hs)
  PairwiseAgree-Repeated (more_often {p} r) (h, hs) =
      let self : Agree a p p = λ j. inr (inr refl) in
      (AllAgree-Repeated p r (self, h), PairwiseAgree-Repeated r (h, hs))

  pub arrived-Repeated : {xs ys : List Bytes} → Repeated xs ys → arrived a ys ≡ arrived a xs
  arrived-Repeated no_packet = refl
  arrived-Repeated (once {p} r) = arrived_cons a p (arrived-Repeated r)
  arrived-Repeated (more_often r) = Quot.sound again ∙ arrived-Repeated r
