-- ===== src/Sender/Payloads.antt =====
-- What the datagrams of the test sender carry, put together.
use mathlib.Core.List.{append_assoc}
use obs_st.Base.{
  refl, [], zero, suc, List, ℕ, Bytes, drop, ◌++◌, ◌+◌, ◌∷◌, ◌≤◌, length, ◌<◌, ◌≡◌, ap, arith, take,
  length-drop, ◌*◌, ◌∙◌, sym, ◌-◌, ap₂, u32,
}
use obs_st.Sender.Sending.{Network, Picture}
use obs_st.Sender.Segment.{Fits, seg_of}
use obs_st.Sender.Lines.{IsLine}

-- The octets behind the headers, in the order of the datagrams.
abbrev pub payloads : List Bytes → Bytes
payloads [] = []
payloads (d ∷ rest) = drop 18 d ++ payloads rest

pub payloads-append : (xs ys : List Bytes) → payloads (xs ++ ys) ≡ payloads xs ++ payloads ys
payloads-append [] ys = refl
payloads-append (d ∷ xs) ys =
    ap (λ rest. drop 18 d ++ rest) (payloads-append xs ys)
    ∙ sym (append_assoc (drop 18 d) (payloads xs) (payloads ys))

take-append-take :
    (m n : ℕ) (xs : Bytes) → m ≤ length xs → take m xs ++ take n (drop m xs) ≡ take (m + n) xs
take-append-take zero n xs h = let e : 0 + n ≡ n = omega arith in rw e refl
take-append-take (suc m) n [] h = absurd (omega arith)
take-append-take (suc m) n (x ∷ xs) h =
    let e : suc m + n ≡ suc (m + n) = omega arith in
    rw e (ap (λ ys. x ∷ ys) (take-append-take m n xs (omega arith)))

drop-nil : (n : ℕ) → drop {A = ℕ} n [] ≡ []
drop-nil zero = refl
drop-nil (suc n) = refl

drop-drop : (m n : ℕ) (xs : Bytes) → drop n (drop m xs) ≡ drop (m + n) xs
drop-drop zero n xs = let e : 0 + n ≡ n = omega arith in rw e refl
drop-drop (suc m) n [] = let e : suc m + n ≡ suc (m + n) = omega arith in rw e (drop-nil n)
drop-drop (suc m) n (x ∷ xs) =
    let e : suc m + n ≡ suc (m + n) = omega arith in rw e (drop-drop m n xs)

-- Two pieces side by side.
pub piece-append :
    (from m n from' k : ℕ) (xs : Bytes)
    → from + m ≤ length xs
    → from' ≡ from + m
    → k ≡ m + n
    → take m (drop from xs) ++ take n (drop from' xs) ≡ take k (drop from xs)
piece-append from m n from' k xs room e e' =
    rw (e, e', ← drop-drop from m xs)
      (take-append-take m n (drop from xs) (omega (arith, length-drop from xs)))

module _ (network : Network) (p : Picture) (ts line : ℕ) (fits : Fits p)
    (line_range : line < p.height) where
  -- The datagrams of a line carry it.
  pub payloads-IsLine :
      (remaining seq : ℕ) (ds : List Bytes)
      → remaining ≤ p.stride
      → IsLine network p ts line remaining seq ds
      → payloads ds ≡ take remaining (drop (line * p.stride + (p.stride - remaining)) p.frame)
  payloads-IsLine remaining seq [] left none_left = rw none_left refl
  payloads-IsLine remaining seq (d ∷ rest) left (is_d, is_rest) =
      let seg = seg_of network p ts line remaining in
      let inside : line * p.stride + p.stride ≤ length p.frame = grind (arith, fits.holds) in
      ap₂ ◌++◌ is_d.payload
        (payloads-IsLine (remaining - seg) (u32 (seq + 1)) rest (omega arith) is_rest)
      ∙ piece-append (line * p.stride + (p.stride - remaining)) seg (remaining - seg)
          (line * p.stride + (p.stride - (remaining - seg))) remaining p.frame
          (omega (arith, inside)) (omega arith) (omega arith)
