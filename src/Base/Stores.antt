-- ===== src/Base/Stores.antt =====
-- Runs of stores at neighbouring places.
use Prim.Native.Nat.{ℕ, zero, suc, ◌+◌, ◌-◌, ◌≤◌, ◌<◌}
use mathlib.Core.Path.{◌≡◌, refl, ap, ◌∙◌}
use mathlib.Core.List.{[], ◌∷◌}
use native.Mathlib.Omega.{arith}
use obs_st.Base.Lists.{length, get_or, set, length-set, get_or-set_self, get_or-set_ne}
use mathlib.Core.Logic.{◌⊎◌}
unfoldable use native.Mathlib.Decide.{dec_lt}
use obs_st.Base.Memory.{Bytes, Exec, ok, ◌>>=◌, Returns, store, store-eq-ok, IsBytes}

-- `out` is `dst` with n octets written from `at` on, the i-th of them `f i`.
pub record Writes (dst : Bytes) (at n : ℕ) (f : ℕ → ℕ) (out : Bytes) : Type 0 where
  pub same_length : length out ≡ length dst
  pub inside : (i : ℕ) → i < n → get_or out (at + i) 0 ≡ f i
  pub outside : (j : ℕ) → (j < at) ⊎ (at + n ≤ j) → get_or out j 0 ≡ get_or dst j 0

pub Writes-set :
    (dst : Bytes) (at : ℕ) (f : ℕ → ℕ) → at < length dst → Writes dst at 1 f (set dst at (f 0))
Writes-set dst at f room = record {
  same_length = length-set dst at (f 0);
  inside = λ i lt.
      let e : i ≡ 0 = omega arith in
      let e' : at + i ≡ at = omega arith in rw (e', e) (get_or-set_self dst at (f 0) 0 room);
  outside = λ j h. get_or-set_ne dst at j (f 0) 0 (omega arith);
}

-- Two writes side by side are one.
pub Writes-append :
    {dst mid out : Bytes} {at n at' m k : ℕ} {f g h : ℕ → ℕ}
    → at' ≡ at + n
    → k ≡ n + m
    → ((i : ℕ) → i < n → f i ≡ h i)
    → ((i : ℕ) → i < m → g i ≡ h (n + i))
    → Writes dst at n f mid
    → Writes mid at' m g out
    → Writes dst at k h out
Writes-append {out} {at} {n} {at'} {h} e e' left right w w' = record {
  same_length = w'.same_length ∙ w.same_length;
  inside = λ i lt. elim (dec_lt i n) [
    | yes low ↦ w'.outside (at + i) (omega arith) ∙ w.inside i low ∙ left i low
    | no high ↦
        let same : at + i ≡ at' + (i - n) = omega arith in
        let index : n + (i - n) ≡ i = omega arith in
        ap (λ x. get_or out x 0) same
        ∙ w'.inside (i - n) (omega arith)
        ∙ right (i - n) (omega arith)
        ∙ ap h index
  ];
  outside = λ j p. w'.outside j (omega arith) ∙ w.outside j (omega arith);
}

-- `b[at] = x0; b[at + 1] = x1; ...`
unfoldable pub store_all : Bytes → ℕ → Bytes → Exec Bytes
store_all b at [] = ok b
store_all b at (x ∷ xs) = store b at x >>= λ b'. store_all b' (at + 1) xs

get_or-next : (x : ℕ) (xs : Bytes) (i : ℕ) → get_or xs i 0 ≡ get_or (x ∷ xs) (1 + i) 0
get_or-next x xs i = let e : 1 + i ≡ suc i = omega arith in rw e refl

IsBytes-set : (b : Bytes) (i v : ℕ) → IsBytes b → v < 256 → IsBytes (set b i v)
IsBytes-set [] i v h lt = h
IsBytes-set (x ∷ xs) zero v h lt = (lt, h.1)
IsBytes-set (x ∷ xs) (suc i) v h lt = (h.0, IsBytes-set xs i v h.1 lt)

pub store_all-Writes :
    (xs : Bytes) (b : Bytes) (at : ℕ)
    → at + length xs ≤ length b
    → IsBytes b
    → IsBytes xs
    → Returns
        (store_all b at xs)
        (λ out. Writes b at (length xs) (λ i. get_or xs i 0) out × IsBytes out)
unfolding store_all
store_all-Writes [] b at room octets h = (
  b,
  refl,
  (
    record { same_length = refl; inside = λ i lt. absurd (omega arith); outside = λ j p. refl },
    octets,
  ),
)
store_all-Writes (x ∷ xs) b at room octets h =
    let (out, e, (w, out_octets)) =
      store_all-Writes xs (set b at x) (at + 1) (omega (arith, length-set b at x))
        (IsBytes-set b at x octets h.0) h.1 in
    (
      out,
      rw (store-eq-ok b at x (omega arith)) e,
      (
        Writes-append {f = λ i. get_or (x ∷ xs) i 0} {g = λ i. get_or xs i 0} (omega arith)
            (omega arith) (λ i lt. refl) (λ i lt. get_or-next x xs i)
            (Writes-set b at (λ i. get_or (x ∷ xs) i 0) (omega arith)) w,
        out_octets,
      ),
    )
