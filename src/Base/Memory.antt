-- ===== src/Base/Memory.antt =====
-- Execution that a wild access stops, and the C library's calls on memory.
-- A buffer is the list of its bytes. NULL and a freed block are the empty buffer, at which every
-- access faults.
use Prim.Native.Nat.{ℕ, zero, suc, ◌+◌, ◌-◌, ◌≤◌, ◌<◌}
use mathlib.Core.Path.{◌≡◌, refl, ap, ◌∙◌}
use mathlib.Core.Bool.{Bool, true, ◌&&◌}
use mathlib.Core.List.{List, [], ◌∷◌, ◌++◌, append-nil}
use mathlib.Core.Option.{none, some}
use native.Mathlib.Omega.{arith}
use obs_st.Base.Word.{ltb, leb, if◌then◌else◌}
use obs_st.Base.Lists.{
  length, get_elem?, get_or, take, drop, replicate, length-append, length-take, length-drop,
  get_elem?-eq-get_or, get_or-append_left, get_or-append_right, get_or-take, get_or-drop, set, set,
}

abbrev pub Bytes : Type 0
Bytes = List ℕ

pub data Exec {ℓ} (A : Type ℓ) : Type ℓ where
  ok : A → Exec A
  fault : Exec A

infixl 5 ◌>>=◌ ◌>>◌
abbrev pub ◌>>=◌ {ℓ κ} : {A : Type ℓ} {B : Type κ} → Exec A → (A → Exec B) → Exec B
ok a >>= f = f a
fault >>= f = fault

abbrev pub ◌>>◌ {ℓ κ} : {A : Type ℓ} {B : Type κ} → Exec A → Exec B → Exec B
m >> k = m >>= λ _. k

-- What `r` returns satisfies `P`; a fault does not return.
abbrev pub Returns {ℓ κ} : {A : Type ℓ} → Exec A → (A → Type κ) → Type (ℓ ⊔ κ)
Returns {A} r P = (a : A) × (r ≡ ok a) × P a

-- `b[i]`
unfoldable pub byte : Bytes → ℕ → Exec ℕ
byte b i = elim (get_elem? b i) [ none ↦ fault | some x ↦ ok x ]

pub byte-eq-ok : (b : Bytes) (i : ℕ) → i < length b → byte b i ≡ ok (get_or b i 0)
unfolding byte
byte-eq-ok b i h = rw (byte, get_elem?-eq-get_or b i 0 h)

-- `b[i] = v`
unfoldable pub store : Bytes → ℕ → ℕ → Exec Bytes
store b i v = if ltb i (length b) then ok (set b i v) else fault

pub store-eq-ok : (b : Bytes) (i v : ℕ) → i < length b → store b i v ≡ ok (set b i v)
unfolding store
store-eq-ok b i v h = ground arith

-- `calloc` of n bytes, where the system grants the block or not.
abbrev pub calloc : Bool → ℕ → Bytes
calloc granted n = if granted then replicate n 0 else []

leb_refl : (n : ℕ) → leb n n ≡ true
leb_refl n = ground arith

drop-length {ℓ} : {A : Type ℓ} (xs : List A) → drop (length xs) xs ≡ []
drop-length [] = refl
drop-length (x ∷ xs) = drop-length xs

-- `memset(b, 0, n)`
unfoldable pub memset_zero : Bytes → ℕ → Exec Bytes
memset_zero b n = if leb n (length b) then ok (replicate n 0 ++ drop n b) else fault

-- `dst` with the n bytes of `src` from `from` on stored from `at` on.
unfoldable pub splice : Bytes → ℕ → Bytes → ℕ → ℕ → Bytes
splice dst at src from n = take at dst ++ (take n (drop from src) ++ drop (at + n) dst)

-- `memcpy(dst + at, src + from, n)` between blocks that do not overlap.
unfoldable pub memcpy : Bytes → ℕ → Bytes → ℕ → ℕ → Exec Bytes
unfolding splice
memcpy dst at src from n =
    if leb (at + n) (length dst) && leb (from + n) (length src)
    then ok (splice dst at src from n)
    else fault

pub memset_zero-eq-ok : (b : Bytes) → memset_zero b (length b) ≡ ok (replicate (length b) 0)
unfolding memset_zero
memset_zero-eq-ok b =
    rw (leb_refl (length b), drop-length b, append-nil {A = ℕ} (replicate (length b) 0))

pub memcpy-eq-ok :
    (dst : Bytes) (at : ℕ) (src : Bytes) (from n : ℕ)
    → at + n ≤ length dst
    → from + n ≤ length src
    → memcpy dst at src from n ≡ ok (splice dst at src from n)
unfolding memcpy
memcpy-eq-ok dst at src from n p q = ground arith

module _ (dst : Bytes) (at : ℕ) (src : Bytes) (from n : ℕ) (room : at + n ≤ length dst)
    (have : from + n ≤ length src) where
  length-middle : length (take n (drop from src)) ≡ n
  length-middle = omega (arith, length-take n (drop from src), length-drop from src)

  length-front : length (take at dst) ≡ at
  length-front = omega (arith, length-take at dst)

  pub length-splice : length (splice dst at src from n) ≡ length dst
  unfolding splice
  length-splice = omega (
    arith,
    length-append (take at dst) (take n (drop from src) ++ drop (at + n) dst),
    length-append (take n (drop from src)) (drop (at + n) dst),
    length-middle,
    length-front,
    length-drop (at + n) dst,
  )

  pub splice_below : (j : ℕ) → j < at → get_or (splice dst at src from n) j 0 ≡ get_or dst j 0
  unfolding splice
  splice_below j h =
      get_or-append_left (take at dst) _ j 0 (omega (arith, length-front))
      ∙ get_or-take at dst j 0 h

  pub splice_inside :
      (i : ℕ) → i < n → get_or (splice dst at src from n) (at + i) 0 ≡ get_or src (from + i) 0
  unfolding splice
  splice_inside i h =
      get_or-append_right (take at dst) _ i (at + i) 0 (omega (arith, length-front))
      ∙ get_or-append_left (take n (drop from src)) _ i 0 (omega (arith, length-middle))
      ∙ get_or-take n (drop from src) i 0 h
      ∙ get_or-drop from src i (from + i) 0 refl

  pub splice_above : (j : ℕ) → at + n ≤ j → get_or (splice dst at src from n) j 0 ≡ get_or dst j 0
  unfolding splice
  splice_above j h =
      get_or-append_right (take at dst) _ (j - at) j 0 (omega (arith, length-front))
      ∙ get_or-append_right (take n (drop from src)) _ (j - (at + n)) (j - at) 0
          (omega (arith, length-middle))
      ∙ get_or-drop (at + n) dst (j - (at + n)) j 0 (omega arith)

-- Every entry is an octet.
abbrev pub IsBytes : Bytes → Type 0
IsBytes [] = Unit
IsBytes (x ∷ xs) = (x < 256) × IsBytes xs

pub get_or-IsByte : (b : Bytes) (i : ℕ) → IsBytes b → get_or b i 0 < 256
get_or-IsByte [] i h = omega arith
get_or-IsByte (x ∷ xs) zero h = h.0
get_or-IsByte (x ∷ xs) (suc i) h = get_or-IsByte xs i h.1

-- The rule of a bind for what it returns.
pub Returns-bind {ℓ κ ι μ} :
    {A : Type ℓ} {B : Type κ} {P : A → Type ι} {Q : B → Type μ} {m : Exec A} {f : A → Exec B}
    → Returns m P
    → ((a : A) → P a → Returns (f a) Q)
    → Returns (m >>= f) Q
Returns-bind {f} r next = let (b, e, q) = next r.0 r.2 in (b, ap (λ m. m >>= f) r.1 ∙ e, q)

pub IsBytes-append : (a b : Bytes) → IsBytes a → IsBytes b → IsBytes (a ++ b)
IsBytes-append [] b p q = q
IsBytes-append (x ∷ xs) b p q = (p.0, IsBytes-append xs b p.1 q)

pub IsBytes-take : (n : ℕ) (b : Bytes) → IsBytes b → IsBytes (take n b)
IsBytes-take zero b p = tt
IsBytes-take (suc n) [] p = tt
IsBytes-take (suc n) (x ∷ xs) p = (p.0, IsBytes-take n xs p.1)

pub IsBytes-drop : (n : ℕ) (b : Bytes) → IsBytes b → IsBytes (drop n b)
IsBytes-drop zero b p = p
IsBytes-drop (suc n) [] p = tt
IsBytes-drop (suc n) (x ∷ xs) p = IsBytes-drop n xs p.1

pub IsBytes-replicate : (n : ℕ) → IsBytes (replicate n 0)
IsBytes-replicate zero = tt
IsBytes-replicate (suc n) = (omega arith, IsBytes-replicate n)

pub IsBytes-splice :
    (dst : Bytes) (at : ℕ) (src : Bytes) (from n : ℕ)
    → IsBytes dst
    → IsBytes src
    → IsBytes (splice dst at src from n)
unfolding splice
IsBytes-splice dst at src from n p q = IsBytes-append (take at dst) _ (IsBytes-take at dst p) (
    IsBytes-append (take n (drop from src)) _ (IsBytes-take n _ (IsBytes-drop from src q))
      (IsBytes-drop (at + n) dst p))

module _ {ℓ κ} {A : Type ℓ} {B : Type κ} where
  pub bind_ext : (m : Exec A) (f g : A → Exec B) → ((a : A) → f a ≡ g a) → (m >>= f) ≡ (m >>= g)
  bind_ext (ok a) f g h = h a
  bind_ext fault f g h = refl

  pub bind_assoc {μ} :
      {C : Type μ} (m : Exec A) (f : A → Exec B) (g : B → Exec C)
      → ((m >>= f) >>= g) ≡ (m >>= λ a. f a >>= g)
  bind_assoc (ok a) f g = refl
  bind_assoc fault f g = refl
