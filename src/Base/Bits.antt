-- ===== src/Base/Bits.antt =====
-- `|` of fields that do not overlap, and `&` with a mask of low bits or of one bit, as arithmetic.
use Prim.Native.Nat.{
  ℕ, zero, suc, ◌+◌, ◌-◌, ◌*◌, ◌/◌, ◌%◌, ◌^◌, ◌≤◌, ◌<◌, min, max, bit_and, bit_or, digits,
  bit_and-bitwise, bit_or-bitwise,
}
use mathlib.Core.Path.{◌≡◌, refl, ap, subst, ◌∙◌}
use native.Mathlib.Nat.{pow-suc, one-le-pow, mod-lt, div-add-mod', div-div-eq-div-mul, div-one}
use native.Mathlib.Omega.{arith}

-- More fuel than the number has digits changes nothing.
module _ (z : ℕ → ℕ) (f : ℕ → ℕ → ℕ) where
  digits_enough : (n m a b : ℕ) → a ≤ n → a ≤ m → digits z f n a b ≡ digits z f m a b
  digits_enough zero zero a b p q = refl
  digits_enough zero (suc m) zero b p q = refl
  digits_enough (suc n) zero zero b p q = refl
  digits_enough (suc n) (suc m) zero b p q = refl
  digits_enough zero (suc m) (suc a) b p q = absurd (omega arith)
  digits_enough (suc n) zero (suc a) b p q = absurd (omega arith)
  digits_enough (suc n) (suc m) (suc a) b p q =
      ap (λ t. t * 2 + f (suc a % 2) (b % 2))
        (digits_enough n m (suc a / 2) (b / 2) (omega arith) (omega arith))

zero-and : (b : ℕ) → bit_and 0 b ≡ 0
zero-and b = bit_and-bitwise 0 b

zero-or : (b : ℕ) → bit_or 0 b ≡ b
zero-or b = bit_or-bitwise 0 b

-- The lowest binary digit.
and_digit : (a b : ℕ) → bit_and a b ≡ bit_and (a / 2) (b / 2) * 2 + min (a % 2) (b % 2)
and_digit zero b = omega (arith, zero-and b, zero-and (b / 2))
and_digit (suc a) b = omega (
  arith,
  bit_and-bitwise (suc a) b,
  bit_and-bitwise (suc a / 2) (b / 2),
  digits_enough (λ y. 0) min a (suc a / 2) (suc a / 2) (b / 2) (omega arith) (omega arith),
)

or_digit : (a b : ℕ) → bit_or a b ≡ bit_or (a / 2) (b / 2) * 2 + max (a % 2) (b % 2)
or_digit zero b = omega (arith, zero-or b, zero-or (b / 2))
or_digit (suc a) b = omega (
  arith,
  bit_or-bitwise (suc a) b,
  bit_or-bitwise (suc a / 2) (b / 2),
  digits_enough (λ y. y) max a (suc a / 2) (suc a / 2) (b / 2) (omega arith) (omega arith),
)

and-zero_below : (n a : ℕ) → a ≤ n → bit_and a 0 ≡ 0
and-zero_below n zero h = refl
and-zero_below zero (suc a) h = absurd (omega arith)
and-zero_below (suc n) (suc a) h =
    omega (arith, and_digit (suc a) 0, and-zero_below n (suc a / 2) (omega arith))

or-zero_below : (n a : ℕ) → a ≤ n → bit_or a 0 ≡ a
or-zero_below n zero h = refl
or-zero_below zero (suc a) h = absurd (omega arith)
or-zero_below (suc n) (suc a) h =
    omega (arith, or_digit (suc a) 0, or-zero_below n (suc a / 2) (omega arith))

double_shift : (a k : ℕ) → a * 2 ^ suc k ≡ 2 * (a * 2 ^ k)
double_shift a k = omega (arith, ap (λ (t : ℕ). a * t) (pow-suc 2 k))

-- `(hi << k) | lo` is a sum where `lo` fits k bits.
pub or_fields : (k hi lo : ℕ) → lo < 2 ^ k → bit_or (hi * 2 ^ k) lo ≡ hi * 2 ^ k + lo
or_fields zero hi lo h = ground (arith, or-zero_below hi hi (omega arith))
or_fields (suc k) hi lo h =
    let e : hi * 2 ^ suc k / 2 ≡ hi * 2 ^ k = omega (arith, double_shift hi k) in
    let rest : bit_or (hi * 2 ^ suc k / 2) (lo / 2) ≡ hi * 2 ^ k + lo / 2 =
      rw e (or_fields k hi (lo / 2) (omega (arith, pow-suc 2 k))) in
    omega (arith, or_digit (hi * 2 ^ suc k) lo, double_shift hi k)

-- A mask of the k low bits is the remainder by `2 ^ k`.
and_low_fields : (k hi lo : ℕ) → lo < 2 ^ k → bit_and (hi * 2 ^ k + lo) (2 ^ k - 1) ≡ lo
and_low_fields zero hi lo h =
    omega (arith, and-zero_below (hi * 1 + lo) (hi * 1 + lo) (omega arith))
and_low_fields (suc k) hi lo h =
    let e : (hi * 2 ^ suc k + lo) / 2 ≡ hi * 2 ^ k + lo / 2 = omega (arith, double_shift hi k) in
    let m : (2 ^ suc k - 1) / 2 ≡ 2 ^ k - 1 = omega (arith, pow-suc 2 k, one-le-pow k 2) in
    let rest : bit_and ((hi * 2 ^ suc k + lo) / 2) ((2 ^ suc k - 1) / 2) ≡ lo / 2 =
      rw (e, m) (and_low_fields k hi (lo / 2) (omega (arith, pow-suc 2 k))) in
    omega (
      arith,
      and_digit (hi * 2 ^ suc k + lo) (2 ^ suc k - 1),
      double_shift hi k,
      pow-suc 2 k,
      one-le-pow k 2,
    )

pub and_low : (k a : ℕ) → bit_and a (2 ^ k - 1) ≡ a % 2 ^ k
and_low k a =
    let p : 0 < 2 ^ k = one-le-pow k 2 (omega arith) in
    let fields : bit_and (a / 2 ^ k * 2 ^ k + a % 2 ^ k) (2 ^ k - 1) ≡ a % 2 ^ k =
      and_low_fields k (a / 2 ^ k) (a % 2 ^ k) (mod-lt a p) in
    subst (λ x. bit_and x (2 ^ k - 1) ≡ a % 2 ^ k) (div-add-mod' a (2 ^ k)) fields

and-one : (a : ℕ) → bit_and a 1 ≡ a % 2
and-one a = and_low 1 a

-- A mask of bit k alone keeps that bit.
pub and_bit : (k a : ℕ) → bit_and a (2 ^ k) ≡ a / 2 ^ k % 2 * 2 ^ k
and_bit zero a = rw (and-one a) (omega (arith, div-one a))
and_bit (suc k) a =
    let m : 2 ^ suc k / 2 ≡ 2 ^ k = omega (arith, pow-suc 2 k) in
    let d : a / 2 / 2 ^ k ≡ a / 2 ^ suc k =
      div-div-eq-div-mul a 2 (2 ^ k) ∙ ap (λ t. a / t) (omega (arith, pow-suc 2 k)) in
    let rest : bit_and (a / 2) (2 ^ suc k / 2) ≡ a / 2 ^ suc k % 2 * 2 ^ k =
      rw (m, ← d) (and_bit k (a / 2)) in
    omega (arith, and_digit a (2 ^ suc k), double_shift (a / 2 ^ suc k % 2) k, pow-suc 2 k)

-- `x | lo` is a sum where the k low bits of `x` are clear and `lo` fits them.
pub or_disjoint : (k x lo : ℕ) → x % 2 ^ k ≡ 0 → lo < 2 ^ k → bit_or x lo ≡ x + lo
or_disjoint k x lo clear fits =
    let e : x / 2 ^ k * 2 ^ k ≡ x = omega (arith, div-add-mod' x (2 ^ k)) in
    subst (λ t. bit_or t lo ≡ t + lo) e (or_fields k (x / 2 ^ k) lo fits)
