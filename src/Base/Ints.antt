-- ===== src/Base/Ints.antt =====
-- Signed integers over the native numbers, and `int64_t` as C computes with it.
use Prim.Native.Nat.{ℕ, suc, ◌+◌, ◌-◌, ◌^◌}
use obs_st.Base.Word.{ltb, leb, if◌then◌else◌}
use obs_st.Base.Memory.{Exec, ok, fault}

-- `negsuc n` is -(n + 1).
pub data ℤ : Type 0 where
  pos : ℕ → ℤ
  negsuc : ℕ → ℤ

-- a - b, as an integer.
abbrev pub sub_ℕ : ℕ → ℕ → ℤ
sub_ℕ a b = if leb b a then pos (a - b) else negsuc (b - a - 1)

abbrev pub pos_part : ℤ → ℕ
pos_part (pos n) = n
pos_part (negsuc n) = 0

abbrev pub neg_part : ℤ → ℕ
neg_part (pos n) = 0
neg_part (negsuc n) = suc n

infixl 65 ◌-ℤ◌
abbrev pub ◌-ℤ◌ : ℤ → ℤ → ℤ
a -ℤ b = sub_ℕ (pos_part a + neg_part b) (neg_part a + pos_part b)

abbrev pub abs : ℤ → ℕ
abs (pos n) = n
abs (negsuc n) = suc n

-- `(int64_t)w` for a word of 64 bits.
abbrev pub to_int64 : ℕ → ℤ
to_int64 w = if ltb w (2 ^ 63) then pos w else negsuc (2 ^ 64 - w - 1)

-- The result of signed arithmetic: an overflow is undefined.
abbrev pub int64 : ℤ → Exec ℤ
int64 (pos n) = if ltb n (2 ^ 63) then ok (pos n) else fault
int64 (negsuc n) = if ltb n (2 ^ 63) then ok (negsuc n) else fault
