-- ===== src/Stats/Clock.antt =====
-- `get_time_us` of libst2110rx/src/rx_stats.c: what the two clocks of the system become.
use obs_st.Base.{ℕ, ◌+◌, ◌*◌, ◌/◌, ◌^◌, ◌<◌, ◌≤◌, ◌≡◌, u64, arith, ◌-◌}

-- What the system says of the time: the performance counter and its frequency, which is not 0, on
-- Windows, and `CLOCK_MONOTONIC` on POSIX.
pub data Reading : Type 0 where
  counter : (count freq : ℕ) → Reading
  timespec : (tv_sec tv_nsec : ℕ) → Reading

unfoldable pub get_time_us : Reading → ℕ
get_time_us (counter count freq) = u64 (count * 1000000) / freq
get_time_us (timespec tv_sec tv_nsec) = u64 (u64 (tv_sec * 1000000) + tv_nsec / 1000)

-- Readings whose microseconds fit: on Windows the product of 64 bits does not wrap around, on POSIX
-- the seconds have 43 bits.
abbrev pub IsInRange : Reading → Type 0
IsInRange (counter count freq) = (1 < freq) × (count * 1000000 < 2 ^ 64)
IsInRange (timespec tv_sec tv_nsec) = (tv_sec < 2 ^ 43) × (tv_nsec < 1000000000)

-- Readings of one clock, the second one not before the first.
pub data IsLater : Reading → Reading → Type 0 where
  counts :
      {count count' freq : ℕ} → count ≤ count' → IsLater (counter count freq) (counter count' freq)
  same_second :
      {tv_sec tv_nsec tv_nsec' : ℕ}
      → tv_nsec ≤ tv_nsec'
      → IsLater (timespec tv_sec tv_nsec) (timespec tv_sec tv_nsec')
  next_second :
      {tv_sec tv_nsec tv_sec' tv_nsec' : ℕ}
      → tv_sec < tv_sec'
      → IsLater (timespec tv_sec tv_nsec) (timespec tv_sec' tv_nsec')

div-le-div : (a b d : ℕ) → a ≤ b → 0 < d → a / d ≤ b / d
div-le-div a b d h p = grind arith

halved : (a d : ℕ) → a < 2 ^ 64 → 1 < d → a / d < 2 ^ 63
halved a d h p = grind arith

-- On both platforms get_time_us turns readings in range of one clock, one not before the other, into
-- microseconds that do not run backwards and stay below 2 ^ 63.
pub get_time_us-IsOrdered :
    {r r' : Reading}
    → IsLater r r'
    → IsInRange r
    → IsInRange r'
    → (get_time_us r ≤ get_time_us r') × (get_time_us r' < 2 ^ 63)
unfolding get_time_us
get_time_us-IsOrdered (counts {count} {count'} {freq} later) (p, q) (p', q') =
    let e : u64 (count * 1000000) ≡ count * 1000000 = omega arith in
    let e' : u64 (count' * 1000000) ≡ count' * 1000000 = omega arith in
    rw (e, e')
      (
        div-le-div (count * 1000000) (count' * 1000000) freq (omega arith) (omega arith),
        halved (count' * 1000000) freq q' p',
      )
get_time_us-IsOrdered (same_second later) r r' = omega arith
get_time_us-IsOrdered (next_second later) r r' = omega arith

below : (x y d : ℕ) → x + d ≤ y → 0 < d → x / d < y / d
below x y d h p = grind arith

-- On Windows, where the counter's product with a million reaches 2 ^ 64 between two readings that are
-- not too far apart, the second time is before the first one.
pub counter-Wraps :
    (count later freq : ℕ)
    → 0 < freq
    → count * 1000000 < 2 ^ 64
    → 2 ^ 64 ≤ later * 1000000
    → (later - count) * 1000000 + freq ≤ count * 1000000
    → get_time_us (counter later freq) < get_time_us (counter count freq)
unfolding get_time_us
counter-Wraps count later freq p h w soon =
    let e : u64 (count * 1000000) ≡ count * 1000000 = omega arith in
    rw e (below (u64 (later * 1000000)) (count * 1000000) freq (omega arith) p)
