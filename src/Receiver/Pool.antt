-- ===== src/Receiver/Pool.antt =====
-- The pool of buffers of Windows: which of them the system has.
use obs_st.Base.{
  ℕ, zero, suc, refl, ◌+◌, ◌<◌, ◌≡◌, arith, Bool, true, false, not, some, length, List, [], ◌∷◌, ok,
  set, get_elem?, ap, ◌&&◌, IsBytes, if◌then◌else◌, ltb, ◌≤◌, ◌^◌,
}
use obs_st.Receiver.Completions.{
  refused, Pool, Posting, refused, rx_iocp_post, Completion, Entry, wakeup, completed, repost,
}

-- The buffers that the system has.
abbrev pub in_flight : Pool → ℕ
in_flight [] = 0
in_flight (true ∷ pool) = 1 + in_flight pool
in_flight (false ∷ pool) = in_flight pool

abbrev pub is_refused : Posting → Bool
is_refused refused = true
is_refused _ = false

-- Whether the buffer of a completion is posted again.
abbrev pub is_kept : Completion → Bool
is_kept c = c.running && not (is_refused c.answer)

-- The pool behind a completion, some entries and some calls.
abbrev pub pool_after : Completion → Pool → Pool
pool_after c pool = set pool c.buffer (is_kept c)

abbrev pub pool_after_all : List Entry → Pool → Pool
pool_after_all [] pool = pool
pool_after_all (wakeup ∷ rest) pool = pool_after_all rest pool
pool_after_all (completed c ∷ rest) pool = pool_after_all rest (pool_after c pool)

set_twice : (pool : Pool) (i : ℕ) (a b : Bool) → set (set pool i a) i b ≡ set pool i b
set_twice [] i a b = refl
set_twice (x ∷ pool) zero a b = refl
set_twice (x ∷ pool) (suc i) a b = ap (◌∷◌ x) (set_twice pool i a b)

get_elem?-set :
    (pool : Pool) (i : ℕ) (a : Bool) → i < length pool → get_elem? (set pool i a) i ≡ some a
get_elem?-set [] i a h = absurd (omega arith)
get_elem?-set (x ∷ pool) zero a h = refl
get_elem?-set (x ∷ pool) (suc i) a h = get_elem?-set pool i a (omega arith)

pub repost-eq-pool :
    (c : Completion) (pool : Pool)
    → c.buffer < length pool
    → repost c (set pool c.buffer false) ≡ ok (pool_after c pool)
unfolding repost rx_iocp_post
repost-eq-pool c pool h =
    ground (arith, get_elem?-set pool c.buffer false, set_twice pool c.buffer false true)

-- What the system promises of its completions from the moment `t` on: a buffer that comes back was
-- posted, holds octets, and is counted at a moment that does not run backwards.
abbrev pub Completes : ℕ → Pool → List Entry → Type 0
Completes t pool [] = Unit
Completes t pool (wakeup ∷ rest) = Completes t pool rest
Completes t pool (completed c ∷ rest) =
    (get_elem? pool c.buffer ≡ some true)
    × IsBytes c.octets
    × (c.transferred ≤ length c.octets)
    × (t ≤ c.now_us)
    × (c.now_us < 2 ^ 63)
    × Completes c.now_us (pool_after c pool) rest

abbrev pub one_if_stored : Completion → ℕ
one_if_stored c = if ltb 0 c.transferred then 1 else 0

-- The completions that hold a datagram, and those whose buffer is not posted again.
abbrev pub stored_count : List Entry → ℕ
stored_count [] = 0
stored_count (wakeup ∷ rest) = stored_count rest
stored_count (completed c ∷ rest) = one_if_stored c + stored_count rest

abbrev pub dropped_count : List Entry → ℕ
dropped_count [] = 0
dropped_count (wakeup ∷ rest) = dropped_count rest
dropped_count (completed c ∷ rest) = (if is_kept c then 0 else 1) + dropped_count rest

pub lt-length :
    (pool : Pool) (i : ℕ) {posted : Bool} → get_elem? pool i ≡ some posted → i < length pool
lt-length [] i e = cc
lt-length (x ∷ pool) zero e = omega arith
lt-length (x ∷ pool) (suc i) e = omega (arith, lt-length pool i e)

in_flight-set :
    (pool : Pool) (i : ℕ) (kept : Bool)
    → get_elem? pool i ≡ some true
    → in_flight (set pool i kept) + (if kept then 0 else 1) ≡ in_flight pool
in_flight-set [] i kept e = cc
in_flight-set (x ∷ pool) zero kept e = ground arith
in_flight-set (true ∷ pool) (suc i) kept e = omega (arith, in_flight-set pool i kept e)
in_flight-set (false ∷ pool) (suc i) kept e = omega (arith, in_flight-set pool i kept e)

-- Only the buffers that are not posted again go missing.
pub in_flight-pool_after :
    (t : ℕ) (pool : Pool) (entries : List Entry)
    → Completes t pool entries
    → in_flight (pool_after_all entries pool) + dropped_count entries ≡ in_flight pool
in_flight-pool_after t pool [] h = omega arith
in_flight-pool_after t pool (wakeup ∷ rest) h = in_flight-pool_after t pool rest h
in_flight-pool_after t pool (completed c ∷ rest) (posted, _, _, _, _, more) = omega (
  arith,
  in_flight-set pool c.buffer (is_kept c) posted,
  in_flight-pool_after c.now_us (pool_after c pool) rest more,
)
