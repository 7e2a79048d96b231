-- ===== src/Receiver/Priming.antt =====
-- The first postings of the receive loop of Windows.
use obs_st.Base.{
  ℕ, zero, suc, refl, ◌+◌, ◌<◌, ◌≡◌, arith, true, false, some, ◌∷◌, ok, set, get_elem?, ap, Returns,
  inr, inl, ◌++◌, replicate, ◌⊎◌,
}
use obs_st.Receiver.Completions.{
  inline, pending, refused, Pool, Posting, refused, rx_iocp_post, prime,
}
use obs_st.Types.{Rc, failure, success}

-- The pool while buffer i is posted for the first time.
abbrev primed : ℕ → ℕ → Pool
primed i left = replicate i true ++ replicate left false

primed_here : (i left : ℕ) → get_elem? (primed i (suc left)) i ≡ some false
primed_here zero left = refl
primed_here (suc i) left = primed_here i left

primed_next : (i left : ℕ) → set (primed i (suc left)) i true ≡ primed (suc i) left
primed_next zero left = refl
primed_next (suc i) left = ap (◌∷◌ true) (primed_next i left)

primed_done : (i : ℕ) → primed i 0 ≡ replicate i true
primed_done zero = refl
primed_done (suc i) = ap (◌∷◌ true) (primed_done i)

post_cases :
    (pool : Pool) (i : ℕ) (answer : Posting)
    → get_elem? pool i ≡ some false
    → ((answer ≡ refused) × (rx_iocp_post pool i answer ≡ ok (pool, failure)))
      ⊎ (rx_iocp_post pool i answer ≡ ok (set pool i true, success))
unfolding rx_iocp_post
post_cases pool i inline e = inr (ground arith)
post_cases pool i pending e = inr (ground arith)
post_cases pool i refused e = inl (refl, ground arith)

-- How the first loop ends: all buffers are with the system, or one was refused.
abbrev pub Primes : (ℕ → Posting) → ℕ → Pool × Rc → Type 0
Primes answers n r =
    ((r.1 ≡ success) × (r.0 ≡ replicate n true))
    ⊎ ((r.1 ≡ failure) × ((j : ℕ) × (j < n) × (answers j ≡ refused)))

pub prime-Primes :
    (answers : ℕ → Posting) (left i n : ℕ)
    → i + left ≡ n
    → Returns (prime answers left i (primed i left)) (Primes answers n)
unfolding prime
prime-Primes answers zero i n e =
    let same : i ≡ n = omega arith in (_, refl, inl (refl, rw (← same) (primed_done i)))
prime-Primes answers (suc left) i n e =
    elim (post_cases (primed i (suc left)) i (answers i) (primed_here i left)) [
      | inl (e', posted) ↦ rw posted (_, refl, inr (refl, (i, omega arith, e')))
      | inr posted ↦
          let e1 : i + 1 ≡ suc i = omega arith in
          rw (posted, e1, primed_next i left) (prime-Primes answers left (suc i) n (omega arith))
    ]
