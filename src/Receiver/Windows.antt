-- ===== src/Receiver/Windows.antt =====
-- The receive loop of Windows over everything that completes.
use obs_st.Base.{
  ℕ, refl, ◌+◌, ◌<◌, ◌≡◌, true, some, List, Returns, inr, inl, Returns-bind, subst, sym, ◌∙◌,
  replicate, ◌⊎◌,
}
use obs_st.Receiver.Completions.{
  refused, serve_primed, Pool, Posting, refused, Entry, Work, Dequeue, num_buffers,
  receive_completions,
}
use obs_st.Stats.{Floats}
use obs_st.Types.{Config, FrameCb, Rc, failure, success}
use obs_st.Receiver.Stream.{Accepts}
use obs_st.Receiver.Loop.{HasServed}
use obs_st.Receiver.{Rx}
use obs_st.Receiver.Pool.{Completes, in_flight, dropped_count, stored_count, in_flight-pool_after}
use obs_st.Receiver.Completing.{handled, complete_all-Served, dequeue_loop-eq-complete_all}
use obs_st.Receiver.Priming.{Primes, prime-Primes}

module _ {κ} {F : Floats} {X : Type 0} (config : Config X) (frame_cb : FrameCb X)
    (is_cb : config.frame_cb ≡ some frame_cb) (K : X → Type κ)
    (accepts : Accepts config frame_cb K) where
  -- The thread served n packets more than `before`, and each buffer is with the system but those whose
  -- posting was refused, or left off at the end.
  pub record HasCompleted (before n : ℕ) (entries : List Entry) (w : Work F X) : Type κ where
    pub last_us : ℕ
    pub served : HasServed config frame_cb is_cb K accepts before last_us n (w.rx, w.user)
    pub buffers : in_flight w.pool + dropped_count entries ≡ num_buffers

  serve_primed-HasCompleted :
      (answers : ℕ → Posting) (calls : List Dequeue) (rx : Rx F X) (user : X) (before t n : ℕ)
      → HasServed config frame_cb is_cb K accepts before t n (rx, user)
      → Completes t (replicate num_buffers true) (handled calls)
      → (r : Pool × Rc) → Primes answers num_buffers r
      → Returns (serve_primed F calls rx user r) (λ w.
        HasCompleted before (stored_count (handled calls) + n) (handled calls) w
        ⊎ ((w.rx ≡ rx) × (w.user ≡ user) × ((j : ℕ) × (j < num_buffers) × (answers j ≡ refused))))
  unfolding serve_primed
  serve_primed-HasCompleted answers calls rx user before t n h promise (pool, failure) (inl bad) =
      absurd (cc)
  serve_primed-HasCompleted answers calls rx user before t n h promise (pool, failure) (inr which) =
      (_, refl, inr (refl, refl, which.1))
  serve_primed-HasCompleted answers calls rx user before t n h promise (pool, success) (inr bad) =
      absurd (cc)
  serve_primed-HasCompleted answers calls rx user before t n h promise (pool, success) (inl full) =
      let w : Work F X = record { rx = rx; user = user; pool = pool } in
      let (w', e, ((t', served), after)) =
        complete_all-Served config frame_cb is_cb K accepts before (handled calls) w t n h
          (subst (λ p. Completes t p (handled calls)) (sym full.1) promise) in
      (
        w',
        dequeue_loop-eq-complete_all calls w ∙ e,
        inl (record {
          last_us = t';
          served = served;
          buffers =
              rw (after, full.1)
                (in_flight-pool_after t (replicate num_buffers true) (handled calls) promise);
        }),
      )

  -- The receive thread of Windows, whatever the system answers to the postings, for completions of posted
  -- buffers with octets, at moments that do not run backwards: it returns, with no access out of
  -- bounds and no buffer posted twice. Either the first postings succeed, and it serves every datagram
  -- that it dequeues while the receiver runs, and of the 64 buffers only those are not with the system
  -- whose posting was refused or left off; or one of the first postings is refused, and it ends with
  -- the receiver as it was.
  pub receive_completions-HasCompleted :
      (answers : ℕ → Posting) (calls : List Dequeue) (rx : Rx F X) (user : X) (before t n : ℕ)
      → HasServed config frame_cb is_cb K accepts before t n (rx, user)
      → Completes t (replicate num_buffers true) (handled calls)
      → Returns (receive_completions F answers calls rx user) (λ w.
        HasCompleted before (stored_count (handled calls) + n) (handled calls) w
        ⊎ ((w.rx ≡ rx) × (w.user ≡ user) × ((j : ℕ) × (j < num_buffers) × (answers j ≡ refused))))
  unfolding receive_completions
  receive_completions-HasCompleted answers calls rx user before t n h promise =
      Returns-bind (prime-Primes answers num_buffers 0 num_buffers refl)
        (serve_primed-HasCompleted answers calls rx user before t n h promise)
