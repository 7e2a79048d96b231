-- ===== src/Receiver/Completing.antt =====
-- The entries that the receive loop of Windows handles, one after the other.
use obs_st.Base.{
  ℕ, refl, ◌+◌, ◌<◌, ◌≡◌, arith, true, some, length, List, [], ◌∷◌, ap, IsBytes, if◌then◌else◌, ltb,
  ◌≤◌, ◌^◌, Returns, Bool-cases, inr, inl, Returns-bind, subst, ◌++◌, sym, ◌>>=◌, ◌∙◌, bind_ext,
  ◌==◌, bind_assoc,
}
use obs_st.Receiver.Completions.{
  Completion, Entry, wakeup, completed, Work, complete, Dequeue, complete_all, dequeue_loop,
}
use obs_st.Stats.{Floats}
use obs_st.Types.{Config, FrameCb}
use obs_st.Receiver.Stream.{Accepts}
use obs_st.Receiver.Loop.{HasServed, serve}
use obs_st.Receiver.Pool.{
  Completes, one_if_stored, pool_after, stored_count, pool_after_all, repost-eq-pool, lt-length,
}

module _ {κ} {F : Floats} {X : Type 0} (config : Config X) (frame_cb : FrameCb X)
    (is_cb : config.frame_cb ≡ some frame_cb) (K : X → Type κ) (accepts : Accepts config frame_cb K)
    (before : ℕ) where
  abbrev pub Served : ℕ → ℕ → Work F X → Type κ
  Served t n w = HasServed config frame_cb is_cb K accepts before t n (w.rx, w.user)

  complete-Served :
      (c : Completion) (w : Work F X) (t n : ℕ)
      → Served t n w
      → c.buffer < length w.pool
      → IsBytes c.octets
      → c.transferred ≤ length c.octets
      → t ≤ c.now_us
      → c.now_us < 2 ^ 63
      → Returns
          (complete F c w)
          (λ w'. Served c.now_us (one_if_stored c + n) w' × (w'.pool ≡ pool_after c w.pool))
  unfolding complete
  complete-Served c w t n h there octets inside later range =
      elim (Bool-cases (ltb 0 c.transferred)) [
        | inr empty ↦
            rw (empty, repost-eq-pool c w.pool there)
              (
                _,
                refl,
                (
                  record {
                    live = h.live;
                    kept = h.kept;
                    clock = omega (arith, h.clock);
                    packets = omega (arith, h.packets);
                  },
                  refl,
                ),
              )
        | inl stored ↦
            rw (stored, repost-eq-pool c w.pool there)
              (Returns-bind
                (serve config frame_cb is_cb K accepts w.rx w.user c.octets c.transferred c.now_us
                  before t n h octets inside later range)
                λ r h'. (_, refl, (h', refl)))
      ]

  pub complete_all-Served :
      (entries : List Entry) (w : Work F X) (t n : ℕ)
      → Served t n w
      → Completes t w.pool entries
      → Returns (complete_all F entries w) (λ w'.
        ((t' : ℕ) × Served t' (stored_count entries + n) w')
        × (w'.pool ≡ pool_after_all entries w.pool))
  unfolding complete_all
  complete_all-Served [] w t n h promise =
      let e : 0 + n ≡ n = omega arith in (w, refl, ((t, rw e h), refl))
  complete_all-Served (wakeup ∷ rest) w t n h promise = complete_all-Served rest w t n h promise
  complete_all-Served (completed c ∷ rest) w t n h (posted, octets, inside, later, range, more) =
      Returns-bind
        (complete-Served c w t n h (lt-length w.pool c.buffer posted) octets inside later range)
        λ w1 k.
          let (w2, e, ((t', h'), e')) =
            complete_all-Served rest w1 c.now_us (one_if_stored c + n) k.0
              (subst (λ p. Completes c.now_us p rest) (sym k.1) more) in
          let sum : stored_count rest + (one_if_stored c + n)
              ≡ one_if_stored c + stored_count rest + n =
            omega arith in
          (w2, e, ((t', subst (λ m. Served t' m w2) sum h'), e' ∙ ap (pool_after_all rest) k.1))

-- The entries that the loop handles: those of the calls that succeed, until `running` is 0.
abbrev pub handled : List Dequeue → List Entry
handled [] = []
handled (d ∷ rest) =
    if d.running then (if d.succeeded then d.entries ++ handled rest else handled rest) else []

complete_all-append :
    {F : Floats} {X : Type 0} (xs ys : List Entry) (w : Work F X)
    → complete_all F (xs ++ ys) w ≡ (complete_all F xs w >>= complete_all F ys)
unfolding complete_all
complete_all-append [] ys w = refl
complete_all-append (wakeup ∷ xs) ys w = complete_all-append xs ys w
complete_all-append {F} (completed c ∷ xs) ys w =
    bind_ext (complete F c w) (complete_all F (xs ++ ys))
      (λ w'. complete_all F xs w' >>= complete_all F ys) (complete_all-append xs ys)
    ∙ sym (bind_assoc (complete F c w) (complete_all F xs) (complete_all F ys))

nil_of_length : (entries : List Entry) → (length entries == 0) ≡ true → entries ≡ []
nil_of_length [] h = refl
nil_of_length (x ∷ entries) h = absurd (ground arith)

pub dequeue_loop-eq-complete_all :
    {F : Floats} {X : Type 0} (calls : List Dequeue) (w : Work F X)
    → dequeue_loop F calls w ≡ complete_all F (handled calls) w
unfolding dequeue_loop complete_all
dequeue_loop-eq-complete_all {F} [] w = refl
dequeue_loop-eq-complete_all {F} (d ∷ rest) w = elim (Bool-cases d.running) [
  | inr off ↦ rw off refl
  | inl on ↦ elim (Bool-cases d.succeeded) [
    | inr bad ↦ rw (on, bad) (dequeue_loop-eq-complete_all rest w)
    | inl good ↦ elim (Bool-cases (length d.entries == 0)) [
      | inl none_there ↦
          rw (on, good, none_there)
            (let e = nil_of_length d.entries none_there in
              rw e (dequeue_loop-eq-complete_all rest w))
      | inr some_there ↦
          rw (on, good, some_there)
            (bind_ext (complete_all F d.entries w) (dequeue_loop F rest)
                (complete_all F (handled rest)) (dequeue_loop-eq-complete_all rest)
              ∙ sym (complete_all-append d.entries (handled rest) w))
    ]
  ]
]
