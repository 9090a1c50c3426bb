-- ===== src/Utility/Pool/Accounts/Steps.antt =====
-- Every step of every thread keeps the accounts of the pool.
use tick_framework.Base.{
  ℤ, ℕ, suc, ◌+◌, ◌≡◌, refl, ap, sym, ◌∙◌, subst, true, List, [], ◌∷◌, ◌++◌, none, some, pos, arith,
  Bool-cases, inl, inr, decrement, length,
}
use tick_framework.Utility.Pool.{
  Conn, Pool, Next, refused, creates, waits, borrows, conns, get_from, get_enter, get_discard,
  get_abort, close, init_list, new_pool,
}
use tick_framework.Utility.Pool.Threads.{
  System, start, proceed, minus, shut, Step, enters, wakes, passes, fails, makes, aborts, recycles,
  closes, Reach, here, next,
}
use tick_framework.Utility.Pool.Accounts.{
  IsAccounted, weigh, one, only, tested, weigh-append, weigh-tested,
}
use tick_framework.Utility.Pool.Accounts.Gets.{get_from-IsAccounted, stays-IsAccounted}
use tick_framework.Utility.Pool.Accounts.Returns.{decrement_pos, lowered, recycles-IsAccounted}

proceed-pool :
    (s : System) (p : Pool) (r : Pool × Next) → proceed (record s { pool = p }) r ≡ proceed s r
unfolding proceed
proceed-pool s p (q, borrows item left) = refl
proceed-pool s p (q, refused) = refl
proceed-pool s p (q, creates) = refl
proceed-pool s p (q, waits) = refl

module _ (s : System) (a : IsAccounted s) where
  module _ (before after : List (Conn × ℕ)) (c : Conn) (left : ℕ)
      (e : s.testing ≡ before ++ (c, left) ∷ after) where
    untested :
        (w : Conn → ℕ) → weigh w (tested s.testing) ≡ w c + weigh w (tested (before ++ after))
    untested w = ap (λ es. weigh w (tested es)) e ∙ weigh-tested w before after c left

    passes-IsAccounted : IsAccounted (record s { testing = before ++ after; lent = c ∷ s.lent })
    unfolding weigh
    passes-IsAccounted = record {
      counted = a.counted ∙ ap pos (omega (arith, untested one));
      bounded = λ same limit. omega (arith, untested one, a.bounded same limit);
      owned = λ d. omega (arith, untested (only d), a.owned d);
    }

    abbrev discarded : System
    discarded = record s { testing = before ++ after; ended = c ∷ s.ended; pool = lowered s.pool }

    discarded-IsAccounted : IsAccounted discarded
    unfolding weigh
    discarded-IsAccounted = record {
      counted = ap decrement a.counted ∙ decrement_pos _ _ (omega (arith, untested one));
      bounded = λ same limit. omega (arith, untested one, a.bounded same limit);
      owned = λ d. omega (arith, untested (only d), a.owned d);
    }

    fails-IsAccounted : IsAccounted (
        proceed
          (record s { testing = before ++ after; ended = c ∷ s.ended })
          (get_discard left s.pool))
    unfolding get_discard
    fails-IsAccounted =
        subst IsAccounted
          (proceed-pool (record s { testing = before ++ after; ended = c ∷ s.ended })
            (lowered s.pool) (get_from left (lowered s.pool)))
          (get_from-IsAccounted discarded discarded-IsAccounted left)

  module _ (n : ℕ) (e : s.creating ≡ suc n) where
    makes-IsAccounted :
        IsAccounted (record s { creating = n; lent = s.made ∷ s.lent; made = suc s.made })
    unfolding weigh
    makes-IsAccounted = record {
      counted = a.counted ∙ ap pos (omega arith);
      bounded = λ same limit. omega (arith, a.bounded same limit);
      owned = λ d. ground (arith, a.owned d);
    }

    aborts-IsAccounted : IsAccounted (record s { creating = n; pool = get_abort s.pool })
    unfolding get_abort
    aborts-IsAccounted = record {
      counted = ap decrement a.counted ∙ decrement_pos _ _ (omega arith);
      bounded = λ same limit. omega (arith, a.bounded same limit);
      owned = a.owned;
    }

  closed-IsAccounted : IsAccounted (record s {
    pool = record (s.pool) { closed = true; idle = [] };
    lost = conns s.pool.idle ++ s.lost;
  })
  unfolding weigh
  closed-IsAccounted =
      let moved = λ (w : Conn → ℕ). weigh-append w (conns s.pool.idle) s.lost in
      record {
        counted = a.counted ∙ ap pos (omega (arith, moved one));
        bounded = λ same limit. omega (arith, moved one, a.bounded same limit);
        owned = λ d. omega (arith, moved (only d), a.owned d);
      }

  closes-IsAccounted : IsAccounted (shut s (close s.pool))
  unfolding close shut minus init_list
  closes-IsAccounted = elim (Bool-cases s.pool.closed) [
    | inl h ↦
        let e : close s.pool ≡ (s.pool, none) = simp (h, close) in
        subst (λ r. IsAccounted (shut s r)) (sym e) a
    | inr h ↦
        let e : close s.pool ≡ (record (s.pool) { closed = true; idle = [] }, some []) =
          simp (h, close) in
        subst (λ r. IsAccounted (shut s r)) (sym e) closed-IsAccounted
  ]

pub Step-IsAccounted : (s t : System) → Step s t → IsAccounted s → IsAccounted t
unfolding get_enter
Step-IsAccounted s t (enters e) a = rw e (get_from-IsAccounted s a (length s.pool.idle))
Step-IsAccounted s t (wakes n w e) a =
    rw e (
      get_from-IsAccounted (record s { waiting = n }) (stays-IsAccounted s a n)
        (length s.pool.idle))
Step-IsAccounted s t (passes before after c left h e) a =
    rw e (passes-IsAccounted s a before after c left h)
Step-IsAccounted s t (fails before after c left h e) a =
    rw e (fails-IsAccounted s a before after c left h)
Step-IsAccounted s t (makes n h e) a = rw e (makes-IsAccounted s a n h)
Step-IsAccounted s t (aborts n h e) a = rw e (aborts-IsAccounted s a n h)
Step-IsAccounted s t (recycles now failed before after c h e) a =
    rw e (recycles-IsAccounted s a now before after c h failed)
Step-IsAccounted s t (closes e) a = rw e (closes-IsAccounted s a)

start-IsAccounted : (max_idle : ℤ) → IsAccounted (start max_idle)
unfolding new_pool weigh
start-IsAccounted max_idle = record {
  counted = refl;
  bounded = λ _ _. omega arith;
  owned = λ c. ground arith;
}

-- In every interleaving of any number of threads that use a new pool: the pool's number is that of
-- the open connections and of those being made, under a positive `MaxIdle` there are at most that
-- many, and each connection ever made is in exactly one place: idle, tested, lent, closed or lost.
pub Reach-IsAccounted : (max_idle : ℤ) {t : System} → Reach (start max_idle) t → IsAccounted t
Reach-IsAccounted max_idle here = start-IsAccounted max_idle
Reach-IsAccounted max_idle (next {t} {u} r step) =
    Step-IsAccounted t u step (Reach-IsAccounted max_idle r)
