-- ===== src/Utility/Pool/Accounts/Returns.antt =====
-- What `Put` and `Remove` of the pool make of the accounts.
use tick_framework.Base.{
  is_below, ℕ, suc, ◌+◌, ◌≡◌, refl, ap, sym, ◌∙◌, subst, Bool, true, false, List, [], ◌∷◌, ◌++◌,
  none, some, pos, arith, Bool-cases, Option-cases, inl, inr, decrement, ◌⊎◌, length,
}
use tick_framework.Utility.Pool.{
  Conn, Pool, IdleItem, pool_closed, returns, conns, split_back, trim_back, put, remove, recycle,
}
use tick_framework.Utility.Pool.Threads.{System, give_back}
use tick_framework.Utility.Pool.Accounts.{IsAccounted, weigh, one, only, weigh-middle}

pub decrement_pos : (n m : ℕ) → n ≡ suc m → decrement (pos n) ≡ pos m
decrement_pos n m e = ap (λ k. decrement (pos k)) e

-- The pool after a decrement of its number.
abbrev pub lowered : Pool → Pool
lowered p = record p { idle_num = decrement p.idle_num }

split_back-none : (es : List IdleItem) → split_back es ≡ none → es ≡ []
unfolding split_back
split_back-none [] e = refl
split_back-none (x ∷ es) e = ground arith

split_back-weigh :
    (w : Conn → ℕ) (es : List IdleItem) (last : IdleItem) (rest : List IdleItem)
    → split_back es ≡ some (last, rest)
    → weigh w (conns es) ≡ w last.idle_conn + weigh w (conns rest)
unfolding split_back weigh
split_back-weigh w [] last rest e = cc
split_back-weigh w (x ∷ es) last rest e = elim (Option-cases (split_back es)) [
  | inl h ↦ ground (arith, h, split_back-none es h)
  | inr ((l, r), h) ↦ ground (arith, h, split_back-weigh w es l r h)
]

module _ (s : System) (a : IsAccounted s) where
  module _ (now : ℕ) (before after : List Conn) (c : Conn) (e : s.lent ≡ before ++ c ∷ after) where
    abbrev pub returned : System
    returned = record s { lent = before ++ after }

    unlent : (w : Conn → ℕ) → weigh w s.lent ≡ w c + weigh w (before ++ after)
    unlent w = ap (weigh w) e ∙ weigh-middle w before after c

    lost-IsAccounted : IsAccounted (record returned { lost = c ∷ s.lost })
    unfolding weigh
    lost-IsAccounted = record {
      counted = a.counted ∙ ap pos (omega (arith, unlent one));
      bounded = λ same limit. omega (arith, unlent one, a.bounded same limit);
      owned = λ d. omega (arith, unlent (only d), a.owned d);
    }

    removed-IsAccounted :
        IsAccounted (record returned { pool = lowered s.pool; ended = c ∷ s.ended })
    unfolding weigh
    removed-IsAccounted = record {
      counted = ap decrement a.counted ∙ decrement_pos _ _ (omega (arith, unlent one));
      bounded = λ same limit. omega (arith, unlent one, a.bounded same limit);
      owned = λ d. omega (arith, unlent (only d), a.owned d);
    }

    -- the pool with the connection in front
    abbrev refilled : Pool
    refilled = record (s.pool) { idle = record { idle_time = now; idle_conn = c } ∷ s.pool.idle }

    refilled-IsAccounted : IsAccounted (record returned { pool = refilled })
    unfolding weigh
    refilled-IsAccounted = record {
      counted = a.counted ∙ ap pos (omega (arith, unlent one));
      bounded = λ same limit. omega (arith, unlent one, a.bounded same limit);
      owned = λ d. omega (arith, unlent (only d), a.owned d);
    }

    trimmed-IsAccounted :
        (last : IdleItem) (rest : List IdleItem)
        → split_back refilled.idle ≡ some (last, rest)
        → IsAccounted (record returned {
          pool = record (lowered s.pool) { idle = rest };
          ended = last.idle_conn ∷ s.ended;
        })
    unfolding weigh
    trimmed-IsAccounted last rest h =
        let r = refilled-IsAccounted in
        record {
          counted =
              ap decrement r.counted
              ∙ decrement_pos _ _ (omega (arith, split_back-weigh one refilled.idle last rest h));
          bounded = λ same limit.
              omega (arith, split_back-weigh one refilled.idle last rest h, r.bounded same limit);
          owned =
              λ d. omega (arith, split_back-weigh (only d) refilled.idle last rest h, r.owned d);
        }

    trim_back_cases :
        (p : Pool)
        → (trim_back p ≡ (p, returns none))
          ⊎ ((last : IdleItem) × (rest : List IdleItem) × (split_back p.idle ≡ some (last, rest))
              × (trim_back p ≡ (
                record p { idle = rest; idle_num = decrement p.idle_num },
                returns (some last.idle_conn),
              )))
    unfolding trim_back
    trim_back_cases p = elim (Bool-cases (is_below p.max_idle (pos (length p.idle)))) [
      | inl over ↦ elim (Option-cases (split_back p.idle)) [
        | inl h ↦ inl (simp (over, h, trim_back))
        | inr ((last, rest), h) ↦ inr (last, rest, h, simp (over, h, trim_back))
      ]
      | inr fits ↦ inl (simp (fits, trim_back))
    ]

    trim_back-IsAccounted : IsAccounted (give_back c returned (trim_back refilled))
    unfolding give_back
    trim_back-IsAccounted = elim (trim_back_cases refilled) [
      | inl h ↦ subst (λ r. IsAccounted (give_back c returned r)) (sym h) refilled-IsAccounted
      | inr (last, rest, h, t) ↦
          subst (λ r. IsAccounted (give_back c returned r)) (sym t)
            (trimmed-IsAccounted last rest h)
    ]

    pub recycles-IsAccounted :
        (failed : Bool) → IsAccounted (give_back c returned (recycle now failed c s.pool))
    unfolding recycle remove put give_back
    recycles-IsAccounted true = elim (Bool-cases s.pool.closed) [
      | inl h ↦
          let e : remove c s.pool ≡ (s.pool, pool_closed) = simp (h, remove) in
          subst (λ r. IsAccounted (give_back c returned r)) (sym e) lost-IsAccounted
      | inr h ↦
          let e : remove c s.pool ≡ (lowered s.pool, returns (some c)) = simp (h, remove) in
          subst (λ r. IsAccounted (give_back c returned r)) (sym e) removed-IsAccounted
    ]
    recycles-IsAccounted false = elim (Bool-cases s.pool.closed) [
      | inl h ↦
          let e : put now c s.pool ≡ (s.pool, pool_closed) = simp (h, put) in
          subst (λ r. IsAccounted (give_back c returned r)) (sym e) lost-IsAccounted
      | inr h ↦
          let e : put now c s.pool ≡ trim_back refilled = simp (h, put) in
          subst (λ r. IsAccounted (give_back c returned r)) (sym e) trim_back-IsAccounted
    ]
