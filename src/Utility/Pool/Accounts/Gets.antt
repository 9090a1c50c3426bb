-- ===== src/Utility/Pool/Accounts/Gets.antt =====
-- The critical sections of `Get` keep the accounts.
use tick_framework.Base.{
  ℤ, ◌<◌, ℕ, zero, suc, ◌+◌, ◌≡◌, refl, ap, sym, ◌∙◌, subst, true, false, List, [], ◌∷◌, pos, arith,
  Bool-cases, inl, inr, increment, is_below, is_zero, ◌||◌, ◌⊎◌,
}
use tick_framework.Utility.Pool.{
  Conn, IdleItem, refused, creates, waits, borrows, conns, get_from, settle,
}
use tick_framework.Utility.Pool.Threads.{System, proceed}
use tick_framework.Utility.Pool.Accounts.{IsAccounted, weigh, one, only}

room_below : (k n : ℕ) → (is_zero (pos n) || is_below (pos k) (pos n)) ≡ true → (n ≡ 0) ⊎ (k < n)
room_below k zero h = inl refl
room_below k (suc n) h = inr (ground arith)

-- Room under a limit that is not negative.
has_room :
    (count limit : ℤ) (k n : ℕ)
    → count ≡ pos k
    → limit ≡ pos n
    → (is_zero limit || is_below count limit) ≡ true
    → (n ≡ 0) ⊎ (k < n)
has_room count limit k n e f h =
    let room : (is_zero (pos n) || is_below (pos k) (pos n)) ≡ true =
      ap (λ l. is_zero l || is_below (pos k) l) (sym f)
      ∙ ap (λ c. is_zero limit || is_below c limit) (sym e)
      ∙ h in
    room_below k n room

module _ (s : System) (a : IsAccounted s) where
  creates-IsAccounted :
      s.pool.closed ≡ false
      → (is_zero s.pool.max_idle || is_below s.pool.idle_num s.pool.max_idle) ≡ true
      → IsAccounted (proceed s (record (s.pool) { idle_num = increment s.pool.idle_num }, creates))
  unfolding proceed
  creates-IsAccounted o h = record {
    counted = ap increment a.counted ∙ ap pos (omega arith);
    bounded = λ same limit.
        let room = has_room s.pool.idle_num s.pool.max_idle _ _ a.counted same h in omega arith;
    owned = a.owned;
  }

  pub stays-IsAccounted : (waiting : ℕ) → IsAccounted (record s { waiting = waiting })
  stays-IsAccounted waiting = record { counted = a.counted; bounded = a.bounded; owned = a.owned }

  settle_cases :
      (settle s.pool ≡ (s.pool, refused))
      ⊎ ((settle s.pool ≡ (s.pool, waits))
          ⊎ ((s.pool.closed ≡ false)
              × ((is_zero s.pool.max_idle || is_below s.pool.idle_num s.pool.max_idle) ≡ true)
              × (settle s.pool
                  ≡ (record (s.pool) { idle_num = increment s.pool.idle_num }, creates))))
  unfolding settle
  settle_cases = elim (Bool-cases s.pool.closed) [
    | inl shut ↦ inl (ground (arith, shut))
    | inr is_open ↦
        elim (Bool-cases (is_zero s.pool.max_idle || is_below s.pool.idle_num s.pool.max_idle)) [
          | inl room ↦ inr (inr (is_open, room, simp (is_open, room, settle)))
          | inr full ↦ inr (inl (simp (is_open, full, settle)))
        ]
  ]

  settle-IsAccounted : IsAccounted (proceed s (settle s.pool))
  unfolding proceed
  settle-IsAccounted = elim settle_cases [
    | inl e ↦ subst (λ r. IsAccounted (proceed s r)) (sym e) a
    | inr (inl e) ↦
        subst (λ r. IsAccounted (proceed s r)) (sym e) (stays-IsAccounted (suc s.waiting))
    | inr (inr (o, room, e)) ↦
        subst (λ r. IsAccounted (proceed s r)) (sym e) (creates-IsAccounted o room)
  ]

  borrows-IsAccounted :
      (item : IdleItem) (rest : List IdleItem) (left : ℕ)
      → s.pool.idle ≡ item ∷ rest
      → IsAccounted (proceed s (record (s.pool) { idle = rest }, borrows item left))
  unfolding weigh proceed
  borrows-IsAccounted item rest left e =
      let moved : (w : Conn → ℕ)
          → weigh w (conns s.pool.idle) ≡ w item.idle_conn + weigh w (conns rest) =
        λ w. ap (λ es. weigh w (conns es)) e in
      record {
        counted = a.counted ∙ ap pos (omega (arith, moved one));
        bounded = λ same limit. omega (arith, moved one, a.bounded same limit);
        owned = λ c. omega (arith, moved (only c), a.owned c);
      }

  pub get_from-IsAccounted : (left : ℕ) → IsAccounted (proceed s (get_from left s.pool))
  unfolding get_from
  get_from-IsAccounted zero = settle-IsAccounted
  get_from-IsAccounted (suc left) = by_idle s.pool.idle refl
    where
      by_idle :
          (items : List IdleItem)
          → s.pool.idle ≡ items
          → IsAccounted (proceed s (get_from (suc left) s.pool))
      by_idle [] e =
          subst (λ r. IsAccounted (proceed s r)) (sym (simp (e, get_from) refl)) settle-IsAccounted
      by_idle (item ∷ rest) e =
          subst (λ r. IsAccounted (proceed s r)) (sym (simp (e, get_from) refl))
            (borrows-IsAccounted item rest left e)
