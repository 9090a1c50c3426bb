-- ===== src/Utility/Pool/Behaviour.antt =====
-- What the methods of the pool do.
use tick_framework.Base.{
  true, ℤ, negsuc, ◌≤◌, sym, ℕ, zero, suc, ◌+◌, ◌-◌, ◌<◌, ◌≡◌, ◌≢◌, refl, ap, ◌∙◌, false, List, [],
  ◌∷◌, ◌++◌, none, ltb, pos, arith, inl, inr, decrement, is_below, is_zero, ◌||◌, ◌⊎◌, length,
}
use tick_framework.Utility.Pool.{
  Conn, Pool, IdleItem, waits, borrows, returns, conns, get_from, get_enter, get_discard, settle,
  trim_back, put,
}
use tick_framework.Utility.Pool.Threads.{System}
use tick_framework.Utility.Pool.Accounts.{
  IsAccounted, weigh, open_weight, one, tested, weigh-tested,
}
use tick_framework.Utility.Pool.Accounts.Returns.{lowered, decrement_pos}

-- `settle` waits only on an open pool at its limit.
record IsFull (p : Pool) : Type 0 where
  is_open : p.closed ≡ false
  no_room : (is_zero p.max_idle || is_below p.idle_num p.max_idle) ≡ false

settle_waits : (p : Pool) → (settle p).1 ≡ waits → IsFull p
unfolding settle
settle_waits p e = ground arith

get_from_waits :
    (left : ℕ) (p : Pool) → (get_from left p).1 ≡ waits → IsFull p × ((left ≡ 0) ⊎ (p.idle ≡ []))
unfolding get_from
get_from_waits zero p e = (settle_waits p e, inl refl)
get_from_waits (suc left) p e = ground (arith, settle_waits p)

-- A count of `k` that leaves no room under a limit.
full_lem :
    (count limit : ℤ) (k : ℕ)
    → count ≡ pos k
    → (is_zero limit || is_below count limit) ≡ false
    → ((n : ℕ) × (limit ≡ pos n) × (0 < n) × (n ≤ k)) ⊎ ((n : ℕ) × (limit ≡ negsuc n))
full_lem count (negsuc n) k e h = inr (n, refl)
full_lem count (pos zero) k e h = absurd (ground arith)
full_lem count (pos (suc n)) k e h =
    let no_room : ltb k (suc n) ≡ false = ap (λ c. is_below c (pos (suc n))) (sym e) ∙ h in
    inl (suc n, refl, omega arith, ground arith)

full_count :
    (s : System)
    → IsAccounted s
    → IsFull s.pool
    → ((n : ℕ) × (s.pool.max_idle ≡ pos n) × (0 < n) × (open_weight one s + s.creating ≡ n))
      ⊎ ((n : ℕ) × (s.pool.max_idle ≡ negsuc n))
full_count s a f =
    elim (full_lem s.pool.idle_num s.pool.max_idle (open_weight one s + s.creating) a.counted
      f.no_room) [
        | inl (n, same, limit, reached) ↦ inl (n, same, limit, omega (arith, a.bounded same limit))
        | inr negative ↦ inr negative
      ]

idle_none : (items : List IdleItem) → (length items ≡ 0) ⊎ (items ≡ []) → items ≡ []
idle_none [] h = refl
idle_none (item ∷ rest) (inl e) = absurd (omega arith)
idle_none (item ∷ rest) (inr e) = e

-- With the accounts in order, a Get waits only on an open pool where no connection is idle, and only
-- with a positive limit that the connections in use, lost or being made have reached, or with a
-- negative one.
pub get_enter_waits :
    (s : System)
    → IsAccounted s
    → (get_enter s.pool).1 ≡ waits
    → (s.pool.closed ≡ false)
      × (s.pool.idle ≡ [])
      × (((n : ℕ) × (s.pool.max_idle ≡ pos n)
            × (0 < n)
            × (weigh one (tested s.testing) + weigh one s.lent + weigh one s.lost + s.creating ≡ n))
          ⊎ ((n : ℕ) × (s.pool.max_idle ≡ negsuc n)))
unfolding get_enter weigh
get_enter_waits s a e =
    let (full, none_left) = get_from_waits (length s.pool.idle) s.pool e in
    let empty = idle_none s.pool.idle none_left in
    let no_idle : weigh one (conns s.pool.idle) ≡ 0 = ap (λ es. weigh one (conns es)) empty in
    (
      full.is_open,
      empty,
      elim (full_count s a full) [
        | inl (n, same, limit, all) ↦ inl (n, same, limit, omega (arith, all, no_idle))
        | inr negative ↦ inr negative
      ],
    )

-- A `Get` whose idle connection did not pass the test goes on to another one or to `NewFn`, or the
-- pool is closed; with a limit that is not negative it does not wait.
pub get_discard_goes_on :
    (s : System) (c : Conn) (left n : ℕ) (before after : List (Conn × ℕ))
    → IsAccounted s
    → s.pool.max_idle ≡ pos n
    → s.testing ≡ before ++ (c, left) ∷ after
    → (get_discard left s.pool).1 ≢ waits
unfolding get_discard
get_discard_goes_on s c left n before after a same held e =
    let counts : weigh one (tested s.testing) ≡ 1 + weigh one (tested (before ++ after)) =
      ap (λ es. weigh one (tested es)) held ∙ weigh-tested one before after c left in
    let (full, _) = get_from_waits left (lowered s.pool) e in
    let number : decrement s.pool.idle_num ≡ pos (open_weight one s + s.creating - 1) =
      ap decrement a.counted ∙ decrement_pos _ _ (omega arith) in
    elim (full_lem (decrement s.pool.idle_num) s.pool.max_idle (open_weight one s + s.creating - 1)
      number full.no_room) [
        | inl (m, limit, positive, reached) ↦ absurd (omega (arith, a.bounded limit positive))
        | inr (m, negative) ↦ absurd (ground (arith, sym same ∙ negative))
      ]

below_next :
    (k : ℕ) (limit : ℤ) → is_below (pos k) limit ≡ true → is_below limit (pos (suc k)) ≡ false
below_next k (pos n) h = ground arith
below_next k (negsuc n) h = absurd (ground arith)

-- On an open pool with room in its list, `Put` closes no connection, and the next `Get` borrows the
-- one that was put there.
pub get_enter-put :
    (now : ℕ) (c : Conn) (p : Pool)
    → p.closed ≡ false
    → is_below (pos (length p.idle)) p.max_idle ≡ true
    → ((put now c p).1 ≡ returns none)
      × (get_enter (put now c p).0
          ≡ (p, borrows (record { idle_time = now; idle_conn = c }) (length p.idle)))
unfolding put trim_back get_enter get_from
get_enter-put now c p is_open room =
    let fits = below_next (length p.idle) p.max_idle room in
    let placed : put now c p
        ≡ (record p { idle = record { idle_time = now; idle_conn = c } ∷ p.idle }, returns none) =
      ground (arith, is_open, fits) in
    rw placed (refl, refl)
