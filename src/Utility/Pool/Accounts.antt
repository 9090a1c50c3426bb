-- ===== src/Utility/Pool/Accounts.antt =====
-- What the count of a pool says about its connections.
pub mod Gets
pub mod Returns
pub mod Steps
use tick_framework.Base.{
  ℕ, zero, suc, ◌+◌, ◌≤◌, ◌<◌, ◌≡◌, refl, ap, sym, ◌∙◌, Bool, true, false, List, [], ◌∷◌, ◌++◌, map,
  Option, none, some, ◌==◌, if◌then◌else◌, ltb, ℤ, pos, arith,
}
use tick_framework.Utility.Pool.{Conn, Pool, conns}
use tick_framework.Utility.Pool.Threads.{System}

-- The weights of some connections together.
unfoldable pub weigh : (Conn → ℕ) → List Conn → ℕ
weigh w [] = 0
weigh w (c ∷ cs) = w c + weigh w cs

abbrev pub tested : List (Conn × ℕ) → List Conn
tested = map (λ e. e.0)

-- each connection counts
abbrev pub one : Conn → ℕ
one c = 1

-- only this one counts
abbrev pub only : Conn → Conn → ℕ
only c d = if d == c then 1 else 0

-- The connections that are open.
abbrev pub open_weight : (Conn → ℕ) → System → ℕ
open_weight w s =
    weigh w (conns s.pool.idle) + weigh w (tested s.testing) + weigh w s.lent + weigh w s.lost

-- The pool's number counts the open connections and those being made; under a limit there are no
-- more than it allows; and each connection made is in one place: idle, tested, lent, closed or lost.
pub record IsAccounted (s : System) : Type 0 where
  pub counted : s.pool.idle_num ≡ pos (open_weight one s + s.creating)
  pub bounded : {n : ℕ} → s.pool.max_idle ≡ pos n → 0 < n → open_weight one s + s.creating ≤ n
  pub owned :
      (c : Conn) → open_weight (only c) s + weigh (only c) s.ended ≡ (if ltb c s.made then 1 else 0)

pub weigh-append : (w : Conn → ℕ) (cs ds : List Conn) → weigh w (cs ++ ds) ≡ weigh w cs + weigh w ds
unfolding weigh
weigh-append w [] ds = omega arith
weigh-append w (c ∷ cs) ds = omega (arith, weigh-append w cs ds)

pub weigh-middle :
    (w : Conn → ℕ) (cs ds : List Conn) (c : Conn)
    → weigh w (cs ++ c ∷ ds) ≡ w c + weigh w (cs ++ ds)
unfolding weigh
weigh-middle w [] ds c = refl
weigh-middle w (b ∷ cs) ds c = omega (arith, weigh-middle w cs ds c)

pub weigh-tested :
    (w : Conn → ℕ) (es fs : List (Conn × ℕ)) (c : Conn) (left : ℕ)
    → weigh w (tested (es ++ (c, left) ∷ fs)) ≡ w c + weigh w (tested (es ++ fs))
unfolding weigh
weigh-tested w [] fs c left = refl
weigh-tested w ((b, l) ∷ es) fs c left = omega (arith, weigh-tested w es fs c left)
