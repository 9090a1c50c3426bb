-- ===== src/Utility/Pool/Threads.antt =====
-- The pool of utility/pooling.go with the threads that use it: every interleaving of the critical
-- sections.
use tick_framework.Base.{
  ℤ, ℕ, suc, ◌≡◌, Bool, List, [], ◌∷◌, ◌++◌, Option, none, some, ◌==◌, if◌then◌else◌,
}
use tick_framework.Utility.Pool.{
  Conn, Pool, Next, borrows, refused, creates, waits, Return, pool_closed, returns, new_pool,
  get_enter, get_discard, get_abort, recycle, close, conns,
}

-- `testing` holds the connections between a critical section of `Get` and `TestOnBorrow`, with the
-- rounds left; `creating` counts the calls of `NewFn` under way, `waiting` the threads in `Wait`.
-- `made` counts the connections so far, which gives the next one's identity. `ended` were closed by
-- the pool; `lost` are in nobody's hands and not closed.
pub record System : Type 0 where
  pub pool : Pool
  pub testing : List (Conn × ℕ)
  pub lent : List Conn
  pub creating : ℕ
  pub waiting : ℕ
  pub made : ℕ
  pub ended : List Conn
  pub lost : List Conn

abbrev pub start : ℤ → System
start max_idle = record {
  pool = new_pool max_idle;
  testing = [];
  lent = [];
  creating = 0;
  waiting = 0;
  made = 0;
  ended = [];
  lost = [];
}

-- What a critical section of `Get` does to the system.
unfoldable pub proceed : System → Pool × Next → System
proceed s (p, borrows item left) = record s {
  pool = p;
  testing = (item.idle_conn, left) ∷ s.testing;
}
proceed s (p, refused) = record s { pool = p }
proceed s (p, creates) = record s { pool = p; creating = suc s.creating }
proceed s (p, waits) = record s { pool = p; waiting = suc s.waiting }

-- What a `Put` or `Remove` of a connection does.
unfoldable pub give_back : Conn → System → Pool × Return → System
give_back c s (p, pool_closed) = record s { pool = p; lost = c ∷ s.lost }
give_back c s (p, returns none) = record s { pool = p }
give_back c s (p, returns (some d)) = record s { pool = p; ended = d ∷ s.ended }

unfoldable pub take_out : Conn → List Conn → List Conn
take_out c [] = []
take_out c (d ∷ ds) = if d == c then ds else d ∷ take_out c ds

-- the connections behind these
unfoldable pub minus : List Conn → List Conn → List Conn
minus cs [] = cs
minus cs (d ∷ ds) = minus (take_out d cs) ds

-- What `Close` does: idle connections that it does not close are lost.
unfoldable pub shut : System → Pool × Option (List Conn) → System
shut s (p, none) = record s { pool = p }
shut s (p, some cs) = record s {
  pool = p;
  ended = cs ++ s.ended;
  lost = minus (conns s.pool.idle) cs ++ s.lost;
}

-- One step of one thread. A client gives back a connection that it was lent, and none that it gave
-- back before; a thread in `Wait` may wake at any time.
pub data Step (s t : System) : Type 0 where
  enters : t ≡ proceed s (get_enter s.pool) → Step s t
  wakes :
      (n : ℕ)
      → s.waiting ≡ suc n
      → t ≡ proceed (record s { waiting = n }) (get_enter s.pool)
      → Step s t
  passes :
      (before after : List (Conn × ℕ)) (c : Conn) (left : ℕ)
      → s.testing ≡ before ++ (c, left) ∷ after
      → t ≡ record s { testing = before ++ after; lent = c ∷ s.lent }
      → Step s t
  fails :
      (before after : List (Conn × ℕ)) (c : Conn) (left : ℕ)
      → s.testing ≡ before ++ (c, left) ∷ after
      → t
        ≡ proceed
            (record s { testing = before ++ after; ended = c ∷ s.ended })
            (get_discard left s.pool)
      → Step s t
  makes :
      (n : ℕ)
      → s.creating ≡ suc n
      → t ≡ record s { creating = n; lent = s.made ∷ s.lent; made = suc s.made }
      → Step s t
  aborts :
      (n : ℕ)
      → s.creating ≡ suc n
      → t ≡ record s { creating = n; pool = get_abort s.pool }
      → Step s t
  recycles :
      (now : ℕ) (failed : Bool) (before after : List Conn) (c : Conn)
      → s.lent ≡ before ++ c ∷ after
      → t ≡ give_back c (record s { lent = before ++ after }) (recycle now failed c s.pool)
      → Step s t
  closes : t ≡ shut s (close s.pool) → Step s t

pub data Reach (s : System) : System → Type 0 where
  here : Reach s s
  next : {t u : System} → Reach s t → Step t u → Reach s u
