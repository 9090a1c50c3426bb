-- ===== src/Utility/Pool/Tests.antt =====
-- Runs of the pool.
use tick_framework.Base.{negsuc, ℕ, ◌⊎◌, ◌+◌, ◌<◌, ◌≡◌, refl, false, [], ◌∷◌, pos}
use tick_framework.Utility.Pool.{new_pool, get_enter, get_from, settle, put, trim_back, recycle}
use tick_framework.Utility.Pool.Threads.{
  System, start, proceed, give_back, enters, makes, recycles, Reach, here, next,
}
use tick_framework.Utility.Pool.Accounts.{IsAccounted, weigh, one, tested}
use tick_framework.Utility.Pool.Accounts.Steps.{Reach-IsAccounted}
use tick_framework.Utility.Pool.Behaviour.{get_enter_waits}

program : Unit {0}
unfolding new_pool get_enter get_from settle put trim_back recycle proceed give_back
program = tt

-- one connection is made under a limit of one, and lent
abbrev busy : System
busy = record (start (pos 1)) {
  pool = record { max_idle = pos 1; idle_num = pos 1; idle = []; closed = false };
  lent = 0 ∷ [];
  made = 1;
}

-- it is given back at time 5
abbrev rested : System
rested = record busy {
  pool = record {
    max_idle = pos 1;
    idle_num = pos 1;
    idle = record { idle_time = 5; idle_conn = 0 } ∷ [];
    closed = false;
  };
  lent = [];
}

-- a `Get` has it in its hands and tests it
abbrev trying : System
trying = record busy { lent = []; testing = (0, 0) ∷ [] }

busy-reached : Reach (start (pos 1)) busy
unfolding program
busy-reached = next (next here (enters refl)) (makes 0 refl refl)

rested-reached : Reach (start (pos 1)) rested
unfolding program
rested-reached = next busy-reached (recycles 5 false [] [] 0 refl refl)

trying-reached : Reach (start (pos 1)) trying
unfolding program
trying-reached = next rested-reached (enters refl)

Reach-IsAccounted_example : IsAccounted rested
Reach-IsAccounted_example = Reach-IsAccounted (pos 1) rested-reached

get_enter_waits_example :
    (busy.pool.closed ≡ false)
    × (busy.pool.idle ≡ [])
    × (((n : ℕ) × (busy.pool.max_idle ≡ pos n)
          × (0 < n)
          × (weigh one (tested busy.testing)
                + weigh one busy.lent
                + weigh one busy.lost
                + busy.creating
              ≡ n))
        ⊎ ((n : ℕ) × (busy.pool.max_idle ≡ negsuc n)))
unfolding program
get_enter_waits_example = get_enter_waits busy (Reach-IsAccounted (pos 1) busy-reached) refl
