-- ===== src/Utility/Context/Tests.antt =====
-- Runs of merged contexts.
use tick_framework.Base.{ℕ, ◌≡◌, refl, true, none, some}
use tick_framework.Utility.Context.{zero_time, at, deadline, Merged, merge_context, run}

-- a deadline of the request alone is not told
deadline_lost : deadline (some 3) none ≡ (zero_time, true)
unfolding deadline
deadline_lost = refl

-- the first error stays
first_stays :
    run {E = ℕ} (some 2) (run (some 1) merge_context) ≡ record { err = some 1; done = true }
unfolding run tick_framework.Utility.Context.run_done
first_stays = refl
