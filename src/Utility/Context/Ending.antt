-- ===== src/Utility/Context/Ending.antt =====
-- utility/context.go: the deadline of a merged context.
use tick_framework.Base.{
  ℕ, ◌≡◌, refl, true, false, Bool-cases, none, some, ltb, min, inl, inr, arith,
}
use tick_framework.Utility.Context.{zero_time, at, deadline}

-- The deadline of a merged context is the earlier one of two, that of the main context where the
-- other has none, and none where both have none; where the other context alone has one, the answer
-- is that there is a deadline, at the zero time, which lies before every instant.
pub deadline_lem :
    (d e : ℕ)
    → (deadline (some d) (some e) ≡ (at (min d e), true))
      × (deadline none (some e) ≡ (at e, true))
      × (deadline none none ≡ (zero_time, false))
      × (deadline (some d) none ≡ (zero_time, true))
unfolding deadline
deadline_lem d e = (earlier, refl, refl, refl)
  where
    earlier : deadline (some d) (some e) ≡ (at (min d e), true)
    earlier = elim (Bool-cases (ltb d e)) [
      | inl q ↦ let m : min d e ≡ d = ground arith in rw (q, m) refl
      | inr q ↦ let m : min d e ≡ e = ground arith in rw (q, m) refl
    ]
