-- ===== src/Utility/Context.antt =====
-- utility/context.go: a context that ends with the first of two.
pub mod Ending
mod Tests
use tick_framework.Base.{
  ℕ, Bool, true, false, ◌&&◌, ◌||◌, List, [], ◌∷◌, Option, none, some, ltb, if◌then◌else◌,
}

-- `time.Time`: an instant in nanoseconds since the epoch, or the zero time, which lies before it.
pub data Time : Type 0 where
  zero_time : Time
  at : ℕ → Time

-- `d1.UnixNano() < d2.UnixNano()`
abbrev pub is_earlier : Time → Time → Bool
is_earlier zero_time zero_time = false
is_earlier zero_time (at n) = true
is_earlier (at n) zero_time = false
is_earlier (at m) (at n) = ltb m n

-- What `Deadline` of a context answers: the zero time, where there is none.
abbrev pub answer_of : Option ℕ → Time × Bool
answer_of none = (zero_time, false)
answer_of (some n) = (at n, true)

-- `Deadline`, of the two contexts' deadlines
unfoldable pub deadline : Option ℕ → Option ℕ → Time × Bool
deadline ctx main_ctx =
    let (d1, ok1) = answer_of ctx in
    let (d2, ok2) = answer_of main_ctx in
    (if ok1 && is_earlier d1 d2 then d1 else if ok2 then d2 else zero_time, ok1 || ok2)

-- `mergedContext`, with an error once it is set and whether `done` is closed.
pub record Merged (E : Type 0) : Type 0 where
  pub err : Option E
  pub done : Bool

-- `MergeContext`
abbrev pub merge_context : {E : Type 0} → Merged E
merge_context = record { err = none; done = false }

-- The rest of `run` once one of the contexts is done, with the error of that one.
unfoldable pub run_done : {E : Type 0} → E → Merged E → Merged E
run_done e c = elim c.err [ none ↦ record { err = some e; done = true } | some _ ↦ c ]

-- `run` for the context that is chosen of those that are done, if there is one.
unfoldable pub run : {E : Type 0} → Option E → Merged E → Merged E
run none c = c
run (some e) c = run_done e c
