-- ===== src/Convert/Tests.antt =====
-- Runs of the conversions.
use tick_framework.Base.{ℕ, [], ◌∷◌, codes, ℤ, pos, negsuc, GoMap}
use tick_framework.Convert.{Heap, Slice}

abbrev cells : Heap ℕ
cells = 3 ∷ 4 ∷ 5 ∷ []

abbrev back : Slice
back = record { base = 1; count = 2 }

abbrev ports : GoMap ℕ
ports = (codes "http", 80) ∷ (codes "https", 443) ∷ []

abbrev moments : Heap ℤ
moments = pos 1500 ∷ negsuc 41 ∷ []
