-- ===== src/Transforms/Increasing.antt =====
-- Increasing lists of row ids, as `doExecuteTransform` collects them.
use jayvee.Base.{ℕ, suc, ◌≤◌, ◌<◌, ◌≡◌, refl, false, List, [], ◌∷◌, All, arith}
use jayvee.Base.Removal.{includes_nat}
use jayvee.Base.Sorting.{IsDistinct}

-- The rows from `first` up to `last`, each at most once
abbrev pub IsIncreasing : ℕ → ℕ → List ℕ → Type 0
IsIncreasing first last [] = Unit
IsIncreasing first last (r ∷ rs) = (first ≤ r) × (r < last) × IsIncreasing (suc r) last rs

pub IsIncreasing-weaken :
    (first first' last : ℕ) (rs : List ℕ)
    → first' ≤ first
    → IsIncreasing first last rs
    → IsIncreasing first' last rs
IsIncreasing-weaken first first' last [] l h = tt
IsIncreasing-weaken first first' last (r ∷ rs) l (a, b, h) = (omega arith, b, h)

includes_nat-earlier :
    (first last n : ℕ) (rs : List ℕ)
    → n < first
    → IsIncreasing first last rs
    → includes_nat rs n ≡ false
includes_nat-earlier first last n [] l h = refl
includes_nat-earlier first last n (r ∷ rs) l (a, b, h) =
    ground (arith, includes_nat-earlier (suc r) last n rs (omega arith) h)

pub increasing-IsDistinct :
    (first last : ℕ) (rs : List ℕ) → IsIncreasing first last rs → IsDistinct rs
increasing-IsDistinct first last [] h = tt
increasing-IsDistinct first last (r ∷ rs) (a, b, h) = (
  includes_nat-earlier (suc r) last r rs (omega arith) h,
  increasing-IsDistinct (suc r) last rs h,
)

pub increasing-below :
    (first last : ℕ) (rs : List ℕ) → IsIncreasing first last rs → All (λ r. r < last) rs
increasing-below first last [] h = tt
increasing-below first last (r ∷ rs) (a, b, h) = (b, increasing-below (suc r) last rs h)
