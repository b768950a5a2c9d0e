-- ===== src/Tests/Sorting.antt =====
-- Tests of the topological sorting.
use jayvee.Base.{ℕ, ◌≡◌, ap, List, [], ◌∷◌, ◌+◌, ◌<◌, ◌≢◌, inl, inr, arith, length, some, ok}
use jayvee.Pipelines.{Pipe, turns, start, get_starting_blocks, get_blocks_in_topological_sorting}
use jayvee.Pipelines.Edges.{Has}
use jayvee.Pipelines.Measure.{IsDistinct}
use jayvee.Pipelines.Ends.{turns-ended}
use jayvee.Pipelines.Total.{get_blocks-IsTopologicalSorting, IsTopologicalSorting}

abbrev edge : ℕ → ℕ → Pipe
edge a b = record { from = a; to = b }

abbrev branches : List Pipe
branches = edge 1 2 ∷ edge 1 3 ∷ edge 2 4 ∷ edge 3 4 ∷ []

ends_apart : (a b c d : ℕ) → a + a + a + b ≢ c + c + c + d → edge a b ≡ edge c d → ⊥
ends_apart a b c d n e = n (ap (λ p. p.from + p.from + p.from + p.to) e)

branches-IsDistinct : IsDistinct branches
branches-IsDistinct = (
  λ h. elim h [
    | inl e ↦ ends_apart 1 2 1 3 (omega arith) e
    | inr (inl e) ↦ ends_apart 1 2 2 4 (omega arith) e
    | inr (inr (inl e)) ↦ ends_apart 1 2 3 4 (omega arith) e
    | inr (inr (inr nothing)) ↦ nothing
  ],
  (
    λ h. elim h [
      | inl e ↦ ends_apart 1 3 2 4 (omega arith) e
      | inr (inl e) ↦ ends_apart 1 3 3 4 (omega arith) e
      | inr (inr nothing) ↦ nothing
    ],
    (
      λ h. elim h [ inl e ↦ ends_apart 2 4 3 4 (omega arith) e | inr nothing ↦ nothing ],
      (λ h. h, tt),
    ),
  ),
)

rises : (a b : ℕ) (e : Pipe) → e ≡ edge a b → a < b → e.from < e.to
rises a b e h l = omega (arith, ap (λ p. p.from) h, ap (λ p. p.to) h, l)

branches_rise : (e : Pipe) → Has e branches → e.from < e.to
branches_rise e (inl h) = rises 1 2 e h (omega arith)
branches_rise e (inr (inl h)) = rises 1 3 e h (omega arith)
branches_rise e (inr (inr (inl h))) = rises 2 4 e h (omega arith)
branches_rise e (inr (inr (inr (inl h)))) = rises 3 4 e h (omega arith)
branches_rise e (inr (inr (inr (inr nothing)))) = elim nothing [ ]

turns-ended_example :
    (turns (length (get_starting_blocks branches) + 4) branches (start branches)).current_nodes ≡ []
turns-ended_example = turns-ended branches branches-IsDistinct

get_blocks-IsTopologicalSorting_example :
    (nodes : List ℕ) × (get_blocks_in_topological_sorting
        (length (get_starting_blocks branches) + 4)
        branches
      ≡ some (ok nodes))
    × IsTopologicalSorting branches nodes
get_blocks-IsTopologicalSorting_example =
    get_blocks-IsTopologicalSorting branches branches-IsDistinct (λ n. n) branches_rise
