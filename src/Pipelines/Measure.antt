-- ===== src/Pipelines/Measure.antt =====
-- Lists without duplicates, and how many edges a visit of the topological sorting removes.
use mathlib.Core.List.{reverse-cons}
use jayvee.Base.{
  ℕ, ◌≤◌, ◌<◌, ◌≡◌, sym, ap, ◌∙◌, Bool, true, false, not, List, [], ◌∷◌, ◌++◌, ◌==◌, ==_iff, length,
  reverse, Bool-cases, inl, inr, arith,
}
use jayvee.Pipelines.{Pipe, keep, same_pipe, remove_edges, visit_edges, get_ingoing_pipes}
use jayvee.Pipelines.Edges.{Has, Has-append_cases, Has-keep, Has-of_keep, same_pipe_self}
use jayvee.Pipelines.Order.{Has-of_reverse}

-- No element stands twice in the list.
module _ {A : Type 0} where
  abbrev pub IsDistinct : List A → Type 0
  IsDistinct [] = Unit
  IsDistinct (x ∷ xs) = (Has x xs → ⊥) × IsDistinct xs

  pub length-keep : (test : A → Bool) (xs : List A) → length (keep test xs) ≤ length xs
  unfolding keep
  length-keep test [] = omega arith
  length-keep test (x ∷ xs) = elim (Bool-cases (test x)) [
    | inl passes ↦ rw passes (omega (arith, length-keep test xs))
    | inr fails ↦ rw fails (omega (arith, length-keep test xs))
  ]

  -- Something is lost where an element fails the test.
  pub length-keep_lost :
      (test : A → Bool) (x : A) (xs : List A)
      → Has x xs
      → test x ≡ false
      → length (keep test xs) < length xs
  unfolding keep
  length-keep_lost test x [] h e = elim h [ ]
  length-keep_lost test x (y ∷ xs) (inl same) e =
      rw (ap test (sym same) ∙ e) (omega (arith, length-keep test xs))
  length-keep_lost test x (y ∷ xs) (inr h) e = elim (Bool-cases (test y)) [
    | inl passes ↦ rw passes (omega (arith, length-keep_lost test x xs h e))
    | inr fails ↦ rw fails (omega (arith, length-keep_lost test x xs h e))
  ]

length-remove_edges :
    (es unvisited : List Pipe) → length (remove_edges es unvisited) ≤ length unvisited
unfolding remove_edges
length-remove_edges [] unvisited = omega arith
length-remove_edges (e ∷ es) unvisited = omega (
  arith,
  length-remove_edges es (keep (λ edge. not (same_pipe edge e)) unvisited),
  length-keep (λ edge. not (same_pipe edge e)) unvisited,
)

length-remove_edges_lost :
    (es unvisited : List Pipe) (e : Pipe)
    → Has e es
    → Has e unvisited
    → length (remove_edges es unvisited) < length unvisited
unfolding remove_edges
length-remove_edges_lost [] unvisited e h k = elim h [ ]
length-remove_edges_lost (d ∷ es) unvisited e h k = elim (Bool-cases (same_pipe e d)) [
  | inl same ↦ omega (
    arith,
    length-remove_edges es (keep (λ edge. not (same_pipe edge d)) unvisited),
    length-keep_lost (λ edge. not (same_pipe edge d)) e unvisited k (ap not same),
  )
  | inr other ↦ elim h [
    | inl here ↦ omega (
      arith,
      length-remove_edges es (keep (λ edge. not (same_pipe edge d)) unvisited),
      length-keep_lost (λ edge. not (same_pipe edge d)) e unvisited k
          (ap not (ap (same_pipe e) (sym here) ∙ same_pipe_self e)),
    )
    | inr later ↦ elim (Has-keep (λ edge. not (same_pipe edge d)) e unvisited k) [
      | inl kept ↦ omega (
        arith,
        length-remove_edges_lost es (keep (λ edge. not (same_pipe edge d)) unvisited) e later kept,
        length-keep (λ edge. not (same_pipe edge d)) unvisited,
      )
      | inr gone ↦ let absurd : true ≡ false = sym (ap not other) ∙ gone in cc
    ]
  ]
]

-- The visit of a child removes the edge to it.
pub length-visit_edges :
    (pipes : List Pipe) (node child : ℕ) (unvisited : List Pipe) (e : Pipe)
    → Has e pipes
    → e.from ≡ node
    → e.to ≡ child
    → Has e unvisited
    → length (visit_edges pipes node child unvisited) < length unvisited
unfolding visit_edges get_ingoing_pipes
length-visit_edges pipes node child unvisited e m from to left =
    length-remove_edges_lost _ unvisited e
      (kept (λ p. p.from == node) _ ((==_iff e.from node).1 from)
        (kept (λ p. p.to == child) pipes ((==_iff e.to child).1 to) m))
      left
  where
    kept : (test : Pipe → Bool) (xs : List Pipe) → test e ≡ true → Has e xs → Has e (keep test xs)
    kept test xs t h = elim (Has-keep test e xs h) [
      | inl k ↦ k
      | inr f ↦ let absurd : true ≡ false = sym t ∙ f in cc
    ]

module _ {A : Type 0} where
  pub IsDistinct-snoc :
      (xs : List A) (x : A) → IsDistinct xs → (Has x xs → ⊥) → IsDistinct (xs ++ x ∷ [])
  IsDistinct-snoc [] x d n = (λ h. h, tt)
  IsDistinct-snoc (y ∷ ys) x (l, d) n = (
    λ h. elim (Has-append_cases y ys (x ∷ []) h) [
      | inl earlier ↦ l earlier
      | inr (inl same) ↦ n (inl (sym same))
      | inr (inr nothing) ↦ nothing
    ],
    IsDistinct-snoc ys x d (λ h. n (inr h)),
  )

  pub IsDistinct-keep : (test : A → Bool) (xs : List A) → IsDistinct xs → IsDistinct (keep test xs)
  unfolding keep
  IsDistinct-keep test [] d = tt
  IsDistinct-keep test (x ∷ xs) (l, d) = elim (Bool-cases (test x)) [
    | inl passes ↦ rw passes ((λ h. l (Has-of_keep test x xs h).0), IsDistinct-keep test xs d)
    | inr fails ↦ rw fails (IsDistinct-keep test xs d)
  ]

pub IsDistinct-reverse : (xs : List ℕ) → IsDistinct xs → IsDistinct (reverse xs)
IsDistinct-reverse [] d = tt
IsDistinct-reverse (x ∷ xs) (l, d) =
    rw (reverse-cons x xs)
      (IsDistinct-snoc (reverse xs) x (IsDistinct-reverse xs d) (λ h. l (Has-of_reverse x xs h)))
