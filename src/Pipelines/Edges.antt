-- ===== src/Pipelines/Edges.antt =====
-- Members of lists, and the edges that the topological sorting removes.
use mathlib.Core.Bool.{and-eq-true_iff}
use jayvee.Base.{
  ℕ, ◌≡◌, refl, sym, ap, ◌∙◌, Bool, true, false, not, List, [], ◌∷◌, ◌++◌, ◌==◌, ==_iff, length,
  Bool-cases, ◌⊎◌, inl, inr, arith,
}
use jayvee.Pipelines.{
  Pipe, same_pipe, keep, any, remove_edges, visit_edges, all_visited, get_ingoing_pipes,
}

module _ {A : Type 0} where
  abbrev pub Has : A → List A → Type 0
  Has x [] = ⊥
  Has x (y ∷ ys) = (x ≡ y) ⊎ Has x ys

  pub Has-append_left : (x : A) (xs ys : List A) → Has x xs → Has x (xs ++ ys)
  Has-append_left x [] ys h = elim h [ ]
  Has-append_left x (y ∷ xs) ys (inl e) = inl e
  Has-append_left x (y ∷ xs) ys (inr h) = inr (Has-append_left x xs ys h)

  pub Has-append_right : (x : A) (xs ys : List A) → Has x ys → Has x (xs ++ ys)
  Has-append_right x [] ys h = h
  Has-append_right x (y ∷ xs) ys h = inr (Has-append_right x xs ys h)

  pub Has-append_cases : (x : A) (xs ys : List A) → Has x (xs ++ ys) → Has x xs ⊎ Has x ys
  Has-append_cases x [] ys h = inr h
  Has-append_cases x (y ∷ xs) ys (inl e) = inl (inl e)
  Has-append_cases x (y ∷ xs) ys (inr h) = elim (Has-append_cases x xs ys h) [
    | inl l ↦ inl (inr l)
    | inr r ↦ inr r
  ]

  pub Has-keep :
      (test : A → Bool) (x : A) (xs : List A) → Has x xs → Has x (keep test xs) ⊎ (test x ≡ false)
  unfolding keep
  Has-keep test x [] h = elim h [ ]
  Has-keep test x (y ∷ xs) (inl e) = elim (Bool-cases (test y)) [
    | inl passes ↦ rw passes (inl (inl e))
    | inr not_kept ↦ inr (ap test e ∙ not_kept)
  ]
  Has-keep test x (y ∷ xs) (inr h) = elim (Has-keep test x xs h) [
    | inl kept ↦ elim (Bool-cases (test y)) [
      | inl passes ↦ rw passes (inl (inr kept))
      | inr fails ↦ rw fails (inl kept)
    ]
    | inr not_kept ↦ inr not_kept
  ]

  pub Has-of_keep :
      (test : A → Bool) (x : A) (xs : List A) → Has x (keep test xs) → Has x xs × (test x ≡ true)
  unfolding keep
  Has-of_keep test x [] h = elim h [ ]
  Has-of_keep test x (y ∷ xs) h = elim (Bool-cases (test y)) [
    | inl passes ↦
        let h' : Has x (y ∷ keep test xs) = rw (keep, passes) at h in
        elim h' [
          | inl e ↦ (inl e, ap test e ∙ passes)
          | inr later ↦ let (m, t) = Has-of_keep test x xs later in (inr m, t)
        ]
    | inr fails ↦
        let h' : Has x (keep test xs) = rw (keep, fails) at h in
        let (m, t) = Has-of_keep test x xs h' in (inr m, t)
  ]

  pub any-Has :
      (test : A → Bool) (x : A) (xs : List A) → Has x xs → test x ≡ true → any test xs ≡ true
  any-Has test x [] h t = elim h [ ]
  any-Has test x (y ∷ xs) (inl e) t = rw (ap test (sym e) ∙ t) refl
  any-Has test x (y ∷ xs) (inr h) t = elim (Bool-cases (test y)) [
    | inl passes ↦ rw passes refl
    | inr fails ↦ rw fails (any-Has test x xs h t)
  ]

  pub not_empty : (x : A) (xs : List A) → Has x xs → (length xs == 0) ≡ true → ⊥
  not_empty x [] h e = h
  not_empty x (y ∷ xs) h e = omega (arith, (==_iff (length (y ∷ xs)) 0).0 e)

pub same_pipe_self : (e : Pipe) → same_pipe e e ≡ true
same_pipe_self e =
    (and-eq-true_iff _ _).1 ((==_iff e.from e.from).1 refl, (==_iff e.to e.to).1 refl)

-- An edge that is removed comes from the node.
pub remove_edges-Has :
    (node : ℕ) (es unvisited : List Pipe) (e : Pipe)
    → ((d : Pipe) → Has d es → d.from ≡ node)
    → Has e unvisited
    → Has e (remove_edges es unvisited) ⊎ (e.from ≡ node)
unfolding remove_edges
remove_edges-Has node [] unvisited e law h = inl h
remove_edges-Has node (d ∷ es) unvisited e law h =
    elim (Has-keep (λ edge. not (same_pipe edge d)) e unvisited h) [
      | inl kept ↦ remove_edges-Has node es _ e (λ d' m. law d' (inr m)) kept
      | inr removed ↦
          let same : same_pipe e d ≡ true = not_false (same_pipe e d) removed in
          inr ((==_iff e.from d.from).0 ((and-eq-true_iff _ _).0 same).0 ∙ law d (inl refl))
    ]
  where
    not_false : (b : Bool) → not b ≡ false → b ≡ true
    not_false true h = refl
    not_false false h = cc

pub Has-of_remove_edges :
    (es unvisited : List Pipe) (e : Pipe) → Has e (remove_edges es unvisited) → Has e unvisited
unfolding remove_edges
Has-of_remove_edges [] unvisited e h = h
Has-of_remove_edges (d ∷ es) unvisited e h =
    (Has-of_keep _ e unvisited (Has-of_remove_edges es _ e h)).0

pub visit_edges-Has :
    (pipes : List Pipe) (node child : ℕ) (unvisited : List Pipe) (e : Pipe)
    → Has e unvisited
    → Has e (visit_edges pipes node child unvisited) ⊎ (e.from ≡ node)
unfolding visit_edges
visit_edges-Has pipes node child unvisited e h =
    remove_edges-Has node _ unvisited e
      (λ d m. (==_iff d.from node).0 (Has-of_keep (λ p. p.from == node) d _ m).1) h

pub Has-of_visit_edges :
    (pipes : List Pipe) (node child : ℕ) (unvisited : List Pipe) (e : Pipe)
    → Has e (visit_edges pipes node child unvisited)
    → Has e unvisited
unfolding visit_edges
Has-of_visit_edges pipes node child unvisited e h = Has-of_remove_edges _ unvisited e h

-- No edge to the child is left.
pub all_visited-Has :
    (pipes : List Pipe) (child : ℕ) (left : List Pipe) (e : Pipe)
    → all_visited pipes child left ≡ true
    → Has e pipes
    → e.to ≡ child
    → Has e left
    → ⊥
unfolding all_visited get_ingoing_pipes
all_visited-Has pipes child left e all_gone member to unvisited =
    elim (Has-keep (λ p. p.to == child) e pipes member) [
      | inl ingoing ↦ elim (Has-keep (λ e. any (λ edge. same_pipe edge e) left) e _ ingoing) [
        | inl found ↦ not_empty e _ found all_gone
        | inr missing ↦
            let found = any-Has (λ edge. same_pipe edge e) e left unvisited (same_pipe_self e) in
            let absurd : true ≡ false = sym found ∙ missing in cc
      ]
      | inr other ↦ let absurd : true ≡ false = sym ((==_iff e.to child).1 to) ∙ other in cc
    ]
