-- ===== src/Pipelines/Reached.antt =====
-- The edges from sorted blocks, and the starting blocks, in the while loop of
-- `getBlocksInTopologicalSorting`.
use mathlib.Core.List.{reverse-cons}
use jayvee.Base.{
  ℕ, zero, suc, ◌≡◌, refl, sym, ap, ◌∙◌, subst, Bool, true, false, not, List, [], ◌∷◌, ◌++◌, ◌==◌,
  ==_iff, map, reverse, ◌⊎◌, inl, inr,
}
use jayvee.Pipelines.{
  Pipe, Search, start, keep, same_pipe, remove_edges, visit_edges, visit_children, turn, turns,
  get_child_blocks, get_outgoing_pipes, get_ingoing_pipes, get_starting_blocks,
}
use jayvee.Pipelines.Edges.{
  Has, Has-append_left, Has-append_right, Has-append_cases, Has-keep, Has-of_keep,
  Has-of_visit_edges, Has-of_remove_edges, same_pipe_self,
}
use jayvee.Pipelines.Complete.{pushed_later}

remove_edges-gone :
    (es unvisited : List Pipe) (e : Pipe) → Has e es → Has e (remove_edges es unvisited) → ⊥
unfolding remove_edges
remove_edges-gone [] unvisited e h left = h
remove_edges-gone (d ∷ es) unvisited e (inl same) left =
    let (_, kept) = Has-of_keep _ e unvisited (Has-of_remove_edges es _ e left) in
    let absurd : false ≡ true =
      sym (ap not (ap (same_pipe e) (sym same) ∙ same_pipe_self e)) ∙ kept in
    cc
remove_edges-gone (d ∷ es) unvisited e (inr later) left = remove_edges-gone es _ e later left

kept :
    (test : Pipe → Bool) (xs : List Pipe) (e : Pipe)
    → test e ≡ true
    → Has e xs
    → Has e (keep test xs)
kept test xs e t h = elim (Has-keep test e xs h) [
  | inl k ↦ k
  | inr f ↦ let absurd : true ≡ false = sym t ∙ f in cc
]

visit_edges-gone :
    (pipes : List Pipe) (node child : ℕ) (unvisited : List Pipe) (e : Pipe)
    → Has e pipes
    → e.from ≡ node
    → e.to ≡ child
    → Has e (visit_edges pipes node child unvisited)
    → ⊥
unfolding visit_edges get_ingoing_pipes
visit_edges-gone pipes node child unvisited e m from to = remove_edges-gone _ unvisited e (
    kept (λ p. p.from == node) _ e ((==_iff e.from node).1 from)
      (kept (λ p. p.to == child) pipes e ((==_iff e.to child).1 to) m))

Has-reverse : (n : ℕ) (ns : List ℕ) → Has n ns → Has n (reverse ns)
Has-reverse n [] h = h
Has-reverse n (m ∷ ns) (inl here) =
    rw (reverse-cons m ns) (Has-append_right n (reverse ns) (m ∷ []) (inl here))
Has-reverse n (m ∷ ns) (inr h) =
    rw (reverse-cons m ns) (Has-append_left n (reverse ns) (m ∷ []) (Has-reverse n ns h))

-- Every pipe from a block leads to one of its children.
child_blocks-Has :
    (pipes : List Pipe) (e : Pipe) → Has e pipes → Has e.to (get_child_blocks pipes e.from)
unfolding get_child_blocks get_outgoing_pipes
child_blocks-Has pipes e m =
    target _ (kept (λ p. p.from == e.from) pipes e ((==_iff e.from e.from).1 refl) m)
  where
    target : (ps : List Pipe) → Has e ps → Has e.to (map (λ p. p.to) ps)
    target [] h = h
    target (p ∷ ps) (inl same) = inl (ap (λ x. x.to) same)
    target (p ∷ ps) (inr h) = inr (target ps h)

module _ (pipes : List Pipe) where
  Has-of_visit_children :
      (node : ℕ) (children : List ℕ) (s : Search) (e : Pipe)
      → Has e ((visit_children pipes node children s).unvisited_edges)
      → Has e s.unvisited_edges
  unfolding visit_children
  Has-of_visit_children node [] s e h = h
  Has-of_visit_children node (child ∷ children) s e h =
      Has-of_visit_edges pipes node child s.unvisited_edges e
        (Has-of_visit_children node children _ e h)

  visit_children-gone :
      (node : ℕ) (children : List ℕ) (s : Search) (e : Pipe)
      → Has e pipes
      → e.from ≡ node
      → Has e.to children
      → Has e ((visit_children pipes node children s).unvisited_edges)
      → ⊥
  unfolding visit_children
  visit_children-gone node [] s e m from to left = to
  visit_children-gone node (child ∷ children) s e m from (inl here) left =
      visit_edges-gone pipes node child s.unvisited_edges e m from here
        (Has-of_visit_children node children _ e left)
  visit_children-gone node (child ∷ children) s e m from (inr later) left =
      visit_children-gone node children _ e m from later left

  visit_children-current :
      (node : ℕ) (children : List ℕ) (s : Search) (n : ℕ)
      → Has n s.current_nodes
      → Has n ((visit_children pipes node children s).current_nodes)
  unfolding visit_children
  visit_children-current node [] s n h = h
  visit_children-current node (child ∷ children) s n h =
      visit_children-current node children _ n (pushed_later _ child n s.current_nodes h)

  visit_children-sorted :
      (node : ℕ) (children : List ℕ) (s : Search)
      → (visit_children pipes node children s).sorted_nodes ≡ s.sorted_nodes
  unfolding visit_children
  visit_children-sorted node [] s = refl
  visit_children-sorted node (child ∷ children) s = visit_children-sorted node children _

  -- Every edge from a sorted block was visited, every edge left is a pipe, and the starting blocks
  -- are current or sorted.
  pub record IsExplored (s : Search) : Type 0 where
    pub explored :
        (e : Pipe) → Has e pipes → Has e.from s.sorted_nodes → Has e s.unvisited_edges → ⊥
    pub known : (e : Pipe) → Has e s.unvisited_edges → Has e pipes
    pub started :
        (n : ℕ) → Has n (get_starting_blocks pipes) → Has n s.current_nodes ⊎ Has n s.sorted_nodes

  turn_state-IsExplored :
      (nodes : List ℕ) (unvisited : List Pipe) (sorted : List ℕ)
      → IsExplored
          (record { current_nodes = nodes; unvisited_edges = unvisited; sorted_nodes = sorted })
      → IsExplored (
          turn pipes
            (record { current_nodes = nodes; unvisited_edges = unvisited; sorted_nodes = sorted }))
  unfolding turn
  turn_state-IsExplored [] unvisited sorted i = i
  turn_state-IsExplored (node ∷ nodes) unvisited sorted i =
      let s : Search = record {
        current_nodes = nodes;
        unvisited_edges = unvisited;
        sorted_nodes = sorted ++ node ∷ [];
      } in
      let children = get_child_blocks pipes node in
      let same = visit_children-sorted node children s in
      record {
        explored = λ e m done left.
            elim (Has-append_cases e.from sorted (node ∷ []) (subst (Has e.from) same done)) [
              | inl earlier ↦ i.explored e m earlier (Has-of_visit_children node children s e left)
              | inr (inl from) ↦
                  visit_children-gone node children s e m from
                    (subst (λ k. Has e.to (get_child_blocks pipes k)) from
                      (child_blocks-Has pipes e m))
                    left
              | inr (inr nothing) ↦ nothing
            ];
        known = λ e left. i.known e (Has-of_visit_children node children s e left);
        started = λ n h. elim (i.started n h) [
          | inl (inl here) ↦
              inr (subst (Has n) (sym same) (Has-append_right n sorted (node ∷ []) (inl here)))
          | inl (inr later) ↦ inl (visit_children-current node children s n later)
          | inr done ↦ inr (subst (Has n) (sym same) (Has-append_left n sorted (node ∷ []) done))
        ];
      }

  start-IsExplored : IsExplored (start pipes)
  unfolding start
  start-IsExplored = record {
    explored = λ e m done left. done;
    known = λ e left. left;
    started = λ n h. inl (Has-reverse n (get_starting_blocks pipes) h);
  }

  pub turns-IsExplored : (n : ℕ) → IsExplored (turns n pipes (start pipes))
  unfolding turns
  turns-IsExplored zero = start-IsExplored
  turns-IsExplored (suc n) =
      let s = turns n pipes (start pipes) in
      turn_state-IsExplored s.current_nodes s.unvisited_edges s.sorted_nodes (turns-IsExplored n)
