-- ===== src/Pipelines/Termination.antt =====
-- The end of the while loop of `getBlocksInTopologicalSorting`: the number of current nodes and
-- unvisited edges falls in every turn.
use jayvee.Base.{
  ℕ, ◌+◌, ◌≤◌, ◌≡◌, refl, sym, ◌∙◌, subst, Bool, true, false, List, [], ◌∷◌, ◌++◌, ◌==◌, ==_iff,
  length, map, if◌then◌else◌, ◌⊎◌, inl, inr, arith,
}
use jayvee.Pipelines.{
  Pipe, Search, visit_edges, all_visited, visit_children, get_child_blocks, get_outgoing_pipes,
}
use jayvee.Pipelines.Edges.{
  Has, Has-append_left, Has-append_cases, Has-of_keep, Has-of_visit_edges, all_visited-Has,
  visit_edges-Has,
}
use jayvee.Pipelines.Order.{pushed}
use jayvee.Pipelines.Complete.{visit_edges-to}
use jayvee.Pipelines.Measure.{IsDistinct, IsDistinct-snoc, IsDistinct-keep, length-visit_edges}

pushed-IsDistinct :
    (b : Bool) (child : ℕ) (ns : List ℕ)
    → (b ≡ true → Has child ns → ⊥)
    → IsDistinct ns
    → IsDistinct (if b then child ∷ ns else ns)
pushed-IsDistinct true child ns l d = (l refl, d)
pushed-IsDistinct false child ns l d = d

pushed_length :
    (b : Bool) (child : ℕ) (ns : List ℕ) → length (if b then child ∷ ns else ns) ≤ length ns + 1
pushed_length true child ns = omega arith
pushed_length false child ns = omega arith

Has-of_map :
    (ps : List Pipe) (n : ℕ) → Has n (map (λ p. p.to) ps) → (p : Pipe) × Has p ps × (n ≡ p.to)
Has-of_map [] n h = elim h [ ]
Has-of_map (p ∷ ps) n (inl e) = (p, inl refl, e)
Has-of_map (p ∷ ps) n (inr h) = let (q, m, e) = Has-of_map ps n h in (q, inr m, e)

module _ (pipes : List Pipe) where
  -- The current nodes are distinct and not sorted, the sorted ones distinct, no edge to a node of either kind is left, and
  -- an edge that was visited leaves a sorted node.
  pub record IsFresh (s : Search) : Type 0 where
    pub distinct : IsDistinct s.current_nodes
    pub once : IsDistinct s.sorted_nodes
    pub unsorted : (n : ℕ) → Has n s.current_nodes → Has n s.sorted_nodes → ⊥
    pub current : (e : Pipe) → Has e pipes → Has e s.unvisited_edges → Has e.to s.current_nodes → ⊥
    pub sorted : (e : Pipe) → Has e pipes → Has e s.unvisited_edges → Has e.to s.sorted_nodes → ⊥
    pub visited : (e : Pipe) → Has e pipes → Has e s.unvisited_edges ⊎ Has e.from s.sorted_nodes

  abbrev pub measure : Search → ℕ
  measure s = length s.current_nodes + length s.unvisited_edges

  -- The edges from `node` to the children are still to be visited.
  abbrev AreUnvisited : ℕ → List ℕ → List Pipe → Type 0
  AreUnvisited node children unvisited =
      (c : ℕ)
      → Has c children
      → (e : Pipe) × Has e pipes × (e.from ≡ node) × (e.to ≡ c) × Has e unvisited

  -- `s` when `child` has been visited
  abbrev visited_child : ℕ → ℕ → Search → Search
  visited_child node child s = record s {
    current_nodes =
        if all_visited pipes child (visit_edges pipes node child s.unvisited_edges)
        then child ∷ s.current_nodes
        else s.current_nodes;
    unvisited_edges = visit_edges pipes node child s.unvisited_edges;
  }

  visit_child-IsFresh :
      (node child : ℕ) (s : Search) (e : Pipe)
      → Has e pipes
      → e.to ≡ child
      → Has e s.unvisited_edges
      → Has node s.sorted_nodes
      → IsFresh s
      → IsFresh (visited_child node child s)
  visit_child-IsFresh node child s e m to left done i = record {
    distinct =
        pushed-IsDistinct _ child s.current_nodes
          (λ _ h. i.current e m left (subst (λ c. Has c s.current_nodes) (sym to) h)) i.distinct;
    once = i.once;
    unsorted = λ n c. elim (pushed _ child s.current_nodes n c) [
      | inl (_, same) ↦ λ h. i.sorted e m left (subst (λ c. Has c s.sorted_nodes) (same ∙ sym to) h)
      | inr old ↦ i.unsorted n old
    ];
    current = λ d m' left' c. elim (pushed _ child s.current_nodes d.to c) [
      | inl (gone, same) ↦ all_visited-Has pipes child _ d gone m' same left'
      | inr old ↦ i.current d m' (Has-of_visit_edges pipes node child s.unvisited_edges d left') old
    ];
    sorted =
        λ d m' left'. i.sorted d m' (Has-of_visit_edges pipes node child s.unvisited_edges d left');
    visited = λ d m'. elim (i.visited d m') [
      | inl unvisited ↦ elim (visit_edges-Has pipes node child s.unvisited_edges d unvisited) [
        | inl kept ↦ inl kept
        | inr from ↦ inr (subst (λ k. Has k s.sorted_nodes) (sym from) done)
      ]
      | inr sorted ↦ inr sorted
    ];
  }

  -- A visit of the children keeps the invariant and does not raise the measure.
  pub visit_children-IsFresh :
      (node : ℕ) (children : List ℕ) (s : Search)
      → IsDistinct children
      → AreUnvisited node children s.unvisited_edges
      → Has node s.sorted_nodes
      → IsFresh s
      → IsFresh (visit_children pipes node children s)
        × (measure (visit_children pipes node children s) ≤ measure s)
  unfolding visit_children
  visit_children-IsFresh node [] s d u done i = (i, omega arith)
  visit_children-IsFresh node (child ∷ children) s (l, d) u done i =
      let (e, m, from, to, left) = u child (inl refl) in
      let smaller = length-visit_edges pipes node child s.unvisited_edges e m from to left in
      let left_edges = visit_edges pipes node child s.unvisited_edges in
      let grows = pushed_length (all_visited pipes child left_edges) child s.current_nodes in
      let (fresh, bound) =
        visit_children-IsFresh node children (visited_child node child s) d
          (λ c h.
            let (e', m', from', to', left') = u c (inr h) in
            elim (visit_edges-to pipes node child s.unvisited_edges e' left') [
              | inl kept ↦ (e', m', from', to', kept)
              | inr same ↦ elim (l (subst (λ k. Has k children) (sym to' ∙ same) h)) [ ]
            ])
          done (visit_child-IsFresh node child s e m to left done i) in
      (fresh, omega (arith, bound, smaller, grows))

  pub sort_node-IsFresh :
      (node : ℕ) (nodes : List ℕ) (unvisited : List Pipe) (sorted : List ℕ)
      → IsFresh (record {
        current_nodes = node ∷ nodes;
        unvisited_edges = unvisited;
        sorted_nodes = sorted;
      })
      → IsFresh (record {
        current_nodes = nodes;
        unvisited_edges = unvisited;
        sorted_nodes = sorted ++ node ∷ [];
      })
  sort_node-IsFresh node nodes unvisited sorted i = record {
    distinct = i.distinct.1;
    once = IsDistinct-snoc sorted node i.once (λ h. i.unsorted node (inl refl) h);
    unsorted = λ n c h. elim (Has-append_cases n sorted (node ∷ []) h) [
      | inl earlier ↦ i.unsorted n (inr c) earlier
      | inr (inl same) ↦ i.distinct.0 (subst (λ k. Has k nodes) same c)
      | inr (inr nothing) ↦ nothing
    ];
    current = λ e m left c. i.current e m left (inr c);
    sorted = λ e m left h. elim (Has-append_cases e.to sorted (node ∷ []) h) [
      | inl earlier ↦ i.sorted e m left earlier
      | inr (inl same) ↦ i.current e m left (inl same)
      | inr (inr nothing) ↦ nothing
    ];
    visited = λ e m. elim (i.visited e m) [
      | inl left ↦ inl left
      | inr done ↦ inr (Has-append_left e.from sorted (node ∷ []) done)
    ];
  }

  pub child_blocks-IsDistinct :
      (node : ℕ) → IsDistinct pipes → IsDistinct (get_child_blocks pipes node)
  unfolding get_child_blocks get_outgoing_pipes
  child_blocks-IsDistinct node d =
      targets _ (λ p h. (==_iff p.from node).0 (Has-of_keep (λ q. q.from == node) p pipes h).1)
        (IsDistinct-keep (λ q. q.from == node) pipes d)
    where
      targets :
          (ps : List Pipe)
          → ((p : Pipe) → Has p ps → p.from ≡ node)
          → IsDistinct ps
          → IsDistinct (map (λ p. p.to) ps)
      targets [] from d = tt
      targets (p ∷ ps) from (l, d) = (
        λ h.
            let (q, m, e) = Has-of_map ps p.to h in
            let f : p.from ≡ q.from = from p (inl refl) ∙ sym (from q (inr m)) in
            let same : p ≡ q = λ i. record { from = f i; to = e i } in
            l (subst (λ x. Has x ps) (sym same) m),
        targets ps (λ q m. from q (inr m)) d,
      )

  -- The node that is taken is not sorted yet, so that all edges from it are unvisited.
  pub child_blocks-unvisited :
      (node : ℕ) (s : Search)
      → IsFresh s
      → (Has node s.sorted_nodes → ⊥)
      → AreUnvisited node (get_child_blocks pipes node) s.unvisited_edges
  unfolding get_child_blocks get_outgoing_pipes
  child_blocks-unvisited node s i unsorted c h =
      let (e, found, to) = Has-of_map _ c h in
      let (m, from) = Has-of_keep (λ q. q.from == node) e pipes found in
      let from' = (==_iff e.from node).0 from in
      elim (i.visited e m) [
        | inl left ↦ (e, m, from', sym to, left)
        | inr done ↦ elim (unsorted (subst (λ k. Has k s.sorted_nodes) from' done)) [ ]
      ]
