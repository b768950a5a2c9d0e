-- ===== src/Pipelines/Order.antt =====
-- The order that `getBlocksInTopologicalSorting` builds.
use mathlib.Core.List.{append_assoc, append-nil, reverse-cons}
use jayvee.Base.{
  ℕ, zero, suc, ◌≡◌, refl, sym, ap, ◌∙◌, subst, Bool, true, false, not, List, [], ◌∷◌, ◌++◌, map,
  reverse, ◌==◌, ==_iff, if◌then◌else◌, Bool-cases, ◌⊎◌, inl, inr,
}
use jayvee.Base.Removal.{includes_nat}
use jayvee.Pipelines.{
  Pipe, Search, start, any, visit_edges, all_visited, visit_children, turn, turns, get_child_blocks,
  get_starting_blocks, get_starting_block_pipes, without_duplicates,
}
use jayvee.Pipelines.Edges.{
  Has, Has-append_left, Has-append_right, Has-append_cases, Has-of_keep, any-Has, visit_edges-Has,
  Has-of_visit_edges, all_visited-Has,
}

pub pushed :
    (b : Bool) (child : ℕ) (ns : List ℕ) (n : ℕ)
    → Has n (if b then child ∷ ns else ns)
    → ((b ≡ true) × (n ≡ child)) ⊎ Has n ns
pushed true child ns n (inl e) = inl (refl, e)
pushed true child ns n (inr h) = inr h
pushed false child ns n h = inr h

pub Has-of_reverse : (n : ℕ) (ns : List ℕ) → Has n (reverse ns) → Has n ns
Has-of_reverse n [] h = h
Has-of_reverse n (m ∷ ns) h =
    elim (Has-append_cases n (reverse ns) (m ∷ []) (subst (Has n) (reverse-cons m ns) h)) [
      | inl earlier ↦ inr (Has-of_reverse n ns earlier)
      | inr (inl same) ↦ inl same
      | inr (inr nothing) ↦ elim nothing [ ]
    ]

module _ (pipes : List Pipe) where
  -- Each block of the list stands behind all of its parents, those `before` the list included.
  abbrev pub IsOrdered : List ℕ → List ℕ → Type 0
  IsOrdered before [] = Unit
  IsOrdered before (n ∷ ns) =
      ((e : Pipe) → Has e pipes → e.to ≡ n → Has e.from before) × IsOrdered (before ++ n ∷ []) ns

  -- The state of the search: an edge that was visited leaves a sorted node, no edge to a
  -- current node is left, and the sorted nodes are in order.
  pub record IsSearch (s : Search) : Type 0 where
    pub visited : (e : Pipe) → Has e pipes → Has e s.unvisited_edges ⊎ Has e.from s.sorted_nodes
    pub current :
        (n : ℕ)
        → Has n s.current_nodes
        → (e : Pipe) → Has e pipes
        → e.to ≡ n
        → Has e s.unvisited_edges
        → ⊥
    pub ordered : IsOrdered [] s.sorted_nodes

  IsOrdered-snoc :
      (before ns : List ℕ) (n : ℕ)
      → IsOrdered before ns
      → ((e : Pipe) → Has e pipes → e.to ≡ n → Has e.from (before ++ ns))
      → IsOrdered before (ns ++ n ∷ [])
  IsOrdered-snoc before [] n o parents =
      (λ e m t. subst (Has e.from) (append-nil before) (parents e m t), tt)
  IsOrdered-snoc before (k ∷ ns) n (p, o) parents = (
    p,
    IsOrdered-snoc (before ++ k ∷ []) ns n o
        (λ e m t. subst (Has e.from) (sym (append_assoc before (k ∷ []) ns)) (parents e m t)),
  )

  visit_child-IsSearch :
      (node child : ℕ) (s : Search)
      → IsSearch s
      → Has node s.sorted_nodes
      → IsSearch (record s {
        current_nodes =
            if all_visited pipes child (visit_edges pipes node child s.unvisited_edges)
            then child ∷ s.current_nodes
            else s.current_nodes;
        unvisited_edges = visit_edges pipes node child s.unvisited_edges;
      })
  visit_child-IsSearch node child s i sorted = record {
    visited = λ e m. elim (i.visited e m) [
      | inl left ↦ elim (visit_edges-Has pipes node child s.unvisited_edges e left) [
        | inl kept ↦ inl kept
        | inr from ↦ inr (subst (λ k. Has k s.sorted_nodes) (sym from) sorted)
      ]
      | inr done ↦ inr done
    ];
    current = λ n c e m t left. elim (pushed _ child s.current_nodes n c) [
      | inl (gone, same) ↦ all_visited-Has pipes child _ e gone m (t ∙ same) left
      | inr old ↦
          i.current n old e m t (Has-of_visit_edges pipes node child s.unvisited_edges e left)
    ];
    ordered = i.ordered;
  }

  visit_children-IsSearch :
      (node : ℕ) (children : List ℕ) (s : Search)
      → IsSearch s
      → Has node s.sorted_nodes
      → IsSearch (visit_children pipes node children s)
  unfolding visit_children
  visit_children-IsSearch node [] s i sorted = i
  visit_children-IsSearch node (child ∷ children) s i sorted =
      visit_children-IsSearch node children _ (visit_child-IsSearch node child s i sorted) sorted

  sort_node-IsSearch :
      (node : ℕ) (nodes : List ℕ) (unvisited : List Pipe) (sorted : List ℕ)
      → IsSearch (record {
        current_nodes = node ∷ nodes;
        unvisited_edges = unvisited;
        sorted_nodes = sorted;
      })
      → IsSearch (record {
        current_nodes = nodes;
        unvisited_edges = unvisited;
        sorted_nodes = sorted ++ node ∷ [];
      })
  sort_node-IsSearch node nodes unvisited sorted i = record {
    visited = λ e m. elim (i.visited e m) [
      | inl left ↦ inl left
      | inr done ↦ inr (Has-append_left e.from sorted (node ∷ []) done)
    ];
    current = λ n c e m t left. i.current n (inr c) e m t left;
    ordered = IsOrdered-snoc [] sorted node i.ordered (λ e m t. elim (i.visited e m) [
      | inl left ↦ elim (i.current node (inl refl) e m t left) [ ]
      | inr done ↦ done
    ]);
  }

  turn_state-IsSearch :
      (nodes : List ℕ) (unvisited : List Pipe) (sorted : List ℕ)
      → IsSearch
          (record { current_nodes = nodes; unvisited_edges = unvisited; sorted_nodes = sorted })
      → IsSearch (
          turn pipes
            (record { current_nodes = nodes; unvisited_edges = unvisited; sorted_nodes = sorted }))
  unfolding turn
  turn_state-IsSearch [] unvisited sorted i = i
  turn_state-IsSearch (node ∷ nodes) unvisited sorted i =
      visit_children-IsSearch node (get_child_blocks pipes node) _
        (sort_node-IsSearch node nodes unvisited sorted i)
        (Has-append_right node sorted (node ∷ []) (inl refl))

  Has-of_without_duplicates :
      (seen bs : List ℕ) (n : ℕ) → Has n (without_duplicates seen bs) → Has n bs
  unfolding without_duplicates
  Has-of_without_duplicates seen [] n h = h
  Has-of_without_duplicates seen (b ∷ bs) n h = elim (Bool-cases (includes_nat seen b)) [
    | inl old ↦
        let h' : Has n (without_duplicates seen bs) = rw (without_duplicates, old) at h in
        inr (Has-of_without_duplicates seen bs n h')
    | inr new ↦
        let h' : Has n (b ∷ without_duplicates (b ∷ seen) bs) = rw (without_duplicates, new) at h in
        elim h' [
          | inl e ↦ inl e
          | inr later ↦ inr (Has-of_without_duplicates (b ∷ seen) bs n later)
        ]
  ]

  Has-of_map_from :
      (ps : List Pipe) (n : ℕ) → Has n (map (λ p. p.from) ps) → (p : Pipe) × Has p ps × (n ≡ p.from)
  Has-of_map_from [] n h = elim h [ ]
  Has-of_map_from (p ∷ ps) n (inl e) = (p, inl refl, e)
  Has-of_map_from (p ∷ ps) n (inr h) = let (q, m, e) = Has-of_map_from ps n h in (q, inr m, e)

  -- No pipe leads to a starting block.
  pub starting_block-no_parent :
      (n : ℕ) (e : Pipe) → Has n (get_starting_blocks pipes) → Has e pipes → e.to ≡ n → ⊥
  unfolding get_starting_blocks get_starting_block_pipes
  starting_block-no_parent n e h m t =
      let (p, found, from) = Has-of_map_from _ n (Has-of_without_duplicates [] _ n h) in
      let (_, free) =
        Has-of_keep (λ pipe. not (any (λ q. q.to == pipe.from) pipes)) p pipes found in
      let taken = any-Has (λ q. q.to == p.from) e pipes m ((==_iff e.to p.from).1 (t ∙ from)) in
      let absurd : false ≡ true = ap not (sym taken) ∙ free in cc

  start-IsSearch : IsSearch (start pipes)
  unfolding start
  start-IsSearch = record {
    visited = λ e m. inl m;
    current = λ n c e m t left.
        starting_block-no_parent n e (Has-of_reverse n (get_starting_blocks pipes) c) m t;
    ordered = tt;
  }

  turn-IsSearch : (s : Search) → IsSearch s → IsSearch (turn pipes s)
  turn-IsSearch s i = turn_state-IsSearch s.current_nodes s.unvisited_edges s.sorted_nodes i

  pub turns-IsSearch : (n : ℕ) → IsSearch (turns n pipes (start pipes))
  unfolding turns
  turns-IsSearch zero = start-IsSearch
  turns-IsSearch (suc n) = turn-IsSearch (turns n pipes (start pipes)) (turns-IsSearch n)

  -- However often the loop of the topological sorting has been run, each block it has sorted stands
  -- behind all of its parents.
  pub turns-IsOrdered : (n : ℕ) → IsOrdered [] ((turns n pipes (start pipes)).sorted_nodes)
  turns-IsOrdered n = (turns-IsSearch n).ordered
