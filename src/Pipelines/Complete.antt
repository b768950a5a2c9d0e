-- ===== src/Pipelines/Complete.antt =====
-- The blocks that `getBlocksInTopologicalSorting` reaches.
use mathlib.Core.Bool.{and-eq-true_iff}
use jayvee.Base.{
  ℕ, zero, suc, ◌≡◌, refl, sym, ap, ◌∙◌, subst, Bool, true, false, not, List, [], ◌∷◌, ◌++◌, ◌==◌,
  ==_iff, length, if◌then◌else◌, Bool-cases, ◌⊎◌, inl, inr,
}
use jayvee.Pipelines.{
  Pipe, Search, start, keep, any, same_pipe, remove_edges, visit_edges, all_visited, visit_children,
  turn, turns, get_child_blocks, get_ingoing_pipes,
}
use jayvee.Pipelines.Edges.{Has, Has-append_left, Has-append_right, Has-keep, Has-of_keep}
use jayvee.Pipelines.Order.{turns-IsSearch}

pub any-true :
    (test : Pipe → Bool) (xs : List Pipe)
    → any test xs ≡ true
    → (x : Pipe) × Has x xs × (test x ≡ true)
any-true test [] h = cc
any-true test (x ∷ xs) h = elim (Bool-cases (test x)) [
  | inl found ↦ (x, inl refl, found)
  | inr missed ↦
      let h' : any test xs ≡ true = rw missed at h in
      let (y, m, t) = any-true test xs h' in (y, inr m, t)
]

keep-none :
    (test : Pipe → Bool) (xs : List Pipe)
    → ((x : Pipe) → Has x xs → test x ≡ false)
    → keep test xs ≡ []
unfolding keep
keep-none test [] h = refl
keep-none test (x ∷ xs) h = rw (h x (inl refl)) (keep-none test xs (λ y m. h y (inr m)))

pub same_pipe-eq : (p q : Pipe) → same_pipe p q ≡ true → p ≡ q
same_pipe-eq p q h =
    let (f, t) = (and-eq-true_iff _ _).0 h in
    let e = (==_iff p.from q.from).0 f in
    let e' = (==_iff p.to q.to).0 t in λ i. record { from = e i; to = e' i }

-- Where no edge to the child is left, the test for it holds.
all_visited_of :
    (pipes : List Pipe) (child : ℕ) (left : List Pipe)
    → ((d : Pipe) → Has d pipes → d.to ≡ child → Has d left → ⊥)
    → all_visited pipes child left ≡ true
unfolding all_visited get_ingoing_pipes
all_visited_of pipes child left h =
    ap (λ xs. length xs == 0)
      (keep-none _ _ (λ d m.
        let (member, to) = Has-of_keep (λ p. p.to == child) d pipes m in
        elim (Bool-cases (any (λ edge. same_pipe edge d) left)) [
          | inl some_left ↦
              let (edge, found, same) = any-true (λ edge. same_pipe edge d) left some_left in
              elim (h d member ((==_iff d.to child).0 to)
                (subst (λ x. Has x left) (same_pipe-eq edge d same) found)) [ ]
          | inr none_left ↦ none_left
        ]))

-- An edge that is removed leads to the child.
remove_edges-to :
    (child : ℕ) (es unvisited : List Pipe) (e : Pipe)
    → ((d : Pipe) → Has d es → d.to ≡ child)
    → Has e unvisited
    → Has e (remove_edges es unvisited) ⊎ (e.to ≡ child)
unfolding remove_edges
remove_edges-to child [] unvisited e law h = inl h
remove_edges-to child (d ∷ es) unvisited e law h = elim (Bool-cases (same_pipe e d)) [
  | inl same ↦ inr (ap (λ p. p.to) (same_pipe-eq e d same) ∙ law d (inl refl))
  | inr other ↦ elim (Has-keep (λ edge. not (same_pipe edge d)) e unvisited h) [
    | inl kept ↦ remove_edges-to child es _ e (λ d' m. law d' (inr m)) kept
    | inr removed ↦ let absurd : true ≡ false = sym (ap not other) ∙ removed in cc
  ]
]

pub visit_edges-to :
    (pipes : List Pipe) (node child : ℕ) (unvisited : List Pipe) (e : Pipe)
    → Has e unvisited
    → Has e (visit_edges pipes node child unvisited) ⊎ (e.to ≡ child)
unfolding visit_edges get_ingoing_pipes
visit_edges-to pipes node child unvisited e h =
    remove_edges-to child _ unvisited e
      (λ d m.
        let (ingoing, _) = Has-of_keep (λ p. p.from == node) d _ m in
        (==_iff d.to child).0 (Has-of_keep (λ p. p.to == child) d pipes ingoing).1)
      h

pushed_first :
    (b : Bool) (child n : ℕ) (ns : List ℕ)
    → n ≡ child
    → b ≡ true
    → Has n (if b then child ∷ ns else ns)
pushed_first true child n ns same e = inl same
pushed_first false child n ns same e = cc

pub pushed_later :
    (b : Bool) (child n : ℕ) (ns : List ℕ) → Has n ns → Has n (if b then child ∷ ns else ns)
pushed_later true child n ns h = inr h
pushed_later false child n ns h = h

module _ (pipes : List Pipe) where
  -- A block all of whose edges were visited is a current or a sorted node.
  abbrev pub IsReached : Search → Type 0
  IsReached s =
      (e : Pipe)
      → Has e pipes
      → ((d : Pipe) → Has d pipes → d.to ≡ e.to → Has d s.unvisited_edges → ⊥)
      → Has e.to s.current_nodes ⊎ Has e.to s.sorted_nodes

  visit_child-IsReached :
      (node child : ℕ) (s : Search)
      → IsReached s
      → IsReached (record s {
        current_nodes =
            if all_visited pipes child (visit_edges pipes node child s.unvisited_edges)
            then child ∷ s.current_nodes
            else s.current_nodes;
        unvisited_edges = visit_edges pipes node child s.unvisited_edges;
      })
  visit_child-IsReached node child s i e m gone = elim (Bool-cases (e.to == child)) [
    | inl here ↦
        let to = (==_iff e.to child).0 here in
        let visited = all_visited_of pipes child _ (λ d m' t. gone d m' (t ∙ sym to)) in
        inl (pushed_first _ child e.to s.current_nodes to visited)
    | inr elsewhere ↦
        elim (i e m (λ d m' t left.
          elim (visit_edges-to pipes node child s.unvisited_edges d left) [
            | inl kept ↦ gone d m' t kept
            | inr to ↦
                let absurd : true ≡ false = sym ((==_iff e.to child).1 (sym t ∙ to)) ∙ elsewhere in
                cc
          ])) [
            | inl current ↦ inl (pushed_later _ child e.to s.current_nodes current)
            | inr done ↦ inr done
          ]
  ]

  visit_children-IsReached :
      (node : ℕ) (children : List ℕ) (s : Search)
      → IsReached s
      → IsReached (visit_children pipes node children s)
  unfolding visit_children
  visit_children-IsReached node [] s i = i
  visit_children-IsReached node (child ∷ children) s i =
      visit_children-IsReached node children _ (visit_child-IsReached node child s i)

  sort_node-IsReached :
      (node : ℕ) (nodes : List ℕ) (unvisited : List Pipe) (sorted : List ℕ)
      → IsReached (record {
        current_nodes = node ∷ nodes;
        unvisited_edges = unvisited;
        sorted_nodes = sorted;
      })
      → IsReached (record {
        current_nodes = nodes;
        unvisited_edges = unvisited;
        sorted_nodes = sorted ++ node ∷ [];
      })
  sort_node-IsReached node nodes unvisited sorted i e m gone = elim (i e m gone) [
    | inl (inl same) ↦ inr (Has-append_right e.to sorted (node ∷ []) (inl same))
    | inl (inr later) ↦ inl later
    | inr done ↦ inr (Has-append_left e.to sorted (node ∷ []) done)
  ]

  turn_state-IsReached :
      (nodes : List ℕ) (unvisited : List Pipe) (sorted : List ℕ)
      → IsReached
          (record { current_nodes = nodes; unvisited_edges = unvisited; sorted_nodes = sorted })
      → IsReached (
          turn pipes
            (record { current_nodes = nodes; unvisited_edges = unvisited; sorted_nodes = sorted }))
  unfolding turn
  turn_state-IsReached [] unvisited sorted i = i
  turn_state-IsReached (node ∷ nodes) unvisited sorted i =
      visit_children-IsReached node (get_child_blocks pipes node) _
        (sort_node-IsReached node nodes unvisited sorted i)

  pub turns-IsReached : (n : ℕ) → IsReached (turns n pipes (start pipes))
  unfolding turns start
  turns-IsReached zero = λ e m gone. elim (gone e m refl m) [ ]
  turns-IsReached (suc n) =
      let s = turns n pipes (start pipes) in
      turn_state-IsReached s.current_nodes s.unvisited_edges s.sorted_nodes (turns-IsReached n)

  -- When the loop of the topological sorting has ended and no edge is left unvisited, both blocks of
  -- every pipe are sorted.
  pub turns_complete :
      (n : ℕ)
      → (turns n pipes (start pipes)).current_nodes ≡ []
      → (turns n pipes (start pipes)).unvisited_edges ≡ []
      → (e : Pipe) → Has e pipes
      → Has e.from ((turns n pipes (start pipes)).sorted_nodes)
        × Has e.to ((turns n pipes (start pipes)).sorted_nodes)
  turns_complete n ended visited e m = (
    elim ((turns-IsSearch pipes n).visited e m) [
      | inl left ↦ elim (subst (Has e) visited left) [ ]
      | inr done ↦ done
    ],
    elim (turns-IsReached n e m (λ d m' t left. subst (Has d) visited left)) [
      | inl current ↦ elim (subst (Has e.to) ended current) [ ]
      | inr done ↦ done
    ],
  )
