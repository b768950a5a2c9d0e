-- ===== src/Pipelines/Total.antt =====
-- The result of `getBlocksInTopologicalSorting` on pipes without a cycle.
use jayvee.Base.{
  ℕ, zero, suc, ◌+◌, ◌<◌, ◌≡◌, refl, sym, ap, ap₂, ◌∙◌, subst, true, false, not, some, List, [],
  ◌∷◌, ◌==◌, ==_iff, length, map, Bool-cases, inl, inr, arith, ok,
}
use jayvee.Base.Removal.{includes_nat}
use jayvee.Pipelines.{
  Pipe, start, any, turns, get_starting_blocks, get_starting_block_pipes, without_duplicates,
  get_blocks_in_topological_sorting, returned,
}
use jayvee.Pipelines.Edges.{Has, Has-keep}
use jayvee.Pipelines.Order.{IsOrdered, turns-IsOrdered}
use jayvee.Pipelines.Complete.{any-true, turns-IsReached, turns_complete}
use jayvee.Pipelines.Measure.{IsDistinct}
use jayvee.Pipelines.Ends.{turns-ended, turns-IsFresh}
use jayvee.Pipelines.Reached.{turns-IsExplored}

-- A block is kept, unless it was seen.
without_duplicates-Has :
    (seen bs : List ℕ) (n : ℕ)
    → includes_nat seen n ≡ false
    → Has n bs
    → Has n (without_duplicates seen bs)
unfolding without_duplicates
without_duplicates-Has seen [] n u h = h
without_duplicates-Has seen (b ∷ bs) n u h = elim (Bool-cases (b == n)) [
  | inl same ↦ let e = (==_iff b n).0 same in rw (ap (includes_nat seen) e ∙ u) (inl (sym e))
  | inr other ↦ elim h [
    | inl e ↦ let absurd : true ≡ false = sym ((==_iff b n).1 (sym e)) ∙ other in cc
    | inr later ↦ elim (Bool-cases (includes_nat seen b)) [
      | inl old ↦ rw old (without_duplicates-Has seen bs n u later)
      | inr new ↦ rw new (inr (without_duplicates-Has (b ∷ seen) bs n (rw (other, u) refl) later))
    ]
  ]
]

module _ (pipes : List Pipe) where
  -- A block with an outgoing pipe and no ingoing pipe is a starting block.
  starting_blocks-Has :
      (e : Pipe)
      → Has e pipes
      → any (λ p. p.to == e.from) pipes ≡ false
      → Has e.from (get_starting_blocks pipes)
  unfolding get_starting_blocks get_starting_block_pipes
  starting_blocks-Has e m free = without_duplicates-Has [] _ e.from refl (
      source _ (elim (Has-keep (λ q. not (any (λ p. p.to == q.from) pipes)) e pipes m) [
        | inl k ↦ k
        | inr f ↦ let absurd : true ≡ false = sym (ap not free) ∙ f in cc
      ]))
    where
      source : (ps : List Pipe) → Has e ps → Has e.from (map (λ p. p.from) ps)
      source [] h = h
      source (p ∷ ps) (inl same) = inl (ap (λ x. x.from) same)
      source (p ∷ ps) (inr h) = inr (source ps h)

  -- Along the ranks, the source of every pipe is sorted once the loop has ended.
  source-sorted :
      (n : ℕ) (rank : ℕ → ℕ)
      → ((e : Pipe) → Has e pipes → rank e.from < rank e.to)
      → (turns n pipes (start pipes)).current_nodes ≡ []
      → (bound : ℕ) (e : Pipe) → Has e pipes
      → rank e.from < bound
      → Has e.from ((turns n pipes (start pipes)).sorted_nodes)
  source-sorted n rank rises ended zero e m less = elim less [ ]
  source-sorted n rank rises ended (suc bound) e m less =
      let s = turns n pipes (start pipes) in
      elim (Bool-cases (any (λ p. p.to == e.from) pipes)) [
        | inl fed ↦
            let (d, md, td) = any-true (λ p. p.to == e.from) pipes fed in
            let to = (==_iff d.to e.from).0 td in
            elim (turns-IsReached pipes n d md (λ c mc tc left.
              (turns-IsExplored pipes n).explored c mc
                (source-sorted n rank rises ended bound c mc
                  (omega (arith, less, rises c mc, ap rank (tc ∙ to))))
                left)) [
                  | inl current ↦ elim (subst (Has d.to) ended current) [ ]
                  | inr done ↦ subst (λ k. Has k s.sorted_nodes) to done
                ]
        | inr free ↦
            elim ((turns-IsExplored pipes n).started e.from (starting_blocks-Has e m free)) [
              | inl current ↦ elim (subst (Has e.from) ended current) [ ]
              | inr done ↦ done
            ]
      ]

  -- No edge is left.
  turns-visited :
      (n : ℕ) (rank : ℕ → ℕ)
      → ((e : Pipe) → Has e pipes → rank e.from < rank e.to)
      → (turns n pipes (start pipes)).current_nodes ≡ []
      → (turns n pipes (start pipes)).unvisited_edges ≡ []
  turns-visited n rank rises ended = nothing_left _ (λ e left.
      let i = turns-IsExplored pipes n in
      let m = i.known e left in
      i.explored e m (source-sorted n rank rises ended (rank e.to) e m (rises e m)) left)
    where
      nothing_left : (es : List Pipe) → ((e : Pipe) → Has e es → ⊥) → es ≡ []
      nothing_left [] f = refl
      nothing_left (e ∷ es) f = elim (f e (inl refl)) [ ]

  -- The list is a topological sorting of the blocks that have pipes.
  pub record IsTopologicalSorting (nodes : List ℕ) : Type 0 where
    pub ordered : IsOrdered pipes [] nodes
    pub distinct : IsDistinct nodes
    pub complete : (e : Pipe) → Has e pipes → Has e.from nodes × Has e.to nodes

  -- Where the pipes are distinct and some ranking of the blocks rises along every pipe, so that there
  -- is no cycle, the topological sorting returns without a failed assertion, after at most as many
  -- turns of its loop as there are starting blocks and pipes. Its result has both blocks of every
  -- pipe, no block twice, and each block behind all of its parents.
  pub get_blocks-IsTopologicalSorting :
      IsDistinct pipes
      → (rank : ℕ → ℕ) → ((e : Pipe) → Has e pipes → rank e.from < rank e.to)
      → (nodes : List ℕ) × (get_blocks_in_topological_sorting
            (length (get_starting_blocks pipes) + length pipes)
            pipes
          ≡ some (ok nodes))
        × IsTopologicalSorting nodes
  unfolding get_blocks_in_topological_sorting
  get_blocks-IsTopologicalSorting d rank rises =
      let n = length (get_starting_blocks pipes) + length pipes in
      let s = turns n pipes (start pipes) in
      let ended = turns-ended pipes d in
      let visited = turns-visited n rank rises ended in
      (
        s.sorted_nodes,
        ap₂ (λ c u. returned c u s.sorted_nodes) ended visited,
        record {
          ordered = turns-IsOrdered pipes n;
          distinct = (turns-IsFresh pipes n d).0.once;
          complete = turns_complete pipes n ended visited;
        },
      )
