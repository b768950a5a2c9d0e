-- ===== src/Pipelines/Ends.antt =====
-- The while loop of `getBlocksInTopologicalSorting` from its start to its end.
use jayvee.Base.{
  ℕ, zero, suc, ◌+◌, ◌≤◌, ◌<◌, ◌≡◌, refl, sym, ap, ◌∙◌, Bool, true, false, ◌||◌, List, [], ◌∷◌,
  ◌++◌, ◌==◌, ==_iff, length, length-reverse, Bool-cases, ◌⊎◌, inl, inr, arith,
}
use jayvee.Base.Removal.{includes_nat}
use jayvee.Pipelines.{
  Pipe, Search, start, turn, turns, get_child_blocks, get_starting_blocks, without_duplicates,
}
use jayvee.Pipelines.Edges.{Has, Has-append_right}
use jayvee.Pipelines.Order.{Has-of_reverse, starting_block-no_parent}
use jayvee.Pipelines.Measure.{IsDistinct, IsDistinct-reverse}
use jayvee.Pipelines.Termination.{
  IsFresh, measure, sort_node-IsFresh, visit_children-IsFresh, child_blocks-IsDistinct,
  child_blocks-unvisited,
}

-- The blocks that were seen are left out.
without_duplicates-unseen :
    (seen bs : List ℕ) (n : ℕ) → Has n (without_duplicates seen bs) → includes_nat seen n ≡ false
unfolding without_duplicates
without_duplicates-unseen seen [] n h = elim h [ ]
without_duplicates-unseen seen (b ∷ bs) n h = elim (Bool-cases (includes_nat seen b)) [
  | inl old ↦
      let h' : Has n (without_duplicates seen bs) = rw (without_duplicates, old) at h in
      without_duplicates-unseen seen bs n h'
  | inr new ↦
      let h' : Has n (b ∷ without_duplicates (b ∷ seen) bs) = rw (without_duplicates, new) at h in
      elim h' [
        | inl e ↦ ap (includes_nat seen) e ∙ new
        | inr later ↦ tail_of (b == n) (without_duplicates-unseen (b ∷ seen) bs n later)
      ]
]
  where
    tail_of : (b : Bool) {c : Bool} → (b || c) ≡ false → c ≡ false
    tail_of true h = cc
    tail_of false h = h

first_seen : (b : ℕ) (seen : List ℕ) → includes_nat (b ∷ seen) b ≡ false → ⊥
first_seen b seen h = let absurd : true ≡ false = sym (rw ((==_iff b b).1 refl) refl) ∙ h in cc

without_duplicates-IsDistinct : (seen bs : List ℕ) → IsDistinct (without_duplicates seen bs)
unfolding without_duplicates
without_duplicates-IsDistinct seen [] = tt
without_duplicates-IsDistinct seen (b ∷ bs) = elim (Bool-cases (includes_nat seen b)) [
  | inl old ↦ rw old (without_duplicates-IsDistinct seen bs)
  | inr new ↦ rw new (
    (λ h. first_seen b seen (without_duplicates-unseen (b ∷ seen) bs b h)),
    without_duplicates-IsDistinct (b ∷ seen) bs,
  )
]

module _ (pipes : List Pipe) where
  turn_state-IsFresh :
      (nodes : List ℕ) (unvisited : List Pipe) (sorted : List ℕ)
      → IsDistinct pipes
      → IsFresh pipes
          (record { current_nodes = nodes; unvisited_edges = unvisited; sorted_nodes = sorted })
      → let s : Search = record {
        current_nodes = nodes;
        unvisited_edges = unvisited;
        sorted_nodes = sorted;
      } in
        IsFresh pipes (turn pipes s)
        × ((nodes ≡ []) ⊎ (measure pipes (turn pipes s) < measure pipes s))
  unfolding turn
  turn_state-IsFresh [] unvisited sorted d i = (i, inl refl)
  turn_state-IsFresh (node ∷ nodes) unvisited sorted d i =
      let s : Search = record {
        current_nodes = nodes;
        unvisited_edges = unvisited;
        sorted_nodes = sorted ++ node ∷ [];
      } in
      let (fresh, bound) =
        visit_children-IsFresh pipes node (get_child_blocks pipes node) s
          (child_blocks-IsDistinct pipes node d)
          (child_blocks-unvisited pipes node _ i (i.unsorted node (inl refl)))
          (Has-append_right node sorted (node ∷ []) (inl refl))
          (sort_node-IsFresh pipes node nodes unvisited sorted i) in
      (fresh, inr (omega (arith, bound)))

  turn_ended : (s : Search) → s.current_nodes ≡ [] → (turn pipes s).current_nodes ≡ []
  unfolding turn
  turn_ended s h = rw h refl

  start-IsFresh : IsFresh pipes (start pipes)
  unfolding start get_starting_blocks
  start-IsFresh = record {
    distinct = IsDistinct-reverse _ (without_duplicates-IsDistinct [] _);
    once = tt;
    unsorted = λ n c h. h;
    current = λ e m left c.
        starting_block-no_parent pipes e.to e (Has-of_reverse e.to (get_starting_blocks pipes) c) m
          refl;
    sorted = λ e m left h. h;
    visited = λ e m. inl m;
  }

  pub turns-IsFresh :
      (n : ℕ)
      → IsDistinct pipes
      → IsFresh pipes (turns n pipes (start pipes))
        × (((turns n pipes (start pipes)).current_nodes ≡ [])
            ⊎ (measure pipes (turns n pipes (start pipes)) + n ≤ measure pipes (start pipes)))
  unfolding turns
  turns-IsFresh zero d = (start-IsFresh, inr (omega arith))
  turns-IsFresh (suc n) d =
      let s = turns n pipes (start pipes) in
      let (fresh, bound) = turns-IsFresh n d in
      let (fresh', step) =
        turn_state-IsFresh s.current_nodes s.unvisited_edges s.sorted_nodes d fresh in
      (
        fresh',
        elim bound [
          | inl ended ↦ inl (turn_ended s ended)
          | inr less ↦ elim step [
            | inl ended ↦ inl (turn_ended s ended)
            | inr falls ↦ inr (omega (arith, less, falls))
          ]
        ],
      )

  -- Where the pipes are distinct, the loop of the topological sorting ends after at most as many
  -- turns as there are starting blocks and pipes.
  pub turns-ended :
      IsDistinct pipes
      → (turns
          (length (get_starting_blocks pipes) + length pipes)
          pipes
          (start pipes)).current_nodes
        ≡ []
  unfolding start
  turns-ended d =
      let n = length (get_starting_blocks pipes) + length pipes in
      let s = turns n pipes (start pipes) in
      elim (turns-IsFresh n d).1 [
        | inl ended ↦ ended
        | inr spent ↦
            empty_of s.current_nodes
              (omega (arith, spent, length-reverse (get_starting_blocks pipes)))
      ]
    where
      empty_of : (ns : List ℕ) → length ns ≤ 0 → ns ≡ []
      empty_of [] h = refl
      empty_of (k ∷ ns) h = elim h [ ]
