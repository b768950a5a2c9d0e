-- ===== src/Pipelines.antt =====
-- libs/language-server/src/lib/ast/wrappers: pipeline-wrapper.ts and pipe-wrapper.ts. Blocks are told
-- apart by a number. The while loop of `getBlocksInTopologicalSorting` is a state and a step.
pub mod Edges
pub mod Order
pub mod Complete
pub mod Measure
pub mod Termination
pub mod Ends
pub mod Reached
pub mod Total
use jayvee.Base.{
  ℕ, zero, suc, Bool, true, false, not, ◌&&◌, ◌||◌, Option, none, some, List, [], ◌∷◌, ◌++◌, map,
  reverse, length, ◌==◌, if◌then◌else◌, Result, NoError, ok, err, throws, ◌>>=◌, ◌>>◌, assert,
}
use jayvee.Base.Removal.{includes_nat}

pub record Pipe : Type 0 where
  pub from : ℕ
  pub to : ℕ

-- `PipeWrapper.equals`
abbrev pub same_pipe : Pipe → Pipe → Bool
same_pipe p q = p.from == q.from && p.to == q.to

-- `Array.filter` and `Array.some`
unfoldable pub keep {ℓ} : {A : Type ℓ} → (A → Bool) → List A → List A
keep test [] = []
keep test (x ∷ xs) = if test x then x ∷ keep test xs else keep test xs

abbrev pub any {ℓ} : {A : Type ℓ} → (A → Bool) → List A → Bool
any test [] = false
any test (x ∷ xs) = test x || any test xs

-- `wrapAll` of a chain of references to blocks: a pipe from each block to the next, where both
-- references are resolved.
unfoldable pub wrap_all : List (Option ℕ) → List Pipe
wrap_all [] = []
wrap_all (r ∷ []) = []
wrap_all (some b ∷ some c ∷ rs) = record { from = b; to = c } ∷ wrap_all (some c ∷ rs)
wrap_all (some b ∷ none ∷ rs) = wrap_all (none ∷ rs)
wrap_all (none ∷ r ∷ rs) = wrap_all (r ∷ rs)

unfoldable pub get_starting_block_pipes : List Pipe → List Pipe
get_starting_block_pipes pipes = keep (λ pipe. not (any (λ p. p.to == pipe.from) pipes)) pipes

-- `[...new Set(blocks)]`, behind the blocks `seen`
unfoldable pub without_duplicates : List ℕ → List ℕ → List ℕ
without_duplicates seen [] = []
without_duplicates seen (b ∷ bs) =
    if includes_nat seen b then without_duplicates seen bs else b ∷ without_duplicates (b ∷ seen) bs

unfoldable pub get_starting_blocks : List Pipe → List ℕ
get_starting_blocks pipes =
    without_duplicates [] (map (λ p. p.from) (get_starting_block_pipes pipes))

unfoldable pub get_outgoing_pipes : List Pipe → ℕ → List Pipe
get_outgoing_pipes pipes b = keep (λ p. p.from == b) pipes

unfoldable pub get_child_blocks : List Pipe → ℕ → List ℕ
get_child_blocks pipes b = map (λ p. p.to) (get_outgoing_pipes pipes b)

unfoldable pub get_ingoing_pipes : List Pipe → ℕ → List Pipe
get_ingoing_pipes pipes b = keep (λ p. p.to == b) pipes

unfoldable pub get_parent_blocks : List Pipe → ℕ → List ℕ
get_parent_blocks pipes b = map (λ p. p.from) (get_ingoing_pipes pipes b)

-- The variables of `getBlocksInTopologicalSorting`; `current_nodes` is a stack, its end first.
pub record Search : Type 0 where
  pub current_nodes : List ℕ
  pub unvisited_edges : List Pipe
  pub sorted_nodes : List ℕ

unfoldable pub start : List Pipe → Search
start pipes = record {
  current_nodes = reverse (get_starting_blocks pipes);
  unvisited_edges = pipes;
  sorted_nodes = [];
}

-- The `forEach` that removes visited edges
unfoldable pub remove_edges : List Pipe → List Pipe → List Pipe
remove_edges [] unvisited = unvisited
remove_edges (e ∷ es) unvisited = remove_edges es (keep (λ edge. not (same_pipe edge e)) unvisited)

-- The edges that are left when those from `node` to `child` are visited
unfoldable pub visit_edges : List Pipe → ℕ → ℕ → List Pipe → List Pipe
visit_edges pipes node child unvisited =
    remove_edges (keep (λ e. e.from == node) (get_ingoing_pipes pipes child)) unvisited

-- Whether all edges to the child have been visited
unfoldable pub all_visited : List Pipe → ℕ → List Pipe → Bool
all_visited pipes child unvisited =
    length (keep (λ e. any (λ edge. same_pipe edge e) unvisited) (get_ingoing_pipes pipes child))
    == 0

-- The loop over the children of `node`
unfoldable pub visit_children : List Pipe → ℕ → List ℕ → Search → Search
visit_children pipes node [] s = s
visit_children pipes node (child ∷ children) s =
    let left = visit_edges pipes node child s.unvisited_edges in
    visit_children pipes node children (record s {
      current_nodes =
          if all_visited pipes child left then child ∷ s.current_nodes else s.current_nodes;
      unvisited_edges = left;
    })

-- A turn of the while loop; nothing changes when no node is left.
unfoldable pub turn : List Pipe → Search → Search
turn pipes s = elim s.current_nodes [
  | [] ↦ s
  | node ∷ nodes ↦
      visit_children pipes node (get_child_blocks pipes node)
        (record s { current_nodes = nodes; sorted_nodes = s.sorted_nodes ++ node ∷ [] })
]

unfoldable pub turns : ℕ → List Pipe → Search → Search
turns zero pipes s = s
turns (suc n) pipes s = turn pipes (turns n pipes s)

-- What is returned after the loop: nothing yet while a node is left, and then the sorted nodes,
-- behind the assertion that no edge is left
abbrev pub returned : List ℕ → List Pipe → List ℕ → Option (Result NoError (List ℕ))
returned (node ∷ nodes) unvisited_edges sorted_nodes = none
returned [] unvisited_edges sorted_nodes =
    some (do assert (length unvisited_edges == 0); ok sorted_nodes)

-- `getBlocksInTopologicalSorting`: the result, or `none` where the loop takes more than `n` turns
unfoldable pub get_blocks_in_topological_sorting : ℕ → List Pipe → Option (Result NoError (List ℕ))
get_blocks_in_topological_sorting n pipes =
    let s = turns n pipes (start pipes) in returned s.current_nodes s.unvisited_edges s.sorted_nodes
