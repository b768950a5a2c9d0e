-- ===== src/Tabular/RowDeleter/Exact.antt =====
-- The row deleter on rows that are written as row literals.
use jayvee.Base.{
  ℕ, zero, suc, ◌+◌, ◌-◌, ◌<◌, ◌≤◌, ◌≡◌, refl, ap, ap₂, ◌∙◌, true, List, [], ◌∷◌, map, reverse,
  arith, all, length, All, All-imp, All-reverse, ok, erase_idx,
}
use jayvee.Base.Removal.{erase_all, skip, skip_ext, erase_all-eq-skip, IsDescending}
use jayvee.Base.Sorting.{
  sort_asc, IsDistinct, sort_asc-IsAscending, reverse-IsDescending, All-sort_asc,
  includes_nat-sort_asc, includes_nat-reverse, length-sort_asc, length-reverse,
}
use jayvee.Int.{pos}
use jayvee.Cells.Index.{last_index}
use jayvee.Cells.Range.{RowId, row_literal, CellRange, is_row_wrapper}
use jayvee.Sheet.{Cell, longest, get_row_index, resolve_relative_indexes}
use jayvee.Sheet.Delete.{
  sized, absolute_row, BelowLast, delete_row_absolute, absolute-is_in_bounds, row_literal-resolved,
}
use jayvee.Tabular.Indexed.Distinct.{indexed, deletion_order}
use jayvee.Tabular.RowDeleter.{check_rows, with_indexes, delete_each, execute}

-- The row literal of row `r`; how its number is written does not matter.
abbrev pub row : RowId → ℕ → CellRange
row id r = record {
  ast_node = row_literal id;
  from = record { column_index = pos 0; row_index = pos r };
  to = record { column_index = last_index; row_index = pos r };
}

module _ (id : RowId) (cells : List (List Cell)) (columns : ℕ) (small : BelowLast columns) where
  all_rows : (rs : List ℕ) → all is_row_wrapper (map (row id) rs) ≡ true
  unfolding is_row_wrapper
  all_rows [] = refl
  all_rows (r ∷ rs) = all_rows rs

  absolute_rows :
      (rs : List ℕ) (n : ℕ)
      → BelowLast n
      → All (λ r. r < n) rs
      → map (resolve_relative_indexes (sized cells n (columns + 1))) (map (row id) rs)
        ≡ map (λ r. absolute_row id r columns) rs
  absolute_rows [] n s h = refl
  absolute_rows (r ∷ rs) n s (p, h) =
      ap₂ (◌∷◌) (row_literal-resolved id cells r n columns small (omega arith))
        (absolute_rows rs n s h)

  check_rows-ok :
      (rs : List ℕ) (n : ℕ)
      → All (λ r. r ≤ n) rs
      → check_rows (sized cells (n + 1) (columns + 1)) (map (λ r. absolute_row id r columns) rs)
        ≡ ok tt
  unfolding check_rows
  check_rows-ok [] n h = refl
  check_rows-ok (r ∷ rs) n (p, h) =
      rw (absolute-is_in_bounds (row_literal id) cells 0 r columns r n columns (omega arith))
        (check_rows-ok rs n h)

  with_indexes-ok :
      (rs : List ℕ)
      → with_indexes (map (λ r. absolute_row id r columns) rs)
        ≡ ok (map (indexed (λ r. absolute_row id r columns)) rs)
  unfolding with_indexes get_row_index is_row_wrapper
  with_indexes-ok [] = refl
  with_indexes-ok (r ∷ rs) = rw (with_indexes-ok rs) refl

sized_rows :
    (columns n m : ℕ) (cells cells' : List (List Cell))
    → n ≡ m
    → cells ≡ cells'
    → sized cells n columns ≡ sized cells' m columns
sized_rows columns n m cells cells' p q = λ i. sized (q i) (p i) columns

delete_each-erase_all :
    (id : RowId) (columns : ℕ) (ds : List ℕ) (cells : List (List Cell)) (n : ℕ)
    → BelowLast columns
    → BelowLast n
    → IsDescending ds
    → All (λ d. d < n) ds
    → delete_each (map (indexed (λ r. absolute_row id r columns)) ds) (sized cells n (columns + 1))
      ≡ ok (sized (erase_all cells ds) (n - length ds) (columns + 1))
unfolding delete_each erase_all
delete_each-erase_all id columns [] cells n p q h b =
    ap ok (sized_rows _ _ _ _ _ (omega arith) refl)
delete_each-erase_all id columns (d ∷ ds) cells zero p q h (b, bs) = elim b [ ]
delete_each-erase_all id columns (d ∷ ds) cells (suc n) p q (h, hs) (b, bs) =
    let deleted = delete_row_absolute id cells d n columns (omega arith) p (omega arith) in
    let size : suc n ≡ n + 1 = omega arith in
    let ih =
      delete_each-erase_all id columns ds (erase_idx cells d) n p (omega arith) hs
        (All-imp (λ e. e < d) (λ e. e < n) ds (λ e below. omega arith) h) in
    rw (size, deleted) (ih ∙ ap ok (sized_rows _ _ _ _ _ (omega arith) refl))

-- On distinct rows of a sheet whose counts are those of its cells and whose last indexes lie below
-- `LAST_INDEX`, given by row literals in any order, the row deleter succeeds: exactly those rows are gone, and the count of rows falls by their number.
pub row-execute-skip :
    (id : RowId) (cells : List (List Cell)) (n columns : ℕ) (rs : List ℕ)
    → length cells ≡ n + 1
    → longest 0 cells ≡ columns + 1
    → BelowLast columns
    → BelowLast (n + 1)
    → IsDistinct rs
    → All (λ r. r < n + 1) rs
    → execute (map (row id) rs) (sized cells (n + 1) (columns + 1))
      ≡ ok (sized (skip rs 0 cells) (n + 1 - length rs) (columns + 1))
unfolding execute
row-execute-skip id cells n columns rs as_long as_wide p q d b =
    let order = reverse (sort_asc rs) in
    let descending = reverse-IsDescending (sort_asc rs) (sort_asc-IsAscending rs d) in
    let bounded = All-reverse (λ r. r < n + 1) (sort_asc rs) (All-sort_asc (λ r. r < n + 1) rs b) in
    let all_in = All-imp (λ r. r < n + 1) (λ r. r ≤ n) rs (λ r h. omega arith) b in
    let same_cells =
      erase_all-eq-skip cells order descending
      ∙ skip_ext _ _ 0 cells
          (λ k. includes_nat-reverse (sort_asc rs) k ∙ includes_nat-sort_asc rs k) in
    rw
      (
        all_rows id cells columns p rs,
        absolute_rows id cells columns p rs (n + 1) q b,
        check_rows-ok id cells columns p rs n all_in,
        with_indexes-ok id cells columns p rs,
        deletion_order (λ r. absolute_row id r columns) rs d,
        as_long,
        as_wide,
      )
      (delete_each-erase_all id columns order cells (n + 1) p q descending bounded
        ∙ ap ok (
            sized_rows _ _ _ _ _
              (ap (λ k. n + 1 - k) (length-reverse (sort_asc rs) ∙ length-sort_asc rs)) same_cells))
