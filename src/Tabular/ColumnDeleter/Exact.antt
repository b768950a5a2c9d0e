-- ===== src/Tabular/ColumnDeleter/Exact.antt =====
-- The column deleter on columns that are written as column literals.
use jayvee.Base.{
  ℕ, zero, suc, ◌+◌, ◌-◌, ◌<◌, ◌≤◌, ◌≡◌, refl, sym, ap, ap₂, ◌∙◌, fun_ext, true, List, [], ◌∷◌, map,
  reverse, arith, all, length, All, All-imp, map_same, map_comp, All-reverse, ok, erase_idx,
}
use jayvee.Base.Removal.{erase_all, skip, skip_ext, erase_all-eq-skip, IsDescending}
use jayvee.Base.Sorting.{
  sort_asc, IsDistinct, sort_asc-IsAscending, reverse-IsDescending, All-sort_asc,
  includes_nat-sort_asc, includes_nat-reverse, length-sort_asc, length-reverse,
}
use jayvee.Int.{pos}
use jayvee.Cells.Index.{last_index}
use jayvee.Cells.Range.{ColumnId, column_literal, CellRange, is_column_wrapper}
use jayvee.Sheet.{Cell, longest, get_column_index, resolve_relative_indexes}
use jayvee.Sheet.Delete.{
  sized, absolute_column, BelowLast, delete_column_absolute, absolute-is_in_bounds,
  column_literal-resolved,
}
use jayvee.Tabular.Indexed.Distinct.{indexed, deletion_order}
use jayvee.Tabular.ColumnDeleter.{check_columns, with_indexes, delete_each, execute}

-- The column literal of column `c`; its name does not matter.
abbrev pub column : ColumnId → ℕ → CellRange
column id c = record {
  ast_node = column_literal id;
  from = record { column_index = pos c; row_index = pos 0 };
  to = record { column_index = pos c; row_index = last_index };
}

module _ (id : ColumnId) (cells : List (List Cell)) (rows : ℕ) (small : BelowLast rows) where
  all_columns : (cs : List ℕ) → all is_column_wrapper (map (column id) cs) ≡ true
  unfolding is_column_wrapper
  all_columns [] = refl
  all_columns (c ∷ cs) = all_columns cs

  absolute_columns :
      (cs : List ℕ) (n : ℕ)
      → BelowLast n
      → All (λ c. c < n) cs
      → map (resolve_relative_indexes (sized cells (rows + 1) n)) (map (column id) cs)
        ≡ map (λ c. absolute_column id c rows) cs
  absolute_columns [] n s h = refl
  absolute_columns (c ∷ cs) n s (p, h) =
      ap₂ (◌∷◌) (column_literal-resolved id cells c rows n small (omega arith))
        (absolute_columns cs n s h)

  check_columns-ok :
      (cs : List ℕ) (n : ℕ)
      → All (λ c. c ≤ n) cs
      → check_columns (sized cells (rows + 1) (n + 1)) (map (λ c. absolute_column id c rows) cs)
        ≡ ok tt
  unfolding check_columns
  check_columns-ok [] n h = refl
  check_columns-ok (c ∷ cs) n (p, h) =
      rw (absolute-is_in_bounds (column_literal id) cells c 0 c rows rows n (omega arith))
        (check_columns-ok cs n h)

  with_indexes-ok :
      (cs : List ℕ)
      → with_indexes (map (λ c. absolute_column id c rows) cs)
        ≡ ok (map (indexed (λ c. absolute_column id c rows)) cs)
  unfolding with_indexes get_column_index is_column_wrapper
  with_indexes-ok [] = refl
  with_indexes-ok (c ∷ cs) = rw (with_indexes-ok cs) refl

sized_columns :
    (rows n m : ℕ) (cells cells' : List (List Cell))
    → n ≡ m
    → cells ≡ cells'
    → sized cells rows n ≡ sized cells' rows m
sized_columns rows n m cells cells' p q = λ i. sized (q i) rows (p i)

delete_each-erase_all :
    (id : ColumnId) (rows : ℕ) (ds : List ℕ) (cells : List (List Cell)) (n : ℕ)
    → BelowLast rows
    → BelowLast n
    → IsDescending ds
    → All (λ d. d < n) ds
    → delete_each (map (indexed (λ c. absolute_column id c rows)) ds) (sized cells (rows + 1) n)
      ≡ ok (sized (map (λ row. erase_all row ds) cells) (rows + 1) (n - length ds))
unfolding delete_each erase_all
delete_each-erase_all id rows [] cells n p q h b =
    ap ok (sized_columns _ _ _ _ _ (omega arith) (sym (map_same _ cells (λ row. refl))))
delete_each-erase_all id rows (d ∷ ds) cells zero p q h (b, bs) = elim b [ ]
delete_each-erase_all id rows (d ∷ ds) cells (suc n) p q (h, hs) (b, bs) =
    let deleted = delete_column_absolute id cells d rows n (omega arith) (omega arith) p in
    let size : suc n ≡ n + 1 = omega arith in
    let ih =
      delete_each-erase_all id rows ds (map (λ row. erase_idx row d) cells) n p (omega arith) hs
        (All-imp (λ e. e < d) (λ e. e < n) ds (λ e below. omega arith) h) in
    rw (size, deleted)
      (ih
        ∙ ap ok (
            sized_columns _ _ _ _ _ (omega arith)
              (map_comp (λ row. erase_idx row d) (λ row. erase_all row ds) cells)))

-- On distinct columns of a sheet whose counts are those of its cells and whose last indexes lie below
-- `LAST_INDEX`, given by column literals in any order, the column deleter succeeds: every row loses exactly the cells of those columns, and the count of columns
-- falls by their number.
pub execute-skip :
    (id : ColumnId) (cells : List (List Cell)) (rows n : ℕ) (cs : List ℕ)
    → length cells ≡ rows + 1
    → longest 0 cells ≡ n + 1
    → BelowLast rows
    → BelowLast (n + 1)
    → IsDistinct cs
    → All (λ c. c < n + 1) cs
    → execute (map (column id) cs) (sized cells (rows + 1) (n + 1))
      ≡ ok (sized (map (skip cs 0) cells) (rows + 1) (n + 1 - length cs))
unfolding execute
execute-skip id cells rows n cs as_long as_wide p q d b =
    let order = reverse (sort_asc cs) in
    let descending = reverse-IsDescending (sort_asc cs) (sort_asc-IsAscending cs d) in
    let bounded = All-reverse (λ c. c < n + 1) (sort_asc cs) (All-sort_asc (λ c. c < n + 1) cs b) in
    let all_in = All-imp (λ c. c < n + 1) (λ c. c ≤ n) cs (λ c h. omega arith) b in
    rw
      (
        all_columns id cells rows p cs,
        absolute_columns id cells rows p cs (n + 1) q b,
        check_columns-ok id cells rows p cs n all_in,
        with_indexes-ok id cells rows p cs,
        deletion_order (λ c. absolute_column id c rows) cs d,
        as_long,
        as_wide,
      )
      (delete_each-erase_all id rows order cells (n + 1) p q descending bounded
        ∙ ap ok (
            sized_columns _ _ _ _ _ (ap (λ k. n + 1 - k) same_length)
              (ap (λ f. map f cells) (fun_ext same_cells))))
  where
    same_length : length (reverse (sort_asc cs)) ≡ length cs
    same_length = length-reverse (sort_asc cs) ∙ length-sort_asc cs

    same_cells : (row : List Cell) → erase_all row (reverse (sort_asc cs)) ≡ skip cs 0 row
    same_cells row =
        erase_all-eq-skip row _ (reverse-IsDescending (sort_asc cs) (sort_asc-IsAscending cs d))
        ∙ skip_ext _ _ 0 row
            (λ k. includes_nat-reverse (sort_asc cs) k ∙ includes_nat-sort_asc cs k)
