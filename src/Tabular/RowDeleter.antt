-- ===== src/Tabular/RowDeleter.antt =====
-- row-deleter-executor.ts. The rows are sorted, deprived of duplicates and deleted from the
-- last one to the first. A row is asked for its index by the comparison of the sort, or else by
-- the log message, before anything is deleted; the model asks all of them once.
pub mod Exact
use jayvee.Base.{
  ℕ, suc, ◌-◌, Bool, true, false, List, [], ◌∷◌, ◌++◌, map, reverse, all, length, get_elem?, Option,
  none, some, if◌then◌else◌, Result, ok, err, throws, ◌>>=◌, ◌>>◌, assert,
}
use jayvee.Int.{ℤ, leb_ℤ, eqb_ℤ}
use jayvee.Cells.Range.{CellRange, is_row_wrapper}
use jayvee.Tabular.Indexed.{Indexed, sort_by_index, remove_duplicates}
use jayvee.Sheet.{
  Sheet, clone_sheet, SheetError, no_such_row, is_in_bounds, resolve_relative_indexes,
  get_row_index, delete_row,
}

-- The loop that rejects rows out of bounds.
unfoldable pub check_rows : Sheet → List CellRange → Result SheetError (Unit {0})
check_rows s [] = ok tt
check_rows s (row ∷ rows) =
    if is_in_bounds s row
    then check_rows s rows
    else (do index ← get_row_index row; err no_such_row)

unfoldable pub with_indexes : List CellRange → Result SheetError (List Indexed)
with_indexes [] = ok []
with_indexes (row ∷ rows) = do
  index ← get_row_index row
  others ← with_indexes rows
  ok ((index, row) ∷ others)

unfoldable pub delete_each : List Indexed → Sheet → Result SheetError Sheet
delete_each [] s = ok s
delete_each (c ∷ cs) s = do s' ← delete_row c.1 s; delete_each cs s'

-- `doExecute`, from the wrapped rows of the property `delete`.
unfoldable pub execute : List CellRange → Sheet → Result SheetError Sheet
execute relative_rows s = do
  assert (all is_row_wrapper relative_rows)
  let absolute_rows = map (resolve_relative_indexes s) relative_rows
  check_rows s absolute_rows
  indexed ← with_indexes absolute_rows
  delete_each (reverse (remove_duplicates (sort_by_index indexed))) (clone_sheet s)
