-- ===== src/Tabular/ColumnDeleter.antt =====
-- column-deleter-executor.ts. The columns are sorted, deprived of duplicates and deleted from the
-- last one to the first. A column is asked for its index by the comparison of the sort, or else by
-- the log message, before anything is deleted; the model asks all of them once.
pub mod Exact
use jayvee.Base.{
  ℕ, suc, ◌-◌, Bool, true, false, List, [], ◌∷◌, ◌++◌, map, reverse, all, length, get_elem?, Option,
  none, some, if◌then◌else◌, Result, ok, err, throws, ◌>>=◌, ◌>>◌, assert,
}
use jayvee.Int.{ℤ, leb_ℤ, eqb_ℤ}
use jayvee.Cells.Range.{CellRange, is_column_wrapper}
use jayvee.Tabular.Indexed.{Indexed, sort_by_index, remove_duplicates}
use jayvee.Sheet.{
  Sheet, clone_sheet, SheetError, no_such_column, is_in_bounds, resolve_relative_indexes,
  get_column_index, delete_column,
}

-- The loop that rejects columns out of bounds.
unfoldable pub check_columns : Sheet → List CellRange → Result SheetError (Unit {0})
check_columns s [] = ok tt
check_columns s (column ∷ columns) =
    if is_in_bounds s column
    then check_columns s columns
    else (do index ← get_column_index column; err no_such_column)

unfoldable pub with_indexes : List CellRange → Result SheetError (List Indexed)
with_indexes [] = ok []
with_indexes (column ∷ columns) = do
  index ← get_column_index column
  others ← with_indexes columns
  ok ((index, column) ∷ others)

unfoldable pub delete_each : List Indexed → Sheet → Result SheetError Sheet
delete_each [] s = ok s
delete_each (c ∷ cs) s = do s' ← delete_column c.1 s; delete_each cs s'

-- `doExecute`, from the wrapped columns of the property `delete`.
unfoldable pub execute : List CellRange → Sheet → Result SheetError Sheet
execute relative_columns s = do
  assert (all is_column_wrapper relative_columns)
  let absolute_columns = map (resolve_relative_indexes s) relative_columns
  check_columns s absolute_columns
  indexed ← with_indexes absolute_columns
  delete_each (reverse (remove_duplicates (sort_by_index indexed))) (clone_sheet s)
