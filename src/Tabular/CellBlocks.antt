-- ===== src/Tabular/CellBlocks.antt =====
-- cell-writer-executor.ts and cell-range-selector-executor.ts, from the wrapped cell range of the
-- property. The warning on the number of values is left out.
use jayvee.Base.{List, [], ◌∷◌, if◌then◌else◌, Result, ok, err, ◌>>=◌, ◌>>◌, assert, String}
use jayvee.Cells.Index.{CellIndex}
use jayvee.Cells.Range.{CellRange, is_one_dimensional}
use jayvee.Sheet.{
  Sheet, SheetError, no_such_cells, range_does_not_fit, clone_sheet, is_in_bounds,
  resolve_relative_indexes, enumerate_cell_indexes, write_cell, select_range,
}

-- The loop over the cells and the values, up to the shorter of the two
unfoldable pub write_cells : List CellIndex → List String → Sheet → Result SheetError Sheet
write_cells [] write_values s = ok s
write_cells (index ∷ indexes) [] s = ok s
write_cells (index ∷ indexes) (write_value ∷ write_values) s = do
  s' ← write_cell index write_value s
  write_cells indexes write_values s'

-- `CellWriterExecutor.doExecute`
unfoldable pub execute_cell_writer : CellRange → List String → Sheet → Result SheetError Sheet
execute_cell_writer relative_cell_range write_values input_sheet = do
  assert (is_one_dimensional relative_cell_range)
  let absolute_cell_range = resolve_relative_indexes input_sheet relative_cell_range
  if is_in_bounds input_sheet absolute_cell_range
      then write_cells (enumerate_cell_indexes input_sheet relative_cell_range) write_values
          (clone_sheet input_sheet)
      else err no_such_cells

-- `CellRangeSelectorExecutor.doExecute`
unfoldable pub execute_cell_range_selector : CellRange → Sheet → Result SheetError Sheet
execute_cell_range_selector relative_range input_sheet =
    let absolute_range = resolve_relative_indexes input_sheet relative_range in
    if is_in_bounds input_sheet absolute_range
    then select_range absolute_range (clone_sheet input_sheet)
    else err range_does_not_fit
