-- ===== src/Sheet.antt =====
-- libs/execution/src/lib/types/io-types/sheet.ts: the class `Sheet`, a two-dimensional array of
-- texts whose rows may differ in length, with the two counts that it keeps beside it. A clone is made
-- of the array alone, so that it counts its rows and columns again.
pub mod Delete
use jayvee.Base.{
  ℕ, zero, suc, ◌+◌, ◌-◌, ◌≡◌, Bool, true, false, ◌||◌, Option, none, some, List, [], ◌∷◌, ◌++◌,
  map, max, ltb, leb, length, get_elem?, set, take, drop, erase_idx, if◌then◌else◌, Result, ok, err,
  throws, ◌>>=◌, ◌>>◌, assert, defined, String,
}
use mathlib.Core.List.{flat_map}
use jayvee.Int.{ℤ, pos, negsuc, pos_part, ◌+ℤ◌, ◌-ℤ◌, leb_ℤ, ltb_ℤ}
use jayvee.Cells.Index.{CellIndex, CellIndexBounds, index_in_bounds}
use jayvee.Cells.Range.{
  CellRange, range_in_bounds, resolve_range, range_has_relative, is_column_wrapper, is_row_wrapper,
}

-- A cell; `none` is a hole of the array, which reads as `undefined`.
abbrev pub Cell : Type 0
Cell = Option String

pub record Sheet : Type 0 where
  pub cells : List (List Cell)
  pub number_of_rows : ℤ
  pub number_of_columns : ℤ

-- The `reduce` of the constructor: the longest row.
abbrev pub longest : ℕ → List (List Cell) → ℕ
longest previous [] = previous
longest previous (row ∷ rows) =
    longest (if ltb previous (length row) then length row else previous) rows

-- `new Sheet(data)`
abbrev pub new_sheet : List (List Cell) → Sheet
new_sheet rows = record {
  cells = rows;
  number_of_rows = pos (length rows);
  number_of_columns = pos (longest 0 rows);
}

-- `clone`
abbrev pub clone_sheet : Sheet → Sheet
clone_sheet s = new_sheet s.cells

-- `xs.splice(start, 1)`: a negative start counts from the end, and stops at the first element.
abbrev pub splice_start : ℕ → ℤ → ℕ
splice_start n (pos i) = i
splice_start n (negsuc i) = n - suc i

module _ {ℓ} {A : Type ℓ} where
  unfoldable pub splice : List A → ℤ → List A
  splice xs start = erase_idx xs (splice_start (length xs) start)

  -- `xs.slice(start, end)`
  unfoldable pub slice : List A → ℤ → ℤ → List A
  slice xs start end =
      let first = splice_start (length xs) start in
      take (splice_start (length xs) end - first) (drop first xs)

-- `getBounds`
abbrev pub bounds : Sheet → CellIndexBounds
bounds s = record {
  last_column_index = s.number_of_columns -ℤ pos 1;
  last_row_index = s.number_of_rows -ℤ pos 1;
}

unfoldable pub is_in_bounds : Sheet → CellRange → Bool
is_in_bounds s range = range_in_bounds (bounds s) range

unfoldable pub resolve_relative_indexes : Sheet → CellRange → CellRange
resolve_relative_indexes s range =
    if range_has_relative range then resolve_range (bounds s) range else range

-- The errors that the executors of sheet blocks return, by their messages.
pub data SheetError : Type 0 where
  no_such_column no_such_row no_such_cells range_does_not_fit : SheetError

-- `getColumnIndex` and `getRowIndex`
unfoldable pub get_column_index : CellRange → Result SheetError ℤ
get_column_index column = do assert (is_column_wrapper column); ok column.from.column_index

unfoldable pub get_row_index : CellRange → Result SheetError ℤ
get_row_index row = do assert (is_row_wrapper row); ok row.from.row_index

unfoldable pub delete_row : CellRange → Sheet → Result SheetError Sheet
delete_row row s = do
  assert (is_in_bounds s row)
  row_index ← get_row_index (resolve_relative_indexes s row)
  ok (record s { cells = splice s.cells row_index; number_of_rows = s.number_of_rows -ℤ pos 1 })

unfoldable pub delete_column : CellRange → Sheet → Result SheetError Sheet
delete_column column s = do
  assert (is_in_bounds s column)
  column_index ← get_column_index (resolve_relative_indexes s column)
  ok (record s {
    cells = map (λ row. splice row column_index) s.cells;
    number_of_columns = s.number_of_columns -ℤ pos 1;
  })

-- `row[i] = content` at a natural index: it lengthens a row that is too short, with holes.
unfoldable pub write_at : List Cell → ℕ → Cell → List Cell
write_at [] zero content = content ∷ []
write_at [] (suc i) content = none ∷ write_at [] i content
write_at (c ∷ cs) zero content = content ∷ cs
write_at (c ∷ cs) (suc i) content = c ∷ write_at cs i content

-- At a negative index it sets a property that is no element.
abbrev pub assign : List Cell → ℤ → Cell → List Cell
assign row (pos i) content = write_at row i content
assign row (negsuc i) content = row

-- `data[i]!`, which is used as a row: reading a missing row throws.
abbrev pub row_at : List (List Cell) → ℤ → Result SheetError (List Cell × ℕ)
row_at rows (pos i) = do row ← defined (get_elem? rows i); ok (row, i)
row_at rows (negsuc i) = throws

unfoldable pub write_cell : CellIndex → String → Sheet → Result SheetError Sheet
unfolding write_at
write_cell absolute_cell content s = do
  assert (index_in_bounds (bounds s) absolute_cell)
  (row, i) ← row_at s.cells absolute_cell.row_index
  ok (record s { cells = set s.cells i (assign row absolute_cell.column_index (some content)) })

-- The `reduce` of `selectRange`; `row_index` is the index of the first of the rows.
unfoldable pub select_rows : CellRange → ℕ → List (List Cell) → List (List Cell)
select_rows range row_index [] = []
select_rows range row_index (row ∷ rows) =
    let later = select_rows range (suc row_index) rows in
    if ltb_ℤ (pos row_index) range.from.row_index || ltb_ℤ range.to.row_index (pos row_index)
    then later
    else slice row range.from.column_index (range.to.column_index +ℤ pos 1) ∷ later

unfoldable pub select_range : CellRange → Sheet → Result SheetError Sheet
unfolding select_rows
select_range range s = do
  assert (is_in_bounds s range)
  let resolved = resolve_relative_indexes s range
  ok (record {
    cells = select_rows resolved 0 s.cells;
    number_of_rows = resolved.to.row_index -ℤ resolved.from.row_index +ℤ pos 1;
    number_of_columns = resolved.to.column_index -ℤ resolved.from.column_index +ℤ pos 1;
  })

-- `for (let i = first; i <= last; ++i)`, as the list of the values of `i`
abbrev pub upto : ℕ → ℤ → List ℤ
upto zero first = []
upto (suc n) first = first ∷ upto n (first +ℤ pos 1)

abbrev pub indexes_between : ℤ → ℤ → List ℤ
indexes_between first last =
    if leb_ℤ first last then upto (suc (pos_part (last -ℤ first))) first else []

abbrev pub cells_of_row : ℤ → List ℤ → List CellIndex
cells_of_row row columns = map (λ column. record { column_index = column; row_index = row }) columns

unfoldable pub enumerate_cell_indexes : Sheet → CellRange → List CellIndex
enumerate_cell_indexes s range =
    let r = resolve_relative_indexes s range in
    flat_map (λ row. cells_of_row row (indexes_between r.from.column_index r.to.column_index))
      (indexes_between r.from.row_index r.to.row_index)
