-- ===== src/Cells/Range.antt =====
-- cell-range-wrapper.ts and util/cell-range-util.ts: the wrapper of a cell range literal. The
-- literals are complete, as `canBeWrapped` demands: an incomplete one is never wrapped.
pub mod Bounds
use jayvee.Base.{
  ℕ, zero, suc, ◌+◌, ◌-◌, ◌*◌, ◌≡◌, refl, Bool, true, false, ◌&&◌, ◌||◌, Option, none, some, List,
  [], ◌∷◌, ◌++◌, leb, length, if◌then◌else◌, Result, NoError, ok, err, throws, ◌>>=◌, ◌>>◌, assert,
  defined,
}
use jayvee.Int.{ℤ, pos, sub_ℕ, ◌+ℤ◌, ◌-ℤ◌, ◌*ℤ◌, eqb_ℤ}
use jayvee.Cells.ColumnId.{Doubles, column_characters_as_index}
use jayvee.Cells.Index.{
  CellIndex, CellIndexBounds, last_index, is_last, index_has_relative, resolve_index,
  index_in_bounds,
}

-- `ColumnId.value`: a text or '*'; `RowId.value`: a number or '*'
pub data ColumnId : Type 0 where
  any_column : ColumnId
  column_text : List ℕ → ColumnId

pub data RowId : Type 0 where
  any_row : RowId
  row_number : ℕ → RowId

pub data CellReference : Type 0 where
  text_reference : List ℕ → CellReference
  parts_reference : ColumnId → RowId → CellReference

pub data CellRangeLiteral : Type 0 where
  cell_literal : CellReference → CellRangeLiteral
  column_literal : ColumnId → CellRangeLiteral
  row_literal : RowId → CellRangeLiteral
  range_literal : CellReference → CellReference → CellRangeLiteral

pub record CellRange : Type 0 where
  pub ast_node : CellRangeLiteral
  pub from : CellIndex
  pub to : CellIndex

abbrev pub is_upper : ℕ → Bool
is_upper c = leb b'A' c && leb c b'Z'

abbrev pub is_digit : ℕ → Bool
is_digit c = leb b'0' c && leb c b'9'

-- `Number.parseInt(digits, 10)`
abbrev pub digits_value : ℕ → List ℕ → ℕ
digits_value acc [] = acc
digits_value acc (c ∷ cs) = digits_value (acc * 10 + (c - b'0')) cs

-- The longest run of digits: the second group of `([A-Z]+)([0-9]+)`.
unfoldable pub digit_run : List ℕ → List ℕ
digit_run [] = []
digit_run (c ∷ cs) = if is_digit c then c ∷ digit_run cs else []

-- A search for the first match of `([A-Z]+)([0-9]+)`. `letters` is the run of letters that ends
-- at this position; a match begins where such a run begins.
unfoldable pub exec_reference : List ℕ → List ℕ → Option (List ℕ × List ℕ)
unfolding digit_run
exec_reference letters [] = none
exec_reference letters (c ∷ cs) =
    let later = exec_reference (if is_upper c then letters ++ c ∷ [] else []) cs in
    if is_digit c && leb 1 (length letters) then some (letters, c ∷ digit_run cs) else later

unfoldable pub parse_column_id : Doubles → ColumnId → ℤ
parse_column_id doubles any_column = last_index
parse_column_id doubles (column_text text) = column_characters_as_index doubles text

unfoldable pub parse_row_id : RowId → ℤ
parse_row_id any_row = last_index
parse_row_id (row_number n) = sub_ℕ n 1

-- `parseStringCellReference` inside `parseCellReference`
unfoldable pub parse_cell_reference : Doubles → CellReference → Result NoError CellIndex
unfolding exec_reference parse_column_id parse_row_id
parse_cell_reference doubles (text_reference text) = do
  (letters, digits) ← defined (exec_reference [] text)
  ok (record {
    column_index = parse_column_id doubles (column_text letters);
    row_index = parse_row_id (row_number (digits_value 0 digits));
  })
parse_cell_reference doubles (parts_reference column row) =
    ok (record { column_index = parse_column_id doubles column; row_index = parse_row_id row })

-- `new CellRangeWrapper(cellRange)`
unfoldable pub wrap : Doubles → CellRangeLiteral → Result NoError CellRange
unfolding parse_cell_reference
wrap doubles (cell_literal cell) = do
  index ← parse_cell_reference doubles cell
  ok (record { ast_node = cell_literal cell; from = index; to = index })
wrap doubles (column_literal column) = ok (record {
  ast_node = column_literal column;
  from = record { column_index = parse_column_id doubles column; row_index = pos 0 };
  to = record { column_index = parse_column_id doubles column; row_index = last_index };
})
wrap doubles (row_literal row) = ok (record {
  ast_node = row_literal row;
  from = record { column_index = pos 0; row_index = parse_row_id row };
  to = record { column_index = last_index; row_index = parse_row_id row };
})
wrap doubles (range_literal cell_from cell_to) = do
  from ← parse_cell_reference doubles cell_from
  to ← parse_cell_reference doubles cell_to
  ok (record { ast_node = range_literal cell_from cell_to; from = from; to = to })

unfoldable pub is_one_dimensional : CellRange → Bool
is_one_dimensional r =
    eqb_ℤ r.from.column_index r.to.column_index || eqb_ℤ r.from.row_index r.to.row_index

-- `getNumberOfRows` and `getNumberOfColumns`, on the two indexes
unfoldable pub number_between : ℤ → ℤ → ℤ
number_between from to = if is_last from && is_last to then pos 1 else to -ℤ from +ℤ pos 1

unfoldable pub number_of_cells : CellRange → ℤ
unfolding number_between
number_of_cells r =
    number_between r.from.row_index r.to.row_index
    *ℤ number_between r.from.column_index r.to.column_index

unfoldable pub range_in_bounds : CellIndexBounds → CellRange → Bool
range_in_bounds bounds r = index_in_bounds bounds r.from && index_in_bounds bounds r.to

unfoldable pub resolve_range : CellIndexBounds → CellRange → CellRange
resolve_range bounds r = record r {
  from = resolve_index bounds r.from;
  to = resolve_index bounds r.to;
}

unfoldable pub range_has_relative : CellRange → Bool
range_has_relative r = index_has_relative r.from || index_has_relative r.to

-- The tests of `isColumnWrapper` and `isRowWrapper` on a range literal
abbrev pub spans_column : CellIndex → CellIndex → Bool
spans_column from to =
    eqb_ℤ from.column_index to.column_index
    && (eqb_ℤ from.row_index (pos 0) && is_last to.row_index)

abbrev pub spans_row : CellIndex → CellIndex → Bool
spans_row from to =
    eqb_ℤ from.row_index to.row_index
    && (eqb_ℤ from.column_index (pos 0) && is_last to.column_index)

-- `isColumnWrapper`, `isRowWrapper` and `isCellWrapper`
unfoldable pub is_column_wrapper : CellRange → Bool
is_column_wrapper r = elim r.ast_node [
  | column_literal _ ↦ true
  | range_literal _ _ ↦ spans_column r.from r.to
  | _ ↦ false
]

unfoldable pub is_row_wrapper : CellRange → Bool
is_row_wrapper r = elim r.ast_node [
  | row_literal _ ↦ true
  | range_literal _ _ ↦ spans_row r.from r.to
  | _ ↦ false
]

unfoldable pub is_cell_wrapper : CellRange → Bool
is_cell_wrapper r = elim r.ast_node [
  | cell_literal _ ↦ true
  | range_literal _ _ ↦
      eqb_ℤ r.from.column_index r.to.column_index && eqb_ℤ r.from.row_index r.to.row_index
  | _ ↦ false
]
