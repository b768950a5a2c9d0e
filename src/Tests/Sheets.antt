-- ===== src/Tests/Sheets.antt =====
-- Tests of the cell ranges, of sheets, and of the blocks that change sheets.
use jayvee.Base.{ℕ, ◌/◌, ◌≡◌, refl, true, false, some, List, [], ◌∷◌, map, ok, arith, All}
use jayvee.Base.Removal.{skip}
use jayvee.Int.{pos}
use jayvee.Cells.ColumnId.{
  Doubles, column_index_as_characters, column_characters_as_index, character_of, value_after,
}
use jayvee.Cells.ColumnId.RoundTrip.{
  IsExact, column_characters_as_index-column_index_as_characters,
  column_index_as_characters-column_characters_as_index,
}
use jayvee.Cells.ColumnId.Exact.{IsLetter}
use jayvee.Cells.Index.{CellIndexBounds, last_index}
use jayvee.Cells.Range.{
  CellRange, any_column, any_row, text_reference, range_literal, resolve_range, range_in_bounds,
  range_has_relative, is_column_wrapper,
}
use jayvee.Cells.Range.Bounds.{resolve_range_lem, resolved_range_literal}
use jayvee.Sheet.{Cell}
use jayvee.Sheet.Delete.{sized}
use jayvee.Tabular.Indexed.{Indexed, remove_duplicates, remove_duplicates_from}
use jayvee.Tabular.Indexed.Duplicates.{drop_first_repeat, remove_duplicates-eq}
use jayvee.Tabular.ColumnDeleter
use jayvee.Tabular.ColumnDeleter.Exact.{column, execute-skip}
use jayvee.Tabular.RowDeleter
use jayvee.Tabular.RowDeleter.Exact.{row, row-execute-skip}

abbrev grid : List (List Cell)
grid = (some "a" ∷ some "b" ∷ some "c" ∷ []) ∷ (some "d" ∷ some "e" ∷ some "f" ∷ []) ∷ []

execute-skip_example :
    ColumnDeleter.execute (map (column any_column) (2 ∷ 0 ∷ [])) (sized grid 2 3)
    ≡ ok (sized (map (skip (2 ∷ 0 ∷ []) 0) grid) 2 1)
execute-skip_example =
    execute-skip any_column grid 1 2 (2 ∷ 0 ∷ []) refl refl (omega arith) (omega arith)
      (refl, (refl, tt)) (omega arith, (omega arith, tt))

row-execute-skip_example :
    RowDeleter.execute (map (row any_row) (1 ∷ [])) (sized grid 2 3)
    ≡ ok (sized (skip (1 ∷ []) 0 grid) 1 3)
row-execute-skip_example =
    row-execute-skip any_row grid 1 2 (1 ∷ []) refl refl (omega arith) (omega arith) (refl, tt)
      (omega arith, tt)

-- `range A1:A*`
abbrev open_range : CellRange
open_range = record {
  ast_node = range_literal (text_reference []) (text_reference []);
  from = record { column_index = pos 0; row_index = pos 0 };
  to = record { column_index = pos 0; row_index = last_index };
}

abbrev two_by_three : CellIndexBounds
two_by_three = record { last_column_index = pos 2; last_row_index = pos 1 }

resolve_range_lem_example :
    (range_has_relative (resolve_range two_by_three open_range) ≡ false)
    × (range_in_bounds two_by_three (resolve_range two_by_three open_range)
        ≡ range_in_bounds two_by_three open_range)
resolve_range_lem_example = resolve_range_lem two_by_three open_range (refl, refl)

open_range_is_column : is_column_wrapper open_range ≡ true
unfolding is_column_wrapper
open_range_is_column = refl

resolved_range_literal_example : is_column_wrapper (resolve_range two_by_three open_range) ≡ false
resolved_range_literal_example =
    resolved_range_literal two_by_three open_range (text_reference []) (text_reference [])
      (refl, refl) refl open_range_is_column

abbrev same_index : Indexed
same_index = (pos 0, open_range)

remove_duplicates-eq_example :
    remove_duplicates (same_index ∷ same_index ∷ same_index ∷ [])
    ≡ same_index ∷ drop_first_repeat same_index (same_index ∷ same_index ∷ [])
remove_duplicates-eq_example = remove_duplicates-eq same_index (same_index ∷ same_index ∷ [])

three_duplicates :
    remove_duplicates (same_index ∷ same_index ∷ same_index ∷ []) ≡ same_index ∷ same_index ∷ []
unfolding remove_duplicates remove_duplicates_from
three_duplicates = refl

-- Arithmetic that rounds nothing
abbrev naturals : Doubles
naturals = record { rounded = λ z. z; floor_quotient = λ n. n / 26 }

naturals-IsExact : IsExact naturals
naturals-IsExact = record { rounding = λ n l. refl; division = λ n l. refl }

column_index_27 : column_index_as_characters naturals 27 ≡ some (b'A' ∷ b'B' ∷ [])
unfolding column_index_as_characters character_of value_after
column_index_27 = refl

column_characters_as_index-column_index_as_characters_example :
    (letters : List ℕ) × (column_index_as_characters naturals 27 ≡ some letters)
    × All IsLetter letters
    × (column_characters_as_index naturals letters ≡ pos 27)
column_characters_as_index-column_index_as_characters_example =
    column_characters_as_index-column_index_as_characters naturals naturals-IsExact 27 (omega arith)

column_index_as_characters-column_characters_as_index_example :
    (n : ℕ) × (column_characters_as_index naturals (b'A' ∷ b'B' ∷ []) ≡ pos n)
    × (column_index_as_characters naturals n ≡ some (b'A' ∷ b'B' ∷ []))
column_index_as_characters-column_characters_as_index_example =
    column_index_as_characters-column_characters_as_index naturals naturals-IsExact
      (b'A' ∷ b'B' ∷ []) (λ p. cc) ((omega arith, omega arith), ((omega arith, omega arith), tt))
      (omega arith)
