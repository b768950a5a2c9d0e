-- ===== src/Tests/Tables.antt =====
-- Tests of table.ts.
use jayvee.Base.{
  ℕ, ◌<◌, ◌≤◌, ◌≡◌, refl, Bool, true, false, List, [], ◌∷◌, arith, ok, throws, String, ◌⊎◌, All,
  length,
}
use jayvee.Base.Dict.{has, lookup, insert}
use jayvee.Table.{
  Table, TableColumn, add_column, drop_rows, get_row, clone, add_row, add_entries, push_entries,
}
use jayvee.Table.Shape.{
  IsRectangle, add_column-IsRectangle, add_row-IsRectangle, add_row-eq, grown, push_row,
}
use jayvee.Table.Rows.{
  drop_rows-eq-without_rows, without_rows, get_row_total, clone-eq, row_cells, column_cells,
}

abbrev numbers : TableColumn ℕ Bool
numbers = record { values = 5 ∷ 6 ∷ 7 ∷ []; value_type = true }

abbrev other_numbers : TableColumn ℕ Bool
other_numbers = record { values = 1 ∷ 2 ∷ 3 ∷ []; value_type = false }

abbrev small : Table ℕ Bool
small = record { number_of_rows = 3; columns = ("a", numbers) ∷ ("b", other_numbers) ∷ [] }

abbrev any_value : Bool → ℕ → Bool
any_value t v = true

abbrev new_row : List (String × ℕ)
new_row = ("b", 4) ∷ ("a", 8) ∷ []

small-IsRectangle : IsRectangle small
small-IsRectangle = record { rows = (refl, (refl, tt)); distinct = ((refl, tt), (tt, tt)) }

drop_rows-eq-without_rows_example :
    drop_rows (2 ∷ 0 ∷ []) small ≡ ok (without_rows (2 ∷ 0 ∷ []) small)
drop_rows-eq-without_rows_example =
    drop_rows-eq-without_rows (2 ∷ 0 ∷ []) small (refl, (refl, tt)) (omega arith, (omega arith, tt))

clone-eq_example : clone small ≡ ok small
clone-eq_example = clone-eq small small-IsRectangle

get_row_total_example :
    (1 < 3
      → (row : List (String × ℕ)) × (get_row 1 small ≡ ok row)
        × (row_cells row ≡ column_cells 1 small.columns))
    × (3 ≤ 1 → get_row 1 small ≡ throws)
get_row_total_example = get_row_total 1 small small-IsRectangle

add_column-IsRectangle_example :
    IsRectangle (record small { columns = insert "c" numbers small.columns })
unfolding add_column
add_column-IsRectangle_example =
    add_column-IsRectangle "c" numbers small
      (record small { columns = insert "c" numbers small.columns }) small-IsRectangle refl

abbrev larger : Table ℕ Bool
larger = grown small (push_row new_row small.columns)

add_row_accepted : add_row any_value new_row small ≡ ok larger
unfolding add_row add_entries lookup push_entries insert
add_row_accepted = refl

add_row-IsRectangle_example : IsRectangle larger
add_row-IsRectangle_example =
    add_row-IsRectangle any_value new_row small larger ((refl, tt), (tt, tt)) small-IsRectangle
      add_row_accepted

add_row-eq_example :
    ((larger ≡ small) × (length new_row ≡ 0))
    ⊎ ((larger ≡ grown small (push_row new_row small.columns))
        × All (λ e. has e.0 new_row ≡ true) small.columns)
add_row-eq_example =
    add_row-eq any_value new_row small larger ((refl, tt), (tt, tt)) small-IsRectangle
      add_row_accepted
