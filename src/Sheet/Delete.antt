-- ===== src/Sheet/Delete.antt =====
-- `deleteRow` and `deleteColumn` on absolute rows and columns.
use jayvee.Base.{ℕ, ◌+◌, ◌<◌, ◌≤◌, ◌≡◌, refl, ap, ◌∙◌, true, false, List, map, arith, erase_idx, ok}
use jayvee.Int.{ℤ, pos, ◌-ℤ◌, -ℤ-pos}
use jayvee.Cells.Index.{
  is_last, index_in_bounds, is_index_in_bounds, index_has_relative, resolve_index, last_index,
}
use jayvee.Cells.Range.{
  ColumnId, RowId, CellRangeLiteral, column_literal, row_literal, CellRange, range_in_bounds,
  range_has_relative, resolve_range, is_column_wrapper, is_row_wrapper,
}
use jayvee.Sheet.{
  Sheet, Cell, bounds, splice, is_in_bounds, resolve_relative_indexes, get_column_index,
  get_row_index, delete_row, delete_column,
}

-- The sheets that the program builds: the counts are natural numbers below `LAST_INDEX`.
abbrev pub sized : List (List Cell) → ℕ → ℕ → Sheet
sized cells rows columns = record {
  cells = cells;
  number_of_rows = pos rows;
  number_of_columns = pos columns;
}

-- Column `c`, resolved against a sheet with `rows + 1` rows.
abbrev pub absolute_column : ColumnId → ℕ → ℕ → CellRange
absolute_column id c last_row = record {
  ast_node = column_literal id;
  from = record { column_index = pos c; row_index = pos 0 };
  to = record { column_index = pos c; row_index = pos last_row };
}

abbrev pub absolute_row : RowId → ℕ → ℕ → CellRange
absolute_row id r last_column = record {
  ast_node = row_literal id;
  from = record { column_index = pos 0; row_index = pos r };
  to = record { column_index = pos last_column; row_index = pos r };
}

abbrev pub BelowLast : ℕ → Type 0
BelowLast n = n < 9007199254740991

-- A range between natural indexes.
abbrev pub absolute_range : CellRangeLiteral → ℕ → ℕ → ℕ → ℕ → CellRange
absolute_range node c r c' r' = record {
  ast_node = node;
  from = record { column_index = pos c; row_index = pos r };
  to = record { column_index = pos c'; row_index = pos r' };
}

natural_in_bounds : (i m : ℕ) → i ≤ m → is_index_in_bounds (pos i) (pos m) ≡ true
unfolding is_index_in_bounds
natural_in_bounds i m h = ground arith

bounds-sized :
    (cells : List (List Cell)) (rows columns : ℕ)
    → bounds (sized cells (rows + 1) (columns + 1))
      ≡ record { last_column_index = pos columns; last_row_index = pos rows }
bounds-sized cells rows columns =
    λ i. record { last_column_index = less columns i; last_row_index = less rows i }
  where
    less : (n : ℕ) → pos (n + 1) -ℤ pos 1 ≡ pos n
    less n = -ℤ-pos (n + 1) 1 (omega arith) ∙ ap pos (omega arith)

natural_range_in_bounds :
    (node : CellRangeLiteral) (c r c' r' rows columns : ℕ)
    → (c ≤ columns) × (r ≤ rows) × (c' ≤ columns) × (r' ≤ rows)
    → range_in_bounds
        (record { last_column_index = pos columns; last_row_index = pos rows })
        (absolute_range node c r c' r')
      ≡ true
unfolding range_in_bounds index_in_bounds
natural_range_in_bounds node c r c' r' rows columns (p, q, p', q') =
    rw
      (
        natural_in_bounds c columns p,
        natural_in_bounds r rows q,
        natural_in_bounds c' columns p',
        natural_in_bounds r' rows q',
      )
      refl

pub absolute-is_in_bounds :
    (node : CellRangeLiteral) (cells : List (List Cell)) (c r c' r' rows columns : ℕ)
    → (c ≤ columns) × (r ≤ rows) × (c' ≤ columns) × (r' ≤ rows)
    → is_in_bounds (sized cells (rows + 1) (columns + 1)) (absolute_range node c r c' r') ≡ true
unfolding is_in_bounds
absolute-is_in_bounds node cells c r c' r' rows columns h =
    ap (λ b. range_in_bounds b (absolute_range node c r c' r')) (bounds-sized cells rows columns)
    ∙ natural_range_in_bounds node c r c' r' rows columns h

pub absolute-resolved :
    (node : CellRangeLiteral) (s : Sheet) (c r c' r' : ℕ)
    → (BelowLast c) × (BelowLast r) × (BelowLast c') × (BelowLast r')
    → resolve_relative_indexes s (absolute_range node c r c' r') ≡ absolute_range node c r c' r'
unfolding resolve_relative_indexes range_has_relative index_has_relative
absolute-resolved node s c r c' r' (p, q, p', q') =
    rw (not_last c p, not_last r q, not_last c' p', not_last r' q') refl
  where
    not_last : (n : ℕ) → BelowLast n → is_last (pos n) ≡ false
    not_last n h = ground arith

-- Deleting an absolute column removes that position from every row.
pub delete_column_absolute :
    (id : ColumnId) (cells : List (List Cell)) (c rows columns : ℕ)
    → c ≤ columns
    → BelowLast columns
    → BelowLast rows
    → delete_column (absolute_column id c rows) (sized cells (rows + 1) (columns + 1))
      ≡ ok (sized (map (λ row. erase_idx row c) cells) (rows + 1) columns)
unfolding delete_column get_column_index is_column_wrapper splice
delete_column_absolute id cells c rows columns h p q =
    rw
      (
        absolute-is_in_bounds (column_literal id) cells c 0 c rows rows columns (omega arith),
        absolute-resolved (column_literal id) (sized cells (rows + 1) (columns + 1)) c 0 c rows
            (omega arith),
      )
      (ap (λ n. ok (with_columns n)) (-ℤ-pos (columns + 1) 1 (omega arith) ∙ ap pos (omega arith)))
  where
    with_columns : ℤ → Sheet
    with_columns n = record {
      cells = map (λ row. erase_idx row c) cells;
      number_of_rows = pos (rows + 1);
      number_of_columns = n;
    }

pub delete_row_absolute :
    (id : RowId) (cells : List (List Cell)) (r rows columns : ℕ)
    → r ≤ rows
    → BelowLast columns
    → BelowLast rows
    → delete_row (absolute_row id r columns) (sized cells (rows + 1) (columns + 1))
      ≡ ok (sized (erase_idx cells r) rows (columns + 1))
unfolding delete_row get_row_index is_row_wrapper splice
delete_row_absolute id cells r rows columns h p q =
    rw
      (
        absolute-is_in_bounds (row_literal id) cells 0 r columns r rows columns (omega arith),
        absolute-resolved (row_literal id) (sized cells (rows + 1) (columns + 1)) 0 r columns r
            (omega arith),
      )
      (ap (λ n. ok (with_rows n)) (-ℤ-pos (rows + 1) 1 (omega arith) ∙ ap pos (omega arith)))
  where
    with_rows : ℤ → Sheet
    with_rows n = record {
      cells = erase_idx cells r;
      number_of_rows = n;
      number_of_columns = pos (columns + 1);
    }

-- A column literal is resolved to all rows of the sheet.
pub column_literal-resolved :
    (id : ColumnId) (cells : List (List Cell)) (c rows columns : ℕ)
    → BelowLast rows
    → BelowLast c
    → resolve_relative_indexes (sized cells (rows + 1) columns) (record {
      ast_node = column_literal id;
      from = record { column_index = pos c; row_index = pos 0 };
      to = record { column_index = pos c; row_index = last_index };
    })
      ≡ absolute_column id c rows
unfolding resolve_relative_indexes range_has_relative index_has_relative resolve_range resolve_index
column_literal-resolved id cells c rows columns p q =
    let proper : is_last (pos c) ≡ false = ground arith in
    rw (proper, -ℤ-pos (rows + 1) 1 (omega arith)) (ap (λ r. absolute_column id c r) (omega arith))

pub row_literal-resolved :
    (id : RowId) (cells : List (List Cell)) (r rows columns : ℕ)
    → BelowLast columns
    → BelowLast r
    → resolve_relative_indexes (sized cells rows (columns + 1)) (record {
      ast_node = row_literal id;
      from = record { column_index = pos 0; row_index = pos r };
      to = record { column_index = last_index; row_index = pos r };
    })
      ≡ absolute_row id r columns
unfolding resolve_relative_indexes range_has_relative index_has_relative resolve_range resolve_index
row_literal-resolved id cells r rows columns p q =
    let proper : is_last (pos r) ≡ false = ground arith in
    rw (proper, -ℤ-pos (columns + 1) 1 (omega arith)) (ap (λ c. absolute_row id r c) (omega arith))
