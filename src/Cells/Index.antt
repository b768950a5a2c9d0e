-- ===== src/Cells/Index.antt =====
-- util/cell-index.ts: a cell by column and row, where `LAST_INDEX` stands for the last one.
use jayvee.Base.{Bool, false, ◌&&◌, ◌||◌, if◌then◌else◌}
use jayvee.Int.{ℤ, pos, leb_ℤ, ltb_ℤ, eqb_ℤ}

-- `Number.MAX_SAFE_INTEGER`
abbrev pub last_index : ℤ
last_index = pos 9007199254740991

pub record CellIndex : Type 0 where
  pub column_index : ℤ
  pub row_index : ℤ

pub record CellIndexBounds : Type 0 where
  pub last_column_index : ℤ
  pub last_row_index : ℤ

abbrev pub is_last : ℤ → Bool
is_last index = eqb_ℤ index last_index

unfoldable pub index_has_relative : CellIndex → Bool
index_has_relative c = is_last c.column_index || is_last c.row_index

-- `resolveRelativeIndexes`
unfoldable pub resolve_index : CellIndexBounds → CellIndex → CellIndex
resolve_index bounds c = record {
  column_index = if is_last c.column_index then bounds.last_column_index else c.column_index;
  row_index = if is_last c.row_index then bounds.last_row_index else c.row_index;
}

-- `isIndexInBounds`
unfoldable pub is_index_in_bounds : ℤ → ℤ → Bool
is_index_in_bounds index limit =
    if ltb_ℤ limit (pos 0) then false else is_last index || leb_ℤ index limit

unfoldable pub index_in_bounds : CellIndexBounds → CellIndex → Bool
unfolding is_index_in_bounds
index_in_bounds bounds c =
    is_index_in_bounds c.column_index bounds.last_column_index
    && is_index_in_bounds c.row_index bounds.last_row_index
