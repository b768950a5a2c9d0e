-- ===== src/Cells.antt =====
-- The cell ranges of the language: util/cell-index.ts, util/column-id-util.ts, util/cell-range-util.ts
-- and cell-range-wrapper.ts below libs/language-server/src/lib/ast/wrappers.
pub mod ColumnId
pub mod Index
pub mod Range
