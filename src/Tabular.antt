-- ===== src/Tabular.antt =====
-- libs/extensions/tabular/exec/src/lib: the executors of the blocks on sheets and tables.
pub mod Indexed
pub mod ColumnDeleter
pub mod RowDeleter
pub mod TableTransformer
pub mod TableInterpreter
pub mod CellBlocks
