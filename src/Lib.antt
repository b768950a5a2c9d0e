-- ===== src/Lib.antt =====
-- Verification of the core of Jayvee, a language for data pipelines and its interpreter.
--
-- A pipeline is a graph of blocks. Each block takes a value of some kind (a sheet, a table, a file,
-- a file system) and gives another one. The modules here follow the code, which stands in libs/:
--
--   Base          lists, JavaScript maps, sorting and the outcomes of a call, shared by all modules
--   Int           integers, for the cell indexes, which are negative in some cases
--   Table         execution/src/lib/types/io-types/table.ts: `add_column` is `addColumn`, and so on
--   Cells         language-server/src/lib/ast/wrappers: cell-range-wrapper.ts, util/cell-index.ts,
--                 util/cell-range-util.ts, util/column-id-util.ts
--   Sheet         execution/src/lib/types/io-types/sheet.ts
--   Tabular       extensions/tabular/exec/src/lib: column-deleter-executor.ts,
--                 row-deleter-executor.ts, table-transformer-executor.ts,
--                 table-interpreter-executor.ts; Tabular/CellBlocks: cell-writer-executor.ts and
--                 cell-range-selector-executor.ts
--   Workbook      execution/src/lib/types/io-types/workbook.ts and sheet-picker-executor.ts
--   Standard      extensions/std/exec/src: file-picker-executor.ts,
--                 text-file-interpreter-executor.ts, text-line-deleter-executor.ts,
--                 text-range-selector-executor.ts, the retries of http-extractor-executor.ts
--   FileSystem    execution/src/lib/types/io-types: the file system in memory
--   Expressions   language-server/src/lib/ast/expressions: values, operators and their evaluation;
--                 Expressions/Types: wrappers/value-type and the type computers of the operators
--                 Expressions/Inference: type-inference.ts and wrappers/util/value-type-util.ts
--   Constraints   execution/src/lib: constraints/executors, types/value-types and the properties that
--                 execution-context.ts reads for a constraint
--   Transforms    execution/src/lib/transforms/transform-executor.ts
--   Pipelines     language-server/src/lib/ast/wrappers: pipeline-wrapper.ts, pipe-wrapper.ts
--   Blocks        execution/src/lib: blocks/block-execution-util.ts,
--                 blocks/composite-block-executor.ts and the stack of execution-context.ts
--   Validation    language-server/src/lib/validation: checks/block-type-specific/
--                 property-assignment.ts, range-literal.ts, column-id.ts and checkUniqueNames of
--                 validation-util.ts
--   Tests         the definitions and theorems at concrete inputs
--
-- State is passed explicitly: an operation takes the object and gives the changed one. A call that
-- can fail gives a `Result` (Base/Monad): `ok`, `err` for a returned `R.err`, or `throws` for a failed
-- assertion or a read of a missing element. The texts of messages and the logging are left out.
-- Names are strings; the characters of cell references are numbers, their char codes. The while loop
-- of `columnIndexAsCharacters` has one unit of fuel for each unit of its value, which falls in every
-- turn. The doubles that column indexes are computed with are the parameter `Doubles`, of which the
-- round trips assume that they, and the floors of their quotients by 26, are exact below 2 ^ 53.
--
-- The loop of the topological sorting is a step on its variables that is repeated any number of times;
-- as many turns as there are starting blocks and pipes are enough. The while loop for the default name
-- of a sheet has as many turns as the workbook has sheets. The loops of the HTTP extractor and of the
-- texts are structural.
--
-- The pipeline wrapper orders the blocks, `execute_blocks` runs them in that order and hands each
-- one the value of its first parent, and the blocks work on tables, sheets and files. Expressions
-- are the values of the blocks' properties; constraints check values against their types,
-- transforms compute a column of a table from other columns, and the table interpreter reads a
-- sheet by the types of its columns, whose names the validation of the editor checks. JavaScript's
-- numbers and regular expressions are parameters of the expressions, with their operations in the
-- record `Runtime`; tests of numbers are the record `Numerals`. Only the theorems on the types of
-- operators assume something of them, that arithmetic gives integers for integers unless it
-- overflows. The declarations of constraints, the runtime parameters, the text of a default name
-- of a sheet, the attempts to fetch a file and, for the validation, the nodes behind a reference
-- and the texts of values are parameters as well.
--
-- Not modelled: input and output (network, databases, CSV, XLSX, GTFS and archive libraries), the
-- grammar and the language server's services and its other validation checks, the editor, the
-- generation of SQL texts, and the reading of models and command line options by the interpreter.
pub mod Base
pub mod Int
pub mod Table
pub mod Cells
pub mod Sheet
pub mod Tabular
pub mod FileSystem
pub mod Expressions
pub mod Blocks
pub mod Pipelines
pub mod Tests
pub mod Constraints
pub mod Transforms
pub mod Workbook
pub mod Validation
pub mod Standard
