-- ===== src/Tabular/TableInterpreter.antt =====
-- table-interpreter-executor.ts: a sheet is read as a table, by columns with names and value types. The
-- AST node of a column entry, which nothing reads, is left out.
pub mod Typed
pub mod Named
pub mod Added
use text.Mathlib.Text.{◌==◌ as str_eq}
use jayvee.Base.{
  ℕ, zero, suc, Bool, true, false, ◌&&◌, Option, none, some, List, [], ◌∷◌, length, get_elem?, ◌==◌,
  if◌then◌else◌, Result, NoError, ok, err, throws, ◌>>=◌, ◌>>◌, assert, defined, String,
}
use jayvee.Base.Dict.{insert}
use jayvee.Int.{ℤ, pos, ltb_ℤ}
use jayvee.Sheet.{Sheet, Cell}
use jayvee.Expressions.{Value, Runtime, EvaluationContext}
use jayvee.Expressions.Types.{ValueType, atomic_type, rootless_type}
use jayvee.Constraints.{
  Numerals, parse_value_to_internal_representation, is_internal_value_representation,
}
use jayvee.Constraints.Validity.{Definitions, is_valid_value_representation}
use jayvee.Table.{Table, TableColumn, empty_table, add_column, add_row}

-- The errors that the block returns.
pub data InterpreterError : Type 0 where
  sheet_is_empty too_few_columns : InterpreterError

-- A column definition, with its wrapped value type, if it can be wrapped
pub record ColumnDefinition : Type 0 where
  pub name : String
  pub type : Option ValueType

pub record ColumnDefinitionEntry : Type 0 where
  pub sheet_column_index : ℕ
  pub column_name : String
  pub value_type : ValueType

abbrev pub without_error : {A : Type 0} → Result NoError A → Result InterpreterError A
without_error (ok a) = ok a
without_error (err e) = elim e [ ]
without_error throws = throws

-- `deriveColumnDefinitionEntriesWithoutHeader`, from the index of the first definition
unfoldable pub derive_without_header :
    ℕ → List ColumnDefinition → Result NoError (List ColumnDefinitionEntry)
derive_without_header i [] = ok []
derive_without_header i (d ∷ ds) = do
  value_type ← defined d.type
  entries ← derive_without_header (suc i) ds
  ok (record { sheet_column_index = i; column_name = d.name; value_type = value_type } ∷ entries)

-- `headerRow.findIndex`, from the given index; a hole is no name
abbrev pub is_name : String → Cell → Bool
is_name name none = false
is_name name (some s) = str_eq s name

abbrev pub find_header : ℕ → String → List Cell → Option ℕ
find_header i name [] = none
find_header i name (cell ∷ cells) =
    let later = find_header (suc i) name cells in if is_name name cell then some i else later

-- `deriveColumnDefinitionEntriesFromHeader`
unfoldable pub derive_from_header :
    List ColumnDefinition → List Cell → Result NoError (List ColumnDefinitionEntry)
derive_from_header [] header_row = ok []
derive_from_header (d ∷ ds) header_row = elim (find_header 0 d.name header_row) [
  | none ↦ derive_from_header ds header_row
  | some i ↦ (do
    value_type ← defined d.type
    entries ← derive_from_header ds header_row
    ok (record { sheet_column_index = i; column_name = d.name; value_type = value_type } ∷ entries))
]

-- `Sheet.getHeaderRow`
abbrev pub get_header_row : Sheet → Result NoError (List Cell)
get_header_row s = do assert (ltb_ℤ (pos 0) s.number_of_rows); defined (get_elem? s.cells 0)

-- The two branches of `doExecute` on the property `header`
abbrev pub column_entries :
    Bool → List ColumnDefinition → Sheet → Result InterpreterError (List ColumnDefinitionEntry)
column_entries true definitions sheet =
    if ltb_ℤ sheet.number_of_rows (pos 1)
    then err sheet_is_empty
    else without_error (get_header_row sheet >>= derive_from_header definitions)
column_entries false definitions sheet =
    if ltb_ℤ sheet.number_of_columns (pos (length definitions))
    then err too_few_columns
    else without_error (derive_without_header 0 definitions)

abbrev pub behind_header : Bool → List (List Cell) → List (List Cell)
behind_header true (header_row ∷ rows) = rows
behind_header _ rows = rows

module _ {N R : Type 0} where
  -- The variables `invalidRow` and `tableRow`: the row is `none` once a value is invalid.
  -- An assignment to the name `__proto__` of an object adds no key.
  abbrev pub put_cell :
      String → Option (Value N R) → List (String × Value N R) → List (String × Value N R)
  put_cell name none table_row = table_row
  put_cell name (some v) table_row =
      if str_eq name "__proto__" then table_row else insert name v table_row

  abbrev pub is_undefined : Option (Value N R) → Bool
  is_undefined none = true
  is_undefined (some v) = false

  -- The first `forEach` of `constructAndValidateTable`
  unfoldable pub add_columns :
      List ColumnDefinitionEntry
      → Table (Value N R) ValueType
      → Result NoError (Table (Value N R) ValueType)
  add_columns [] table = ok table
  add_columns (entry ∷ entries) table = do
    table' ←
        add_column entry.column_name (record { values = []; value_type = entry.value_type }) table
    add_columns entries table'

module _ {N R : Type 0} (js : Runtime N R) (numerals : Numerals N)
    (runtime_parameters : List (String × String)) (definitions : Definitions N R) where
  -- The parsing of a cell that the row does not have: `fromString(undefined)` gives undefined for
  -- every primitive type.
  abbrev pub parse_missing : ValueType → Result NoError (Option (Value N R))
  parse_missing (atomic_type i t) = parse_missing t
  parse_missing (rootless_type i) = throws
  parse_missing _ = ok none

  abbrev pub parse_cell : Option Cell → ValueType → Result NoError (Option (Value N R))
  parse_cell (some (some s)) t = parse_value_to_internal_representation js numerals s t
  parse_cell _ t = parse_missing t

  abbrev pub validate :
      Option (Value N R)
      → ValueType
      → EvaluationContext N R
      → Result NoError (Option (Value N R) × EvaluationContext N R)
  validate none t c = ok (none, c)
  validate (some v) t c = do
    (is_valid, c') ← is_valid_value_representation js numerals runtime_parameters definitions v t c
    ok (if is_valid then some v else none, c')

  -- `parseAndValidateValue`
  unfoldable pub parse_and_validate_value :
      Option Cell
      → ValueType
      → EvaluationContext N R
      → Result NoError (Option (Value N R) × EvaluationContext N R)
  parse_and_validate_value cell t c = do parsed_value ← parse_cell cell t; validate parsed_value t c

  -- The `forEach` of `constructAndValidateTableRow`
  unfoldable pub read_cells :
      List Cell
      → List ColumnDefinitionEntry
      → Bool
      → List (String × Value N R)
      → EvaluationContext N R
      → Result NoError ((Bool × List (String × Value N R)) × EvaluationContext N R)
  read_cells sheet_row [] invalid_row table_row c = ok ((invalid_row, table_row), c)
  read_cells sheet_row (entry ∷ entries) invalid_row table_row c = do
    (parsed_value, c') ←
        parse_and_validate_value (get_elem? sheet_row entry.sheet_column_index) entry.value_type c
    read_cells sheet_row entries (if is_undefined parsed_value then true else invalid_row)
        (put_cell entry.column_name parsed_value table_row) c'

  -- `constructAndValidateTableRow`
  unfoldable pub construct_table_row :
      List Cell
      → List ColumnDefinitionEntry
      → EvaluationContext N R
      → Result NoError (Option (List (String × Value N R)) × EvaluationContext N R)
  construct_table_row sheet_row entries c = do
    (result, c') ← read_cells sheet_row entries false [] c
    if result.0
        then ok (none, c')
        else (do assert (length result.1 == length entries); ok (some result.1, c'))

  abbrev pub add_if :
      Option (List (String × Value N R))
      → Table (Value N R) ValueType
      → Result NoError (Table (Value N R) ValueType)
  add_if none table = ok table
  add_if (some row) table = add_row (is_internal_value_representation js numerals) row table

  -- The loop over the rows of the sheet, behind the header
  unfoldable pub add_rows :
      List (List Cell)
      → List ColumnDefinitionEntry
      → EvaluationContext N R
      → Table (Value N R) ValueType
      → Result NoError (Table (Value N R) ValueType)
  add_rows [] entries c table = ok table
  add_rows (sheet_row ∷ sheet_rows) entries c table = do
    (table_row, c') ← construct_table_row sheet_row entries c
    table' ← add_if table_row table
    add_rows sheet_rows entries c' table'

  -- `constructAndValidateTable`
  unfoldable pub construct_and_validate_table :
      Sheet
      → Bool
      → List ColumnDefinitionEntry
      → EvaluationContext N R
      → Result NoError (Table (Value N R) ValueType)
  construct_and_validate_table sheet header entries c = do
    table ← add_columns entries (empty_table 0)
    add_rows (behind_header header sheet.cells) entries c table

  -- `doExecute`, from the values of the two properties
  unfoldable pub execute :
      Bool
      → List ColumnDefinition
      → EvaluationContext N R
      → Sheet
      → Result InterpreterError (Table (Value N R) ValueType)
  execute header column_definitions c sheet = do
    entries ← column_entries header column_definitions sheet
    without_error (construct_and_validate_table sheet header entries c)
