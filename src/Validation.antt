-- ===== src/Validation.antt =====
-- libs/language-server/src/lib/validation: checks/block-type-specific/property-assignment.ts,
-- checks/range-literal.ts, checks/column-id.ts and checkUniqueNames of validation-util.ts. A diagnostic stands for its message, without the place in
-- the source. What the nodes of the syntax tree are is given by parameters.
pub mod Names
use text.Mathlib.Text.{◌==◌ as str_eq}
use jayvee.Base.{
  ℕ, zero, suc, ◌+◌, Bool, true, false, ◌||◌, ◌&&◌, Option, none, some, List, [], ◌∷◌, ◌++◌, map,
  length, ltb, if◌then◌else◌, Result, NoError, ok, err, throws, ◌>>=◌, String,
}
use jayvee.Base.Dict.{lookup, insert}
use jayvee.Cells.Range.{
  CellRange, is_one_dimensional, is_column_wrapper, is_row_wrapper, is_upper, ColumnId, any_column,
  column_text,
}
use jayvee.Int.{ltb_ℤ}
use jayvee.Expressions.{
  Value, string, number, node, collection, Values, no_values, value, Runtime, EvaluationContext,
  cell_range_node, value_type_assignment_node,
}
use jayvee.Expressions.Types.{ValueType, node_type, collection_type, integer_type}
use jayvee.Constraints.{Numerals, PropertyValue, evaluate_property_value}

pub data PropertyDiagnostic : Type 0 where
  not_one_of : PropertyDiagnostic
  too_small : PropertyDiagnostic
  not_one_dimensional : PropertyDiagnostic
  no_entire_column : PropertyDiagnostic
  no_entire_row : PropertyDiagnostic
  line_number_too_small : PropertyDiagnostic
  path_traversal : PropertyDiagnostic
  name_not_unique : PropertyDiagnostic
  range_not_spanned : PropertyDiagnostic
  no_column_letters : PropertyDiagnostic

-- `groupNodesByName`: how many nodes have each of the names
unfoldable pub group_nodes_by_name : List String → List (String × ℕ) → List (String × ℕ)
group_nodes_by_name [] groups = groups
group_nodes_by_name (name ∷ names) groups = elim (lookup name groups) [
  | none ↦ group_nodes_by_name names (insert name 1 groups)
  | some n ↦ group_nodes_by_name names (insert name (suc n) groups)
]

unfoldable pub repeated : ℕ → PropertyDiagnostic → List PropertyDiagnostic
repeated zero d = []
repeated (suc n) d = d ∷ repeated n d

-- The loop of `checkUniqueNames` over the groups
unfoldable pub check_groups : List (String × ℕ) → List PropertyDiagnostic
check_groups [] = []
check_groups ((name, n) ∷ groups) =
    let others = check_groups groups in
    if ltb 1 n then repeated n name_not_unique ++ others else others

unfoldable pub check_unique_names : List String → List PropertyDiagnostic
check_unique_names names = check_groups (group_nodes_by_name names [])

-- The test of a wrapped range, where there is one
abbrev pub check_range :
    (CellRange → Bool) → PropertyDiagnostic → Option CellRange → List PropertyDiagnostic
check_range is_right d none = []
check_range is_right d (some range) = if is_right range then [] else d ∷ []

-- `checkRangeLimits` of range-literal.ts
unfoldable pub check_range_limits : CellRange → List PropertyDiagnostic
check_range_limits range =
    if ltb_ℤ range.to.column_index range.from.column_index
      || ltb_ℤ range.to.row_index range.from.row_index
    then range_not_spanned ∷ []
    else []

abbrev pub all_upper : List ℕ → Bool
all_upper [] = true
all_upper (c ∷ cs) = is_upper c && all_upper cs

-- `checkColumnIdSyntax` of column-id.ts, on a column id that has a value
unfoldable pub check_column_id_syntax : ColumnId → List PropertyDiagnostic
check_column_id_syntax any_column = []
check_column_id_syntax (column_text []) = no_column_letters ∷ []
check_column_id_syntax (column_text (c ∷ cs)) =
    if all_upper (c ∷ cs) then [] else no_column_letters ∷ []

module _ {N R : Type 0} where
  -- `allowedValues.includes(propValue)`, where all allowed values are texts
  abbrev pub is_allowed : List String → Value N R → Bool
  is_allowed [] v = false
  is_allowed (allowed ∷ others) (string s) = str_eq allowed s || is_allowed others (string s)
  is_allowed (allowed ∷ others) v = false

  -- `checkPropertyValueOneOf`
  abbrev pub check_property_value_one_of : Value N R → List String → List PropertyDiagnostic
  check_property_value_one_of v allowed_values =
      if is_allowed allowed_values v then [] else not_one_of ∷ []

  -- `typeof propValue === 'number' && propValue < minimum`
  abbrev pub check_minimum :
      Runtime N R → N → PropertyDiagnostic → Value N R → List PropertyDiagnostic
  check_minimum js minimum d (number n) = if js.less n minimum then d ∷ [] else []
  check_minimum js minimum d v = []

  -- The elements of a collection that `?.forEach` runs over; the other cases of a value do not occur.
  abbrev pub elements_of : Option (Value N R) → Values N R
  elements_of (some (collection vs)) = vs
  elements_of _ = no_values

  -- The loop over the lines of a text line deleter
  unfoldable pub check_lines_minimum : Runtime N R → Values N R → List PropertyDiagnostic
  check_lines_minimum js no_values = []
  check_lines_minimum js (value line lines) =
      check_minimum js js.one line_number_too_small line ++ check_lines_minimum js lines

  -- `CellRange.canWrap` and `CellRange.wrap`, where `cell_range_of` gives the wrapped range of a node,
  -- if it can be wrapped
  abbrev pub wrap_range : (ℕ → Option CellRange) → Value N R → Option CellRange
  wrap_range cell_range_of (node cell_range_node i) = cell_range_of i
  wrap_range cell_range_of v = none

  -- The loops over the cell ranges of a column deleter and of a row deleter
  unfoldable pub check_ranges :
      (ℕ → Option CellRange)
      → (CellRange → Bool)
      → PropertyDiagnostic
      → Values N R
      → List PropertyDiagnostic
  check_ranges cell_range_of is_right d no_values = []
  check_ranges cell_range_of is_right d (value v vs) =
      check_range is_right d (wrap_range cell_range_of v)
      ++ check_ranges cell_range_of is_right d vs

  abbrev pub names_of : (ℕ → String) → Values N R → List String
  names_of name_of no_values = []
  names_of name_of (value (node value_type_assignment_node i) vs) = name_of i ∷ names_of name_of vs
  names_of name_of (value v vs) = names_of name_of vs

module _ {N R : Type 0} (js : Runtime N R) (numerals : Numerals N)
    (runtime_parameters : List (String × String)) (thousand : N)
    (cell_range_of : ℕ → Option CellRange) (name_of : ℕ → String)
    (includes : String → String → Bool) (text_of : Value N R → String) where
  abbrev pub check_archive_interpreter_property : String → Value N R → List PropertyDiagnostic
  check_archive_interpreter_property name v =
      if str_eq name "archiveType" then check_property_value_one_of v ("zip" ∷ "gz" ∷ []) else []

  -- The evaluation of the property as a collection of elements of the given type
  abbrev pub evaluate_collection :
      PropertyValue N R → EvaluationContext N R → ValueType → Result NoError (Values N R)
  evaluate_collection property c t = do
    v ← evaluate_property_value js numerals runtime_parameters property c (collection_type t)
    ok (elements_of v)

  abbrev pub check_one_dimensional : Option (Value N R) → List PropertyDiagnostic
  check_one_dimensional none = []
  check_one_dimensional (some v) =
      check_range is_one_dimensional not_one_dimensional (wrap_range cell_range_of v)

  unfoldable pub check_cell_writer_property :
      String → PropertyValue N R → EvaluationContext N R → Result NoError (List PropertyDiagnostic)
  check_cell_writer_property name property c =
      if str_eq name "at"
      then (do
        v ←
            evaluate_property_value js numerals runtime_parameters property c
              (node_type cell_range_node)
        ok (check_one_dimensional v))
      else ok []

  unfoldable pub check_column_deleter_property :
      String → PropertyValue N R → EvaluationContext N R → Result NoError (List PropertyDiagnostic)
  check_column_deleter_property name property c =
      if str_eq name "delete"
      then (do
        cell_ranges ← evaluate_collection property c (node_type cell_range_node)
        ok (check_ranges cell_range_of is_column_wrapper no_entire_column cell_ranges))
      else ok []

  abbrev pub check_gtfs_rt_interpreter_property : String → Value N R → List PropertyDiagnostic
  check_gtfs_rt_interpreter_property name v =
      if str_eq name "entity"
      then check_property_value_one_of v ("trip_update" ∷ "alert" ∷ "vehicle" ∷ [])
      else []

  unfoldable pub check_http_extractor_property : String → Value N R → List PropertyDiagnostic
  check_http_extractor_property name v =
      (if str_eq name "retries" then check_minimum js js.zero too_small v else [])
      ++ (if str_eq name "retryBackoffMilliseconds"
          then check_minimum js thousand too_small v
          else [])
      ++ (if str_eq name "retryBackoffStrategy"
          then check_property_value_one_of v ("exponential" ∷ "linear" ∷ [])
          else [])

  unfoldable pub check_local_file_extractor_property : String → Value N R → List PropertyDiagnostic
  check_local_file_extractor_property name v =
      if str_eq name "filePath" && includes (text_of v) ".." then path_traversal ∷ [] else []

  unfoldable pub check_row_deleter_property :
      String → PropertyValue N R → EvaluationContext N R → Result NoError (List PropertyDiagnostic)
  check_row_deleter_property name property c =
      if str_eq name "delete"
      then (do
        cell_ranges ← evaluate_collection property c (node_type cell_range_node)
        ok (check_ranges cell_range_of is_row_wrapper no_entire_row cell_ranges))
      else ok []

  unfoldable pub check_table_interpreter_property :
      String → PropertyValue N R → EvaluationContext N R → Result NoError (List PropertyDiagnostic)
  check_table_interpreter_property name property c =
      if str_eq name "columns"
      then (do
        value_type_assignments ←
            evaluate_collection property c (node_type value_type_assignment_node)
        ok (check_unique_names (names_of name_of value_type_assignments)))
      else ok []

  unfoldable pub check_text_file_interpreter_property : String → Value N R → List PropertyDiagnostic
  check_text_file_interpreter_property name v =
      if str_eq name "encoding"
      then check_property_value_one_of v (
          "utf8" ∷ "ibm866" ∷ "latin2" ∷ "latin3" ∷ "latin4" ∷ "cyrillic" ∷ "arabic" ∷ "greek"
          ∷ "hebrew" ∷ "logical" ∷ "latin6" ∷ "utf-16" ∷ [])
      else []

  unfoldable pub check_text_line_deleter_property :
      String → PropertyValue N R → EvaluationContext N R → Result NoError (List PropertyDiagnostic)
  check_text_line_deleter_property name property c =
      if str_eq name "lines"
      then (do
        lines ← evaluate_collection property c integer_type
        ok (check_lines_minimum js lines))
      else ok []

  abbrev pub check_text_range_selector_property : String → Value N R → List PropertyDiagnostic
  check_text_range_selector_property name v =
      if str_eq name "lineFrom" || str_eq name "lineTo"
      then check_minimum js js.one too_small v
      else []

  -- The `switch` of `checkBlockTypeSpecificProperties` on the name of the block type
  unfoldable pub check_by_block_type :
      String
      → String
      → Value N R
      → PropertyValue N R
      → EvaluationContext N R
      → Result NoError (List PropertyDiagnostic)
  check_by_block_type block_type name v property c =
      if str_eq block_type "ArchiveInterpreter"
      then ok (check_archive_interpreter_property name v)
      else if str_eq block_type "CellWriter"
      then check_cell_writer_property name property c
      else if str_eq block_type "ColumnDeleter"
      then check_column_deleter_property name property c
      else if str_eq block_type "GtfsRTInterpreter"
      then ok (check_gtfs_rt_interpreter_property name v)
      else if str_eq block_type "HttpExtractor"
      then ok (check_http_extractor_property name v)
      else if str_eq block_type "LocalFileExtractor"
      then ok (check_local_file_extractor_property name v)
      else if str_eq block_type "RowDeleter"
      then check_row_deleter_property name property c
      else if str_eq block_type "TableInterpreter"
      then check_table_interpreter_property name property c
      else if str_eq block_type "TextFileInterpreter"
      then ok (check_text_file_interpreter_property name v)
      else if str_eq block_type "TextLineDeleter"
      then check_text_line_deleter_property name property c
      else if str_eq block_type "TextRangeSelector"
      then ok (check_text_range_selector_property name v)
      else ok []

  -- `checkBlockTypeSpecificProperties`, for the type that the specification of the property has
  unfoldable pub check_block_type_specific_properties :
      String
      → String
      → ValueType
      → PropertyValue N R
      → EvaluationContext N R
      → Result NoError (List PropertyDiagnostic)
  check_block_type_specific_properties block_type name t property c = do
    v ← evaluate_property_value js numerals runtime_parameters property c t
    elim v [ none ↦ ok [] | some w ↦ check_by_block_type block_type name w property c ]
