-- ===== src/Table.antt =====
-- libs/execution/src/lib/types/io-types/table.ts: the class `Table`, generic in the values `V` and
-- the value types `T`. `columns` is a `Map`; a `TableRow` is an object, whose keys are distinct.
-- Row ids are natural numbers, as the only callers pass. The generation of SQL texts is left out.
use jayvee.Base.{
  ℕ, suc, ◌-◌, ◌≡◌, Bool, true, false, Option, none, some, List, [], ◌∷◌, ◌++◌, map, ltb, ◌==◌,
  if◌then◌else◌, length, get_elem?, all, erase_idx, Result, NoError, ok, err, throws, ◌>>=◌, ◌>>◌,
  assert, defined, String,
}
use jayvee.Base.Dict.{lookup, insert, has, keys}
use jayvee.Base.Sorting.{sort_desc}
pub mod Shape
pub mod Rows
pub mod Typed
pub mod Accepts

pub record TableColumn (V T : Type 0) : Type 0 where
  pub values : List V
  pub value_type : T

pub record Table (V T : Type 0) : Type 0 where
  pub number_of_rows : ℕ
  pub columns : List (String × TableColumn V T)

module _ {V T : Type 0} where
  -- `new Table(numberOfRows)`
  abbrev pub empty_table : ℕ → Table V T
  empty_table n = record { number_of_rows = n; columns = [] }

  unfoldable pub add_column : String → TableColumn V T → Table V T → Result NoError (Table V T)
  add_column name column t = do
    assert (length column.values == t.number_of_rows)
    ok (record t { columns = insert name column t.columns })

  -- `column.values.push(value)`
  abbrev pub push_value : TableColumn V T → V → TableColumn V T
  push_value column value = record column { values = column.values ++ value ∷ [] }

  -- `f` on the values of every column.
  abbrev pub on_values :
      (List V → List V) → List (String × TableColumn V T) → List (String × TableColumn V T)
  on_values f = map (λ (name, column). (name, record column { values = f column.values }))

  unfoldable pub drop_row : ℕ → Table V T → Result NoError (Table V T)
  drop_row row_id t = do
    assert (ltb row_id t.number_of_rows)
    ok (record t {
      number_of_rows = t.number_of_rows - 1;
      columns = on_values (λ vs. erase_idx vs row_id) t.columns;
    })

  -- The `forEach` of `dropRows`, over the sorted row ids.
  unfoldable pub drop_each : List ℕ → Table V T → Result NoError (Table V T)
  drop_each [] t = ok t
  drop_each (row_id ∷ row_ids) t = do t' ← drop_row row_id t; drop_each row_ids t'

  unfoldable pub drop_rows : List ℕ → Table V T → Result NoError (Table V T)
  unfolding sort_desc
  drop_rows row_ids t = drop_each (sort_desc row_ids) t

  -- The loop of `getRow` over the columns.
  unfoldable pub row_entries :
      ℕ → List (String × TableColumn V T) → Result NoError (List (String × V))
  row_entries row_id [] = ok []
  row_entries row_id ((name, column) ∷ columns) = do
    value ← defined (get_elem? column.values row_id)
    row ← row_entries row_id columns
    ok ((name, value) ∷ row)

  unfoldable pub get_row : ℕ → Table V T → Result NoError (List (String × V))
  get_row row_id t = if ltb row_id t.number_of_rows then row_entries row_id t.columns else throws

  -- The loop of `clone`; the column values are copied by `structuredClone`.
  unfoldable pub clone_columns :
      List (String × TableColumn V T) → Table V T → Result NoError (Table V T)
  clone_columns [] cloned = ok cloned
  clone_columns ((name, column) ∷ columns) cloned = do
    cloned' ← add_column name column cloned
    clone_columns columns cloned'

  unfoldable pub clone : Table V T → Result NoError (Table V T)
  clone t = clone_columns t.columns (record (empty_table 0) { number_of_rows = t.number_of_rows })

  module _ (is_representation : T → V → Bool) where
    -- The loop of `addRow` over `Object.entries(row)`.
    unfoldable pub push_entries :
        List (String × V)
        → List (String × TableColumn V T)
        → Result NoError (List (String × TableColumn V T))
    push_entries [] columns = ok columns
    push_entries ((name, value) ∷ row) columns = do
      column ← defined (lookup name columns)
      assert (is_representation column.value_type value)
      push_entries row (insert name (push_value column value) columns)

    -- `addRow` behind its early return.
    unfoldable pub add_entries : List (String × V) → Table V T → Result NoError (Table V T)
    add_entries row t = do
      assert (all (λ name. has name t.columns) (keys row))
      columns ← push_entries row t.columns
      ok (record t { number_of_rows = suc t.number_of_rows; columns = columns })

    unfoldable pub add_row : List (String × V) → Table V T → Result NoError (Table V T)
    add_row row t = do
      assert (length row == length t.columns)
      if length row == 0 then ok t else add_entries row t
