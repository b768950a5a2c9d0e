-- ===== src/Workbook.antt =====
-- libs/execution/src/lib/types/io-types/workbook.ts, and sheet-picker-executor.ts of the tabular
-- extension. The text of a template literal with a number, `Sheet${n}`, is a parameter.
pub mod Names
use jayvee.Base.{
  ℕ, zero, suc, ◌+◌, Option, none, some, List, [], ◌∷◌, length, Result, NoError, ok, err, throws,
  ◌>>=◌, ◌>>◌, assert, String, Bool, true, false, if◌then◌else◌,
}
use jayvee.Base.Dict.{lookup, insert, has}
use jayvee.Sheet.{Sheet, Cell, new_sheet}

-- The sheets of a workbook by their names
abbrev pub Workbook : Type 0
Workbook = List (String × Sheet)

-- The error that the sheet picker returns.
pub data PickerError : Type 0 where
  no_such_sheet : PickerError

abbrev pub get_sheet_by_name : String → Workbook → Option Sheet
get_sheet_by_name sheet_name w = lookup sheet_name w

module _ (sheet_name_of : ℕ → String) where
  -- The while loop of `getUniqueDefaultNameForNewSheet`: the name, or `none` where more than `n` turns
  -- are needed
  unfoldable pub find_free_name : ℕ → ℕ → Workbook → Option String
  find_free_name zero number w =
      if has (sheet_name_of number) w then none else some (sheet_name_of number)
  find_free_name (suc n) number w =
      let later = find_free_name n (suc number) w in
      if has (sheet_name_of number) w then later else some (sheet_name_of number)

  unfoldable pub get_unique_default_name_for_new_sheet : ℕ → Workbook → Option String
  get_unique_default_name_for_new_sheet n w = find_free_name n (suc (length w)) w

  abbrev pub name_or_default : ℕ → Option String → Workbook → Option String
  name_or_default n none w = get_unique_default_name_for_new_sheet n w
  name_or_default n (some sheet_name) w = some sheet_name

  -- `addSheet`, with the turns that the loop has
  unfoldable pub add_sheet :
      ℕ → List (List Cell) → Option String → Workbook → Option (Result NoError Workbook)
  add_sheet n cells sheet_name w = elim (name_or_default n sheet_name w) [
    | none ↦ none
    | some name ↦ some (if has name w then throws else ok (insert name (new_sheet cells) w))
  ]

-- `SheetPickerExecutor.doExecute`, from the value of the property
unfoldable pub pick_sheet : String → Workbook → Result PickerError Sheet
pick_sheet sheet_name w = elim (get_sheet_by_name sheet_name w) [
  | none ↦ err no_such_sheet
  | some sheet ↦ ok sheet
]
