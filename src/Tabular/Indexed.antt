-- ===== src/Tabular/Indexed.antt =====
-- The sorting and the removal of duplicates that column-deleter-executor.ts and
-- row-deleter-executor.ts share, letter for letter: on columns or rows with their indexes.
pub mod Duplicates
pub mod Distinct
use jayvee.Base.{
  zero, suc, ℕ, Bool, false, List, [], ◌∷◌, ◌++◌, get_elem?, Option, none, some, if◌then◌else◌,
}
use jayvee.Int.{ℤ, leb_ℤ, eqb_ℤ}
use jayvee.Cells.Range.{CellRange}

-- A column with the index that `getColumnIndex` gives, or a row with that of `getRowIndex`.
abbrev pub Indexed : Type 0
Indexed = ℤ × CellRange

-- `sortByColumnIndex`; `sort` is stable.
unfoldable pub insert_by_index : Indexed → List Indexed → List Indexed
insert_by_index c [] = c ∷ []
insert_by_index c (d ∷ ds) = if leb_ℤ c.0 d.0 then c ∷ d ∷ ds else d ∷ insert_by_index c ds

unfoldable pub sort_by_index : List Indexed → List Indexed
sort_by_index [] = []
sort_by_index (c ∷ cs) = insert_by_index c (sort_by_index cs)

-- `previous[index - 1]`
abbrev pub element_before : List Indexed → ℕ → Option Indexed
element_before previous zero = none
element_before previous (suc i) = get_elem? previous i

abbrev pub has_same_index : Option Indexed → Indexed → Bool
has_same_index none c = false
has_same_index (some d) c = eqb_ℤ d.0 c.0

-- The `reduce` of `removeDuplicateColumns`, from the given `previous` and `index`.
unfoldable pub remove_duplicates_from : List Indexed → ℕ → List Indexed → List Indexed
remove_duplicates_from previous index [] = previous
remove_duplicates_from previous index (c ∷ cs) =
    let previous' =
      if has_same_index (element_before previous index) c then previous else previous ++ c ∷ [] in
    remove_duplicates_from previous' (suc index) cs

unfoldable pub remove_duplicates : List Indexed → List Indexed
remove_duplicates columns = remove_duplicates_from [] 0 columns
