-- ===== src/Table/Accepts.antt =====
-- The rows that addRow accepts.
use text.Mathlib.Text.{◌==◌ as str_eq}
use text.Mathlib.TextEquality.{eq_iff}
use jayvee.Base.{
  suc, ◌≡◌, refl, sym, ap, ◌∙◌, subst, Bool, true, Option, some, List, [], ◌∷◌, all, length, All,
  String, Bool-cases, inl, inr, ok, ◌==◌, ==_iff,
}
use jayvee.Base.Dict.{lookup, insert, lookup-insert, has, keys}
use jayvee.Table.{Table, TableColumn, push_value, push_entries, add_entries, add_row}

pub All-insert :
    {V : Type 0} (P : String × V → Type 0) (k : String) (v : V) (m : List (String × V))
    → P (k, v)
    → All P m
    → All P (insert k v m)
unfolding insert
All-insert P k v [] p h = (p, tt)
All-insert P k v ((j, w) ∷ m) p (q, h) = elim (Bool-cases (str_eq j k)) [
  | inl same ↦ rw same (subst (λ i. P (i, v)) (sym ((eq_iff j k).0 same)) p, h)
  | inr other ↦ rw other (q, All-insert P k v m p h)
]

module _ {V T : Type 0} (is_representation : T → V → Bool) where
  -- A column for the entry, whose type the value of the entry represents
  abbrev pub Fits : List (String × TableColumn V T) → String × V → Type 0
  Fits columns e =
      (column : TableColumn V T) × (lookup e.0 columns ≡ some column)
      × (is_representation column.value_type e.1 ≡ true)

  Fits-push :
      (columns : List (String × TableColumn V T)) (name : String) (c : TableColumn V T) (v : V)
      (e : String × V)
      → lookup name columns ≡ some c
      → Fits columns e
      → Fits (insert name (push_value c v) columns) e
  Fits-push columns name c v e known (column, found, fits) = elim (Bool-cases (str_eq name e.0)) [
    | inl same ↦
        let one : ◌≡◌ {A = Option (TableColumn V T)} (some c) (some column) =
          sym known ∙ ap (λ k. lookup k columns) ((eq_iff name e.0).0 same) ∙ found in
        (
          push_value c v,
          lookup-insert name e.0 (push_value c v) columns ∙ rw same refl,
          subst (λ x. is_representation x.value_type e.1 ≡ true) (sym (inner c column one)) fits,
        )
    | inr other ↦ (column, lookup-insert name e.0 (push_value c v) columns ∙ rw other found, fits)
  ]
    where
      inner : (x y : TableColumn V T) → ◌≡◌ {A = Option (TableColumn V T)} (some x) (some y) → x ≡ y
      inner x y e' = cc

  All-Fits-push :
      (columns : List (String × TableColumn V T)) (name : String) (c : TableColumn V T) (v : V)
      (row : List (String × V))
      → lookup name columns ≡ some c
      → All (Fits columns) row
      → All (Fits (insert name (push_value c v) columns)) row
  All-Fits-push columns name c v [] known h = tt
  All-Fits-push columns name c v (e ∷ row) known (p, h) =
      (Fits-push columns name c v e known p, All-Fits-push columns name c v row known h)

  push_entries-ok :
      (row : List (String × V)) (columns : List (String × TableColumn V T))
      → All (Fits columns) row
      → (columns' : List (String × TableColumn V T)) × (push_entries is_representation row columns
          ≡ ok columns')
  unfolding push_entries
  push_entries-ok [] columns h = (columns, refl)
  push_entries-ok ((name, v) ∷ row) columns ((column, found, fits), h) =
      let (columns', pushed) =
        push_entries-ok row (insert name (push_value column v) columns)
          (All-Fits-push columns name column v row found h) in
      (columns', rw (found, fits) pushed)

  all_known :
      (row : List (String × V)) (columns : List (String × TableColumn V T))
      → All (Fits columns) row
      → all (λ name. has name columns) (keys row) ≡ true
  all_known [] columns h = refl
  all_known ((name, v) ∷ row) columns ((column, found, fits), h) =
      rw (has, found) (all_known row columns h)

  pub add_row-ok :
      (row : List (String × V)) (t : Table V T)
      → length row ≡ length t.columns
      → All (Fits t.columns) row
      → (t' : Table V T) × (add_row is_representation row t ≡ ok t')
  unfolding add_row add_entries
  add_row-ok row t same h =
      let counted : (length row == length t.columns) ≡ true = (==_iff _ _).1 same in
      let (columns, pushed) = push_entries-ok row t.columns h in
      elim (Bool-cases (length row == 0)) [
        | inl is_empty ↦ (t, rw (counted, is_empty) refl)
        | inr filled ↦ (
          record t { number_of_rows = suc t.number_of_rows; columns = columns },
          rw (counted, filled, all_known row t.columns h, pushed) refl,
        )
      ]
