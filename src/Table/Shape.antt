-- ===== src/Table/Shape.antt =====
-- The rectangle that the class comment of table.ts promises, through every operation that changes
-- the table.
use jayvee.Base.{
  ℕ, suc, ◌≡◌, refl, ap, ◌∙◌, Bool, true, false, some, none, List, [], ◌∷◌, map, arith, ◌==◌,
  if◌then◌else◌, length, length-append, All, ok, String, sym, assert-eq-ok, defined-eq-ok,
  ok_injective, subst, ◌⊎◌, Option, >>=-eq-ok, inl, inr, Bool-cases, ==_iff,
}
use jayvee.Base.Dict.{
  lookup, insert, has, lookup-eq-none_of_Lacks, Lacks, HasDistinctKeys, HasDistinctKeys-insert,
}
use jayvee.Base.Cover.{has-all_of_length}
use text.Mathlib.TextEquality.{eq_iff}
use jayvee.Table.{TableColumn, Table, add_column, push_value, push_entries, add_row, add_entries}

module _ {V T : Type 0} where
  abbrev pub HasRows : ℕ → List (String × TableColumn V T) → Type 0
  HasRows n columns = All (λ e. length e.1.values ≡ n) columns

  -- All columns have the same size, and the `Map` of the columns has distinct keys.
  pub record IsRectangle (t : Table V T) : Type 0 where
    pub rows : HasRows t.number_of_rows t.columns
    pub distinct : HasDistinctKeys t.columns

  pub HasRows-insert :
      (n : ℕ) (name : String) (column : TableColumn V T) (columns : List (String × TableColumn V T))
      → length column.values ≡ n
      → HasRows n columns
      → HasRows n (insert name column columns)
  unfolding insert
  HasRows-insert n name column [] e h = (e, tt)
  HasRows-insert n name column ((k, c) ∷ columns) e (p, h) =
      ground (arith, HasRows-insert n name column columns e h)

  -- Adding a column to a rectangular table keeps the rectangle whenever it does not throw.
  pub add_column-IsRectangle :
      (name : String) (column : TableColumn V T) (t t' : Table V T)
      → IsRectangle t
      → add_column name column t ≡ ok t'
      → IsRectangle t'
  unfolding add_column
  add_column-IsRectangle name column t t' r h =
      let (same, e) = assert-eq-ok _ _ h in
      subst IsRectangle (ok_injective e) (record {
        rows = HasRows-insert _ name column t.columns ((==_iff _ _).0 same) r.rows;
        distinct = HasDistinctKeys-insert name column t.columns r.distinct;
      })

  -- What `addRow` leaves in the columns: each one with its value of the row, if there is one.
  abbrev pub push_row :
      List (String × V) → List (String × TableColumn V T) → List (String × TableColumn V T)
  push_row row = map (λ (name, column).
      (name, elim (lookup name row) [ none ↦ column | some v ↦ push_value column v ]))

  push_row_nil : (columns : List (String × TableColumn V T)) → push_row [] columns ≡ columns
  unfolding lookup
  push_row_nil [] = refl
  push_row_nil (c ∷ columns) = ap (◌∷◌ c) (push_row_nil columns)

  push_row-Lacks :
      (name : String) (v : V) (row : List (String × V)) (columns : List (String × TableColumn V T))
      → Lacks name columns
      → push_row row columns ≡ push_row ((name, v) ∷ row) columns
  unfolding lookup
  push_row-Lacks name v row [] l = refl
  push_row-Lacks name v row ((k, c) ∷ columns) (e, l) =
      ground (arith, eq_iff name k, eq_iff k name, push_row-Lacks name v row columns l)

  push_row-insert :
      (name : String) (v : V) (row : List (String × V)) (columns : List (String × TableColumn V T))
      (c : TableColumn V T)
      → lookup name columns ≡ some c
      → lookup name row ≡ none
      → HasDistinctKeys columns
      → push_row row (insert name (push_value c v) columns) ≡ push_row ((name, v) ∷ row) columns
  unfolding lookup insert
  push_row-insert name v row [] c h n d = cc
  push_row-insert name v row ((k, c') ∷ columns) c h n (l, d) = ground (
    arith,
    eq_iff name k,
    eq_iff k name,
    push_row-Lacks name v row columns,
    push_row-insert name v row columns c,
  )

  abbrev values_of : TableColumn V T → List V
  values_of c = c.values

  HasRows-push_row :
      (n : ℕ) (row : List (String × V)) (columns : List (String × TableColumn V T))
      → HasRows n columns
      → All (λ e. has e.0 row ≡ true) columns
      → HasRows (suc n) (push_row row columns)
  HasRows-push_row n row [] h k = tt
  HasRows-push_row n row ((name, c) ∷ columns) (h, hs) (k, ks) =
      (pushed (lookup name row) k, HasRows-push_row n row columns hs ks)
    where
      pushed :
          (o : Option V)
          → (elim o [ none ↦ false | some v ↦ true ]) ≡ true
          → length (values_of (elim o [ none ↦ c | some v ↦ push_value c v ])) ≡ suc n
      pushed none e = cc
      pushed (some v) e = omega (arith, length-append c.values (v ∷ []))

  Lacks-push_row :
      (k : String) (row : List (String × V)) (columns : List (String × TableColumn V T))
      → Lacks k columns
      → Lacks k (push_row row columns)
  Lacks-push_row k row [] l = tt
  Lacks-push_row k row (c ∷ columns) (p, l) = (p, Lacks-push_row k row columns l)

  HasDistinctKeys-push_row :
      (row : List (String × V)) (columns : List (String × TableColumn V T))
      → HasDistinctKeys columns
      → HasDistinctKeys (push_row row columns)
  HasDistinctKeys-push_row row [] d = tt
  HasDistinctKeys-push_row row ((k, c) ∷ columns) (l, d) =
      (Lacks-push_row k row columns l, HasDistinctKeys-push_row row columns d)

  -- `t` with one row more, in the given columns.
  abbrev pub grown : Table V T → List (String × TableColumn V T) → Table V T
  grown t columns = record { number_of_rows = suc t.number_of_rows; columns = columns }

  module _ (is_representation : T → V → Bool) where
    pub push_entries-eq-push_row :
        (row : List (String × V)) (columns columns' : List (String × TableColumn V T))
        → HasDistinctKeys row
        → HasDistinctKeys columns
        → push_entries is_representation row columns ≡ ok columns'
        → columns' ≡ push_row row columns
    unfolding push_entries
    push_entries-eq-push_row [] columns columns' dr dc h =
        sym (ok_injective h) ∙ sym (push_row_nil columns)
    push_entries-eq-push_row ((name, v) ∷ row) columns columns' (l, dr) dc h =
        let (c, found, h') = defined-eq-ok (lookup name columns) _ h in
        let (_, h'') = assert-eq-ok _ _ h' in
        let ih =
          push_entries-eq-push_row row _ columns' dr (HasDistinctKeys-insert name _ columns dc)
            h'' in
        ih ∙ push_row-insert name v row columns c found (lookup-eq-none_of_Lacks name row l) dc

    -- A row with distinct keys that `addRow` accepts on a rectangular table leaves either the table as
    -- it is, when the row has no entry, or one row more and every column with its value of that row
    -- at the end, which the row has.
    pub add_row-eq :
        (row : List (String × V)) (t t' : Table V T)
        → HasDistinctKeys row
        → IsRectangle t
        → add_row is_representation row t ≡ ok t'
        → ((t' ≡ t) × (length row ≡ 0))
          ⊎ ((t' ≡ grown t (push_row row t.columns)) × All (λ e. has e.0 row ≡ true) t.columns)
    unfolding add_row add_entries
    add_row-eq row t t' d r h =
        let whole = if length row == 0 then ok t else add_entries is_representation row t in
        let (same, e) = assert-eq-ok (length row == length t.columns) whole h in
        elim (Bool-cases (length row == 0)) [
          | inl is_empty ↦ inl (sym (ok_injective (rw is_empty at e)), (==_iff _ _).0 is_empty)
          | inr some_entry ↦
              let (known, e') = assert-eq-ok _ _ (rw some_entry at e) in
              let (columns', pushed, e'') =
                >>=-eq-ok (push_entries is_representation row t.columns) _ e' in
              let final = push_entries-eq-push_row row t.columns columns' d r.distinct pushed in
              inr (
                sym (ok_injective e'') ∙ ap (grown t) final,
                has-all_of_length row t.columns d ((==_iff _ _).0 same) known,
              )
        ]

    -- Adding a row with distinct keys to a rectangular table keeps the rectangle whenever it does not
    -- throw.
    pub add_row-IsRectangle :
        (row : List (String × V)) (t t' : Table V T)
        → HasDistinctKeys row
        → IsRectangle t
        → add_row is_representation row t ≡ ok t'
        → IsRectangle t'
    add_row-IsRectangle row t t' d r h = elim (add_row-eq row t t' d r h) [
      | inl (same, _) ↦ subst IsRectangle (sym same) r
      | inr (grown, covered) ↦ subst IsRectangle (sym grown) (record {
        rows = HasRows-push_row t.number_of_rows row t.columns r.rows covered;
        distinct = HasDistinctKeys-push_row row t.columns r.distinct;
      })
    ]
