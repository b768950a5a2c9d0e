-- ===== src/Table/Rows.antt =====
-- Which rows `dropRows`, `getRow` and `clone` of table.ts leave and give.
use jayvee.Base.{
  ℕ, ◌+◌, ◌-◌, ◌<◌, ◌≡◌, refl, sym, ap, ap₂, ◌∙◌, All-imp, fun_ext, List, [], ◌∷◌, arith, lt→ltb,
  length, All, ok, throws, ◌++◌, ◌≤◌, ==_iff, get_elem?-some, get_elem?, map, String, Option, some,
}
use mathlib.Core.List.{append-nil, append_assoc}
use jayvee.Base.Dict.{HasDistinctKeys, Lacks, insert-eq-append, Lacks-of_distinct}
use jayvee.Base.Removal.{
  erase_all, skip, skip_ext, erase_all-eq-skip, IsDescending, length-erase_all,
}
use jayvee.Base.Sorting.{
  sort_desc, sort_desc-IsDescending, All-sort_desc, length-sort_desc, includes_nat-sort_desc,
  IsDistinct,
}
use jayvee.Table.{
  TableColumn, Table, on_values, drop_row, drop_each, drop_rows, row_entries, get_row,
  clone_columns, clone, add_column,
}
use jayvee.Table.Shape.{HasRows, IsRectangle}

length-skip :
    {V : Type 0} (ids : List ℕ) (vs : List V)
    → IsDistinct ids
    → All (λ d. d < length vs) ids
    → length (skip ids 0 vs) + length ids ≡ length vs
length-skip ids vs d b =
    let counted =
      length-erase_all vs (sort_desc ids) (sort_desc-IsDescending ids d) (All-sort_desc _ ids b) in
    let same : erase_all vs (sort_desc ids) ≡ skip ids 0 vs =
      erase_all-eq-skip vs (sort_desc ids) (sort_desc-IsDescending ids d)
      ∙ skip_ext _ _ 0 vs (includes_nat-sort_desc ids) in
    omega (arith, counted, ap length same, length-sort_desc ids)

-- The entries of a row, and the elements of the columns at an index, each with its name
abbrev pub row_cells : {V : Type 0} → List (String × V) → List (String × Option V)
row_cells row = map (λ e. (e.0, some e.1)) row

abbrev pub column_cells :
    {V T : Type 0} → ℕ → List (String × TableColumn V T) → List (String × Option V)
column_cells i columns = map (λ c. (c.0, get_elem? c.1.values i)) columns

module _ {V T : Type 0} where
  -- `t` without the rows whose ids are in `ds`, each column taken in one pass.
  abbrev pub without_rows : List ℕ → Table V T → Table V T
  without_rows ds t = record {
    number_of_rows = t.number_of_rows - length ds;
    columns = on_values (skip ds 0) t.columns;
  }

  on_values_id :
      (f : List V → List V) (columns : List (String × TableColumn V T))
      → ((vs : List V) → f vs ≡ vs)
      → on_values f columns ≡ columns
  on_values_id f [] e = refl
  on_values_id f ((name, c) ∷ columns) e =
      ap₂ (◌∷◌) (ap (λ vs. (name, record c { values = vs })) (e c.values))
        (on_values_id f columns e)

  on_values_comp :
      (f g : List V → List V) (columns : List (String × TableColumn V T))
      → on_values g (on_values f columns) ≡ on_values (λ vs. g (f vs)) columns
  on_values_comp f g [] = refl
  on_values_comp f g ((name, c) ∷ columns) =
      ap (◌∷◌ (name, record c { values = g (f c.values) })) (on_values_comp f g columns)

  abbrev erased : List ℕ → Table V T → Table V T
  erased ds t = record {
    number_of_rows = t.number_of_rows - length ds;
    columns = on_values (λ vs. erase_all vs ds) t.columns;
  }

  table_path :
      (n m : ℕ) (cs ds : List (String × TableColumn V T))
      → n ≡ m
      → cs ≡ ds
      → ◌≡◌ {A = Table V T}
          (record { number_of_rows = n; columns = cs })
          (record { number_of_rows = m; columns = ds })
  table_path n m cs ds p q = λ i. record { number_of_rows = p i; columns = q i }

  drop_each_lem :
      (ds : List ℕ) (t : Table V T)
      → IsDescending ds
      → All (λ d. d < t.number_of_rows) ds
      → drop_each ds t ≡ ok (erased ds t)
  unfolding drop_each drop_row erase_all
  drop_each_lem [] t h b =
      ap ok (table_path _ _ _ _ (omega arith) (sym (on_values_id _ t.columns (λ vs. refl))))
  drop_each_lem (d ∷ ds) t (h, hs) (b, bs) = rw (lt→ltb _ _ b) (
      drop_each_lem ds _ hs
        (All-imp (λ e. e < d) (λ e. e < t.number_of_rows - 1) ds (λ e p. omega arith) h)
      ∙ ap ok (table_path _ _ _ _ (omega arith) (on_values_comp _ _ t.columns)))

  -- `dropRows` on distinct row ids of the table, in any order, leaves in each column exactly the
  -- values whose positions are not among the ids.
  pub drop_rows-eq-without_rows :
      (ids : List ℕ) (t : Table V T)
      → IsDistinct ids
      → All (λ d. d < t.number_of_rows) ids
      → drop_rows ids t ≡ ok (without_rows ids t)
  unfolding drop_rows
  drop_rows-eq-without_rows ids t d b =
      drop_each_lem (sort_desc ids) t (sort_desc-IsDescending ids d) (All-sort_desc _ ids b)
      ∙ ap ok
          (table_path _ _ _ _ (ap (λ k. t.number_of_rows - k) (length-sort_desc ids)) same_columns)
    where
      same_values : (vs : List V) → erase_all vs (sort_desc ids) ≡ skip ids 0 vs
      same_values vs =
          erase_all-eq-skip vs (sort_desc ids) (sort_desc-IsDescending ids d)
          ∙ skip_ext _ _ 0 vs (includes_nat-sort_desc ids)

      same_columns :
          on_values (λ vs. erase_all vs (sort_desc ids)) t.columns
          ≡ on_values (skip ids 0) t.columns
      same_columns = ap (λ f. on_values f t.columns) (fun_ext same_values)

  row_entries_total :
      (i n : ℕ) (columns : List (String × TableColumn V T))
      → i < n
      → HasRows n columns
      → (row : List (String × V)) × (row_entries i columns ≡ ok row)
        × (row_cells row ≡ column_cells i columns)
  unfolding row_entries
  row_entries_total i n [] b h = ([], refl, refl)
  row_entries_total i n ((name, c) ∷ columns) b (p, h) =
      let (v, found) = get_elem?-some c.values i (omega arith) in
      let (row, e, same) = row_entries_total i n columns b h in
      ((name, v) ∷ row, rw (found, e), ap₂ (λ cell cells. (name, cell) ∷ cells) (sym found) same)

  -- `getRow` gives every row of a rectangular table, which has for each column, in their order, the
  -- value that stands in it at the row id, and throws on any row id past the end.
  pub get_row_total :
      (i : ℕ) (t : Table V T)
      → IsRectangle t
      → (i < t.number_of_rows
          → (row : List (String × V)) × (get_row i t ≡ ok row)
            × (row_cells row ≡ column_cells i t.columns))
        × (t.number_of_rows ≤ i → get_row i t ≡ throws)
  unfolding get_row
  get_row_total i t r = (
    λ b. rw (lt→ltb _ _ b) (row_entries_total i t.number_of_rows t.columns b r.rows),
    λ b. ground arith,
  )

  clone_columns_lem :
      (columns before : List (String × TableColumn V T)) (n : ℕ)
      → HasRows n columns
      → HasDistinctKeys (before ++ columns)
      → clone_columns columns (record { number_of_rows = n; columns = before })
        ≡ ok (record { number_of_rows = n; columns = before ++ columns })
  unfolding clone_columns add_column
  clone_columns_lem [] before n h d = ap ok (table_path _ _ _ _ refl (sym (append-nil before)))
  clone_columns_lem ((name, c) ∷ columns) before n (p, h) d =
      let e = insert-eq-append name c before (Lacks-of_distinct name c before columns d) in
      rw ((==_iff _ _).1 p, e)
        (clone_columns_lem columns (before ++ (name, c) ∷ []) n h (rw append_assoc d)
          ∙ ap ok (table_path _ _ _ _ refl (append_assoc before ((name, c) ∷ []) columns)))

  -- `clone` of a rectangular table never throws, and gives an equal table.
  pub clone-eq : (t : Table V T) → IsRectangle t → clone t ≡ ok t
  unfolding clone
  clone-eq t r = clone_columns_lem t.columns [] t.number_of_rows r.rows r.distinct

  HasRows-on_values :
      (f : List V → List V) (n m : ℕ) (columns : List (String × TableColumn V T))
      → ((vs : List V) → length vs ≡ n → length (f vs) ≡ m)
      → HasRows n columns
      → HasRows m (on_values f columns)
  HasRows-on_values f n m [] law h = tt
  HasRows-on_values f n m ((name, c) ∷ columns) law (p, h) =
      (law c.values p, HasRows-on_values f n m columns law h)

  Lacks-on_values :
      (f : List V → List V) (k : String) (columns : List (String × TableColumn V T))
      → Lacks k columns
      → Lacks k (on_values f columns)
  Lacks-on_values f k [] l = tt
  Lacks-on_values f k (c ∷ columns) (p, l) = (p, Lacks-on_values f k columns l)

  HasDistinctKeys-on_values :
      (f : List V → List V) (columns : List (String × TableColumn V T))
      → HasDistinctKeys columns
      → HasDistinctKeys (on_values f columns)
  HasDistinctKeys-on_values f [] d = tt
  HasDistinctKeys-on_values f ((k, c) ∷ columns) (l, d) =
      (Lacks-on_values f k columns l, HasDistinctKeys-on_values f columns d)

  -- A rectangular table without some of its rows is rectangular.
  pub without_rows-IsRectangle :
      (ids : List ℕ) (t : Table V T)
      → IsDistinct ids
      → All (λ d. d < t.number_of_rows) ids
      → IsRectangle t
      → IsRectangle (without_rows ids t)
  without_rows-IsRectangle ids t d b r = record {
    rows =
        HasRows-on_values (skip ids 0) t.number_of_rows _ t.columns
          (λ vs e. omega (
            arith,
            length-skip ids vs d (
                All-imp (λ x. x < t.number_of_rows) (λ x. x < length vs) ids
                  (λ x l. omega (arith, e)) b),
          ))
          r.rows;
    distinct = HasDistinctKeys-on_values (skip ids 0) t.columns r.distinct;
  }
