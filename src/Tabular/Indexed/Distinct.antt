-- ===== src/Tabular/Indexed/Distinct.antt =====
-- Columns or rows with distinct natural indexes: sorting sorts the indexes, nothing is removed.
use jayvee.Base.{
  ℕ, ◌≡◌, refl, sym, ap, ◌∙◌, false, List, [], ◌∷◌, map, reverse, arith, leb, Bool-cases, inl, inr,
  ◌==◌,
}
use mathlib.Core.List.{reverse-cons, map-append}
use jayvee.Base.Sorting.{insert_asc, sort_asc, IsAscending, sort_asc-IsAscending, IsDistinct}
use jayvee.Int.{pos, leb_ℤ-pos}
use jayvee.Cells.Range.{CellRange}
use jayvee.Tabular.Indexed.{
  Indexed, insert_by_index, sort_by_index, remove_duplicates, remove_duplicates_from,
}
use jayvee.Tabular.Indexed.Duplicates.{drop_first_repeat, remove_duplicates-eq}

module _ (range_of : ℕ → CellRange) where
  abbrev pub indexed : ℕ → Indexed
  indexed n = (pos n, range_of n)

  insert_by_index-indexed :
      (n : ℕ) (ns : List ℕ)
      → insert_by_index (indexed n) (map indexed ns) ≡ map indexed (insert_asc n ns)
  unfolding insert_by_index insert_asc
  insert_by_index-indexed n [] = refl
  insert_by_index-indexed n (m ∷ ns) = elim (Bool-cases (leb n m)) [
    | inl less ↦ rw (leb_ℤ-pos n m ∙ less, less) refl
    | inr more ↦
        rw (leb_ℤ-pos n m ∙ more, more) (ap (◌∷◌ (indexed m)) (insert_by_index-indexed n ns))
  ]

  sort_by_index-indexed : (ns : List ℕ) → sort_by_index (map indexed ns) ≡ map indexed (sort_asc ns)
  unfolding sort_by_index sort_asc
  sort_by_index-indexed [] = refl
  sort_by_index-indexed (n ∷ ns) =
      ap (insert_by_index (indexed n)) (sort_by_index-indexed ns)
      ∙ insert_by_index-indexed n (sort_asc ns)

  drop_first_repeat-indexed :
      (n : ℕ) (ns : List ℕ)
      → IsAscending (n ∷ ns)
      → drop_first_repeat (indexed n) (map indexed ns) ≡ map indexed ns
  unfolding drop_first_repeat
  drop_first_repeat-indexed n [] h = refl
  drop_first_repeat-indexed n (m ∷ ns) ((less, _), h) =
      let differ : (n == m) ≡ false = ground arith in
      rw differ (ap (◌∷◌ (indexed m)) (drop_first_repeat-indexed m ns h))

  remove_duplicates-indexed :
      (ns : List ℕ) → IsAscending ns → remove_duplicates (map indexed ns) ≡ map indexed ns
  unfolding remove_duplicates remove_duplicates_from
  remove_duplicates-indexed [] h = refl
  remove_duplicates-indexed (n ∷ ns) h =
      remove_duplicates-eq (indexed n) (map indexed ns)
      ∙ ap (◌∷◌ (indexed n)) (drop_first_repeat-indexed n ns h)

  reverse-indexed : (ns : List ℕ) → reverse (map indexed ns) ≡ map indexed (reverse ns)
  reverse-indexed [] = refl
  reverse-indexed (n ∷ ns) =
      rw (reverse-cons (indexed n) (map indexed ns), reverse-cons n ns, reverse-indexed ns)
        (sym (map-append indexed (reverse ns) (n ∷ [])))

  -- The order in which distinct columns or rows are deleted.
  pub deletion_order :
      (ns : List ℕ)
      → IsDistinct ns
      → reverse (remove_duplicates (sort_by_index (map indexed ns)))
        ≡ map indexed (reverse (sort_asc ns))
  deletion_order ns d =
      ap (λ cs. reverse (remove_duplicates cs)) (sort_by_index-indexed ns)
      ∙ ap reverse (remove_duplicates-indexed (sort_asc ns) (sort_asc-IsAscending ns d))
      ∙ reverse-indexed (sort_asc ns)
