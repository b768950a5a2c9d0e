-- ===== src/Standard/Lines.antt =====
-- The line deleter on line numbers that exist, against a single pass over the lines.
use mathlib.Core.List.{reverse_aux}
use jayvee.Base.{
  ℕ, suc, ◌<◌, ◌≡◌, refl, sym, ap, ◌∙◌, true, false, Bool-cases, inl, inr, List, [], ◌∷◌, map,
  reverse, arith, length, All, ok, erase_idx, String, ◌==◌, ==_iff, if◌then◌else◌,
}
use jayvee.Base.Removal.{includes_nat, erase_all, skip, skip_ext, erase_all-eq-skip}
use jayvee.Base.Sorting.{
  sort_asc, insert_asc, IsDistinct, sort_asc-IsAscending, reverse-IsDescending,
  includes_nat-sort_asc, includes_nat-reverse,
}
use jayvee.Int.{ℤ, pos, -ℤ-pos}
use jayvee.Sheet.{splice}
use jayvee.Standard.{
  TextFile, includes_ℤ, distinct_lines, insert_line, sort_lines, delete_lines, check_lines,
  execute_line_deleter,
}

-- The number of the line at position `k`
abbrev pub line : ℕ → ℤ
line k = pos (suc k)

-- The distinct positions of a list, behind those `seen`
unfoldable distinct_positions : List ℕ → List ℕ → List ℕ
distinct_positions seen [] = []
distinct_positions seen (k ∷ ks) =
    let later = distinct_positions seen ks in
    let new_later = distinct_positions (k ∷ seen) ks in
    if includes_nat seen k then later else k ∷ new_later

includes_ℤ-lines : (ks : List ℕ) (k : ℕ) → includes_ℤ (map line ks) (line k) ≡ includes_nat ks k
includes_ℤ-lines [] k = refl
includes_ℤ-lines (m ∷ ks) k = ground (arith, includes_ℤ-lines ks k)

distinct_lines-eq :
    (seen ks : List ℕ)
    → distinct_lines (map line seen) (map line ks) ≡ map line (distinct_positions seen ks)
unfolding distinct_lines distinct_positions
distinct_lines-eq seen [] = refl
distinct_lines-eq seen (k ∷ ks) = elim (Bool-cases (includes_nat seen k)) [
  | inl old ↦ rw (includes_ℤ-lines seen k, old) (distinct_lines-eq seen ks)
  | inr new ↦
      rw (includes_ℤ-lines seen k, new) (ap (◌∷◌ (line k)) (distinct_lines-eq (k ∷ seen) ks))
]

includes_nat-distinct_positions :
    (seen ks : List ℕ) (n : ℕ)
    → includes_nat seen n ≡ false
    → includes_nat (distinct_positions seen ks) n ≡ includes_nat ks n
unfolding distinct_positions
includes_nat-distinct_positions seen [] n new = refl
includes_nat-distinct_positions seen (k ∷ ks) n new = elim (Bool-cases (includes_nat seen k)) [
  | inl old ↦ elim (Bool-cases (k == n)) [
    | inl same ↦
        let clash : true ≡ false = sym old ∙ ap (includes_nat seen) ((==_iff k n).0 same) ∙ new in
        cc
    | inr other ↦ rw (old, other) (includes_nat-distinct_positions seen ks n new)
  ]
  | inr first ↦ elim (Bool-cases (k == n)) [
    | inl same ↦ rw (first, same) refl
    | inr other ↦ rw (first, other) (includes_nat-distinct_positions (k ∷ seen) ks n (rw other new))
  ]
]

seen_before :
    (seen ks : List ℕ) (n : ℕ)
    → includes_nat seen n ≡ true
    → includes_nat (distinct_positions seen ks) n ≡ false
unfolding distinct_positions
seen_before seen [] n old = refl
seen_before seen (k ∷ ks) n old = elim (Bool-cases (includes_nat seen k)) [
  | inl before ↦ rw before (seen_before seen ks n old)
  | inr first ↦ elim (Bool-cases (k == n)) [
    | inl same ↦
        let clash : true ≡ false =
          sym old ∙ ap (includes_nat seen) (sym ((==_iff k n).0 same)) ∙ first in
        cc
    | inr other ↦ rw (first, other) (seen_before (k ∷ seen) ks n (rw other old))
  ]
]

distinct_positions-IsDistinct : (seen ks : List ℕ) → IsDistinct (distinct_positions seen ks)
unfolding distinct_positions
distinct_positions-IsDistinct seen [] = tt
distinct_positions-IsDistinct seen (k ∷ ks) = elim (Bool-cases (includes_nat seen k)) [
  | inl old ↦ rw old (distinct_positions-IsDistinct seen ks)
  | inr new ↦
      rw new
        (seen_before (k ∷ seen) ks k (ground arith), distinct_positions-IsDistinct (k ∷ seen) ks)
]

insert_line-eq :
    (a : ℕ) (bs : List ℕ) → insert_line (line a) (map line bs) ≡ map line (insert_asc a bs)
unfolding insert_line insert_asc
insert_line-eq a [] = refl
insert_line-eq a (b ∷ bs) = ground (arith, insert_line-eq a bs)

sort_lines-eq : (ks : List ℕ) → sort_lines (map line ks) ≡ map line (sort_asc ks)
unfolding sort_lines sort_asc
sort_lines-eq [] = refl
sort_lines-eq (k ∷ ks) =
    ap (insert_line (line k)) (sort_lines-eq ks) ∙ insert_line-eq k (sort_asc ks)

delete_lines-eq :
    (ds : List ℕ) (content : List String)
    → delete_lines (map line ds) content ≡ erase_all content ds
unfolding delete_lines erase_all splice
delete_lines-eq [] content = refl
delete_lines-eq (d ∷ ds) content =
    ap (λ start. delete_lines (map line ds) (splice content start))
      (-ℤ-pos (suc d) 1 (omega arith) ∙ ap pos (omega arith))
    ∙ delete_lines-eq ds (erase_idx content d)

check_lines-ok : (n : ℕ) (ks : List ℕ) → All (λ k. k < n) ks → check_lines n (map line ks) ≡ ok tt
unfolding check_lines
check_lines-ok n [] h = refl
check_lines-ok n (k ∷ ks) (p, h) = ground (arith, check_lines-ok n ks h)

reverse_aux-lines :
    (ks others : List ℕ)
    → reverse_aux (map line ks) (map line others) ≡ map line (reverse_aux ks others)
reverse_aux-lines [] others = refl
reverse_aux-lines (k ∷ ks) others = reverse_aux-lines ks (k ∷ others)

reverse-lines : (ks : List ℕ) → reverse (map line ks) ≡ map line (reverse ks)
reverse-lines ks = reverse_aux-lines ks []

-- On the numbers of existing lines, in any order and with repetitions, the line deleter gives the
-- file without those lines, as one pass over the lines leaves it.
pub execute_line_deleter-eq :
    (ks : List ℕ) (file : TextFile)
    → All (λ k. k < length file.content) ks
    → execute_line_deleter (map line ks) file
      ≡ ok (record file { content = skip ks 0 file.content })
unfolding execute_line_deleter
execute_line_deleter-eq ks file h =
    let positions = distinct_positions [] ks in
    let order = reverse (sort_asc positions) in
    let sorted : reverse (sort_lines (distinct_lines [] (map line ks))) ≡ map line order =
      ap (λ ls. reverse (sort_lines ls)) (distinct_lines-eq [] ks)
      ∙ ap reverse (sort_lines-eq positions)
      ∙ reverse-lines (sort_asc positions) in
    let descending =
      reverse-IsDescending (sort_asc positions)
        (sort_asc-IsAscending positions (distinct_positions-IsDistinct [] ks)) in
    let same_members = skip_ext order ks 0 file.content (λ k.
      includes_nat-reverse (sort_asc positions) k
      ∙ includes_nat-sort_asc positions k
      ∙ includes_nat-distinct_positions [] ks k refl) in
    rw (check_lines-ok (length file.content) ks h) (
      ap (λ content. ok (record file { content = content }))
        (ap (λ ds. delete_lines ds file.content) sorted
          ∙ delete_lines-eq order file.content
          ∙ erase_all-eq-skip file.content order descending
          ∙ same_members))
