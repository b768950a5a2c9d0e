-- ===== src/Validation/Names.antt =====
-- Distinct names: what checkUniqueNames says of them.
use text.Mathlib.Text.{◌==◌ as str_eq}
use text.Mathlib.TextEquality.{eq_iff}
use jayvee.Base.{
  ℕ, zero, suc, ◌≤◌, ◌≡◌, refl, sym, ap, ◌∙◌, Bool, true, false, ◌||◌, Option, none, some, List, [],
  ◌∷◌, String, arith, Bool-cases, Option-cases, inl, inr, ltb, ◌⊎◌,
}
use jayvee.Base.Dict.{lookup, insert, lookup-insert, has, has-insert}
use jayvee.Validation.{repeated, check_groups, group_nodes_by_name, check_unique_names}

abbrev pub includes_name : List String → String → Bool
includes_name [] k = false
includes_name (j ∷ js) k = str_eq j k || includes_name js k

-- Every name is new, behind the names `seen`.
abbrev pub AreNew : List String → List String → Type 0
AreNew seen [] = Unit
AreNew seen (n ∷ ns) = (includes_name seen n ≡ false) × AreNew (n ∷ seen) ns

some_injective : {A : Type 0} (x y : A) → ◌≡◌ {A = Option A} (some x) (some y) → x ≡ y
some_injective x y e = cc

-- A name that at least two nodes have is reported.
abbrev IsRepeated : String → List (String × ℕ) → Type 0
IsRepeated k groups = (n : ℕ) × (lookup k groups ≡ some n) × (2 ≤ n)

not_reported :
    (k : String) (groups : List (String × ℕ)) → IsRepeated k groups → check_groups groups ≡ [] → ⊥
unfolding lookup check_groups repeated
not_reported k [] (n, e, l) c = cc
not_reported k ((j, zero) ∷ groups) (n, e, l) c = elim (Bool-cases (str_eq j k)) [
  | inl same ↦ omega (arith, some_injective zero n (rw same at e), l)
  | inr other ↦ not_reported k groups (n, rw other at e, l) c
]
not_reported k ((j, suc zero) ∷ groups) (n, e, l) c = elim (Bool-cases (str_eq j k)) [
  | inl same ↦ omega (arith, some_injective 1 n (rw same at e), l)
  | inr other ↦ not_reported k groups (n, rw other at e, l) c
]
not_reported k ((j, suc (suc m)) ∷ groups) (n, e, l) c =
    let many : ltb 1 (suc (suc m)) ≡ true = ground arith in
    let given = rw (check_groups, many) at c in cc

IsRepeated-insert :
    (k j : String) (n : ℕ) (groups : List (String × ℕ))
    → 2 ≤ n ⊎ (str_eq j k ≡ false)
    → IsRepeated k groups
    → IsRepeated k (insert j n groups)
IsRepeated-insert k j n groups h (m, e, l) = elim (Bool-cases (str_eq j k)) [
  | inl same ↦ (n, lookup-insert j k n groups ∙ rw same refl, ground (arith, h, same))
  | inr other ↦ (m, lookup-insert j k n groups ∙ rw other e, l)
]

abbrev IsPositive : List (String × ℕ) → Type 0
IsPositive groups = (k : String) (n : ℕ) → lookup k groups ≡ some n → 1 ≤ n

IsPositive-insert :
    (j : String) (n : ℕ) (groups : List (String × ℕ))
    → 1 ≤ n
    → IsPositive groups
    → IsPositive (insert j n groups)
IsPositive-insert j n groups l p k m e = elim (Bool-cases (str_eq j k)) [
  | inl same ↦
      omega (arith, l, some_injective n m (rw same at (sym (lookup-insert j k n groups) ∙ e)))
  | inr other ↦ p k m (rw other at (sym (lookup-insert j k n groups) ∙ e))
]

new_differs :
    (k j : String) (groups : List (String × ℕ))
    → lookup j groups ≡ none
    → IsRepeated k groups
    → str_eq j k ≡ false
new_differs k j groups new (n, e, l) = elim (Bool-cases (str_eq j k)) [
  | inl same ↦
      let absurd : none ≡ some n = sym new ∙ ap (λ i. lookup i groups) ((eq_iff j k).0 same) ∙ e in
      cc
  | inr other ↦ other
]

group_nodes_by_name-IsRepeated :
    (k : String) (names : List String) (groups : List (String × ℕ))
    → IsPositive groups
    → IsRepeated k groups
    → IsRepeated k (group_nodes_by_name names groups)
unfolding group_nodes_by_name
group_nodes_by_name-IsRepeated k [] groups p r = r
group_nodes_by_name-IsRepeated k (j ∷ names) groups p r = elim (Option-cases (lookup j groups)) [
  | inl new ↦
      rw (group_nodes_by_name, new)
        (group_nodes_by_name-IsRepeated k names (insert j 1 groups)
          (IsPositive-insert j 1 groups (omega arith) p)
          (IsRepeated-insert k j 1 groups (inr (new_differs k j groups new r)) r))
  | inr (n, old) ↦
      let l = p j n old in
      rw (group_nodes_by_name, old)
        (group_nodes_by_name-IsRepeated k names (insert j (suc n) groups)
          (IsPositive-insert j (suc n) groups (omega arith) p)
          (IsRepeated-insert k j (suc n) groups (inl (omega (arith, l))) r))
]

-- Where nothing is reported, every name is new.
check_groups-AreNew :
    (names seen : List String) (groups : List (String × ℕ))
    → IsPositive groups
    → ((k : String) → has k groups ≡ includes_name seen k)
    → check_groups (group_nodes_by_name names groups) ≡ []
    → AreNew seen names
unfolding group_nodes_by_name
check_groups-AreNew [] seen groups p h c = tt
check_groups-AreNew (j ∷ names) seen groups p h c = elim (Option-cases (lookup j groups)) [
  | inl new ↦ (
    sym (h j) ∙ rw (has, new) refl,
    check_groups-AreNew names (j ∷ seen) (insert j 1 groups)
        (IsPositive-insert j 1 groups (omega arith) p)
        (λ k. has-insert j k 1 groups ∙ ap (λ b. str_eq j k || b) (h k))
        (rw (group_nodes_by_name, new) at c),
  )
  | inr (n, old) ↦
      let l = p j n old in
      let absurd : ⊥ =
        not_reported j (group_nodes_by_name names (insert j (suc n) groups))
          (group_nodes_by_name-IsRepeated j names (insert j (suc n) groups)
            (IsPositive-insert j (suc n) groups (omega arith) p)
            (
              suc n,
              lookup-insert j j (suc n) groups ∙ rw ((eq_iff j j).1 refl) refl,
              omega (arith, l),
            ))
          (rw (group_nodes_by_name, old) at c) in
      elim absurd [ ]
]

pub check_unique_names-AreNew :
    (names : List String) → check_unique_names names ≡ [] → AreNew [] names
unfolding check_unique_names lookup
check_unique_names-AreNew names c =
    check_groups-AreNew names [] [] (λ k n e. let absurd : none ≡ some n = e in cc) (λ k. refl) c
