-- ===== src/Base/Cover.antt =====
-- As many distinct keys as a `Map` has, all of them in the `Map`, are all its keys.
use Prim.Native.Nat.{◌+◌}
use Prim.Native.String.{String}
use mathlib.Core.Path.{◌≡◌, refl}
use mathlib.Core.Bool.{true, false, and-eq-true_iff}
use mathlib.Core.Logic.{inl, inr}
use mathlib.Core.List.{List, [], ◌∷◌}
use native.Mathlib.Omega.{arith}
use text.Mathlib.Text.{◌==◌ as str_eq}
use text.Mathlib.TextEquality.{eq_iff}
use jayvee.Base.Tests.{Bool-cases}
use jayvee.Base.Lists.{length, all, All, All-imp}
use jayvee.Base.Dict.{lookup, erase, has, keys, Lacks, HasDistinctKeys}

module _ {κ} {W : Type κ} where
  pub length-erase :
      (k : String) (m : List (String × W)) → has k m ≡ true → length (erase k m) + 1 ≡ length m
  unfolding lookup erase
  length-erase k [] h = cc
  length-erase k ((j, w) ∷ m) h = ground (arith, length-erase k m)

  pub has-erase :
      (k j : String) (m : List (String × W))
      → str_eq j k ≡ false
      → has j m ≡ true
      → has j (erase k m) ≡ true
  unfolding lookup erase
  has-erase k j [] e h = h
  has-erase k j ((i, w) ∷ m) e h =
      ground (arith, eq_iff i k, eq_iff i j, eq_iff j k, has-erase k j m e)

  has-cons :
      (k j : String) (w : W) (row : List (String × W))
      → has j row ≡ true
      → has j ((k, w) ∷ row) ≡ true
  unfolding lookup
  has-cons k j w row h = ground arith

  has_head : (k j : String) (w : W) (row : List (String × W)) → j ≡ k → has j ((k, w) ∷ row) ≡ true
  unfolding lookup
  has_head k j w row e = ground (arith, eq_iff k j)

module _ {ℓ κ} {V : Type ℓ} {W : Type κ} where
  all-has-erase :
      (k : String) (row : List (String × V)) (m : List (String × W))
      → Lacks k row
      → all (λ j. has j m) (keys row) ≡ true
      → all (λ j. has j (erase k m)) (keys row) ≡ true
  all-has-erase k [] m l h = refl
  all-has-erase k ((j, v) ∷ row) m (e, l) h =
      ground (arith, has-erase k j m e, all-has-erase k row m l)

  cover_step :
      (k : String) (v : V) (row : List (String × V)) (m : List (String × W))
      → All (λ e. has e.0 row ≡ true) (erase k m)
      → All (λ e. has e.0 ((k, v) ∷ row) ≡ true) m
  unfolding erase
  cover_step k v row [] h = tt
  cover_step k v row ((j, w) ∷ m) h = elim (Bool-cases (str_eq j k)) [
    | inl same ↦ (
      has_head k j v row ((eq_iff j k).0 same),
      All-imp _ _ m (λ e p. has-cons k e.0 v row p) (rw same at h),
    )
    | inr other ↦
        let h' : All (λ e. has e.0 row ≡ true) ((j, w) ∷ erase k m) = rw other at h in
        (has-cons k j v row h'.0, cover_step k v row m h'.1)
  ]

  pub has-all_of_length :
      (row : List (String × V)) (m : List (String × W))
      → HasDistinctKeys row
      → length row ≡ length m
      → all (λ j. has j m) (keys row) ≡ true
      → All (λ e. has e.0 row ≡ true) m
  has-all_of_length [] [] d e h = tt
  has-all_of_length [] (x ∷ m) d e h = absurd (omega arith)
  has-all_of_length ((k, v) ∷ row) m (l, d) e h =
      let (here, later) = (and-eq-true_iff _ _).0 h in
      let shorter = length-erase k m here in
      let ih = has-all_of_length row (erase k m) d (omega arith) (all-has-erase k row m l later) in
      cover_step k v row m ih
