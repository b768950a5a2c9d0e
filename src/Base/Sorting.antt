-- ===== src/Base/Sorting.antt =====
-- `Array.prototype.sort` with a numeric comparison, as insertion into a sorted array.
use Prim.Native.Nat.{ℕ, suc, ◌<◌}
use mathlib.Core.Path.{◌≡◌, refl, ap, ◌∙◌}
use mathlib.Core.Bool.{false, ◌||◌}
use mathlib.Core.List.{List, [], ◌∷◌, ◌++◌, reverse, reverse-cons}
use native.Mathlib.Omega.{arith}
use mathlib.Core.Logic.{inl, inr}
use jayvee.Base.Tests.{ltb, leb, ◌==◌, if◌then◌else◌, Bool-cases}
use jayvee.Base.Lists.{length, length-append, All, All-imp, All-append, All-reverse}
use jayvee.Base.Removal.{includes_nat, IsDescending}

-- `sort((a, b) => b - a)`
unfoldable pub insert_desc : ℕ → List ℕ → List ℕ
insert_desc a [] = a ∷ []
insert_desc a (b ∷ bs) = if ltb a b then b ∷ insert_desc a bs else a ∷ b ∷ bs

unfoldable pub sort_desc : List ℕ → List ℕ
unfolding insert_desc
sort_desc [] = []
sort_desc (a ∷ others) = insert_desc a (sort_desc others)

-- Every number of the list stands in it once.
abbrev pub IsDistinct : List ℕ → Type 0
IsDistinct [] = Unit
IsDistinct (n ∷ ns) = (includes_nat ns n ≡ false) × IsDistinct ns

pub includes_nat-insert_desc :
    (a : ℕ) (bs : List ℕ) (n : ℕ)
    → includes_nat (insert_desc a bs) n ≡ (a == n || includes_nat bs n)
unfolding insert_desc
includes_nat-insert_desc a [] n = refl
includes_nat-insert_desc a (b ∷ bs) n = ground (arith, includes_nat-insert_desc a bs n)

-- Sorting keeps the members.
pub includes_nat-sort_desc :
    (ns : List ℕ) (n : ℕ) → includes_nat (sort_desc ns) n ≡ includes_nat ns n
unfolding sort_desc
includes_nat-sort_desc [] n = refl
includes_nat-sort_desc (a ∷ ns) n =
    includes_nat-insert_desc a (sort_desc ns) n
    ∙ ap (λ b. a == n || b) (includes_nat-sort_desc ns n)

All-insert_desc : (P : ℕ → Type 0) (a : ℕ) (bs : List ℕ) → P a → All P bs → All P (insert_desc a bs)
unfolding insert_desc
All-insert_desc P a [] p h = (p, tt)
All-insert_desc P a (b ∷ bs) p (q, h) = elim (Bool-cases (ltb a b)) [
  | inl less ↦ rw less (q, All-insert_desc P a bs p h)
  | inr more ↦ rw more (p, (q, h))
]

pub All-sort_desc : (P : ℕ → Type 0) (ns : List ℕ) → All P ns → All P (sort_desc ns)
unfolding sort_desc
All-sort_desc P [] h = tt
All-sort_desc P (a ∷ ns) (p, h) = All-insert_desc P a (sort_desc ns) p (All-sort_desc P ns h)

insert_desc-IsDescending :
    (a : ℕ) (bs : List ℕ)
    → includes_nat bs a ≡ false
    → IsDescending bs
    → IsDescending (insert_desc a bs)
unfolding insert_desc
insert_desc-IsDescending a [] n h = (tt, tt)
insert_desc-IsDescending a (b ∷ bs) n (below, h) = ground (
  arith,
  All-insert_desc (λ e. e < b) a bs,
  insert_desc-IsDescending a bs,
  All-imp (λ e. e < b) (λ e. e < a) bs,
)

-- Distinct numbers are sorted into a strictly descending array.
pub sort_desc-IsDescending : (ns : List ℕ) → IsDistinct ns → IsDescending (sort_desc ns)
unfolding sort_desc
sort_desc-IsDescending [] d = tt
sort_desc-IsDescending (a ∷ ns) (n, d) =
    insert_desc-IsDescending a (sort_desc ns) (includes_nat-sort_desc ns a ∙ n)
      (sort_desc-IsDescending ns d)

length-insert_desc : (a : ℕ) (bs : List ℕ) → length (insert_desc a bs) ≡ suc (length bs)
unfolding insert_desc
length-insert_desc a [] = refl
length-insert_desc a (b ∷ bs) = ground (arith, length-insert_desc a bs)

pub length-sort_desc : (ns : List ℕ) → length (sort_desc ns) ≡ length ns
unfolding sort_desc
length-sort_desc [] = refl
length-sort_desc (a ∷ ns) = length-insert_desc a (sort_desc ns) ∙ ap suc (length-sort_desc ns)

-- `sort((a, b) => a - b)`
unfoldable pub insert_asc : ℕ → List ℕ → List ℕ
insert_asc a [] = a ∷ []
insert_asc a (b ∷ bs) = if leb a b then a ∷ b ∷ bs else b ∷ insert_asc a bs

unfoldable pub sort_asc : List ℕ → List ℕ
unfolding insert_asc
sort_asc [] = []
sort_asc (a ∷ others) = insert_asc a (sort_asc others)

abbrev pub IsAscending : List ℕ → Type 0
IsAscending [] = Unit
IsAscending (a ∷ bs) = All (λ b. a < b) bs × IsAscending bs

includes_nat-insert_asc :
    (a : ℕ) (bs : List ℕ) (n : ℕ) → includes_nat (insert_asc a bs) n ≡ (a == n || includes_nat bs n)
unfolding insert_asc
includes_nat-insert_asc a [] n = refl
includes_nat-insert_asc a (b ∷ bs) n = ground (arith, includes_nat-insert_asc a bs n)

pub includes_nat-sort_asc : (ns : List ℕ) (n : ℕ) → includes_nat (sort_asc ns) n ≡ includes_nat ns n
unfolding sort_asc
includes_nat-sort_asc [] n = refl
includes_nat-sort_asc (a ∷ ns) n =
    includes_nat-insert_asc a (sort_asc ns) n ∙ ap (λ b. a == n || b) (includes_nat-sort_asc ns n)

All-insert_asc : (P : ℕ → Type 0) (a : ℕ) (bs : List ℕ) → P a → All P bs → All P (insert_asc a bs)
unfolding insert_asc
All-insert_asc P a [] p h = (p, tt)
All-insert_asc P a (b ∷ bs) p (q, h) = elim (Bool-cases (leb a b)) [
  | inl less ↦ rw less (p, (q, h))
  | inr more ↦ rw more (q, All-insert_asc P a bs p h)
]

pub All-sort_asc : (P : ℕ → Type 0) (ns : List ℕ) → All P ns → All P (sort_asc ns)
unfolding sort_asc
All-sort_asc P [] h = tt
All-sort_asc P (a ∷ ns) (p, h) = All-insert_asc P a (sort_asc ns) p (All-sort_asc P ns h)

insert_asc-IsAscending :
    (a : ℕ) (bs : List ℕ)
    → includes_nat bs a ≡ false
    → IsAscending bs
    → IsAscending (insert_asc a bs)
unfolding insert_asc
insert_asc-IsAscending a [] n h = (tt, tt)
insert_asc-IsAscending a (b ∷ bs) n (above, h) = ground (
  arith,
  All-insert_asc (λ e. b < e) a bs,
  insert_asc-IsAscending a bs,
  All-imp (λ e. b < e) (λ e. a < e) bs,
)

-- Distinct numbers are sorted into a strictly ascending array.
pub sort_asc-IsAscending : (ns : List ℕ) → IsDistinct ns → IsAscending (sort_asc ns)
unfolding sort_asc
sort_asc-IsAscending [] d = tt
sort_asc-IsAscending (a ∷ ns) (n, d) =
    insert_asc-IsAscending a (sort_asc ns) (includes_nat-sort_asc ns a ∙ n)
      (sort_asc-IsAscending ns d)

length-insert_asc : (a : ℕ) (bs : List ℕ) → length (insert_asc a bs) ≡ suc (length bs)
unfolding insert_asc
length-insert_asc a [] = refl
length-insert_asc a (b ∷ bs) = ground (arith, length-insert_asc a bs)

pub length-sort_asc : (ns : List ℕ) → length (sort_asc ns) ≡ length ns
unfolding sort_asc
length-sort_asc [] = refl
length-sort_asc (a ∷ ns) = length-insert_asc a (sort_asc ns) ∙ ap suc (length-sort_asc ns)

IsDescending-concat :
    (ds : List ℕ) (a : ℕ) → IsDescending ds → All (λ d. a < d) ds → IsDescending (ds ++ a ∷ [])
IsDescending-concat [] a h b = (tt, tt)
IsDescending-concat (d ∷ ds) a (below, h) (b, bs) =
    (All-append (λ e. e < d) ds (a ∷ []) below (b, tt), IsDescending-concat ds a h bs)

-- An ascending array is descending when it is reversed.
pub reverse-IsDescending : (ns : List ℕ) → IsAscending ns → IsDescending (reverse ns)
reverse-IsDescending [] h = tt
reverse-IsDescending (n ∷ ns) (above, h) =
    rw (reverse-cons n ns)
      (IsDescending-concat (reverse ns) n (reverse-IsDescending ns h) (All-reverse _ ns above))

includes_nat-append :
    (ms ns : List ℕ) (k : ℕ) → includes_nat (ms ++ ns) k ≡ (includes_nat ms k || includes_nat ns k)
includes_nat-append [] ns k = refl
includes_nat-append (m ∷ ms) ns k = ground (arith, includes_nat-append ms ns k)

pub includes_nat-reverse : (ns : List ℕ) (k : ℕ) → includes_nat (reverse ns) k ≡ includes_nat ns k
includes_nat-reverse [] k = refl
includes_nat-reverse (n ∷ ns) k =
    rw (reverse-cons n ns)
      (includes_nat-append (reverse ns) (n ∷ []) k ∙ ground (arith, includes_nat-reverse ns k))

pub length-reverse : (ns : List ℕ) → length (reverse ns) ≡ length ns
length-reverse [] = refl
length-reverse (n ∷ ns) =
    rw (reverse-cons n ns) (omega (arith, length-append (reverse ns) (n ∷ []), length-reverse ns))
