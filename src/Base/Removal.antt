-- ===== src/Base/Removal.antt =====
-- Removing several positions of an array by calls of `splice(i, 1)`, last position first, against
-- the array that is left when those positions are skipped in one pass.
use Prim.Native.Nat.{ℕ, zero, suc, ◌+◌, ◌<◌}
use mathlib.Core.Path.{◌≡◌, refl, sym, ap}
use mathlib.Core.Bool.{Bool, false, ◌||◌}
use mathlib.Core.List.{List, [], ◌∷◌}
use native.Mathlib.Omega.{arith}
use jayvee.Base.Tests.{◌==◌, if◌then◌else◌}
use jayvee.Base.Lists.{length, erase_idx, length-erase_idx, All, All-imp}

-- `ns.includes(n)` on numbers
abbrev pub includes_nat : List ℕ → ℕ → Bool
includes_nat [] n = false
includes_nat (m ∷ ns) n = m == n || includes_nat ns n

abbrev pub IsDescending : List ℕ → Type 0
IsDescending [] = Unit
IsDescending (d ∷ ds) = All (λ e. e < d) ds × IsDescending ds

pub includes_nat_above : (ns : List ℕ) (i : ℕ) → All (λ e. e < i) ns → includes_nat ns i ≡ false
includes_nat_above [] i h = refl
includes_nat_above (m ∷ ns) i (h, hs) = ground (arith, includes_nat_above ns i hs)

module _ {ℓ} {A : Type ℓ} where
  -- `for (const d of ds) xs.splice(d, 1)`
  unfoldable pub erase_all : List A → List ℕ → List A
  erase_all xs [] = xs
  erase_all xs (d ∷ ds) = erase_all (erase_idx xs d) ds

  -- The elements of `xs`, the first of which has position `i`, whose positions are not in `ns`.
  unfoldable pub skip : List ℕ → ℕ → List A → List A
  skip ns i [] = []
  skip ns i (x ∷ xs) = let rest = skip ns (suc i) xs in if includes_nat ns i then rest else x ∷ rest

  skip_below : (ns : List ℕ) (i : ℕ) (xs : List A) → All (λ e. e < i) ns → skip ns i xs ≡ xs
  unfolding skip
  skip_below ns i [] h = refl
  skip_below ns i (x ∷ xs) h =
      rw (includes_nat_above ns i h)
        (ap (◌∷◌ x) (skip_below ns (suc i) xs (All-imp _ _ ns (λ e p. omega arith) h)))

  skip-cons :
      (ds : List ℕ) (i k d : ℕ) (xs : List A)
      → d ≡ i + k
      → All (λ e. e < d) ds
      → skip (d ∷ ds) i xs ≡ skip ds i (erase_idx xs k)
  unfolding skip erase_idx
  skip-cons ds i k d [] e h = refl
  skip-cons ds i zero d (x ∷ xs) e h =
      let here : d ≡ i = omega arith in
      let all_below =
        skip_below (d ∷ ds) (suc i) xs (omega arith, All-imp _ _ ds (λ n p. omega arith) h) in
      let rest = skip_below ds i xs (All-imp _ _ ds (λ n p. omega arith) h) in
      ground (arith, here, all_below, rest)
  skip-cons ds i (suc k) d (x ∷ xs) e h =
      let ih = skip-cons ds (suc i) k d xs (omega arith) h in ground (arith, ih)

  -- Splicing strictly descending positions out of an array leaves what skipping them leaves.
  pub erase_all-eq-skip :
      (xs : List A) (ds : List ℕ) → IsDescending ds → erase_all xs ds ≡ skip ds 0 xs
  unfolding erase_all
  erase_all-eq-skip xs [] h = sym (skip_below [] 0 xs tt)
  erase_all-eq-skip xs (d ∷ ds) (h, hs) =
      rw (skip-cons ds 0 d d xs (omega arith) h) (erase_all-eq-skip (erase_idx xs d) ds hs)

  pub length-erase_all :
      (xs : List A) (ds : List ℕ)
      → IsDescending ds
      → All (λ e. e < length xs) ds
      → length (erase_all xs ds) + length ds ≡ length xs
  unfolding erase_all
  length-erase_all xs [] h b = omega arith
  length-erase_all xs (d ∷ ds) (h, hs) (b, bs) =
      let shorter = length-erase_idx xs d b in
      let rest =
        All-imp (λ e. e < d) (λ e. e < length (erase_idx xs d)) ds (λ e p. omega arith) h in
      let ih = length-erase_all (erase_idx xs d) ds hs rest in omega arith

  pub skip_ext :
      (ms ns : List ℕ) (i : ℕ) (vs : List A)
      → ((n : ℕ) → includes_nat ms n ≡ includes_nat ns n)
      → skip ms i vs ≡ skip ns i vs
  unfolding skip
  skip_ext ms ns i [] e = refl
  skip_ext ms ns i (v ∷ vs) e = rw (e i, skip_ext ms ns (suc i) vs e) refl
