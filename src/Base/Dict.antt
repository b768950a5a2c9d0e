-- ===== src/Base/Dict.antt =====
-- A JavaScript `Map` with text keys: its entries in the order of their first insertion.
-- `set` on a key that is there replaces the value and keeps its place.
use Prim.Native.String.{String}
use mathlib.Core.Path.{◌≡◌, refl}
use mathlib.Core.Bool.{Bool, true, false, ◌||◌}
use mathlib.Core.Option.{Option, none, some}
use mathlib.Core.List.{List, [], ◌∷◌, ◌++◌, map}
use native.Mathlib.Omega.{arith}
use text.Mathlib.Text.{◌==◌ as str_eq}
use text.Mathlib.TextEquality.{eq_iff}
use jayvee.Base.Tests.{if◌then◌else◌}
use jayvee.Base.Lists.{All}

module _ {ℓ} {V : Type ℓ} where
  unfoldable pub lookup : String → List (String × V) → Option V
  lookup k [] = none
  lookup k ((j, v) ∷ m) = if str_eq j k then some v else lookup k m

  unfoldable pub insert : String → V → List (String × V) → List (String × V)
  insert k v [] = (k, v) ∷ []
  insert k v ((j, w) ∷ m) = if str_eq j k then (j, v) ∷ m else (j, w) ∷ insert k v m

  unfoldable pub erase : String → List (String × V) → List (String × V)
  erase k [] = []
  erase k ((j, w) ∷ m) = if str_eq j k then m else (j, w) ∷ erase k m

  abbrev pub has : String → List (String × V) → Bool
  has k m = elim (lookup k m) [ none ↦ false | some v ↦ true ]

  abbrev pub keys : List (String × V) → List String
  keys m = map (λ (k, v). k) m

  -- No entry of `m` has the key `k`.
  abbrev pub Lacks : String → List (String × V) → Type 0
  Lacks k m = All (λ e. str_eq e.0 k ≡ false) m

  -- Every key stands once, as in every `Map` and every object.
  abbrev pub HasDistinctKeys : List (String × V) → Type 0
  HasDistinctKeys [] = Unit
  HasDistinctKeys ((k, v) ∷ m) = Lacks k m × HasDistinctKeys m

  pub lookup-insert :
      (key asked : String) (new : V) (entries : List (String × V))
      → lookup asked (insert key new entries)
        ≡ (if str_eq key asked then some new else lookup asked entries)
  unfolding lookup insert
  lookup-insert key asked new [] = refl
  lookup-insert key asked new ((first, old) ∷ entries) = ground (
    arith,
    eq_iff first key,
    eq_iff first asked,
    eq_iff key asked,
    lookup-insert key asked new entries,
  )

  pub has-insert :
      (j k : String) (v : V) (m : List (String × V))
      → has k (insert j v m) ≡ (str_eq j k || has k m)
  has-insert j k v m = ground (arith, lookup-insert j k v m)

  Lacks-insert :
      (k j : String) (v : V) (m : List (String × V))
      → Lacks j m
      → str_eq k j ≡ false
      → Lacks j (insert k v m)
  unfolding insert
  Lacks-insert k j v [] h e = (e, tt)
  Lacks-insert k j v ((i, w) ∷ m) (h, hs) e = ground (arith, Lacks-insert k j v m hs e)

  pub HasDistinctKeys-insert :
      (k : String) (v : V) (m : List (String × V))
      → HasDistinctKeys m
      → HasDistinctKeys (insert k v m)
  unfolding insert
  HasDistinctKeys-insert k v [] h = (tt, tt)
  HasDistinctKeys-insert k v ((i, w) ∷ m) (h, hs) =
      ground
        (arith, eq_iff i k, eq_iff k i, Lacks-insert k i v m h, HasDistinctKeys-insert k v m hs)

  pub lookup-eq-none_of_Lacks : (k : String) (m : List (String × V)) → Lacks k m → lookup k m ≡ none
  unfolding lookup
  lookup-eq-none_of_Lacks k [] l = refl
  lookup-eq-none_of_Lacks k (e ∷ m) (p, l) = rw p (lookup-eq-none_of_Lacks k m l)

  pub insert-eq-append :
      (k : String) (v : V) (m : List (String × V)) → Lacks k m → insert k v m ≡ m ++ (k, v) ∷ []
  unfolding insert
  insert-eq-append k v [] l = refl
  insert-eq-append k v (e ∷ m) (p, l) = rw (p, insert-eq-append k v m l) refl

  Lacks-cons_append :
      (k j : String) (v : V) (before after : List (String × V))
      → Lacks j (before ++ (k, v) ∷ after)
      → str_eq j k ≡ false
  Lacks-cons_append k j v [] after (p, l) = ground (arith, eq_iff k j, eq_iff j k)
  Lacks-cons_append k j v (e ∷ before) after (p, l) = Lacks-cons_append k j v before after l

  -- A key in the middle of distinct ones does not stand before.
  pub Lacks-of_distinct :
      (k : String) (v : V) (before after : List (String × V))
      → HasDistinctKeys (before ++ (k, v) ∷ after)
      → Lacks k before
  Lacks-of_distinct k v [] after d = tt
  Lacks-of_distinct k v ((j, w) ∷ before) after (l, d) =
      (Lacks-cons_append k j v before after l, Lacks-of_distinct k v before after d)

  pub erase-insert :
      (k : String) (v : V) (m : List (String × V)) → erase k (insert k v m) ≡ erase k m
  unfolding erase insert
  erase-insert k v [] = ground (arith, eq_iff k k)
  erase-insert k v ((j, w) ∷ m) = ground (arith, eq_iff j k, erase-insert k v m)

  pub erase-erase :
      (j k : String) (m : List (String × V)) → erase j (erase k m) ≡ erase k (erase j m)
  unfolding erase
  erase-erase j k [] = refl
  erase-erase j k ((i, w) ∷ m) = ground (arith, eq_iff i k, eq_iff i j, erase-erase j k m)

  pub erase_absent : (k : String) (m : List (String × V)) → has k m ≡ false → erase k m ≡ m
  unfolding erase lookup
  erase_absent k [] h = refl
  erase_absent k ((j, w) ∷ m) h = ground (arith, erase_absent k m)
