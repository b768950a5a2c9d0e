-- ===== src/FileSystem/Paths.antt =====
-- libs/execution/src/lib/types/io-types/filesystem-inmemory.ts: `processPath`, `getFile`, `putFile`.
-- A path is given by its segments, `path.split('/')`; a path that is split has at least one.
use text.Mathlib.Text.{◌==◌}
use text.Mathlib.TextEquality.{eq_iff}
use mathlib.Core.List.{append_assoc, append-nil}
use jayvee.Base.{
  ◌≡◌, refl, ap, sym, ◌∙◌, Bool, true, false, not, ◌||◌, Option, none, some, List, [], ◌∷◌, ◌++◌,
  if◌then◌else◌, String, All, All-append, ◌≢◌, Bool-cases, Option-cases, inl, inr, subst,
}
use jayvee.FileSystem.{FileSystemFile, FileSystemNode, file, directory, get_node, put_node}

abbrev pub and_then : {A B : Type 0} → Option A → (A → Option B) → Option B
and_then none f = none
and_then (some a) f = f a

-- `processedParts.pop()`, where there is a part to pop
unfoldable pub pop : List String → Option (List String)
pop [] = none
pop (p ∷ []) = some []
pop (p ∷ q ∷ ps) = elim (pop (q ∷ ps)) [ none ↦ none | some rest ↦ some (p ∷ rest) ]

-- The loop over the parts, with the `filter` of the empty ones.
unfoldable pub walk : List String → List String → Option (List String)
unfolding pop
walk processed [] = some processed
walk processed (p ∷ ps) =
    let skipped = walk processed ps in
    let popped = and_then (pop processed) (λ rest. walk rest ps) in
    let pushed = walk (processed ++ p ∷ []) ps in
    if p == "" then skipped else if p == "." then skipped else if p == ".." then popped else pushed

unfoldable pub process_path : List String → Option (List String)
unfolding walk pop
process_path [] = none
process_path (head ∷ tail) =
    if not (head == "" || head == ".")
    then none
    else elim (walk [] tail) [ none ↦ none | some parts ↦ some ("" ∷ parts) ]

module _ {C : Type 0} where
  -- `node instanceof FileSystemFile`
  abbrev pub as_file : FileSystemNode C → Option (FileSystemFile C)
  as_file (file f) = some f
  as_file (directory name cs) = none

  abbrev pub is_file : Option (FileSystemNode C) → Bool
  is_file none = false
  is_file (some (file f)) = true
  is_file (some (directory name cs)) = false

  -- `getFile` on the root directory
  unfoldable pub get_file : FileSystemNode C → List String → Option (FileSystemFile C)
  get_file root path =
      and_then (process_path path) (λ parts. and_then (get_node parts root) as_file)

  -- `putFile`: whether it returns the file system or null, and the root directory after the call
  unfoldable pub put_file :
      FileSystemNode C → List String → FileSystemFile C → Bool × FileSystemNode C
  put_file root path f = elim (process_path path) [
    | none ↦ (false, root)
    | some parts ↦ (is_file ((put_node parts (file f) root).0), (put_node parts (file f) root).1)
  ]

-- A segment that names a child.
abbrev pub IsPlain : String → Type 0
IsPlain s = (s ≢ "") × (s ≢ ".") × (s ≢ "..")

some_injective : {A : Type 0} {a b : A} → ◌≡◌ {A = Option A} (some a) (some b) → a ≡ b
some_injective h = cc

differs : (s t : String) → (s == t) ≡ false → s ≢ t
differs s t e = λ p. let same = (eq_iff s t).1 p in cc

-- A segment that the three tests of `processPath` let pass is plain.
tests-IsPlain :
    (p : String) → (p == "") ≡ false → (p == ".") ≡ false → (p == "..") ≡ false → IsPlain p
tests-IsPlain p e₁ e₂ e₃ = (differs p "" e₁, differs p "." e₂, differs p ".." e₃)

is_other : (s t : String) → s ≢ t → (s == t) ≡ false
is_other s t h = elim (Bool-cases (s == t)) [ inl e ↦ elim (h ((eq_iff s t).0 e)) [ ] | inr e ↦ e ]

All-pop : (P : String → Type 0) (ps rest : List String) → All P ps → pop ps ≡ some rest → All P rest
unfolding pop
All-pop P [] rest h e = let absurd : ◌≡◌ {A = Option (List String)} none (some rest) = e in cc
All-pop P (p ∷ []) rest h e = subst (All P) (some_injective e) tt
All-pop P (p ∷ q ∷ ps) rest h e = elim (Option-cases (pop (q ∷ ps))) [
  | inl missing ↦
      let absurd : ◌≡◌ {A = Option (List String)} none (some rest) = rw (pop, missing) at e in cc
  | inr (popped, found) ↦
      let e' : ◌≡◌ {A = Option (List String)} (some (p ∷ popped)) (some rest) =
        rw (pop, found) at e in
      subst (All P) (some_injective e') (h.0, All-pop P (q ∷ ps) popped (h.1) found)
]

walk-IsPlain :
    (ps processed result : List String)
    → All IsPlain processed
    → walk processed ps ≡ some result
    → All IsPlain result
unfolding walk
walk-IsPlain [] processed result h e = subst (All IsPlain) (some_injective e) h
walk-IsPlain (p ∷ ps) processed result h e = elim (Bool-cases (p == "")) [
  | inl e₁ ↦ walk-IsPlain ps processed result h (rw (walk, e₁) at e)
  | inr e₁ ↦ elim (Bool-cases (p == ".")) [
    | inl e₂ ↦ walk-IsPlain ps processed result h (rw (walk, e₁, e₂) at e)
    | inr e₂ ↦ elim (Bool-cases (p == "..")) [
      | inl e₃ ↦ elim (Option-cases (pop processed)) [
        | inl missing ↦
            let absurd : ◌≡◌ {A = Option (List String)} none (some result) =
              rw (walk, e₁, e₂, e₃, missing) at e in
            cc
        | inr (popped, found) ↦
            walk-IsPlain ps popped result (All-pop IsPlain processed popped h found)
              (rw (walk, e₁, e₂, e₃, found) at e)
      ]
      | inr e₃ ↦
          walk-IsPlain ps (processed ++ p ∷ []) result
            (All-append IsPlain processed (p ∷ []) h (tests-IsPlain p e₁ e₂ e₃, tt))
            (rw (walk, e₁, e₂, e₃) at e)
    ]
  ]
]

-- The parts that `processPath` accepts a path as begin with the root, and none of those after it is
-- empty, `.` or `..`.
pub process_path-IsPlain :
    (path result : List String)
    → process_path path ≡ some result
    → (parts : List String) × (result ≡ "" ∷ parts) × All IsPlain parts
unfolding process_path
process_path-IsPlain [] result e =
    let absurd : ◌≡◌ {A = Option (List String)} none (some result) = e in cc
process_path-IsPlain (head ∷ tail) result e = elim (Bool-cases (not (head == "" || head == "."))) [
  | inl relative ↦
      let absurd : ◌≡◌ {A = Option (List String)} none (some result) =
        rw (process_path, relative) at e in
      cc
  | inr absolute ↦ elim (Option-cases (walk [] tail)) [
    | inl above_root ↦
        let absurd : ◌≡◌ {A = Option (List String)} none (some result) =
          rw (process_path, absolute, above_root) at e in
        cc
    | inr (parts, found) ↦
        let e' : ◌≡◌ {A = Option (List String)} (some ("" ∷ parts)) (some result) =
          rw (process_path, absolute, found) at e in
        (parts, sym (some_injective e'), walk-IsPlain tail [] parts tt found)
  ]
]

walk-plain :
    (ps processed : List String) → All IsPlain ps → walk processed ps ≡ some (processed ++ ps)
unfolding walk
walk-plain [] processed h = ap some (sym (append-nil processed))
walk-plain (p ∷ ps) processed h =
    rw (is_other p "" (h.0.0), is_other p "." (h.0.1), is_other p ".." (h.0.2))
      (walk-plain ps (processed ++ p ∷ []) (h.1) ∙ ap some (append_assoc processed (p ∷ []) ps))

-- What `processPath` accepts a path as is processed to itself.
pub process_path_twice :
    (path result : List String)
    → process_path path ≡ some result
    → process_path result ≡ some result
unfolding process_path
process_path_twice path result e =
    let (parts, same, plain) = process_path-IsPlain path result e in
    rw same (rw (process_path, walk-plain parts [] plain) refl)
