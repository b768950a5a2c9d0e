-- ===== src/FileSystem/Lookup.antt =====
-- `putNode` and `getNode` of filesystem-node-directory.ts together, and `putFile` and `getFile` of
-- filesystem-inmemory.ts.
use text.Mathlib.Text.{◌==◌}
use text.Mathlib.TextEquality.{eq_iff}
use jayvee.Base.{
  ◌⊎◌, inl, inr, ◌≡◌, refl, ap, sym, ◌∙◌, Bool, true, false, not, ◌&&◌, Option, none, some, List,
  [], ◌∷◌, if◌then◌else◌, String, Bool-cases, Option-cases,
}
use jayvee.FileSystem.{
  FileSystemFile, FileSystemNode, file, directory, Children, none_left, child, get_node, get_child,
  put_node, put_child, add_child, has_file, has_directory, node_name,
}
use jayvee.FileSystem.Paths.{as_file, get_file, put_file, process_path, and_then, is_file}
use text.Mathlib.TextPositions.{eq_refl}

&&-right : (a b : Bool) → (a && b) ≡ true → b ≡ true
&&-right true b e = e
&&-right false b e = cc

module _ {C : Type 0} where
  get_child-none :
      (get : FileSystemNode C → Option (FileSystemNode C)) (c : FileSystemNode C) (cs : Children C)
      → get_child get (child c cs) ≡ none
      → (get c ≡ none) × (get_child get cs ≡ none)
  unfolding get_child
  get_child-none get c cs h = elim (Option-cases (get c)) [
    | inl e ↦ (e, rw (get_child, e) at h)
    | inr (n, e) ↦
        let absurd : ◌≡◌ {A = Option (FileSystemNode C)} (some n) none = rw (get_child, e) at h in
        cc
  ]

  get_child-add_child :
      (get : FileSystemNode C → Option (FileSystemNode C)) (cs : Children C) (d : FileSystemNode C)
      → get_child get cs ≡ none
      → get_child get (add_child cs d) ≡ get d
  unfolding add_child get_child
  get_child-add_child get none_left d h = elim (Option-cases (get d)) [
    | inl e ↦ rw e refl
    | inr (n, e) ↦ rw e refl
  ]
  get_child-add_child get (child c cs) d h =
      let (e, h') = get_child-none get c cs h in rw e (get_child-add_child get cs d h')

  get_child-put_child :
      (get : FileSystemNode C → Option (FileSystemNode C))
      (put : FileSystemNode C → Option (FileSystemNode C) × FileSystemNode C)
      → ((c : FileSystemNode C) → get c ≡ none → get ((put c).1) ≡ (put c).0)
      → (cs : Children C) → get_child get cs ≡ none
      → get_child get ((put_child put cs).1) ≡ (put_child put cs).0
  unfolding put_child get_child
  get_child-put_child get put law none_left h = h
  get_child-put_child get put law (child c cs) h =
      let (e, h') = get_child-none get c cs h in
      let after = law c e in
      elim (Option-cases ((put c).0)) [
        | inl failed ↦
            rw (put_child, failed, get_child, after ∙ failed)
              (get_child-put_child get put law cs h')
        | inr (n, found) ↦ rw (put_child, found, get_child, after ∙ found) refl
      ]

  get_node-inside :
      (first second name : String) (rest : List String) (cs : Children C)
      → (first == name) ≡ true
      → get_node (first ∷ second ∷ rest) (directory name cs)
        ≡ get_child (get_node (second ∷ rest)) cs
  unfolding get_node
  get_node-inside first second name rest cs e = rw e refl

  get_node-here :
      (first name : String) (cs : Children C)
      → (first == name) ≡ true
      → get_node (first ∷ []) (directory name cs) ≡ some (directory name cs)
  unfolding get_node
  get_node-here first name cs e = rw e refl

  get_node_self :
      (node : FileSystemNode C) (leaf : String)
      → (node_name node == leaf) ≡ true
      → get_node (leaf ∷ []) node ≡ some node
  unfolding get_node
  get_node_self (file f) leaf e = rw ((eq_iff leaf f.name).1 (sym ((eq_iff f.name leaf).0 e))) refl
  get_node_self (directory name cs) leaf e =
      rw ((eq_iff leaf name).1 (sym ((eq_iff name leaf).0 e))) refl

  get_node-empty :
      (name second : String) (rest : List String)
      → get_node {C = C} (name ∷ second ∷ rest) (directory name none_left) ≡ none
  unfolding get_node get_child
  get_node-empty name second rest = rw (eq_refl name) refl

  -- Where a path leads to no node before a call of `putNode` with it, the node that the call returns
  -- is the one the path leads to afterwards, and when the call returns null the path still leads to
  -- none, although directories may have been made.
  pub get_node-put_node :
      (parts : List String) (node here : FileSystemNode C)
      → get_node parts here ≡ none
      → get_node parts ((put_node parts node here).1) ≡ (put_node parts node here).0
  unfolding put_node
  get_node-put_node [] node here h = h
  get_node-put_node (first ∷ rest) node (file f) h = h
  get_node-put_node (first ∷ []) node (directory name cs) h = elim (Bool-cases (first == name)) [
    | inl e ↦
        let absurd : ◌≡◌ {A = Option (FileSystemNode C)} (some (directory name cs)) none =
          sym (get_node-here first name cs e) ∙ h in
        cc
    | inr e ↦ rw e h
  ]
  get_node-put_node (first ∷ leaf ∷ []) node (directory name cs) h =
      elim (Bool-cases (first == name)) [
        | inl e ↦
            let inside = sym (get_node-inside first leaf name [] cs e) ∙ h in
            elim (Bool-cases (not (has_file leaf cs) && (node_name node == leaf))) [
              | inl fits ↦
                  rw (e, fits)
                    (get_node-inside first leaf name [] (add_child cs node) e
                      ∙ get_child-add_child (get_node (leaf ∷ [])) cs node inside
                      ∙ get_node_self node leaf (&&-right _ _ fits))
              | inr refused ↦ rw (e, refused) h
            ]
        | inr e ↦ rw e h
      ]
  get_node-put_node (first ∷ next ∷ third ∷ rest) node (directory name cs) h =
      elim (Bool-cases (first == name)) [
        | inl e ↦
            let inside = sym (get_node-inside first next name (third ∷ rest) cs e) ∙ h in
            elim (Bool-cases (has_directory next cs)) [
              | inl present ↦
                  rw (e, present)
                    (get_node-inside first next name (third ∷ rest) _ e
                      ∙ get_child-put_child (get_node (next ∷ third ∷ rest))
                          (put_node (next ∷ third ∷ rest) node)
                          (get_node-put_node (next ∷ third ∷ rest) node) cs inside)
              | inr absent ↦
                  let made = (put_node (next ∷ third ∷ rest) node (directory next none_left)).1 in
                  rw (e, absent)
                    (get_node-inside first next name (third ∷ rest) (add_child cs made) e
                      ∙ get_child-add_child (get_node (next ∷ third ∷ rest)) cs made inside
                      ∙ get_node-put_node (next ∷ third ∷ rest) node (directory next none_left)
                          (get_node-empty next third rest))
            ]
        | inr e ↦ rw e h
      ]

  abbrev Returns : FileSystemNode C → Option (FileSystemNode C) → Type 0
  Returns node found = (found ≡ none) ⊎ (found ≡ some node)

  Returns-if :
      (node : FileSystemNode C) (b : Bool) (x y : Option (FileSystemNode C) × FileSystemNode C)
      → Returns node (x.0)
      → Returns node (y.0)
      → Returns node ((if b then x else y).0)
  Returns-if node true x y p q = p
  Returns-if node false x y p q = q

  put_child-Returns :
      (node : FileSystemNode C)
      (put : FileSystemNode C → Option (FileSystemNode C) × FileSystemNode C)
      → ((c : FileSystemNode C) → Returns node ((put c).0))
      → (cs : Children C) → Returns node ((put_child put cs).0)
  unfolding put_child
  put_child-Returns node put law none_left = inl refl
  put_child-Returns node put law (child c cs) = elim (law c) [
    | inl failed ↦ rw (put_child, failed) (put_child-Returns node put law cs)
    | inr found ↦ rw (put_child, found) (inr refl)
  ]

  put_node-Returns :
      (parts : List String) (node here : FileSystemNode C)
      → Returns node ((put_node parts node here).0)
  unfolding put_node
  put_node-Returns [] node here = inl refl
  put_node-Returns (first ∷ rest) node (file f) = inl refl
  put_node-Returns (first ∷ []) node (directory name cs) =
      Returns-if node (first == name) _ _
        (put_child-Returns node (put_node [] node) (put_node-Returns [] node) cs) (inl refl)
  put_node-Returns (first ∷ leaf ∷ []) node (directory name cs) =
      Returns-if node (first == name) _ _ (Returns-if node _ _ _ (inr refl) (inl refl)) (inl refl)
  put_node-Returns (first ∷ next ∷ third ∷ rest) node (directory name cs) =
      Returns-if node (first == name) _ _
        (Returns-if node (not (has_directory next cs)) _ _
          (put_node-Returns (next ∷ third ∷ rest) node (directory next none_left))
          (put_child-Returns node (put_node (next ∷ third ∷ rest) node)
            (put_node-Returns (next ∷ third ∷ rest) node) cs))
        (inl refl)

  get_file-eq :
      (root : FileSystemNode C) (path parts : List String)
      → process_path path ≡ some parts
      → get_file root path ≡ and_then (get_node parts root) as_file
  unfolding get_file
  get_file-eq root path parts e = rw e refl

  put_file-eq :
      (root : FileSystemNode C) (path parts : List String) (f : FileSystemFile C)
      → process_path path ≡ some parts
      → put_file root path f
        ≡ (is_file ((put_node parts (file f) root).0), (put_node parts (file f) root).1)
  unfolding put_file
  put_file-eq root path parts f e = rw (put_file, e) refl

  -- A path that `processPath` accepts, and that leads to no node: `putFile` with it tells whether it
  -- added the file, and `getFile` with the same path then gives that file if it did, null if not.
  pub get_file-put_file :
      (root : FileSystemNode C) (path parts : List String) (f : FileSystemFile C)
      → process_path path ≡ some parts
      → get_node parts root ≡ none
      → get_file ((put_file root path f).1) path
        ≡ (if (put_file root path f).0 then some f else none)
  get_file-put_file root path parts f e h =
      let after = get_node-put_node parts (file f) root h in
      rw (put_file-eq root path parts f e) (
        get_file-eq _ path parts e
        ∙ ap (λ n. and_then n as_file) after
        ∙ elim (put_node-Returns parts (file f) root) [
          | inl failed ↦ rw failed refl
          | inr found ↦ rw found refl
        ])
