-- ===== src/FileSystem.antt =====
-- libs/execution/src/lib/types/io-types: the file system in memory, filesystem-inmemory.ts,
-- filesystem-node-directory.ts and filesystem-node-file.ts. A directory holds its children as an
-- array, files and directories together. `putNode` changes the tree: here it returns the new
-- children with its result.
pub mod Paths
pub mod Lookup
use text.Mathlib.Text.{◌==◌}
use jayvee.Base.{
  ℕ, Bool, true, false, not, ◌&&◌, ◌||◌, Option, none, some, List, [], ◌∷◌, ◌++◌, if◌then◌else◌,
  String,
}

-- A file: its name, and `C` for its extension, MIME type and content.
pub record FileSystemFile (C : Type 0) : Type 0 where
  pub name : String
  pub content : C

mutual
  pub data FileSystemNode (C : Type 0) : Type 0 where
    file : FileSystemFile C → FileSystemNode C
    directory : String → Children C → FileSystemNode C

  pub data Children (C : Type 0) : Type 0 where
    none_left : Children C
    child : FileSystemNode C → Children C → Children C

module _ {C : Type 0} where
  abbrev pub node_name : FileSystemNode C → String
  node_name (file f) = f.name
  node_name (directory name children) = name

  -- `this.children.push(node)`
  unfoldable pub add_child : Children C → FileSystemNode C → Children C
  add_child none_left node = child node none_left
  add_child (child c cs) node = child c (add_child cs node)

  -- `nodeHasAlreadyChildDirectoryWithSameName` and `nodeHasAlreadyChildFileWithSameName`, of `rest[0]`
  unfoldable pub has_directory : String → Children C → Bool
  has_directory name none_left = false
  has_directory name (child (file f) cs) = has_directory name cs
  has_directory name (child (directory n ds) cs) = n == name || has_directory name cs

  unfoldable pub has_file : String → Children C → Bool
  has_file name none_left = false
  has_file name (child (file f) cs) = f.name == name || has_file name cs
  has_file name (child (directory n ds) cs) = has_file name cs

  -- `for (const child of this.children)`: the first node that a child returns for `get`
  unfoldable pub get_child :
      (FileSystemNode C → Option (FileSystemNode C)) → Children C → Option (FileSystemNode C)
  get_child get none_left = none
  get_child get (child c cs) =
      let later = get_child get cs in elim (get c) [ some node ↦ some node | none ↦ later ]

  -- `getNode`
  unfoldable pub get_node : List String → FileSystemNode C → Option (FileSystemNode C)
  unfolding get_child
  get_node [] here = none
  get_node (first ∷ []) (file f) = if first == f.name then some (file f) else none
  get_node (first ∷ second ∷ rest) (file f) = none
  get_node (first ∷ []) (directory name cs) =
      if first == name then some (directory name cs) else none
  get_node (first ∷ second ∷ rest) (directory name cs) =
      let found = get_child (get_node (second ∷ rest)) cs in if first == name then found else none

  -- `for (const child of this.children)`: the first node that a child returns for `put`
  unfoldable pub put_child :
      (FileSystemNode C → Option (FileSystemNode C) × FileSystemNode C)
      → Children C
      → Option (FileSystemNode C) × Children C
  put_child put none_left = (none, none_left)
  put_child put (child c cs) =
      let later = put_child put cs in
      elim ((put c).0) [
        | some n ↦ (some n, child ((put c).1) cs)
        | none ↦ (later.0, child ((put c).1) (later.1))
      ]

  -- `putNode`: the node it returns, and the tree after the call. The recursion of a new directory is
  -- a call on that directory, with no children yet.
  unfoldable pub put_node :
      List String
      → FileSystemNode C
      → FileSystemNode C
      → Option (FileSystemNode C) × FileSystemNode C
  unfolding put_child add_child has_file has_directory
  put_node [] node here = (none, here)
  put_node (first ∷ rest) node (file f) = (none, file f)
  put_node (first ∷ []) node (directory name cs) =
      let looped = put_child (put_node [] node) cs in
      if first == name then (looped.0, directory name (looped.1)) else (none, directory name cs)
  put_node (first ∷ leaf ∷ []) node (directory name cs) =
      if first == name
      then (if not (has_file leaf cs) && (node_name node == leaf)
          then (some node, directory name (add_child cs node))
          else (none, directory name cs))
      else (none, directory name cs)
  put_node (first ∷ next ∷ third ∷ rest) node (directory name cs) =
      let made = put_node (next ∷ third ∷ rest) node (directory next none_left) in
      let looped = put_child (put_node (next ∷ third ∷ rest) node) cs in
      if first == name
      then (if not (has_directory next cs)
          then (made.0, directory name (add_child cs (made.1)))
          else (looped.0, directory name (looped.1)))
      else (none, directory name cs)
