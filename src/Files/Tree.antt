-- ===== src/Files/Tree.antt =====
-- The tree of providers/in_memory_provider.py: `_FileNode`, `_resolve`, `_ensure_parents` and
-- `_deep_copy`. A file's size is the number of its bytes, which every writer of a node stores; the
-- permissions are a function of the type.
pub mod Laws
use cli_server_python.Prelude.{
  ℕ, String, Bool, true, false, not, Option, none, some, List, [], ◌∷◌, str_eq, is_some,
  if◌then◌else◌,
}
use cli_server_python.Prelude.Action.{Result, ok, err}

pub data FileError : Type 0 where
  not_found not_a_directory is_a_directory exists key_error name_error : FileError

pub record Times : Type 0 where
  pub created_at : ℕ
  pub modified_at : ℕ

-- A node without its name, which is its key; the root has none.
mutual
  pub data Node : Type 0 where
    file : Times → List ℕ → Node
    directory : Times → Entries → Node

  pub data Entries : Type 0 where
    nothing : Entries
    entry : String → Node → Entries → Entries

-- `children.get(name)`
unfoldable pub lookup : String → Entries → Option Node
lookup name nothing = none
lookup name (entry k node rest) = if str_eq k name then some node else lookup name rest

-- `children[name] = node`
unfoldable pub insert : String → Node → Entries → Entries
insert name node nothing = entry name node nothing
insert name node (entry k old rest) =
    let later = insert name node rest in
    if str_eq k name then entry k node rest else entry k old later

-- `del children[name]`
unfoldable pub delete : String → Entries → Entries
delete name nothing = nothing
delete name (entry k node rest) =
    let later = delete name rest in if str_eq k name then later else entry k node later

-- `node.children` of a node; a file has none.
unfoldable pub children : Node → Entries
children (file times bytes) = nothing
children (directory times es) = es

unfoldable pub is_directory : Node → Bool
is_directory (file times bytes) = false
is_directory (directory times es) = true

unfoldable pub has_children : Node → Bool
has_children (file times bytes) = false
has_children (directory times nothing) = false
has_children (directory times (entry k node rest)) = true

-- `_resolve`: the node below a node.
unfoldable pub resolve : List String → Node → Option Node
resolve [] node = some node
resolve (part ∷ parts) (file times bytes) = none
resolve (part ∷ parts) (directory times es) = elim (lookup part es) [
  | none ↦ none
  | some child ↦ resolve parts child
]

abbrev pub made : ℕ → Times
made now = record { created_at = now; modified_at = now }

-- `_ensure_parents(parts, path, create)`, and then a change of the children of the directory that it
-- returns; what was created before an error stays.
unfoldable pub with_parent :
    {A : Type 0}
    → Bool
    → ℕ
    → List String
    → (Entries → Result FileError A × Entries)
    → Entries
    → Result FileError A × Entries
with_parent create now [] change es = change es
with_parent create now (part ∷ parts) change es = elim (lookup part es) [
  | none ↦
      let (result, below) = with_parent create now parts change nothing in
      if create then (result, insert part (directory (made now) below) es) else (err not_found, es)
  | some child ↦ elim child [
    | file times bytes ↦ (err not_a_directory, es)
    | directory times sub ↦
        let (result, below) = with_parent create now parts change sub in
        (result, insert part (directory times below) es)
  ]
]

mutual
  -- `_deep_copy`
  pub deep_copy : ℕ → Node → Node
  deep_copy now (file times bytes) = file (made now) bytes
  deep_copy now (directory times es) = directory (made now) (copy_entries now es)

  pub copy_entries : ℕ → Entries → Entries
  copy_entries now nothing = nothing
  copy_entries now (entry k node rest) = entry k (deep_copy now node) (copy_entries now rest)
