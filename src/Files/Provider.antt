-- ===== src/Files/Provider.antt =====
-- The operations of InMemoryFileStorageProvider (providers/in_memory_provider.py). A path is split
-- into the parts of its normal form; the state is what the root directory holds, and `root` gives the
-- times of the root, which no operation writes. `encode` and `decode` are Python's UTF-8.
pub mod Laws
use cli_server_python.Prelude.{
  ℕ, String, Bool, true, false, not, ◌&&◌, Option, none, some, List, [], ◌∷◌, length, is_some,
  if◌then◌else◌,
}
use cli_server_python.Prelude.Action.{Result, ok, err, Action}
use cli_server_python.Files.Path.{normalize_parts}
use cli_server_python.Files.Tree.{
  FileError, not_found, not_a_directory, is_a_directory, exists, key_error, name_error, Times, Node,
  Entries, file, directory, nothing, entry, lookup, insert, delete, children, is_directory,
  has_children, resolve, with_parent, made, deep_copy,
}

-- `parts[:-1]` and `parts[-1]`; `none` for the root.
unfoldable pub parent_and_name : List String → Option (List String × String)
parent_and_name [] = none
parent_and_name (part ∷ []) = some ([], part)
parent_and_name (part ∷ next ∷ parts) = elim (parent_and_name (next ∷ parts)) [
  | none ↦ none
  | some (parents, name) ↦ some (part ∷ parents, name)
]

-- Without the name, which is the last part of the path, and the permissions, which the type gives.
pub record FileStat : Type 0 where
  pub is_dir : Bool
  pub size : ℕ
  pub times : Times

unfoldable pub stat_of : Node → FileStat
stat_of (file t bytes) = record { is_dir = false; size = length bytes; times = t }
stat_of (directory t es) = record { is_dir = true; size = 0; times = t }

-- The entries of a listing, before `sorted` puts them in the order of their names.
unfoldable pub listing : Entries → List (String × FileStat)
unfolding stat_of
listing nothing = []
listing (entry name node rest) = (name, stat_of node) ∷ listing rest

-- What `write_file` does in the parent.
unfoldable pub write_child : ℕ → String → List ℕ → Entries → Result FileError (Unit {0}) × Entries
write_child now name raw es = elim (lookup name es) [
  | none ↦ (ok tt, insert name (file (made now) raw) es)
  | some child ↦ elim child [
    | directory t sub ↦ (err is_a_directory, es)
    | file t bytes ↦ (ok tt, insert name (file (record t { modified_at = now }) raw) es)
  ]
]

-- What `mkdir` does in the parent, and in the directory itself where `recursive` is set.
unfoldable pub make_child : ℕ → String → Entries → Result FileError (Unit {0}) × Entries
make_child now name es = elim (lookup name es) [
  | none ↦ (ok tt, insert name (directory (made now) nothing) es)
  | some child ↦ if is_directory child then (ok tt, es) else (err exists, es)
]

unfoldable pub keep_children : Entries → Result FileError (Unit {0}) × Entries
keep_children es = (ok tt, es)

unfoldable pub put_child : String → Node → Entries → Result FileError (Unit {0}) × Entries
put_child name node es = (ok tt, insert name node es)

-- What `remove` does in the parent.
unfoldable pub remove_child : Bool → String → Entries → Result FileError (Unit {0}) × Entries
remove_child recursive name es = elim (lookup name es) [
  | none ↦ (err not_found, es)
  | some child ↦
      if is_directory child && has_children child && not recursive
      then (err not_a_directory, es)
      else (ok tt, delete name es)
]

-- `del src_parent.children[src_parts[-1]]`
unfoldable pub drop_child : String → Entries → Result FileError (Unit {0}) × Entries
drop_child name es =
    if is_some (lookup name es) then (ok tt, delete name es) else (err key_error, es)

module _ (root : Times) where
  unfoldable pub find_node : String → Entries → Option Node
  find_node path es = resolve (normalize_parts path) (directory root es)

  unfoldable pub list_directory : String → Action Entries FileError (List (String × FileStat))
  list_directory path es = elim (find_node path es) [
    | none ↦ (err not_found, es)
    | some node ↦
        if is_directory node then (ok (listing (children node)), es) else (err not_a_directory, es)
  ]

  -- `get_download_stream`, and `read_file` before it decodes the bytes.
  unfoldable pub read_bytes : String → Action Entries FileError (List ℕ)
  read_bytes path es = elim (find_node path es) [
    | none ↦ (err not_found, es)
    | some node ↦ elim node [
      | directory times sub ↦ (err is_a_directory, es)
      | file times bytes ↦ (ok bytes, es)
    ]
  ]

  unfoldable pub stat : String → Action Entries FileError FileStat
  stat path es = elim (find_node path es) [
    | none ↦ (err not_found, es)
    | some node ↦ (ok (stat_of node), es)
  ]

  unfoldable pub path_exists : String → Entries → Bool
  path_exists path es = is_some (find_node path es)

  -- `upload_file`, and `write_file` once the text is encoded.
  unfoldable pub write_bytes : ℕ → String → List ℕ → Action Entries FileError (Unit {0})
  write_bytes now path raw es = elim (parent_and_name (normalize_parts path)) [
    | none ↦ (err is_a_directory, es)
    | some (parents, name) ↦ with_parent true now parents (write_child now name raw) es
  ]

  unfoldable pub mkdir : ℕ → String → Bool → Action Entries FileError (Unit {0})
  mkdir now path recursive es = elim (parent_and_name (normalize_parts path)) [
    | none ↦ (ok tt, es)
    | some (parents, name) ↦
        if recursive
        then with_parent true now (normalize_parts path) keep_children es
        else with_parent false now parents (make_child now name) es
  ]

  -- The parent is resolved without creating anything; a file has no children.
  unfoldable pub remove : String → Bool → Action Entries FileError (Unit {0})
  remove path recursive es = elim (parent_and_name (normalize_parts path)) [
    | none ↦ (err name_error, es)
    | some (parents, name) ↦ elim (resolve parents (directory root es)) [
      | none ↦ (err not_found, es)
      | some parent ↦
          if is_directory parent
          then with_parent false 0 parents (remove_child recursive name) es
          else (err not_found, es)
    ]
  ]

  -- The copy is made once the parents of the destination exist, which may lie below the source.
  unfoldable pub copy_node :
      ℕ → List String → List String → String → Action Entries FileError (Unit {0})
  copy_node now source parents name es =
      let (result, ensured) = with_parent true now parents keep_children es in
      elim result [
        | err e ↦ (err e, ensured)
        | ok u ↦ elim (resolve source (directory root ensured)) [
          | none ↦ (err not_found, ensured)
          | some node ↦ with_parent true now parents (put_child name (deep_copy now node)) ensured
        ]
      ]

  unfoldable pub copy : ℕ → String → String → Action Entries FileError (Unit {0})
  copy now src dest es = elim (find_node src es) [
    | none ↦ (err not_found, es)
    | some node ↦ elim (parent_and_name (normalize_parts dest)) [
      | none ↦ (err is_a_directory, es)
      | some (parents, name) ↦ copy_node now (normalize_parts src) parents name es
    ]
  ]

  -- The end of `move`: the source's parent is resolved anew, and may be gone or a file by now.
  unfoldable pub drop_source : List String → String → Action Entries FileError (Unit {0})
  drop_source parents name es = elim (resolve parents (directory root es)) [
    | none ↦ (ok tt, es)
    | some parent ↦
        if is_directory parent
        then with_parent false 0 parents (drop_child name) es
        else (err key_error, es)
  ]

  unfoldable pub move : ℕ → String → String → Action Entries FileError (Unit {0})
  move now src dest es = elim (parent_and_name (normalize_parts src)) [
    | none ↦ (err name_error, es)
    | some (src_parents, src_name) ↦ elim (find_node src es) [
      | none ↦ (err not_found, es)
      | some node ↦ elim (parent_and_name (normalize_parts dest)) [
        | none ↦ (err is_a_directory, es)
        | some (parents, name) ↦
            let (result, copied) = copy_node now (normalize_parts src) parents name es in
            elim result [ err e ↦ (err e, copied) | ok u ↦ drop_source src_parents src_name copied ]
      ]
    ]
  ]

  module _ (encode : String → List ℕ) (decode : List ℕ → String) where
    unfoldable pub write_file : ℕ → String → String → Action Entries FileError (Unit {0})
    write_file now path content es = write_bytes now path (encode content) es

    abbrev decoded : Result FileError (List ℕ) → Result FileError String
    decoded (ok bytes) = ok (decode bytes)
    decoded (err e) = err e

    unfoldable pub read_file : String → Action Entries FileError String
    read_file path es = let (result, same) = read_bytes path es in (decoded result, same)
