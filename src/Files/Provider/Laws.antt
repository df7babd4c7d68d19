-- ===== src/Files/Provider/Laws.antt =====
-- What writing a file leaves in the tree.
use cli_server_python.Prelude.{
  ℕ, String, ◌≡◌, ◌⊎◌, refl, ap, ◌∙◌, Bool, true, false, ◌&&◌, Option, none, some, List, [], ◌∷◌,
  ◌++◌, length, arith, eq_iff, inl, inr, Option-cases, if◌then◌else◌,
}
use cli_server_python.Prelude.Action.{Result, ok, err}
use cli_server_python.Files.Path.{normalize_parts}
use cli_server_python.Files.Tree.{
  FileError, is_a_directory, Times, Node, Entries, file, directory, nothing, lookup, resolve,
  with_parent, made,
}
use cli_server_python.Files.Tree.Laws.{
  bytes_of, bytes_in, lookup-insert, same_parts, bytes_in-nothing,
}
use cli_server_python.Files.Provider.{
  parent_and_name, write_child, find_node, write_bytes, read_bytes, FileStat, stat, stat_of,
}

abbrev pub is_ok : {A : Type 0} → Result FileError A → Bool
is_ok (ok a) = true
is_ok (err e) = false

-- What a lookup finds: nothing, a file or a directory.
pub Node-cases :
    (o : Option Node)
    → (o ≡ none)
      ⊎ (((t : Times) × (bytes : List ℕ) × (o ≡ some (file t bytes)))
          ⊎ ((t : Times) × (sub : Entries) × (o ≡ some (directory t sub))))
Node-cases none = inl refl
Node-cases (some (file t bytes)) = inr (inl (t, bytes, refl))
Node-cases (some (directory t sub)) = inr (inr (t, sub, refl))

same_parts-longer :
    (x p name : String) (ps : List String) → same_parts (x ∷ []) (p ∷ ps ++ name ∷ []) ≡ false
same_parts-longer x p name [] = ground arith
same_parts-longer x p name (q ∷ ps) = ground arith

module _ (now : ℕ) (name : String) (raw : List ℕ) where
  -- In the parent itself.
  bytes_in-write_child :
      (parts : List String) (es : Entries)
      → bytes_in parts (write_child now name raw es).1 ≡ (
          if is_ok (write_child now name raw es).0 && same_parts parts (name ∷ [])
          then some raw
          else bytes_in parts es)
  unfolding write_child
  bytes_in-write_child [] es = ground arith
  bytes_in-write_child (x ∷ []) es = elim (Node-cases (lookup name es)) [
    | inl missing ↦ ground (
      arith,
      eq_iff x name,
      eq_iff name x,
      missing,
      lookup-insert name x (file (made now) raw) es,
    )
    | inr (inl (t, bytes, found)) ↦ ground (
      arith,
      eq_iff x name,
      eq_iff name x,
      found,
      lookup-insert name x (file (record t { modified_at = now }) raw) es,
    )
    | inr (inr (t, sub, found)) ↦ ground (arith, found)
  ]
  bytes_in-write_child (x ∷ y ∷ zs) es = elim (Node-cases (lookup name es)) [
    | inl missing ↦ ground (
      arith,
      eq_iff name x,
      eq_iff x name,
      missing,
      lookup-insert name x (file (made now) raw) es,
    )
    | inr (inl (t, bytes, found)) ↦ ground (
      arith,
      eq_iff name x,
      eq_iff x name,
      found,
      lookup-insert name x (file (record t { modified_at = now }) raw) es,
    )
    | inr (inr (t, sub, found)) ↦ ground (arith, found)
  ]

  bytes_in-with_parent :
      (ps : List String) (parts : List String) (es : Entries)
      → bytes_in parts (with_parent true now ps (write_child now name raw) es).1 ≡ (
          if is_ok (with_parent true now ps (write_child now name raw) es).0
            && same_parts parts (ps ++ name ∷ [])
          then some raw
          else bytes_in parts es)
  unfolding with_parent
  bytes_in-with_parent [] parts es = bytes_in-write_child parts es
  bytes_in-with_parent (p ∷ ps) [] es = ground arith
  bytes_in-with_parent (p ∷ ps) (x ∷ []) es = elim (Node-cases (lookup p es)) [
    | inl missing ↦
        let below = (with_parent true now ps (write_child now name raw) nothing).1 in
        ground (
          arith,
          eq_iff x p,
          eq_iff p x,
          missing,
          same_parts-longer x p name ps,
          lookup-insert p x (directory (made now) below) es,
        )
    | inr (inl (t, bytes, found)) ↦ ground (arith, found)
    | inr (inr (t, sub, found)) ↦
        let below = (with_parent true now ps (write_child now name raw) sub).1 in
        ground (
          arith,
          eq_iff x p,
          eq_iff p x,
          found,
          same_parts-longer x p name ps,
          lookup-insert p x (directory t below) es,
        )
  ]
  bytes_in-with_parent (p ∷ ps) (x ∷ y ∷ zs) es = elim (Node-cases (lookup p es)) [
    | inl missing ↦
        let below = (with_parent true now ps (write_child now name raw) nothing).1 in
        ground (
          arith,
          eq_iff x p,
          eq_iff p x,
          missing,
          lookup-insert p x (directory (made now) below) es,
          bytes_in-with_parent ps (y ∷ zs) nothing,
          bytes_in-nothing (y ∷ zs),
        )
    | inr (inl (t, bytes, found)) ↦ ground (arith, found)
    | inr (inr (t, sub, found)) ↦
        let below = (with_parent true now ps (write_child now name raw) sub).1 in
        ground (
          arith,
          eq_iff x p,
          eq_iff p x,
          found,
          lookup-insert p x (directory t below) es,
          bytes_in-with_parent ps (y ∷ zs) sub,
        )
  ]

abbrev joined : Option (List String × String) → List String
joined none = []
joined (some (parents, name)) = parents ++ name ∷ []

joined-parent_and_name : (parts : List String) → joined (parent_and_name parts) ≡ parts
unfolding parent_and_name
joined-parent_and_name [] = refl
joined-parent_and_name (x ∷ []) = refl
joined-parent_and_name (x ∷ y ∷ zs) = elim (Option-cases (parent_and_name (y ∷ zs))) [
  | inl empty ↦ absurd (let h = rw empty at (joined-parent_and_name (y ∷ zs)) in cc)
  | inr ((ps, name), split) ↦
      let h = rw split at (joined-parent_and_name (y ∷ zs)) in
      rw (split, parent_and_name) (ap (λ l. x ∷ l) h)
]

append-parent_and_name :
    (parts ps : List String) (name : String)
    → parent_and_name parts ≡ some (ps, name)
    → ps ++ name ∷ [] ≡ parts
append-parent_and_name parts ps name e = rw e at (joined-parent_and_name parts)

bytes_of-resolve :
    (root : Times) (parts : List String) (es : Entries)
    → bytes_of (resolve parts (directory root es)) ≡ bytes_in parts es
unfolding resolve
bytes_of-resolve root [] es = refl
bytes_of-resolve root (x ∷ []) es = elim (Node-cases (lookup x es)) [
  | inl missing ↦ rw (missing, resolve)
  | inr (inl (t, bytes, found)) ↦ rw (found, resolve)
  | inr (inr (t, sub, found)) ↦ rw (found, resolve)
]
bytes_of-resolve root (x ∷ y ∷ zs) es = elim (Node-cases (lookup x es)) [
  | inl missing ↦ ground (arith, missing)
  | inr (inl (t, bytes, found)) ↦ ground (arith, found)
  | inr (inr (t, sub, found)) ↦ ground (arith, found, bytes_of-resolve t (y ∷ zs) sub)
]

-- What a reader is given, if anything.
abbrev pub given_bytes : Result FileError (List ℕ) → Option (List ℕ)
given_bytes (ok bytes) = some bytes
given_bytes (err e) = none

-- A read is of a file of the size that `stat` gives, or its error is that of `stat`, or that of a
-- directory where `stat` finds one.
abbrev pub ReadsAs : Result FileError FileStat → Result FileError (List ℕ) → Type 0
ReadsAs (err e) (ok bytes) = ok bytes ≡ err e
ReadsAs (err e) (err f) = f ≡ e
ReadsAs (ok found) (ok bytes) = (found.is_dir ≡ false) × (found.size ≡ length bytes)
ReadsAs (ok found) (err e) = (found.is_dir ≡ true) × (e ≡ is_a_directory)

module _ (root : Times) where
  given_bytes-read_bytes :
      (path : String) (es : Entries)
      → given_bytes (read_bytes root path es).0 ≡ bytes_in (normalize_parts path) es
  unfolding read_bytes find_node
  given_bytes-read_bytes path es =
      given (resolve (normalize_parts path) (directory root es)) refl
      ∙ bytes_of-resolve root (normalize_parts path) es
    where
      given :
          (o : Option Node)
          → resolve (normalize_parts path) (directory root es) ≡ o
          → given_bytes (read_bytes root path es).0 ≡ bytes_of o
      given none e = rw (e, read_bytes, find_node)
      given (some (file t bytes)) e = rw (e, read_bytes, find_node)
      given (some (directory t sub)) e = rw (e, read_bytes, find_node)

  ReadsAs-read_bytes :
      (path : String) (es : Entries) → ReadsAs (stat root path es).0 (read_bytes root path es).0
  unfolding read_bytes stat stat_of
  ReadsAs-read_bytes path es = elim (Node-cases (find_node root path es)) [
    | inl missing ↦ rw (missing, read_bytes, stat) refl
    | inr (inl (t, bytes, found)) ↦ rw (found, read_bytes, stat) (refl, refl)
    | inr (inr (t, sub, found)) ↦ rw (found, read_bytes, stat) (refl, refl)
  ]

  -- After a file was written, reading its path gives what was written; any other path, and every path
  -- where the write raised, reads as before, as far as bytes are given. Where nothing is given, the
  -- error is that of `stat`, or that of a directory, exactly where `stat` finds one.
  pub read_bytes-write_bytes :
      (now : ℕ) (path other : String) (raw : List ℕ) (es : Entries)
      → (let (result, es') = write_bytes root now path raw es in
          (given_bytes (read_bytes root other es').0 ≡ (
            if is_ok result && same_parts (normalize_parts other) (normalize_parts path)
            then some raw
            else given_bytes (read_bytes root other es).0))
          × ReadsAs (stat root other es').0 (read_bytes root other es').0)
  unfolding write_bytes
  read_bytes-write_bytes now path other raw es = (
    rw (given_bytes-read_bytes, given_bytes-read_bytes)
        (elim (Option-cases (parent_and_name (normalize_parts path))) [
          | inl at_root ↦ rw (at_root, write_bytes)
          | inr ((ps, name), split) ↦ rw (
            split,
            write_bytes,
            bytes_in-with_parent,
            append-parent_and_name (normalize_parts path) ps name split,
          )
        ]),
    ReadsAs-read_bytes other (write_bytes root now path raw es).1,
  )
