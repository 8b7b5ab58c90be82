-- ===== src/Path.antt =====
-- crates/lamfold/src/path.rs: access by path over any frontend. A path is its bytes; the stack of
-- pending components is a list with its top first.
pub mod Components
pub mod Pure
pub mod Resolve
pub mod Read
pub mod Chunks
pub mod Served
use lamfold.Prelude.{
  ℕ, zero, suc, ◌+◌, ◌-◌, Bool, true, false, not, ◌&&◌, ltb, ◌==◌, if◌then◌else◌, Bytes, List, [],
  ◌∷◌, ◌++◌, length, Option, none, some,
}
use lamfold.Error.{
  FoldError, Result, ok, err, not_found, is_directory, invalid_path, corrupt, ok_or,
}
use lamfold.Exec.{Exec, pure, lift, ◌>>=◌}
use lamfold.Frontend.{NodeId, FileKind, directory, symlink, Metadata, DirEntry, FoldFrontend}
use lamfold.ReadCap.{checked_full_read_len}
use lamfold.Source.{usize_end}
use lamfold.Utf8.{is_utf8}

-- `MAX_SYMLINKS`.
abbrev pub max_symlinks : ℕ
max_symlinks = 16

-- `str::split('/')`: there is one piece more than there are slashes.
abbrev pub onto_head : ℕ → List Bytes → List Bytes
onto_head c [] = (c ∷ []) ∷ []
onto_head c (p ∷ ps) = (c ∷ p) ∷ ps

unfoldable pub split : Bytes → List Bytes
split [] = [] ∷ []
split (c ∷ cs) = let rest = split cs in if c == b'/' then [] ∷ rest else onto_head c rest

-- `!c.is_empty() && c != "."`.
unfoldable pub is_component : Bytes → Bool
is_component [] = false
is_component (c ∷ []) = not (c == b'.')
is_component (c ∷ d ∷ cs) = true

abbrev pub keep : Bytes → List Bytes → List Bytes
keep c rest = if is_component c then c ∷ rest else rest

unfoldable pub components_of : List Bytes → List Bytes
unfolding is_component
components_of [] = []
components_of (c ∷ cs) = keep c (components_of cs)

-- `push_components`: the components of the path on top of the stack, the first one uppermost.
unfoldable pub push_components : Bytes → List Bytes → List Bytes
unfolding split components_of
push_components path stack = components_of (split path) ++ stack

unfoldable pub is_dotdot : Bytes → Bool
is_dotdot (a ∷ b ∷ []) = a == b'.' && b == b'.'
is_dotdot _ = false

unfoldable pub starts_with_slash : Bytes → Bool
starts_with_slash [] = false
starts_with_slash (c ∷ cs) = c == b'/'

abbrev pub is_symlink : FileKind → Bool
is_symlink symlink = true
is_symlink _ = false

abbrev pub is_dir : FileKind → Bool
is_dir directory = true
is_dir _ = false

module _ {S : Type 0} (fs : FoldFrontend S) where
  -- The child that a component names, and its metadata.
  unfoldable pub visit : NodeId → Bytes → Exec S (NodeId × Bool)
  unfolding is_dotdot
  visit node comp = elim (is_dotdot comp) [
    | true ↦ lift (err (invalid_path "'..' not supported"))
    | false ↦ do
      found ← fs.lookup node comp
      child ← lift (ok_or found not_found)
      md ← fs.metadata child
      pure (child, is_symlink md.kind)
  ]

  -- The target of the link `child` of `node`: where it starts, and the path.
  unfoldable pub follow : NodeId → NodeId → Exec S (NodeId × Bytes)
  unfolding starts_with_slash is_utf8
  follow node child = do
    link ← fs.read_link child
    target ← lift (ok_or link (corrupt "symlink without a target"))
    elim (is_utf8 target) [
      | true ↦ λ s. (ok (if starts_with_slash target then fs.root s else node, target), s)
      | false ↦ lift (err (invalid_path "non-UTF-8 symlink"))
    ]

  -- The loop of `resolve`; `room` is `MAX_SYMLINKS - links`, the links that may yet be followed.
  unfoldable pub walk : ℕ → NodeId → List Bytes → Exec S NodeId
  unfolding visit follow push_components
  walk room node [] = pure node
  walk zero node (comp ∷ pending) = do
    (child, link) ← visit node comp
    elim link [
      | true ↦ lift (err (invalid_path "too many symlinks"))
      | false ↦ walk zero child pending
    ]
  walk (suc room) node (comp ∷ pending) = do
    (child, link) ← visit node comp
    elim link [
      | true ↦ do
        (base, target) ← follow node child
        walk room base (push_components target pending)
      | false ↦ walk (suc room) child pending
    ]

  unfoldable pub resolve : Bytes → Exec S NodeId
  unfolding walk push_components
  resolve path s = walk max_symlinks (fs.root s) (push_components path []) s

  -- `while done < total`, on fuel; `out` is the part of the buffer that is filled.
  unfoldable pub read_loop : ℕ → NodeId → ℕ → Bytes → Exec S Bytes
  read_loop zero node total out = pure out
  read_loop (suc fuel) node total out = elim (ltb (length out) total) [
    | false ↦ pure out
    | true ↦ do
      chunk ← fs.read_at node (length out) (total - length out)
      elim chunk [ [] ↦ pure out | b ∷ bs ↦ read_loop fuel node total (out ++ (b ∷ bs)) ]
  ]

  -- `read_path`: each round reads a byte or more, so that `total` rounds are enough.
  unfoldable pub read_path : Bytes → Exec S Bytes
  unfolding resolve checked_full_read_len read_loop
  read_path path = do
    node ← resolve path
    md ← fs.metadata node
    elim (is_dir md.kind) [
      | true ↦ lift (err is_directory)
      | false ↦ do
        total ← lift (checked_full_read_len usize_end md.size)
        read_loop total node total []
    ]

  unfoldable pub read_dir_path : Bytes → Exec S (List DirEntry)
  unfolding resolve
  read_dir_path path = do node ← resolve path; fs.read_dir node

  unfoldable pub metadata_path : Bytes → Exec S Metadata
  unfolding resolve
  metadata_path path = do node ← resolve path; fs.metadata node
