-- ===== src/Frontend.antt =====
-- crates/lamfold/src/frontend.rs: the values that cross between a frontend and its host, and the
-- `FoldFrontend` interface. The state of a frontend is one type: its own fields with the block cache
-- and the verifier that `SubstrateCtx` lends it. `read_at` returns the bytes that it wrote into the
-- front of the buffer, so that their number is its count.
use lamfold.Prelude.{ℕ, Bytes, List, Option, none, ◌≡◌}
use lamfold.Error.{Result, ok}
use lamfold.Exec.{Exec}

abbrev pub NodeId : Type 0
NodeId = ℕ

pub data FileKind : Type 0 where
  regular directory symlink other : FileKind

pub record Metadata : Type 0 where
  pub kind : FileKind
  pub size : ℕ
  pub mode : ℕ

pub record DirEntry : Type 0 where
  pub name : Bytes
  pub node : NodeId
  pub kind : FileKind

-- The methods of a mounted volume with state `S`.
pub record FoldFrontend (S : Type 0) : Type 0 where
  pub root : S → NodeId
  pub lookup : NodeId → Bytes → Exec S (Option NodeId)
  pub read_dir : NodeId → Exec S (List DirEntry)
  pub metadata : NodeId → Exec S Metadata
  pub read_at : NodeId → ℕ → ℕ → Exec S Bytes
  pub read_link : NodeId → Exec S (Option Bytes)

-- The default `read_link`: the format has no symlinks.
unfoldable pub no_read_link : {S : Type 0} → NodeId → Exec S (Option Bytes)
no_read_link node s = (ok none, s)

-- A volume as a host sees it: what each method answers, with no state.
pub record View : Type 0 where
  pub root : NodeId
  pub lookup : NodeId → Bytes → Result (Option NodeId)
  pub read_dir : NodeId → Result (List DirEntry)
  pub metadata : NodeId → Result Metadata
  pub read_at : NodeId → ℕ → ℕ → Result Bytes
  pub read_link : NodeId → Result (Option Bytes)

-- In states that satisfy `Inv` the frontend answers as the view does, and keeps `Inv`.
pub record Serves {S : Type 0} (fs : FoldFrontend S) (view : View) (Inv : S → Type 0) : Type 0 where
  pub root_is : (s : S) → Inv s → fs.root s ≡ view.root
  pub lookup_is : (n : NodeId) (c : Bytes) (s : S) → Inv s → (fs.lookup n c s).0 ≡ view.lookup n c
  pub lookup_keeps : (n : NodeId) (c : Bytes) (s : S) → Inv s → Inv (fs.lookup n c s).1
  pub read_dir_is : (n : NodeId) (s : S) → Inv s → (fs.read_dir n s).0 ≡ view.read_dir n
  pub read_dir_keeps : (n : NodeId) (s : S) → Inv s → Inv (fs.read_dir n s).1
  pub metadata_is : (n : NodeId) (s : S) → Inv s → (fs.metadata n s).0 ≡ view.metadata n
  pub metadata_keeps : (n : NodeId) (s : S) → Inv s → Inv (fs.metadata n s).1
  pub read_at_is :
      (n : NodeId) (off want : ℕ) (s : S)
      → Inv s
      → (fs.read_at n off want s).0 ≡ view.read_at n off want
  pub read_at_keeps : (n : NodeId) (off want : ℕ) (s : S) → Inv s → Inv (fs.read_at n off want s).1
  pub read_link_is : (n : NodeId) (s : S) → Inv s → (fs.read_link n s).0 ≡ view.read_link n
  pub read_link_keeps : (n : NodeId) (s : S) → Inv s → Inv (fs.read_link n s).1
