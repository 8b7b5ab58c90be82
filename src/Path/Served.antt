-- ===== src/Path/Served.antt =====
-- Access by path of crates/lamfold/src/path.rs, over a frontend with a state, against the volume that it
-- serves.
use lamfold.Prelude.{
  ◌≤◌, true, false, Bytes, List, [], ◌≡◌, ◌↔◌, sym, ◌∙◌, subst, arith, inl, inr, Bool-cases,
}
use lamfold.Error.{ok, err, is_directory}
use lamfold.Exec.{continue}
use lamfold.Frontend.{NodeId, FoldFrontend, View, Metadata, DirEntry, Serves}
use lamfold.Path.{
  is_dir, push_components, max_symlinks, resolve, read_loop, read_path, read_dir_path,
  metadata_path,
}
use lamfold.Path.Pure.{of_view, by_path-Agrees}
use lamfold.Path.Resolve.{Leads, resolve_iff, continue-eq-ok}
use lamfold.ReadCap.{max_boot_file_bytes, checked_full_read_len}
use lamfold.ReadCap.Bounds.{checked_full_read_len-eq-ok, checked_full_read_len_iff}
use lamfold.Source.{usize_end}
use lamfold.Path.Chunks.{Chunks, Chunks-read_loop, read_loop-Chunks}

-- The path leads to the node from the root.
abbrev pub LeadsTo : View → Bytes → NodeId → Type 0
LeadsTo v path node = Leads v max_symlinks v.root (push_components path []) node

-- The node is no directory, its size is within the read cap, and its chunks are these bytes.
pub record Content (v : View) (node : NodeId) (bytes : Bytes) : Type 0 where
  pub md : Metadata
  pub has_md : v.metadata node ≡ ok md
  pub not_dir : is_dir md.kind ≡ false
  pub small : md.size ≤ max_boot_file_bytes
  pub chunks : Chunks v node md.size [] bytes

module _ (v : View) where
  abbrev fs : FoldFrontend (Unit {0})
  fs = of_view v

  file-Content :
      (node : NodeId) (md : Metadata) (res : Bytes)
      → v.metadata node ≡ ok md
      → is_dir md.kind ≡ false
      → (continue
          (checked_full_read_len usize_end md.size)
          (λ total. read_loop fs total node total [])
          tt).0
        ≡ ok res
      → Content v node res
  file-Content node md res has_md not_dir h =
      let (total, capped, h1) = continue-eq-ok (checked_full_read_len usize_end md.size) _ h in
      let (same, small, _) = checked_full_read_len-eq-ok usize_end md.size capped in
      record {
        md = md;
        has_md = has_md;
        not_dir = not_dir;
        small = small;
        chunks =
            subst (λ n. Chunks v node n [] res) same
              (read_loop-Chunks v total node total [] res (omega arith) h1);
      }

  read_path-Content :
      (path res : Bytes)
      → (read_path fs path tt).0 ≡ ok res
      → (n : NodeId) × LeadsTo v path n × Content v n res
  unfolding read_path
  read_path-Content path res h =
      let (n, found, h1) = continue-eq-ok (resolve fs path tt).0 _ h in
      let (md, seen, h2) = continue-eq-ok (v.metadata n) _ h1 in
      elim (Bool-cases (is_dir md.kind)) [
        | inl dir ↦ absurd (let bad = rw dir at h2 in cc)
        | inr file ↦
            (n, (resolve_iff v path n).0 found, file-Content n md res seen file (rw file at h2))
      ]

  Content-read_path :
      (path res : Bytes) (n : NodeId)
      → LeadsTo v path n
      → Content v n res
      → (read_path fs path tt).0 ≡ ok res
  unfolding read_path
  Content-read_path path res n leads c =
      let found = (resolve_iff v path n).1 leads in
      let cap : checked_full_read_len usize_end c.md.size ≡ ok c.md.size =
        (checked_full_read_len_iff usize_end c.md.size (omega arith)).1 c.small in
      let whole = Chunks-read_loop v n c.md.size c.md.size (omega arith) c.chunks in
      let seen = c.has_md in let file = c.not_dir in ground (arith, found, seen, file, cap, whole)

  read_dir_path-LeadsTo :
      (path : Bytes) (es : List DirEntry)
      → ((read_dir_path fs path tt).0 ≡ ok es)
        ↔ ((n : NodeId) × LeadsTo v path n × (v.read_dir n ≡ ok es))
  unfolding read_dir_path
  read_dir_path-LeadsTo path es = (
    λ h.
        let (n, found, h1) = continue-eq-ok (resolve fs path tt).0 _ h in
        (n, (resolve_iff v path n).0 found, h1),
    λ found. let e = (resolve_iff v path found.0).1 found.1 in rw (read_dir_path, e) found.2,
  )

  metadata_path-LeadsTo :
      (path : Bytes) (md : Metadata)
      → ((metadata_path fs path tt).0 ≡ ok md)
        ↔ ((n : NodeId) × LeadsTo v path n × (v.metadata n ≡ ok md))
  unfolding metadata_path
  metadata_path-LeadsTo path md = (
    λ h.
        let (n, found, h1) = continue-eq-ok (resolve fs path tt).0 _ h in
        (n, (resolve_iff v path n).0 found, h1),
    λ found. let e = (resolve_iff v path found.0).1 found.1 in rw (metadata_path, e) found.2,
  )

  refuses_dir :
      (path : Bytes) (dir : NodeId) (md : Metadata)
      → LeadsTo v path dir
      → v.metadata dir ≡ ok md
      → is_dir md.kind ≡ true
      → (read_path fs path tt).0 ≡ err is_directory
  unfolding read_path
  refuses_dir path dir md leads seen is =
      let found = (resolve_iff v path dir).1 leads in ground (arith, found, seen, is)

module _ {S : Type 0} (fs : FoldFrontend S) (view : View) (Inv : S → Type 0)
    (serves : Serves fs view Inv) where
  -- What access by path answers in the state `s`, for a node, metadata, a listing and bytes.
  abbrev pub Answers : S → Bytes → NodeId → Metadata → List DirEntry → Bytes → Type 0
  Answers s path node md es bytes =
      (((resolve fs path s).0 ≡ ok node) ↔ LeadsTo view path node)
      × (((metadata_path fs path s).0 ≡ ok md)
          ↔ ((n : NodeId) × LeadsTo view path n × (view.metadata n ≡ ok md)))
      × (((read_dir_path fs path s).0 ≡ ok es)
          ↔ ((n : NodeId) × LeadsTo view path n × (view.read_dir n ≡ ok es)))
      × (((read_path fs path s).0 ≡ ok bytes)
          ↔ ((n : NodeId) × LeadsTo view path n × Content view n bytes))

  -- The state stays one that serves the view.
  abbrev pub StaysServing : S → Bytes → Type 0
  StaysServing s path =
      Inv (resolve fs path s).1
      × Inv (metadata_path fs path s).1
      × Inv (read_dir_path fs path s).1
      × Inv (read_path fs path s).1

  -- The four operations by path, over any frontend that serves a view, in any of its states. A path resolves
  -- to a node exactly when it leads there in the view; metadata and a listing come back exactly when they are
  -- those of the node that the path leads to; bytes come back exactly when the path leads to a node that is
  -- no directory, whose size is within the read cap, and whose chunks, read one behind the other up to the
  -- size or an empty chunk, are these bytes. A path that leads to a directory cannot be read: it is one. The
  -- state stays one that serves the view.
  pub by_path_iff :
      (s : S) (path : Bytes) (node : NodeId) (md : Metadata) (es : List DirEntry) (bytes : Bytes)
      (folder : Bytes) (dir : NodeId) (dir_md : Metadata)
      → Inv s
      → LeadsTo view folder dir
      → view.metadata dir ≡ ok dir_md
      → is_dir dir_md.kind ≡ true
      → Answers s path node md es bytes
        × StaysServing s path
        × ((read_path fs folder s).0 ≡ err is_directory)
  by_path_iff s path node md es bytes folder dir dir_md i leads seen is =
      let (resolved, read, listed, told) = by_path-Agrees fs view Inv serves path in
      let (_, refused, _, _) = by_path-Agrees fs view Inv serves folder in
      let back = read.result s i in
      let resolves = resolve_iff view path node in
      let tells = metadata_path-LeadsTo view path md in
      let lists = read_dir_path-LeadsTo view path es in
      (
        (
          (
            λ h. resolves.0 (sym (resolved.result s i) ∙ h),
            λ l. resolved.result s i ∙ resolves.1 l,
          ),
          (λ h. tells.0 (sym (told.result s i) ∙ h), λ l. told.result s i ∙ tells.1 l),
          (λ h. lists.0 (sym (listed.result s i) ∙ h), λ l. listed.result s i ∙ lists.1 l),
          (
            λ h. read_path-Content view path bytes (sym back ∙ h),
            λ l. back ∙ Content-read_path view path bytes l.0 l.1 l.2,
          ),
        ),
        (resolved.keeps s i, told.keeps s i, listed.keeps s i, read.keeps s i),
        refused.result s i ∙ refuses_dir view folder dir dir_md leads seen is,
      )
