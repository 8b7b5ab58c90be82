-- ===== src/Cpio/Served.antt =====
-- The methods of crates/lamfold-cpio/src/cpio.rs on a volume that `open` gives.
use lamfold.Prelude.{
  ℕ, ◌+◌, ◌-◌, ◌≤◌, min, true, false, leb, Bytes, List, [], ◌∷◌, length, take, drop, slice?,
  length-slice?, get_elem?, get_elem?_lt, some, ◌≡◌, arith, sym, refl, le→leb, if◌then◌else◌,
}
use lamfold.Prelude.TreeMap
use lamfold.Prelude.TreeMap.{TreeMap}
use lamfold.Prelude.Order.{bytes_ord}
use lamfold.Error.{ok, ◌>>=◌}
use lamfold.Frontend.{NodeId, Metadata, DirEntry}
use lamfold.Path.{is_dir, resolve, read_path}
use lamfold.Path.Pure.{of_view}
use lamfold.Path.Read.{Holds, read_path-content}
use lamfold.ReadCap.{max_boot_file_bytes}
use lamfold.Cpio.Tree.{Node, Span}
use lamfold.Cpio.Tree.Shape.{AllFrom-get_elem?, Behind}
use lamfold.Cpio.Volume.{
  Cpio, node_of, bytes, lookup, dir_entries, read_dir, metadata, read_at, volume,
}
use lamfold.Cpio.Spans.{All-get_elem?, InBuffers}
use lamfold.Cpio.Mounted.{Safe}

module _ (v : Cpio) where
  -- The bytes of a span stand in its buffer.
  abbrev pub Cut : Span → Bytes → Type 0
  Cut span content =
      (buffer : Bytes) × (get_elem? v.buffers span.buf ≡ some buffer)
      × (span.off + span.len ≤ length buffer)
      × (content ≡ take span.len (drop span.off buffer))

  -- A span in its buffers has its bytes.
  bytes-InBuffers :
      (span : Span)
      → InBuffers v.buffers span
      → (content : Bytes) × (bytes v span ≡ ok content)
        × (length content ≡ span.len)
        × Cut span content
  unfolding bytes slice?
  bytes-InBuffers span (b, at, le) =
      let content = take span.len (drop span.off b) in
      let there : leb (span.off + span.len) (length b) ≡ true =
        le→leb (span.off + span.len) (length b) le in
      let cut : slice? b span.off span.len ≡ some content = rw there refl in
      (content, rw (at, there) refl, length-slice? b span.off span.len cut, (b, at, le, refl))

  module _ (id : NodeId) (node : Node) (content : Bytes) (at : get_elem? v.nodes id ≡ some node)
      (file : is_dir node.kind ≡ false) (held : bytes v node.data_ ≡ ok content)
      (size : length content ≡ node.data_.len) where
    metadata_file :
        metadata v id ≡ ok (record { kind = node.kind; size = node.data_.len; mode = node.mode })
    unfolding metadata node_of
    metadata_file = rw (at, file) refl

    read_at_inside :
        (off want : ℕ)
        → leb (length content) off ≡ false
        → read_at v id off want ≡ ok (take (min want (length content - off)) (drop off content))
    unfolding read_at node_of
    read_at_inside off want e = rw (at, ◌>>=◌, file, held, e) refl

    file-held : Holds (volume v) id content
    file-held = record {
      md = record { kind = node.kind; size = node.data_.len; mode = node.mode };
      has_md = metadata_file;
      not_dir = file;
      size_is = sym size;
      count = λ off want. min want (length content - off);
      count_pos = λ off want inside pos. omega arith;
      count_want = λ off want. omega arith;
      count_fits = λ off want inside. omega arith;
      reads = λ off want inside. read_at_inside off want (ground arith);
    }

  -- `read_path` gives the bytes from the span's offset on, as many as its length, of the buffer that it
  -- names.
  abbrev pub ReadsSpan : Bytes → Node → Type 0
  ReadsSpan path node =
      (content : Bytes) × Cut node.data_ content
      × ((read_path (of_view (volume v)) path tt).0 ≡ ok content)

  -- In an opened volume every file that a path leads to, up to the read cap, reads as the bytes of its
  -- span, from its offset on and as many as its length, in the buffer that it names: `read_path` neither
  -- fails nor stops with a panic.
  pub read_path-Safe :
      (path : Bytes) (id : NodeId) (node : Node)
      → Safe v.buffers v.nodes
      → get_elem? v.nodes id ≡ some node
      → is_dir node.kind ≡ false
      → node.data_.len ≤ max_boot_file_bytes
      → (resolve (of_view (volume v)) path tt).0 ≡ ok id
      → ReadsSpan path node
  read_path-Safe path id node (tree, all) at file small found =
      let span = All-get_elem? (InBuffers v.buffers) v.nodes id all at in
      let (content, held, size, cut) = bytes-InBuffers node.data_ span in
      let holds = file-held id node content at file held size in
      (content, cut, read_path-content (volume v) id content holds path found (omega (arith, size)))

  -- What a listing says of each of its entries.
  abbrev pub Told : TreeMap Bytes NodeId → List DirEntry → Type 0
  Told [] [] = Unit
  Told ((name, child) ∷ children) (e ∷ es) =
      (e.name ≡ name)
      × (e.node ≡ child)
      × ((md : Metadata) × (metadata v child ≡ ok md) × (e.kind ≡ md.kind))
      × Told children es
  Told _ _ = ⊥

  dir_entries-Told :
      (i : ℕ) (children : TreeMap Bytes NodeId)
      → Behind i (length v.nodes) children
      → (es : List DirEntry) × (dir_entries v children ≡ ok es) × Told children es
  unfolding dir_entries metadata node_of
  dir_entries-Told i [] b = ([], refl, tt)
  dir_entries-Told i ((name, child) ∷ children) (lo, hi, b) =
      let (node, at) = get_elem?_lt v.nodes child hi in
      let (es, listed, told) = dir_entries-Told i children b in
      let md : Metadata = record {
        kind = node.kind;
        size = if is_dir node.kind then 0 else node.data_.len;
        mode = node.mode;
      } in
      let e : DirEntry = record { name = name; node = child; kind = node.kind } in
      (e ∷ es, rw (at, listed) refl, (refl, refl, (md, rw at refl, refl), told))

  abbrev pub ListsDir : NodeId → Node → Type 0
  ListsDir id node =
      ((es : List DirEntry) × (read_dir v id ≡ ok es) × Told node.children es)
      × ((name : Bytes) → lookup v id name ≡ ok (TreeMap.lookup name node.children))

  -- A directory of an opened volume lists without a panic: one entry for each child, in key order,
  -- with its name, its node, and the kind that `metadata` gives for that node; and `lookup` finds
  -- under each name what the directory's map holds.
  pub read_dir-Safe :
      (id : NodeId) (node : Node)
      → Safe v.buffers v.nodes
      → get_elem? v.nodes id ≡ some node
      → is_dir node.kind ≡ true
      → ListsDir id node
  unfolding read_dir lookup node_of
  read_dir-Safe id node (tree, all) at dir =
      let (behind, _) =
        AllFrom-get_elem? 0 (length v.nodes) id id v.nodes (omega arith) tree.1 at in
      let (es, listed, told) = dir_entries-Told id node.children behind in
      ((es, rw (at, dir) listed, told), λ name. rw (at, dir) refl)
