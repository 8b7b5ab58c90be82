-- ===== src/Romfs/Listing.antt =====
-- Directories of crates/lamfold-romfs/src/romfs.rs: `read_dir` against the chain of sibling headers.
use mathlib.Core.Path.{subst}
use lamfold.Prelude.{
  ℕ, zero, suc, true, false, ◌==◌, Bool-cases, inl, inr, ◌≡◌, refl, sym, ap, ◌∙◌, arith, List, [],
  ◌∷◌, ◌++◌, append_assoc, append-nil,
}
use lamfold.Error.{ok, guard, not_directory, bind-eq-ok, ok-injective}
use lamfold.Frontend.{DirEntry, Metadata}
use lamfold.Source.{BlockSource}
use lamfold.Romfs.{
  Header, ft_directory, is_dot, kind, max_entries, read_header, resolved_header, list_entry,
  list_from, read_dir, metadata,
}
use lamfold.Romfs.Links.{resolved_header_idem}

module _ (src : BlockSource) where
  -- The header `h` at `o` contributes these entries: none for "." and "..", and otherwise one, whose
  -- node and kind are those of what the header resolves to.
  pub data Adds (o : ℕ) (h : Header) : List DirEntry → Type 0 where
    dot : is_dot h.name ≡ true → Adds o h []
    named :
        {node : ℕ} {target : Header}
        → is_dot h.name ≡ false
        → resolved_header src o ≡ ok (node, target)
        → Adds o h (record { name = h.name; node = node; kind = kind target.ftype } ∷ [])

  -- The sibling chain from `o`, ended by the offset 0 within `turns` headers, holds these entries.
  pub data Siblings : ℕ → ℕ → List DirEntry → Type 0 where
    last : {turns o : ℕ} → (o == 0) ≡ true → Siblings turns o []
    next :
        {turns o : ℕ} {h : Header} {es rest : List DirEntry}
        → (o == 0) ≡ false
        → read_header src o ≡ ok h
        → Adds o h es
        → Siblings turns h.next_off rest
        → Siblings (suc turns) o (es ++ rest)

  Adds-list_entry :
      {o : ℕ} {h : Header} {es : List DirEntry} (out : List DirEntry)
      → Adds o h es
      → list_entry src o h out ≡ ok (out ++ es)
  unfolding list_entry
  Adds-list_entry out (dot d) = rw (list_entry, d, append-nil)
  Adds-list_entry out (named d r) = rw (list_entry, d, r)

  list_last :
      (turns o : ℕ) (out : List DirEntry) → (o == 0) ≡ true → list_from src turns o out ≡ ok out
  unfolding list_from
  list_last zero o out h = refl
  list_last (suc turns) o out h = ground arith

  list_next :
      (turns o : ℕ) (out out' : List DirEntry) (h : Header)
      → (o == 0) ≡ false
      → read_header src o ≡ ok h
      → list_entry src o h out ≡ ok out'
      → list_from src (suc turns) o out ≡ list_from src turns h.next_off out'
  unfolding list_from
  list_next turns o out out' h n r e = ground arith

  Siblings-list_from :
      {turns o : ℕ} {es : List DirEntry} (out : List DirEntry)
      → Siblings turns o es
      → list_from src turns o out ≡ ok (out ++ es)
  Siblings-list_from out (last {turns} {o} e) = rw append-nil (list_last turns o out e)
  Siblings-list_from out (next {turns} {o} {h} {es} {rest} n r a s) =
      list_next turns o out (out ++ es) h n r (Adds-list_entry out a)
      ∙ Siblings-list_from (out ++ es) s
      ∙ ap ok (append_assoc out es rest)

  -- A directory lists its children in order, with hard links standing for their targets, if its chain
  -- of siblings ends within the turns of the loop.
  pub read_dir-Siblings :
      (dir node : ℕ) (head : Header) (es : List DirEntry)
      → resolved_header src dir ≡ ok (node, head)
      → (head.ftype == ft_directory) ≡ true
      → Siblings max_entries head.info es
      → read_dir src dir ≡ ok es
  unfolding read_dir
  read_dir-Siblings dir node head es r d s =
      let listed = Siblings-list_from [] s in rw (r, d) listed

  -- What `metadata` says of the node of an entry is what the entry says.
  abbrev pub Consistent : List DirEntry → Type 0
  Consistent [] = Unit
  Consistent (e ∷ es) =
      ((md : Metadata) × (metadata src e.node ≡ ok md) × (md.kind ≡ e.kind)) × Consistent es

  Consistent-append :
      (xs ys : List DirEntry) → Consistent xs → Consistent ys → Consistent (xs ++ ys)
  Consistent-append [] ys h k = k
  Consistent-append (x ∷ xs) ys h k = (h.0, Consistent-append xs ys h.1 k)

  metadata_resolved :
      (node : ℕ) (h : Header)
      → resolved_header src node ≡ ok (node, h)
      → metadata src node ≡ ok (record { kind = kind h.ftype; size = h.size; mode = 0 })
  unfolding metadata
  metadata_resolved node h r = rw r

  list_entry-Consistent :
      (o : ℕ) (h : Header) (out out' : List DirEntry)
      → Consistent out
      → list_entry src o h out ≡ ok out'
      → Consistent out'
  unfolding list_entry
  list_entry-Consistent o h out out' c e = elim (Bool-cases (is_dot h.name)) [
    | inl d ↦ let same = ok-injective (rw (d, list_entry) at e) in subst Consistent same c
    | inr d ↦
        let ((node, target), r, e') =
          bind-eq-ok (resolved_header src o) _ (rw (d, list_entry) at e) in
        let md = metadata_resolved node target (resolved_header_idem src o node target r).0 in
        subst Consistent (ok-injective e') (Consistent-append out _ c (((_, md, refl), tt)))
  ]

  list_from-Consistent :
      (turns o : ℕ) (out es : List DirEntry)
      → Consistent out
      → list_from src turns o out ≡ ok es
      → Consistent es
  unfolding list_from
  list_from-Consistent zero o out es c e = subst Consistent (ok-injective e) c
  list_from-Consistent (suc turns) o out es c e = elim (Bool-cases (o == 0)) [
    | inl z ↦ subst Consistent (ok-injective (sym (list_last (suc turns) o out z) ∙ e)) c
    | inr nz ↦
        let (h, r, e1) = bind-eq-ok (read_header src o) _ (rw (nz, list_from) at e) in
        let (out', l, e2) = bind-eq-ok (list_entry src o h out) _ e1 in
        list_from-Consistent turns h.next_off out' es (list_entry-Consistent o h out out' c l) e2
  ]

  -- A listing and `metadata` agree: the node of each entry has the kind that the entry gives.
  pub read_dir-Consistent :
      (dir : ℕ) (es : List DirEntry) → read_dir src dir ≡ ok es → Consistent es
  unfolding read_dir
  read_dir-Consistent dir es e =
      let ((node, head), r, e1) = bind-eq-ok (resolved_header src dir) _ e in
      let (u, g, e2) = bind-eq-ok (guard (head.ftype == ft_directory) not_directory) _ e1 in
      list_from-Consistent max_entries head.info [] es tt e2
