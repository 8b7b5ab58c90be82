-- ===== src/Iso9660/Listed.antt =====
-- The nodes that `read_dir` and `lookup` of crates/lamfold-iso/src/iso9660.rs hand out.
use lamfold.Prelude.{
  Bytes, List, [], ◌∷◌, get_elem?, Option, some, none, bytes_eq, Bool-cases, Option-cases, inl, inr,
  ◌≡◌, refl, sym, ap, ◌∙◌,
}
use lamfold.Error.{
  ok, not_directory, not_found, ok_or, guard, ◌>>=◌, Result-cases, ok-injective, bind-eq-ok,
  ok_or-eq-ok,
}
use lamfold.Frontend.{NodeId, DirEntry}
use lamfold.Prelude.TreeMap
use lamfold.Romfs.{find_name}
use lamfold.Source.{BlockSource}
use lamfold.Iso9660.{Inode, Iso, reading, intern, inode_at, key_ord}
use lamfold.Iso9660.Interned.{
  IsInterned, Extends, Extends-trans, Extends-found, intern-Interns, intern_known, intern_new,
}
use lamfold.Iso9660.Volume.{
  is_dir_kind, dir_entries, find_entry, intern_all, intern_found, lookup, read_dir,
}

-- The listing `ds` names the entries `es`, each by the node that the table has for its record.
abbrev pub AllNodes : Iso → List (Bytes × Inode) → List DirEntry → Type 0
AllNodes w [] [] = Unit
AllNodes w ((name, i) ∷ es) (d ∷ ds) =
    (d.name ≡ name)
    × (d.kind ≡ i.kind)
    × (TreeMap.lookup i.key w.by_record ≡ some d.node)
    × AllNodes w es ds
AllNodes w _ _ = ⊥

-- The state `w` comes from `v` by interning.
pub record Grows (v w : Iso) : Type 0 where
  pub is_interned : IsInterned w
  pub extends : Extends v w
  pub same_reading : reading w ≡ reading v

intern-reading : (i : Inode) (v : Iso) → reading (intern i v).1 ≡ reading v
intern-reading i v = elim (Option-cases (TreeMap.lookup i.key v.by_record)) [
  | inl new ↦ ap (λ r. reading r.1) (intern_new i v new)
  | inr (id, known) ↦ ap (λ r. reading r.1) (intern_known i v id known)
]

intern-Grows : (i : Inode) (v : Iso) → IsInterned v → Grows v (intern i v).1
intern-Grows i v h =
    let done = intern-Interns i v h in
    record {
      is_interned = done.is_interned;
      extends = done.extends;
      same_reading = intern-reading i v;
    }

Grows-trans : (u v w : Iso) → Grows u v → Grows v w → Grows u w
Grows-trans u v w a b = record {
  is_interned = b.is_interned;
  extends = Extends-trans u v w a.extends b.extends;
  same_reading = b.same_reading ∙ a.same_reading;
}

pub Grows-refl : (v : Iso) → IsInterned v → Grows v v
Grows-refl v h = record { is_interned = h; extends = λ id i e. e; same_reading = refl }

intern_all-AllNodes :
    (es : List (Bytes × Inode)) (v : Iso)
    → IsInterned v
    → Grows v (intern_all es v).1 × AllNodes (intern_all es v).1 es (intern_all es v).0
unfolding intern_all
intern_all-AllNodes [] v h = (Grows-refl v h, tt)
intern_all-AllNodes ((name, i) ∷ es) v h =
    let w = (intern i v).1 in
    let done = intern-Interns i v h in
    let (grows, rest) = intern_all-AllNodes es w done.is_interned in
    (
      Grows-trans v w (intern_all es w).1 (intern-Grows i v h) grows,
      (
        refl,
        refl,
        Extends-found w (intern_all es w).1 i.key (intern i v).0 done.is_interned grows.is_interned
            grows.extends done.found,
        rest,
      ),
    )

-- In a state that has the nodes of a listing, looking a name up finds the node listed, and adds none.
find-AllNodes :
    (name : Bytes) (es : List (Bytes × Inode)) (ds : List DirEntry) (w : Iso)
    → AllNodes w es ds
    → intern_found (find_entry name es) w ≡ (find_name name ds, w)
unfolding find_entry find_name
find-AllNodes name [] [] w h = refl
find-AllNodes name [] (d ∷ ds) w h = absurd h
find-AllNodes name ((n, i) ∷ es) [] w h = absurd h
find-AllNodes name ((n, i) ∷ es) (d ∷ ds) w h =
    let same_name = ap (λ x. bytes_eq x name) h.0 in
    elim (Bool-cases (bytes_eq n name)) [
      | inl here ↦
          let known = intern_known i w d.node h.2 in
          rw (find_entry, find_name, same_name, here, known) refl
      | inr not_here ↦
          rw (find_entry, find_name, same_name, not_here) (find-AllNodes name es ds w h.3)
    ]

AllNodes-Grows :
    (es : List (Bytes × Inode)) (ds : List DirEntry) (w x : Iso)
    → IsInterned w
    → Grows w x
    → AllNodes w es ds
    → AllNodes x es ds
AllNodes-Grows [] [] w x h g a = tt
AllNodes-Grows [] (d ∷ ds) w x h g a = a
AllNodes-Grows ((n, i) ∷ es) [] w x h g a = a
AllNodes-Grows ((n, i) ∷ es) (d ∷ ds) w x h g a = (
  a.0,
  a.1,
  Extends-found w x i.key d.node h g.is_interned g.extends a.2,
  AllNodes-Grows es ds w x h g a.3,
)

intern_found-Grows : (o : Option Inode) (v : Iso) → IsInterned v → Grows v (intern_found o v).1
intern_found-Grows none v h = Grows-refl v h
intern_found-Grows (some i) v h = intern-Grows i v h

module _ (src : BlockSource) where
  -- Sequences of the calls that change the state.
  pub data Calls (v : Iso) : Iso → Type 0 where
    here : Calls v v
    looked : {w : Iso} (dir : NodeId) (name : Bytes) → Calls v w → Calls v (lookup src dir name w).1
    listed : {w : Iso} (dir : NodeId) → Calls v w → Calls v (read_dir src dir w).1

  lookup-Grows :
      (dir : NodeId) (name : Bytes) (v : Iso) → IsInterned v → Grows v (lookup src dir name v).1
  unfolding lookup
  lookup-Grows dir name v h = elim (Result-cases (dir_entries src v dir)) [
    | inl (es, e) ↦ rw (lookup, e) (intern_found-Grows (find_entry name es) v h)
    | inr (why, e) ↦ rw (lookup, e) (Grows-refl v h)
  ]

  read_dir-Grows : (dir : NodeId) (v : Iso) → IsInterned v → Grows v (read_dir src dir v).1
  unfolding read_dir
  read_dir-Grows dir v h = elim (Result-cases (dir_entries src v dir)) [
    | inl (es, e) ↦ rw (read_dir, e) (intern_all-AllNodes es v h).0
    | inr (why, e) ↦ rw (read_dir, e) (Grows-refl v h)
  ]

  pub Calls-Grows : (v w : Iso) → IsInterned v → Calls v w → Grows v w
  Calls-Grows v _ h here = Grows-refl v h
  Calls-Grows v _ h (looked {w = w} dir name before) =
      let g = Calls-Grows v w h before in
      Grows-trans v w (lookup src dir name w).1 g (lookup-Grows dir name w g.is_interned)
  Calls-Grows v _ h (listed {w = w} dir before) =
      let g = Calls-Grows v w h before in
      Grows-trans v w (read_dir src dir w).1 g (read_dir-Grows dir w g.is_interned)

  dir_entries-Grows :
      (v w : Iso) (dir : NodeId) (es : List (Bytes × Inode))
      → Grows v w
      → dir_entries src v dir ≡ ok es
      → dir_entries src w dir ≡ ok es
  unfolding dir_entries inode_at
  dir_entries-Grows v w dir es g h =
      let (i, at, h1) = bind-eq-ok (ok_or (get_elem? v.nodes dir) not_found) _ h in
      let later = g.extends dir i (ok_or-eq-ok (get_elem? v.nodes dir) not_found at) in
      let (_, is_dir, h2) = bind-eq-ok (guard (is_dir_kind i.kind) not_directory) _ h1 in
      rw (dir_entries, inode_at, later, ◌>>=◌, is_dir, g.same_reading) h2

  read_dir-AllNodes :
      (dir : NodeId) (v : Iso) (ds : List DirEntry)
      → IsInterned v
      → (read_dir src dir v).0 ≡ ok ds
      → (es : List (Bytes × Inode)) × (dir_entries src v dir ≡ ok es)
        × AllNodes (read_dir src dir v).1 es ds
  unfolding read_dir
  read_dir-AllNodes dir v ds h e = elim (Result-cases (dir_entries src v dir)) [
    | inl (es, found) ↦
        let same_ = ok-injective (rw (read_dir, found) at e) in
        (es, found, rw (read_dir, found, sym same_) (intern_all-AllNodes es v h).1)
    | inr (why, bad) ↦ absurd (let c = rw (read_dir, bad) at e in cc)
  ]

  -- The nodes that `read_dir` lists and the nodes that `lookup` finds are the same ones: whatever calls come
  -- between, looking a name up in the directory gives the node of the first entry listed with that name,
  -- none if no entry has it, and adds no node.
  pub lookup-read_dir :
      (dir : NodeId) (name : Bytes) (v w : Iso) (ds : List DirEntry)
      → IsInterned v
      → (read_dir src dir v).0 ≡ ok ds
      → Calls (read_dir src dir v).1 w
      → lookup src dir name w ≡ (ok (find_name name ds), w)
  unfolding lookup
  lookup-read_dir dir name v w ds h e calls =
      let u = (read_dir src dir v).1 in
      let first = read_dir-Grows dir v h in
      let after = Calls-Grows u w first.is_interned calls in
      let (es, found, all) = read_dir-AllNodes dir v ds h e in
      let still = dir_entries-Grows v w dir es (Grows-trans v u w first after) found in
      let nodes = AllNodes-Grows es ds u w first.is_interned after all in
      rw (lookup, still) (ap (λ r. (ok r.0, r.1)) (find-AllNodes name es ds w nodes))
