-- ===== src/Path/Pure.antt =====
-- A frontend that serves a view answers every path as the view with no state does
-- (crates/lamfold/src/path.rs): what is cached, and in which order, does not show.
use lamfold.Prelude.{
  ℕ, zero, suc, ◌-◌, ◌++◌, Bool, true, false, ltb, if◌then◌else◌, Bytes, List, [], ◌∷◌, length, ◌≡◌,
  refl, inl, inr, Bool-cases,
}
use lamfold.Error.{Result, ok, err, ok_or, not_found, corrupt}
use lamfold.Exec.{Exec, pure, lift, continue, ◌>>=◌}
use lamfold.Frontend.{NodeId, FoldFrontend, View, Serves}
use lamfold.Path.{
  is_dotdot, starts_with_slash, is_dir, push_components, max_symlinks, visit, follow, walk, resolve,
  read_loop, read_path, read_dir_path, metadata_path,
}
use lamfold.ReadCap.{checked_full_read_len}
use lamfold.Source.{usize_end}
use lamfold.Utf8.{is_utf8}

-- The frontend that answers by the view, and has no state.
abbrev pub of_view : View → FoldFrontend (Unit {0})
of_view v = record {
  root = λ s. v.root;
  lookup = λ n c s. (v.lookup n c, s);
  read_dir = λ n s. (v.read_dir n, s);
  metadata = λ n s. (v.metadata n, s);
  read_at = λ n off want s. (v.read_at n off want, s);
  read_link = λ n s. (v.read_link n, s);
}

-- `m` keeps `Inv` and returns what `p` returns.
pub record Agrees {S A : Type 0} (Inv : S → Type 0) (m : Exec S A) (p : Exec (Unit {0}) A)
    : Type 0 where
  pub result : (s : S) → Inv s → (m s).0 ≡ (p tt).0
  pub keeps : (s : S) → Inv s → Inv (m s).1

module _ {S A : Type 0} {Inv : S → Type 0} where
  Agrees-lift : (r : Result A) → Agrees Inv (lift r) (lift r)
  Agrees-lift r = record { result = λ s i. refl; keeps = λ s i. i }

  Agrees-pure : (a : A) → Agrees Inv (pure a) (pure a)
  Agrees-pure a = record { result = λ s i. refl; keeps = λ s i. i }

  -- Both sides branch on one test.
  Agrees-branch :
      (b : Bool) {m n : Exec S A} {p q : Exec (Unit {0}) A}
      → Agrees Inv m p
      → Agrees Inv n q
      → Agrees Inv (elim b [ true ↦ m | false ↦ n ]) (elim b [ true ↦ p | false ↦ q ])
  Agrees-branch true hm hn = hm
  Agrees-branch false hm hn = hn

  -- Both sides stop at an empty chunk and go on at any other.
  Agrees-chunk :
      (chunk : Bytes) {m : Exec S A} {p : Exec (Unit {0}) A} {f : ℕ → Bytes → Exec S A}
      {g : ℕ → Bytes → Exec (Unit {0}) A}
      → Agrees Inv m p
      → ((b : ℕ) (bs : Bytes) → Agrees Inv (f b bs) (g b bs))
      → Agrees Inv
          (elim chunk [ [] ↦ m | b ∷ bs ↦ f b bs ])
          (elim chunk [ [] ↦ p | b ∷ bs ↦ g b bs ])
  Agrees-chunk [] hm hf = hm
  Agrees-chunk (b ∷ bs) hm hf = hf b bs

module _ {S A B : Type 0} {Inv : S → Type 0} where
  -- Stepping on with one result on both sides.
  Agrees-continue :
      (r : Result A) (f : A → Exec S B) (g : A → Exec (Unit {0}) B)
      → ((a : A) → Agrees Inv (f a) (g a))
      → Agrees Inv (continue r f) (continue r g)
  Agrees-continue (ok a) f g h = h a
  Agrees-continue (err e) f g h = record { result = λ s i. refl; keeps = λ s i. i }

  Agrees-bind :
      (m : Exec S A) (p : Exec (Unit {0}) A) (f : A → Exec S B) (g : A → Exec (Unit {0}) B)
      → Agrees Inv m p
      → ((a : A) → Agrees Inv (f a) (g a))
      → Agrees Inv (m >>= f) (p >>= g)
  Agrees-bind m p f g a h = record {
    result =
        λ s i. rw (a.result s i) ((Agrees-continue (p tt).0 f g h).result (m s).1 (a.keeps s i));
    keeps = λ s i. (Agrees-continue (m s).0 f g h).keeps (m s).1 (a.keeps s i);
  }

module _ {S : Type 0} (fs : FoldFrontend S) (view : View) (Inv : S → Type 0)
    (serves : Serves fs view Inv) where
  abbrev pure_fs : FoldFrontend (Unit {0})
  pure_fs = of_view view

  lookup-Agrees : (n : NodeId) (c : Bytes) → Agrees Inv (fs.lookup n c) (pure_fs.lookup n c)
  lookup-Agrees n c = record { result = serves.lookup_is n c; keeps = serves.lookup_keeps n c }

  read_dir-Agrees : (n : NodeId) → Agrees Inv (fs.read_dir n) (pure_fs.read_dir n)
  read_dir-Agrees n = record { result = serves.read_dir_is n; keeps = serves.read_dir_keeps n }

  metadata-Agrees : (n : NodeId) → Agrees Inv (fs.metadata n) (pure_fs.metadata n)
  metadata-Agrees n = record { result = serves.metadata_is n; keeps = serves.metadata_keeps n }

  read_link-Agrees : (n : NodeId) → Agrees Inv (fs.read_link n) (pure_fs.read_link n)
  read_link-Agrees n = record { result = serves.read_link_is n; keeps = serves.read_link_keeps n }

  read_at-Agrees :
      (n : NodeId) (off want : ℕ) → Agrees Inv (fs.read_at n off want) (pure_fs.read_at n off want)
  read_at-Agrees n off want = record {
    result = serves.read_at_is n off want;
    keeps = serves.read_at_keeps n off want;
  }

  visit-Agrees :
      (node : NodeId) (comp : Bytes) → Agrees Inv (visit fs node comp) (visit pure_fs node comp)
  unfolding visit
  visit-Agrees node comp = elim (Bool-cases (is_dotdot comp)) [
    | inl dd ↦ rw (dd, visit) (Agrees-lift _)
    | inr no_dd ↦
        rw (no_dd, visit)
          (Agrees-bind _ _ _ _ (lookup-Agrees node comp) λ found.
            Agrees-bind _ _ _ _ (Agrees-lift (ok_or found not_found))
              λ child. Agrees-bind _ _ _ _ (metadata-Agrees child) λ md. Agrees-pure _)
  ]

  base-Agrees :
      (node : NodeId) (target : Bytes)
      → Agrees {A = NodeId × Bytes} Inv
          (λ s. (ok (if starts_with_slash target then fs.root s else node, target), s))
          (λ s. (ok (if starts_with_slash target then pure_fs.root s else node, target), s))
  base-Agrees node target = record { result = λ s i. rw (serves.root_is s i); keeps = λ s i. i }

  follow-Agrees :
      (node child : NodeId) → Agrees Inv (follow fs node child) (follow pure_fs node child)
  unfolding follow
  follow-Agrees node child = Agrees-bind _ _ _ _ (read_link-Agrees child) λ link.
      Agrees-bind _ _ _ _ (Agrees-lift (ok_or link (corrupt "symlink without a target"))) λ target.
        elim (Bool-cases (is_utf8 target)) [
          | inl good ↦ rw good (base-Agrees node target)
          | inr bad ↦ rw bad (Agrees-lift _)
        ]

  walk-Agrees :
      (room : ℕ) (node : NodeId) (pending : List Bytes)
      → Agrees Inv (walk fs room node pending) (walk pure_fs room node pending)
  unfolding walk
  walk-Agrees room node [] = Agrees-pure node
  walk-Agrees zero node (comp ∷ pending) =
      Agrees-bind _ _ _ _ (visit-Agrees node comp)
        λ v. Agrees-branch v.1 (Agrees-lift _) (walk-Agrees zero v.0 pending)
  walk-Agrees (suc room) node (comp ∷ pending) = Agrees-bind _ _ _ _ (visit-Agrees node comp) λ v.
      Agrees-branch v.1
        (Agrees-bind _ _ _ _ (follow-Agrees node v.0)
          λ t. walk-Agrees room t.0 (push_components t.1 pending))
        (walk-Agrees (suc room) v.0 pending)

  resolve-Agrees : (path : Bytes) → Agrees Inv (resolve fs path) (resolve pure_fs path)
  unfolding resolve
  resolve-Agrees path =
      let w = walk-Agrees max_symlinks view.root (push_components path []) in
      record {
        result = λ s i. rw (serves.root_is s i) (w.result s i);
        keeps = λ s i. rw (serves.root_is s i) (w.keeps s i);
      }

  read_loop-Agrees :
      (fuel : ℕ) (node : NodeId) (total : ℕ) (out : Bytes)
      → Agrees Inv (read_loop fs fuel node total out) (read_loop pure_fs fuel node total out)
  unfolding read_loop
  read_loop-Agrees zero node total out = Agrees-pure out
  read_loop-Agrees (suc fuel) node total out =
      Agrees-branch (ltb (length out) total)
        (Agrees-bind _ _ _ _ (read_at-Agrees node (length out) (total - length out)) λ chunk.
          Agrees-chunk chunk (Agrees-pure out)
            λ b bs. read_loop-Agrees fuel node total (out ++ (b ∷ bs)))
        (Agrees-pure out)

  read_path-Agrees : (path : Bytes) → Agrees Inv (read_path fs path) (read_path pure_fs path)
  unfolding read_path
  read_path-Agrees path = Agrees-bind _ _ _ _ (resolve-Agrees path) λ node.
      Agrees-bind _ _ _ _ (metadata-Agrees node) λ md.
        Agrees-branch (is_dir md.kind) (Agrees-lift _) (
          Agrees-bind _ _ _ _ (Agrees-lift (checked_full_read_len usize_end md.size))
            λ total. read_loop-Agrees total node total [])

  -- The four operations by path, over any frontend that serves a view: the result is that of the
  -- view, whatever the state, and the state stays one that serves it.
  pub by_path-Agrees :
      (path : Bytes)
      → Agrees Inv (resolve fs path) (resolve (of_view view) path)
        × Agrees Inv (read_path fs path) (read_path (of_view view) path)
        × Agrees Inv (read_dir_path fs path) (read_dir_path (of_view view) path)
        × Agrees Inv (metadata_path fs path) (metadata_path (of_view view) path)
  unfolding read_dir_path metadata_path
  by_path-Agrees path = (
    resolve-Agrees path,
    read_path-Agrees path,
    Agrees-bind _ _ _ _ (resolve-Agrees path) read_dir-Agrees,
    Agrees-bind _ _ _ _ (resolve-Agrees path) metadata-Agrees,
  )
