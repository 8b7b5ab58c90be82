-- ===== src/Path/Resolve.antt =====
-- `resolve` of crates/lamfold/src/path.rs against a relation on the volume: what it returns is where
-- the path leads, and where the path leads within the link limit it returns.
use lamfold.Prelude.{
  ℕ, zero, suc, Bool, true, false, if◌then◌else◌, Bytes, List, [], ◌∷◌, Option, none, some, ◌≡◌,
  ◌↔◌, refl, sym, ◌∙◌, ap, arith, inl, inr, Bool-cases,
}
use lamfold.Error.{FoldError, Result, ok, err, ok_or, not_found, corrupt}
use lamfold.Exec.{Exec, continue}
use lamfold.Frontend.{NodeId, FoldFrontend, View, Metadata}
use lamfold.Path.{
  is_dotdot, starts_with_slash, is_symlink, push_components, max_symlinks, visit, follow, walk,
  resolve,
}
use lamfold.Path.Pure.{of_view}
use lamfold.Utf8.{is_utf8}

-- `comp` names `child` in the directory `node`; the flag says whether that is a symlink.
pub record Names (v : View) (node : NodeId) (comp : Bytes) (child : NodeId) (link : Bool)
    : Type 0 where
  pub not_parent : is_dotdot comp ≡ false
  pub entry : v.lookup node comp ≡ ok (some child)
  pub md : Metadata
  pub has_md : v.metadata child ≡ ok md
  pub is_link : is_symlink md.kind ≡ link

-- The link `child` of `node` has the target `path`, to be read from `base`.
pub record Targets (v : View) (node child base : NodeId) (path : Bytes) : Type 0 where
  pub has_target : v.read_link child ≡ ok (some path)
  pub is_text : is_utf8 path ≡ true
  pub base_is : base ≡ (if starts_with_slash path then v.root else node)

-- From `node` the components lead to `end` through at most `room` symlinks: a component that is no
-- link is entered, and a link is replaced by the components of its target, read from the root or from
-- the directory that holds the link.
pub data Leads (v : View) : ℕ → NodeId → List Bytes → NodeId → Type 0 where
  here : {room : ℕ} {node : NodeId} → Leads v room node [] node
  enter :
      {room : ℕ} {node child end : NodeId} {comp : Bytes} {rest : List Bytes}
      → Names v node comp child false
      → Leads v room child rest end
      → Leads v room node (comp ∷ rest) end
  through :
      {room : ℕ} {node child base end : NodeId} {comp path : Bytes} {rest : List Bytes}
      → Names v node comp child true
      → Targets v node child base path
      → Leads v room base (push_components path rest) end
      → Leads v (suc room) node (comp ∷ rest) end

pub continue-eq-ok :
    {A B : Type 0} (r : Result A) (f : A → Exec (Unit {0}) B) {b : B}
    → (continue r f tt).0 ≡ ok b
    → (a : A) × (r ≡ ok a) × ((f a tt).0 ≡ ok b)
continue-eq-ok (ok a) f h = (a, refl, h)
continue-eq-ok (err e) f h = absurd (cc)

ok_or-eq-ok : {A : Type 0} (o : Option A) (e : FoldError) {a : A} → ok_or o e ≡ ok a → o ≡ some a
ok_or-eq-ok (some x) e h = cc
ok_or-eq-ok none e h = absurd (cc)

module _ (v : View) where
  abbrev fs : FoldFrontend (Unit {0})
  fs = of_view v

  visit-Names :
      (node : NodeId) (comp : Bytes) (child : NodeId) (link : Bool)
      → (visit fs node comp tt).0 ≡ ok (child, link)
      → Names v node comp child link
  unfolding visit
  visit-Names node comp child link h = elim (Bool-cases (is_dotdot comp)) [
    | inl dd ↦ absurd (ground arith)
    | inr no_dd ↦
        let h' = rw (no_dd, visit) at h in
        let (found, looked, h1) = continue-eq-ok (v.lookup node comp) _ h' in
        let (c, got, h2) = continue-eq-ok (ok_or found not_found) _ h1 in
        let (md, seen, h3) = continue-eq-ok (v.metadata c) _ h2 in
        let is_child : c ≡ child = ground arith in
        record {
          not_parent = no_dd;
          entry = looked ∙ ap ok (ok_or-eq-ok found not_found got ∙ ap some is_child);
          md = md;
          has_md = ap v.metadata (sym is_child) ∙ seen;
          is_link = ground arith;
        }
  ]

  Names-visit :
      (node : NodeId) (comp : Bytes) (child : NodeId) (link : Bool)
      → Names v node comp child link
      → (visit fs node comp tt).0 ≡ ok (child, link)
  unfolding visit
  Names-visit node comp child link n = ground arith

  follow-Targets :
      (node child base : NodeId) (path : Bytes)
      → (follow fs node child tt).0 ≡ ok (base, path)
      → Targets v node child base path
  unfolding follow
  follow-Targets node child base path h =
      let (link, read, h1) = continue-eq-ok (v.read_link child) _ h in
      let (target, got, h2) =
        continue-eq-ok (ok_or link (corrupt "symlink without a target")) _ h1 in
      let text : is_utf8 target ≡ true = ground arith in
      let is_path : target ≡ path = ground arith in
      record {
        has_target =
            read
            ∙ ap ok (ok_or-eq-ok link (corrupt "symlink without a target") got ∙ ap some is_path);
        is_text = ap is_utf8 (sym is_path) ∙ text;
        base_is = ground arith;
      }

  Targets-follow :
      (node child base : NodeId) (path : Bytes)
      → Targets v node child base path
      → (follow fs node child tt).0 ≡ ok (base, path)
  unfolding follow
  Targets-follow node child base path t = ground arith

  walk-comp :
      (room : ℕ) (node child : NodeId) (comp : Bytes) (rest : List Bytes)
      → Names v node comp child false
      → walk fs room node (comp ∷ rest) tt ≡ walk fs room child rest tt
  unfolding walk
  walk-comp zero node child comp rest n = rw (Names-visit node comp child false n)
  walk-comp (suc room) node child comp rest n = rw (Names-visit node comp child false n)

  walk_link :
      (room : ℕ) (node child base : NodeId) (comp path : Bytes) (rest : List Bytes)
      → Names v node comp child true
      → Targets v node child base path
      → walk fs (suc room) node (comp ∷ rest) tt ≡ walk fs room base (push_components path rest) tt
  unfolding walk
  walk_link room node child base comp path rest n t =
      rw (Names-visit node comp child true n, Targets-follow node child base path t)

  Leads-walk :
      {room : ℕ} {node end : NodeId} {pending : List Bytes}
      → Leads v room node pending end
      → (walk fs room node pending tt).0 ≡ ok end
  Leads-walk here = unfold walk in refl
  Leads-walk (enter {room} {node} {child} {end} {comp} {rest} n l) =
      ap (λ r. r.0) (walk-comp room node child comp rest n) ∙ Leads-walk l
  Leads-walk (through {room} {node} {child} {base} {end} {comp} {path} {rest} n t l) =
      ap (λ r. r.0) (walk_link room node child base comp path rest n t) ∙ Leads-walk l

  abbrev branch : Bool → Exec (Unit {0}) NodeId → Exec (Unit {0}) NodeId → Exec (Unit {0}) NodeId
  branch link m n = elim link [ true ↦ m | false ↦ n ]

  enter-branch :
      (room : ℕ) (node child end : NodeId) (comp : Bytes) (rest : List Bytes) (link : Bool)
      (m : Exec (Unit {0}) NodeId)
      → (visit fs node comp tt).0 ≡ ok (child, link)
      → (branch link m (walk fs room child rest) tt).0 ≡ ok end
      → ((m tt).0 ≡ ok end → Names v node comp child true → Leads v room node (comp ∷ rest) end)
      → ((walk fs room child rest tt).0 ≡ ok end → Leads v room child rest end)
      → Leads v room node (comp ∷ rest) end
  enter-branch room node child end comp rest true m named h linked entered =
      linked h (visit-Names node comp child true named)
  enter-branch room node child end comp rest false m named h linked entered =
      enter (visit-Names node comp child false named) (entered h)

  walk-Leads :
      (room : ℕ) (node end : NodeId) (pending : List Bytes)
      → (walk fs room node pending tt).0 ≡ ok end
      → Leads v room node pending end
  unfolding walk
  walk-Leads room node end [] h = let e : node ≡ end = ground arith in rw e here
  walk-Leads zero node end (comp ∷ rest) h =
      let ((child, link), named, h1) = continue-eq-ok (visit fs node comp tt).0 _ h in
      enter-branch zero node child end comp rest link _ named h1 (λ bad _. absurd (cc))
        (walk-Leads zero child end rest)
  walk-Leads (suc room) node end (comp ∷ rest) h =
      let ((child, link), named, h1) = continue-eq-ok (visit fs node comp tt).0 _ h in
      enter-branch (suc room) node child end comp rest link _ named h1
        (λ followed n.
          let ((base, path), target, h2) = continue-eq-ok (follow fs node child tt).0 _ followed in
          through n (follow-Targets node child base path target)
            (walk-Leads room base end (push_components path rest) h2))
        (walk-Leads (suc room) child end rest)

  -- `resolve` returns a node exactly when the path leads to it from the root through at most
  -- `MAX_SYMLINKS` symlinks; so a path that takes more links, a loop among them, is refused.
  pub resolve_iff :
      (path : Bytes) (end : NodeId)
      → ((resolve fs path tt).0 ≡ ok end)
        ↔ Leads v max_symlinks v.root (push_components path []) end
  unfolding resolve
  resolve_iff path end = (walk-Leads max_symlinks v.root end (push_components path []), Leads-walk)

  -- What a path leads to is one node.
  pub Leads-unique :
      (room : ℕ) (node a b : NodeId) (pending : List Bytes)
      → Leads v room node pending a
      → Leads v room node pending b
      → a ≡ b
  Leads-unique room node a b pending l m =
      let la = Leads-walk l in let lb = Leads-walk m in cc (la, lb)
