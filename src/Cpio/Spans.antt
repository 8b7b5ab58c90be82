-- ===== src/Cpio/Spans.antt =====
-- The spans in the nodes of crates/lamfold-cpio/src/cpio.rs, and the results of steps that may panic.
use lamfold.Prelude.{
  ℕ, zero, suc, ◌+◌, ◌≤◌, Bool, true, false, not, ◌&&◌, Bytes, List, [], ◌∷◌, ◌++◌, length,
  get_elem?, set, Option, none, some, ◌≡◌, inl, inr, ◌⊎◌, option-eq-some, option-split, if-split,
  some-injective, subst, ◌∙◌, refl, get_elem?-append_lt, get_elem?_inbounds,
}
use lamfold.Prelude.TreeMap
use lamfold.Prelude.Order.{bytes_ord}
use lamfold.Error.{FoldError, Result, ok, err}
use lamfold.Frontend.{FileKind, NodeId}
use lamfold.Path.{is_dir}
use lamfold.Cpio.Tree.{Node, Span, no_span, is_last, fill, new_node, enter, insert_at}

-- A step that does not panic, and that gives what `P` says, if it succeeds.
abbrev pub Outcome {ℓ} : {A : Type ℓ} → (A → Type 0) → Option (Result A) → Type 0
Outcome P none = ⊥
Outcome P (some (err why)) = Unit
Outcome P (some (ok a)) = P a

pub Outcome-mono {ℓ} :
    {A : Type ℓ} (P Q : A → Type 0) (r : Option (Result A))
    → ((a : A) → P a → Q a)
    → Outcome P r
    → Outcome Q r
Outcome-mono P Q none f o = o
Outcome-mono P Q (some (err why)) f o = tt
Outcome-mono P Q (some (ok a)) f o = f a o

-- A step that has an outcome fails or succeeds.
pub Outcome-cases {ℓ} :
    {A : Type ℓ} (P : A → Type 0) (r : Option (Result A))
    → Outcome P r
    → ((why : FoldError) × (r ≡ some (err why))) ⊎ ((a : A) × (r ≡ some (ok a)) × P a)
Outcome-cases P none o = absurd o
Outcome-cases P (some (err why)) o = inl (why, refl)
Outcome-cases P (some (ok a)) o = inr (a, refl, o)

abbrev pub InBuffers : List Bytes → Span → Type 0
InBuffers buffers span =
    (b : Bytes) × (get_elem? buffers span.buf ≡ some b) × (span.off + span.len ≤ length b)

pub InBuffers-append :
    (buffers : List Bytes) (out : Bytes) (span : Span)
    → InBuffers buffers span
    → InBuffers (buffers ++ out ∷ []) span
InBuffers-append buffers out span (b, at, le) = (
  b,
  get_elem?-append_lt buffers (out ∷ []) span.buf (get_elem?_inbounds buffers span.buf at) ∙ at,
  le,
)

abbrev pub All : (Span → Type 0) → List Node → Type 0
All P [] = Unit
All P (node ∷ nodes) = P node.data_ × All P nodes

pub All-mono :
    (P Q : Span → Type 0) (nodes : List Node) → ((s : Span) → P s → Q s) → All P nodes → All Q nodes
All-mono P Q [] f all = tt
All-mono P Q (node ∷ nodes) f (p, all) = (f node.data_ p, All-mono P Q nodes f all)

module _ (P : Span → Type 0) where
  pub All-get_elem? :
      (nodes : List Node) (k : NodeId) {node : Node}
      → All P nodes
      → get_elem? nodes k ≡ some node
      → P node.data_
  unfolding get_elem?
  All-get_elem? [] k all h = absurd (cc)
  All-get_elem? (x ∷ nodes) zero {node} (p, all) h =
      subst (λ (n : Node). P n.data_) (some-injective h) p
  All-get_elem? (x ∷ nodes) (suc k) (p, all) h = All-get_elem? nodes k all h

  All-set :
      (nodes : List Node) (k : NodeId) (node : Node)
      → All P nodes
      → P node.data_
      → All P (set nodes k node)
  unfolding set
  All-set [] k node all p = tt
  All-set (x ∷ nodes) zero node (q, all) p = (p, all)
  All-set (x ∷ nodes) (suc k) node (q, all) p = (q, All-set nodes k node all p)

  All-append :
      (nodes : List Node) (node : Node) → All P nodes → P node.data_ → All P (nodes ++ node ∷ [])
  All-append [] node all p = (p, tt)
  All-append (x ∷ nodes) node (q, all) p = (q, All-append nodes node all p)

  module _ (kind : FileKind) (mode : ℕ) (data_ : Span) (blank : P no_span) (given : P data_) where
    new_node-All : (last : Bool) → P (new_node last kind mode data_).data_
    unfolding new_node
    new_node-All true = given
    new_node-All false = blank

    enter-All :
        (nodes end : List Node) (k : NodeId) (last : Bool)
        → All P nodes
        → enter nodes k last kind mode data_ ≡ some end
        → All P end
    unfolding enter fill
    enter-All nodes end k last all h = elim (if-split (last && not (is_dir kind)) _ _ h) [
      | inr (_, same) ↦ subst (All P) (some-injective same) all
      | inl (_, h1) ↦
          let (node, _, filled) = option-eq-some (get_elem? nodes k) _ h1 in
          subst (All P) (some-injective filled)
            (All-set nodes k (fill kind mode data_ node) all given)
    ]

    pub insert_at-All :
        (nodes end : List Node) (cur : NodeId) (comps : List Bytes)
        → All P nodes
        → insert_at nodes cur comps kind mode data_ ≡ some end
        → All P end
    unfolding insert_at
    insert_at-All nodes end cur [] all h = subst (All P) (some-injective h) all
    insert_at-All nodes end cur (comp ∷ comps) all h =
        let (node, at, h1) = option-eq-some (get_elem? nodes cur) _ h in
        elim (option-split (TreeMap.lookup comp node.children) _ _ h1) [
          | inr (existing, _, h2) ↦
              let (mid, entered, h3) =
                option-eq-some (enter nodes existing (is_last comps) kind mode data_) _ h2 in
              insert_at-All mid end existing comps
                (enter-All nodes mid existing (is_last comps) all entered) h3
          | inl (_, h2) ↦
              let new = new_node (is_last comps) kind mode data_ in
              let here = record node {
                children = TreeMap.insert comp (length nodes) node.children;
              } in
              let kept = All-get_elem? nodes cur all at in
              let joined = All-append nodes new all (new_node-All (is_last comps)) in
              insert_at-All (set (nodes ++ new ∷ []) cur here) end (length nodes) comps
                (All-set (nodes ++ new ∷ []) cur here joined kept) h2
        ]
