-- ===== src/Cpio/Tree/Shape.antt =====
-- The nodes of crates/lamfold-cpio/src/cpio.rs form a tree: a child stands behind its parent.
use lamfold.Prelude.{
  ℕ, zero, suc, ◌+◌, ◌≤◌, ◌<◌, Bytes, List, [], ◌∷◌, ◌++◌, length, get_elem?, set, some, ◌≡◌, sym,
  arith,
}
use lamfold.Prelude.TreeMap
use lamfold.Prelude.TreeMap.{TreeMap}
use lamfold.Prelude.Order.{bytes_ord}
use lamfold.Frontend.{NodeId}
use lamfold.Cpio.Tree.{Node}

-- The children of node `i` among `n` nodes.
abbrev pub Behind : ℕ → ℕ → TreeMap Bytes NodeId → Type 0
Behind i n [] = Unit
Behind i n ((c, j) ∷ m) = (i < j) × (j < n) × Behind i n m

abbrev pub NodeOk : ℕ → ℕ → Node → Type 0
NodeOk i n node = Behind i n node.children × TreeMap.IsSorted node.children

abbrev pub AllFrom : ℕ → ℕ → List Node → Type 0
AllFrom i n [] = Unit
AllFrom i n (node ∷ nodes) = NodeOk i n node × AllFrom (suc i) n nodes

-- A root, every child behind its parent and within the nodes, every directory in key order.
abbrev pub IsTree : List Node → Type 0
IsTree nodes = (0 < length nodes) × AllFrom 0 (length nodes) nodes

Behind-mono : (i n k : ℕ) (m : TreeMap Bytes NodeId) → n ≤ k → Behind i n m → Behind i k m
Behind-mono i n k [] le h = tt
Behind-mono i n k ((c, j) ∷ m) le (lo, hi, h) = (lo, omega arith, Behind-mono i n k m le h)

pub Behind-lookup :
    (i n j : ℕ) (c : Bytes) (m : TreeMap Bytes NodeId)
    → Behind i n m
    → TreeMap.lookup c m ≡ some j
    → (i < j) × (j < n)
unfolding TreeMap.lookup
Behind-lookup i n j c [] h e = absurd (cc)
Behind-lookup i n j c ((d, k) ∷ m) (lo, hi, h) e = ground (arith, Behind-lookup i n j c m h)

pub Behind-insert :
    (i n j : ℕ) (c : Bytes) (m : TreeMap Bytes NodeId)
    → Behind i n m
    → i < j
    → j < n
    → Behind i n (TreeMap.insert c j m)
unfolding TreeMap.insert
Behind-insert i n j c [] h lo hi = (lo, hi, tt)
Behind-insert i n j c ((d, k) ∷ m) (a, b, h) lo hi = ground (arith, Behind-insert i n j c m h lo hi)

pub AllFrom-mono : (i n k : ℕ) (nodes : List Node) → n ≤ k → AllFrom i n nodes → AllFrom i k nodes
AllFrom-mono i n k [] le h = tt
AllFrom-mono i n k (node ∷ nodes) le ((b, s), h) =
    ((Behind-mono i n k node.children le b, s), AllFrom-mono (suc i) n k nodes le h)

pub AllFrom-append :
    (i n k : ℕ) (nodes : List Node) (node : Node)
    → k ≡ i + length nodes
    → AllFrom i n nodes
    → NodeOk k n node
    → AllFrom i n (nodes ++ node ∷ [])
AllFrom-append i n k [] node e h ok_ = let same : k ≡ i = omega arith in rw (sym same) (ok_, tt)
AllFrom-append i n k (x ∷ nodes) node e (g, h) ok_ =
    (g, AllFrom-append (suc i) n k nodes node (omega arith) h ok_)

pub AllFrom-get_elem? :
    (i n k j : ℕ) (nodes : List Node) {node : Node}
    → k ≡ i + j
    → AllFrom i n nodes
    → get_elem? nodes j ≡ some node
    → NodeOk k n node
unfolding get_elem?
AllFrom-get_elem? i n k j [] e h found = absurd (cc)
AllFrom-get_elem? i n k zero (x ∷ nodes) {node} e (g, h) found =
    let at : k ≡ i = omega arith in let same : x ≡ node = cc in rw (at, sym same) g
AllFrom-get_elem? i n k (suc j) (x ∷ nodes) e (g, h) found =
    AllFrom-get_elem? (suc i) n k j nodes (omega arith) h found

pub AllFrom-set :
    (i n k j : ℕ) (nodes : List Node) (node : Node)
    → k ≡ i + j
    → AllFrom i n nodes
    → NodeOk k n node
    → AllFrom i n (set nodes j node)
unfolding set
AllFrom-set i n k j [] node e h ok_ = tt
AllFrom-set i n k zero (x ∷ nodes) node e (g, h) ok_ =
    let at : i ≡ k = omega arith in (rw at ok_, h)
AllFrom-set i n k (suc j) (x ∷ nodes) node e (g, h) ok_ =
    (g, AllFrom-set (suc i) n k j nodes node (omega arith) h ok_)
