-- ===== src/Cpio/Grown.antt =====
-- What folding archives into the tree of crates/lamfold-cpio/src/cpio.rs keeps and adds.
use lamfold.Prelude.{
  ℕ, ◌+◌, ◌%◌, ◌≤◌, ◌<◌, ◌&&◌, ltb, Bytes, List, [], ◌∷◌, length, Option, none, some, arith,
  Bool-cases, inl, inr,
}
use lamfold.Prelude.TreeMap
use lamfold.Prelude.TreeMap.{TreeMap}
use lamfold.Prelude.Order.{bytes_ord}
use lamfold.Error.{Result, ok, err, Result-cases}
use lamfold.Utf8.{is_utf8}
use lamfold.Path.{components_of, split}
use lamfold.Cpio.Record.{Record, file_kind}
use lamfold.Cpio.Tree.{Node, Span, no_span, insert}
use lamfold.Cpio.Tree.Shape.{IsTree}
use lamfold.Cpio.Tree.Insert.{insert-Inserts}
use lamfold.Cpio.Archive.{
  name_of, records_from, has_links, link_data, or_else, is_regular, data_of, span_of,
  insert_records, with_end, insert_newc_archive,
}
use lamfold.Cpio.Spans.{Outcome, All, insert_at-All}
use lamfold.Cpio.Fits.{Fit, AllFit, LinksFit, records_from-Listed}

LinksFit-insert :
    (size : ℕ) (k : List ℕ) (d : ℕ × ℕ) (m : TreeMap (List ℕ) (ℕ × ℕ))
    → Fit size d
    → LinksFit size m
    → LinksFit size (TreeMap.insert k d m)
unfolding TreeMap.insert
LinksFit-insert size k d [] fit fits = (fit, tt)
LinksFit-insert size k d ((j, e) ∷ m) fit (f, fits) =
    ground (arith, LinksFit-insert size k d m fit fits)

LinksFit-lookup :
    (size : ℕ) (k : List ℕ) (m : TreeMap (List ℕ) (ℕ × ℕ)) (d : ℕ × ℕ)
    → LinksFit size m
    → Fit size d
    → Fit size (or_else (TreeMap.lookup k m) d)
unfolding TreeMap.lookup
LinksFit-lookup size k [] d fits fit = fit
LinksFit-lookup size k ((j, e) ∷ m) d (f, fits) fit = elim (Bool-cases (TreeMap.same k j)) [
  | inl hit ↦ rw hit f
  | inr miss ↦ rw miss (LinksFit-lookup size k m d fits fit)
]

link_data-LinksFit :
    (size : ℕ) (m : TreeMap (List ℕ) (ℕ × ℕ)) (records : List Record)
    → LinksFit size m
    → AllFit size records
    → LinksFit size (link_data m records)
unfolding link_data
link_data-LinksFit size m [] fits all = fits
link_data-LinksFit size m (r ∷ records) fits (fit, all) =
    elim (Bool-cases (has_links r && ltb 0 r.data_.1)) [
      | inl yes_ ↦ rw yes_ (
          link_data-LinksFit size (TreeMap.insert r.inode r.data_ m) records
            (LinksFit-insert size r.inode r.data_ m fit fits) all)
      | inr no_ ↦ rw no_ (link_data-LinksFit size m records fits all)
    ]

data_of-Fit :
    (size : ℕ) (m : TreeMap (List ℕ) (ℕ × ℕ)) (r : Record)
    → LinksFit size m
    → Fit size r.data_
    → Fit size (data_of m r)
unfolding data_of
data_of-Fit size m r fits fit = elim (Bool-cases (is_regular (file_kind r.mode) && ltb 1 r.nlink)) [
  | inl yes_ ↦ rw yes_ (LinksFit-lookup size r.inode m r.data_ fits fit)
  | inr no_ ↦ rw no_ fit
]

-- A tree whose spans satisfy `P`.
abbrev pub Sound : (Span → Type 0) → List Node → Type 0
Sound P nodes = IsTree nodes × All P nodes

-- An archive's nodes, and an end behind its start.
abbrev pub Folded : (Span → Type 0) → ℕ → List Node × ℕ → Type 0
Folded P start (nodes, end) = Sound P nodes × (start < end)

module _ (P : Span → Type 0) (blank : P no_span) (archive : Bytes) (idx : ℕ)
    (inside : (off len : ℕ)
      → off + len ≤ length archive
      → P (record { buf = idx; off = off; len = len })) where
  insert_records-Outcome :
      (linked : TreeMap (List ℕ) (ℕ × ℕ)) (nodes : List Node) (records : List Record)
      → LinksFit (length archive) linked
      → AllFit (length archive) records
      → Sound P nodes
      → Outcome (Sound P) (insert_records archive idx linked nodes records)
  unfolding insert_records insert
  insert_records-Outcome linked nodes [] links fits sound = sound
  insert_records-Outcome linked nodes (r ∷ records) links (fit, fits) (tree, all) =
      let kind = file_kind r.mode in
      let span = span_of idx linked r in
      let comps = components_of (split (name_of archive r)) in
      let (end, ran, inserted) =
        insert-Inserts kind (r.mode % 4096) span nodes (name_of archive r) tree in
      let given =
        inside (data_of linked r).0 (data_of linked r).1
          (data_of-Fit (length archive) linked r links fit) in
      let spans = insert_at-All P kind (r.mode % 4096) span blank given nodes end 0 comps all ran in
      let rest = insert_records-Outcome linked end records links fits (inserted.tree, spans) in
      elim (Bool-cases (is_utf8 (name_of archive r))) [
        | inr bad ↦ rw (bad, Outcome, insert_records) tt
        | inl good ↦ rw (good, Outcome, insert_records, ran) rest
      ]

  with_end-Outcome :
      (start end : ℕ) (result : Option (Result (List Node)))
      → start < end
      → Outcome (Sound P) result
      → Outcome (Folded P start) (with_end end result)
  with_end-Outcome start end none behind o = o
  with_end-Outcome start end (some (err why)) behind o = tt
  with_end-Outcome start end (some (ok nodes)) behind o = (o, behind)

  pub insert_newc_archive-Outcome :
      (nodes : List Node) (start : ℕ)
      → Sound P nodes
      → Outcome (Folded P start) (insert_newc_archive archive idx nodes start)
  unfolding insert_newc_archive
  insert_newc_archive-Outcome nodes start sound =
      elim (Result-cases (records_from (length archive + 1) archive start)) [
        | inr (why, e) ↦ rw (e, Outcome, insert_newc_archive) tt
        | inl ((records, end), e) ↦
            let (fits, behind) = records_from-Listed (length archive + 1) archive start e in
            let links = link_data-LinksFit (length archive) [] records tt fits in
            let folded =
              insert_records-Outcome (link_data [] records) nodes records links fits sound in
            rw (e, Outcome, insert_newc_archive)
              (with_end-Outcome start end
                (insert_records archive idx (link_data [] records) nodes records) behind folded)
      ]
