-- ===== src/Iso9660/Areas.antt =====
-- Rock Ridge entries spread over continuation areas, for `parse_rock_ridge` of
-- crates/lamfold-iso/src/iso9660.rs.
use lamfold.Prelude.{
  ℕ, zero, suc, ◌+◌, ◌*◌, ◌≤◌, true, false, not, ltb, leb, ◌==◌, le→leb, Bytes, List, [], ◌∷◌, ◌++◌,
  Option, none, some, ◌≡◌, refl, sym, ap, ◌∙◌, arith, if◌then◌else◌, ◌&&◌,
}
use lamfold.Error.{ok, ◌>>=◌}
use lamfold.RockRidge.{RrParser, Continuation, default, feed, finish, is_empty}
use lamfold.RockRidge.Entries.{
  Entry, IsEntries, area_bytes, ends_area, take_entries, feed-take_entries,
}
use lamfold.RockRidge.Names.{any_piece, pieces, finish_name}
use lamfold.Source.{BlockSource}
use lamfold.Utf8.{is_utf8}
use lamfold.Iso9660.Records.{max_continuations, follow, parse_rock_ridge}

-- `su` holds the entries `es`, with the areas that it leads to through the last `CE` entry of each: at most
-- `hops` of them, each no longer than a block and inside the volume.
pub data Areas (src : BlockSource) (block_size : ℕ) : ℕ → Bytes → List Entry → Type 0 where
  last :
      {hops : ℕ} (es : List Entry) (tail : Bytes)
      → IsEntries es
      → ends_area tail ≡ true
      → (take_entries es (default, none)).1 ≡ none
      → Areas src block_size hops (area_bytes es ++ tail) es
  more :
      {hops : ℕ} {area : Bytes} {fs : List Entry} (es : List Entry) (tail : Bytes)
      (ce : Continuation)
      → IsEntries es
      → ends_area tail ≡ true
      → (take_entries es (default, none)).1 ≡ some ce
      → 1 ≤ ce.len
      → ce.len ≤ block_size
      → ce.block * block_size + ce.offset + ce.len ≤ src.len
      → src.read_at (ce.block * block_size + ce.offset) ce.len ≡ ok area
      → Areas src block_size hops area fs
      → Areas src block_size (suc hops) (area_bytes es ++ tail) (es ++ fs)

-- Where the entries lead does not depend on the parser.
take_entries-next :
    (es : List Entry) (p q : RrParser) (next : Option Continuation)
    → (take_entries es (p, next)).1 ≡ (take_entries es (q, next)).1
unfolding take_entries
take_entries-next [] p q next = refl
take_entries-next (e ∷ es) p q next = take_entries-next es _ _ _

-- Nor the parser on where they lead.
take_entries-parser :
    (es : List Entry) (p : RrParser) (a b : Option Continuation)
    → (take_entries es (p, a)).0 ≡ (take_entries es (p, b)).0
unfolding take_entries
take_entries-parser [] p a b = refl
take_entries-parser (e ∷ es) p a b = take_entries-parser es _ _ _

take_entries-append :
    (es fs : List Entry) (s : RrParser × Option Continuation)
    → take_entries (es ++ fs) s ≡ take_entries fs (take_entries es s)
unfolding take_entries
take_entries-append [] fs s = refl
take_entries-append (e ∷ es) fs s = take_entries-append es fs _

module _ (src : BlockSource) (block_size : ℕ) where
  finished : (hops : ℕ) (p : RrParser) → follow src hops block_size p none ≡ ok (finish p)
  unfolding follow
  finished zero p = refl
  finished (suc hops) p = refl

  follow_area :
      (hops : ℕ) (p : RrParser) (ce : Continuation) (area : Bytes)
      → 1 ≤ ce.len
      → ce.len ≤ block_size
      → ce.block * block_size + ce.offset + ce.len ≤ src.len
      → src.read_at (ce.block * block_size + ce.offset) ce.len ≡ ok area
      → follow src (suc hops) block_size p (some ce)
        ≡ follow src hops block_size (feed area p).0 (feed area p).1
  unfolding follow
  follow_area hops p ce area some_ short inside h =
      let nonempty : (ce.len == 0) ≡ false = ground arith in
      let small : ltb block_size ce.len ≡ false = ground arith in
      let at : leb (ce.block * block_size + ce.offset + ce.len) src.len ≡ true =
        le→leb _ _ inside in
      rw (follow, nonempty, small, at, h, ◌>>=◌) refl

  follow-Areas :
      {hops : ℕ} {su : Bytes} {es : List Entry} (p : RrParser)
      → Areas src block_size hops su es
      → follow src hops block_size (feed su p).0 (feed su p).1
        ≡ ok (finish (take_entries es (p, none)).0)
  unfolding follow
  follow-Areas {hops = hops} p (last es tail h e stop) =
      let fed = feed-take_entries es tail p h e in
      let stops = take_entries-next es p default none ∙ stop in
      rw (fed, stops) (finished hops (take_entries es (p, none)).0)
  follow-Areas p
        (more {hops = hops} {area = area} {fs = fs} es tail ce h e goes some_ short inside read
          rest) =
      let fed = feed-take_entries es tail p h e in
      let q = (take_entries es (p, none)).0 in
      let on = take_entries-next es p default none ∙ goes in
      let joined =
        take_entries-parser fs q none (take_entries es (p, none)).1
        ∙ ap (λ s. s.0) (sym (take_entries-append es fs (p, none))) in
      rw (fed, on)
        (follow_area hops q ce area some_ short inside read
          ∙ follow-Areas q rest
          ∙ ap (λ r. ok (finish r)) joined)

  -- The entries of a record that go on in continuation areas, up to sixteen of them, are taken in as if
  -- they stood in one: the name is then their `NM` pieces in order, across all areas.
  pub parse_rock_ridge-Areas :
      (su : Bytes) (es : List Entry)
      → Areas src block_size max_continuations su es
      → (parse_rock_ridge src block_size su ≡ ok (finish (take_entries es (default, none)).0))
        × ((finish (take_entries es (default, none)).0).name ≡ (
            if any_piece es && (is_utf8 (pieces es) && not (is_empty (pieces es)))
            then some (pieces es)
            else none))
  unfolding parse_rock_ridge
  parse_rock_ridge-Areas su es h = (follow-Areas default h, finish_name es)
