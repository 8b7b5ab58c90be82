-- ===== src/Path/Components.antt =====
-- `push_components` of crates/lamfold/src/path.rs, against paths put together from names.
use lamfold.Prelude.{
  ℕ, true, false, ◌==◌, Bytes, List, [], ◌∷◌, ◌++◌, ◌≡◌, refl, ap, arith, inl, inr, Bool-cases,
}
use lamfold.Path.{onto_head, split, is_component, components_of, push_components}

abbrev pub NoSlash : Bytes → Type 0
NoSlash [] = Unit
NoSlash (c ∷ cs) = ((c == b'/') ≡ false) × NoSlash cs

-- What can stand between two slashes and counts: not empty, not ".", and no slash.
abbrev pub IsName : Bytes → Type 0
IsName n = NoSlash n × (is_component n ≡ true)

abbrev pub AllNames : List Bytes → Type 0
AllNames [] = Unit
AllNames (n ∷ ns) = IsName n × AllNames ns

-- The absolute path of a list of names.
abbrev pub path_of : List Bytes → Bytes
path_of [] = []
path_of (n ∷ ns) = b'/' ∷ (n ++ path_of ns)

split-append :
    (n p : Bytes) (t : List Bytes) → NoSlash n → split p ≡ [] ∷ t → split (n ++ p) ≡ n ∷ t
unfolding split
split-append [] p t h e = e
split-append (c ∷ n) p t h e = ground (arith, split-append n p t h.1 e)

split_slash :
    (n p : Bytes) (t : List Bytes)
    → NoSlash n
    → split p ≡ [] ∷ t
    → split (b'/' ∷ (n ++ p)) ≡ [] ∷ n ∷ t
split_slash n p t h e = let rest = split-append n p t h e in unfold split in ground (arith, rest)

split-path_of : (ns : List Bytes) → AllNames ns → split (path_of ns) ≡ [] ∷ ns
split-path_of [] h = unfold split in refl
split-path_of (n ∷ ns) h = split_slash n (path_of ns) ns h.0.0 (split-path_of ns h.1)

components_of_names : (ns : List Bytes) → AllNames ns → components_of ns ≡ ns
unfolding components_of
components_of_names [] h = refl
components_of_names (n ∷ ns) h = ground (arith, components_of_names ns h.1)

-- The components of the path of a list of names are the names, in order, above what was pending.
pub push_components-path_of :
    (ns stack : List Bytes) → AllNames ns → push_components (path_of ns) stack ≡ ns ++ stack
unfolding push_components
push_components-path_of ns stack h =
    rw (split-path_of ns h) (ap (λ cs. cs ++ stack) (components_of_names ns h))

abbrev AllNoSlash : List Bytes → Type 0
AllNoSlash [] = Unit
AllNoSlash (n ∷ ns) = NoSlash n × AllNoSlash ns

onto_head-NoSlash :
    (c : ℕ) (ns : List Bytes) → (c == b'/') ≡ false → AllNoSlash ns → AllNoSlash (onto_head c ns)
onto_head-NoSlash c [] h a = ((h, tt), tt)
onto_head-NoSlash c (n ∷ ns) h a = ((h, a.0), a.1)

split-NoSlash : (p : Bytes) → AllNoSlash (split p)
unfolding split
split-NoSlash [] = (tt, tt)
split-NoSlash (c ∷ cs) = elim (Bool-cases (c == b'/')) [
  | inl slash ↦ rw slash (tt, split-NoSlash cs)
  | inr plain ↦ rw plain (onto_head-NoSlash c (split cs) plain (split-NoSlash cs))
]

components_of-AllNames : (ns : List Bytes) → AllNoSlash ns → AllNames (components_of ns)
unfolding components_of
components_of-AllNames [] h = tt
components_of-AllNames (n ∷ ns) h = elim (Bool-cases (is_component n)) [
  | inl name ↦ rw name ((h.0, name), components_of-AllNames ns h.1)
  | inr skipped ↦ rw skipped (components_of-AllNames ns h.1)
]

-- Whatever the path, only names are pushed: none is empty, is "." or holds a slash.
pub push_components-AllNames :
    (path : Bytes) (rest : List Bytes)
    → (cs : List Bytes) × (push_components path rest ≡ cs ++ rest) × AllNames cs
unfolding push_components
push_components-AllNames path rest =
    (components_of (split path), refl, components_of-AllNames (split path) (split-NoSlash path))
