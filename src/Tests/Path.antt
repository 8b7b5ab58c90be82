-- ===== src/Tests/Path.antt =====
-- Paths over the tree that the source's own tests build (crates/lamfold/src/path.rs).
use lamfold.Prelude.{
  ℕ, ◌+◌, ◌-◌, ◌^◌, ◌≤◌, min, if◌then◌else◌, ◌==◌, Bytes, List, [], ◌∷◌, ◌++◌, take, drop, bytes_eq,
  Option, some, none, ◌≡◌, ◌↔◌, refl, arith,
}
use lamfold.Error.{ok, err, not_found, invalid_path, is_directory}
use lamfold.Frontend.{NodeId, regular, directory, symlink, Metadata, FoldFrontend, View, Serves}
use lamfold.Path.{max_symlinks, push_components, is_component, resolve, read_path}
use lamfold.Path.Components.{path_of, AllNames, push_components-path_of, push_components-AllNames}
use lamfold.Path.Pure.{of_view}
use lamfold.Path.Served.{LeadsTo, Answers, StaysServing, by_path_iff}
use lamfold.Path.Read.{Holds, read_path-content}
use lamfold.Path.Resolve.{Leads, here, resolve_iff}
use lamfold.ReadCap.{checked_full_read_len, max_boot_file_bytes}
use lamfold.ReadCap.Bounds.{checked_full_read_len_iff}

abbrev a_name : Bytes
a_name = b'a' ∷ []

abbrev file_name : Bytes
file_name = b'f' ∷ b'i' ∷ b'l' ∷ b'e' ∷ []

abbrev rel_name : Bytes
rel_name = b'r' ∷ b'e' ∷ b'l' ∷ []

abbrev abs_name : Bytes
abs_name = b'a' ∷ b'b' ∷ b's' ∷ []

abbrev loop_name : Bytes
loop_name = b'l' ∷ b'o' ∷ b'o' ∷ b'p' ∷ []

abbrev hello : Bytes
hello = b'h' ∷ b'e' ∷ b'l' ∷ b'l' ∷ b'o' ∷ []

abbrev file_path : Bytes
file_path = b'/' ∷ (a_name ++ b'/' ∷ file_name)

mock_lookup : NodeId → Bytes → Option NodeId
unfolding bytes_eq
mock_lookup dir name =
    if dir == 0
    then if bytes_eq name a_name
      then some 1
      else if bytes_eq name rel_name
      then some 3
      else if bytes_eq name abs_name
      then some 4
      else if bytes_eq name loop_name
      then some 5
      else none
    else if dir == 1
    then if bytes_eq name file_name then some 2 else none
    else none

mock_metadata : NodeId → Metadata
mock_metadata n =
    if n == 2
    then record { kind = regular; size = 5; mode = 0 }
    else if n == 0
    then record { kind = directory; size = 0; mode = 0 }
    else if n == 1
    then record { kind = directory; size = 0; mode = 0 }
    else record { kind = symlink; size = 0; mode = 0 }

mock_link : NodeId → Option Bytes
mock_link n =
    if n == 3
    then some (a_name ++ b'/' ∷ file_name)
    else if n == 4
    then some file_path
    else if n == 5
    then some loop_name
    else none

-- Reads of at most two bytes at a time.
mock_read : ℕ → ℕ → Bytes
unfolding take drop
mock_read off want = take (min (min 2 want) (5 - off)) (drop off hello)

abbrev mock : View
mock = record {
  root = 0;
  lookup = λ n c. ok (mock_lookup n c);
  read_dir = λ n. ok [];
  metadata = λ n. ok (mock_metadata n);
  read_at = λ n off want. ok (mock_read off want);
  read_link = λ n. ok (mock_link n);
}

program : Unit {0}
unfolding mock_lookup mock_metadata mock_link mock_read resolve read_path
program = tt

reads :
    ((read_path (of_view mock) file_path tt).0 ≡ ok hello)
    × ((read_path (of_view mock) (b'/' ∷ b'.' ∷ file_path) tt).0 ≡ ok hello)
    × ((read_path (of_view mock) rel_name tt).0 ≡ ok hello)
    × ((read_path (of_view mock) (b'/' ∷ abs_name) tt).0 ≡ ok hello)
unfolding program
reads = (refl, refl, refl, refl)

refusals :
    ((read_path (of_view mock) loop_name tt).0 ≡ err (invalid_path "too many symlinks"))
    × ((resolve (of_view mock) (b'a' ∷ b'/' ∷ b'.' ∷ b'.' ∷ []) tt).0
        ≡ err (invalid_path "'..' not supported"))
    × ((read_path (of_view mock) (b'x' ∷ []) tt).0 ≡ err not_found)
    × ((read_path (of_view mock) a_name tt).0 ≡ err is_directory)
unfolding program
refusals = (refl, refl, refl, refl)

checked_full_read_len_iff_example :
    (checked_full_read_len (2 ^ 32) 1024 ≡ ok 1024) ↔ (1024 ≤ max_boot_file_bytes)
checked_full_read_len_iff_example = checked_full_read_len_iff (2 ^ 32) 1024 (omega arith)

names-AllNames : AllNames (a_name ∷ file_name ∷ [])
unfolding is_component
names-AllNames = (((refl, tt), refl), (((refl, (refl, (refl, (refl, tt)))), refl), tt))

push_components-path_of_example :
    push_components (path_of (a_name ∷ file_name ∷ [])) (rel_name ∷ [])
    ≡ (a_name ∷ file_name ∷ []) ++ (rel_name ∷ [])
push_components-path_of_example =
    push_components-path_of (a_name ∷ file_name ∷ []) (rel_name ∷ []) names-AllNames

push_components-AllNames_example :
    (cs : List Bytes) × (push_components file_path [] ≡ cs ++ []) × AllNames cs
push_components-AllNames_example = push_components-AllNames file_path []

resolve_iff_example :
    ((resolve (of_view mock) rel_name tt).0 ≡ ok 2)
    ↔ Leads mock max_symlinks 0 (push_components rel_name []) 2
resolve_iff_example = resolve_iff mock rel_name 2

-- A frontend with a state: it counts its calls, and answers as the tree does.
abbrev counted {ℓ} : {A : Type ℓ} → A → ℕ → A × ℕ
counted a s = (a, s + 1)

abbrev counting : FoldFrontend ℕ
counting = record {
  root = λ s. 0;
  lookup = λ n c s. counted (mock.lookup n c) s;
  read_dir = λ n s. counted (mock.read_dir n) s;
  metadata = λ n s. counted (mock.metadata n) s;
  read_at = λ n off want s. counted (mock.read_at n off want) s;
  read_link = λ n s. counted (mock.read_link n) s;
}

counting-Serves : Serves counting mock (λ s. 1 ≤ s)
counting-Serves = record {
  root_is = λ s i. refl;
  lookup_is = λ n c s i. refl;
  lookup_keeps = λ n c s i. omega arith;
  read_dir_is = λ n s i. refl;
  read_dir_keeps = λ n s i. omega arith;
  metadata_is = λ n s i. refl;
  metadata_keeps = λ n s i. omega arith;
  read_at_is = λ n off want s i. refl;
  read_at_keeps = λ n off want s i. omega arith;
  read_link_is = λ n s i. refl;
  read_link_keeps = λ n s i. omega arith;
}

-- The path "/" leads to the root, which is a directory.
root_LeadsTo : LeadsTo mock (b'/' ∷ []) 0
unfolding push_components is_component
root_LeadsTo = here

root_is_dir : mock.metadata 0 ≡ ok (record { kind = directory; size = 0; mode = 0 })
unfolding program
root_is_dir = refl

by_path_iff_example :
    Answers counting mock
      (λ s. 1 ≤ s)
      counting-Serves
      1
      file_path
      2
      (record { kind = regular; size = 5; mode = 0 })
      []
      hello
    × StaysServing counting mock (λ s. 1 ≤ s) counting-Serves 1 file_path
    × ((read_path counting (b'/' ∷ []) 1).0 ≡ err is_directory)
by_path_iff_example =
    by_path_iff counting mock (λ s. 1 ≤ s) counting-Serves 1 file_path 2
      (record { kind = regular; size = 5; mode = 0 }) [] hello (b'/' ∷ []) 0
      (record { kind = directory; size = 0; mode = 0 }) (omega arith) root_LeadsTo root_is_dir refl

mock-Holds : Holds mock 2 hello
unfolding mock_metadata mock_read
mock-Holds = record {
  md = record { kind = regular; size = 5; mode = 0 };
  has_md = refl;
  not_dir = refl;
  size_is = refl;
  count = λ off want. min (min 2 want) (5 - off);
  count_pos = λ off want h k. omega arith;
  count_want = λ off want. omega arith;
  count_fits = λ off want h. omega arith;
  reads = λ off want h. refl;
}

rel_found : (resolve (of_view mock) rel_name tt).0 ≡ ok 2
unfolding program
rel_found = refl

read_path-content_example : (read_path (of_view mock) rel_name tt).0 ≡ ok hello
read_path-content_example =
    read_path-content mock 2 hello mock-Holds rel_name rel_found (omega arith)
