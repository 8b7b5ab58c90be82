-- ===== src/Tests/Verity.antt =====
-- Runs of the verifier with a small digest in SHA-256's place.
use lamfold.Prelude.{ℕ, ◌+◌, ◌%◌, Bytes, [], ◌∷◌, ◌++◌, length, some, ◌≡◌, refl, arith}
use lamfold.Error.{ok, err, verify_failed}
use lamfold.Verity.{Sha256, MerkleVerifier, verify_block}
use lamfold.Verity.Verifier.{Guarded, over-Guards}

abbrev sum : Bytes → ℕ
sum [] = 0
sum (b ∷ bs) = (b + sum bs) % 256

abbrev zeros30 : Bytes
zeros30 =
    0 ∷ 0 ∷ 0 ∷ 0 ∷ 0 ∷ 0 ∷ 0 ∷ 0 ∷ 0 ∷ 0 ∷ 0 ∷ 0 ∷ 0 ∷ 0 ∷ 0 ∷ 0 ∷ 0 ∷ 0 ∷ 0 ∷ 0 ∷ 0 ∷ 0 ∷ 0 ∷ 0
    ∷ 0 ∷ 0 ∷ 0 ∷ 0 ∷ 0 ∷ 0 ∷ []

abbrev toy : Sha256
toy = record { digest = λ bytes. sum bytes ∷ length bytes ∷ zeros30; digest_len = λ bytes. refl }

abbrev content : Bytes
content = 1 ∷ 2 ∷ 3 ∷ zeros30 ++ (zeros30 ++ (4 ∷ 5 ∷ 6 ∷ []))

over-Guards_example : Guarded toy content 6 (7 ∷ 8 ∷ [])
over-Guards_example = over-Guards toy content 6 (7 ∷ 8 ∷ []) (omega arith) (omega arith)

abbrev v : MerkleVerifier
v = record { block_size = 64; salt_prefix = []; leaves = (6 ∷ 64 ∷ zeros30) ∷ []; measurement = [] }

accepted : verify_block toy v 0 (1 ∷ 2 ∷ 3 ∷ []) ≡ some (ok tt)
unfolding verify_block
accepted = refl

tampered : verify_block toy v 0 (1 ∷ 2 ∷ 4 ∷ []) ≡ some (err (verify_failed "block hash mismatch"))
unfolding verify_block
tampered = refl

unaligned : verify_block toy v 5 [] ≡ some (err (verify_failed "unaligned verify offset"))
unfolding verify_block
unaligned = refl
