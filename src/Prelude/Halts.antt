-- ===== src/Prelude/Halts.antt =====
-- Loops that end: the turns of a loop's body, one after the other, lead to a result.
use mathlib.Core.Path.{◌≡◌}

-- What a turn comes to: a result, or the state that the next turn starts from.
pub data Turn (S R : Type 0) : Type 0 where
  stop : R → Turn S R
  go : S → Turn S R

-- From a state the turns come to an end, with this result.
pub data Halts {S R : Type 0} (turn : S → Turn S R) : S → R → Type 0 where
  stops : {s : S} {r : R} → turn s ≡ stop r → Halts turn s r
  goes : {s t : S} {r : R} → turn s ≡ go t → Halts turn t r → Halts turn s r
