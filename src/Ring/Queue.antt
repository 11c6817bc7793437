-- ===== src/Ring/Queue.antt =====
-- What circular_buffer.h promises: a queue of at most `max` elements, oldest first.
use owl.Base.{
  ℕ, Bool, true, false, ◌==◌, if◌then◌else◌, Option, none, some, List, [], ◌∷◌, ◌++◌, length,
}

abbrev pub tail : List ℕ → List ℕ
tail [] = []
tail (_ ∷ q) = q

-- `circular_buf_put`: the oldest element makes room in a full queue.
unfoldable pub put : ℕ → List ℕ → ℕ → List ℕ
put max q x = (if length q == max then tail q else q) ++ (x ∷ [])

-- `circular_buf_put2`: a full queue refuses.
unfoldable pub put2 : ℕ → List ℕ → ℕ → Bool × List ℕ
put2 max q x = if length q == max then (false, q) else (true, q ++ (x ∷ []))

-- `circular_buf_get`: the oldest element, which stays if `peek` is set.
unfoldable pub get : List ℕ → Bool → Option ℕ × List ℕ
get [] peek = (none, [])
get (x ∷ q) peek = (some x, if peek then x ∷ q else q)
