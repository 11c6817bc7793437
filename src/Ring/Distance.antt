-- ===== src/Ring/Distance.antt =====
-- The index arithmetic of src/circular_buffer.c.
use native.Mathlib.Nat.{mod-eq_of_lt, mod_self, add-mod_right}
use owl.Base.{
  ℕ, ◌+◌, ◌-◌, ◌%◌, ◌^◌, ◌<◌, ◌≡◌, ◌≢◌, ap, ◌∙◌, arith, Bool-cases, inl, inr, leb, ◌==◌,
  if◌then◌else◌, leb→le, leb-false,
}

-- The number of elements between two indices, as the code computes it.
abbrev pub distance : ℕ → ℕ → ℕ → ℕ
distance max tail head = if leb tail head then head - tail else (max + head) % 2 ^ 64 - tail

module _ (max tail head : ℕ) (small : max < 2 ^ 63) (t : tail < max) (h : head < max) where
  pub distance-lt : distance max tail head < max
  distance-lt = ground arith

  pub add-distance : (tail + distance max tail head) % max ≡ head
  add-distance = elim (Bool-cases (leb tail head)) [
    | inl le ↦
        let ordered = leb→le tail head le in
        rw le (ap (λ k. k % max) (omega arith) ∙ mod-eq_of_lt h)
    | inr gt ↦
        let turned : tail + ((max + head) % 2 ^ 64 - tail) ≡ head + max =
          omega (arith, leb-false tail head gt) in
        rw (gt, turned) (add-mod_right head max ∙ mod-eq_of_lt h)
  ]

  next_of : (head + 1) % 2 ^ 64 % max ≡ (if head + 1 == max then 0 else head + 1)
  next_of = elim (Bool-cases (head + 1 == max)) [
    | inl e ↦ let last : (head + 1) % 2 ^ 64 ≡ max = ground arith in rw (e, last) (mod_self max)
    | inr e ↦
        let inside : (head + 1) % 2 ^ 64 ≡ head + 1 = ground arith in
        rw (e, inside) (mod-eq_of_lt (ground arith))
  ]

  -- One step of the head is one more element, unless it reaches the tail.
  pub distance_next :
      (head + 1) % 2 ^ 64 % max ≢ tail
      → distance max tail ((head + 1) % 2 ^ 64 % max) ≡ distance max tail head + 1
  distance_next = rw next_of (ground arith)

  pub distance_meets : (head + 1) % 2 ^ 64 % max ≡ tail → max ≡ distance max tail head + 1
  distance_meets = rw next_of (ground arith)

  -- One step of the tail is one element less; from where both meet it leaves all but one.
  pub distance_retreat :
      head ≢ tail → distance max ((head + 1) % 2 ^ 64 % max) tail + 1 ≡ distance max head tail
  distance_retreat = rw next_of (ground arith)

  pub distance_turn : distance max ((head + 1) % 2 ^ 64 % max) head + 1 ≡ max
  distance_turn = rw next_of (ground arith)

  pub next_no_wrap : (head + 1) % 2 ^ 64 ≡ head + 1
  next_no_wrap = omega arith
