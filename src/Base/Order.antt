-- ===== src/Base/Order.antt =====
-- Comparison functions, as C's three-way comparisons, and what makes one a total order.
use Prim.Native.Nat.{ℕ, compare, Ordering, lt, eq, gt}
use mathlib.Core.Path.{◌≡◌, refl}
use mathlib.Core.Bool.{Bool, true, false}
use mathlib.Core.List.{List, [], ◌∷◌}
use native.Mathlib.Omega.{arith}
use owl.Base.Tests.{if◌then◌else◌}

abbrev opposite : Ordering → Ordering
opposite lt = gt
opposite eq = eq
opposite gt = lt

-- The second comparison decides where the first finds no difference.
abbrev pub then_by : Ordering → Ordering → Ordering
then_by lt o = lt
then_by eq o = o
then_by gt o = gt

abbrev pub is_gt : Ordering → Bool
is_gt gt = true
is_gt _ = false

abbrev pub is_eq : Ordering → Bool
is_eq eq = true
is_eq _ = false

-- `memcmp` of two arrays of one length, by their bytes from the first on.
unfoldable pub memcmp : List ℕ → List ℕ → Ordering
memcmp [] [] = eq
memcmp [] (y ∷ ys) = lt
memcmp (x ∷ xs) [] = gt
memcmp (x ∷ xs) (y ∷ ys) = then_by (compare x y) (memcmp xs ys)

pub record Order {ℓ} {A : Type ℓ} (cmp : A → A → Ordering) : Type ℓ where
  flip : (a b : A) → cmp b a ≡ opposite (cmp a b)
  pub trans : (a b c : A) → cmp a b ≡ lt → cmp b c ≡ lt → cmp a c ≡ lt
  pub same : (a b : A) → cmp a b ≡ eq → a ≡ b

compare_flip : (a b : ℕ) → compare b a ≡ opposite (compare a b)
compare_flip a b = ground arith

compare_trans : (a b c : ℕ) → compare a b ≡ lt → compare b c ≡ lt → compare a c ≡ lt
compare_trans a b c p q = ground arith

compare_same : (a b : ℕ) → compare a b ≡ eq → a ≡ b
compare_same a b p = ground arith

pub compare-Order : Order compare
compare-Order = record { flip = compare_flip; trans = compare_trans; same = compare_same }

memcmp_flip : (a b : List ℕ) → memcmp b a ≡ opposite (memcmp a b)
unfolding memcmp
memcmp_flip [] [] = refl
memcmp_flip [] (y ∷ b) = refl
memcmp_flip (x ∷ a) [] = refl
memcmp_flip (x ∷ a) (y ∷ b) = ground (arith, memcmp_flip a b)

memcmp_same : (a b : List ℕ) → memcmp a b ≡ eq → a ≡ b
unfolding memcmp
memcmp_same [] [] h = refl
memcmp_same [] (y ∷ b) h = cc
memcmp_same (x ∷ a) [] h = cc
memcmp_same (x ∷ a) (y ∷ b) h = ground (arith, memcmp_same a b)

memcmp_trans : (a b c : List ℕ) → memcmp a b ≡ lt → memcmp b c ≡ lt → memcmp a c ≡ lt
unfolding memcmp
memcmp_trans [] [] c p q = cc
memcmp_trans [] (y ∷ b) [] p q = cc
memcmp_trans [] (y ∷ b) (z ∷ c) p q = refl
memcmp_trans (x ∷ a) [] c p q = cc
memcmp_trans (x ∷ a) (y ∷ b) [] p q = cc
memcmp_trans (x ∷ a) (y ∷ b) (z ∷ c) p q = ground (arith, memcmp_trans a b c)

pub memcmp-Order : Order memcmp
memcmp-Order = record { flip = memcmp_flip; trans = memcmp_trans; same = memcmp_same }

module _ {ℓ} {A : Type ℓ} (cmp : A → A → Ordering) where
  abbrev pub reversed : A → A → Ordering
  reversed a b = cmp b a

  pub reversed-Order : Order cmp → Order reversed
  reversed-Order o = record {
    flip = λ a b. o.flip b a;
    trans = λ a b c p q. o.trans c b a q p;
    same = λ a b p. o.same a b (rw (o.flip b a, p));
  }

  -- The larger of two, the first where neither is.
  abbrev pub larger : A → A → A
  larger a b = if is_gt (cmp b a) then b else a

  -- Which of the candidates is largest does not depend on the order of the questions.
  pub larger_comm : Order cmp → (a b c : A) → larger (larger a b) c ≡ larger (larger a c) b
  larger_comm o a b c = ground (
    arith,
    o.flip a b,
    o.flip a c,
    o.flip b c,
    o.same b c,
    o.trans a b c,
    o.trans a c b,
    o.trans b a c,
    o.trans b c a,
    o.trans c a b,
    o.trans c b a,
    o.same a b,
    o.same a c,
  )

  pub gt_irrefl : Order cmp → (a : A) → is_gt (cmp a a) ≡ false
  gt_irrefl o a = ground (arith, o.flip a a)

  pub gt_asymm : Order cmp → (a b : A) → is_gt (cmp a b) ≡ true → is_gt (cmp b a) ≡ false
  gt_asymm o a b h = ground (arith, o.flip a b)

  pub gt_trans_ge :
      Order cmp
      → (a b c : A) → is_gt (cmp a b) ≡ true
      → is_gt (cmp c b) ≡ false
      → is_gt (cmp a c) ≡ true
  gt_trans_ge o a b c p q =
      ground (arith, o.flip a b, o.flip b c, o.flip a c, o.same c b, o.same a c, o.trans c b a)

  pub larger_ge : Order cmp → (a b : A) → is_gt (cmp a (larger a b)) ≡ false
  larger_ge o a b = ground (arith, o.flip a b, o.flip a a)

  pub larger_ge_right : Order cmp → (a b : A) → is_gt (cmp b (larger a b)) ≡ false
  larger_ge_right o a b = ground (arith, o.flip a b, o.flip b b)

  -- What is not above `a` is not above what is at least `a`.
  pub ge_trans :
      Order cmp
      → (a b c : A) → is_gt (cmp a b) ≡ false
      → is_gt (cmp b c) ≡ false
      → is_gt (cmp a c) ≡ false
  ge_trans o a b c p q = ground (
    arith,
    o.flip a b,
    o.flip b c,
    o.flip a c,
    o.same a b,
    o.same b c,
    o.trans c a b,
    o.trans b c a,
    o.trans a b c,
  )

module _ {ℓ} {A B : Type ℓ} (cmp : A → A → Ordering) (cmp' : B → B → Ordering) where
  abbrev pub lex : A × B → A × B → Ordering
  lex p q = then_by (cmp p.0 q.0) (cmp' p.1 q.1)

  pub lex-Order : Order cmp → Order cmp' → Order lex
  lex-Order o o' = record {
    flip = λ p q. ground (arith, o.flip p.0 q.0, o'.flip p.1 q.1);
    trans = λ p q r h k. lex_trans p q r h k;
    same = λ p q h. lex_same p q h;
  }
    where
      lex_same : (p q : A × B) → lex p q ≡ eq → p ≡ q
      lex_same p q h = ground (arith, o.same p.0 q.0, o'.same p.1 q.1)

      lex_trans : (p q r : A × B) → lex p q ≡ lt → lex q r ≡ lt → lex p r ≡ lt
      lex_trans p q r h k =
          ground (arith, o.trans p.0 q.0 r.0, o'.trans p.1 q.1 r.1, o.same p.0 q.0, o.same q.0 r.0)

pub memcmp_refl : (a : List ℕ) → memcmp a a ≡ eq
unfolding memcmp
memcmp_refl [] = refl
memcmp_refl (x ∷ a) = ground (arith, memcmp_refl a)
