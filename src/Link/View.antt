-- ===== src/Link/View.antt =====
-- Buffers by the bytes that they name, and what src/wire.c makes of such a buffer.
use mathlib.Core.List.{append_assoc, append-nil}
use owl.Base.{
  ℕ, ◌+◌, ◌-◌, ◌≡◌, refl, sym, ap, subst, ◌∙◌, arith, some, List, [], ◌∷◌, ◌++◌, length,
  length-append, take, drop,
}
use owl.Base.Int.{pos}
use owl.Tx.Parse.{whole, load_all-middle}
use owl.Wire.{Buf, bytes_of, strip, take_end, load, load_all}

-- The buffer names the given bytes, somewhere in its allocation.
pub record View (b : Buf) (bytes : List ℕ) : Type 0 where
  pub front : List ℕ
  pub back : List ℕ
  pub orig : b.orig ≡ front ++ (bytes ++ back)
  pub at : b.data_at ≡ length front
  pub len : b.len ≡ length bytes

pub whole-View : (bytes : List ℕ) → View (whole bytes) bytes
whole-View bytes = record {
  front = [];
  back = [];
  orig = sym (append-nil bytes);
  at = refl;
  len = refl;
}

take-append : (xs ys : List ℕ) → take (length xs) (xs ++ ys) ≡ xs
take-append [] ys = refl
take-append (x ∷ xs) ys = ap (λ l. x ∷ l) (take-append xs ys)

drop-append : (xs ys : List ℕ) → drop (length xs) (xs ++ ys) ≡ ys
drop-append [] ys = refl
drop-append (x ∷ xs) ys = drop-append xs ys

pub bytes_of-View : (b : Buf) (bytes : List ℕ) → View b bytes → bytes_of b ≡ bytes
unfolding bytes_of
bytes_of-View b bytes v =
    rw (v.len, v.at, v.orig, drop-append v.front (bytes ++ v.back)) (take-append bytes v.back)

-- The buffer behind the first bytes.
abbrev pub behind : Buf → ℕ → Buf
behind b n = record b { data_at = b.data_at + n; len = b.len - n }

pub strip-View :
    (b : Buf) (n : ℕ) (head tail : List ℕ)
    → View b (head ++ tail)
    → length head ≡ n
    → (strip b (pos n) ≡ some (n, behind b n)) × View (behind b n) tail
unfolding strip
strip-View b n head tail v is =
    let both = length-append head tail in
    let all = v.len in
    (
      ground (arith, all, both, is),
      record {
        front = v.front ++ head;
        back = v.back;
        orig =
            v.orig
            ∙ ap (λ l. v.front ++ l) (append_assoc head tail v.back)
            ∙ sym (append_assoc v.front head (tail ++ v.back));
        at = omega (arith, v.at, length-append v.front head);
        len = omega (arith, v.len, both);
      },
    )

pub take_end-View :
    (b : Buf) (n : ℕ) (head tail : List ℕ)
    → View b (head ++ tail)
    → length tail ≡ n
    → let b' : Buf = record b { len = b.len - n } in
      (take_end b (pos n) ≡ some (n, b')) × View b' head
unfolding take_end
take_end-View b n head tail v is =
    let both = length-append head tail in
    let all = v.len in
    (
      ground (arith, all, both, is),
      record {
        front = v.front;
        back = tail ++ v.back;
        orig = v.orig ∙ ap (λ l. v.front ++ l) (append_assoc head tail v.back);
        at = v.at;
        len = omega (arith, v.len, both);
      },
    )

-- The bytes at an offset.
pub load_all-View :
    (b : Buf) (o n : ℕ) (before val after : List ℕ)
    → View b (before ++ (val ++ after))
    → length before ≡ o
    → length val ≡ n
    → load_all b o n ≡ val
load_all-View b o n before val after v is size =
    subst (λ n. load_all b o n ≡ val) size
      (load_all-middle b (v.front ++ before) val (after ++ v.back) o
        (v.orig
          ∙ ap (λ l. v.front ++ l)
              (append_assoc before (val ++ after) v.back
                ∙ ap (λ l. before ++ l) (append_assoc val after v.back))
          ∙ sym (append_assoc v.front before (val ++ (after ++ v.back))))
        (omega (arith, v.at, length-append v.front before)))

pub load-View :
    (b : Buf) (o x : ℕ) (before after : List ℕ)
    → View b (before ++ x ∷ after)
    → length before ≡ o
    → load b o ≡ x
unfolding load_all
load-View b o x before after v is =
    ap (λ (l : List ℕ). elim l [ [] ↦ load b o | y ∷ _ ↦ y ])
      (load_all-View b o 1 before (x ∷ []) after v is refl)
