-- ===== src/Tx/Parse.antt =====
-- A TLV that src/tx.c makes is what `read_tlv` of src/wire.c takes apart.
use mathlib.Core.List.{append_assoc}
use owl.Base.{
  ℕ, ◌+◌, ◌/◌, ◌%◌, ◌^◌, ◌<◌, ◌≤◌, ◌≡◌, refl, ap, sym, ◌∙◌, arith, some, List, [], ◌∷◌, ◌++◌,
  length, ap₂, get_or, length-append, false,
}
use owl.Base.Int.{pos, ◌+ℤ◌}
use owl.Tx.{tlv, le16}
use owl.Wire.Bounds.{within_pos}
use owl.Wire.{
  Buf, load, load_all, read_u8, read_le16, read_be16, read_bytes, read_bytes_copy, read_tlv,
}

-- A buffer over all of the given bytes.
abbrev pub whole : List ℕ → Buf
whole bytes = record { orig = bytes; data_at = 0; len = length bytes; owned = false }

get_or-middle : (pre rest : List ℕ) (x d : ℕ) → get_or (pre ++ x ∷ rest) (length pre) d ≡ x
get_or-middle [] rest x d = refl
get_or-middle (y ∷ pre) rest x d = get_or-middle pre rest x d

load-middle :
    (b : Buf) (pre rest : List ℕ) (x o : ℕ)
    → b.orig ≡ pre ++ x ∷ rest
    → b.data_at + o ≡ length pre
    → load b o ≡ x
unfolding load
load-middle b pre rest x o is at = rw is (rw at (get_or-middle pre rest x 0))

length-snoc : (pre : List ℕ) (x : ℕ) → length (pre ++ x ∷ []) ≡ length pre + 1
length-snoc pre x = length-append pre (x ∷ [])

-- The bytes between two parts of an allocation.
pub load_all-middle :
    (b : Buf) (pre val rest : List ℕ) (o : ℕ)
    → b.orig ≡ pre ++ (val ++ rest)
    → b.data_at + o ≡ length pre
    → load_all b o (length val) ≡ val
unfolding load_all
load_all-middle b pre [] rest o is at = refl
load_all-middle b pre (x ∷ val) rest o is at = ap₂ ◌∷◌ (load-middle b pre (val ++ rest) x o is at) (
    load_all-middle b (pre ++ x ∷ []) val rest (o + 1)
      (is ∙ sym (append_assoc pre (x ∷ []) (val ++ rest))) (omega (arith, length-snoc pre x)))

module _ (b : Buf) where
  pub read_u8-load : (o v : ℕ) → load b o ≡ v → o + 1 ≤ b.len → read_u8 b (pos o) ≡ some (1, v)
  unfolding read_u8
  read_u8-load o v is fits = rw (within_pos b o 1 fits) (ap (λ v. some (1, v)) is)

  pub read_le16-load :
      (o v : ℕ)
      → v < 2 ^ 16
      → load b o ≡ v % 256
      → load b (o + 1) ≡ v / 256 % 256
      → o + 2 ≤ b.len
      → read_le16 b (pos o) ≡ some (2, v)
  unfolding read_le16
  read_le16-load o v small low high fits =
      rw (within_pos b o 2 fits) (ap (λ v. some (2, v)) (omega arith))

  pub read_be16-load :
      (o v : ℕ)
      → v < 2 ^ 16
      → load b o ≡ v / 256 % 256
      → load b (o + 1) ≡ v % 256
      → o + 2 ≤ b.len
      → read_be16 b (pos o) ≡ some (2, v)
  unfolding read_be16
  read_be16-load o v small high low fits =
      rw (within_pos b o 2 fits) (ap (λ v. some (2, v)) (omega arith))

  pub read_bytes-load :
      (o : ℕ) (val : List ℕ)
      → load_all b o (length val) ≡ val
      → o + length val ≤ b.len
      → read_bytes b (pos o) (length val) ≡ some (length val, val)
  unfolding read_bytes
  read_bytes-load o val is fits =
      rw (within_pos b o (length val) fits) (ap (λ v. some (length val, v)) is)

  pub read_bytes_copy-load :
      (o : ℕ) (val : List ℕ)
      → load_all b o (length val) ≡ val
      → o + length val ≤ b.len
      → read_bytes_copy b (pos o) (length val) ≡ some (length val, val)
  unfolding read_bytes_copy
  read_bytes_copy-load o val is fits =
      rw (within_pos b o (length val) fits) (ap (λ v. some (length val, v)) is)

  read_tlv-parts :
      (type n : ℕ) (val : List ℕ)
      → read_u8 b (pos 0) ≡ some (1, type)
      → read_le16 b (pos 1) ≡ some (2, n)
      → read_bytes b (pos 3) n ≡ some (n, val)
      → read_tlv b (pos 0) ≡ some (n + 3, (type, n, val))
  unfolding read_tlv ◌+ℤ◌
  read_tlv-parts type n val t l v = rw (t, l, v) refl

-- `read_tlv` on a buffer that begins with a whole TLV of fewer than 2^16 bytes, wherever the buffer
-- begins in its allocation and whatever follows, yields the type, the length and the value, and
-- the length of the whole TLV.
pub read_tlv-tlv :
    (b : Buf) (pre rest : List ℕ) (type : ℕ) (val : List ℕ)
    → b.orig ≡ pre ++ (tlv type val ++ rest)
    → b.data_at ≡ length pre
    → length (tlv type val) ≤ b.len
    → length val < 2 ^ 16
    → read_tlv b (pos 0) ≡ some (length val + 3, (type, length val, val))
read_tlv-tlv b pre rest type val is at fits small =
    let n = length val in
    let first : load b 0 ≡ type =
      load-middle b pre (le16 n ++ val ++ rest) type 0 is (omega arith) in
    let low : load b 1 ≡ n % 256 =
      load-middle b (pre ++ type ∷ []) (n / 256 % 256 ∷ (val ++ rest)) (n % 256) 1
        (is ∙ sym (append_assoc pre (type ∷ []) (le16 n ++ val ++ rest)))
        (omega (arith, length-append pre (type ∷ []))) in
    let high : load b 2 ≡ n / 256 % 256 =
      load-middle b (pre ++ type ∷ n % 256 ∷ []) (val ++ rest) (n / 256 % 256) 2
        (is ∙ sym (append_assoc pre (type ∷ n % 256 ∷ []) (n / 256 % 256 ∷ (val ++ rest))))
        (omega (arith, length-append pre (type ∷ n % 256 ∷ []))) in
    let bytes : load_all b 3 n ≡ val =
      load_all-middle b (pre ++ type ∷ le16 n) val rest 3
        (is ∙ sym (append_assoc pre (type ∷ le16 n) (val ++ rest)))
        (omega (arith, length-append pre (type ∷ le16 n))) in
    read_tlv-parts b type n val (read_u8-load b 0 type first (omega arith))
      (read_le16-load b 1 n small low high (omega arith))
      (read_bytes-load b 3 val bytes (omega arith))
