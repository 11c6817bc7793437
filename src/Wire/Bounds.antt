-- ===== src/Wire/Bounds.antt =====
-- Accesses of src/wire.c stay inside the allocation, and the buffer stays well formed.
use owl.Base.{
  ℕ, zero, suc, ◌+◌, ◌*◌, ◌%◌, ◌^◌, ◌≤◌, ◌<◌, ◌≡◌, refl, ap, arith, some, List, [], ◌∷◌, length,
  length-append,
}
use owl.Base.Int.{ℤ, pos, negsuc, pos_part, ◌+ℤ◌}
use owl.Wire.{
  Buf, strip, within, load, load_all, read_u8, read_le16, read_bytes, read_bytes_copy,
  read_int_string, read_tlv,
}

-- The bytes that a buffer names lie in its allocation.
abbrev pub IsValid : Buf → Type 0
IsValid b = b.data_at + b.len ≤ length b.orig

pub within_pos : (b : Buf) (o n : ℕ) → o + n ≤ b.len → within b (pos o) n ≡ some o
unfolding within
within_pos b o n h = ground arith

-- What passes the guard of a read or write of `n` bytes names `n` bytes of the allocation, if the sum of
-- the offset and `n` is in the range of `int`.
pub within_bounds :
    (b : Buf) (offset : ℤ) (n : ℕ) {o : ℕ}
    → IsValid b
    → pos_part offset + n < 2 ^ 31
    → within b offset n ≡ some o
    → (offset ≡ pos o) × (o + n ≤ b.len) × (b.data_at + o + n ≤ length b.orig)
unfolding within
within_bounds b (negsuc _) n v small h = cc
within_bounds b (pos o) n v small h = ground arith

-- Stripping bytes from the front of a valid buffer keeps it valid. It returns the number of bytes
-- asked for, and the buffer begins that much later, is that much shorter, and ends where it did.
strip_lem :
    (b : Buf) (n : ℤ) {r : ℕ × Buf}
    → IsValid b
    → strip b n ≡ some r
    → IsValid r.1
      × (n ≡ pos r.0)
      × (r.1.data_at ≡ b.data_at + r.0)
      × (r.1.len + r.0 ≡ b.len)
      × (r.1.orig ≡ b.orig)
unfolding strip
strip_lem b (negsuc _) v h = cc
strip_lem b (pos n) v h = ground arith

length-load_all : (b : Buf) (o n : ℕ) → length (load_all b o n) ≡ n
unfolding load_all
length-load_all b o zero = refl
length-load_all b o (suc n) = ap suc (length-load_all b (o + 1) n)

-- `read_int_string` stores at most `length` characters and the trailing zero, which are as many
-- bytes as it returns.
read_int_string_fits :
    (b : Buf) (offset : ℤ) (n : ℕ) {r : ℕ × List ℕ}
    → read_int_string b offset n ≡ some r
    → (length r.1 ≡ r.0) × (r.0 ≤ n + 1)
unfolding read_int_string read_u8 read_bytes_copy within ◌+ℤ◌
read_int_string_fits b (negsuc _) n h = cc
read_int_string_fits b (pos o) n h =
    let c = load b o in
    ground (
      arith,
      length-append (load_all b (o + 1) c) (0 ∷ []),
      length-append (load_all b (o + 1) n) (0 ∷ []),
      length-load_all b (o + 1) c,
      length-load_all b (o + 1) n,
    )

-- `read_tlv` returns the length of the whole TLV: three bytes more than its value. These bytes are
-- in the buffer, and the value has the length that the TLV names. The condition is that the offset is
-- so far below 2^31 that no sum leaves the range of `int`.
pub read_tlv_fits :
    (b : Buf) (offset : ℤ) {r : ℕ} {type len : ℕ} {val : List ℕ}
    → pos_part offset + 3 + 2 ^ 16 ≤ 2 ^ 31
    → read_tlv b offset ≡ some (r, (type, len, val))
    → (r ≡ len + 3) × (length val ≡ len) × (o : ℕ) × (offset ≡ pos o) × (o + r ≤ b.len)
unfolding read_tlv read_u8 read_le16 read_bytes within ◌+ℤ◌
read_tlv_fits b (negsuc _) low h = cc
read_tlv_fits b (pos o) low h =
    let n = (load b (o + 1) + 256 * load b (o + 1 + 1)) % 2 ^ 16 in
    let bytes = length-load_all b (o + 3) n in (ground arith, ground arith, o, refl, ground arith)
