-- ===== src/Wire/Accepts.antt =====
-- Which accesses the functions of src/wire.c accept.
use owl.Base.{
  ℕ, ◌+◌, ◌^◌, ◌<◌, ◌≡◌, refl, arith, Bool, true, false, leb, Option, none, some, List, length,
}
use owl.Base.Int.{ℤ, pos, negsuc, pos_part}
use owl.Wire.{
  Buf, within, write_u8, write_le16, write_be16, write_le32, write_be32, write_ether_addr,
  write_bytes, read_u8, read_le16, read_be16, read_le32, read_be32, read_ether_addr, read_bytes,
  read_bytes_copy,
}

abbrev pub is_some : {A : Type 0} → Option A → Bool
is_some none = false
is_some (some _) = true

-- An access of `n` bytes at an offset that may be negative is inside the buffer.
abbrev pub inside : Buf → ℤ → ℕ → Bool
inside b (negsuc _) n = false
inside b (pos o) n = leb (o + n) b.len

-- A write of any value is accepted exactly if all its bytes are inside the buffer: it never fails
-- otherwise, and it never passes where one of the bytes is outside. The sum of the offset and the
-- number of bytes is in the range of `int`.
pub writes_accepted :
    (b : Buf) (offset : ℤ) (v : ℕ) (addr bytes : List ℕ)
    → pos_part offset + 6 < 2 ^ 31
    → pos_part offset + length bytes < 2 ^ 31
    → (is_some (write_u8 b offset v) ≡ inside b offset 1)
      × (is_some (write_le16 b offset v) ≡ inside b offset 2)
      × (is_some (write_be16 b offset v) ≡ inside b offset 2)
      × (is_some (write_le32 b offset v) ≡ inside b offset 4)
      × (is_some (write_be32 b offset v) ≡ inside b offset 4)
      × (is_some (write_ether_addr b offset addr) ≡ inside b offset 6)
      × (is_some (write_bytes b offset bytes) ≡ inside b offset (length bytes))
unfolding write_u8 write_le16 write_be16 write_le32 write_be32 write_ether_addr write_bytes within
writes_accepted b (negsuc _) v addr bytes small fits = (refl, refl, refl, refl, refl, refl, refl)
writes_accepted b (pos o) v addr bytes small fits = (
  ground arith,
  ground arith,
  ground arith,
  ground arith,
  ground arith,
  ground arith,
  ground arith,
)

-- A read is accepted exactly if all its bytes are inside the buffer, if that sum is in the range.
reads_accepted :
    (b : Buf) (offset : ℤ) (n : ℕ)
    → pos_part offset + 6 < 2 ^ 31
    → pos_part offset + n < 2 ^ 31
    → (is_some (read_u8 b offset) ≡ inside b offset 1)
      × (is_some (read_le16 b offset) ≡ inside b offset 2)
      × (is_some (read_be16 b offset) ≡ inside b offset 2)
      × (is_some (read_le32 b offset) ≡ inside b offset 4)
      × (is_some (read_be32 b offset) ≡ inside b offset 4)
      × (is_some (read_ether_addr b offset) ≡ inside b offset 6)
      × (is_some (read_bytes b offset n) ≡ inside b offset n)
      × (is_some (read_bytes_copy b offset n) ≡ inside b offset n)
unfolding read_u8 read_le16 read_be16 read_le32 read_be32 read_ether_addr read_bytes read_bytes_copy
    within
reads_accepted b (negsuc _) n small fits = (refl, refl, refl, refl, refl, refl, refl, refl)
reads_accepted b (pos o) n small fits = (
  ground arith,
  ground arith,
  ground arith,
  ground arith,
  ground arith,
  ground arith,
  ground arith,
  ground arith,
)
