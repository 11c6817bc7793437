-- ===== src/Wire.antt =====
-- src/wire.h and src/wire.c: buffers, and checked reads and writes of values in a byte order.
-- `none` is the result OUT_OF_BOUNDS (-1). Otherwise a function returns the number that the C
-- function returns, with the value that it stores through its pointer or the changed buffer.
mod Tests
pub mod Bounds
pub mod Accepts
pub mod RoundTrip
use owl.Base.{
  ℕ, zero, suc, ◌+◌, ◌-◌, ◌*◌, ◌/◌, ◌%◌, ◌^◌, Bool, true, false, ltb, ◌&&◌, if◌then◌else◌, Option,
  none, some, List, [], ◌∷◌, ◌++◌, length, get_or, set, take, drop,
}
use owl.Base.Int.{ℤ, pos, negsuc, ◌+ℤ◌}
use owl.Base.Maybe.{◌>>=◌}

-- `orig` is the allocation, and `data` the offset of the pointer `data` into it.
pub record Buf : Type 0 where
  pub orig : List ℕ
  pub data_at : ℕ
  pub len : ℕ
  pub owned : Bool

-- `bytes` is what the new allocation of `len` bytes holds.
unfoldable new_owned : List ℕ → ℤ → Option Buf
new_owned bytes (negsuc _) = none
new_owned bytes (pos len) = some (record { orig = bytes; data_at = 0; len = len; owned = true })

unfoldable new_const : List ℕ → ℤ → Option Buf
new_const bytes (negsuc _) = none
new_const bytes (pos len) = some (record { orig = bytes; data_at = 0; len = len; owned = false })

-- The bytes from the pointer `data` on, `len` of them.
unfoldable pub bytes_of : Buf → List ℕ
bytes_of b = take b.len (drop b.data_at b.orig)

unfoldable pub strip : Buf → ℤ → Option (ℕ × Buf)
strip b (negsuc _) = none
strip b (pos len) =
    if ltb b.len len
    then none
    else some (len, record b { data_at = b.data_at + len; len = b.len - len })

unfoldable pub take_end : Buf → ℤ → Option (ℕ × Buf)
take_end b (negsuc _) = none
take_end b (pos len) = if ltb b.len len then none else some (len, record b { len = b.len - len })

-- The guard `offset < 0 || offset + n > buf->len`: `some` is the offset that passes it. All three are
-- of type `int`: a sum from 2 ^ 31 on wraps around to a negative number, which is not above the length.
unfoldable pub within : Buf → ℤ → ℕ → Option ℕ
within b (negsuc _) n = none
within b (pos o) n = if ltb b.len (o + n) && ltb (o + n) (2 ^ 31) then none else some o

unfoldable pub load : Buf → ℕ → ℕ
load b o = get_or b.orig (b.data_at + o) 0

unfoldable pub store : Buf → ℕ → ℕ → Buf
store b o v = record b { orig = set b.orig (b.data_at + o) v }

unfoldable pub store_all : Buf → ℕ → List ℕ → Buf
store_all b o [] = b
store_all b o (v ∷ vs) = store_all (store b o v) (o + 1) vs

unfoldable pub load_all : Buf → ℕ → ℕ → List ℕ
load_all b o zero = []
load_all b o (suc n) = load b o ∷ load_all b (o + 1) n

unfoldable pub write_u8 : Buf → ℤ → ℕ → Option (ℕ × Buf)
write_u8 b offset v = do o ← within b offset 1; some (1, store b o v)

unfoldable pub write_le16 : Buf → ℤ → ℕ → Option (ℕ × Buf)
write_le16 b offset v = do
  o ← within b offset 2
  some (2, store (store b o (v % 256)) (o + 1) (v / 256))

unfoldable pub write_be16 : Buf → ℤ → ℕ → Option (ℕ × Buf)
write_be16 b offset v = do
  o ← within b offset 2
  some (2, store (store b o (v / 256)) (o + 1) (v % 256))

unfoldable pub write_le32 : Buf → ℤ → ℕ → Option (ℕ × Buf)
write_le32 b offset v = do
  o ← within b offset 4
  some (4, store_all b o (v % 256 ∷ v / 256 % 256 ∷ v / 65536 % 256 ∷ v / 16777216 ∷ []))

unfoldable pub write_be32 : Buf → ℤ → ℕ → Option (ℕ × Buf)
write_be32 b offset v = do
  o ← within b offset 4
  some (4, store_all b o (v / 16777216 ∷ v / 65536 % 256 ∷ v / 256 % 256 ∷ v % 256 ∷ []))

-- `addr` has the six octets of a `struct ether_addr`.
unfoldable pub write_ether_addr : Buf → ℤ → List ℕ → Option (ℕ × Buf)
write_ether_addr b offset addr = do o ← within b offset 6; some (6, store_all b o addr)

-- `length` is the number of bytes that `bytes` points to; no caller passes a negative one.
unfoldable pub write_bytes : Buf → ℤ → List ℕ → Option (ℕ × Buf)
write_bytes b offset bytes = do
  o ← within b offset (length bytes)
  some (length bytes, store_all b o bytes)

unfoldable pub read_u8 : Buf → ℤ → Option (ℕ × ℕ)
read_u8 b offset = do o ← within b offset 1; some (1, load b o)

-- The value is a `uint16_t`.
unfoldable pub read_le16 : Buf → ℤ → Option (ℕ × ℕ)
read_le16 b offset = do o ← within b offset 2; some (2, (load b o + 256 * load b (o + 1)) % 2 ^ 16)

unfoldable pub read_be16 : Buf → ℤ → Option (ℕ × ℕ)
read_be16 b offset = do o ← within b offset 2; some (2, 256 * load b o + load b (o + 1))

unfoldable pub read_le32 : Buf → ℤ → Option (ℕ × ℕ)
read_le32 b offset = do
  o ← within b offset 4
  some (4, load b o + 256 * load b (o + 1) + 65536 * load b (o + 2) + 16777216 * load b (o + 3))

unfoldable pub read_be32 : Buf → ℤ → Option (ℕ × ℕ)
read_be32 b offset = do
  o ← within b offset 4
  some (4, 16777216 * load b o + 65536 * load b (o + 1) + 256 * load b (o + 2) + load b (o + 3))

unfoldable pub read_ether_addr : Buf → ℤ → Option (ℕ × List ℕ)
read_ether_addr b offset = do o ← within b offset 6; some (6, load_all b o 6)

-- `read_bytes` yields a pointer to the bytes, and `read_bytes_copy` copies them: both are the
-- bytes here. No caller passes a negative length.
unfoldable pub read_bytes : Buf → ℤ → ℕ → Option (ℕ × List ℕ)
read_bytes b offset length = do o ← within b offset length; some (length, load_all b o length)

unfoldable pub read_bytes_copy : Buf → ℤ → ℕ → Option (ℕ × List ℕ)
read_bytes_copy b offset length = do o ← within b offset length; some (length, load_all b o length)

-- What is stored in `str`, the trailing zero included.
unfoldable pub read_int_string : Buf → ℤ → ℕ → Option (ℕ × List ℕ)
read_int_string b offset length = do
  (_, n) ← read_u8 b offset
  let n' = if ltb length n then length else n
  (_, str) ← read_bytes_copy b (offset +ℤ pos 1) n'
  some (n' + 1, str ++ (0 ∷ []))

-- The type, the length and the value of a TLV.
abbrev pub Tlv : Type 0
Tlv = ℕ × ℕ × List ℕ

unfoldable pub read_tlv : Buf → ℤ → Option (ℕ × Tlv)
read_tlv b offset = do
  (_, type) ← read_u8 b offset
  (_, length) ← read_le16 b (offset +ℤ pos 1)
  (_, val) ← read_bytes b (offset +ℤ pos 3) length
  some (length + 3, (type, length, val))
