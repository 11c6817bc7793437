-- ===== src/Wire/Tests.antt =====
-- Tests of the buffer functions, and their theorems at concrete inputs.
use owl.Base.{ℕ, ◌+◌, ◌≤◌, ◌≡◌, refl, arith, true, none, some, List, [], ◌∷◌, length}
use owl.Base.Int.{pos, negsuc, ◌+ℤ◌}
use owl.Wire.{
  Buf, within, load, store, store_all, load_all, write_u8, write_le16, write_le32, write_bytes,
  write_be32, write_be16, write_ether_addr, read_u8, read_le16, read_le32, read_bytes,
  read_bytes_copy, read_int_string, read_tlv,
}
use owl.Wire.Bounds.{read_tlv_fits}
use owl.Wire.Accepts.{is_some, inside, writes_accepted}
use owl.Wire.RoundTrip.{Wrote, write_le32-Wrote}

-- A buffer of six bytes, behind one byte that was stripped: a TLV of type 21 with two bytes.
abbrev sample : Buf
sample = record { orig = 9 ∷ 21 ∷ 2 ∷ 0 ∷ 52 ∷ 1 ∷ 7 ∷ []; data_at = 1; len = 6; owned = true }

read_tlv-sample : read_tlv sample (pos 0) ≡ some (5, (21, 2, 52 ∷ 1 ∷ []))
unfolding read_tlv read_u8 read_le16 read_bytes within load load_all ◌+ℤ◌
read_tlv-sample = refl

read_le16_bounds :
    (read_le16 sample (pos 4) ≡ some (2, 1793))
    × (read_le16 sample (pos 5) ≡ none)
    × (read_le16 sample (negsuc 0) ≡ none)
unfolding read_le16 within load
read_le16_bounds = (refl, refl, refl)

-- A string that names more characters than are wanted.
read_int_string-sample : read_int_string sample (pos 1) 1 ≡ some (2, 0 ∷ 0 ∷ [])
unfolding read_int_string read_u8 read_bytes_copy within load load_all ◌+ℤ◌
read_int_string-sample = refl

abbrev tlv_value : List ℕ
tlv_value = 52 ∷ 1 ∷ []

read_tlv_fits_example :
    (5 ≡ 2 + 3) × (length tlv_value ≡ 2) × (o : ℕ) × (pos 0 ≡ pos o) × (o + 5 ≤ 6)
read_tlv_fits_example = read_tlv_fits sample (pos 0) (omega arith) read_tlv-sample

abbrev written : Buf
written = record sample { orig = 9 ∷ 21 ∷ 0x78 ∷ 0x56 ∷ 0x34 ∷ 0x12 ∷ 7 ∷ [] }

write_le32-Wrote_example : Wrote sample (pos 1) 4 read_le32 0x12345678 (4, written)
write_le32-Wrote_example =
    write_le32-Wrote sample (pos 1) 0x12345678 (omega arith) (omega arith) (omega arith)
      (unfold write_le32 within store_all store in refl)

abbrev address : List ℕ
address = 1 ∷ 2 ∷ 3 ∷ 4 ∷ 5 ∷ 6 ∷ []

writes_accepted_example :
    (is_some (write_u8 sample (pos 3) 7) ≡ inside sample (pos 3) 1)
    × (is_some (write_le16 sample (pos 3) 7) ≡ inside sample (pos 3) 2)
    × (is_some (write_be16 sample (pos 3) 7) ≡ inside sample (pos 3) 2)
    × (is_some (write_le32 sample (pos 3) 7) ≡ inside sample (pos 3) 4)
    × (is_some (write_be32 sample (pos 3) 7) ≡ inside sample (pos 3) 4)
    × (is_some (write_ether_addr sample (pos 3) address) ≡ inside sample (pos 3) 6)
    × (is_some (write_bytes sample (pos 3) tlv_value) ≡ inside sample (pos 3) (length tlv_value))
writes_accepted_example =
    writes_accepted sample (pos 3) 7 address tlv_value (omega arith) (omega arith)

-- At the end of the range of `int` the sum of the guard wraps around, and the write passes.
write_u8-wraps : is_some (write_u8 sample (pos 0x7fffffff) 7) ≡ true
unfolding write_u8 within
write_u8-wraps = refl
