-- ===== src/Wire/RoundTrip.antt =====
-- What is written with one function of src/wire.c is read back with its counterpart, and the
-- other bytes stay as they are.
use owl.Base.{
  ℕ, ◌+◌, ◌/◌, ◌%◌, ◌≤◌, ◌<◌, ◌^◌, ◌≡◌, ◌≢◌, ◌⊎◌, refl, sym, ap, ap₂, subst, ◌∙◌, arith,
  Option-cases, inl, inr, Option, some, List, [], ◌∷◌, length, length-set, get_or-set_self,
  get_or-set_ne,
}
use owl.Base.Int.{ℤ, pos, negsuc, pos_part}
use owl.Base.Maybe.{◌>>=◌}
use owl.Wire.{
  Buf, within, load, store, store_all, load_all, write_u8, write_le16, write_be16, write_le32,
  write_be32, write_ether_addr, write_bytes, read_u8, read_le16, read_be16, read_le32, read_be32,
  read_ether_addr, read_bytes,
}
use owl.Wire.Bounds.{IsValid, within_bounds}

load-store_self : (b : Buf) (i v : ℕ) → b.data_at + i < length b.orig → load (store b i v) i ≡ v
unfolding load store
load-store_self b i v h = get_or-set_self b.orig (b.data_at + i) v 0 h

load-store_ne : (b : Buf) (i j v : ℕ) → i ≢ j → load (store b i v) j ≡ load b j
unfolding load store
load-store_ne b i j v h = get_or-set_ne b.orig (b.data_at + i) (b.data_at + j) v 0 (omega arith)

-- The two buffers name the same part of allocations of one size.
abbrev SameShape : Buf → Buf → Type 0
SameShape b c = (b.data_at ≡ c.data_at) × (b.len ≡ c.len) × (length b.orig ≡ length c.orig)

store-SameShape : (b : Buf) (i v : ℕ) → SameShape (store b i v) b
unfolding store
store-SameShape b i v = (refl, refl, length-set b.orig (b.data_at + i) v)

pub store_all-SameShape : (b : Buf) (vs : List ℕ) (i : ℕ) → SameShape (store_all b i vs) b
unfolding store_all
store_all-SameShape b [] i = (refl, refl, refl)
store_all-SameShape b (v ∷ vs) i =
    let a = store_all-SameShape (store b i v) vs (i + 1) in
    let c = store-SameShape b i v in (omega arith, omega arith, omega arith)

-- Bytes outside those written stay.
load-store_all_outside :
    (b : Buf) (vs : List ℕ) (i j : ℕ)
    → (j < i) ⊎ (i + length vs ≤ j)
    → load (store_all b i vs) j ≡ load b j
unfolding store_all
load-store_all_outside b [] i j h = refl
load-store_all_outside b (v ∷ vs) i j h =
    load-store_all_outside (store b i v) vs (i + 1) j (omega arith)
    ∙ load-store_ne b i j v (omega arith)

pub load_all-store_all :
    (b : Buf) (vs : List ℕ) (i : ℕ)
    → b.data_at + i + length vs ≤ length b.orig
    → load_all (store_all b i vs) i (length vs) ≡ vs
unfolding store_all load_all
load_all-store_all b [] i h = refl
load_all-store_all b (v ∷ vs) i h =
    let c = store-SameShape b i v in
    ap₂ ◌∷◌
      (load-store_all_outside (store b i v) vs (i + 1) i (omega arith)
        ∙ load-store_self b i v (omega arith))
      (load_all-store_all (store b i v) vs (i + 1) (omega arith))

-- What a successful write of a value does to a valid buffer: it returns the number of bytes, the
-- buffer names the same part of its allocation, the value is read back at the offset, and every
-- byte outside those written stays.
pub record Wrote {A : Type 0} (b : Buf) (offset : ℤ) (n : ℕ) (read : Buf → ℤ → Option (ℕ × A))
    (v : A) (r : ℕ × Buf) : Type 0 where
  pub count : r.0 ≡ n
  shape : SameShape r.1 b
  pub back : read r.1 offset ≡ some (n, v)
  pub kept : (o j : ℕ) → offset ≡ pos o → (j < o) ⊎ (o + n ≤ j) → load r.1 j ≡ load b j

-- All the writes of the file have this form, for the bytes of a value.
abbrev write_encoded : Buf → ℤ → List ℕ → Option (ℕ × Buf)
write_encoded b offset vs = do o ← within b offset (length vs); some (length vs, store_all b o vs)

within-len :
    (b c : Buf) (offset : ℤ) (n : ℕ) → b.len ≡ c.len → within b offset n ≡ within c offset n
unfolding within
within-len b c (negsuc _) n e = refl
within-len b c (pos o) n e = rw e

pos_injective : (a b : ℕ) → pos a ≡ pos b → a ≡ b
pos_injective a b h = ground arith

module _ {A : Type 0} (read : Buf → ℤ → Option (ℕ × A)) (vs : List ℕ) (v : A)
    (decodes : (b : Buf) (offset : ℤ) (o : ℕ)
      → within b offset (length vs) ≡ some o
      → load_all b o (length vs) ≡ vs
      → read b offset ≡ some (length vs, v)) where
  encoded-Wrote :
      (b : Buf) (offset : ℤ) {r : ℕ × Buf}
      → IsValid b
      → pos_part offset + length vs < 2 ^ 31
      → write_encoded b offset vs ≡ some r
      → Wrote b offset (length vs) read v r
  encoded-Wrote b offset {r} valid small h = elim (Option-cases (within b offset (length vs))) [
    | inl out ↦ cc (rw out at h)
    | inr (o, inside) ↦
        let same : (length vs, store_all b o vs) ≡ r = cc (rw inside at h) in
        subst (Wrote b offset (length vs) read v) same (done o inside)
  ]
    where
      done :
          (o : ℕ)
          → within b offset (length vs) ≡ some o
          → Wrote b offset (length vs) read v (length vs, store_all b o vs)
      done o inside =
          let shape = store_all-SameShape b vs o in
          let (at, _, fits) = within_bounds b offset (length vs) valid small inside in
          record {
            count = refl;
            shape = shape;
            back =
                decodes (store_all b o vs) offset o
                  (within-len (store_all b o vs) b offset (length vs) shape.1 ∙ inside)
                  (load_all-store_all b vs o fits);
            kept = λ o' j e out.
                load-store_all_outside b vs o j (
                  subst (λ o. (j < o) ⊎ (o + length vs ≤ j)) (pos_injective o' o (sym e ∙ at)) out);
          }

-- Two and four bytes at one offset, by their indices.
load_two :
    (b : Buf) (o x y : ℕ) → load_all b o 2 ≡ x ∷ y ∷ [] → (load b o ≡ x) × (load b (o + 1) ≡ y)
unfolding load_all
load_two b o x y h = (cc, cc)

load_four :
    (b : Buf) (o x y z w : ℕ)
    → load_all b o 4 ≡ x ∷ y ∷ z ∷ w ∷ []
    → (load b o ≡ x) × (load b (o + 1) ≡ y) × (load b (o + 2) ≡ z) × (load b (o + 3) ≡ w)
unfolding load_all
load_four b o x y z w h =
    let third : load b (o + 2) ≡ load b (o + 1 + 1) = ap (load b) (omega arith) in
    let fourth : load b (o + 3) ≡ load b (o + 1 + 1 + 1) = ap (load b) (omega arith) in
    (cc, cc, cc, cc)

module _ (b : Buf) (offset : ℤ) (v : ℕ) {r : ℕ × Buf} (valid : IsValid b)
    (low : pos_part offset + 4 < 2 ^ 31) where
  -- A byte that a write of a valid buffer accepts is read back as it was; the write returns
  -- the number of bytes, the buffer names the same part of its allocation, and every byte outside
  -- those written stays.
  write_u8-Wrote : write_u8 b offset v ≡ some r → Wrote b offset 1 read_u8 v r
  unfolding write_u8 store_all load_all read_u8
  write_u8-Wrote h =
      encoded-Wrote read_u8 (v ∷ []) v (λ b offset o i l. rw i (ground arith)) b offset valid
        (omega arith) h

  -- A 16-bit value that a write of a valid buffer in little-endian order accepts is read back as it
  -- was; the write returns the number of bytes, the buffer names the same part of its allocation, and
  -- every byte outside those written stays. The sum of the offset and 4 is in the range of `int`.
  write_le16-Wrote : v < 2 ^ 16 → write_le16 b offset v ≡ some r → Wrote b offset 2 read_le16 v r
  unfolding write_le16 store_all read_le16
  write_le16-Wrote small h =
      encoded-Wrote read_le16 (v % 256 ∷ v / 256 ∷ []) v
        (λ b offset o i l.
          let (x, y) = load_two b o (v % 256) (v / 256) l in
          rw i (ap (λ n. some (2, n)) (omega arith)))
        b offset valid (omega arith) h

  -- A 16-bit value that a write of a valid buffer in big-endian order accepts is read back as it
  -- was; the write returns the number of bytes, the buffer names the same part of its allocation, and
  -- every byte outside those written stays. The sum of the offset and 4 is in the range of `int`.
  write_be16-Wrote : v < 2 ^ 16 → write_be16 b offset v ≡ some r → Wrote b offset 2 read_be16 v r
  unfolding write_be16 store_all read_be16
  write_be16-Wrote small h =
      encoded-Wrote read_be16 (v / 256 ∷ v % 256 ∷ []) v
        (λ b offset o i l.
          let (x, y) = load_two b o (v / 256) (v % 256) l in
          rw i (ap (λ n. some (2, n)) (omega arith)))
        b offset valid (omega arith) h

  -- A 32-bit value that a write of a valid buffer in little-endian order accepts is read back as it
  -- was; the write returns the number of bytes, the buffer names the same part of its allocation, and
  -- every byte outside those written stays. The sum of the offset and 4 is in the range of `int`.
  pub write_le32-Wrote :
      v < 2 ^ 32 → write_le32 b offset v ≡ some r → Wrote b offset 4 read_le32 v r
  unfolding write_le32 read_le32
  write_le32-Wrote small h =
      encoded-Wrote read_le32 (v % 256 ∷ v / 256 % 256 ∷ v / 65536 % 256 ∷ v / 16777216 ∷ []) v
        (λ b offset o i l.
          let (x, y, z, w) = load_four b o _ _ _ _ l in rw i (ap (λ n. some (4, n)) (omega arith)))
        b offset valid (omega arith) h

  -- A 32-bit value that a write of a valid buffer in big-endian order accepts is read back as it
  -- was; the write returns the number of bytes, the buffer names the same part of its allocation, and
  -- every byte outside those written stays. The sum of the offset and 4 is in the range of `int`.
  write_be32-Wrote : v < 2 ^ 32 → write_be32 b offset v ≡ some r → Wrote b offset 4 read_be32 v r
  unfolding write_be32 read_be32
  write_be32-Wrote small h =
      encoded-Wrote read_be32 (v / 16777216 ∷ v / 65536 % 256 ∷ v / 256 % 256 ∷ v % 256 ∷ []) v
        (λ b offset o i l.
          let (x, y, z, w) = load_four b o _ _ _ _ l in rw i (ap (λ n. some (4, n)) (omega arith)))
        b offset valid (omega arith) h

-- A sequence of bytes that a write of a valid buffer accepts is read back as
-- it was; the write returns the number of bytes, the buffer names the same part of its allocation,
-- and every byte outside those written stays.
write_bytes-Wrote :
    (b : Buf) (offset : ℤ) (vs : List ℕ) {r : ℕ × Buf}
    → IsValid b
    → pos_part offset + length vs < 2 ^ 31
    → write_bytes b offset vs ≡ some r
    → Wrote b offset (length vs) (λ b offset. read_bytes b offset (length vs)) vs r
unfolding write_bytes read_bytes
write_bytes-Wrote b offset vs valid low h =
    encoded-Wrote (λ b offset. read_bytes b offset (length vs)) vs vs
      (λ b offset o i l. rw i (ap (λ l. some (length vs, l)) l)) b offset valid (omega arith) h

-- An address of six octets that a write of a valid buffer accepts is read back as
-- it was; the write returns the number of bytes, the buffer names the same part of its allocation,
-- and every byte outside those written stays.
write_ether_addr-Wrote :
    (b : Buf) (offset : ℤ) (x y z u v w : ℕ) {r : ℕ × Buf}
    → IsValid b
    → pos_part offset + 6 < 2 ^ 31
    → write_ether_addr b offset (x ∷ y ∷ z ∷ u ∷ v ∷ w ∷ []) ≡ some r
    → Wrote b offset 6 read_ether_addr (x ∷ y ∷ z ∷ u ∷ v ∷ w ∷ []) r
unfolding write_ether_addr read_ether_addr
write_ether_addr-Wrote b offset x y z u v w valid low h =
    encoded-Wrote read_ether_addr (x ∷ y ∷ z ∷ u ∷ v ∷ w ∷ []) (x ∷ y ∷ z ∷ u ∷ v ∷ w ∷ [])
      (λ b offset o i l. rw i (ap (λ l. some (6, l)) l)) b offset valid (omega arith) h
