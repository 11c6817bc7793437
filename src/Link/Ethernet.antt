-- ===== src/Link/Ethernet.antt =====
-- The bytes of an Ethernet frame that src/rx.c writes into a new buffer.
use owl.Base.{
  ℕ, zero, suc, ◌+◌, ◌/◌, ◌%◌, ◌≤◌, ◌<◌, ◌≡◌, refl, sym, ap, ◌∙◌, List, [], ◌∷◌, ◌++◌, length,
  length-append, take, drop, get_or, arith,
}
use owl.Base.Int.{pos, ◌+ℤ◌}
use owl.Election.{EtherAddr}
use owl.Rx.Data.{write_next, ethernet_frame}
use owl.Wire.Bounds.{IsValid, within_pos}
use owl.Wire.RoundTrip.{load_all-store_all, store_all-SameShape}
use owl.Wire.{
  Buf, bytes_of, load, load_all, store, store_all, write_ether_addr, write_be16, write_bytes,
}

-- The bytes of an Ethernet frame.
abbrev pub ethernet : EtherAddr → EtherAddr → ℕ → List ℕ → List ℕ
ethernet dst src type payload = dst ++ (src ++ (type / 256 ∷ type % 256 ∷ payload))

store_all-append :
    (b : Buf) (xs ys : List ℕ) (o : ℕ)
    → store_all (store_all b o xs) (o + length xs) ys ≡ store_all b o (xs ++ ys)
unfolding store_all
store_all-append b [] ys o = ap (λ n. store_all b n ys) (omega arith)
store_all-append b (x ∷ xs) ys o =
    ap (λ n. store_all (store_all (store b o x) (o + 1) xs) n ys) (omega arith)
    ∙ store_all-append (store b o x) xs ys (o + 1)

plus_pos : (o n : ℕ) → pos o +ℤ pos n ≡ pos (o + n)
unfolding ◌+ℤ◌
plus_pos o n = ground arith

-- A write of six bytes, of two or of any number, at an offset where there is room.
address-next :
    (b : Buf) (o : ℕ) (addr : EtherAddr)
    → o + 6 ≤ b.len
    → write_next (λ b o. write_ether_addr b o addr) (b, pos o) ≡ (store_all b o addr, pos (o + 6))
unfolding write_next write_ether_addr
address-next b o addr room = rw (write_next, within_pos b o 6 room, plus_pos o 6) refl

type-next :
    (b : Buf) (o type : ℕ)
    → o + 2 ≤ b.len
    → write_next (λ b o. write_be16 b o type) (b, pos o)
      ≡ (store_all b o (type / 256 ∷ type % 256 ∷ []), pos (o + 2))
unfolding write_next write_be16 store_all
type-next b o type room = rw (write_next, within_pos b o 2 room, plus_pos o 2) refl

bytes-next :
    (b : Buf) (o : ℕ) (bytes : List ℕ)
    → o + length bytes ≤ b.len
    → (write_next (λ b o. write_bytes b o bytes) (b, pos o)).0 ≡ store_all b o bytes
unfolding write_next write_bytes
bytes-next b o bytes room = rw (write_next, within_pos b o (length bytes) room) refl

ethernet_frame-store_all :
    (fresh : Buf) (dst src : EtherAddr) (type : ℕ) (payload : List ℕ)
    → length dst ≡ 6
    → length src ≡ 6
    → 14 + length payload ≤ fresh.len
    → ethernet_frame fresh dst src type payload ≡ store_all fresh 0 (ethernet dst src type payload)
unfolding ethernet_frame
ethernet_frame-store_all fresh dst src type payload dst_six src_six room =
    let b1 = store_all fresh 0 dst in
    let b2 = store_all b1 6 src in
    let b3 = store_all b2 12 (type / 256 ∷ type % 256 ∷ []) in
    let (_, len1, _) = store_all-SameShape fresh dst 0 in
    let (_, len2, _) = store_all-SameShape b1 src 6 in
    let (_, len3, _) = store_all-SameShape b2 (type / 256 ∷ type % 256 ∷ []) 12 in
    let to_type = write_next (λ b o. write_be16 b o type) in
    let to_end = write_next (λ b o. write_bytes b o payload) in
    let to_src = write_next (λ b o. write_ether_addr b o src) in
    let rest = type / 256 ∷ type % 256 ∷ payload in
    let six : 6 ≡ 0 + length dst = omega (arith, dst_six) in
    ap (λ h. (to_end (to_type (to_src h))).0) (address-next fresh 0 dst (omega arith))
    ∙ ap (λ h. (to_end (to_type h)).0) (address-next b1 6 src (omega arith))
    ∙ ap (λ h. (to_end h).0) (type-next b2 12 type (omega arith))
    ∙ bytes-next b3 14 payload (omega arith)
    ∙ store_all-append b2 (type / 256 ∷ type % 256 ∷ []) payload 12
    ∙ ap (λ n. store_all b2 n rest) (ap (λ m. 6 + m) (sym src_six))
    ∙ store_all-append b1 src rest 6
    ∙ ap (λ n. store_all b1 n (src ++ rest)) six
    ∙ store_all-append fresh dst (src ++ rest) 0

drop-suc : (l : List ℕ) (i : ℕ) → i < length l → drop i l ≡ get_or l i 0 ∷ drop (suc i) l
drop-suc [] i h = elim h [ ]
drop-suc (x ∷ l) zero h = refl
drop-suc (x ∷ l) (suc i) h = drop-suc l i (omega arith)

load_all-take :
    (b : Buf) (o n : ℕ)
    → b.data_at + o + n ≤ length b.orig
    → load_all b o n ≡ take n (drop (b.data_at + o) b.orig)
unfolding load_all load
load_all-take b o zero h = refl
load_all-take b o (suc n) h =
    let next : b.data_at + (o + 1) ≡ suc (b.data_at + o) = omega arith in
    rw (drop-suc b.orig (b.data_at + o) (omega arith)) (
      ap (λ l. load b o ∷ l)
        (load_all-take b (o + 1) n (omega arith) ∙ ap (λ i. take n (drop i b.orig)) next))

take-take : (n m : ℕ) (l : List ℕ) → n ≤ m → take n (take m l) ≡ take n l
take-take zero m l h = refl
take-take (suc n) zero l h = elim h [ ]
take-take (suc n) (suc m) [] h = refl
take-take (suc n) (suc m) (x ∷ l) h = ap (λ r. x ∷ r) (take-take n m l (omega arith))

-- What the host is sent begins with the frame.
pub ethernet_frame-bytes :
    (fresh : Buf) (dst src : EtherAddr) (type : ℕ) (payload : List ℕ)
    → IsValid fresh
    → length dst ≡ 6
    → length src ≡ 6
    → 14 + length payload ≤ fresh.len
    → take (14 + length payload) (bytes_of (ethernet_frame fresh dst src type payload))
      ≡ ethernet dst src type payload
unfolding bytes_of
ethernet_frame-bytes fresh dst src type payload valid dst_six src_six room =
    let eth = ethernet dst src type payload in
    let size : length eth ≡ 14 + length payload = omega (
      arith,
      length-append dst (src ++ (type / 256 ∷ type % 256 ∷ payload)),
      length-append src (type / 256 ∷ type % 256 ∷ payload),
      dst_six,
      src_six,
    ) in
    let b = store_all fresh 0 eth in
    let (at, len, whole) = store_all-SameShape fresh eth 0 in
    rw (ethernet_frame-store_all fresh dst src type payload dst_six src_six room) (
      take-take (14 + length payload) b.len (drop b.data_at b.orig) (omega arith)
      ∙ ap (λ n. take n (drop b.data_at b.orig)) (sym size)
      ∙ ap (λ i. take (length eth) (drop i b.orig)) (omega arith)
      ∙ sym (load_all-take b 0 (length eth) (omega arith))
      ∙ load_all-store_all fresh eth 0 (omega arith))
