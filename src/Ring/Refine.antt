-- ===== src/Ring/Refine.antt =====
-- A valid circular buffer of src/circular_buffer.c behaves as the queue of its elements.
use native.Mathlib.Nat.{mod-eq_of_lt, add-mod_right, mod-add-mod}
use owl.Base.{
  ℕ, suc, ◌+◌, ◌-◌, ◌%◌, ◌^◌, ◌≤◌, ◌<◌, ◌≡◌, refl, sym, ap, ◌∙◌, arith, List, [], ◌∷◌, ◌++◌, length,
  length-set, set, get_or, ==_true, ==_false, Bool, true, false, some, Bool-cases, inl, inr, ◌==◌,
}
use owl.Ring.{CircularBuf, init, size, capacity, empty, full, put, put2, get, retreat_pointer}
use owl.Ring.Queue
use owl.Ring.Distance.{
  distance, distance-lt, add-distance, distance_next, distance_meets, next_no_wrap,
  distance_retreat, distance_turn,
}
use owl.Ring.Window.{window, length-window, window-set, window_of_pos}

-- The storage holds `max` pointers, which is far below the address space.
pub record IsValid (c : CircularBuf) : Type 0 where
  pub storage : c.max ≤ length c.buffer
  pub small : c.max < 2 ^ 63
  pub head_in : c.head < c.max
  pub tail_in : c.tail < c.max
  pub meet : c.full ≡ true → c.head ≡ c.tail

abbrev pub contents : CircularBuf → List ℕ
contents c = window c.buffer c.max c.tail (size c)

size-room : (c : CircularBuf) → c.full ≡ false → size c ≡ distance c.max c.tail c.head
unfolding size
size-room c f = rw f

size-full : (c : CircularBuf) → c.full ≡ true → size c ≡ c.max
unfolding size
size-full c f = rw f

-- The size in both cases, and the index behind the last element.
size_facts :
    (c : CircularBuf)
    → IsValid c
    → (size c ≤ c.max)
      × (c.full ≡ true → size c ≡ c.max)
      × (c.full ≡ false → size c < c.max)
      × (c.head ≡ (c.tail + size c) % c.max)
size_facts c v = elim (Bool-cases c.full) [
  | inl f ↦
      let all = size-full c f in
      let back : c.head ≡ (c.tail + size c) % c.max =
        v.meet f
        ∙ sym (mod-eq_of_lt v.tail_in)
        ∙ sym (add-mod_right c.tail c.max)
        ∙ ap (λ k. (c.tail + k) % c.max) (sym all) in
      (omega arith, λ _. all, λ r. cc, back)
  | inr r ↦
      let some_room = size-room c r in
      let below = distance-lt c.max c.tail c.head v.small v.tail_in v.head_in in
      let back : c.head ≡ (c.tail + size c) % c.max =
        sym (add-distance c.max c.tail c.head v.small v.tail_in v.head_in)
        ∙ ap (λ k. (c.tail + k) % c.max) (sym some_room) in
      (omega arith, λ f. cc, λ _. omega arith, back)
]

-- A buffer that `circular_buf_init` makes for a positive size below 2^63, over an allocation
-- of that many slots with any contents, is valid, empty and of that capacity.
pub init-IsValid :
    (slots : List ℕ) (n : ℕ) {c : CircularBuf}
    → n ≤ length slots
    → n < 2 ^ 63
    → init slots n ≡ some c
    → IsValid c × (contents c ≡ []) × (empty c ≡ true) × (capacity c ≡ n)
unfolding init size empty capacity
init-IsValid slots n h small e = ground arith

put-IsValid : (c : CircularBuf) (x : ℕ) → IsValid c → IsValid (put c x)
unfolding put
put-IsValid c x v = ground (arith, length-set c.buffer c.head x)

size-put_full : (c : CircularBuf) (x : ℕ) → IsValid c → c.full ≡ true → size (put c x) ≡ c.max
unfolding put size
size-put_full c x v f = ground arith

size-put_room : (c : CircularBuf) (x : ℕ) → IsValid c → c.full ≡ false → size (put c x) ≡ size c + 1
unfolding put size
size-put_room c x v f = ground (
  arith,
  distance_next c.max c.tail c.head v.small v.tail_in v.head_in,
  distance_meets c.max c.tail c.head v.small v.tail_in v.head_in,
)

contents-put_room :
    (c : CircularBuf) (x : ℕ)
    → IsValid c
    → c.full ≡ false
    → contents (put c x) ≡ contents c ++ (x ∷ [])
unfolding put
contents-put_room c x v f =
    let (le, _, room, behind) = size_facts c v in
    let kept : (put c x).tail ≡ c.tail = unfold put in rw f in
    let stored : (put c x).buffer ≡ set c.buffer c.head x = unfold put in refl in
    let same : (put c x).max ≡ c.max = unfold put in refl in
    let counted : size (put c x) ≡ suc (size c) = omega (arith, size-put_room c x v f) in
    rw (counted, stored, same, kept)
      (window-set c.buffer c.max x (size c) c.tail c.head v.storage v.tail_in (room f) behind)

contents-put_full :
    (c : CircularBuf) (x : ℕ)
    → IsValid c
    → c.full ≡ true
    → contents (put c x) ≡ Queue.tail (contents c) ++ (x ∷ [])
unfolding put
contents-put_full c x v f =
    let t = c.tail in
    let m = c.max in
    let step = next_no_wrap m t t v.small v.tail_in v.tail_in in
    let kept : (put c x).tail ≡ (t + 1) % m = unfold put in rw (f, step) in
    let stored : (put c x).buffer ≡ set c.buffer c.head x = unfold put in refl in
    let same : (put c x).max ≡ m = unfold put in refl in
    let counted : size (put c x) ≡ suc (m - 1) = omega (arith, size-put_full c x v f, v.tail_in) in
    let round : c.head ≡ ((t + 1) % m + (m - 1)) % m =
      v.meet f
      ∙ sym (mod-eq_of_lt v.tail_in)
      ∙ sym (add-mod_right t m)
      ∙ ap (λ k. k % m) (omega (arith, v.tail_in))
      ∙ sym (mod-add-mod (t + 1) m (m - 1)) in
    let rest : Queue.tail (contents c) ≡ window c.buffer m ((t + 1) % m) (m - 1) = ap Queue.tail (
      ap (window c.buffer m t) (size-full c f)
      ∙ window_of_pos c.buffer m t m (omega (arith, v.tail_in))) in
    rw (counted, stored, same, kept, rest)
      (window-set c.buffer m x (m - 1) ((t + 1) % m) c.head v.storage (omega (arith, v.tail_in))
        (omega (arith, v.tail_in)) round)

length-contents : (c : CircularBuf) → length (contents c) ≡ size c
length-contents c = length-window c.buffer c.max c.tail (size c)

is_full : (c : CircularBuf) → IsValid c → full c ≡ (length (contents c) == c.max)
unfolding full
is_full c v =
    let (le, all, room, _) = size_facts c v in
    let n = length-contents c in
    elim (Bool-cases c.full) [
      | inl f ↦ f ∙ sym (==_true _ _ (n ∙ all f))
      | inr f ↦ f ∙ sym (==_false _ _ (omega (arith, room f)))
    ]

pos_of_test : (n : ℕ) → (n == 0) ≡ false → 0 < n
pos_of_test n h = ground arith

zero_of_test : (n : ℕ) → (n == 0) ≡ true → n ≡ 0
zero_of_test n h = ground arith

is_empty : (c : CircularBuf) → IsValid c → empty c ≡ (length (contents c) == 0)
unfolding empty size
is_empty c v = rw (length-contents c) (ground (arith, v.tail_in, v.head_in, v.small))

-- The queries of a valid buffer are those of its queue.
pub queries_refine :
    (c : CircularBuf)
    → IsValid c
    → (size c ≡ length (contents c))
      × (full c ≡ (length (contents c) == c.max))
      × (empty c ≡ (length (contents c) == 0))
queries_refine c v = (sym (length-contents c), is_full c v, is_empty c v)

-- `circular_buf_put` on a valid buffer keeps it valid and does what the specification says: it
-- drops the oldest element if the buffer is full, and appends the new one.
pub put_refines :
    (c : CircularBuf) (x : ℕ)
    → IsValid c
    → IsValid (put c x) × (contents (put c x) ≡ Queue.put c.max (contents c) x)
unfolding Queue.put
put_refines c x v =
    let test = is_full c v in
    (
      put-IsValid c x v,
      elim (Bool-cases (full c)) [
        | inl f ↦ rw (sym test ∙ f) (contents-put_full c x v (unfold full in f))
        | inr f ↦ rw (sym test ∙ f) (contents-put_room c x v (unfold full in f))
      ],
    )

-- `circular_buf_put2` on a valid buffer keeps it valid and does what the specification says, with
-- the same answer: it refuses if the buffer is full, and appends otherwise.
put2_refines :
    (c : CircularBuf) (x : ℕ)
    → IsValid c
    → let (r, c') = put2 c x in IsValid c' × ((r, contents c') ≡ Queue.put2 c.max (contents c) x)
unfolding Queue.put2 put2
put2_refines c x v =
    let test = is_full c v in
    elim (Bool-cases (full c)) [
      | inl f ↦ rw (f, sym test ∙ f) (v, refl)
      | inr f ↦
          rw (f, sym test ∙ f)
            (put-IsValid c x v, ap (λ q. (true, q)) (contents-put_room c x v (unfold full in f)))
    ]

size_zero : (c : CircularBuf) → IsValid c → empty c ≡ true → size c ≡ 0
size_zero c v e =
    zero_of_test (size c) (sym (ap (λ n. n == 0) (length-contents c)) ∙ sym (is_empty c v) ∙ e)

-- A buffer that is not empty shows its first element, and without it one less.
size_pos : (c : CircularBuf) → IsValid c → empty c ≡ false → 0 < size c
size_pos c v e = omega (
  arith,
  pos_of_test (size c) (sym (ap (λ n. n == 0) (length-contents c)) ∙ sym (is_empty c v) ∙ e),
)

size-retreat :
    (c : CircularBuf) → IsValid c → empty c ≡ false → size (retreat_pointer c) ≡ size c - 1
unfolding size retreat_pointer empty
size-retreat c v e = ground (
  arith,
  v,
  distance_retreat c.max c.head c.tail v.small v.head_in v.tail_in,
  distance_turn c.max c.tail c.tail v.small v.tail_in v.tail_in,
)

retreat-IsValid : (c : CircularBuf) → IsValid c → IsValid (retreat_pointer c)
unfolding retreat_pointer
retreat-IsValid c v = ground arith

contents-retreat :
    (c : CircularBuf)
    → IsValid c
    → empty c ≡ false
    → contents c ≡ get_or c.buffer c.tail 0 ∷ contents (retreat_pointer c)
unfolding retreat_pointer
contents-retreat c v e =
    rw (size-retreat c v e, next_no_wrap c.max c.tail c.tail v.small v.tail_in v.tail_in)
      (window_of_pos c.buffer c.max c.tail (size c) (size_pos c v e))

taken :
    (c : CircularBuf) (peek : Bool)
    → IsValid c
    → empty c ≡ false
    → let (r, c') = get c peek in IsValid c' × ((r, contents c') ≡ Queue.get (contents c) peek)
unfolding Queue.get get
taken c true v e = rw (e, window_of_pos c.buffer c.max c.tail (size c) (size_pos c v e)) (v, refl)
taken c false v e = rw (e, contents-retreat c v e) (retreat-IsValid c v, refl)

-- `circular_buf_get` on a valid buffer keeps it valid and does what the specification says, with
-- the same answer, whether the element is removed or left in place.
pub get_refines :
    (c : CircularBuf) (peek : Bool)
    → IsValid c
    → let (r, c') = get c peek in IsValid c' × ((r, contents c') ≡ Queue.get (contents c) peek)
unfolding Queue.get get
get_refines c peek v =
    let test = is_empty c v in
    elim (Bool-cases (empty c)) [
      | inl e ↦
          let none_left : contents c ≡ [] = ap (window c.buffer c.max c.tail) (size_zero c v e) in
          rw (e, none_left) (v, refl)
      | inr e ↦ taken c peek v e
    ]
