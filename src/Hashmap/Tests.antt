-- ===== src/Hashmap/Tests.antt =====
-- Tests of the hash map, and its theorems at concrete inputs.
use owl.Base.{
  ℕ, zero, suc, ◌≡◌, refl, subst, leb, leb→le, Bool, true, false, none, some, List, [], ◌∷◌, get_or,
  arith,
}
use owl.Base.Int.{pos}
use owl.Base.Order.{memcmp}
use owl.Hashmap.{Hashmap, ok, omem, missing}
use owl.Hashmap.Get.{Gets, get_lem}
use owl.Hashmap.Ops.{at, lookup, find, get, granted, put, it_new, it_next, it_remove}
use owl.Hashmap.Put.{put_lem}
use owl.Hashmap.Rehash.{Returns, with_entry}
use owl.Hashmap.Valid.{IsValid, view}

-- Keys of one byte, which is their hash, and memory for eight slots.
abbrev first_byte : List ℕ → ℕ
first_byte k = get_or k 0 0

abbrev eight_slots : ℕ → Bool
eight_slots n = leb n 8

abbrev pair : Hashmap ℕ
pair = record { table_size = 2; size = 1; key_size = 1; slots = none ∷ some (1 ∷ [], 5) ∷ [] }

-- The table is half full, so that it is doubled first.
put-rehash :
    put first_byte eight_slots 9 pair (6 ∷ []) 7
    ≡ some (
      record {
        table_size = 4;
        size = 2;
        key_size = 1;
        slots = none ∷ some (1 ∷ [], 5) ∷ some (6 ∷ [], 7) ∷ none ∷ [];
      },
      ok,
    )
unfolding put granted memcmp
put-rehash = refl

put-omem : put first_byte (λ _. false) 9 pair (6 ∷ []) 7 ≡ some (pair, omem)
unfolding put granted memcmp
put-omem = refl

get-removes :
    get first_byte pair (1 ∷ []) true
    ≡ (record pair { size = 0; slots = none ∷ none ∷ [] }, ok, some 5)
unfolding get memcmp
get-removes = refl

it_next-first : it_next (it_new pair) ≡ (record { map = pair; i = pos 1 }, some (1 ∷ [], 5))
unfolding it_new it_next
it_next-first = refl

it_remove-first : (it_remove (it_new pair)).1 ≡ missing
unfolding it_new it_remove
it_remove-first = refl

pair-found :
    (i : ℕ) (k : List ℕ) (v : ℕ) → at pair i ≡ some (k, v) → lookup first_byte pair k ≡ some (i, v)
unfolding find memcmp
pair-found zero k v e = cc
pair-found (suc zero) k v e =
    subst (λ o. elim o [ none ↦ Unit {0} | some (k, v) ↦ lookup first_byte pair k ≡ some (1, v) ]) e
      refl
pair-found (suc (suc i)) k v e = cc

pair-IsValid : IsValid first_byte pair
pair-IsValid = record {
  positive = omega arith;
  width = refl;
  counted = omega arith;
  found = pair-found;
}

pair-absent : view first_byte pair (6 ∷ []) ≡ none
unfolding find memcmp
pair-absent = refl

put_lem_example :
    Returns first_byte
      (put first_byte eight_slots 9 pair (6 ∷ []) 7)
      pair
      (with_entry first_byte pair (6 ∷ []) 7)
      (view first_byte pair)
put_lem_example =
    put_lem first_byte eight_slots 8 (λ n h. leb→le n 8 h) 9 pair (6 ∷ []) 7 (omega arith)
      (omega arith) pair-IsValid pair-absent

get_lem_example :
    Gets first_byte pair
      (1 ∷ [])
      true
      (view first_byte pair (1 ∷ []))
      (get first_byte pair (1 ∷ []) true)
get_lem_example = get_lem first_byte pair (1 ∷ []) true pair-IsValid
