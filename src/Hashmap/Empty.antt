-- ===== src/Hashmap/Empty.antt =====
-- The new table of `hashmap_new`, and the zeroed slots of `hashmap_rehash`.
use owl.Base.{
  ℕ, zero, suc, ◌≡◌, ◌<◌, refl, sym, ap, ◌∙◌, none, List, replicate, length-replicate,
  get_or-replicate, arith,
}
use owl.Hashmap.{Hashmap, new, initial_size}
use owl.Hashmap.Ops.{max_chain_length, held, hash_int}
use owl.Hashmap.Probe.{find-none}
use owl.Hashmap.Valid.{IsValid, value, view, none-ne_some}
use owl.Hashmap.Write.{used}

used-replicate : (V : Type 0) (n : ℕ) → used {V = V} (replicate n none) ≡ 0
used-replicate V zero = refl
used-replicate V (suc n) = used-replicate V n

abbrev pub empty : {V : Type 0} → ℕ → ℕ → Hashmap V
empty n key_size = record {
  table_size = n;
  size = 0;
  key_size = key_size;
  slots = replicate n none;
}

module _ (V : Type 0) (hash : List ℕ → ℕ) (n key_size : ℕ) where
  pub empty-IsValid : 0 < n → IsValid {V = V} hash (empty n key_size)
  empty-IsValid pos = record {
    positive = pos;
    width = length-replicate n none;
    counted = omega (arith, used-replicate V n);
    found = λ i k v e. absurd (none-ne_some (sym (get_or-replicate n i none) ∙ e));
  }

  pub view-empty : (key : List ℕ) → view {V = V} hash (empty n key_size) key ≡ none
  view-empty key = ap value (
      find-none max_chain_length (empty n key_size) key
        (hash_int {V = V} hash (empty n key_size) key)
        (λ j. ap (held {V = V} key_size key) (get_or-replicate n j none)))

-- The table of `hashmap_new` is sound and empty.
pub new_lem :
    (V : Type 0) (hash : List ℕ → ℕ) (key_size : ℕ)
    → IsValid {V = V} hash (new key_size)
      × ((key : List ℕ) → view {V = V} hash (new key_size) key ≡ none)
unfolding new
new_lem V hash key_size = (
  empty-IsValid V hash initial_size key_size (omega arith),
  view-empty V hash initial_size key_size,
)
