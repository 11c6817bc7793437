-- ===== src/Hashmap/Get.antt =====
-- `hashmap_get`, with and without removal.
use owl.Base.{
  ℕ, ◌+◌, ◌≡◌, refl, sym, ap, subst, inl, inr, if◌then◌else◌, Bool, true, false, Bool-cases, Option,
  none, some, Option-cases, List, arith,
}
use owl.Hashmap.{Hashmap, MapStatus, ok, missing}
use owl.Hashmap.Ops.{same_key, blank, lookup, get}
use owl.Hashmap.Update.{blank_lem}
use owl.Hashmap.Valid.{IsValid, value, view, Updates, lookup-same}

abbrev length_of : {V : Type 0} → Option V → ℕ
length_of none = 0
length_of (some _) = 1

module _ {V : Type 0} (hash : List ℕ → ℕ) where
  Updates-unchanged : (m : Hashmap V) (key : List ℕ) → Updates hash m m key (view hash m key)
  Updates-unchanged m key key' = elim (Bool-cases (same_key m.key_size key key')) [
    | inl same ↦ rw same (sym (ap value (lookup-same hash m key key' same)))
    | inr differ ↦ rw differ refl
  ]

  get-missing :
      (m : Hashmap V) (key : List ℕ) (remove : Bool)
      → lookup hash m key ≡ none
      → get hash m key remove ≡ (m, missing, none)
  unfolding get
  get-missing m key remove e = rw (get, e) refl

  get-found :
      (m : Hashmap V) (key : List ℕ) (remove : Bool) {i : ℕ} {v : V}
      → lookup hash m key ≡ some (i, v)
      → get hash m key remove ≡ (if remove then blank m i else m, ok, some v)
  unfolding get
  get-found m key remove e = rw (get, e) refl

  -- What `hashmap_get` does, by what the key finds before.
  abbrev pub Gets : Hashmap V → List ℕ → Bool → Option V → Hashmap V × MapStatus × Option V → Type 0
  Gets m key remove old r =
      IsValid hash r.0
      × (r.2 ≡ old)
      × (r.1 ≡ elim old [ none ↦ missing | some _ ↦ ok ])
      × Updates hash m r.0 key (if remove then none else old)
      × (if remove then r.0.size + length_of old else r.0.size) ≡ m.size

  found_Gets :
      (m : Hashmap V) (key : List ℕ) (remove : Bool) (i : ℕ) (v : V)
      → IsValid hash m
      → lookup hash m key ≡ some (i, v)
      → Gets m key remove (some v) (if remove then blank m i else m, ok, some v)
  found_Gets m key true i v valid e =
      let (valid', gone, less) = blank_lem hash m i key v valid e in
      (valid', refl, refl, gone, less)
  found_Gets m key false i v valid e =
      (valid, refl, refl, rw (← ap value e) (Updates-unchanged m key), refl)

  missing_Gets :
      (m : Hashmap V) (key : List ℕ) (remove : Bool)
      → IsValid hash m
      → view hash m key ≡ none
      → Gets m key remove none (m, missing, none)
  missing_Gets m key true valid e =
      (valid, refl, refl, rw (← e) (Updates-unchanged m key), omega arith)
  missing_Gets m key false valid e = (valid, refl, refl, rw (← e) (Updates-unchanged m key), refl)

  -- A lookup changes nothing. A removal of a key that is there returns its data and takes it, and no
  -- other key, out of the table, and one off the size. A key that is not there changes nothing.
  pub get_lem :
      (m : Hashmap V) (key : List ℕ) (remove : Bool)
      → IsValid hash m
      → Gets m key remove (view hash m key) (get hash m key remove)
  get_lem m key remove valid = elim (Option-cases (lookup hash m key)) [
    | inl e ↦ subst (Gets m key remove (view hash m key)) (sym (get-missing m key remove e)) (
        subst (λ o. Gets m key remove o (m, missing, none)) (sym (ap value e))
          (missing_Gets m key remove valid (ap value e)))
    | inr ((i, v), e) ↦
        subst (Gets m key remove (view hash m key)) (sym (get-found m key remove e)) (
          subst (λ o. Gets m key remove o (if remove then blank m i else m, ok, some v))
            (sym (ap value e)) (found_Gets m key remove i v valid e))
  ]

  pub get-key_size :
      (m : Hashmap V) (key : List ℕ) (remove : Bool)
      → (get hash m key remove).0.key_size ≡ m.key_size
  unfolding get blank
  get-key_size m key remove = ground arith
