-- ===== src/Ring/Window.antt =====
-- The elements of a circular array from an index on, and what a write does to them.
use native.Mathlib.Nat.{mod-eq_of_lt, mod-eq-sub-mod, mod-add-mod}
use native.Mathlib.Decide.{dec_lt}
use owl.Base.{
  ℕ, zero, suc, ◌+◌, ◌-◌, ◌%◌, ◌≤◌, ◌<◌, ◌≡◌, refl, sym, ap, ap₂, ◌∙◌, ◌≢◌, arith, List, [], ◌∷◌,
  ◌++◌, length, get_or, set, get_or-set_self, get_or-set_ne,
}

-- `n` elements of `buf` from index `h` on, where index `max` is index 0 again.
abbrev pub window : List ℕ → ℕ → ℕ → ℕ → List ℕ
window buf max h zero = []
window buf max h (suc n) = get_or buf h 0 ∷ window buf max ((h + 1) % max) n

pub length-window : (buf : List ℕ) (max h n : ℕ) → length (window buf max h n) ≡ n
length-window buf max h zero = refl
length-window buf max h (suc n) = ap suc (length-window buf max ((h + 1) % max) n)

-- A walk of at least one and fewer than `max` steps ends elsewhere.
walk_ne : (max h k : ℕ) → h < max → suc k < max → (h + suc k) % max ≢ h
walk_ne max h k hh hk = elim (dec_lt (h + suc k) max) [
  | yes p ↦ omega (arith, mod-eq_of_lt p)
  | no p ↦
      let once : (h + suc k) % max ≡ (h + suc k - max) % max = mod-eq-sub-mod (omega arith) in
      let short : (h + suc k - max) % max ≡ h + suc k - max = mod-eq_of_lt (omega arith) in
      omega arith
]

shift : (max h n : ℕ) → (h + suc n) % max ≡ ((h + 1) % max + n) % max
shift max h n = ap (λ k. k % max) (omega arith) ∙ sym (mod-add-mod (h + 1) max n)

-- A write just behind `n` elements, of which the array can hold one more, adds an element.
pub window-set :
    (buf : List ℕ) (max x n h i : ℕ)
    → max ≤ length buf
    → h < max
    → n < max
    → i ≡ (h + n) % max
    → window (set buf i x) max h (suc n) ≡ window buf max h n ++ (x ∷ [])
window-set buf max x zero h i room hh hn e =
    let here : i ≡ h = e ∙ ap (λ k. k % max) (omega arith) ∙ mod-eq_of_lt hh in
    ap (λ v. v ∷ []) (rw here (get_or-set_self buf h x 0 (omega arith)))
window-set buf max x (suc n) h i room hh hn e =
    let other : i ≢ h = λ same. walk_ne max h n hh hn (sym e ∙ same) in
    ap₂ ◌∷◌ (get_or-set_ne buf i h x 0 other) (
      window-set buf max x n ((h + 1) % max) i room (omega arith) (omega arith) (e ∙ shift max h n))

-- A window that is not empty begins with the element at its index.
pub window_of_pos :
    (buf : List ℕ) (max h n : ℕ)
    → 0 < n
    → window buf max h n ≡ get_or buf h 0 ∷ window buf max ((h + 1) % max) (n - 1)
window_of_pos buf max h zero p = elim p [ ]
window_of_pos buf max h (suc n) p = ap (λ k. window buf max h (suc k)) (omega arith)
