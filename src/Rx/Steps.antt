-- ===== src/Rx/Steps.antt =====
-- How a handler of src/rx.c goes on after a step that succeeds.
use owl.Base.{ℕ, ◌≡◌, refl, Bool, true, Option, some, ap}
use owl.Rx.{RxResult, Session, Outcome, next, stop, Handler, ◌>>=◌, ◌>>◌, checked, require}

module _ {A B : Type 0} where
  pub bind-next :
      (m : Handler A) (f : A → Handler B) (h : Session) {h' : Session} {a : A}
      → m h ≡ (h', next a)
      → (m >>= f) h ≡ f a h'
  unfolding ◌>>=◌
  bind-next m f h e =
      ap
        (λ (r : Session × Outcome A). elim r.1 as (λ _. Session × Outcome B) [
          | next a ↦ f a r.0
          | stop o ↦ (r.0, stop o)
        ])
        e

  pub checked-next :
      (f : A → Handler B) (h : Session) {r : Option (ℕ × A)} {n : ℕ} {a : A}
      → r ≡ some (n, a)
      → (checked r >>= f) h ≡ f a h
  unfolding ◌>>=◌ checked
  checked-next f h e = rw e refl

pub require-next :
    {B : Type 0} (r : RxResult) (k : Handler B) (h : Session) {b : Bool}
    → b ≡ true
    → (require b r >> k) h ≡ k h
unfolding ◌>>=◌ ◌>>◌ require
require-next r k h e = rw e refl
