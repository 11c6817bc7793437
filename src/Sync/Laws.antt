-- ===== src/Sync/Laws.antt =====
-- The clock laws of src/sync.c.
use native.Mathlib.Nat.{
  mod-lt, mod-eq_of_lt, mod_self, mod-add-mod, mod-eq-sub-mod, div-eq-sub-div, div-eq_of_lt,
  div-lt_iff_lt-mul,
}
use owl.Base.{ℕ, ◌+◌, ◌-◌, ◌*◌, ◌/◌, ◌%◌, ◌^◌, ◌≤◌, ◌<◌, ◌≡◌, refl, arith, zero, suc, ap, ◌∙◌, sym}
use owl.Base.Int.{pos, -ℤ_self, zero-*ℤ}
use owl.Sync.{
  SyncState, sub64, eaw_period, state_init, next_aw_tu, next_aw_us, current_aw, current_eaw,
  error_tu, update_last,
}
use owl.Sync.Bits.{bit_and_fffc}

-- The fields hold values of their C types, and an extended AW lasts some time that 16 bits hold.
pub record IsValid (s : SyncState) : Type 0 where
  pub counter : s.aw_counter < 2 ^ 16
  pub updated : s.last_update < 2 ^ 64
  pub lasts : 0 < eaw_period s
  pub fits : eaw_period s < 2 ^ 16

-- The state after `awdl_sync_state_init` at a time below 2^64 is valid.
pub state_init-IsValid : (now : ℕ) → now < 2 ^ 64 → IsValid (state_init now)
unfolding state_init
state_init-IsValid now h = ground arith

-- What is left of a period `p` at time `t`, without wrap-around.
left_of_period : (p t : ℕ) → 0 < p → p < 2 ^ 26 → sub64 p (t % p) ≡ p - t % p
left_of_period p t lo hi = omega (arith, mod-lt (t) lo)

next_aw_tu-eq :
    (now : ℕ) (s : SyncState)
    → IsValid s
    → next_aw_tu now s ≡ eaw_period s - sub64 now s.last_update / 1024 % eaw_period s
unfolding next_aw_tu
next_aw_tu-eq now s v = omega (
  arith,
  left_of_period (eaw_period s) (sub64 now s.last_update / 1024) v.lasts (omega arith),
  mod-lt (sub64 now s.last_update / 1024) v.lasts,
)

next_aw_us-eq :
    (now : ℕ) (s : SyncState)
    → IsValid s
    → next_aw_us now s ≡ 1024 * eaw_period s - sub64 now s.last_update % (1024 * eaw_period s)
unfolding next_aw_us
next_aw_us-eq now s v =
    rw (mod-eq_of_lt {n = 1024 * eaw_period s} {m = 2 ^ 64} (omega arith))
      (left_of_period (1024 * eaw_period s) (sub64 now s.last_update) (omega arith) (omega arith))

-- In a valid state the next AW is at least 1 TU and at most one EAW away, and the same in
-- microseconds.
pub next_aw_bounds :
    (now : ℕ) (s : SyncState)
    → IsValid s
    → (1 ≤ next_aw_tu now s)
      × (next_aw_tu now s ≤ eaw_period s)
      × (1 ≤ next_aw_us now s)
      × (next_aw_us now s ≤ 1024 * eaw_period s)
next_aw_bounds now s v =
    let a = mod-lt (sub64 now s.last_update / 1024) v.lasts in
    let b = mod-lt (sub64 now s.last_update) {m = 1024 * eaw_period s} (omega arith) in
    let tu = next_aw_tu-eq now s v in
    let us = next_aw_us-eq now s v in (omega arith, omega arith, omega arith, omega arith)

-- Time that is not in the future is subtracted without wrap-around.
sub64_past : (a b : ℕ) → b ≤ a → a < 2 ^ 64 → sub64 a b ≡ a - b
sub64_past a b p h = omega arith

complete_period : (t p : ℕ) → 0 < p → (t + (p - t % p)) % p ≡ 0
complete_period t p h =
    let r = mod-lt t h in
    sym (mod-add-mod t p (p - t % p)) ∙ ap (λ k. k % p) (omega arith) ∙ mod_self p

-- In a valid state whose last update is not in the future, at a time below 2^64, the moment that
-- `awdl_sync_next_aw_us` announces is a whole number of EAWs after the last update.
next_aw_us-aligned :
    (now : ℕ) (s : SyncState)
    → IsValid s
    → s.last_update ≤ now
    → now < 2 ^ 64
    → (now + next_aw_us now s - s.last_update) % (1024 * eaw_period s) ≡ 0
next_aw_us-aligned now s v past h =
    let p = 1024 * eaw_period s in
    let t = now - s.last_update in
    let e : now + next_aw_us now s - s.last_update ≡ t + (p - t % p) =
      rw (next_aw_us-eq now s v, sub64_past now s.last_update past h) (omega arith) in
    rw e (complete_period t p (omega arith))

-- In a valid state whose last update is not in the future, the AW counter is one EAW later, if
-- that is a time below 2^64, larger by the presence mode, modulo 2^16.
current_aw_advances :
    (now : ℕ) (s : SyncState)
    → IsValid s
    → s.last_update ≤ now
    → now + 1024 * eaw_period s < 2 ^ 64
    → current_aw (now + 1024 * eaw_period s) s ≡ (current_aw now s + s.presence_mode) % 2 ^ 16
unfolding current_aw
current_aw_advances now s v past h =
    let p = eaw_period s in
    let t = sub64 now s.last_update / 1024 in
    let later : sub64 (now + 1024 * p) s.last_update / 1024 ≡ t + p = omega arith in
    let r : (t + p) % p ≡ t % p = mod-eq-sub-mod (omega arith) ∙ ap (λ k. k % p) (omega arith) in
    let q : (t + p) / p ≡ t / p + 1 =
      div-eq-sub-div v.lasts (omega arith) ∙ ap (λ k. k / p + 1) (omega arith) in
    rw (later, r, q) (omega arith)

aw_pos : (a m t : ℕ) → t < m * a → 0 < a
aw_pos zero m t h = omega arith
aw_pos (suc a) m t h = omega arith

-- Less than one EAW after an update the EAW number is that of the stored counter.
current_eaw_fresh :
    (now q : ℕ) (s : SyncState)
    → s.presence_mode ≡ 4
    → s.aw_counter ≡ q * 4
    → q * 4 + 3 < 2 ^ 16
    → sub64 now s.last_update / 1024 < eaw_period s
    → current_eaw now s ≡ q
unfolding current_eaw current_aw
current_eaw_fresh now q s four counter small fresh =
    let t = sub64 now s.last_update / 1024 in
    let within : t / s.aw_period < 4 =
      (div-lt_iff_lt-mul (aw_pos s.aw_period s.presence_mode t fresh)).1
        (omega (arith, ap (λ (m : ℕ). m * s.aw_period) four)) in
    rw (mod-eq_of_lt fresh, div-eq_of_lt fresh, counter, four) (omega arith)

-- Agreement on both numbers leaves no error.
error_tu_zero :
    (now ttn counter : ℕ) (s : SyncState)
    → next_aw_tu now s ≡ ttn
    → current_eaw now s ≡ counter / s.presence_mode
    → error_tu now ttn counter s ≡ pos 0
unfolding error_tu
error_tu_zero now ttn counter s tu eaw = simp (tu, eaw, -ℤ_self, zero-*ℤ)

module _ (now ttn counter : ℕ) (s : SyncState) (v : IsValid s) (lo : 1 ≤ ttn)
    (hi : ttn ≤ eaw_period s) (c : counter < 2 ^ 16) (past : 1024 * eaw_period s ≤ now)
    (h : now < 2 ^ 64) where
  -- The time since the update that is stored, in TU.
  since-update_last :
      sub64 now (update_last now ttn counter s).last_update / 1024 ≡ eaw_period s - ttn
  unfolding update_last
  since-update_last = omega arith

  -- An update of a valid state, at a time that is at least one EAW and below 2^64, with a counter
  -- of 16 bits and a time to the next AW of 1 TU to one EAW, keeps the state valid.
  update_last-IsValid : IsValid (update_last now ttn counter s)
  unfolding update_last
  update_last-IsValid = record {
    counter = omega (arith, bit_and_fffc counter c);
    updated = omega arith;
    lasts = v.lasts;
    fits = v.fits;
  }

  -- After an update of a valid state with presence mode 4, at a time that is at least one EAW, with
  -- a counter of 16 bits and a time to the next AW of 1 TU to one EAW, the node agrees with its
  -- master: its time to the next AW is the one received, its EAW number is that of the counter
  -- received, and the synchronization error that it computes for the same parameters at that time
  -- is 0.
  pub error_tu-update_last :
      s.presence_mode ≡ 4
      → (next_aw_tu now (update_last now ttn counter s) ≡ ttn)
        × (current_eaw now (update_last now ttn counter s) ≡ counter / 4)
        × (error_tu now ttn counter (update_last now ttn counter s) ≡ pos 0)
  error_tu-update_last four =
      let s' = update_last now ttn counter s in
      let mode : s'.presence_mode ≡ s.presence_mode = unfold update_last in refl in
      let period : eaw_period s' ≡ eaw_period s = unfold update_last in refl in
      let fresh : sub64 now s'.last_update / 1024 < eaw_period s' =
        rw (since-update_last, period) (omega arith) in
      let tu : next_aw_tu now s' ≡ ttn =
        next_aw_tu-eq now s' update_last-IsValid
        ∙ rw (mod-eq_of_lt fresh, since-update_last, period) (omega arith) in
      let eaw : current_eaw now s' ≡ counter / 4 =
        current_eaw_fresh now (counter / 4) s' (mode ∙ four)
          (unfold update_last in bit_and_fffc counter c) (omega arith) fresh in
      (
        tu,
        eaw,
        error_tu_zero now ttn counter s' tu (eaw ∙ ap (λ k. counter / k) (sym (mode ∙ four))),
      )
