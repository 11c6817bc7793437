-- ===== src/Sync.antt =====
-- src/sync.h and src/sync.c: the clock of availability windows (AW) that a node shares with its
-- master. Times are `uint64_t` microseconds; a TU is 1024 microseconds.
mod Tests
pub mod Bits
pub mod Laws
use owl.Base.{ℕ, ◌+◌, ◌-◌, ◌*◌, ◌/◌, ◌%◌, ◌^◌, bit_and}
use owl.Base.Int.{ℤ, pos, ◌-ℤ◌, ◌*ℤ◌}

pub record SyncState : Type 0 where
  pub aw_counter : ℕ
  pub last_update : ℕ
  pub aw_period : ℕ
  pub presence_mode : ℕ
  pub meas_err : ℕ
  pub meas_total : ℕ

-- `uint64_t` subtraction and `unsigned long` multiplication wrap.
abbrev pub sub64 : ℕ → ℕ → ℕ
sub64 a b = (a + 2 ^ 64 - b) % 2 ^ 64

unfoldable pub tu_to_usec : ℕ → ℕ
tu_to_usec tu = 1024 * tu % 2 ^ 64

unfoldable pub usec_to_tu : ℕ → ℕ
usec_to_tu usec = usec / 1024

unfoldable pub state_init : ℕ → SyncState
state_init now = record {
  aw_counter = 0;
  last_update = now;
  aw_period = 16;
  presence_mode = 4;
  meas_err = 0;
  meas_total = 0;
}

-- Both factors are promoted to `int`, which holds the product of a byte and 16 bits.
abbrev pub eaw_period : SyncState → ℕ
eaw_period s = s.presence_mode * s.aw_period

-- The code divides by `eaw_period` and `presence_mode`: they must not be 0.
unfoldable pub next_aw_tu : ℕ → SyncState → ℕ
unfolding usec_to_tu
next_aw_tu now s =
    let time_since = usec_to_tu (sub64 now s.last_update) in
    sub64 (eaw_period s) (time_since % eaw_period s) % 2 ^ 16

unfoldable pub next_aw_us : ℕ → SyncState → ℕ
unfolding tu_to_usec
next_aw_us now s =
    let period = tu_to_usec (eaw_period s) in
    let time_since = sub64 now s.last_update in sub64 period (time_since % period)

unfoldable pub current_aw : ℕ → SyncState → ℕ
unfolding usec_to_tu
current_aw now s =
    let time_since = usec_to_tu (sub64 now s.last_update) in
    (s.aw_counter
      + time_since % eaw_period s / s.aw_period
      + s.presence_mode * (time_since / eaw_period s))
    % 2 ^ 64
    % 2 ^ 16

unfoldable pub current_eaw : ℕ → SyncState → ℕ
current_eaw now s = current_aw now s / s.presence_mode

-- The operands are promoted to `int`, so this is signed arithmetic.
unfoldable pub error_tu : ℕ → ℕ → ℕ → SyncState → ℤ
error_tu now time_to_next_aw aw_counter s =
    (pos (aw_counter / s.presence_mode) -ℤ pos (current_eaw now s))
      *ℤ pos s.presence_mode
      *ℤ pos s.aw_period
    -ℤ (pos time_to_next_aw -ℤ pos (next_aw_tu now s))

unfoldable pub update_last : ℕ → ℕ → ℕ → SyncState → SyncState
unfolding tu_to_usec
update_last now time_to_next_aw aw_counter s = record s {
  last_update = sub64 now (tu_to_usec (sub64 (eaw_period s) time_to_next_aw));
  aw_counter = bit_and aw_counter 0xfffc;
}
