-- ===== src/Sync/Tests.antt =====
-- Tests of the clock, and its theorems at concrete inputs.
use owl.Base.{ℕ, ◌≡◌, refl, arith}
use owl.Base.Int.{pos}
use owl.Sync.{SyncState, next_aw_tu, next_aw_us, current_aw, current_eaw, error_tu, update_last}
use owl.Sync.Laws.{IsValid, error_tu-update_last}

-- A state initialised at 1 s, 70 TU and 5 microseconds ago.
abbrev start : SyncState
start = record {
  aw_counter = 0;
  last_update = 1000000;
  aw_period = 16;
  presence_mode = 4;
  meas_err = 0;
  meas_total = 0;
}

start-IsValid : IsValid start
start-IsValid = omega arith

abbrev now : ℕ
now = 1071685

now_values :
    (next_aw_tu now start ≡ 58)
    × (next_aw_us now start ≡ 59387)
    × (current_aw now start ≡ 4)
    × (current_eaw now start ≡ 1)
unfolding next_aw_tu next_aw_us current_aw current_eaw
now_values = (refl, refl, refl, refl)

-- A master that is in the AW number 1030, 12 TU before its next EAW.
error_tu-update_last_example :
    (next_aw_tu now (update_last now 12 1030 start) ≡ 12)
    × (current_eaw now (update_last now 12 1030 start) ≡ 257)
    × (error_tu now 12 1030 (update_last now 12 1030 start) ≡ pos 0)
error_tu-update_last_example =
    error_tu-update_last now 12 1030 start start-IsValid (omega arith) (omega arith) (omega arith)
      (omega arith) (omega arith) refl
