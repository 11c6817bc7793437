-- ===== src/Schedule/Laws.antt =====
-- When src/schedule.c lets a node send.
use owl.Base.{ℕ, ◌+◌, ◌-◌, ◌*◌, ◌%◌, ◌^◌, ◌<◌, ◌≤◌, ◌≡◌, ◌↔◌, arith}
use owl.Base.Int.{pos}
use owl.Schedule.{can_send_in}
use owl.State.{AwdlState}
use owl.Sync.{SyncState, eaw_period, tu_to_usec, next_aw_us}
use owl.Sync.Laws.{IsValid, next_aw_bounds}

-- With EAWs of 64 TU and a guard of at most half of one, a node whose clock is valid may send at
-- once exactly if it is at least the guard away from both ends of the EAW.
can_send_in_now :
    (s : AwdlState) (now guard : ℕ)
    → IsValid s.sync
    → eaw_period s.sync ≡ 64
    → guard ≤ 32
    → (can_send_in s now guard ≡ pos 0)
      ↔ ((1024 * guard ≤ next_aw_us now s.sync) × (next_aw_us now s.sync + 1024 * guard ≤ 65536))
unfolding can_send_in tu_to_usec
can_send_in_now s now guard v p g =
    let (_, _, lo, hi) = next_aw_bounds now s.sync v in
    (λ e. (ground arith, ground arith), λ (a, b). ground arith)

next_aw_us-64 :
    (now : ℕ) (s : SyncState)
    → eaw_period s ≡ 64
    → next_aw_us now s ≡ 65536 - (now + 2 ^ 64 - s.last_update) % 2 ^ 64 % 65536
unfolding next_aw_us tu_to_usec
next_aw_us-64 now s p = rw p (omega arith)

next_aw_us-later :
    (s : SyncState) (now w : ℕ)
    → eaw_period s ≡ 64
    → s.last_update ≤ now
    → w < next_aw_us now s
    → now + w < 2 ^ 64
    → next_aw_us (now + w) s ≡ next_aw_us now s - w
next_aw_us-later s now w p past less h =
    omega (arith, next_aw_us-64 now s p, next_aw_us-64 (now + w) s p)

-- If a node with a valid clock, EAWs of 64 TU and a guard of at most half of one is told to wait for
-- some time, and its clock was last set in the past, then it may send when that time is over, if
-- the clock is still below 2^64 then.
pub can_send_in_later :
    (s : AwdlState) (now guard w : ℕ)
    → IsValid s.sync
    → eaw_period s.sync ≡ 64
    → guard ≤ 32
    → s.sync.last_update ≤ now
    → now + w < 2 ^ 64
    → can_send_in s now guard ≡ pos w
    → can_send_in s (now + w) guard ≡ pos 0
can_send_in_later s now guard w v p g past h e =
    let (_, _, lo, hi) = next_aw_bounds now s.sync v in
    let least : w < next_aw_us now s.sync = unfold can_send_in tu_to_usec in ground arith in
    let later = next_aw_us-later s.sync now w p past least h in
    unfold can_send_in tu_to_usec in ground arith
