-- ===== src/Schedule/Tests.antt =====
-- Tests of the schedule, and its theorems at concrete inputs.
use owl.Base.{◌≡◌, refl, arith, true, false}
use owl.Base.Int.{pos, negsuc}
use owl.Rx.Samples.{node}
use owl.Schedule.{can_send_in, is_multicast_eaw}
use owl.Schedule.Laws.{can_send_in_later}
use owl.Sync.{next_aw_us, current_eaw, current_aw, tu_to_usec, usec_to_tu}
use owl.Sync.Laws.{IsValid}

node-IsValid : IsValid node.sync
node-IsValid = record {
  counter = omega arith;
  updated = omega arith;
  lasts = omega arith;
  fits = omega arith;
}

-- 2 TU after the start of an EAW, and 1 TU before its end.
guarded :
    (can_send_in node 2048 3 ≡ pos 1024)
    × (can_send_in node 64512 3 ≡ negsuc 2047)
    × (can_send_in node 30000 3 ≡ pos 0)
unfolding can_send_in next_aw_us tu_to_usec
guarded = (refl, refl, refl)

slots :
    (is_multicast_eaw node 0 ≡ true)
    × (is_multicast_eaw node 65536 ≡ false)
    × (is_multicast_eaw node 655360 ≡ true)
unfolding is_multicast_eaw current_eaw current_aw usec_to_tu
slots = (refl, refl, refl)

can_send_in_later_example : can_send_in node 3072 3 ≡ pos 0
can_send_in_later_example =
    can_send_in_later node 2048 3 1024 node-IsValid refl (omega arith) (omega arith) (omega arith)
      guarded.0
