-- ===== src/State/Laws.antt =====
-- The counters of src/state.c, and the state after the initialisation.
use owl.Base.{ℕ, zero, suc, ◌+◌, ◌%◌, ◌^◌, ◌<◌, ◌≡◌, arith}
use owl.State.{Ieee80211State, ieee80211_next_sequence_number}

-- The numbers that `n` calls yield, in order.
abbrev pub numbers : ℕ → Ieee80211State → Ieee80211State
numbers zero s = s
numbers (suc n) s = numbers n (ieee80211_next_sequence_number s).1

-- After `n` frames an 802.11 sequence number of 12 bits has advanced by `n` modulo 4096.
sequence_number_after :
    (n : ℕ) (s : Ieee80211State)
    → s.sequence_number < 2 ^ 12
    → (numbers n s).sequence_number ≡ (s.sequence_number + n) % 2 ^ 12
unfolding ieee80211_next_sequence_number
sequence_number_after zero s h = omega arith
sequence_number_after (suc n) s h =
    omega (arith, sequence_number_after n (ieee80211_next_sequence_number s).1 (omega arith))
