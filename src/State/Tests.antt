-- ===== src/State/Tests.antt =====
-- A test of the sequence numbers.
use owl.Base.{◌≡◌, refl, false}
use owl.State.{Ieee80211State, ieee80211_next_sequence_number}
use owl.State.Laws.{numbers}

abbrev nearly_round : Ieee80211State
nearly_round = record { sequence_number = 4090; fcs = false }

numbers_round : (numbers 10 nearly_round).sequence_number ≡ 4
unfolding ieee80211_next_sequence_number
numbers_round = refl
