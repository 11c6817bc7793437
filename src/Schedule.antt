-- ===== src/Schedule.antt =====
-- src/schedule.h and src/schedule.c: whether a node may send at a time. The code returns seconds as
-- a `double`; here they are microseconds, as before its conversion.
mod Tests
pub mod Laws
use owl.Base.{ℕ, ◌+◌, ◌-◌, ◌%◌, ◌^◌, ltb, ◌==◌, ◌&&◌, ◌||◌, not, if◌then◌else◌, Bool, get_or}
use owl.Base.Int.{ℤ, pos, negsuc}
use owl.Channel.{chan_null, chan_num, chanseq_length}
use owl.Peers.{Peer}
use owl.State.{AwdlState}
use owl.Sync.{sub64, tu_to_usec, current_eaw, next_aw_us}

abbrev pub unicast_guard_tu : ℕ
unicast_guard_tu = 3

abbrev pub multicast_guard_tu : ℕ
multicast_guard_tu = 16

-- The sequences have 16 channels, so that no index is out of bounds. The peer's channel is read in
-- the encoding of the node itself.
unfoldable same_channel_as_peer : AwdlState → ℕ → Peer → Bool
same_channel_as_peer s now peer =
    let own_slot = current_eaw now s.sync % chanseq_length in
    let peer_slot = current_eaw ((now + peer.sync_offset) % 2 ^ 64) s.sync % chanseq_length in
    let own_chan = chan_num (get_or s.channel.sequence own_slot chan_null) s.channel.enc in
    let peer_chan = chan_num (get_or peer.sequence peer_slot chan_null) s.channel.enc in
    not (own_chan == 0) && own_chan == peer_chan

unfoldable pub is_multicast_eaw : AwdlState → ℕ → Bool
is_multicast_eaw s now =
    let slot = current_eaw now s.sync % chanseq_length in slot == 0 || slot == 10

-- The number below zero that a positive `n` stands for.
abbrev minus : ℕ → ℤ
minus n = negsuc (n - 1)

-- `guard` is a number of TU.
unfoldable pub can_send_in : AwdlState → ℕ → ℕ → ℤ
can_send_in s now guard =
    let next_aw = next_aw_us now s.sync in
    let guard_us = tu_to_usec guard in
    let eaw = tu_to_usec 64 in
    if ltb next_aw guard_us
    then minus (guard_us - next_aw)
    else if ltb (sub64 eaw next_aw) guard_us
    then pos (guard_us - sub64 eaw next_aw)
    else pos 0

unfoldable pub can_send_unicast_in : AwdlState → Peer → ℕ → ℕ → ℤ
unfolding same_channel_as_peer
can_send_unicast_in s peer now guard =
    let next_aw = next_aw_us now s.sync in
    let guard_us = tu_to_usec guard in
    let eaw = tu_to_usec 64 in
    if not (same_channel_as_peer s now peer)
    then pos next_aw
    else if ltb next_aw guard_us
    then if same_channel_as_peer s ((now + eaw) % 2 ^ 64) peer
      then pos 0
      else minus (guard_us - next_aw)
    else if ltb (sub64 eaw next_aw) guard_us
    then if same_channel_as_peer s (sub64 now eaw) peer
      then pos 0
      else pos (guard_us - sub64 eaw next_aw)
    else pos 0
