-- ===== src/Daemon/Timers.antt =====
-- src/daemon/core.c: the timers for action frames, for the channel and for the table of peers.
use owl.Base.{
  ℕ, ◌+◌, ◌*◌, ◌/◌, ◌%◌, ◌^◌, ◌==◌, ◌&&◌, not, ltb, if◌then◌else◌, Option, none, some, List, [],
  ◌∷◌, ◌++◌, get_or,
}
use owl.Base.Int.{pos}
use owl.Channel.{Chan, chan_null, chan_num, chanseq_length}
use owl.Daemon.{DaemonState, wlan_send, set_channel, rearm, Done}
use owl.Election.Run.{run}
use owl.Peers.Clean.{peers_remove}
use owl.Peers.{Peer}
use owl.State.{AwdlState}
use owl.Sync.{sub64, tu_to_usec, current_eaw, next_aw_us}
use owl.Tx.Frame.{ActionType, psf, mif, init_full_action_frame}

abbrev count_action : AwdlState → AwdlState
count_action s = record s {
  stats = record s.stats { tx_action = (s.stats.tx_action + 1) % 2 ^ 64 };
}

module _ (crc32 : List ℕ → ℕ) (rate_type : ℕ) where
  -- `clock` and `now` are the times of the clock in the frame's header and in its TLVs.
  unfoldable pub send_action : ActionType → ℕ → ℕ → DaemonState → Done
  unfolding init_full_action_frame
  send_action type clock now s =
      let (frame, ieee80211) =
        init_full_action_frame crc32 rate_type s.awdl_state s.ieee80211_state type clock now in
      (
        record s { ieee80211_state = ieee80211; awdl_state = count_action s.awdl_state },
        wlan_send frame ∷ [],
      )

  unfoldable pub send_psf : ℕ → ℕ → DaemonState → Done
  unfolding send_action
  send_psf clock now s = send_action psf clock now s

  -- `now` is the time at the start of the handler. The lengths of the window are `uint16_t` values,
  -- whose product is an `int`.
  unfoldable pub send_mif : ℕ → ℕ → ℕ → DaemonState → Done
  unfolding send_action
  send_mif now clock now' s =
      let sync = s.awdl_state.sync in
      let next_aw = next_aw_us now sync in
      let eaw_len = sync.presence_mode * sync.aw_period in
      let (s', sent) =
        if ltb 0 (chan_num s.awdl_state.channel.current s.awdl_state.channel.enc)
        then send_action mif clock now' s
        else (s, []) in
      (s', sent ++ rearm (pos ((next_aw + tu_to_usec (eaw_len / 2)) % 2 ^ 64)) ∷ [])

-- The channel of the slot at a time.
abbrev slot_channel : ℕ → AwdlState → Chan
slot_channel now s = get_or s.channel.sequence (current_eaw now s.sync % chanseq_length) chan_null

-- A switch of the WLAN device unless it is a file, and of the state.
unfoldable pub switch_to : Chan → ℕ → DaemonState → Done
switch_to chan num s = (
  record s {
    awdl_state = record s.awdl_state { channel = record s.awdl_state.channel { current = chan } };
  },
  if s.wlan_is_file then [] else set_channel num ∷ [],
)

unfoldable pub switch_channel : ℕ → DaemonState → Done
unfolding switch_to
switch_channel now s =
    let awdl = s.awdl_state in
    let old = chan_num awdl.channel.current awdl.channel.enc in
    let chan = slot_channel now awdl in
    let num = chan_num chan awdl.channel.enc in
    let (s', effects) =
      if not (num == 0) && not (num == old) then switch_to chan num s else (s, []) in
    (s', effects ++ rearm (pos (next_aw_us now awdl.sync)) ∷ [])

-- The peers in the order in which the iterator of the election meets them.
abbrev peers_of : List (Option (List ℕ × Peer)) → List Peer
peers_of [] = []
peers_of (none ∷ l) = peers_of l
peers_of (some (_, p) ∷ l) = p ∷ peers_of l

-- The calls of the callback for the removed peers are the second component. The timer repeats.
unfoldable pub clean_peers : ℕ → DaemonState → DaemonState × List Peer
unfolding peers_remove
clean_peers now s =
    let awdl = s.awdl_state in
    let cutoff_time = sub64 now awdl.peers.timeout in
    let (peers, calls) = peers_remove awdl.peers.peers cutoff_time awdl.peer_remove_cb in
    let election = run awdl.election (peers_of peers.slots) in
    (
      record s {
        awdl_state = record awdl {
          peers = record awdl.peers { peers = peers };
          election = election;
        };
      },
      calls,
    )
