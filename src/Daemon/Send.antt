-- ===== src/Daemon/Send.antt =====
-- src/daemon/core.c: sending the frames of the host, to a peer or to all.
use owl.Base.{
  ◌^◌, ◌%◌, ℕ, ◌+◌, ◌==◌, ◌&&◌, if◌then◌else◌, Bool, true, false, Option, none, some, List, [], ◌∷◌,
  ◌++◌, get_or,
}
use owl.Base.Int.{ℤ, pos, negsuc}
use owl.Base.Maybe.{◌>>=◌}
use owl.Base.Order.{is_eq}
use owl.Daemon.{DaemonState, wlan_send, host_send, rearm, feed_read_host, Done}
use owl.Election.{EtherAddr, compare_ether_addr}
use owl.Hashmap.{Hashmap}
use owl.Peers.Table.{PeerMap}
use owl.Peers.{Peer}
use owl.Ring
use owl.Rx.Frame.{stripped}
use owl.Schedule.{
  unicast_guard_tu, multicast_guard_tu, can_send_in, can_send_unicast_in, is_multicast_eaw,
}
use owl.State.{AwdlState}
use owl.Sync.{tu_to_usec}
use owl.Tx.Frame.{init_full_data_frame}
use owl.Wire.{Buf, bytes_of, read_be16, read_ether_addr}

-- The destination and the source of an Ethernet frame that has a whole header.
unfoldable pub read_header : Buf → Option (EtherAddr × EtherAddr)
read_header buf = do
  (_, ethertype) ← read_be16 buf (pos 12)
  (_, dst) ← read_ether_addr buf (pos 0)
  (_, src) ← read_ether_addr buf (pos 6)
  some (dst, src)

-- `read_ether_addr` of the destination. The frames that are polled are long enough for it.
unfoldable pub destination : Buf → EtherAddr
destination buf = elim (read_ether_addr buf (pos 0)) [ none ↦ [] | some (_, dst) ↦ dst ]

-- `in < 0` at the end of a slot, within the guard: the time from then on.
unfoldable pub past_guard : ℤ → ℕ → ℤ
past_guard (pos n) guard = pos n
past_guard (negsuc n) guard = pos (n + 1 + tu_to_usec guard)

-- `in == 0`.
abbrev pub is_now : ℤ → Bool
is_now (pos n) = n == 0
is_now (negsuc _) = false

abbrev pub count_unicast : AwdlState → AwdlState
count_unicast s = record s {
  stats = record s.stats { tx_data_unicast = (s.stats.tx_data_unicast + 1) % 2 ^ 64 };
}

abbrev pub count_multicast : AwdlState → AwdlState
count_multicast s = record s {
  stats = record s.stats { tx_data_multicast = (s.stats.tx_data_multicast + 1) % 2 ^ 64 };
}

abbrev count_data : AwdlState → AwdlState
count_data s = record s { stats = record s.stats { tx_data = (s.stats.tx_data + 1) % 2 ^ 64 } }

module _ (crc32 : List ℕ → ℕ) (rate_type : ℕ) where
  -- `awdl_send_data`; the callers do not use its result. A frame without a whole header is not sent.
  unfoldable pub send_data : Buf → DaemonState → Done
  unfolding read_header stripped init_full_data_frame
  send_data buf s = elim (read_header buf) [
    | none ↦ (s, [])
    | some (dst, src) ↦
        let (frame, awdl, ieee80211) =
          init_full_data_frame crc32 rate_type src dst (bytes_of (stripped buf 14)) s.awdl_state
            s.ieee80211_state in
        (
          record s { awdl_state = count_data awdl; ieee80211_state = ieee80211 },
          wlan_send frame ∷ [],
        )
  ]

  module _ {Sound : Hashmap Peer → Type 0} (map : PeerMap (Hashmap Peer) Sound) where
    -- What is done with the frame, if there is one, and when to try again.
    unfoldable pub try_unicast : ℕ → DaemonState → Buf → Done × ℤ
    unfolding send_data destination past_guard can_send_unicast_in
    try_unicast now s buf =
        let dst = destination buf in
        elim (is_eq (compare_ether_addr dst s.awdl_state.self_address)) as (λ _. Done × ℤ) [
          | true ↦ ((record s { next = none }, host_send (bytes_of buf) ∷ []), pos 0)
          | false ↦ elim (map.get s.awdl_state.peers.peers dst) [
            | none ↦ ((record s { next = none }, []), pos 0)
            | some peer ↦
                let in_us = can_send_unicast_in s.awdl_state peer now unicast_guard_tu in
                elim (is_now in_us) as (λ _. Done × ℤ) [
                  | true ↦
                      let (s', sent) = send_data buf s in
                      (
                        (record s' { next = none; awdl_state = count_unicast s'.awdl_state }, sent),
                        pos 0,
                      )
                  | false ↦ ((s, []), past_guard in_us unicast_guard_tu)
                ]
          ]
        ]

    -- The end of the handler: a timer if a frame is left, and else the next frames of the host.
    unfoldable pub rearm_unicast : Done × ℤ → Done
    rearm_unicast ((s, sent), in_us) = elim s.next [
      | some _ ↦ (s, sent ++ rearm in_us ∷ [])
      | none ↦ (s, sent ++ feed_read_host ∷ [])
    ]

    unfoldable pub send_unicast : ℕ → DaemonState → Done
    unfolding try_unicast rearm_unicast
    send_unicast now s =
        rearm_unicast (elim s.next [ none ↦ ((s, []), pos 0) | some buf ↦ try_unicast now s buf ])

  -- The buffer behind a pointer of the queue.
  abbrev deref : DaemonState → ℕ → Buf → Buf
  deref s address d = get_or s.heap address d

  -- `d` stands for memory behind a pointer to no buffer.
  unfoldable pub try_multicast : Buf → ℕ → DaemonState → Done × ℤ
  unfolding send_data past_guard can_send_in is_multicast_eaw
  try_multicast d now s =
      let in_us = can_send_in s.awdl_state now multicast_guard_tu in
      elim (is_multicast_eaw s.awdl_state now && is_now in_us) as (λ _. Done × ℤ) [
        | true ↦
            let (address, queue) = Ring.get s.tx_queue_multicast false in
            let s' = record s { tx_queue_multicast = queue } in
            elim address [
              | none ↦ ((s', []), pos 0)
              | some a ↦
                  let (s'', sent) = send_data (deref s a d) s' in
                  ((record s'' { awdl_state = count_multicast s''.awdl_state }, sent), in_us)
            ]
        | false ↦ (
          (s, []),
          if is_now in_us then pos (tu_to_usec 64) else past_guard in_us multicast_guard_tu,
        )
      ]

  unfoldable pub rearm_multicast : Done × ℤ → Done
  rearm_multicast ((s, sent), in_us) = elim (Ring.empty s.tx_queue_multicast) as (λ _. Done) [
    | false ↦ (s, sent ++ rearm in_us ∷ [])
    | true ↦ (s, sent ++ feed_read_host ∷ [])
  ]

  unfoldable pub send_multicast : Buf → ℕ → DaemonState → Done
  unfolding try_multicast rearm_multicast
  send_multicast d now s =
      rearm_multicast (elim (Ring.empty s.tx_queue_multicast) as (λ _. Done × ℤ) [
        | true ↦ ((s, []), pos 0)
        | false ↦ try_multicast d now s
      ])
