-- ===== src/Daemon/Keeps.antt =====
-- The handlers that leave the queue of multicast frames alone.
use owl.Base.{
  ℕ, ◌<◌, ◌≡◌, refl, sym, ap₂, subst, inl, inr, if◌then◌else◌, Bool, true, false, Bool-cases, none,
  some, Option-cases, List, [], ◌∷◌, ◌++◌, length, All,
}
use owl.Base.Int.{ℤ, pos}
use owl.Daemon.Air.{send_data-queue}
use owl.Daemon.Poll.{deliver}
use owl.Daemon.Queue.{frames_of, queued, IsSound}
use owl.Daemon.Send.{destination, is_now, try_unicast, rearm_unicast, send_unicast}
use owl.Daemon.Timers.{send_action, send_mif, switch_channel, switch_to}
use owl.Daemon.Unicast.{own, try-own, try-stranger, try-now, try-later}
use owl.Daemon.{DaemonState, Done, rearm, feed_read_host}
use owl.Hashmap.{Hashmap}
use owl.Peers.Table.{PeerMap}
use owl.Peers.{Peer}
use owl.Ring.Refine.{IsValid, contents}
use owl.Rx.Receive.{Received}
use owl.Rx.{ok}
use owl.Schedule.{unicast_guard_tu, can_send_unicast_in}
use owl.Wire.{Buf}

abbrev pub Keeps : DaemonState → DaemonState → Type 0
Keeps s t = (t.tx_queue_multicast ≡ s.tx_queue_multicast) × (t.heap ≡ s.heap)

pub Keeps-IsSound : (s t : DaemonState) → Keeps s t → IsSound s → IsSound t
Keeps-IsSound s t (queue, heap) sound = record {
  ring = subst IsValid (sym queue) sound.ring;
  live =
      subst (λ q. All (λ a. a < length t.heap) (contents q)) (sym queue)
        (subst (λ (h : List Buf). All (λ a. a < length h) (contents s.tx_queue_multicast))
          (sym heap) sound.live);
}

pub Keeps-queued : (s t : DaemonState) (d : Buf) → Keeps s t → queued d t ≡ queued d s
Keeps-queued s t d (queue, heap) = ap₂ (λ h q. frames_of d h (contents q)) heap queue

pub deliver-Keeps : (s : DaemonState) (r : Received) → Keeps s (deliver s r).0
unfolding deliver
deliver-Keeps s (awdl, ok, out, calls) = (refl, refl)
deliver-Keeps s (awdl, other, out, calls) = (refl, refl)

pub if-either : (P : Done → Type 0) (b : Bool) (x y : Done) → P x → P y → P (if b then x else y)
if-either P true x y h k = h
if-either P false x y h k = k

pub switch_channel-Keeps : (now : ℕ) (s : DaemonState) → Keeps s (switch_channel now s).0
unfolding switch_channel switch_to
switch_channel-Keeps now s = if-either (λ r. Keeps s r.0) _ _ _ (refl, refl) (refl, refl)

module _ (crc32 : List ℕ → ℕ) (rate_type : ℕ) where
  pub send_mif-Keeps :
      (now clock now' : ℕ) (s : DaemonState) → Keeps s (send_mif crc32 rate_type now clock now' s).0
  unfolding send_mif send_action
  send_mif-Keeps now clock now' s = if-either (λ r. Keeps s r.0) _ _ _ (refl, refl) (refl, refl)

  module _ {Sound : Hashmap Peer → Type 0} (map : PeerMap (Hashmap Peer) Sound) where
    rearm_unicast-state : (r : Done × ℤ) → (rearm_unicast crc32 rate_type map r).0 ≡ r.0.0
    unfolding rearm_unicast
    rearm_unicast-state ((s, sent), t) =
        elim s.next
          as (λ o.
            (elim o as (λ _. Done) [
              | some _ ↦ (s, sent ++ rearm t ∷ [])
              | none ↦ (s, sent ++ feed_read_host ∷ [])
            ]).0
            ≡ s) [ some _ ↦ refl | none ↦ refl ]

    try_unicast-Keeps :
        (now : ℕ) (s : DaemonState) (buf : Buf)
        → Keeps s (try_unicast crc32 rate_type map now s buf).0.0
    try_unicast-Keeps now s buf = elim (Bool-cases (own crc32 rate_type map now s buf)) [
      | inl self ↦ rw (try-own crc32 rate_type map now s buf self) (refl, refl)
      | inr other ↦ elim (Option-cases (map.get s.awdl_state.peers.peers (destination buf))) [
        | inl e ↦ rw (try-stranger crc32 rate_type map now s buf other e) (refl, refl)
        | inr (p, e) ↦
            elim (Bool-cases (is_now (can_send_unicast_in s.awdl_state p now unicast_guard_tu))) [
              | inl time ↦
                  let (queue, heap, _) = send_data-queue crc32 rate_type buf s in
                  rw (try-now crc32 rate_type map now s buf other p e time) (queue, heap)
              | inr later ↦
                  rw (try-later crc32 rate_type map now s buf other p e later) (refl, refl)
            ]
      ]
    ]

    pub send_unicast-Keeps :
        (now : ℕ) (s : DaemonState) → Keeps s (send_unicast crc32 rate_type map now s).0
    unfolding send_unicast
    send_unicast-Keeps now s = elim (Option-cases s.next) [
      | inl e ↦ rw (send_unicast, e) (rw (rearm_unicast-state ((s, []), pos 0)) (refl, refl))
      | inr (b, e) ↦
          rw (send_unicast, e)
            (rw (rearm_unicast-state (try_unicast crc32 rate_type map now s b))
              (try_unicast-Keeps now s b))
    ]
