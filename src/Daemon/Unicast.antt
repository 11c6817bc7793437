-- ===== src/Daemon/Unicast.antt =====
-- What becomes of the frame to one peer.
use owl.Base.{
  ℕ, ◌+◌, ◌<◌, ◌≡◌, refl, sym, ap, subst, ◌∙◌, ◌⊎◌, inl, inr, Bool, true, false, Bool-cases, none,
  some, Option-cases, List, [], ◌∷◌, ◌++◌, arith,
}
use owl.Base.Int.{ℤ, pos, negsuc}
use owl.Base.Order.{is_eq}
use owl.Daemon.Air.{air, is_now-zero, send_data-Sent}
use owl.Daemon.Sent.{Sent}
use owl.Daemon.Send.{
  destination, past_guard, is_now, count_unicast, send_data, try_unicast, rearm_unicast,
  send_unicast,
}
use owl.Daemon.{DaemonState, Effect, host_send, rearm, feed_read_host, Done}
use owl.Election.{compare_ether_addr}
use owl.Hashmap.{Hashmap}
use owl.Peers.Table.{PeerMap}
use owl.Peers.{Peer}
use owl.Schedule.{unicast_guard_tu, can_send_unicast_in}
use owl.Sync.{tu_to_usec}
use owl.Wire.{Buf, bytes_of}

module _ (crc32 : List ℕ → ℕ) (rate_type : ℕ) {Sound : Hashmap Peer → Type 0}
    (map : PeerMap (Hashmap Peer) Sound) (now : ℕ) (s : DaemonState) where
  past_guard-pos :
      (t : ℤ) (guard : ℕ) → is_now t ≡ false → (n : ℕ) × (past_guard t guard ≡ pos n) × (0 < n)
  unfolding past_guard
  past_guard-pos (pos n) guard h = (n, refl, ground (arith, h))
  past_guard-pos (negsuc n) guard h = (n + 1 + tu_to_usec guard, refl, omega arith)

  -- Why a frame is on the air: it is sent to a peer, at a time at which that may be.
  abbrev Allowed : Buf → List Effect → Type 0
  Allowed buf effects =
      (p : Peer) × (map.get s.awdl_state.peers.peers (destination buf) ≡ some p)
      × (can_send_unicast_in s.awdl_state p now unicast_guard_tu ≡ pos 0)
      × Sent crc32 rate_type buf s (air effects)

  abbrev pub own : Buf → Bool
  own buf = is_eq (compare_ether_addr (destination buf) s.awdl_state.self_address)

  abbrev pub Settles : Buf → Done → Type 0
  Settles buf (s', effects) =
      -- held for later
      ((s' ≡ s)
        × (t : ℕ) × (effects ≡ rearm (pos t) ∷ [])
        × (0 < t)
        × (p : Peer) × (map.get s.awdl_state.peers.peers (destination buf) ≡ some p))
      ⊎ ((s'.next ≡ none)
          × (sent : List Effect) × (effects ≡ sent ++ feed_read_host ∷ [])
          × ((own buf ≡ true) × (sent ≡ host_send (bytes_of buf) ∷ [])
              ⊎ ((own buf ≡ false)
                  × (((sent ≡ []) × (map.get s.awdl_state.peers.peers (destination buf) ≡ none))
                      ⊎ Allowed buf sent))))

  with_frame :
      (buf : Buf)
      → s.next ≡ some buf
      → send_unicast crc32 rate_type map now s
        ≡ rearm_unicast crc32 rate_type map (try_unicast crc32 rate_type map now s buf)
  unfolding send_unicast
  with_frame buf held = ap (rearm_unicast crc32 rate_type map) (
      ap
        (λ o. elim o as (λ _. Done × ℤ) [
          | none ↦ ((s, []), pos 0)
          | some b ↦ try_unicast crc32 rate_type map now s b
        ])
        held)

  rearm-gone :
      (s' : DaemonState) (sent : List Effect) (t : ℤ)
      → s'.next ≡ none
      → rearm_unicast crc32 rate_type map ((s', sent), t) ≡ (s', sent ++ feed_read_host ∷ [])
  unfolding rearm_unicast
  rearm-gone s' sent t e =
      ap
        (λ o. elim o as (λ _. Done) [
          | some _ ↦ (s', sent ++ rearm t ∷ [])
          | none ↦ (s', sent ++ feed_read_host ∷ [])
        ])
        e

  rearm-held :
      (s' : DaemonState) (sent : List Effect) (t : ℤ) (b : Buf)
      → s'.next ≡ some b
      → rearm_unicast crc32 rate_type map ((s', sent), t) ≡ (s', sent ++ rearm t ∷ [])
  unfolding rearm_unicast
  rearm-held s' sent t b e =
      ap
        (λ o. elim o as (λ _. Done) [
          | some _ ↦ (s', sent ++ rearm t ∷ [])
          | none ↦ (s', sent ++ feed_read_host ∷ [])
        ])
        e

  pub try-own :
      (buf : Buf)
      → own buf ≡ true
      → try_unicast crc32 rate_type map now s buf
        ≡ ((record s { next = none }, host_send (bytes_of buf) ∷ []), pos 0)
  unfolding try_unicast
  try-own buf own = rw (try_unicast, own) refl

  module _ (buf : Buf) (other : own buf ≡ false) where
    pub try-stranger :
        map.get s.awdl_state.peers.peers (destination buf) ≡ none
        → try_unicast crc32 rate_type map now s buf ≡ ((record s { next = none }, []), pos 0)
    unfolding try_unicast
    try-stranger e = rw (try_unicast, other, e) refl

    module _ (p : Peer) (e : map.get s.awdl_state.peers.peers (destination buf) ≡ some p) where
      pub try-now :
          is_now (can_send_unicast_in s.awdl_state p now unicast_guard_tu) ≡ true
          → try_unicast crc32 rate_type map now s buf ≡ (
              let r = send_data crc32 rate_type buf s in
              ((record r.0 { next = none; awdl_state = count_unicast r.0.awdl_state }, r.1), pos 0))
      unfolding try_unicast
      try-now time = rw (try_unicast, other, e, time) refl

      pub try-later :
          is_now (can_send_unicast_in s.awdl_state p now unicast_guard_tu) ≡ false
          → try_unicast crc32 rate_type map now s buf ≡ (
            (s, []),
            past_guard (can_send_unicast_in s.awdl_state p now unicast_guard_tu) unicast_guard_tu,
          )
      unfolding try_unicast
      try-later time = rw (try_unicast, other, e, time) refl

  -- The handler of the unicast timer with a frame to send. Either it keeps the frame, changes nothing
  -- and sets its timer to a time above 0, which it does only for a frame to a peer; or no frame is left
  -- and it asks for more. In that case a frame to the node itself has gone back to the host; one to an
  -- address that is no peer is dropped; and one to a peer has been taken at a time at which the node
  -- may send to that peer. If this one has a whole Ethernet header, then one frame is on the air and no
  -- other: the data frame from the source to the destination in that header, with what follows it. If
  -- it has fewer than 14 bytes, nothing is.
  pub send_unicast-Settles :
      (buf : Buf) → s.next ≡ some buf → Settles buf (send_unicast crc32 rate_type map now s)
  send_unicast-Settles buf held =
      let through = λ (r : Done × ℤ) (e : try_unicast crc32 rate_type map now s buf ≡ r).
        with_frame buf held ∙ ap (rearm_unicast crc32 rate_type map) e in
      elim (Bool-cases (own buf)) [
        | inl own ↦
            subst (Settles buf) (sym (through _ (try-own buf own) ∙ rearm-gone _ _ _ refl))
              (inr (refl, host_send (bytes_of buf) ∷ [], refl, inl (own, refl)))
        | inr other ↦ elim (Option-cases (map.get s.awdl_state.peers.peers (destination buf))) [
          | inl e ↦
              subst (Settles buf)
                (sym (through _ (try-stranger buf other e) ∙ rearm-gone _ _ _ refl))
                (inr (refl, [], refl, inr (other, inl (refl, e))))
          | inr (p, e) ↦
              elim (Bool-cases (is_now (can_send_unicast_in s.awdl_state p now unicast_guard_tu))) [
                | inl time ↦
                    subst (Settles buf)
                      (sym (through _ (try-now buf other p e time) ∙ rearm-gone _ _ _ refl))
                      (inr (
                        refl,
                        (send_data crc32 rate_type buf s).1,
                        refl,
                        inr (
                          other,
                          inr (
                            p,
                            e,
                            is_now-zero (can_send_unicast_in s.awdl_state p now unicast_guard_tu)
                                time,
                            send_data-Sent crc32 rate_type buf s,
                          ),
                        ),
                      ))
                | inr later ↦
                    let (n, at, positive) = past_guard-pos _ unicast_guard_tu later in
                    subst (Settles buf)
                      (sym (through _ (try-later buf other p e later) ∙ rearm-held s [] _ buf held))
                      (inl (refl, n, ap (λ t. rearm t ∷ []) at, positive, p, e))
              ]
        ]
      ]
