-- ===== src/Daemon/Air.antt =====
-- What the daemon sends on the air, and when it tries again.
use owl.Base.{
  ℕ, ◌<◌, ◌≡◌, refl, sym, ap, subst, ◌∙◌, ◌⊎◌, inl, inr, ◌==◌, ◌&&◌, not, Bool, true, false,
  Bool-cases, Option, some, Option-cases, List, [], ◌∷◌, ◌++◌, length, get_or, All, arith,
}
use owl.Base.Int.{ℤ, pos, negsuc}
use owl.Daemon.{DaemonState, Effect, wlan_send, host_send, set_channel, rearm, feed_read_host, Done}
use owl.Daemon.Queue.{frames_of, queued, IsSound}
use owl.Daemon.Send.{
  read_header, is_now, count_multicast, send_data, try_multicast, rearm_multicast, send_multicast,
}
use owl.Daemon.Sent.{Sent, send_data-cases}
use owl.Ring
use owl.Ring.Queue
use owl.Ring.{CircularBuf}
use owl.Ring.Refine.{IsValid, contents, get_refines, queries_refine}
use owl.Schedule.{multicast_guard_tu, can_send_in, is_multicast_eaw}
use owl.Wire.{Buf}

-- The frames on the air.
abbrev pub air : List Effect → List (List ℕ)
air [] = []
air (wlan_send f ∷ l) = f ∷ air l
air (host_send _ ∷ l) = air l
air (set_channel _ ∷ l) = air l
air (rearm _ ∷ l) = air l
air (feed_read_host ∷ l) = air l

air-rearm : (l : List Effect) (t : ℤ) → air (l ++ rearm t ∷ []) ≡ air l
air-rearm [] t = refl
air-rearm (wlan_send f ∷ l) t = ap (λ r. f ∷ r) (air-rearm l t)
air-rearm (host_send _ ∷ l) t = air-rearm l t
air-rearm (set_channel _ ∷ l) t = air-rearm l t
air-rearm (rearm _ ∷ l) t = air-rearm l t
air-rearm (feed_read_host ∷ l) t = air-rearm l t

air-feed : (l : List Effect) → air (l ++ feed_read_host ∷ []) ≡ air l
air-feed [] = refl
air-feed (wlan_send f ∷ l) = ap (λ r. f ∷ r) (air-feed l)
air-feed (host_send _ ∷ l) = air-feed l
air-feed (set_channel _ ∷ l) = air-feed l
air-feed (rearm _ ∷ l) = air-feed l
air-feed (feed_read_host ∷ l) = air-feed l

-- A handler ends with its timer if there is more to send, and else with a poll for more.
abbrev pub GoesOn : Bool → List Effect → Type 0
GoesOn more effects =
    (sent : List Effect) × (((more ≡ true) × (t : ℤ) × (effects ≡ sent ++ rearm t ∷ []))
      ⊎ ((more ≡ false) × (effects ≡ sent ++ feed_read_host ∷ [])))

first_of :
    (q : List ℕ) (r : Option ℕ × List ℕ)
    → (length q == 0) ≡ false
    → r ≡ Queue.get q false
    → (a : ℕ) × (q ≡ a ∷ r.1) × (r.0 ≡ some a)
unfolding Queue.get
first_of [] r h e = cc
first_of (x ∷ q) r h e =
    (x, ap (λ (p : Option ℕ × List ℕ). x ∷ p.1) (sym e), ap (λ (p : Option ℕ × List ℕ). p.0) e)

get-first :
    (c : CircularBuf)
    → IsValid c
    → Ring.empty c ≡ false
    → IsValid (Ring.get c false).1
      × (a : ℕ) × (contents c ≡ a ∷ contents (Ring.get c false).1)
      × ((Ring.get c false).0 ≡ some a)
get-first c v e =
    let (valid, both) = get_refines c false v in
    let (_, _, emptiness) = queries_refine c v in
    let (a, first, got) =
      first_of (contents c) ((Ring.get c false).0, contents (Ring.get c false).1)
        (sym emptiness ∙ e) both in
    (valid, a, first, got)

pub is_now-zero : (t : ℤ) → is_now t ≡ true → t ≡ pos 0
is_now-zero (pos n) h = ground arith
is_now-zero (negsuc n) h = cc

both_true : (a b : Bool) → (a && b) ≡ true → (a ≡ true) × (b ≡ true)
both_true true b h = (refl, h)
both_true false b h = cc

module _ (crc32 : List ℕ → ℕ) (rate_type : ℕ) where
  pub send_data-queue :
      (b : Buf) (s : DaemonState)
      → let s' = (send_data crc32 rate_type b s).0 in
        (s'.tx_queue_multicast ≡ s.tx_queue_multicast) × (s'.heap ≡ s.heap) × (s'.next ≡ s.next)
  unfolding send_data
  send_data-queue b s = elim (Option-cases (read_header b)) [
    | inl e ↦ rw (send_data, e) (refl, refl, refl)
    | inr ((dst, src), e) ↦ rw (send_data, e) (refl, refl, refl)
  ]

  pub send_data-Sent :
      (b : Buf) (s : DaemonState) → Sent crc32 rate_type b s (air (send_data crc32 rate_type b s).1)
  send_data-Sent b s = elim (send_data-cases crc32 rate_type b s) [
    | inl (short, e) ↦ inl (short, ap air e)
    | inr (long, e) ↦ inr (long, ap air e)
  ]

  -- The queue plays no part in what is sent.
  send_data-other :
      (b : Buf) (s : DaemonState) (q : CircularBuf)
      → (send_data crc32 rate_type b (record s { tx_queue_multicast = q })).1
        ≡ (send_data crc32 rate_type b s).1
  unfolding send_data
  send_data-other b s q = elim (Option-cases (read_header b)) [
    | inl e ↦ rw (send_data, e) refl
    | inr ((dst, src), e) ↦ rw (send_data, e) refl
  ]

  rearm_multicast_lem :
      (r : Done × ℤ)
      → let (s', effects) = rearm_multicast crc32 rate_type r in
        (s' ≡ r.0.0)
        × (air effects ≡ air r.0.1)
        × GoesOn (not (Ring.empty s'.tx_queue_multicast)) effects
  unfolding rearm_multicast
  rearm_multicast_lem ((s, sent), t) = elim (Bool-cases (Ring.empty s.tx_queue_multicast)) [
    | inl e ↦ rw (rearm_multicast, e) (refl, air-feed sent, (sent, inr (ap not e, refl)))
    | inr e ↦ rw (rearm_multicast, e) (refl, air-rearm sent t, (sent, inl (ap not e, t, refl)))
  ]

  -- The frames of the queue and the frames on the air, before and after.
  abbrev pub Sends : Buf → ℕ → DaemonState → Done → Type 0
  Sends d now s (s', effects) =
      IsSound s'
      × (((queued d s' ≡ queued d s) × (air effects ≡ []))
          ⊎ ((b : Buf) × (queued d s ≡ b ∷ queued d s')
              × Sent crc32 rate_type b s (air effects)
              × (is_multicast_eaw s.awdl_state now ≡ true)
              × (can_send_in s.awdl_state now multicast_guard_tu ≡ pos 0)))

  Sends-rearm :
      (d : Buf) (now : ℕ) (s : DaemonState) (r : Done × ℤ)
      → Sends d now s r.0
      → Sends d now s (rearm_multicast crc32 rate_type r)
  Sends-rearm d now s r (sound, what) =
      let (same, sent, _) = rearm_multicast_lem r in
      let there = sym (ap (queued d) same) in
      (
        subst IsSound (sym same) sound,
        elim what [
          | inl (kept, quiet) ↦ inl (sym there ∙ kept, sent ∙ quiet)
          | inr (b, first, on_air, slot, time) ↦ inr (
            b,
            first ∙ ap (λ l. b ∷ l) there,
            subst (Sent crc32 rate_type b s) (sym sent) on_air,
            slot,
            time,
          )
        ],
      )

  -- The first frame is taken from the queue and sent.
  after_get :
      (d : Buf) (now : ℕ) (s : DaemonState) (a : ℕ) (q : CircularBuf)
      → IsSound s
      → IsValid q
      → contents s.tx_queue_multicast ≡ a ∷ contents q
      → is_multicast_eaw s.awdl_state now ≡ true
      → can_send_in s.awdl_state now multicast_guard_tu ≡ pos 0
      → let r =
          send_data crc32 rate_type (get_or s.heap a d) (record s { tx_queue_multicast = q }) in
        Sends d now s (record r.0 { awdl_state = count_multicast r.0.awdl_state }, r.1)
  after_get d now s a q sound valid first slot time =
      let b = get_or s.heap a d in
      let s1 : DaemonState = record s { tx_queue_multicast = q } in
      let (queue, heap, _) = send_data-queue b s1 in
      let lives = subst (All (λ x. x < length s.heap)) first sound.live in
      (
        record {
          ring = subst IsValid (sym queue) valid;
          live =
              subst
                (λ c. All (λ x. x < length (send_data crc32 rate_type b s1).0.heap) (contents c))
                (sym queue)
                (subst (λ (h : List Buf). All (λ x. x < length h) (contents q)) (sym heap) lives.1);
        },
        inr (
          b,
          ap (frames_of d s.heap) first
              ∙ ap (λ (h : List Buf). b ∷ frames_of d h (contents q)) (sym heap)
              ∙ ap (λ c. b ∷ frames_of d (send_data crc32 rate_type b s1).0.heap (contents c))
                  (sym queue),
          subst (λ l. Sent crc32 rate_type b s (air l)) (sym (send_data-other b s q))
              (send_data-Sent b s),
          slot,
          time,
        ),
      )

  try-later :
      (d : Buf) (now : ℕ) (s : DaemonState)
      → (is_multicast_eaw s.awdl_state now
          && is_now (can_send_in s.awdl_state now multicast_guard_tu))
        ≡ false
      → (try_multicast crc32 rate_type d now s).0 ≡ (s, [])
  unfolding try_multicast
  try-later d now s later = rw (try_multicast, later) refl

  try-now :
      (d : Buf) (now : ℕ) (s : DaemonState) (a : ℕ)
      → (is_multicast_eaw s.awdl_state now
          && is_now (can_send_in s.awdl_state now multicast_guard_tu))
        ≡ true
      → (Ring.get s.tx_queue_multicast false).0 ≡ some a
      → (try_multicast crc32 rate_type d now s).0 ≡ (
          let r =
            send_data crc32 rate_type
              (get_or s.heap a d)
              (record s { tx_queue_multicast = (Ring.get s.tx_queue_multicast false).1 }) in
          (record r.0 { awdl_state = count_multicast r.0.awdl_state }, r.1))
  unfolding try_multicast
  try-now d now s a allowed got = rw (try_multicast, allowed, got) refl

  try_multicast-Sends :
      (d : Buf) (now : ℕ) (s : DaemonState)
      → IsSound s
      → Ring.empty s.tx_queue_multicast ≡ false
      → Sends d now s (try_multicast crc32 rate_type d now s).0
  try_multicast-Sends d now s sound e =
      elim (Bool-cases (
        is_multicast_eaw s.awdl_state now
        && is_now (can_send_in s.awdl_state now multicast_guard_tu))) [
          | inr later ↦
              subst (Sends d now s) (sym (try-later d now s later)) (sound, inl (refl, refl))
          | inl allowed ↦
              let (valid, a, first, got) = get-first s.tx_queue_multicast sound.ring e in
              let (slot, time) = both_true (is_multicast_eaw s.awdl_state now) _ allowed in
              subst (Sends d now s) (sym (try-now d now s a allowed got)) (
                after_get d now s a _ sound valid first slot
                  (is_now-zero (can_send_in s.awdl_state now multicast_guard_tu) time))
        ]

  pub send_multicast-Sends :
      (d : Buf) (now : ℕ) (s : DaemonState)
      → IsSound s
      → let r = send_multicast crc32 rate_type d now s in
        Sends d now s r × GoesOn (not (Ring.empty r.0.tx_queue_multicast)) r.1
  unfolding send_multicast
  send_multicast-Sends d now s sound = elim (Bool-cases (Ring.empty s.tx_queue_multicast)) [
    | inl e ↦
        rw (send_multicast, e)
          (
            Sends-rearm d now s ((s, []), pos 0) (sound, inl (refl, refl)),
            (rearm_multicast_lem ((s, []), pos 0)).2,
          )
    | inr e ↦
        let r = try_multicast crc32 rate_type d now s in
        rw (send_multicast, e)
          (Sends-rearm d now s r (try_multicast-Sends d now s sound e), (rearm_multicast_lem r).2)
  ]
