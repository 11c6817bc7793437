-- ===== src/Daemon/Queue.antt =====
-- The multicast frames of the daemon: a queue from the host to the WLAN device.
use mathlib.Core.List.{append_assoc, append-nil}
use owl.Base.{
  ℕ, zero, suc, ◌+◌, ◌%◌, ◌<◌, ◌≡◌, refl, sym, ap, ap₂, subst, ◌∙◌, ◌⊎◌, inl, inr, ◌==◌,
  if◌then◌else◌, true, false, Bool-cases, Option, none, some, Option-cases, List, [], ◌∷◌, ◌++◌,
  length, length-append, get_or, All, arith,
}
use owl.Base.Int.{pos}
use owl.Daemon.{DaemonState}
use owl.Daemon.Poll.{Polled, received, has_enough, enqueue, poll_host_device}
use owl.Election.{EtherAddr}
use owl.Ring
use owl.Ring.Queue
use owl.Ring.Refine.{IsValid, contents, put_refines, queries_refine}
use owl.Wire.{Buf, read_ether_addr}

-- The buffers behind some pointers.
abbrev pub frames_of : Buf → List Buf → List ℕ → List Buf
frames_of d heap [] = []
frames_of d heap (a ∷ l) = get_or heap a d ∷ frames_of d heap l

abbrev pub queued : Buf → DaemonState → List Buf
queued d s = frames_of d s.heap (contents s.tx_queue_multicast)

-- The queue is valid, and each of its pointers is to a buffer that has been allocated.
pub record IsSound (s : DaemonState) : Type 0 where
  pub ring : IsValid s.tx_queue_multicast
  pub live : All (λ a. a < length s.heap) (contents s.tx_queue_multicast)

-- The frames of the host that are to many, and those to one, in their order.
abbrev pub multicast_frames : Buf → List (List ℕ) → List Buf
multicast_frames fresh [] = []
multicast_frames fresh (b ∷ l) = elim (read_ether_addr (received fresh b) (pos 0)) [
  | none ↦ multicast_frames fresh l
  | some (_, dst) ↦
      (if get_or dst 0 0 % 2 == 1 then received fresh b ∷ [] else []) ++ multicast_frames fresh l
]

abbrev unicast_frames : Buf → List (List ℕ) → List Buf
unicast_frames fresh [] = []
unicast_frames fresh (b ∷ l) = elim (read_ether_addr (received fresh b) (pos 0)) [
  | none ↦ unicast_frames fresh l
  | some (_, dst) ↦
      (if get_or dst 0 0 % 2 == 1 then [] else received fresh b ∷ []) ++ unicast_frames fresh l
]

get_or-snoc :
    (l : List Buf) (b d : Buf) (i : ℕ) → i < length l → get_or (l ++ b ∷ []) i d ≡ get_or l i d
get_or-snoc [] b d i h = elim h [ ]
get_or-snoc (x ∷ l) b d zero h = refl
get_or-snoc (x ∷ l) b d (suc i) h = get_or-snoc l b d i (omega arith)

get_or-last : (l : List Buf) (b d : Buf) → get_or (l ++ b ∷ []) (length l) d ≡ b
get_or-last [] b d = refl
get_or-last (x ∷ l) b d = get_or-last l b d

frames_of-snoc :
    (d : Buf) (heap : List Buf) (b : Buf) (l : List ℕ)
    → All (λ a. a < length heap) l
    → frames_of d (heap ++ b ∷ []) (l ++ length heap ∷ []) ≡ frames_of d heap l ++ b ∷ []
frames_of-snoc d heap b [] h = ap (λ x. x ∷ []) (get_or-last heap b d)
frames_of-snoc d heap b (a ∷ l) h =
    ap₂ ◌∷◌ (get_or-snoc heap b d a h.0) (frames_of-snoc d heap b l h.1)

All-lt : (n : ℕ) (l : List ℕ) → All (λ a. a < n) l → All (λ a. a < n + 1) (l ++ n ∷ [])
All-lt n [] h = (omega arith, tt)
All-lt n (a ∷ l) h = (omega (arith, h.0), All-lt n l h.1)

module _ (d : Buf) where
  -- A frame behind all others, if there is room.
  enqueue_lem :
      (s : DaemonState) (b : Buf)
      → IsSound s
      → Ring.full s.tx_queue_multicast ≡ false
      → IsSound (enqueue s b) × (queued d (enqueue s b) ≡ queued d s ++ b ∷ [])
  unfolding enqueue Queue.put
  enqueue_lem s b sound room =
      let (valid, appended) = put_refines s.tx_queue_multicast (length s.heap) sound.ring in
      let (_, fullness, _) = queries_refine s.tx_queue_multicast sound.ring in
      let q = contents s.tx_queue_multicast in
      let behind : contents (Ring.put s.tx_queue_multicast (length s.heap))
          ≡ q ++ length s.heap ∷ [] =
        appended ∙ rw (sym fullness ∙ room) refl in
      (
        record {
          ring = valid;
          live = subst (All (λ a. a < length (s.heap ++ b ∷ []))) (sym behind) (
              subst (λ n. All (λ a. a < n) (q ++ length s.heap ∷ []))
                (sym (length-append s.heap (b ∷ []))) (All-lt (length s.heap) q sound.live));
        },
        ap (frames_of d (s.heap ++ b ∷ [])) behind ∙ frames_of-snoc d s.heap b q sound.live,
      )

  has_room :
      (s : DaemonState)
      → has_enough s ≡ false
      → (s.next ≡ none) × (Ring.full s.tx_queue_multicast ≡ false)
  has_room s h = elim (Option-cases s.next) [ inl e ↦ (e, rw e at h) | inr (b, e) ↦ cc (rw e at h) ]

  -- What becomes of the frame to one, by those that have been taken.
  abbrev Held : Option Buf → Option Buf → List Buf → Type 0
  Held old new us =
      ((us ≡ []) × (new ≡ old)) ⊎ ((old ≡ none) × (b : Buf) × (us ≡ b ∷ []) × (new ≡ some b))

  -- Frames are taken from the front. Those to many are behind the others in the queue, and one to one
  -- is held.
  abbrev pub Takes :
      Buf → List (List ℕ) → DaemonState → DaemonState × List (List ℕ) × Polled → Type 0
  Takes fresh input s (s', left, _) =
      IsSound s'
      × (taken : List (List ℕ)) × (input ≡ taken ++ left)
      × (queued d s' ≡ queued d s ++ multicast_frames fresh taken)
      × Held s.next s'.next (unicast_frames fresh taken)

  module _ (fresh : Buf) (b : List ℕ) (input : List (List ℕ)) (s : DaemonState) (r : Polled)
      (room : has_enough s ≡ false) where
    poll-short :
        read_ether_addr (received fresh b) (pos 0) ≡ none
        → poll_host_device fresh (b ∷ input) s r ≡ (s, input, r)
    unfolding poll_host_device
    poll-short e = rw (poll_host_device, room, e) refl

    module _ {n : ℕ} {dst : EtherAddr}
        (e : read_ether_addr (received fresh b) (pos 0) ≡ some (n, dst)) where
      poll-many :
          (get_or dst 0 0 % 2 == 1) ≡ true
          → poll_host_device fresh (b ∷ input) s r
            ≡ poll_host_device fresh input
                (enqueue s (received fresh b))
                (record r { new_multicast = true })
      unfolding poll_host_device
      poll-many many = rw (poll_host_device, room, e, many) refl

      poll-one :
          (get_or dst 0 0 % 2 == 1) ≡ false
          → poll_host_device fresh (b ∷ input) s r
            ≡ poll_host_device fresh input
                (record s { next = some (received fresh b) })
                (record r { new_unicast = true })
      unfolding poll_host_device
      poll-one one = rw (poll_host_device, room, e, one) refl

  -- A frame to one is held, so that no other can be taken after it.
  Held-one :
      (old new : Option Buf) (b : Buf) (us : List Buf)
      → old ≡ none
      → Held (some b) new us
      → Held old new (b ∷ us)
  Held-one old new b us free (inl (empty, same)) = inr (free, b, ap (λ l. b ∷ l) empty, same)
  Held-one old new b us free (inr (taken, _, _, _)) = cc

  -- Polling takes frames from the front of those that the host has, whatever they are. Those to many
  -- are appended to the queue in their order, with none lost there before; at most one is to one, and
  -- it is held as the next only if none was; a frame too short for an address goes nowhere. The queue
  -- stays valid, each pointer in it to a buffer that has been
  -- allocated.
  pub poll_host_device-Takes :
      (fresh : Buf) (input : List (List ℕ)) (s : DaemonState) (r : Polled)
      → IsSound s
      → Takes fresh input s (poll_host_device fresh input s r)
  unfolding poll_host_device enqueue
  poll_host_device-Takes fresh [] s r sound =
      (sound, [], refl, sym (append-nil (queued d s)), inl (refl, refl))
  poll_host_device-Takes fresh (b ∷ input) s r sound = elim (Bool-cases (has_enough s)) [
    | inl full ↦
        rw (poll_host_device, full)
          (sound, [], refl, sym (append-nil (queued d s)), inl (refl, refl))
    | inr room ↦
        let (free, space) = has_room s room in
        let buf = received fresh b in
        elim (Option-cases (read_ether_addr buf (pos 0))) [
          | inl e ↦ subst (Takes fresh (b ∷ input) s) (sym (poll-short fresh b input s r room e)) (
            sound,
            b ∷ [],
            refl,
            rw (multicast_frames, e) (sym (append-nil (queued d s))),
            inl (rw (unicast_frames, e) refl, refl),
          )
          | inr ((n, dst), e) ↦ elim (Bool-cases (get_or dst 0 0 % 2 == 1)) [
            | inl many ↦
                let (sound1, appended) = enqueue_lem s buf sound space in
                let (sound', taken, split, all, held) =
                  poll_host_device-Takes fresh input (enqueue s buf)
                    (record r { new_multicast = true }) sound1 in
                subst (Takes fresh (b ∷ input) s) (sym (poll-many fresh b input s r room e many)) (
                  sound',
                  b ∷ taken,
                  ap (λ l. b ∷ l) split,
                  rw (multicast_frames, e, many)
                      (all
                        ∙ ap (λ l. l ++ multicast_frames fresh taken) appended
                        ∙ append_assoc (queued d s) (buf ∷ []) (multicast_frames fresh taken)),
                  rw (unicast_frames, e, many) held,
                )
            | inr one ↦
                let (sound', taken, split, all, held) =
                  poll_host_device-Takes fresh input (record s { next = some buf })
                    (record r { new_unicast = true })
                    (record { ring = sound.ring; live = sound.live }) in
                subst (Takes fresh (b ∷ input) s) (sym (poll-one fresh b input s r room e one)) (
                  sound',
                  b ∷ taken,
                  ap (λ l. b ∷ l) split,
                  rw (multicast_frames, e, one) all,
                  rw (unicast_frames, e, one)
                      (Held-one s.next _ buf (unicast_frames fresh taken) free held),
                )
          ]
        ]
  ]
