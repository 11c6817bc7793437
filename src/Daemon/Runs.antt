-- ===== src/Daemon/Runs.antt =====
-- The daemon's event loop: its handlers, called in any order, from the state that `awdl_init` leaves.
use mathlib.Core.List.{append_assoc, append-nil, append_cancel_right}
use owl.Base.{
  ℕ, ◌≡◌, refl, sym, ap, subst, ◌∙◌, inl, inr, some, Option-cases, List, [], ◌∷◌, ◌++◌, length,
  if◌then◌else◌, get_or, arith, ◌%◌, ◌==◌,
}
use owl.Base.Int.{ℤ, pos}
use owl.Channel.{Chan}
use owl.Daemon.Air.{send_multicast-Sends}
use owl.Daemon.Keeps.{
  Keeps, Keeps-IsSound, Keeps-queued, if-either, deliver-Keeps, switch_channel-Keeps,
  send_mif-Keeps, send_unicast-Keeps,
}
use owl.Daemon.Poll.{
  Polled, nothing_new, received, poll_host_device, host_device_ready, receive_frame,
}
use owl.Daemon.Queue.{queued, IsSound, multicast_frames, poll_host_device-Takes}
use owl.Daemon.Send.{send_unicast, send_multicast}
use owl.Daemon.Timers.{send_action, send_psf, send_mif, switch_channel, clean_peers}
use owl.Daemon.{DaemonState, Done}
use owl.Hashmap.{Hashmap}
use owl.Peers.Table.{PeerMap}
use owl.Peers.{Peer}
use owl.Ring
use owl.Ring.Refine.{init-IsValid}
use owl.Rx.Receive.{Radiotap}
use owl.Rx.{Session}
use owl.Wire.{Buf, read_ether_addr}

abbrev pub queue_size : ℕ
queue_size = 16

multicast_frames-append :
    (fresh : Buf) (l r : List (List ℕ))
    → multicast_frames fresh (l ++ r) ≡ multicast_frames fresh l ++ multicast_frames fresh r
multicast_frames-append fresh [] r = refl
multicast_frames-append fresh (b ∷ l) r =
    elim (Option-cases (read_ether_addr (received fresh b) (pos 0))) [
      | inl e ↦ rw (multicast_frames, e) (multicast_frames-append fresh l r)
      | inr ((n, dst), e) ↦
          let first = if get_or dst 0 0 % 2 == 1 then received fresh b ∷ [] else [] in
          rw (multicast_frames, e)
            (ap (λ x. first ++ x) (multicast_frames-append fresh l r)
              ∙ sym (append_assoc first (multicast_frames fresh l) (multicast_frames fresh r)))
    ]

module _ (fresh d : Buf) where
  -- The queue has the last of the multicast frames that were taken from the host, in their order.
  abbrev pub Behind : List (List ℕ) → DaemonState → Type 0
  Behind given s =
      IsSound s × (gone : List Buf) × (multicast_frames fresh given ≡ gone ++ queued d s)

  Behind-Keeps :
      (given : List (List ℕ)) (s t : DaemonState) → Keeps s t → Behind given s → Behind given t
  Behind-Keeps given s t keeps (sound, gone, split) = (
    Keeps-IsSound s t keeps sound,
    gone,
    split ∙ ap (λ q. gone ++ q) (sym (Keeps-queued s t d keeps)),
  )

  still :
      (given : List (List ℕ)) (s t : DaemonState)
      → Keeps s t
      → Behind given s
      → Behind (given ++ []) t
  still given s t keeps before =
      subst (λ l. Behind l t) (sym (append-nil given)) (Behind-Keeps given s t keeps before)

  Behind-Takes :
      (given taken left : List (List ℕ)) (s : DaemonState) (r : Polled)
      → (poll_host_device fresh (taken ++ left) s r).1 ≡ left
      → Behind given s
      → Behind (given ++ taken) (poll_host_device fresh (taken ++ left) s r).0
  Behind-Takes given taken left s r rest (sound, gone, split) =
      let (sound', taken', cut, all, _) =
        poll_host_device-Takes d fresh (taken ++ left) s r sound in
      let same : taken ≡ taken' =
        append_cancel_right taken taken' left (cut ∙ ap (λ l. taken' ++ l) rest) in
      (
        sound',
        gone,
        multicast_frames-append fresh given taken
            ∙ ap (λ l. l ++ multicast_frames fresh taken) split
            ∙ append_assoc gone (queued d s) (multicast_frames fresh taken)
            ∙ ap (λ l. gone ++ (queued d s ++ multicast_frames fresh l)) same
            ∙ ap (λ l. gone ++ l) (sym all),
      )

  module _ (crc32 : List ℕ → ℕ) (rate_type : ℕ) where
    Behind-Sends :
        (given : List (List ℕ)) (now : ℕ) (s : DaemonState)
        → Behind given s
        → Behind given (send_multicast crc32 rate_type d now s).0
    Behind-Sends given now s (sound, gone, split) =
        let ((sound', what), _) = send_multicast-Sends crc32 rate_type d now s sound in
        elim what [
          | inl (kept, _) ↦ (sound', gone, split ∙ ap (λ q. gone ++ q) (sym kept))
          | inr (b, first, _, _, _) ↦ (
            sound',
            gone ++ b ∷ [],
            split
                ∙ ap (λ q. gone ++ q) first
                ∙ sym (
                    append_assoc gone (b ∷ [])
                      (queued d (send_multicast crc32 rate_type d now s).0)),
          )
        ]

    module _ {Sound : Hashmap Peer → Type 0} (map : PeerMap (Hashmap Peer) Sound) where
      Behind-host :
          (given taken left : List (List ℕ)) (now now' : ℕ) (s : DaemonState)
          → (host_device_ready crc32 rate_type map fresh d (taken ++ left) now now' s).1 ≡ left
          → Behind given s
          → Behind
              (given ++ taken)
              (host_device_ready crc32 rate_type map fresh d (taken ++ left) now now' s).0
      unfolding host_device_ready
      Behind-host given taken left now now' s rest before =
          let polled = poll_host_device fresh (taken ++ left) s nothing_new in
          let after_poll = Behind-Takes given taken left s nothing_new rest before in
          let r2 : Done =
            if polled.2.new_multicast
            then send_multicast crc32 rate_type d now polled.0
            else (polled.0, []) in
          let sent =
            if-either (λ r. Behind (given ++ taken) r.0) polled.2.new_multicast
              (send_multicast crc32 rate_type d now polled.0) (polled.0, [])
              (Behind-Sends (given ++ taken) now polled.0 after_poll) after_poll in
          if-either (λ r. Behind (given ++ taken) r.0) polled.2.new_unicast
            (send_unicast crc32 rate_type map now' r2.0) (r2.0, [])
            (Behind-Keeps (given ++ taken) r2.0 (send_unicast crc32 rate_type map now' r2.0).0
              (send_unicast-Keeps crc32 rate_type map now' r2.0) sent)
            sent

      module _ (fresh_peer : Peer) (tlv_cb : ℕ → Buf → Session → Session) (list : List Chan)
          (lib : Radiotap) where
        -- A call of a handler, with the frames that it takes from the host.
        pub data Step (s : DaemonState) : List (List ℕ) → DaemonState → Type 0 where
          host_device :
              (taken left : List (List ℕ)) (now now' : ℕ)
              → (host_device_ready crc32 rate_type map fresh d (taken ++ left) now now' s).1 ≡ left
              → Step s taken
                  (host_device_ready crc32 rate_type map fresh d (taken ++ left) now now' s).0
          wlan_device :
              (bytes : List ℕ) (unset : ℤ × ℕ) (now : ℕ)
              → Step s [] (receive_frame map fresh_peer fresh tlv_cb list lib bytes unset now s).0
          psf_timer : (clock now : ℕ) → Step s [] (send_psf crc32 rate_type clock now s).0
          mif_timer : (now clock now' : ℕ) → Step s [] (send_mif crc32 rate_type now clock now' s).0
          unicast_timer : (now : ℕ) → Step s [] (send_unicast crc32 rate_type map now s).0
          multicast_timer : (now : ℕ) → Step s [] (send_multicast crc32 rate_type d now s).0
          channel_timer : (now : ℕ) → Step s [] (switch_channel now s).0
          peers_timer : (now : ℕ) → Step s [] (clean_peers now s).0

        -- The states of a run, with the frames that it has taken from the host.
        pub data Reach : List (List ℕ) → DaemonState → Type 0 where
          start :
              (s : DaemonState) (slots : List ℕ)
              → length slots ≡ queue_size
              → Ring.init slots queue_size ≡ some s.tx_queue_multicast
              → s.heap ≡ []
              → Reach [] s
          later :
              {given taken : List (List ℕ)} {s t : DaemonState}
              → Reach given s
              → Step s taken t
              → Reach (given ++ taken) t

        Behind-Step :
            (given : List (List ℕ)) {taken : List (List ℕ)} {s t : DaemonState}
            → Step s taken t
            → Behind given s
            → Behind (given ++ taken) t
        unfolding receive_frame send_psf send_action clean_peers
        Behind-Step given {s = s} (host_device taken left now now' rest) before =
            Behind-host given taken left now now' s rest before
        Behind-Step given {s = s} (wlan_device bytes unset now) before =
            still given s _ (deliver-Keeps s _) before
        Behind-Step given {s = s} (psf_timer clock now) before = still given s _ (refl, refl) before
        Behind-Step given {s = s} (mif_timer now clock now') before =
            still given s _ (send_mif-Keeps crc32 rate_type now clock now' s) before
        Behind-Step given {s = s} (unicast_timer now) before =
            still given s _ (send_unicast-Keeps crc32 rate_type map now s) before
        Behind-Step given {s = s} (multicast_timer now) before =
            subst (λ l. Behind l (send_multicast crc32 rate_type d now s).0)
              (sym (append-nil given)) (Behind-Sends given now s before)
        Behind-Step given {s = s} (channel_timer now) before =
            still given s _ (switch_channel-Keeps now s) before
        Behind-Step given {s = s} (peers_timer now) before = still given s _ (refl, refl) before

        -- In every state that a run of the event loop reaches, with its handlers called in any order, at
        -- any times and with any input, the queue is valid, each pointer in it is to a
        -- buffer that has been allocated, and it holds
        -- the last of the multicast frames that the run has taken from the host, all of them from some
        -- frame on, in their order.
        pub Reach-Behind :
            {given : List (List ℕ)} {s : DaemonState} → Reach given s → Behind given s
        Reach-Behind (start s slots enough made empty) =
            let (valid, none_in, _, _) =
              init-IsValid slots queue_size (omega arith) (omega arith) made in
            (record { ring = valid; live = rw none_in tt }, [], rw none_in refl)
        Reach-Behind (later {given} {taken} {s} {t} run step) =
            Behind-Step given step (Reach-Behind run)
