-- ===== src/Link/Action.antt =====
-- An action frame of src/tx.c, from one node to the table of peers and the clock of another.
use owl.Base.{
  ℕ, ◌≡◌, ◌⊎◌, inl, inr, refl, sym, ap, subst, ◌∙◌, if◌then◌else◌, false, Option, none, some, List,
  [], ◌++◌, length, length-append, arith,
}
use owl.Base.Int.{ℤ, pos}
use owl.Channel.{Chan}
use owl.Election.{EtherAddr}
use owl.Hashmap.{Hashmap}
use owl.Link.Body.{sender, body-View}
use owl.Link.Data.{stripped-View}
use owl.Link.Passes.{clock_after, with_clock}
use owl.Link.Tlvs.{IsSendable}
use owl.Link.View.{View, behind, load_all-View}
use owl.Peers.Laws.{NoMemory, known, peer_add_lem, if_if, same_addr_refl}
use owl.Peers.Table.{PeerMap, PeersStatus, same_addr, mark, peer_add}
use owl.Peers.{Peer}
use owl.Rx.Frame.{parse_action_hdr, stripped, handle_body}
use owl.Rx.Receive.{Radiotap, too_weak, count_rx_action, with_peers, finish_action, rx_action}
use owl.Rx.{RxResult, Session, stop, ok, ignore, run}
use owl.State.{AwdlState}
use owl.Tx.Frame.{ActionType, subtype_of, init_action, action_tlvs}
use owl.Tx.Headers.{parse_action_hdr-bytes, length-init_action}
use owl.Tx.Parse.{read_bytes-load}
use owl.Wire.{Buf, read_bytes}

parse-View :
    (b : Buf) (type : ActionType) (clock : ℕ) (rest : List ℕ)
    → View b (init_action type clock ++ rest)
    → parse_action_hdr b ≡ some (subtype_of type)
parse-View b type clock rest v =
    let hdr = init_action type clock in
    let sixteen = length-init_action type clock in
    let size = v.len in
    let long = length-append hdr rest in
    let bytes =
      read_bytes-load b 0 hdr (load_all-View b 0 (length hdr) [] hdr rest v refl refl)
        (omega arith) in
    parse_action_hdr-bytes b type clock
      (subst (λ n. read_bytes b (pos 0) n ≡ some (n, hdr)) sixteen bytes)

module _ {Sound : Hashmap Peer → Type 0} (map : PeerMap (Hashmap Peer) Sound) (fresh_peer : Peer)
    (fresh : Buf) (tlv_cb : ℕ → Buf → Session → Session) (list : List Chan) (lib : Radiotap) where
  -- The table and the result after a frame has been accepted or has found no memory.
  rx_action-parts :
      (b : Buf) (rssi : ℤ) (subtype now : ℕ) (src : EtherAddr) (r : AwdlState)
      → parse_action_hdr b ≡ some subtype
      → too_weak r (map.get r.peers.peers src) rssi ≡ false
      → rx_action map fresh_peer fresh tlv_cb list lib b rssi now src r ≡ (
          let added = peer_add map fresh_peer r.peers.peers src now r.peer_cb in
          let s = with_peers (count_rx_action r) added.0 in
          elim added.1 as (λ _. AwdlState × RxResult × List Peer) [
            | PeersStatus.internal ↦ (s, ignore, added.2)
            | PeersStatus.missing ↦ (s, ignore, added.2)
            | _ ↦ elim (map.get added.0 src) [
              | none ↦ (s, ignore, added.2)
              | some peer ↦ finish_action map fresh_peer fresh tlv_cb list lib src now added.2 (
                  handle_body tlv_cb list
                    (stripped b 16)
                    subtype
                    now
                    (record { peer = peer; state = s }))
            ]
          ])
  unfolding rx_action run
  rx_action-parts b rssi subtype now src r parsed strong = rw (rx_action, parsed, strong) refl

  -- The peer before the TLVs are handled, and the node with it in its table.
  abbrev pub met : EtherAddr → ℕ → AwdlState → Session
  met src now r = record {
    peer = mark (record (known fresh_peer src (map.get r.peers.peers src)) { last_update = now });
    state =
        with_peers (count_rx_action r) (peer_add map fresh_peer r.peers.peers src now r.peer_cb).0;
  }

  -- The frame finds no memory for a new peer, or the table of peers and the clock are as it tells.
  abbrev pub Hears : AwdlState → ActionType → ℕ → ℕ → AwdlState → AwdlState × RxResult → Type 0
  Hears s type sent now r (r', result) =
      let src = s.self_address in
      ((map.get r.peers.peers src ≡ none)
        × NoMemory map fresh_peer r.peers.peers src now
        × (result ≡ ignore))
      ⊎ ((result ≡ ok)
          × Sound r'.peers.peers
          × ((a : EtherAddr)
              → map.get r'.peers.peers a ≡ (
                  if same_addr src a
                  then some
                      (mark (record (sender s type (met src now r).peer) { last_update = now }))
                  else map.get r.peers.peers a))
          × (r'.sync ≡ clock_after s sent now (met src now r)))

  -- The end of the function, on a session whose peer is in its table.
  finished :
      (src : EtherAddr) (now : ℕ) (calls : List Peer) (h : Session) (q : Peer)
      → Sound h.state.peers.peers
      → map.get h.state.peers.peers src ≡ some q
      → let f = finish_action map fresh_peer fresh tlv_cb list lib src now calls (h, stop ok) in
        (f.1 ≡ ok)
        × Sound f.0.peers.peers
        × ((a : EtherAddr)
            → map.get f.0.peers.peers a ≡ (
                if same_addr src a
                then some (mark (record h.peer { last_update = now }))
                else map.get h.state.peers.peers a))
        × (f.0.sync ≡ h.state.sync)
  unfolding finish_action
  finished src now calls h q sound there =
      let m = h.state.peers.peers in
      let m2 = map.store m src h.peer in
      let sound2 = map.store-Sound m src h.peer q sound there in
      let stored =
        map.get-store m src src h.peer q sound there
        ∙ ap (λ b. if b then some h.peer else map.get m src)
            (same_addr_refl map fresh_peer m src sound) in
      let last = record h.peer { last_update = now } in
      elim (peer_add_lem map fresh_peer m2 src sound2 h.state.peer_cb now) [
        | inl (absent, _, _, _, _, _) ↦ cc (absent, stored)
        | inr (_, _, (sound3, reads)) ↦ (
          refl,
          sound3,
          λ a.
              reads a
              ∙ ap
                  (λ o.
                    if same_addr src a
                    then some (mark (record (known fresh_peer src o) { last_update = now }))
                    else map.get m2 a)
                  stored
              ∙ ap (λ o. if same_addr src a then some (mark last) else o)
                  (map.get-store m src a h.peer q sound there)
              ∙ if_if (same_addr src a) _ _ _,
          refl,
        )
      ]

  module _ (b : Buf) (rssi : ℤ) (subtype now : ℕ) (src : EtherAddr) (r : AwdlState)
      (parsed : parse_action_hdr b ≡ some subtype)
      (strong : too_weak r (map.get r.peers.peers src) rssi ≡ false) where
    no_room :
        (peer_add map fresh_peer r.peers.peers src now r.peer_cb).1 ≡ PeersStatus.internal
        → (rx_action map fresh_peer fresh tlv_cb list lib b rssi now src r).1 ≡ ignore
    no_room full =
        ap (λ (x : AwdlState × RxResult × List Peer). x.1)
          (rx_action-parts b rssi subtype now src r parsed strong)
        ∙ rw full refl

    has_room :
        (o : Option Peer) (p : Peer)
        → (peer_add map fresh_peer r.peers.peers src now r.peer_cb).1
          ≡ elim o [ none ↦ PeersStatus.ok | some _ ↦ PeersStatus.update ]
        → map.get (peer_add map fresh_peer r.peers.peers src now r.peer_cb).0 src ≡ some p
        → rx_action map fresh_peer fresh tlv_cb list lib b rssi now src r ≡ (
            let added = peer_add map fresh_peer r.peers.peers src now r.peer_cb in
            finish_action map fresh_peer fresh tlv_cb list lib src now added.2 (
              handle_body tlv_cb list
                (stripped b 16)
                subtype
                now
                (record { peer = p; state = with_peers (count_rx_action r) added.0 })))
    has_room none p done there =
        rx_action-parts b rssi subtype now src r parsed strong ∙ rw (done, there) refl
    has_room (some _) p done there =
        rx_action-parts b rssi subtype now src r parsed strong ∙ rw (done, there) refl

  -- An action frame behind its IEEE 802.11 header.
  pub rx_action-Hears :
      (s : AwdlState) (type : ActionType) (clock sent now : ℕ) (crc32 : List ℕ → ℕ) (rate_type : ℕ)
      (b : Buf) (rssi : ℤ) (r : AwdlState)
      → View b (init_action type clock ++ action_tlvs crc32 rate_type s type sent)
      → IsSendable s
      → length list ≡ 16
      → Sound r.peers.peers
      → r.tlv_cb ≡ false
      → r.sync.presence_mode ≡ 4
      → too_weak r (map.get r.peers.peers s.self_address) rssi ≡ false
      → let x = rx_action map fresh_peer fresh tlv_cb list lib b rssi now s.self_address r in
        Hears s type sent now r (x.0, x.1)
  rx_action-Hears s type clock sent now crc32 rate_type b rssi r v ready long sound quiet mode
        strong =
      let src = s.self_address in
      let parsed = parse-View b type clock _ v in
      let m = r.peers.peers in
      elim (peer_add_lem map fresh_peer m src sound r.peer_cb now) [
        | inl (absent, failed, internal, _, _, _) ↦
            inl (absent, failed, no_room b rssi (subtype_of type) now src r parsed strong internal)
        | inr (status, _, (sound1, reads1)) ↦
            let h = met src now r in
            let there =
              reads1 src
              ∙ ap (λ b. if b then some h.peer else map.get m src)
                  (same_addr_refl map fresh_peer m src sound) in
            let (cut, body) =
              subst
                (λ n.
                  (stripped b n ≡ behind b n)
                  × View (behind b n) (action_tlvs crc32 rate_type s type sent))
                (length-init_action type clock) (stripped-View b (init_action type clock) _ v) in
            let h' : Session = record (with_clock h (clock_after s sent now h)) {
              peer = sender s type h.peer;
            } in
            let handled =
              ap (λ c. handle_body tlv_cb list c (subtype_of type) now h) cut
              ∙ body-View tlv_cb list s sent now crc32 rate_type type (behind b 16) h ready long
                  body quiet mode in
            let calls = (peer_add map fresh_peer m src now r.peer_cb).2 in
            let through =
              has_room b rssi (subtype_of type) now src r parsed strong (map.get m src) h.peer
                status there
              ∙ ap (finish_action map fresh_peer fresh tlv_cb list lib src now calls) handled in
            let (result, sound3, reads3, clock3) = finished src now calls h' h.peer sound1 there in
            subst (λ (x : AwdlState × RxResult × List Peer). Hears s type sent now r (x.0, x.1))
              (sym through)
              (inr (
                result,
                sound3,
                λ a.
                    reads3 a
                    ∙ ap
                        (λ o.
                          if same_addr src a
                          then some (mark (record (sender s type h.peer) { last_update = now }))
                          else o)
                        (reads1 a)
                    ∙ if_if (same_addr src a) _ _ _,
                clock3,
              ))
      ]
