-- ===== src/Devices/Loop.antt =====
-- src/daemon/owl.c: the state in which the event loop starts.
use owl.Base.{
  ℕ, ◌+◌, ◌^◌, ◌<◌, ◌≡◌, refl, subst, inl, inr, Bool, true, false, Option, none, some, List, [],
  ◌∷◌, length, Option-cases,
}
use owl.Channel.{Chan, chanseq_init_static}
use owl.Daemon.Runs.{queue_size, Reach}
use owl.Daemon.{DaemonState}
use owl.Devices.Held.{unless_negative_lem}
use owl.Devices.Io.{IoState, io_state_init}
use owl.Devices.Netlink.{netutils_init}
use owl.Devices.Start.{
  Opt, opt_wlan, opt_host, Running, get_hostname, initialised, awdl_init, with_filter, launch,
  start_daemon, Options, take_options, choose_chan, default_options,
}
use owl.Devices.{System, History}
use owl.Election.{EtherAddr}
use owl.Election
use owl.Hashmap.Empty.{new_lem}
use owl.Hashmap.Valid.{view}
use owl.Hashmap.Valid
use owl.Hashmap.{Hashmap}
use owl.Hashmap
use owl.Peers.Table.{PeerMap}
use owl.Peers.{Peer, host_name_length_max}
use owl.Peers
use owl.Ring
use owl.Rx.Receive.{Radiotap}
use owl.Rx.{Session}
use owl.State.{AwdlState, init_state}
use owl.Sync
use owl.Sync.Laws.{state_init-IsValid}
use owl.Sync.Laws
use owl.Tx.Frame.{awdl_bssid}
use owl.Wire.{Buf}

-- The names fit the arrays that `main` copies them into, with the zero at their end.
abbrev NamesFit : List Opt → Type 0
NamesFit [] = Unit {0}
NamesFit (opt_wlan name ∷ l) = length name < 4096 × NamesFit l
NamesFit (opt_host name ∷ l) = length name < 16 × NamesFit l
NamesFit (_ ∷ l) = NamesFit l

-- A node that has heard of no other: its clock runs from `now`, it is its own master, and its table
-- of peers is a sound map without a peer.
abbrev pub NewNode : (List ℕ → ℕ) → ℕ → EtherAddr → AwdlState → Type 0
NewNode hash now addr s =
    Laws.IsValid s.sync
    × (s.sync.last_update ≡ now)
    × (s.sync.presence_mode ≡ 4)
    × (s.self_address ≡ addr)
    × (s.election.self_addr ≡ addr)
    × (s.election.master_addr ≡ addr)
    × (s.election.sync_addr ≡ addr)
    × (s.election.height ≡ 0)
    × (length s.channel.sequence ≡ 16)
    × (s.tlv_cb ≡ false)
    × (s.peer_cb ≡ true)
    × (s.peer_remove_cb ≡ true)
    × (s.peers.peers.key_size ≡ 6)
    × Valid.IsValid hash s.peers.peers
    × ((key : List ℕ) → view hash s.peers.peers key ≡ none)

new_node :
    (hash : List ℕ → ℕ) (now : ℕ) (s : AwdlState) (name : List ℕ) (self : EtherAddr) (chan : Chan)
    → now < 2 ^ 64
    → NewNode hash now self
        (record (init_state s name self chan now) { peer_cb = true; peer_remove_cb = true })
unfolding init_state Sync.state_init Election.state_init Peers.state_init chanseq_init_static
    Hashmap.new
new_node hash now s name self chan early =
    let table = new_lem Peer hash 6 in
    (
      state_init-IsValid now early,
      refl,
      refl,
      refl,
      refl,
      refl,
      refl,
      refl,
      refl,
      refl,
      refl,
      refl,
      refl,
      table.0,
      table.1,
    )

-- The queue has 16 places and is empty, no frame is held as the next, no buffer is on the heap, and
-- the node is new.
record Fresh (slots : List ℕ) (hash : List ℕ → ℕ) (now : ℕ) (x : Running) : Type 0 where
  queue : Ring.init slots queue_size ≡ some x.0.tx_queue_multicast
  heap : x.0.heap ≡ []
  held : x.0.next ≡ none
  node : NewNode hash now x.1.if_ether_addr x.0.awdl_state

data FreshIf (slots : List ℕ) (hash : List ℕ → ℕ) (now : ℕ) : Option Running → Type 0 where
  ends : FreshIf slots hash now none
  runs : {x : Running} → Fresh slots hash now x → FreshIf slots hash now (some x)

running :
    (slots : List ℕ) (hash : List ℕ → ℕ) (now : ℕ) (x : Running)
    → FreshIf slots hash now (some x)
    → Fresh slots hash now x
running slots hash now x (runs h) = h

module _ (sys : System) (slots : List ℕ) (hash : List ℕ → ℕ) (now : ℕ) (early : now < 2 ^ 64) where
  awdl_init-FreshIf :
      (state : DaemonState) (io : IoState) (wlan host : List ℕ) (chan : Chan) (t : History)
      → FreshIf slots hash now (awdl_init sys slots state io wlan host chan now t)
  unfolding awdl_init initialised Ring.init
  awdl_init-FreshIf state io wlan host chan t =
      let (err, (route, wifi), t1) = netutils_init sys t in
      let (err', io', t2) = io_state_init sys route wifi wlan host awdl_bssid io t1 in
      let (err'', hostname, t3) = get_hostname sys [] (host_name_length_max + 1) t2 in
      unless_negative_lem (FreshIf slots hash now) err none _ ends (
        unless_negative_lem (FreshIf slots hash now) err' none _ ends (
          unless_negative_lem (FreshIf slots hash now) err'' none _ ends (
            runs (record {
              queue = refl;
              heap = refl;
              held = refl;
              node = new_node hash now state.awdl_state hostname io'.if_ether_addr chan early;
            }))))

  with_filter-FreshIf :
      (filter_rssi : Bool) (o : Option Running)
      → FreshIf slots hash now o
      → FreshIf slots hash now (with_filter filter_rssi o)
  unfolding with_filter
  with_filter-FreshIf filter_rssi none h = ends
  with_filter-FreshIf filter_rssi (some (s, io, net, t)) h =
      let before = running slots hash now (s, io, net, t) h in
      runs (record {
        queue = before.queue;
        heap = before.heap;
        held = before.held;
        node = before.node;
      })

  launch-FreshIf :
      (o : Options) (wlan : List ℕ) (chan : Chan) (state : DaemonState) (io : IoState) (t : History)
      → FreshIf slots hash now (launch sys o wlan chan slots state io now t)
  unfolding launch
  launch-FreshIf o [] chan state io t = ends
  launch-FreshIf o (c ∷ name) chan state io t = with_filter-FreshIf o.filter_rssi _ (
      awdl_init-FreshIf state (record io { wlan_no_monitor_mode = o.no_monitor_mode }) (c ∷ name)
        o.host chan t)

  start_daemon-FreshIf :
      (args : List Opt) (state : DaemonState) (io : IoState) (t : History)
      → FreshIf slots hash now (start_daemon sys args slots state io now t)
  unfolding start_daemon
  start_daemon-FreshIf args state io t = elim (Option-cases (take_options args default_options)) [
    | inl e ↦ rw (start_daemon, e) ends
    | inr (o, e) ↦ elim (Option-cases (choose_chan o.chan_num)) [
      | inl f ↦ rw (start_daemon, e, f) ends
      | inr (chan, f) ↦ rw (start_daemon, e, f) (launch-FreshIf o o.wlan chan state io t)
    ]
  ]

-- Whatever the options and whatever the calls return, if the names among the options fit their
-- arrays, the time of the clock is below 2^64, the queue is allocated with 16 places, and the program
-- comes to its event loop, then the loop starts in a state that a run starts in, before any frame of
-- the host: so what holds in every state of a run holds from there on. No frame is held as the next.
-- The node is new: its clock is valid and was last set at that time, with presence mode 4; its
-- address is that of the device, and so are its master's and that of the node it follows, at height
-- 0; its sequence has 16 channels; the callbacks for peers are set and that for TLVs is not; and its
-- table of peers is a sound map with keys of 6 bytes in which no key is found, whatever the hash.
pub start_daemon-Reach :
    {Sound : Hashmap Peer → Type 0} (map : PeerMap (Hashmap Peer) Sound) (fresh d : Buf)
    (crc32 : List ℕ → ℕ) (rate_type : ℕ) (fresh_peer : Peer) (tlv_cb : ℕ → Buf → Session → Session)
    (list : List Chan) (lib : Radiotap) (sys : System) (hash : List ℕ → ℕ) (args : List Opt)
    (slots : List ℕ) (state : DaemonState) (io : IoState) (now : ℕ) (t : History) (x : Running)
    → NamesFit args
    → now < 2 ^ 64
    → length slots ≡ queue_size
    → start_daemon sys args slots state io now t ≡ some x
    → Reach fresh d crc32 rate_type map fresh_peer tlv_cb list lib [] x.0
      × (x.0.next ≡ none)
      × NewNode hash now x.1.if_ether_addr x.0.awdl_state
start_daemon-Reach map fresh d crc32 rate_type fresh_peer tlv_cb list lib sys hash args slots state
      io now t x fit early size e =
    let first = running slots hash now x (
      subst (FreshIf slots hash now) e
        (start_daemon-FreshIf sys slots hash now early args state io t)) in
    (Reach.start x.0 slots size first.queue first.heap, first.held, first.node)
