-- ===== src/Devices/Start.antt =====
-- src/daemon/owl.c and `awdl_init` of src/daemon/core.c: from the options to the event loop.
use owl.Base.{
  ℕ, suc, Bool, true, false, if◌then◌else◌, ltb, ◌==◌, ◌+◌, Option, none, some, List, [], ◌∷◌,
}
use owl.Base.Int.{ℤ, pos, negsuc, ◌-ℤ◌}
use owl.Channel.{Chan, chan_opclass_6, chan_opclass_44, chan_opclass_149}
use owl.Daemon.{DaemonState}
use owl.Daemon.Runs.{queue_size}
use owl.Devices.Io.{IoState, Stores, io_state_init}
use owl.Devices.Netlink.{NlrouteState, Nl80211State, netutils_init}
use owl.Devices.{System, History, ask, unless_negative, gethostname, read_errno}
use owl.Peers.{host_name_length_max}
use owl.Ring
use owl.State.{init_state, ieee80211_init_state}
use owl.Tx.Frame.{awdl_bssid}

-- What `getopt` yields, with its argument.
pub data Opt : Type 0 where
  opt_daemon opt_dump opt_no_filter opt_verbose opt_no_monitor_mode : Opt
  opt_channel : ℤ → Opt
  opt_wlan opt_host : List ℕ → Opt
  opt_unknown opt_other : Opt

pub record Options : Type 0 where
  daemon : Bool
  dump : Bool
  pub chan_num : ℤ
  log_level : ℕ
  pub filter_rssi : Bool
  pub no_monitor_mode : Bool
  pub wlan : List ℕ
  pub host : List ℕ

-- The levels of src/log.h; the name is "awdl0".
abbrev log_info : ℕ
log_info = 6

abbrev log_trace : ℕ
log_trace = 8

abbrev pub default_options : Options
default_options = record {
  daemon = false;
  dump = false;
  chan_num = pos 6;
  log_level = log_info;
  filter_rssi = true;
  no_monitor_mode = false;
  wlan = [];
  host = 97 ∷ 119 ∷ 100 ∷ 108 ∷ 48 ∷ [];
}

-- `none`: the program ends. The names are copied into arrays of PATH_MAX and of IFNAMSIZ bytes,
-- without a check of their length.
unfoldable take_option : Opt → Options → Option Options
take_option opt_daemon o = some (record o { daemon = true })
take_option opt_dump o = some (record o { dump = true })
take_option opt_no_filter o = some (record o { filter_rssi = false })
take_option opt_verbose o =
    some (if ltb o.log_level log_trace then record o { log_level = suc o.log_level } else o)
take_option opt_no_monitor_mode o = some (record o { no_monitor_mode = true })
take_option (opt_channel n) o = some (record o { chan_num = n })
take_option (opt_wlan name) o = some (record o { wlan = name })
take_option (opt_host name) o = some (record o { host = name })
take_option opt_unknown o = none
take_option opt_other o = none

unfoldable pub take_options : List Opt → Options → Option Options
unfolding take_option
take_options [] o = some o
take_options (c ∷ l) o = elim (take_option c o) [ none ↦ none | some o' ↦ take_options l o' ]

unfoldable pub choose_chan : ℤ → Option Chan
choose_chan (negsuc _) = none
choose_chan (pos n) =
    if n == 6
    then some chan_opclass_6
    else if n == 44
    then some chan_opclass_44
    else if n == 149
    then some chan_opclass_149
    else none

-- The state of the daemon, that of its devices, the sockets, and the calls.
abbrev pub Running : Type 0
Running = DaemonState × IoState × (NlrouteState × Nl80211State) × History

-- The option that turns the filter off is stored after `awdl_init`.
unfoldable pub with_filter : Bool → Option Running → Option Running
with_filter filter_rssi none = none
with_filter filter_rssi (some (s, io, net, t)) =
    some (record s { awdl_state = record s.awdl_state { filter_rssi = filter_rssi } }, io, net, t)

module _ (sys : System) where
  -- `name` is what the array holds before, `len` its size.
  unfoldable pub get_hostname : List ℕ → ℕ → History → Stores (List ℕ)
  unfolding unless_negative ask ◌-ℤ◌
  get_hostname name len t =
      let (r, t1) = ask sys (gethostname len) t in
      unless_negative r (let (e, t2) = ask sys read_errno t1 in (pos 0 -ℤ e, name, t2))
        (pos 0, sys.stored t1, t1)

  -- The state once every step has succeeded; `slots` is what the queue is allocated with, and `none`
  -- a failed assertion.
  unfoldable pub initialised :
      List ℕ → DaemonState → IoState → List ℕ → Chan → ℕ → Option DaemonState
  unfolding Ring.init init_state ieee80211_init_state
  initialised slots state io hostname chan now = elim (Ring.init slots queue_size) [
    | none ↦ none
    | some queue ↦ some (record {
      awdl_state = record (init_state state.awdl_state hostname io.if_ether_addr chan now) {
        peer_cb = true;
        peer_remove_cb = true;
      };
      ieee80211_state = ieee80211_init_state;
      next = none;
      tx_queue_multicast = queue;
      heap = [];
      wlan_is_file = io.wlan_is_file;
    })
  ]

  -- `none` is an error, which ends the program. `now` is the time of the clock. The name of the file
  -- for frames that could not be read is left out.
  unfoldable pub awdl_init :
      List ℕ → DaemonState → IoState → List ℕ → List ℕ → Chan → ℕ → History → Option Running
  unfolding unless_negative netutils_init io_state_init get_hostname initialised
  awdl_init slots state io wlan host chan now t =
      let (err, (route, wifi), t1) = netutils_init sys t in
      unless_negative err none (
        let (err', io', t2) = io_state_init sys route wifi wlan host awdl_bssid io t1 in
        unless_negative err' none (
          let (err'', hostname, t3) = get_hostname [] (host_name_length_max + 1) t2 in
          unless_negative err'' none (elim (initialised slots state io' hostname chan now) [
            | none ↦ none
            | some s ↦ some (s, io', (route, wifi), t3)
          ])))

  -- `main` from the test of the interface's name on: the second argument.
  unfoldable pub launch :
      Options → List ℕ → Chan → List ℕ → DaemonState → IoState → ℕ → History → Option Running
  unfolding awdl_init with_filter
  launch o [] chan slots state io now t = none
  launch o (c ∷ name) chan slots state io now t =
      let io' : IoState = record io { wlan_no_monitor_mode = o.no_monitor_mode } in
      with_filter o.filter_rssi (awdl_init slots state io' (c ∷ name) o.host chan now t)

  -- `main` up to the event loop, from what `getopt` yields; becoming a daemon and the log are left out.
  unfoldable pub start_daemon :
      List Opt → List ℕ → DaemonState → IoState → ℕ → History → Option Running
  unfolding take_options choose_chan launch
  start_daemon args slots state io now t = elim (take_options args default_options) [
    | none ↦ none
    | some o ↦ elim (choose_chan o.chan_num) [
      | none ↦ none
      | some chan ↦ launch o o.wlan chan slots state io now t
    ]
  ]
