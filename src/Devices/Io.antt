-- ===== src/Devices/Io.antt =====
-- src/daemon/io.h and src/daemon/io.c: the wireless device and the device of the host.
use owl.Base.{ℕ, zero, suc, Bool, true, false, if◌then◌else◌, not, List, [], ◌∷◌}
use owl.Base.Int.{ℤ, pos, negsuc}
use owl.Devices.Netlink.{NlrouteState, Nl80211State, set_monitor_mode}
use owl.Devices.Routes.{link_up, link_down, link_ether_addr_get}
use owl.Devices.{
  System, History, ask, do_call, unless_null, unless_negative, minus_enoent, pcap_create,
  pcap_set_snaplen, pcap_set_promisc, pcap_set_timeout, pcap_activate, pcap_setnonblock,
  pcap_setdirection, pcap_datalink_radio, pcap_compile, pcap_setfilter, pcap_get_selectable_fd,
  pcap_close, pcap_open_offline, open_dev_net_tun, ioctl_tunsetiff, ioctl_fionbio, socket_inet6,
  ioctl_siocsifhwaddr, ioctl_siocgifflags, ioctl_siocsifflags, ioctl_siocsifmtu, close_fd,
  if_nametoindex,
}
use owl.Election.{EtherAddr}

pub record IoState : Type 0 where
  pub wlan_handle : ℤ
  pub wlan_ifname : List ℕ
  pub wlan_ifindex : ℤ
  pub host_ifname : List ℕ
  pub host_ifindex : ℤ
  pub if_ether_addr : EtherAddr
  pub wlan_fd : ℤ
  pub host_fd : ℤ
  pub wlan_no_monitor_mode : Bool
  pub wlan_is_file : Bool

-- The result, what is stored for the caller, and the calls.
abbrev pub Stores : Type 0 → Type 0
Stores A = ℤ × A × History

-- `if (r == -1) fail` and what comes after it.
unfoldable unless_minus_one {ℓ} : {A : Type ℓ} → ℤ → A → A → A
unless_minus_one (negsuc zero) fail next = fail
unless_minus_one (negsuc (suc _)) fail next = next
unless_minus_one (pos _) fail next = next

module _ (sys : System) where
  -- `open_nonblocking_device` from the filter on.
  unfoldable open_filtered : ℤ → ℤ → EtherAddr → History → Stores ℤ
  unfolding unless_minus_one ask
  open_filtered pcap_handle handle bssid_filter t =
      let (r, t1) = ask sys (pcap_compile handle bssid_filter) t in
      unless_minus_one r (negsuc 0, pcap_handle, t1)
        (let (r', t2) = ask sys (pcap_setfilter handle bssid_filter) t1 in
          unless_minus_one r' (negsuc 0, pcap_handle, t2)
            (let (fd, t3) = ask sys (pcap_get_selectable_fd handle) t2 in
              unless_minus_one fd (negsuc 0, pcap_handle, t3) (fd, handle, t3)))

  -- It stores the handle in `*pcap_handle`, which holds the first argument before.
  unfoldable pub open_nonblocking_device : ℤ → List ℕ → EtherAddr → History → Stores ℤ
  unfolding unless_null unless_negative open_filtered ask
  open_nonblocking_device pcap_handle dev bssid_filter t =
      let (handle, t1) = ask sys (pcap_create dev) t in
      unless_null handle (negsuc 0, pcap_handle, t1)
        (let t2 = do_call sys (pcap_set_snaplen handle) t1 in
          let t3 = do_call sys (pcap_set_promisc handle) t2 in
          let t4 = do_call sys (pcap_set_timeout handle) t3 in
          let (r, t5) = ask sys (pcap_activate handle) t4 in
          unless_negative r (negsuc 0, pcap_handle, do_call sys (pcap_close handle) t5)
            (let (r', t6) = ask sys (pcap_setnonblock handle) t5 in
              unless_null r'
                (let t7 = do_call sys (pcap_setdirection handle) t6 in
                  let (radio, t8) = ask sys (pcap_datalink_radio handle) t7 in
                  unless_null radio (negsuc 0, pcap_handle, do_call sys (pcap_close handle) t8)
                    (open_filtered pcap_handle handle bssid_filter t8))
                (negsuc 0, pcap_handle, do_call sys (pcap_close handle) t6)))

  unfoldable pub open_savefile : ℤ → List ℕ → History → Stores ℤ
  unfolding unless_null unless_minus_one ask
  open_savefile pcap_handle filename t =
      let (handle, t1) = ask sys (pcap_open_offline filename) t in
      unless_null handle (negsuc 0, pcap_handle, t1)
        (let (fd, t2) = ask sys (pcap_get_selectable_fd handle) t1 in
          unless_minus_one fd (negsuc 0, pcap_handle, t2) (fd, handle, t2))

  -- `open_tun` from the socket on.
  unfoldable tun_setup : ℤ → List ℕ → EtherAddr → History → Stores (List ℕ)
  unfolding unless_negative ask
  tun_setup fd dev self t =
      let (s, t1) = ask sys socket_inet6 t in
      let (err, t2) = ask sys (ioctl_siocsifhwaddr s self) t1 in
      unless_negative err (err, dev, do_call sys (close_fd fd) t2)
        (let t3 = do_call sys (ioctl_siocgifflags s) t2 in
          let (err', t4) = ask sys (ioctl_siocsifflags s) t3 in
          unless_negative err' (err', dev, do_call sys (close_fd fd) t4)
            (let (err'', t5) = ask sys (ioctl_siocsifmtu s 1450) t4 in
              unless_negative err'' (err'', dev, do_call sys (close_fd fd) t5)
                (fd, dev, do_call sys (close_fd s) t5)))

  -- It stores the name of the device, which the kernel chooses.
  unfoldable pub open_tun : List ℕ → EtherAddr → History → Stores (List ℕ)
  unfolding unless_negative tun_setup ask
  open_tun dev self t =
      let (fd, t1) = ask sys open_dev_net_tun t in
      unless_negative fd (fd, dev, t1)
        (let (err, t2) = ask sys (ioctl_tunsetiff fd dev) t1 in
          unless_negative err (err, dev, do_call sys (close_fd fd) t2)
            (let dev' = sys.stored t2 in
              let (err', t3) = ask sys (ioctl_fionbio fd) t2 in
              unless_negative err' (err', dev', do_call sys (close_fd fd) t3)
                (tun_setup fd dev' self t3)))

  unfoldable pub io_state_init_wlan_try_savefile : IoState → History → Stores IoState
  unfolding unless_negative open_savefile
  io_state_init_wlan_try_savefile state t =
      let (fd, handle, t1) = open_savefile state.wlan_handle state.wlan_ifname t in
      let state' : IoState = record state { wlan_fd = fd; wlan_handle = handle } in
      unless_negative fd (fd, state', t1)
        (pos 0, record state' { wlan_is_file = true; wlan_ifindex = pos 0 }, t1)

  -- `io_state_init_wlan` from `open_nonblocking_device` on; `err` is the result of `link_up`.
  unfoldable pub wlan_open : NlrouteState → ℤ → EtherAddr → IoState → History → Stores IoState
  unfolding unless_negative open_nonblocking_device link_ether_addr_get
  wlan_open route err bssid_filter state t =
      let (fd, handle, t1) =
        open_nonblocking_device state.wlan_handle state.wlan_ifname bssid_filter t in
      let state' : IoState = record state { wlan_fd = fd; wlan_handle = handle } in
      unless_negative fd (err, state', t1)
        (let (err', addr, t2) =
            link_ether_addr_get sys route.socket state'.wlan_ifname state'.if_ether_addr t1 in
          let state'' : IoState = record state' { if_ether_addr = addr } in
          unless_negative err' (err', state'', t2) (pos 0, state'', t2))

  -- `io_state_init_wlan` for a device that exists.
  unfoldable pub wlan_device :
      NlrouteState → Nl80211State → EtherAddr → IoState → History → Stores IoState
  unfolding unless_negative link_down link_up set_monitor_mode wlan_open
  wlan_device route wifi bssid_filter state t =
      let (err, t1) = link_down sys route.socket state.wlan_ifindex t in
      unless_negative err (err, state, t1)
        (let (err', t2) : ℤ × History =
            if not state.wlan_no_monitor_mode
            then set_monitor_mode sys wifi state.wlan_ifindex t1
            else (err, t1) in
          unless_negative err' (err', state, t2)
            (let (err'', t3) = link_up sys route.socket state.wlan_ifindex t2 in
              unless_negative err'' (err'', state, t3)
                (wlan_open route err'' bssid_filter state t3)))

  unfoldable pub io_state_init_wlan :
      NlrouteState → Nl80211State → List ℕ → EtherAddr → IoState → History → Stores IoState
  unfolding unless_null io_state_init_wlan_try_savefile wlan_device ask
  io_state_init_wlan route wifi wlan bssid_filter state t =
      let named : IoState = record state { wlan_ifname = wlan; wlan_is_file = false } in
      let (failed, tried, t1) = io_state_init_wlan_try_savefile named t in
      unless_null failed (pos 0, tried, t1)
        (let (ifindex, t2) = ask sys (if_nametoindex tried.wlan_ifname) t1 in
          let found : IoState = record tried { wlan_ifindex = ifindex } in
          unless_null ifindex (minus_enoent, found, t2)
            (wlan_device route wifi bssid_filter found t2))

  unfoldable pub io_state_init_host : List ℕ → IoState → History → Stores IoState
  unfolding unless_null unless_negative open_tun ask
  io_state_init_host [] state t = (pos 0, state, t)
  io_state_init_host (c ∷ host) state t =
      let (fd, dev, t1) = open_tun (c ∷ host) state.if_ether_addr t in
      let state' : IoState = record state { host_fd = fd; host_ifname = dev } in
      unless_negative fd (fd, state', t1)
        (let (ifindex, t2) = ask sys (if_nametoindex dev) t1 in
          let state'' : IoState = record state' { host_ifindex = ifindex } in
          unless_null ifindex (minus_enoent, state'', t2) (pos 0, state'', t2))

  -- `if ((err = ...)) return err`: any result but 0 ends the function.
  unfoldable pub io_state_init :
      NlrouteState → Nl80211State → List ℕ → List ℕ → EtherAddr → IoState → History → Stores IoState
  unfolding unless_null io_state_init_wlan io_state_init_host
  io_state_init route wifi wlan host bssid_filter state t =
      let (err, state1, t1) = io_state_init_wlan route wifi wlan bssid_filter state t in
      unless_null err
        (let (err', state2, t2) = io_state_init_host host state1 t1 in
          unless_null err' (pos 0, state2, t2) (err', state2, t2))
        (err, state1, t1)

  unfoldable io_state_free : IoState → History → History
  io_state_free state t =
      do_call sys (pcap_close state.wlan_handle) (do_call sys (close_fd state.host_fd) t)
