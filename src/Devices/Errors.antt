-- ===== src/Devices/Errors.antt =====
-- The results of src/daemon/io.c: the two tests that its callers make on them agree.
use owl.Base.{ℕ, ◌≡◌, Bool, true, false, if◌then◌else◌, not, List, [], ◌∷◌, arith}
use owl.Base.Int.{ℤ, pos, negsuc, ◌≤ℤ◌}
use owl.Devices.Held.{unless_null_lem}
use owl.Devices.Io.{
  IoState, Stores, open_nonblocking_device, open_savefile, open_tun,
  io_state_init_wlan_try_savefile, wlan_open, wlan_device, io_state_init_wlan, io_state_init_host,
  io_state_init,
}
use owl.Devices.Netlink.{NlrouteState, Nl80211State, set_monitor_mode}
use owl.Devices.Routes.{link_updown, link_up, link_down, link_ether_addr_get}
use owl.Devices.Sockets.{is_negative, negative_lem}
use owl.Devices.{System, History, ask, do_call, minus_enoent, rtnl_link_get_kernel, if_nametoindex}
use owl.Election.{EtherAddr}

-- The result is 0 or an error.
record NotPositive (A : Type 0) (result : A → ℤ) (x : A) : Type 0 where
  below : result x ≤ℤ pos 0

abbrev LinkResult : ℤ × History → Type 0
LinkResult = NotPositive (ℤ × History) (λ x. x.0)

abbrev IoResult : Stores IoState → Type 0
IoResult = NotPositive (Stores IoState) (λ x. x.0)

negative-≤ℤ : (r : ℤ) → is_negative r ≡ true → r ≤ℤ pos 0
unfolding is_negative
negative-≤ℤ (pos n) e = cc
negative-≤ℤ (negsuc n) e = omega arith

module _ (sys : System) where
  link_updown-NotPositive :
      (socket ifindex : ℤ) (up : Bool) (t : History)
      → LinkResult (link_updown sys socket ifindex up t)
  unfolding link_updown ask
  link_updown-NotPositive socket ifindex up t =
      let c = rtnl_link_get_kernel socket ifindex [] in
      negative_lem LinkResult (sys.answer t c) (sys.answer t c, do_call sys c t) _
        (λ e. record { below = negative-≤ℤ _ e }) (λ _. record { below = omega arith })

  try_savefile-NotPositive :
      (state : IoState) (t : History) → IoResult (io_state_init_wlan_try_savefile sys state t)
  unfolding io_state_init_wlan_try_savefile
  try_savefile-NotPositive state t =
      let (fd, handle, t1) = open_savefile sys state.wlan_handle state.wlan_ifname t in
      negative_lem IoResult fd (fd, record state { wlan_fd = fd; wlan_handle = handle }, t1) _
        (λ e. record { below = negative-≤ℤ _ e }) (λ _. record { below = omega arith })

  wlan_open-NotPositive :
      (route : NlrouteState) (err : ℤ) (bssid_filter : EtherAddr) (state : IoState) (t : History)
      → err ≤ℤ pos 0
      → IoResult (wlan_open sys route err bssid_filter state t)
  unfolding wlan_open
  wlan_open-NotPositive route err bssid_filter state t below =
      let (fd, handle, t1) =
        open_nonblocking_device sys state.wlan_handle state.wlan_ifname bssid_filter t in
      let state' : IoState = record state { wlan_fd = fd; wlan_handle = handle } in
      let (err', addr, t2) =
        link_ether_addr_get sys route.socket state'.wlan_ifname state'.if_ether_addr t1 in
      negative_lem IoResult fd (err, state', t1) _ (λ _. record { below = below })
        (λ _.
          negative_lem IoResult err' (err', record state' { if_ether_addr = addr }, t2) _
            (λ e. record { below = negative-≤ℤ _ e }) (λ _. record { below = omega arith }))

  wlan_device-NotPositive :
      (route : NlrouteState) (wifi : Nl80211State) (bssid_filter : EtherAddr) (state : IoState)
      (t : History)
      → IoResult (wlan_device sys route wifi bssid_filter state t)
  unfolding wlan_device link_up link_down
  wlan_device-NotPositive route wifi bssid_filter state t =
      let (err, t1) = link_down sys route.socket state.wlan_ifindex t in
      let (err', t2) : ℤ × History =
        if not state.wlan_no_monitor_mode
        then set_monitor_mode sys wifi state.wlan_ifindex t1
        else (err, t1) in
      let (err'', t3) = link_up sys route.socket state.wlan_ifindex t2 in
      negative_lem IoResult err (err, state, t1) _ (λ e. record { below = negative-≤ℤ _ e })
        (λ _.
          negative_lem IoResult err' (err', state, t2) _ (λ e. record { below = negative-≤ℤ _ e })
            (λ _.
              negative_lem IoResult err'' (err'', state, t3) _
                (λ e. record { below = negative-≤ℤ _ e })
                (λ _.
                  wlan_open-NotPositive route err'' bssid_filter state t3
                    (link_updown-NotPositive route.socket state.wlan_ifindex true t2).below)))

  wlan-NotPositive :
      (route : NlrouteState) (wifi : Nl80211State) (wlan : List ℕ) (bssid_filter : EtherAddr)
      (state : IoState) (t : History)
      → IoResult (io_state_init_wlan sys route wifi wlan bssid_filter state t)
  unfolding io_state_init_wlan ask
  wlan-NotPositive route wifi wlan bssid_filter state t =
      let named : IoState = record state { wlan_ifname = wlan; wlan_is_file = false } in
      let (failed, tried, t1) = io_state_init_wlan_try_savefile sys named t in
      let c = if_nametoindex tried.wlan_ifname in
      let ifindex = sys.answer t1 c in
      let t2 = do_call sys c t1 in
      let found : IoState = record tried { wlan_ifindex = ifindex } in
      unless_null_lem IoResult failed (pos 0, tried, t1) _ (λ _. record { below = omega arith })
        (λ _.
          unless_null_lem IoResult ifindex (minus_enoent, found, t2) _
            (λ _. record { below = omega arith })
            (λ _. wlan_device-NotPositive route wifi bssid_filter found t2))

  host-NotPositive :
      (host : List ℕ) (state : IoState) (t : History)
      → IoResult (io_state_init_host sys host state t)
  unfolding io_state_init_host ask
  host-NotPositive [] state t = record { below = omega arith }
  host-NotPositive (c ∷ host) state t =
      let (fd, dev, t1) = open_tun sys (c ∷ host) state.if_ether_addr t in
      let state' : IoState = record state { host_fd = fd; host_ifname = dev } in
      let call = if_nametoindex dev in
      let ifindex = sys.answer t1 call in
      let t2 = do_call sys call t1 in
      let state'' : IoState = record state' { host_ifindex = ifindex } in
      negative_lem IoResult fd (fd, state', t1) _ (λ e. record { below = negative-≤ℤ _ e })
        (λ _.
          unless_null_lem IoResult ifindex (minus_enoent, state'', t2) _
            (λ _. record { below = omega arith }) (λ _. record { below = omega arith }))

  -- Whatever the calls return, the result of `io_state_init` is 0 or negative: so the test for any
  -- result but 0 in `io_state_init` and the test for a negative one in `awdl_init` agree.
  pub io_state_init-NotPositive :
      (route : NlrouteState) (wifi : Nl80211State) (wlan host : List ℕ) (bssid_filter : EtherAddr)
      (state : IoState) (t : History)
      → (io_state_init sys route wifi wlan host bssid_filter state t).0 ≤ℤ pos 0
  unfolding io_state_init
  io_state_init-NotPositive route wifi wlan host bssid_filter state t =
      let (err, state1, t1) = io_state_init_wlan sys route wifi wlan bssid_filter state t in
      let (err', state2, t2) = io_state_init_host sys host state1 t1 in
      let x : IoResult (io_state_init sys route wifi wlan host bssid_filter state t) =
        unless_null_lem IoResult err _ (err, state1, t1)
          (λ _.
            unless_null_lem IoResult err' (pos 0, state2, t2) (err', state2, t2)
              (λ _. record { below = omega arith })
              (λ _. record { below = (host-NotPositive host state1 t1).below }))
          (λ _. record { below = (wlan-NotPositive route wifi wlan bssid_filter state t).below }) in
      x.below
