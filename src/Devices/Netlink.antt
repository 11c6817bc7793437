-- ===== src/Devices/Netlink.antt =====
-- The sockets and the messages of src/daemon/netutils.c to the wireless driver.
use owl.Base.{if◌then◌else◌, not, [], ◌∷◌}
use owl.Base.Int.{ℤ, pos}
use owl.Channel.{channel_to_frequency}
use owl.Devices.{
  System, History, ask, do_call, unless_null, unless_negative, release, puts, null, minus_enoent,
  minus_enomem, minus_einval, minus_enolink, minus_enobufs, nl_socket_alloc, nl_socket_free,
  nl_connect_route, genl_connect, nl_socket_set_buffer_size, genl_ctrl_resolve, nlmsg_alloc,
  nlmsg_free, genlmsg_put, nla_put_u32, nla_put_flag, nla_put_nested, nl_send_auto,
  nl_recvmsgs_default, nl_cb_alloc, nl_cb_put, nl_cb_set, nl_recvmsgs, nlmsg_flags_dump,
  nl80211_cmd_set_interface, nl80211_cmd_get_wiphy, nl80211_cmd_set_channel, nl80211_attr_ifindex,
  nl80211_attr_iftype, nl80211_attr_mntr_flags, nl80211_mntr_flag_active,
  nl80211_attr_split_wiphy_dump, nl80211_attr_wiphy_freq, nl80211_attr_wiphy_channel_type, number,
  nl80211_iftype_monitor, nl80211_chan_ht40plus,
}

pub record NlrouteState : Type 0 where
  pub socket : ℤ

pub record Nl80211State : Type 0 where
  pub socket : ℤ
  pub nl80211_id : ℤ

-- The result, the state, and the calls.
abbrev Opened : Type 0 → Type 0
Opened A = ℤ × A × History

module _ (sys : System) where
  unfoldable pub nlroute_init : History → Opened NlrouteState
  unfolding unless_null unless_negative ask
  nlroute_init t =
      let (socket, t1) = ask sys nl_socket_alloc t in
      let state : NlrouteState = record { socket = socket } in
      unless_null socket (minus_enomem, state, t1)
        (let (err, t2) = ask sys (nl_connect_route socket) t1 in
          unless_null err (pos 0, state, t2)
            (minus_enolink, state, do_call sys (nl_socket_free socket) t2))

  unfoldable pub nl80211_init : History → Opened Nl80211State
  unfolding unless_null unless_negative ask
  nl80211_init t =
      let (socket, t1) = ask sys nl_socket_alloc t in
      let state : Nl80211State = record { socket = socket; nl80211_id = pos 0 } in
      unless_null socket (minus_enomem, state, t1)
        (let t2 = do_call sys (nl_socket_set_buffer_size socket) t1 in
          let (err, t3) = ask sys (genl_connect socket) t2 in
          unless_null err
            (let (id, t4) = ask sys (genl_ctrl_resolve socket) t3 in
              let state' : Nl80211State = record { socket = socket; nl80211_id = id } in
              unless_negative id (minus_enoent, state', do_call sys (nl_socket_free socket) t4)
                (pos 0, state', t4))
            (minus_enolink, state, do_call sys (nl_socket_free socket) t3))

  unfoldable pub netutils_init : History → Opened (NlrouteState × Nl80211State)
  unfolding unless_negative nlroute_init nl80211_init
  netutils_init t =
      let (err, route, t1) = nlroute_init t in
      let unset : Nl80211State = record { socket = null; nl80211_id = pos 0 } in
      unless_negative err (err, (route, unset), t1)
        (let (err', wifi, t2) = nl80211_init t1 in
          unless_negative err' (err', (route, wifi), t2) (pos 0, (route, wifi), t2))

  unfoldable pub netutils_cleanup : NlrouteState × Nl80211State → History → History
  netutils_cleanup (route, wifi) t =
      do_call sys (nl_socket_free wifi.socket) (do_call sys (nl_socket_free route.socket) t)

  -- The label `out` of `set_monitor_mode`.
  unfoldable pub monitor_out : ℤ → ℤ → ℤ → History → ℤ × History
  unfolding release
  monitor_out m flags err t = (err, release sys nlmsg_free flags (release sys nlmsg_free m t))

  -- `set_monitor_mode` from `nl_send_auto` on.
  unfoldable pub monitor_sent : Nl80211State → ℤ → History → ℤ × History
  unfolding unless_negative monitor_out ask
  monitor_sent net m t =
      let (err, t1) = ask sys (nl_send_auto net.socket m) t in
      unless_negative err (monitor_out m null err t1)
        (let (err', t2) = ask sys (nl_recvmsgs_default net.socket) t1 in monitor_out m null err' t2)

  -- `set_monitor_mode` from the second `nlmsg_alloc` on.
  unfoldable pub monitor_flags : Nl80211State → ℤ → History → ℤ × History
  unfolding unless_null unless_negative monitor_out monitor_sent ask
  monitor_flags net m t =
      let (flags, t1) = ask sys nlmsg_alloc t in
      unless_null flags (monitor_out m flags minus_enomem t1) (
        let (r, t2) = ask sys (nla_put_flag flags nl80211_mntr_flag_active) t1 in
        unless_negative r (monitor_out m flags minus_enobufs t2) (
          let t3 = do_call sys (nla_put_nested m nl80211_attr_mntr_flags flags) t2 in
          monitor_sent net m (do_call sys (nlmsg_free flags) t3)))

  unfoldable pub set_monitor_mode : Nl80211State → ℤ → History → ℤ × History
  unfolding unless_null monitor_out monitor_flags puts ask
  set_monitor_mode net ifindex t =
      let (m, t1) = ask sys nlmsg_alloc t in
      unless_null m (monitor_out m null minus_enomem t1) (
        let t2 = do_call sys (genlmsg_put m net.nl80211_id nl80211_cmd_set_interface) t1 in
        let (built, t3) =
          puts sys
            (nla_put_u32 m nl80211_attr_ifindex (number ifindex)
              ∷ nla_put_u32 m nl80211_attr_iftype nl80211_iftype_monitor
              ∷ [])
            t2 in
        if built then monitor_flags net m t3 else monitor_out m null minus_enobufs t3)

  -- The labels `out` of `set_channel` and of `is_channel_available`.
  unfoldable pub channel_out : ℤ → ℤ → History → ℤ × History
  unfolding release
  channel_out m err t = (err, release sys nlmsg_free m t)

  unfoldable available_out : ℤ → ℤ → ℤ → History → ℤ × History
  unfolding release
  available_out m cb err t = (err, release sys nlmsg_free m (release sys nl_cb_put cb t))

  -- `unset` is what the variable `m` holds before it is set.
  unfoldable pub set_channel : Nl80211State → ℤ → ℤ → ℤ → History → ℤ × History
  unfolding unless_null unless_negative channel_out puts ask
  set_channel net unset ifindex channel t =
      let freq = channel_to_frequency channel in
      unless_null freq (channel_out unset minus_einval t) (
        let (m, t1) = ask sys nlmsg_alloc t in
        unless_null m (channel_out m minus_enomem t1) (
          let (p, t2) = ask sys (genlmsg_put m net.nl80211_id nl80211_cmd_set_channel) t1 in
          unless_null p (channel_out m minus_enobufs t2) (
            let (built, t3) =
              puts sys
                (nla_put_u32 m nl80211_attr_ifindex (number ifindex)
                  ∷ nla_put_u32 m nl80211_attr_wiphy_freq (number freq)
                  ∷ nla_put_u32 m nl80211_attr_wiphy_channel_type nl80211_chan_ht40plus
                  ∷ [])
                t2 in
            if not built
            then channel_out m minus_enobufs t3
            else (let (err, t4) = ask sys (nl_send_auto net.socket m) t3 in
                unless_negative err (channel_out m err t4) (
                  let (err', t5) = ask sys (nl_recvmsgs_default net.socket) t4 in
                  channel_out m err' t5)))))

  -- Without the flag that it stores, which `parse_freq_support` sets from the replies. `unset_m` and
  -- `unset_cb` are what the variables `m` and `cb` hold before they are set.
  unfoldable is_channel_available : Nl80211State → ℤ → ℤ → ℤ → ℤ → History → ℤ × History
  unfolding unless_null unless_negative available_out puts ask
  is_channel_available net unset_m unset_cb ifindex channel t =
      let freq = channel_to_frequency channel in
      unless_null freq (available_out unset_m unset_cb minus_einval t) (
        let (m, t1) = ask sys nlmsg_alloc t in
        unless_null m (available_out m unset_cb minus_enomem t1) (
          let (cb, t2) = ask sys nl_cb_alloc t1 in
          let (p, t3) = ask sys (genlmsg_put m net.nl80211_id nl80211_cmd_get_wiphy) t2 in
          unless_null p (available_out m cb minus_enobufs t3) (
            let (built, t4) =
              puts sys (nla_put_u32 m nl80211_attr_ifindex (number ifindex) ∷ []) t3 in
            if not built
            then available_out m cb minus_enobufs t4
            else (let t5 = do_call sys (nla_put_flag m nl80211_attr_split_wiphy_dump) t4 in
                let t6 = do_call sys (nlmsg_flags_dump m) t5 in
                let (err, t7) = ask sys (nl_send_auto net.socket m) t6 in
                unless_negative err (available_out m cb err t7) (
                  let t8 = do_call sys (nl_cb_set cb) t7 in
                  let (err', t9) = ask sys (nl_recvmsgs net.socket cb) t8 in
                  available_out m cb err' t9)))))
