-- ===== src/Devices/Messages.antt =====
-- The messages of src/daemon/netutils.c to the wireless driver: each is freed once.
use owl.Base.{◌≡◌, refl, true, false, not, List, [], ◌∷◌}
use owl.Base.Int.{ℤ}
use owl.Channel.{channel_to_frequency}
use owl.Devices.Held.{
  is_null, Takes, here, there, also, none_needed, no_calls, one_needs, Held, needs_Held, gets_Held,
  refused_Held, gives_Held, unless_null_lem, unless_negative_lem, release-Held, puts-Held, role,
  if_lem, Leaves, leaving,
}
use owl.Devices.Netlink.{
  Nl80211State, monitor_out, monitor_sent, monitor_flags, set_monitor_mode, channel_out,
  set_channel,
}
use owl.Devices.{
  System, History, ask, do_call, puts, null, release, nlmsg_alloc, nlmsg_free, nl_send_auto,
  nl_recvmsgs_default, genlmsg_put, nla_put_u32, nla_put_flag, nla_put_nested, number, minus_enomem,
  minus_enobufs, minus_einval, nl80211_cmd_set_interface, nl80211_cmd_set_channel,
  nl80211_attr_ifindex, nl80211_attr_iftype, nl80211_attr_mntr_flags, nl80211_mntr_flag_active,
  nl80211_attr_wiphy_freq, nl80211_attr_wiphy_channel_type, nl80211_iftype_monitor,
  nl80211_chan_ht40plus,
}

module _ (sys : System) where
  release_none :
      (m : ℤ) (t : History) (l : List ℤ)
      → is_null m ≡ true
      → Held t l
      → Held (release sys nlmsg_free m t) l
  unfolding role
  release_none m t l e held =
      release-Held sys nlmsg_free (λ _. refl) m t l l (λ _. held) (λ e'. cc (e, e'))

  release_one :
      (m : ℤ) (t : History) (l : List ℤ)
      → is_null m ≡ false
      → Held t (m ∷ l)
      → Held (release sys nlmsg_free m t) l
  unfolding role
  release_one m t l e held =
      release-Held sys nlmsg_free (λ _. refl) m t (m ∷ l) l (λ e'. cc (e, e')) (λ _. (held, here))

  -- The label `out` where no message is held, where one is, and where two are.
  monitor_out-none :
      (m : ℤ) (t : History) (l : List ℤ)
      → is_null m ≡ true
      → Held t l
      → Held (release sys nlmsg_free null (release sys nlmsg_free m t)) l
  unfolding is_null role
  monitor_out-none m t l e held =
      release-Held sys nlmsg_free (λ _. refl) null _ l l (λ _. release_none m t l e held) (λ e'. cc)

  monitor_out-one :
      (m flags : ℤ) (t : History) (l : List ℤ)
      → is_null m ≡ false
      → is_null flags ≡ true
      → Held t (m ∷ l)
      → Held (release sys nlmsg_free flags (release sys nlmsg_free m t)) l
  unfolding role
  monitor_out-one m flags t l e f held =
      release-Held sys nlmsg_free (λ _. refl) flags _ l l (λ _. release_one m t l e held)
        (λ f'. cc (f, f'))

  monitor_out-two :
      (m flags : ℤ) (t : History) (l : List ℤ)
      → is_null m ≡ false
      → is_null flags ≡ false
      → Held t (flags ∷ m ∷ l)
      → Held (release sys nlmsg_free flags (release sys nlmsg_free m t)) l
  unfolding role
  monitor_out-two m flags t l e f held =
      release-Held sys nlmsg_free (λ _. refl) flags _ (flags ∷ l) l (λ f'. cc (f, f'))
        (λ _. (
          release-Held sys nlmsg_free (λ _. refl) m t (flags ∷ m ∷ l) (flags ∷ l) (λ e'. cc (e, e'))
              (λ _. (held, there here)),
          here,
        ))

  module _ (net : Nl80211State) (l rest : List ℤ) (socket : Takes net.socket l rest) where
    monitor_sent-Held :
        (m : ℤ) (t : History)
        → is_null m ≡ false
        → Held t (m ∷ l)
        → Leaves l (monitor_sent sys net m t)
    unfolding monitor_sent monitor_out ask role is_null
    monitor_sent-Held m t e held =
        let c = nl_send_auto net.socket m in
        let sent = needs_Held sys c t refl (also (there socket) (also here none_needed)) held in
        let t1 = do_call sys c t in
        unless_negative_lem (Leaves l) (sys.answer t c) (monitor_out sys m null (sys.answer t c) t1)
          _ (leaving (monitor_out-one m null _ l e refl sent))
          (leaving (
            monitor_out-one m null _ l e refl (
              needs_Held sys (nl_recvmsgs_default net.socket) t1 refl
                (also (there socket) none_needed) sent)))

    monitor_flags-Held :
        (m : ℤ) (t : History)
        → is_null m ≡ false
        → Held t (m ∷ l)
        → Leaves l (monitor_flags sys net m t)
    unfolding monitor_flags monitor_out ask role
    monitor_flags-Held m t e held =
        let flags = sys.answer t nlmsg_alloc in
        let t1 = do_call sys nlmsg_alloc t in
        let c = nla_put_flag flags nl80211_mntr_flag_active in
        let t2 = do_call sys c t1 in
        let nest = nla_put_nested m nl80211_attr_mntr_flags flags in
        unless_null_lem (Leaves l) flags (monitor_out sys m flags minus_enomem t1) _
          (λ f.
            leaving (monitor_out-one m flags _ l e f (refused_Held sys nlmsg_alloc t refl f held)))
          (λ f.
            let put =
              needs_Held sys c t1 refl (also here none_needed)
                (gets_Held sys nlmsg_alloc t refl f held) in
            unless_negative_lem (Leaves l) (sys.answer t1 c)
              (monitor_out sys m flags minus_enobufs t2) _
              (leaving (monitor_out-two m flags _ l e f put))
              (monitor_sent-Held m _ e (
                gives_Held sys (nlmsg_free flags) _ refl here
                  (needs_Held sys nest t2 refl (also (there here) (also here none_needed)) put))))

    -- Whatever the calls return, `set_monitor_mode` leaves exactly the objects that were held before it:
    -- it frees each message that it allocates once and uses none that is not held. The socket of the
    -- state is one of the objects that are held before.
    pub set_monitor_mode-Held :
        (ifindex : ℤ) (t : History) → Held t l → Leaves l (set_monitor_mode sys net ifindex t)
    unfolding set_monitor_mode monitor_out ask role is_null
    set_monitor_mode-Held ifindex t held =
        let m = sys.answer t nlmsg_alloc in
        let t1 = do_call sys nlmsg_alloc t in
        let c = genlmsg_put m net.nl80211_id nl80211_cmd_set_interface in
        let calls =
          nla_put_u32 m nl80211_attr_ifindex (number ifindex)
          ∷ nla_put_u32 m nl80211_attr_iftype nl80211_iftype_monitor
          ∷ [] in
        let put = puts sys calls (do_call sys c t1) in
        unless_null_lem (Leaves l) m (monitor_out sys m null minus_enomem t1) _
          (λ e. leaving (monitor_out-none m _ l e (refused_Held sys nlmsg_alloc t refl e held)))
          (λ e.
            let built =
              puts-Held sys m calls (do_call sys c t1) (m ∷ l) l here
                (one_needs refl (one_needs refl no_calls))
                (needs_Held sys c t1 refl (also here none_needed)
                  (gets_Held sys nlmsg_alloc t refl e held)) in
            if_lem (Leaves l) put.0 (monitor_flags sys net m put.1)
              (monitor_out sys m null minus_enobufs put.1) (monitor_flags-Held m put.1 e built)
              (leaving (monitor_out-one m null put.1 l e refl built)))

    -- Whatever the calls return and whatever the variable `m` holds at first, `set_channel` leaves
    -- exactly the objects that were held before it, and uses none that is not held, if the channel has
    -- a frequency and the socket of the state is one of the objects that are held before.
    pub set_channel-Held :
        (unset ifindex channel : ℤ) (t : History)
        → is_null (channel_to_frequency channel) ≡ false
        → Held t l
        → Leaves l (set_channel sys net unset ifindex channel t)
    unfolding set_channel channel_out ask role is_null
    set_channel-Held unset ifindex channel t valid held =
        let freq = channel_to_frequency channel in
        let m = sys.answer t nlmsg_alloc in
        let t1 = do_call sys nlmsg_alloc t in
        let c = genlmsg_put m net.nl80211_id nl80211_cmd_set_channel in
        let t2 = do_call sys c t1 in
        let calls =
          nla_put_u32 m nl80211_attr_ifindex (number ifindex)
          ∷ nla_put_u32 m nl80211_attr_wiphy_freq (number freq)
          ∷ nla_put_u32 m nl80211_attr_wiphy_channel_type nl80211_chan_ht40plus
          ∷ [] in
        let put = puts sys calls t2 in
        let send = nl_send_auto net.socket m in
        let t4 = do_call sys send put.1 in
        let receive = nl_recvmsgs_default net.socket in
        unless_null_lem (Leaves l) freq (channel_out sys unset minus_einval t) _
          (λ e. cc (e, valid))
          (λ _.
            unless_null_lem (Leaves l) m (channel_out sys m minus_enomem t1) _
              (λ e. leaving (release_none m t1 l e (refused_Held sys nlmsg_alloc t refl e held)))
              (λ e.
                let named =
                  needs_Held sys c t1 refl (also here none_needed)
                    (gets_Held sys nlmsg_alloc t refl e held) in
                unless_null_lem (Leaves l) (sys.answer t1 c) (channel_out sys m minus_enobufs t2) _
                  (λ _. leaving (release_one m t2 l e named))
                  (λ _.
                    let built =
                      puts-Held sys m calls t2 (m ∷ l) l here
                        (one_needs refl (one_needs refl (one_needs refl no_calls))) named in
                    let sent =
                      needs_Held sys send put.1 refl (also (there socket) (also here none_needed))
                        built in
                    if_lem (Leaves l) (not put.0) (channel_out sys m minus_enobufs put.1) _
                      (leaving (release_one m put.1 l e built))
                      (unless_negative_lem (Leaves l) (sys.answer put.1 send)
                        (channel_out sys m (sys.answer put.1 send) t4) _
                        (leaving (release_one m t4 l e sent))
                        (leaving (
                          release_one m _ l e (
                            needs_Held sys receive t4 refl (also (there socket) none_needed)
                              sent)))))))
