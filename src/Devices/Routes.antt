-- ===== src/Devices/Routes.antt =====
-- The neighbours and the links of src/daemon/netutils.c.
use owl.Base.{true, false, Bool, List, [], ℕ}
use owl.Base.Int.{ℤ, pos}
use owl.Devices.{
  System, History, ask, do_call, unless_null, unless_negative, release, minus_enomem, af_inet6,
  af_llc, rtnl_neigh_alloc, rtnl_neigh_put, nl_addr_build, nl_addr_put, rtnl_neigh_set_ifindex,
  rtnl_neigh_set_dst, rtnl_neigh_set_lladdr, rtnl_neigh_set_state_permanent, rtnl_neigh_add,
  rtnl_neigh_delete, rtnl_link_get_kernel, rtnl_link_alloc, rtnl_link_set_flags, rtnl_link_change,
  rtnl_link_put, rtnl_link_get_addr, nl_addr_get_binary_addr,
}
use owl.Election.{EtherAddr}

module _ (sys : System) where
  -- The label `out` of `neighbor_add`.
  unfoldable pub add_out : ℤ → ℤ → ℤ → ℤ → History → ℤ × History
  unfolding release
  add_out neigh nl_ipaddr nl_llcaddr err t = (
    err,
    release sys nl_addr_put nl_llcaddr
        (release sys nl_addr_put nl_ipaddr (release sys rtnl_neigh_put neigh t)),
  )

  -- `neighbor_add` from the address of the link on, for a neighbour that has its IP address.
  unfoldable pub add_lladdr : ℤ → EtherAddr → ℤ → ℤ → History → ℤ × History
  unfolding unless_null add_out ask
  add_lladdr socket eth neigh nl_ipaddr t =
      let (nl_llcaddr, t1) = ask sys (nl_addr_build af_llc eth) t in
      unless_null nl_llcaddr (add_out neigh nl_ipaddr nl_llcaddr minus_enomem t1) (
        let t2 = do_call sys (rtnl_neigh_set_lladdr neigh nl_llcaddr) t1 in
        let t3 = do_call sys (rtnl_neigh_set_state_permanent neigh) t2 in
        let (err, t4) = ask sys (rtnl_neigh_add socket neigh) t3 in
        add_out neigh nl_ipaddr nl_llcaddr err t4)

  -- `unset_ip` and `unset_llc` are what the variables `nl_ipaddr` and `nl_llcaddr` hold before they
  -- are set.
  unfoldable pub neighbor_add : ℤ → ℤ → ℤ → ℤ → EtherAddr → List ℕ → History → ℤ × History
  unfolding unless_null add_out add_lladdr ask
  neighbor_add socket unset_ip unset_llc ifindex eth in6 t =
      let (neigh, t1) = ask sys rtnl_neigh_alloc t in
      unless_null neigh (add_out neigh unset_ip unset_llc minus_enomem t1) (
        let t2 = do_call sys (rtnl_neigh_set_ifindex neigh ifindex) t1 in
        let (nl_ipaddr, t3) = ask sys (nl_addr_build af_inet6 in6) t2 in
        unless_null nl_ipaddr (add_out neigh nl_ipaddr unset_llc minus_enomem t3) (
          let t4 = do_call sys (rtnl_neigh_set_dst neigh nl_ipaddr) t3 in
          add_lladdr socket eth neigh nl_ipaddr t4))

  -- The label `out` of `neighbor_remove`.
  unfoldable pub remove_out : ℤ → ℤ → ℤ → History → ℤ × History
  unfolding release
  remove_out neigh nl_ipaddr err t =
      (err, release sys nl_addr_put nl_ipaddr (release sys rtnl_neigh_put neigh t))

  unfoldable pub neighbor_remove : ℤ → ℤ → ℤ → List ℕ → History → ℤ × History
  unfolding unless_null remove_out ask
  neighbor_remove socket unset_ip ifindex in6 t =
      let (neigh, t1) = ask sys rtnl_neigh_alloc t in
      unless_null neigh (remove_out neigh unset_ip minus_enomem t1) (
        let t2 = do_call sys (rtnl_neigh_set_ifindex neigh ifindex) t1 in
        let (nl_ipaddr, t3) = ask sys (nl_addr_build af_inet6 in6) t2 in
        unless_null nl_ipaddr (remove_out neigh nl_ipaddr minus_enomem t3) (
          let t4 = do_call sys (rtnl_neigh_set_dst neigh nl_ipaddr) t3 in
          let (err, t5) = ask sys (rtnl_neigh_delete socket neigh) t4 in
          remove_out neigh nl_ipaddr err t5))

  -- The flag `up` is set, or the flag `down`.
  unfoldable pub link_updown : ℤ → ℤ → Bool → History → ℤ × History
  unfolding unless_negative ask
  link_updown socket ifindex up t =
      let (err, t1) = ask sys (rtnl_link_get_kernel socket ifindex []) t in
      unless_negative err (err, t1)
        (let old = sys.link t1 in
          let (req, t2) = ask sys rtnl_link_alloc t1 in
          let t3 = do_call sys (rtnl_link_set_flags req up) t2 in
          let t4 = do_call sys (rtnl_link_change socket old req) t3 in
          (pos 0, do_call sys (rtnl_link_put old) t4))

  unfoldable pub link_up : ℤ → ℤ → History → ℤ × History
  unfolding link_updown
  link_up socket ifindex t = link_updown socket ifindex true t

  unfoldable pub link_down : ℤ → ℤ → History → ℤ × History
  unfolding link_updown
  link_down socket ifindex t = link_updown socket ifindex false t

  -- The result, the address that is stored, and the calls.
  unfoldable pub link_ether_addr_get : ℤ → List ℕ → EtherAddr → History → ℤ × EtherAddr × History
  unfolding unless_negative ask
  link_ether_addr_get socket ifname addr t =
      let (err, t1) = ask sys (rtnl_link_get_kernel socket (pos 0) ifname) t in
      unless_negative err (err, addr, t1)
        (let (nladdr, t2) = ask sys (rtnl_link_get_addr (sys.link t1)) t1 in
          let t3 = do_call sys (nl_addr_get_binary_addr nladdr) t2 in (pos 0, sys.stored t3, t3))
