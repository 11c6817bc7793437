-- ===== src/Devices.antt =====
-- src/daemon/netutils.c, src/daemon/io.c and src/daemon/owl.c, as built for Linux: the devices of the
-- daemon. What the kernel and the libraries answer is a parameter, and each function takes the
-- history of the calls to a longer one.
mod Tests
pub mod Netlink
pub mod Routes
pub mod Band
pub mod Available
pub mod Address
pub mod Held
pub mod Messages
pub mod Neighbours
pub mod Sockets
pub mod Io
pub mod Errors
pub mod Start
pub mod Loop
use owl.Base.{ℕ, zero, suc, Bool, true, false, List, [], ◌∷◌, ◌++◌}
use owl.Base.Int.{ℤ, pos, negsuc}

-- The constants of the headers of Linux that the calls get.
pub data Nl80211Cmd : Type 0 where
  nl80211_cmd_set_interface nl80211_cmd_get_wiphy nl80211_cmd_set_channel : Nl80211Cmd

pub data Nl80211Attr : Type 0 where
  nl80211_attr_ifindex nl80211_attr_iftype nl80211_attr_mntr_flags : Nl80211Attr
  nl80211_mntr_flag_active nl80211_attr_split_wiphy_dump : Nl80211Attr
  nl80211_attr_wiphy_freq nl80211_attr_wiphy_channel_type : Nl80211Attr

pub data AttrValue : Type 0 where
  number : ℤ → AttrValue
  nl80211_iftype_monitor nl80211_chan_ht40plus : AttrValue

pub data AddressFamily : Type 0 where
  af_inet6 af_llc : AddressFamily

-- The calls of libnl, of libpcap and of the kernel. A pointer is a number, NULL is 0. A name with a
-- suffix has a constant argument in it: `nlmsg_flags_dump` sets NLM_F_DUMP in the header of a message,
-- and `pcap_datalink_radio` tests that the link type is DLT_IEEE802_11_RADIO, with 0 if it is not.
pub data Call : Type 0 where
  nl_socket_alloc nlmsg_alloc nl_cb_alloc rtnl_neigh_alloc rtnl_link_alloc : Call
  nl_socket_free nlmsg_free nl_cb_put rtnl_neigh_put nl_addr_put rtnl_link_put : ℤ → Call
  nl_connect_route genl_connect nl_socket_set_buffer_size genl_ctrl_resolve : ℤ → Call
  genlmsg_put : ℤ → ℤ → Nl80211Cmd → Call
  nla_put_u32 : ℤ → Nl80211Attr → AttrValue → Call
  nla_put_flag : ℤ → Nl80211Attr → Call
  nla_put_nested : ℤ → Nl80211Attr → ℤ → Call
  nlmsg_flags_dump : ℤ → Call
  nl_send_auto : ℤ → ℤ → Call
  nl_recvmsgs_default : ℤ → Call
  nl_cb_set : ℤ → Call
  nl_recvmsgs : ℤ → ℤ → Call
  rtnl_neigh_set_ifindex : ℤ → ℤ → Call
  rtnl_neigh_set_state_permanent : ℤ → Call
  rtnl_neigh_set_dst rtnl_neigh_set_lladdr : ℤ → ℤ → Call
  nl_addr_build : AddressFamily → List ℕ → Call
  rtnl_neigh_add rtnl_neigh_delete : ℤ → ℤ → Call
  rtnl_link_get_kernel : ℤ → ℤ → List ℕ → Call
  rtnl_link_set_flags : ℤ → Bool → Call
  rtnl_link_change : ℤ → ℤ → ℤ → Call
  rtnl_link_get_addr nl_addr_get_binary_addr : ℤ → Call
  pcap_open_offline : List ℕ → Call
  pcap_get_selectable_fd pcap_activate pcap_setnonblock pcap_setdirection : ℤ → Call
  pcap_set_snaplen pcap_set_promisc : ℤ → Call
  pcap_set_timeout pcap_close pcap_datalink_radio : ℤ → Call
  pcap_create : List ℕ → Call
  pcap_compile pcap_setfilter : ℤ → List ℕ → Call
  open_dev_net_tun socket_inet6 : Call
  close_fd : ℤ → Call
  ioctl_tunsetiff : ℤ → List ℕ → Call
  ioctl_fionbio : ℤ → Call
  ioctl_siocsifhwaddr : ℤ → List ℕ → Call
  ioctl_siocgifflags ioctl_siocsifflags : ℤ → Call
  ioctl_siocsifmtu : ℤ → ℕ → Call
  if_nametoindex : List ℕ → Call
  gethostname : ℕ → Call
  read_errno : Call

-- The calls with their results, the latest first.
abbrev pub History : Type 0
History = List (Call × ℤ)

-- The result of a call after others, and the bytes that a call stores for the caller.
pub record System : Type 0 where
  pub answer : History → Call → ℤ
  pub stored : History → List ℕ
  pub link : History → ℤ

unfoldable pub ask : System → Call → History → ℤ × History
ask sys c t = let r = sys.answer t c in (r, (c, r) ∷ t)

-- A call whose result is dropped.
abbrev pub do_call : System → Call → History → History
do_call sys c t = (c, sys.answer t c) ∷ t

abbrev pub null : ℤ
null = pos 0

-- The numbers of errors, as -errno.
abbrev pub minus_enoent : ℤ
minus_enoent = negsuc 1

abbrev pub minus_enomem : ℤ
minus_enomem = negsuc 11

abbrev pub minus_einval : ℤ
minus_einval = negsuc 21

abbrev pub minus_enolink : ℤ
minus_enolink = negsuc 66

abbrev pub minus_enobufs : ℤ
minus_enobufs = negsuc 104

-- `if (!p) fail` and what comes after it.
unfoldable pub unless_null {ℓ} : {A : Type ℓ} → ℤ → A → A → A
unless_null (pos zero) fail next = fail
unless_null (pos (suc n)) fail next = next
unless_null (negsuc n) fail next = next

-- `if (r < 0) fail` and what comes after it.
unfoldable pub unless_negative {ℓ} : {A : Type ℓ} → ℤ → A → A → A
unless_negative (pos n) fail next = next
unless_negative (negsuc n) fail next = fail

-- `if (p) free(p)`.
unfoldable pub release : System → (ℤ → Call) → ℤ → History → History
unfolding unless_null
release sys free p t = unless_null p t (do_call sys (free p) t)

-- Calls of the macros NLA_PUT_U32 and NLA_PUT_FLAG: the first that fails ends the row.
unfoldable pub puts : System → List Call → History → Bool × History
unfolding unless_negative
puts sys [] t = (true, t)
puts sys (c ∷ l) t =
    let t' = do_call sys c t in unless_negative (sys.answer t c) (false, t') (puts sys l t')
