-- ===== src/Devices/Address.antt =====
-- The IPv6 address of a neighbour, in src/daemon/netutils.c and src/daemon/core.c.
use Prim.Native.Nat.{bit_xor}
use owl.Base.{
  ℕ, ◌<◌, ◌≡◌, refl, ap, sym, ◌∙◌, agree, agree_lem, List, [], ◌∷◌, length, get_or, arith,
}
use owl.Base.Int.{ℤ}
use owl.Devices.Routes.{neighbor_add, neighbor_remove}
use owl.Devices.{System, History}
use owl.Election.{EtherAddr}
use owl.Peers.{Peer}

-- The address that is stored.
unfoldable pub rfc4291_addr : EtherAddr → List ℕ
rfc4291_addr eth =
    0xfe
    ∷ 0x80
    ∷ 0
    ∷ 0
    ∷ 0
    ∷ 0
    ∷ 0
    ∷ 0
    ∷ bit_xor (get_or eth 0 0) 0x02
    ∷ get_or eth 1 0
    ∷ get_or eth 2 0
    ∷ 0xff
    ∷ 0xfe
    ∷ get_or eth 3 0
    ∷ get_or eth 4 0
    ∷ get_or eth 5 0
    ∷ []

module _ (sys : System) where
  unfoldable neighbor_add_rfc4291 : ℤ → ℤ → ℤ → ℤ → EtherAddr → History → ℤ × History
  neighbor_add_rfc4291 socket unset_ip unset_llc ifindex addr t =
      neighbor_add sys socket unset_ip unset_llc ifindex addr (rfc4291_addr addr) t

  unfoldable neighbor_remove_rfc4291 : ℤ → ℤ → ℤ → EtherAddr → History → ℤ × History
  neighbor_remove_rfc4291 socket unset_ip ifindex addr t =
      neighbor_remove sys socket unset_ip ifindex (rfc4291_addr addr) t

  -- The callbacks of the daemon for a peer that turns valid and for one that is removed.
  unfoldable awdl_neighbor_add : ℤ → ℤ → ℤ → ℤ → Peer → History → History
  awdl_neighbor_add socket unset_ip unset_llc host_ifindex p t =
      (neighbor_add_rfc4291 socket unset_ip unset_llc host_ifindex p.addr t).1

  unfoldable awdl_neighbor_remove : ℤ → ℤ → ℤ → Peer → History → History
  awdl_neighbor_remove socket unset_ip host_ifindex p t =
      (neighbor_remove_rfc4291 socket unset_ip host_ifindex p.addr t).1

-- The addresses of six octets.
six_octets :
    (a : EtherAddr)
    → length a ≡ 6
    → a
      ≡ get_or a 0 0 ∷ get_or a 1 0 ∷ get_or a 2 0 ∷ get_or a 3 0 ∷ get_or a 4 0 ∷ get_or a 5 0 ∷ []
six_octets [] h = absurd (omega (arith, h))
six_octets (_ ∷ []) h = absurd (omega (arith, h))
six_octets (_ ∷ _ ∷ []) h = absurd (omega (arith, h))
six_octets (_ ∷ _ ∷ _ ∷ []) h = absurd (omega (arith, h))
six_octets (_ ∷ _ ∷ _ ∷ _ ∷ []) h = absurd (omega (arith, h))
six_octets (_ ∷ _ ∷ _ ∷ _ ∷ _ ∷ []) h = absurd (omega (arith, h))
six_octets (_ ∷ _ ∷ _ ∷ _ ∷ _ ∷ _ ∷ []) h = refl
six_octets (_ ∷ _ ∷ _ ∷ _ ∷ _ ∷ _ ∷ _ ∷ l) h = absurd (omega (arith, h))

twice : (x : ℕ) → x < 256 → bit_xor (bit_xor x 0x02) 0x02 ≡ x
unfolding agree
twice x h = agree_lem (λ x. bit_xor (bit_xor x 0x02) 0x02) (λ x. x) 256 h refl

-- Two addresses of six octets, the first of them a byte, that have the same IPv6 address are equal: so
-- no two peers share a neighbour.
pub rfc4291_addr-injective :
    (a b : EtherAddr)
    → length a ≡ 6
    → length b ≡ 6
    → get_or a 0 0 < 256
    → get_or b 0 0 < 256
    → rfc4291_addr a ≡ rfc4291_addr b
    → a ≡ b
unfolding rfc4291_addr
rfc4291_addr-injective a b six_a six_b oct_a oct_b e =
    let octet : (i : ℕ) → get_or (rfc4291_addr a) i 0 ≡ get_or (rfc4291_addr b) i 0 =
      λ i. ap (λ l. get_or l i 0) e in
    let first : get_or a 0 0 ≡ get_or b 0 0 =
      cc (twice (get_or a 0 0) oct_a, twice (get_or b 0 0) oct_b, octet 8) in
    six_octets a six_a ∙ cc (first, e) ∙ sym (six_octets b six_b)
