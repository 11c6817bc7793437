-- ===== src/Devices/Neighbours.antt =====
-- The neighbours of src/daemon/netutils.c: each message and each address is freed once.
use owl.Base.{◌≡◌, refl, true, false, List, ◌∷◌, ℕ}
use owl.Base.Int.{ℤ}
use owl.Devices.Held.{
  is_null, Takes, here, there, also, none_needed, Held, needs_Held, gets_Held, refused_Held,
  unless_null_lem, release-Held, role, gives, Leaves, leaving,
}
use owl.Devices.Routes.{add_out, add_lladdr, neighbor_add, remove_out, neighbor_remove}
use owl.Devices.{
  Call, System, History, ask, do_call, release, minus_enomem, af_inet6, af_llc, rtnl_neigh_alloc,
  rtnl_neigh_put, nl_addr_build, nl_addr_put, rtnl_neigh_set_ifindex, rtnl_neigh_set_dst,
  rtnl_neigh_set_lladdr, rtnl_neigh_set_state_permanent, rtnl_neigh_add, rtnl_neigh_delete,
}
use owl.Election.{EtherAddr}

-- A variable that is NULL, or that points to one of the objects that are held.
data Owned : ℤ → List ℤ → List ℤ → Type 0 where
  absent : {p : ℤ} → {l : List ℤ} → is_null p ≡ true → Owned p l l
  owned : {p : ℤ} → {l l' : List ℤ} → is_null p ≡ false → Takes p l l' → Owned p l l'

module _ (sys : System) where
  release-Owned :
      (free : ℤ → Call)
      → ((h : ℤ) → role (free h) ≡ gives h)
      → (p : ℤ) (t : History) {l l' : List ℤ} → Owned p l l'
      → Held t l
      → Held (release sys free p t) l'
  release-Owned free gives_it p t {l = l} {l' = l'} (absent e) held =
      release-Held sys free gives_it p t l l' (λ _. held) (λ e'. cc (e, e'))
  release-Owned free gives_it p t {l = l} {l' = l'} (owned e takes) held =
      release-Held sys free gives_it p t l l' (λ e'. cc (e, e')) (λ _. (held, takes))

  add_out-Leaves :
      (neigh nl_ipaddr nl_llcaddr err : ℤ) (t : History) {l m n r : List ℤ}
      → Owned neigh l m
      → Owned nl_ipaddr m n
      → Owned nl_llcaddr n r
      → Held t l
      → Leaves r (add_out sys neigh nl_ipaddr nl_llcaddr err t)
  unfolding add_out role
  add_out-Leaves neigh nl_ipaddr nl_llcaddr err t one two three held = leaving (
      release-Owned nl_addr_put (λ _. refl) nl_llcaddr _ three
        (release-Owned nl_addr_put (λ _. refl) nl_ipaddr _ two
          (release-Owned rtnl_neigh_put (λ _. refl) neigh t one held)))

  remove_out-Leaves :
      (neigh nl_ipaddr err : ℤ) (t : History) {l m r : List ℤ}
      → Owned neigh l m
      → Owned nl_ipaddr m r
      → Held t l
      → Leaves r (remove_out sys neigh nl_ipaddr err t)
  unfolding remove_out role
  remove_out-Leaves neigh nl_ipaddr err t one two held = leaving (
      release-Owned nl_addr_put (λ _. refl) nl_ipaddr _ two
        (release-Owned rtnl_neigh_put (λ _. refl) neigh t one held))

  module _ (socket : ℤ) (l rest : List ℤ) (open_socket : Takes socket l rest) where
    add_lladdr-Leaves :
        (eth : EtherAddr) (neigh nl_ipaddr : ℤ) (t : History)
        → is_null neigh ≡ false
        → is_null nl_ipaddr ≡ false
        → Held t (nl_ipaddr ∷ neigh ∷ l)
        → Leaves l (add_lladdr sys socket eth neigh nl_ipaddr t)
    unfolding add_lladdr ask role
    add_lladdr-Leaves eth neigh nl_ipaddr t e f held =
        let build = nl_addr_build af_llc eth in
        let nl_llcaddr = sys.answer t build in
        let t1 = do_call sys build t in
        let set = rtnl_neigh_set_lladdr neigh nl_llcaddr in
        let t2 = do_call sys set t1 in
        let permanent = rtnl_neigh_set_state_permanent neigh in
        let t3 = do_call sys permanent t2 in
        unless_null_lem (Leaves l) nl_llcaddr
          (add_out sys neigh nl_ipaddr nl_llcaddr minus_enomem t1) _
          (λ g.
            add_out-Leaves neigh nl_ipaddr nl_llcaddr _ t1 (owned e (there here)) (owned f here)
              (absent g) (refused_Held sys build t refl g held))
          (λ g.
            add_out-Leaves neigh nl_ipaddr nl_llcaddr _ _ (owned e (there (there here)))
              (owned f (there here)) (owned g here)
              (needs_Held sys (rtnl_neigh_add socket neigh) t3 refl
                (also (there (there (there open_socket))) (also (there (there here)) none_needed))
                (needs_Held sys permanent t2 refl (also (there (there here)) none_needed) (
                  needs_Held sys set t1 refl (also (there (there here)) (also here none_needed))
                    (gets_Held sys build t refl g held)))))

    -- Whatever the calls return, `neighbor_add` leaves exactly the objects that were held before it, and
    -- uses none that is not held, if the two variables that it does not set at first happen to be
    -- NULL and the socket is one of the objects that are held before.
    pub neighbor_add-Leaves :
        (unset_ip unset_llc ifindex : ℤ) (eth : EtherAddr) (in6 : List ℕ) (t : History)
        → is_null unset_ip ≡ true
        → is_null unset_llc ≡ true
        → Held t l
        → Leaves l (neighbor_add sys socket unset_ip unset_llc ifindex eth in6 t)
    unfolding neighbor_add ask role
    neighbor_add-Leaves unset_ip unset_llc ifindex eth in6 t no_ip no_llc held =
        let neigh = sys.answer t rtnl_neigh_alloc in
        let t1 = do_call sys rtnl_neigh_alloc t in
        let named = rtnl_neigh_set_ifindex neigh ifindex in
        let t2 = do_call sys named t1 in
        let build = nl_addr_build af_inet6 in6 in
        let nl_ipaddr = sys.answer t2 build in
        let t3 = do_call sys build t2 in
        let set = rtnl_neigh_set_dst neigh nl_ipaddr in
        unless_null_lem (Leaves l) neigh (add_out sys neigh unset_ip unset_llc minus_enomem t1) _
          (λ e.
            add_out-Leaves neigh unset_ip unset_llc _ t1 (absent e) (absent no_ip) (absent no_llc)
              (refused_Held sys rtnl_neigh_alloc t refl e held))
          (λ e.
            let held2 =
              needs_Held sys named t1 refl (also here none_needed)
                (gets_Held sys rtnl_neigh_alloc t refl e held) in
            unless_null_lem (Leaves l) nl_ipaddr
              (add_out sys neigh nl_ipaddr unset_llc minus_enomem t3) _
              (λ f.
                add_out-Leaves neigh nl_ipaddr unset_llc _ t3 (owned e here) (absent f)
                  (absent no_llc) (refused_Held sys build t2 refl f held2))
              (λ f. add_lladdr-Leaves eth neigh nl_ipaddr _ e f (
                needs_Held sys set t3 refl (also (there here) (also here none_needed))
                  (gets_Held sys build t2 refl f held2))))

    -- The same of `neighbor_remove`, which has one such variable.
    neighbor_remove-Leaves :
        (unset_ip ifindex : ℤ) (in6 : List ℕ) (t : History)
        → is_null unset_ip ≡ true
        → Held t l
        → Leaves l (neighbor_remove sys socket unset_ip ifindex in6 t)
    unfolding neighbor_remove ask role
    neighbor_remove-Leaves unset_ip ifindex in6 t no_ip held =
        let neigh = sys.answer t rtnl_neigh_alloc in
        let t1 = do_call sys rtnl_neigh_alloc t in
        let named = rtnl_neigh_set_ifindex neigh ifindex in
        let t2 = do_call sys named t1 in
        let build = nl_addr_build af_inet6 in6 in
        let nl_ipaddr = sys.answer t2 build in
        let t3 = do_call sys build t2 in
        let set = rtnl_neigh_set_dst neigh nl_ipaddr in
        let t4 = do_call sys set t3 in
        unless_null_lem (Leaves l) neigh (remove_out sys neigh unset_ip minus_enomem t1) _
          (λ e.
            remove_out-Leaves neigh unset_ip _ t1 (absent e) (absent no_ip)
              (refused_Held sys rtnl_neigh_alloc t refl e held))
          (λ e.
            let held2 =
              needs_Held sys named t1 refl (also here none_needed)
                (gets_Held sys rtnl_neigh_alloc t refl e held) in
            unless_null_lem (Leaves l) nl_ipaddr (remove_out sys neigh nl_ipaddr minus_enomem t3) _
              (λ f.
                remove_out-Leaves neigh nl_ipaddr _ t3 (owned e here) (absent f)
                  (refused_Held sys build t2 refl f held2))
              (λ f. remove_out-Leaves neigh nl_ipaddr _ _ (owned e (there here)) (owned f here) (
                needs_Held sys (rtnl_neigh_delete socket neigh) t4 refl
                  (also (there (there open_socket)) (also (there here) none_needed))
                  (needs_Held sys set t3 refl (also (there here) (also here none_needed))
                    (gets_Held sys build t2 refl f held2)))))
