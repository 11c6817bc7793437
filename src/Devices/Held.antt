-- ===== src/Devices/Held.antt =====
-- What the calls of src/daemon/netutils.c allocate, use and free.
use owl.Base.{zero, suc, ◌≡◌, refl, Bool, true, false, if◌then◌else◌, List, [], ◌∷◌}
use owl.Base.Int.{ℤ, pos, negsuc}
use owl.Devices.{
  Call, System, History, do_call, unless_null, unless_negative, release, puts, nl_socket_alloc,
  nl_socket_free, nl_connect_route, genl_connect, nl_socket_set_buffer_size, genl_ctrl_resolve,
  nlmsg_alloc, nlmsg_free, genlmsg_put, nla_put_u32, nla_put_flag, nla_put_nested, nl_send_auto,
  nl_recvmsgs_default, nl_cb_alloc, nl_cb_put, nl_cb_set, nl_recvmsgs, nlmsg_flags_dump,
  rtnl_neigh_alloc, rtnl_neigh_put, nl_addr_build, nl_addr_put, rtnl_neigh_set_ifindex,
  rtnl_neigh_set_dst, rtnl_neigh_set_lladdr, rtnl_neigh_set_state_permanent, rtnl_neigh_add,
  rtnl_neigh_delete,
}

-- A call allocates an object, frees one, or needs some: sockets, messages, callbacks, neighbours and
-- addresses. Links, devices and descriptors are left out.
pub data Role : Type 0 where
  gets : Role
  gives : ℤ → Role
  needs : List ℤ → Role

unfoldable pub role : Call → Role
role nl_socket_alloc = gets
role nlmsg_alloc = gets
role nl_cb_alloc = gets
role rtnl_neigh_alloc = gets
role (nl_addr_build _ _) = gets
role (nl_socket_free s) = gives s
role (nlmsg_free m) = gives m
role (nl_cb_put cb) = gives cb
role (rtnl_neigh_put n) = gives n
role (nl_addr_put a) = gives a
role (nl_connect_route s) = needs (s ∷ [])
role (genl_connect s) = needs (s ∷ [])
role (nl_socket_set_buffer_size s) = needs (s ∷ [])
role (genl_ctrl_resolve s) = needs (s ∷ [])
role (genlmsg_put m _ _) = needs (m ∷ [])
role (nla_put_u32 m _ _) = needs (m ∷ [])
role (nla_put_flag m _) = needs (m ∷ [])
role (nla_put_nested m _ nested) = needs (m ∷ nested ∷ [])
role (nlmsg_flags_dump m) = needs (m ∷ [])
role (nl_send_auto s m) = needs (s ∷ m ∷ [])
role (nl_recvmsgs_default s) = needs (s ∷ [])
role (nl_cb_set cb) = needs (cb ∷ [])
role (nl_recvmsgs s cb) = needs (s ∷ cb ∷ [])
role (rtnl_neigh_set_ifindex n _) = needs (n ∷ [])
role (rtnl_neigh_set_state_permanent n) = needs (n ∷ [])
role (rtnl_neigh_set_dst n a) = needs (n ∷ a ∷ [])
role (rtnl_neigh_set_lladdr n a) = needs (n ∷ a ∷ [])
role (rtnl_neigh_add s n) = needs (s ∷ n ∷ [])
role (rtnl_neigh_delete s n) = needs (s ∷ n ∷ [])
role _ = needs []

unfoldable pub is_null : ℤ → Bool
is_null (pos zero) = true
is_null (pos (suc n)) = false
is_null (negsuc n) = false

-- One of the objects, and the others.
pub data Takes : ℤ → List ℤ → List ℤ → Type 0 where
  here : {h : ℤ} → {l : List ℤ} → Takes h (h ∷ l) l
  there : {h g : ℤ} → {l r : List ℤ} → Takes h l r → Takes h (g ∷ l) (g ∷ r)

pub data HasAll : List ℤ → List ℤ → Type 0 where
  none_needed : {l : List ℤ} → HasAll [] l
  also : {h : ℤ} → {hs l r : List ℤ} → Takes h l r → HasAll hs l → HasAll (h ∷ hs) l

pub data EachNeeds : ℤ → List Call → Type 0 where
  no_calls : {m : ℤ} → EachNeeds m []
  one_needs :
      {m : ℤ}
      → {c : Call} → {calls : List Call} → role c ≡ needs (m ∷ [])
      → EachNeeds m calls
      → EachNeeds m (c ∷ calls)

-- The objects that are held after some calls: each object is freed once, and no call needs or frees
-- one that is not held.
pub data Held : History → List ℤ → Type 0 where
  nothing : Held [] []
  got :
      {c : Call}
      → {p : ℤ} → {t : History} → {l : List ℤ} → role c ≡ gets
      → is_null p ≡ false
      → Held t l
      → Held ((c, p) ∷ t) (p ∷ l)
  refused :
      {c : Call}
      → {p : ℤ} → {t : History} → {l : List ℤ} → role c ≡ gets
      → is_null p ≡ true
      → Held t l
      → Held ((c, p) ∷ t) l
  gave :
      {c : Call}
      → {r h : ℤ} → {t : History} → {l l' : List ℤ} → role c ≡ gives h
      → Takes h l l'
      → Held t l
      → Held ((c, r) ∷ t) l'
  used :
      {c : Call}
      → {r : ℤ} → {hs : List ℤ} → {t : History} → {l : List ℤ} → role c ≡ needs hs
      → HasAll hs l
      → Held t l
      → Held ((c, r) ∷ t) l

-- A property of what follows a test of a result.
pub unless_null_lem {ℓ κ} :
    {A : Type ℓ}
    → (P : A → Type κ) → (p : ℤ) (fail next : A) → (is_null p ≡ true → P fail)
    → (is_null p ≡ false → P next)
    → P (unless_null p fail next)
unfolding unless_null is_null
unless_null_lem P (pos zero) fail next f n = f refl
unless_null_lem P (pos (suc _)) fail next f n = n refl
unless_null_lem P (negsuc _) fail next f n = n refl

pub unless_negative_lem {ℓ κ} :
    {A : Type ℓ}
    → (P : A → Type κ) → (r : ℤ) (fail next : A) → P fail
    → P next
    → P (unless_negative r fail next)
unfolding unless_negative
unless_negative_lem P (pos _) fail next f n = n
unless_negative_lem P (negsuc _) fail next f n = f

pub if_lem {ℓ κ} :
    {A : Type ℓ} → (P : A → Type κ) → (b : Bool) (x y : A) → P x → P y → P (if b then x else y)
if_lem P true x y h k = h
if_lem P false x y h k = k

-- What is held after a function that returns a result.
pub record Leaves (l : List ℤ) (x : ℤ × History) : Type 0 where
  pub held : Held x.1 l

pub leaving : {l : List ℤ} → {x : ℤ × History} → Held x.1 l → Leaves l x
leaving h = record { held = h }

module _ (sys : System) where
  pub gets_Held :
      (c : Call) (t : History) {l : List ℤ}
      → role c ≡ gets
      → is_null (sys.answer t c) ≡ false
      → Held t l
      → Held (do_call sys c t) (sys.answer t c ∷ l)
  gets_Held c t e n held = got e n held

  pub refused_Held :
      (c : Call) (t : History) {l : List ℤ}
      → role c ≡ gets
      → is_null (sys.answer t c) ≡ true
      → Held t l
      → Held (do_call sys c t) l
  refused_Held c t e n held = refused e n held

  pub gives_Held :
      (c : Call) (t : History) {h : ℤ} {l l' : List ℤ}
      → role c ≡ gives h
      → Takes h l l'
      → Held t l
      → Held (do_call sys c t) l'
  gives_Held c t e takes held = gave e takes held

  pub needs_Held :
      (c : Call) (t : History) {hs l : List ℤ}
      → role c ≡ needs hs
      → HasAll hs l
      → Held t l
      → Held (do_call sys c t) l
  needs_Held c t e has held = used e has held

  -- `if (p) free(p)` for an object that is held if it is not NULL.
  pub release-Held :
      (free : ℤ → Call)
      → ((h : ℤ) → role (free h) ≡ gives h)
      → (p : ℤ) (t : History) (l l' : List ℤ) → (is_null p ≡ true → Held t l')
      → (is_null p ≡ false → Held t l × Takes p l l')
      → Held (release sys free p t) l'
  unfolding release
  release-Held free gives_it p t l l' absent present =
      unless_null_lem (λ t'. Held t' l') p t (do_call sys (free p) t) absent
        (λ e. let (held, takes) = present e in gave (gives_it p) takes held)

  -- The calls all need one object.
  pub puts-Held :
      (m : ℤ) (calls : List Call) (t : History) (l r : List ℤ)
      → Takes m l r
      → EachNeeds m calls
      → Held t l
      → Held (puts sys calls t).1 l
  unfolding puts
  puts-Held m [] t l r takes each held = held
  puts-Held m (c ∷ calls) t l r takes (one_needs needs_it each) held =
      let held' = used needs_it (also takes none_needed) held in
      unless_negative_lem (λ x. Held x.1 l) (sys.answer t c) (false, do_call sys c t)
        (puts sys calls (do_call sys c t)) held'
        (puts-Held m calls (do_call sys c t) l r takes each held')
