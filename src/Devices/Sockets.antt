-- ===== src/Devices/Sockets.antt =====
-- The two sockets of src/daemon/netutils.c.
use owl.Base.{◌≡◌, refl, ap, ◌⊎◌, inl, inr, true, false, Bool, List, ◌∷◌}
use owl.Base.Int.{ℤ, pos, negsuc}
use owl.Devices.Held.{
  here, there, also, none_needed, Held, needs_Held, gets_Held, refused_Held, gives_Held,
  unless_null_lem, role,
}
use owl.Devices.Netlink.{
  NlrouteState, Nl80211State, nlroute_init, nl80211_init, netutils_init, netutils_cleanup,
}
use owl.Devices.{
  System, History, ask, do_call, unless_negative, minus_enomem, minus_enolink, minus_enoent,
  nl_socket_alloc, nl_socket_free, nl_connect_route, genl_connect, nl_socket_set_buffer_size,
  genl_ctrl_resolve,
}

unfoldable pub is_negative : ℤ → Bool
is_negative (pos _) = false
is_negative (negsuc _) = true

-- A property of what follows a test, which may use the sign.
pub negative_lem {ℓ κ} :
    {A : Type ℓ}
    → (P : A → Type κ) → (r : ℤ) (fail next : A) → (is_negative r ≡ true → P fail)
    → (is_negative r ≡ false → P next)
    → P (unless_negative r fail next)
unfolding unless_negative is_negative
negative_lem P (pos _) fail next f n = n refl
negative_lem P (negsuc _) fail next f n = f refl

-- A socket is open, or the result is negative and none is.
record Opens (l : List ℤ) (socket : ℤ) (err : ℤ) (t : History) : Type 0 where
  either : ((err ≡ pos 0) × Held t (socket ∷ l)) ⊎ ((is_negative err ≡ true) × Held t l)

abbrev OpensRoute : List ℤ → ℤ × NlrouteState × History → Type 0
OpensRoute l (err, state, t) = Opens l state.socket err t

abbrev OpensWifi : List ℤ → ℤ × Nl80211State × History → Type 0
OpensWifi l (err, state, t) = Opens l state.socket err t

module _ (sys : System) (l : List ℤ) where
  nlroute_init-Opens : (t : History) → Held t l → OpensRoute l (nlroute_init sys t)
  unfolding nlroute_init ask role is_negative
  nlroute_init-Opens t held =
      let socket = sys.answer t nl_socket_alloc in
      let state : NlrouteState = record { socket = socket } in
      let t1 = do_call sys nl_socket_alloc t in
      let connect = nl_connect_route socket in
      let t2 = do_call sys connect t1 in
      unless_null_lem (OpensRoute l) socket (minus_enomem, state, t1) _
        (λ e. record { either = inr (refl, refused_Held sys nl_socket_alloc t refl e held) })
        (λ e.
          let connected =
            needs_Held sys connect t1 refl (also here none_needed)
              (gets_Held sys nl_socket_alloc t refl e held) in
          unless_null_lem (OpensRoute l) (sys.answer t1 connect) (pos 0, state, t2) _
            (λ _. record { either = inl (refl, connected) })
            (λ _. record {
              either = inr (refl, gives_Held sys (nl_socket_free socket) t2 refl here connected);
            }))

  nl80211_init-Opens : (t : History) → Held t l → OpensWifi l (nl80211_init sys t)
  unfolding nl80211_init ask role is_negative
  nl80211_init-Opens t held =
      let socket = sys.answer t nl_socket_alloc in
      let state : Nl80211State = record { socket = socket; nl80211_id = pos 0 } in
      let t1 = do_call sys nl_socket_alloc t in
      let size = nl_socket_set_buffer_size socket in
      let t2 = do_call sys size t1 in
      let connect = genl_connect socket in
      let t3 = do_call sys connect t2 in
      let resolve = genl_ctrl_resolve socket in
      let id = sys.answer t3 resolve in
      let t4 = do_call sys resolve t3 in
      let free = nl_socket_free socket in
      unless_null_lem (OpensWifi l) socket (minus_enomem, state, t1) _
        (λ e. record { either = inr (refl, refused_Held sys nl_socket_alloc t refl e held) })
        (λ e.
          let connected = needs_Held sys connect t2 refl (also here none_needed) (
            needs_Held sys size t1 refl (also here none_needed)
              (gets_Held sys nl_socket_alloc t refl e held)) in
          unless_null_lem (OpensWifi l) (sys.answer t2 connect) _
            (minus_enolink, state, do_call sys free t3)
            (λ _.
              let resolved = needs_Held sys resolve t3 refl (also here none_needed) connected in
              negative_lem (OpensWifi l) id
                (minus_enoent, record { socket = socket; nl80211_id = id }, do_call sys free t4)
                (pos 0, record { socket = socket; nl80211_id = id }, t4)
                (λ _. record { either = inr (refl, gives_Held sys free t4 refl here resolved) })
                (λ _. record { either = inl (refl, resolved) }))
            (λ _. record { either = inr (refl, gives_Held sys free t3 refl here connected) }))

-- What is open after the setup, and that the cleanup closes it.
pub record Ready (sys : System) (l : List ℤ) (x : ℤ × (NlrouteState × Nl80211State) × History)
    : Type 0 where
  either :
      ((x.0 ≡ pos 0) × Held (netutils_cleanup sys x.1 x.2) l)
      ⊎ ((is_negative x.0 ≡ true) × (Held x.2 l ⊎ Held x.2 (x.1.0.socket ∷ l)))

module _ (sys : System) (l : List ℤ) where
  second_failed :
      (route : NlrouteState) (x : ℤ × Nl80211State × History)
      → Opens (route.socket ∷ l) x.1.socket x.0 x.2
      → Ready sys l (
          let (err, wifi, t) = x in
          unless_negative err (err, (route, wifi), t) (pos 0, (route, wifi), t))
  unfolding netutils_cleanup role is_negative
  second_failed route (err, wifi, t) opens = elim opens.either [
    | inl (done, held) ↦
        negative_lem (Ready sys l) err (err, (route, wifi), t) (pos 0, (route, wifi), t)
          (λ e. cc (e, ap is_negative done))
          (λ _. record {
            either = inl (
              refl,
              gives_Held sys (nl_socket_free wifi.socket) _ refl here
                  (gives_Held sys (nl_socket_free route.socket) t refl (there here) held),
            );
          })
    | inr (failed, held) ↦
        negative_lem (Ready sys l) err (err, (route, wifi), t) (pos 0, (route, wifi), t)
          (λ e. record { either = inr (e, inr held) }) (λ e. cc (e, failed))
  ]

  -- Whatever the calls return, `netutils_init` returns 0 and `netutils_cleanup` then leaves exactly the
  -- objects that were held before, or it returns an error, and what it leaves is what was held before,
  -- and at most the first of its two sockets. Each socket is freed once, and none is used that is not
  -- held.
  pub netutils_init-Ready : (t : History) → Held t l → Ready sys l (netutils_init sys t)
  unfolding netutils_init is_negative
  netutils_init-Ready t held =
      let (err, route, t1) = nlroute_init sys t in
      let unset : Nl80211State = record { socket = pos 0; nl80211_id = pos 0 } in
      elim (nlroute_init-Opens sys l t held).either [
        | inl (done, held1) ↦
            negative_lem (Ready sys l) err (err, (route, unset), t1) _
              (λ e. cc (e, ap is_negative done))
              (λ _.
                second_failed route (nl80211_init sys t1)
                  (nl80211_init-Opens sys (route.socket ∷ l) t1 held1))
        | inr (failed, held1) ↦
            negative_lem (Ready sys l) err (err, (route, unset), t1) _
              (λ e. record { either = inr (e, inl held1) }) (λ e. cc (e, failed))
      ]
