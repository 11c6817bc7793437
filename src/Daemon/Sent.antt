-- ===== src/Daemon/Sent.antt =====
-- What `awdl_send_data` of src/daemon/core.c puts on the air.
use owl.Base.{
  ℕ, ◌≤◌, ◌<◌, ◌≡◌, refl, ◌⊎◌, inl, inr, Bool-cases, ltb, none, some, List, [], ◌∷◌, arith,
}
use owl.Base.Int.{pos}
use owl.Daemon.Send.{read_header, send_data}
use owl.Daemon.{DaemonState, wlan_send}
use owl.Rx.Frame.{stripped}
use owl.Tx.Frame.{init_full_data_frame}
use owl.Wire.Bounds.{within_pos}
use owl.Wire.{Buf, bytes_of, load_all, within, read_be16, read_ether_addr}

within-none : (b : Buf) → b.len < 14 → within b (pos 12) 2 ≡ none
unfolding within
within-none b h = ground arith

read_header-short : (b : Buf) → b.len < 14 → read_header b ≡ none
unfolding read_header read_be16
read_header-short b h = rw (within-none b h) refl

read_header-long : (b : Buf) → 14 ≤ b.len → read_header b ≡ some (load_all b 0 6, load_all b 6 6)
unfolding read_header read_be16 read_ether_addr
read_header-long b h =
    rw
      (
        within_pos b 12 2 (omega arith),
        within_pos b 0 6 (omega arith),
        within_pos b 6 6 (omega arith),
      )
      refl

module _ (crc32 : List ℕ → ℕ) (rate_type : ℕ) where
  -- The frame for the air: the data frame from the source to the destination that stand in the
  -- Ethernet header, with what follows that header.
  abbrev framed : Buf → DaemonState → List ℕ
  framed b s =
      (init_full_data_frame crc32 rate_type (load_all b 6 6) (load_all b 0 6)
        (bytes_of (stripped b 14)) s.awdl_state s.ieee80211_state).0

  -- The frames on the air for a frame of the host: none if it has no whole Ethernet header.
  abbrev pub Sent : Buf → DaemonState → List (List ℕ) → Type 0
  Sent b s frames = ((b.len < 14) × (frames ≡ [])) ⊎ ((14 ≤ b.len) × (frames ≡ framed b s ∷ []))

  pub send_data-cases :
      (b : Buf) (s : DaemonState)
      → ((b.len < 14) × ((send_data crc32 rate_type b s).1 ≡ []))
        ⊎ ((14 ≤ b.len) × ((send_data crc32 rate_type b s).1 ≡ wlan_send (framed b s) ∷ []))
  unfolding send_data
  send_data-cases b s = elim (Bool-cases (ltb b.len 14)) [
    | inl e ↦
        let short : b.len < 14 = ground (arith, e) in
        inl (short, rw (send_data, read_header-short b short) refl)
    | inr e ↦
        let long : 14 ≤ b.len = ground (arith, e) in
        inr (long, rw (send_data, read_header-long b long) refl)
  ]
