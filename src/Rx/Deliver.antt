-- ===== src/Rx/Deliver.antt =====
-- The loop over the subframes of a data frame: it ends, and what it hands to the host.
use owl.Base.{
  subst, ℕ, zero, suc, ◌+◌, ◌-◌, ◌*◌, ◌%◌, ◌^◌, ◌<◌, ◌≤◌, ◌≡◌, refl, ap, ◌∙◌, inl, inr, ◌==◌, ltb,
  Bool-cases, Option, none, some, Option-cases, List, [], ◌∷◌, ◌++◌, length, length-append, All,
  arith,
}
use owl.Base.Maybe.{>>=-eq-some}
use owl.Base.Int.{pos}
use owl.Election.{EtherAddr}
use owl.Hashmap.{Hashmap}
use owl.Peers.Table.{PeerMap}
use owl.Peers.{Peer}
use owl.Rx.Data.{
  count_rx_data, ethernet_frame, read_subframe, skip_padding, skip_subframe, subframe_of, Subframe,
  rx_data, rx_data_amsdu,
}
use owl.Rx.Frame.{is_error, stripped}
use owl.Rx.Llc.{valid_llc_header}
use owl.Rx.{RxResult}
use owl.State.{AwdlState}
use owl.Wire.{Buf, strip, read_be16, read_ether_addr}

strip-len : (b b' : Buf) (n k : ℕ) → strip b (pos n) ≡ some (k, b') → b'.len + n ≡ b.len
unfolding strip
strip-len b b' n k h = ground arith

read_subframe-len :
    (frame : Buf) (x : Subframe) → read_subframe frame ≡ some x → x.3.len + 14 ≡ frame.len
unfolding read_subframe
read_subframe-len frame x h =
    let (dst, _, h1) = >>=-eq-some (read_ether_addr frame (pos 0)) _ h in
    let (src, _, h2) = >>=-eq-some (read_ether_addr frame (pos 6)) _ h1 in
    let (len, _, h3) = >>=-eq-some (read_be16 frame (pos 12)) _ h2 in
    let (rest, e, h4) = >>=-eq-some (strip frame (pos 14)) _ h3 in
    let same = ap {B = ℕ} (λ (o : Option Subframe). elim o [ none ↦ 0 | some y ↦ y.3.len ]) h4 in
    omega (arith, strip-len frame rest.1 14 rest.0 e, same)

skip_subframe-len :
    (frame behind : Buf) (len : ℕ)
    → skip_subframe frame len ≡ some behind
    → behind.len + len ≤ frame.len
unfolding skip_subframe skip_padding
skip_subframe-len frame behind len h =
    let (rest, e, h1) = >>=-eq-some (strip frame (pos len)) _ h in
    elim (Bool-cases (rest.1.len == 0)) [
      | inl done ↦
          let same =
            ap {B = ℕ} (λ (o : Option Buf). elim o [ none ↦ 0 | some b ↦ b.len ]) (rw done at h1) in
          omega (arith, strip-len frame rest.1 len rest.0 e, same)
      | inr more ↦
          let (pad, e2, h2) =
            >>=-eq-some (strip rest.1 (pos ((4 - (14 + len) % 4) % 4))) _ (rw more at h1) in
          let same = ap {B = ℕ} (λ (o : Option Buf). elim o [ none ↦ 0 | some b ↦ b.len ]) h2 in
          omega (
            arith,
            strip-len frame rest.1 len rest.0 e,
            strip-len rest.1 pad.1 ((4 - (14 + len) % 4) % 4) pad.0 e2,
            same,
          )
    ]

stripped-long : (frame : Buf) → 8 ≤ (stripped frame 8).len → 16 ≤ frame.len
unfolding stripped strip
stripped-long frame h = ground arith

All-append : {A : Type 0} (P : A → Type 0) (xs ys : List A) → All P xs → All P ys → All P (xs ++ ys)
All-append P [] ys h k = k
All-append P (x ∷ xs) ys h k = (h.0, All-append P xs ys h.1 k)

module _ {Sound : Hashmap Peer → Type 0} (map : PeerMap (Hashmap Peer) Sound) (fresh : Buf) where
  -- An Ethernet frame whose source is a peer.
  abbrev pub FromPeer : Hashmap Peer → Buf → Type 0
  FromPeer peers b =
      (src dst : EtherAddr) × (type : ℕ) × (payload : List ℕ) × (q : Peer) × (b
        ≡ ethernet_frame fresh dst src type payload)
      × (map.get peers src ≡ some q)

  -- The counter of 64 bits counts some frames, those that are handed on among them, each with a header
  -- of 14 bytes, and those that are handed on with 16 more bytes.
  abbrev Counts : ℕ → ℕ → ℕ → ℕ → Type 0
  Counts len out before after =
      (n : ℕ) × (after % 2 ^ 64 ≡ (before + n) % 2 ^ 64) × (out ≤ n) × (14 * n + 16 * out ≤ len)

  -- What the reception of `len` bytes of data, with `header` more before them, leaves alone, counts
  -- and hands to the host.
  abbrev pub Delivers : ℕ → ℕ → ℕ → AwdlState → AwdlState × RxResult × List Buf → Type 0
  Delivers most header len s (s', r, out) =
      (s' ≡ record s { stats = record s.stats { rx_data = s'.stats.rx_data } })
      × Counts (header + len) (length out) s.stats.rx_data s'.stats.rx_data
      × (most * length out ≤ len)
      × All (FromPeer s.peers.peers) out

  pub rx_data-Delivers :
      (frame : Buf) (src dst : EtherAddr) (s : AwdlState)
      → Delivers 16 14 frame.len s (rx_data map fresh frame src dst s)
  unfolding rx_data count_rx_data
  rx_data-Delivers frame src dst s = elim (Option-cases (map.get s.peers.peers src)) [
    | inl e ↦ rw (rx_data, e) (refl, (1, omega arith, omega arith, omega arith), omega arith, tt)
    | inr (q, e) ↦ elim (Bool-cases (valid_llc_header frame)) [
      | inr bad ↦
          rw (rx_data, e, bad) (refl, (1, omega arith, omega arith, omega arith), omega arith, tt)
      | inl good ↦ elim (Bool-cases (ltb (stripped frame 8).len 8)) [
        | inl short ↦
            rw (rx_data, e, good, short)
              (refl, (1, omega arith, omega arith, omega arith), omega arith, tt)
        | inr long ↦
            let enough = stripped-long frame (ground (arith, long)) in
            rw (rx_data, e, good, long)
              (
                refl,
                (1, omega arith, omega arith, omega arith),
                omega arith,
                ((src, dst, _, _, q, refl, e), tt),
              )
      ]
    ]
  ]

  rx_data-single :
      (frame : Buf) (src dst : EtherAddr) (s : AwdlState)
      → length (rx_data map fresh frame src dst s).2 ≤ 1
  unfolding rx_data
  rx_data-single frame src dst s = elim (Option-cases (map.get s.peers.peers src)) [
    | inl e ↦ rw (rx_data, e) (omega arith)
    | inr (q, e) ↦ elim (Bool-cases (valid_llc_header frame)) [
      | inr bad ↦ rw (rx_data, e, bad) (omega arith)
      | inl good ↦ elim (Bool-cases (ltb (stripped frame 8).len 8)) [
        | inl short ↦ rw (rx_data, e, good, short) (omega arith)
        | inr long ↦ rw (rx_data, e, good, long) (omega arith)
      ]
    ]
  ]

  -- What the rest of the frame delivers after a subframe.
  Delivers-after :
      (len part rest : ℕ) (s s1 s2 : AwdlState) (r1 r2 : RxResult) (out1 out2 : List Buf)
      → Delivers 16 14 part s (s1, r1, out1)
      → length out1 ≤ 1
      → 14 + part + rest ≤ len
      → Delivers 30 0 rest s1 (s2, r2, out2)
      → Delivers 30 0 len s (s2, r2, out1 ++ out2)
  Delivers-after len part rest s s1 s2 r1 r2 out1 out2 (same, (n, count, few, small), bound, all)
        single fits (same2, (n2, count2, few2, small2), bound2, all2) =
      (
        same2
            ∙ ap
                (λ (t : AwdlState). record t {
                  stats = record t.stats { rx_data = s2.stats.rx_data };
                })
                same,
        (
          n + n2,
          omega (arith, count, count2),
          omega (arith, length-append out1 out2),
          omega (arith, length-append out1 out2),
        ),
        omega (arith, length-append out1 out2),
        All-append (FromPeer s.peers.peers) out1 out2 all
            (subst (λ m. All (FromPeer m) out2) (ap (λ (t : AwdlState). t.peers.peers) same) all2),
      )

  -- The loop does not depend on the fuel as soon as that is above the length of the frame: it has
  -- ended by then.
  pub rx_data_amsdu_enough :
      (n m : ℕ) (frame : Buf) (s : AwdlState)
      → frame.len < n
      → frame.len < m
      → rx_data_amsdu map fresh n frame s ≡ rx_data_amsdu map fresh m frame s
  unfolding rx_data_amsdu
  rx_data_amsdu_enough zero m frame s p q = absurd (omega arith)
  rx_data_amsdu_enough (suc n) zero frame s p q = absurd (omega arith)
  rx_data_amsdu_enough (suc n) (suc m) frame s p q = elim (Bool-cases (frame.len == 0)) [
    | inl done ↦ rw (rx_data_amsdu, done) refl
    | inr more ↦ elim (Option-cases (read_subframe frame)) [
      | inl e ↦ rw (rx_data_amsdu, more, e) refl
      | inr ((dst, src, len, rest), e) ↦ elim (Bool-cases (ltb rest.len len)) [
        | inl short ↦ rw (rx_data_amsdu, more, e, short) refl
        | inr fits ↦
            let r = rx_data map fresh (subframe_of rest len) src dst s in
            elim (Bool-cases (is_error r.1)) [
              | inl bad ↦ rw (rx_data_amsdu, more, e, fits, bad) refl
              | inr good ↦ elim (Option-cases (skip_subframe rest len)) [
                | inl g ↦ rw (rx_data_amsdu, more, e, fits, good, g) refl
                | inr (behind, g) ↦
                    let shorter = skip_subframe-len rest behind len g in
                    let header = read_subframe-len frame (dst, src, len, rest) e in
                    rw
                      (
                        rx_data_amsdu,
                        more,
                        e,
                        fits,
                        good,
                        g,
                        rx_data_amsdu_enough n m behind r.0 (omega arith) (omega arith),
                      )
                      refl
              ]
            ]
      ]
    ]
  ]

  -- Whatever the frame holds: each buffer that the loop stores is an Ethernet frame whose source is a
  -- peer, and takes at least 30 bytes of the frame; of the state only the counter of data frames
  -- changes. As a number of 64 bits it grows by some number, which is at least that of the buffers: the
  -- frame has 14 bytes for each one counted, and 16 more for each buffer.
  pub rx_data_amsdu-Delivers :
      (fuel : ℕ) (frame : Buf) (s : AwdlState)
      → Delivers 30 0 frame.len s (rx_data_amsdu map fresh fuel frame s)
  unfolding rx_data_amsdu
  rx_data_amsdu-Delivers zero frame s =
      (refl, (0, omega arith, omega arith, omega arith), omega arith, tt)
  rx_data_amsdu-Delivers (suc fuel) frame s = elim (Bool-cases (frame.len == 0)) [
    | inl done ↦
        rw (rx_data_amsdu, done) (refl, (0, omega arith, omega arith, omega arith), omega arith, tt)
    | inr more ↦ elim (Option-cases (read_subframe frame)) [
      | inl e ↦
          rw (rx_data_amsdu, more, e)
            (refl, (0, omega arith, omega arith, omega arith), omega arith, tt)
      | inr ((dst, src, len, rest), e) ↦ elim (Bool-cases (ltb rest.len len)) [
        | inl short ↦
            rw (rx_data_amsdu, more, e, short)
              (refl, (0, omega arith, omega arith, omega arith), omega arith, tt)
        | inr fits ↦
            let r = rx_data map fresh (subframe_of rest len) src dst s in
            let (same, (n, count, few, small), bound, all) =
              rx_data-Delivers (subframe_of rest len) src dst s in
            let header = read_subframe-len frame (dst, src, len, rest) e in
            let long : len ≤ rest.len = ground (arith, fits) in
            elim (Bool-cases (is_error r.1)) [
              | inl bad ↦
                  rw (rx_data_amsdu, more, e, fits, bad)
                    (
                      same,
                      (n, count, few, omega arith),
                      omega (arith, rx_data-single (subframe_of rest len) src dst s, long),
                      all,
                    )
              | inr good ↦ elim (Option-cases (skip_subframe rest len)) [
                | inl g ↦
                    rw (rx_data_amsdu, more, e, fits, good, g)
                      (
                        same,
                        (n, count, few, omega arith),
                        omega (arith, rx_data-single (subframe_of rest len) src dst s, long),
                        all,
                      )
                | inr (behind, g) ↦
                    let shorter = skip_subframe-len rest behind len g in
                    let later = rx_data_amsdu map fresh fuel behind r.0 in
                    rw (rx_data_amsdu, more, e, fits, good, g)
                      (Delivers-after frame.len len behind.len s r.0 later.0 r.1 later.1 r.2 later.2
                        (same, (n, count, few, small), bound, all)
                        (rx_data-single (subframe_of rest len) src dst s) (omega arith)
                        (rx_data_amsdu-Delivers fuel behind r.0))
              ]
            ]
      ]
    ]
  ]
