-- ===== src/Link/Passes.antt =====
-- What a handler of src/rx.c makes of a TLV of an action frame of src/tx.c.
use owl.Base.{
  ℕ, ◌+◌, ◌%◌, ◌≡◌, refl, sym, ap, ◌∙◌, inl, inr, if◌then◌else◌, Bool, true, false, Bool-cases,
  some, List, [], ◌∷◌, ◌++◌, length, length-append, drop, ltb, arith,
}
use owl.Base.Int.{pos, ◌+ℤ◌}
use owl.Election.{ElectionState, is_sync_master}
use owl.Link.Tlvs.{IsSendable}
use owl.Link.View.{whole-View, load-View, load_all-View}
use owl.Peers.{Peer}
use owl.Rx.Frame.{is_error}
use owl.Rx.Tlv.{handle_sync_params, handle_election_params, handle_arpa, overlay}
use owl.Rx.{
  RxResult, Session, Outcome, stop, ok, ignore, ◌>>=◌, ◌>>◌, session, require, checked, change_peer,
  finish,
}
use owl.State.{AwdlState}
use owl.Sync.{SyncState, current_aw, next_aw_tu}
use owl.Sync.Laws.{next_aw_bounds}
use owl.Tx.Clock.{handle_sync_params-parts, sync_params-bytes, current_aw_small}
use owl.Tx.Frame.{ActionType, psf, mif}
use owl.Tx.Parse.{whole, read_le16-load, read_u8-load, read_bytes_copy-load}
use owl.Tx.{init_sync_params_tlv, init_arpa_tlv, c_string}
use owl.Wire.{Buf, read_u8, read_bytes_copy, read_int_string}

-- The clock of a node after the synchronization parameters of a frame.
abbrev pub clock_after : AwdlState → ℕ → ℕ → Session → SyncState
clock_after s sent now h =
    (handle_sync_params (whole (drop 3 (init_sync_params_tlv s sent))) now h).0.state.sync

abbrev pub with_clock : Session → SyncState → Session
with_clock h clock = record h { state = record h.state { sync = clock } }

-- What the handlers know of the sender afterwards.
abbrev pub known_election : AwdlState → ElectionState → ElectionState
known_election s e = record s.election { self_addr = e.self_addr }

abbrev pub known_path : Peer → Peer
known_path p = record p { country_code = 0x58 ∷ 0x30 ∷ 0 ∷ drop 3 p.country_code }

abbrev pub known_name : AwdlState → ActionType → Peer → Peer
known_name s psf p = p
known_name s mif p = record p { name = overlay (c_string s.name ++ 0 ∷ []) p.name }

abbrev pub known_peer : AwdlState → ActionType → Peer → Peer
known_peer s type p =
    record (known_path (
      known_name s type (record p {
        election = known_election s p.election;
        sequence = s.channel.sequence;
        supports_v2 = true;
      }))) { version = s.version; devclass = s.dev_class }

-- A handler that ends well.
abbrev pub Passes : Session × Outcome (Unit {0}) → Session → Type 0
Passes r h = (o : RxResult) × (r ≡ (h, stop o)) × (is_error o ≡ false)

module _ (s : AwdlState) (sent now : ℕ) (ready : IsSendable s) where
  sync_ignored :
      (b : Buf) (h : Session)
      → is_sync_master h.state.election h.peer.addr ≡ false
      → handle_sync_params b now h ≡ (h, stop ignore)
  unfolding handle_sync_params session ◌>>=◌ ◌>>◌ require
  sync_ignored b h other = rw other refl

  pub sync-Passes :
      (h : Session)
      → Passes
          (handle_sync_params (whole (drop 3 (init_sync_params_tlv s sent))) now h)
          (with_clock h (clock_after s sent now h))
  unfolding is_error
  sync-Passes h =
      let b = whole (drop 3 (init_sync_params_tlv s sent)) in
      elim (Bool-cases (is_sync_master h.state.election h.peer.addr)) [
        | inr other ↦
            let e = sync_ignored b h other in
            (
              ignore,
              e
                  ∙ ap
                      (λ (r : Session × Outcome (Unit {0})).
                        (with_clock h r.0.state.sync, stop ignore))
                      (sym e),
              refl,
            )
        | inl master ↦
            let (t, t', c, c', long) = sync_params-bytes s sent ready.election.master_addr in
            let v = ready.clock in
            let (lo, hi, _, _) = next_aw_bounds sent s.sync v in
            let small = current_aw_small sent s.sync in
            let e =
              handle_sync_params-parts b now (next_aw_tu sent s.sync) (current_aw sent s.sync) h
                master
                (read_le16-load b 1 (next_aw_tu sent s.sync) (omega (arith, v.fits)) t t'
                  (omega arith))
                (read_le16-load b 29 (current_aw sent s.sync) small c c' (omega arith)) in
            (
              ok,
              e
                  ∙ ap
                      (λ (r : Session × Outcome (Unit {0})). (with_clock h r.0.state.sync, stop ok))
                      (sym e),
              refl,
            )
      ]

  -- The first election TLV, which counts only for peers that do not support the second version.
  abbrev pub either_election : Bool → Peer → ElectionState
  either_election supports_v2 p = if supports_v2 then p.election else record p.election {
    height = s.election.height;
    master_addr = s.election.master_addr;
    master_metric = s.election.master_metric;
    self_metric = s.election.self_metric;
  }

  abbrev pub first_election : Peer → ElectionState
  first_election p = either_election p.supports_v2 p

  pub either_own : (b : Bool) (p : Peer) → (either_election b p).self_addr ≡ p.election.self_addr
  either_own true p = refl
  either_own false p = refl

  pub election_ignored :
      (b : Buf) (h : Session)
      → h.peer.supports_v2 ≡ true
      → handle_election_params b h ≡ (h, stop ok)
  unfolding handle_election_params session ◌>>=◌ ◌>>◌ require
  election_ignored b h v2 = rw v2 refl

  read_int_string-parts :
      (b : Buf) (n : ℕ) (str : List ℕ)
      → read_u8 b (pos 1) ≡ some (1, n)
      → ltb 64 n ≡ false
      → read_bytes_copy b (pos 2) n ≡ some (n, str)
      → read_int_string b (pos 1) 64 ≡ some (n + 1, str ++ 0 ∷ [])
  unfolding read_int_string ◌+ℤ◌
  read_int_string-parts b n str first short bytes = rw (first, short, bytes) refl

  arpa-parts :
      (b : Buf) (h : Session) (name : List ℕ) (n : ℕ)
      → read_int_string b (pos 1) 64 ≡ some (n, name)
      → handle_arpa b h
        ≡ (record h { peer = record h.peer { name = overlay name h.peer.name } }, stop ok)
  unfolding handle_arpa ◌>>=◌ ◌>>◌ checked change_peer finish
  arpa-parts b h name n e = rw e refl

  pub arpa-Passes :
      (h : Session)
      → handle_arpa (whole (drop 3 (init_arpa_tlv s))) h
        ≡ (record h { peer = known_name s mif h.peer }, stop ok)
  unfolding init_arpa_tlv
  arpa-Passes h =
      let c = c_string s.name in
      let n = length c in
      let bytes = 3 ∷ n % 256 ∷ (c ++ 0xc0 ∷ 0x0c ∷ []) in
      let short = ready.name in
      let v = whole-View bytes in
      let size = length-append c (0xc0 ∷ 0x0c ∷ []) in
      let byte : n % 256 ≡ n = omega arith in
      arpa-parts (whole bytes) h (c ++ 0 ∷ []) (n + 1) (
        read_int_string-parts (whole bytes) n c
          (read_u8-load (whole bytes) 1 n
            (load-View (whole bytes) 1 (n % 256) (3 ∷ []) _ v refl ∙ byte) (omega arith))
          (ground (arith, short))
          (read_bytes_copy-load (whole bytes) 2 c
            (load_all-View (whole bytes) 2 n (3 ∷ n % 256 ∷ []) c (0xc0 ∷ 0x0c ∷ []) v refl refl)
            (omega arith)))
