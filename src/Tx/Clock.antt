-- ===== src/Tx/Clock.antt =====
-- What `awdl_handle_sync_params_tlv` of src/rx.c makes of the synchronization parameters that
-- src/tx.c sends.
use owl.Base.{ℕ, ◌+◌, ◌*◌, ◌/◌, ◌%◌, ◌^◌, ◌<◌, ◌≤◌, ◌≡◌, refl, ◌∙◌, arith, true, some, length, drop}
use owl.Base.Int.{pos}
use owl.Election.{is_sync_master}
use owl.Rx.{Session, stop, ok, ◌>>=◌, ◌>>◌, checked, change_state, finish, session, require}
use owl.Rx.Tlv.{handle_sync_params, count_error}
use owl.State.{AwdlState}
use owl.Sync.{SyncState, eaw_period, next_aw_tu, current_aw, current_eaw, error_tu, update_last}
use owl.Sync.Laws.{IsValid, next_aw_bounds, error_tu-update_last}
use owl.Tx.{init_sync_params_tlv, init_chanseq}
use owl.Tx.Parse.{whole, read_le16-load}
use owl.Tx.RoundTrip.{six_octets}
use owl.Wire.{Buf, load, read_le16}

-- The clock after the handler has counted the error and stored the new parameters.
abbrev pub counted : ℕ → ℕ → ℕ → SyncState → SyncState
counted now ttn counter s =
    let s' = record s { meas_total = (s.meas_total + 1) % 2 ^ 64 } in
    count_error (error_tu now ttn counter s') s'

pub handle_sync_params-parts :
    (b : Buf) (now ttn counter : ℕ) (h : Session)
    → is_sync_master h.state.election h.peer.addr ≡ true
    → read_le16 b (pos 1) ≡ some (2, ttn)
    → read_le16 b (pos 29) ≡ some (2, counter)
    → handle_sync_params b now h ≡ (
      record h {
        state = record h.state {
          sync = update_last now ttn counter (counted now ttn counter h.state.sync);
        };
      },
      stop ok,
    )
unfolding handle_sync_params session ◌>>=◌ ◌>>◌ require checked change_state finish
handle_sync_params-parts b now ttn counter h master t c = rw (master, t, c) refl

-- The two fields that the handler reads, in the bytes of the sender.
pub sync_params-bytes :
    (s : AwdlState) (sent : ℕ)
    → length s.election.master_addr ≡ 6
    → let b = whole (drop 3 (init_sync_params_tlv s sent)) in
      (load b 1 ≡ next_aw_tu sent s.sync % 256)
      × (load b 2 ≡ next_aw_tu sent s.sync / 256 % 256)
      × (load b 29 ≡ current_aw sent s.sync % 256)
      × (load b 30 ≡ current_aw sent s.sync / 256 % 256)
      × (31 ≤ b.len)
unfolding init_sync_params_tlv init_chanseq load
sync_params-bytes s sent six =
    let (_, _, _, _, _, _, m) = six_octets s.election.master_addr six in
    rw m (refl, refl, refl, refl, omega arith)

pub current_aw_small : (now : ℕ) (s : SyncState) → current_aw now s < 2 ^ 16
unfolding current_aw
current_aw_small now s = omega arith

counted-IsValid :
    (now ttn counter : ℕ) (s : SyncState) → IsValid s → IsValid (counted now ttn counter s)
unfolding count_error
counted-IsValid now ttn counter s v = record {
  counter = v.counter;
  updated = v.updated;
  lasts = v.lasts;
  fits = v.fits;
}

counted_keeps :
    (now ttn counter : ℕ) (s : SyncState)
    → (eaw_period (counted now ttn counter s) ≡ eaw_period s)
      × ((counted now ttn counter s).presence_mode ≡ s.presence_mode)
unfolding count_error
counted_keeps now ttn counter s = (refl, refl)

-- A node that hears the synchronization parameters of its master, which the master made at the time
-- `sent` of its own clock, accepts them and then agrees with the master: at the time `now` of
-- reception its time to the next AW is the master's at `sent`, its EAW number is that of the
-- master's AW counter at `sent`, and the error that it computes for these parameters is 0. The
-- clocks of both are valid and have EAWs of the same length, the presence mode of the node is 4,
-- the master's address has six octets, and `now` is at least one EAW and below 2^64.
pub sync_params-heard :
    (s : AwdlState) (h : Session) (sent now : ℕ)
    → IsValid s.sync
    → IsValid h.state.sync
    → length s.election.master_addr ≡ 6
    → is_sync_master h.state.election h.peer.addr ≡ true
    → h.state.sync.presence_mode ≡ 4
    → eaw_period s.sync ≡ eaw_period h.state.sync
    → 1024 * eaw_period h.state.sync ≤ now
    → now < 2 ^ 64
    → let (h', o) = handle_sync_params (whole (drop 3 (init_sync_params_tlv s sent))) now h in
      let ttn = next_aw_tu sent s.sync in
      let counter = current_aw sent s.sync in
      (o ≡ stop ok)
      × (h'.peer ≡ h.peer)
      × (next_aw_tu now h'.state.sync ≡ ttn)
      × (current_eaw now h'.state.sync ≡ counter / 4)
      × (error_tu now ttn counter h'.state.sync ≡ pos 0)
sync_params-heard s h sent now v v' six master four same up fits =
    let b = whole (drop 3 (init_sync_params_tlv s sent)) in
    let ttn = next_aw_tu sent s.sync in
    let counter = current_aw sent s.sync in
    let (t, t', c, c', long) = sync_params-bytes s sent six in
    let (lo, hi, _, _) = next_aw_bounds sent s.sync v in
    let small = current_aw_small sent s.sync in
    let (period, mode) = counted_keeps now ttn counter h.state.sync in
    let agree =
      error_tu-update_last now ttn counter (counted now ttn counter h.state.sync)
        (counted-IsValid now ttn counter h.state.sync v') lo (omega arith) small (omega arith) fits
        (mode ∙ four) in
    rw
      (handle_sync_params-parts b now ttn counter h master
        (read_le16-load b 1 ttn (omega (arith, v.fits)) t t' (omega arith))
        (read_le16-load b 29 counter small c c' (omega arith)))
      (refl, refl, agree.0, agree.1, agree.2)
