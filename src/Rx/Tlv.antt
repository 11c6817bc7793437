-- ===== src/Rx/Tlv.antt =====
-- The TLV handlers of src/rx.c.
use owl.Base.{
  ℕ, zero, suc, true, ◌+◌, ◌-◌, ◌%◌, ◌^◌, Bool, not, ◌||◌, ◌==◌, bit_and, if◌then◌else◌, Option,
  List, [], ◌∷◌, ◌++◌, length, drop,
}
use owl.Base.Int.{ℤ, pos, negsuc, ltb_ℤ}
use owl.Channel.{Chan, chanseq_length, chan_encoding_size, encoding_of}
use owl.Election.{ElectionState, is_sync_master}
use owl.Peers.{host_name_length_max}
use owl.Rx.{
  ignore, ok, unexpected_value, Handler, ◌>>=◌, ◌>>◌, give, finish, session, require, checked,
  change_peer, change_state,
}
use owl.Sync.{SyncState, error_tu, update_last}
use owl.Wire.{Buf, read_u8, read_le16, read_le32, read_ether_addr, read_bytes_copy, read_int_string}

abbrev pub change_sync : (SyncState → SyncState) → Handler (Unit {0})
change_sync f = change_state (λ s. record s { sync = f s.sync })

abbrev change_election : (ElectionState → ElectionState) → Handler (Unit {0})
change_election f = change_peer (λ p. record p { election = f p.election })

abbrev sync_threshold : ℕ
sync_threshold = 3

-- The statistics on the synchronization error, in `uint64_t` counters.
unfoldable pub count_error : ℤ → SyncState → SyncState
count_error err s = record s {
  meas_err =
      if ltb_ℤ (pos sync_threshold) err || ltb_ℤ err (negsuc (sync_threshold - 1))
      then (s.meas_err + 1) % 2 ^ 64
      else s.meas_err;
}

unfoldable pub handle_sync_params : Buf → ℕ → Handler (Unit {0})
unfolding count_error
handle_sync_params val now = do
  h ← session
  require (is_sync_master h.state.election h.peer.addr) ignore
  time_to_next_aw ← checked (read_le16 val (pos 1))
  aw_counter ← checked (read_le16 val (pos 29))
  change_sync (λ s. record s { meas_total = (s.meas_total + 1) % 2 ^ 64 })
  change_sync (λ s. count_error (error_tu now time_to_next_aw aw_counter s) s)
  change_sync (update_last now time_to_next_aw aw_counter)
  finish ok

-- `list` is on the stack and holds any bytes before: `size` bytes of each channel are read.
unfoldable pub overlay_chan : List ℕ → Chan → Chan
overlay_chan [] c = c
overlay_chan (x ∷ []) c = record c { val0 = x }
overlay_chan (x ∷ y ∷ _) c = record { val0 = x; val1 = y }

unfoldable pub read_chans : Buf → ℕ → ℕ → List Chan → Handler (List Chan)
unfolding overlay_chan
read_chans val size offset [] = give []
read_chans val size offset (c ∷ list) = do
  bytes ← checked (read_bytes_copy val (pos offset) size)
  rest ← read_chans val size (offset + size) list
  give (overlay_chan bytes c ∷ rest)

-- The test `size < 1`, and the loop.
unfoldable pub read_sized : List Chan → Buf → ℤ → Handler (List Chan)
unfolding read_chans
read_sized list val (negsuc _) = finish unexpected_value
read_sized list val (pos zero) = finish unexpected_value
read_sized list val (pos (suc size)) = read_chans val (suc size) 6 list

-- `list` is the content of the stack array before the loop, of 16 channels. The copy that the code
-- makes only if the sequence has changed is made in any case.
unfoldable pub handle_chanseq : List Chan → Buf → Handler (Unit {0})
unfolding read_sized
handle_chanseq list val = do
  h ← session
  count ← checked (read_u8 val (pos 0))
  require (count + 1 == chanseq_length) unexpected_value
  duplicate_count ← checked (read_u8 val (pos 2))
  require (duplicate_count == 0) unexpected_value
  step_count ← checked (read_u8 val (pos 3))
  require (step_count + 1 == h.state.sync.presence_mode) unexpected_value
  fill_channel ← checked (read_le16 val (pos 4))
  require (fill_channel == 0xffff) unexpected_value
  encoding ← checked (read_u8 val (pos 1))
  sequence ← read_sized list val (chan_encoding_size (encoding_of encoding))
  change_peer (λ p. record p { sequence = sequence })
  finish ok

-- Each field is stored as soon as it is read.
unfoldable pub handle_election_params : Buf → Handler (Unit {0})
handle_election_params val = do
  h ← session
  require (not h.peer.supports_v2) ok
  distance_to_master ← checked (read_u8 val (pos 3))
  change_election (λ e. record e { height = distance_to_master })
  master_addr ← checked (read_ether_addr val (pos 5))
  change_election (λ e. record e { master_addr = master_addr })
  master_metric ← checked (read_le32 val (pos 11))
  change_election (λ e. record e { master_metric = master_metric })
  self_metric ← checked (read_le32 val (pos 15))
  change_election (λ e. record e { self_metric = self_metric })
  finish ok

unfoldable pub handle_election_params_v2 : Buf → Handler (Unit {0})
handle_election_params_v2 val = do
  height ← checked (read_le32 val (pos 16))
  change_election (λ e. record e { height = height })
  master_addr ← checked (read_ether_addr val (pos 0))
  change_election (λ e. record e { master_addr = master_addr })
  sync_addr ← checked (read_ether_addr val (pos 6))
  change_election (λ e. record e { sync_addr = sync_addr })
  master_counter ← checked (read_le32 val (pos 12))
  change_election (λ e. record e { master_counter = master_counter })
  master_metric ← checked (read_le32 val (pos 20))
  change_election (λ e. record e { master_metric = master_metric })
  self_metric ← checked (read_le32 val (pos 24))
  change_election (λ e. record e { self_metric = self_metric })
  self_counter ← checked (read_le32 val (pos 36))
  change_election (λ e. record e { self_counter = self_counter })
  change_peer (λ p. record p { supports_v2 = true })
  finish ok

-- A copy into the front of an array.
unfoldable pub overlay : List ℕ → List ℕ → List ℕ
overlay bytes array = bytes ++ drop (length bytes) array

unfoldable pub handle_arpa : Buf → Handler (Unit {0})
unfolding overlay
handle_arpa val = do
  name ← checked (read_int_string val (pos 1) host_name_length_max)
  change_peer (λ p. record p { name = overlay name p.name })
  finish ok

-- A part of the data path state TLV that is there if its flag is set, and the offset behind it.
abbrev part : Bool → ℕ → ℕ → Handler (Unit {0}) → Handler ℕ
part b offset size read = if b then (do read; give (offset + size)) else give offset

abbrev has_flag : ℕ → ℕ → Bool
has_flag flags flag = not (bit_and flags flag == 0)

abbrev skip : {A : Type 0} → Option (ℕ × A) → Handler (Unit {0})
skip r = do checked r; give tt

unfoldable pub read_country_code : Buf → ℕ → Handler (Unit {0})
unfolding overlay
read_country_code val o = do
  bytes ← checked (read_bytes_copy val (pos o) 3)
  change_peer (λ p. record p { country_code = overlay bytes p.country_code })

-- The BSSID and the channel, which are skipped.
unfoldable skip_infra_info : Buf → ℕ → Handler (Unit {0})
skip_infra_info val o = do skip (read_ether_addr val (pos o)); skip (read_le16 val (pos (o + 6)))

unfoldable read_infra_address : Buf → ℕ → Handler (Unit {0})
read_infra_address val o = do
  addr ← checked (read_ether_addr val (pos o))
  change_peer (λ p. record p { infra_addr = addr })

unfoldable pub handle_data_path_state : Buf → Handler (Unit {0})
unfolding read_country_code skip_infra_info read_infra_address
handle_data_path_state val = do
  flags ← checked (read_le16 val (pos 0))
  o ← part (has_flag flags 0x0100) 2 3 (read_country_code val 2)
  o ← part (has_flag flags 0x0200) o 2 (skip (read_le16 val (pos o)))
  o ← part (has_flag flags 0x0001) o 8 (skip_infra_info val o)
  o ← part (has_flag flags 0x0002) o 6 (read_infra_address val o)
  _ ← part (has_flag flags 0x0004) o 6 (skip (read_ether_addr val (pos o)))
  finish ok

unfoldable pub handle_version : Buf → Handler (Unit {0})
handle_version val = do
  version ← checked (read_u8 val (pos 0))
  devclass ← checked (read_u8 val (pos 1))
  change_peer (λ p. record p { version = version; devclass = devclass })
  finish ok

-- `list` stands for the stack array of the channel sequence handler.
unfoldable pub handle_tlv : List Chan → ℕ → Buf → ℕ → Handler (Unit {0})
handle_tlv list type val tsft =
    if type == 4
    then handle_sync_params val tsft
    else if type == 18
    then handle_chanseq list val
    else if type == 5
    then handle_election_params val
    else if type == 24
    then handle_election_params_v2 val
    else if type == 16
    then handle_arpa val
    else if type == 12
    then handle_data_path_state val
    else if type == 21
    then handle_version val
    else finish ignore
