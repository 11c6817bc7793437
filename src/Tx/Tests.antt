-- ===== src/Tx/Tests.antt =====
-- Tests of the TLVs that a node sends, and their theorems at concrete inputs.
use owl.Base.{◌/◌, ◌≡◌, refl, arith, [], ◌∷◌, ◌++◌, drop}
use owl.Base.Int.{pos}
use owl.Base.Order.{memcmp}
use owl.Election.{is_sync_master, compare_ether_addr}
use owl.Rx.{Session, stop, ok}
use owl.Rx.Samples.{addr, peer, node, start}
use owl.Rx.Tlv.{handle_sync_params}
use owl.State.{AwdlState}
use owl.Sync.{next_aw_tu, current_aw, current_eaw, error_tu}
use owl.Sync
use owl.Tx.{tlv, init_version_tlv, init_sync_params_tlv, init_arpa_tlv, c_string}
use owl.Tx.Clock.{sync_params-heard}
use owl.Tx.Parse.{whole}
use owl.Tx.RoundTrip.{InRange}
use owl.Wire.{Buf}

version_bytes : init_version_tlv node ≡ 21 ∷ 2 ∷ 0 ∷ 0x34 ∷ 1 ∷ []
unfolding init_version_tlv
version_bytes = refl

-- A name of two letters, and the suffix for `.local`.
arpa_bytes :
    init_arpa_tlv (record node { name = 104 ∷ 105 ∷ 0 ∷ 7 ∷ [] })
    ≡ 16 ∷ 6 ∷ 0 ∷ 3 ∷ 2 ∷ 104 ∷ 105 ∷ 0xc0 ∷ 0x0c ∷ []
unfolding init_arpa_tlv c_string
arpa_bytes = refl

-- A master at the other address.
abbrev master : AwdlState
master = record node {
  election = record node.election {
    master_addr = addr 2;
    sync_addr = addr 2;
    self_addr = addr 2;
    master_metric = 100000;
    height = 1;
  };
  sync = record node.sync { aw_counter = 40; last_update = 1000000 };
}

abbrev behind : Buf
behind = record (whole (9 ∷ tlv 21 (5 ∷ 6 ∷ []) ++ 7 ∷ [])) { data_at = 1; len = 6 }

master-InRange : InRange master.election
master-InRange = record {
  master_addr = refl;
  sync_addr = refl;
  height = omega arith;
  master_metric = omega arith;
  self_metric = omega arith;
  master_counter = omega arith;
  self_counter = omega arith;
}

abbrev heard : Session
heard = (handle_sync_params (whole (drop 3 (init_sync_params_tlv master 1500000))) 900000 start).0

master-IsValid : Sync.Laws.IsValid master.sync
master-IsValid = record {
  counter = omega arith;
  updated = omega arith;
  lasts = omega arith;
  fits = omega arith;
}

node-IsValid : Sync.Laws.IsValid node.sync
node-IsValid = record {
  counter = omega arith;
  updated = omega arith;
  lasts = omega arith;
  fits = omega arith;
}

sync_params-heard_example :
    ((handle_sync_params (whole (drop 3 (init_sync_params_tlv master 1500000))) 900000 start).1
      ≡ stop ok)
    × (heard.peer ≡ peer)
    × (next_aw_tu 900000 heard.state.sync ≡ next_aw_tu 1500000 master.sync)
    × (current_eaw 900000 heard.state.sync ≡ current_aw 1500000 master.sync / 4)
    × (error_tu 900000
          (next_aw_tu 1500000 master.sync)
          (current_aw 1500000 master.sync)
          heard.state.sync
        ≡ pos 0)
sync_params-heard_example =
    sync_params-heard master start 1500000 900000 master-IsValid node-IsValid refl
      (unfold is_sync_master compare_ether_addr memcmp in refl) refl refl (omega arith)
      (omega arith)
