-- ===== src/Tx/RoundTrip.antt =====
-- What the handlers of src/rx.c read from the TLVs that src/tx.c makes.
use owl.Base.{ℕ, ◌+◌, ◌*◌, ◌/◌, ◌%◌, ◌^◌, ◌<◌, ◌≡◌, refl, arith, true, false, [], ◌∷◌, length, drop}
use owl.Election.{EtherAddr, ElectionState}
use owl.Rx.{Session, stop, ok, ◌>>=◌, ◌>>◌, checked, change_peer, finish, session, require, give}
use owl.Rx.Tlv.{
  handle_election_params_v2, handle_election_params, handle_version, handle_data_path_state,
  read_country_code, overlay,
}
use owl.State.{AwdlState}
use owl.Tx.{
  init_election_params_v2_tlv, init_election_params_tlv, init_version_tlv, init_data_path_state_tlv,
}
use owl.Tx.Parse.{whole}
use owl.Wire.{
  within, load, load_all, read_u8, read_le16, read_le32, read_ether_addr, read_bytes_copy,
}

-- The values fit the types of the struct's members.
pub record InRange (e : ElectionState) : Type 0 where
  pub master_addr : length e.master_addr ≡ 6
  pub sync_addr : length e.sync_addr ≡ 6
  pub height : e.height < 2 ^ 32
  pub master_metric : e.master_metric < 2 ^ 32
  pub self_metric : e.self_metric < 2 ^ 32
  pub master_counter : e.master_counter < 2 ^ 32
  pub self_counter : e.self_counter < 2 ^ 32

pub six_octets :
    (a : EtherAddr) → length a ≡ 6 → (u v w x y z : ℕ) × (a ≡ u ∷ v ∷ w ∷ x ∷ y ∷ z ∷ [])
six_octets (u ∷ v ∷ w ∷ x ∷ y ∷ z ∷ []) h = (u, v, w, x, y, z, refl)
six_octets [] h = absurd (omega arith)
six_octets (u ∷ []) h = absurd (omega arith)
six_octets (u ∷ v ∷ []) h = absurd (omega arith)
six_octets (u ∷ v ∷ w ∷ []) h = absurd (omega arith)
six_octets (u ∷ v ∷ w ∷ x ∷ []) h = absurd (omega arith)
six_octets (u ∷ v ∷ w ∷ x ∷ y ∷ []) h = absurd (omega arith)
six_octets (u ∷ v ∷ w ∷ x ∷ y ∷ z ∷ t ∷ a) h = absurd (omega arith)

four_bytes :
    (v : ℕ)
    → v < 2 ^ 32
    → v % 256 + 256 * (v / 256 % 256) + 65536 * (v / 65536 % 256) + 16777216 * (v / 16777216 % 256)
      ≡ v
four_bytes v h = omega arith

-- A peer that hears the second election TLV of a node, whose addresses have six octets and whose
-- numbers fit 32 bits, has the node's election state for that node, all seven fields, keeps the
-- node's own address, and knows that it supports the second version.
pub election_params_v2-heard :
    (s : AwdlState) (h : Session)
    → InRange s.election
    → handle_election_params_v2 (whole (drop 3 (init_election_params_v2_tlv s))) h ≡ (
      record h {
        peer = record h.peer {
          election = record s.election { self_addr = h.peer.election.self_addr };
          supports_v2 = true;
        };
      },
      stop ok,
    )
unfolding handle_election_params_v2 init_election_params_v2_tlv ◌>>=◌ ◌>>◌ checked change_peer
    finish read_le32 read_ether_addr within load load_all
election_params_v2-heard s h r =
    let (_, _, _, _, _, _, m) = six_octets s.election.master_addr r.master_addr in
    let (_, _, _, _, _, _, y) = six_octets s.election.sync_addr r.sync_addr in
    rw
      (
        m,
        y,
        four_bytes s.election.height r.height,
        four_bytes s.election.master_metric r.master_metric,
        four_bytes s.election.self_metric r.self_metric,
        four_bytes s.election.master_counter r.master_counter,
        four_bytes s.election.self_counter r.self_counter,
      )
      refl

-- A peer that is not known to support the second version of the election, and that hears the first
-- election TLV of a node whose addresses have six octets, whose numbers fit 32 bits and whose
-- height fits a byte, has the node's master, metrics and height for that node, and leaves the
-- counters and the other addresses as they were.
pub election_params-heard :
    (s : AwdlState) (h : Session)
    → InRange s.election
    → s.election.height < 256
    → h.peer.supports_v2 ≡ false
    → handle_election_params (whole (drop 3 (init_election_params_tlv s))) h ≡ (
      record h {
        peer = record h.peer {
          election = record h.peer.election {
            height = s.election.height;
            master_addr = s.election.master_addr;
            master_metric = s.election.master_metric;
            self_metric = s.election.self_metric;
          };
        };
      },
      stop ok,
    )
unfolding handle_election_params init_election_params_tlv ◌>>=◌ ◌>>◌ checked change_peer finish
    session require read_u8 read_le32 read_ether_addr within load load_all
election_params-heard s h r low v1 =
    let (_, _, _, _, _, _, m) = six_octets s.election.master_addr r.master_addr in
    let byte : s.election.height % 256 ≡ s.election.height = omega arith in
    rw
      (
        m,
        v1,
        byte,
        four_bytes s.election.master_metric r.master_metric,
        four_bytes s.election.self_metric r.self_metric,
      )
      refl

-- A peer that hears the version TLV and the data path state TLV of a node, whose version and device
-- class are bytes and whose address has six octets, has that version and device class for the
-- node, and the country code of three characters that all nodes send.
pub version_and_path-heard :
    (s : AwdlState) (h : Session)
    → s.version < 256
    → s.dev_class < 256
    → length s.self_address ≡ 6
    → (handle_version (whole (drop 3 (init_version_tlv s))) h ≡ (
      record h { peer = record h.peer { version = s.version; devclass = s.dev_class } },
      stop ok,
    ))
      × (handle_data_path_state (whole (drop 3 (init_data_path_state_tlv s))) h ≡ (
        record h {
          peer = record h.peer { country_code = 0x58 ∷ 0x30 ∷ 0 ∷ drop 3 h.peer.country_code };
        },
        stop ok,
      ))
unfolding handle_version init_version_tlv ◌>>=◌ ◌>>◌ checked change_peer finish read_u8 within load
    load_all handle_data_path_state init_data_path_state_tlv read_country_code overlay
    read_bytes_copy read_le16 read_ether_addr give
version_and_path-heard s h v d a =
    let (_, _, _, _, _, _, m) = six_octets s.self_address a in
    let low_v : s.version % 256 ≡ s.version = omega arith in
    let low_d : s.dev_class % 256 ≡ s.dev_class = omega arith in (rw (low_v, low_d) refl, rw m refl)
