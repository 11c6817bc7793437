-- ===== src/Tx/Frame.antt =====
-- src/tx.c: the headers, and the frames that a node sends.
use owl.Base.{ℕ, ◌*◌, ◌^◌, Bool, true, false, List, [], ◌∷◌, ◌++◌}
use owl.Election.{EtherAddr}
use owl.State.{AwdlState, Ieee80211State, next_sequence_number, ieee80211_next_sequence_number}
use owl.Tx.{
  u8, le16, be16, le32, init_sync_params_tlv, init_election_params_tlv, init_chanseq_tlv,
  init_election_params_v2_tlv, init_service_params_tlv, init_ht_capabilities_tlv, init_arpa_tlv,
  init_data_path_state_tlv, init_version_tlv,
}
use owl.Version.{version}

pub data ActionType : Type 0 where
  psf mif : ActionType

abbrev pub subtype_of : ActionType → ℕ
subtype_of psf = 0
subtype_of mif = 3

abbrev awdl_oui : List ℕ
awdl_oui = 0x00 ∷ 0x17 ∷ 0xf2 ∷ []

abbrev pub awdl_bssid : EtherAddr
awdl_bssid = 0x00 ∷ 0x25 ∷ 0x00 ∷ 0xff ∷ 0x94 ∷ 0x73 ∷ []

unfoldable pub init_data : AwdlState → List ℕ × AwdlState
unfolding next_sequence_number
init_data s =
    let (seq, s') = next_sequence_number s in (le16 0x0403 ++ le16 seq ++ le16 0 ++ be16 0x86dd, s')

-- `clock` is what `clock_time_us` returns.
unfoldable pub init_action : ActionType → ℕ → List ℕ
init_action type clock =
    u8 127
    ++ awdl_oui
    ++ u8 8
    ++ u8 (version 1 0)
    ++ u8 (subtype_of type)
    ++ u8 0
    ++ le32 clock
    ++ le32 clock

-- `rate_type` is IEEE80211_RADIOTAP_RATE of the radiotap library, whose header has a version, a
-- padding byte, the length of 16 bits and the mask of 32 bits.
unfoldable pub init_radiotap_header : ℕ → List ℕ
init_radiotap_header rate_type = u8 0 ++ u8 0 ++ le16 9 ++ le32 (2 ^ rate_type) ++ u8 (2 * 12)

unfoldable pub init_awdl_hdr : EtherAddr → EtherAddr → Ieee80211State → ℕ → List ℕ × Ieee80211State
unfolding ieee80211_next_sequence_number
init_awdl_hdr src dst state type =
    let (seq, state') = ieee80211_next_sequence_number state in
    (le16 type ++ le16 0 ++ dst ++ src ++ awdl_bssid ++ le16 (seq * 16), state')

unfoldable pub init_awdl_action_hdr :
    EtherAddr → EtherAddr → Ieee80211State → List ℕ × Ieee80211State
unfolding init_awdl_hdr
init_awdl_action_hdr src dst state = init_awdl_hdr src dst state 0x00d0

unfoldable pub init_awdl_data_hdr : EtherAddr → EtherAddr → Ieee80211State → List ℕ × Ieee80211State
unfolding init_awdl_hdr
init_awdl_data_hdr src dst state = init_awdl_hdr src dst state 0x0008

unfoldable pub llc_init_awdl_hdr : List ℕ
llc_init_awdl_hdr = u8 0xaa ++ u8 0xaa ++ u8 0x03 ++ awdl_oui ++ be16 0x0800

-- The checksum of src/crc32.c, over the frame from its radiotap header on, is a parameter.
module _ (crc32 : List ℕ → ℕ) (rate_type : ℕ) where
  unfoldable pub add_fcs : Bool → List ℕ → List ℕ
  add_fcs true frame = frame ++ le32 (crc32 frame)
  add_fcs false frame = frame

  -- The TLVs of an action frame, `now` being the time of the synchronization parameters.
  unfoldable pub action_tlvs : AwdlState → ActionType → ℕ → List ℕ
  action_tlvs s type now =
      init_sync_params_tlv s now
      ++ init_election_params_tlv s
      ++ init_chanseq_tlv s
      ++ init_election_params_v2_tlv s
      ++ init_service_params_tlv
      ++ elim type [ mif ↦ init_ht_capabilities_tlv ++ init_arpa_tlv s | psf ↦ [] ]
      ++ init_data_path_state_tlv s
      ++ init_version_tlv s

  unfoldable pub init_full_action_frame :
      AwdlState → Ieee80211State → ActionType → ℕ → ℕ → List ℕ × Ieee80211State
  unfolding add_fcs action_tlvs init_radiotap_header init_awdl_action_hdr init_action
  init_full_action_frame s state type clock now =
      let (hdr, state') = init_awdl_action_hdr s.self_address s.dst state in
      (
        add_fcs state'.fcs (
            init_radiotap_header rate_type
            ++ hdr
            ++ init_action type clock
            ++ action_tlvs s type now),
        state',
      )

  unfoldable pub init_full_data_frame :
      EtherAddr
      → EtherAddr
      → List ℕ
      → AwdlState
      → Ieee80211State
      → List ℕ × AwdlState × Ieee80211State
  unfolding add_fcs init_radiotap_header init_awdl_data_hdr init_data llc_init_awdl_hdr
  init_full_data_frame src dst payload s state =
      let (hdr, state') = init_awdl_data_hdr src dst state in
      let (data_header, s') = init_data s in
      (
        add_fcs state'.fcs
            (init_radiotap_header rate_type ++ hdr ++ llc_init_awdl_hdr ++ data_header ++ payload),
        s',
        state',
      )
