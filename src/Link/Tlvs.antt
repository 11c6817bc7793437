-- ===== src/Link/Tlvs.antt =====
-- The TLVs of an action frame of src/tx.c, one by one through the handlers of src/rx.c.
use mathlib.Core.List.{append_assoc, append-nil}
use owl.Base.{ℕ, ◌≤◌, ◌<◌, ◌≡◌, refl, ap₂, ◌∙◌, ◌⊎◌, List, [], ◌∷◌, ◌++◌, length, drop}
use owl.Channel.{Chan, legacy, opclass}
use owl.Rx.Loop.{tlv_bytes}
use owl.Rx.{Session}
use owl.State.{AwdlState}
use owl.Sync.Laws.{IsValid}
use owl.Tx.Frame.{ActionType, psf, mif, action_tlvs}
use owl.Tx.RoundTrip.{InRange}
use owl.Tx.{
  tlv, init_sync_params_tlv, init_election_params_tlv, init_chanseq_tlv,
  init_election_params_v2_tlv, init_service_params_tlv, init_ht_capabilities_tlv, init_arpa_tlv,
  init_data_path_state_tlv, init_version_tlv, c_string,
}
use owl.Wire.{Buf}

-- What a node sends fits the fields of its frames, as the code keeps it: the numbers of the
-- election and the version, the six octets of its address, a sequence of 16 channels in an encoding
-- of two bytes, and a name that fits the array of a peer.
pub record IsSendable (s : AwdlState) : Type 0 where
  pub clock : IsValid s.sync
  pub election : InRange s.election
  pub height : s.election.height < 256
  pub version : s.version < 256
  pub dev_class : s.dev_class < 256
  pub address : length s.self_address ≡ 6
  pub sequence : length s.channel.sequence ≡ 16
  pub encoding : (s.channel.enc ≡ legacy) ⊎ (s.channel.enc ≡ opclass)
  pub name : length (c_string s.name) ≤ 64

-- The TLVs of the two types of frames, with the bytes of their values.
abbrev pub last_tlvs : AwdlState → List (ℕ × List ℕ)
last_tlvs s = (12, drop 3 (init_data_path_state_tlv s)) ∷ (21, drop 3 (init_version_tlv s)) ∷ []

abbrev pub middle_tlvs : AwdlState → ActionType → List (ℕ × List ℕ)
middle_tlvs s psf = last_tlvs s
middle_tlvs s mif =
    (7, drop 3 init_ht_capabilities_tlv) ∷ (16, drop 3 (init_arpa_tlv s)) ∷ last_tlvs s

abbrev pub tlvs : AwdlState → ActionType → ℕ → List (ℕ × List ℕ)
tlvs s type sent =
    (4, drop 3 (init_sync_params_tlv s sent))
    ∷ (5, drop 3 (init_election_params_tlv s))
    ∷ (18, drop 3 (init_chanseq_tlv s))
    ∷ (24, drop 3 (init_election_params_v2_tlv s))
    ∷ (6, drop 3 init_service_params_tlv)
    ∷ middle_tlvs s type

module _ (s : AwdlState) (sent : ℕ) where
  sync-tlv : tlv 4 (drop 3 (init_sync_params_tlv s sent)) ≡ init_sync_params_tlv s sent
  unfolding init_sync_params_tlv
  sync-tlv = refl

  election-tlv : tlv 5 (drop 3 (init_election_params_tlv s)) ≡ init_election_params_tlv s
  unfolding init_election_params_tlv
  election-tlv = refl

  chanseq-tlv : tlv 18 (drop 3 (init_chanseq_tlv s)) ≡ init_chanseq_tlv s
  unfolding init_chanseq_tlv
  chanseq-tlv = refl

  election_v2-tlv : tlv 24 (drop 3 (init_election_params_v2_tlv s)) ≡ init_election_params_v2_tlv s
  unfolding init_election_params_v2_tlv
  election_v2-tlv = refl

  service-tlv : tlv 6 (drop 3 init_service_params_tlv) ≡ init_service_params_tlv
  unfolding init_service_params_tlv
  service-tlv = refl

  ht-tlv : tlv 7 (drop 3 init_ht_capabilities_tlv) ≡ init_ht_capabilities_tlv
  unfolding init_ht_capabilities_tlv
  ht-tlv = refl

  arpa-tlv : tlv 16 (drop 3 (init_arpa_tlv s)) ≡ init_arpa_tlv s
  unfolding init_arpa_tlv
  arpa-tlv = refl

  path-tlv : tlv 12 (drop 3 (init_data_path_state_tlv s)) ≡ init_data_path_state_tlv s
  unfolding init_data_path_state_tlv
  path-tlv = refl

  version-tlv : tlv 21 (drop 3 (init_version_tlv s)) ≡ init_version_tlv s
  unfolding init_version_tlv
  version-tlv = refl

  module _ (tlv_cb : ℕ → Buf → Session → Session) (list : List Chan) (tsft : ℕ) where
    last-bytes :
        tlv_bytes tlv_cb list tsft (last_tlvs s)
        ≡ init_data_path_state_tlv s ++ (init_version_tlv s ++ [])
    last-bytes = ap₂ ◌++◌ path-tlv (ap₂ ◌++◌ version-tlv refl)

    -- In a row they are what the frame has behind its header.
    pub tlv_bytes-tlvs :
        (crc32 : List ℕ → ℕ) (rate_type : ℕ) (type : ActionType)
        → tlv_bytes tlv_cb list tsft (tlvs s type sent) ≡ action_tlvs crc32 rate_type s type sent
    unfolding action_tlvs
    tlv_bytes-tlvs crc32 rate_type psf =
        ap₂ ◌++◌ sync-tlv (
          ap₂ ◌++◌ election-tlv
            (ap₂ ◌++◌ chanseq-tlv (ap₂ ◌++◌ election_v2-tlv (ap₂ ◌++◌ service-tlv last-bytes))))
        ∙ simp (append_assoc, append-nil) refl
    tlv_bytes-tlvs crc32 rate_type mif =
        ap₂ ◌++◌ sync-tlv (
          ap₂ ◌++◌ election-tlv (
            ap₂ ◌++◌ chanseq-tlv (
              ap₂ ◌++◌ election_v2-tlv
                (ap₂ ◌++◌ service-tlv (ap₂ ◌++◌ ht-tlv (ap₂ ◌++◌ arpa-tlv last-bytes))))))
        ∙ simp (append_assoc, append-nil) refl
