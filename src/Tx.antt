-- ===== src/Tx.antt =====
-- src/tx.c: the TLVs that a node sends. A function of the source that fills a buffer and returns
-- the number of bytes it wrote is here a function to these bytes, in the order of the packed
-- struct of src/frame.h. The system clock that two of them read is an argument.
mod Tests
pub mod Frame
pub mod Parse
pub mod RoundTrip
pub mod Sequence
pub mod Clock
pub mod Headers
use owl.Base.{
  ℕ, zero, suc, ◌+◌, ◌-◌, ◌*◌, ◌/◌, ◌%◌, ◌^◌, ltb, ◌==◌, if◌then◌else◌, List, [], ◌∷◌, ◌++◌, length,
}
use owl.Channel.{
  Chan, ChanEncoding, simple, legacy, opclass, unknown, encoding_value, chan_num, chanseq_length,
}
use owl.State.{AwdlState}
use owl.Sync.{SyncState, eaw_period, current_aw, next_aw_tu}

-- What is stored in a field of 8, 16 or 32 bits: the lowest bits of the value.
abbrev pub u8 : ℕ → List ℕ
u8 v = v % 256 ∷ []

abbrev pub le16 : ℕ → List ℕ
le16 v = v % 256 ∷ v / 256 % 256 ∷ []

abbrev pub be16 : ℕ → List ℕ
be16 v = v / 256 % 256 ∷ v % 256 ∷ []

abbrev pub le32 : ℕ → List ℕ
le32 v = v % 256 ∷ v / 256 % 256 ∷ v / 65536 % 256 ∷ v / 16777216 % 256 ∷ []

-- A struct that begins with a type and a length: `sizeof` of the whole less that of `struct tl`.
abbrev pub tlv : ℕ → List ℕ → List ℕ
tlv type val = type ∷ le16 (length val) ++ val

unfoldable pub chan_encoding_length : ChanEncoding → ℕ
chan_encoding_length simple = 1
chan_encoding_length legacy = 2
chan_encoding_length opclass = 2
chan_encoding_length (unknown _) = 0

-- `memcpy` of the first bytes of a channel: no encoding has more than two.
unfoldable chan_bytes : Chan → ℕ → List ℕ
chan_bytes c zero = []
chan_bytes c (suc zero) = c.val0 ∷ []
chan_bytes c (suc (suc _)) = c.val0 ∷ c.val1 ∷ []

-- The loop over the channels of the state, which has an array of 16.
unfoldable pub sequence_bytes : List Chan → ℕ → List ℕ
unfolding chan_bytes
sequence_bytes [] enc_len = []
sequence_bytes (c ∷ cs) enc_len = chan_bytes c enc_len ++ sequence_bytes cs enc_len

unfoldable pub init_chanseq : AwdlState → List ℕ
unfolding chan_encoding_length sequence_bytes
init_chanseq s =
    u8 (chanseq_length - 1)
    ++ u8 (encoding_value s.channel.enc)
    ++ u8 0
    ++ u8 3
    ++ le16 0xffff
    ++ sequence_bytes s.channel.sequence (chan_encoding_length s.channel.enc)

-- The comparison and the subtractions of the code are on `int`: both sides of
-- `com < period * presence_mode - down` are here moved to where they are sums.
unfoldable remaining_aw_length : SyncState → ℕ → ℕ
remaining_aw_length s down =
    let aw_com = s.aw_period in
    if ltb (aw_com + down) (s.aw_period * s.presence_mode)
    then 0
    else aw_com + down - s.aw_period * s.presence_mode

unfoldable pub init_sync_params_tlv : AwdlState → ℕ → List ℕ
unfolding init_chanseq remaining_aw_length
init_sync_params_tlv s now =
    let down = next_aw_tu now s.sync in
    let min_ext = s.sync.presence_mode + 255 in
    tlv 4 (
      u8 (chan_num s.channel.current s.channel.enc)
      ++ le16 down
      ++ u8 (chan_num s.channel.master s.channel.enc)
      ++ u8 0
      ++ le16 s.sync.aw_period
      ++ le16 s.psf_interval
      ++ le16 0x1800
      ++ le16 s.sync.aw_period
      ++ le16 s.sync.aw_period
      ++ le16 (remaining_aw_length s.sync down)
      ++ u8 min_ext
      ++ u8 min_ext
      ++ u8 min_ext
      ++ u8 min_ext
      ++ s.election.master_addr
      ++ u8 s.sync.presence_mode
      ++ u8 0
      ++ le16 (current_aw now s.sync)
      ++ le16 (current_aw now s.sync)
      ++ init_chanseq s
      ++ 0 ∷ 0 ∷ [])

unfoldable pub init_chanseq_tlv : AwdlState → List ℕ
unfolding init_chanseq
init_chanseq_tlv s = tlv 18 (init_chanseq s ++ 0 ∷ 0 ∷ 0 ∷ [])

unfoldable pub init_election_params_tlv : AwdlState → List ℕ
init_election_params_tlv s =
    let e = s.election in
    tlv 5 (
      u8 0
      ++ le16 0
      ++ u8 e.height
      ++ u8 0
      ++ e.master_addr
      ++ le32 e.master_metric
      ++ le32 e.self_metric
      ++ 0 ∷ 0 ∷ [])

unfoldable pub init_election_params_v2_tlv : AwdlState → List ℕ
init_election_params_v2_tlv s =
    let e = s.election in
    tlv 24 (
      e.master_addr
      ++ e.sync_addr
      ++ le32 e.master_counter
      ++ le32 e.height
      ++ le32 e.master_metric
      ++ le32 e.self_metric
      ++ le32 0
      ++ le32 0
      ++ le32 e.self_counter)

unfoldable pub init_service_params_tlv : List ℕ
init_service_params_tlv = tlv 6 (0 ∷ 0 ∷ 0 ∷ le16 0 ++ le32 0)

unfoldable pub init_ht_capabilities_tlv : List ℕ
init_ht_capabilities_tlv = tlv 7 (le16 0 ++ le16 0x11ce ++ u8 0x1b ++ u8 0xff ++ le16 0)

-- The bit of the social channel that the master uses.
unfoldable social_channel : Chan → ℕ
social_channel master =
    if chan_num master opclass == 6
    then 0x0001
    else if chan_num master opclass == 44
    then 0x0002
    else 0x0004

-- The letter `X`, the digit `0` and a zero are the country code.
unfoldable pub init_data_path_state_tlv : AwdlState → List ℕ
unfolding social_channel
init_data_path_state_tlv s = tlv 12 (
    le16 0x8f24
    ++ 0x58 ∷ 0x30 ∷ 0 ∷ []
    ++ le16 (social_channel s.channel.master)
    ++ s.self_address
    ++ le16 0)

-- `strlen` and the `memcpy` of as many characters: the array up to its first zero.
unfoldable pub c_string : List ℕ → List ℕ
c_string [] = []
c_string (c ∷ cs) = let rest = c_string cs in if c == 0 then [] else c ∷ rest

unfoldable pub init_arpa_tlv : AwdlState → List ℕ
unfolding c_string
init_arpa_tlv s = tlv 16 (u8 3 ++ u8 (length (c_string s.name)) ++ c_string s.name ++ be16 0xc00c)

unfoldable pub init_version_tlv : AwdlState → List ℕ
init_version_tlv s = tlv 21 (u8 s.version ++ u8 s.dev_class)
