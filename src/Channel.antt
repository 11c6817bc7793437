-- ===== src/Channel.antt =====
-- src/channel.h and src/channel.c: channels, their encodings, channel sequences, and the two
-- conversions between channel numbers and frequencies.
mod Tests
pub mod Laws
use owl.Base.{ℕ, ◌+◌, ◌*◌, ltb, leb, ◌==◌, ◌&&◌, ◌||◌, if◌then◌else◌, List, fill_from}
use owl.Base.Int.{ℤ, pos, negsuc, ◌-ℤ◌, ◌/ℤ◌, ltb_ℤ, leb_ℤ}

-- The switches read the encoding as an integer, so an unknown value is possible.
pub data ChanEncoding : Type 0 where
  simple legacy opclass : ChanEncoding
  unknown : ℕ → ChanEncoding

-- `uint8_t val[2]`; the members of the union read these two bytes.
pub record Chan : Type 0 where
  pub val0 : ℕ
  pub val1 : ℕ

abbrev pub chanseq_length : ℕ
chanseq_length = 16

abbrev pub chan_null : Chan
chan_null = record { val0 = 0; val1 = 0x00 }

abbrev pub chan_opclass_6 : Chan
chan_opclass_6 = record { val0 = 6; val1 = 0x51 }

abbrev pub chan_opclass_44 : Chan
chan_opclass_44 = record { val0 = 44; val1 = 0x80 }

abbrev pub chan_opclass_149 : Chan
chan_opclass_149 = record { val0 = 149; val1 = 0x80 }

-- The enumerator of an encoding byte, and back.
unfoldable pub encoding_of : ℕ → ChanEncoding
encoding_of n =
    if n == 0 then simple else if n == 1 then legacy else if n == 3 then opclass else unknown n

unfoldable pub encoding_value : ChanEncoding → ℕ
encoding_value simple = 0
encoding_value legacy = 1
encoding_value opclass = 3
encoding_value (unknown n) = n

unfoldable pub chan_num : Chan → ChanEncoding → ℕ
chan_num chan simple = chan.val0
chan_num chan legacy = chan.val1
chan_num chan opclass = chan.val0
chan_num chan (unknown _) = 0

pub record ChannelState : Type 0 where
  pub enc : ChanEncoding
  pub sequence : List Chan
  pub master : Chan
  pub current : Chan

-- What the loop body of each initialiser stores at index `i`.
unfoldable pub init_slot : ℕ → Chan
init_slot i = if ltb i 8 then chan_opclass_149 else chan_opclass_6

unfoldable init_idle_slot : ℕ → Chan
init_idle_slot i =
    if i == 8
    then chan_opclass_6
    else if i == 0 || i == 9 || i == 10
    then chan_opclass_149
    else chan_null

unfoldable pub chanseq_init : List Chan
unfolding init_slot
chanseq_init = fill_from 0 chanseq_length init_slot

unfoldable pub chanseq_init_idle : List Chan
unfolding init_idle_slot
chanseq_init_idle = fill_from 0 chanseq_length init_idle_slot

unfoldable pub chanseq_init_static : Chan → List Chan
chanseq_init_static chan = fill_from 0 chanseq_length (λ _. chan)

-- `awdl_chan_encoding_size` returns -1 for an unknown encoding.
unfoldable pub chan_encoding_size : ChanEncoding → ℤ
chan_encoding_size simple = pos 1
chan_encoding_size legacy = pos 2
chan_encoding_size opclass = pos 2
chan_encoding_size (unknown _) = negsuc 0

unfoldable pub channel_to_frequency : ℤ → ℤ
channel_to_frequency (negsuc _) = pos 0
channel_to_frequency (pos chan) =
    if chan == 0
    then pos 0
    else if chan == 14
    then pos 2484
    else if ltb chan 14
    then pos (2407 + chan * 5)
    else if ltb chan 32
    then pos 0
    else if leb 182 chan && leb chan 196
    then pos (4000 + chan * 5)
    else pos (5000 + chan * 5)

unfoldable pub frequency_to_channel : ℤ → ℤ
unfolding ◌-ℤ◌ ◌/ℤ◌
frequency_to_channel freq =
    if leb_ℤ (pos 2484) freq && leb_ℤ freq (pos 2484)
    then pos 14
    else if ltb_ℤ freq (pos 2484)
    then (freq -ℤ pos 2407) /ℤ 5
    else if leb_ℤ (pos 4910) freq && leb_ℤ freq (pos 4980)
    then (freq -ℤ pos 4000) /ℤ 5
    else if leb_ℤ freq (pos 45000)
    then (freq -ℤ pos 5000) /ℤ 5
    else if leb_ℤ (pos 58320) freq && leb_ℤ freq (pos 64800)
    then (freq -ℤ pos 56160) /ℤ 2160
    else pos 0
