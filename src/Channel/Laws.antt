-- ===== src/Channel/Laws.antt =====
-- What the channel conversions and the channel sequences of src/channel.c satisfy.
use owl.Base.{
  ℕ, ◌≤◌, ◌<◌, ◌≡◌, refl, ◌⊎◌, arith, ltb, if◌then◌else◌, length, get_or, get_or-fill_from,
}
use owl.Base.Int.{pos}
use owl.Channel.{
  Chan, opclass, chan_num, chanseq_init, chanseq_init_idle, chanseq_init_static, init_slot,
  channel_to_frequency, frequency_to_channel,
}

-- A channel number from 1 to 14 or from 32 to 8000 survives the conversion to a frequency and
-- back. The bands 1-13, 14, 32-181, 182-196 and 197-8000 take different branches both ways.
pub frequency_to_channel-channel_to_frequency :
    (chan : ℕ)
    → ((1 ≤ chan) × (chan ≤ 14)) ⊎ ((32 ≤ chan) × (chan ≤ 8000))
    → frequency_to_channel (channel_to_frequency (pos chan)) ≡ pos chan
unfolding frequency_to_channel channel_to_frequency
frequency_to_channel-channel_to_frequency chan h = ground arith

-- The three initialisers each store 16 channels. Slot `i` of the default sequence is the 149
-- channel below 8 and the 6 channel from 8 on, and slot `i` of a static sequence is the given
-- channel.
chanseq_slots :
    (chan d : Chan) (i : ℕ)
    → i < 16
    → (length chanseq_init ≡ 16)
      × (length chanseq_init_idle ≡ 16)
      × (length (chanseq_init_static chan) ≡ 16)
      × (chan_num (get_or chanseq_init i d) opclass ≡ (if ltb i 8 then 149 else 6))
      × (get_or (chanseq_init_static chan) i d ≡ chan)
unfolding chanseq_init chanseq_init_idle chanseq_init_static chan_num
chanseq_slots chan d i h = (
  refl,
  refl,
  refl,
  ground (arith, get_or-fill_from 0 16 i init_slot d),
  get_or-fill_from 0 16 i (λ _. chan) d h,
)
