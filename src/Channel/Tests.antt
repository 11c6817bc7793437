-- ===== src/Channel/Tests.antt =====
-- Tests of the channel functions, and their theorems at concrete inputs.
use owl.Base.{◌≡◌, refl, arith, inr}
use owl.Base.Int.{pos, negsuc}
use owl.Channel.{channel_to_frequency, frequency_to_channel}
use owl.Channel.Laws.{frequency_to_channel-channel_to_frequency}

social_channels :
    (channel_to_frequency (pos 6) ≡ pos 2437)
    × (channel_to_frequency (pos 149) ≡ pos 5745)
    × (channel_to_frequency (pos 15) ≡ pos 0)
    × (channel_to_frequency (negsuc 3) ≡ pos 0)
unfolding channel_to_frequency
social_channels = (refl, refl, refl, refl)

-- Below the 5 GHz band the difference is negative, and so is the result.
frequency_between_bands : frequency_to_channel (pos 4900) ≡ negsuc 19
unfolding frequency_to_channel
frequency_between_bands = refl

frequency_to_channel-channel_to_frequency_example :
    frequency_to_channel (channel_to_frequency (pos 149)) ≡ pos 149
frequency_to_channel-channel_to_frequency_example =
    frequency_to_channel-channel_to_frequency 149 (inr (omega arith, omega arith))
