-- ===== src/Devices/Band.antt =====
-- The bands and frequencies that the wireless driver lists, in src/daemon/netutils.c.
use owl.Base.{
  ℕ, ◌-◌, ◌^◌, Bool, true, false, if◌then◌else◌, not, ltb, ◌==◌, ◌||◌, Option, none, some, List, [],
  ◌∷◌,
}
use owl.Base.Int.{ℤ, pos, negsuc}

-- The attributes of a frequency and of a band, as the parser of libnl gives them: an attribute may be
-- missing.
pub record FreqAttrs : Type 0 where
  pub freq : Option ℕ
  pub disabled : Bool
  pub no_ir : Bool

pub record BandAttrs : Type 0 where
  pub nla_type : ℕ
  pub freqs : Option (List FreqAttrs)

pub record ChannelsCtx : Type 0 where
  last_band : ℤ
  width_40 : Bool
  width_80 : Bool
  width_160 : Bool

pub record ChannelArgs : Type 0 where
  pub freq : ℤ
  pub is_available : Bool
  pub ctx : ChannelsCtx

-- The conversion of a uint32_t to an int.
unfoldable pub int_of : ℕ → ℤ
int_of n = if ltb n (2 ^ 31) then pos n else negsuc (2 ^ 32 - 1 - n)

unfoldable pub same_int : ℤ → ℤ → Bool
same_int (pos m) (pos n) = m == n
same_int (negsuc m) (negsuc n) = m == n
same_int (pos m) (negsuc n) = false
same_int (negsuc m) (pos n) = false

-- The body of the inner loop.
unfoldable pub parse_freq : FreqAttrs → ChannelArgs → ChannelArgs
unfolding same_int int_of
parse_freq tb_freq cargs = elim tb_freq.freq [
  | none ↦ cargs
  | some freq ↦
      if not (same_int (int_of freq) cargs.freq)
      then cargs
      else if tb_freq.disabled || tb_freq.no_ir
      then cargs
      else record cargs { is_available = true }
]

unfoldable pub parse_freqs : List FreqAttrs → ChannelArgs → ChannelArgs
unfolding parse_freq
parse_freqs [] cargs = cargs
parse_freqs (f ∷ l) cargs = parse_freqs l (parse_freq f cargs)

unfoldable pub enter_band : ℕ → ChannelsCtx → ChannelsCtx
unfolding same_int
enter_band nla_type ctx =
    if not (same_int ctx.last_band (pos nla_type))
    then record { last_band = pos nla_type; width_40 = false; width_80 = false; width_160 = false }
    else ctx

-- The loop over the bands of a reply.
unfoldable pub parse_bands : List BandAttrs → ChannelArgs → ChannelArgs
unfolding parse_freqs enter_band
parse_bands [] cargs = cargs
parse_bands (b ∷ l) cargs =
    let cargs' : ChannelArgs = record cargs { ctx = enter_band b.nla_type cargs.ctx } in
    parse_bands l (elim b.freqs [ none ↦ cargs' | some freqs ↦ parse_freqs freqs cargs' ])

-- A reply may have no list of bands.
unfoldable pub parse_freq_support : Option (List BandAttrs) → ChannelArgs → ChannelArgs
unfolding parse_bands
parse_freq_support none cargs = cargs
parse_freq_support (some bands) cargs = parse_bands bands cargs

-- The replies to one request, in their order.
unfoldable pub parse_replies : List (Option (List BandAttrs)) → ChannelArgs → ChannelArgs
unfolding parse_freq_support
parse_replies [] cargs = cargs
parse_replies (m ∷ l) cargs = parse_replies l (parse_freq_support m cargs)

-- The arguments that `is_channel_available` keeps from one call to the next, at the first of them.
abbrev pub channel_args : ChannelArgs
channel_args = record {
  freq = pos 0;
  is_available = false;
  ctx = record { last_band = negsuc 0; width_40 = false; width_80 = false; width_160 = false };
}

-- The arguments after a call, whose field `is_available` is the flag that the caller gets.
unfoldable pub answered : ℤ → List (Option (List BandAttrs)) → ChannelArgs → ChannelArgs
unfolding parse_replies
answered freq replies args = parse_replies replies (record args { freq = freq })
