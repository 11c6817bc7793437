-- ===== src/Devices/Available.antt =====
-- The replies of the wireless driver to src/daemon/netutils.c: which channels are available.
use owl.Base.{
  ◌≡◌, refl, sym, ap, ◌∙◌, inl, inr, Bool, true, false, if◌then◌else◌, not, ◌||◌, ◌&&◌, Option,
  none, some, Option-cases, List, [], ◌∷◌, ◌++◌,
}
use owl.Base.Int.{ℤ}
use owl.Devices.Band.{
  FreqAttrs, BandAttrs, ChannelArgs, int_of, same_int, parse_freq, parse_freqs, enter_band,
  parse_bands, parse_freq_support, parse_replies, answered,
}

-- The specification: the frequencies in the replies, and those that frames can be sent on.
abbrev listed : Option (List FreqAttrs) → List FreqAttrs
listed none = []
listed (some freqs) = freqs

abbrev band_freqs : List BandAttrs → List FreqAttrs
band_freqs [] = []
band_freqs (b ∷ l) = listed b.freqs ++ band_freqs l

abbrev bands_of : Option (List BandAttrs) → List FreqAttrs
bands_of none = []
bands_of (some bands) = band_freqs bands

abbrev pub reply_freqs : List (Option (List BandAttrs)) → List FreqAttrs
reply_freqs [] = []
reply_freqs (m ∷ l) = bands_of m ++ reply_freqs l

abbrev can_send : ℤ → FreqAttrs → Bool
can_send freq f = elim f.freq [
  | none ↦ false
  | some n ↦ same_int (int_of n) freq && (not f.disabled && not f.no_ir)
]

abbrev pub any_can_send : ℤ → List FreqAttrs → Bool
any_can_send freq [] = false
any_can_send freq (f ∷ l) = can_send freq f || any_can_send freq l

-- What a part of the replies does to the arguments.
record Answers (l : List FreqAttrs) (args args' : ChannelArgs) : Type 0 where
  asked : args'.freq ≡ args.freq
  found : args'.is_available ≡ (args.is_available || any_can_send args.freq l)

or_assoc : (a b c : Bool) → ((a || b) || c) ≡ (a || (b || c))
or_assoc true b c = refl
or_assoc false b c = refl

or_false : (a : Bool) → a ≡ (a || false)
or_false true = refl
or_false false = refl

any_can_send-append :
    (freq : ℤ) (l r : List FreqAttrs)
    → any_can_send freq (l ++ r) ≡ (any_can_send freq l || any_can_send freq r)
any_can_send-append freq [] r = refl
any_can_send-append freq (f ∷ l) r =
    ap (λ b. can_send freq f || b) (any_can_send-append freq l r)
    ∙ sym (or_assoc (can_send freq f) (any_can_send freq l) (any_can_send freq r))

same : (args : ChannelArgs) → Answers [] args args
same args = record { asked = refl; found = or_false args.is_available }

both :
    (l r : List FreqAttrs) (a b c : ChannelArgs)
    → Answers l a b
    → Answers r b c
    → Answers (l ++ r) a c
both l r a b c first second = record {
  asked = second.asked ∙ first.asked;
  found =
      second.found
      ∙ ap (λ x. x || any_can_send b.freq r) first.found
      ∙ ap (λ f. (a.is_available || any_can_send a.freq l) || any_can_send f r) first.asked
      ∙ or_assoc a.is_available (any_can_send a.freq l) (any_can_send a.freq r)
      ∙ ap (λ x. a.is_available || x) (sym (any_can_send-append a.freq l r));
}

or_true : (a : Bool) → true ≡ (a || true)
or_true true = refl
or_true false = refl

-- The tests of `parse_freq` on a frequency that is there.
tested :
    (eq disabled no_ir : Bool) (args : ChannelArgs)
    → let x =
        if not eq
        then args
        else if disabled || no_ir
        then args
        else record args { is_available = true } in
      (x.freq ≡ args.freq)
      × (x.is_available ≡ (args.is_available || ((eq && (not disabled && not no_ir)) || false)))
tested false disabled no_ir args = (refl, or_false args.is_available)
tested true true no_ir args = (refl, or_false args.is_available)
tested true false true args = (refl, or_false args.is_available)
tested true false false args = (refl, or_true args.is_available)

parse_freq-Answers :
    (f : FreqAttrs) (args : ChannelArgs) → Answers (f ∷ []) args (parse_freq f args)
unfolding parse_freq
parse_freq-Answers f args = elim (Option-cases f.freq) [
  | inl e ↦ record { asked = rw e refl; found = rw e (or_false args.is_available) }
  | inr (n, e) ↦
      let (asks, finds) = tested (same_int (int_of n) args.freq) f.disabled f.no_ir args in
      record { asked = rw e asks; found = rw e finds }
]

parse_freqs-Answers :
    (l : List FreqAttrs) (args : ChannelArgs) → Answers l args (parse_freqs l args)
unfolding parse_freqs
parse_freqs-Answers [] args = same args
parse_freqs-Answers (f ∷ l) args =
    both (f ∷ []) l args (parse_freq f args) (parse_freqs l (parse_freq f args))
      (parse_freq-Answers f args) (parse_freqs-Answers l (parse_freq f args))

listed-Answers :
    (o : Option (List FreqAttrs)) (args : ChannelArgs)
    → Answers (listed o) args (elim o [ none ↦ args | some freqs ↦ parse_freqs freqs args ])
listed-Answers none args = same args
listed-Answers (some freqs) args = parse_freqs-Answers freqs args

parse_bands-Answers :
    (l : List BandAttrs) (args : ChannelArgs) → Answers (band_freqs l) args (parse_bands l args)
unfolding parse_bands
parse_bands-Answers [] args = same args
parse_bands-Answers (b ∷ l) args =
    let entered : ChannelArgs = record args { ctx = enter_band b.nla_type args.ctx } in
    let next : ChannelArgs = elim b.freqs [
      | none ↦ entered
      | some freqs ↦ parse_freqs freqs entered
    ] in
    let first : Answers (listed b.freqs) args next =
      let step = listed-Answers b.freqs entered in
      record { asked = step.asked; found = step.found } in
    both (listed b.freqs) (band_freqs l) args next (parse_bands l next) first
      (parse_bands-Answers l next)

parse_freq_support-Answers :
    (m : Option (List BandAttrs)) (args : ChannelArgs)
    → Answers (bands_of m) args (parse_freq_support m args)
unfolding parse_freq_support
parse_freq_support-Answers none args = same args
parse_freq_support-Answers (some bands) args = parse_bands-Answers bands args

parse_replies-Answers :
    (l : List (Option (List BandAttrs))) (args : ChannelArgs)
    → Answers (reply_freqs l) args (parse_replies l args)
unfolding parse_replies
parse_replies-Answers [] args = same args
parse_replies-Answers (m ∷ l) args =
    both (bands_of m) (reply_freqs l) args (parse_freq_support m args)
      (parse_replies l (parse_freq_support m args)) (parse_freq_support-Answers m args)
      (parse_replies-Answers l (parse_freq_support m args))

-- A channel is said to be available after the replies to a request if it was before, whatever channel
-- was asked for then, or if a band of a reply lists its frequency as neither disabled nor closed to
-- stations that transmit first, and only then.
pub answered-any :
    (freq : ℤ) (replies : List (Option (List BandAttrs))) (args : ChannelArgs)
    → (answered freq replies args).is_available
      ≡ (args.is_available || any_can_send freq (reply_freqs replies))
unfolding answered
answered-any freq replies args = (parse_replies-Answers replies (record args { freq = freq })).found
