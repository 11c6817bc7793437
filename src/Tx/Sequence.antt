-- ===== src/Tx/Sequence.antt =====
-- What `awdl_handle_chanseq_tlv` of src/rx.c reads from the channel sequence that src/tx.c makes.
use mathlib.Core.List.{append_assoc}
use owl.Base.{
  ℕ, ◌+◌, ◌%◌, ◌≤◌, ◌≡◌, ◌⊎◌, inl, inr, refl, sym, ◌∙◌, arith, some, List, [], ◌∷◌, ◌++◌, length,
  drop, length-append,
}
use owl.Base.Int.{pos}
use owl.Channel.{
  Chan, ChanEncoding, legacy, opclass, encoding_of, encoding_value, chan_encoding_size,
}
use owl.Rx.{Session, next, stop, ok, ◌>>=◌, ◌>>◌, change_peer, finish, session, give}
use owl.Rx.Steps.{bind-next, checked-next, require-next}
use owl.Rx.Tlv.{read_chans, read_sized, handle_chanseq, overlay_chan}
use owl.State.{AwdlState}
use owl.Tx.{sequence_bytes, init_chanseq, init_chanseq_tlv, chan_encoding_length}
use owl.Tx.Parse.{whole, load_all-middle, read_u8-load, read_le16-load, read_bytes_copy-load}
use owl.Wire.{Buf, load, read_u8, read_le16}

-- The loop of the handler reads back what the loop of the sender wrote.
read_chans-back :
    (b : Buf) (pre rest : List ℕ) (cs list : List Chan) (o : ℕ) (h : Session)
    → length list ≡ length cs
    → b.orig ≡ pre ++ (sequence_bytes cs 2 ++ rest)
    → b.data_at + o ≡ length pre
    → o + length (sequence_bytes cs 2) ≤ b.len
    → read_chans b 2 o list h ≡ (h, next cs)
unfolding read_chans sequence_bytes give overlay_chan
read_chans-back b pre rest [] [] o h same is at fits = refl
read_chans-back b pre rest [] (d ∷ list) o h same is at fits = absurd (omega arith)
read_chans-back b pre rest (c ∷ cs) [] o h same is at fits = absurd (omega arith)
read_chans-back b pre rest (c ∷ cs) (d ∷ list) o h same is at fits =
    let two = c.val0 ∷ c.val1 ∷ [] in
    let bytes = load_all-middle b pre two (sequence_bytes cs 2 ++ rest) o is at in
    let after =
      read_chans-back b (pre ++ two) rest cs list (o + 2) h (omega arith)
        (is ∙ sym (append_assoc pre two (sequence_bytes cs 2 ++ rest)))
        (omega (arith, length-append pre two)) (omega arith) in
    checked-next _ h (read_bytes_copy-load b o two bytes (omega arith)) ∙ bind-next _ _ h after

-- Both encodings of two bytes are read as they are sent.
pub two_bytes :
    (e : ChanEncoding)
    → (e ≡ legacy) ⊎ (e ≡ opclass)
    → (chan_encoding_size (encoding_of (encoding_value e % 256)) ≡ pos 2)
      × (chan_encoding_length e ≡ 2)
unfolding chan_encoding_size encoding_of encoding_value chan_encoding_length
two_bytes e (inl l) = rw l (refl, refl)
two_bytes e (inr o) = rw o (refl, refl)

stored :
    (cs : List Chan) (h : Session)
    → (change_peer (λ p. record p { sequence = cs }) >> finish {A = Unit {0}} ok) h
      ≡ (record h { peer = record h.peer { sequence = cs } }, stop ok)
unfolding ◌>>=◌ ◌>>◌ change_peer finish
stored cs h = refl

-- The handler on a buffer that begins with six such bytes, behind which the loop reads a sequence.
handle_chanseq-parts :
    (b : Buf) (list cs : List Chan) (h : Session) (enc : ℕ)
    → read_u8 b (pos 0) ≡ some (1, 15)
    → read_u8 b (pos 1) ≡ some (1, enc)
    → read_u8 b (pos 2) ≡ some (1, 0)
    → read_u8 b (pos 3) ≡ some (1, 3)
    → read_le16 b (pos 4) ≡ some (2, 0xffff)
    → chan_encoding_size (encoding_of enc) ≡ pos 2
    → h.state.sync.presence_mode ≡ 4
    → read_chans b 2 6 list h ≡ (h, next cs)
    → handle_chanseq list b h ≡ (record h { peer = record h.peer { sequence = cs } }, stop ok)
unfolding handle_chanseq read_sized session
handle_chanseq-parts b list cs h enc count encoding duplicates steps fill size mode back =
    bind-next session _ h refl
    ∙ checked-next _ h count
    ∙ require-next _ _ h refl
    ∙ checked-next _ h duplicates
    ∙ require-next _ _ h refl
    ∙ checked-next _ h steps
    ∙ require-next _ _ h (rw mode refl)
    ∙ checked-next _ h fill
    ∙ require-next _ _ h refl
    ∙ checked-next _ h encoding
    ∙ bind-next _ _ h {h' = h} {a = cs} (rw size back)
    ∙ stored cs h

-- A peer that hears the channel sequence TLV of a node with a sequence of 16 channels, in either
-- of the encodings of two bytes, has that sequence for the node, whatever the array on its stack
-- held, if its own presence mode is the 4 that all nodes announce.
pub chanseq-heard :
    (s : AwdlState) (h : Session) (list : List Chan)
    → length list ≡ 16
    → length s.channel.sequence ≡ 16
    → (s.channel.enc ≡ legacy) ⊎ (s.channel.enc ≡ opclass)
    → h.state.sync.presence_mode ≡ 4
    → handle_chanseq list (whole (drop 3 (init_chanseq_tlv s))) h
      ≡ (record h { peer = record h.peer { sequence = s.channel.sequence } }, stop ok)
unfolding init_chanseq_tlv init_chanseq load
chanseq-heard s h list l c e p =
    let b = whole (drop 3 (init_chanseq_tlv s)) in
    let cs = s.channel.sequence in
    let pads : List ℕ = 0 ∷ 0 ∷ 0 ∷ [] in
    let enc = encoding_value s.channel.enc % 256 in
    let (known, two) = two_bytes s.channel.enc e in
    let size : b.len ≡ length (sequence_bytes cs 2) + 9 =
      rw two (omega (arith, length-append (sequence_bytes cs 2) pads)) in
    let back =
      read_chans-back b (15 ∷ enc ∷ 0 ∷ 3 ∷ 255 ∷ 255 ∷ []) pads cs list 6 h (l ∙ sym c)
        (rw two refl) refl (omega arith) in
    handle_chanseq-parts b list cs h enc (read_u8-load b 0 15 refl (omega arith))
      (read_u8-load b 1 enc refl (omega arith)) (read_u8-load b 2 0 refl (omega arith))
      (read_u8-load b 3 3 refl (omega arith))
      (read_le16-load b 4 0xffff (omega arith) refl refl (omega arith)) known p back
