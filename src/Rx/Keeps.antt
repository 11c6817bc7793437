-- ===== src/Rx/Keeps.antt =====
-- What the TLV handlers of src/rx.c leave alone: the identity of the peer and whether it counts as
-- valid, and of the node's state all but the counters of the clock.
use owl.Base.{
  ℕ, zero, suc, ◌+◌, ◌≡◌, refl, ap, ◌∙◌, arith, Bool, true, false, Option, none, some, List, [],
  ◌∷◌, if◌then◌else◌,
}
use owl.Base.Int.{ℤ, pos, negsuc}
use owl.Channel.{Chan}
use owl.Peers.{Peer}
use owl.Rx.{
  RxResult, Session, Outcome, next, stop, Handler, ◌>>=◌, ◌>>◌, give, finish, session, require,
  checked, change_peer, change_state,
}
use owl.Rx.Tlv.{
  change_sync, count_error, handle_sync_params, read_chans, read_sized, handle_chanseq,
  handle_election_params, handle_election_params_v2, handle_arpa, handle_data_path_state,
  handle_version, handle_tlv,
}
use owl.State.{AwdlState}
use owl.Sync.{SyncState, update_last}
use owl.Wire.{Buf}

pub record KeptPeer (p p' : Peer) : Type 0 where
  pub addr : p'.addr ≡ p.addr
  pub self_addr : p'.election.self_addr ≡ p.election.self_addr
  pub last_update : p'.last_update ≡ p.last_update
  pub sync_offset : p'.sync_offset ≡ p.sync_offset
  pub sent_mif : p'.sent_mif ≡ p.sent_mif
  pub is_valid : p'.is_valid ≡ p.is_valid

pub record KeptSync (s s' : SyncState) : Type 0 where
  pub aw_period : s'.aw_period ≡ s.aw_period
  pub presence_mode : s'.presence_mode ≡ s.presence_mode

-- All of the state but its clock is as it was, and so are the periods of the clock.
pub record Kept (h h' : Session) : Type 0 where
  pub peer : KeptPeer h.peer h'.peer
  pub sync : KeptSync h.state.sync h'.state.sync
  pub state : h'.state ≡ record h.state { sync = h'.state.sync }

-- A handler that keeps this, however it ends.
pub record Keeps {A : Type 0} (m : Handler A) : Type 0 where
  keeps : (h : Session) → Kept h (m h).0

Kept-refl : (h : Session) → Kept h h
Kept-refl h = record { peer = ground arith; sync = ground arith; state = refl }

Kept-trans : (h h' h'' : Session) → Kept h h' → Kept h' h'' → Kept h h''
Kept-trans h h' h'' k k' = record {
  peer = ground arith;
  sync = ground arith;
  state = k'.state ∙ ap (λ (s : AwdlState). record s { sync = h''.state.sync }) k.state;
}

module _ {A B : Type 0} {m : Handler A} where
  bind-Keeps : {f : A → Handler B} → Keeps m → ((a : A) → Keeps (f a)) → Keeps (m >>= f)
  unfolding ◌>>=◌
  bind-Keeps {f} k kf = record { keeps = λ h. after h (m h).1 (k.keeps h) }
    where
      after :
          (h : Session) (o : Outcome A)
          → Kept h (m h).0
          → Kept h
              (elim o as (λ _. Session × Outcome B) [
                | next a ↦ f a (m h).0
                | stop r ↦ ((m h).0, stop r)
              ]).0
      after h (next a) first = Kept-trans h (m h).0 _ first ((kf a).keeps (m h).0)
      after h (stop r) first = first

  then-Keeps : {n : Handler B} → Keeps m → Keeps n → Keeps (m >> n)
  unfolding ◌>>◌
  then-Keeps k kn = bind-Keeps k (λ a. kn)

give-Keeps : {A : Type 0} (a : A) → Keeps (give a)
unfolding give
give-Keeps a = record { keeps = Kept-refl }

finish-Keeps : {A : Type 0} (r : RxResult) → Keeps (finish {A = A} r)
unfolding finish
finish-Keeps r = record { keeps = Kept-refl }

session-Keeps : Keeps session
unfolding session
session-Keeps = record { keeps = Kept-refl }

require-Keeps : (b : Bool) (r : RxResult) → Keeps (require b r)
unfolding require
require-Keeps b r = record { keeps = Kept-refl }

checked-Keeps : {A : Type 0} (r : Option (ℕ × A)) → Keeps (checked r)
unfolding checked
checked-Keeps none = record { keeps = Kept-refl }
checked-Keeps (some r) = record { keeps = Kept-refl }

peer-Keeps : (f : Peer → Peer) → ((p : Peer) → KeptPeer p (f p)) → Keeps (change_peer f)
unfolding change_peer
peer-Keeps f k = record {
  keeps = λ h. record { peer = k h.peer; sync = ground arith; state = refl };
}

sync-Keeps :
    (f : SyncState → SyncState) → ((s : SyncState) → KeptSync s (f s)) → Keeps (change_sync f)
unfolding change_state
sync-Keeps f k = record {
  keeps = λ h. record { peer = ground arith; sync = k h.state.sync; state = refl };
}

if-Keeps :
    {A : Type 0} (b : Bool) (m n : Handler A) → Keeps m → Keeps n → Keeps (if b then m else n)
if-Keeps true m n k l = k
if-Keeps false m n k l = l

-- A change of the peer that leaves the kept fields alone, field by field.
peer_by :
    (f : Peer → Peer)
    → ((p : Peer) → (f p).addr ≡ p.addr)
    → ((p : Peer) → (f p).election.self_addr ≡ p.election.self_addr)
    → ((p : Peer) → (f p).last_update ≡ p.last_update)
    → ((p : Peer) → (f p).sync_offset ≡ p.sync_offset)
    → ((p : Peer) → (f p).sent_mif ≡ p.sent_mif)
    → ((p : Peer) → (f p).is_valid ≡ p.is_valid)
    → Keeps (change_peer f)
peer_by f a b c d e g = peer-Keeps f λ p. record {
  addr = a p;
  self_addr = b p;
  last_update = c p;
  sync_offset = d p;
  sent_mif = e p;
  is_valid = g p;
}

ruleset steps = (
  bind-Keeps, then-Keeps, give-Keeps, finish-Keeps, session-Keeps, require-Keeps, checked-Keeps,
  if-Keeps, peer_by, refl,
)

handle_version-Keeps : (val : Buf) → Keeps (handle_version val)
unfolding handle_version
handle_version-Keeps val = search steps depth 12

handle_election_params-Keeps : (val : Buf) → Keeps (handle_election_params val)
unfolding handle_election_params
handle_election_params-Keeps val = search steps depth 20

handle_election_params_v2-Keeps : (val : Buf) → Keeps (handle_election_params_v2 val)
unfolding handle_election_params_v2
handle_election_params_v2-Keeps val = search steps depth 24

handle_arpa-Keeps : (val : Buf) → Keeps (handle_arpa val)
unfolding handle_arpa
handle_arpa-Keeps val = search steps depth 12

handle_data_path_state-Keeps : (val : Buf) → Keeps (handle_data_path_state val)
unfolding handle_data_path_state
handle_data_path_state-Keeps val = search steps depth 24

read_chans-Keeps :
    (val : Buf) (size offset : ℕ) (list : List Chan) → Keeps (read_chans val size offset list)
unfolding read_chans
read_chans-Keeps val size offset [] = search steps
read_chans-Keeps val size offset (c ∷ list) =
    bind-Keeps (checked-Keeps _)
      λ bytes. bind-Keeps (read_chans-Keeps val size (offset + size) list) λ rest. give-Keeps _

read_sized-Keeps : (list : List Chan) (val : Buf) (size : ℤ) → Keeps (read_sized list val size)
unfolding read_sized
read_sized-Keeps list val (negsuc _) = finish-Keeps _
read_sized-Keeps list val (pos zero) = finish-Keeps _
read_sized-Keeps list val (pos (suc size)) = read_chans-Keeps val (suc size) 6 list

handle_chanseq-Keeps : (list : List Chan) (val : Buf) → Keeps (handle_chanseq list val)
unfolding handle_chanseq
handle_chanseq-Keeps list val = search (steps, read_sized-Keeps) depth 24

-- A change of the clock that leaves its periods alone.
sync_by :
    (f : SyncState → SyncState)
    → ((s : SyncState) → (f s).aw_period ≡ s.aw_period)
    → ((s : SyncState) → (f s).presence_mode ≡ s.presence_mode)
    → Keeps (change_sync f)
sync_by f a b = sync-Keeps f λ s. record { aw_period = a s; presence_mode = b s }

handle_sync_params-Keeps : (val : Buf) (now : ℕ) → Keeps (handle_sync_params val now)
unfolding handle_sync_params count_error update_last
handle_sync_params-Keeps val now = search (steps, sync_by) depth 24

handle_tlv-Keeps :
    (list : List Chan) (type : ℕ) (val : Buf) (tsft : ℕ) → Keeps (handle_tlv list type val tsft)
unfolding handle_tlv
handle_tlv-Keeps list type val tsft = if-Keeps _ _ _ (handle_sync_params-Keeps val tsft) (
    if-Keeps _ _ _ (handle_chanseq-Keeps list val) (
      if-Keeps _ _ _ (handle_election_params-Keeps val) (
        if-Keeps _ _ _ (handle_election_params_v2-Keeps val) (
          if-Keeps _ _ _ (handle_arpa-Keeps val) (
            if-Keeps _ _ _ (handle_data_path_state-Keeps val)
              (if-Keeps _ _ _ (handle_version-Keeps val) (finish-Keeps _)))))))

-- Whatever a received TLV holds and however its handler ends, the handler does not change the
-- address of the peer that sent it, the peer's own address in its election state, the time of its
-- last update, its offset, or whether it counts as valid or has sent a master indication frame. Of
-- the state of the node it changes the clock alone, and of the clock neither of the two periods.
pub handle_tlv-Kept :
    (list : List Chan) (type : ℕ) (val : Buf) (tsft : ℕ) (h : Session)
    → Kept h (handle_tlv list type val tsft h).0
handle_tlv-Kept list type val tsft h = (handle_tlv-Keeps list type val tsft).keeps h
