-- ===== src/Rx.antt =====
-- src/rx.h and src/rx.c: the reception of frames. This file has the results, and the form of a
-- handler: it changes the peer that sent a TLV and the node's state, and may return early.
mod Tests
mod DataTests
pub mod Samples
pub mod Tlv
pub mod Keeps
pub mod Steps
pub mod Frame
pub mod Llc
pub mod Loop
pub mod Data
pub mod Deliver
pub mod Receive
pub mod Guard
use owl.Base.{ℕ, Bool, if◌then◌else◌, Option, none, some}
use owl.Base.Int.{ℤ, pos, negsuc}
use owl.Peers.{Peer}
use owl.State.{AwdlState}

pub data RxResult : Type 0 where
  ignore_peer ignore_rssi ignore_failed_crc ignore_nopromisc ignore_from_self ignore : RxResult
  ok unexpected_format unexpected_type unexpected_value too_short : RxResult

-- Two of the results have the same number.
abbrev code : RxResult → ℤ
code ignore_peer = pos 6
code ignore_rssi = pos 5
code ignore_failed_crc = pos 4
code ignore_nopromisc = pos 3
code ignore_from_self = pos 2
code ignore = pos 1
code ok = pos 0
code unexpected_format = negsuc 0
code unexpected_type = negsuc 1
code unexpected_value = negsuc 2
code too_short = negsuc 2

-- What a handler may change: the peer behind its pointer `src`, and the state.
pub record Session : Type 0 where
  pub peer : Peer
  pub state : AwdlState

pub data Outcome (A : Type 0) : Type 0 where
  next : A → Outcome A
  stop : RxResult → Outcome A

abbrev pub Handler : Type 0 → Type 0
Handler A = Session → Session × Outcome A

-- What is changed before an early return stays changed.
infixl 5 ◌>>=◌ ◌>>◌
unfoldable pub ◌>>=◌ : {A B : Type 0} → Handler A → (A → Handler B) → Handler B
◌>>=◌ m f h = let (h', o) = m h in elim o [ next a ↦ f a h' | stop r ↦ (h', stop r) ]

unfoldable pub ◌>>◌ : {A B : Type 0} → Handler A → Handler B → Handler B
unfolding ◌>>=◌
m >> k = m >>= λ _. k

unfoldable pub give : {A : Type 0} → A → Handler A
give a h = (h, next a)

unfoldable pub finish : {A : Type 0} → RxResult → Handler A
finish r h = (h, stop r)

unfoldable pub session : Handler Session
session h = (h, next h)

-- A `return` unless a condition holds.
unfoldable pub require : Bool → RxResult → Handler (Unit {0})
require b r h = (h, if b then next tt else stop r)

-- The READ_ macros: an access out of bounds jumps to `wire_error`.
unfoldable pub checked : {A : Type 0} → Option (ℕ × A) → Handler A
checked none h = (h, stop too_short)
checked (some r) h = (h, next r.1)

unfoldable pub change_peer : (Peer → Peer) → Handler (Unit {0})
change_peer f h = (record h { peer = f h.peer }, next tt)

unfoldable pub change_state : (AwdlState → AwdlState) → Handler (Unit {0})
change_state f h = (record h { state = f h.state }, next tt)

-- A handler as its tests and its theorems run it.
unfoldable pub run : {A : Type 0} → Handler A → Session → Session × Outcome A
unfolding ◌>>◌ give finish session require checked change_peer change_state
run m h = m h
