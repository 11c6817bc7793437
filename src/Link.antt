-- ===== src/Link.antt =====
-- Two nodes on one channel: what src/tx.c and the daemon of one make, and src/rx.c and the daemon of
-- the other take in.
mod Tests
pub mod View
pub mod Receive
pub mod Ethernet
pub mod Data
pub mod Delivery
pub mod Tlvs
pub mod Passes
pub mod Handlers
pub mod Body
pub mod Action
pub mod Beacon
pub mod Clocks
use owl.Base.{ℕ, List, drop}

-- The frame on the air: mac80211 takes off the radiotap header, which has nine bytes.
abbrev pub on_air : List ℕ → List ℕ
on_air frame = drop 9 frame
