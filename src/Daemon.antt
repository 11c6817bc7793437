-- ===== src/Daemon.antt =====
-- src/daemon/core.h and src/daemon/core.c: the daemon, as handlers of the events of its loop.
mod Tests
pub mod Send
pub mod Poll
pub mod Timers
pub mod Queue
pub mod Sent
pub mod Air
pub mod Unicast
pub mod Keeps
pub mod Runs
use owl.Base.{ℕ, Option, Bool, List, length, drop, ◌++◌}
use owl.Base.Int.{ℤ}
use owl.Ring.{CircularBuf}
use owl.State.{AwdlState, Ieee80211State}
use owl.Wire.{Buf}

-- The elements of the queue are pointers to buffers: here, indices into `heap`, which has the buffers
-- of the queue in the order of their allocation.
pub record DaemonState : Type 0 where
  pub awdl_state : AwdlState
  pub ieee80211_state : Ieee80211State
  pub next : Option Buf
  pub tx_queue_multicast : CircularBuf
  pub heap : List Buf
  pub wlan_is_file : Bool

-- What a handler does outside of the state. Times are in microseconds, as in the code before the
-- conversion to seconds.
pub data Effect : Type 0 where
  wlan_send : List ℕ → Effect
  host_send : List ℕ → Effect
  set_channel : ℕ → Effect
  rearm : ℤ → Effect
  feed_read_host : Effect

abbrev pub Done : Type 0
Done = DaemonState × List Effect
