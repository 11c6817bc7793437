-- ===== src/Lib.antt =====
-- Verification of the Open Wireless Link (OWL), a user-space implementation of the Apple Wireless
-- Direct Link (AWDL) protocol in C: of the protocol library in src/ and the daemon in daemon/. Paths
-- are from the repository's root.
--
-- A node receives action frames, whose TLVs (type, length, value) tell it the clock, the channel
-- sequence and the election state of each peer. It elects a synchronization master among the
-- valid peers, follows the clock of that master, and sends data frames in the availability windows
-- in which it shares a channel with a peer; frames for all peers wait in a circular buffer.
--
-- * Base and its children: names of the libraries, Boolean tests, lists over the native numbers,
--   signed integers, orders, Option as a monad.
-- * Channel models src/channel.h and src/channel.c, and Channel.Laws has its theorems.
-- * Sync models src/sync.h and src/sync.c, and the unit conversions of src/ieee80211.h. Times wrap
--   at 2^64. The code divides by the two periods, so the theorems ask for a valid state, in which
--   both are positive. Sync.Bits has the rounding of a counter.
-- * Ring models src/circular_buffer.c. Ring.Queue is its specification, a list, Ring.Window and
--   Ring.Distance have the list that a buffer stands for, and Ring.Refine that each operation
--   implements the one of the queue.
-- * Election models src/election.h and the helpers of src/election.c, and Election.Run the function
--   awdl_election_run on the list of the peers in iteration order. Election.Rank puts the order
--   that the loop compares by in one definition.
-- * Hashmap models src/hashmap.h and src/hashmap.c: its record and the new table here, and the
--   operations in Hashmap.Ops. Hashmap.Probe and Hashmap.Write are about what a search finds before
--   and after a write to a slot; Hashmap.Valid has the invariant, Hashmap.Update what the writes of
--   the operations do to it. Hashmap.Scan and Hashmap.Rehash are about the growth of the table, and
--   Hashmap.Empty, Hashmap.Put and Hashmap.Get about whole operations.
-- * Peers models the records of src/peers.h and their initial values; what a fresh allocation holds
--   is a parameter. Peers.Table models adding, removing and getting a peer over an interface for the
--   map, with the calls of the callback as a list and a flag for whether there is one, and Peers.Laws has its theorems; Peers.Map fills
--   the interface by the hash map. Peers.Clean models awdl_peers_remove and the wrappers of the
--   iterator, and Peers.Walk and Peers.Removal are about it. Peers.Samples has a table for the tests.
-- * Version models src/version.c, and State models src/state.h and src/state.c. The
--   counters of Stats wrap at 2^64.
-- * Wire models src/wire.c: a buffer is an allocation with an offset and a length, and a result
--   OUT_OF_BOUNDS is none. The guards add the offset and the number of bytes as int, so the sum wraps at
--   2^31. Wire.Bounds, Wire.Accepts and Wire.RoundTrip have its theorems.
-- * Rx models src/rx.c. A handler is a function on the peer and the node's state that may return
--   early (Rx has this form, Rx.Steps how such a function goes on); Rx.Tlv has the TLV handlers,
--   Rx.Frame the header and the loop over the TLVs of an action frame, Rx.Llc the LLC header.
--   Rx.Data models awdl_rx_data and awdl_rx_data_amsdu, and Rx.Receive awdl_rx_action on the table
--   of peers, the flags of the radiotap header and awdl_rx. Rx.Keeps is about what the TLV handlers
--   leave alone, Rx.Loop about the loop over the TLVs, Rx.Deliver about the data of a frame, and
--   Rx.Guard about what awdl_rx hands on. Rx.Samples has a node and a peer for the tests.
-- * Tx models src/tx.c, each function as the bytes that it writes: Tx the TLVs, Tx.Frame headers and
--   frames. Tx.Parse, Tx.RoundTrip, Tx.Sequence, Tx.Clock and Tx.Headers are about what a receiver
--   makes of them.
-- * Schedule models src/schedule.c, with times in microseconds, and Schedule.Laws has its theorems.
-- * Daemon models the handlers of daemon/core.c: a handler takes the state, and the times that it
--   reads from the clock, to the new state and a list of effects (frames for the devices, timers, a
--   channel). Daemon.Send has data frames of the host, Daemon.Poll the reading from the two devices,
--   Daemon.Timers action frames, the channel and the peers. A pointer in the queue of multicast frames
--   is an index into a heap of buffers. Daemon.Queue, Daemon.Air and Daemon.Unicast have the theorems
--   on single handlers, Daemon.Sent says what a frame of the host becomes on the air, and Daemon.Runs has the steps of the event loop, the states that they reach
--   and what holds in all of them.
-- * Link has two nodes, one of which hears what the other sends: the bytes of a frame of src/tx.c,
--   behind another radiotap header, go to awdl_rx. Link.View says what bytes a buffer holds while
--   headers are stripped from it, Link.Receive has the two headers in front, Link.Ethernet, Link.Data
--   and Link.Delivery data frames from daemon to daemon, and Link.Tlvs, Link.Passes, Link.Handlers,
--   Link.Body, Link.Action and Link.Beacon action frames, to the peer table and the clock; Link.Clocks
--   is about the two clocks afterwards.
-- * Devices models daemon/netutils.c, daemon/io.c, awdl_init of daemon/core.c and daemon/owl.c, as built
--   for Linux: each function takes the history of the calls to libnl, libpcap and the kernel, with
--   their results, to a longer one, and what a call answers is a parameter. Devices has the calls,
--   Devices.Netlink the sockets and messages for the wireless driver, Devices.Band the frequencies that
--   the driver lists, Devices.Routes neighbours and links, Devices.Address the IPv6 address of a
--   neighbour, Devices.Io the two devices, and Devices.Start the options and the way to the event loop.
--   Devices.Held says which objects are held after some calls, and Devices.Messages, Devices.Neighbours
--   and Devices.Sockets are about that; Devices.Available, Devices.Errors and Devices.Loop are about
--   the frequencies, the errors and the start.
-- * The modules named Tests or DataTests run the definitions on small inputs.
--
-- Fuel: the loops over the TLVs and over the subframes of a frame have one more than the length of
-- the frame, of which each round takes at least a byte; the walk that removes peers has one more than
-- the number of slots, of which each round passes one; and hashmap_put, which calls itself through
-- hashmap_rehash, has one more than the number of slots that there is memory for, since each round
-- makes the table larger. Fewer than 2^31 slots are ever granted, since their number is an int. The other loops run over lists or a fixed number of rounds.
--
-- A parameter stands for what the files above only call: the callback for TLVs, the checksum of a
-- frame, the keyed hash, the sizes that calloc grants (a bound on them is a hypothesis, as memory is
-- finite), the clock of the system, ETHER_MAX_LEN, what malloc returns, and the radiotap library: its
-- iterator, its masks, and its number for the rate. What the host device has to read is a list. What
-- libnl, libpcap and the kernel answer is a function of the calls before, and what an uninitialised
-- variable holds is an argument.
--
-- Not modelled: the timers that awdl_schedule sets up, logging, becoming a daemon, what is built for
-- macOS, and the copies of other projects (src/siphash24.c, src/crc32.c). A write to a device is not
-- seen to fail. The array of 16 buffers that awdl_receive_frame passes to awdl_rx is a list without a
-- bound. The allocations of src/wire.c and src/circular_buffer.c, and those of src/hashmap.c but for
-- hashmap_rehash, are taken to succeed.
pub mod Base
pub mod Channel
pub mod Sync
pub mod Ring
pub mod Election
pub mod Hashmap
pub mod Peers
pub mod Version
pub mod State
pub mod Rx
pub mod Wire
pub mod Tx
pub mod Schedule
pub mod Daemon
pub mod Link
pub mod Devices
