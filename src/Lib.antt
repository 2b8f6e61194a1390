-- ===== src/Lib.antt =====
-- The channels of crossbeam-channel: multi-producer multi-consumer queues, bounded and unbounded, and
-- channels that deliver by the clock.
--
-- A channel is one of six flavors. Two of them queue messages: the array flavor in a ring of slots,
-- the list flavor in a linked list of blocks of 32 slots. A thread sends in two steps, as it receives:
-- it claims a slot by moving the tail (or the head) with a compare-and-exchange, and then writes (or
-- reads) the message in the slot and marks the slot for the next user. A thread that finds nothing to
-- do registers a context with the channel's waker and parks; the other side selects an operation of the
-- context and unparks the thread. The zero flavor holds no messages: a sender and a receiver meet, and
-- the message passes through a packet that one of them has put on its stack or on the heap. `Sender`
-- and `Receiver` hide the flavor and count their clones; the last of either side disconnects the
-- channel. `Select` tries, retries and registers several handles at once and blocks until one of
-- their operations is selected.
--
-- Which file models what (paths from the repository's root):
--   Common: natural numbers, lists, results, words of 64 bits, masks.
--   Queue: what a channel promises, a queue with or without a capacity that can be disconnected;
--     Queue/Runs: the interface that a channel fills to be such a queue, for any number of calls.
--   Err: the errors of src/err.rs; Err/Texts: their texts.
--   Backoff, Clock, Shuffle: `Backoff`, `sleep_until` and `shuffle` of src/utils.rs.
--   Context: src/context.rs, with `Selected` of src/select.rs; Context/Wait: `wait_until` and `wait_packet`.
--   Waker: `Waker` of src/waker.rs; Waker/Sync: `SyncWaker`.
--   Flavors/Array: src/flavors/array.rs. Stamp has the arithmetic of stamps, Chan the state and the
--     operations that move messages, Query the queries, `disconnect` and `drop`, Receiver and Sender
--     the handles for select. Position, Holds, Facts, Send, Recv, Init, QueryLaws and Refine follow
--     one operation after the other; Threads lets the steps of any threads interleave. Blocking has
--     `send` and `recv` that wait.
--   Flavors/Blocking: what the calls that wait have in common.
--   Flavors/List: src/flavors/list.rs, in the same way, with Calls for the calls that do not block and
--     Cells, Holds, Push for what the blocks hold.
--   Flavors/After, Flavors/Tick, Flavors/Never: src/flavors/after.rs, tick.rs, never.rs.
--   Flavors/Zero: src/flavors/zero.rs. Packets has the packets in their store, Chan what starts an
--     operation and its short pause, Calls the calls that do not block, Blocking those that do, Handles
--     the handles for select. Owned and Safe say which packets the queues own; Deliver, Collect, Meet,
--     Alone and Cut follow the calls.
--   Channel: src/channel.rs, with Senders and Receivers for the methods of the two handles, SenderHandle
--     and ReceiverHandle for their part in select. Thread and Fire are what a call is given. Pipe is
--     what the handles promise, Actions, Refine, Rows and Queues that a flavor with a queue keeps it,
--     Drain the loop over `try_iter`.
--   Select: src/select.rs. Ready has the loops of `run_select` that do not block, Block the closure in
--     which it blocks, Run the whole, Builder `Select` and `SelectedOperation` on the handles of
--     Channel. Order, Fired and Chosen follow what is returned, Answers the form that does not block,
--     Parked, Woken and Alone the one that does.
--   Tests: runs on concrete inputs.
--
-- How the code is rendered:
--   A `usize` has 64 bits; its wrapping arithmetic is written out modulo 2 ^ 64. A stamp of the array
--   flavor is `lap * one_lap + index`, with one_lap a power of two and masks as in the source.
--   Memory that Rust leaves uninitialised, or from which a message was moved, is a slot with no
--   message; reading it gives none, as does a slot outside the buffer, a null pointer, a dangling
--   block, a failed assertion or an unwrap of none. A result that is some value is thus also one
--   without undefined behaviour.
--   The loops of `start_send` and `start_recv` are given a list of rounds, one for each time the
--   compare-and-exchange is tried; `true` is a spurious failure of the weak exchange. `Succeeds` says
--   that some round is not one, and then the loop returns: no other bound is needed. `Backoff` in
--   those loops only passes time.
--   One round (its loads and its exchange) is one step in Flavors/Array/Threads, and so are one write
--   and one read of a slot; memory is sequentially consistent. Under these a load that is stale makes
--   the exchange fail, which is a round that changes nothing. Waking a thread belongs to the step that
--   calls it. A round of `start_recv` is also followed where other threads take steps
--   before its last two looks, in Flavors/Array/Threads/Ends.
--   A call that blocks is given its turns: for each round of its outer loop, what other threads do
--   before each attempt, before it registers and while it waits, and the readings of the clock. The
--   inner loop needs eleven attempts at most, since `Backoff` then says to stop.
--   Contexts are shared: they stand in a map from their names, and every operation that changes one
--   takes and returns the map. `park` is the end of a round of `wait_until`; what other threads do
--   meanwhile is a function of the round. What they do to a channel that a call has joined, and to the
--   contexts, is a function of the channel and the contexts as the call has left them.
--   The clock of a loop around `thread::sleep` moves by the time that the loop asks to sleep for and
--   by how much longer each sleep takes, which is all that is documented of it; a loop that is still
--   asleep when the sleeps it is given are over has no result. Where a loop parks in place of
--   sleeping, its rounds hold the readings of `Instant::now`.
--   Blocks of the list flavor stand on a heap by address, allocated in order; a block that is handed
--   to crossbeam-epoch for destruction is listed as garbage and stays readable, which is what the
--   guards promise.
--
--   Packets of the zero flavor stand in a store by address, on the stack or on the heap, and go away when
--   the call that made them returns or they are freed; each of the loops that wait for a packet is
--   given what other threads do before each of its loads.
--   The pointer that handles share is replaced by the channel it points to, which every method takes
--   and returns. The copy of an `Instant` as a message is a function that the receiver is given.
--   A select handle acts on the state that all channels of the selection share; each of its calls is
--   given what other threads do before it. The address of the reference that stands for an operation
--   is a function of its position among the handles.
--
-- Not modelled: threads that interleave on the list and the zero flavor, the select macro, the
-- derived traits of the errors, the cache of `Context::with`, the capacity of the waker's
-- `VecDeque`, the panic of a `SelectedOperation` that is dropped, the overflow of an `Instant`.
-- crossbeam-epoch, parking_lot, `Arc` and the scheduling of std::thread are other programs or the
-- standard library.
pub mod Backoff
pub mod Channel
pub mod Clock
pub mod Common
pub mod Context
pub mod Err
pub mod Flavors
pub mod Queue
pub mod Select
pub mod Shuffle
pub mod Tests
pub mod Waker
