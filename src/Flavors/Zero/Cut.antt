-- ===== src/Flavors/Zero/Cut.antt =====
-- A call of src/flavors/zero.rs that blocks while another thread disconnects the channel.
use crossbeam_channel.Common.{ℕ, suc, ◌≡◌, arith, true, false, Option, some, err}
use crossbeam_channel.Context.{Contexts, with_context, hook, reset, update}
use crossbeam_channel.Waker
use crossbeam_channel.Waker.Queue.{Absent, entry}
use crossbeam_channel.Waker.Wake.{NoneReady, wake_first-NoneReady, disconnect_lem, listed-last}
use crossbeam_channel.Flavors.Blocking.Quiet.{wait_until-cut}
use crossbeam_channel.Err.{SendTimeoutError, RecvTimeoutError}
use crossbeam_channel.Flavors.Zero.Packets.{Channel}
use crossbeam_channel.Flavors.Zero.Chan.{enqueue_send, enqueue_recv}
use crossbeam_channel.Flavors.Zero.Calls.{disconnect}
use crossbeam_channel.Flavors.Zero.Blocking.{send, recv, block_send, block_recv}
use crossbeam_channel.Flavors.Zero.Owned.{Inv}
use crossbeam_channel.Flavors.Zero.Meet.{SameQueues, sending, receiving, still, partner}
use crossbeam_channel.Flavors.Zero.Alone.{
  left_send, left_recv, withdraw_send-sending, withdraw_recv-receiving, left_send-same,
  left_recv-same,
}

module _ {A : Type 0} where
  abbrev pub cut : Channel A → Channel A
  cut c = record c { is_disconnected = true }

  cut-Inv : (c : Channel A) → Inv c → Inv (cut c)
  cut-Inv c i = record {
    once = i.once;
    offers = i.offers;
    awaits = i.awaits;
    later = i.later;
    null = i.null;
    start = i.start;
  }

  disconnect-sending :
      (address cx : ℕ) (msg : A) (c : Channel A) (cxs : Contexts)
      → c.is_disconnected ≡ false
      → let (c', cxs') = disconnect (sending address cx msg c) (with_context cx cxs) in
        (c' ≡ sending address cx msg (cut c)) × ((cxs' cx).select ≡ 2)
  unfolding disconnect enqueue_send Waker.register_with_packet with_context reset update
  disconnect-sending address cx msg c cxs d =
      let w = Waker.register_with_packet address c.fresh cx c.senders in
      let first = disconnect_lem w (with_context cx cxs) cx in
      let second = disconnect_lem c.receivers (Waker.disconnect w (with_context cx cxs)) cx in
      (
        ground arith,
        ground (arith, first, second, listed-last c.senders.entries (entry address c.fresh cx)),
      )

  disconnect-receiving :
      (address cx : ℕ) (c : Channel A) (cxs : Contexts)
      → c.is_disconnected ≡ false
      → let (c', cxs') = disconnect (receiving address cx c) (with_context cx cxs) in
        (c' ≡ receiving address cx (cut c)) × ((cxs' cx).select ≡ 2)
  unfolding disconnect enqueue_recv Waker.register_with_packet with_context reset update
  disconnect-receiving address cx c cxs d =
      let w = Waker.register_with_packet address c.fresh cx c.receivers in
      let first = disconnect_lem c.senders (with_context cx cxs) cx in
      let second = disconnect_lem w (Waker.disconnect c.senders (with_context cx cxs)) cx in
      (
        ground arith,
        ground (arith, first, second, listed-last c.receivers.entries (entry address c.fresh cx)),
      )

  -- Another thread disconnects the channel.
  abbrev pub cuts : Channel A → Contexts → Option (Unit {0} × Channel A × Contexts)
  cuts c cxs = let (c', cxs') = disconnect c cxs in some (tt, c', cxs')

  -- A `send` that finds no receiver and blocks, in a connected channel whose packets are in order
  -- and in which its operation is not registered, while another thread disconnects that channel
  -- once `send` has joined its queue, returns its message as disconnected, whatever its deadline. Both queues and all packets are
  -- as before the call.
  pub send-cut :
      (me n cx : ℕ) (deadline : Option ℕ) (msg : A) (c : Channel A) (cxs : Contexts)
      → Inv c
      → c.is_disconnected ≡ false
      → NoneReady me cxs c.receivers.entries
      → Absent (suc (suc (suc n))) c.senders.entries
      → let (c', cxs') = disconnect (sending (suc (suc (suc n))) cx msg c) (with_context cx cxs) in
        (left : Channel A) × (send me (suc (suc (suc n))) cx deadline msg (partner cuts) c cxs
          ≡ some (err (SendTimeoutError.disconnected msg), left, cxs'))
        × SameQueues (cut c) left
  unfolding send block_send Waker.wake_one hook
  send-cut me n cx deadline msg c cxs i d a b =
      let address = suc (suc (suc n)) in
      let (c', cxs') = disconnect (sending address cx msg c) (with_context cx cxs) in
      let (chan, settled) = disconnect-sending address cx msg c cxs d in
      (
        left_send msg (cut c),
        ground (
          arith,
          chan,
          wake_first-NoneReady me c.receivers.entries cxs a,
          wait_until-cut cx deadline still cxs' settled,
          withdraw_send-sending address cx msg (cut c) b,
        ),
        left_send-same msg (cut c) (cut-Inv c i),
      )

  -- A `recv` that blocks meanwhile returns disconnected.
  pub recv-cut :
      (me n cx : ℕ) (deadline : Option ℕ) (c : Channel A) (cxs : Contexts)
      → Inv c
      → c.is_disconnected ≡ false
      → NoneReady me cxs c.senders.entries
      → Absent (suc (suc (suc n))) c.receivers.entries
      → let (c', cxs') = disconnect (receiving (suc (suc (suc n))) cx c) (with_context cx cxs) in
        (left : Channel A) × (recv me (suc (suc (suc n))) cx deadline (partner cuts) c cxs
          ≡ some (err RecvTimeoutError.disconnected, left, cxs'))
        × SameQueues (cut c) left
  unfolding recv block_recv Waker.wake_one hook
  recv-cut me n cx deadline c cxs i d a b =
      let address = suc (suc (suc n)) in
      let (c', cxs') = disconnect (receiving address cx c) (with_context cx cxs) in
      let (chan, settled) = disconnect-receiving address cx c cxs d in
      (
        left_recv (cut c),
        ground (
          arith,
          chan,
          wake_first-NoneReady me c.senders.entries cxs a,
          wait_until-cut cx deadline still cxs' settled,
          withdraw_recv-receiving address cx (cut c) b,
        ),
        left_recv-same (cut c) (cut-Inv c i),
      )
