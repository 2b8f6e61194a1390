-- ===== src/Flavors/Zero/Alone.antt =====
-- A call of src/flavors/zero.rs that blocks and with which no other thread pairs up.
use crossbeam_channel.Common.{
  ℕ, suc, ◌≤◌, ◌≡◌, refl, arith, false, List, [], none, some, assign, err, map, length,
}
use crossbeam_channel.Context.{Contexts, with_context, hook}
use crossbeam_channel.Waker
use crossbeam_channel.Waker.{Waker}
use crossbeam_channel.Common.Word.{wrapping_add}
use crossbeam_channel.Waker.Queue.{Absent, unregister-register}
use crossbeam_channel.Waker.Wake.{NoneReady, wake_first-NoneReady}
use crossbeam_channel.Flavors.Blocking.Quiet.{AllPast, quiet, given_up, wait_until-quiet}
use crossbeam_channel.Err.{SendTimeoutError, RecvTimeoutError}
use crossbeam_channel.Flavors.Zero.Packets.{
  Channel, put, allocate, take_msg, free, empty_on_stack, message_on_stack,
}
use crossbeam_channel.Flavors.Zero.Chan.{with_senders, with_receivers, enqueue_send, enqueue_recv}
use crossbeam_channel.Flavors.Zero.Blocking.{
  Wait, send, recv, block_send, block_recv, withdraw_send, withdraw_recv,
}
use crossbeam_channel.Flavors.Zero.Owned.{Inv}
use crossbeam_channel.Flavors.Zero.Meet.{dropped, SameQueues, sending, receiving}

-- The waker of a thread that has registered and has taken its entry off again.
abbrev recounted : Waker → Waker
recounted w = record w { register_count = wrapping_add w.register_count 1 }

module _ {A : Type 0} where
  abbrev pub nobody : List ℕ → Wait A
  nobody clock = record { meanwhile = λ c cxs. (c, cxs); waits = map quiet clock; readies = [] }

  -- The channel from which the call has taken its entry and its packet.
  abbrev pub left_send : A → Channel A → Channel A
  left_send msg c = dropped c.fresh (
      put c.fresh (record (message_on_stack msg) { msg = none })
        (with_senders (allocate (message_on_stack msg) c).1 (recounted c.senders)))

  abbrev pub left_recv : Channel A → Channel A
  left_recv c =
      dropped c.fresh (with_receivers (allocate empty_on_stack c).1 (recounted c.receivers))

  pub withdraw_send-sending :
      (oper cx : ℕ) (msg : A) (c : Channel A)
      → Absent oper c.senders.entries
      → withdraw_send oper c.fresh (sending oper cx msg c) ≡ some (msg, left_send msg c)
  unfolding withdraw_send enqueue_send take_msg free assign
  withdraw_send-sending oper cx msg c a =
      ground (arith, unregister-register oper c.fresh cx c.senders a)

  pub withdraw_recv-receiving :
      (oper cx : ℕ) (c : Channel A)
      → Absent oper c.receivers.entries
      → withdraw_recv oper c.fresh (receiving oper cx c) ≡ some (left_recv c)
  unfolding withdraw_recv enqueue_recv free assign
  withdraw_recv-receiving oper cx c a =
      ground (arith, unregister-register oper c.fresh cx c.receivers a)

  pub left_send-same : (msg : A) (c : Channel A) → Inv c → SameQueues c (left_send msg c)
  unfolding assign
  left_send-same msg c i = (refl, refl, (λ p. ground (arith, i.later p)), refl)

  pub left_recv-same : (c : Channel A) → Inv c → SameQueues c (left_recv c)
  unfolding assign
  left_recv-same c i = (refl, refl, (λ p. ground (arith, i.later p)), refl)

  -- A `send` that finds no receiver and blocks, in a connected channel whose packets are in order
  -- and in which its operation is not registered, and with which nobody pairs up, returns the
  -- timeout with its message, if the clock shows that its deadline has passed in each of at least
  -- twelve rounds of its wait. Both queues and all packets are as before the call.
  pub send-alone :
      (me n cx d : ℕ) (clock : List ℕ) (msg : A) (c : Channel A) (cxs : Contexts)
      → Inv c
      → c.is_disconnected ≡ false
      → NoneReady me cxs c.receivers.entries
      → Absent (suc (suc (suc n))) c.senders.entries
      → AllPast d clock
      → 12 ≤ length clock
      → (left : Channel A) × (send me (suc (suc (suc n))) cx (some d) msg (nobody clock) c cxs
          ≡ some (err (SendTimeoutError.timeout msg), left, given_up cx (with_context cx cxs)))
        × SameQueues c left
  unfolding send block_send Waker.wake_one hook enqueue_send
  send-alone me n cx d clock msg c cxs i dis a b past l = (
    left_send msg c,
    ground (
      arith,
      wake_first-NoneReady me c.receivers.entries cxs a,
      wait_until-quiet cx d clock cxs past l,
      withdraw_send-sending (suc (suc (suc n))) cx msg c b,
    ),
    left_send-same msg c i,
  )

  -- A `recv` with which nobody pairs up returns the timeout under the same conditions.
  pub recv-alone :
      (me n cx d : ℕ) (clock : List ℕ) (c : Channel A) (cxs : Contexts)
      → Inv c
      → c.is_disconnected ≡ false
      → NoneReady me cxs c.senders.entries
      → Absent (suc (suc (suc n))) c.receivers.entries
      → AllPast d clock
      → 12 ≤ length clock
      → (left : Channel A) × (recv me (suc (suc (suc n))) cx (some d) (nobody clock) c cxs
          ≡ some (err RecvTimeoutError.timeout, left, given_up cx (with_context cx cxs)))
        × SameQueues c left
  unfolding recv block_recv Waker.wake_one hook enqueue_recv
  recv-alone me n cx d clock c cxs i dis a b past l = (
    left_recv c,
    ground (
      arith,
      wake_first-NoneReady me c.senders.entries cxs a,
      wait_until-quiet cx d clock cxs past l,
      withdraw_recv-receiving (suc (suc (suc n))) cx c b,
    ),
    left_recv-same c i,
  )
