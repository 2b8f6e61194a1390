-- ===== src/Flavors/Zero/Blocking.antt =====
-- `send` and `recv` of src/flavors/zero.rs, which block until another thread pairs up with them.
use crossbeam_channel.Common.{ℕ, if◌then◌else◌, Result, ok, err, map_err, List, Option, none, some}
use crossbeam_channel.Context.{
  waiting, aborted, disconnected, operation, Contexts, hook, with_context,
}
use crossbeam_channel.Context.Wait.{Round, wait_until}
use crossbeam_channel.Waker
use crossbeam_channel.Err.{SendTimeoutError, RecvTimeoutError}
use crossbeam_channel.Flavors.Zero.Packets.{
  Channel, empty_on_stack, message_on_stack, free, take_msg, wait_ready, read,
}
use crossbeam_channel.Flavors.Zero.Chan.{with_senders, with_receivers, enqueue_send, enqueue_recv}
use crossbeam_channel.Flavors.Zero.Calls.{write_unwrap}

-- What other threads do while the call blocks: to the channel that it has joined and to the contexts,
-- then to the contexts in the rounds of the wait, which do not look at the channel, and before
-- each load of the flag of its packet.
pub record Wait (A : Type 0) : Type 0 where
  pub meanwhile : Channel A → Contexts → Channel A × Contexts
  pub waits : List Round
  pub readies : List (Channel A → Channel A)

module _ {A : Type 0} where
  -- `senders.unregister(oper).unwrap()`, then the message that is taken back. The packet is on the
  -- stack and goes away with the call.
  unfoldable pub withdraw_send : ℕ → ℕ → Channel A → Option (A × Channel A)
  unfolding take_msg free
  withdraw_send oper packet c =
      let (found, w) = Waker.unregister oper c.senders in
      elim found [
        | none ↦ none
        | some e ↦ elim (take_msg packet (with_senders c w)) [
          | none ↦ none
          | some (msg, c') ↦ elim (free packet c') [ none ↦ none | some left ↦ some (msg, left) ]
        ]
      ]

  unfoldable pub withdraw_recv : ℕ → ℕ → Channel A → Option (Channel A)
  unfolding free
  withdraw_recv oper packet c =
      let (found, w) = Waker.unregister oper c.receivers in
      elim found [ none ↦ none | some e ↦ free packet (with_receivers c w) ]

  -- `wait_ready`, after which the packet is dropped.
  unfoldable pub finish_send : ℕ → List (Channel A → Channel A) → Channel A → Option (Channel A)
  unfolding wait_ready free
  finish_send packet readies c = elim (wait_ready packet readies c) [
    | none ↦ none
    | some c' ↦ free packet c'
  ]

  -- `wait_ready`, then the message that has been provided.
  unfoldable pub finish_recv : ℕ → List (Channel A → Channel A) → Channel A → Option (A × Channel A)
  unfolding wait_ready take_msg free
  finish_recv packet readies c = elim (wait_ready packet readies c) [
    | none ↦ none
    | some c' ↦ elim (take_msg packet c') [
      | none ↦ none
      | some (msg, c'') ↦ elim (free packet c'') [ none ↦ none | some left ↦ some (msg, left) ]
    ]
  ]

  -- The closure that `send` gives to `Context::with`; `address` is that of the token.
  unfoldable pub block_send :
      ℕ
      → ℕ
      → Option ℕ
      → A
      → Wait A
      → Channel A
      → Contexts
      → Option (Result (Unit {0}) (SendTimeoutError A) × Channel A × Contexts)
  unfolding enqueue_send withdraw_send finish_send
  block_send address cx deadline msg t c cxs = elim (hook address) [
    | none ↦ none
    | some oper ↦
        let (packet, here) = enqueue_send oper cx (message_on_stack msg) c in
        let (there, cxs1) = t.meanwhile here (with_context cx cxs) in
        elim (wait_until cx deadline t.waits cxs1) [
          | none ↦ none
          | some (waiting, after) ↦ none
          | some (aborted, after) ↦ elim (withdraw_send oper packet there) [
            | none ↦ none
            | some (back, left) ↦ some (err (SendTimeoutError.timeout back), left, after)
          ]
          | some (disconnected, after) ↦ elim (withdraw_send oper packet there) [
            | none ↦ none
            | some (back, left) ↦ some (err (SendTimeoutError.disconnected back), left, after)
          ]
          | some (operation val, after) ↦ elim (finish_send packet t.readies there) [
            | none ↦ none
            | some left ↦ some (ok tt, left, after)
          ]
        ]
  ]

  unfoldable pub send :
      ℕ
      → ℕ
      → ℕ
      → Option ℕ
      → A
      → Wait A
      → Channel A
      → Contexts
      → Option (Result (Unit {0}) (SendTimeoutError A) × Channel A × Contexts)
  unfolding block_send
  send me address cx deadline msg t c cxs =
      let (found, w, cxs') = Waker.wake_one me c.receivers cxs in
      let c' = with_receivers c w in
      elim found [
        | some e ↦ elim (write_unwrap e.packet msg c') [
          | none ↦ none
          | some c'' ↦ some (ok tt, c'', cxs')
        ]
        | none ↦
            if c'.is_disconnected
            then some (err (SendTimeoutError.disconnected msg), c', cxs')
            else block_send address cx deadline msg t c' cxs'
      ]

  -- The closure that `recv` gives to `Context::with`.
  unfoldable pub block_recv :
      ℕ
      → ℕ
      → Option ℕ
      → Wait A
      → Channel A
      → Contexts
      → Option (Result A RecvTimeoutError × Channel A × Contexts)
  unfolding enqueue_recv withdraw_recv finish_recv
  block_recv address cx deadline t c cxs = elim (hook address) [
    | none ↦ none
    | some oper ↦
        let (packet, here) = enqueue_recv oper cx empty_on_stack c in
        let (there, cxs1) = t.meanwhile here (with_context cx cxs) in
        elim (wait_until cx deadline t.waits cxs1) [
          | none ↦ none
          | some (waiting, after) ↦ none
          | some (aborted, after) ↦ elim (withdraw_recv oper packet there) [
            | none ↦ none
            | some left ↦ some (err RecvTimeoutError.timeout, left, after)
          ]
          | some (disconnected, after) ↦ elim (withdraw_recv oper packet there) [
            | none ↦ none
            | some left ↦ some (err RecvTimeoutError.disconnected, left, after)
          ]
          | some (operation val, after) ↦ elim (finish_recv packet t.readies there) [
            | none ↦ none
            | some (msg, left) ↦ some (ok msg, left, after)
          ]
        ]
  ]

  unfoldable pub recv :
      ℕ
      → ℕ
      → ℕ
      → Option ℕ
      → Wait A
      → Channel A
      → Contexts
      → Option (Result A RecvTimeoutError × Channel A × Contexts)
  unfolding block_recv read
  recv me address cx deadline t c cxs =
      let (found, w, cxs') = Waker.wake_one me c.senders cxs in
      let c' = with_senders c w in
      elim found [
        | some e ↦ elim (read e.packet t.readies c') [
          | none ↦ none
          | some (res, c'') ↦ some (map_err (λ _. RecvTimeoutError.disconnected) res, c'', cxs')
        ]
        | none ↦
            if c'.is_disconnected
            then some (err RecvTimeoutError.disconnected, c', cxs')
            else block_recv address cx deadline t c' cxs'
      ]
