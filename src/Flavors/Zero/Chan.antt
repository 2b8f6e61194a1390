-- ===== src/Flavors/Zero/Chan.antt =====
-- `start_send` and `start_recv` of src/flavors/zero.rs, which reserve the packet of an operation.
-- Other threads act when this one yields, before it locks the channel again, and before each load of
-- the packet that it waits for.
use crossbeam_channel.Common.{ℕ, Bool, true, false, if◌then◌else◌, List, Option, none, some}
use crossbeam_channel.Context.{
  waiting, aborted, disconnected, operation, Contexts, hook, with_context,
}
use crossbeam_channel.Context.Wait.{give_up, wait_packet}
use crossbeam_channel.Waker
use crossbeam_channel.Waker.{Entry, Waker}
use crossbeam_channel.Flavors.Zero.Packets.{Packet, Channel, empty_on_heap, allocate, free}

-- The short pause of the thread whose context is `cx`; `address` is that of the token.
pub record Pause (A : Type 0) : Type 0 where
  pub address : ℕ
  pub cx : ℕ
  pub yields : Channel A → Contexts → Channel A × Contexts
  pub locks : Channel A → Contexts → Channel A × Contexts
  pub loads : List (Contexts → Contexts)

module _ {A : Type 0} where
  abbrev pub with_senders : Channel A → Waker → Channel A
  with_senders c w = record c { senders = w }

  abbrev pub with_receivers : Channel A → Waker → Channel A
  with_receivers c w = record c { receivers = w }

  -- Unregisters a send operation and destroys its packet. None: the unwrap panics.
  unfoldable pub destroy_send : ℕ → Channel A → Option (Channel A)
  unfolding free
  destroy_send oper c =
      let (found, w) = Waker.unregister oper c.senders in
      elim found [ none ↦ none | some e ↦ free e.packet (with_senders c w) ]

  unfoldable pub destroy_recv : ℕ → Channel A → Option (Channel A)
  unfolding free
  destroy_recv oper c =
      let (found, w) = Waker.unregister oper c.receivers in
      elim found [ none ↦ none | some e ↦ free e.packet (with_receivers c w) ]

  -- What the closure of `start_send` does before the thread yields.
  unfoldable pub enqueue_send : ℕ → ℕ → Packet A → Channel A → ℕ × Channel A
  enqueue_send oper cx p c =
      let (packet, c') = allocate p c in
      (packet, with_senders c' (Waker.register_with_packet oper packet cx c'.senders))

  unfoldable pub enqueue_recv : ℕ → ℕ → Packet A → Channel A → ℕ × Channel A
  enqueue_recv oper cx p c =
      let (packet, c') = allocate p c in
      (packet, with_receivers c' (Waker.register_with_packet oper packet cx c'.receivers))

  -- The closure that `start_send` gives to `Context::with`. None: a panic, or the packet is not there
  -- when the loads are over.
  unfoldable pub pause_send :
      ℕ → Pause A → Channel A → Contexts → Option (Bool × ℕ × Channel A × Contexts)
  unfolding enqueue_send destroy_send
  pause_send token p c cxs = elim (hook p.address) [
    | none ↦ none
    | some oper ↦
        let (packet, here) = enqueue_send oper p.cx empty_on_heap c in
        let (c', cxs') = p.yields here (with_context p.cx cxs) in
        let (sel, tried) = give_up p.cx cxs' in
        let (c'', cxs'') = p.locks c' tried in
        elim sel [
          | waiting ↦ none
          | disconnected ↦ elim (destroy_send oper c'') [
            | none ↦ none
            | some left ↦ some (true, 0, left, cxs'')
          ]
          | aborted ↦ elim (destroy_send oper c'') [
            | none ↦ none
            | some left ↦ some (false, token, left, cxs'')
          ]
          | operation val ↦ elim (wait_packet p.cx p.loads cxs'') [
            | none ↦ none
            | some (found, after) ↦ some (true, found, c'', after)
          ]
        ]
  ]

  unfoldable pub pause_recv :
      ℕ → Pause A → Channel A → Contexts → Option (Bool × ℕ × Channel A × Contexts)
  unfolding enqueue_recv destroy_recv
  pause_recv token p c cxs = elim (hook p.address) [
    | none ↦ none
    | some oper ↦
        let (packet, here) = enqueue_recv oper p.cx empty_on_heap c in
        let (c', cxs') = p.yields here (with_context p.cx cxs) in
        let (sel, tried) = give_up p.cx cxs' in
        let (c'', cxs'') = p.locks c' tried in
        elim sel [
          | waiting ↦ none
          | aborted ↦ elim (destroy_recv oper c'') [
            | none ↦ none
            | some left ↦ some (false, token, left, cxs'')
          ]
          | disconnected ↦ elim (destroy_recv oper c'') [
            | none ↦ none
            | some left ↦ some (true, 0, left, cxs'')
          ]
          | operation val ↦ elim (wait_packet p.cx p.loads cxs'') [
            | none ↦ none
            | some (found, after) ↦ some (true, found, c'', after)
          ]
        ]
  ]

  -- With no short pause there is no `Pause`.
  unfoldable pub start_send :
      ℕ → ℕ → Option (Pause A) → Channel A → Contexts → Option (Bool × ℕ × Channel A × Contexts)
  unfolding pause_send
  start_send me token short_pause c cxs =
      let (found, w, cxs') = Waker.wake_one me c.receivers cxs in
      let c' = with_receivers c w in
      elim found [
        | some e ↦ some (true, e.packet, c', cxs')
        | none ↦ if c'.is_disconnected then some (true, 0, c', cxs') else elim short_pause [
          | none ↦ some (false, token, c', cxs')
          | some p ↦ pause_send token p c' cxs'
        ]
      ]

  unfoldable pub start_recv :
      ℕ → ℕ → Option (Pause A) → Channel A → Contexts → Option (Bool × ℕ × Channel A × Contexts)
  unfolding pause_recv
  start_recv me token short_pause c cxs =
      let (found, w, cxs') = Waker.wake_one me c.senders cxs in
      let c' = with_senders c w in
      elim found [
        | some e ↦ some (true, e.packet, c', cxs')
        | none ↦ if c'.is_disconnected then some (true, 0, c', cxs') else elim short_pause [
          | none ↦ some (false, token, c', cxs')
          | some p ↦ pause_recv token p c' cxs'
        ]
      ]
