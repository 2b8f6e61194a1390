-- ===== src/Flavors/Zero/Handles.antt =====
-- The selection handles `Receiver` and `Sender` of src/flavors/zero.rs.
use crossbeam_channel.Common.{ℕ, Bool, true, not, ◌&&◌, List, Option, none, some}
use crossbeam_channel.Context.{Contexts}
use crossbeam_channel.Context.Wait.{wait_packet}
use crossbeam_channel.Waker
use crossbeam_channel.Flavors.Zero.Packets.{Channel, empty_on_heap, free}
use crossbeam_channel.Flavors.Zero.Chan.{
  Pause, with_senders, with_receivers, enqueue_send, enqueue_recv, start_send, start_recv,
}

-- `accept` of both handles.
unfoldable pub accept : ℕ → List (Contexts → Contexts) → Contexts → Option (Bool × ℕ × Contexts)
accept cx loads cxs = elim (wait_packet cx loads cxs) [
  | none ↦ none
  | some (packet, after) ↦ some (true, packet, after)
]

module _ {A : Type 0} where
  abbrev pub recv_try : ℕ → ℕ → Channel A → Contexts → Option (Bool × ℕ × Channel A × Contexts)
  recv_try me token c cxs = start_recv me token none c cxs

  abbrev pub recv_retry :
      ℕ → ℕ → Pause A → Channel A → Contexts → Option (Bool × ℕ × Channel A × Contexts)
  recv_retry me token p c cxs = start_recv me token (some p) c cxs

  unfoldable pub recv_register : ℕ → ℕ → ℕ → Channel A → Contexts → Bool × Channel A
  recv_register me oper cx c cxs =
      let (packet, c') = enqueue_recv oper cx empty_on_heap c in
      (not (Waker.can_wake_one me c'.senders cxs) && not c'.is_disconnected, c')

  -- None: the packet of the entry is not there.
  unfoldable pub recv_unregister : ℕ → Channel A → Option (Channel A)
  recv_unregister oper c =
      let (found, w) = Waker.unregister oper c.receivers in
      elim found [ none ↦ some (with_receivers c w) | some e ↦ free e.packet (with_receivers c w) ]

  unfoldable pub recv_state : Channel A → ℕ
  recv_state c = c.senders.register_count

  abbrev pub send_try : ℕ → ℕ → Channel A → Contexts → Option (Bool × ℕ × Channel A × Contexts)
  send_try me token c cxs = start_send me token none c cxs

  abbrev pub send_retry :
      ℕ → ℕ → Pause A → Channel A → Contexts → Option (Bool × ℕ × Channel A × Contexts)
  send_retry me token p c cxs = start_send me token (some p) c cxs

  unfoldable pub send_register : ℕ → ℕ → ℕ → Channel A → Contexts → Bool × Channel A
  send_register me oper cx c cxs =
      let (packet, c') = enqueue_send oper cx empty_on_heap c in
      (not (Waker.can_wake_one me c'.receivers cxs) && not c'.is_disconnected, c')

  unfoldable pub send_unregister : ℕ → Channel A → Option (Channel A)
  send_unregister oper c =
      let (found, w) = Waker.unregister oper c.senders in
      elim found [ none ↦ some (with_senders c w) | some e ↦ free e.packet (with_senders c w) ]

  unfoldable pub send_state : Channel A → ℕ
  send_state c = c.receivers.register_count
