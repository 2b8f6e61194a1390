-- ===== src/Channel/SenderHandle.antt =====
-- `SelectHandle` for `Sender` of src/channel.rs, and `write`.
use crossbeam_channel.Common.{ℕ, Bool, Result, Option, none, some}
use crossbeam_channel.Context.{Contexts}
use crossbeam_channel.Flavors
use crossbeam_channel.Channel.{Channel, array, list, zero, with_flavor}
use crossbeam_channel.Channel.Thread.{Thread}
use crossbeam_channel.Select.{Token}
use crossbeam_channel.Channel.Fire.{Fire, from_array, from_list, from_zero, from_accept}
use crossbeam_channel.Channel.Senders.{in_flavor}

module _ {A : Type 0} where
  unfoldable pub try :
      Fire A → Token → Channel A → Contexts → Option (Bool × Token × Channel A × Contexts)
  try f token c cxs = elim c.flavor [
    | array chan ↦
        from_array token c cxs (Flavors.Array.Sender.try f.thread.rounds token.array chan)
    | list chan ↦ from_list token c cxs (Flavors.List.Sender.try f.thread.rounds token.list chan)
    | zero chan ↦ from_zero token c (Flavors.Zero.Handles.send_try f.thread.me token.zero chan cxs)
  ]

  unfoldable pub retry :
      Fire A → Token → Channel A → Contexts → Option (Bool × Token × Channel A × Contexts)
  retry f token c cxs = elim c.flavor [
    | array chan ↦
        from_array token c cxs (Flavors.Array.Sender.try f.thread.rounds token.array chan)
    | list chan ↦ from_list token c cxs (Flavors.List.Sender.try f.thread.rounds token.list chan)
    | zero chan ↦
        from_zero token c (Flavors.Zero.Handles.send_retry f.thread.me token.zero f.pause chan cxs)
  ]

  unfoldable pub deadline : Channel A → Option ℕ
  deadline c = none

  unfoldable pub register : Fire A → ℕ → ℕ → Channel A → Contexts → Bool × Channel A
  register f oper cx c cxs = elim c.flavor [
    | array chan ↦
        let (b, chan') = Flavors.Array.Sender.register oper cx chan in
        (b, with_flavor c (array chan'))
    | list chan ↦ (Flavors.List.Sender.register chan, c)
    | zero chan ↦
        let (b, chan') = Flavors.Zero.Handles.send_register f.thread.me oper cx chan cxs in
        (b, with_flavor c (zero chan'))
  ]

  unfoldable pub unregister : ℕ → Channel A → Option (Channel A)
  unregister oper c = elim c.flavor [
    | array chan ↦ some (with_flavor c (array (Flavors.Array.Sender.unregister oper chan)))
    | list chan ↦ some c
    | zero chan ↦ elim (Flavors.Zero.Handles.send_unregister oper chan) [
      | none ↦ none
      | some chan' ↦ some (with_flavor c (zero chan'))
    ]
  ]

  unfoldable pub accept :
      Fire A → Token → ℕ → Channel A → Contexts → Option (Bool × Token × Channel A × Contexts)
  accept f token cx c cxs = elim c.flavor [
    | array chan ↦
        from_array token c cxs (Flavors.Array.Sender.try f.thread.rounds token.array chan)
    | list chan ↦ from_list token c cxs (Flavors.List.Sender.try f.thread.rounds token.list chan)
    | zero chan ↦ from_accept token c (Flavors.Zero.Handles.accept cx f.loads cxs)
  ]

  unfoldable pub state : Channel A → ℕ
  state c = elim c.flavor [
    | array chan ↦ Flavors.Array.Sender.state chan
    | list chan ↦ Flavors.List.Sender.state chan
    | zero chan ↦ Flavors.Zero.Handles.send_state chan
  ]

  unfoldable pub write :
      Thread A
      → Token
      → A
      → Channel A
      → Contexts
      → Option (Result (Unit {0}) A × Channel A × Contexts)
  write t token msg c cxs = elim c.flavor [
    | array chan ↦
        let (res, chan', cxs') = Flavors.Array.Chan.write t.me token.array msg chan cxs in
        some (res, with_flavor c (array chan'), cxs')
    | list chan ↦ in_flavor list c (Flavors.List.Chan.write t.me token.list msg chan cxs)
    | zero chan ↦ elim (Flavors.Zero.Packets.write token.zero msg chan) [
      | none ↦ none
      | some (res, chan') ↦ some (res, with_flavor c (zero chan'), cxs)
    ]
  ]
