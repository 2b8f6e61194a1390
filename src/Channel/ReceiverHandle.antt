-- ===== src/Channel/ReceiverHandle.antt =====
-- `SelectHandle` for `Receiver` of src/channel.rs, and `read`.
use crossbeam_channel.Common.{ℕ, Bool, true, false, Result, Option, none, some}
use crossbeam_channel.Context.{Contexts}
use crossbeam_channel.Flavors
use crossbeam_channel.Channel.{
  Channel, array, list, zero, ReceiverFlavor, channel, after, tick, never, with_flavor,
}
use crossbeam_channel.Channel.Thread.{Thread}
use crossbeam_channel.Select.{Token}
use crossbeam_channel.Channel.Fire.{Fire, from_array, from_list, from_zero, from_accept}
use crossbeam_channel.Channel.Senders.{in_flavor}
use crossbeam_channel.Channel.Receivers.{in_channel, apart, map_ok}

module _ {A : Type 0} where
  unfoldable pub channel_try :
      Fire A → Token → Channel A → Contexts → Option (Bool × Token × Channel A × Contexts)
  channel_try f token c cxs = elim c.flavor [
    | array chan ↦
        from_array token c cxs (Flavors.Array.Receiver.try f.thread.rounds token.array chan)
    | list chan ↦ from_list token c cxs (Flavors.List.Receiver.try f.thread.rounds token.list chan)
    | zero chan ↦ from_zero token c (Flavors.Zero.Handles.recv_try f.thread.me token.zero chan cxs)
  ]

  unfoldable pub channel_retry :
      Fire A → Token → Channel A → Contexts → Option (Bool × Token × Channel A × Contexts)
  channel_retry f token c cxs = elim c.flavor [
    | array chan ↦
        from_array token c cxs (Flavors.Array.Receiver.try f.thread.rounds token.array chan)
    | list chan ↦ from_list token c cxs (Flavors.List.Receiver.try f.thread.rounds token.list chan)
    | zero chan ↦
        from_zero token c (Flavors.Zero.Handles.recv_retry f.thread.me token.zero f.pause chan cxs)
  ]

  unfoldable pub channel_register : Fire A → ℕ → ℕ → Channel A → Contexts → Bool × Channel A
  channel_register f oper cx c cxs = elim c.flavor [
    | array chan ↦
        let (b, chan') = Flavors.Array.Receiver.register oper cx chan in
        (b, with_flavor c (array chan'))
    | list chan ↦
        let (b, chan') = Flavors.List.Receiver.register oper cx chan in
        (b, with_flavor c (list chan'))
    | zero chan ↦
        let (b, chan') = Flavors.Zero.Handles.recv_register f.thread.me oper cx chan cxs in
        (b, with_flavor c (zero chan'))
  ]

  unfoldable pub channel_unregister : ℕ → Channel A → Option (Channel A)
  channel_unregister oper c = elim c.flavor [
    | array chan ↦ some (with_flavor c (array (Flavors.Array.Receiver.unregister oper chan)))
    | list chan ↦ some (with_flavor c (list (Flavors.List.Receiver.unregister oper chan)))
    | zero chan ↦ elim (Flavors.Zero.Handles.recv_unregister oper chan) [
      | none ↦ none
      | some chan' ↦ some (with_flavor c (zero chan'))
    ]
  ]

  unfoldable pub channel_accept :
      Fire A → Token → ℕ → Channel A → Contexts → Option (Bool × Token × Channel A × Contexts)
  channel_accept f token cx c cxs = elim c.flavor [
    | array chan ↦
        from_array token c cxs (Flavors.Array.Receiver.try f.thread.rounds token.array chan)
    | list chan ↦ from_list token c cxs (Flavors.List.Receiver.try f.thread.rounds token.list chan)
    | zero chan ↦ from_accept token c (Flavors.Zero.Handles.accept cx f.loads cxs)
  ]

  unfoldable pub channel_state : Channel A → ℕ
  channel_state c = elim c.flavor [
    | array chan ↦ Flavors.Array.Receiver.state chan
    | list chan ↦ Flavors.List.Receiver.state chan
    | zero chan ↦ Flavors.Zero.Handles.recv_state chan
  ]

  abbrev pub in_receiver :
      Option (Bool × Token × Channel A × Contexts)
      → Option (Bool × Token × ReceiverFlavor A × Contexts)
  in_receiver none = none
  in_receiver (some (b, token, c, cxs)) = some (b, token, channel c, cxs)

  unfoldable pub try :
      Fire A
      → Token
      → ReceiverFlavor A
      → Contexts
      → Option (Bool × Token × ReceiverFlavor A × Contexts)
  unfolding channel_try
  try f token (channel c) cxs = in_receiver (channel_try f token c cxs)
  try f token (after chan) cxs =
      let (b, t, chan') = Flavors.After.try f.thread.taken f.thread.now token.after chan in
      some (b, record token { after = t }, after chan', cxs)
  try f token (tick chan) cxs =
      let (b, t, chan') = Flavors.Tick.try f.thread.now token.tick chan in
      some (b, record token { tick = t }, tick chan', cxs)
  try f token (never chan) cxs = some (Flavors.Never.try chan, token, never chan, cxs)

  unfoldable pub retry :
      Fire A
      → Token
      → ReceiverFlavor A
      → Contexts
      → Option (Bool × Token × ReceiverFlavor A × Contexts)
  unfolding channel_retry try
  retry f token (channel c) cxs = in_receiver (channel_retry f token c cxs)
  retry f token (after chan) cxs = try f token (after chan) cxs
  retry f token (tick chan) cxs = try f token (tick chan) cxs
  retry f token (never chan) cxs = try f token (never chan) cxs

  unfoldable pub deadline : ReceiverFlavor A → Option ℕ
  deadline (channel c) = none
  deadline (after chan) = Flavors.After.deadline chan
  deadline (tick chan) = Flavors.Tick.deadline chan
  deadline (never chan) = Flavors.Never.deadline chan

  -- The channels that only the clock makes ready register nothing.
  unfoldable pub register : Fire A → ℕ → ℕ → ReceiverFlavor A → Contexts → Bool × ReceiverFlavor A
  unfolding channel_register
  register f oper cx (channel c) cxs =
      let (b, c') = channel_register f oper cx c cxs in (b, channel c')
  register f oper cx (after chan) cxs = (true, after chan)
  register f oper cx (tick chan) cxs = (true, tick chan)
  register f oper cx (never chan) cxs = (Flavors.Never.register chan, never chan)

  unfoldable pub unregister : ℕ → ReceiverFlavor A → Option (ReceiverFlavor A)
  unfolding channel_unregister
  unregister oper (channel c) = elim (channel_unregister oper c) [
    | none ↦ none
    | some c' ↦ some (channel c')
  ]
  unregister oper (after chan) = some (after chan)
  unregister oper (tick chan) = some (tick chan)
  unregister oper (never chan) = some (never chan)

  unfoldable pub accept :
      Fire A
      → Token
      → ℕ
      → ReceiverFlavor A
      → Contexts
      → Option (Bool × Token × ReceiverFlavor A × Contexts)
  unfolding channel_accept try
  accept f token cx (channel c) cxs = in_receiver (channel_accept f token cx c cxs)
  accept f token cx (after chan) cxs = try f token (after chan) cxs
  accept f token cx (tick chan) cxs = try f token (tick chan) cxs
  accept f token cx (never chan) cxs = some (false, token, never chan, cxs)

  unfoldable pub state : ℕ → ReceiverFlavor A → ℕ
  unfolding channel_state
  state now (channel c) = channel_state c
  state now (after chan) = Flavors.After.state now chan
  state now (tick chan) = Flavors.Tick.state now chan
  state now (never chan) = Flavors.Never.state chan

-- `cast` is the copy of an `Instant` as a message.
module _ {A : Type 0} (cast : ℕ → A) where
  -- The rounds are those of the wait for a packet.
  unfoldable pub read :
      Thread A
      → Token
      → ReceiverFlavor A
      → Contexts
      → Option (Result A (Unit {0}) × ReceiverFlavor A × Contexts)
  read t token (channel c) cxs = in_channel (elim c.flavor [
    | array chan ↦ in_flavor array c (Flavors.Array.Chan.read t.me token.array chan cxs)
    | list chan ↦ in_flavor list c (apart cxs (Flavors.List.Chan.read token.list chan))
    | zero chan ↦
        in_flavor zero c (apart cxs (Flavors.Zero.Packets.read token.zero t.zero_wait.readies chan))
  ])
  read t token (after chan) cxs =
      some (map_ok cast (Flavors.After.read token.after), after chan, cxs)
  read t token (tick chan) cxs = some (map_ok cast (Flavors.Tick.read token.tick), tick chan, cxs)
  read t token (never chan) cxs = some (Flavors.Never.read chan, never chan, cxs)
