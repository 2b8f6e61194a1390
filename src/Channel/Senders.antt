-- ===== src/Channel/Senders.antt =====
-- `Sender` of src/channel.rs.
use crossbeam_channel.Common.{
  ℕ, ◌+◌, Bool, ◌==◌, if◌then◌else◌, Result, ok, err, Option, none, some,
}
use crossbeam_channel.Common.Word.{wrapping_sub}
use crossbeam_channel.Context.{Contexts}
use crossbeam_channel.Err.{SendError, send_error, TrySendError, SendTimeoutError}
use crossbeam_channel.Flavors
use crossbeam_channel.Channel.{
  Channel, ChannelFlavor, array, list, zero, with_flavor, new_sender, disconnect,
}
use crossbeam_channel.Channel.Thread.{Thread}

module _ {A : Type 0} where
  -- The result, with the channel in its flavor.
  abbrev pub in_flavor :
      {F R : Type 0}
      → (F → ChannelFlavor A)
      → Channel A
      → Option (R × F × Contexts)
      → Option (R × Channel A × Contexts)
  in_flavor wrap c none = none
  in_flavor wrap c (some (res, chan, cxs)) = some (res, with_flavor c (wrap chan), cxs)

  unfoldable pub try_send :
      Thread A
      → A
      → Channel A
      → Contexts
      → Option (Result (Unit {0}) (TrySendError A) × Channel A × Contexts)
  try_send t msg c cxs = elim c.flavor [
    | array chan ↦ in_flavor array c (Flavors.Array.Chan.try_send t.me t.rounds msg chan cxs)
    | list chan ↦ in_flavor list c (Flavors.List.Calls.try_send t.me t.rounds msg chan cxs)
    | zero chan ↦ in_flavor zero c (Flavors.Zero.Calls.try_send t.me msg chan cxs)
  ]

  -- `send` of the channel of each flavor.
  unfoldable pub send_until :
      Thread A
      → Option ℕ
      → A
      → Channel A
      → Contexts
      → Option (Result (Unit {0}) (SendTimeoutError A) × Channel A × Contexts)
  send_until t deadline msg c cxs = elim c.flavor [
    | array chan ↦
        in_flavor array c
          (Flavors.Array.Blocking.send t.me t.address t.cx deadline msg t.array_turns chan cxs)
    | list chan ↦ in_flavor list c (Flavors.List.Calls.send t.me t.rounds msg chan cxs)
    | zero chan ↦
        in_flavor zero c
          (Flavors.Zero.Blocking.send t.me t.address t.cx deadline msg t.zero_wait chan cxs)
  ]

  -- The closure of `send`. None: the arm that is not reachable.
  abbrev pub without_timeout :
      Result (Unit {0}) (SendTimeoutError A) → Option (Result (Unit {0}) (SendError A))
  without_timeout (ok u) = some (ok u)
  without_timeout (err (SendTimeoutError.disconnected msg)) = some (err (send_error msg))
  without_timeout (err (SendTimeoutError.timeout msg)) = none

  unfoldable pub send :
      Thread A
      → A
      → Channel A
      → Contexts
      → Option (Result (Unit {0}) (SendError A) × Channel A × Contexts)
  unfolding send_until
  send t msg c cxs = elim (send_until t none msg c cxs) [
    | none ↦ none
    | some (res, c', cxs') ↦ elim (without_timeout res) [
      | none ↦ none
      | some res' ↦ some (res', c', cxs')
    ]
  ]

  unfoldable pub send_timeout :
      Thread A
      → ℕ
      → A
      → Channel A
      → Contexts
      → Option (Result (Unit {0}) (SendTimeoutError A) × Channel A × Contexts)
  unfolding send_until
  send_timeout t timeout msg c cxs = send_until t (some (t.now + timeout)) msg c cxs

  unfoldable pub is_empty : Channel A → Bool
  is_empty c = elim c.flavor [
    | array chan ↦ Flavors.Array.Query.is_empty chan
    | list chan ↦ Flavors.List.Query.is_empty chan
    | zero chan ↦ Flavors.Zero.Calls.is_empty chan
  ]

  unfoldable pub is_full : Channel A → Bool
  is_full c = elim c.flavor [
    | array chan ↦ Flavors.Array.Query.is_full chan
    | list chan ↦ Flavors.List.Query.is_full chan
    | zero chan ↦ Flavors.Zero.Calls.is_full chan
  ]

  unfoldable pub len : Channel A → ℕ
  len c = elim c.flavor [
    | array chan ↦ Flavors.Array.Query.len chan
    | list chan ↦ Flavors.List.Query.len chan
    | zero chan ↦ Flavors.Zero.Calls.len chan
  ]

  unfoldable pub capacity : Channel A → Option ℕ
  capacity c = elim c.flavor [
    | array chan ↦ Flavors.Array.Query.capacity chan
    | list chan ↦ Flavors.List.Query.capacity chan
    | zero chan ↦ Flavors.Zero.Calls.capacity chan
  ]

  unfoldable pub drop : Channel A → Contexts → Channel A × Contexts
  drop c cxs =
      let c' : Channel A = record c { senders = wrapping_sub c.senders 1 } in
      let (f, cxs') = disconnect c'.flavor cxs in
      if c.senders == 1 then (with_flavor c' f, cxs') else (c', cxs)

  unfoldable pub clone : Channel A → Option (Channel A)
  clone c = new_sender c
