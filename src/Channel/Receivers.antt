-- ===== src/Channel/Receivers.antt =====
-- `Receiver` of src/channel.rs, and its iterators.
use crossbeam_channel.Common.{
  ℕ, ◌+◌, Bool, ◌==◌, if◌then◌else◌, Result, ok, err, map_err, Option, none, some,
}
use crossbeam_channel.Common.Word.{wrapping_sub}
use crossbeam_channel.Context.{Contexts}
use crossbeam_channel.Err.{RecvError, recv_error, TryRecvError, RecvTimeoutError}
use crossbeam_channel.Flavors
use crossbeam_channel.Channel.{
  Channel, array, list, zero, ReceiverFlavor, channel, after, tick, never, with_flavor,
  new_receiver, disconnect,
}
use crossbeam_channel.Channel.Thread.{Thread}
use crossbeam_channel.Channel.Senders
use crossbeam_channel.Channel.Senders.{in_flavor}

-- The result of a method of the channel that does not touch the contexts.
abbrev pub apart : {F R : Type 0} → Contexts → Option (R × F) → Option (R × F × Contexts)
apart cxs none = none
apart cxs (some (res, chan)) = some (res, chan, cxs)

module _ {A : Type 0} where
  abbrev pub in_channel :
      {R : Type 0} → Option (R × Channel A × Contexts) → Option (R × ReceiverFlavor A × Contexts)
  in_channel none = none
  in_channel (some (res, c, cxs)) = some (res, channel c, cxs)

  abbrev pub map_ok : {B E : Type 0} → (B → A) → Result B E → Result A E
  map_ok f (ok b) = ok (f b)
  map_ok f (err e) = err e

  unfoldable pub is_empty : ℕ → ReceiverFlavor A → Bool
  unfolding Senders.is_empty
  is_empty now (channel c) = Senders.is_empty c
  is_empty now (after chan) = Flavors.After.is_empty now chan
  is_empty now (tick chan) = Flavors.Tick.is_empty now chan
  is_empty now (never chan) = Flavors.Never.is_empty chan

  unfoldable pub is_full : ℕ → ReceiverFlavor A → Bool
  unfolding Senders.is_full
  is_full now (channel c) = Senders.is_full c
  is_full now (after chan) = Flavors.After.is_full now chan
  is_full now (tick chan) = Flavors.Tick.is_full now chan
  is_full now (never chan) = Flavors.Never.is_full chan

  unfoldable pub len : ℕ → ReceiverFlavor A → ℕ
  unfolding Senders.len
  len now (channel c) = Senders.len c
  len now (after chan) = Flavors.After.len now chan
  len now (tick chan) = Flavors.Tick.len now chan
  len now (never chan) = Flavors.Never.len chan

  unfoldable pub capacity : ReceiverFlavor A → Option ℕ
  unfolding Senders.capacity
  capacity (channel c) = Senders.capacity c
  capacity (after chan) = Flavors.After.capacity chan
  capacity (tick chan) = Flavors.Tick.capacity chan
  capacity (never chan) = Flavors.Never.capacity chan

  unfoldable pub drop : ReceiverFlavor A → Contexts → ReceiverFlavor A × Contexts
  drop (channel c) cxs =
      let c' : Channel A = record c { receivers = wrapping_sub c.receivers 1 } in
      let (f, cxs') = disconnect c'.flavor cxs in
      if c.receivers == 1 then (channel (with_flavor c' f), cxs') else (channel c', cxs)
  drop (after chan) cxs = (after chan, cxs)
  drop (tick chan) cxs = (tick chan, cxs)
  drop (never chan) cxs = (never chan, cxs)

  -- What the pointers of the clone point to.
  unfoldable pub clone : ReceiverFlavor A → Option (ReceiverFlavor A)
  clone (channel c) = elim (new_receiver c) [ none ↦ none | some c' ↦ some (channel c') ]
  clone (after chan) = some (after chan)
  clone (tick chan) = some (tick chan)
  clone (never chan) = some (never chan)

-- `cast` is the copy of an `Instant` as a message, which are of one type where it is made.
module _ {A : Type 0} (cast : ℕ → A) where
  unfoldable pub try_recv :
      Thread A
      → ReceiverFlavor A
      → Contexts
      → Option (Result A TryRecvError × ReceiverFlavor A × Contexts)
  try_recv t (channel c) cxs = in_channel (elim c.flavor [
    | array chan ↦ in_flavor array c (Flavors.Array.Chan.try_recv t.me t.rounds chan cxs)
    | list chan ↦ in_flavor list c (apart cxs (Flavors.List.Calls.try_recv t.rounds chan))
    | zero chan ↦ in_flavor zero c (Flavors.Zero.Calls.try_recv t.me t.zero_wait.readies chan cxs)
  ])
  try_recv t (after chan) cxs =
      let (msg, chan') = Flavors.After.try_recv t.taken t.now chan in
      some (map_ok cast msg, after chan', cxs)
  try_recv t (tick chan) cxs =
      let (msg, chan') = Flavors.Tick.try_recv t.now chan in some (map_ok cast msg, tick chan', cxs)
  try_recv t (never chan) cxs = some (Flavors.Never.try_recv chan, never chan, cxs)

  -- `recv` of the channel of each flavor.
  unfoldable pub recv_until :
      Thread A
      → Option ℕ
      → ReceiverFlavor A
      → Contexts
      → Option (Result A RecvTimeoutError × ReceiverFlavor A × Contexts)
  recv_until t deadline (channel c) cxs = in_channel (elim c.flavor [
    | array chan ↦
        in_flavor array c
          (Flavors.Array.Blocking.recv t.me t.address t.cx deadline t.array_turns chan cxs)
    | list chan ↦
        in_flavor list c (Flavors.List.Blocking.recv t.address t.cx deadline t.list_turns chan cxs)
    | zero chan ↦
        in_flavor zero c
          (Flavors.Zero.Blocking.recv t.me t.address t.cx deadline t.zero_wait chan cxs)
  ])
  recv_until t deadline (after chan) cxs = elim (Flavors.After.recv t.taken deadline t.clock chan) [
    | Flavors.After.asleep ↦ none
    | Flavors.After.panics ↦ none
    | Flavors.After.returns msg chan' ↦ some (map_ok cast msg, after chan', cxs)
  ]
  recv_until t deadline (tick chan) cxs =
      elim (Flavors.Tick.recv deadline t.clock.now t.ticks chan) [
        | none ↦ none
        | some (msg, chan') ↦ some (map_ok cast msg, tick chan', cxs)
      ]
  recv_until t deadline (never chan) cxs = elim (Flavors.Never.recv deadline t.clock chan) [
    | none ↦ none
    | some res ↦ some (res, never chan, cxs)
  ]

  unfoldable pub recv :
      Thread A
      → ReceiverFlavor A
      → Contexts
      → Option (Result A RecvError × ReceiverFlavor A × Contexts)
  unfolding recv_until
  recv t r cxs = elim (recv_until t none r cxs) [
    | none ↦ none
    | some (res, r', cxs') ↦ some (map_err (λ _. recv_error) res, r', cxs')
  ]

  unfoldable pub recv_timeout :
      Thread A
      → ℕ
      → ReceiverFlavor A
      → Contexts
      → Option (Result A RecvTimeoutError × ReceiverFlavor A × Contexts)
  unfolding recv_until
  recv_timeout t timeout r cxs = recv_until t (some (t.now + timeout)) r cxs

  -- `ok` of a result.
  abbrev pub ok_of : {E : Type 0} → Result A E → Option A
  ok_of (ok msg) = some msg
  ok_of (err e) = none

  -- `next` of `Iter` and `IntoIter`.
  unfoldable pub next :
      Thread A → ReceiverFlavor A → Contexts → Option (Option A × ReceiverFlavor A × Contexts)
  unfolding recv
  next t r cxs = elim (recv t r cxs) [
    | none ↦ none
    | some (res, r', cxs') ↦ some (ok_of res, r', cxs')
  ]

  -- `next` of `TryIter`.
  unfoldable pub try_next :
      Thread A → ReceiverFlavor A → Contexts → Option (Option A × ReceiverFlavor A × Contexts)
  unfolding try_recv
  try_next t r cxs = elim (try_recv t r cxs) [
    | none ↦ none
    | some (res, r', cxs') ↦ some (ok_of res, r', cxs')
  ]
