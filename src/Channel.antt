-- ===== src/Channel.antt =====
-- src/channel.rs: the channels of all flavors behind one pair of handles. What a shared pointer
-- points to stands in its place.
pub mod Thread
pub mod Senders
pub mod Receivers
pub mod Pipe
pub mod Actions
pub mod Refine
pub mod Rows
pub mod Queues
pub mod Drain
pub mod Fire
pub mod SenderHandle
pub mod ReceiverHandle
use crossbeam_channel.Common.{ℕ, ◌+◌, ◌^◌, ◌-◌, Bool, ◌==◌, if◌then◌else◌, ltb, Option, none, some}
use crossbeam_channel.Common.Word.{wrapping_add, wrapping_sub}
use crossbeam_channel.Context.{Contexts}
use crossbeam_channel.Flavors

pub data ChannelFlavor (A : Type 0) : Type 0 where
  array : Flavors.Array.Chan.Channel A → ChannelFlavor A
  list : Flavors.List.Chan.Channel A → ChannelFlavor A
  zero : Flavors.Zero.Packets.Channel A → ChannelFlavor A

-- With the number of handles of each kind.
pub record Channel (A : Type 0) : Type 0 where
  pub senders : ℕ
  pub receivers : ℕ
  pub flavor : ChannelFlavor A

pub data ReceiverFlavor (A : Type 0) : Type 0 where
  channel : Channel A → ReceiverFlavor A
  after : Flavors.After.Channel → ReceiverFlavor A
  tick : Flavors.Tick.Channel → ReceiverFlavor A
  never : Flavors.Never.Channel → ReceiverFlavor A

-- `isize::MAX`
abbrev pub isize_max : ℕ
isize_max = 2 ^ 63 - 1

module _ {A : Type 0} where
  abbrev pub with_flavor : Channel A → ChannelFlavor A → Channel A
  with_flavor c f = record c { flavor = f }

  -- `Sender::new` on a shared channel. None: the process aborts.
  unfoldable pub new_sender : Channel A → Option (Channel A)
  new_sender c =
      if ltb isize_max c.senders
      then none
      else some (record c { senders = wrapping_add c.senders 1 })

  -- `Receiver::new`
  unfoldable pub new_receiver : Channel A → Option (Channel A)
  new_receiver c =
      if ltb isize_max c.receivers
      then none
      else some (record c { receivers = wrapping_add c.receivers 1 })

  -- `disconnect` of the channel of each flavor.
  unfoldable pub disconnect : ChannelFlavor A → Contexts → ChannelFlavor A × Contexts
  disconnect (array chan) cxs =
      let (chan', cxs') = Flavors.Array.Query.disconnect chan cxs in (array chan', cxs')
  disconnect (list chan) cxs =
      let (chan', cxs') = Flavors.List.Query.disconnect chan cxs in (list chan', cxs')
  disconnect (zero chan) cxs =
      let (chan', cxs') = Flavors.Zero.Calls.disconnect chan cxs in (zero chan', cxs')

  -- The channel that `unbounded` makes, with a handle of each kind.
  unfoldable pub unbounded : Option (Channel A)
  unfolding new_sender new_receiver
  unbounded =
      let chan : Channel A = record {
        senders = 0;
        receivers = 0;
        flavor = list Flavors.List.Chan.new;
      } in
      elim (new_sender chan) [ none ↦ none | some c ↦ new_receiver c ]

  -- The flavor that `bounded` chooses. None: `with_capacity` panics.
  unfoldable pub flavor_of : ℕ → Option (ChannelFlavor A)
  flavor_of cap =
      if cap == 0
      then some (zero Flavors.Zero.Packets.new)
      else elim (Flavors.Array.Chan.with_capacity cap) [
        | none ↦ none
        | some chan ↦ some (array chan)
      ]

  unfoldable pub bounded : ℕ → Option (Channel A)
  unfolding new_sender new_receiver flavor_of
  bounded cap = elim (flavor_of cap) [
    | none ↦ none
    | some f ↦
        let chan : Channel A = record { senders = 0; receivers = 0; flavor = f } in
        elim (new_sender chan) [ none ↦ none | some c ↦ new_receiver c ]
  ]

  -- `now` is the reading of the clock.
  unfoldable pub after_receiver : ℕ → ℕ → ReceiverFlavor A
  after_receiver now duration = after (Flavors.After.new now duration)

  unfoldable pub tick_receiver : ℕ → ℕ → ReceiverFlavor A
  tick_receiver now duration = tick (Flavors.Tick.new now duration)

  unfoldable pub never_receiver : ReceiverFlavor A
  never_receiver = never Flavors.Never.new
