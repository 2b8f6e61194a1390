-- ===== src/Channel/Actions.antt =====
-- Methods, clones and drops of handles of src/channel.rs in a row.
use crossbeam_channel.Common.{ℕ, List, [], ◌∷◌, Option, none, some, Succeeds}
use crossbeam_channel.Context.{Contexts}
use crossbeam_channel.Queue.{
  Call, send, recv, count, asks_empty, asks_full, disconnects, Reply, sent, received, counted,
  answered, closed,
}
use crossbeam_channel.Queue.Runs.{Out}
use crossbeam_channel.Channel.{
  Channel, ReceiverFlavor, channel, after, tick, never, with_flavor, disconnect,
}
use crossbeam_channel.Channel.Thread.{Thread}
use crossbeam_channel.Channel.Senders
use crossbeam_channel.Channel.Senders.{in_flavor}
use crossbeam_channel.Channel.Receivers
use crossbeam_channel.Channel.Pipe.{
  Use, method, clone_sender, drop_sender, clone_receiver, drop_receiver,
}

-- What is done by which thread.
pub record Action (A : Type 0) : Type 0 where
  pub thread : Thread A
  pub use_of : Use A

-- Each method may take a round in which nothing fails for no reason.
abbrev pub AllLive : {A : Type 0} → List (Action A) → Type 0
AllLive [] = Unit {0}
AllLive (a ∷ rest) = Succeeds a.thread.rounds × AllLive rest

module _ {A : Type 0} where
  abbrev pub channel_of : ReceiverFlavor A → Option (Channel A)
  channel_of (channel c) = some c
  channel_of (after chan) = none
  channel_of (tick chan) = none
  channel_of (never chan) = none

  abbrev pub done : Option (Channel A) → Contexts → Out A (Channel A)
  done none cxs = none
  done (some c) cxs = some (closed, c, cxs)

module _ {A : Type 0} (cast : ℕ → A) where
  -- The method that a call stands for.
  unfoldable pub call : Thread A → Call A → Channel A → Contexts → Out A (Channel A)
  call t (send x) c cxs = elim (Senders.try_send t x c cxs) [
    | none ↦ none
    | some (r, c', cxs') ↦ some (sent r, c', cxs')
  ]
  call t recv c cxs = elim (Receivers.try_recv cast t (channel c) cxs) [
    | none ↦ none
    | some (res, r, cxs') ↦ elim (channel_of r) [
      | none ↦ none
      | some c' ↦ some (received res, c', cxs')
    ]
  ]
  call t count c cxs = some (counted (Senders.len c), c, cxs)
  call t asks_empty c cxs = some (answered (Senders.is_empty c), c, cxs)
  call t asks_full c cxs = some (answered (Senders.is_full c), c, cxs)
  call t disconnects c cxs =
      let (f, cxs') = disconnect c.flavor cxs in some (closed, with_flavor c f, cxs')

  unfoldable pub act : Action A → Channel A → Contexts → Out A (Channel A)
  unfolding call
  act a c cxs = elim a.use_of [
    | method k ↦ call a.thread k c cxs
    | clone_sender ↦ done (Senders.clone c) cxs
    | drop_sender ↦ let (c', cxs') = Senders.drop c cxs in some (closed, c', cxs')
    | clone_receiver ↦ elim (Receivers.clone (channel c)) [
      | none ↦ none
      | some r ↦ done (channel_of r) cxs
    ]
    | drop_receiver ↦ let (r, cxs') = Receivers.drop (channel c) cxs in done (channel_of r) cxs'
  ]

  unfoldable pub act_all :
      List (Action A) → Channel A → Contexts → Option (List (Reply A) × Channel A × Contexts)
  unfolding act
  act_all [] c cxs = some ([], c, cxs)
  act_all (a ∷ rest) c cxs = elim (act a c cxs) [
    | none ↦ none
    | some (reply, c', cxs') ↦ elim (act_all rest c' cxs') [
      | none ↦ none
      | some (replies, end, cxs'') ↦ some (reply ∷ replies, end, cxs'')
    ]
  ]
