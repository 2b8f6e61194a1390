-- ===== src/Channel/Queues.antt =====
-- The channels that `bounded` and `unbounded` of src/channel.rs make, used through their handles.
use crossbeam_channel.Common.{ℕ, suc, ◌≤◌, ◌<◌, ◌≡◌, refl, arith, List, [], none, some, length, map}
use crossbeam_channel.Common.Word.{word}
use crossbeam_channel.Context.{Contexts}
use crossbeam_channel.Queue.{Queue, Call, send, recv, count, asks_empty, asks_full, disconnects}
use crossbeam_channel.Flavors
use crossbeam_channel.Flavors.Array.Chan.{cap_limit}
use crossbeam_channel.Flavors.Array.Init.{with_capacity-Holds}
use crossbeam_channel.Flavors.List.Refine.{new-Holds}
use crossbeam_channel.Channel.{
  Channel, array, list, bounded, unbounded, flavor_of, new_sender, new_receiver, disconnect,
}
use crossbeam_channel.Channel.Thread.{Thread}
use crossbeam_channel.Channel.Senders
use crossbeam_channel.Channel.Senders.{in_flavor}
use crossbeam_channel.Channel.Receivers
use crossbeam_channel.Channel.Pipe.{Pipe, pipe_run, AllAllowed}
use crossbeam_channel.Channel.Actions.{Action, AllLive, call, act_all}
use crossbeam_channel.Channel.Refine.{Stands}
use crossbeam_channel.Channel.Rows.{calls_left, calls_left-eq, act_all-refines}

-- Nothing has been sent, and there is one handle of each kind.
abbrev pub opened : {A : Type 0} → Pipe A
opened = record { items = []; senders = 1; receivers = 1 }

module _ {A : Type 0} (cast : ℕ → A) where
  pub array-link :
      (t : Thread A) (k : Call A) (c : Channel A) (chan : Flavors.Array.Chan.Channel A)
      (cxs : Contexts)
      → c.flavor ≡ array chan
      → call cast t k c cxs
        ≡ in_flavor array c (
            Flavors.Array.Refine.perform
              (record { me = t.me; rounds = t.rounds; call = k })
              chan
              cxs)
  unfolding call Senders.try_send Receivers.try_recv Senders.len Senders.is_empty Senders.is_full
      disconnect Flavors.Array.Refine.perform Flavors.Array.Refine.call
  array-link t (send x) c chan cxs e = ground (arith, e)
  array-link t recv c chan cxs e = ground (arith, e)
  array-link t count c chan cxs e = ground (arith, e)
  array-link t asks_empty c chan cxs e = ground (arith, e)
  array-link t asks_full c chan cxs e = ground (arith, e)
  array-link t disconnects c chan cxs e = ground (arith, e)

  pub list-link :
      (t : Thread A) (k : Call A) (c : Channel A) (chan : Flavors.List.Chan.Channel A)
      (cxs : Contexts)
      → c.flavor ≡ list chan
      → call cast t k c cxs
        ≡ in_flavor list c (
            Flavors.List.Refine.perform
              (record { me = t.me; rounds = t.rounds; call = k })
              chan
              cxs)
  unfolding call Senders.try_send Receivers.try_recv Senders.len Senders.is_empty Senders.is_full
      disconnect Flavors.List.Refine.perform Flavors.List.Refine.call
  list-link t (send x) c chan cxs e = ground (arith, e)
  list-link t recv c chan cxs e = ground (arith, e)
  list-link t count c chan cxs e = ground (arith, e)
  list-link t asks_empty c chan cxs e = ground (arith, e)
  list-link t asks_full c chan cxs e = ground (arith, e)
  list-link t disconnects c chan cxs e = ground (arith, e)

  pub keep_Models :
      {cap : ℕ} (n : ℕ) (s : Queue A) (chan : Flavors.Array.Chan.Channel A)
      → (Flavors.Array.Refine.implementation cap).Models (suc n) s chan
      → (Flavors.Array.Refine.implementation cap).Models n s chan
  keep_Models n s chan m = m

  pub weaken_Models :
      (n : ℕ) (s : Queue A) (chan : Flavors.List.Chan.Channel A)
      → Flavors.List.Refine.implementation.Models (suc n) s chan
      → Flavors.List.Refine.implementation.Models n s chan
  weaken_Models n s chan m = (m.0, omega (arith, m.1))

  -- What `bounded` makes is the empty queue, for any number of calls.
  pub bounded-Stands :
      (cap n : ℕ)
      → 0 < cap
      → cap ≤ cap_limit
      → (c : Channel A) × (bounded cap ≡ some c)
        × Stands cast
            (Flavors.Array.Refine.implementation cap)
            array
            keep_Models
            array-link
            n
            opened
            c
  unfolding bounded flavor_of new_sender new_receiver
  bounded-Stands cap n pos limit =
      let (chan, made, holds, size, dead) = with_capacity-Holds A cap pos limit in
      (
        record { senders = 1; receivers = 1; flavor = array chan },
        ground (arith, made),
        (
          refl,
          refl,
          (chan, refl, (record { lap = _; first = 0; holds = holds; dead = dead }, size)),
        ),
      )

  -- What `unbounded` makes is the empty queue, for fewer than 2 ^ 64 calls.
  pub unbounded-Stands :
      (n : ℕ)
      → n < word
      → (c : Channel A) × (unbounded ≡ some c)
        × Stands cast Flavors.List.Refine.implementation list weaken_Models list-link n opened c
  unfolding unbounded new_sender new_receiver Flavors.List.Chan.new
  unbounded-Stands n few = (
    record { senders = 1; receivers = 1; flavor = list Flavors.List.Chan.new },
    ground arith,
    (
      refl,
      refl,
      (
        Flavors.List.Chan.new,
        refl,
        (record { first = 0; holds = new-Holds A; dead = refl }, omega (arith, few)),
      ),
    ),
  )

  -- `bounded`, with a capacity that is positive and at most a quarter of the largest `usize`, makes
  -- a channel on which any calls of `try_send`, `try_recv`, `len`, `is_empty` and `is_full`, and any
  -- clones and drops of handles, in a row and by any threads, return with the replies of a queue of
  -- that capacity that is disconnected exactly while one side has no handle left. The calls are made
  -- through handles that exist, there are at most 2 ^ 63 handles of a side, and each call has a
  -- round of its loop that does not fail spuriously.
  pub bounded-refines-Pipe :
      (cap : ℕ) (actions : List (Action A)) (cxs : Contexts)
      → 0 < cap
      → cap ≤ cap_limit
      → AllLive actions
      → AllAllowed (some cap) (map (λ a. a.use_of) actions) opened
      → let (replies, end) = pipe_run (some cap) (map (λ a. a.use_of) actions) opened in
        (c : Channel A) × (c' : Channel A) × (cxs' : Contexts) × (bounded cap ≡ some c)
        × (act_all cast actions c cxs ≡ some (replies, c', cxs'))
        × (c'.senders ≡ end.senders)
        × (c'.receivers ≡ end.receivers)
  bounded-refines-Pipe cap actions cxs pos limit live ok =
      let (c, made, st) = bounded-Stands cap (calls_left actions 0) pos limit in
      let (c', cxs', e, (s, r, rest)) =
        act_all-refines cast (Flavors.Array.Refine.implementation cap) array keep_Models array-link
          0 actions opened c cxs live ok st in
      (c, c', cxs', made, e, s, r)

  -- `unbounded` makes a channel on which any calls of `try_send`, `try_recv`, `len`, `is_empty`
  -- and `is_full`, and any clones and drops of handles, in a row and by any threads, return with
  -- the replies of a queue without a capacity that is disconnected exactly while one side has no
  -- handle left, as long as there would be fewer than 2 ^ 64 messages if every action sent one.
  -- The calls are made through handles that exist, there are at most 2 ^ 63 handles of a side,
  -- and each call has a round of its loop that does not fail spuriously.
  pub unbounded-refines-Pipe :
      (actions : List (Action A)) (cxs : Contexts)
      → AllLive actions
      → AllAllowed none (map (λ a. a.use_of) actions) opened
      → length actions < word
      → let (replies, end) = pipe_run none (map (λ a. a.use_of) actions) opened in
        (c : Channel A) × (c' : Channel A) × (cxs' : Contexts) × (unbounded ≡ some c)
        × (act_all cast actions c cxs ≡ some (replies, c', cxs'))
        × (c'.senders ≡ end.senders)
        × (c'.receivers ≡ end.receivers)
  unbounded-refines-Pipe actions cxs live ok few =
      let (c, made, st) =
        unbounded-Stands (calls_left actions 0) (omega (arith, few, calls_left-eq actions 0)) in
      let (c', cxs', e, (s, r, rest)) =
        act_all-refines cast Flavors.List.Refine.implementation list weaken_Models list-link 0
          actions opened c cxs live ok st in
      (c, c', cxs', made, e, s, r)
