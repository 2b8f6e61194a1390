-- ===== src/Channel/Drain.antt =====
-- The loop over `try_iter` of src/channel.rs.
use crossbeam_channel.Common.{
  ℕ, suc, ◌+◌, ◌<◌, ◌≤◌, ◌≡◌, refl, ◌∙◌, ap, subst, Bool, true, false, arith, List, [], ◌∷◌, Option,
  none, some, Result, ok, err, length, map, Succeeds,
}
use crossbeam_channel.Common.Word.{word}
use crossbeam_channel.Context.{Contexts}
use crossbeam_channel.Err.{TryRecvError}
use crossbeam_channel.Flavors
use crossbeam_channel.Flavors.Array.Chan.{cap_limit}
use crossbeam_channel.Queue
use crossbeam_channel.Queue.{Queue, Call, recv, received}
use crossbeam_channel.Queue.Runs.{Invocation, Out, Implementation}
use crossbeam_channel.Channel.{
  Channel, ChannelFlavor, ReceiverFlavor, channel, array, list, bounded, unbounded,
}
use crossbeam_channel.Channel.Thread.{Thread}
use crossbeam_channel.Channel.Senders.{in_flavor}
use crossbeam_channel.Channel.Receivers.{try_next, ok_of}
use crossbeam_channel.Channel.Actions.{Action, AllLive, call, act_all}
use crossbeam_channel.Channel.Pipe.{Pipe, queue_of, pipe_run, AllAllowed}
use crossbeam_channel.Channel.Refine.{Stands, method-Agrees}
use crossbeam_channel.Channel.Rows.{calls_left, calls_left-eq, act_all-refines}
use crossbeam_channel.Channel.Queues.{
  opened, array-link, list-link, keep_Models, weaken_Models, bounded-Stands, unbounded-Stands,
}

-- Each `next` may take a round in which nothing fails for no reason.
abbrev pub AllSucceed : {A : Type 0} → List (Thread A) → Type 0
AllSucceed [] = Unit {0}
AllSucceed (t ∷ ts) = Succeeds t.rounds × AllSucceed ts

module _ {A : Type 0} (cast : ℕ → A) where
  -- `for msg in r.try_iter()`, with what each `next` is given; none: the loop has not ended with
  -- the last of them.
  unfoldable pub try_drain :
      List (Thread A) → ReceiverFlavor A → Contexts → Option (List A × ReceiverFlavor A × Contexts)
  unfolding try_next
  try_drain [] r cxs = none
  try_drain (t ∷ ts) r cxs = elim (try_next cast t r cxs) [
    | none ↦ none
    | some (none, r', cxs') ↦ some ([], r', cxs')
    | some (some msg, r', cxs') ↦ elim (try_drain ts r' cxs') [
      | none ↦ none
      | some (msgs, end, after) ↦ some (msg ∷ msgs, end, after)
    ]
  ]

  -- A `next` takes what the call of `try_recv` takes.
  try_next-call :
      (t : Thread A) (c c' : Channel A) (res : Result A TryRecvError) (cxs cxs' : Contexts)
      → call cast t recv c cxs ≡ some (received res, c', cxs')
      → try_next cast t (channel c) cxs ≡ some (ok_of cast res, channel c', cxs')
  unfolding call try_next
  try_next-call t c c' res cxs cxs' e = ground (arith, e)

  module _ {C : Type 0} {cap : Option ℕ} {perform : Invocation A → C → Contexts → Out A C}
      (impl : Implementation A C cap perform) (wrap : C → ChannelFlavor A)
      (weaken : (n : ℕ) (s : Queue A) (c : C) → impl.Models (suc n) s c → impl.Models n s c)
      (link : (t : Thread A) (k : Call A) (c : Channel A) (chan : C) (cxs : Contexts)
        → c.flavor ≡ wrap chan
        → call cast t k c cxs
          ≡ in_flavor wrap c
              (perform (record { me = t.me; rounds = t.rounds; call = k }) chan cxs)) where
    no_message :
        (dead : Bool)
        → (e : TryRecvError) × (Queue.recv_from {A = A} [] dead
            ≡ (received (err e), record { items = []; dead = dead }))
    no_message true = (TryRecvError.disconnected, refl)
    no_message false = (TryRecvError.empty, refl)

    -- The loop takes the messages that are there, and ends when none is left.
    try_drain-items :
        (ts : List (Thread A)) (msgs : List A) (senders receivers : ℕ) (c : Channel A)
        (cxs : Contexts)
        → AllSucceed ts
        → 0 < receivers
        → length msgs < length ts
        → Stands cast impl wrap weaken link
            (length ts)
            (record { items = msgs; senders = senders; receivers = receivers })
            c
        → (c' : Channel A) × (cxs' : Contexts) × (n : ℕ) × (try_drain ts (channel c) cxs
            ≡ some (msgs, channel c', cxs'))
          × Stands cast impl wrap weaken link n
              (record { items = []; senders = senders; receivers = receivers })
              c'
    unfolding try_drain
    try_drain-items [] msgs ss rs c cxs live pos more st = absurd (omega (arith, more))
    try_drain-items (t ∷ ts) [] ss rs c cxs live pos more st =
        let p : Pipe A = record { items = []; senders = ss; receivers = rs } in
        let (c1, cxs1, e1, st1) =
          method-Agrees cast impl wrap weaken link (length ts) t recv p c cxs live.0 pos st in
        let (e, q) = no_message (queue_of p).dead in
        let next_ends =
          try_next-call t c c1 (err e) cxs cxs1 (e1 ∙ ap (λ x. some (x.0, c1, cxs1)) q) in
        (
          c1,
          cxs1,
          length ts,
          ground (arith, next_ends),
          subst
              (λ x.
                Stands cast impl wrap weaken link (length ts) (record p { items = x.1.items }) c1)
              q st1,
        )
    try_drain-items (t ∷ ts) (msg ∷ msgs) ss rs c cxs live pos more st =
        let (c1, cxs1, e1, st1) =
          method-Agrees cast impl wrap weaken link (length ts) t recv
            (record { items = msg ∷ msgs; senders = ss; receivers = rs }) c cxs live.0 pos st in
        let (c2, cxs2, n, e2, st2) =
          try_drain-items ts msgs ss rs c1 cxs1 live.1 pos (omega (arith, more)) st1 in
        (c2, cxs2, n, ground (arith, try_next-call t c c1 (ok msg) cxs cxs1 e1, e2), st2)

  -- On a channel that `bounded` makes, with a capacity that is positive and at most a quarter of
  -- the largest `usize`, after any calls, clones and drops of handles in a row as they are for
  -- `bounded-refines-Pipe`, a loop over `try_iter` of a receiver that is left ends, as soon as it
  -- may take one more step than there are messages. It takes exactly the messages that the queue
  -- then holds, in their order, and leaves the handles alone. Each of its steps has a round that
  -- does not fail spuriously.
  pub bounded-drains :
      (cap : ℕ) (actions : List (Action A)) (ts : List (Thread A)) (cxs : Contexts)
      → 0 < cap
      → cap ≤ cap_limit
      → AllLive actions
      → AllAllowed (some cap) (map (λ a. a.use_of) actions) opened
      → AllSucceed ts
      → 0 < (pipe_run (some cap) (map (λ a. a.use_of) actions) opened).1.receivers
      → length (pipe_run (some cap) (map (λ a. a.use_of) actions) opened).1.items < length ts
      → let (replies, end) = pipe_run (some cap) (map (λ a. a.use_of) actions) opened in
        (c : Channel A) × (c1 : Channel A) × (c2 : Channel A) × (cxs1 : Contexts)
        × (cxs2 : Contexts) × (bounded cap ≡ some c)
        × (act_all cast actions c cxs ≡ some (replies, c1, cxs1))
        × (try_drain ts (channel c1) cxs1 ≡ some (end.items, channel c2, cxs2))
        × (c2.senders ≡ end.senders)
        × (c2.receivers ≡ end.receivers)
  bounded-drains cap actions ts cxs pos limit live allowed lives some_there more =
      let (c, made, st) = bounded-Stands cast cap (calls_left actions (length ts)) pos limit in
      let (c1, cxs1, e1, st1) =
        act_all-refines cast (Flavors.Array.Refine.implementation cap) array (keep_Models cast)
          (array-link cast) (length ts) actions opened c cxs live allowed st in
      let (c2, cxs2, n, e2, (s, r, rest)) =
        try_drain-items (Flavors.Array.Refine.implementation cap) array (keep_Models cast)
          (array-link cast) ts _ _ _ c1 cxs1 lives some_there more st1 in
      (c, c1, c2, cxs1, cxs2, made, e1, e2, s, r)

  -- The same on a channel that `unbounded` makes, as long as the actions and the steps of the loop
  -- are fewer than 2 ^ 64.
  pub unbounded-drains :
      (actions : List (Action A)) (ts : List (Thread A)) (cxs : Contexts)
      → AllLive actions
      → AllAllowed none (map (λ a. a.use_of) actions) opened
      → length actions + length ts < word
      → AllSucceed ts
      → 0 < (pipe_run none (map (λ a. a.use_of) actions) opened).1.receivers
      → length (pipe_run none (map (λ a. a.use_of) actions) opened).1.items < length ts
      → let (replies, end) = pipe_run none (map (λ a. a.use_of) actions) opened in
        (c : Channel A) × (c1 : Channel A) × (c2 : Channel A) × (cxs1 : Contexts)
        × (cxs2 : Contexts) × (unbounded ≡ some c)
        × (act_all cast actions c cxs ≡ some (replies, c1, cxs1))
        × (try_drain ts (channel c1) cxs1 ≡ some (end.items, channel c2, cxs2))
        × (c2.senders ≡ end.senders)
        × (c2.receivers ≡ end.receivers)
  unbounded-drains actions ts cxs live allowed few lives some_there more =
      let (c, made, st) =
        unbounded-Stands cast (calls_left actions (length ts))
          (omega (arith, few, calls_left-eq actions (length ts))) in
      let (c1, cxs1, e1, st1) =
        act_all-refines cast Flavors.List.Refine.implementation list (weaken_Models cast)
          (list-link cast) (length ts) actions opened c cxs live allowed st in
      let (c2, cxs2, n, e2, (s, r, rest)) =
        try_drain-items Flavors.List.Refine.implementation list (weaken_Models cast)
          (list-link cast) ts _ _ _ c1 cxs1 lives some_there more st1 in
      (c, c1, c2, cxs1, cxs2, made, e1, e2, s, r)
