-- ===== src/Tests/Handles.antt =====
-- Handles of src/channel.rs that are cloned, used and dropped.
use crossbeam_channel.Common.{
  ℕ, ◌≡◌, refl, arith, true, false, List, [], ◌∷◌, none, some, ok, err, map,
}
use crossbeam_channel.Context.{Contexts}
use crossbeam_channel.Err.{TrySendError, TryRecvError}
use crossbeam_channel.Queue.{Reply, send, recv, sent, received, closed}
use crossbeam_channel.Channel.{Channel, channel, bounded, unbounded}
use crossbeam_channel.Channel.Thread.{Thread}
use crossbeam_channel.Channel.Pipe.{Use, method, clone_sender, drop_sender, pipe_run}
use crossbeam_channel.Channel.Actions.{Action, AllLive, act_all}
use crossbeam_channel.Channel.Drain.{try_drain, bounded-drains}
use crossbeam_channel.Channel.Queues.{opened, bounded-refines-Pipe, unbounded-refines-Pipe}

abbrev cxs : Contexts
cxs = λ n. record { select = 0; packet = 0; thread_id = n; unparked = false }

-- Thread 1, whose exchange fails once for no reason.
abbrev thread : Thread ℕ
thread = record {
  me = 1;
  cx = 1;
  address = 10;
  now = 0;
  rounds = true ∷ false ∷ [];
  array_turns = [];
  list_turns = [];
  zero_wait = record { meanwhile = λ c cxs. (c, cxs); waits = []; readies = [] };
  clock = record { now = 0; overs = [] };
  taken = false;
  ticks = [];
}

abbrev by_one : Use ℕ → Action ℕ
by_one u = record { thread = thread; use_of = u }

by_one-AllLive : (us : List (Use ℕ)) → AllLive (map by_one us)
by_one-AllLive [] = tt
by_one-AllLive (u ∷ us) = (tt, by_one-AllLive us)

abbrev uses : List (Use ℕ)
uses =
    method (send 7)
    ∷ clone_sender
    ∷ drop_sender
    ∷ method (send 8)
    ∷ drop_sender
    ∷ method recv
    ∷ method recv
    ∷ []

abbrev actions : List (Action ℕ)
actions = map by_one uses

abbrev replies : List (Reply ℕ)
replies =
    sent (ok tt)
    ∷ closed
    ∷ closed
    ∷ sent (err (TrySendError.full 8))
    ∷ closed
    ∷ received (ok 7)
    ∷ received (err TryRecvError.disconnected)
    ∷ []

replies_of_one : (pipe_run (some 1) (map (λ a. a.use_of) actions) opened).0 ≡ replies
unfolding pipe_run
replies_of_one = refl

bounded-refines-Pipe_example :
    let (replies, end) = pipe_run (some 1) (map (λ a. a.use_of) actions) opened in
    (c : Channel ℕ) × (c' : Channel ℕ) × (cxs' : Contexts) × (bounded 1 ≡ some c)
    × (act_all (λ n. n) actions c cxs ≡ some (replies, c', cxs'))
    × (c'.senders ≡ end.senders)
    × (c'.receivers ≡ end.receivers)
bounded-refines-Pipe_example =
    bounded-refines-Pipe (λ n. n) 1 actions cxs (omega arith) (omega arith) (by_one-AllLive uses)
      (
        omega arith,
        (
          (omega arith, omega arith),
          (
            (omega arith, omega arith),
            (omega arith, ((omega arith, omega arith), (omega arith, (omega arith, tt)))),
          ),
        ),
      )

unbounded-refines-Pipe_example :
    let (replies, end) = pipe_run none (map (λ a. a.use_of) actions) opened in
    (c : Channel ℕ) × (c' : Channel ℕ) × (cxs' : Contexts) × (unbounded ≡ some c)
    × (act_all (λ n. n) actions c cxs ≡ some (replies, c', cxs'))
    × (c'.senders ≡ end.senders)
    × (c'.receivers ≡ end.receivers)
unbounded-refines-Pipe_example =
    unbounded-refines-Pipe (λ n. n) actions cxs (by_one-AllLive uses)
      (
        omega arith,
        (
          (omega arith, omega arith),
          (
            (omega arith, omega arith),
            (omega arith, ((omega arith, omega arith), (omega arith, (omega arith, tt)))),
          ),
        ),
      )
      (omega arith)

-- Two messages are sent and the sender is dropped.
abbrev left : List (Use ℕ)
left = method (send 7) ∷ method (send 8) ∷ drop_sender ∷ []

abbrev before : List (Action ℕ)
before = map by_one left

abbrev steps : List (Thread ℕ)
steps = thread ∷ thread ∷ thread ∷ []

items_left : (pipe_run (some 2) (map (λ a. a.use_of) before) opened).1.items ≡ 7 ∷ 8 ∷ []
unfolding pipe_run
items_left = refl

one_receiver : (pipe_run (some 2) (map (λ a. a.use_of) before) opened).1.receivers ≡ 1
unfolding pipe_run
one_receiver = refl

bounded-drains_example :
    let (replies, end) = pipe_run (some 2) (map (λ a. a.use_of) before) opened in
    (c : Channel ℕ) × (c1 : Channel ℕ) × (c2 : Channel ℕ) × (cxs1 : Contexts) × (cxs2 : Contexts)
    × (bounded 2 ≡ some c)
    × (act_all (λ n. n) before c cxs ≡ some (replies, c1, cxs1))
    × (try_drain (λ n. n) steps (channel c1) cxs1 ≡ some (end.items, channel c2, cxs2))
    × (c2.senders ≡ end.senders)
    × (c2.receivers ≡ end.receivers)
bounded-drains_example =
    bounded-drains (λ n. n) 2 before steps cxs (omega arith) (omega arith) (by_one-AllLive left)
      (omega arith, (omega arith, ((omega arith, omega arith), tt))) (tt, (tt, (tt, tt)))
      (omega (arith, one_receiver)) (ground (arith, items_left))
