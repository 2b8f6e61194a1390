-- ===== src/Flavors/Blocking.antt =====
-- What `send` and `recv` of src/flavors/array.rs and src/flavors/list.rs share when they block. What
-- other threads do to the channel, and to the contexts while the thread waits, is given to the call,
-- turn by turn.
pub mod Quiet
use crossbeam_channel.Common.{ℕ, Bool, List, Option, none, some}
use crossbeam_channel.Context.{Selected, waiting, aborted, disconnected, operation, Contexts}
use crossbeam_channel.Context.Wait.{Round}
use crossbeam_channel.Waker.Sync
use crossbeam_channel.Waker.Sync.{SyncWaker}

-- One attempt of the inner loop on a channel of type `C`: what others do before it, and the rounds that it may take.
pub record Attempt (C : Type 0) : Type 0 where
  pub before : C → C
  pub rounds : List Bool

-- One turn of the outer loop: the attempts, what others do before the thread registers and while it
-- waits, the rounds of the wait, and the clock after it.
pub record Turn (C : Type 0) : Type 0 where
  pub attempts : List (Attempt C)
  pub arrives : C → C
  pub waits : List Round
  pub meanwhile : C → C
  pub now : ℕ

-- How the inner loop ends.
pub data Tried (T C R : Type 0) : Type 0 where
  returns : R → C → Contexts → Tried T C R
  breaks : T → C → Tried T C R

-- The end of the wait: a thread that no one has selected takes its entry off the queue. None: the
-- arm that is not reachable, or the unwrap panics.
unfoldable pub leave : ℕ → Selected → SyncWaker → Option SyncWaker
leave oper sel w =
    let (entry, w') = Sync.unregister oper w in
    let left : Option SyncWaker = elim entry [ none ↦ none | some e ↦ some w' ] in
    elim sel [ waiting ↦ none | aborted ↦ left | disconnected ↦ left | operation val ↦ some w ]
