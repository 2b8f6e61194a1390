-- ===== src/Flavors/Blocking/Quiet.antt =====
-- Turns of a call that blocks in which no other thread does anything, or only wakes it.
use crossbeam_channel.Common.{
  ℕ, zero, suc, repeat, ◌+◌, ◌≤◌, ◌<◌, ◌≡◌, refl, arith, Bool, List, [], ◌∷◌, Option, some, length,
  Succeeds, map, length-append,
}
use crossbeam_channel.Common.Word.{wrapping_add}
use crossbeam_channel.Backoff.{Backoff, fresh, snooze}
use crossbeam_channel.Context.{
  aborted, disconnected, operation, Contexts, update, selected, from_word, reset, with_context,
  into_word,
}
use crossbeam_channel.Context.Laws.{try_select-first}
use crossbeam_channel.Context.Wait.{Round, give_up, park_loop, spin_loop, wait_until}
use crossbeam_channel.Waker
use crossbeam_channel.Waker.Queue.{Absent, entry, unregister-register}
use crossbeam_channel.Waker.Sync
use crossbeam_channel.Waker.Sync.{SyncWaker}
use crossbeam_channel.Flavors.Blocking.{Attempt, Turn, leave}

-- A round of a wait in which no other thread does anything to the contexts.
abbrev pub quiet : ℕ → Round
quiet now = record { before = λ cxs. cxs; now = now; meanwhile = λ cxs. cxs }

abbrev pub AllPast : ℕ → List ℕ → Type 0
AllPast d [] = Unit {0}
AllPast d (now ∷ clock) = (d ≤ now) × AllPast d clock

pub repeat-AllPast : (d now n : ℕ) → d ≤ now → AllPast d (repeat now n)
repeat-AllPast d now zero h = tt
repeat-AllPast d now (suc n) h = (h, repeat-AllPast d now n h)

-- What the thread's context is once it has given up.
abbrev pub given_up : ℕ → Contexts → Contexts
given_up cx cxs = update cxs cx (record (cxs cx) { select = 1 })

give_up-waiting :
    (cx : ℕ) (cxs : Contexts) → (cxs cx).select ≡ 0 → give_up cx cxs ≡ (aborted, given_up cx cxs)
unfolding give_up into_word
give_up-waiting cx cxs e = ground (arith, try_select-first cx aborted cxs e)

park_loop-quiet :
    (cx d : ℕ) (clock : List ℕ) (cxs : Contexts)
    → AllPast d clock
    → 0 < length clock
    → (cxs cx).select ≡ 0
    → park_loop cx (some d) (map quiet clock) cxs ≡ some (aborted, given_up cx cxs)
unfolding park_loop selected from_word
park_loop-quiet cx d [] cxs h l e = absurd (omega arith)
park_loop-quiet cx d (now ∷ clock) cxs h l e = rw e (ground (arith, give_up-waiting cx cxs e))

spin_loop-quiet :
    (cx d : ℕ) (b : Backoff) (clock : List ℕ) (cxs : Contexts)
    → b.step ≤ 10
    → AllPast d clock
    → 11 < length clock + b.step
    → (cxs cx).select ≡ 0
    → spin_loop cx (some d) b (map quiet clock) cxs ≡ some (aborted, given_up cx cxs)
unfolding spin_loop snooze selected from_word
spin_loop-quiet cx d b [] cxs s h l e = absurd (omega arith)
spin_loop-quiet cx d b (now ∷ clock) cxs s h l e =
    rw e
      (ground (arith, spin_loop-quiet cx d (snooze b).1 clock cxs, park_loop-quiet cx d clock cxs))

pub wait_until-quiet :
    (cx d : ℕ) (clock : List ℕ) (cxs : Contexts)
    → AllPast d clock
    → 12 ≤ length clock
    → wait_until cx (some d) (map quiet clock) (with_context cx cxs)
      ≡ some (aborted, given_up cx (with_context cx cxs))
unfolding wait_until with_context reset update
wait_until-quiet cx d clock cxs h l =
    spin_loop-quiet cx d fresh clock (with_context cx cxs) (omega arith) h (omega arith)
      (ground arith)

-- The waker of a thread that has registered and taken its entry off again.
abbrev pub unregistered : SyncWaker → SyncWaker
unregistered w = record {
  inner = record w.inner { register_count = wrapping_add w.inner.register_count 1 };
  len = length w.inner.entries;
}

pub leave-aborted :
    (oper cx : ℕ) (w : SyncWaker)
    → Absent oper w.inner.entries
    → leave oper aborted (Sync.register oper cx w) ≡ some (unregistered w)
unfolding leave Sync.register Sync.unregister Waker.register Waker.len
leave-aborted oper cx w h = ground (
  arith,
  unregister-register oper 0 cx w.inner h,
  length-append w.inner.entries (entry oper 0 cx ∷ []),
)

-- An attempt before which no other thread does anything.
abbrev pub still : {C : Type 0} → List Bool → Attempt C
still rounds = record { before = λ c. c; rounds = rounds }

abbrev pub EachSucceeds : List (List Bool) → Type 0
EachSucceeds [] = Unit {0}
EachSucceeds (rounds ∷ rest) = Succeeds rounds × EachSucceeds rest

-- A turn in which no other thread does anything.
abbrev pub idle : {C : Type 0} → List (List Bool) → List ℕ → ℕ → Turn C
idle tries clock now = record {
  attempts = map still tries;
  arrives = λ c. c;
  waits = map quiet clock;
  meanwhile = λ c. c;
  now = now;
}

-- A turn in which another thread wakes this one in the first round of the wait, and meanwhile the
-- channel becomes `there`.
abbrev pub woken : {C : Type 0} → List (List Bool) → Round → C → ℕ → Turn C
woken tries r there now = record {
  attempts = map still tries;
  arrives = λ c. c;
  waits = r ∷ [];
  meanwhile = λ c. there;
  now = now;
}

pub wait_until-woken :
    (cx n : ℕ) (deadline : Option ℕ) (r : Round) (cxs : Contexts)
    → (r.before cxs cx).select ≡ suc (suc (suc n))
    → wait_until cx deadline (r ∷ []) cxs ≡ some (operation (suc (suc (suc n))), r.before cxs)
unfolding wait_until spin_loop selected from_word
wait_until-woken cx n deadline r cxs e = rw e refl

pub wait_until-cut :
    (cx : ℕ) (deadline : Option ℕ) (r : Round) (cxs : Contexts)
    → (r.before cxs cx).select ≡ 2
    → wait_until cx deadline (r ∷ []) cxs ≡ some (disconnected, r.before cxs)
unfolding wait_until spin_loop selected from_word
wait_until-cut cx deadline r cxs e = rw e refl
