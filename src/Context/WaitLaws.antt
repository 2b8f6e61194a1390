-- ===== src/Context/WaitLaws.antt =====
-- How `wait_until` of src/context.rs ends.
use native.Mathlib.Decide.{ℕ_discrete}
use crossbeam_channel.Common.{
  ℕ, ◌+◌, ◌≤◌, ◌<◌, ◌≡◌, ◌≢◌, refl, ap, arith, true, List, [], ◌∷◌, Option, none, some, length,
}
use crossbeam_channel.Backoff.{Backoff, fresh, snooze}
use crossbeam_channel.Context.{
  Selected, waiting, aborted, disconnected, operation, Contexts, selected, into_word,
}
use crossbeam_channel.Context.Laws.{try_select-first, try_select-later, selected-update, waits}
use crossbeam_channel.Context.Wait.{Round, give_up, settled, park_loop, spin_loop, wait_until}

-- The wait ended with what the context has selected, and that is a selection.
abbrev Ends : ℕ → Selected × Contexts → Type 0
Ends cx (sel, after) = (settled sel ≡ true) × (selected cx after ≡ sel)

settled_of_ne : (s : Selected) → s ≢ waiting → settled s ≡ true
settled_of_ne waiting h = absurd (h refl)
settled_of_ne aborted h = refl
settled_of_ne disconnected h = refl
settled_of_ne (operation val) h = refl

give_up-Ends : (cx : ℕ) (cxs : Contexts) → Ends cx (give_up cx cxs)
unfolding give_up
give_up-Ends cx cxs = elim (ℕ_discrete (cxs cx).select 0) [
  | yes e ↦ ground (
    arith,
    try_select-first cx aborted cxs e,
    selected-update cx aborted cxs (record (cxs cx) { select = into_word aborted }) tt refl,
  )
  | no n ↦ ground (
    arith,
    try_select-later cx aborted cxs n,
    settled_of_ne (selected cx cxs) (λ e. n (waits cx cxs e)),
  )
]

park_loop-Ends :
    (cx : ℕ) (deadline : Option ℕ) (rs : List Round) (cxs : Contexts) (out : Selected × Contexts)
    → park_loop cx deadline rs cxs ≡ some out
    → Ends cx out
unfolding park_loop
park_loop-Ends cx deadline [] cxs out h = cc
park_loop-Ends cx none (r ∷ rs) cxs out h =
    ground (arith, park_loop-Ends cx none rs (r.meanwhile (r.before cxs)) out)
park_loop-Ends cx (some end) (r ∷ rs) cxs out h = ground (
  arith,
  park_loop-Ends cx (some end) rs (r.meanwhile (r.before cxs)) out,
  give_up-Ends cx (r.meanwhile (r.before cxs)),
)

spin_loop-Ends :
    (cx : ℕ) (deadline : Option ℕ) (b : Backoff) (rs : List Round) (cxs : Contexts)
    (out : Selected × Contexts)
    → spin_loop cx deadline b rs cxs ≡ some out
    → Ends cx out
unfolding spin_loop
spin_loop-Ends cx deadline b [] cxs out h = cc
spin_loop-Ends cx deadline b (r ∷ rs) cxs out h = ground (
  arith,
  spin_loop-Ends cx deadline (snooze b).1 rs (r.meanwhile (r.before cxs)) out,
  park_loop-Ends cx deadline rs (r.meanwhile (r.before cxs)) out,
)

-- When `wait_until` returns, it returns what the context has selected then, and never `Waiting`,
-- whatever the other threads do: the `unreachable!()` arms of its callers are never taken.
pub wait_until-selected :
    (cx : ℕ) (deadline : Option ℕ) (rs : List Round) (cxs after : Contexts) (sel : Selected)
    → wait_until cx deadline rs cxs ≡ some (sel, after)
    → (sel ≢ waiting) × (selected cx after ≡ sel)
unfolding wait_until
wait_until-selected cx deadline rs cxs after sel h =
    let ends = spin_loop-Ends cx deadline fresh rs cxs (sel, after) h in
    (λ e. cc (ends.0, ap settled e), ends.1)

-- The clock shows the deadline in every round.
abbrev pub AllLate : ℕ → List Round → Type 0
AllLate end [] = Unit {0}
AllLate end (r ∷ rs) = (end ≤ r.now) × AllLate end rs

park_loop-late :
    (cx end : ℕ) (rs : List Round) (cxs : Contexts)
    → AllLate end rs
    → 0 < length rs
    → park_loop cx (some end) rs cxs ≢ none
unfolding park_loop
park_loop-late cx end [] cxs h l e = absurd (omega arith)
park_loop-late cx end (r ∷ rs) cxs h l e = ground arith

spin_loop-late :
    (cx end : ℕ) (b : Backoff) (rs : List Round) (cxs : Contexts)
    → b.step ≤ 10
    → AllLate end rs
    → 11 < length rs + b.step
    → spin_loop cx (some end) b rs cxs ≢ none
unfolding spin_loop snooze
spin_loop-late cx end b [] cxs s h l e = absurd (omega arith)
spin_loop-late cx end b (r ∷ rs) cxs s h l e = ground (
  arith,
  spin_loop-late cx end (snooze b).1 rs (r.meanwhile (r.before cxs)),
  park_loop-late cx end rs (r.meanwhile (r.before cxs)),
)

-- If the clock shows the deadline in every round, `wait_until` returns within twelve rounds:
-- eleven that spin and one that gives up.
pub wait_until-late :
    (cx end : ℕ) (rs : List Round) (cxs : Contexts)
    → AllLate end rs
    → 12 ≤ length rs
    → wait_until cx (some end) rs cxs ≢ none
unfolding wait_until
wait_until-late cx end rs cxs h l = spin_loop-late cx end fresh rs cxs (omega arith) h (omega arith)
