-- ===== src/Context/Wait.antt =====
-- `wait_until` of src/context.rs. What other threads do to the contexts between two steps of the
-- waiting thread, and the time that it reads off the clock, are the rounds it is given.
use crossbeam_channel.Common.{
  ℕ, Bool, true, false, ltb, if◌then◌else◌, ok, err, List, [], ◌∷◌, Option, none, some, ◌==◌,
}
use crossbeam_channel.Backoff.{Backoff, fresh, snooze}
use crossbeam_channel.Context.{
  Selected, waiting, aborted, disconnected, operation, Contexts, try_select, selected,
}

-- One round of a loop: what happens before the load of the selection, the clock, and what happens
-- between that load and the attempt to abort. A return from `park`, woken, timed out or spurious,
-- begins the next round.
pub record Round : Type 0 where
  pub before : Contexts → Contexts
  pub now : ℕ
  pub meanwhile : Contexts → Contexts

-- The end of a wait whose deadline has passed.
unfoldable pub give_up : ℕ → Contexts → Selected × Contexts
give_up cx cxs =
    let (res, after) = try_select cx aborted cxs in
    elim res [ ok _ ↦ (aborted, after) | err s ↦ (s, after) ]

abbrev pub settled : Selected → Bool
settled waiting = false
settled aborted = true
settled disconnected = true
settled (operation val) = true

-- The loop that parks the thread. None: the thread still waits when the rounds are over.
unfoldable pub park_loop : ℕ → Option ℕ → List Round → Contexts → Option (Selected × Contexts)
unfolding give_up
park_loop cx deadline [] cxs = none
park_loop cx deadline (r ∷ rs) cxs =
    let here = r.before cxs in
    let sel = selected cx here in
    let again = park_loop cx deadline rs (r.meanwhile here) in
    if settled sel then some (sel, here) else elim deadline [
      | some end ↦ if ltb r.now end then again else some (give_up cx (r.meanwhile here))
      | none ↦ again
    ]

-- The loop that spins first.
unfoldable pub spin_loop :
    ℕ → Option ℕ → Backoff → List Round → Contexts → Option (Selected × Contexts)
unfolding park_loop
spin_loop cx deadline b [] cxs = none
spin_loop cx deadline b (r ∷ rs) cxs =
    let here = r.before cxs in
    let sel = selected cx here in
    let (pause, b', more) = snooze b in
    let spin = spin_loop cx deadline b' rs (r.meanwhile here) in
    let park = park_loop cx deadline rs (r.meanwhile here) in
    if settled sel then some (sel, here) else if more then spin else park

unfoldable pub wait_until : ℕ → Option ℕ → List Round → Contexts → Option (Selected × Contexts)
unfolding spin_loop
wait_until cx deadline rounds cxs = spin_loop cx deadline fresh rounds cxs

-- `wait_packet`: what other threads do before each load of the packet. None: it is never there.
unfoldable pub wait_packet : ℕ → List (Contexts → Contexts) → Contexts → Option (ℕ × Contexts)
wait_packet cx [] cxs = none
wait_packet cx (before ∷ rounds) cxs =
    let here = before cxs in
    let rest = wait_packet cx rounds here in
    if (here cx).packet == 0 then rest else some ((here cx).packet, here)
