-- ===== src/Flavors/Tick/Laws.antt =====
-- What src/flavors/tick.rs delivers, and when its receivers return.
use crossbeam_channel.Common.{
  ℕ, ◌+◌, ◌-◌, ◌%◌, ◌≤◌, ◌≡◌, sym, subst, arith, true, false, leb, if◌then◌else◌, ok, err, List, [],
  ◌∷◌, Option, none, some, length, inl, inr, Bool-cases,
}
use crossbeam_channel.Common.Word.{word}
use crossbeam_channel.Clock.{slept, wake_at}
use crossbeam_channel.Err.{timeout}
use crossbeam_channel.Flavors.Tick.{Channel, ticked, try_recv, round, recv, state}

-- Calls of `try_recv` on the clones of a channel, one after the other, with the messages they get.
unfoldable pub collect : List ℕ → Channel → List ℕ × Channel
collect [] c = ([], c)
collect (now ∷ nows) c =
    let (res, c') = try_recv now c in
    let (msgs, end) = collect nows c' in (elim res [ ok msg ↦ msg ∷ msgs | err _ ↦ msgs ], end)

-- The first of the messages is not before `earliest`, and each is at least `period` after the one
-- before it.
abbrev pub IsSpaced : ℕ → ℕ → List ℕ → Type 0
IsSpaced period earliest [] = Unit {0}
IsSpaced period earliest (msg ∷ msgs) = (earliest ≤ msg) × IsSpaced period (msg + period) msgs

IsSpaced-le :
    (period early late : ℕ) (msgs : List ℕ)
    → early ≤ late
    → IsSpaced period late msgs
    → IsSpaced period early msgs
IsSpaced-le period early late [] le s = tt
IsSpaced-le period early late (msg ∷ msgs) le (first, rest) = (omega arith, rest)

collect-due :
    (now : ℕ) (nows : List ℕ) (c : Channel)
    → leb c.next_tick now ≡ true
    → (collect (now ∷ nows) c).0 ≡ c.next_tick ∷ (collect nows (ticked now c)).0
unfolding collect try_recv
collect-due now nows c due = ground arith

collect-early :
    (now : ℕ) (nows : List ℕ) (c : Channel)
    → leb c.next_tick now ≡ false
    → (collect (now ∷ nows) c).0 ≡ (collect nows c).0
unfolding collect try_recv
collect-early now nows c early = ground arith

-- However the clones try to receive, the messages are at least a period apart, and none is before
-- the next tick.
pub collect-IsSpaced :
    (nows : List ℕ) (c : Channel) → IsSpaced c.duration c.next_tick (collect nows c).0
unfolding collect
collect-IsSpaced [] c = tt
collect-IsSpaced (now ∷ nows) c = elim (Bool-cases (leb c.next_tick now)) [
  | inl due ↦
      let le : c.next_tick + c.duration ≤ now + c.duration = ground arith in
      subst (IsSpaced c.duration c.next_tick) (sym (collect-due now nows c due))
        (omega arith, IsSpaced-le c.duration _ _ _ le (collect-IsSpaced nows (ticked now c)))
  | inr early ↦
      subst (IsSpaced c.duration c.next_tick) (sym (collect-early now nows c early))
        (collect-IsSpaced nows c)
]

-- However the clones try to receive, the index of the channel counts the messages, modulo 2 ^ 64.
pub collect-index :
    (nows : List ℕ) (c : Channel)
    → (collect nows c).1.index % word ≡ (c.index + length (collect nows c).0) % word
unfolding collect try_recv
collect-index [] c = ground arith
collect-index (now ∷ nows) c =
    ground (arith, collect-index nows c, collect-index nows (ticked now c))

-- `state` is the index that a try at that time leaves, whether or not it succeeds.
pub state-try_recv : (now : ℕ) (c : Channel) → (try_recv now c).1.index ≡ state now c
unfolding try_recv state
state-try_recv now c = ground arith

-- If the other receivers leave the channel alone, `recv` returns after at most one sleep, from which
-- it wakes at the next tick or the deadline, the earlier of them, or later: with the tick, at that time
-- or later, or with a timeout, at the deadline or later and before the tick.
pub recv-returns_ticked :
    (c : Channel) (deadline : Option ℕ) (now over : ℕ) (sleeps : List ((Channel → Channel) × ℕ))
    → let wake = wake_at c.next_tick deadline in
      let reading = if leb wake now then now else slept now (wake - now) over in
      recv deadline now ((λ x. x, over) ∷ sleeps) c ≡ (
        if leb c.next_tick reading
        then some (ok c.next_tick, ticked reading c)
        else some (err timeout, c))
unfolding recv round
recv-returns_ticked c none now over [] = ground arith
recv-returns_ticked c none now over (next ∷ sleeps) = ground arith
recv-returns_ticked c (some d) now over [] = ground arith
recv-returns_ticked c (some d) now over (next ∷ sleeps) = ground arith
