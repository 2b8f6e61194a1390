-- ===== src/Flavors/After/Laws.antt =====
-- What src/flavors/after.rs delivers, and when its receivers return.
use crossbeam_channel.Common.{
  ℕ, ◌≤◌, ◌≡◌, ◌-◌, refl, arith, Bool, true, false, not, ◌&&◌, leb, if◌then◌else◌, ok, err, List,
  [], ◌∷◌, Option, none, some, assign,
}
use crossbeam_channel.Clock.{Clock, slept, wake_at, sleep_until-none}
use crossbeam_channel.Err.{empty, timeout}
use crossbeam_channel.Flavors.After.{
  Channel, look, receive, try_recv, round, wait, delivered, timed_out, recv, returns, asleep,
  is_empty, state,
}

-- A step of a call of `try_recv` by the receiver `who`: its looks at `received` and at the clock, or its
-- swap, if they have let it through.
pub data Event : Type 0 where
  looks : ℕ → ℕ → Event
  swaps : ℕ → Event

-- Calls of `try_recv` by any receivers whose steps interleave, with the messages they get. `through`
-- says whose looks have let it through.
unfoldable pub race : List Event → (ℕ → Bool) → Channel → List ℕ × Channel
unfolding look receive
race [] through c = ([], c)
race (looks who now ∷ events) through c = race events (assign through who (look now c)) c
race (swaps who ∷ events) through c =
    let (res, c') = receive tt c in
    let (msgs, end) = race events (assign through who false) c' in
    let skipped = race events through c in
    if through who then (elim res [ ok msg ↦ msg ∷ msgs | err _ ↦ msgs ], end) else skipped

-- Some receiver swaps after it has looked at the delivery time or later.
unfoldable pub any_swaps : ℕ → List Event → (ℕ → Bool) → Bool
any_swaps time [] through = false
any_swaps time (looks who now ∷ events) through =
    any_swaps time events (assign through who (leb time now))
any_swaps time (swaps who ∷ events) through =
    if through who then true else any_swaps time events through

race-received :
    (events : List Event) (through : ℕ → Bool) (c : Channel)
    → c.received ≡ true
    → (race events through c).0 ≡ []
unfolding race receive
race-received [] through c r = refl
race-received (looks who now ∷ events) through c r =
    race-received events (assign through who (look now c)) c r
race-received (swaps who ∷ events) through c r = ground (
  arith,
  race-received events (assign through who false) (record c { received = true }) refl,
  race-received events through c r,
)

look-fresh : (now : ℕ) (c : Channel) → c.received ≡ false → look now c ≡ leb c.delivery_time now
unfolding look
look-fresh now c r = ground arith

race-fresh :
    (events : List Event) (through : ℕ → Bool) (c : Channel)
    → c.received ≡ false
    → (race events through c).0
      ≡ (if any_swaps c.delivery_time events through then c.delivery_time ∷ [] else [])
unfolding race receive any_swaps
race-fresh [] through c r = refl
race-fresh (looks who now ∷ events) through c r =
    rw (race, look-fresh now c r)
      (race-fresh events (assign through who (leb c.delivery_time now)) c r)
race-fresh (swaps who ∷ events) through c r = ground (
  arith,
  race-received events (assign through who false) (record c { received = true }) refl,
  race-fresh events through c r,
)

-- However many clones call `try_recv`, and however the looks and the swaps of the calls interleave,
-- the message is received exactly once if some call that has looked at the delivery time or later
-- comes to its swap, and not at all otherwise; a message received before is never received again.
pub race_lem :
    (events : List Event) (c : Channel)
    → (race events (λ _. false) c).0 ≡ (
        if any_swaps c.delivery_time events (λ _. false) && not c.received
        then c.delivery_time ∷ []
        else [])
race_lem events c =
    ground (arith, race-received events (λ _. false) c, race-fresh events (λ _. false) c)

-- A call whose steps nobody interrupts is `try_recv`.
pub race-try_recv :
    (who now : ℕ) (c : Channel)
    → race (looks who now ∷ swaps who ∷ []) (λ _. false) c
      ≡ (elim (try_recv false now c).0 [ ok msg ↦ msg ∷ [] | err _ ↦ [] ], (try_recv false now c).1)
unfolding race try_recv receive assign
race-try_recv who now c = ground arith

-- If the message is not received when `recv` begins and nobody else takes it, `recv` returns after
-- at most one sleep, which it makes if its first reading of the clock is before the delivery time
-- and the deadline, and from which it wakes at the earlier of them or later. It returns the delivery
-- time, at that time or later, or a timeout, at the deadline or later and before the delivery time;
-- when it takes the message, its loop has not slept for longer than that.
pub recv-returns :
    (c : Channel) (deadline : Option ℕ) (now over : ℕ) (overs : List ℕ)
    → c.received ≡ false
    → let wake = wake_at c.delivery_time deadline in
      let reading = if leb wake now then now else slept now (wake - now) over in
      let rest = if leb wake now then over ∷ overs else overs in
      (recv false deadline (record { now = now; overs = over ∷ overs }) c ≡ (
        if leb c.delivery_time reading
        then returns (ok c.delivery_time) (record c { received = true })
        else returns (err timeout) (record c { received = false })))
      × (wait c.delivery_time deadline now (over ∷ overs) ≡ (
          if leb c.delivery_time reading
          then some (delivered (record { now = reading; overs = rest }))
          else some timed_out))
unfolding recv wait round receive
recv-returns c none now over [] r = (ground arith, ground arith)
recv-returns c none now over (next ∷ overs) r = (ground arith, ground arith)
recv-returns c (some d) now over [] r = (ground arith, ground arith)
recv-returns c (some d) now over (next ∷ overs) r = (ground arith, ground arith)

wait-due :
    (target : ℕ) (deadline : Option ℕ) (now : ℕ) (overs : List ℕ)
    → target ≤ now
    → wait target deadline now overs ≡ some (delivered (record { now = now; overs = overs }))
unfolding wait round
wait-due target deadline now [] le = ground arith
wait-due target deadline now (over ∷ overs) le = ground arith

-- If another receiver takes the message after `recv` has found it not received, and the first
-- reading of the clock is not before the delivery time, `recv` sleeps forever, whatever its
-- deadline: it is still asleep after any number of sleeps, however long.
pub recv-hangs :
    (c : Channel) (deadline : Option ℕ) (clock : Clock)
    → c.received ≡ false
    → c.delivery_time ≤ clock.now
    → recv true deadline clock c ≡ asleep
unfolding recv receive
recv-hangs c deadline clock r le =
    ground
      (arith, wait-due c.delivery_time deadline clock.now clock.overs le, sleep_until-none clock)

-- `is_empty` tells whether `try_recv` would fail at that time, and a try, failed or not, leaves the
-- `state` that a select watches as it is.
pub is_empty-try_recv :
    (now : ℕ) (c : Channel)
    → ((try_recv false now c).0 ≡ (if is_empty now c then err empty else ok c.delivery_time))
      × (state now (try_recv false now c).1 ≡ state now c)
unfolding try_recv look receive is_empty state
is_empty-try_recv now c = (ground arith, ground arith)
