-- ===== src/Tests/Timed.antt =====
-- src/flavors/after.rs, src/flavors/tick.rs and src/flavors/never.rs against a clock.
use crossbeam_channel.Common.{List, assign, ◌≡◌, refl, arith, true, false, [], ◌∷◌, some, ok}
use crossbeam_channel.Flavors.After
use crossbeam_channel.Flavors.After.Laws
use crossbeam_channel.Flavors.Tick
use crossbeam_channel.Flavors.Tick.Laws.{collect, IsSpaced, collect-IsSpaced}

abbrev after_ten : After.Channel
after_ten = record { delivery_time = 10; received = false }

abbrev every_ten : Tick.Channel
every_ten = record { next_tick = 10; index = 0; duration = 10 }

-- A sleep until 10 that is 1 longer.
recv-returns_example :
    (After.recv false (some 20) (record { now = 3; overs = 1 ∷ [] }) after_ten
      ≡ After.returns (ok 10) (record { delivery_time = 10; received = true }))
    × (After.wait 10 (some 20) 3 (1 ∷ [])
        ≡ some (After.delivered (record { now = 11; overs = [] })))
recv-returns_example = After.Laws.recv-returns after_ten (some 20) 3 1 [] refl

-- The deadline has passed, and the message is gone.
recv-hangs_example :
    After.recv true (some 20) (record { now = 25; overs = 5 ∷ 5 ∷ [] }) after_ten ≡ After.asleep
recv-hangs_example =
    After.Laws.recv-hangs after_ten (some 20) (record { now = 25; overs = 5 ∷ 5 ∷ [] }) refl
      (omega arith)

-- Receiver 1 is too early, receivers 2 and 3 both look before either swaps.
abbrev events : List After.Laws.Event
events =
    After.Laws.looks 1 3
    ∷ After.Laws.looks 2 12
    ∷ After.Laws.looks 3 13
    ∷ After.Laws.swaps 1
    ∷ After.Laws.swaps 3
    ∷ After.Laws.swaps 2
    ∷ []

race_lem_example : (After.Laws.race events (λ _. false) after_ten).0 ≡ 10 ∷ []
unfolding After.Laws.any_swaps assign
race_lem_example = After.Laws.race_lem events after_ten

collect-IsSpaced_example : IsSpaced 10 10 (collect (3 ∷ 12 ∷ 13 ∷ 25 ∷ []) every_ten).0
collect-IsSpaced_example = collect-IsSpaced (3 ∷ 12 ∷ 13 ∷ 25 ∷ []) every_ten
