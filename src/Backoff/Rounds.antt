-- ===== src/Backoff/Rounds.antt =====
-- How long the loops of `send`, `recv` and `wait_until` spin before they block.
use crossbeam_channel.Common.{ℕ, zero, suc, ◌+◌, ◌-◌, ◌≤◌, ◌≡◌, arith, if◌then◌else◌}
use crossbeam_channel.Backoff.{Backoff, snooze}

-- `loop { …; if !backoff.snooze() { break; } }`: how often the body runs, within `fuel` rounds.
pub tries : ℕ → Backoff → ℕ
tries zero b = 0
tries (suc fuel) b =
    let (pause, b', more) = snooze b in let rest = tries fuel b' in if more then suc rest else 1

-- From a counter that has not passed the limit, the body of a loop that ends when `snooze`
-- returns false runs once for each value up to 10, so eleven times from a new counter, if it may
-- run as often.
pub tries_lem :
    (fuel : ℕ) (b : Backoff) → b.step ≤ 10 → 11 ≤ fuel + b.step → tries fuel b ≡ 11 - b.step
unfolding tries snooze
tries_lem zero b h k = absurd (omega arith)
tries_lem (suc fuel) b h k = ground (arith, tries_lem fuel (record { step = b.step + 1 }))
