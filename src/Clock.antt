-- ===== src/Clock.antt =====
-- `sleep_until` of src/utils.rs, and the clock that the loops around `thread::sleep` read. An instant
-- is a number of nanoseconds.
use crossbeam_channel.Common.{
  ℕ, ◌+◌, ◌-◌, ◌*◌, ◌^◌, ◌≡◌, refl, arith, leb, if◌then◌else◌, List, [], ◌∷◌, Option, none, some,
  min,
}

-- What `Instant::now` returns when a loop begins, and by how much each `thread::sleep` in it sleeps
-- longer than asked: that is what is documented, it never sleeps less.
pub record Clock : Type 0 where
  pub now : ℕ
  pub overs : List ℕ

-- What `Instant::now` returns after `thread::sleep` for `duration`.
abbrev pub slept : ℕ → ℕ → ℕ → ℕ
slept now duration over = now + duration + over

-- `Duration::from_secs(1000)`.
abbrev pub thousand_seconds : ℕ
thousand_seconds = 1000 * 10 ^ 9

-- None: it is still asleep when the sleeps it is given are over.
unfoldable pub sleep_from : Option ℕ → ℕ → List ℕ → Option (Unit {0})
sleep_from none now [] = none
sleep_from none now (over ∷ overs) = sleep_from none (slept now thousand_seconds over) overs
sleep_from (some d) now [] = if leb d now then some tt else none
sleep_from (some d) now (over ∷ overs) =
    let rest = sleep_from (some d) (slept now (d - now) over) overs in
    if leb d now then some tt else rest

unfoldable pub sleep_until : Option ℕ → Clock → Option (Unit {0})
unfolding sleep_from
sleep_until deadline clock = sleep_from deadline clock.now clock.overs

-- When a loop that waits for `target`, or for a deadline before it, wants to be woken.
abbrev pub wake_at : ℕ → Option ℕ → ℕ
wake_at target none = target
wake_at target (some d) = min target d

pub sleep_from-none : (now : ℕ) (overs : List ℕ) → sleep_from none now overs ≡ none
unfolding sleep_from
sleep_from-none now [] = refl
sleep_from-none now (over ∷ overs) = sleep_from-none (slept now thousand_seconds over) overs

-- Without a deadline it never returns.
pub sleep_until-none : (clock : Clock) → sleep_until none clock ≡ none
unfolding sleep_until
sleep_until-none clock = sleep_from-none clock.now clock.overs

pub sleep_from-some :
    (d now over : ℕ) (overs : List ℕ) → sleep_from (some d) now (over ∷ overs) ≡ some tt
unfolding sleep_from
sleep_from-some d now over [] = ground arith
sleep_from-some d now over (next ∷ overs) = ground arith

-- With one it returns after at most one sleep.
pub sleep_until-some :
    (d now over : ℕ) (overs : List ℕ)
    → sleep_until (some d) (record { now = now; overs = over ∷ overs }) ≡ some tt
unfolding sleep_until
sleep_until-some d now over overs = sleep_from-some d now over overs
