-- ===== src/Flavors/Never.antt =====
-- src/flavors/never.rs: the channel that never delivers messages.
use crossbeam_channel.Common.{
  ℕ, ◌≡◌, arith, Bool, true, false, Result, err, List, ◌∷◌, Option, none, some,
}
use crossbeam_channel.Clock.{Clock, sleep_until, sleep_until-none, sleep_until-some}
use crossbeam_channel.Err.{TryRecvError, empty, RecvTimeoutError, timeout}

-- It has no state.
pub record Channel : Type 0 where
  pub marker : Unit {0}

unfoldable pub new : Channel
new = record { marker = tt }

unfoldable pub try_recv : {A : Type 0} → Channel → Result A TryRecvError
try_recv c = err empty

-- None: it is still asleep when the sleeps it is given are over.
unfoldable pub recv : {A : Type 0} → Option ℕ → Clock → Channel → Option (Result A RecvTimeoutError)
recv deadline clock c = elim (sleep_until deadline clock) [
  | none ↦ none
  | some _ ↦ some (err timeout)
]

unfoldable pub read : {A : Type 0} → Channel → Result A (Unit {0})
read c = err tt

unfoldable pub is_empty : Channel → Bool
is_empty c = true

unfoldable pub is_full : Channel → Bool
is_full c = true

unfoldable pub len : Channel → ℕ
len c = 0

unfoldable pub capacity : Channel → Option ℕ
capacity c = some 0

-- `SelectHandle`: `try`, `retry` and `accept`.
unfoldable pub try : Channel → Bool
try c = false

unfoldable pub deadline : Channel → Option ℕ
deadline c = none

unfoldable pub register : Channel → Bool
register c = true

unfoldable pub state : Channel → ℕ
state c = 0

-- With a deadline `recv` times out after at most one sleep; without one it does not return, however
-- often it sleeps.
pub recv-waits :
    (A : Type 0) (d now over : ℕ) (overs : List ℕ) (clock : Clock) (c : Channel)
    → (recv {A = A} (some d) (record { now = now; overs = over ∷ overs }) c ≡ some (err timeout))
      × (recv {A = A} none clock c ≡ none)
unfolding recv
recv-waits A d now over overs clock c =
    (ground (arith, sleep_until-some d now over overs), ground (arith, sleep_until-none clock))
