-- ===== src/Flavors/Tick.antt =====
-- src/flavors/tick.rs: the channel that delivers messages periodically.
pub mod Laws
use crossbeam_channel.Common.{
  ℕ, zero, suc, ◌+◌, ◌-◌, min, Bool, true, false, not, ltb, leb, if◌then◌else◌, Result, ok, err,
  List, [], ◌∷◌, Option, none, some,
}
use crossbeam_channel.Clock.{slept}
use crossbeam_channel.Common.Word.{wrapping_add}
use crossbeam_channel.Err.{TryRecvError, empty, RecvTimeoutError, timeout}

-- The clones of a channel share `next_tick` and `index`, behind a mutex.
pub record Channel : Type 0 where
  pub next_tick : ℕ
  pub index : ℕ
  pub duration : ℕ

-- `now` is the reading of the clock.
unfoldable pub new : ℕ → ℕ → Channel
new now dur = record { next_tick = now + dur; index = 0; duration = dur }

-- The channel after a message is received.
abbrev pub ticked : ℕ → Channel → Channel
ticked now c = record c { next_tick = now + c.duration; index = wrapping_add c.index 1 }

unfoldable pub try_recv : ℕ → Channel → Result ℕ TryRecvError × Channel
try_recv now c = if leb c.next_tick now then (ok c.next_tick, ticked now c) else (err empty, c)

-- One round of the loop of `recv`: it returns, or it sleeps for so long.
pub data Round : Type 0 where
  returns : Result ℕ RecvTimeoutError → Channel → Round
  sleeps_for : ℕ → Round

unfoldable pub round : Option ℕ → ℕ → Channel → Round
round deadline now c =
    if leb c.next_tick now then returns (ok c.next_tick) (ticked now c) else elim deadline [
      | some d ↦ if leb d now then returns (err timeout) c else sleeps_for (min c.next_tick d - now)
      | none ↦ sleeps_for (c.next_tick - now)
    ]

-- The first reading of the clock, and for each sleep what the other receivers do to the channel
-- meanwhile, and by how much it is longer than asked. None: it is still asleep when they are over.
unfoldable pub recv :
    Option ℕ
    → ℕ
    → List ((Channel → Channel) × ℕ)
    → Channel
    → Option (Result ℕ RecvTimeoutError × Channel)
unfolding round
recv deadline now [] c = elim (round deadline now c) [
  | returns res c' ↦ some (res, c')
  | sleeps_for duration ↦ none
]
recv deadline now ((meanwhile, over) ∷ sleeps) c = elim (round deadline now c) [
  | returns res c' ↦ some (res, c')
  | sleeps_for duration ↦ recv deadline (slept now duration over) sleeps (meanwhile c)
]

-- `read`, with the token.
unfoldable pub read : Option ℕ → Result ℕ (Unit {0})
read none = err tt
read (some msg) = ok msg

unfoldable pub is_empty : ℕ → Channel → Bool
is_empty now c = ltb now c.next_tick

unfoldable pub is_full : ℕ → Channel → Bool
unfolding is_empty
is_full now c = not (is_empty now c)

unfoldable pub len : ℕ → Channel → ℕ
unfolding is_empty
len now c = if is_empty now c then 0 else 1

unfoldable pub capacity : Channel → Option ℕ
capacity c = some 1

-- `SelectHandle`: `try`, `retry` and `accept`, with the token.
unfoldable pub try : ℕ → Option ℕ → Channel → Bool × Option ℕ × Channel
unfolding try_recv
try now token c =
    let (res, c') = try_recv now c in
    elim res [
      | ok msg ↦ (true, some msg, c')
      | err TryRecvError.disconnected ↦ (true, none, c')
      | err empty ↦ (false, token, c')
    ]

unfoldable pub deadline : Channel → Option ℕ
deadline c = some c.next_tick

unfoldable pub state : ℕ → Channel → ℕ
state now c = if ltb now c.next_tick then c.index else wrapping_add c.index 1
