-- ===== src/Flavors/After.antt =====
-- src/flavors/after.rs: the channel that delivers one message at a certain time.
pub mod Laws
use crossbeam_channel.Common.{
  ℕ, zero, suc, ◌+◌, ◌-◌, min, Bool, true, false, not, ◌||◌, ltb, leb, if◌then◌else◌, Result, ok,
  err, List, [], ◌∷◌, Option, none, some,
}
use crossbeam_channel.Clock.{Clock, slept, sleep_until}
use crossbeam_channel.Err.{TryRecvError, empty, RecvTimeoutError, timeout}

-- The clones of a channel share `received`.
pub record Channel : Type 0 where
  pub delivery_time : ℕ
  pub received : Bool

-- `now` is the reading of the clock.
unfoldable pub new : ℕ → ℕ → Channel
new now dur = record { delivery_time = now + dur; received = false }

-- The two looks of `try_recv`: the message is there, and its time has come.
unfoldable pub look : ℕ → Channel → Bool
look now c = if c.received then false else if ltb now c.delivery_time then false else true

-- The swap of `received`, and what it tells.
unfoldable pub receive : {E : Type 0} → E → Channel → Result ℕ E × Channel
receive e c =
    if c.received
    then (err e, record c { received = true })
    else (ok c.delivery_time, record c { received = true })

-- Another receiver may have taken the message.
abbrev pub raced : Bool → Channel → Channel
raced taken c = record c { received = c.received || taken }

-- `taken`: another receiver takes the message between the looks and the swap.
unfoldable pub try_recv : Bool → ℕ → Channel → Result ℕ TryRecvError × Channel
unfolding look receive
try_recv taken now c = if look now c then receive empty (raced taken c) else (err empty, c)

-- One round of the loop of `recv`: it ends with the delivery time or with the deadline, or it sleeps for
-- so long.
pub data Round : Type 0 where
  due : Round
  late : Round
  sleeps_for : ℕ → Round

unfoldable pub round : ℕ → Option ℕ → ℕ → Round
round target deadline now = if leb target now then due else elim deadline [
  | some d ↦ if leb d now then late else sleeps_for (min target d - now)
  | none ↦ sleeps_for (target - now)
]

-- How the loop of `recv` ends, with the clock after it.
pub data Ends : Type 0 where
  delivered : Clock → Ends
  timed_out : Ends

-- The loop of `recv`. None: it is still asleep when the sleeps are over.
unfoldable pub wait : ℕ → Option ℕ → ℕ → List ℕ → Option Ends
unfolding round
wait target deadline now [] = elim (round target deadline now) [
  | due ↦ some (delivered (record { now = now; overs = [] }))
  | late ↦ some timed_out
  | sleeps_for duration ↦ none
]
wait target deadline now (over ∷ overs) = elim (round target deadline now) [
  | due ↦ some (delivered (record { now = now; overs = over ∷ overs }))
  | late ↦ some timed_out
  | sleeps_for duration ↦ wait target deadline (slept now duration over) overs
]

-- `asleep`: it is still asleep when the sleeps it is given are over. `panics`: it has come to
-- `unreachable!()`.
pub data Outcome : Type 0 where
  returns : Result ℕ RecvTimeoutError → Channel → Outcome
  asleep : Outcome
  panics : Outcome

-- `taken`: another receiver takes the message between the first look at `received` and the swap.
unfoldable pub recv : Bool → Option ℕ → Clock → Channel → Outcome
unfolding wait receive
recv taken deadline clock c =
    if c.received
    then elim (sleep_until deadline clock) [ none ↦ asleep | some _ ↦ returns (err timeout) c ]
    else elim (wait c.delivery_time deadline clock.now clock.overs) [
      | none ↦ asleep
      | some timed_out ↦ returns (err timeout) (raced taken c)
      | some (delivered there) ↦
          let (res, c') = receive tt (raced taken c) in
          elim res [
            | ok msg ↦ returns (ok msg) c'
            | err _ ↦ elim (sleep_until none there) [ none ↦ asleep | some _ ↦ panics ]
          ]
    ]

-- `read`, with the token.
unfoldable pub read : Option ℕ → Result ℕ (Unit {0})
read none = err tt
read (some msg) = ok msg

unfoldable pub is_empty : ℕ → Channel → Bool
is_empty now c = if c.received then true else if ltb now c.delivery_time then true else c.received

unfoldable pub is_full : ℕ → Channel → Bool
unfolding is_empty
is_full now c = not (is_empty now c)

unfoldable pub len : ℕ → Channel → ℕ
unfolding is_empty
len now c = if is_empty now c then 0 else 1

unfoldable pub capacity : Channel → Option ℕ
capacity c = some 1

-- `SelectHandle`: `try`, `retry` and `accept`, with the token.
unfoldable pub try : Bool → ℕ → Option ℕ → Channel → Bool × Option ℕ × Channel
unfolding try_recv
try taken now token c =
    let (res, c') = try_recv taken now c in
    elim res [
      | ok msg ↦ (true, some msg, c')
      | err TryRecvError.disconnected ↦ (true, none, c')
      | err empty ↦ (false, token, c')
    ]

unfoldable pub deadline : Channel → Option ℕ
deadline c = some c.delivery_time

unfoldable pub state : ℕ → Channel → ℕ
state now c = if c.received then 1 else if ltb now c.delivery_time then 0 else 1
