-- ===== src/Queue.antt =====
-- What a channel promises to its users: a queue of at most `cap` messages (any number, if none),
-- which can be disconnected.
pub mod Runs
use crossbeam_channel.Common.{
  ℕ, suc, Bool, true, false, ◌==◌, if◌then◌else◌, List, [], ◌∷◌, ◌++◌, Option, none, some, Result,
  ok, err, length,
}
use crossbeam_channel.Err.{TrySendError, full, TryRecvError, empty}

-- The calls of senders and receivers, in the order in which they take effect.
pub data Call (A : Type 0) : Type 0 where
  send : A → Call A
  recv : Call A
  count : Call A
  asks_empty : Call A
  asks_full : Call A
  disconnects : Call A

pub data Reply (A : Type 0) : Type 0 where
  sent : Result (Unit {0}) (TrySendError A) → Reply A
  received : Result A TryRecvError → Reply A
  counted : ℕ → Reply A
  answered : Bool → Reply A
  closed : Reply A

pub record Queue (A : Type 0) : Type 0 where
  pub items : List A
  pub dead : Bool

module _ {A : Type 0} where
  abbrev pub at_capacity : Option ℕ → Queue A → Bool
  at_capacity none s = false
  at_capacity (some cap) s = length s.items == cap

  abbrev pub send_to : Option ℕ → A → Queue A → Reply A × Queue A
  send_to cap x s =
      if s.dead
      then (sent (err (TrySendError.disconnected x)), s)
      else if at_capacity cap s
      then (sent (err (full x)), s)
      else (sent (ok tt), record s { items = s.items ++ (x ∷ []) })

  abbrev pub recv_from : List A → Bool → Reply A × Queue A
  recv_from [] true = (received (err TryRecvError.disconnected), record { items = []; dead = true })
  recv_from [] false = (received (err empty), record { items = []; dead = false })
  recv_from (x ∷ xs) dead = (received (ok x), record { items = xs; dead = dead })

  abbrev pub step : Option ℕ → Call A → Queue A → Reply A × Queue A
  step cap (send x) s = send_to cap x s
  step cap recv s = recv_from s.items s.dead
  step cap count s = (counted (length s.items), s)
  step cap asks_empty s = (answered (length s.items == 0), s)
  step cap asks_full s = (answered (at_capacity cap s), s)
  step cap disconnects s = (closed, record s { dead = true })

  unfoldable pub run : Option ℕ → List (Call A) → Queue A → List (Reply A) × Queue A
  run cap [] s = ([], s)
  run cap (op ∷ ops) s =
      let (reply, s') = step cap op s in
      let (replies, end) = run cap ops s' in (reply ∷ replies, end)
