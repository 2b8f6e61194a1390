-- ===== src/Flavors/Array/Chan.antt =====
-- The channel of src/flavors/array.rs: its state and its operations.
use crossbeam_channel.Common.{
  ℕ, zero, suc, ◌+◌, ◌-◌, ◌/◌, ◌^◌, Bool, true, false, ltb, leb, ◌==◌, if◌then◌else◌, Result, ok,
  err, map_err, List, [], ◌∷◌, Option, none, some, get_elem?, set,
}
use crossbeam_channel.Common.Word.{word, wrapping_add, next_power}
use crossbeam_channel.Context.{Contexts}
use crossbeam_channel.Waker.Sync
use crossbeam_channel.Waker.Sync.{SyncWaker}
use crossbeam_channel.Err.{TrySendError, full, TryRecvError, empty}
use crossbeam_channel.Flavors.Array.Stamp.{index_of, advance}

-- None: the memory of the message is not initialised, or its value has been moved out.
pub record Slot (A : Type 0) : Type 0 where
  pub stamp : ℕ
  pub msg : Option A

-- None is the null pointer; a pointer to a slot is its index.
pub record ArrayToken : Type 0 where
  pub slot : Option ℕ
  pub stamp : ℕ

pub record Channel (A : Type 0) : Type 0 where
  pub head : ℕ
  pub tail : ℕ
  pub buffer : List (Slot A)
  pub cap : ℕ
  pub one_lap : ℕ
  pub is_disconnected : Bool
  pub senders : SyncWaker
  pub receivers : SyncWaker

abbrev pub null_token : ArrayToken
null_token = record { slot = none; stamp = 0 }

abbrev pub cap_limit : ℕ
cap_limit = (word - 1) / 4

-- What one round of the loop of `start_send` or `start_recv` comes to: the method returns, with
-- the token that it leaves; it spins for another round; or it reads a slot outside the buffer.
pub data Attempt (A : Type 0) : Type 0 where
  returns : Bool → ArrayToken → Channel A → Attempt A
  spins : Attempt A
  faults : Attempt A

module _ {A : Type 0} where
  -- The loop that stamps the `n` slots from `i` on.
  unfoldable pub init_slots : ℕ → ℕ → List (Slot A)
  init_slots i zero = []
  init_slots i (suc n) = record { stamp = i; msg = none } ∷ init_slots (i + 1) n

  abbrev pub initial : ℕ → Channel A
  initial cap = record {
    head = 2 ^ next_power cap;
    tail = 0;
    buffer = init_slots 0 cap;
    cap = cap;
    one_lap = 2 ^ next_power cap;
    is_disconnected = false;
    senders = Sync.new;
    receivers = Sync.new;
  }

  -- None is a panic of one of the two assertions.
  unfoldable pub with_capacity : ℕ → Option (Channel A)
  unfolding init_slots
  with_capacity cap =
      if ltb 0 cap then if leb cap cap_limit then some (initial cap) else none else none

  -- One round of `start_send`; `weak` says that its weak compare-and-exchange fails for no reason.
  unfoldable pub send_attempt : Bool → ArrayToken → Channel A → Attempt A
  send_attempt weak token c =
      let index = index_of c.one_lap c.tail in
      elim (get_elem? c.buffer index) [
        | none ↦ faults
        | some slot ↦
            if c.tail == slot.stamp
            then if weak
              then spins
              else returns true
                  (record { slot = some index; stamp = wrapping_add slot.stamp c.one_lap })
                  (record c { tail = advance c.cap c.one_lap c.tail })
            else if wrapping_add slot.stamp c.one_lap == c.tail
            then if wrapping_add c.head c.one_lap == c.tail then returns false token c else spins
            else spins
      ]

  -- None: the rounds are over, or a round faults.
  unfoldable pub send_loop :
      List Bool → ArrayToken → Channel A → Option (Bool × ArrayToken × Channel A)
  unfolding send_attempt
  send_loop [] token c = none
  send_loop (weak ∷ rounds) token c = elim (send_attempt weak token c) [
    | returns b token' c' ↦ some (b, token', c')
    | spins ↦ send_loop rounds token c
    | faults ↦ none
  ]

  unfoldable pub start_send :
      List Bool → ArrayToken → Channel A → Option (Bool × ArrayToken × Channel A)
  unfolding send_loop
  start_send rounds token c =
      if c.is_disconnected then some (true, null_token, c) else send_loop rounds token c

  unfoldable pub write :
      ℕ → ArrayToken → A → Channel A → Contexts → Result (Unit {0}) A × Channel A × Contexts
  write me token msg c cxs = elim token.slot [
    | none ↦ (err msg, c, cxs)
    | some index ↦
        let (entry, receivers, cxs') = Sync.wake_one me c.receivers cxs in
        let slot : Slot A = record { stamp = token.stamp; msg = some msg } in
        (ok tt, record c { buffer = set c.buffer index slot; receivers = receivers }, cxs')
  ]

  -- The last two looks of a round of `start_recv`, after it has found that `tail` lags one lap behind
  -- the head: at the flag of disconnection, and at the tail again.
  unfoldable pub recv_check : ℕ → ArrayToken → Channel A → Attempt A
  recv_check tail token c =
      if c.is_disconnected
      then if c.tail == tail then returns true null_token c else spins
      else returns false token c

  -- One round of `start_recv` on the channel `c`, which is `later` when the round comes to its last
  -- two looks; other threads may take steps in between.
  unfoldable pub recv_round : Bool → ArrayToken → Channel A → Channel A → Attempt A
  unfolding recv_check
  recv_round weak token later c =
      let index = index_of c.one_lap c.head in
      let tail = c.tail in
      elim (get_elem? c.buffer index) [
        | none ↦ faults
        | some slot ↦
            if c.head == slot.stamp
            then if weak
              then spins
              else returns true
                  (record { slot = some index; stamp = wrapping_add slot.stamp c.one_lap })
                  (record c { head = advance c.cap c.one_lap c.head })
            else if wrapping_add slot.stamp c.one_lap == c.head
            then if wrapping_add tail c.one_lap == c.head
              then recv_check tail token later
              else spins
            else spins
      ]

  -- A round in which no other thread takes a step.
  unfoldable pub recv_attempt : Bool → ArrayToken → Channel A → Attempt A
  unfolding recv_round
  recv_attempt weak token c = recv_round weak token c c

  unfoldable pub recv_loop :
      List Bool → ArrayToken → Channel A → Option (Bool × ArrayToken × Channel A)
  unfolding recv_attempt
  recv_loop [] token c = none
  recv_loop (weak ∷ rounds) token c = elim (recv_attempt weak token c) [
    | returns b token' c' ↦ some (b, token', c')
    | spins ↦ recv_loop rounds token c
    | faults ↦ none
  ]

  unfoldable pub start_recv :
      List Bool → ArrayToken → Channel A → Option (Bool × ArrayToken × Channel A)
  unfolding recv_loop
  start_recv rounds token c = recv_loop rounds token c

  -- None: the slot lies outside the buffer, or its message is not there to be read.
  unfoldable pub read :
      ℕ → ArrayToken → Channel A → Contexts → Option (Result A (Unit {0}) × Channel A × Contexts)
  read me token c cxs = elim token.slot [
    | none ↦ some (err tt, c, cxs)
    | some index ↦ elim (get_elem? c.buffer index) [
      | none ↦ none
      | some slot ↦ elim slot.msg [
        | none ↦ none
        | some msg ↦
            let (entry, senders, cxs') = Sync.wake_one me c.senders cxs in
            let emptied : Slot A = record { stamp = token.stamp; msg = none } in
            some (ok msg, record c { buffer = set c.buffer index emptied; senders = senders }, cxs')
      ]
    ]
  ]

  -- None stands for what `start_send` or `read` have no result for.
  unfoldable pub try_send :
      ℕ
      → List Bool
      → A
      → Channel A
      → Contexts
      → Option (Result (Unit {0}) (TrySendError A) × Channel A × Contexts)
  try_send me rounds msg c cxs = elim (start_send rounds null_token c) [
    | none ↦ none
    | some (true, token, c') ↦
        let (res, c'', cxs') = write me token msg c' cxs in
        some (map_err TrySendError.disconnected res, c'', cxs')
    | some (false, token, c') ↦ some (err (full msg), c', cxs)
  ]

  unfoldable pub try_recv :
      ℕ → List Bool → Channel A → Contexts → Option (Result A TryRecvError × Channel A × Contexts)
  try_recv me rounds c cxs = elim (start_recv rounds null_token c) [
    | none ↦ none
    | some (true, token, c') ↦ elim (read me token c' cxs) [
      | none ↦ none
      | some (res, c'', cxs') ↦ some (map_err (λ _. TryRecvError.disconnected) res, c'', cxs')
    ]
    | some (false, token, c') ↦ some (err empty, c', cxs)
  ]
