-- ===== src/Flavors/Array/Threads/Inv.antt =====
-- What holds of a channel of src/flavors/array.rs while threads are half way through their operations.
use crossbeam_channel.Common.{
  ℕ, ◌+◌, ◌%◌, ◌^◌, ◌≤◌, ◌<◌, ◌≡◌, ◌≢◌, Bool, true, false, List, Option, none, some, length,
  get_elem?, if◌then◌else◌,
}
use crossbeam_channel.Flavors.Array.Stamp.{Fits}
use crossbeam_channel.Flavors.Array.Position.{send_stamp, recv_stamp}
use crossbeam_channel.Flavors.Array.Chan.{Slot, ArrayToken, Channel}
use crossbeam_channel.Flavors.Array.Threads.{Local, idle, sending, receiving, System}

-- The tokens of the claims of position `p`.
abbrev pub send_token : ℕ → ℕ → ℕ → ArrayToken
send_token k cap p = record { slot = some (p % cap); stamp = recv_stamp k cap p }

abbrev pub recv_token : ℕ → ℕ → ℕ → ArrayToken
recv_token k cap p = record { slot = some (p % cap); stamp = send_stamp k cap (p + cap) }

module _ {A : Type 0} where
  abbrev pub slot_of : ℕ → ℕ → Bool → ℕ → Option A → Slot A
  slot_of k cap full p m =
      if full
      then record { stamp = recv_stamp k cap p; msg = m }
      else record { stamp = send_stamp k cap p; msg = none }

  -- Slot `i` serves the position `turn i`: it waits for that message, or it is full with it.
  -- One lap is 2 ^ k; `n` claims have been made for sending and `h` for receiving.
  pub record Slots (k h : ℕ) (log : List A) (c : Channel A) (turn : ℕ → ℕ) (full : ℕ → Bool)
      : Type 0 where
    pub lap : c.one_lap ≡ 2 ^ k
    pub fits : Fits c.cap k
    pub size : length c.buffer ≡ c.cap
    pub head_at : c.head ≡ recv_stamp k c.cap h
    pub tail_at : c.tail ≡ send_stamp k c.cap (length log)
    pub order : h ≤ length log
    pub room : length log ≤ h + c.cap
    pub turn_slot : (i : ℕ) → i < c.cap → turn i % c.cap ≡ i
    pub slot_at :
        (i : ℕ)
        → i < c.cap
        → get_elem? c.buffer i ≡ some (slot_of k c.cap (full i) (turn i) (get_elem? log (turn i)))
    pub late : (i : ℕ) → i < c.cap → length log ≤ turn i + c.cap
    pub full_claimed : (i : ℕ) → i < c.cap → full i ≡ true → turn i < length log
    pub free_soon : (i : ℕ) → i < c.cap → full i ≡ false → turn i < h + c.cap

  -- What a thread that has claimed a slot may rely on.
  abbrev pub Owns : ℕ → ℕ → ℕ → List A → (ℕ → ℕ) → (ℕ → Bool) → Local A → Type 0
  Owns k cap h log turn full idle = Unit {0}
  Owns k cap h log turn full (sending token x p) =
      (token ≡ send_token k cap p)
      × (p < length log)
      × (get_elem? log p ≡ some x)
      × (turn (p % cap) ≡ p)
      × (full (p % cap) ≡ false)
  Owns k cap h log turn full (receiving token p) =
      (token ≡ recv_token k cap p) × (p < h) × (turn (p % cap) ≡ p) × (full (p % cap) ≡ true)

  -- Two threads do not hold the same claim.
  abbrev pub Apart : Local A → Local A → Type 0
  Apart idle b = Unit {0}
  Apart (sending t x p) idle = Unit {0}
  Apart (sending t x p) (sending u y q) = p ≢ q
  Apart (sending t x p) (receiving u q) = Unit {0}
  Apart (receiving t p) idle = Unit {0}
  Apart (receiving t p) (sending u y q) = Unit {0}
  Apart (receiving t p) (receiving u q) = p ≢ q

  pub record Inv (k : ℕ) (s : System A) : Type 0 where
    pub turn : ℕ → ℕ
    pub full : ℕ → Bool
    pub slots : Slots k s.taken s.log s.chan turn full
    pub owns : (i : ℕ) → Owns k s.chan.cap s.taken s.log turn full (s.locals i)
    pub apart : (i j : ℕ) → i ≢ j → Apart (s.locals i) (s.locals j)
