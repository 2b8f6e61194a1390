-- ===== src/Flavors/Zero/Packets.antt =====
-- The packets of src/flavors/zero.rs, through which one message passes, and the state of the channel.
-- Packets on the stack and on the heap stand in one store by their addresses, none of which is null.
use crossbeam_channel.Common.{
  ℕ, ◌+◌, Bool, true, false, if◌then◌else◌, ◌==◌, Result, ok, err, List, [], ◌∷◌, Option, none,
  some, assign,
}
use crossbeam_channel.Waker
use crossbeam_channel.Waker.{Waker}

pub record Packet (A : Type 0) : Type 0 where
  pub on_stack : Bool
  pub ready : Bool
  pub msg : Option A

-- `Inner`, with the store. `fresh` is the address of the next packet.
pub record Channel (A : Type 0) : Type 0 where
  pub senders : Waker
  pub receivers : Waker
  pub is_disconnected : Bool
  pub packets : ℕ → Option (Packet A)
  pub fresh : ℕ

module _ {A : Type 0} where
  abbrev pub empty_on_stack : Packet A
  empty_on_stack = record { on_stack = true; ready = false; msg = none }

  abbrev pub empty_on_heap : Packet A
  empty_on_heap = record { on_stack = false; ready = false; msg = none }

  abbrev pub message_on_stack : A → Packet A
  message_on_stack msg = record { on_stack = true; ready = false; msg = some msg }

  unfoldable pub new : Channel A
  unfolding Waker.new
  new = record {
    senders = Waker.new;
    receivers = Waker.new;
    is_disconnected = false;
    packets = λ _. none;
    fresh = 1;
  }

  abbrev pub put : ℕ → Packet A → Channel A → Channel A
  put ptr packet c = record c { packets = assign c.packets ptr (some packet) }

  -- A packet that is created, with its address.
  abbrev pub allocate : Packet A → Channel A → ℕ × Channel A
  allocate packet c = (c.fresh, record (put c.fresh packet c) { fresh = c.fresh + 1 })

  -- A packet that is dropped. None: it is not there.
  unfoldable pub free : ℕ → Channel A → Option (Channel A)
  free ptr c = elim (c.packets ptr) [
    | none ↦ none
    | some packet ↦ some (record c { packets = assign c.packets ptr none })
  ]

  -- `msg.get().replace(None).unwrap()`, with the message.
  unfoldable pub take_msg : ℕ → Channel A → Option (A × Channel A)
  take_msg ptr c = elim (c.packets ptr) [
    | none ↦ none
    | some packet ↦ elim packet.msg [
      | none ↦ none
      | some msg ↦ some (msg, put ptr (record packet { msg = none }) c)
    ]
  ]

  -- `ready.store(true)`
  unfoldable pub set_ready : ℕ → Channel A → Option (Channel A)
  set_ready ptr c = elim (c.packets ptr) [
    | none ↦ none
    | some packet ↦ some (put ptr (record packet { ready = true }) c)
  ]

  -- `wait_ready`: what other threads do before each load of the flag. None: the packet is not there,
  -- or it is not ready when the rounds are over.
  unfoldable pub wait_ready : ℕ → List (Channel A → Channel A) → Channel A → Option (Channel A)
  wait_ready ptr [] c = none
  wait_ready ptr (before ∷ rounds) c =
      let here = before c in
      let rest = wait_ready ptr rounds here in
      elim (here.packets ptr) [
        | none ↦ none
        | some packet ↦ if packet.ready then some here else rest
      ]

  unfoldable pub write : ℕ → A → Channel A → Option (Result (Unit {0}) A × Channel A)
  write token msg c = if token == 0 then some (err msg, c) else elim (c.packets token) [
    | none ↦ none
    | some packet ↦ some (ok tt, put token (record packet { msg = some msg; ready = true }) c)
  ]

  -- The rounds are those of the wait for a packet on the heap.
  unfoldable pub read :
      ℕ → List (Channel A → Channel A) → Channel A → Option (Result A (Unit {0}) × Channel A)
  unfolding take_msg set_ready wait_ready free
  read token rounds c = if token == 0 then some (err tt, c) else elim (c.packets token) [
    | none ↦ none
    | some packet ↦
        if packet.on_stack
        then elim (take_msg token c) [
          | none ↦ none
          | some (msg, c') ↦ elim (set_ready token c') [
            | none ↦ none
            | some c'' ↦ some (ok msg, c'')
          ]
        ]
        else elim (wait_ready token rounds c) [
          | none ↦ none
          | some c' ↦ elim (take_msg token c') [
            | none ↦ none
            | some (msg, c'') ↦ elim (free token c'') [
              | none ↦ none
              | some c''' ↦ some (ok msg, c''')
            ]
          ]
        ]
  ]
