-- ===== src/Flavors/Array/Send.antt =====
-- `start_send`, `write` and `try_send` of src/flavors/array.rs on a channel that holds a queue.
use native.Mathlib.Nat.{mod-lt}
use native.Mathlib.Decide.{dec_lt}
use crossbeam_channel.Common.{
  Succeeds, ℕ, ◌+◌, ◌%◌, ◌≤◌, ◌<◌, ◌≡◌, ap, sym, ◌∙◌, arith, Bool, true, false, List, [], ◌∷◌, ◌++◌,
  some, ok, err, length, get_elem?, set, length-append, length-set, get_elem?-set_self,
  get_elem?-set_ne, lt-length_of_get_elem?, get_elem?-append_left, get_elem?-append_length,
}
use crossbeam_channel.Context.{Contexts}
use crossbeam_channel.Waker.Sync
use crossbeam_channel.Err.{TrySendError, full}
use crossbeam_channel.Flavors.Array.Position.{
  send_stamp, recv_stamp, slot-ne, send-ne-recv, send_stamp-add-lap, recv_stamp-add-lap,
}
use crossbeam_channel.Flavors.Array.Chan.{
  ArrayToken, Channel, Attempt, returns, spins, null_token, send_attempt, send_loop, start_send,
  write, try_send,
}
use crossbeam_channel.Flavors.Array.Holds.{Holds, free_slot, full_slot}
use crossbeam_channel.Flavors.Array.Facts.{
  tail_index, tail_advance, head_lap, tail_slot_free, head_slot_full, tail-eq-head_of_full,
}

module _ {A : Type 0} {k h : ℕ} {q : List A} {c : Channel A} (v : Holds k h q c) where
  abbrev claimed : ArrayToken
  claimed = record {
    slot = some ((h + length q) % c.cap);
    stamp = recv_stamp k c.cap (h + length q);
  }

  send_attempt-room :
      (weak : Bool) (token : ArrayToken)
      → length q < c.cap
      → send_attempt weak token c ≡ (
          let done : Attempt A =
            returns true claimed (record c { tail = send_stamp k c.cap (h + length q + 1) }) in
          elim weak [ true ↦ spins | false ↦ done ])
  unfolding send_attempt
  send_attempt-room weak token lt = ground (
    arith,
    tail_index v,
    tail_advance v,
    tail_slot_free v lt,
    v.tail_at,
    v.lap,
    send_stamp-add-lap c.cap k v.fits (h + length q),
  )

  send_loop-room :
      (rounds : List Bool) (token : ArrayToken)
      → length q < c.cap
      → Succeeds rounds
      → send_loop rounds token c
        ≡ some (true, claimed, record c { tail = send_stamp k c.cap (h + length q + 1) })
  unfolding send_loop
  send_loop-room [] token lt s = absurd s
  send_loop-room (true ∷ rounds) token lt s =
      ground (arith, send_attempt-room true token lt, send_loop-room rounds token lt s)
  send_loop-room (false ∷ rounds) token lt s = ground (arith, send_attempt-room false token lt)

-- The queue fills the channel.
send_attempt-full :
    {A : Type 0} {k h : ℕ} {x : A} {q : List A} {c : Channel A} (weak : Bool) (token : ArrayToken)
    → Holds k h (x ∷ q) c
    → length (x ∷ q) ≡ c.cap
    → send_attempt weak token c ≡ returns false token c
unfolding send_attempt
send_attempt-full {k = k} {h = h} {x = x} {c = c} weak token v e = ground (
  arith,
  tail_index v,
  tail-eq-head_of_full v e,
  head_slot_full v,
  v.lap,
  head_lap v,
  recv_stamp-add-lap c.cap k v.fits h,
  send-ne-recv c.cap k v.fits (h + c.cap) h,
)

pub send_loop-full :
    {A : Type 0} {k h : ℕ} (q : List A) {c : Channel A} (rounds : List Bool) (token : ArrayToken)
    → Holds k h q c
    → length q ≡ c.cap
    → Succeeds rounds
    → send_loop rounds token c ≡ some (false, token, c)
unfolding send_loop
send_loop-full [] rounds token v e s = absurd (omega (arith, v.fits.positive))
send_loop-full (x ∷ q) [] token v e s = absurd s
send_loop-full (x ∷ q) (weak ∷ rounds) token v e s =
    ground (arith, send_attempt-full weak token v e)

-- The channel after a message has been written at the tail.
abbrev pub pushed : {A : Type 0} → ℕ → ℕ → ℕ → List A → A → Channel A → Contexts → Channel A
pushed me k h q x c cxs = record c {
  tail = send_stamp k c.cap (h + length q + 1);
  buffer = set c.buffer ((h + length q) % c.cap) (full_slot k c.cap (h + length q) x);
  receivers = (Sync.wake_one me c.receivers cxs).1;
}

module _ {A : Type 0} {k h : ℕ} {q : List A} {c : Channel A} (v : Holds k h q c) where
  in_buffer : (p : ℕ) → p % c.cap < length c.buffer
  in_buffer p = omega (arith, mod-lt p v.fits.positive, v.size)

  module _ (me : ℕ) (x : A) (cxs : Contexts) (lt : length q < c.cap) where
    pushed-full_at :
        (j : ℕ) (y : A)
        → get_elem? (q ++ (x ∷ [])) j ≡ some y
        → get_elem? (pushed me k h q x c cxs).buffer ((h + j) % c.cap)
          ≡ some (full_slot k c.cap (h + j) y)
    pushed-full_at j y e = elim (dec_lt j (length q)) [
      | yes old ↦
          let e' : get_elem? q j ≡ some y = sym (get_elem?-append_left q (x ∷ []) j old) ∙ e in
          get_elem?-set_ne c.buffer _ _ _
            (λ same. slot-ne c.cap (h + j) (h + length q) (omega arith) (omega arith) (sym same))
          ∙ v.full_at j y e'
      | no last ↦
          let within = lt-length_of_get_elem? (q ++ (x ∷ [])) j y e in
          let ej : j ≡ length q = omega (arith, length-append q (x ∷ [])) in
          let ey : x ≡ y = cc (get_elem?-append_length q x, ap (get_elem? (q ++ (x ∷ []))) ej) in
          rw (ej, ← ey) (get_elem?-set_self c.buffer _ _ (in_buffer (h + length q)))
    ]

    pushed-free_at :
        (j : ℕ)
        → length (q ++ (x ∷ [])) ≤ j
        → j < c.cap
        → get_elem? (pushed me k h q x c cxs).buffer ((h + j) % c.cap)
          ≡ some (free_slot k c.cap (h + j))
    pushed-free_at j le lt' =
        let new = length-append q (x ∷ []) in
        get_elem?-set_ne c.buffer _ _ _
          (slot-ne c.cap (h + length q) (h + j) (omega (arith, new)) (omega (arith, new)))
        ∙ v.free_at j (omega (arith, new)) lt'

    pub pushed-Holds : Holds k h (q ++ (x ∷ [])) (pushed me k h q x c cxs)
    pushed-Holds = record {
      lap = v.lap;
      fits = v.fits;
      size = length-set c.buffer _ _ ∙ v.size;
      room = omega (arith, length-append q (x ∷ []));
      head_at = v.head_at;
      tail_at = ap (send_stamp k c.cap) (omega (arith, length-append q (x ∷ [])));
      full_at = pushed-full_at;
      free_at = pushed-free_at;
    }

  -- A message sent into a channel that is connected and has room is put behind the others, whatever
  -- spurious failures the compare-and-exchange has before it succeeds; one receiver is woken.
  pub try_send-room :
      (me : ℕ) (rounds : List Bool) (x : A) (cxs : Contexts)
      → c.is_disconnected ≡ false
      → length q < c.cap
      → Succeeds rounds
      → try_send me rounds x c cxs
        ≡ some (ok tt, pushed me k h q x c cxs, (Sync.wake_one me c.receivers cxs).2)
  unfolding try_send start_send write
  try_send-room me rounds x cxs d lt s = ground (arith, send_loop-room v rounds null_token lt s)

  -- A connected channel that is full gives the message back and stays as it is.
  pub try_send-full :
      (me : ℕ) (rounds : List Bool) (x : A) (cxs : Contexts)
      → c.is_disconnected ≡ false
      → length q ≡ c.cap
      → Succeeds rounds
      → try_send me rounds x c cxs ≡ some (err (full x), c, cxs)
  unfolding try_send start_send
  try_send-full me rounds x cxs d e s = ground (arith, send_loop-full q rounds null_token v e s)

-- A disconnected channel gives the message back, full or not, and stays as it is.
pub try_send-disconnected :
    {A : Type 0} (me : ℕ) (rounds : List Bool) (x : A) (c : Channel A) (cxs : Contexts)
    → c.is_disconnected ≡ true
    → try_send me rounds x c cxs ≡ some (err (TrySendError.disconnected x), c, cxs)
unfolding try_send start_send write
try_send-disconnected me rounds x c cxs d = ground arith
