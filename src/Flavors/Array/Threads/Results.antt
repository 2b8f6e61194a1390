-- ===== src/Flavors/Array/Threads/Results.antt =====
-- What any number of threads may rely on when they share a channel of src/flavors/array.rs.
use native.Mathlib.Nat.{mod-eq_of_lt}
use crossbeam_channel.Common.{
  ℕ, ◌+◌, ◌-◌, ◌*◌, ◌^◌, sym, subst, ◌≤◌, ◌<◌, ◌≡◌, ◌≢◌, arith, Bool, true, false, List, [], Option,
  none, some, ok, length, get_elem?,
}
use crossbeam_channel.Common.Word.{next_power}
use crossbeam_channel.Context.{Contexts}
use crossbeam_channel.Flavors.Array.Chan.{
  ArrayToken, Channel, returns, faults, send_attempt, recv_attempt, recv_round, read, cap_limit,
  initial,
}
use crossbeam_channel.Flavors.Array.Holds.{Holds}
use crossbeam_channel.Flavors.Array.Init.{initial-Holds}
use crossbeam_channel.Flavors.Array.Threads.{Local, idle, sending, receiving, System, Reach}
use crossbeam_channel.Flavors.Array.Threads.Inv.{Owns, Apart, Inv}
use crossbeam_channel.Flavors.Array.Threads.Claims.{
  not_ready_send_lem, not_ready_recv_lem, no_fault_send_lem, no_fault_recv_lem,
}
use crossbeam_channel.Flavors.Array.Threads.Ends.{Reach-Grows, ends_round_lem}
use crossbeam_channel.Flavors.Array.Threads.Safety.{Reach-Inv, read_lem}

-- A channel as `with_capacity` makes it, and threads that do nothing yet.
abbrev pub start : {A : Type 0} → ℕ → Contexts → System A
start cap cxs = record {
  chan = initial cap;
  contexts = cxs;
  locals = λ _. idle;
  log = [];
  taken = 0;
}

start-Inv :
    (A : Type 0) (cap : ℕ) (cxs : Contexts)
    → 0 < cap
    → cap ≤ cap_limit
    → Inv {A = A} (next_power cap) (start cap cxs)
start-Inv A cap cxs pos limit = record {
  turn = λ i. i;
  full = λ _. false;
  slots = record {
    lap = v.lap;
    fits = v.fits;
    size = v.size;
    head_at = v.head_at;
    tail_at = v.tail_at;
    order = omega arith;
    room = omega arith;
    turn_slot = λ i lt. mod-eq_of_lt lt;
    slot_at = λ i lt.
        let z : 0 + i ≡ i = omega arith in
        rw (z, mod-eq_of_lt lt) at (v.free_at i (omega arith) lt);
    late = λ i lt. omega arith;
    full_claimed = λ i lt e. cc;
    free_soon = λ i lt e. omega arith;
  };
  owns = λ i. tt;
  apart = λ i j n. tt;
}
  where
    v : Holds (next_power cap) 0 [] (initial {A = A} cap)
    v = initial-Holds A cap pos limit

-- The slot that a thread is about to write or read.
abbrev pub held : {A : Type 0} → Local A → Option ℕ
held idle = none
held (sending token x p) = token.slot
held (receiving token p) = token.slot

held-ne :
    {A : Type 0} (k cap h : ℕ) (log : List A) (turn : ℕ → ℕ) (full : ℕ → Bool) (slot : ℕ)
    (l m : Local A)
    → Owns k cap h log turn full l
    → Owns k cap h log turn full m
    → Apart l m
    → held l ≡ some slot
    → held m ≢ some slot
held-ne k cap h log turn full slot idle m o q a e f = cc
held-ne k cap h log turn full slot (sending t x p) idle o q a e f = cc
held-ne k cap h log turn full slot (sending t x p) (sending u y r) o q a e f = ground arith
held-ne k cap h log turn full slot (sending t x p) (receiving u r) o q a e f = ground arith
held-ne k cap h log turn full slot (receiving t p) idle o q a e f = cc
held-ne k cap h log turn full slot (receiving t p) (sending u y r) o q a e f = ground arith
held-ne k cap h log turn full slot (receiving t p) (receiving u r) o q a e f = ground arith

module _ {A : Type 0} (cap : ℕ) (cxs : Contexts) (pos : 0 < cap) (limit : cap ≤ cap_limit) where
  reached : {s : System A} → Reach (start cap cxs) s → Inv (next_power cap) s
  reached r = Reach-Inv (next_power cap) (start-Inv A cap cxs pos limit) r

  -- On a channel of a capacity that `with_capacity` accepts, however the steps of the threads
  -- interleave, a thread that has made claim number `p` for receiving reads the message of claim
  -- number `p` for sending: the read finds it written, and not yet taken away.
  pub reads_in_order :
      {s : System A} (me p : ℕ) (token : ArrayToken)
      → Reach (start cap cxs) s
      → s.locals me ≡ receiving token p
      → (x : A) × (c : Channel A) × (after : Contexts) × (get_elem? s.log p ≡ some x)
        × (read me token s.chan s.contexts ≡ some (ok x, c, after))
  reads_in_order {s} me p token r e =
      let (x, logged, found) = read_lem (reached r) me token p e in (x, _, _, logged, found)

  -- On such a channel, two different threads that are half way through an operation, of either
  -- kind, never hold the same slot, however the steps of the threads interleave.
  pub slots_exclusive :
      {s : System A} (i j slot : ℕ)
      → Reach (start cap cxs) s
      → i ≢ j
      → held (s.locals i) ≡ some slot
      → held (s.locals j) ≢ some slot
  slots_exclusive {s} i j slot r n =
      let v = reached r in
      held-ne (next_power cap) s.chan.cap s.taken s.log v.turn v.full slot (s.locals i) (s.locals j)
        (v.owns i) (v.owns j) (v.apart i j n)

  -- On such a channel, however the steps of the threads interleave, no round of either kind reads
  -- outside the buffer, and the claims for sending are never behind those for receiving, nor more
  -- than the capacity ahead.
  pub claims_bounded :
      {s : System A} (weak : Bool) (token : ArrayToken)
      → Reach (start cap cxs) s
      → (send_attempt weak token s.chan ≢ faults)
        × (recv_attempt weak token s.chan ≢ faults)
        × (s.taken ≤ length s.log)
        × (length s.log ≤ s.taken + s.chan.cap)
  claims_bounded {s} weak token r =
      let v = (reached r).slots in
      (no_fault_send_lem v weak token, no_fault_recv_lem v weak token, v.order, v.room)

  -- On such a channel, however the steps of the threads interleave, a round of `start_send` finds
  -- the channel full only when the claims for sending are as far ahead of those for receiving as
  -- the capacity allows; it changes nothing.
  pub full_means_full :
      {s : System A} (weak : Bool) (token after : ArrayToken) (c : Channel A)
      → Reach (start cap cxs) s
      → send_attempt weak token s.chan ≡ returns false after c
      → (length s.log ≡ s.taken + s.chan.cap) × (c ≡ s.chan)
  full_means_full {s} weak token after c r e =
      let (full, _, same) = not_ready_send_lem (reached r).slots weak token after c e in
      (full, same)

  -- On such a channel, however the steps of the threads interleave, a round of `start_recv` finds
  -- the channel empty only when every claim for sending has its claim for receiving and the
  -- channel is connected; it changes nothing.
  pub empty_means_empty :
      {s : System A} (weak : Bool) (token after : ArrayToken) (c : Channel A)
      → Reach (start cap cxs) s
      → recv_attempt weak token s.chan ≡ returns false after c
      → (length s.log ≡ s.taken) × (s.chan.is_disconnected ≡ false) × (c ≡ s.chan)
  empty_means_empty weak token after c r e =
      not_ready_recv_lem (reached r).slots weak token after c e

  -- On such a channel, a round of `start_recv` that begins in any state that the threads reach, and
  -- makes its last two looks after any further steps of the threads, reports the end, by a token
  -- with no slot, only when in that later state every claim for sending has its claim for receiving
  -- and the channel is disconnected; it changes nothing. In between, fewer messages are claimed for
  -- sending than all laps of a word have room for.
  pub end_means_end :
      {s t : System A} (weak : Bool) (token after : ArrayToken) (c : Channel A)
      → Reach (start cap cxs) s
      → Reach s t
      → length t.log < length s.log + 2 ^ (63 - next_power cap) * cap
      → recv_round weak token t.chan s.chan ≡ returns true after c
      → after.slot ≡ none
      → (length t.log ≡ t.taken) × (t.chan.is_disconnected ≡ true) × (c ≡ t.chan)
  end_means_end {s} {t} weak token after c r more few e ends =
      let v = reached r in
      let w = Reach-Inv (next_power cap) v more in
      let (same, le, le') = Reach-Grows more in
      let (size, _, _) = Reach-Grows r in
      ends_round_lem v.slots t.taken t.log t.chan w.turn w.full weak token after c w.slots same le
        le'
        (subst (λ (n : ℕ). length t.log < length s.log + 2 ^ (63 - next_power cap) * n) (sym size)
          few)
        e ends
