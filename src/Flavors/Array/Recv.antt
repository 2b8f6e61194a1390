-- ===== src/Flavors/Array/Recv.antt =====
-- `start_recv`, `read` and `try_recv` of src/flavors/array.rs on a channel that holds a queue.
use native.Mathlib.Nat.{mod-lt, add-mod_right}
use native.Mathlib.Decide.{dec_lt}
use crossbeam_channel.Common.{
  Succeeds, ℕ, suc, ◌+◌, ◌%◌, ◌≤◌, ◌<◌, ◌≡◌, refl, ap, ◌∙◌, arith, Bool, true, false, List, [], ◌∷◌,
  some, ok, err, length, get_elem?, set, length-set, get_elem?-set_self, get_elem?-set_ne,
  lt-length_of_get_elem?,
}
use crossbeam_channel.Context.{Contexts}
use crossbeam_channel.Waker.Sync
use crossbeam_channel.Err.{TryRecvError, empty}
use crossbeam_channel.Flavors.Array.Position.{
  send_stamp, recv_stamp, slot-ne, send-ne-recv, send_stamp-add-lap, recv_stamp-add-lap,
}
use crossbeam_channel.Flavors.Array.Chan.{
  ArrayToken, Channel, Attempt, returns, spins, null_token, recv_attempt, recv_round, recv_check,
  recv_loop, start_recv, read, try_recv,
}
use crossbeam_channel.Flavors.Array.Holds.{Holds, free_slot, full_slot}
use crossbeam_channel.Flavors.Array.Facts.{
  head_index, head_advance, tail_lap, head_slot_free, head_slot_full,
}

-- The channel after the message at the head has been read.
abbrev pub popped : {A : Type 0} → ℕ → ℕ → ℕ → Channel A → Contexts → Channel A
popped me k h c cxs = record c {
  head = recv_stamp k c.cap (h + 1);
  buffer = set c.buffer (h % c.cap) (free_slot k c.cap (h + c.cap));
  senders = (Sync.wake_one me c.senders cxs).1;
}

module _ {A : Type 0} {k h : ℕ} {x : A} {q : List A} {c : Channel A} (v : Holds k h (x ∷ q) c) where
  abbrev claimed : ArrayToken
  claimed = record { slot = some (h % c.cap); stamp = send_stamp k c.cap (h + c.cap) }

  recv_attempt-some :
      (weak : Bool) (token : ArrayToken)
      → recv_attempt weak token c ≡ (
          let done : Attempt A =
            returns true claimed (record c { head = recv_stamp k c.cap (h + 1) }) in
          elim weak [ true ↦ spins | false ↦ done ])
  unfolding recv_attempt recv_round recv_check
  recv_attempt-some weak token = ground (
    arith,
    head_index v,
    head_advance v,
    head_slot_full v,
    v.head_at,
    v.lap,
    recv_stamp-add-lap c.cap k v.fits h,
  )

  recv_loop-some :
      (rounds : List Bool) (token : ArrayToken)
      → Succeeds rounds
      → recv_loop rounds token c
        ≡ some (true, claimed, record c { head = recv_stamp k c.cap (h + 1) })
  unfolding recv_loop
  recv_loop-some [] token s = absurd s
  recv_loop-some (true ∷ rounds) token s =
      ground (arith, recv_attempt-some true token, recv_loop-some rounds token s)
  recv_loop-some (false ∷ rounds) token s = ground (arith, recv_attempt-some false token)

  module _ (me : ℕ) (cxs : Contexts) where
    popped-full_at :
        (j : ℕ) (y : A)
        → get_elem? q j ≡ some y
        → get_elem? (popped me k h c cxs).buffer ((h + 1 + j) % c.cap)
          ≡ some (full_slot k c.cap (h + 1 + j) y)
    popped-full_at j y e =
        let within = lt-length_of_get_elem? q j y e in
        let z : h + 1 + j ≡ h + suc j = omega arith in
        rw z (
          get_elem?-set_ne c.buffer _ _ _
            (slot-ne c.cap h (h + suc j) (omega arith) (omega (arith, v.room)))
          ∙ v.full_at (suc j) y e)

    popped-free_at :
        (j : ℕ)
        → length q ≤ j
        → j < c.cap
        → get_elem? (popped me k h c cxs).buffer ((h + 1 + j) % c.cap)
          ≡ some (free_slot k c.cap (h + 1 + j))
    popped-free_at j le lt = elim (dec_lt (suc j) c.cap) [
      | yes inside ↦
          let z : h + 1 + j ≡ h + suc j = omega arith in
          rw z (
            get_elem?-set_ne c.buffer _ _ _
              (slot-ne c.cap h (h + suc j) (omega arith) (omega arith))
            ∙ v.free_at (suc j) (omega arith) inside)
      | no last ↦
          let z : h + 1 + j ≡ h + c.cap = omega arith in
          rw (z, add-mod_right h c.cap)
            (get_elem?-set_self c.buffer _ _ (omega (arith, mod-lt h v.fits.positive, v.size)))
    ]

    pub popped-Holds : Holds k (h + 1) q (popped me k h c cxs)
    popped-Holds = record {
      lap = v.lap;
      fits = v.fits;
      size = length-set c.buffer _ _ ∙ v.size;
      room = omega (arith, v.room);
      head_at = refl;
      tail_at = v.tail_at ∙ ap (send_stamp k c.cap) (omega arith);
      full_at = popped-full_at;
      free_at = popped-free_at;
    }

  -- A channel that holds messages gives the oldest one, disconnected or not, and one sender is
  -- woken.
  pub try_recv-some :
      (me : ℕ) (rounds : List Bool) (cxs : Contexts)
      → Succeeds rounds
      → try_recv me rounds c cxs
        ≡ some (ok x, popped me k h c cxs, (Sync.wake_one me c.senders cxs).2)
  unfolding try_recv start_recv read
  try_recv-some me rounds cxs s =
      ground (arith, recv_loop-some rounds null_token s, head_slot_full v)

module _ {A : Type 0} {k h : ℕ} {c : Channel A} (v : Holds k h [] c) where
  recv_attempt-none :
      (weak : Bool) (token : ArrayToken)
      → recv_attempt weak token c ≡ (
          let dead : Attempt A = returns true null_token c in
          let not_ready : Attempt A = returns false token c in
          elim c.is_disconnected [ true ↦ dead | false ↦ not_ready ])
  unfolding recv_attempt recv_round recv_check
  recv_attempt-none weak token = ground (
    arith,
    head_index v,
    head_slot_free v refl,
    v.head_at,
    v.tail_at,
    v.lap,
    tail_lap v,
    send_stamp-add-lap c.cap k v.fits h,
    send-ne-recv c.cap k v.fits h h,
  )

  pub recv_loop-none :
      (rounds : List Bool) (token : ArrayToken)
      → c.is_disconnected ≡ false
      → Succeeds rounds
      → recv_loop rounds token c ≡ some (false, token, c)
  unfolding recv_loop
  recv_loop-none [] token d s = absurd s
  recv_loop-none (weak ∷ rounds) token d s = ground (arith, recv_attempt-none weak token)

  -- An empty channel reports that, and whether it is disconnected, and stays as it is.
  pub try_recv-none :
      (me : ℕ) (rounds : List Bool) (cxs : Contexts)
      → Succeeds rounds
      → try_recv me rounds c cxs
        ≡ some (
          err (elim c.is_disconnected [ true ↦ TryRecvError.disconnected | false ↦ empty ]),
          c,
          cxs,
        )
  unfolding try_recv start_recv recv_loop read
  try_recv-none me [] cxs s = absurd s
  try_recv-none me (weak ∷ rounds) cxs s = ground (arith, recv_attempt-none weak null_token)
