-- ===== src/Flavors/Array/Threads/Moves.antt =====
-- The slots of a channel of src/flavors/array.rs before and after each step of a thread.
use native.Mathlib.Nat.{mod-lt, add-mod_right}
use native.Mathlib.Decide.{ℕ_discrete}
use crossbeam_channel.Common.{
  ℕ, ◌+◌, ◌%◌, ◌≤◌, ◌<◌, ◌≡◌, refl, ap, sym, ◌∙◌, arith, inl, inr, Bool, true, false, List, [], ◌∷◌,
  ◌++◌, none, some, length, get_elem?, set, Bool-cases, length-append, length-set,
  get_elem?-append_left, get_elem?-set_self, get_elem?-set_ne, assign, assign_self, assign_ne,
}
use crossbeam_channel.Flavors.Array.Position.{send_stamp, recv_stamp}
use crossbeam_channel.Flavors.Array.Chan.{Channel}
use crossbeam_channel.Waker.Sync.{SyncWaker}
use crossbeam_channel.Flavors.Array.Threads.Inv.{slot_of, Slots}

module _ {A : Type 0} {k h : ℕ} {log : List A} {c : Channel A} {turn : ℕ → ℕ} {full : ℕ → Bool}
    (v : Slots k h log c turn full) where
  -- A slot that is full keeps its message when the log grows.
  slot_of-append :
      (x : A) (i : ℕ)
      → i < c.cap
      → slot_of k c.cap (full i) (turn i) (get_elem? log (turn i))
        ≡ slot_of k c.cap (full i) (turn i) (get_elem? (log ++ (x ∷ [])) (turn i))
  slot_of-append x i lt = elim (Bool-cases (full i)) [
    | inl taken ↦ rw taken (
        ap (λ m. slot_of k c.cap true (turn i) m)
          (sym (get_elem?-append_left log (x ∷ []) (turn i) (v.full_claimed i lt taken))))
    | inr free ↦ rw free refl
  ]

  later :
      (i : ℕ) → i < c.cap → turn (length log % c.cap) ≡ length log → length log + 1 ≤ turn i + c.cap
  later i lt mine = elim (ℕ_discrete (turn i + c.cap) (length log)) [
    | no n ↦ omega (arith, v.late i lt)
    | yes e ↦
        let same : i ≡ length log % c.cap =
          sym (v.turn_slot i lt) ∙ sym (add-mod_right (turn i) c.cap) ∙ ap (λ t. t % c.cap) e in
        absurd (omega (arith, ap turn same ∙ mine, v.fits.positive))
  ]

  pub Slots-disconnect : Slots k h log (record c { is_disconnected = true }) turn full
  Slots-disconnect = record {
    lap = v.lap;
    fits = v.fits;
    size = v.size;
    head_at = v.head_at;
    tail_at = v.tail_at;
    order = v.order;
    room = v.room;
    turn_slot = v.turn_slot;
    slot_at = v.slot_at;
    late = v.late;
    full_claimed = v.full_claimed;
    free_soon = v.free_soon;
  }

  pub Slots-claim_send :
      (x : A)
      → turn (length log % c.cap) ≡ length log
      → length log < h + c.cap
      → Slots k h
          (log ++ (x ∷ []))
          (record c { tail = send_stamp k c.cap (length log + 1) })
          turn
          full
  Slots-claim_send x mine lt =
      let grows = length-append log (x ∷ []) in
      record {
        lap = v.lap;
        fits = v.fits;
        size = v.size;
        head_at = v.head_at;
        tail_at = ap (send_stamp k c.cap) (omega (arith, grows));
        order = omega (arith, grows, v.order);
        room = omega (arith, grows);
        turn_slot = v.turn_slot;
        slot_at = λ i lt. v.slot_at i lt ∙ ap some (slot_of-append x i lt);
        late = λ i lt. omega (arith, grows, later i lt mine);
        full_claimed = λ i lt f. omega (arith, grows, v.full_claimed i lt f);
        free_soon = v.free_soon;
      }

  pub Slots-claim_recv :
      turn (h % c.cap) ≡ h
      → h < length log
      → Slots k (h + 1) log (record c { head = recv_stamp k c.cap (h + 1) }) turn full
  Slots-claim_recv mine lt = record {
    lap = v.lap;
    fits = v.fits;
    size = v.size;
    head_at = refl;
    tail_at = v.tail_at;
    order = omega arith;
    room = omega (arith, v.room);
    turn_slot = v.turn_slot;
    slot_at = v.slot_at;
    late = v.late;
    full_claimed = v.full_claimed;
    free_soon = λ i lt f. omega (arith, v.free_soon i lt f);
  }

  module _ (p : ℕ) (w : SyncWaker) (mine : turn (p % c.cap) ≡ p) where
    here : p % c.cap < c.cap
    here = mod-lt p v.fits.positive

    abbrev written : A → Channel A
    written x = record c {
      buffer = set c.buffer (p % c.cap) (record { stamp = recv_stamp k c.cap p; msg = some x });
      receivers = w;
    }

    write-slot_at :
        (x : A)
        → get_elem? log p ≡ some x
        → (i : ℕ) → i < c.cap
        → get_elem? (written x).buffer i
          ≡ some
              (slot_of k c.cap (assign full (p % c.cap) true i) (turn i) (get_elem? log (turn i)))
    write-slot_at x e i lt = elim (ℕ_discrete i (p % c.cap)) [
      | yes same ↦
          rw (same, assign_self, mine, e)
            (get_elem?-set_self c.buffer (p % c.cap) _ (omega (arith, v.size, here)))
      | no other ↦
          rw (assign_ne full (p % c.cap) i true other)
            (get_elem?-set_ne c.buffer (p % c.cap) i _ (λ s. other (sym s)) ∙ v.slot_at i lt)
    ]

    pub Slots-write :
        (x : A)
        → get_elem? log p ≡ some x
        → p < length log
        → Slots k h log (written x) turn (assign full (p % c.cap) true)
    unfolding assign
    Slots-write x e lt = record {
      lap = v.lap;
      fits = v.fits;
      size = length-set c.buffer _ _ ∙ v.size;
      head_at = v.head_at;
      tail_at = v.tail_at;
      order = v.order;
      room = v.room;
      turn_slot = v.turn_slot;
      slot_at = write-slot_at x e;
      late = v.late;
      full_claimed = λ i lt' f. ground (arith, v.full_claimed i lt');
      free_soon = λ i lt' f. ground (arith, v.free_soon i lt');
    }

    abbrev emptied : Channel A
    emptied = record c {
      buffer =
          set c.buffer (p % c.cap) (record { stamp = send_stamp k c.cap (p + c.cap); msg = none });
      senders = w;
    }

    read-turn_slot : (i : ℕ) → i < c.cap → assign turn (p % c.cap) (p + c.cap) i % c.cap ≡ i
    read-turn_slot i lt = elim (ℕ_discrete i (p % c.cap)) [
      | yes same ↦ rw (same, assign_self) (add-mod_right p c.cap)
      | no other ↦ rw (assign_ne turn (p % c.cap) i (p + c.cap) other) (v.turn_slot i lt)
    ]

    read-slot_at :
        (i : ℕ)
        → i < c.cap
        → get_elem? emptied.buffer i
          ≡ some (
              slot_of k c.cap
                (assign full (p % c.cap) false i)
                (assign turn (p % c.cap) (p + c.cap) i)
                (get_elem? log (assign turn (p % c.cap) (p + c.cap) i)))
    read-slot_at i lt = elim (ℕ_discrete i (p % c.cap)) [
      | yes same ↦
          rw (same, assign_self full, assign_self turn)
            (get_elem?-set_self c.buffer (p % c.cap) _ (omega (arith, v.size, here)))
      | no other ↦
          rw
            (
              assign_ne full (p % c.cap) i false other,
              assign_ne turn (p % c.cap) i (p + c.cap) other,
            )
            (get_elem?-set_ne c.buffer (p % c.cap) i _ (λ s. other (sym s)) ∙ v.slot_at i lt)
    ]

    pub Slots-read :
        p < h
        → Slots k h log emptied
            (assign turn (p % c.cap) (p + c.cap))
            (assign full (p % c.cap) false)
    unfolding assign
    Slots-read lt = record {
      lap = v.lap;
      fits = v.fits;
      size = length-set c.buffer _ _ ∙ v.size;
      head_at = v.head_at;
      tail_at = v.tail_at;
      order = v.order;
      room = v.room;
      turn_slot = read-turn_slot;
      slot_at = read-slot_at;
      late = λ i lt'. ground (arith, v.late i lt', mine);
      full_claimed = λ i lt' f. ground (arith, v.full_claimed i lt');
      free_soon = λ i lt' f. ground (arith, v.free_soon i lt');
    }
