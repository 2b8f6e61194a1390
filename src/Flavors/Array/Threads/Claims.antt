-- ===== src/Flavors/Array/Threads/Claims.antt =====
-- What a round of `start_send` or `start_recv` of src/flavors/array.rs finds while threads are half way
-- through their operations.
use native.Mathlib.Nat.{mod-lt}
use native.Mathlib.Decide.{ℕ_discrete}
use crossbeam_channel.Common.{
  ℕ, ◌+◌, ◌%◌, ◌<◌, ◌≡◌, ◌≢◌, ◌∙◌, arith, inl, inr, Bool, true, false, List, some, length,
  Bool-cases,
}
use crossbeam_channel.Common.Word.{wrapping_add}
use crossbeam_channel.Flavors.Array.Stamp.{index_of, advance}
use crossbeam_channel.Flavors.Array.Position.{
  send_stamp, recv_stamp, index_of-send_stamp, index_of-recv_stamp, send_stamp-add-lap,
  recv_stamp-add-lap, advance-send_stamp, advance-recv_stamp, send_stamp-near, recv_stamp-near,
  send-ne-recv,
}
use crossbeam_channel.Flavors.Array.Chan.{
  ArrayToken, Channel, returns, faults, send_attempt, recv_attempt, recv_round, recv_check,
}
use crossbeam_channel.Flavors.Array.Threads.Inv.{send_token, recv_token, Slots}

module _ {A : Type 0} {k h : ℕ} {log : List A} {c : Channel A} {turn : ℕ → ℕ} {full : ℕ → Bool}
    (v : Slots k h log c turn full) where
  tail_index : index_of c.one_lap c.tail ≡ length log % c.cap
  tail_index = simp (v.lap, v.tail_at) (index_of-send_stamp c.cap k v.fits (length log))

  pub head_index : index_of c.one_lap c.head ≡ h % c.cap
  head_index = simp (v.lap, v.head_at) (index_of-recv_stamp c.cap k v.fits h)

  tail_advance : advance c.cap c.one_lap c.tail ≡ send_stamp k c.cap (length log + 1)
  tail_advance = simp (v.lap, v.tail_at) (advance-send_stamp c.cap k v.fits (length log))

  head_advance : advance c.cap c.one_lap c.head ≡ recv_stamp k c.cap (h + 1)
  head_advance = simp (v.lap, v.head_at) (advance-recv_stamp c.cap k v.fits h)

  pub tail_lap : wrapping_add c.tail c.one_lap ≡ recv_stamp k c.cap (length log)
  tail_lap = simp (v.lap, v.tail_at) (send_stamp-add-lap c.cap k v.fits (length log))

  head_lap : wrapping_add c.head c.one_lap ≡ send_stamp k c.cap (h + c.cap)
  head_lap = simp (v.lap, v.head_at) (recv_stamp-add-lap c.cap k v.fits h)

  tail_in : length log % c.cap < c.cap
  tail_in = mod-lt _ v.fits.positive

  head_in : h % c.cap < c.cap
  head_in = mod-lt _ v.fits.positive

  -- A slot at the tail that waits for another position has another stamp.
  free_elsewhere :
      full (length log % c.cap) ≡ false
      → turn (length log % c.cap) ≢ length log
      → send_stamp k c.cap (turn (length log % c.cap)) ≢ c.tail
  free_elsewhere free other e =
      let late = v.late _ tail_in in
      let soon = v.free_soon _ tail_in free in
      let order = v.order in
      other (send_stamp-near c.cap k v.fits _ _ (omega arith) late (e ∙ v.tail_at))

  -- What a claim for sending makes sure of: the slot at the tail waits for the next position, there
  -- is room for one more, and the token and the new tail are those of that position.
  abbrev pub ClaimsSend : ArrayToken → Channel A → Type 0
  ClaimsSend token c' =
      (full (length log % c.cap) ≡ false)
      × (turn (length log % c.cap) ≡ length log)
      × (length log < h + c.cap)
      × (token ≡ send_token k c.cap (length log))
      × (c' ≡ record c { tail = send_stamp k c.cap (length log + 1) })

  pub claims_send_lem :
      (weak : Bool) (start token : ArrayToken) (c' : Channel A)
      → send_attempt weak start c ≡ returns true token c'
      → ClaimsSend token c'
  unfolding send_attempt
  claims_send_lem weak start token c' e = elim (Bool-cases (full (length log % c.cap))) [
    | inl taken ↦ absurd (
        ground (
          arith,
          tail_index,
          v.slot_at _ tail_in,
          v.tail_at,
          send-ne-recv c.cap k v.fits (length log) (turn (length log % c.cap)),
        ))
    | inr free ↦ elim (ℕ_discrete (turn (length log % c.cap)) (length log)) [
      | yes mine ↦ ground (
        arith,
        tail_index,
        tail_advance,
        v.slot_at _ tail_in,
        v.free_soon _ tail_in free,
        v.tail_at,
        v.lap,
        send_stamp-add-lap c.cap k v.fits (length log),
      )
      | no other ↦
          absurd (ground (arith, tail_index, v.slot_at _ tail_in, free_elsewhere free other))
    ]
  ]

  -- `start_send` finds the channel full only when as many messages are claimed and not yet claimed by
  -- a receiver as the capacity allows.
  pub not_ready_send_lem :
      (weak : Bool) (start token : ArrayToken) (c' : Channel A)
      → send_attempt weak start c ≡ returns false token c'
      → (length log ≡ h + c.cap) × (token ≡ start) × (c' ≡ c)
  unfolding send_attempt
  not_ready_send_lem weak start token c' e = ground (
    arith,
    tail_index,
    v.slot_at _ tail_in,
    head_lap,
    v.tail_at,
    v.order,
    v.room,
    send_stamp-near c.cap k v.fits (length log) (h + c.cap),
  )

  pub no_fault_send_lem : (weak : Bool) (start : ArrayToken) → send_attempt weak start c ≢ faults
  unfolding send_attempt
  no_fault_send_lem weak start e = ground (arith, tail_index, v.slot_at _ tail_in)

  full_elsewhere :
      full (h % c.cap) ≡ true
      → turn (h % c.cap) ≢ h
      → recv_stamp k c.cap (turn (h % c.cap)) ≢ c.head
  full_elsewhere taken other e =
      let late = v.late _ head_in in
      let claimed = v.full_claimed _ head_in taken in
      let room = v.room in
      let order = v.order in
      other (recv_stamp-near c.cap k v.fits _ _ (omega arith) (omega arith) (e ∙ v.head_at))

  -- What a claim for receiving makes sure of: the slot at the head is full with the next position to
  -- be taken, and the token and the new head are those of that position.
  abbrev pub ClaimsRecv : ArrayToken → Channel A → Type 0
  ClaimsRecv token c' =
      (full (h % c.cap) ≡ true)
      × (turn (h % c.cap) ≡ h)
      × (h < length log)
      × (token ≡ recv_token k c.cap h)
      × (c' ≡ record c { head = recv_stamp k c.cap (h + 1) })

  pub claims_recv_lem :
      (weak : Bool) (start token : ArrayToken) (index : ℕ) (c' : Channel A)
      → recv_attempt weak start c ≡ returns true token c'
      → token.slot ≡ some index
      → ClaimsRecv token c'
  unfolding recv_attempt recv_round recv_check
  claims_recv_lem weak start token index c' e t = elim (Bool-cases (full (h % c.cap))) [
    | inr free ↦ absurd (
        ground (
          arith,
          head_index,
          v.slot_at _ head_in,
          v.head_at,
          send-ne-recv c.cap k v.fits (turn (h % c.cap)) h,
        ))
    | inl taken ↦ elim (ℕ_discrete (turn (h % c.cap)) h) [
      | yes mine ↦ ground (
        arith,
        head_index,
        head_advance,
        v.slot_at _ head_in,
        v.full_claimed _ head_in taken,
        v.head_at,
        v.lap,
        recv_stamp-add-lap c.cap k v.fits h,
      )
      | no other ↦
          absurd (ground (arith, head_index, v.slot_at _ head_in, full_elsewhere taken other))
    ]
  ]

  -- `start_recv` finds the channel empty only when every claimed message has been claimed by a
  -- receiver too.
  pub not_ready_recv_lem :
      (weak : Bool) (start token : ArrayToken) (c' : Channel A)
      → recv_attempt weak start c ≡ returns false token c'
      → (length log ≡ h) × (c.is_disconnected ≡ false) × (c' ≡ c)
  unfolding recv_attempt recv_round recv_check
  not_ready_recv_lem weak start token c' e = ground (
    arith,
    head_index,
    v.slot_at _ head_in,
    tail_lap,
    v.head_at,
    v.order,
    v.room,
    recv_stamp-near c.cap k v.fits (length log) h,
  )

  pub no_fault_recv_lem : (weak : Bool) (start : ArrayToken) → recv_attempt weak start c ≢ faults
  unfolding recv_attempt recv_round recv_check
  no_fault_recv_lem weak start e = ground (arith, head_index, v.slot_at _ head_in)
