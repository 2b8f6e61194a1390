-- ===== src/Flavors/Zero/Calls.antt =====
-- The calls of src/flavors/zero.rs that do not block, and `disconnect`.
use crossbeam_channel.Common.{
  ℕ, Bool, true, if◌then◌else◌, Result, ok, err, map_err, List, Option, none, some,
}
use crossbeam_channel.Context.{Contexts}
use crossbeam_channel.Waker
use crossbeam_channel.Err.{TrySendError, TryRecvError}
use crossbeam_channel.Flavors.Zero.Packets.{Channel, write, read}
use crossbeam_channel.Flavors.Zero.Chan.{with_senders, with_receivers}

module _ {A : Type 0} where
  -- `write(token, msg).ok().unwrap()`. None: the unwrap panics.
  unfoldable pub write_unwrap : ℕ → A → Channel A → Option (Channel A)
  unfolding write
  write_unwrap token msg c = elim (write token msg c) [
    | none ↦ none
    | some (ok _, c') ↦ some c'
    | some (err _, c') ↦ none
  ]

  unfoldable pub try_send :
      ℕ
      → A
      → Channel A
      → Contexts
      → Option (Result (Unit {0}) (TrySendError A) × Channel A × Contexts)
  unfolding write_unwrap
  try_send me msg c cxs =
      let (found, w, cxs') = Waker.wake_one me c.receivers cxs in
      let c' = with_receivers c w in
      elim found [
        | some e ↦ elim (write_unwrap e.packet msg c') [
          | none ↦ none
          | some c'' ↦ some (ok tt, c'', cxs')
        ]
        | none ↦
            if c'.is_disconnected
            then some (err (TrySendError.disconnected msg), c', cxs')
            else some (err (TrySendError.full msg), c', cxs')
      ]

  -- The rounds are those of `read`.
  unfoldable pub try_recv :
      ℕ
      → List (Channel A → Channel A)
      → Channel A
      → Contexts
      → Option (Result A TryRecvError × Channel A × Contexts)
  unfolding read
  try_recv me rounds c cxs =
      let (found, w, cxs') = Waker.wake_one me c.senders cxs in
      let c' = with_senders c w in
      elim found [
        | some e ↦ elim (read e.packet rounds c') [
          | none ↦ none
          | some (res, c'') ↦ some (map_err (λ _. TryRecvError.disconnected) res, c'', cxs')
        ]
        | none ↦
            if c'.is_disconnected
            then some (err TryRecvError.disconnected, c', cxs')
            else some (err TryRecvError.empty, c', cxs')
      ]

  unfoldable pub disconnect : Channel A → Contexts → Channel A × Contexts
  disconnect c cxs =
      let cxs' = Waker.disconnect c.senders cxs in
      let cxs'' = Waker.disconnect c.receivers cxs' in
      if c.is_disconnected then (c, cxs) else (record c { is_disconnected = true }, cxs'')

  abbrev pub len : Channel A → ℕ
  len c = 0

  abbrev pub capacity : Channel A → Option ℕ
  capacity c = some 0

  abbrev pub is_empty : Channel A → Bool
  is_empty c = true

  abbrev pub is_full : Channel A → Bool
  is_full c = true
