-- ===== src/Flavors/List/Calls.antt =====
-- The calls of the channel of src/flavors/list.rs that do not block.
use crossbeam_channel.Common.{
  ℕ, Bool, true, false, Result, ok, err, map_err, List, Option, none, some,
}
use crossbeam_channel.Context.{Contexts}
use crossbeam_channel.Err.{SendTimeoutError, timeout, TrySendError, TryRecvError, empty}
use crossbeam_channel.Flavors.List.Chan.{Channel, null_token, start_send, write, start_recv, read}

module _ {A : Type 0} where
  -- None: the assertion fails, or `start_send` or `write` have no result.
  unfoldable pub send :
      ℕ
      → List Bool
      → A
      → Channel A
      → Contexts
      → Option (Result (Unit {0}) (SendTimeoutError A) × Channel A × Contexts)
  send me rounds msg c cxs = elim (start_send rounds null_token c) [
    | none ↦ none
    | some (false, token, c') ↦ none
    | some (true, token, c') ↦ elim (write me token msg c' cxs) [
      | none ↦ none
      | some (res, c'', cxs') ↦ some (map_err SendTimeoutError.disconnected res, c'', cxs')
    ]
  ]

  -- The result that `try_send` makes of that of `send`; none is the arm that is not reachable.
  abbrev pub without_timeout :
      Result (Unit {0}) (SendTimeoutError A) → Option (Result (Unit {0}) (TrySendError A))
  without_timeout (ok u) = some (ok u)
  without_timeout (err (SendTimeoutError.disconnected msg)) =
      some (err (TrySendError.disconnected msg))
  without_timeout (err (timeout msg)) = none

  unfoldable pub try_send :
      ℕ
      → List Bool
      → A
      → Channel A
      → Contexts
      → Option (Result (Unit {0}) (TrySendError A) × Channel A × Contexts)
  unfolding send
  try_send me rounds msg c cxs = elim (send me rounds msg c cxs) [
    | none ↦ none
    | some (res, c', cxs') ↦ elim (without_timeout res) [
      | none ↦ none
      | some res' ↦ some (res', c', cxs')
    ]
  ]

  unfoldable pub try_recv : List Bool → Channel A → Option (Result A TryRecvError × Channel A)
  try_recv rounds c = elim (start_recv rounds null_token c) [
    | none ↦ none
    | some (true, token, c') ↦ elim (read token c') [
      | none ↦ none
      | some (res, c'') ↦ some (map_err (λ _. TryRecvError.disconnected) res, c'')
    ]
    | some (false, token, c') ↦ some (err empty, c')
  ]
