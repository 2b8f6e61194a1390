-- ===== src/Flavors/Array/Blocking.antt =====
-- `send` and `recv` of src/flavors/array.rs, which block.
pub mod Late
pub mod Woken
use crossbeam_channel.Common.{
  ℕ, zero, suc, Bool, true, false, not, ◌||◌, leb, if◌then◌else◌, Result, ok, err, map_err, List,
  [], ◌∷◌, Option, none, some,
}
use crossbeam_channel.Backoff.{Backoff, fresh, snooze}
use crossbeam_channel.Context.{
  Selected, waiting, aborted, disconnected, operation, Contexts, try_select, hook, with_context,
}
use crossbeam_channel.Context.Wait.{Round, wait_until}
use crossbeam_channel.Waker.Sync
use crossbeam_channel.Waker.Sync.{SyncWaker}
use crossbeam_channel.Err.{SendTimeoutError, RecvTimeoutError}
use crossbeam_channel.Flavors.Blocking.{Attempt, Turn, Tried, returns, breaks, leave}
use crossbeam_channel.Flavors.Array.Chan.{
  ArrayToken, Channel, null_token, start_send, write, start_recv, read,
}
use crossbeam_channel.Flavors.Array.Query.{is_empty, is_full}

module _ {A : Type 0} where
  unfoldable pub send_attempts :
      ℕ
      → A
      → List (Attempt (Channel A))
      → Backoff
      → ArrayToken
      → Channel A
      → Contexts
      → Option (Tried ArrayToken (Channel A) (Result (Unit {0}) A))
  send_attempts me msg [] b token c cxs = none
  send_attempts me msg (a ∷ others) b token c cxs = elim (start_send a.rounds token (a.before c)) [
    | none ↦ none
    | some (true, token', c') ↦
        let (res, c'', cxs') = write me token' msg c' cxs in some (returns res c'' cxs')
    | some (false, token', c') ↦
        let (pause, b', more) = snooze b in
        let rest = send_attempts me msg others b' token' c' cxs in
        if more then rest else some (breaks token' c')
  ]

  -- The closure that `send` gives to `Context::with`; `address` is that of the token.
  unfoldable pub send_wait :
      ℕ → ℕ → Option ℕ → Turn (Channel A) → Channel A → Contexts → Option (Channel A × Contexts)
  unfolding leave
  send_wait address cx deadline t c cxs = elim (hook address) [
    | none ↦ none
    | some oper ↦
        let here = t.arrives c in
        let c' : Channel A = record here { senders = Sync.register oper cx here.senders } in
        let ready = not (is_full c') || c'.is_disconnected in
        let cxs' =
          if ready then (try_select cx aborted (with_context cx cxs)).1 else with_context cx cxs in
        elim (wait_until cx deadline t.waits cxs') [
          | none ↦ none
          | some (sel, after) ↦
              let there = t.meanwhile c' in
              elim (leave oper sel there.senders) [
                | none ↦ none
                | some w ↦ some (record there { senders = w }, after)
              ]
        ]
  ]

  -- None: the turns are over, or a step has no result.
  unfoldable pub send_turns :
      ℕ
      → ℕ
      → ℕ
      → Option ℕ
      → A
      → List (Turn (Channel A))
      → ArrayToken
      → Channel A
      → Contexts
      → Option (Result (Unit {0}) (SendTimeoutError A) × Channel A × Contexts)
  unfolding send_attempts send_wait
  send_turns me address cx deadline msg [] token c cxs = none
  send_turns me address cx deadline msg (t ∷ ts) token c cxs =
      elim (send_attempts me msg t.attempts fresh token c cxs) [
        | none ↦ none
        | some (returns res c' cxs') ↦ some (map_err SendTimeoutError.disconnected res, c', cxs')
        | some (breaks token' c') ↦ elim (send_wait address cx deadline t c' cxs) [
          | none ↦ none
          | some (c'', cxs'') ↦
              let rest = send_turns me address cx deadline msg ts token' c'' cxs'' in
              elim deadline [
                | none ↦ rest
                | some d ↦
                    if leb d t.now
                    then some (err (SendTimeoutError.timeout msg), c'', cxs'')
                    else rest
              ]
        ]
      ]

  unfoldable pub send :
      ℕ
      → ℕ
      → ℕ
      → Option ℕ
      → A
      → List (Turn (Channel A))
      → Channel A
      → Contexts
      → Option (Result (Unit {0}) (SendTimeoutError A) × Channel A × Contexts)
  unfolding send_turns
  send me address cx deadline msg turns c cxs =
      send_turns me address cx deadline msg turns null_token c cxs

  unfoldable pub recv_attempts :
      ℕ
      → List (Attempt (Channel A))
      → Backoff
      → ArrayToken
      → Channel A
      → Contexts
      → Option (Tried ArrayToken (Channel A) (Result A (Unit {0})))
  recv_attempts me [] b token c cxs = none
  recv_attempts me (a ∷ others) b token c cxs = elim (start_recv a.rounds token (a.before c)) [
    | none ↦ none
    | some (true, token', c') ↦ elim (read me token' c' cxs) [
      | none ↦ none
      | some (res, c'', cxs') ↦ some (returns res c'' cxs')
    ]
    | some (false, token', c') ↦
        let (pause, b', more) = snooze b in
        let rest = recv_attempts me others b' token' c' cxs in
        if more then rest else some (breaks token' c')
  ]

  -- The closure that `recv` gives to `Context::with`.
  unfoldable pub recv_wait :
      ℕ → ℕ → Option ℕ → Turn (Channel A) → Channel A → Contexts → Option (Channel A × Contexts)
  unfolding leave
  recv_wait address cx deadline t c cxs = elim (hook address) [
    | none ↦ none
    | some oper ↦
        let here = t.arrives c in
        let c' : Channel A = record here { receivers = Sync.register oper cx here.receivers } in
        let ready = not (is_empty c') || c'.is_disconnected in
        let cxs' =
          if ready then (try_select cx aborted (with_context cx cxs)).1 else with_context cx cxs in
        elim (wait_until cx deadline t.waits cxs') [
          | none ↦ none
          | some (sel, after) ↦
              let there = t.meanwhile c' in
              elim (leave oper sel there.receivers) [
                | none ↦ none
                | some w ↦ some (record there { receivers = w }, after)
              ]
        ]
  ]

  unfoldable pub recv_turns :
      ℕ
      → ℕ
      → ℕ
      → Option ℕ
      → List (Turn (Channel A))
      → ArrayToken
      → Channel A
      → Contexts
      → Option (Result A RecvTimeoutError × Channel A × Contexts)
  unfolding recv_attempts recv_wait
  recv_turns me address cx deadline [] token c cxs = none
  recv_turns me address cx deadline (t ∷ ts) token c cxs =
      elim (recv_attempts me t.attempts fresh token c cxs) [
        | none ↦ none
        | some (returns res c' cxs') ↦
            some (map_err (λ _. RecvTimeoutError.disconnected) res, c', cxs')
        | some (breaks token' c') ↦ elim (recv_wait address cx deadline t c' cxs) [
          | none ↦ none
          | some (c'', cxs'') ↦
              let rest = recv_turns me address cx deadline ts token' c'' cxs'' in
              elim deadline [
                | none ↦ rest
                | some d ↦
                    if leb d t.now then some (err RecvTimeoutError.timeout, c'', cxs'') else rest
              ]
        ]
      ]

  unfoldable pub recv :
      ℕ
      → ℕ
      → ℕ
      → Option ℕ
      → List (Turn (Channel A))
      → Channel A
      → Contexts
      → Option (Result A RecvTimeoutError × Channel A × Contexts)
  unfolding recv_turns
  recv me address cx deadline turns c cxs = recv_turns me address cx deadline turns null_token c cxs
