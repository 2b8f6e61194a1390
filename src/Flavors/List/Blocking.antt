-- ===== src/Flavors/List/Blocking.antt =====
-- `recv` of src/flavors/list.rs, which blocks. `send` never does.
pub mod Woken
use crossbeam_channel.Common.{
  ℕ, Bool, true, false, not, ◌||◌, leb, if◌then◌else◌, Result, err, map_err, List, [], ◌∷◌, Option,
  none, some,
}
use crossbeam_channel.Backoff.{Backoff, fresh, snooze}
use crossbeam_channel.Context.{aborted, Contexts, try_select, hook, with_context}
use crossbeam_channel.Context.Wait.{wait_until}
use crossbeam_channel.Waker.Sync
use crossbeam_channel.Err.{RecvTimeoutError}
use crossbeam_channel.Flavors.Blocking.{Attempt, Turn, Tried, returns, breaks, leave}
use crossbeam_channel.Flavors.List.Chan.{ListToken, Channel, null_token, start_recv, read}
use crossbeam_channel.Flavors.List.Query.{is_empty}

module _ {A : Type 0} where
  unfoldable pub recv_attempts :
      List (Attempt (Channel A))
      → Backoff
      → ListToken
      → Channel A
      → Contexts
      → Option (Tried ListToken (Channel A) (Result A (Unit {0})))
  recv_attempts [] b token c cxs = none
  recv_attempts (a ∷ others) b token c cxs = elim (start_recv a.rounds token (a.before c)) [
    | none ↦ none
    | some (true, token', c') ↦ elim (read token' c') [
      | none ↦ none
      | some (res, c'') ↦ some (returns res c'' cxs)
    ]
    | some (false, token', c') ↦
        let (pause, b', more) = snooze b in
        let rest = recv_attempts others b' token' c' cxs in
        if more then rest else some (breaks token' c')
  ]

  -- The closure that `recv` gives to `Context::with`.
  unfoldable pub recv_wait :
      ℕ → ℕ → Option ℕ → Turn (Channel A) → Channel A → Contexts → Option (Channel A × Contexts)
  unfolding leave
  recv_wait address cx deadline t c cxs = elim (hook address) [
    | none ↦ none
    | some oper ↦
        let here = t.arrives c in
        let c' : Channel A = record here { receivers = Sync.register oper cx here.receivers } in
        let ready = not (is_empty c') || c'.is_disconnected in
        let cxs' =
          if ready then (try_select cx aborted (with_context cx cxs)).1 else with_context cx cxs in
        elim (wait_until cx deadline t.waits cxs') [
          | none ↦ none
          | some (sel, after) ↦
              let there = t.meanwhile c' in
              elim (leave oper sel there.receivers) [
                | none ↦ none
                | some w ↦ some (record there { receivers = w }, after)
              ]
        ]
  ]

  unfoldable pub recv_turns :
      ℕ
      → ℕ
      → Option ℕ
      → List (Turn (Channel A))
      → ListToken
      → Channel A
      → Contexts
      → Option (Result A RecvTimeoutError × Channel A × Contexts)
  unfolding recv_attempts recv_wait
  recv_turns address cx deadline [] token c cxs = none
  recv_turns address cx deadline (t ∷ ts) token c cxs =
      elim (recv_attempts t.attempts fresh token c cxs) [
        | none ↦ none
        | some (returns res c' cxs') ↦
            some (map_err (λ _. RecvTimeoutError.disconnected) res, c', cxs')
        | some (breaks token' c') ↦ elim (recv_wait address cx deadline t c' cxs) [
          | none ↦ none
          | some (c'', cxs'') ↦
              let rest = recv_turns address cx deadline ts token' c'' cxs'' in
              elim deadline [
                | none ↦ rest
                | some d ↦
                    if leb d t.now then some (err RecvTimeoutError.timeout, c'', cxs'') else rest
              ]
        ]
      ]

  unfoldable pub recv :
      ℕ
      → ℕ
      → Option ℕ
      → List (Turn (Channel A))
      → Channel A
      → Contexts
      → Option (Result A RecvTimeoutError × Channel A × Contexts)
  unfolding recv_turns
  recv address cx deadline turns c cxs = recv_turns address cx deadline turns null_token c cxs
