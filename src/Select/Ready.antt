-- ===== src/Select/Ready.antt =====
-- The loops of `run_select` (src/select.rs) that do not block, and its non-blocking form.
use crossbeam_channel.Common.{
  ℕ, Bool, true, false, not, ◌||◌, ◌==◌, leb, if◌then◌else◌, List, [], ◌∷◌, Option, none, some,
  length,
}
use crossbeam_channel.Context.{Contexts}
use crossbeam_channel.Shuffle.{shuffle}
use crossbeam_channel.Select.{
  Token, default, SelectHandle, Item, State, Chosen, Tried, fires, fails,
}

-- What the calls of one round of the non-blocking form are given.
pub record Look (E : Type 0) : Type 0 where
  pub tries : List E
  pub states : List E

-- What the calls of the non-blocking form are given.
pub record Peek (E : Type 0) : Type 0 where
  pub snapshot : List E
  pub looks : List (Look E)

module _ {E S : Type 0} where
  -- The method `try` or `retry` of one handle after the other, until one succeeds.
  unfoldable pub first_ready :
      (SelectHandle E S → E → Token → S → Contexts → Option (Bool × Token × S × Contexts))
      → List E
      → List (Item E S)
      → Token
      → S
      → Contexts
      → Option (Tried E S)
  first_ready method es [] token s cxs = some (fails token s cxs)
  first_ready method [] (i ∷ items) token s cxs = none
  first_ready method (e ∷ es) (i ∷ items) token s cxs = elim (method i.handle e token s cxs) [
    | none ↦ none
    | some (true, token', s', cxs') ↦ some (fires token' i s' cxs')
    | some (false, token', s', cxs') ↦ first_ready method es items token' s' cxs'
  ]

  unfoldable pub take_states :
      List E → List (Item E S) → S → Contexts → Option (List ℕ × S × Contexts)
  take_states es [] s cxs = some ([], s, cxs)
  take_states [] (i ∷ items) s cxs = none
  take_states (e ∷ es) (i ∷ items) s cxs =
      let (current, s', cxs') = i.handle.state e s cxs in
      elim (take_states es items s' cxs') [
        | none ↦ none
        | some (states, s'', cxs'') ↦ some (current ∷ states, s'', cxs'')
      ]

  -- Whether a state has changed, with the current ones.
  unfoldable pub update_states :
      List E → List (Item E S) → List ℕ → S → Contexts → Option (Bool × List ℕ × S × Contexts)
  update_states es [] states s cxs = some (false, states, s, cxs)
  update_states es (i ∷ items) [] s cxs = some (false, [], s, cxs)
  update_states [] (i ∷ items) (state ∷ states) s cxs = none
  update_states (e ∷ es) (i ∷ items) (state ∷ states) s cxs =
      let (current, s', cxs') = i.handle.state e s cxs in
      elim (update_states es items states s' cxs') [
        | none ↦ none
        | some (changed, states', s'', cxs'') ↦
            some (not (state == current) || changed, current ∷ states', s'', cxs'')
      ]

  -- None: a call does not return, or the states still change when the rounds are over.
  unfoldable pub look_loop :
      List (Look E) → List ℕ → Token → State E S → Option (Chosen × State E S)
  unfolding first_ready update_states
  look_loop [] states token w = none
  look_loop (l ∷ looks) states token w =
      elim (first_ready (λ h. h.try) l.tries w.handles token w.shared w.contexts) [
        | none ↦ none
        | some (fires token' i s cxs) ↦
            some (some (token', i.index, i.ptr), record w { shared = s; contexts = cxs })
        | some (fails token' s cxs) ↦ elim (update_states l.states w.handles states s cxs) [
          | none ↦ none
          | some (changed, states', s', cxs') ↦
              let here : State E S = record w { shared = s'; contexts = cxs' } in
              let again = look_loop looks states' token' here in
              if changed then again else some (none, here)
        ]
      ]

  -- A single handle is tried once.
  unfoldable pub look_once : List (Look E) → Token → State E S → Option (Chosen × State E S)
  unfolding first_ready
  look_once [] token w = none
  look_once (l ∷ looks) token w =
      elim (first_ready (λ h. h.try) l.tries w.handles token w.shared w.contexts) [
        | none ↦ none
        | some (fires token' i s cxs) ↦
            some (some (token', i.index, i.ptr), record w { shared = s; contexts = cxs })
        | some (fails token' s cxs) ↦ some (none, record w { shared = s; contexts = cxs })
      ]

  -- `run_select` with `Timeout::Now` on handles that are not none.
  unfoldable pub select_now : Peek E → State E S → Option (Chosen × State E S)
  unfolding look_once look_loop take_states
  select_now p w =
      if leb (length w.handles) 1
      then look_once p.looks default w
      else elim (shuffle w.rng w.handles) [
        | none ↦ none
        | some (handles, rng) ↦ elim (take_states p.snapshot handles w.shared w.contexts) [
          | none ↦ none
          | some (states, s, cxs) ↦
              look_loop p.looks states default
                (record { handles = handles; rng = rng; shared = s; contexts = cxs })
        ]
      ]
