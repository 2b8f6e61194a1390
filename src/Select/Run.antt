-- ===== src/Select/Run.antt =====
-- `run_select` of src/select.rs.
use crossbeam_channel.Common.{ℕ, leb, if◌then◌else◌, List, [], ◌∷◌, Option, none, some}
use crossbeam_channel.Clock.{Clock, sleep_until}
use crossbeam_channel.Context.{Contexts}
use crossbeam_channel.Shuffle.{shuffle}
use crossbeam_channel.Select.{
  Token, default, Timeout, right_now, never, at_time, State, Chosen, fires, fails,
}
use crossbeam_channel.Select.Ready.{Peek, first_ready, select_now}
use crossbeam_channel.Select.Block.{Closure, closure}

-- What the calls of one turn of the loop that blocks are given, and the clock after it.
pub record Turn (E S : Type 0) : Type 0 where
  pub tries : List E
  pub retries : List E
  pub blocks : Closure E S
  pub now : ℕ

-- The thread that selects: its context, the addresses of the references, and what its calls are
-- given. `clock` is what it reads when it only sleeps.
pub record Selection (E S : Type 0) : Type 0 where
  pub cx : ℕ
  pub place : ℕ → ℕ
  pub turns : List (Turn E S)
  pub last : Peek E
  pub clock : Clock

abbrev pub limit_of : Timeout → Option ℕ
limit_of right_now = none
limit_of never = none
limit_of (at_time when) = some when

module _ {E S : Type 0} where
  abbrev pub with_shared : State E S → S → Contexts → State E S
  with_shared w s cxs = record w { shared = s; contexts = cxs }

  -- One turn: an operation that is fired, or the token for the next turn.
  unfoldable pub turn :
      Selection E S → Timeout → Turn E S → Token → State E S → Option (Chosen × Token × State E S)
  unfolding first_ready closure
  turn r timeout t token w = elim (shuffle w.rng w.handles) [
    | none ↦ none
    | some (handles, rng) ↦
        let w' : State E S = record w { handles = handles; rng = rng } in
        elim (first_ready (λ h. h.try) t.tries handles token w.shared w.contexts) [
          | none ↦ none
          | some (fires token1 i s1 cxs1) ↦
              some (some (token1, i.index, i.ptr), token1, with_shared w' s1 cxs1)
          | some (fails token1 s1 cxs1) ↦
              elim (first_ready (λ h. h.retry) t.retries handles token1 s1 cxs1) [
                | none ↦ none
                | some (fires token2 i s2 cxs2) ↦
                    some (some (token2, i.index, i.ptr), token2, with_shared w' s2 cxs2)
                | some (fails token2 s2 cxs2) ↦
                    elim (closure r.place r.cx (limit_of timeout) t.blocks handles token2 s2 cxs2) [
                      | none ↦ none
                      | some (none, token3, s3, cxs3) ↦ some (none, token3, with_shared w' s3 cxs3)
                      | some (some (index, ptr), token3, s3, cxs3) ↦
                          some (some (token3, index, ptr), token3, with_shared w' s3 cxs3)
                    ]
              ]
        ]
  ]

  -- None: a call does not return, or the turns are over.
  unfoldable pub turn_loop :
      Selection E S → Timeout → List (Turn E S) → Token → State E S → Option (Chosen × State E S)
  unfolding turn select_now
  turn_loop r timeout [] token w = none
  turn_loop r timeout (t ∷ turns) token w = elim (turn r timeout t token w) [
    | none ↦ none
    | some (some chosen, token', w') ↦ some (some chosen, w')
    | some (none, token', w') ↦
        let again = turn_loop r timeout turns token' w' in
        elim timeout [
          | right_now ↦ none
          | never ↦ again
          | at_time when ↦ if leb when t.now then select_now r.last w' else again
        ]
  ]

  -- No handles.
  unfoldable pub sleep_only : Timeout → Clock → State E S → Option (Chosen × State E S)
  sleep_only right_now clock w = some (none, w)
  sleep_only never clock w = elim (sleep_until none clock) [ none ↦ none | some _ ↦ none ]
  sleep_only (at_time when) clock w = elim (sleep_until (some when) clock) [
    | none ↦ none
    | some _ ↦ some (none, w)
  ]

  unfoldable pub run_select : Selection E S → Timeout → State E S → Option (Chosen × State E S)
  unfolding sleep_only turn_loop select_now
  run_select r timeout w = elim w.handles [
    | [] ↦ sleep_only timeout r.clock w
    | i ∷ items ↦ elim timeout [
      | right_now ↦ select_now r.last w
      | never ↦ turn_loop r never r.turns default w
      | at_time when ↦ turn_loop r (at_time when) r.turns default w
    ]
  ]
