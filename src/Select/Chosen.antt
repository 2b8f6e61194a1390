-- ===== src/Select/Chosen.antt =====
-- What `run_select` (src/select.rs) returns when it blocks.
use crossbeam_channel.Common.{
  ℕ, ◌≡◌, ◌⊎◌, inl, inr, refl, List, [], ◌∷◌, Option, none, some, Option-cases, Bool-cases, leb,
  subst,
}
use crossbeam_channel.Context.{Contexts}
use crossbeam_channel.Clock.{Clock, sleep_until}
use crossbeam_channel.Shuffle.{shuffle}
use crossbeam_channel.Select.{
  Token, default, Timeout, right_now, never, at_time, Item, State, Chosen, fires, fails,
}
use crossbeam_channel.Select.Ready.{first_ready, select_now}
use crossbeam_channel.Select.Block.{closure}
use crossbeam_channel.Select.Run.{
  Turn, Selection, limit_of, turn, turn_loop, sleep_only, run_select,
}
use crossbeam_channel.Select.Order.{In, shuffle-In}
use crossbeam_channel.Select.Fired.{
  Fired, FiredIn, try-Fired, retry-Fired, closure-fires, select_now-FiredIn,
}

Timeout-cases : (t : Timeout) → (t ≡ right_now) ⊎ ((t ≡ never) ⊎ ((when : ℕ) × (t ≡ at_time when)))
Timeout-cases right_now = inl refl
Timeout-cases never = inr (inl refl)
Timeout-cases (at_time when) = inr (inr (when, refl))

module _ {E S : Type 0} where
  -- The handles of the first state are among those of the second.
  abbrev pub Among : State E S → State E S → Type 0
  Among w' w = (x : Item E S) → In x w'.handles → In x w.handles

  -- What one turn comes to.
  abbrev pub TurnFired : State E S → Option (Chosen × Token × State E S) → Type 0
  TurnFired w none = Unit {0}
  TurnFired w (some (none, token', w')) = Among w' w
  TurnFired w (some (some (token, index, ptr), token', w')) =
      Fired w'.handles token index ptr w'.shared w'.contexts × Among w' w

  turn-TurnFired :
      (r : Selection E S) (timeout : Timeout) (t : Turn E S) (token : Token) (w : State E S)
      → TurnFired w (turn r timeout t token w)
  unfolding turn
  turn-TurnFired r timeout t token w = elim (Option-cases (shuffle w.rng w.handles)) [
    | inl f ↦ rw (TurnFired, f) tt
    | inr ((handles, rng), f) ↦
        let among : Among (record w { handles = handles; rng = rng }) w =
          λ x m. shuffle-In w.rng w.handles handles rng x f m in
        elim (Option-cases (first_ready (λ h. h.try) t.tries handles token w.shared w.contexts)) [
          | inl g ↦ rw (TurnFired, f, g) tt
          | inr (fires t1 i s1 cxs1, g) ↦
              rw (TurnFired, f, g)
                (try-Fired t.tries handles token w.shared w.contexts t1 i s1 cxs1 g, among)
          | inr (fails t1 s1 cxs1, g) ↦
              elim (Option-cases (first_ready (λ h. h.retry) t.retries handles t1 s1 cxs1)) [
                | inl k ↦ rw (TurnFired, f, g, k) tt
                | inr (fires t2 i s2 cxs2, k) ↦
                    rw (TurnFired, f, g, k)
                      (retry-Fired t.retries handles t1 s1 cxs1 t2 i s2 cxs2 k, among)
                | inr (fails t2 s2 cxs2, k) ↦
                    elim (Option-cases
                      (closure r.place r.cx (limit_of timeout) t.blocks handles t2 s2 cxs2)) [
                        | inl l ↦ rw (TurnFired, f, g, k, l) tt
                        | inr ((none, t3, s3, cxs3), l) ↦ rw (TurnFired, f, g, k, l) among
                        | inr ((some (index, ptr), t3, s3, cxs3), l) ↦
                            rw (TurnFired, f, g, k, l)
                              (
                                closure-fires r.place r.cx (limit_of timeout) t.blocks handles t2 s2
                                    cxs2 index ptr t3 s3 cxs3 l,
                                among,
                              )
                      ]
              ]
        ]
  ]

  Among-FiredIn :
      (w' w : State E S) (out : Option (Chosen × State E S))
      → Among w' w
      → FiredIn w'.handles out
      → FiredIn w.handles out
  Among-FiredIn w' w none m h = tt
  Among-FiredIn w' w (some (none, u)) m h = tt
  Among-FiredIn w' w (some (some (token, index, ptr), u)) m (i, there, a, b, c) =
      (i, m i there, a, b, c)

  turn_loop-FiredIn :
      (r : Selection E S) (timeout : Timeout) (turns : List (Turn E S)) (token : Token)
      (w : State E S)
      → FiredIn w.handles (turn_loop r timeout turns token w)
  unfolding turn_loop
  turn_loop-FiredIn r timeout [] token w = tt
  turn_loop-FiredIn r timeout (t ∷ turns) token w = elim (Option-cases (turn r timeout t token w)) [
    | inl f ↦ rw (FiredIn, f) tt
    | inr ((some (tk0, index, ptr), tk, w'), f) ↦
        let (fired, among) = subst (TurnFired w) f (turn-TurnFired r timeout t token w) in
        rw (FiredIn, f) (Among-FiredIn w' w (some (some (tk0, index, ptr), w')) among fired)
    | inr ((none, tk, w'), f) ↦
        let among = subst (TurnFired w) f (turn-TurnFired r timeout t token w) in
        elim (Timeout-cases timeout) [
          | inl e ↦ rw (FiredIn, f, e) tt
          | inr (inl e) ↦
              rw (FiredIn, f, e)
                (Among-FiredIn w' w (turn_loop r timeout turns tk w') among
                  (turn_loop-FiredIn r timeout turns tk w'))
          | inr (inr (when, e)) ↦ elim (Bool-cases (leb when t.now)) [
            | inl late ↦
                rw (FiredIn, f, e, late)
                  (Among-FiredIn w' w (select_now r.last w') among (select_now-FiredIn r.last w'))
            | inr early ↦
                rw (FiredIn, f, e, early)
                  (Among-FiredIn w' w (turn_loop r timeout turns tk w') among
                    (turn_loop-FiredIn r timeout turns tk w'))
          ]
        ]
  ]

  sleep_only-FiredIn :
      (timeout : Timeout) (clock : Clock) (w : State E S)
      → FiredIn w.handles (sleep_only timeout clock w)
  unfolding sleep_only
  sleep_only-FiredIn right_now clock w = tt
  sleep_only-FiredIn never clock w = elim (Option-cases (sleep_until none clock)) [
    | inl f ↦ rw (FiredIn, f) tt
    | inr (u, f) ↦ rw (FiredIn, f) tt
  ]
  sleep_only-FiredIn (at_time when) clock w = elim (Option-cases (sleep_until (some when) clock)) [
    | inl f ↦ rw (FiredIn, f) tt
    | inr (u, f) ↦ rw (FiredIn, f) tt
  ]

  run_select-by_handles :
      (r : Selection E S) (timeout : Timeout) (v : List (Item E S)) (rng : ℕ) (s : S)
      (cxs : Contexts)
      → FiredIn v
          (run_select r timeout (record { handles = v; rng = rng; shared = s; contexts = cxs }))
  unfolding run_select
  run_select-by_handles r timeout [] rng s cxs =
      sleep_only-FiredIn timeout r.clock
        (record { handles = []; rng = rng; shared = s; contexts = cxs })
  run_select-by_handles r right_now (i ∷ items) rng s cxs =
      select_now-FiredIn r.last
        (record { handles = i ∷ items; rng = rng; shared = s; contexts = cxs })
  run_select-by_handles r never (i ∷ items) rng s cxs =
      turn_loop-FiredIn r never r.turns default
        (record { handles = i ∷ items; rng = rng; shared = s; contexts = cxs })
  run_select-by_handles r (at_time when) (i ∷ items) rng s cxs =
      turn_loop-FiredIn r (at_time when) r.turns default
        (record { handles = i ∷ items; rng = rng; shared = s; contexts = cxs })

  -- Whatever other threads do meanwhile: when `run_select` returns an operation, that operation is of
  -- one of the handles that it was given, with that handle's index and address, and a call of `try`,
  -- `retry` or `accept` of that handle has just succeeded, which has made the token that is returned
  -- and the state that is left.
  pub run_select-FiredIn :
      (r : Selection E S) (timeout : Timeout) (w : State E S)
      → FiredIn w.handles (run_select r timeout w)
  run_select-FiredIn r timeout w =
      run_select-by_handles r timeout w.handles w.rng w.shared w.contexts
