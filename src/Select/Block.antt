-- ===== src/Select/Block.antt =====
-- The closure that `run_select` (src/select.rs) gives to `Context::with`, in which it blocks.
use crossbeam_channel.Common.{
  ℕ, zero, suc, ◌+◌, Bool, true, false, ◌==◌, if◌then◌else◌, min, List, [], ◌∷◌, Option, none, some,
}
use crossbeam_channel.Context.{
  Selected, waiting, aborted, disconnected, operation, Contexts, selected, hook, with_context,
}
use crossbeam_channel.Context.Wait.{Round, give_up, settled, wait_until}
use crossbeam_channel.Select.{Token, Item}

-- What one registration is given, and what other threads do after it.
pub record Step (E S : Type 0) : Type 0 where
  pub given : E
  pub others : S → Contexts → S × Contexts

-- What the closure is given. While the thread waits, others act on the channels and the contexts as
-- they are then, and on the contexts in the rounds of the wait, which do not look at the channels.
pub record Closure (E S : Type 0) : Type 0 where
  pub registers : List (Step E S)
  pub meanwhile : S → Contexts → S × Contexts
  pub waits : List Round
  pub unregisters : List E
  pub accepts : List E

abbrev pub same_operation : Selected → ℕ → Bool
same_operation waiting oper = false
same_operation aborted oper = false
same_operation disconnected oper = false
same_operation (operation val) oper = val == oper

module _ {E S : Type 0} where
  -- The loop that registers from position `pos` on, with how many it has registered. `place` is the
  -- address of the reference at a position, and `cx` the context of the thread.
  unfoldable pub register_from :
      (ℕ → ℕ)
      → ℕ
      → ℕ
      → List (Step E S)
      → List (Item E S)
      → S
      → Contexts
      → Option (Selected × ℕ × S × Contexts)
  register_from place cx pos steps [] s cxs = some (waiting, pos, s, cxs)
  register_from place cx pos [] (i ∷ items) s cxs = none
  register_from place cx pos (t ∷ steps) (i ∷ items) s cxs = elim (hook (place pos)) [
    | none ↦ none
    | some oper ↦ elim (i.handle.register t.given oper cx s cxs) [
      | none ↦ none
      | some (false, s', cxs') ↦
          let (s'', cxs'') = t.others s' cxs' in
          let (sel, after) = give_up cx cxs'' in some (sel, pos + 1, s'', after)
      | some (true, s', cxs') ↦
          let (s'', cxs'') = t.others s' cxs' in
          let sel = selected cx cxs'' in
          let more = register_from place cx (pos + 1) steps items s'' cxs'' in
          if settled sel then some (sel, pos + 1, s'', cxs'') else more
    ]
  ]

  -- The earliest of a deadline and those of the handles.
  unfoldable pub earliest : List (Item E S) → S → Option ℕ → Option ℕ
  earliest [] s deadline = deadline
  earliest (i ∷ items) s deadline = elim (i.handle.deadline s) [
    | none ↦ earliest items s deadline
    | some x ↦ elim deadline [
      | none ↦ earliest items s (some x)
      | some y ↦ earliest items s (some (min x y))
    ]
  ]

  -- The loop that unregisters `n` operations from position `pos` on.
  unfoldable pub unregister_from :
      (ℕ → ℕ) → ℕ → ℕ → List E → List (Item E S) → S → Contexts → Option (S × Contexts)
  unregister_from place pos zero es items s cxs = some (s, cxs)
  unregister_from place pos (suc n) es [] s cxs = some (s, cxs)
  unregister_from place pos (suc n) [] (i ∷ items) s cxs = none
  unregister_from place pos (suc n) (e ∷ es) (i ∷ items) s cxs = elim (hook (place pos)) [
    | none ↦ none
    | some oper ↦ elim (i.handle.unregister e oper s cxs) [
      | none ↦ none
      | some (s', cxs') ↦ unregister_from place (pos + 1) n es items s' cxs'
    ]
  ]

  -- The loop that finds the selected operation and tries to fire it.
  unfoldable pub accept_from :
      (ℕ → ℕ)
      → ℕ
      → ℕ
      → Selected
      → List E
      → List (Item E S)
      → Token
      → S
      → Contexts
      → Option (Option (ℕ × ℕ) × Token × S × Contexts)
  accept_from place cx pos sel es [] token s cxs = some (none, token, s, cxs)
  accept_from place cx pos sel [] (i ∷ items) token s cxs = none
  accept_from place cx pos sel (e ∷ es) (i ∷ items) token s cxs = elim (hook (place pos)) [
    | none ↦ none
    | some oper ↦
        if same_operation sel oper
        then elim (i.handle.accept e token cx s cxs) [
          | none ↦ none
          | some (true, token', s', cxs') ↦ some (some (i.index, i.ptr), token', s', cxs')
          | some (false, token', s', cxs') ↦
              accept_from place cx (pos + 1) sel es items token' s' cxs'
        ]
        else accept_from place cx (pos + 1) sel es items token s cxs
  ]

  -- The wait, unless an operation is selected or given up already.
  unfoldable pub wait_selected :
      ℕ
      → Option ℕ
      → Closure E S
      → List (Item E S)
      → Selected
      → S
      → Contexts
      → Option (Selected × S × Contexts)
  unfolding earliest
  wait_selected cx limit t items sel s cxs =
      let (s', cxs') = t.meanwhile s cxs in
      if settled sel
      then some (sel, s, cxs)
      else elim (wait_until cx (earliest items s limit) t.waits cxs') [
        | none ↦ none
        | some (sel', after) ↦ some (sel', s', after)
      ]

  unfoldable pub closure :
      (ℕ → ℕ)
      → ℕ
      → Option ℕ
      → Closure E S
      → List (Item E S)
      → Token
      → S
      → Contexts
      → Option (Option (ℕ × ℕ) × Token × S × Contexts)
  unfolding register_from wait_selected unregister_from accept_from
  closure place cx limit t items token s cxs =
      elim (register_from place cx 0 t.registers items s (with_context cx cxs)) [
        | none ↦ none
        | some (first, count, s1, cxs1) ↦ elim (wait_selected cx limit t items first s1 cxs1) [
          | none ↦ none
          | some (sel, s2, cxs2) ↦
              elim (unregister_from place 0 count t.unregisters items s2 cxs2) [
                | none ↦ none
                | some (s3, cxs3) ↦ elim sel [
                  | waiting ↦ none
                  | aborted ↦ some (none, token, s3, cxs3)
                  | disconnected ↦ accept_from place cx 0 disconnected t.accepts items token s3 cxs3
                  | operation val ↦
                      accept_from place cx 0 (operation val) t.accepts items token s3 cxs3
                ]
              ]
        ]
      ]
