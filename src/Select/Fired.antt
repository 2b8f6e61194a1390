-- ===== src/Select/Fired.antt =====
-- What `run_select` (src/select.rs) returns is an operation of one of its handles that has been fired.
use crossbeam_channel.Common.{
  ℕ, suc, ◌+◌, ◌≡◌, ◌⊎◌, inl, inr, refl, arith, Bool, true, false, List, [], ◌∷◌, Option, none,
  some, Option-cases, Bool-cases, leb, length,
}
use crossbeam_channel.Context.{Selected, Contexts, hook, with_context}
use crossbeam_channel.Shuffle.{shuffle}
use crossbeam_channel.Select.{Token, default, SelectHandle, Item, State, Chosen, fires, fails}
use crossbeam_channel.Select.Ready.{
  Look, Peek, first_ready, take_states, update_states, look_loop, look_once, select_now,
}
use crossbeam_channel.Select.Block.{
  Closure, same_operation, register_from, wait_selected, unregister_from, accept_from, closure,
}
use crossbeam_channel.Select.Order.{In, shuffle-In}

module _ {E S : Type 0} where
  -- A call of `try`, `retry` or `accept` has succeeded, with the token, and has left the state.
  abbrev pub Succeeded : Item E S → Token → S → Contexts → Type 0
  Succeeded i token s' cxs' =
      (e : E) × (t : Token) × (s : S) × (cxs : Contexts) × ((i.handle.try e t s cxs
          ≡ some (true, token, s', cxs'))
        ⊎ ((i.handle.retry e t s cxs ≡ some (true, token, s', cxs'))
            ⊎ ((cx : ℕ) × (i.handle.accept e t cx s cxs ≡ some (true, token, s', cxs')))))

  -- It was that of the handle with the index and the address.
  abbrev pub Fired : List (Item E S) → Token → ℕ → ℕ → S → Contexts → Type 0
  Fired items token index ptr s cxs =
      (i : Item E S) × In i items × (i.index ≡ index) × (i.ptr ≡ ptr) × Succeeded i token s cxs

  later : (i x : Item E S) (items : List (Item E S)) → In x items → In x (i ∷ items)
  later i x items (n, m) = (suc n, m)

  first_ready-fires :
      (method : SelectHandle E S → E → Token → S → Contexts → Option (Bool × Token × S × Contexts))
      (es : List E) (items : List (Item E S)) (token : Token) (s : S) (cxs : Contexts)
      (token' : Token) (i : Item E S) (s' : S) (cxs' : Contexts)
      → first_ready method es items token s cxs ≡ some (fires token' i s' cxs')
      → In i items
        × ((e : E) × (t : Token) × (s0 : S) × (cxs0 : Contexts) × (method i.handle e t s0 cxs0
              ≡ some (true, token', s', cxs')))
  unfolding first_ready
  first_ready-fires method es [] token s cxs token' i s' cxs' h = absurd (ground arith)
  first_ready-fires method [] (x ∷ items) token s cxs token' i s' cxs' h = absurd (ground arith)
  first_ready-fires method (e ∷ es) (x ∷ items) token s cxs token' i s' cxs' h =
      elim (Option-cases (method x.handle e token s cxs)) [
        | inl f ↦ absurd (ground arith)
        | inr (out, f) ↦ elim (Bool-cases out.0) [
          | inl done ↦ ((0, ground arith), (e, token, s, cxs, ground arith))
          | inr over ↦
              let (there, calls) =
                first_ready-fires method es items out.1 out.2 out.3 token' i s' cxs'
                  (ground arith) in
              (later x i items there, calls)
        ]
      ]

  widen :
      (x : Item E S) (items : List (Item E S)) (token : Token) (index ptr : ℕ) (s : S)
      (cxs : Contexts)
      → Fired items token index ptr s cxs
      → Fired (x ∷ items) token index ptr s cxs
  widen x items token index ptr s cxs (i, there, a, b, c) = (i, later x i items there, a, b, c)

  accept_from-fires :
      (place : ℕ → ℕ) (cx pos : ℕ) (sel : Selected) (es : List E) (items : List (Item E S))
      (token : Token) (s : S) (cxs : Contexts) (index ptr : ℕ) (token' : Token) (s' : S)
      (cxs' : Contexts)
      → accept_from place cx pos sel es items token s cxs
        ≡ some (some (index, ptr), token', s', cxs')
      → Fired items token' index ptr s' cxs'
  unfolding accept_from
  accept_from-fires place cx pos sel es [] token s cxs index ptr token' s' cxs' h =
      absurd (ground arith)
  accept_from-fires place cx pos sel [] (x ∷ items) token s cxs index ptr token' s' cxs' h =
      absurd (ground arith)
  accept_from-fires place cx pos sel (e ∷ es) (x ∷ items) token s cxs index ptr token' s' cxs' h =
      elim (Option-cases (hook (place pos))) [
        | inl f ↦ absurd (ground arith)
        | inr (oper, f) ↦ elim (Bool-cases (same_operation sel oper)) [
          | inr other ↦ widen x items token' index ptr s' cxs' (
              accept_from-fires place cx (pos + 1) sel es items token s cxs index ptr token' s' cxs'
                (ground arith))
          | inl same ↦ elim (Option-cases (x.handle.accept e token cx s cxs)) [
            | inl g ↦ absurd (ground arith)
            | inr (out, g) ↦ elim (Bool-cases out.0) [
              | inl done ↦ (
                x,
                (0, refl),
                ground arith,
                ground arith,
                (e, token, s, cxs, inr (inr (cx, ground arith))),
              )
              | inr over ↦ widen x items token' index ptr s' cxs' (
                  accept_from-fires place cx (pos + 1) sel es items out.1 out.2 out.3 index ptr
                    token' s' cxs' (ground arith))
            ]
          ]
        ]
      ]

  pub closure-fires :
      (place : ℕ → ℕ) (cx : ℕ) (limit : Option ℕ) (t : Closure E S) (items : List (Item E S))
      (token : Token) (s : S) (cxs : Contexts) (index ptr : ℕ) (token' : Token) (s' : S)
      (cxs' : Contexts)
      → closure place cx limit t items token s cxs ≡ some (some (index, ptr), token', s', cxs')
      → Fired items token' index ptr s' cxs'
  unfolding closure
  closure-fires place cx limit t items token s cxs index ptr token' s' cxs' h =
      elim (Option-cases (register_from place cx 0 t.registers items s (with_context cx cxs))) [
        | inl f ↦ absurd (ground arith)
        | inr (r, f) ↦ elim (Option-cases (wait_selected cx limit t items r.0 r.2 r.3)) [
          | inl g ↦ absurd (ground arith)
          | inr (w, g) ↦
              elim (Option-cases (unregister_from place 0 r.1 t.unregisters items w.1 w.2)) [
                | inl k ↦ absurd (ground arith)
                | inr (u, k) ↦
                    accept_from-fires place cx 0 w.0 t.accepts items token u.0 u.1 index ptr token'
                      s' cxs' (ground arith)
              ]
        ]
      ]

  -- A result of `run_select` that fires an operation has fired one of the handles.
  abbrev pub FiredIn : List (Item E S) → Option (Chosen × State E S) → Type 0
  FiredIn items none = Unit {0}
  FiredIn items (some (none, w)) = Unit {0}
  FiredIn items (some (some (token, index, ptr), w)) =
      Fired items token index ptr w.shared w.contexts

  pub try-Fired :
      (es : List E) (items : List (Item E S)) (token : Token) (s : S) (cxs : Contexts) (t : Token)
      (i : Item E S) (s' : S) (cxs' : Contexts)
      → first_ready (λ h. h.try) es items token s cxs ≡ some (fires t i s' cxs')
      → Fired items t i.index i.ptr s' cxs'
  try-Fired es items token s cxs t i s' cxs' f =
      let (there, (e, t0, s0, cxs0, q)) =
        first_ready-fires (λ h. h.try) es items token s cxs t i s' cxs' f in
      (i, there, refl, refl, (e, t0, s0, cxs0, inl q))

  pub retry-Fired :
      (es : List E) (items : List (Item E S)) (token : Token) (s : S) (cxs : Contexts) (t : Token)
      (i : Item E S) (s' : S) (cxs' : Contexts)
      → first_ready (λ h. h.retry) es items token s cxs ≡ some (fires t i s' cxs')
      → Fired items t i.index i.ptr s' cxs'
  retry-Fired es items token s cxs t i s' cxs' f =
      let (there, (e, t0, s0, cxs0, q)) =
        first_ready-fires (λ h. h.retry) es items token s cxs t i s' cxs' f in
      (i, there, refl, refl, (e, t0, s0, cxs0, inr (inl q)))

  look_loop-FiredIn :
      (looks : List (Look E)) (states : List ℕ) (token : Token) (w : State E S)
      → FiredIn w.handles (look_loop looks states token w)
  unfolding look_loop
  look_loop-FiredIn [] states token w = tt
  look_loop-FiredIn (l ∷ looks) states token w =
      elim (Option-cases (first_ready (λ h. h.try) l.tries w.handles token w.shared w.contexts)) [
        | inl f ↦ rw (FiredIn, f) tt
        | inr (fires t i s cxs, f) ↦
            rw (FiredIn, f) (try-Fired l.tries w.handles token w.shared w.contexts t i s cxs f)
        | inr (fails t s cxs, f) ↦
            elim (Option-cases (update_states l.states w.handles states s cxs)) [
              | inl g ↦ rw (FiredIn, f, g) tt
              | inr ((true, states', s', cxs'), g) ↦
                  rw (FiredIn, f, g)
                    (look_loop-FiredIn looks states' t (record w { shared = s'; contexts = cxs' }))
              | inr ((false, states', s', cxs'), g) ↦ rw (FiredIn, f, g) tt
            ]
      ]

  look_once-FiredIn :
      (looks : List (Look E)) (token : Token) (w : State E S)
      → FiredIn w.handles (look_once looks token w)
  unfolding look_once
  look_once-FiredIn [] token w = tt
  look_once-FiredIn (l ∷ looks) token w =
      elim (Option-cases (first_ready (λ h. h.try) l.tries w.handles token w.shared w.contexts)) [
        | inl f ↦ rw (FiredIn, f) tt
        | inr (fires t i s cxs, f) ↦
            rw (FiredIn, f) (try-Fired l.tries w.handles token w.shared w.contexts t i s cxs f)
        | inr (fails t s cxs, f) ↦ rw (FiredIn, f) tt
      ]

  -- The handles may be in another order.
  reordered :
      (rng rng' : ℕ) (v v' : List (Item E S)) (out : Option (Chosen × State E S))
      → shuffle rng v ≡ some (v', rng')
      → FiredIn v' out
      → FiredIn v out
  reordered rng rng' v v' none e h = tt
  reordered rng rng' v v' (some (none, w)) e h = tt
  reordered rng rng' v v' (some (some (token, index, ptr), w)) e (i, there, a, b, c) =
      (i, shuffle-In rng v v' rng' i e there, a, b, c)

  pub select_now-FiredIn : (p : Peek E) (w : State E S) → FiredIn w.handles (select_now p w)
  unfolding select_now
  select_now-FiredIn p w = elim (Bool-cases (leb (length w.handles) 1)) [
    | inl single ↦ rw single (look_once-FiredIn p.looks default w)
    | inr many ↦ elim (Option-cases (shuffle w.rng w.handles)) [
      | inl f ↦ rw (many, f) tt
      | inr ((handles, rng), f) ↦
          elim (Option-cases (take_states p.snapshot handles w.shared w.contexts)) [
            | inl g ↦ rw (many, f, g) tt
            | inr ((states, s, cxs), g) ↦
                rw (many, f, g)
                  (reordered w.rng rng w.handles handles _ f (
                    look_loop-FiredIn p.looks states default
                      (record { handles = handles; rng = rng; shared = s; contexts = cxs })))
          ]
    ]
  ]
