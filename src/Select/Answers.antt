-- ===== src/Select/Answers.antt =====
-- The non-blocking form of `run_select` (src/select.rs) while no other thread does anything.
use crossbeam_channel.Common.{
  ℕ, suc, ◌≡◌, ◌⊎◌, inl, inr, refl, sym, subst, arith, Bool, true, false, List, [], ◌∷◌, Option,
  none, some, Bool-cases, leb, length, map, repeat,
}
use crossbeam_channel.Context.{Contexts}
use crossbeam_channel.Shuffle.{count, shuffle-count}
use crossbeam_channel.Select.{Token, default, right_now, Item, State, Chosen, Tried, fires, fails}
use crossbeam_channel.Select.Ready.{
  Peek, first_ready, take_states, update_states, look_loop, look_once, select_now,
}
use crossbeam_channel.Select.Run.{Selection, sleep_only, run_select}
use crossbeam_channel.Select.Order.{In, shuffle-In}

-- One round.
abbrev pub one_look : {E : Type 0} → E → ℕ → Peek E
one_look e n = record {
  snapshot = repeat e n;
  looks = record { tries = repeat e n; states = repeat e n } ∷ [];
}

-- What a call of `try` does if it succeeds.
abbrev pub Effect : Type 0 → Type 0
Effect S = Token × S × Contexts

-- In the state that is shared now, each handle says at once whether it is ready, and an unready one
-- and a look at the state change nothing.
module _ {E S : Type 0} (e : E) (s : S) (cxs : Contexts) where
  abbrev pub tried : Bool → Effect S → Token → Option (Bool × Token × S × Contexts)
  tried true (token', s', cxs') token = some (true, token', s', cxs')
  tried false effect token = some (false, token, s, cxs)

  pub record Answers (items : List (Item E S)) : Type 0 where
    pub ready : Item E S → Bool
    pub effect : Item E S → Token → Effect S
    pub level : Item E S → ℕ
    pub tries :
        (i : Item E S)
        → In i items
        → (token : Token) → i.handle.try e token s cxs ≡ tried (ready i) (effect i token) token
    pub levels : (i : Item E S) → In i items → i.handle.state e s cxs ≡ (level i, s, cxs)

  abbrev tail-Answers :
      (i : Item E S) (items : List (Item E S)) → Answers (i ∷ items) → Answers items
  tail-Answers i items a = record {
    ready = a.ready;
    effect = a.effect;
    level = a.level;
    tries = λ x (n, m) token. a.tries x (suc n, m) token;
    levels = λ x (n, m). a.levels x (suc n, m);
  }

  abbrev Decides : (items : List (Item E S)) → Answers items → Token → Option (Tried E S) → Type 0
  Decides items a token out =
      ((count a.ready items ≡ 0) × (out ≡ some (fails token s cxs)))
      ⊎ ((i : Item E S) × In i items
          × (a.ready i ≡ true)
          × (out ≡ some (fires (a.effect i token).0 i (a.effect i token).1 (a.effect i token).2)))

  first_ready-Decides :
      (items : List (Item E S)) (a : Answers items) (token : Token)
      → Decides items a token (first_ready (λ h. h.try) (repeat e (length items)) items token s cxs)
  unfolding first_ready
  first_ready-Decides [] a token = inl (refl, refl)
  first_ready-Decides (i ∷ items) a token = elim (Bool-cases (a.ready i)) [
    | inl y ↦ inr (i, (0, refl), y, ground (arith, a.tries i (0, refl) token))
    | inr n ↦ elim (first_ready-Decides items (tail-Answers i items a) token) [
      | inl (none_ready, q) ↦ inl (ground arith, ground (arith, a.tries i (0, refl) token, q))
      | inr (x, (k, m), y, q) ↦ inr (x, (suc k, m), y, ground (arith, a.tries i (0, refl) token, q))
    ]
  ]

  take_states-levels :
      (items : List (Item E S)) (a : Answers items)
      → take_states (repeat e (length items)) items s cxs ≡ some (map a.level items, s, cxs)
  unfolding take_states
  take_states-levels [] a = refl
  take_states-levels (i ∷ items) a =
      ground (arith, a.levels i (0, refl), take_states-levels items (tail-Answers i items a))

  update_states-levels :
      (items : List (Item E S)) (a : Answers items)
      → update_states (repeat e (length items)) items (map a.level items) s cxs
        ≡ some (false, map a.level items, s, cxs)
  unfolding update_states
  update_states-levels [] a = refl
  update_states-levels (i ∷ items) a =
      ground (arith, a.levels i (0, refl), update_states-levels items (tail-Answers i items a))

  abbrev moved :
      (v u : List (Item E S)) → ((x : Item E S) → In x u → In x v) → Answers v → Answers u
  moved v u m a = record {
    ready = a.ready;
    effect = a.effect;
    level = a.level;
    tries = λ x h token. a.tries x (m x h) token;
    levels = λ x h. a.levels x (m x h);
  }

  -- If no handle is ready nothing is chosen and nothing changes; else one that is ready is.
  abbrev pub Decided : (v : List (Item E S)) → Answers v → Option (Chosen × State E S) → Type 0
  Decided v a out =
      ((count a.ready v ≡ 0)
        × ((w : State E S) × (out ≡ some (none, w)) × (w.shared ≡ s) × (w.contexts ≡ cxs)))
      ⊎ ((i : Item E S) × In i v
          × (a.ready i ≡ true)
          × ((w : State E S) × (out ≡ some (some ((a.effect i default).0, i.index, i.ptr), w))
              × (w.shared ≡ (a.effect i default).1)
              × (w.contexts ≡ (a.effect i default).2)))

  look-Decided :
      (v : List (Item E S)) (a : Answers v) (rng : ℕ)
      → let w : State E S = record { handles = v; rng = rng; shared = s; contexts = cxs } in
        Decided v a (look_once (one_look e (length v)).looks default w)
        × Decided v a (look_loop (one_look e (length v)).looks (map a.level v) default w)
  unfolding look_once look_loop
  look-Decided v a rng =
      let w : State E S = record { handles = v; rng = rng; shared = s; contexts = cxs } in
      elim (first_ready-Decides v a default) [
        | inl (none_ready, q) ↦ (
          inl (none_ready, (w, ground (arith, q), refl, refl)),
          inl (none_ready, (w, ground (arith, q, update_states-levels v a), refl, refl)),
        )
        | inr (i, m, y, q) ↦
            let w' : State E S = record w {
              shared = (a.effect i default).1;
              contexts = (a.effect i default).2;
            } in
            (
              inr (i, m, y, (w', ground (arith, q), refl, refl)),
              inr (i, m, y, (w', ground (arith, q), refl, refl)),
            )
      ]

  -- The result on the handles in another order is one on the handles.
  unshuffled :
      (v u : List (Item E S)) (m : (x : Item E S) → In x u → In x v) (a : Answers v)
      (out : Option (Chosen × State E S))
      → count a.ready u ≡ count a.ready v
      → Decided u (moved v u m a) out
      → Decided v a out
  unshuffled v u m a out c (inl (none_ready, rest)) = inl (ground arith, rest)
  unshuffled v u m a out c (inr (i, h, y, rest)) = inr (i, m i h, y, rest)

  pub select_now-Decided :
      (v : List (Item E S)) (a : Answers v) (rng : ℕ)
      → Decided v a (
          select_now
            (one_look e (length v))
            (record { handles = v; rng = rng; shared = s; contexts = cxs }))
  unfolding select_now
  select_now-Decided v a rng = elim (Bool-cases (leb (length v) 1)) [
    | inl single ↦ rw single (look-Decided v a rng).0
    | inr many ↦
        let (u, rng', f, l, c) = shuffle-count a.ready rng v in
        let m : (x : Item E S) → In x u → In x v = λ x h. shuffle-In rng v u rng' x f h in
        let b = moved v u m a in
        let w' : State E S = record { handles = u; rng = rng'; shared = s; contexts = cxs } in
        let q : select_now (one_look e (length v))
              (record { handles = v; rng = rng; shared = s; contexts = cxs })
            ≡ look_loop (one_look e (length u)).looks (map a.level u) default w' =
          ground (arith, f, l, take_states-levels u b) in
        subst (Decided v a) (sym q) (unshuffled v u m a _ c (look-Decided u b rng').1)
  ]

  run_select-by_count :
      (r : Selection E S) (v : List (Item E S)) (a : Answers v) (rng : ℕ)
      → r.last ≡ one_look e (length v)
      → Decided v a
          (run_select r right_now (record { handles = v; rng = rng; shared = s; contexts = cxs }))
  unfolding run_select sleep_only
  run_select-by_count r [] a rng h = inl (refl, (_, refl, refl, refl))
  run_select-by_count r (i ∷ items) a rng h =
      subst
        (λ p.
          Decided (i ∷ items) a
            (select_now p (record { handles = i ∷ items; rng = rng; shared = s; contexts = cxs })))
        (sym h) (select_now-Decided (i ∷ items) a rng)

module _ {E S : Type 0} where
  -- A non-blocking `run_select` while no other thread does anything, on handles each of which
  -- says at once whether it is ready and changes nothing if it is not, and whose states can be
  -- read without a change, returns in its first round, however the handles are shuffled. If no
  -- handle is ready it returns none and leaves the shared state; if some are, it returns the
  -- index and the address of one of those, with the effect of its `try`.
  pub run_select-decides :
      (e : E) (r : Selection E S) (w : State E S) (a : Answers e w.shared w.contexts w.handles)
      → r.last ≡ one_look e (length w.handles)
      → Decided e w.shared w.contexts w.handles a (run_select r right_now w)
  run_select-decides e r w a h = run_select-by_count e w.shared w.contexts r w.handles a w.rng h
