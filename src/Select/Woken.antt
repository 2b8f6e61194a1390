-- ===== src/Select/Woken.antt =====
-- A selection of src/select.rs that blocks until another thread selects one of its operations, or until
-- its deadline has passed.
use crossbeam_channel.Common.{
  ℕ, suc, ◌+◌, ◌≡◌, ◌≢◌, refl, arith, true, false, List, [], ◌∷◌, Option, none, some, length,
  repeat, get_elem?,
}
use crossbeam_channel.Context.{Contexts, with_context}
use crossbeam_channel.Context.Wait.{Round}
use crossbeam_channel.Shuffle.{shuffle}
use crossbeam_channel.Select.{
  Token, default, Timeout, right_now, never, at_time, Item, State, fails,
}
use crossbeam_channel.Select.Ready.{first_ready}
use crossbeam_channel.Select.Block.{Closure, closure}
use crossbeam_channel.Select.Run.{Turn, Selection, limit_of, turn, turn_loop, run_select}
use crossbeam_channel.Select.Parked.{Parks, woken_closure, closure-woken}

module _ {E S : Type 0} where
  abbrev pub started : List (Item E S) → ℕ → S × Contexts → State E S
  started handles rng (s, cxs) = record { handles = handles; rng = rng; shared = s; contexts = cxs }

module _ {E S : Type 0} (e : E) where
  -- No handle is ready, and to try one changes nothing.
  abbrev pub Waits : S → Contexts → List (Item E S) → Type 0
  Waits s cxs [] = Unit {0}
  Waits s cxs (i ∷ items) =
      ((token : Token) → i.handle.try e token s cxs ≡ some (false, token, s, cxs))
      × Waits s cxs items

  -- Nor does one become ready while the handles from position `pos` on are retried: `paused k` is what
  -- is shared after the first `k` retries, which may pause.
  abbrev pub Pauses : (ℕ → S × Contexts) → ℕ → List (Item E S) → Type 0
  Pauses paused pos [] = Unit {0}
  Pauses paused pos (i ∷ items) =
      ((token : Token)
        → i.handle.retry e token (paused pos).0 (paused pos).1
          ≡ some (false, token, (paused (pos + 1)).0, (paused (pos + 1)).1))
      × Pauses paused (pos + 1) items

  try-Waits :
      (s : S) (cxs : Contexts) (items : List (Item E S)) (token : Token)
      → Waits s cxs items
      → first_ready (λ h. h.try) (repeat e (length items)) items token s cxs
        ≡ some (fails token s cxs)
  unfolding first_ready
  try-Waits s cxs [] token w = refl
  try-Waits s cxs (i ∷ items) token (t, w) = ground (arith, t token, try-Waits s cxs items token w)

  retry-Pauses :
      (paused : ℕ → S × Contexts) (pos : ℕ) (items : List (Item E S)) (token : Token)
      → Pauses paused pos items
      → first_ready
          (λ h. h.retry)
          (repeat e (length items))
          items
          token
          (paused pos).0
          (paused pos).1
        ≡ some (fails token (paused (pos + length items)).0 (paused (pos + length items)).1)
  unfolding first_ready
  retry-Pauses paused pos [] token p = ground arith
  retry-Pauses paused pos (i ∷ items) token (r, p) =
      ground (arith, r token, retry-Pauses paused (pos + 1) items token p)

  -- A turn with the closure on handles none of which is ready.
  abbrev pub waiting_turn : ℕ → Closure E S → ℕ → Turn E S
  waiting_turn n blocks now = record {
    tries = repeat e n;
    retries = repeat e n;
    blocks = blocks;
    now = now;
  }

  pub turn-Waits :
      (r : Selection E S) (timeout : Timeout) (blocks : Closure E S) (now : ℕ) (token : Token)
      (handles v : List (Item E S)) (rng rng' : ℕ) (paused : ℕ → S × Contexts)
      → shuffle rng handles ≡ some (v, rng')
      → Waits (paused 0).0 (paused 0).1 v
      → Pauses paused 0 v
      → (out : Option (ℕ × ℕ)) (token' : Token) (s' : S) (cxs' : Contexts)
      → closure r.place r.cx
          (limit_of timeout)
          blocks
          v
          token
          (paused (length v)).0
          (paused (length v)).1
        ≡ some (out, token', s', cxs')
      → turn r timeout (waiting_turn (length v) blocks now) token (started handles rng (paused 0))
        ≡ some (
          elim out [ none ↦ none | some (index, ptr) ↦ some (token', index, ptr) ],
          token',
          record { handles = v; rng = rng'; shared = s'; contexts = cxs' },
        )
  unfolding turn
  turn-Waits r timeout blocks now token handles v rng rng' paused f h p none token' s' cxs' c =
      ground (arith, try-Waits (paused 0).0 (paused 0).1 v token h, retry-Pauses paused 0 v token p)
  turn-Waits r timeout blocks now token handles v rng rng' paused f h p (some (index, ptr)) token'
        s' cxs' c =
      ground (arith, try-Waits (paused 0).0 (paused 0).1 v token h, retry-Pauses paused 0 v token p)

  -- A `run_select` that may block, none of whose handles is ready when it is tried and retried,
  -- registers with all of them. If what other threads do to the channels that it has registered with,
  -- and to the contexts, leaves the channels in the state `left 0` and the operation of the handle at
  -- position `k` of the shuffled handles selected in the first round of the wait, then the selection
  -- unregisters from all handles and, if that handle accepts, returns its index and address with the
  -- token and the state that `accept` leaves. The addresses of the references differ from each other.
  pub run_select-woken :
      (r : Selection E S) (timeout : Timeout) (x : Item E S) (xs v : List (Item E S)) (rng rng' : ℕ)
      (paused : ℕ → S × Contexts) (joined left : ℕ → S) (k m now : ℕ) (i : Item E S)
      (acts : S → Contexts → S × Contexts) (round : Round) (more : List (Turn E S)) (token' : Token)
      (s' : S) (cxs woken cxs' : Contexts)
      → timeout ≢ right_now
      → shuffle rng (x ∷ xs) ≡ some (v, rng')
      → Waits (paused 0).0 (paused 0).1 v
      → Pauses paused 0 v
      → paused (length v) ≡ (joined 0, cxs)
      → acts (joined (length v)) (with_context r.cx cxs) ≡ (left 0, woken)
      → Parks e r.place r.cx (with_context r.cx cxs) (round.before woken) joined left 0 v
      → ((a b : ℕ) → a ≢ b → r.place a ≢ r.place b)
      → get_elem? v k ≡ some i
      → r.place k ≡ suc (suc (suc m))
      → (round.before woken r.cx).select ≡ r.place k
      → i.handle.accept e default r.cx (left (length v)) (round.before woken)
        ≡ some (true, token', s', cxs')
      → r.turns
        ≡ waiting_turn (length v) (woken_closure e r.place r.cx (length v) round acts) now ∷ more
      → run_select r timeout (started (x ∷ xs) rng (paused 0))
        ≡ some (
          some (token', i.index, i.ptr),
          record { handles = v; rng = rng'; shared = s'; contexts = cxs' },
        )
  unfolding run_select turn_loop
  run_select-woken r right_now x xs v rng rng' paused joined left k m now i acts round more token'
        s' cxs woken cxs' blocks f h q j act p apart at_k hooked sel a t =
      absurd (blocks refl)
  run_select-woken r never x xs v rng rng' paused joined left k m now i acts round more token' s'
        cxs woken cxs' blocks f h q j act p apart at_k hooked sel a t =
      let runs =
        closure-woken e r.place r.cx joined left v k m i none acts round default token' s' cxs woken
          cxs' act p apart at_k hooked sel a in
      rw t (
        ground (
          arith,
          turn-Waits r never (woken_closure e r.place r.cx (length v) round acts) now default
              (x ∷ xs) v rng rng' paused f h q (some (i.index, i.ptr)) token' s' cxs' (rw j runs),
        ))
  run_select-woken r (at_time when) x xs v rng rng' paused joined left k m now i acts round more
        token' s' cxs woken cxs' blocks f h q j act p apart at_k hooked sel a t =
      let runs =
        closure-woken e r.place r.cx joined left v k m i (some when) acts round default token' s'
          cxs woken cxs' act p apart at_k hooked sel a in
      rw t (
        ground (
          arith,
          turn-Waits r (at_time when) (woken_closure e r.place r.cx (length v) round acts) now
              default (x ∷ xs) v rng rng' paused f h q (some (i.index, i.ptr)) token' s' cxs'
              (rw j runs),
        ))
