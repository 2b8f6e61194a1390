-- ===== src/Select/Parked.antt =====
-- A thread that `run_select` (src/select.rs) has registered with all its handles and parked.
use crossbeam_channel.Common.{
  ℕ, zero, suc, ◌+◌, ◌<◌, ◌≡◌, ◌≢◌, arith, true, List, [], ◌∷◌, Option, some, length, repeat,
  get_elem?,
}
use crossbeam_channel.Context.{
  waiting, operation, Contexts, hook, with_context, selected, from_word, reset, update,
}
use crossbeam_channel.Context.Wait.{Round}
use crossbeam_channel.Flavors.Blocking.Quiet.{wait_until-woken}
use crossbeam_channel.Select.{Token, Item}
use crossbeam_channel.Select.Block.{
  Step, Closure, register_from, earliest, wait_selected, unregister_from, accept_from, closure,
}

module _ {E S : Type 0} (e : E) (place : ℕ → ℕ) (cx : ℕ) where
  -- A registration after which no other thread does anything.
  abbrev pub still : Step E S
  still = record { given = e; others = λ s cxs. (s, cxs) }

  -- The handles from position `pos` on register one after the other, each of them unready, and later
  -- unregister, with the contexts as they are then: `joined k` and `left k` are the shared states
  -- after the first `k` have done so.
  abbrev pub Parks : Contexts → Contexts → (ℕ → S) → (ℕ → S) → ℕ → List (Item E S) → Type 0
  Parks cxs after joined left pos [] = Unit {0}
  Parks cxs after joined left pos (i ∷ items) =
      (2 < place pos)
      × (i.handle.register e (place pos) cx (joined pos) cxs ≡ some (true, joined (pos + 1), cxs))
      × (i.handle.unregister e (place pos) (left pos) after ≡ some (left (pos + 1), after))
      × Parks cxs after joined left (pos + 1) items

  pub register_from-Parks :
      (joined left : ℕ → S) (pos : ℕ) (items : List (Item E S)) (cxs after : Contexts)
      → Parks cxs after joined left pos items
      → (cxs cx).select ≡ 0
      → register_from place cx pos (repeat still (length items)) items (joined pos) cxs
        ≡ some (waiting, pos + length items, joined (pos + length items), cxs)
  unfolding register_from hook selected from_word
  register_from-Parks joined left pos [] cxs after p free = ground arith
  register_from-Parks joined left pos (i ∷ items) cxs after (h, r, u, p) free =
      ground (arith, r, register_from-Parks joined left (pos + 1) items cxs after p free)

  pub unregister_from-Parks :
      (joined left : ℕ → S) (pos : ℕ) (items : List (Item E S)) (cxs after : Contexts)
      → Parks cxs after joined left pos items
      → unregister_from place pos (length items) (repeat e (length items)) items (left pos) after
        ≡ some (left (pos + length items), after)
  unfolding unregister_from hook
  unregister_from-Parks joined left pos [] cxs after p = ground arith
  unregister_from-Parks joined left pos (i ∷ items) cxs after (h, r, u, p) =
      ground (arith, u, unregister_from-Parks joined left (pos + 1) items cxs after p)

  accept_from-picks :
      (joined left : ℕ → S) (pos k : ℕ) (items : List (Item E S)) (i : Item E S)
      (token token' : Token) (s s' : S) (cxs cxs' before after : Contexts)
      → Parks before after joined left pos items
      → ((a b : ℕ) → a ≢ b → place a ≢ place b)
      → get_elem? items k ≡ some i
      → i.handle.accept e token cx s cxs ≡ some (true, token', s', cxs')
      → accept_from place cx pos
          (operation (place (pos + k)))
          (repeat e (length items))
          items
          token
          s
          cxs
        ≡ some (some (i.index, i.ptr), token', s', cxs')
  unfolding accept_from hook
  accept_from-picks joined left pos k [] i token token' s s' cxs cxs' before after p apart at_k a =
      absurd (ground arith)
  accept_from-picks joined left pos zero (x ∷ items) i token token' s s' cxs cxs' before after
        (h, r, u, p) apart at_k a =
      ground (arith, at_k)
  accept_from-picks joined left pos (suc k) (x ∷ items) i token token' s s' cxs cxs' before after
        (h, r, u, p) apart at_k a =
      ground (
        arith,
        apart (pos + suc k) pos (omega arith),
        accept_from-picks joined left (pos + 1) k items i token token' s s' cxs cxs' before after p
            apart at_k a,
      )

  -- What the closure is given when other threads act once it has registered, and the contexts are read
  -- in the first round of its wait.
  abbrev pub woken_closure : ℕ → Round → (S → Contexts → S × Contexts) → Closure E S
  woken_closure n round acts = record {
    registers = repeat still n;
    meanwhile = acts;
    waits = round ∷ [];
    unregisters = repeat e n;
    accepts = repeat e n;
  }

  pub closure-woken :
      (joined left : ℕ → S) (items : List (Item E S)) (k m : ℕ) (i : Item E S) (limit : Option ℕ)
      (acts : S → Contexts → S × Contexts) (round : Round) (token token' : Token) (s' : S)
      (cxs woken cxs' : Contexts)
      → acts (joined (length items)) (with_context cx cxs) ≡ (left 0, woken)
      → Parks (with_context cx cxs) (round.before woken) joined left 0 items
      → ((a b : ℕ) → a ≢ b → place a ≢ place b)
      → get_elem? items k ≡ some i
      → place k ≡ suc (suc (suc m))
      → (round.before woken cx).select ≡ place k
      → i.handle.accept e token cx (left (length items)) (round.before woken)
        ≡ some (true, token', s', cxs')
      → closure place cx limit (woken_closure (length items) round acts) items token (joined 0) cxs
        ≡ some (some (i.index, i.ptr), token', s', cxs')
  unfolding closure wait_selected with_context reset update
  closure-woken joined left items k m i limit acts round token token' s' cxs woken cxs' act p apart
        at_k hooked sel a =
      ground (
        arith,
        act,
        register_from-Parks joined left 0 items (with_context cx cxs) _ p,
        wait_until-woken cx m (earliest items (joined (length items)) limit) round woken,
        unregister_from-Parks joined left 0 items _ (round.before woken) p,
        accept_from-picks joined left 0 k items i token token' (left (length items)) s'
            (round.before woken) cxs' _ _ p apart at_k a,
      )
