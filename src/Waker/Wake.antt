-- ===== src/Waker/Wake.antt =====
-- Whom `wake_one` and `disconnect` of src/waker.rs wake, and what they leave behind.
use native.Mathlib.Decide.{ℕ_discrete}
use crossbeam_channel.Common.{
  eqb_of_eq, eqb_of_ne, ℕ, ◌≡◌, ◌≢◌, ◌⊎◌, inl, inr, refl, ap, arith, Bool, true, false, ◌&&◌, ◌||◌,
  ◌==◌, if◌then◌else◌, ok, err, List, [], ◌∷◌, ◌++◌, Option, none, some,
}
use crossbeam_channel.Context.{
  disconnected, operation, into_word, Inner, Contexts, update, try_select, selected, store_packet,
  unpark,
}
use crossbeam_channel.Context.Laws.{try_select-first, try_select-later}
use crossbeam_channel.Waker.{
  Entry, Waker, wake_first, wake_one, disconnect_entries, disconnect, any_ready, can_wake_one,
}

-- The entry belongs to another thread, whose context still waits.
abbrev pub IsReady : ℕ → Contexts → Entry → Type 0
IsReady me cxs e = ((cxs e.context).thread_id ≢ me) × ((cxs e.context).select ≡ 0)

abbrev pub NoneReady : ℕ → Contexts → List Entry → Type 0
NoneReady me cxs [] = Unit {0}
NoneReady me cxs (e ∷ es) = ¬ IsReady me cxs e × NoneReady me cxs es

-- The context of a woken thread: its operation is selected, its packet is there if there is one,
-- and it is unparked.
abbrev pub woken : Entry → Inner → Inner
woken e x = record x {
  select = e.oper;
  packet = if e.packet == 0 then x.packet else e.packet;
  unparked = true;
}

abbrev pub Wakes : ℕ → List Entry → Contexts → Option Entry × List Entry × Contexts → Type 0
Wakes me es cxs (found, rest, after) =
    ((found ≡ none) × NoneReady me cxs es × (rest ≡ es) × (after ≡ cxs))
    ⊎ ((e : Entry) × (xs : List Entry) × (ys : List Entry) × (found ≡ some e)
        × (es ≡ xs ++ (e ∷ ys))
        × (rest ≡ xs ++ ys)
        × NoneReady me cxs xs
        × IsReady me cxs e
        × ((c : ℕ) → after c ≡ (if c == e.context then woken e (cxs c) else cxs c)))

-- What the body of the loop leaves of the contexts when the selection succeeds.
unfoldable pub hand_over : Entry → Contexts → Contexts
unfolding store_packet unpark
hand_over e cxs = unpark e.context (
    store_packet e.context e.packet
      (update cxs e.context (record (cxs e.context) { select = into_word (operation e.oper) })))

pub hand_over-at :
    (e : Entry) (cxs : Contexts) (c : ℕ)
    → hand_over e cxs c ≡ (if c == e.context then woken e (cxs c) else cxs c)
unfolding hand_over update into_word
hand_over-at e cxs c = ground arith

wake_first-skip :
    (me : ℕ) (e : Entry) (es : List Entry) (cxs : Contexts)
    → ¬ IsReady me cxs e
    → wake_first me (e ∷ es) cxs
      ≡ (let (found, rest, after) = wake_first me es cxs in (found, e ∷ rest, after))
unfolding wake_first
wake_first-skip me e es cxs h = elim (ℕ_discrete (cxs e.context).thread_id me) [
  | yes own ↦ rw (eqb_of_eq own) refl
  | no other ↦
      let taken : (cxs e.context).select ≢ 0 = λ z. h (other, z) in
      rw (eqb_of_ne other, try_select-later e.context (operation e.oper) cxs taken) refl
]

wake_first-ready :
    (me : ℕ) (e : Entry) (es : List Entry) (cxs : Contexts)
    → IsReady me cxs e
    → wake_first me (e ∷ es) cxs ≡ (some e, es, hand_over e cxs)
unfolding wake_first hand_over
wake_first-ready me e es cxs h =
    ground (arith, try_select-first e.context (operation e.oper) cxs h.1)

-- The entry that was registered last is found if no other is ready.
pub wake_first-last :
    (me : ℕ) (es : List Entry) (e : Entry) (cxs : Contexts)
    → NoneReady me cxs es
    → IsReady me cxs e
    → wake_first me (es ++ (e ∷ [])) cxs ≡ (some e, es, hand_over e cxs)
wake_first-last me [] e cxs h r = wake_first-ready me e [] cxs r
wake_first-last me (x ∷ es) e cxs h r =
    rw (wake_first-skip me x (es ++ (e ∷ [])) cxs h.0, wake_first-last me es e cxs h.1 r) refl

pub wake_first-NoneReady :
    (me : ℕ) (es : List Entry) (cxs : Contexts)
    → NoneReady me cxs es
    → wake_first me es cxs ≡ (none, es, cxs)
unfolding wake_first
wake_first-NoneReady me [] cxs h = refl
wake_first-NoneReady me (e ∷ es) cxs h =
    rw (wake_first-skip me e es cxs h.0, wake_first-NoneReady me es cxs h.1) refl

IsReady-or_not : (me : ℕ) (cxs : Contexts) (e : Entry) → IsReady me cxs e ⊎ ¬ IsReady me cxs e
IsReady-or_not me cxs e = elim (ℕ_discrete (cxs e.context).thread_id me) [
  | yes own ↦ inr (λ h. h.0 own)
  | no other ↦ elim (ℕ_discrete (cxs e.context).select 0) [
    | yes free ↦ inl (other, free)
    | no taken ↦ inr (λ h. taken h.1)
  ]
]

-- No entry is ready, or the oldest ready one is taken off the queue and its context is handed over.
pub wake_first-cases :
    (me : ℕ) (es : List Entry) (cxs : Contexts)
    → (NoneReady me cxs es × (wake_first me es cxs ≡ (none, es, cxs)))
      ⊎ ((e : Entry) × (xs : List Entry) × (ys : List Entry) × (es ≡ xs ++ (e ∷ ys))
          × NoneReady me cxs xs
          × IsReady me cxs e
          × (wake_first me es cxs ≡ (some e, xs ++ ys, hand_over e cxs)))
unfolding wake_first
wake_first-cases me [] cxs = inl (tt, refl)
wake_first-cases me (e ∷ es) cxs = elim (IsReady-or_not me cxs e) [
  | inl h ↦ inr (e, [], es, refl, tt, h, wake_first-ready me e es cxs h)
  | inr h ↦ elim (wake_first-cases me es cxs) [
    | inl (none_ready, q) ↦ inl ((h, none_ready), rw (wake_first-skip me e es cxs h, q) refl)
    | inr (f, xs, ys, split, before, ready, q) ↦ inr (
      f,
      e ∷ xs,
      ys,
      ap (◌∷◌ e) split,
      (h, before),
      ready,
      rw (wake_first-skip me e es cxs h, q) refl,
    )
  ]
]

Wakes-skip :
    (me : ℕ) (e : Entry) (es : List Entry) (cxs : Contexts)
    → ¬ IsReady me cxs e
    → Wakes me es cxs (wake_first me es cxs)
    → Wakes me (e ∷ es) cxs (wake_first me (e ∷ es) cxs)
Wakes-skip me e es cxs h (inl (none_found, all, rest, same)) =
    rw (wake_first-skip me e es cxs h) (inl (none_found, (h, all), ap (◌∷◌ e) rest, same))
Wakes-skip me e es cxs h (inr (f, xs, ys, found, split, rest, before, ready, contexts)) =
    rw (wake_first-skip me e es cxs h)
      (inr (f, e ∷ xs, ys, found, ap (◌∷◌ e) split, ap (◌∷◌ e) rest, (h, before), ready, contexts))

Wakes-ready :
    (me : ℕ) (e : Entry) (es : List Entry) (cxs : Contexts)
    → IsReady me cxs e
    → Wakes me (e ∷ es) cxs (wake_first me (e ∷ es) cxs)
Wakes-ready me e es cxs h =
    rw (wake_first-ready me e es cxs h)
      (inr (e, [], es, refl, refl, refl, tt, h, hand_over-at e cxs))

wake_first-Wakes :
    (me : ℕ) (es : List Entry) (cxs : Contexts) → Wakes me es cxs (wake_first me es cxs)
unfolding wake_first
wake_first-Wakes me [] cxs = inl (refl, tt, refl, refl)
wake_first-Wakes me (e ∷ es) cxs = elim (IsReady-or_not me cxs e) [
  | inl h ↦ Wakes-ready me e es cxs h
  | inr h ↦ Wakes-skip me e es cxs h (wake_first-Wakes me es cxs)
]

-- `wake_one` finds the oldest entry of another thread whose context still waits. It selects that
-- entry's operation, hands over its packet, unparks the thread and takes that one entry off the
-- queue; no other context changes. If there is no such entry, it returns none and changes nothing.
pub wake_one-Wakes :
    (me : ℕ) (w : Waker) (cxs : Contexts)
    → let (found, w', after) = wake_one me w cxs in
      Wakes me w.entries cxs (found, w'.entries, after) × (w'.register_count ≡ w.register_count)
unfolding wake_one
wake_one-Wakes me w cxs = (wake_first-Wakes me w.entries cxs, refl)

pub wake_one-empty :
    (me : ℕ) (w : Waker) (cxs : Contexts) → w.entries ≡ [] → wake_one me w cxs ≡ (none, w, cxs)
unfolding wake_one
wake_one-empty me w cxs e = ground arith

abbrev pub is_some : Option Entry → Bool
is_some none = false
is_some (some e) = true

any_ready-eq :
    (me : ℕ) (es : List Entry) (cxs : Contexts)
    → any_ready me es cxs ≡ is_some (wake_first me es cxs).0
unfolding any_ready wake_first try_select selected
any_ready-eq me [] cxs = refl
any_ready-eq me (e ∷ es) cxs = ground (arith, any_ready-eq me es cxs)

-- `can_wake_one` answers whether `wake_one` would find an entry.
pub can_wake_one-eq-wake_one :
    (me : ℕ) (w : Waker) (cxs : Contexts) → can_wake_one me w cxs ≡ is_some (wake_one me w cxs).0
unfolding can_wake_one wake_one
can_wake_one-eq-wake_one me w cxs = any_ready-eq me w.entries cxs

-- A context is that of some entry.
abbrev pub listed : ℕ → List Entry → Bool
listed c [] = false
listed c (e ∷ es) = (e.context == c) || listed c es

pub listed-last : (es : List Entry) (e : Entry) → listed e.context (es ++ (e ∷ [])) ≡ true
listed-last [] e = ground arith
listed-last (x ∷ es) e = ground (arith, listed-last es e)

-- The body of the loop of `disconnect`.
disconnect_one : Entry → Contexts → Contexts
disconnect_one e cxs =
    let (res, cxs') = try_select e.context disconnected cxs in
    elim res [ ok _ ↦ unpark e.context cxs' | err _ ↦ cxs' ]

disconnect_one-at :
    (e : Entry) (cxs : Contexts) (c : ℕ)
    → disconnect_one e cxs c ≡ (
        if (e.context == c) && ((cxs c).select == 0)
        then record (cxs c) { select = 2; unparked = true }
        else cxs c)
unfolding disconnect_one try_select unpark update
disconnect_one-at e cxs c = ground arith

disconnect_entries-at :
    (es : List Entry) (cxs : Contexts) (c : ℕ)
    → disconnect_entries es cxs c ≡ (
        if listed c es && ((cxs c).select == 0)
        then record (cxs c) { select = 2; unparked = true }
        else cxs c)
unfolding disconnect_entries disconnect_one
disconnect_entries-at [] cxs c = refl
disconnect_entries-at (e ∷ es) cxs c =
    ground (arith, disconnect_one-at e cxs c, disconnect_entries-at es (disconnect_one e cxs) c)

-- After `disconnect` a context that waited and has an entry in the queue is selected as
-- disconnected and unparked; every other context is as before.
pub disconnect_lem :
    (w : Waker) (cxs : Contexts) (c : ℕ)
    → disconnect w cxs c ≡ (
        if listed c w.entries && ((cxs c).select == 0)
        then record (cxs c) { select = 2; unparked = true }
        else cxs c)
unfolding disconnect
disconnect_lem w cxs c = disconnect_entries-at w.entries cxs c
