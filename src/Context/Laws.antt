-- ===== src/Context/Laws.antt =====
-- The operations of `Context` (src/context.rs) one by one.
use crossbeam_channel.Common.{
  ℕ, zero, suc, ◌<◌, ◌≡◌, ◌≢◌, refl, ap, arith, Result, ok, err, List, [], ◌∷◌, map,
}
use crossbeam_channel.Context.{
  Selected, waiting, aborted, disconnected, operation, from_word, into_word, Inner, Contexts,
  update, try_select, selected,
}

pub update_self : (cxs : Contexts) (cx : ℕ) (x : Inner) → update cxs cx x cx ≡ x
unfolding update
update_self cxs cx x = ground arith

pub update_ne : (cxs : Contexts) (cx c : ℕ) (x : Inner) → c ≢ cx → update cxs cx x c ≡ cxs c
unfolding update
update_ne cxs cx c x h = ground arith

-- An operation that `Operation::hook` accepts is none of the three numbers that stand for the
-- other states.
abbrev pub IsHooked : Selected → Type 0
IsHooked waiting = Unit {0}
IsHooked aborted = Unit {0}
IsHooked disconnected = Unit {0}
IsHooked (operation val) = 2 < val

-- Writing a `Selected` into the word and reading it back gives it again, if its operation, where
-- it is one, passed the assertion of `Operation::hook`.
pub from_word-into_word : (s : Selected) → IsHooked s → from_word (into_word s) ≡ s
unfolding from_word into_word
from_word-into_word waiting h = refl
from_word-into_word aborted h = refl
from_word-into_word disconnected h = refl
from_word-into_word (operation zero) h = absurd (omega arith)
from_word-into_word (operation (suc zero)) h = absurd (omega arith)
from_word-into_word (operation (suc (suc zero))) h = absurd (omega arith)
from_word-into_word (operation (suc (suc (suc n)))) h = refl

-- And every word is read as what is written as that word.
pub into_word-from_word : (n : ℕ) → into_word (from_word n) ≡ n
unfolding from_word into_word
into_word-from_word zero = refl
into_word-from_word (suc zero) = refl
into_word-from_word (suc (suc zero)) = refl
into_word-from_word (suc (suc (suc n))) = refl

-- Only the word 0 reads as `Waiting`.
pub from_word-waiting : (n : ℕ) → from_word n ≡ waiting → n ≡ 0
unfolding from_word
from_word-waiting zero h = refl
from_word-waiting (suc zero) h = cc
from_word-waiting (suc (suc zero)) h = cc
from_word-waiting (suc (suc (suc n))) h = cc

pub waits : (cx : ℕ) (cxs : Contexts) → selected cx cxs ≡ waiting → (cxs cx).select ≡ 0
unfolding selected
waits cx cxs h = from_word-waiting _ h

pub from_word-zero : from_word 0 ≡ waiting
unfolding from_word
from_word-zero = refl

pub try_select-first :
    (cx : ℕ) (s : Selected) (cxs : Contexts)
    → (cxs cx).select ≡ 0
    → try_select cx s cxs ≡ (ok tt, update cxs cx (record (cxs cx) { select = into_word s }))
unfolding try_select
try_select-first cx s cxs e = ground arith

pub try_select-later :
    (cx : ℕ) (s : Selected) (cxs : Contexts)
    → (cxs cx).select ≢ 0
    → try_select cx s cxs ≡ (err (selected cx cxs), cxs)
unfolding try_select selected
try_select-later cx s cxs e = ground arith

-- Calls of `try_select` on one context in a row, with what each returns.
pub attempts : ℕ → List Selected → Contexts → List (Result (Unit {0}) Selected) × Contexts
attempts cx [] cxs = ([], cxs)
attempts cx (s ∷ ss) cxs =
    let (r, cxs') = try_select cx s cxs in let (rs, after) = attempts cx ss cxs' in (r ∷ rs, after)

attempts-settled :
    (cx : ℕ) (ss : List Selected) (cxs : Contexts)
    → (cxs cx).select ≢ 0
    → attempts cx ss cxs ≡ (map (λ _. err (selected cx cxs)) ss, cxs)
unfolding attempts
attempts-settled cx [] cxs h = refl
attempts-settled cx (s ∷ ss) cxs h = rw (try_select-later cx s cxs h, attempts-settled cx ss cxs h)

into_word-ne_zero : (s : Selected) → IsHooked s → s ≢ waiting → into_word s ≢ 0
unfolding into_word
into_word-ne_zero waiting h n = absurd (n refl)
into_word-ne_zero aborted h n = omega arith
into_word-ne_zero disconnected h n = omega arith
into_word-ne_zero (operation val) h n = omega arith

pub selected-update :
    (cx : ℕ) (s : Selected) (cxs : Contexts) (x : Inner)
    → IsHooked s
    → x.select ≡ into_word s
    → selected cx (update cxs cx x) ≡ s
unfolding selected
selected-update cx s cxs x h e = rw (update_self, e) (from_word-into_word s h)

-- Of the threads that race to select an operation of a waiting context, the first, which selects
-- a state other than `Waiting` with an operation that passed `Operation::hook` if it has one,
-- succeeds; every later one fails and is told what the first one selected, and that stays
-- selected.
pub first_selection_wins :
    (cx : ℕ) (s : Selected) (ss : List Selected) (cxs : Contexts)
    → IsHooked s
    → s ≢ waiting
    → selected cx cxs ≡ waiting
    → ((attempts cx (s ∷ ss) cxs).0 ≡ ok tt ∷ map (λ _. err s) ss)
      × (selected cx (attempts cx (s ∷ ss) cxs).1 ≡ s)
unfolding attempts
first_selection_wins cx s ss cxs h n w =
    rw
      (
        try_select-first cx s cxs first,
        attempts-settled cx ss won (rw update_self (into_word-ne_zero s h n)),
      )
      (ap (λ t. ok tt ∷ map (λ _. err t) ss) settled, settled)
  where
    first : (cxs cx).select ≡ 0
    first = waits cx cxs w

    won : Contexts
    won = update cxs cx (record (cxs cx) { select = into_word s })

    settled : selected cx won ≡ s
    settled = selected-update cx s cxs _ h refl
