-- ===== src/Waker/Queue.antt =====
-- `register` and `unregister` of src/waker.rs.
use mathlib.Core.List.{append-nil}
use crossbeam_channel.Common.{ℕ, ◌≡◌, ◌≢◌, refl, arith, List, [], ◌∷◌, ◌++◌, none, some}
use crossbeam_channel.Common.Word.{wrapping_add}
use crossbeam_channel.Waker.{Entry, Waker, register_with_packet, take_oper, unregister}

abbrev pub entry : ℕ → ℕ → ℕ → Entry
entry oper packet cx = record { context = cx; oper = oper; packet = packet }

-- No entry of the list has the operation.
abbrev pub Absent : ℕ → List Entry → Type 0
Absent oper [] = Unit {0}
Absent oper (e ∷ es) = (e.oper ≢ oper) × Absent oper es

take_oper-Absent : (oper : ℕ) (es : List Entry) → Absent oper es → take_oper oper es ≡ (none, es)
unfolding take_oper
take_oper-Absent oper [] h = refl
take_oper-Absent oper (e ∷ es) h = ground (arith, take_oper-Absent oper es h.1)

take_oper-first :
    (oper : ℕ) (xs ys : List Entry) (e : Entry)
    → Absent oper xs
    → e.oper ≡ oper
    → take_oper oper (xs ++ (e ∷ ys)) ≡ (some e, xs ++ ys)
unfolding take_oper
take_oper-first oper [] ys e h q = ground arith
take_oper-first oper (x ∷ xs) ys e h q = ground (arith, take_oper-first oper xs ys e h.1 q)

-- `unregister` takes off the oldest entry with the operation, wherever it stands in the queue,
-- keeps the order of the others, and leaves the count of registrations.
pub unregister-first :
    (oper : ℕ) (w : Waker) (xs ys : List Entry) (e : Entry)
    → w.entries ≡ xs ++ (e ∷ ys)
    → Absent oper xs
    → e.oper ≡ oper
    → unregister oper w ≡ (some e, record w { entries = xs ++ ys })
unfolding unregister
unregister-first oper w xs ys e s h q = rw (s, take_oper-first oper xs ys e h q) refl

-- Without such an entry it returns none and changes nothing.
pub unregister-Absent :
    (oper : ℕ) (w : Waker) → Absent oper w.entries → unregister oper w ≡ (none, w)
unfolding unregister
unregister-Absent oper w h = rw (take_oper-Absent oper w.entries h) refl

-- Registering an operation that is not in the queue and unregistering it gives the entry back,
-- with its context and packet, and the queue as it was; only the count of registrations has moved.
pub unregister-register :
    (oper packet cx : ℕ) (w : Waker)
    → Absent oper w.entries
    → unregister oper (register_with_packet oper packet cx w)
      ≡ (some (entry oper packet cx), record w { register_count = wrapping_add w.register_count 1 })
unfolding register_with_packet
unregister-register oper packet cx w h = ground (
  arith,
  unregister-first oper (register_with_packet oper packet cx w) w.entries [] (entry oper packet cx)
      refl h refl,
  append-nil w.entries,
)

pub unregister-empty : (oper : ℕ) (w : Waker) → w.entries ≡ [] → unregister oper w ≡ (none, w)
unfolding unregister
unregister-empty oper w e = ground arith
