-- ===== src/Waker/SyncLaws.antt =====
-- The length that `SyncWaker` of src/waker.rs keeps beside its mutex.
use crossbeam_channel.Common.{ℕ, ◌≡◌, inl, inr, refl, arith, ltb, List, [], ◌∷◌, length, Bool-cases}
use crossbeam_channel.Context.{Contexts}
use crossbeam_channel.Waker
use crossbeam_channel.Waker.{Entry, Waker}
use crossbeam_channel.Waker.Wake.{wake_one-empty}
use crossbeam_channel.Waker.Queue.{unregister-empty}
use crossbeam_channel.Waker.Sync
use crossbeam_channel.Waker.Sync.{SyncWaker}

-- What the assertions of `drop` and the shortcuts rely on.
abbrev pub IsSynced : SyncWaker → Type 0
IsSynced s = s.len ≡ length s.inner.entries

pub register-IsSynced : (oper cx : ℕ) (s : SyncWaker) → IsSynced (Sync.register oper cx s)
unfolding Sync.register Waker.len
register-IsSynced oper cx s = refl

empty_of_length : {A : Type 0} (xs : List A) → length xs ≡ 0 → xs ≡ []
empty_of_length [] h = refl
empty_of_length (x ∷ xs) h = absurd (omega arith)

-- With the length in step, the shortcut at length 0 changes nothing: `unregister` does what the
-- waker behind the mutex does, and keeps the length in step.
pub unregister-eq-Waker :
    (oper : ℕ) (s : SyncWaker)
    → IsSynced s
    → let (entry, s') = Sync.unregister oper s in
      ((entry, s'.inner) ≡ Waker.unregister oper s.inner) × IsSynced s'
unfolding Sync.unregister Waker.len
unregister-eq-Waker oper s h = elim (Bool-cases (ltb 0 s.len)) [
  | inl some_there ↦ rw some_there (refl, refl)
  | inr nobody ↦
      let empty = empty_of_length s.inner.entries (ground arith) in
      rw (nobody, unregister-empty oper s.inner empty) (refl, h)
]

-- With the length in step, the shortcut at length 0 changes nothing: `wake_one` of the
-- `SyncWaker` does what the waker behind the mutex does, and keeps the length in step.
pub wake_one-eq-Waker :
    (me : ℕ) (s : SyncWaker) (cxs : Contexts)
    → IsSynced s
    → let (entry, s', after) = Sync.wake_one me s cxs in
      ((entry, s'.inner, after) ≡ Waker.wake_one me s.inner cxs) × IsSynced s'
unfolding Sync.wake_one Waker.len
wake_one-eq-Waker me s cxs h = elim (Bool-cases (ltb 0 s.len)) [
  | inl some_there ↦ rw some_there (refl, refl)
  | inr nobody ↦
      let empty = empty_of_length s.inner.entries (ground arith) in
      rw (nobody, wake_one-empty me s.inner cxs empty) (refl, h)
]
