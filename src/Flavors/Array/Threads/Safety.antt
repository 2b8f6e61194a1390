-- ===== src/Flavors/Array/Threads/Safety.antt =====
-- The threads that share a channel of src/flavors/array.rs do not disturb one another.
use native.Mathlib.Nat.{mod-lt}
use crossbeam_channel.Common.{
  ℕ, ◌+◌, ◌%◌, ◌≡◌, ◌≢◌, refl, sym, subst, ◌∙◌, arith, inl, inr, true, false, [], ◌∷◌, ◌++◌, Option,
  none, some, Result, ok, get_elem?, set, get_elem?_of_lt, Bool-cases, length-append,
  get_elem?-append_length, assign,
}
use crossbeam_channel.Context.{Contexts}
use crossbeam_channel.Waker.Sync
use crossbeam_channel.Flavors.Array.Position.{send_stamp}
use crossbeam_channel.Flavors.Array.Chan.{
  ArrayToken, Channel, returns, null_token, send_attempt, recv_attempt, write, read,
}
use crossbeam_channel.Flavors.Array.Query.{disconnect}
use crossbeam_channel.Flavors.Array.Threads.{
  Local, idle, sending, receiving, System, Step, claims_send, writes, claims_recv, reads,
  disconnects, Reach, here, next, after_claim_send, after_write, after_claim_recv, after_read,
  after_disconnect,
}
use crossbeam_channel.Flavors.Array.Threads.Inv.{Owns, Apart, Inv}
use crossbeam_channel.Flavors.Array.Threads.Claims.{claims_send_lem, claims_recv_lem}
use crossbeam_channel.Flavors.Array.Threads.Moves.{
  Slots-disconnect, Slots-claim_send, Slots-claim_recv, Slots-write, Slots-read,
}
use crossbeam_channel.Flavors.Array.Threads.Owners.{
  Owns-claim_send, Owns-claim_recv, Owns-write, Owns-read, Apart-claim_send, Apart-claim_recv,
  Apart-idle, assign-Apart, assign-all,
}

chan_of :
    {A : Type 0} {x y : A} {c d : Channel A} {e f : Contexts}
    → ◌≡◌ {A = Option (Result A (Unit {0}) × Channel A × Contexts)}
        (some (ok x, c, e))
        (some (ok y, d, f))
    → c ≡ d
chan_of e = cc

module _ {A : Type 0} {k : ℕ} {s : System A} (v : Inv k s) where
  claim_send-Inv :
      (me : ℕ) (x : A) (token : ArrayToken) (c : Channel A)
      → send_attempt false null_token s.chan ≡ returns true token c
      → Inv k (after_claim_send s me x token c)
  claim_send-Inv me x token c e =
      let (free, mine, lt, et, ec) = claims_send_lem v.slots false null_token token c e in
      rw (et, ec)
        (record {
          turn = v.turn;
          full = v.full;
          slots = Slots-claim_send v.slots x mine lt;
          owns =
              assign-all (Owns k s.chan.cap s.taken (s.log ++ (x ∷ [])) v.turn v.full) s.locals me _
                (
                  refl,
                  omega (arith, length-append s.log (x ∷ [])),
                  get_elem?-append_length s.log x,
                  mine,
                  free,
                )
                (λ j _.
                  Owns-claim_send k s.chan.cap s.taken s.log v.turn v.full x (s.locals j)
                    (v.owns j));
          apart = assign-Apart s.locals me _ v.apart (λ j _.
              Apart-claim_send k s.chan.cap s.taken s.log v.turn v.full _ x (s.locals j)
                (v.owns j));
        })

  claim_recv-Inv :
      (me index : ℕ) (token : ArrayToken) (c : Channel A)
      → recv_attempt false null_token s.chan ≡ returns true token c
      → token.slot ≡ some index
      → Inv k (after_claim_recv s me token c)
  claim_recv-Inv me index token c e t =
      let (full, mine, lt, et, ec) = claims_recv_lem v.slots false null_token token index c e t in
      rw (et, ec)
        (record {
          turn = v.turn;
          full = v.full;
          slots = Slots-claim_recv v.slots mine lt;
          owns =
              assign-all (Owns k s.chan.cap (s.taken + 1) s.log v.turn v.full) s.locals me _
                (refl, omega arith, mine, full)
                (λ j _.
                  Owns-claim_recv k s.chan.cap s.taken s.log v.turn v.full (s.locals j) (v.owns j));
          apart = assign-Apart s.locals me _ v.apart (λ j _.
              Apart-claim_recv k s.chan.cap s.taken s.log v.turn v.full _ (s.locals j) (v.owns j));
        })

  -- A thread owns what its local state says.
  owned : (me : ℕ) (l : Local A) → s.locals me ≡ l → Owns k s.chan.cap s.taken s.log v.turn v.full l
  owned me l e = subst (Owns k s.chan.cap s.taken s.log v.turn v.full) e (v.owns me)

  Apart-from : (me : ℕ) (l : Local A) → s.locals me ≡ l → (j : ℕ) → j ≢ me → Apart l (s.locals j)
  Apart-from me l e j n = subst (λ m. Apart m (s.locals j)) e (v.apart me j (λ f. n (sym f)))

  write-Inv :
      (me : ℕ) (x : A) (token : ArrayToken) (p : ℕ)
      → s.locals me ≡ sending token x p
      → Inv k (after_write s me token x)
  unfolding write
  write-Inv me x token p e =
      let (et, lt, logged, mine, free) = owned me (sending token x p) e in
      rw et (record {
        turn = v.turn;
        full = assign v.full (p % s.chan.cap) true;
        slots = Slots-write v.slots p _ mine x logged lt;
        owns =
            assign-all
              (Owns k s.chan.cap s.taken s.log v.turn (assign v.full (p % s.chan.cap) true))
              s.locals me idle tt
              (λ j n.
                Owns-write k s.chan.cap s.taken s.log v.turn v.full p token x (s.locals j)
                  (owned me (sending token x p) e) (Apart-from me (sending token x p) e j n)
                  (v.owns j));
        apart = assign-Apart s.locals me _ v.apart (λ j _. Apart-idle (s.locals j));
      })

  -- What a thread that has claimed a message for receiving finds in the slot.
  pub read_lem :
      (me : ℕ) (token : ArrayToken) (p : ℕ)
      → s.locals me ≡ receiving token p
      → (x : A) × (get_elem? s.log p ≡ some x)
        × (read me token s.chan s.contexts
            ≡ some (
              ok x,
              record s.chan {
                buffer =
                    set s.chan.buffer
                      (p % s.chan.cap)
                      (record { stamp = send_stamp k s.chan.cap (p + s.chan.cap); msg = none });
                senders = (Sync.wake_one me s.chan.senders s.contexts).1;
              },
              (Sync.wake_one me s.chan.senders s.contexts).2,
            ))
  unfolding read
  read_lem me token p e =
      let (et, lt, mine, full) = owned me (receiving token p) e in
      let (x, logged) = get_elem?_of_lt s.log p (omega (arith, v.slots.order)) in
      (x, logged, ground (arith, v.slots.slot_at (p % s.chan.cap) (mod-lt p v.slots.fits.positive)))

  read-Inv :
      (me : ℕ) (x : A) (token : ArrayToken) (p : ℕ) (c : Channel A) (cxs : Contexts)
      → s.locals me ≡ receiving token p
      → read me token s.chan s.contexts ≡ some (ok x, c, cxs)
      → Inv k (after_read s me c cxs)
  read-Inv me x token p c cxs e r =
      let (et, lt, mine, full) = owned me (receiving token p) e in
      let (y, logged, found) = read_lem me token p e in
      let same = sym r ∙ found in
      let ec = chan_of same in
      rw ec (record {
        turn = assign v.turn (p % s.chan.cap) (p + s.chan.cap);
        full = assign v.full (p % s.chan.cap) false;
        slots = Slots-read v.slots p _ mine lt;
        owns =
            assign-all
              (Owns k s.chan.cap s.taken s.log (assign v.turn (p % s.chan.cap) (p + s.chan.cap))
                (assign v.full (p % s.chan.cap) false))
              s.locals me idle tt
              (λ j n.
                Owns-read k s.chan.cap s.taken s.log v.turn v.full p token (s.locals j)
                  (owned me (receiving token p) e) (Apart-from me (receiving token p) e j n)
                  (v.owns j));
        apart = assign-Apart s.locals me _ v.apart (λ j _. Apart-idle (s.locals j));
      })

  disconnect-Inv : Inv k (after_disconnect s)
  unfolding disconnect
  disconnect-Inv = elim (Bool-cases s.chan.is_disconnected) [
    | inl d ↦ rw d dead
    | inr d ↦ rw d dead
  ]
    where
      dead :
          {cxs : Contexts}
          → Inv k (record s { chan = record s.chan { is_disconnected = true }; contexts = cxs })
      dead = record {
        turn = v.turn;
        full = v.full;
        slots = Slots-disconnect v.slots;
        owns = v.owns;
        apart = v.apart;
      }

-- Every step of every thread keeps the invariant.
pub Step-Inv : {A : Type 0} (k : ℕ) {s t : System A} → Step s t → Inv k s → Inv k t
Step-Inv k (claims_send s me x token c e a) v = claim_send-Inv v me x token c a
Step-Inv k (writes s me x token p e) v = write-Inv v me x token p e
Step-Inv k (claims_recv s me index token c e a t) v = claim_recv-Inv v me index token c a t
Step-Inv k (reads s me x token p c cxs e r) v = read-Inv v me x token p c cxs e r
Step-Inv k (disconnects s) v = disconnect-Inv v

pub Reach-Inv : {A : Type 0} (k : ℕ) {s t : System A} → Inv k s → Reach s t → Inv k t
Reach-Inv k v here = v
Reach-Inv k v (next r st) = Step-Inv k st (Reach-Inv k v r)
