-- ===== src/Flavors/Array/Threads.antt =====
-- Threads that use one channel of src/flavors/array.rs at once. A thread claims a slot in a round of
-- `start_send` or `start_recv`, and writes or reads the slot in a later step of its own; the steps of
-- the threads interleave in any order. Rounds that claim nothing change nothing and are no steps. A thread
-- looks at the flag of disconnection once, before its first round, so it may claim after that is set.
pub mod Inv
pub mod Claims
pub mod Ends
pub mod Moves
pub mod Owners
pub mod Safety
pub mod Results
use crossbeam_channel.Common.{
  ℕ, ◌+◌, ◌≡◌, Bool, true, false, List, [], ◌∷◌, ◌++◌, Option, none, some, ok, length, assign,
}
use crossbeam_channel.Context.{Contexts}
use crossbeam_channel.Flavors.Array.Chan.{
  ArrayToken, Channel, returns, null_token, send_attempt, write, recv_attempt, read, with_capacity,
}
use crossbeam_channel.Flavors.Array.Query.{disconnect}

-- Where a thread stands. The number is no part of the program: it counts the claims of its kind that
-- were made before this one.
pub data Local (A : Type 0) : Type 0 where
  idle : Local A
  sending : ArrayToken → A → ℕ → Local A
  receiving : ArrayToken → ℕ → Local A

-- `log` and `taken` are no part of the program either: the messages of all claims for sending, in
-- order, and the number of claims for receiving.
pub record System (A : Type 0) : Type 0 where
  pub chan : Channel A
  pub contexts : Contexts
  pub locals : ℕ → Local A
  pub log : List A
  pub taken : ℕ

module _ {A : Type 0} where
  abbrev pub after_claim_send : System A → ℕ → A → ArrayToken → Channel A → System A
  after_claim_send s me x token c = record s {
    chan = c;
    locals = assign s.locals me (sending token x (length s.log));
    log = s.log ++ (x ∷ []);
  }

  abbrev pub after_write : System A → ℕ → ArrayToken → A → System A
  after_write s me token x =
      let (res, c, cxs) = write me token x s.chan s.contexts in
      record s { chan = c; contexts = cxs; locals = assign s.locals me idle }

  abbrev pub after_claim_recv : System A → ℕ → ArrayToken → Channel A → System A
  after_claim_recv s me token c = record s {
    chan = c;
    locals = assign s.locals me (receiving token s.taken);
    taken = s.taken + 1;
  }

  abbrev pub after_read : System A → ℕ → Channel A → Contexts → System A
  after_read s me c cxs = record s { chan = c; contexts = cxs; locals = assign s.locals me idle }

  abbrev pub after_disconnect : System A → System A
  after_disconnect s =
      let (c, cxs) = disconnect s.chan s.contexts in record s { chan = c; contexts = cxs }

  pub data Step : System A → System A → Type 0 where
    claims_send :
        (s : System A) (me : ℕ) (x : A) (token : ArrayToken) (c : Channel A)
        → s.locals me ≡ idle
        → send_attempt false null_token s.chan ≡ returns true token c
        → Step s (after_claim_send s me x token c)
    writes :
        (s : System A) (me : ℕ) (x : A) (token : ArrayToken) (p : ℕ)
        → s.locals me ≡ sending token x p
        → Step s (after_write s me token x)
    claims_recv :
        (s : System A) (me index : ℕ) (token : ArrayToken) (c : Channel A)
        → s.locals me ≡ idle
        → recv_attempt false null_token s.chan ≡ returns true token c
        → token.slot ≡ some index
        → Step s (after_claim_recv s me token c)
    reads :
        (s : System A) (me : ℕ) (x : A) (token : ArrayToken) (p : ℕ) (c : Channel A)
        (cxs : Contexts)
        → s.locals me ≡ receiving token p
        → read me token s.chan s.contexts ≡ some (ok x, c, cxs)
        → Step s (after_read s me c cxs)
    disconnects : (s : System A) → Step s (after_disconnect s)

  pub data Reach (s : System A) : System A → Type 0 where
    here : Reach s s
    next : {t u : System A} → Reach s t → Step t u → Reach s u
