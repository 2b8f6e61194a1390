-- ===== src/Select/Alone.antt =====
-- A selection of src/select.rs with a deadline that passes before any of its operations is ready.
use crossbeam_channel.Common.{ℕ, List, repeat, map}
use crossbeam_channel.Flavors.Blocking.Quiet.{quiet}
use crossbeam_channel.Select.Block.{Closure}
use crossbeam_channel.Select.Answers.{Answers}
use crossbeam_channel.Select.Parked.{still}

module _ {E S : Type 0} (e : E) where
  -- What the closure is given when no other thread does anything.
  abbrev pub lonely_closure : ℕ → List ℕ → (ℕ → ℕ) → ℕ → Closure E S
  lonely_closure n clock place cx = record {
    registers = repeat (still e place cx) n;
    waits = map quiet clock;
    meanwhile = λ s cxs. (s, cxs);
    unregisters = repeat e n;
    accepts = repeat e n;
  }
