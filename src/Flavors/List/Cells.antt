-- ===== src/Flavors/List/Cells.antt =====
-- What the blocks of src/flavors/list.rs hold, position by position: block `j` has the positions from
-- 32 * j on.
use native.Mathlib.Decide.{dec_lt, ℕ_discrete}
use crossbeam_channel.Common.{
  ℕ, zero, suc, ◌+◌, ◌-◌, ◌*◌, ◌/◌, ◌%◌, ◌≤◌, ◌<◌, ◌≡◌, refl, ap, sym, ◌∙◌, arith, true, false, ltb,
  ◌==◌, if◌then◌else◌, List, [], ◌∷◌, ◌++◌, Option, none, some, length, get_elem?, set, assign,
  length-set, get_elem?-set_self, get_elem?-set_ne,
}
use crossbeam_channel.Common.Word.{word, wrapping_add, wrapping_sub}
use crossbeam_channel.Flavors.List.Chan.{Slot, Block, zeroed, new_block}

length-zeroed : (A : Type 0) (n : ℕ) → length (zeroed {A = A} n) ≡ n
unfolding zeroed
length-zeroed A zero = refl
length-zeroed A (suc n) = ap suc (length-zeroed A n)

get_elem?-zeroed :
    (A : Type 0) (n o : ℕ)
    → o < n
    → get_elem? (zeroed {A = A} n) o ≡ some (record { msg = none; ready = false })
unfolding zeroed
get_elem?-zeroed A zero o lt = absurd (omega arith)
get_elem?-zeroed A (suc n) zero lt = refl
get_elem?-zeroed A (suc n) (suc o) lt = get_elem?-zeroed A n o (omega arith)

-- The offset of a position in its block.
pub offset_lem : (p : ℕ) → wrapping_sub (p % word) ((32 * (p / 32)) % word) ≡ p % 32
offset_lem p = omega arith

pub add_lem : (p : ℕ) → wrapping_add (p % word) 1 ≡ (p + 1) % word
add_lem p = omega arith

-- The first index of the next block.
pub start_lem : (j : ℕ) → wrapping_add ((32 * j) % word) 32 ≡ (32 * (j + 1)) % word
start_lem j = omega arith

module _ {A : Type 0} where
  abbrev pub vacant : Slot A
  vacant = record { msg = none; ready = false }

  -- The slot at position `p` when the messages `q` stand at the positions from `h` on.
  unfoldable pub cell : ℕ → List A → ℕ → Slot A
  cell h q p = if ltb p h then record { msg = none; ready = true } else elim (get_elem? q (p - h)) [
    | none ↦ vacant
    | some x ↦ record { msg = some x; ready = true }
  ]

  pub record IsBlock (next : Option ℕ) (f : ℕ → Slot A) (j : ℕ) (b : Block A) : Type 0 where
    pub start : b.start_index ≡ (32 * j) % word
    pub link : b.next ≡ next
    pub size : length b.slots ≡ 32
    pub slot_at : (o : ℕ) → o < 32 → get_elem? b.slots o ≡ some (f (32 * j + o))

  pub cells-IsBlock :
      {next : Option ℕ} {f g : ℕ → Slot A} {j : ℕ} {b : Block A}
      → IsBlock next f j b
      → ((o : ℕ) → o < 32 → f (32 * j + o) ≡ g (32 * j + o))
      → IsBlock next g j b
  cells-IsBlock v e = record {
    start = v.start;
    link = v.link;
    size = v.size;
    slot_at = λ o lt. v.slot_at o lt ∙ ap some (e o lt);
  }

  pub link-IsBlock :
      {next next' : Option ℕ} {f : ℕ → Slot A} {j : ℕ} {b : Block A}
      → IsBlock next f j b
      → IsBlock next' f j (record b { next = next' })
  link-IsBlock v = record { start = v.start; link = refl; size = v.size; slot_at = v.slot_at }

  pub set-IsBlock :
      {next : Option ℕ} {f : ℕ → Slot A} {j : ℕ} {b : Block A} (o : ℕ) (s : Slot A)
      → o < 32
      → IsBlock next f j b
      → IsBlock next (assign f (32 * j + o) s) j (record b { slots = set b.slots o s })
  unfolding assign
  set-IsBlock {j = j} {b = b} o s lt v = record {
    start = v.start;
    link = v.link;
    size = length-set b.slots o s ∙ v.size;
    slot_at = λ p le. elim (ℕ_discrete p o) [
      | yes e ↦ ground (arith, get_elem?-set_self b.slots o s, v.size)
      | no n ↦ ground (arith, get_elem?-set_ne b.slots o p s, v.slot_at p le)
    ];
  }

  pub new_block-IsBlock :
      (f : ℕ → Slot A) (j : ℕ)
      → ((o : ℕ) → o < 32 → f (32 * j + o) ≡ vacant)
      → IsBlock none f j (new_block ((32 * j) % word))
  new_block-IsBlock f j e = record {
    start = refl;
    link = refl;
    size = length-zeroed A 32;
    slot_at = λ o lt. get_elem?-zeroed A 32 o lt ∙ ap some (sym (e o lt));
  }

  get_elem?-append :
      (q : List A) (x : A) (i : ℕ)
      → get_elem? (q ++ (x ∷ [])) i ≡ (if i == length q then some x else get_elem? q i)
  get_elem?-append [] x zero = refl
  get_elem?-append [] x (suc i) = ground arith
  get_elem?-append (y ∷ q) x zero = ground arith
  get_elem?-append (y ∷ q) x (suc i) = ground (arith, get_elem?-append q x i)

  get_elem?-beyond : (q : List A) (i : ℕ) → length q ≤ i → get_elem? q i ≡ none
  get_elem?-beyond [] i le = refl
  get_elem?-beyond (x ∷ q) zero le = absurd (omega arith)
  get_elem?-beyond (x ∷ q) (suc i) le = get_elem?-beyond q i (omega arith)

  -- A message put behind the others fills the slot after them.
  pub cell-append :
      (h : ℕ) (q : List A) (x : A) (p : ℕ)
      → cell h (q ++ (x ∷ [])) p
        ≡ assign (cell h q) (h + length q) (record { msg = some x; ready = true }) p
  unfolding cell assign
  cell-append h q x p = elim (dec_lt p h) [
    | yes lt ↦ ground arith
    | no n ↦ ground (arith, get_elem?-append q x (p - h))
  ]

  -- Taking the first message away leaves its slot ready.
  pub cell-tail :
      (h : ℕ) (q : List A) (x : A) (p : ℕ)
      → cell (h + 1) q p ≡ assign (cell h (x ∷ q)) h (record { msg = none; ready = true }) p
  unfolding cell assign
  cell-tail h q x p = elim (dec_lt h p) [
    | yes lt ↦ let z : p - h ≡ suc (p - (h + 1)) = omega arith in ground (arith, z)
    | no n ↦ ground arith
  ]

  -- The slots after the messages are vacant.
  pub cell-beyond : (h : ℕ) (q : List A) (p : ℕ) → h + length q ≤ p → cell h q p ≡ vacant
  unfolding cell
  cell-beyond h q p le = ground (arith, get_elem?-beyond q (p - h))
