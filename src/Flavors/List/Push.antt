-- ===== src/Flavors/List/Push.antt =====
-- A message sent into a channel of src/flavors/list.rs is held behind the others, also when it takes
-- the last slot of its block and the next block is installed.
use native.Mathlib.Decide.{dec_lt, ℕ_discrete}
use crossbeam_channel.Common.{
  ℕ, ◌+◌, ◌*◌, ◌/◌, ◌%◌, ◌≤◌, ◌<◌, ◌≡◌, ◌≢◌, refl, ap, sym, ◌∙◌, subst, arith, true, List, [], ◌∷◌,
  ◌++◌, Option, none, some, length, assign, assign_self, assign_ne, length-append,
}
use crossbeam_channel.Common.Word.{word}
use crossbeam_channel.Context.{Contexts}
use crossbeam_channel.Flavors.List.Chan.{Slot, Block, Channel, new_block}
use crossbeam_channel.Flavors.List.Cells.{
  cell, IsBlock, cells-IsBlock, link-IsBlock, set-IsBlock, new_block-IsBlock, cell-append,
  cell-beyond,
}
use crossbeam_channel.Flavors.List.Holds.{Holds, link_of}
use crossbeam_channel.Flavors.List.Send.{filled, pushed_within, pushed_last}

module _ {A : Type 0} (h : ℕ) (q : List A) (x : A) where
  abbrev message : Slot A
  message = record { msg = some x; ready = true }

  -- A block away from the new message.
  keeps_cells :
      {next : Option ℕ} {j : ℕ} {b : Block A}
      → IsBlock next (cell h q) j b
      → j ≢ (h + length q) / 32
      → IsBlock next (cell h (q ++ (x ∷ []))) j b
  keeps_cells {j = j} w n = cells-IsBlock w (λ o lt. sym (
      cell-append h q x (32 * j + o)
      ∙ assign_ne (cell h q) (h + length q) (32 * j + o) message (omega arith)))

  -- The block of the new message.
  filled-IsBlock :
      {next : Option ℕ} {b : Block A}
      → IsBlock next (cell h q) ((h + length q) / 32) b
      → IsBlock next (cell h (q ++ (x ∷ []))) ((h + length q) / 32) (filled (h + length q) x b)
  filled-IsBlock {next} {b} w =
      let p : 32 * ((h + length q) / 32) + (h + length q) % 32 ≡ h + length q = omega arith in
      let w' = set-IsBlock ((h + length q) % 32) message (omega arith) w in
      cells-IsBlock w' (λ o lt. rw p (sym (cell-append h q x (32 * ((h + length q) / 32) + o))))

  module _ (c : Channel A) (v : Holds h q c) (b : Block A)
      (w : IsBlock
        (link_of ((h + length q) / 32) ((h + length q) / 32))
        (cell h q)
        ((h + length q) / 32)
        b)
      (me : ℕ) (cxs : Contexts) where
    longer : h + length (q ++ (x ∷ [])) ≡ h + length q + 1
    longer = omega (arith, length-append q (x ∷ []))

    pub pushed_within-Holds :
        (h + length q) % 32 ≢ 31
        → Holds h (q ++ (x ∷ [])) (pushed_within me (h + length q) x b c cxs)
    pushed_within-Holds n =
        let same : (h + length q + 1) / 32 ≡ (h + length q) / 32 = omega arith in
        record {
          head_at = v.head_at;
          tail_at = ap (λ p. p % word) (sym longer);
          head_in = v.head_in;
          tail_in = v.tail_in ∙ sym (rw (longer, same) refl);
          next_fresh = v.next_fresh ∙ sym (rw (longer, same) refl);
          block_at = λ j le lt.
              rw (longer, same)
                (elim (ℕ_discrete j ((h + length q) / 32)) [
                  | yes e ↦
                      rw e (filled (h + length q) x b, assign_self c.blocks _ _, filled-IsBlock w)
                  | no n ↦
                      let (b', e', w') = v.block_at j le (rw (longer, same) at lt) in
                      (b', assign_ne c.blocks _ j _ n ∙ e', keeps_cells w' n)
                ]);
        }

    module _ (n : (h + length q) % 32 ≡ 31) where
      abbrev t : ℕ
      t = (h + length q) / 32

      abbrev pushed : Channel A
      pushed = pushed_last me (h + length q) x b c cxs

      ends : (h + length q + 1) / 32 ≡ t + 1
      ends = omega (arith, n)

      abbrev Stands : ℕ → Type 0
      Stands j =
          (b' : Block A) × (pushed.blocks j ≡ some b')
          × IsBlock (link_of (t + 1) j) (cell h (q ++ (x ∷ []))) j b'

      before-Stands : (j : ℕ) → h / 32 ≤ j → j < t → Stands j
      unfolding assign
      before-Stands j le lt =
          let (b', e', w') = v.block_at j le (omega arith) in
          let next : link_of t j ≡ link_of (t + 1) j = ground arith in
          (
            b',
            ground (arith, e'),
            subst (λ m. IsBlock m (cell h (q ++ (x ∷ []))) j b') next
                (keeps_cells w' (omega arith)),
          )

      filled-Stands : Stands t
      unfolding assign
      filled-Stands =
          let next : some (t + 1) ≡ link_of (t + 1) t = ground arith in
          (
            _,
            ground arith,
            subst
                (λ m.
                  IsBlock m (cell h (q ++ (x ∷ []))) t
                    (filled (h + length q) x (record b { next = some (t + 1) })))
                next (filled-IsBlock (link-IsBlock w)),
          )

      added-Stands : Stands (t + 1)
      unfolding assign
      added-Stands =
          let next : none ≡ link_of (t + 1) (t + 1) = ground arith in
          let after : (o : ℕ) → h + length (q ++ (x ∷ [])) ≤ 32 * (t + 1) + o =
            λ o. omega (arith, n, longer) in
          (
            new_block ((32 * (t + 1)) % word),
            ground arith,
            subst
                (λ m.
                  IsBlock m (cell h (q ++ (x ∷ []))) (t + 1) (new_block ((32 * (t + 1)) % word)))
                next
                (new_block-IsBlock (cell h (q ++ (x ∷ []))) (t + 1)
                  (λ o lt. cell-beyond h (q ++ (x ∷ [])) _ (after o))),
          )

      pub pushed_last-Holds : Holds h (q ++ (x ∷ [])) pushed
      pushed_last-Holds = record {
        head_at = v.head_at;
        tail_at = ap (λ p. p % word) (sym longer);
        head_in = v.head_in;
        tail_in = sym (rw (longer, ends) refl);
        next_fresh = sym (rw (longer, ends) refl);
        block_at = λ j le lt.
            rw (longer, ends)
              (elim (dec_lt j t) [
                | yes before ↦ before-Stands j le before
                | no n ↦ elim (ℕ_discrete j t) [
                  | yes e ↦ rw e filled-Stands
                  | no m ↦
                      let last : j ≡ t + 1 = omega (arith, rw (longer, ends) at lt) in
                      rw last added-Stands
                ]
              ]);
      }
