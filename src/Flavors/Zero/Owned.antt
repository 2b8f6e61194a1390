-- ===== src/Flavors/Zero/Owned.antt =====
-- Which packets of src/flavors/zero.rs the entries of the two queues own.
use crossbeam_channel.Common.{
  ℕ, ◌+◌, ◌≤◌, ◌<◌, ◌≡◌, refl, arith, Bool, true, false, not, ◌&&◌, ◌||◌, ◌==◌, if◌then◌else◌, List,
  [], ◌∷◌, ◌++◌, Option, none, some,
}
use crossbeam_channel.Context.{Contexts}
use crossbeam_channel.Waker.{Entry, wake_first, take_oper}
use crossbeam_channel.Flavors.Zero.Packets.{Packet, Channel}

-- How many of the entries have the packet.
unfoldable pub holds : ℕ → List Entry → ℕ
holds p [] = 0
holds p (e ∷ es) = (if e.packet == p then 1 else 0) + holds p es

abbrev pub held : ℕ → Option Entry → ℕ
held p none = 0
held p (some e) = if e.packet == p then 1 else 0

pub holds-append : (p : ℕ) (xs ys : List Entry) → holds p (xs ++ ys) ≡ holds p xs + holds p ys
unfolding holds
holds-append p [] ys = omega arith
holds-append p (x ∷ xs) ys = ground (arith, holds-append p xs ys)

pub holds-split :
    (q : ℕ) (xs ys : List Entry) (e : Entry)
    → holds q (xs ++ (e ∷ ys)) ≡ (if e.packet == q then 1 else 0) + holds q (xs ++ ys)
unfolding holds
holds-split q xs ys e = ground (arith, holds-append q xs (e ∷ ys), holds-append q xs ys)

pub holds-wake_first :
    (p me : ℕ) (es : List Entry) (cxs : Contexts)
    → let (found, rest, after) = wake_first me es cxs in holds p es ≡ held p found + holds p rest
unfolding holds wake_first
holds-wake_first p me [] cxs = refl
holds-wake_first p me (e ∷ es) cxs = ground (arith, holds-wake_first p me es cxs)

pub holds-take_oper :
    (p oper : ℕ) (es : List Entry)
    → let (found, rest) = take_oper oper es in holds p es ≡ held p found + holds p rest
unfolding holds take_oper
holds-take_oper p oper [] = refl
holds-take_oper p oper (e ∷ es) = ground (arith, holds-take_oper p oper es)

module _ {A : Type 0} where
  abbrev pub full : Option A → Bool
  full none = false
  full (some x) = true

  -- A packet of a sender: what is on the stack has its message.
  abbrev pub sendable : Option (Packet A) → Bool
  sendable none = false
  sendable (some p) = not p.on_stack || full p.msg

  -- A packet of a receiver waits for its message.
  abbrev pub fillable : Option (Packet A) → Bool
  fillable none = false
  fillable (some p) = not p.ready && not (full p.msg)

  -- The packets are in order: each entry has one of its own, in the state in which its side keeps it,
  -- and addresses from `fresh` on are not in use.
  pub record Inv (c : Channel A) : Type 0 where
    pub once : (p : ℕ) → holds p c.senders.entries + holds p c.receivers.entries ≤ 1
    pub offers : (p : ℕ) → 0 < holds p c.senders.entries → sendable (c.packets p) ≡ true
    pub awaits : (p : ℕ) → 0 < holds p c.receivers.entries → fillable (c.packets p) ≡ true
    pub later : (p : ℕ) → c.fresh ≤ p → c.packets p ≡ none
    pub null : c.packets 0 ≡ none
    pub start : 0 < c.fresh
