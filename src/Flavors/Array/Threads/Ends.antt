-- ===== src/Flavors/Array/Threads/Ends.antt =====
-- A round of `start_recv` of src/flavors/array.rs that comes to its last two looks, while other threads
-- take steps before it makes them.
use native.Mathlib.Nat.{mod-lt, div-add-mod', mul-le-mul_right}
use native.Mathlib.Decide.{dec_lt}
use crossbeam_channel.Common.{
  ℕ, ◌+◌, ◌-◌, ◌*◌, ◌/◌, ◌%◌, ◌^◌, ◌≤◌, ◌<◌, ◌≡◌, refl, ap, subst, [], ◌∷◌, length-append, sym, ◌∙◌,
  arith, Bool, true, List, none, length,
}
use crossbeam_channel.Flavors.Array.Stamp.{Fits, index_of, laps, laps_even, stamp-lap}
use crossbeam_channel.Flavors.Array.Position.{
  send_stamp, mod-ne-add, low, index_of-send_stamp, recv_stamp-near,
}
use crossbeam_channel.Flavors.Array.Chan.{
  ArrayToken, Channel, returns, send_attempt, recv_attempt, recv_round, recv_check, write, read,
}
use crossbeam_channel.Flavors.Array.Query.{disconnect}
use crossbeam_channel.Flavors.Array.Threads.{
  System, Step, claims_send, writes, claims_recv, reads, disconnects, Reach, here, next,
}
use crossbeam_channel.Flavors.Array.Threads.Inv.{Slots}
use crossbeam_channel.Flavors.Array.Threads.Claims.{head_index, tail_lap}

-- Until the laps of a word are used up, the tail shows the position.
send_stamp-wide :
    (cap k : ℕ) (fits : Fits cap k) (p q : ℕ)
    → p ≤ q
    → q < p + 2 ^ (63 - k) * cap
    → send_stamp k cap p ≡ send_stamp k cap q
    → p ≡ q
unfolding send_stamp
send_stamp-wide cap k fits p q le lt e = elim (dec_lt (p / cap) (q / cap)) [
  | yes more ↦ elim (dec_lt (q / cap) (p / cap + 2 ^ (63 - k))) [
    | yes near ↦
        let split : 2 * (q / cap) ≡ 2 * (p / cap) + 2 * (q / cap - p / cap) = omega arith in
        absurd (
          mod-ne-add (laps k) (2 * (p / cap)) (2 * (q / cap - p / cap)) (omega arith)
            (omega (arith, two_halves)) (ap (λ (x : ℕ). x % laps k) (sym split) ∙ sym same_lap))
    | no far ↦
        let le' : p / cap + 2 ^ (63 - k) ≤ q / cap = omega arith in
        absurd (
          omega
            (arith, div-add-mod' p cap, div-add-mod' q cap, same_slot, mul-le-mul_right cap le'))
  ]
  | no same ↦
      let le' : q / cap ≤ p / cap = omega arith in
      omega (arith, div-add-mod' p cap, div-add-mod' q cap, same_slot, mul-le-mul_right cap le')
]
  where
    two_halves : laps k ≡ 2 * 2 ^ (63 - k)
    two_halves = (laps_even k fits.small).0

    same_slot : p % cap ≡ q % cap
    same_slot =
        sym (index_of-send_stamp cap k fits p)
        ∙ ap (index_of (2 ^ k)) e
        ∙ index_of-send_stamp cap k fits q

    same_lap : 2 * (p / cap) % laps k ≡ 2 * (q / cap) % laps k
    same_lap =
        sym (stamp-lap k _ _ fits.small (low cap k fits p))
        ∙ ap (λ (t : ℕ). t / 2 ^ k) e
        ∙ stamp-lap k _ _ fits.small (low cap k fits q)

-- What the steps of the threads only add to.
abbrev Grows : {A : Type 0} → System A → System A → Type 0
Grows s t = (t.chan.cap ≡ s.chan.cap) × (s.taken ≤ t.taken) × (length s.log ≤ length t.log)

Step-Grows : {A : Type 0} {s t : System A} → Step s t → Grows s t
unfolding send_attempt recv_attempt recv_round recv_check write read disconnect
Step-Grows (claims_send s me x token c idles e) = ground (arith, length-append s.log (x ∷ []))
Step-Grows (writes s me x token p e) = ground arith
Step-Grows (claims_recv s me index token c idles e t) = ground arith
Step-Grows (reads s me x token p c cxs e f) = ground arith
Step-Grows (disconnects s) = ground arith

pub Reach-Grows : {A : Type 0} {s t : System A} → Reach s t → Grows s t
Reach-Grows here = (refl, omega arith, omega arith)
Reach-Grows (next r st) =
    let (c, h, l) = Reach-Grows r in
    let (c', h', l') = Step-Grows st in (c' ∙ c, omega arith, omega arith)

module _ {A : Type 0} {k h : ℕ} {log : List A} {c : Channel A} {turn : ℕ → ℕ} {full : ℕ → Bool}
    (v : Slots k h log c turn full) where
  -- The round has found the channel empty in `c`, and the end in `d`.
  pub ends_round_lem :
      (h' : ℕ) (log' : List A) (d : Channel A) (turn' : ℕ → ℕ) (full' : ℕ → Bool) (weak : Bool)
      (start token : ArrayToken) (c' : Channel A)
      → Slots k h' log' d turn' full'
      → d.cap ≡ c.cap
      → h ≤ h'
      → length log ≤ length log'
      → length log' < length log + 2 ^ (63 - k) * c.cap
      → recv_round weak start d c ≡ returns true token c'
      → token.slot ≡ none
      → (length log' ≡ h') × (d.is_disconnected ≡ true) × (c' ≡ d)
  unfolding recv_round recv_check
  ends_round_lem h' log' d turn' full' weak start token c' w same le le' few e t =
      let tail' : d.tail ≡ send_stamp k c.cap (length log') =
        subst (λ (n : ℕ). d.tail ≡ send_stamp k n (length log')) same w.tail_at in
      ground (
        arith,
        head_index v,
        v.slot_at _ (mod-lt h v.fits.positive),
        tail_lap v,
        v.head_at,
        v.tail_at,
        v.order,
        v.room,
        w.order,
        recv_stamp-near c.cap k v.fits (length log) h,
        tail',
        send_stamp-wide c.cap k v.fits (length log) (length log') le' few,
      )
