-- ===== src/Plugin/Channel/Rounds.antt =====
-- One round of `recv_ref`, plugin-agave/src/channel.rs, by the cell that it reads.
use native.Mathlib.Nat.{add-zero, add-mod_right}
use dragonmouth.Base.{
  ℕ, zero, suc, ◌+◌, ◌%◌, ◌≤◌, ◌<◌, ◌≡◌, refl, sym, ap, ◌∙◌, subst, Bool, true, false, List, [],
  ◌∷◌, ◌++◌, none, some, arith, length, drop, get_elem?, bit_and, ltb, ◌==◌, dec_lt,
}
use dragonmouth.Base.Ring.{wrapping_add, capacity_pos, index_mask}
use dragonmouth.Plugin.Message.{Bytes, PluginNotification}
use dragonmouth.Plugin.Channel.{ok, Item, Shared, get_idx}
use dragonmouth.Plugin.Channel.Inv.{Entry, Cell, Ring}
use dragonmouth.Plugin.Channel.Receive.{
  Receiver, item_of, waiting, failed, lagged, is_enabled, recv_rounds,
}

module _ {cap : ℕ} {b : Bool} {n : ℕ} {s : Shared} {q : List Entry} (r : Ring cap b n s q) where
  pub index_at : (p : ℕ) → get_idx s p ≡ p % cap
  unfolding get_idx
  index_at p = ap (bit_and p) r.mask_is ∙ index_mask cap r.is_capacity p

  -- The cell of the tail holds an older position, whether the ring is full or not.
  pub tail_item :
      (item : Item) × (get_elem? s.buffer (get_idx s s.tail) ≡ some item)
      × (item.pos < s.tail)
      × (item.closed ≡ b)
  tail_item = elim (dec_lt (length q) cap) [
    | yes room ↦
        let (item, g, c) = r.cells (length q) room in
        let c' : Cell cap (s.head + length q) b item none =
          subst (Cell cap (s.head + length q) b item) (ends q) c in
        (
          item,
          ap (get_elem? s.buffer) (index_at s.tail ∙ ap (λ k. k % cap) r.tail_is) ∙ g,
          omega (arith, r.tail_is, c'.0, capacity_pos r.is_capacity),
          c'.2,
        )
    | no full ↦
        let e : length q ≡ cap = omega (arith, r.in_range) in
        let (item, g, c) = r.cells 0 (capacity_pos r.is_capacity) in
        let (p, d) = first q item c (omega (arith, capacity_pos r.is_capacity)) in
        (
          item,
          ap (get_elem? s.buffer) (
                index_at s.tail
                ∙ ap (λ k. k % cap) (r.tail_is ∙ ap (λ k. s.head + k) e)
                ∙ add-mod_right s.head cap
                ∙ ap (λ k. k % cap) (sym (add-zero s.head)))
              ∙ g,
          omega (arith, r.tail_is, capacity_pos r.is_capacity),
          d,
        )
  ]
    where
      ends : (q : List Entry) → get_elem? q (length q) ≡ none
      ends [] = refl
      ends (x ∷ q) = ends q

      first :
          (q : List Entry) (item : Item)
          → Cell cap (s.head + 0) b item (get_elem? q 0)
          → 0 < length q
          → (item.pos ≡ s.head + 0) × (item.closed ≡ b)
      first [] item c h = elim h [ ]
      first (x ∷ q) item c h = (c.0, c.3)

pub drop-nil : (q : List Entry) (i : ℕ) → i ≤ length q → drop i q ≡ [] → i ≡ length q
drop-nil [] zero h e = refl
drop-nil [] (suc i) h e = elim h [ ]
drop-nil (x ∷ q) zero h e = cc
drop-nil (x ∷ q) (suc i) h e = ap suc (drop-nil q i (omega arith) e)

pub drop-cons :
    (q : List Entry) (i : ℕ) (e : Entry) (t : List Entry)
    → drop i q ≡ e ∷ t
    → (get_elem? q i ≡ some e) × (drop (suc i) q ≡ t) × (i < length q)
drop-cons [] zero e t h = cc
drop-cons [] (suc i) e t h = cc
drop-cons (x ∷ q) zero e t h = (ground (arith, h), ground (arith, h), omega arith)
drop-cons (x ∷ q) (suc i) e t h = let (g, d, l) = drop-cons q i e t h in (g, d, omega arith)

pub is_enabled-next :
    (r : Receiver) (k : ℕ) (x : PluginNotification)
    → is_enabled (record r { next = k }) x ≡ is_enabled r x
unfolding is_enabled
is_enabled-next r k PluginNotification.account = refl
is_enabled-next r k PluginNotification.transaction = refl
is_enabled-next r k PluginNotification.entry = refl
is_enabled-next r k PluginNotification.slot = refl
is_enabled-next r k PluginNotification.block_meta = refl

-- A round of `recv_rounds`, by what its cell holds.
module _ (fuel : ℕ) (s : Shared) (r : Receiver) (waker : ℕ) (item : Item)
    (cell : get_elem? s.buffer (get_idx s r.next) ≡ some item) (opened : item.closed ≡ false) where
  pub round-waiting :
      item.pos < r.next
      → recv_rounds (suc fuel) s r waker
        ≡ ok (record s { wakers = s.wakers ++ (waker ∷ []) }, r, waiting)
  unfolding recv_rounds
  round-waiting lt =
      let ne : item.pos == r.next ≡ false = ground arith in
      let ltb_true : ltb item.pos r.next ≡ true = ground arith in
      rw (cell, recv_rounds) (rw (opened, ne, ltb_true))

  pub round-lagged : r.next < item.pos → recv_rounds (suc fuel) s r waker ≡ ok (s, r, failed lagged)
  unfolding recv_rounds
  round-lagged lt =
      let ne : item.pos == r.next ≡ false = ground arith in
      let ltb_false : ltb item.pos r.next ≡ false = ground arith in
      rw (cell, recv_rounds) (rw (opened, ne, ltb_false))

  pub round-emptied :
      item.pos ≡ r.next
      → item.contents ≡ none
      → recv_rounds (suc fuel) s r waker
        ≡ ok (s, record r { next = wrapping_add r.next 1 }, failed lagged)
  unfolding recv_rounds
  round-emptied eq c =
      let same : item.pos == r.next ≡ true = ground arith in
      rw (cell, recv_rounds) (rw (opened, same, c))

  pub round-enabled :
      (x : PluginNotification) (bytes : Bytes)
      → item.pos ≡ r.next
      → item.contents ≡ some (x, bytes)
      → is_enabled r x ≡ true
      → recv_rounds (suc fuel) s r waker
        ≡ ok (s, record r { next = wrapping_add r.next 1 }, item_of bytes)
  unfolding recv_rounds
  round-enabled x bytes eq c en =
      let same : item.pos == r.next ≡ true = ground arith in
      rw (cell, recv_rounds) (rw (opened, same, c) (rw en))

  pub round-skipped :
      (x : PluginNotification) (bytes : Bytes)
      → item.pos ≡ r.next
      → item.contents ≡ some (x, bytes)
      → is_enabled r x ≡ false
      → recv_rounds (suc fuel) s r waker
        ≡ recv_rounds fuel s (record r { next = wrapping_add r.next 1 }) waker
  unfolding recv_rounds
  round-skipped x bytes eq c en =
      let same : item.pos == r.next ≡ true = ground arith in
      rw (cell, recv_rounds) (rw (opened, same, c) (rw en))
