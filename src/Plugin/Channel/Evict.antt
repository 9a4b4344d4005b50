-- ===== src/Plugin/Channel/Evict.antt =====
-- One message leaves the ring: `head_item` and `take_head` of Channel.
use native.Mathlib.Nat.{add-zero, add-mod_right}
use dragonmouth.Base.{
  ℕ, zero, suc, ◌+◌, ◌-◌, ◌%◌, ◌≤◌, ◌<◌, ◌≡◌, refl, sym, ap, ◌∙◌, Bool, false, List, [], ◌∷◌, none,
  some, arith, length, get_elem?, set, bit_and, length-set, dec_lt, ltb, lt→ltb,
}
use dragonmouth.Base.Ring.{capacity_pos, index_mask, turn-set_self, turn-set_ne, wrapping_add}
use dragonmouth.Plugin.Channel.{ok, panic, Item, Shared, get_idx, head_item, take_head}
use dragonmouth.Plugin.Channel.Inv.{Entry, Cell, Ring}

abbrev pub taken : Shared → Item → ℕ → Shared
taken s item n = record s {
  head = wrapping_add s.head 1;
  bytes_total = s.bytes_total - n;
  buffer = set s.buffer (get_idx s s.head) (record item { contents = none });
}

module _ {cap : ℕ} {b : Bool} {n : ℕ} {s : Shared} {q : List Entry} (r : Ring cap b n s q) where
  pub head_index : get_idx s s.head ≡ (s.head + 0) % cap
  unfolding get_idx
  head_index =
      ap (bit_and s.head) r.mask_is
      ∙ index_mask cap r.is_capacity s.head
      ∙ ap (λ k. k % cap) (sym (add-zero s.head))

  pub tail_index : get_idx s s.tail ≡ (s.head + length q) % cap
  unfolding get_idx
  tail_index =
      ap (bit_and s.tail) r.mask_is
      ∙ index_mask cap r.is_capacity s.tail
      ∙ ap (λ k. k % cap) r.tail_is

  -- An empty ring has no item at its head.
  pub head_item-empty : q ≡ [] → head_item s ≡ panic
  unfolding head_item
  head_item-empty e = ground (arith, r.tail_is, ap length e)

get_elem?_out : (q : List Entry) (i : ℕ) → length q ≤ i → get_elem? q i ≡ none
get_elem?_out [] i h = refl
get_elem?_out (x ∷ q) zero h = elim h [ ]
get_elem?_out (x ∷ q) (suc i) h = get_elem?_out q i (omega arith)

module _ {cap : ℕ} {b : Bool} {n : ℕ} {s : Shared} {e : Entry} {q : List Entry}
    (r : Ring cap b n s (e ∷ q)) where
  abbrev pub oldest : Item
  oldest = (r.cells 0 (capacity_pos r.is_capacity)).0

  pub oldest-Cell :
      (get_elem? s.buffer ((s.head + 0) % cap) ≡ some oldest)
      × Cell cap (s.head + 0) b oldest (some e)
  oldest-Cell = let (item, g, c) = r.cells 0 (capacity_pos r.is_capacity) in (g, c)

  pub head_item_lem : head_item s ≡ ok oldest
  unfolding head_item
  head_item_lem =
      let h : s.head < s.tail = omega (arith, r.tail_is) in
      rw (lt→ltb s.head s.tail h, head_index r, oldest-Cell.0)

  pub oldest-slot : oldest.slot ≡ e.slot
  oldest-slot = oldest-Cell.1.1

  pub take_head_lem : take_head s oldest ≡ ok (taken s oldest (length e.bytes))
  unfolding take_head
  take_head_lem =
      let h : ltb s.bytes_total (length e.bytes) ≡ false = ground (arith, r.total_is) in
      rw (oldest-Cell.1.2, take_head) (rw h)

  -- The cell `i` behind the new head.
  taken-cells :
      (i : ℕ)
      → i < cap
      → (item : Item) × (get_elem?
            (set s.buffer ((s.head + 0) % cap) (record oldest { contents = none }))
            ((s.head + suc i) % cap)
          ≡ some item)
        × Cell cap (s.head + suc i) b item (get_elem? q i)
  taken-cells i hi = elim (dec_lt (suc i) cap) [
    | yes p ↦
        let (item, g, c) = r.cells (suc i) p in
        (
          item,
          turn-set_ne s.buffer cap s.head 0 _ (suc i) (capacity_pos r.is_capacity) p
                (λ e. absurd (omega arith))
              ∙ g,
          c,
        )
    | no p ↦ (record oldest { contents = none }, last_get p, last_cell p)
  ]
    where
      last_get :
          ¬ (suc i < cap)
          → get_elem?
              (set s.buffer ((s.head + 0) % cap) (record oldest { contents = none }))
              ((s.head + suc i) % cap)
            ≡ some (record oldest { contents = none })
      last_get p =
          let c : suc i ≡ cap = omega arith in
          ap (get_elem? (set s.buffer ((s.head + 0) % cap) (record oldest { contents = none }))) (
            ap (λ k. (s.head + k) % cap) c
            ∙ add-mod_right s.head cap
            ∙ ap (λ k. k % cap) (sym (add-zero s.head)))
          ∙ turn-set_self s.buffer cap s.head 0 (record oldest { contents = none }) r.size
              (capacity_pos r.is_capacity)

      last_cell :
          ¬ (suc i < cap)
          → Cell cap (s.head + suc i) b (record oldest { contents = none }) (get_elem? q i)
      last_cell p =
          rw (get_elem?_out q i (omega (arith, r.in_range)))
            (omega (arith, oldest-Cell.1.0), refl, oldest-Cell.1.3)

  taken-Ring_at :
      (h i : ℕ)
      → h ≡ (s.head + 0) % cap
      → i ≡ s.head + 1
      → Ring cap b n
          (record s {
            head = i;
            bytes_total = s.bytes_total - length e.bytes;
            buffer = set s.buffer h (record oldest { contents = none });
          })
          q
  taken-Ring_at h i eh ei = record {
    is_capacity = r.is_capacity;
    mask_is = r.mask_is;
    size = length-set s.buffer h (record oldest { contents = none }) ∙ r.size;
    in_range = omega (arith, r.in_range);
    tail_is = omega (arith, r.tail_is);
    counted = r.counted;
    total_is = omega (arith, r.total_is);
    cells = λ j hj.
        rw (ei, eh)
          (let c : s.head + 1 + j ≡ s.head + suc j = omega arith in rw c (taken-cells j hj));
  }

  -- What is left holds the other messages.
  pub taken-Ring : Ring cap b n (taken s oldest (length e.bytes)) q
  taken-Ring = taken-Ring_at _ _ (head_index r) (omega (arith, r.tail_is, r.counted))
