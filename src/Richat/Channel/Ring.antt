-- ===== src/Richat/Channel/Ring.antt =====
-- The invariant of a ring of the relay: which messages it holds, and what its counters say.
use native.Mathlib.Nat.{add-zero}
use dragonmouth.Base.{
  ℕ, zero, suc, ◌+◌, ◌-◌, ◌%◌, ◌^◌, ◌≤◌, ◌<◌, bit_and, ◌≡◌, refl, sym, ap, ◌∙◌, List, [], ◌∷◌,
  Option, none, some, arith, length, get_elem?,
}
use dragonmouth.Base.Ring.{IsCapacity, capacity_pos, index_mask}
use dragonmouth.Base.Turn.{Cells}
use dragonmouth.Filter.Message.{Message, message_size}
use dragonmouth.Richat.Channel.{
  Item, SenderShared, SlotHeads, items_from, shared_new, sender_shared_new, get_idx,
}

-- A message in the ring, behind its slot.
abbrev pub Entry : Type 0
Entry = ℕ × Message

abbrev pub total : List Entry → ℕ
total [] = 0
total (e ∷ q) = message_size e.1 + total q

-- The cell of position `p`: with a message, or emptied one turn before.
abbrev pub Cell : ℕ → ℕ → Item → Option Entry → Type 0
Cell cap p item (some e) = (item.pos ≡ p) × (item.slot ≡ e.0) × (item.contents ≡ some e.1)
Cell cap p item none = (item.pos + cap ≡ p) × (item.contents ≡ none)

-- The ring of `cap` cells holds the messages `q` at the positions from the head to the tail. The
-- receivers' tail is the sender's, or one behind it.
pub record Ring (cap : ℕ) (s : SenderShared) (q : List Entry) : Type 0 where
  pub is_capacity : IsCapacity cap
  pub mask_is : s.shared.mask ≡ cap - 1
  pub size : length s.shared.buffer ≡ cap
  pub in_range : length q ≤ cap
  pub tail_is : s.tail ≡ s.head + length q
  pub counted : s.tail < 2 ^ 64
  pub total_is : s.bytes_total ≡ total q
  pub published : (s.shared.tail ≤ s.tail) × (s.tail ≤ s.shared.tail + 1)
  pub cells : Cells (Cell cap) cap s.head s.shared.buffer q

-- The maps of slots play no part in the ring.
pub Ring-slots :
    {cap : ℕ} {s : SenderShared} {q : List Entry} (own others : SlotHeads)
    → Ring cap s q
    → Ring cap (record s { slots = own; shared = record s.shared { slots = others } }) q
Ring-slots own others r = record {
  is_capacity = r.is_capacity;
  mask_is = r.mask_is;
  size = r.size;
  in_range = r.in_range;
  tail_is = r.tail_is;
  counted = r.counted;
  total_is = r.total_is;
  published = r.published;
  cells = r.cells;
}

module _ {cap : ℕ} {s : SenderShared} {q : List Entry} (r : Ring cap s q) where
  pub index_at : (p : ℕ) → get_idx s.shared p ≡ p % cap
  unfolding get_idx
  index_at p = ap (bit_and p) r.mask_is ∙ index_mask cap r.is_capacity p

  pub head_index : get_idx s.shared s.head ≡ (s.head + 0) % cap
  head_index = index_at s.head ∙ ap (λ k. k % cap) (sym (add-zero s.head))

  pub tail_index : get_idx s.shared s.tail ≡ (s.head + length q) % cap
  tail_index = index_at s.tail ∙ ap (λ k. k % cap) r.tail_is

length-items_from : (i n : ℕ) → length (items_from i n) ≡ n
unfolding items_from
length-items_from i zero = refl
length-items_from i (suc n) = ap suc (length-items_from (i + 1) n)

get_elem?-items_from :
    (i n j : ℕ)
    → j < n
    → get_elem? (items_from i n) j ≡ some (record { pos = i + j; slot = 0; contents = none })
unfolding items_from
get_elem?-items_from i zero j h = elim h [ ]
get_elem?-items_from i (suc n) zero h =
    ap (λ k. some (record { pos = k; slot = 0; contents = none })) (sym (add-zero i))
get_elem?-items_from i (suc n) (suc j) h =
    get_elem?-items_from (i + 1) n j (omega arith)
    ∙ ap (λ k. some (record { pos = k; slot = 0; contents = none }))
        (let e : i + 1 + j ≡ i + suc j = omega arith in e)

-- A new ring is empty.
pub sender_shared_new-Ring :
    (cap : ℕ) → IsCapacity cap → cap < 2 ^ 64 → Ring cap (sender_shared_new (shared_new cap) cap) []
unfolding sender_shared_new shared_new
sender_shared_new-Ring cap c small =
    let pos : 0 < cap = capacity_pos c in
    record {
      is_capacity = c;
      mask_is = omega arith;
      size = length-items_from 0 cap;
      in_range = omega arith;
      tail_is = omega arith;
      counted = small;
      total_is = refl;
      published = (omega arith, omega arith);
      cells = λ i hi. (
        record { pos = 0 + i; slot = 0; contents = none },
        ap (get_elem? (items_from 0 cap)) (let e : (cap + i) % cap ≡ i = grind arith in e)
            ∙ get_elem?-items_from 0 cap i hi,
        (omega arith, refl),
      );
    }
