-- ===== src/Plugin/Channel/Store.antt =====
-- The end of `push_msg`: the new message goes into the cell at the tail, and if the ring is full the
-- oldest one leaves it.
use native.Mathlib.Nat.{add-zero, add-mod_right}
use dragonmouth.Base.{
  ℕ, zero, suc, ◌+◌, ◌%◌, ◌^◌, ◌<◌, ◌≡◌, ◌≢◌, refl, sym, ap, ◌∙◌, subst, Bool, false, List, [], ◌∷◌,
  ◌++◌, none, some, arith, length, get_elem?, set, length-set, length-append, ltb, ℕ_discrete,
}
use dragonmouth.Base.Ring.{capacity_pos, turn-set_self, turn-set_ne, wrapping_add}
use dragonmouth.Plugin.Message.{Bytes, ProtobufMessage, get_slot, get_plugin_notification}
use dragonmouth.Plugin.Channel.{ok, SlotMap, Item, Shared, get_idx, remove_slots}
use dragonmouth.Plugin.Channel.Inv.{Entry, total, Cell, Ring}
use dragonmouth.Plugin.Channel.Evict.{taken, oldest, oldest-Cell, tail_index, head_index}
use dragonmouth.Plugin.Channel.Push.{overwrite, store}

set-set {ℓ} : {A : Type ℓ} (xs : List A) (i : ℕ) (v w : A) → set (set xs i v) i w ≡ set xs i w
set-set [] i v w = refl
set-set (x ∷ xs) zero v w = refl
set-set (x ∷ xs) (suc i) v w = ap (◌∷◌ x) (set-set xs i v w)

pub get_elem?-append_self {ℓ} :
    {A : Type ℓ} (q : List A) (x : A) → get_elem? (q ++ (x ∷ [])) (length q) ≡ some x
get_elem?-append_self [] x = refl
get_elem?-append_self (y ∷ q) x = get_elem?-append_self q x

pub get_elem?-append_ne {ℓ} :
    {A : Type ℓ} (q : List A) (x : A) (i : ℕ)
    → i ≢ length q
    → get_elem? (q ++ (x ∷ [])) i ≡ get_elem? q i
get_elem?-append_ne [] x zero h = absurd (h refl)
get_elem?-append_ne [] x (suc i) h = refl
get_elem?-append_ne (y ∷ q) x zero h = refl
get_elem?-append_ne (y ∷ q) x (suc i) h = get_elem?-append_ne q x i (λ e. h (ap suc e))

total-append : (q : List Entry) (e : Entry) → total (q ++ (e ∷ [])) ≡ total q + length e.bytes
total-append [] e = omega arith
total-append (x ∷ q) e = omega (arith, total-append q e)

get_elem?_end : (q : List Entry) → get_elem? q (length q) ≡ none
get_elem?_end [] = refl
get_elem?_end (x ∷ q) = get_elem?_end q

module _ {T : Type 0} (message : ProtobufMessage T) (bytes : Bytes) where
  -- The message as it stands in the ring.
  abbrev pub entry_of : Entry
  entry_of = record {
    slot = get_slot message;
    notification = get_plugin_notification message;
    bytes = bytes;
  }

  -- The item that `store` makes of the one in its cell.
  abbrev pub item_at : ℕ → Item → Item
  item_at pos item = record item {
    pos = pos;
    slot = get_slot message;
    contents = some (get_plugin_notification message, bytes);
  }

  -- The state behind `store`, where the cell at the tail was empty and held `item`.
  abbrev pub stored : Shared → Item → Shared
  stored s item = record s {
    tail = wrapping_add s.tail 1;
    buffer = set s.buffer (get_idx s s.tail) (item_at s.tail item);
  }

  store_step :
      (s s' : Shared) (pos : ℕ) (item : Item)
      → get_elem? s.buffer (get_idx s pos) ≡ some item
      → overwrite s item ≡ ok s'
      → store s pos message bytes
        ≡ ok (record s' { buffer = set s'.buffer (get_idx s' pos) (item_at pos item) })
  unfolding store
  store_step s s' pos item g o = rw (g, store) (rw (o, store))

  module _ {cap : ℕ} {b : Bool} {s : Shared} {q : List Entry} (r : Ring cap b (length bytes) s q)
      (room : length q < cap) (fits : s.tail + 1 < 2 ^ 64) where
    abbrev pub tail_item : Item
    tail_item = (r.cells (length q) room).0

    tail_item-Cell :
        (get_elem? s.buffer ((s.head + length q) % cap) ≡ some tail_item)
        × Cell cap (s.head + length q) b tail_item none
    tail_item-Cell =
        let (item, g, c) = r.cells (length q) room in
        (g, subst (Cell cap (s.head + length q) b item) (get_elem?_end q) c)

    pub store_room :
        store (record s { tail = wrapping_add s.tail 1 }) s.tail message bytes
        ≡ ok (stored s tail_item)
    unfolding get_idx overwrite
    store_room =
        store_step (record s { tail = wrapping_add s.tail 1 })
          (record s { tail = wrapping_add s.tail 1 }) s.tail tail_item
          (ap (get_elem? s.buffer) (tail_index r) ∙ tail_item-Cell.0)
          (rw (tail_item-Cell.1.1, overwrite) refl)

    stored-cells :
        (i : ℕ)
        → i < cap
        → (item : Item) × (get_elem?
              (set s.buffer ((s.head + length q) % cap) (item_at s.tail tail_item))
              ((s.head + i) % cap)
            ≡ some item)
          × Cell cap (s.head + i) b item (get_elem? (q ++ (entry_of ∷ [])) i)
    stored-cells i hi = elim (ℕ_discrete i (length q)) [
      | yes e ↦ (
        item_at s.tail tail_item,
        ap
              (λ k.
                get_elem? (set s.buffer ((s.head + length q) % cap) (item_at s.tail tail_item))
                  ((s.head + k) % cap))
              e
            ∙ turn-set_self s.buffer cap s.head (length q) (item_at s.tail tail_item) r.size
                (capacity_pos r.is_capacity),
        rw (e, get_elem?-append_self q entry_of) (r.tail_is, refl, refl, tail_item-Cell.1.2),
      )
      | no ne ↦
          let (item, g, c) = r.cells i hi in
          (
            item,
            turn-set_ne s.buffer cap s.head (length q) (item_at s.tail tail_item) i room hi
                  (λ e. ne (sym e))
                ∙ g,
            rw (get_elem?-append_ne q entry_of i ne) c,
          )
    ]

    -- The ring then holds the message behind the others.
    pub stored-Ring : Ring cap b 0 (stored s tail_item) (q ++ (entry_of ∷ []))
    stored-Ring = record {
      is_capacity = r.is_capacity;
      mask_is = r.mask_is;
      size = length-set s.buffer (get_idx s s.tail) (item_at s.tail tail_item) ∙ r.size;
      in_range = omega (arith, length-append q (entry_of ∷ []));
      tail_is = omega (arith, length-append q (entry_of ∷ []), r.tail_is);
      counted = omega arith;
      total_is = omega (arith, total-append q entry_of, r.total_is);
      cells = λ i hi. rw (tail_index r) (stored-cells i hi);
    }

  -- In a full ring the cell at the tail is that of the oldest message.
  module _ {cap : ℕ} {b : Bool} {n : ℕ} {s : Shared} {x : Entry} {q : List Entry}
      (r : Ring cap b n s (x ∷ q)) (full : length (x ∷ q) ≡ cap) where
    turn : (s.head + length (x ∷ q)) % cap ≡ (s.head + 0) % cap
    turn =
        ap (λ k. (s.head + k) % cap) full
        ∙ add-mod_right s.head cap
        ∙ ap (λ k. k % cap) (sym (add-zero s.head))

    same_cell : get_idx s s.head ≡ get_idx s s.tail
    same_cell = head_index r ∙ sym turn ∙ sym (tail_index r)

    abbrev empty_item : Item
    empty_item = record (oldest r) { contents = none }

    -- The state without the oldest message, and with the tail moved.
    abbrev pub advanced : SlotMap → Shared
    advanced m = record (taken s (oldest r) (length x.bytes)) {
      slots = m;
      tail = wrapping_add s.tail 1;
    }

    overwrite_full :
        overwrite (record s { tail = wrapping_add s.tail 1 }) (oldest r)
        ≡ ok (record (advanced (remove_slots none (oldest r).slot s.slots)) { buffer = s.buffer })
    unfolding overwrite
    overwrite_full =
        let h : ltb s.bytes_total (length x.bytes) ≡ false = ground (arith, r.total_is) in
        rw ((oldest-Cell r).1.2, overwrite) (rw h)

    pub store_full :
        store (record s { tail = wrapping_add s.tail 1 }) s.tail message bytes
        ≡ store (advanced (remove_slots none (oldest r).slot s.slots)) s.tail message bytes
    unfolding get_idx
    store_full =
        store_step (record s { tail = wrapping_add s.tail 1 })
          (record (advanced (remove_slots none (oldest r).slot s.slots)) { buffer = s.buffer })
          s.tail (oldest r) (ap (get_elem? s.buffer) (tail_index r ∙ turn) ∙ (oldest-Cell r).0)
          overwrite_full
        ∙ ap
            (λ c. ok (record (advanced (remove_slots none (oldest r).slot s.slots)) { buffer = c }))
            (sym (set-set s.buffer (get_idx s s.tail) empty_item (item_at s.tail (oldest r)))
              ∙ ap
                  (λ k.
                    set (set s.buffer k empty_item) (get_idx s s.tail) (item_at s.tail (oldest r)))
                  (sym same_cell))
        ∙ sym (
            store_step (advanced (remove_slots none (oldest r).slot s.slots))
              (advanced (remove_slots none (oldest r).slot s.slots)) s.tail empty_item
              (ap (get_elem? (set s.buffer (get_idx s s.head) empty_item)) (sym same_cell)
                ∙ ap (λ k. get_elem? (set s.buffer k empty_item) k) (head_index r)
                ∙ turn-set_self s.buffer cap s.head 0 empty_item r.size
                    (capacity_pos r.is_capacity))
              (unfold overwrite in refl))
