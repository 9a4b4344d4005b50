-- ===== src/Richat/Channel/Clear.antt =====
-- `SenderShared::try_clear` of richat/src/channel.rs on a valid ring.
use dragonmouth.Base.{
  ℕ, zero, suc, ◌+◌, ◌-◌, ◌%◌, ◌≤◌, ◌<◌, ◌≡◌, refl, ap, ◌∙◌, true, false, List, [], ◌∷◌, ◌++◌, none,
  arith, length, length-set, length-append, get_elem?, set, if◌then◌else◌, ltb, ◌==◌, lt→ltb,
  Bool-cases, inl, inr,
}
use dragonmouth.Base.Ring.{capacity_pos, wrapping_add}
use dragonmouth.Base.Turn.{Cells, Cells-drop}
use dragonmouth.Plugin.Channel.{ok, panic, ◌>>=◌}
use dragonmouth.Filter.Message.{Message, message_size}
use dragonmouth.Richat.Channel.{
  Item, SenderShared, get_idx, item_at, put_item, remove_slot, step_over, head_item, take_head,
  clear_bytes, clear_before, clear_same, clear_slots, try_clear,
}
use dragonmouth.Richat.Channel.Ring.{Entry, total, Cell, Ring, Ring-slots, head_index}

-- The messages that are left when the oldest ones are dropped until the rest fits.
unfoldable pub within : ℕ → List Entry → List Entry
within bytes_max [] = []
within bytes_max (x ∷ q) = if ltb bytes_max (total (x ∷ q)) then within bytes_max q else x ∷ q

-- An empty ring has nothing at its head.
head_item-empty : {cap : ℕ} {s : SenderShared} → Ring cap s [] → head_item s ≡ panic
unfolding head_item
head_item-empty r = ground (arith, r.tail_is)

-- One message leaves: what the loops read at the head, and what they leave.
module _ {cap : ℕ} {s : SenderShared} {x : Entry} {q : List Entry} (r : Ring cap s (x ∷ q)) where
  abbrev Takes : Type 0
  Takes =
      (item : Item) × (s' : SenderShared) × (head_item s ≡ ok item)
      × (take_head s item ≡ ok s')
      × (item.slot ≡ x.0)
      × Ring cap s' q
      × (s'.tail ≡ s.tail)
      × (s'.shared.tail ≡ s.shared.tail)
      × (s'.slots ≡ s.slots)
      × (s'.head ≡ s.head + 1)

  pub take_lem :
      (item : Item) × (s' : SenderShared) × (head_item s ≡ ok item)
      × (take_head s item ≡ ok s')
      × (item.slot ≡ x.0)
      × Ring cap s' q
      × (s'.tail ≡ s.tail)
      × (s'.shared.tail ≡ s.shared.tail)
      × (s'.slots ≡ s.slots)
      × (s'.head ≡ s.head + 1)
  unfolding head_item item_at take_head step_over put_item
  take_lem =
      let (item, g, c) = r.cells 0 (capacity_pos r.is_capacity) in
      let h : s.head < s.tail = omega (arith, r.tail_is) in
      let enough : ltb s.bytes_total (message_size x.1) ≡ false = ground (arith, r.total_is) in
      (
        item,
        record s {
          shared = put_item s.shared s.head (record item { contents = none });
          head = wrapping_add s.head 1;
          bytes_total = s.bytes_total - message_size x.1;
        },
        rw (lt→ltb s.head s.tail h, head_item)
            (rw (ap (get_elem? s.shared.buffer) (head_index r) ∙ g, item_at) refl),
        rw (c.2, take_head) (rw (enough, step_over) refl),
        c.1,
        record {
          is_capacity = r.is_capacity;
          mask_is = r.mask_is;
          size = length-set s.shared.buffer _ _ ∙ r.size;
          in_range = omega (arith, r.in_range);
          tail_is = omega (arith, r.tail_is, r.counted);
          counted = r.counted;
          total_is = omega (arith, r.total_is);
          published = r.published;
          cells =
              moved item (wrapping_add s.head 1) (get_idx s.shared s.head) c.0
                (omega (arith, r.tail_is, r.counted)) (head_index r);
        },
        refl,
        refl,
        refl,
        omega (arith, r.tail_is, r.counted),
      )
    where
      moved :
          (item : Item) (h i : ℕ)
          → item.pos ≡ s.head + 0
          → h ≡ s.head + 1
          → i ≡ (s.head + 0) % cap
          → Cells (Cell cap) cap h (set s.shared.buffer i (record item { contents = none })) q
      moved item h i at eh ei =
          rw (eh, ei)
            (Cells-drop (Cell cap) cap s.head s.shared.buffer r.size (capacity_pos r.is_capacity) x
              q (record item { contents = none }) r.in_range (omega arith, refl) r.cells)

pub remove_slot-Ring :
    {cap : ℕ} {s : SenderShared} {q : List Entry} (slot : ℕ)
    → Ring cap s q
    → Ring cap (remove_slot slot s) q
unfolding remove_slot
remove_slot-Ring slot r = Ring-slots _ _ r

-- One round of the loops over bytes and over the messages before a slot.
clear_bytes_step :
    (fuel bytes_max : ℕ) (s s' : SenderShared) (item : Item)
    → ltb bytes_max s.bytes_total ≡ true
    → head_item s ≡ ok item
    → take_head s item ≡ ok s'
    → clear_bytes (suc fuel) bytes_max s ≡ clear_bytes fuel bytes_max (remove_slot item.slot s')
unfolding clear_bytes
clear_bytes_step fuel bytes_max s s' item t h k =
    rw (t, clear_bytes) (rw (h, ◌>>=◌) (rw (k, ◌>>=◌) refl))

clear_bytes_end :
    (fuel bytes_max : ℕ) (s : SenderShared)
    → ltb bytes_max s.bytes_total ≡ false
    → clear_bytes (suc fuel) bytes_max s ≡ ok s
unfolding clear_bytes
clear_bytes_end fuel bytes_max s t = rw (t, clear_bytes) refl

clear_before_step :
    (fuel upto : ℕ) (s s' : SenderShared) (item : Item)
    → ltb s.head upto ≡ true
    → head_item s ≡ ok item
    → take_head s item ≡ ok s'
    → clear_before (suc fuel) upto s ≡ clear_before fuel upto (remove_slot item.slot s')
unfolding clear_before
clear_before_step fuel upto s s' item t h k =
    rw (t, clear_before) (rw (h, ◌>>=◌) (rw (k, ◌>>=◌) refl))

clear_before_end :
    (fuel upto : ℕ) (s : SenderShared)
    → ltb s.head upto ≡ false
    → clear_before (suc fuel) upto s ≡ ok s
unfolding clear_before
clear_before_end fuel upto s t = rw (t, clear_before) refl

-- On a valid ring the loop over bytes ends, with a round for each message at most and without a
-- panic: the ring then holds what is left when the oldest messages are dropped until the rest fits
-- the limit, and the tails stay.
pub clear_bytes-within :
    (cap fuel bytes_max : ℕ) (s : SenderShared) (q : List Entry)
    → Ring cap s q
    → length q < fuel
    → (s' : SenderShared) × (clear_bytes fuel bytes_max s ≡ ok s')
      × Ring cap s' (within bytes_max q)
      × (s'.tail ≡ s.tail)
      × (s'.shared.tail ≡ s.shared.tail)
unfolding within
clear_bytes-within cap zero bytes_max s q r h = elim h [ ]
clear_bytes-within cap (suc fuel) bytes_max s [] r h =
    (s, clear_bytes_end fuel bytes_max s (ground (arith, r.total_is)), r, refl, refl)
clear_bytes-within cap (suc fuel) bytes_max s (x ∷ q) r h =
    elim (Bool-cases (ltb bytes_max (total (x ∷ q)))) [
      | inl over ↦
          let (item, s', e, k, _, r', t, v, _, _) = take_lem r in
          let (s'', run, r'', t', v') =
            clear_bytes-within cap fuel bytes_max (remove_slot item.slot s') q
              (remove_slot-Ring item.slot r') (omega arith) in
          (
            s'',
            clear_bytes_step fuel bytes_max s s' item (ap (ltb bytes_max) r.total_is ∙ over) e k
                ∙ run,
            rw over r'',
            t' ∙ same_tail item.slot s' ∙ t,
            v' ∙ same_published item.slot s' ∙ v,
          )
      | inr fits ↦ (
        s,
        clear_bytes_end fuel bytes_max s (ap (ltb bytes_max) r.total_is ∙ fits),
        rw fits r,
        refl,
        refl,
      )
    ]
  where
    same_tail : (slot : ℕ) (u : SenderShared) → (remove_slot slot u).tail ≡ u.tail
    same_tail slot u = unfold remove_slot in refl

    same_published :
        (slot : ℕ) (u : SenderShared) → (remove_slot slot u).shared.tail ≡ u.shared.tail
    same_published slot u = unfold remove_slot in refl

-- The loop over the messages before a position inside the ring drops them all.
clear_before-drops :
    (cap fuel upto : ℕ) (s : SenderShared) (front q : List Entry)
    → Ring cap s (front ++ q)
    → length front < fuel
    → upto ≡ s.head + length front
    → (s' : SenderShared) × (clear_before fuel upto s ≡ ok s') × Ring cap s' q
clear_before-drops cap zero upto s front q r h e = elim h [ ]
clear_before-drops cap (suc fuel) upto s [] q r h e =
    (s, clear_before_end fuel upto s (ground arith), r)
clear_before-drops cap (suc fuel) upto s (x ∷ front) q r h e =
    let (item, s', g, k, _, r', _, _, _, d) = take_lem r in
    let (s'', run, r'') =
      clear_before-drops cap fuel upto (remove_slot item.slot s') front q
        (remove_slot-Ring item.slot r') (omega arith) (same_head item.slot s' (omega arith)) in
    (s'', clear_before_step fuel upto s s' item (ground arith) g k ∙ run, r'')
  where
    same_head :
        (slot : ℕ) (u : SenderShared)
        → upto ≡ u.head + length front
        → upto ≡ (remove_slot slot u).head + length front
    same_head slot u p = unfold remove_slot in p

-- Where only the removed slot's message is left, the loop over its messages runs past the tail.
clear_same-last :
    (cap fuel slot : ℕ) (s : SenderShared) (m : Message)
    → Ring cap s ((slot, m) ∷ [])
    → 1 < fuel
    → clear_same fuel slot s ≡ panic
unfolding clear_same
clear_same-last cap zero slot s m r h = elim h [ ]
clear_same-last cap (suc zero) slot s m r h = absurd (omega arith)
clear_same-last cap (suc (suc fuel)) slot s m r h =
    let (item, s', g, k, sl, r', _, _, _, _) = take_lem r in
    let same : (slot == item.slot) ≡ true = ground arith in
    rw (g, clear_same, ◌>>=◌)
      (rw (same) (rw (k, ◌>>=◌) (rw (head_item-empty r', clear_same, ◌>>=◌) refl)))

within-all : (bytes_max : ℕ) (q : List Entry) → total q ≤ bytes_max → within bytes_max q ≡ q
unfolding within
within-all bytes_max [] h = refl
within-all bytes_max (x ∷ q) h =
    let fits : ltb bytes_max (total (x ∷ q)) ≡ false = ground arith in rw fits refl

clear_slots_least :
    (cap fuel slots_max slot upto : ℕ) (s : SenderShared) (q : List Entry) (m : Message)
    (rest : List (ℕ × ℕ))
    → Ring cap s (q ++ ((slot, m) ∷ []))
    → upto ≡ s.head + length q
    → slots_max ≤ length rest
    → clear_slots (suc fuel) slots_max (record s { slots = (slot, upto) ∷ rest }) ≡ panic
unfolding clear_slots
clear_slots_least cap fuel slots_max slot upto s q m rest r at more =
    let over : ltb slots_max (length ((slot, upto) ∷ rest)) ≡ true = ground arith in
    let counted = length-append q ((slot, m) ∷ []) in
    let (s₁, run, r₁) =
      clear_before-drops cap (suc (s.tail - s.head)) upto (record s { slots = rest }) q
        ((slot, m) ∷ []) (Ring-slots rest s.shared.slots r) (omega (arith, r.tail_is)) at in
    rw (over, clear_slots)
      (rw (run, ◌>>=◌)
        (rw
          (
            clear_same-last cap (suc (s₁.tail - s₁.head)) slot s₁ m r₁ (omega (arith, r₁.tail_is)),
            ◌>>=◌,
          )
          refl))

try_clear_least :
    (cap bytes_max slots_max slot upto : ℕ) (s : SenderShared) (q : List Entry) (m : Message)
    (rest : List (ℕ × ℕ))
    → Ring cap s (q ++ ((slot, m) ∷ []))
    → s.bytes_total ≤ bytes_max
    → upto ≡ s.head + length q
    → slots_max ≤ length rest
    → try_clear (record s { slots = (slot, upto) ∷ rest }) bytes_max slots_max ≡ panic
unfolding try_clear
try_clear_least cap bytes_max slots_max slot upto s q m rest r fits at more =
    rw
      (
        clear_bytes_end (s.tail - s.head) bytes_max (record s { slots = (slot, upto) ∷ rest })
            (ground arith),
        ◌>>=◌,
      )
      (clear_slots_least cap (length ((slot, upto) ∷ rest)) slots_max slot upto s q m rest r at
        more)

-- On a valid ring whose bytes are within the limit, if there are more slots than the limit and the
-- lowest of them came with the newest message, try_clear panics.
pub try_clear-late :
    (cap bytes_max slots_max slot upto : ℕ) (s : SenderShared) (q : List Entry) (m : Message)
    (rest : List (ℕ × ℕ))
    → Ring cap s (q ++ ((slot, m) ∷ []))
    → s.bytes_total ≤ bytes_max
    → s.slots ≡ (slot, upto) ∷ rest
    → upto ≡ s.head + length q
    → slots_max ≤ length rest
    → try_clear s bytes_max slots_max ≡ panic
try_clear-late cap bytes_max slots_max slot upto s q m rest r fits slots at more =
    ap (λ (l : List (ℕ × ℕ)). try_clear (record s { slots = l }) bytes_max slots_max) slots
    ∙ try_clear_least cap bytes_max slots_max slot upto s q m rest r fits at more
