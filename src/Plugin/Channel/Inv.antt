-- ===== src/Plugin/Channel/Inv.antt =====
-- The invariant of the broadcast ring: which messages it holds, and which of them the slot map
-- points at.
use dragonmouth.Base.{
  ℕ, zero, suc, ◌+◌, ◌-◌, ◌%◌, ◌^◌, ◌≤◌, ◌<◌, ◌≡◌, ◌≢◌, Bool, List, [], ◌∷◌, Option, none, some,
  arith, length, get_elem?,
}
use dragonmouth.Base.Ring.{IsCapacity}
use dragonmouth.Plugin.BTree.{get, IsSorted, drop_upto, drop_upto-Above, drop_upto-IsSorted}
use dragonmouth.Plugin.BTree.{get-drop_upto, get-Above}
use dragonmouth.Plugin.Message.{Bytes, PluginNotification}
use dragonmouth.Plugin.Channel.{SlotInfo, SlotMap, Item, Shared}

-- A message in the ring.
pub record Entry : Type 0 where
  pub slot : ℕ
  pub notification : PluginNotification
  pub bytes : Bytes

abbrev pub total : List Entry → ℕ
total [] = 0
total (e ∷ q) = length e.bytes + total q

-- The cell of position `p` in a ring of `cap` cells: with a message, or emptied one turn before.
abbrev pub Cell : ℕ → ℕ → Bool → Item → Option Entry → Type 0
Cell cap p b item (some e) =
    (item.pos ≡ p)
    × (item.slot ≡ e.slot)
    × (item.contents ≡ some (e.notification, e.bytes))
    × (item.closed ≡ b)
Cell cap p b item none = (item.pos + cap ≡ p) × (item.contents ≡ none) × (item.closed ≡ b)

-- The ring of `cap` cells holds the messages `q` at the positions from the head to the tail, and
-- its cells are closed or not, as `b` says. Beside the lengths of the messages, `n` bytes are counted.
pub record Ring (cap : ℕ) (b : Bool) (n : ℕ) (s : Shared) (q : List Entry) : Type 0 where
  pub is_capacity : IsCapacity cap
  pub mask_is : s.mask ≡ cap - 1
  pub size : length s.buffer ≡ cap
  pub in_range : length q ≤ cap
  pub tail_is : s.tail ≡ s.head + length q
  pub counted : s.tail < 2 ^ 64
  pub total_is : s.bytes_total ≡ total q + n
  pub cells :
      (i : ℕ)
      → i < cap
      → (item : Item) × (get_elem? s.buffer ((s.head + i) % cap) ≡ some item)
        × Cell cap (s.head + i) b item (get_elem? q i)

-- Every entry of the slot map points at a message of its slot, among the messages `q` from `head`.
pub record Live (head : ℕ) (q : List Entry) (m : SlotMap) : Type 0 where
  pub sorted : IsSorted m
  pub points :
      (k : ℕ) (info : SlotInfo)
      → get k m ≡ some info
      → (i : ℕ) × (e : Entry) × (info.head ≡ head + i) × (get_elem? q i ≡ some e) × (e.slot ≡ k)

-- The whole state between two pushes.
pub record IsValid (cap : ℕ) (b : Bool) (s : Shared) (q : List Entry) : Type 0 where
  pub ring : Ring cap b 0 s q
  pub live : Live s.head q s.slots
  pub slots_fit : length s.slots ≤ s.slots_max
  pub bytes_fit : s.bytes_total ≤ s.bytes_max

-- The slot map plays no part in the ring.
pub Ring-slots :
    {cap : ℕ} {b : Bool} {n : ℕ} {s : Shared} {q : List Entry} (m : SlotMap)
    → Ring cap b n s q
    → Ring cap b n (record s { slots = m }) q
Ring-slots m r = record {
  is_capacity = r.is_capacity;
  mask_is = r.mask_is;
  size = r.size;
  in_range = r.in_range;
  tail_is = r.tail_is;
  counted = r.counted;
  total_is = r.total_is;
  cells = r.cells;
}

-- When the oldest message leaves, the entries that stay point as before, if none is of its slot.
pub Live-step :
    {head : ℕ} {e : Entry} {q : List Entry} {m : SlotMap} (m' : SlotMap)
    → Live head (e ∷ q) m
    → IsSorted m'
    → ((k : ℕ) (info : SlotInfo) → get k m' ≡ some info → (get k m ≡ some info) × (k ≢ e.slot))
    → Live (head + 1) q m'
Live-step {head} {e} {q} m' l s keep = record {
  sorted = s;
  points = λ k info g.
      let (g', ne) = keep k info g in
      let (i, x, h, gi, sl) = l.points k info g' in go k info i x h gi sl ne;
}
  where
    go :
        (k : ℕ) (info : SlotInfo) (i : ℕ) (x : Entry)
        → info.head ≡ head + i
        → get_elem? (e ∷ q) i ≡ some x
        → x.slot ≡ k
        → k ≢ e.slot
        → (i : ℕ) × (x : Entry) × (info.head ≡ head + 1 + i)
          × (get_elem? q i ≡ some x)
          × (x.slot ≡ k)
    go k info zero x h gi sl ne = absurd (ne (ground arith))
    go k info (suc i) x h gi sl ne = (i, x, omega arith, gi, sl)

-- So it is where the entries up to the slot of that message are dropped.
pub Live-drop_upto :
    {head : ℕ} {e : Entry} {q : List Entry} {m : SlotMap}
    → Live head (e ∷ q) m
    → Live (head + 1) q (drop_upto e.slot m)
Live-drop_upto {e = e} {m = m} l =
    Live-step (drop_upto e.slot m) l (drop_upto-IsSorted e.slot m l.sorted) λ k info g. (
      get-drop_upto e.slot k m info l.sorted g,
      λ eq.
          let lt : e.slot < k = get-Above e.slot k _ info (drop_upto-Above e.slot m l.sorted) g in
          absurd (omega arith),
    )
