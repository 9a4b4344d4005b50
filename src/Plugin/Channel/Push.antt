-- ===== src/Plugin/Channel/Push.antt =====
-- The sender: `push_msg`, `push` and `close` of plugin-agave/src/channel.rs.
use dragonmouth.Base.{
  ℕ, zero, suc, ◌+◌, ◌-◌, ◌^◌, Bool, true, false, List, [], ◌∷◌, Option, none, some, if◌then◌else◌,
  ltb, leb, length, get_elem?, set, not, map, ◌&&◌, ◌||◌,
}
use mathlib.Core.List.{reverse}
use dragonmouth.Base.Ring.{wrapping_add}
use dragonmouth.Plugin.BTree.{get, insert}
use dragonmouth.Plugin.Message.{
  Bytes, SlotStatus, ProtobufMessage, slot_message, get_slot, get_plugin_notification, is_confirmed,
  is_rooted,
}
use dragonmouth.Plugin.Channel.{
  Outcome, ok, panic, stuck, ◌>>=◌, SlotInfo, SlotMap, Item, Shared, get_idx, remove_slots,
  drop_extra_slots, drop_extra_bytes,
}

-- `entry(slot).or_insert_with(…)`
unfoldable pub slot_entry : Shared → ℕ → SlotInfo
slot_entry s slot = elim (get slot s.slots) [
  | some info ↦ info
  | none ↦ record { head = s.tail; parent_slot = none; confirmed = false; finalized = false }
]

abbrev set_parent : Option ℕ → SlotInfo → SlotInfo
set_parent none info = info
set_parent (some parent) info = record info { parent_slot = some parent }

abbrev set_status : SlotStatus → SlotInfo → SlotInfo
set_status status info =
    if is_confirmed status
    then record info { confirmed = true }
    else if is_rooted status
    then record info { finalized = true }
    else info

-- The entry as a slot message changes it.
module _ {T : Type 0} where
  unfoldable pub update_entry : ProtobufMessage T → SlotInfo → SlotInfo
  update_entry (slot_message slot parent status) info = set_status status (set_parent parent info)
  update_entry _ info = info

-- `state.bytes_total += data.len()`
unfoldable pub add_bytes : Shared → ℕ → Outcome Shared
add_bytes s n =
    if leb (2 ^ 64) (s.bytes_total + n)
    then panic
    else ok (record s { bytes_total = s.bytes_total + n })

-- The cell of the new message loses the message that it still holds, which is the oldest.
unfoldable pub overwrite : Shared → Item → Outcome Shared
overwrite s item = elim item.contents [
  | none ↦ ok s
  | some (notification, bytes) ↦
      if ltb s.bytes_total (length bytes)
      then panic
      else ok (record s {
        head = wrapping_add s.head 1;
        slots = remove_slots none item.slot s.slots;
        bytes_total = s.bytes_total - length bytes;
      })
]

module _ {T : Type 0} where
  -- The end of `push_msg`: lock and update the item at `pos`.
  unfoldable pub store : Shared → ℕ → ProtobufMessage T → Bytes → Outcome Shared
  store s pos message bytes = elim (get_elem? s.buffer (get_idx s pos)) [
    | none ↦ panic
    | some item ↦ do
      s' ← overwrite s item
      ok (record s' {
        buffer = set s'.buffer (get_idx s' pos) (record item {
          pos = pos;
          slot = get_slot message;
          contents = some (get_plugin_notification message, bytes);
        });
      })
  ]

  unfoldable pub push_msg : Shared → ProtobufMessage T → Bytes → Outcome Shared
  push_msg s message bytes =
      let pos = s.tail in
      let slot = get_slot message in
      let entered = insert slot (update_entry message (slot_entry s slot)) s.slots in
      do
        s₁ ← drop_extra_slots (suc (length entered)) (record s { slots = entered })
        s₂ ← add_bytes s₁ (length bytes)
        s₃ ← drop_extra_bytes (suc (s₂.tail - s₂.head)) s₂
        store (record s₃ { tail = wrapping_add s₃.tail 1 }) pos message bytes

-- Does the parent lack the status that its descendant has?
unfoldable pub missed_status : SlotStatus → SlotInfo → Bool
missed_status status info =
    is_confirmed status && not info.confirmed || is_rooted status && not info.finalized

-- The ancestors of `slot` that missed the status, nearest first, each with its parent. The stack
-- `slots` of the source holds one slot at most.
unfoldable pub missed : ℕ → SlotMap → SlotStatus → ℕ → Outcome (List (ℕ × Option ℕ))
missed zero slots status slot = stuck
missed (suc fuel) slots status slot = elim (get slot slots) [
  | none ↦ ok []
  | some info ↦ elim info.parent_slot [
    | none ↦ ok []
    | some parent ↦ elim (get parent slots) [
      | none ↦ ok []
      | some entry ↦ elim (missed_status status entry) [
        | false ↦ ok []
        | true ↦ do rest ← missed fuel slots status parent; ok ((parent, entry.parent_slot) ∷ rest)
      ]
    ]
  ]
]

module _ {T : Type 0} (encode : ProtobufMessage T → Bytes) where
  -- `for (message, data) in messages.into_iter().rev()`
  unfoldable pub push_all : Shared → List (ProtobufMessage T) → Outcome Shared
  push_all s [] = ok s
  push_all s (message ∷ rest) = do s' ← push_msg s message (encode message); push_all s' rest

  -- The slot messages made for the ancestors, behind the message itself. Parents below their slot
  -- make the number of slots enough fuel.
  unfoldable pub with_missed : Shared → ProtobufMessage T → Outcome (List (ProtobufMessage T))
  with_missed s (slot_message slot parent status) = do
    ancestors ← missed (suc (length s.slots)) s.slots status slot
    ok (slot_message slot parent status ∷ map (λ a. slot_message a.0 a.1 status) ancestors)
  with_missed s message = ok (message ∷ [])

  -- `Sender::push`; the second result is the wakers that it wakes.
  unfoldable pub push : Shared → ProtobufMessage T → Outcome (Shared × List ℕ)
  push s message = do
    messages ← with_missed s message
    s' ← push_all s (reverse messages)
    ok (record s' { wakers = [] }, s'.wakers)

abbrev pub close_item : Item → Item
close_item item = record item { closed = true }

-- `Sender::close`, with the wakers that it wakes.
unfoldable pub close : Shared → Shared × List ℕ
close s = (record s { buffer = map close_item s.buffer; wakers = [] }, s.wakers)
