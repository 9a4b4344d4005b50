-- ===== src/Richat/Channel.antt =====
-- The broadcast rings of the relay, richat/src/channel.rs: `Shared`, which the receivers read, and
-- `SenderShared`, through which its one sender writes. A cell's lock is held for one read or one
-- write, and only the sender writes, so the calls are steps on the state; the locks recover from
-- poisoning. A failed assertion, a `panic!`, an index out of bounds and an overflow of the count
-- of bytes are the outcome `panic`. A `HashMap` of slots is kept in the order of its keys, since
-- only its entries and its least key are read.
pub mod Sender
pub mod Ring
pub mod Push
pub mod Read
pub mod Clear
pub mod Hidden
pub mod Levels
mod Tests
use dragonmouth.Base.{
  ℕ, zero, suc, ◌+◌, ◌-◌, ◌%◌, ◌^◌, bit_and, Bool, true, false, ◌⊎◌, inl, inr, List, [], ◌∷◌,
  Option, none, some, if◌then◌else◌, ltb, leb, ◌==◌, is_some, length, get_elem?, set, map,
}
use dragonmouth.Base.Ring.{wrapping_add}
use dragonmouth.Plugin.BTree.{get, insert, remove, first_key}
use dragonmouth.Plugin.Channel.{Outcome, ok, panic, stuck, ◌>>=◌}
use dragonmouth.Plugin.Channel.Receive.{RecvError, lagged}
use dragonmouth.Filter.Message.{Message, message_size}

-- `contents` is the field `data` of the source.
pub record Item : Type 0 where
  pub pos : ℕ
  pub slot : ℕ
  pub contents : Option Message

-- `SlotHeads`, from a slot to the position of `SlotHead`.
abbrev pub SlotHeads : Type 0
SlotHeads = List (ℕ × ℕ)

pub record Shared : Type 0 where
  pub tail : ℕ
  pub mask : ℕ
  pub buffer : List Item
  pub slots : SlotHeads

pub record SenderShared : Type 0 where
  pub shared : Shared
  pub head : ℕ
  pub tail : ℕ
  pub bytes_total : ℕ
  pub slots : SlotHeads

-- The items `i, i + 1, …` of a new buffer.
unfoldable pub items_from : ℕ → ℕ → List Item
items_from i zero = []
items_from i (suc n) = record { pos = i; slot = 0; contents = none } ∷ items_from (i + 1) n

-- `Shared::new`. A capacity of 0 makes the mask wrap; a build with overflow checks panics there.
unfoldable pub shared_new : ℕ → Shared
shared_new max_messages = record {
  tail = max_messages;
  mask = (max_messages + 2 ^ 64 - 1) % 2 ^ 64;
  buffer = items_from 0 max_messages;
  slots = [];
}

-- `SenderShared::new`
unfoldable pub sender_shared_new : Shared → ℕ → SenderShared
sender_shared_new shared max_messages = record {
  shared = shared;
  head = max_messages;
  tail = max_messages;
  bytes_total = 0;
  slots = [];
}

-- `Shared::get_idx`
unfoldable pub get_idx : Shared → ℕ → ℕ
get_idx shared pos = bit_and pos shared.mask

-- `buffer_idx_read` and `buffer_idx_write`, at the index of a position.
unfoldable pub item_at : Shared → ℕ → Outcome Item
item_at shared pos = elim (get_elem? shared.buffer (get_idx shared pos)) [
  | none ↦ panic
  | some item ↦ ok item
]

-- A write through the guard.
unfoldable pub put_item : Shared → ℕ → Item → Shared
put_item shared pos item = record shared { buffer = set shared.buffer (get_idx shared pos) item }

-- `if self.slots.remove(&item.slot).is_some() { self.shared.slots_lock().remove(&item.slot); }`
unfoldable pub remove_slot : ℕ → SenderShared → SenderShared
remove_slot slot s = record s {
  slots = remove slot s.slots;
  shared = record s.shared {
    slots = if is_some (get slot s.slots) then remove slot s.shared.slots else s.shared.slots;
  };
}

-- `self.head = self.head.wrapping_add(1); self.bytes_total -= message.size();`
unfoldable pub step_over : SenderShared → Message → Outcome SenderShared
step_over s message =
    if ltb s.bytes_total (message_size message)
    then panic
    else ok (record s {
      head = wrapping_add s.head 1;
      bytes_total = s.bytes_total - message_size message;
    })

-- Drop the message that a cell still holds.
unfoldable pub drop_existed : SenderShared → Item → Outcome SenderShared
drop_existed s item = elim item.contents [
  | none ↦ ok s
  | some message ↦ do s' ← step_over s message; ok (remove_slot item.slot s')
]

-- Store the new message at `pos`, and its position for the receivers.
unfoldable pub store_at : SenderShared → ℕ → ℕ → Message → Outcome SenderShared
store_at s pos slot message =
    if leb (2 ^ 64) (s.bytes_total + message_size message)
    then panic
    else ok (record s {
      bytes_total = s.bytes_total + message_size message;
      shared =
          record (put_item s.shared pos
            (record { pos = pos; slot = slot; contents = some message })) { tail = pos };
    })

-- `self.slots.entry(slot).or_insert_with(…)`
unfoldable pub enter_slot : ℕ → ℕ → SenderShared → SenderShared
enter_slot slot pos s = record s {
  slots = if is_some (get slot s.slots) then s.slots else insert slot pos s.slots;
  shared = record s.shared {
    slots = if is_some (get slot s.slots) then s.shared.slots else insert slot pos s.shared.slots;
  };
}

-- `SenderShared::push`
unfoldable pub push : SenderShared → ℕ → Message → Outcome SenderShared
push s slot message =
    let pos = s.tail in
    do
      item ← item_at s.shared pos
      s₁ ← drop_existed (record s { tail = wrapping_add s.tail 1 }) item
      s₂ ← store_at s₁ pos slot message
      ok (enter_slot slot pos s₂)

-- What the loops of `try_clear` do at the head, behind its assertion: read the item.
unfoldable pub head_item : SenderShared → Outcome Item
head_item s = if ltb s.head s.tail then item_at s.shared s.head else panic

-- `item.data.take()`, which must give a message, then step over it.
unfoldable pub take_head : SenderShared → Item → Outcome SenderShared
take_head s item = elim item.contents [
  | none ↦ panic
  | some message ↦
      step_over (record s { shared = put_item s.shared s.head (record item { contents = none }) })
        message
]

-- `while self.bytes_total > bytes_max`
unfoldable pub clear_bytes : ℕ → ℕ → SenderShared → Outcome SenderShared
clear_bytes zero bytes_max s = stuck
clear_bytes (suc fuel) bytes_max s = elim (ltb bytes_max s.bytes_total) [
  | false ↦ ok s
  | true ↦ do
    item ← head_item s
    s' ← take_head s item
    clear_bytes fuel bytes_max (remove_slot item.slot s')
]

-- `while self.head < slot_info.head`
unfoldable pub clear_before : ℕ → ℕ → SenderShared → Outcome SenderShared
clear_before zero upto s = stuck
clear_before (suc fuel) upto s = elim (ltb s.head upto) [
  | false ↦ ok s
  | true ↦ do
    item ← head_item s
    s' ← take_head s item
    clear_before fuel upto (remove_slot item.slot s')
]

-- `loop { … }`: remove messages while they are of the removed slot.
unfoldable pub clear_same : ℕ → ℕ → SenderShared → Outcome SenderShared
clear_same zero slot_min s = stuck
clear_same (suc fuel) slot_min s = do
  item ← head_item s
  elim (slot_min == item.slot) [
    | false ↦ ok s
    | true ↦ do s' ← take_head s item; clear_same fuel slot_min s'
  ]

-- `while self.slots.len() > slots_max`. The removed slot stays in the shared map.
unfoldable pub clear_slots : ℕ → ℕ → SenderShared → Outcome SenderShared
clear_slots zero slots_max s = stuck
clear_slots (suc fuel) slots_max s = elim (ltb slots_max (length s.slots)) [
  | false ↦ ok s
  | true ↦ elim s.slots [
    | [] ↦ panic
    | (slot_min, upto) ∷ rest ↦ do
      s₁ ← clear_before (suc (s.tail - s.head)) upto (record s { slots = rest })
      s₂ ← clear_same (suc (s₁.tail - s₁.head)) slot_min s₁
      clear_slots fuel slots_max s₂
  ]
]

-- `SenderShared::try_clear`
unfoldable pub try_clear : SenderShared → ℕ → ℕ → Outcome SenderShared
try_clear s bytes_max slots_max = do
  s' ← clear_bytes (suc (s.tail - s.head)) bytes_max s
  clear_slots (suc (length s'.slots)) slots_max s'

-- `item.data.clone().ok_or(RecvError::Lagged).map(Some)`, behind the test of the position.
unfoldable pub read_item : ℕ → Item → RecvError ⊎ Option Message
read_item head item =
    if item.pos == head
    then elim item.contents [ none ↦ inl lagged | some message ↦ inr (some message) ]
    else inl lagged

-- `ReceiverSync::try_recv`, at the ring of its commitment.
unfoldable pub try_recv : Shared → ℕ → Outcome (RecvError ⊎ Option Message)
try_recv shared head = elim (ltb head shared.tail) [
  | true ↦ do item ← item_at shared head; ok (read_item head item)
  | false ↦ ok (inr none)
]

-- `Messages::get_current_tail`, at the ring of its commitment.
unfoldable pub get_current_tail : Shared → Option ℕ → Option ℕ
get_current_tail shared none = some shared.tail
get_current_tail shared (some replay_from_slot) = get replay_from_slot shared.slots
