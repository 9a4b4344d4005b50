-- ===== src/Plugin/Channel.antt =====
-- The broadcast ring of the plugin, plugin-agave/src/channel.rs: the state behind `Shared`, and the
-- sender. `push` and `push_msg` hold the state's mutex from first to last, and no receiver writes a
-- cell, so each is one step on the state. Locks recover from poisoning, and metrics and log lines
-- have no part in the result.
-- A `panic` of an assertion, of an index out of bounds or of an arithmetic overflow is a value; a
-- build without overflow checks wraps where the model panics. Slot numbers are below 2 ^ 64 - 1, so
-- that `slot + 1` does not overflow.
pub mod Push
pub mod Receive
pub mod Inv
pub mod Evict
pub mod Slots
pub mod Loops
pub mod Keeps
pub mod Store
pub mod Pushed
pub mod Delivery
pub mod Rounds
pub mod Panics
pub mod Ancestors
pub mod Session
pub mod Replay
mod Tests
use dragonmouth.Base.{
  ℕ, zero, suc, ◌+◌, ◌-◌, ◌<◌, bit_and, Bool, true, false, List, [], ◌∷◌, ◌++◌, Option, none, some,
  if◌then◌else◌, ltb, leb, ◌==◌, length, get_elem?, set, not,
}
use dragonmouth.Base.Ring.{wrapping_add}
use dragonmouth.Plugin.BTree.{get, insert, remove, first_key}
use dragonmouth.Plugin.Message.{
  Bytes, SlotStatus, PluginNotification, ProtobufMessage, slot_message, get_slot,
  get_plugin_notification, is_confirmed, is_rooted,
}

-- `stuck` is no outcome of the code: the fuel of a loop has run out.
pub data Outcome {ℓ} (A : Type ℓ) : Type ℓ where
  ok : A → Outcome A
  panic : Outcome A
  stuck : Outcome A

infixl 5 ◌>>=◌
abbrev pub ◌>>=◌ {ℓ κ} : {A : Type ℓ} {B : Type κ} → Outcome A → (A → Outcome B) → Outcome B
ok a >>= f = f a
panic >>= f = panic
stuck >>= f = stuck

pub record SlotInfo : Type 0 where
  pub head : ℕ
  pub parent_slot : Option ℕ
  pub confirmed : Bool
  pub finalized : Bool

abbrev pub SlotMap : Type 0
SlotMap = List (ℕ × SlotInfo)

-- `contents` is the field `data` of the source.
pub record Item : Type 0 where
  pub pos : ℕ
  pub slot : ℕ
  pub contents : Option (PluginNotification × Bytes)
  pub closed : Bool

-- `Shared`, with the fields of its `State`. A waker is its number.
pub record Shared : Type 0 where
  pub head : ℕ
  pub tail : ℕ
  pub slots : SlotMap
  pub slots_max : ℕ
  pub bytes_total : ℕ
  pub bytes_max : ℕ
  pub wakers : List ℕ
  pub mask : ℕ
  pub buffer : List Item

-- The items `i, i + 1, …` of a new buffer.
unfoldable pub new_items : ℕ → ℕ → List Item
new_items i zero = []
new_items i (suc n) =
    record { pos = i; slot = 0; contents = none; closed = false } ∷ new_items (i + 1) n

-- `Sender::new`, at `max_messages` already rounded up to a power of two.
unfoldable pub new : ℕ → ℕ → ℕ → Shared
new max_messages max_slots max_bytes = record {
  head = max_messages;
  tail = max_messages;
  slots = [];
  slots_max = max_slots;
  bytes_total = 0;
  bytes_max = max_bytes;
  wakers = [];
  mask = max_messages - 1;
  buffer = new_items 0 max_messages;
}

unfoldable pub get_idx : Shared → ℕ → ℕ
get_idx s pos = bit_and pos s.mask

-- `State::remove_slots`, from the slot that the loop has reached.
unfoldable pub remove_from : ℕ → ℕ → ℕ → SlotMap → SlotMap
remove_from zero slot upto m = m
remove_from (suc fuel) slot upto m = elim (leb slot upto) [
  | false ↦ m
  | true ↦ elim (first_key (remove slot m)) [
    | none ↦ remove slot m
    | some next ↦ remove_from fuel next upto (remove slot m)
  ]
]

-- Each round after the first removes the first entry.
unfoldable pub remove_slots : Option ℕ → ℕ → SlotMap → SlotMap
remove_slots none upto m = elim (first_key m) [
  | none ↦ m
  | some slot ↦ remove_from (suc (length m)) slot upto m
]
remove_slots (some slot) upto m = remove_from (suc (length m)) slot upto m

-- What each loop does with the item at the head once its test has passed: take its contents, step
-- over it, and take their length off the total. The loops differ in how they then change `slots`.
unfoldable pub take_head : Shared → Item → Outcome Shared
take_head s item = elim item.contents [
  | none ↦ panic
  | some (notification, bytes) ↦
      if ltb s.bytes_total (length bytes)
      then panic
      else ok (record s {
        head = wrapping_add s.head 1;
        bytes_total = s.bytes_total - length bytes;
        buffer = set s.buffer (get_idx s s.head) (record item { contents = none });
      })
]

-- `buffer_idx_write` at the head, behind the assertion that the head is before the tail.
unfoldable pub head_item : Shared → Outcome Item
head_item s =
    if ltb s.head s.tail
    then elim (get_elem? s.buffer (get_idx s s.head)) [ none ↦ panic | some item ↦ ok item ]
    else panic

-- `while state.head < slot_info.head`, for the removed slot `slot` with head `upto`.
unfoldable pub remove_before : ℕ → ℕ → ℕ → Shared → Outcome Shared
remove_before zero slot upto s = stuck
remove_before (suc fuel) slot upto s = elim (ltb s.head upto) [
  | false ↦ ok s
  | true ↦ do
    item ← head_item s
    s' ← take_head s item
    remove_before fuel slot upto
        (record s' { slots = remove_slots (some (slot + 1)) item.slot s'.slots })
]

-- `loop { … }`: remove messages while they are of the removed slot.
unfoldable pub remove_same : ℕ → ℕ → Shared → Outcome Shared
remove_same zero slot s = stuck
remove_same (suc fuel) slot s = do
  item ← head_item s
  elim (slot == item.slot) [
    | false ↦ ok s
    | true ↦ do s' ← take_head s item; remove_same fuel slot s'
  ]

-- `while state.slots.len() > state.slots_max`. Each round takes a slot away, and each inner loop
-- moves the head towards the tail.
unfoldable pub drop_extra_slots : ℕ → Shared → Outcome Shared
drop_extra_slots zero s = stuck
drop_extra_slots (suc fuel) s = elim (ltb s.slots_max (length s.slots)) [
  | false ↦ ok s
  | true ↦ elim s.slots [
    | [] ↦ panic
    | (slot, info) ∷ rest ↦ do
      s' ← remove_before (suc (s.tail - s.head)) slot info.head (record s { slots = rest })
      s'' ← remove_same (suc (s'.tail - s'.head)) slot s'
      drop_extra_slots fuel s''
  ]
]

-- `while state.bytes_total > state.bytes_max`.
unfoldable pub drop_extra_bytes : ℕ → Shared → Outcome Shared
drop_extra_bytes zero s = stuck
drop_extra_bytes (suc fuel) s = elim (ltb s.bytes_max s.bytes_total) [
  | false ↦ ok s
  | true ↦ do
    item ← head_item s
    s' ← take_head s item
    drop_extra_bytes fuel (record s' { slots = remove_slots none item.slot s'.slots })
]
