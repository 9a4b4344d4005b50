-- ===== src/Plugin/Channel/Tests.antt =====
-- Runs of the broadcast ring, and its theorems at concrete inputs.
use dragonmouth.Base.{
  ℕ, zero, suc, ◌+◌, ◌<◌, ◌≡◌, drop, refl, true, false, List, [], ◌∷◌, Option, none, some, arith,
  get_elem?, ◌%◌, ◌≢◌, replicate, ℕ_discrete,
}
use dragonmouth.Base.Ring.{IsCapacity}
use dragonmouth.Plugin.BTree.{get, insert, remove}
use dragonmouth.Plugin.Message.{
  Bytes, SlotStatus, ProtobufMessage, transaction_message, get_slot, get_plugin_notification,
  PluginNotification, is_confirmed, is_rooted,
}
use dragonmouth.Plugin.Channel.{
  ok, panic, stuck, Item, Shared, SlotInfo, SlotMap, new, new_items, get_idx, head_item, take_head,
  remove_slots, remove_from, remove_before, remove_same, drop_extra_slots, drop_extra_bytes,
}
use dragonmouth.Plugin.Channel.Push.{
  push_msg, push_all, store, overwrite, add_bytes, slot_entry, update_entry, missed, missed_status,
  close,
}
use dragonmouth.Plugin.Channel.Inv.{Entry, IsValid, Cell}
use dragonmouth.Plugin.Channel.Keeps.{Ends}
use dragonmouth.Plugin.Channel.Pushed.{Pushed, push_msg-Pushed}
use dragonmouth.Plugin.Channel.Store.{entry_of}
use dragonmouth.Plugin.Channel.Session.{new-IsValid, close-closes}
use dragonmouth.Plugin.Channel.Replay.{recv_all, wanted, subscribe-replays}
use dragonmouth.Plugin.Channel.Panics.{push_msg-late, push_msg-oversized}
use dragonmouth.Plugin.Channel.Delivery.{deliver, passed, waits, recv_ref-delivers, recv_ref-lagged}
use dragonmouth.Plugin.Channel.Receive.{
  Receiver, new_receiver, filter_or_default, waiting, recv_ref, item_of, failed, lagged, closed,
  subscribe, subscribed, is_enabled,
}
use dragonmouth.Plugin.Channel.Ancestors.{
  ParentsBelow, Chain, parent_of, missed-Chain, missed-loops,
}

abbrev capacity : IsCapacity 4
capacity = record { exponent = 2; is_power = refl; fits = omega arith }

abbrev start : Shared
start = new 4 2 20

abbrev Message : Type 0
Message = ProtobufMessage ℕ

-- The encoding of a message in these runs: its slot, three times.
abbrev encode : Message → Bytes
encode m = get_slot m ∷ get_slot m ∷ get_slot m ∷ []

abbrev two_slots : List Message
two_slots = transaction_message 10 0 ∷ transaction_message 11 1 ∷ []

abbrev item : ℕ → ℕ → Item
item pos slot = record {
  pos = pos;
  slot = slot;
  contents = some (PluginNotification.transaction, slot ∷ slot ∷ slot ∷ []);
  closed = false;
}

abbrev no_item : ℕ → Item
no_item pos = record { pos = pos; slot = 0; contents = none; closed = false }

abbrev slot_at : ℕ → SlotInfo
slot_at head = record { head = head; parent_slot = none; confirmed = false; finalized = false }

-- The channel that holds a message of slot 10 and one of slot 11, its slot map full.
abbrev full : Shared
full = record {
  head = 4;
  tail = 6;
  slots = (10, slot_at 4) ∷ (11, slot_at 5) ∷ [];
  slots_max = 2;
  bytes_total = 6;
  bytes_max = 20;
  wakers = [];
  mask = 3;
  buffer = item 4 10 ∷ item 5 11 ∷ no_item 2 ∷ no_item 3 ∷ [];
}

two_slots_run : push_all encode start two_slots ≡ ok full
unfolding push_all push_msg new new_items slot_entry update_entry add_bytes store overwrite get_idx
    head_item take_head remove_slots remove_from remove_before remove_same drop_extra_slots
    drop_extra_bytes get insert remove get_slot get_plugin_notification
two_slots_run = refl

start-IsValid : IsValid 4 false start []
start-IsValid = new-IsValid 4 2 20 capacity (omega arith)

abbrev entry : ℕ → Entry
entry slot = record {
  slot = slot;
  notification = PluginNotification.transaction;
  bytes = slot ∷ slot ∷ slot ∷ [];
}

abbrev held : List Entry
held = entry 10 ∷ entry 11 ∷ []

full-cells :
    (i : ℕ)
    → i < 4
    → (x : Item) × (get_elem? full.buffer ((full.head + i) % 4) ≡ some x)
      × Cell 4 (full.head + i) false x (get_elem? held i)
full-cells zero h = (item 4 10, refl, (refl, refl, refl, refl))
full-cells (suc zero) h = (item 5 11, refl, (refl, refl, refl, refl))
full-cells (suc (suc zero)) h = (no_item 2, refl, (refl, refl, refl))
full-cells (suc (suc (suc zero))) h = (no_item 3, refl, (refl, refl, refl))
full-cells (suc (suc (suc (suc i)))) h = absurd (omega arith)

full-points :
    (k : ℕ) (info : SlotInfo)
    → get k full.slots ≡ some info
    → (i : ℕ) × (e : Entry) × (info.head ≡ 4 + i) × (get_elem? held i ≡ some e) × (e.slot ≡ k)
unfolding get
full-points k info g = elim (ℕ_discrete 10 k) [
  | yes e ↦ (0, entry 10, ground (arith, g, e), refl, e)
  | no ne ↦ elim (ℕ_discrete 11 k) [
    | yes e ↦ (1, entry 11, ground (arith, g, e), refl, e)
    | no ne' ↦ absurd (ground (arith, g, ne, ne'))
  ]
]

full-IsValid : IsValid 4 false full held
full-IsValid = record {
  ring = record {
    is_capacity = capacity;
    mask_is = refl;
    size = refl;
    in_range = omega arith;
    tail_is = refl;
    counted = omega arith;
    total_is = refl;
    cells = full-cells;
  };
  live = record { sorted = omega arith; points = full-points };
  slots_fit = omega arith;
  bytes_fit = omega arith;
}

abbrev late : Message
late = transaction_message 9 2

abbrev next_slot : Message
next_slot = transaction_message 12 2

push_msg-Pushed_example :
    Ends
      (Pushed 4 false (entry_of next_slot (1 ∷ 2 ∷ [])) held full)
      (push_msg full next_slot (1 ∷ 2 ∷ []))
push_msg-Pushed_example = push_msg-Pushed next_slot (1 ∷ 2 ∷ []) full-IsValid (omega arith)

-- The run of that example: slot 10 leaves, with its message.
push_next_slot : push_msg full next_slot (1 ∷ 2 ∷ []) ≢ panic
unfolding push_msg slot_entry update_entry add_bytes store overwrite get_idx head_item take_head
    remove_slots remove_from remove_before remove_same drop_extra_slots drop_extra_bytes get insert
    remove get_slot get_plugin_notification
push_next_slot e = cc e

push_msg-late_example : push_msg full late [] ≡ panic
unfolding get_slot
push_msg-late_example = push_msg-late late [] full-IsValid refl (omega arith)

-- With a limit of no slots, the first message panics.
push_msg-late_no_slots : push_msg (new 4 0 20) late [] ≡ panic
unfolding new
push_msg-late_no_slots = push_msg-late late [] (new-IsValid 4 0 20 capacity (omega arith)) refl tt

abbrev long : Bytes
long = replicate 21 7

push_msg-oversized_example : push_msg full next_slot long ≡ panic
push_msg-oversized_example = push_msg-oversized next_slot long full-IsValid (omega arith)

abbrev reader : ℕ → Receiver
reader next = record {
  next = next;
  finished = false;
  enable_notifications_accounts = true;
  enable_notifications_transactions = true;
  enable_notifications_entries = false;
}

recv_ref-delivers_example :
    recv_ref full (reader 5) 1 ≡ ok (full, reader 6, item_of (11 ∷ 11 ∷ 11 ∷ []))
unfolding deliver passed waits is_enabled
recv_ref-delivers_example = recv_ref-delivers full-IsValid.ring 1 1 (reader 5) (omega arith) refl

recv_ref-lagged_example :
    (r' : Receiver) × (recv_ref full (reader 1) 1 ≡ ok (full, r', failed lagged))
recv_ref-lagged_example = recv_ref-lagged full-IsValid.ring 1 (reader 1) (omega arith)

-- From slot 11 the receiver gets its one message, and then waits at the tail.
subscribe-replays_example :
    (i : ℕ) × (e : Entry) × (r : Receiver) × (subscribe full (some 11) none ≡ subscribed r)
    × (r ≡ new_receiver (4 + i) (filter_or_default none))
    × (get_elem? held i ≡ some e)
    × (e.slot ≡ 11)
    × (recv_all 3 full r 1
        ≡ ok (
          record full { wakers = 1 ∷ [] },
          record r { next = 6 },
          wanted (is_enabled r) (drop i held),
          waiting,
        ))
subscribe-replays_example =
    subscribe-replays 11 none (slot_at 5) 1 full-IsValid (unfold get in refl)

close-closes_example :
    (recv_ref (close full).0 (reader 5) 1 ≡ ok ((close full).0, reader 5, failed closed))
    × ((close full).1 ≡ [])
    × ((close full).0.wakers ≡ [])
close-closes_example = close-closes (reader 5) 1 full-IsValid.ring

-- Slot 12 has parent 11, which has parent 10 and is not confirmed.
abbrev family : SlotMap
family =
    (10, record { head = 4; parent_slot = some 9; confirmed = true; finalized = false })
    ∷ (11, record { head = 5; parent_slot = some 10; confirmed = false; finalized = false })
    ∷ (12, record { head = 6; parent_slot = some 11; confirmed = false; finalized = false })
    ∷ []

family-ParentsBelow : ParentsBelow family
family-ParentsBelow = record { below = λ k info p g e. unfold get in ground (arith, g, e) }

missed-Chain_example :
    (l : List (ℕ × Option ℕ)) × (missed 4 family SlotStatus.confirmed 12 ≡ ok l)
    × Chain family SlotStatus.confirmed (parent_of family 12) l
missed-Chain_example = missed-Chain family SlotStatus.confirmed 12 family-ParentsBelow

missed_run : missed 4 family SlotStatus.confirmed 12 ≡ ok ((11, some 10) ∷ [])
unfolding missed missed_status get is_confirmed is_rooted
missed_run = refl

abbrev own_parent : SlotInfo
own_parent = record { head = 4; parent_slot = some 0; confirmed = false; finalized = false }

missed-loops_example : missed 100 ((0, own_parent) ∷ []) SlotStatus.confirmed 0 ≡ stuck
missed-loops_example =
    missed-loops 100 ((0, own_parent) ∷ []) SlotStatus.confirmed 0 own_parent (unfold get in refl)
      refl (unfold missed_status is_confirmed in refl)
