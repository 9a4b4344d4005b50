-- ===== src/Richat/Channel/Tests.antt =====
-- The rings and the sender of the relay at small states, and their theorems there.
use dragonmouth.Base.{
  ℕ, zero, suc, ◌+◌, ◌≡◌, refl, inr, Bool, true, false, List, [], ◌∷◌, none, some, arith, All,
}
use dragonmouth.Base.Ring.{IsCapacity}
use dragonmouth.Base.Turn.{Cells}
use dragonmouth.Plugin.BTree.{get, insert, remove, IsSorted, Above}
use dragonmouth.Plugin.Channel.{Outcome, ok, panic, stuck}
use dragonmouth.Filter.Slots.{SlotCommitment}
use dragonmouth.Filter.Message.{
  Timestamp, MessageSlot, Message, slot_message, entry_message, message_slot, message_size,
}
use dragonmouth.Richat.SlotInfo.{
  slot_info_new, get_block_message, mark_landed, store_and_try, store_message, try_block, try_with,
  get_messages, gather, cons_some,
}
use dragonmouth.Richat.Channel.{
  SenderShared, get_idx, item_at, put_item, remove_slot, step_over, drop_existed, store_at,
  enter_slot, push, clear_bytes, clear_slots, try_clear, try_recv,
}
use dragonmouth.Richat.Channel.Ring.{Entry, Cell, Ring}
use dragonmouth.Richat.Channel.Push.{pushed, push-Ring}
use dragonmouth.Richat.Channel.Read.{told, try_recv-told}
use dragonmouth.Richat.Channel.Clear.{within, clear_bytes-within, try_clear-late}
use dragonmouth.Richat.Channel.Hidden.{push-hidden}
use dragonmouth.Richat.Channel.Sender.{
  Sender, push_message, slot_info_of, push_one, push_block, before_processed, push_levels,
  replay_level, replay, forget, remove_upto, push_all,
}
use dragonmouth.Richat.Channel.Levels.{
  Kept, push_messages, push_message-forgets, push_messages-Kept,
}

abbrev now : Timestamp
now = record { seconds = 100; nanos = 5 }

abbrev entry : ℕ → ℕ → Message
entry slot size = entry_message (record { slot = slot; created_at = now; size = size })

two : IsCapacity 2
two = record { exponent = 1; is_power = refl; fits = omega arith }

-- A ring of two cells, with a message of slot 9 and the newest one of slot 5.
abbrev held : SenderShared
held = record {
  shared = record {
    tail = 3;
    mask = 1;
    buffer =
        record { pos = 2; slot = 9; contents = some (entry 9 40) }
        ∷ record { pos = 3; slot = 5; contents = some (entry 5 30) }
        ∷ [];
    slots = (5, 3) ∷ (9, 2) ∷ [];
  };
  head = 2;
  tail = 4;
  bytes_total = 70;
  slots = (5, 3) ∷ (9, 2) ∷ [];
}

abbrev messages : List Entry
messages = (9, entry 9 40) ∷ (5, entry 5 30) ∷ []

held-Cells : Cells (Cell 2) 2 2 held.shared.buffer messages
held-Cells zero h = (_, refl, (refl, refl, refl))
held-Cells (suc zero) h = (_, refl, (refl, refl, refl))
held-Cells (suc (suc i)) h = absurd (omega arith)

held-Ring : Ring 2 held messages
unfolding message_size
held-Ring = record {
  is_capacity = two;
  mask_is = refl;
  size = refl;
  in_range = omega arith;
  tail_is = refl;
  counted = omega arith;
  total_is = refl;
  published = (omega arith, omega arith);
  cells = held-Cells;
}

push-Ring_example :
    (s' : SenderShared) × (push held 9 (entry 9 10) ≡ ok s')
    × Ring 2 s' (pushed 2 messages (9, entry 9 10))
    × (s'.tail ≡ held.tail + 1)
    × (s'.shared.tail ≡ held.tail)
unfolding message_size
push-Ring_example = push-Ring 2 held 9 (entry 9 10) messages held-Ring (omega arith) (omega arith)

try_recv-told_example : try_recv held.shared 2 ≡ ok (told held messages 2)
try_recv-told_example = try_recv-told held-Ring 2

-- The message of slot 9 is received, and the newest is not.
received : told held messages 2 ≡ inr (some (entry 9 40))
unfolding told
received = refl

not_yet : told held messages 3 ≡ inr none
unfolding told
not_yet = refl

push-hidden_example :
    (s' : SenderShared) × (s'' : SenderShared) × (push held 9 (entry 9 10) ≡ ok s')
    × (push s' 11 (entry 11 20) ≡ ok s'')
    × (try_recv s'.shared held.tail ≡ ok (inr none))
    × (try_recv s''.shared held.tail ≡ ok (inr (some (entry 9 10))))
unfolding message_size
push-hidden_example =
    push-hidden 2 held messages 9 11 (entry 9 10) (entry 11 20) held-Ring (omega arith)
      (omega arith) (omega arith)

clear_bytes-within_example :
    (s' : SenderShared) × (clear_bytes 3 50 held ≡ ok s')
    × Ring 2 s' (within 50 messages)
    × (s'.tail ≡ held.tail)
    × (s'.shared.tail ≡ held.shared.tail)
clear_bytes-within_example = clear_bytes-within 2 3 50 held messages held-Ring (omega arith)

-- The older message leaves.
left : within 50 messages ≡ (5, entry 5 30) ∷ []
unfolding within message_size
left = refl

try_clear-late_example : try_clear held 100 1 ≡ panic
try_clear-late_example =
    try_clear-late 2 100 1 5 3 held ((9, entry 9 40) ∷ []) (entry 5 30) ((9, 2) ∷ []) held-Ring
      (omega arith) refl refl (omega arith)

abbrev finalized_slot : MessageSlot
finalized_slot = record {
  slot = 7;
  parent = some 6;
  commitment = SlotCommitment.finalized;
  dead_error = none;
  created_at = now;
  size = 20;
}

-- Slot 6 is collected with an entry, and slot 8 without a message.
abbrev sender : Bool → Sender
sender grpc = record {
  slots_max = 4;
  bytes_max = 1000;
  slots = (6, slot_info_new 6) ∷ (8, slot_info_new 8) ∷ [];
  grpc = grpc;
  processed = held;
  confirmed = held;
  finalized = held;
}

abbrev result_of : Outcome Sender → Sender
result_of (ok s) = s
result_of panic = sender true
result_of stuck = sender true

returns :
    push_message (sender true) (slot_message finalized_slot)
    ≡ ok (result_of (push_message (sender true) (slot_message finalized_slot)))
unfolding push_message slot_info_of get slot_info_new get_block_message mark_landed store_and_try
    store_message try_block try_with insert push_one before_processed push_levels push item_at
    get_idx drop_existed step_over message_size remove_slot remove store_at put_item enter_slot
    replay_level replay push_all get_messages gather cons_some try_clear clear_bytes clear_slots
    forget remove_upto push_block message_slot
returns = refl

push_message-forgets_example :
    Above 7 (result_of (push_message (sender true) (slot_message finalized_slot))).slots
    × IsSorted (result_of (push_message (sender true) (slot_message finalized_slot))).slots
push_message-forgets_example =
    push_message-forgets (sender true)
      (result_of (push_message (sender true) (slot_message finalized_slot))) finalized_slot
      ((omega arith, tt), (tt, tt)) refl refl returns

abbrev entries : List Message
entries = entry 6 10 ∷ entry 9 10 ∷ []

returns_all :
    push_messages (sender false) entries ≡ ok (result_of (push_messages (sender false) entries))
unfolding push_messages push_message slot_info_of get slot_info_new get_block_message mark_landed
    store_and_try store_message try_block try_with insert push_one before_processed push item_at
    get_idx drop_existed step_over message_size remove_slot remove store_at put_item enter_slot
    try_clear clear_bytes clear_slots push_block message_slot
returns_all = refl

push_messages-Kept_example :
    All (λ m. Kept (message_slot m) (result_of (push_messages (sender false) entries))) entries
push_messages-Kept_example =
    push_messages-Kept (sender false) (result_of (push_messages (sender false) entries)) entries
      refl returns_all
