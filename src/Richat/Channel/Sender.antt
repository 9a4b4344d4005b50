-- ===== src/Richat/Channel/Sender.antt =====
-- `Messages` and `Sender` of richat/src/channel.rs: the rings of the three commitment levels and
-- the slots whose messages are collected. The receivers of `Messages` read the rings' `shared`.
-- `Message::parse` is a parameter; where it fails the sender stays as it is.
use dragonmouth.Base.{
  ℕ, zero, suc, Bool, true, false, ◌⊎◌, inl, inr, List, [], ◌∷◌, Option, none, some, if◌then◌else◌,
  leb, length,
}
use dragonmouth.Plugin.BTree.{get, insert, remove, first_key}
use dragonmouth.Plugin.Message.{Bytes}
use dragonmouth.Plugin.Channel.{Outcome, ok, stuck, ◌>>=◌}
use dragonmouth.Plugin.Channel.Receive.{RecvError}
use dragonmouth.Filter.Slots.{SlotCommitment, CommitmentLevel}
use dragonmouth.Filter.Message.{
  Message, MessageBlock, slot_message, block_message, message_slot, MessageSlot,
}
use dragonmouth.Richat.SlotInfo.{SlotInfo, slot_info_new, get_block_message, get_messages}
use dragonmouth.Richat.Channel.{
  Shared, SenderShared, shared_new, sender_shared_new, push, try_clear, try_recv, get_current_tail,
}

pub record Sender : Type 0 where
  pub slots_max : ℕ
  pub bytes_max : ℕ
  pub slots : List (ℕ × SlotInfo)
  pub grpc : Bool
  pub processed : SenderShared
  pub confirmed : SenderShared
  pub finalized : SenderShared

-- `Messages::new` and then `to_sender`, at `max_messages` already rounded up to a power of two.
unfoldable pub to_sender : ℕ → ℕ → ℕ → Bool → Sender
to_sender max_messages max_slots max_bytes grpc =
    let levels : ℕ = if grpc then max_messages else 0 in
    record {
      slots_max = max_slots;
      bytes_max = max_bytes;
      slots = [];
      grpc = grpc;
      processed = sender_shared_new (shared_new max_messages) max_messages;
      confirmed = sender_shared_new (shared_new levels) max_messages;
      finalized = sender_shared_new (shared_new levels) max_messages;
    }

-- The ring of a commitment level, as `try_recv` and `get_current_tail` choose it.
unfoldable pub shared_of : Sender → CommitmentLevel → Shared
shared_of s CommitmentLevel.processed = s.processed.shared
shared_of s CommitmentLevel.confirmed = s.confirmed.shared
shared_of s CommitmentLevel.finalized = s.finalized.shared

-- `ReceiverSync::try_recv`
unfoldable pub receive : Sender → CommitmentLevel → ℕ → Outcome (RecvError ⊎ Option Message)
receive s commitment head = try_recv (shared_of s commitment) head

-- `Messages::get_current_tail`
unfoldable pub current_tail : Sender → CommitmentLevel → Option ℕ → Option ℕ
current_tail s commitment replay_from_slot =
    get_current_tail (shared_of s commitment) replay_from_slot

-- `for message in slot_info.get_messages() { sender_shared.push(slot, message); }`
unfoldable pub push_all : SenderShared → ℕ → List Message → Outcome SenderShared
push_all ring slot [] = ok ring
push_all ring slot (m ∷ ms) = do ring' ← push ring slot m; push_all ring' slot ms

-- `if let Some(slot_info) = self.slots.get(&slot)`: give the ring the slot's messages, and clear it.
unfoldable pub replay : Sender → ℕ → SenderShared → Outcome SenderShared
replay s slot ring = elim (get slot s.slots) [
  | none ↦ ok ring
  | some info ↦ do
    ring' ← push_all ring slot (get_messages info)
    try_clear ring' s.bytes_max s.slots_max
]

-- Which of the two rings gets the messages.
unfoldable pub replay_level : SlotCommitment → Sender → ℕ → Outcome Sender
replay_level SlotCommitment.confirmed s slot = do
  ring ← replay s slot s.confirmed
  ok (record s { confirmed = ring })
replay_level SlotCommitment.finalized s slot = do
  ring ← replay s slot s.finalized
  ok (record s { finalized = ring })
replay_level _ s slot = ok s

-- `loop { match self.slots.keys().next().copied() { … } }`; each round removes an entry.
unfoldable pub remove_upto : ℕ → ℕ → List (ℕ × SlotInfo) → Outcome (List (ℕ × SlotInfo))
remove_upto zero slot m = stuck
remove_upto (suc fuel) slot m = elim (first_key m) [
  | none ↦ ok m
  | some slot_min ↦ elim (leb slot_min slot) [
    | true ↦ remove_upto fuel slot (remove slot_min m)
    | false ↦ ok m
  ]
]

-- Remove the slots up to one that is finalized.
unfoldable pub forget : SlotCommitment → Sender → ℕ → Outcome Sender
forget SlotCommitment.finalized s slot = do
  slots ← remove_upto (suc (length s.slots)) slot s.slots
  ok (record s { slots = slots })
forget _ s slot = ok s

-- The branch `if self.grpc` of `Sender::push`, for a message of a slot.
unfoldable pub push_levels : Sender → ℕ → MessageSlot → Outcome Sender
push_levels s slot m = do
  confirmed ← push s.confirmed slot (slot_message m)
  finalized ← push s.finalized slot (slot_message m)
  s' ← replay_level m.commitment (record s { confirmed = confirmed; finalized = finalized }) slot
  forget m.commitment s' slot

unfoldable pub before_processed : Sender → ℕ → Message → Outcome Sender
before_processed s slot (slot_message m) = if s.grpc then push_levels s slot m else ok s
before_processed s slot _ = ok s

-- One round of `for message in [Some(message), message_block].into_iter().flatten()`.
unfoldable pub push_one : Sender → ℕ → Message → Outcome Sender
push_one s slot m = do
  s' ← before_processed s slot m
  processed ← push s'.processed slot m
  ok (record s' { processed = processed })

unfoldable pub push_block : Sender → ℕ → Option MessageBlock → Outcome Sender
push_block s slot none = ok s
push_block s slot (some block) = push_one s slot (block_message block)

-- `self.slots.entry(slot).or_insert_with(…)`
unfoldable pub slot_info_of : Sender → ℕ → SlotInfo
slot_info_of s slot = elim (get slot s.slots) [ none ↦ slot_info_new slot | some info ↦ info ]

-- `Sender::push`, behind the parser.
unfoldable pub push_message : Sender → Message → Outcome Sender
push_message s m =
    let slot = message_slot m in
    do
      c ← get_block_message (slot_info_of s slot) m
      s₁ ← push_one (record s { slots = insert slot c.info s.slots }) slot m
      s₂ ← push_block s₁ slot c.block
      processed ← try_clear s₂.processed s₂.bytes_max s₂.slots_max
      ok (record s₂ { processed = processed })

module _ {E : Type 0} (parse : Bytes → E ⊎ Message) where
  -- `Sender::push`, with its error.
  unfoldable pub push_buffer : Sender → Bytes → Outcome (Sender × Option E)
  push_buffer s buffer = elim (parse buffer) [
    | inl e ↦ ok (s, some e)
    | inr m ↦ do s' ← push_message s m; ok (s', none)
  ]
