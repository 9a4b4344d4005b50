-- ===== src/Filter/Message.antt =====
-- The messages of filter/src/message.rs, with their variant `Prost`. Nothing makes the variant
-- `Limited`, whose accessors are `todo!()`, so each message is the record of its fields; where a
-- field is a protobuf message, its own fields that the code reads stand in its place. `Arc` shares
-- what nobody changes.
use dragonmouth.Base.{ℕ, ◌+◌, Bool, List, [], ◌∷◌, Option}
use dragonmouth.Plugin.Message.{Bytes}
use dragonmouth.Filter.Slots.{SlotCommitment}

-- `Timestamp`: seconds and nanoseconds.
pub record Timestamp : Type 0 where
  pub seconds : ℕ
  pub nanos : ℕ

pub data MessageParserEncoding : Type 0 where
  limited prost : MessageParserEncoding

pub data MessageBlockCreatedAt : Type 0 where
  limited : MessageBlockCreatedAt
  prost : Timestamp → MessageBlockCreatedAt

-- `MessageBlockCreatedAt::encoding`
unfoldable pub encoding : MessageBlockCreatedAt → MessageParserEncoding
encoding MessageBlockCreatedAt.limited = MessageParserEncoding.limited
encoding (MessageBlockCreatedAt.prost t) = MessageParserEncoding.prost

pub record MessageSlot : Type 0 where
  pub slot : ℕ
  pub parent : Option ℕ
  pub commitment : SlotCommitment
  pub dead_error : Option Bytes
  pub created_at : Timestamp
  pub size : ℕ

-- `contents` is the field `data` of the account.
pub record MessageAccount : Type 0 where
  pub pubkey : Bytes
  pub owner : Bytes
  pub nonempty_txn_signature : Bool
  pub lamports : ℕ
  pub contents : Bytes
  pub write_version : ℕ
  pub slot : ℕ
  pub is_startup : Bool
  pub created_at : Timestamp
  pub size : ℕ

-- `vote` is `transaction.is_vote` and `failed` is `error.is_some()`, as the accessors say.
pub record MessageTransaction : Type 0 where
  pub signature : Bytes
  pub failed : Bool
  pub account_keys : List Bytes
  pub vote : Bool
  pub slot : ℕ
  pub created_at : Timestamp
  pub size : ℕ

pub record MessageEntry : Type 0 where
  pub slot : ℕ
  pub created_at : Timestamp
  pub size : ℕ

pub record MessageBlockMeta : Type 0 where
  pub slot : ℕ
  pub blockhash : Bytes
  pub block_height : Option ℕ
  pub executed_transaction_count : ℕ
  pub entries_count : ℕ
  pub created_at : Timestamp
  pub size : ℕ

pub record MessageBlock : Type 0 where
  pub accounts : List MessageAccount
  pub transactions : List MessageTransaction
  pub entries : List MessageEntry
  pub block_meta : MessageBlockMeta
  pub created_at : MessageBlockCreatedAt

-- `Message`, and `ParsedMessage` of richat/src/channel.rs, which is its copy behind `Arc`s.
pub data Message : Type 0 where
  slot_message : MessageSlot → Message
  account_message : MessageAccount → Message
  transaction_message : MessageTransaction → Message
  entry_message : MessageEntry → Message
  block_meta_message : MessageBlockMeta → Message
  block_message : MessageBlock → Message

-- `iter().map(f).sum()`
unfoldable pub sum : {A : Type 0} → (A → ℕ) → List A → ℕ
sum f [] = 0
sum f (x ∷ xs) = f x + sum f xs

-- `MessageBlock::size`
unfoldable pub block_size : MessageBlock → ℕ
block_size block =
    sum (λ m. m.size) block.accounts
    + sum (λ m. m.size) block.transactions
    + sum (λ m. m.size) block.entries
    + block.block_meta.size

-- `Message::slot`
unfoldable pub message_slot : Message → ℕ
message_slot (slot_message m) = m.slot
message_slot (account_message m) = m.slot
message_slot (transaction_message m) = m.slot
message_slot (entry_message m) = m.slot
message_slot (block_meta_message m) = m.slot
message_slot (block_message m) = m.block_meta.slot

-- `Message::created_at`
unfoldable pub message_created_at : Message → MessageBlockCreatedAt
message_created_at (slot_message m) = MessageBlockCreatedAt.prost m.created_at
message_created_at (account_message m) = MessageBlockCreatedAt.prost m.created_at
message_created_at (transaction_message m) = MessageBlockCreatedAt.prost m.created_at
message_created_at (entry_message m) = MessageBlockCreatedAt.prost m.created_at
message_created_at (block_meta_message m) = MessageBlockCreatedAt.prost m.created_at
message_created_at (block_message m) = m.created_at

-- `Message::size`
unfoldable pub message_size : Message → ℕ
message_size (slot_message m) = m.size
message_size (account_message m) = m.size
message_size (transaction_message m) = m.size
message_size (entry_message m) = m.size
message_size (block_meta_message m) = m.size
message_size (block_message m) = block_size m

-- `Message::unchecked_create_block`
unfoldable pub unchecked_create_block :
    List MessageAccount
    → List MessageTransaction
    → List MessageEntry
    → MessageBlockMeta
    → MessageBlockCreatedAt
    → MessageBlock
unchecked_create_block accounts transactions entries block_meta created_at = record {
  accounts = accounts;
  transactions = transactions;
  entries = entries;
  block_meta = block_meta;
  created_at = created_at;
}
