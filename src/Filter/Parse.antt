-- ===== src/Filter/Parse.antt =====
-- `MessageParserProst::parse` of filter/src/message.rs, from the protobuf messages that prost has
-- decoded. These are records of the fields that the code reads; the length that prost's
-- `encoded_len` returns for a message stands among them. Parameters are prost's conversion of a
-- status, whose 32 bits stand for it, and the capacity of a hash set of so many keys.
pub mod Keys
pub mod Sizes
mod Tests
use dragonmouth.Base.{
  ℕ, zero, suc, ◌+◌, ◌*◌, ◌≡◌, refl, Bool, true, false, List, [], ◌∷◌, ◌++◌, Option, none, some,
  if◌then◌else◌, ◌==◌, length, is_some, inl, inr,
}
use dragonmouth.Plugin.Message.{Bytes}
use dragonmouth.Plugin.Channel.{Outcome, ok, panic}
use dragonmouth.Filter.Sets.{contains}
use dragonmouth.Filter.Slots.{SlotCommitment}
use dragonmouth.Filter.Message.{
  Timestamp, MessageParserEncoding, MessageBlockCreatedAt, MessageSlot, MessageAccount,
  MessageTransaction, MessageEntry, MessageBlockMeta, MessageBlock, Message, slot_message,
  account_message, transaction_message, entry_message, block_meta_message, block_message, encoding,
  unchecked_create_block,
}

-- The names that an error carries.
pub data Name : Type 0 where
  created_at update_oneof account transaction meta : Name
  transaction_status ping pong : Name

pub data MessageParseError : Type 0 where
  decode_error : MessageParseError
  field_not_defined : Name → MessageParseError
  invalid_enum_value : ℕ → MessageParseError
  invalid_pubkey invalid_signature : MessageParseError
  invalid_update_message : Name → MessageParseError
  incompatible_encoding : MessageParseError

pub data Parsed (A : Type 0) : Type 0 where
  parsed : A → Parsed A
  failed : MessageParseError → Parsed A

infixl 5 ◌>>=◌
abbrev pub ◌>>=◌ : {A B : Type 0} → Parsed A → (A → Parsed B) → Parsed B
parsed a >>= f = f a
failed e >>= f = failed e

-- `o.ok_or(e)?`
abbrev pub ok_or : {A : Type 0} → Option A → MessageParseError → Parsed A
ok_or none e = failed e
ok_or (some a) e = parsed a

-- `o.unwrap_or_else(…)`
abbrev pub unwrap_or : Option ℕ → ℕ → ℕ
unwrap_or none n = n
unwrap_or (some m) n = m

-- `if !test { return Err(e) }`, in front of what follows.
abbrev pub ensure : {A : Type 0} → Bool → MessageParseError → Parsed A → Parsed A
ensure test e m = if test then m else failed e

pub record SubscribeUpdateAccountInfo : Type 0 where
  pub pubkey : Bytes
  pub owner : Bytes
  pub txn_signature : Option Bytes
  pub lamports : ℕ
  pub contents : Bytes
  pub write_version : ℕ
  pub encoded_len : ℕ

-- `err` is `meta.err.is_some()`.
pub record TransactionStatusMeta : Type 0 where
  pub err : Bool
  pub loaded_writable_addresses : List Bytes
  pub loaded_readonly_addresses : List Bytes

-- `message` is the list of account keys of the message of a transaction, which may lack it.
pub record Transaction : Type 0 where
  pub message : Option (List Bytes)

pub record SubscribeUpdateTransactionInfo : Type 0 where
  pub signature : Bytes
  pub is_vote : Bool
  pub transaction : Option Transaction
  pub meta : Option TransactionStatusMeta

pub record SubscribeUpdateEntry : Type 0 where
  pub slot : ℕ
  pub encoded_len : ℕ

pub record SubscribeUpdateBlockMeta : Type 0 where
  pub slot : ℕ
  pub blockhash : Bytes
  pub block_height : Option ℕ
  pub executed_transaction_count : ℕ
  pub entries_count : ℕ
  pub encoded_len : ℕ

-- `block_meta` is the record that the code makes of the fields of the block.
pub record SubscribeUpdateBlock : Type 0 where
  pub slot : ℕ
  pub accounts : List SubscribeUpdateAccountInfo
  pub transactions : List SubscribeUpdateTransactionInfo
  pub entries : List SubscribeUpdateEntry
  pub block_meta : SubscribeUpdateBlockMeta

pub record SubscribeUpdateSlot : Type 0 where
  pub slot : ℕ
  pub parent : Option ℕ
  pub status : ℕ
  pub dead_error : Option Bytes

pub data UpdateOneof : Type 0 where
  slot_update : SubscribeUpdateSlot → UpdateOneof
  account_update : ℕ → Bool → Option SubscribeUpdateAccountInfo → UpdateOneof
  transaction_update : ℕ → Option SubscribeUpdateTransactionInfo → UpdateOneof
  transaction_status_update : UpdateOneof
  entry_update : SubscribeUpdateEntry → UpdateOneof
  block_meta_update : SubscribeUpdateBlockMeta → UpdateOneof
  block_update : SubscribeUpdateBlock → UpdateOneof
  ping_update pong_update : UpdateOneof

pub record SubscribeUpdate : Type 0 where
  pub created_at : Option Timestamp
  pub update_oneof : Option UpdateOneof
  pub encoded_len : ℕ

-- `PUBKEY_BYTES` and `SIGNATURE_BYTES`
abbrev pub pubkey_bytes : ℕ
pubkey_bytes = 32

abbrev pub signature_bytes : ℕ
signature_bytes = 64

-- `HashSet::insert`
unfoldable pub insert_key : List Bytes → Bytes → List Bytes
insert_key keys key = if contains keys key then keys else keys ++ (key ∷ [])

-- One of the three loops of `gen_account_keys_prost`.
unfoldable pub add_keys : List Bytes → List Bytes → Parsed (List Bytes)
add_keys keys [] = parsed keys
add_keys keys (key ∷ rest) =
    let more = add_keys (insert_key keys key) rest in
    if length key == pubkey_bytes then more else failed invalid_pubkey

abbrev pub static_keys : Option (List Bytes) → List Bytes
static_keys none = []
static_keys (some keys) = keys

-- `MessageTransaction::gen_account_keys_prost`
unfoldable pub gen_account_keys :
    SubscribeUpdateTransactionInfo → TransactionStatusMeta → Parsed (List Bytes)
gen_account_keys info status = do
  body ← ok_or info.transaction (field_not_defined transaction)
  keys ← add_keys [] (static_keys body.message)
  keys' ← add_keys keys status.loaded_writable_addresses
  add_keys keys' status.loaded_readonly_addresses

-- The literal `MessageAccount::Prost { … }`, with its slot, startup flag, time and size.
unfoldable pub account_of :
    SubscribeUpdateAccountInfo → ℕ → Bool → Timestamp → ℕ → Parsed MessageAccount
account_of info slot is_startup time size =
    ensure (length info.pubkey == pubkey_bytes) invalid_pubkey (
      ensure (length info.owner == pubkey_bytes) invalid_pubkey (
        parsed (record {
          pubkey = info.pubkey;
          owner = info.owner;
          nonempty_txn_signature = is_some info.txn_signature;
          lamports = info.lamports;
          contents = info.contents;
          write_version = info.write_version;
          slot = slot;
          is_startup = is_startup;
          created_at = time;
          size = size;
        })))

unfoldable pub entry_of : SubscribeUpdateEntry → Timestamp → ℕ → MessageEntry
entry_of info time size = record { slot = info.slot; created_at = time; size = size }

unfoldable pub block_meta_of : SubscribeUpdateBlockMeta → Timestamp → ℕ → MessageBlockMeta
block_meta_of info time size = record {
  slot = info.slot;
  blockhash = info.blockhash;
  block_height = info.block_height;
  executed_transaction_count = info.executed_transaction_count;
  entries_count = info.entries_count;
  created_at = time;
  size = size;
}

-- `into_iter().map(f).collect::<Result<_, _>>()`
unfoldable pub map_parsed : {A B : Type 0} → (A → Parsed B) → List A → Parsed (List B)
map_parsed f [] = parsed []
map_parsed f (x ∷ xs) = do y ← f x; ys ← map_parsed f xs; parsed (y ∷ ys)

unfoldable pub block_account : ℕ → Timestamp → SubscribeUpdateAccountInfo → Parsed MessageAccount
block_account slot time info =
    account_of info slot false time
      (pubkey_bytes + pubkey_bytes + signature_bytes + info.encoded_len + 8)

unfoldable pub block_entries : Timestamp → List SubscribeUpdateEntry → List MessageEntry
block_entries time [] = []
block_entries time (e ∷ es) = entry_of e time e.encoded_len ∷ block_entries time es

module _ (capacity : ℕ → ℕ) where
  -- The literal `MessageTransaction::Prost { … }`, behind its account keys.
  unfoldable pub transaction_of :
      ℕ → Timestamp → ℕ → SubscribeUpdateTransactionInfo → Parsed MessageTransaction
  transaction_of slot time len info = do
    status ← ok_or info.meta (field_not_defined meta)
    keys ← gen_account_keys info status
    ensure (length info.signature == signature_bytes) invalid_signature (
        parsed (record {
          signature = info.signature;
          failed = status.err;
          account_keys = keys;
          vote = info.is_vote;
          slot = slot;
          created_at = time;
          size = len + signature_bytes + capacity (length keys) * pubkey_bytes;
        }))

  -- The branch of a block. Its transactions are given the length of the whole update.
  unfoldable pub parse_block : ℕ → Timestamp → SubscribeUpdateBlock → Parsed MessageBlock
  parse_block len time message = do
    accounts ← map_parsed (block_account message.slot time) message.accounts
    transactions ← map_parsed (transaction_of message.slot time len) message.transactions
    parsed (record {
      accounts = accounts;
      transactions = transactions;
      entries = block_entries time message.entries;
      block_meta = block_meta_of message.block_meta time message.block_meta.encoded_len;
      created_at = MessageBlockCreatedAt.prost time;
    })

  module _ (try_from : ℕ → Option SlotCommitment) where
    -- The `match` of `parse`, by the kind of update.
    unfoldable pub parse_oneof : ℕ → Timestamp → UpdateOneof → Parsed Message
    parse_oneof len time (slot_update message) = do
      commitment ← ok_or (try_from message.status) (invalid_enum_value message.status)
      parsed (
          slot_message (record {
            slot = message.slot;
            parent = message.parent;
            commitment = commitment;
            dead_error = message.dead_error;
            created_at = time;
            size = len;
          }))
    parse_oneof len time (account_update slot is_startup info) = do
      given ← ok_or info (field_not_defined account)
      message ←
          account_of given slot is_startup time
            (len + pubkey_bytes + pubkey_bytes + signature_bytes)
      parsed (account_message message)
    parse_oneof len time (transaction_update slot info) = do
      given ← ok_or info (field_not_defined transaction)
      message ← transaction_of slot time len given
      parsed (transaction_message message)
    parse_oneof len time transaction_status_update =
        failed (invalid_update_message transaction_status)
    parse_oneof len time (entry_update info) = parsed (entry_message (entry_of info time len))
    parse_oneof len time (block_meta_update info) =
        parsed (block_meta_message (block_meta_of info time len))
    parse_oneof len time (block_update message) = do
      block ← parse_block len time message
      parsed (block_message block)
    parse_oneof len time ping_update = failed (invalid_update_message ping)
    parse_oneof len time pong_update = failed (invalid_update_message pong)

    -- `MessageParserProst::parse`
    unfoldable pub parse : SubscribeUpdate → Option ℕ → Parsed Message
    parse update encoded_len = do
      time ← ok_or update.created_at (field_not_defined created_at)
      kind ← ok_or update.update_oneof (field_not_defined update_oneof)
      parse_oneof (unwrap_or encoded_len update.encoded_len) time kind

    -- `Message::parse`, behind prost's `decode`. The limited parser is `todo!()`.
    unfoldable pub message_parse :
        (Bytes → Option SubscribeUpdate) → Bytes → MessageParserEncoding → Outcome (Parsed Message)
    message_parse decode bytes MessageParserEncoding.limited = panic
    message_parse decode bytes MessageParserEncoding.prost =
        ok (do update ← ok_or (decode bytes) decode_error; parse update (some (length bytes)))

-- Have the parts of a block its encoding? Each part has the encoding of prost.
unfoldable pub encodings_differ :
    List MessageAccount → List MessageTransaction → List MessageEntry → MessageBlockCreatedAt → Bool
encodings_differ accounts transactions entries time = elim (encoding time) [
  | MessageParserEncoding.limited ↦ true
  | MessageParserEncoding.prost ↦ false
]

-- `Message::create_block`
unfoldable pub create_block :
    List MessageAccount
    → List MessageTransaction
    → List MessageEntry
    → MessageBlockMeta
    → MessageBlockCreatedAt
    → Parsed Message
create_block accounts transactions entries block_meta time =
    if encodings_differ accounts transactions entries time
    then failed incompatible_encoding
    else parsed
        (block_message (unchecked_create_block accounts transactions entries block_meta time))
