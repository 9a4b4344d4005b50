-- ===== src/Richat/SlotInfo.antt =====
-- `SlotInfo` of richat/src/channel.rs, which collects the messages of one slot and makes the block
-- of them. Counters of messages in memory do not reach 2 ^ 64. A call of the metrics is a value:
-- the reasons that it reports.
pub mod Gather
pub mod Stored
pub mod Complete
pub mod Kept
pub mod Collect
pub mod Late
mod Tests
use dragonmouth.Base.{
  ℕ, zero, suc, ◌+◌, Bool, true, false, not, ◌&&◌, List, [], ◌∷◌, ◌++◌, Option, none, some, ltb,
  ◌==◌, if◌then◌else◌, length, get_elem?, set,
}
use dragonmouth.Plugin.Message.{Bytes}
use dragonmouth.Plugin.Channel.{Outcome, ok, panic, ◌>>=◌}
use dragonmouth.Filter.Sets.{bytes_eq}
use dragonmouth.Filter.Slots.{SlotCommitment}
use dragonmouth.Filter.Message.{
  MessageAccount, MessageTransaction, MessageEntry, MessageBlockMeta, MessageBlockCreatedAt,
  MessageBlock, Message, slot_message, account_message, transaction_message, entry_message,
  block_meta_message, block_message, unchecked_create_block,
}

-- `HashMap<Pubkey, (u64, usize)>`: the write version of a key's newest update, and its index.
abbrev pub Dedup : Type 0
Dedup = List (Bytes × (ℕ × ℕ))

unfoldable pub lookup : Bytes → Dedup → Option (ℕ × ℕ)
lookup k [] = none
lookup k ((j, v) ∷ m) = if bytes_eq j k then some v else lookup k m

-- A new entry in front hides an older one of the same key.
abbrev pub put : Bytes → ℕ × ℕ → Dedup → Dedup
put k v m = (k, v) ∷ m

pub record SlotInfo : Type 0 where
  pub slot : ℕ
  pub block_created : Bool
  pub failed : Bool
  pub landed : Bool
  pub messages : List (Option Message)
  pub accounts_dedup : Dedup
  pub transactions_count : ℕ
  pub entries_count : ℕ
  pub block_meta : Option MessageBlockMeta

-- `SlotInfo::new`
unfoldable pub slot_info_new : ℕ → SlotInfo
slot_info_new slot = record {
  slot = slot;
  block_created = false;
  failed = false;
  landed = false;
  messages = [];
  accounts_dedup = [];
  transactions_count = 0;
  entries_count = 0;
  block_meta = none;
}

-- `metrics::BlockMessageFailedReason`
pub data Reason : Type 0 where
  missed_block_meta mismatch_transactions mismatch_entries : Reason
  extra_account extra_transaction extra_entry extra_block_meta : Reason

-- `ParsedMessage::get_account` and its two companions.
unfoldable pub get_account : Message → Option MessageAccount
get_account (account_message m) = some m
get_account _ = none

unfoldable pub get_transaction : Message → Option MessageTransaction
get_transaction (transaction_message m) = some m
get_transaction _ = none

unfoldable pub get_entry : Message → Option MessageEntry
get_entry (entry_message m) = some m
get_entry _ = none

-- One round of `filter_map`.
unfoldable pub cons_some : {A : Type 0} → Option A → List A → List A
cons_some none xs = xs
cons_some (some a) xs = a ∷ xs

-- `iter().filter_map(|item| item.as_ref().and_then(f)).collect()`
unfoldable pub gather : {A : Type 0} → (Message → Option A) → List (Option Message) → List A
gather f [] = []
gather f (none ∷ items) = gather f items
gather f (some m ∷ items) = cons_some (f m) (gather f items)

-- `SlotInfo::get_messages`
unfoldable pub get_messages : SlotInfo → List Message
get_messages info = gather some info.messages

-- `matches!(message.commitment(), Confirmed | Finalized)`
abbrev pub lands : SlotCommitment → Bool
lands SlotCommitment.confirmed = true
lands SlotCommitment.finalized = true
lands _ = false

unfoldable pub mark_landed : SlotInfo → Message → SlotInfo
mark_landed info (slot_message m) =
    if lands m.commitment then record info { landed = true } else info
mark_landed info _ = info

unfoldable pub extra_reasons : Message → List Reason
extra_reasons (slot_message m) = []
extra_reasons (account_message m) = extra_account ∷ []
extra_reasons (transaction_message m) = extra_transaction ∷ []
extra_reasons (entry_message m) = extra_entry ∷ []
extra_reasons (block_meta_message m) = extra_block_meta ∷ []
extra_reasons (block_message m) = []

-- `self.messages[idx] = None`
unfoldable pub clear_at : List (Option Message) → ℕ → Outcome (List (Option Message))
clear_at items idx = elim (get_elem? items idx) [
  | none ↦ panic
  | some item ↦ ok (set items idx none)
]

-- The arm `Account` of the second `match`.
unfoldable pub store_account : SlotInfo → MessageAccount → Outcome SlotInfo
store_account info m =
    let idx_new = length info.messages in
    let messages = info.messages ++ (some (account_message m) ∷ []) in
    elim (lookup m.pubkey info.accounts_dedup) [
      | none ↦ ok (record info {
        messages = messages;
        accounts_dedup = put m.pubkey (m.write_version, idx_new) info.accounts_dedup;
      })
      | some (version, idx) ↦
          if ltb version m.write_version
          then (do
            cleared ← clear_at messages idx
            ok (record info {
              messages = cleared;
              accounts_dedup = put m.pubkey (m.write_version, idx_new) info.accounts_dedup;
            }))
          else ok (record info { messages = messages })
    ]

-- The second `match`, which stores the message. `unreachable!()` is a panic.
unfoldable pub store_message : SlotInfo → Message → Outcome SlotInfo
store_message info (account_message m) = store_account info m
store_message info (slot_message m) = ok info
store_message info (transaction_message m) = ok (record info {
  messages = info.messages ++ (some (transaction_message m) ∷ []);
  transactions_count = info.transactions_count + 1;
})
store_message info (entry_message m) = ok (record info {
  messages = info.messages ++ (some (entry_message m) ∷ []);
  entries_count = info.entries_count + 1;
})
store_message info (block_meta_message m) = ok (record info {
  messages = info.messages ++ (some (block_meta_message m) ∷ []);
  block_meta = some m;
})
store_message info (block_message m) = panic

-- The block of the messages that are kept.
unfoldable pub block_of : SlotInfo → MessageBlockMeta → MessageBlock
block_of info meta =
    unchecked_create_block (gather get_account info.messages) (gather get_transaction info.messages)
      (gather get_entry info.messages) meta (MessageBlockCreatedAt.prost meta.created_at)

abbrev pub counts_match : MessageBlockMeta → ℕ → ℕ → Bool
counts_match meta transactions entries =
    meta.executed_transaction_count == transactions && meta.entries_count == entries

-- The end of `get_block_message`: attempt to create the block, with the metadata that is known.
unfoldable pub try_with : SlotInfo → Option MessageBlockMeta → SlotInfo × Option MessageBlock
try_with info none = (info, none)
try_with info (some meta) =
    if counts_match meta info.transactions_count info.entries_count
    then (
      record info {
        block_created = true;
        messages = info.messages ++ (some (block_message (block_of info meta)) ∷ []);
      },
      some (block_of info meta),
    )
    else (info, none)

unfoldable pub try_block : SlotInfo → SlotInfo × Option MessageBlock
try_block info = try_with info info.block_meta

-- What a call leaves: the new state, the block that it made, and what it reported.
pub record Collected : Type 0 where
  pub info : SlotInfo
  pub block : Option MessageBlock
  pub report : Option (List Reason)

-- The branch of a message that comes after the block.
unfoldable pub after_block : SlotInfo → Message → Collected
after_block info m =
    if info.failed then record { info = info; block = none; report = none } else record {
      info = record info { failed = true };
      block = none;
      report = some (extra_reasons m);
    }

unfoldable pub store_and_try : SlotInfo → Message → Outcome Collected
store_and_try info m = do
  stored ← store_message info m
  let tried = try_block stored
  ok (record { info = tried.0; block = tried.1; report = none })

-- `SlotInfo::get_block_message`
unfoldable pub get_block_message : SlotInfo → Message → Outcome Collected
get_block_message before m =
    let info = mark_landed before m in
    if info.block_created then ok (after_block info m) else store_and_try info m

-- `Drop for SlotInfo`: what it reports.
unfoldable pub drop_reasons : SlotInfo → Option (List Reason)
drop_reasons info =
    if not info.block_created && not info.failed && info.landed
    then some (elim info.block_meta [
      | none ↦ missed_block_meta ∷ []
      | some meta ↦
          (if meta.executed_transaction_count == info.transactions_count
            then []
            else mismatch_transactions ∷ [])
          ++ (if meta.entries_count == info.entries_count then [] else mismatch_entries ∷ [])
    ])
    else none
