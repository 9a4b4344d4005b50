-- ===== src/Richat/SlotInfo/Tests.antt =====
-- A slot's messages collected, and the theorems there.
use mathlib.Core.List.{Memᴰ}
use dragonmouth.Base.{
  ℕ, ◌≤◌, ◌≡◌, refl, true, false, List, [], ◌∷◌, ◌++◌, Option, none, some, arith, map,
}
use dragonmouth.Plugin.Channel.{Outcome, ok, panic, stuck}
use dragonmouth.Filter.Sets.{bytes_eq}
use dragonmouth.Filter.Slots.{SlotCommitment}
use dragonmouth.Filter.Message.{
  Timestamp, MessageAccount, MessageTransaction, MessageEntry, MessageBlockMeta, MessageBlock,
  Message, slot_message, account_message, transaction_message, entry_message, block_meta_message,
  unchecked_create_block,
}
use dragonmouth.Richat.SlotInfo.{
  SlotInfo, slot_info_new, lookup, gather, cons_some, get_account, get_transaction, get_entry,
  clear_at, store_account, store_message, mark_landed, try_block, try_with, store_and_try,
  after_block, block_of, get_block_message, drop_reasons, Reason, mismatch_transactions,
  mismatch_entries,
}
use dragonmouth.Richat.SlotInfo.Gather.{pick}
use dragonmouth.Richat.SlotInfo.Stored.{Accounts-nil, Accounts-first}
use dragonmouth.Richat.SlotInfo.Complete.{first_complete, last_meta, get_meta, Collects}
use dragonmouth.Richat.SlotInfo.Collect.{collect, Made, collect-Made}
use dragonmouth.Richat.SlotInfo.Late.{store_message-late}

abbrev now : Timestamp
now = record { seconds = 100; nanos = 5 }

-- The account with the key 7, at a write version.
abbrev account : ℕ → MessageAccount
account version = record {
  pubkey = 7 ∷ [];
  owner = 6 ∷ [];
  nonempty_txn_signature = true;
  lamports = 99;
  contents = [];
  write_version = version;
  slot = 10;
  is_startup = false;
  created_at = now;
  size = 90;
}

abbrev transaction : MessageTransaction
transaction = record {
  signature = 8 ∷ [];
  failed = false;
  account_keys = [];
  vote = false;
  slot = 10;
  created_at = now;
  size = 70;
}

abbrev entry : MessageEntry
entry = record { slot = 10; created_at = now; size = 40 }

abbrev meta : MessageBlockMeta
meta = record {
  slot = 10;
  blockhash = 1 ∷ [];
  block_height = some 9;
  executed_transaction_count = 1;
  entries_count = 1;
  created_at = now;
  size = 30;
}

abbrev messages : List Message
messages =
    account_message (account 3)
    ∷ transaction_message transaction
    ∷ account_message (account 5)
    ∷ block_meta_message meta
    ∷ entry_message entry
    ∷ account_message (account 6)
    ∷ []

collect-Made_example :
    (info : SlotInfo) × (blocks : List MessageBlock) × (collect (slot_info_new 10) messages
      ≡ ok (info, blocks))
    × Made (first_complete [] messages) blocks
collect-Made_example = collect-Made 10 messages (tt, (tt, (tt, (tt, (tt, (tt, tt))))))

abbrev accounts_of : Outcome (SlotInfo × List MessageBlock) → List (List ℕ)
accounts_of (ok (info, blocks)) =
    map (λ (b : MessageBlock). map (λ (a : MessageAccount). a.write_version) b.accounts) blocks
accounts_of panic = []
accounts_of stuck = []

-- The block is made at the entry, with the newer of the two updates before it.
block_accounts : accounts_of (collect (slot_info_new 10) messages) ≡ (5 ∷ []) ∷ []
unfolding collect slot_info_new lookup bytes_eq gather cons_some get_account get_transaction
    get_entry clear_at store_account store_message mark_landed try_block try_with store_and_try
    after_block block_of get_block_message unchecked_create_block
block_accounts = refl

-- An older update behind a newer one stays in the block.
block_stale :
    accounts_of (
      collect (slot_info_new 10) (
        account_message (account 5)
        ∷ account_message (account 3)
        ∷ transaction_message transaction
        ∷ entry_message entry
        ∷ block_meta_message meta
        ∷ []))
    ≡ (5 ∷ 3 ∷ []) ∷ []
unfolding collect slot_info_new lookup bytes_eq gather cons_some get_account get_transaction
    get_entry clear_at store_account store_message mark_landed try_block try_with store_and_try
    after_block block_of get_block_message unchecked_create_block
block_stale = refl

-- What a slot that landed without its transaction and its entry reports.
abbrev reasons_of : Outcome (SlotInfo × List MessageBlock) → Option (List Reason)
reasons_of (ok (info, blocks)) = drop_reasons info
reasons_of panic = none
reasons_of stuck = none

unfinished :
    reasons_of (
      collect (slot_info_new 10) (
        block_meta_message meta
        ∷ slot_message (record {
          slot = 10;
          parent = none;
          commitment = SlotCommitment.confirmed;
          dead_error = none;
          created_at = now;
          size = 20;
        })
        ∷ []))
    ≡ some (mismatch_transactions ∷ mismatch_entries ∷ [])
unfolding collect slot_info_new cons_some store_message mark_landed try_block try_with store_and_try
    get_block_message drop_reasons
unfinished = refl

abbrev one : SlotInfo
one = record {
  slot = 10;
  block_created = false;
  failed = false;
  landed = false;
  messages = some (account_message (account 5)) ∷ [];
  accounts_dedup = (7 ∷ [], (5, 0)) ∷ [];
  transactions_count = 0;
  entries_count = 0;
  block_meta = none;
}

one-Collects : Collects (account_message (account 5) ∷ []) one
unfolding gather cons_some pick get_transaction get_entry get_account last_meta lookup get_meta
one-Collects = record {
  transactions = refl;
  entries = refl;
  transactions_count = refl;
  entries_count = refl;
  meta = refl;
  accounts = Accounts-first [] [] [] (account 5) Accounts-nil refl;
  uncreated = refl;
}

came : Memᴰ (account 5) (pick get_account (account_message (account 5) ∷ []))
unfolding pick get_account cons_some
came = Memᴰ.head refl

store_message-late_example :
    (info' : SlotInfo) × (store_message one (account_message (account 3)) ≡ ok info')
    × (gather get_account info'.messages ≡ gather get_account one.messages ++ (account 3 ∷ []))
    × ((kept : MessageAccount) × Memᴰ kept (gather get_account one.messages)
        × (kept.pubkey ≡ (account 3).pubkey)
        × ((account 3).write_version ≤ kept.write_version))
store_message-late_example =
    store_message-late (account_message (account 5) ∷ []) one (account 3) (account 5) one-Collects
      came refl (omega arith)
