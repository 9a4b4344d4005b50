-- ===== src/Filter/Parse/Tests.antt =====
-- A transaction and a block parsed, and the theorems there.
use mathlib.Core.List.{Memᴰ}
use dragonmouth.Base.{
  ℕ, ◌+◌, ◌*◌, ◌≡◌, refl, ◌↔◌, ◌⊎◌, false, List, [], ◌∷◌, none, some, length, replicate,
}
use dragonmouth.Plugin.Message.{Bytes}
use dragonmouth.Filter.Sets.{contains, bytes_eq}
use dragonmouth.Filter.Message.{Timestamp, MessageBlock, MessageBlockCreatedAt, sum, block_size}
use dragonmouth.Filter.Parse.{
  Parsed, parsed, failed, invalid_pubkey, SubscribeUpdateAccountInfo,
  SubscribeUpdateTransactionInfo, SubscribeUpdateEntry, SubscribeUpdateBlock, TransactionStatusMeta,
  Transaction, static_keys, insert_key, add_keys, gen_account_keys, account_of, entry_of,
  block_meta_of, map_parsed, block_account, block_entries, transaction_of, parse_block,
}
use dragonmouth.Filter.Parse.Keys.{Distinct, gen_account_keys-Distinct}
use dragonmouth.Filter.Parse.Sizes.{keys_size, parse_block-size}

abbrev key : ℕ → Bytes
key n = replicate 32 n

abbrev status : TransactionStatusMeta
status = record {
  err = false;
  loaded_writable_addresses = key 2 ∷ [];
  loaded_readonly_addresses = key 1 ∷ key 3 ∷ [];
}

abbrev transaction_body : Transaction
transaction_body = record { message = some (key 1 ∷ key 2 ∷ []) }

abbrev info : SubscribeUpdateTransactionInfo
info = record {
  signature = replicate 64 8;
  is_vote = false;
  transaction = some transaction_body;
  meta = some status;
}

gen_account_keys-Distinct_example :
    (keys : List Bytes) × (gen_account_keys info status ≡ parsed keys)
    × Distinct keys
    × ((j : Bytes)
        → Memᴰ j keys ↔ (
            Memᴰ j (static_keys transaction_body.message)
            ⊎ Memᴰ j status.loaded_writable_addresses
            ⊎ Memᴰ j status.loaded_readonly_addresses))
gen_account_keys-Distinct_example =
    gen_account_keys-Distinct info status transaction_body refl (refl, (refl, tt)) (refl, tt)
      (refl, (refl, tt))

three_keys : gen_account_keys info status ≡ parsed (key 1 ∷ key 2 ∷ key 3 ∷ [])
unfolding gen_account_keys add_keys insert_key contains bytes_eq
three_keys = refl

-- A key of 31 bytes is refused.
short_key : add_keys [] (key 1 ∷ replicate 31 2 ∷ []) ≡ failed invalid_pubkey
unfolding add_keys insert_key contains bytes_eq
short_key = refl

abbrev now : Timestamp
now = record { seconds = 100; nanos = 5 }

abbrev block : SubscribeUpdateBlock
block = record {
  slot = 10;
  accounts =
      record {
        pubkey = key 3;
        owner = key 4;
        txn_signature = none;
        lamports = 99;
        contents = [];
        write_version = 1;
        encoded_len = 80;
      }
      ∷ [];
  transactions = info ∷ info ∷ [];
  entries = record { slot = 10; encoded_len = 40 } ∷ [];
  block_meta = record {
    slot = 10;
    blockhash = [];
    block_height = none;
    executed_transaction_count = 2;
    entries_count = 1;
    encoded_len = 30;
  };
}

-- A set of the keys has room for 3, say, up to that number.
abbrev capacity : ℕ → ℕ
capacity n = n

abbrev result_of : Parsed MessageBlock → MessageBlock
result_of (parsed b) = b
result_of (failed e) = record {
  accounts = [];
  transactions = [];
  entries = [];
  block_meta = record {
    slot = 0;
    blockhash = [];
    block_height = none;
    executed_transaction_count = 0;
    entries_count = 0;
    created_at = now;
    size = 0;
  };
  created_at = MessageBlockCreatedAt.limited;
}

returns :
    parse_block capacity 1000 now block ≡ parsed (result_of (parse_block capacity 1000 now block))
unfolding parse_block map_parsed block_account account_of transaction_of gen_account_keys add_keys
    insert_key contains bytes_eq block_entries entry_of block_meta_of
returns = refl

parse_block-size_example :
    block_size (result_of (parse_block capacity 1000 now block))
    ≡ sum (λ (i : SubscribeUpdateAccountInfo). i.encoded_len + 136) block.accounts
      + length block.transactions * (1000 + 64)
      + sum (keys_size capacity) (result_of (parse_block capacity 1000 now block)).transactions
      + sum (λ (i : SubscribeUpdateEntry). i.encoded_len) block.entries
      + block.block_meta.encoded_len
parse_block-size_example =
    parse_block-size capacity 1000 now block (result_of (parse_block capacity 1000 now block))
      returns

-- An update of 1000 bytes counts 2606, of which the two transactions are 2320.
counted : block_size (result_of (parse_block capacity 1000 now block)) ≡ 2606
unfolding block_size sum parse_block map_parsed block_account account_of transaction_of
    gen_account_keys add_keys insert_key contains bytes_eq block_entries entry_of block_meta_of
counted = refl
