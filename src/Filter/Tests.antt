-- ===== src/Filter/Tests.antt =====
-- The filters at concrete messages, and their theorems there.
use mathlib.Core.List.{Memᴰ}
use dragonmouth.Base.{
  ℕ, zero, suc, ◌++◌, ◌≡◌, ◌≢◌, ◌↔◌, refl, Bool, true, false, List, [], ◌∷◌, Option, none, some,
  All, replicate, arith,
}
use dragonmouth.Plugin.Message.{Bytes}
use dragonmouth.Filter.Message.{
  Timestamp, MessageBlockCreatedAt, MessageAccount, MessageTransaction, MessageBlock,
}
use dragonmouth.Filter.Sets.{
  nonempty, bytes_eq, contains, intersects, is_subset, flag_differs, filter_map, Decides,
}
use dragonmouth.Filter.Selects.{Taken}
use dragonmouth.Filter.Accounts.{
  less, ConfigFilterAccountsFilter, memcmp_filter, data_size, token_account_state, lamports_filter,
  FilterAccountsState, FilterAccountsInner, ConfigFilterAccounts, state_new, add_filters,
  add_filter, is_match, any_mismatch, lamports_is_match, memcmp_match, tests_new,
  accounts_inner_new, accounts_new, account_select, accounts_get_update,
}
use dragonmouth.Filter.Occurs.{NoWrap, PanicsBehind, memcmp_match-wraps}
use dragonmouth.Filter.Holds.{Holds}
use dragonmouth.Filter.Compile.{IsAllowed, state_new-Holds}
use dragonmouth.Filter.AccountUpdates.{IsCompilable, accounts_get_update-Taken}
use dragonmouth.Filter.Transactions.{
  FilterTransactionsInner, transaction_select, transactions_get_update,
}
use dragonmouth.Filter.TransactionUpdates.{transactions_get_update-Taken}
use dragonmouth.Filter.Slots.{
  CommitmentLevel, SlotCommitment, FilterSlotsInner, slot_select, slots_get_update,
  slots_get_update-Taken,
}
use dragonmouth.Filter.Blocks.{FilterBlocksInner, block_update}
use dragonmouth.Filter.BlockUpdates.{block_update-Wanted, ElemAt, AccountWanted, TransactionWanted}
use dragonmouth.Filter.Slices.{
  DataSlice, slices_new, range_of, reserved_for, copy_slices, get_slice, Cut, total, get_slice-Cut,
}
use dragonmouth.Filter.Updates.{Filter, ConfigFilter, filter_new}
use dragonmouth.Filter.Config.{
  ConfigLimits, ConfigLimitsTransactions, check_config, check_named, check_names,
  check_transactions, check_each_transaction, check_transaction, check_blocks, check_each_block,
  check_block,
}
use dragonmouth.Filter.Accepted.{AllApart, Serves, check_config-Serves, check_config-AllApart}
use dragonmouth.Filter.Limits.{
  ConfigLimitsAccounts, check_filter, check_names_max, check_name_max, check_max, check_accounts,
  check_account, check_any, check_pubkey_max, check_pubkeys_reject, check_tests, check_slices,
  check_order, check_overlap, ◌also◌,
}
use dragonmouth.Filter.AccountUpdates as AccountUpdates
use dragonmouth.Filter.TransactionUpdates as Transactions
use dragonmouth.Filter.Slots as Slots

-- Stands for the test of token accounts: a state byte that is not 0 in front.
abbrev valid : Bytes → Bool
valid [] = false
valid (zero ∷ xs) = false
valid (suc n ∷ xs) = true

abbrev tests : List ConfigFilterAccountsFilter
tests =
    memcmp_filter 1 (7 ∷ 8 ∷ [])
    ∷ data_size 4
    ∷ token_account_state
    ∷ lamports_filter (less 100)
    ∷ []

abbrev token_filter : ConfigFilterAccounts
token_filter = record {
  account = [];
  owner = (5 ∷ []) ∷ (6 ∷ []) ∷ [];
  filters = tests;
  nonempty_txn_signature = some true;
}

abbrev other_filter : ConfigFilterAccounts
other_filter = record {
  account = (9 ∷ []) ∷ [];
  owner = [];
  filters = [];
  nonempty_txn_signature = none;
}

abbrev configs : List (Bytes × ConfigFilterAccounts)
configs = (1 ∷ [], token_filter) ∷ (2 ∷ [], other_filter) ∷ []

abbrev now : Timestamp
now = record { seconds = 100; nanos = 5 }

abbrev account : MessageAccount
account = record {
  pubkey = 3 ∷ [];
  owner = 6 ∷ [];
  lamports = 99;
  contents = 1 ∷ 7 ∷ 8 ∷ 0 ∷ [];
  nonempty_txn_signature = true;
  write_version = 1;
  slot = 10;
  is_startup = false;
  created_at = now;
  size = 90;
}

allowed : IsAllowed tests
allowed = record {
  few = omega arith;
  short = (omega arith, (tt, (tt, (tt, tt))));
  one_size = omega arith;
}

compilable : All IsCompilable configs
compilable = (
  (allowed, (omega arith, (tt, (tt, (tt, tt))))),
  ((record { few = omega arith; short = tt; one_size = omega arith }, tt), tt),
)

state_new-Holds_example :
    (s : FilterAccountsState) × (state_new tests ≡ some s)
    × Decides
        (is_match valid s 99 (1 ∷ 7 ∷ 8 ∷ 0 ∷ []))
        (All (Holds valid 99 (1 ∷ 7 ∷ 8 ∷ 0 ∷ [])) tests)
state_new-Holds_example =
    state_new-Holds valid 99 (1 ∷ 7 ∷ 8 ∷ 0 ∷ []) tests allowed (omega arith, (tt, (tt, (tt, tt))))

abbrev holding : List (ℕ × Bytes)
holding = (0, 0 ∷ []) ∷ []

holding-NoWrap : All NoWrap holding
holding-NoWrap = (omega arith, tt)

memcmp_match-wraps_example :
    PanicsBehind holding
      (replicate 128 0)
      (memcmp_match (holding ++ ((18446744073709551615, 7 ∷ []) ∷ [])) (replicate 128 0))
memcmp_match-wraps_example =
    memcmp_match-wraps holding 18446744073709551615 (7 ∷ []) [] (replicate 128 0) holding-NoWrap
      (omega arith) (omega arith) (omega arith) (omega arith)

-- That comparison panics; behind a test that fails the loop does not come so far.
wraps_panics :
    memcmp_match ((0, 0 ∷ []) ∷ (18446744073709551615, 7 ∷ []) ∷ []) (replicate 128 0) ≡ none
unfolding memcmp_match bytes_eq
wraps_panics = refl

wraps_unread :
    memcmp_match ((0, 1 ∷ []) ∷ (18446744073709551615, 7 ∷ []) ∷ []) (replicate 128 0) ≡ some false
unfolding memcmp_match bytes_eq
wraps_unread = refl

accounts_get_update-Taken_example :
    (fs : List (Bytes × FilterAccountsInner)) × (accounts_new configs ≡ some fs)
    × ((names : List Bytes) × (accounts_get_update valid fs account ≡ some (nonempty names))
        × Taken (AccountUpdates.Accepts valid account) configs names)
accounts_get_update-Taken_example = accounts_get_update-Taken valid account configs compilable

abbrev update_of : Option (List (Bytes × FilterAccountsInner)) → Option (Option (List Bytes))
update_of none = none
update_of (some fs) = accounts_get_update valid fs account

account_names : update_of (accounts_new configs) ≡ some (some ((1 ∷ []) ∷ []))
unfolding accounts_new accounts_inner_new tests_new state_new add_filters add_filter
    accounts_get_update filter_map account_select contains bytes_eq is_match any_mismatch
    lamports_is_match memcmp_match flag_differs
account_names = refl

abbrev vote_filter : FilterTransactionsInner
vote_filter = record {
  vote = some true;
  failed = none;
  signature = none;
  account_include = (1 ∷ []) ∷ [];
  account_exclude = (2 ∷ []) ∷ [];
  account_required = (3 ∷ []) ∷ [];
}

abbrev vote : MessageTransaction
vote = record {
  vote = true;
  failed = false;
  signature = 8 ∷ [];
  account_keys = (1 ∷ []) ∷ (3 ∷ []) ∷ [];
  slot = 10;
  created_at = now;
  size = 70;
}

transactions_get_update-Taken_example :
    (names : List Bytes) × (transactions_get_update ((4 ∷ [], vote_filter) ∷ []) vote
      ≡ nonempty names)
    × Taken (Transactions.Accepts vote) ((4 ∷ [], vote_filter) ∷ []) names
transactions_get_update-Taken_example =
    transactions_get_update-Taken vote ((4 ∷ [], vote_filter) ∷ [])

transaction_names : transactions_get_update ((4 ∷ [], vote_filter) ∷ []) vote ≡ some ((4 ∷ []) ∷ [])
unfolding transactions_get_update filter_map transaction_select flag_differs intersects is_subset
    contains bytes_eq
transaction_names = refl

abbrev slot_filters : List (Bytes × FilterSlotsInner)
slot_filters =
    (1 ∷ [], record { filter_by_commitment = true })
    ∷ (2 ∷ [], record { filter_by_commitment = false })
    ∷ []

slots_get_update-Taken_example :
    (names : List Bytes) × (slots_get_update slot_filters SlotCommitment.dead
        CommitmentLevel.confirmed
      ≡ nonempty names)
    × Taken (Slots.Accepts SlotCommitment.dead CommitmentLevel.confirmed) slot_filters names
slots_get_update-Taken_example =
    slots_get_update-Taken SlotCommitment.dead CommitmentLevel.confirmed slot_filters

slot_names :
    slots_get_update slot_filters SlotCommitment.dead CommitmentLevel.confirmed
    ≡ some ((2 ∷ []) ∷ [])
unfolding slots_get_update filter_map slot_select
slot_names = refl

abbrev block_filter : FilterBlocksInner
block_filter = record {
  account_include = (3 ∷ []) ∷ [];
  include_transactions = none;
  include_accounts = some true;
  include_entries = some false;
}

abbrev block : MessageBlock
block = record {
  accounts = account ∷ [];
  transactions = vote ∷ vote ∷ [];
  entries = [];
  block_meta = record {
    slot = 10;
    blockhash = [];
    block_height = none;
    executed_transaction_count = 2;
    entries_count = 0;
    created_at = now;
    size = 30;
  };
  created_at = MessageBlockCreatedAt.prost now;
}

block_update-Wanted_example :
    ((k : ℕ)
      → Memᴰ k (block_update (1 ∷ [], block_filter) block).accounts ↔ (
          (block_filter.include_accounts ≡ some true)
          × ElemAt (AccountWanted block_filter) block.accounts k))
    × ((k : ℕ)
        → Memᴰ k (block_update (1 ∷ [], block_filter) block).transactions ↔ (
            (block_filter.include_transactions ≢ some false)
            × ElemAt (TransactionWanted block_filter) block.transactions k))
    × (((block_update (1 ∷ [], block_filter) block).entries ≡ true)
        ↔ (block_filter.include_entries ≡ some true))
block_update-Wanted_example = block_update-Wanted (1 ∷ []) block_filter block

abbrev slices : List DataSlice
slices = record { offset = 1; length = 2 } ∷ record { offset = 3; length = 2 } ∷ []

get_slice-Cut_example :
    (copied : Bytes) × (get_slice (slices_new slices) (1 ∷ 7 ∷ 8 ∷ 0 ∷ [])
      ≡ some (total slices, copied))
    × Cut (1 ∷ 7 ∷ 8 ∷ 0 ∷ []) slices copied
get_slice-Cut_example =
    get_slice-Cut (1 ∷ 7 ∷ 8 ∷ 0 ∷ []) (record { offset = 1; length = 2 })
      (record { offset = 3; length = 2 } ∷ []) (omega arith, (omega arith, tt)) (omega arith)

slice_bytes : get_slice (slices_new slices) (1 ∷ 7 ∷ 8 ∷ 0 ∷ []) ≡ some (4, 7 ∷ 8 ∷ [])
unfolding get_slice slices_new range_of reserved_for copy_slices
slice_bytes = refl

abbrev config : ConfigFilter
config = record {
  slots = (1 ∷ [], none) ∷ [];
  accounts = configs;
  accounts_data_slice = slices;
  transactions = (4 ∷ [], vote_filter) ∷ [];
  transactions_status = [];
  entries = (6 ∷ []) ∷ [];
  blocks_meta = [];
  blocks = (1 ∷ [], block_filter) ∷ [];
  commitment = some CommitmentLevel.confirmed;
}

abbrev limits : ConfigLimitsAccounts
limits = record {
  max = 8;
  any = false;
  account_max = 4;
  account_reject = (1 ∷ []) ∷ [];
  owner_max = 4;
  owner_reject = [];
  data_slice_max = 2;
}

abbrev transaction_limits : ConfigLimitsTransactions
transaction_limits = record {
  max = 8;
  any = false;
  account_include_max = 4;
  account_include_reject = [];
  account_exclude_max = 4;
  account_required_max = 4;
}

-- Entries of blocks are not to be included.
abbrev all_limits : ConfigLimits
all_limits = record {
  name_max = 16;
  slots_max = 2;
  accounts = limits;
  transactions = transaction_limits;
  transactions_status = transaction_limits;
  entries_max = 1;
  blocks_meta_max = 1;
  blocks = record {
    max = 1;
    account_include_max = 4;
    account_include_any = false;
    account_include_reject = [];
    include_transactions = true;
    include_accounts = true;
    include_entries = false;
  };
}

accepted : check_config all_limits config ≡ none
unfolding check_config check_named check_names check_transactions check_each_transaction
    check_transaction check_blocks check_each_block check_block check_filter check_names_max
    check_name_max check_max check_accounts check_account check_any check_pubkey_max
    check_pubkeys_reject check_tests check_slices check_order check_overlap ◌also◌ contains bytes_eq
accepted = refl

-- A block filter that asks for entries is accepted all the same.
abbrev asks_entries : FilterBlocksInner
asks_entries = record {
  account_include = (3 ∷ []) ∷ [];
  include_transactions = none;
  include_accounts = none;
  include_entries = some true;
}

entries_accepted : check_block all_limits.blocks asks_entries ≡ none
unfolding check_block check_any check_pubkey_max check_pubkeys_reject ◌also◌ contains bytes_eq
entries_accepted = refl

check_config-Serves_example : (f : Filter) × (filter_new config ≡ some f) × Serves valid slices f
check_config-Serves_example =
    check_config-Serves valid all_limits config accepted
      ((omega arith, (tt, (tt, (tt, tt)))), (tt, tt)) (omega arith, (omega arith, tt)) (omega arith)

-- A slice of 2 ^ 63 bytes is accepted too, and cutting by it panics.
abbrev long_slice : List DataSlice
long_slice = record { offset = 0; length = 9223372036854775808 } ∷ []

long_slice_accepted :
    check_config all_limits (record config { accounts_data_slice = long_slice }) ≡ none
unfolding check_config check_named check_names check_transactions check_each_transaction
    check_transaction check_blocks check_each_block check_block check_filter check_names_max
    check_name_max check_max check_accounts check_account check_any check_pubkey_max
    check_pubkeys_reject check_tests check_slices check_order check_overlap ◌also◌ contains bytes_eq
long_slice_accepted = refl

long_slice_panics : get_slice (slices_new long_slice) (1 ∷ []) ≡ none
unfolding get_slice slices_new range_of reserved_for copy_slices
long_slice_panics = refl

check_config-AllApart_example : AllApart slices
check_config-AllApart_example = check_config-AllApart all_limits config accepted
