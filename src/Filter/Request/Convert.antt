-- ===== src/Filter/Request/Convert.antt =====
-- The conversions of requests and configurations in filter/src/config.rs, in both directions.
use dragonmouth.Base.{
  ℕ, Bool, true, false, List, Option, none, some, if◌then◌else◌, ltb, length, map,
}
use dragonmouth.Plugin.Message.{Bytes}
use dragonmouth.Filter.Slots.{CommitmentLevel, level_of}
use dragonmouth.Filter.Accounts.{
  ConfigFilterAccountsFilter, memcmp_filter, data_size, token_account_state, lamports_filter,
  ConfigFilterAccounts, max_filters, max_data_size,
}
use dragonmouth.Filter.Transactions.{FilterTransactionsInner}
use dragonmouth.Filter.Blocks.{FilterBlocksInner}
use dragonmouth.Filter.Slices.{DataSlice}
use dragonmouth.Filter.Updates.{ConfigFilter}
use dragonmouth.Filter.Limits.{too_much_filters, filter_data_overflow}
use dragonmouth.Filter.Request.{
  AccountsFilterDataOneof, AccountsFilterMemcmpOneof, Converted, SubscribeRequest,
  SubscribeRequestFilterAccounts, SubscribeRequestFilterBlocks, SubscribeRequestFilterTransactions,
  Texts, bad_pubkey, bad_signature, base58, base64, bytes, conv_map, convert_all, converted,
  data_field, datasize, field_missing, filter_field, invalid_base58, invalid_base64, lamports,
  lamports_from, lamports_try_from, level_try_from, limits, max_data_base58_size,
  max_data_base64_size, memcmp, need, refused, token_account_state_invalid, token_state, transpose,
  try_conv_map, unknown_commitment, ◌>>=◌,
}

module _ (t : Texts) where
  -- `ConfigFilter::parse_vec_pubkeys`
  unfoldable pub parse_vec_pubkeys : List Bytes → Converted (List Bytes)
  parse_vec_pubkeys keys = convert_all (λ (k : Bytes). need (bad_pubkey k) (t.parse_pubkey k)) keys

  -- `ConfigFilter::conv_vec_pubkeys`
  unfoldable pub conv_vec_pubkeys : List Bytes → List Bytes
  conv_vec_pubkeys keys = map t.pubkey_to_string keys

  -- The bytes of a comparison, behind the limits on their text.
  unfoldable pub memcmp_data : AccountsFilterMemcmpOneof → Converted Bytes
  memcmp_data (bytes contents) = converted contents
  memcmp_data (base58 text) =
      if ltb max_data_base58_size (length text)
      then refused (limits filter_data_overflow)
      else need invalid_base58 (t.decode_base58 text)
  memcmp_data (base64 text) =
      if ltb max_data_base64_size (length text)
      then refused (limits filter_data_overflow)
      else need invalid_base64 (t.decode_base64 text)

  unfoldable pub within_size : ℕ → Bytes → Converted ConfigFilterAccountsFilter
  within_size offset contents =
      if ltb max_data_size (length contents)
      then refused (limits filter_data_overflow)
      else converted (memcmp_filter offset contents)

  -- `TryFrom<SubscribeRequestFilterAccountsFilter> for ConfigFilterAccountsFilter`
  unfoldable pub filter_try_from :
      Option AccountsFilterDataOneof → Converted ConfigFilterAccountsFilter
  filter_try_from none = refused (field_missing filter_field)
  filter_try_from (some (memcmp offset oneof)) = do
    value ← need (field_missing data_field) oneof
    contents ← memcmp_data value
    within_size offset contents
  filter_try_from (some (datasize size)) = converted (data_size size)
  filter_try_from (some (token_state true)) = converted token_account_state
  filter_try_from (some (token_state false)) = refused token_account_state_invalid
  filter_try_from (some (lamports cmp)) = do
    value ← lamports_try_from cmp
    converted (lamports_filter value)

  -- `From<ConfigFilterAccountsFilter> for SubscribeRequestFilterAccountsFilter`
  unfoldable pub filter_from : ConfigFilterAccountsFilter → Option AccountsFilterDataOneof
  filter_from (memcmp_filter offset contents) = some (memcmp offset (some (bytes contents)))
  filter_from (data_size size) = some (datasize size)
  filter_from token_account_state = some (token_state true)
  filter_from (lamports_filter value) = some (lamports (lamports_from value))

  unfoldable pub filters_try_from :
      List (Option AccountsFilterDataOneof) → Converted (List ConfigFilterAccountsFilter)
  filters_try_from filters =
      if ltb max_filters (length filters)
      then refused (limits (too_much_filters max_filters))
      else convert_all filter_try_from filters

  -- `TryFrom<SubscribeRequestFilterAccounts> for ConfigFilterAccounts`
  unfoldable pub accounts_try_from : SubscribeRequestFilterAccounts → Converted ConfigFilterAccounts
  accounts_try_from value = do
    account ← parse_vec_pubkeys value.account
    owner ← parse_vec_pubkeys value.owner
    filters ← filters_try_from value.filters
    converted (record {
      account = account;
      owner = owner;
      filters = filters;
      nonempty_txn_signature = value.nonempty_txn_signature;
    })

  -- `From<ConfigFilterAccounts> for SubscribeRequestFilterAccounts`
  unfoldable pub accounts_from : ConfigFilterAccounts → SubscribeRequestFilterAccounts
  accounts_from value = record {
    account = conv_vec_pubkeys value.account;
    owner = conv_vec_pubkeys value.owner;
    filters = map filter_from value.filters;
    nonempty_txn_signature = value.nonempty_txn_signature;
  }

  unfoldable pub signature_try_from : Bytes → Converted Bytes
  signature_try_from sig = need (bad_signature sig) (t.parse_signature sig)

  -- `TryFrom<SubscribeRequestFilterTransactions> for ConfigFilterTransactions`
  unfoldable pub transactions_try_from :
      SubscribeRequestFilterTransactions → Converted FilterTransactionsInner
  transactions_try_from value = do
    signature ← transpose signature_try_from value.signature
    account_include ← parse_vec_pubkeys value.account_include
    account_exclude ← parse_vec_pubkeys value.account_exclude
    account_required ← parse_vec_pubkeys value.account_required
    converted (record {
      vote = value.vote;
      failed = value.failed;
      signature = signature;
      account_include = account_include;
      account_exclude = account_exclude;
      account_required = account_required;
    })

  unfoldable pub signature_from : Option Bytes → Option Bytes
  signature_from none = none
  signature_from (some sig) = some (t.signature_to_string sig)

  -- `From<ConfigFilterTransactions> for SubscribeRequestFilterTransactions`
  unfoldable pub transactions_from : FilterTransactionsInner → SubscribeRequestFilterTransactions
  transactions_from value = record {
    vote = value.vote;
    failed = value.failed;
    signature = signature_from value.signature;
    account_include = conv_vec_pubkeys value.account_include;
    account_exclude = conv_vec_pubkeys value.account_exclude;
    account_required = conv_vec_pubkeys value.account_required;
  }

  -- `TryFrom<SubscribeRequestFilterBlocks> for ConfigFilterBlocks`
  unfoldable pub blocks_try_from : SubscribeRequestFilterBlocks → Converted FilterBlocksInner
  blocks_try_from value = do
    account_include ← parse_vec_pubkeys value.account_include
    converted (record {
      account_include = account_include;
      include_transactions = value.include_transactions;
      include_accounts = value.include_accounts;
      include_entries = value.include_entries;
    })

  -- `From<ConfigFilterBlocks> for SubscribeRequestFilterBlocks`
  unfoldable pub blocks_from : FilterBlocksInner → SubscribeRequestFilterBlocks
  blocks_from value = record {
    account_include = conv_vec_pubkeys value.account_include;
    include_transactions = value.include_transactions;
    include_accounts = value.include_accounts;
    include_entries = value.include_entries;
  }

  -- `TryFrom<i32> for ConfigFilterCommitment`
  unfoldable pub commitment_try_from : ℕ → Converted CommitmentLevel
  commitment_try_from value = do
    level ← need (unknown_commitment value) (t.level_of_i32 value)
    level_try_from level

  unfoldable pub commitment_from : Option CommitmentLevel → Option ℕ
  commitment_from none = none
  commitment_from (some level) = some (t.commitment_as_i32 (level_of level))

  -- `TryFrom<SubscribeRequest> for ConfigFilter`; slots and slices are copied.
  unfoldable pub config_try_from : SubscribeRequest → Converted ConfigFilter
  config_try_from value = do
    slots ← try_conv_map (λ (f : Option Bool). converted f) value.slots
    accounts ← try_conv_map accounts_try_from value.accounts
    slices ← convert_all (λ (s : DataSlice). converted s) value.accounts_data_slice
    transactions ← try_conv_map transactions_try_from value.transactions
    transactions_status ← try_conv_map transactions_try_from value.transactions_status
    blocks ← try_conv_map blocks_try_from value.blocks
    commitment ← transpose commitment_try_from value.commitment
    converted (record {
      slots = slots;
      accounts = accounts;
      accounts_data_slice = slices;
      transactions = transactions;
      transactions_status = transactions_status;
      entries = value.entry;
      blocks_meta = value.blocks_meta;
      blocks = blocks;
      commitment = commitment;
    })

  -- `From<ConfigFilter> for SubscribeRequest`
  unfoldable pub config_from : ConfigFilter → SubscribeRequest
  config_from value = record {
    slots = conv_map (λ (f : Option Bool). f) value.slots;
    accounts = conv_map accounts_from value.accounts;
    accounts_data_slice = map (λ (s : DataSlice). s) value.accounts_data_slice;
    transactions = conv_map transactions_from value.transactions;
    transactions_status = conv_map transactions_from value.transactions_status;
    entry = value.entries;
    blocks_meta = value.blocks_meta;
    blocks = conv_map blocks_from value.blocks;
    commitment = commitment_from value.commitment;
  }
