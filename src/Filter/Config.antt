-- ===== src/Filter/Config.antt =====
-- The limits on all the filters of a subscription, `ConfigLimits` of filter/src/config.rs. The
-- filters on transactions and blocks are kept as they are configured, so the records of the filters
-- stand for those of their configuration.
use dragonmouth.Base.{
  ℕ, Bool, true, false, not, ◌&&◌, ◌||◌, List, [], ◌∷◌, Option, none, some, map, if◌then◌else◌,
  length, is_empty, is_none,
}
use dragonmouth.Plugin.Message.{Bytes}
use dragonmouth.Filter.Transactions.{FilterTransactionsInner}
use dragonmouth.Filter.Blocks.{FilterBlocksInner}
use dragonmouth.Filter.Updates.{ConfigFilter}
use dragonmouth.Filter.Limits.{
  BlockPart, transactions_part, accounts_part, entries_part, blocks_not_allowed, Checked, ◌also◌,
  ConfigLimitsAccounts, check_max, check_names_max, check_any, check_pubkey_max,
  check_pubkeys_reject, check_filter,
}

-- `ConfigLimitsTransactions`; `max` is named as in the source, and so below.
pub record ConfigLimitsTransactions : Type 0 where
  pub max : ℕ
  pub any : Bool
  pub account_include_max : ℕ
  pub account_include_reject : List Bytes
  pub account_exclude_max : ℕ
  pub account_required_max : ℕ

pub record ConfigLimitsBlocks : Type 0 where
  pub max : ℕ
  pub account_include_max : ℕ
  pub account_include_any : Bool
  pub account_include_reject : List Bytes
  pub include_transactions : Bool
  pub include_accounts : Bool
  pub include_entries : Bool

-- `ConfigLimits`; the limits on slots, entries and blocks' metadata have the one field `max`.
pub record ConfigLimits : Type 0 where
  pub name_max : ℕ
  pub slots_max : ℕ
  pub accounts : ConfigLimitsAccounts
  pub transactions : ConfigLimitsTransactions
  pub transactions_status : ConfigLimitsTransactions
  pub entries_max : ℕ
  pub blocks_meta_max : ℕ
  pub blocks : ConfigLimitsBlocks

-- The `check_filter` of `ConfigLimitsSlots`, over named filters.
unfoldable pub check_named : {A : Type 0} → ℕ → ℕ → List (Bytes × A) → Checked
check_named max name_max filters =
    check_names_max filters name_max also check_max (length filters) max

-- The `check_filter` of `ConfigLimitsEntries` and `ConfigLimitsBlocksMeta`, over names.
unfoldable pub check_names : ℕ → ℕ → List Bytes → Checked
check_names max name_max names =
    check_names_max (map (λ (n : Bytes). (n, n)) names) name_max also check_max (length names) max

module _ (limits : ConfigLimitsTransactions) where
  -- The body of the loop of `ConfigLimitsTransactions::check_filter`.
  unfoldable pub check_transaction : FilterTransactionsInner → Checked
  check_transaction f =
      check_any
        (is_none f.vote
          && is_none f.failed
          && is_empty f.account_include
          && is_empty f.account_exclude
          && is_empty f.account_required)
        limits.any
      also check_pubkey_max (length f.account_include) limits.account_include_max
      also check_pubkey_max (length f.account_exclude) limits.account_exclude_max
      also check_pubkey_max (length f.account_required) limits.account_required_max
      also check_pubkeys_reject f.account_include limits.account_include_reject

  unfoldable pub check_each_transaction : List (Bytes × FilterTransactionsInner) → Checked
  check_each_transaction [] = none
  check_each_transaction ((name, f) ∷ fs) = check_transaction f also check_each_transaction fs

  -- `ConfigLimitsTransactions::check_filter`
  unfoldable pub check_transactions : ℕ → List (Bytes × FilterTransactionsInner) → Checked
  check_transactions name_max filters =
      check_named limits.max name_max filters also check_each_transaction filters

abbrev pub refuses : Option Bool → Bool
refuses (some false) = true
refuses _ = false

-- `matches!(flag, None | Some(false))`
abbrev pub lacks : Option Bool → Bool
lacks (some true) = false
lacks _ = true

abbrev pub unless : Bool → BlockPart → Checked
unless fine part = if not fine then some (blocks_not_allowed part) else none

module _ (limits : ConfigLimitsBlocks) where
  -- The body of the loop of `ConfigLimitsBlocks::check_filter`. Entries are compared with the limit
  -- on accounts, as the source has it.
  unfoldable pub check_block : FilterBlocksInner → Checked
  check_block f =
      check_any (is_empty f.account_include) limits.account_include_any
      also check_pubkey_max (length f.account_include) limits.account_include_max
      also unless (refuses f.include_transactions || limits.include_transactions) transactions_part
      also unless (lacks f.include_accounts || limits.include_accounts) accounts_part
      also unless (lacks f.include_entries || limits.include_accounts) entries_part
      also check_pubkeys_reject f.account_include limits.account_include_reject

  unfoldable pub check_each_block : List (Bytes × FilterBlocksInner) → Checked
  check_each_block [] = none
  check_each_block ((name, f) ∷ fs) = check_block f also check_each_block fs

  -- `ConfigLimitsBlocks::check_filter`
  unfoldable pub check_blocks : ℕ → List (Bytes × FilterBlocksInner) → Checked
  check_blocks name_max filters =
      check_named limits.max name_max filters also check_each_block filters

-- `ConfigLimits::check_filter`
unfoldable pub check_config : ConfigLimits → ConfigFilter → Checked
check_config limits filter =
    check_named limits.slots_max limits.name_max filter.slots
    also check_filter limits.accounts limits.name_max filter.accounts filter.accounts_data_slice
    also check_transactions limits.transactions limits.name_max filter.transactions
    also check_transactions limits.transactions_status limits.name_max filter.transactions_status
    also check_names limits.entries_max limits.name_max filter.entries
    also check_names limits.blocks_meta_max limits.name_max filter.blocks_meta
    also check_blocks limits.blocks limits.name_max filter.blocks
