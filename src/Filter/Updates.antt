-- ===== src/Filter/Updates.antt =====
-- `Filter` of filter/src/filter.rs: which filters see which message.
use dragonmouth.Base.{Bool, List, [], ◌∷◌, Option, none, some, map, ◌++◌}
use dragonmouth.Plugin.Message.{Bytes}
use dragonmouth.Filter.Message.{MessageAccount, MessageTransaction, MessageBlock}
use dragonmouth.Filter.Sets.{nonempty}
use dragonmouth.Filter.Accounts.{
  FilterAccountsInner, ConfigFilterAccounts, accounts_new, accounts_get_update,
}
use dragonmouth.Filter.Transactions.{FilterTransactionsInner, transactions_get_update}
use dragonmouth.Filter.Slots.{
  SlotCommitment, CommitmentLevel, FilterSlotsInner, slots_inner_new, slots_get_update,
}
use dragonmouth.Filter.Blocks.{FilterBlocksInner, BlockUpdate, blocks_get_updates}
use dragonmouth.Filter.Slices.{DataSlice, Range, slices_new}

-- `Filter`, a map being the list of its entries.
pub record Filter : Type 0 where
  pub slots : List (Bytes × FilterSlotsInner)
  pub accounts : List (Bytes × FilterAccountsInner)
  pub accounts_data_slices : List Range
  pub transactions : List (Bytes × FilterTransactionsInner)
  pub transactions_status : List (Bytes × FilterTransactionsInner)
  pub entries : List Bytes
  pub blocks_meta : List Bytes
  pub blocks : List (Bytes × FilterBlocksInner)
  pub commitment : CommitmentLevel

-- `ConfigFilter`; a filter on slots has its optional flag, and the filters on transactions and
-- blocks are kept as they are configured.
pub record ConfigFilter : Type 0 where
  pub slots : List (Bytes × Option Bool)
  pub accounts : List (Bytes × ConfigFilterAccounts)
  pub accounts_data_slice : List DataSlice
  pub transactions : List (Bytes × FilterTransactionsInner)
  pub transactions_status : List (Bytes × FilterTransactionsInner)
  pub entries : List Bytes
  pub blocks_meta : List Bytes
  pub blocks : List (Bytes × FilterBlocksInner)
  pub commitment : Option CommitmentLevel

abbrev level_or_processed : Option CommitmentLevel → CommitmentLevel
level_or_processed none = CommitmentLevel.processed
level_or_processed (some level) = level

abbrev pub filter_of : ConfigFilter → List (Bytes × FilterAccountsInner) → Filter
filter_of config accounts = record {
  slots = map (λ f. (f.0, slots_inner_new f.1)) config.slots;
  accounts = accounts;
  accounts_data_slices = slices_new config.accounts_data_slice;
  transactions = config.transactions;
  transactions_status = config.transactions_status;
  entries = config.entries;
  blocks_meta = config.blocks_meta;
  blocks = config.blocks;
  commitment = level_or_processed config.commitment;
}

-- `Filter::new`; a panic of the account filters is `none`.
unfoldable pub filter_new : ConfigFilter → Option Filter
filter_new config = elim (accounts_new config.accounts) [
  | none ↦ none
  | some accounts ↦ some (filter_of config accounts)
]

-- `MessageRef`
pub data MessageRef : Type 0 where
  slot_ref : SlotCommitment → MessageRef
  account_ref : MessageAccount → MessageRef
  transaction_ref : MessageTransaction → MessageRef
  entry_ref : MessageRef
  block_meta_ref : MessageRef
  block_ref : MessageBlock → MessageRef

-- `FilteredUpdate`: the names, and the kind of update.
pub data FilteredUpdate : Type 0 where
  slot_update account_update transaction_update transaction_status_update :
      List Bytes → FilteredUpdate
  entry_update block_meta_update : List Bytes → FilteredUpdate
  block_update_of : BlockUpdate → FilteredUpdate

-- `if let Some(update) = … { vec.push(update) }`
abbrev pub push_some : (List Bytes → FilteredUpdate) → Option (List Bytes) → List FilteredUpdate
push_some kind none = []
push_some kind (some names) = kind names ∷ []

-- `FilterEntries::get_update` and `FilterBlocksMeta::get_update`.
unfoldable pub names_get_update : List Bytes → Option (List Bytes)
names_get_update names = nonempty names

module _ (valid : Bytes → Bool) where
  -- `Filter::get_updates_ref`
  unfoldable pub get_updates_ref :
      Filter → MessageRef → CommitmentLevel → Option (List FilteredUpdate)
  get_updates_ref filter (slot_ref message) commitment =
      some (push_some slot_update (slots_get_update filter.slots message commitment))
  get_updates_ref filter (account_ref message) commitment =
      elim (accounts_get_update valid filter.accounts message) [
        | none ↦ none
        | some update ↦ some (push_some account_update update)
      ]
  get_updates_ref filter (transaction_ref message) commitment = some (
      push_some transaction_update (transactions_get_update filter.transactions message)
      ++ push_some transaction_status_update
          (transactions_get_update filter.transactions_status message))
  get_updates_ref filter entry_ref commitment =
      some (push_some entry_update (names_get_update filter.entries))
  get_updates_ref filter block_meta_ref commitment =
      some (push_some block_meta_update (names_get_update filter.blocks_meta))
  get_updates_ref filter (block_ref message) commitment =
      some (map block_update_of (blocks_get_updates filter.blocks message))
