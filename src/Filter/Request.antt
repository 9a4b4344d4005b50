-- ===== src/Filter/Request.antt =====
-- `SubscribeRequest`, the protobuf message of a subscription, the errors of its conversion in
-- filter/src/config.rs, and the conversions of maps and lists. A map is the list of its entries.
-- What other crates do with texts and with the numbers of commitment levels is a parameter.
pub mod Convert
pub mod Restore
mod Tests
use dragonmouth.Base.{
  ℕ, ◌≡◌, Bool, true, false, List, [], ◌∷◌, Option, none, some, if◌then◌else◌, ltb, length, map,
}
use dragonmouth.Plugin.Message.{Bytes}
use dragonmouth.Filter.Slots.{SlotCommitment, CommitmentLevel, level_of}
use dragonmouth.Filter.Accounts.{
  FilterAccountsLamports, equal, not_equal, less, greater, ConfigFilterAccountsFilter,
  memcmp_filter, data_size, token_account_state, lamports_filter, ConfigFilterAccounts, max_filters,
  max_data_size,
}
use dragonmouth.Filter.Transactions.{FilterTransactionsInner}
use dragonmouth.Filter.Blocks.{FilterBlocksInner}
use dragonmouth.Filter.Slices.{DataSlice}
use dragonmouth.Filter.Updates.{ConfigFilter}
use dragonmouth.Filter.Limits.{ConfigLimitsError, too_much_filters, filter_data_overflow}

-- `MAX_DATA_BASE58_SIZE` and `MAX_DATA_BASE64_SIZE`
abbrev pub max_data_base58_size : ℕ
max_data_base58_size = 175

abbrev pub max_data_base64_size : ℕ
max_data_base64_size = 172

-- The fields that `FieldNotDefined` names.
pub data Field : Type 0 where
  filter_field data_field cmp_field : Field

pub data ConfigFilterError : Type 0 where
  limits : ConfigLimitsError → ConfigFilterError
  field_missing : Field → ConfigFilterError
  token_account_state_invalid invalid_base58 invalid_base64 : ConfigFilterError
  bad_pubkey bad_signature : Bytes → ConfigFilterError
  unknown_commitment : ℕ → ConfigFilterError
  invalid_commitment : SlotCommitment → ConfigFilterError

pub data Converted (A : Type 0) : Type 0 where
  converted : A → Converted A
  refused : ConfigFilterError → Converted A

infixl 5 ◌>>=◌
abbrev pub ◌>>=◌ : {A B : Type 0} → Converted A → (A → Converted B) → Converted B
converted x >>= next = next x
refused error >>= next = refused error

-- `ok_or` and `map_err` on a fallible step.
abbrev pub need : {A : Type 0} → ConfigFilterError → Option A → Converted A
need error none = refused error
need error (some x) = converted x

-- The other crates: base58 texts of keys and signatures, the decoders, and prost's numbers.
pub record Texts : Type 0 where
  pub parse_pubkey : Bytes → Option Bytes
  pub pubkey_to_string : Bytes → Bytes
  pub parse_signature : Bytes → Option Bytes
  pub signature_to_string : Bytes → Bytes
  pub decode_base58 : Bytes → Option Bytes
  pub decode_base64 : Bytes → Option Bytes
  pub level_of_i32 : ℕ → Option SlotCommitment
  pub commitment_as_i32 : SlotCommitment → ℕ

-- `SubscribeRequestFilterAccountsFilterLamports`
pub data AccountsFilterLamports : Type 0 where
  eq ne lt gt : ℕ → AccountsFilterLamports

pub data AccountsFilterMemcmpOneof : Type 0 where
  bytes base58 base64 : Bytes → AccountsFilterMemcmpOneof

-- `SubscribeRequestFilterAccountsFilter` is the option of it.
pub data AccountsFilterDataOneof : Type 0 where
  memcmp : ℕ → Option AccountsFilterMemcmpOneof → AccountsFilterDataOneof
  datasize : ℕ → AccountsFilterDataOneof
  token_state : Bool → AccountsFilterDataOneof
  lamports : Option AccountsFilterLamports → AccountsFilterDataOneof

pub record SubscribeRequestFilterAccounts : Type 0 where
  pub account : List Bytes
  pub owner : List Bytes
  pub filters : List (Option AccountsFilterDataOneof)
  pub nonempty_txn_signature : Option Bool

pub record SubscribeRequestFilterTransactions : Type 0 where
  pub vote : Option Bool
  pub failed : Option Bool
  pub signature : Option Bytes
  pub account_include : List Bytes
  pub account_exclude : List Bytes
  pub account_required : List Bytes

pub record SubscribeRequestFilterBlocks : Type 0 where
  pub account_include : List Bytes
  pub include_transactions : Option Bool
  pub include_accounts : Option Bool
  pub include_entries : Option Bool

-- A filter on slots is its one field; filters on entries and on blocks' metadata have none, so the
-- map is the list of its keys.
pub record SubscribeRequest : Type 0 where
  pub slots : List (Bytes × Option Bool)
  pub accounts : List (Bytes × SubscribeRequestFilterAccounts)
  pub accounts_data_slice : List DataSlice
  pub transactions : List (Bytes × SubscribeRequestFilterTransactions)
  pub transactions_status : List (Bytes × SubscribeRequestFilterTransactions)
  pub entry : List Bytes
  pub blocks_meta : List Bytes
  pub blocks : List (Bytes × SubscribeRequestFilterBlocks)
  pub commitment : Option ℕ

module _ {A B : Type 0} (f : A → Converted B) where
  -- `into_iter().map(f).collect::<Result<_, _>>()`
  unfoldable pub convert_all : List A → Converted (List B)
  convert_all [] = converted []
  convert_all (x ∷ xs) = do y ← f x; ys ← convert_all xs; converted (y ∷ ys)

  -- `ConfigFilter::try_conv_map`
  unfoldable pub try_conv_map : List (Bytes × A) → Converted (List (Bytes × B))
  try_conv_map [] = converted []
  try_conv_map ((key, x) ∷ xs) = do y ← f x; ys ← try_conv_map xs; converted ((key, y) ∷ ys)

  -- `map(f).transpose()`
  unfoldable pub transpose : Option A → Converted (Option B)
  transpose none = converted none
  transpose (some x) = do y ← f x; converted (some y)

-- `ConfigFilter::conv_map`
unfoldable pub conv_map : {A B : Type 0} → (A → B) → List (Bytes × A) → List (Bytes × B)
conv_map f [] = []
conv_map f ((key, x) ∷ xs) = (key, f x) ∷ conv_map f xs

unfoldable pub lamports_try_from : Option AccountsFilterLamports → Converted FilterAccountsLamports
lamports_try_from none = refused (field_missing cmp_field)
lamports_try_from (some (eq value)) = converted (equal value)
lamports_try_from (some (ne value)) = converted (not_equal value)
lamports_try_from (some (lt value)) = converted (less value)
lamports_try_from (some (gt value)) = converted (greater value)

unfoldable pub lamports_from : FilterAccountsLamports → Option AccountsFilterLamports
lamports_from (equal value) = some (eq value)
lamports_from (not_equal value) = some (ne value)
lamports_from (less value) = some (lt value)
lamports_from (greater value) = some (gt value)

-- `TryFrom<CommitmentLevelProto> for ConfigFilterCommitment`
unfoldable pub level_try_from : SlotCommitment → Converted CommitmentLevel
level_try_from SlotCommitment.processed = converted CommitmentLevel.processed
level_try_from SlotCommitment.confirmed = converted CommitmentLevel.confirmed
level_try_from SlotCommitment.finalized = converted CommitmentLevel.finalized
level_try_from other = refused (invalid_commitment other)
