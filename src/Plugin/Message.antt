-- ===== src/Plugin/Message.antt =====
-- The messages of the plugin: `ProtobufMessage` of plugin-agave/src/protobuf/message.rs and
-- `PluginNotification` of plugin-agave/src/plugin.rs. Of the validator's records the fields are
-- kept that the plugin reads; a byte string or text is the list of its bytes, and a number of 64
-- bits, signed or floating, is its bit pattern.
use dragonmouth.Base.{ℕ, List, Option, Bool, true, false}

abbrev pub Bytes : Type 0
Bytes = List ℕ

-- `SlotStatus` of the validator's plugin interface.
pub data SlotStatus : Type 0 where
  processed rooted confirmed first_shred_received completed created_bank : SlotStatus
  dead : Bytes → SlotStatus

pub data PluginNotification : Type 0 where
  slot account transaction entry block_meta : PluginNotification

-- `ReplicaAccountInfoV3`; `txn` is the signature of the transaction.
pub record AccountInfo : Type 0 where
  pub pubkey : Bytes
  pub lamports : ℕ
  pub owner : Bytes
  pub executable : Bool
  pub rent_epoch : ℕ
  pub contents : Bytes
  pub write_version : ℕ
  pub txn : Option Bytes

-- `ReplicaEntryInfoV2`.
pub record EntryInfo : Type 0 where
  pub slot : ℕ
  pub index : ℕ
  pub num_hashes : ℕ
  pub hash : Bytes
  pub executed_transaction_count : ℕ
  pub starting_transaction_index : ℕ

pub data RewardType : Type 0 where
  fee rent staking voting : RewardType

-- `Reward` of the transaction status crate.
pub record Reward : Type 0 where
  pub pubkey : Bytes
  pub lamports : ℕ
  pub post_balance : ℕ
  pub reward_type : Option RewardType
  pub commission : Option ℕ

-- `ReplicaBlockInfoV4`, with the fields of its `RewardsAndNumPartitions`.
pub record BlockInfo : Type 0 where
  pub parent_slot : ℕ
  pub parent_blockhash : Bytes
  pub slot : ℕ
  pub blockhash : Bytes
  pub rewards : List Reward
  pub num_partitions : Option ℕ
  pub block_time : Option ℕ
  pub block_height : Option ℕ
  pub executed_transaction_count : ℕ
  pub entry_count : ℕ

-- `ProtobufMessage`, over the type of `ReplicaTransactionInfoV2`.
pub data ProtobufMessage (T : Type 0) : Type 0 where
  account_message : ℕ → AccountInfo → ProtobufMessage T
  slot_message : ℕ → Option ℕ → SlotStatus → ProtobufMessage T
  transaction_message : ℕ → T → ProtobufMessage T
  entry_message : EntryInfo → ProtobufMessage T
  block_meta_message : BlockInfo → ProtobufMessage T

module _ {T : Type 0} where
  unfoldable pub get_plugin_notification : ProtobufMessage T → PluginNotification
  get_plugin_notification (account_message s a) = PluginNotification.account
  get_plugin_notification (slot_message s p t) = PluginNotification.slot
  get_plugin_notification (transaction_message s t) = PluginNotification.transaction
  get_plugin_notification (entry_message e) = PluginNotification.entry
  get_plugin_notification (block_meta_message b) = PluginNotification.block_meta

  unfoldable pub get_slot : ProtobufMessage T → ℕ
  get_slot (account_message s a) = s
  get_slot (slot_message s p t) = s
  get_slot (transaction_message s t) = s
  get_slot (entry_message e) = e.slot
  get_slot (block_meta_message b) = b.slot

-- `*status == SlotStatus::Confirmed`, and `Rooted`.
unfoldable pub is_confirmed : SlotStatus → Bool
is_confirmed confirmed = true
is_confirmed _ = false

unfoldable pub is_rooted : SlotStatus → Bool
is_rooted rooted = true
is_rooted _ = false
