-- ===== src/Plugin/Transaction.antt =====
-- What the plugin reads of `ReplicaTransactionInfoV2` and of the records below it, which are the
-- validator's, in the form in which plugin-agave/src/protobuf/encoding/transaction.rs reads them.
use dragonmouth.Base.{ℕ, ◌≡◌, length, List, Option, Bool}
use dragonmouth.Plugin.Message.{Bytes, Reward}

-- `[u8; n]`.
pub record Array (n : ℕ) : Type 0 where
  pub as_ref : Bytes
  pub size : length as_ref ≡ n

abbrev pub Signature : Type 0
Signature = Array 64

abbrev pub Pubkey : Type 0
Pubkey = Array 32

pub record MessageHeader : Type 0 where
  pub num_required_signatures : ℕ
  pub num_readonly_signed_accounts : ℕ
  pub num_readonly_unsigned_accounts : ℕ

pub record CompiledInstruction : Type 0 where
  pub program_id_index : ℕ
  pub accounts : Bytes
  pub contents : Bytes

pub record AddressTableLookup : Type 0 where
  pub account_key : Pubkey
  pub writable_indexes : Bytes
  pub readonly_indexes : Bytes

-- The fields that a legacy message and one of version 0 share.
pub record MessageBody : Type 0 where
  pub header : MessageHeader
  pub account_keys : List Pubkey
  pub recent_blockhash : Array 32
  pub instructions : List CompiledInstruction

pub data SanitizedMessage : Type 0 where
  legacy : MessageBody → SanitizedMessage
  v0 : MessageBody → List AddressTableLookup → SanitizedMessage

pub record SanitizedTransaction : Type 0 where
  pub signatures : List Signature
  pub contents : SanitizedMessage

pub record InnerInstruction : Type 0 where
  pub instruction : CompiledInstruction
  pub stack_height : Option ℕ

pub record InnerInstructions : Type 0 where
  pub index : ℕ
  pub instructions : List InnerInstruction

-- `ui_amount` is the bit pattern of a floating-point number.
pub record UiTokenAmount : Type 0 where
  pub ui_amount : Option ℕ
  pub decimals : ℕ
  pub amount : Bytes
  pub ui_amount_string : Bytes

pub record TokenBalance : Type 0 where
  pub account_index : ℕ
  pub mint : Bytes
  pub ui_token_amount : UiTokenAmount
  pub owner : Bytes
  pub program_id : Bytes

pub record ReturnData : Type 0 where
  pub program_id : Pubkey
  pub contents : Bytes

-- `err` is the error of `status`, over the type of `TransactionError`.
pub record StatusMeta (E : Type 0) : Type 0 where
  pub err : Option E
  pub fee : ℕ
  pub pre_balances : List ℕ
  pub post_balances : List ℕ
  pub inner_instructions : Option (List InnerInstructions)
  pub log_messages : Option (List Bytes)
  pub pre_token_balances : Option (List TokenBalance)
  pub post_token_balances : Option (List TokenBalance)
  pub rewards : Option (List Reward)
  pub writable : List Pubkey
  pub readonly : List Pubkey
  pub return_data : Option ReturnData
  pub compute_units_consumed : Option ℕ

pub record TransactionInfo (E : Type 0) : Type 0 where
  pub signature : Signature
  pub is_vote : Bool
  pub transaction : SanitizedTransaction
  pub status_meta : StatusMeta E
  pub index : ℕ
