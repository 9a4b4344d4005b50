-- ===== src/Filter/Request/Tests.antt =====
-- A configuration sent and restored, and requests that are refused.
use dragonmouth.Base.{
  ℕ, ◌≡◌, refl, ◌==◌, if◌then◌else◌, true, false, [], ◌∷◌, Option, none, some, arith, replicate,
}
use dragonmouth.Plugin.Message.{Bytes}
use dragonmouth.Filter.Slots.{SlotCommitment, CommitmentLevel}
use dragonmouth.Filter.Accounts.{less, memcmp_filter, data_size, lamports_filter}
use dragonmouth.Filter.Limits.{filter_data_overflow}
use dragonmouth.Filter.Updates.{ConfigFilter}
use dragonmouth.Filter.Request.{
  converted, refused, limits, invalid_commitment, token_account_state_invalid, Texts, memcmp,
  base58, token_state, level_try_from,
}
use dragonmouth.Filter.Request.Convert.{
  filter_try_from, memcmp_data, commitment_try_from, config_try_from, config_from,
}
use dragonmouth.Filter.Request.Restore.{IsFaithful, config_try_from-config_from}

-- Stand for the other crates: a text is the key or the signature itself.
abbrev number_of : SlotCommitment → ℕ
number_of SlotCommitment.processed = 0
number_of SlotCommitment.confirmed = 1
number_of SlotCommitment.finalized = 2
number_of SlotCommitment.first_shred_received = 3
number_of SlotCommitment.completed = 4
number_of SlotCommitment.created_bank = 5
number_of SlotCommitment.dead = 6

abbrev level_at : ℕ → Option SlotCommitment
level_at n =
    if n == 0
    then some SlotCommitment.processed
    else if n == 1
    then some SlotCommitment.confirmed
    else if n == 2
    then some SlotCommitment.finalized
    else if n == 3
    then some SlotCommitment.first_shred_received
    else if n == 4
    then some SlotCommitment.completed
    else if n == 5
    then some SlotCommitment.created_bank
    else if n == 6
    then some SlotCommitment.dead
    else none

abbrev texts : Texts
texts = record {
  parse_pubkey = λ k. some k;
  pubkey_to_string = λ k. k;
  parse_signature = λ s. some s;
  signature_to_string = λ s. s;
  decode_base58 = λ s. some s;
  decode_base64 = λ s. some s;
  level_of_i32 = level_at;
  commitment_as_i32 = number_of;
}

levels : (c : SlotCommitment) → level_at (number_of c) ≡ some c
levels SlotCommitment.processed = refl
levels SlotCommitment.confirmed = refl
levels SlotCommitment.finalized = refl
levels SlotCommitment.first_shred_received = refl
levels SlotCommitment.completed = refl
levels SlotCommitment.created_bank = refl
levels SlotCommitment.dead = refl

texts-IsFaithful : IsFaithful texts
texts-IsFaithful = record { pubkeys = λ k h. refl; signatures = λ s h. refl; levels = levels }

abbrev key : ℕ → Bytes
key n = replicate 32 n

abbrev config : ConfigFilter
config = record {
  slots = (1 ∷ [], some true) ∷ [];
  accounts =
      (
        2 ∷ [],
        record {
          account = key 1 ∷ [];
          owner = key 2 ∷ key 3 ∷ [];
          filters = memcmp_filter 1 (7 ∷ 8 ∷ []) ∷ data_size 4 ∷ lamports_filter (less 100) ∷ [];
          nonempty_txn_signature = some true;
        },
      )
      ∷ [];
  accounts_data_slice = record { offset = 1; length = 2 } ∷ [];
  transactions =
      (
        4 ∷ [],
        record {
          vote = some true;
          failed = none;
          signature = some (replicate 64 9);
          account_include = key 1 ∷ [];
          account_exclude = [];
          account_required = key 3 ∷ [];
        },
      )
      ∷ [];
  transactions_status = [];
  entries = (6 ∷ []) ∷ [];
  blocks_meta = [];
  blocks =
      (
        1 ∷ [],
        record {
          account_include = key 3 ∷ [];
          include_transactions = none;
          include_accounts = some true;
          include_entries = some false;
        },
      )
      ∷ [];
  commitment = some CommitmentLevel.confirmed;
}

config_try_from-config_from_example :
    config_try_from texts (config_from texts config) ≡ converted config
config_try_from-config_from_example =
    config_try_from-config_from texts texts-IsFaithful config
      (((refl, tt), (refl, (refl, tt)), omega arith, (omega arith, (tt, (tt, tt)))), tt)
      ((refl, (refl, tt), tt, (refl, tt)), tt) tt ((refl, tt), tt)

-- A text of 176 characters is refused before it is decoded.
long_text :
    filter_try_from texts (some (memcmp 0 (some (base58 (replicate 176 1)))))
    ≡ refused (limits filter_data_overflow)
unfolding filter_try_from memcmp_data
long_text = refl

no_state : filter_try_from texts (some (token_state false)) ≡ refused token_account_state_invalid
unfolding filter_try_from
no_state = refl

dead_level : commitment_try_from texts 6 ≡ refused (invalid_commitment SlotCommitment.dead)
unfolding commitment_try_from level_try_from
dead_level = refl
