-- ===== src/Richat/BlockMeta.antt =====
-- `BlockMetaStorage` of richat/src/grpc/block_meta.rs: the two maps of its work loop, a message or a
-- request being one step. A commitment that a slot message reports is one of those that filters read.
use dragonmouth.Base.{
  ℕ, ◌==◌, ltb, leb, Bool, true, false, List, [], ◌∷◌, Option, none, some, if◌then◌else◌,
}
use dragonmouth.Base.Ring.{wrapping_add}
use dragonmouth.Plugin.Message.{Bytes}
use dragonmouth.Filter.Sets.{bytes_eq}
use dragonmouth.Filter.Slots.{SlotCommitment}

pub record BlockMeta : Type 0 where
  pub slot : ℕ
  pub blockhash : Bytes
  pub block_height : ℕ
  pub processed : Bool
  pub confirmed : Bool
  pub finalized : Bool

pub record BlockStatus : Type 0 where
  pub last_valid_block_height : ℕ
  pub processed : Bool
  pub confirmed : Bool
  pub finalized : Bool

abbrev pub default_block : BlockMeta
default_block = record {
  slot = 0;
  blockhash = [];
  block_height = 0;
  processed = false;
  confirmed = false;
  finalized = false;
}

abbrev pub default_status : BlockStatus
default_status = record {
  last_valid_block_height = 0;
  processed = false;
  confirmed = false;
  finalized = false;
}

-- A map with keys of a type that is compared by `eq`, a key standing in it once.
module _ {K V : Type 0} (eq : K → K → Bool) where
  unfoldable pub lookup : K → List (K × V) → Option V
  lookup k [] = none
  lookup k ((j, v) ∷ m) = let rest = lookup k m in if eq j k then some v else rest

  unfoldable pub put : K → V → List (K × V) → List (K × V)
  put k v [] = (k, v) ∷ []
  put k v ((j, w) ∷ m) = let rest = put k v m in if eq j k then (k, v) ∷ m else (j, w) ∷ rest

unfoldable pub retain : {K V : Type 0} → (K × V → Bool) → List (K × V) → List (K × V)
retain keep [] = []
retain keep (e ∷ m) = let rest = retain keep m in if keep e then e ∷ rest else rest

abbrev pub or_default : {V : Type 0} → V → Option V → V
or_default v none = v
or_default v (some w) = w

-- The variables of the loop.
pub record Storage : Type 0 where
  pub blocks : List (ℕ × BlockMeta)
  pub blockhashes : List (Bytes × BlockStatus)
  pub processed : ℕ
  pub confirmed : ℕ
  pub finalized : ℕ

unfoldable pub entry_of : Storage → ℕ → BlockMeta
entry_of s slot = or_default default_block (lookup (λ a b. a == b) slot s.blocks)

unfoldable pub status_of : Storage → Bytes → BlockStatus
status_of s hash = or_default default_status (lookup bytes_eq hash s.blockhashes)

-- `MAX_PROCESSING_AGE` of the validator's crate.
module _ (max_processing_age : ℕ) where
  unfoldable pub on_confirmed : Storage → ℕ → Storage
  on_confirmed s slot =
      let entry = entry_of s slot in
      record s {
        blocks = put (λ a b. a == b) slot (record entry { confirmed = true }) s.blocks;
        blockhashes =
            put bytes_eq entry.blockhash (record (status_of s entry.blockhash) { confirmed = true })
              s.blockhashes;
        confirmed = slot;
      }

  -- With the cleanup behind it.
  unfoldable pub on_finalized : Storage → ℕ → Storage
  on_finalized s slot =
      let entry = entry_of s slot in
      record s {
        blocks =
            retain (λ e. leb slot e.0)
              (put (λ a b. a == b) slot (record entry { finalized = true }) s.blocks);
        blockhashes =
            retain (λ e. ltb e.1.last_valid_block_height entry.block_height)
              (put bytes_eq entry.blockhash
                (record (status_of s entry.blockhash) { finalized = true }) s.blockhashes);
        finalized = slot;
      }

  unfoldable pub on_slot : Storage → ℕ → SlotCommitment → Storage
  on_slot s slot SlotCommitment.confirmed = on_confirmed s slot
  on_slot s slot SlotCommitment.finalized = on_finalized s slot
  on_slot s slot _ = s

  -- `processed.max(slot)`
  unfoldable pub on_block_meta : Storage → ℕ → Bytes → Option ℕ → Storage
  on_block_meta s slot hash height =
      let entry = entry_of s slot in
      record s {
        blocks =
            put (λ a b. a == b) slot
              (record entry {
                slot = slot;
                blockhash = hash;
                block_height = or_default 0 height;
                processed = true;
              })
              s.blocks;
        blockhashes =
            put bytes_eq hash
              (record (status_of s hash) {
                last_valid_block_height = wrapping_add (or_default 0 height) max_processing_age;
                processed = true;
              })
              s.blockhashes;
        processed = if ltb s.processed slot then slot else s.processed;
      }

-- The slot of a commitment; other levels have none.
unfoldable pub slot_at : Storage → SlotCommitment → Option ℕ
slot_at s SlotCommitment.processed = some s.processed
slot_at s SlotCommitment.confirmed = some s.confirmed
slot_at s SlotCommitment.finalized = some s.finalized
slot_at s _ = none

-- The request `GetBlock`.
unfoldable pub get_block : Storage → SlotCommitment → Option BlockMeta
get_block s commitment = elim (slot_at s commitment) [
  | none ↦ none
  | some slot ↦ lookup (λ a b. a == b) slot s.blocks
]

-- The request `IsBlockhashValid`.
unfoldable pub is_blockhash_valid : Storage → Bytes → SlotCommitment → Option (Bool × ℕ)
is_blockhash_valid s hash commitment = elim (get_block s commitment) [
  | none ↦ none
  | some block ↦ elim (lookup bytes_eq hash s.blockhashes) [
    | none ↦ none
    | some entry ↦ some (ltb block.block_height entry.last_valid_block_height, block.slot)
  ]
]
