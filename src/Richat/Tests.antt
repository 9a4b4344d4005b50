-- ===== src/Richat/Tests.antt =====
-- The block metadata storage at concrete messages.
use dragonmouth.Base.{◌≡◌, refl, true, false, [], ◌∷◌, none, some}
use dragonmouth.Filter.Sets.{bytes_eq}
use dragonmouth.Filter.Slots.{SlotCommitment}
use dragonmouth.Richat.BlockMeta.{
  Storage, lookup, put, retain, entry_of, status_of, on_confirmed, on_finalized, on_slot,
  on_block_meta, slot_at, get_block, is_blockhash_valid,
}

abbrev start : Storage
start = record { blocks = []; blockhashes = []; processed = 0; confirmed = 0; finalized = 0 }

-- Two blocks at the heights 50 and 300.
abbrev two_blocks : Storage
two_blocks = on_block_meta 150 (on_block_meta 150 start 7 (1 ∷ []) (some 50)) 9 (2 ∷ []) (some 300)

-- After the second is finalized the expired hash of the first is kept, and its own is dropped.
kept_expired :
    is_blockhash_valid (on_finalized 150 two_blocks 9) (1 ∷ []) SlotCommitment.finalized
    ≡ some (false, 9)
unfolding is_blockhash_valid get_block slot_at on_finalized on_block_meta lookup put retain entry_of
    status_of bytes_eq
kept_expired = refl

dropped_valid :
    is_blockhash_valid (on_finalized 150 two_blocks 9) (2 ∷ []) SlotCommitment.finalized ≡ none
unfolding is_blockhash_valid get_block slot_at on_finalized on_block_meta lookup put retain entry_of
    status_of bytes_eq
dropped_valid = refl

slot_confirmed :
    get_block (on_slot 150 two_blocks 7 SlotCommitment.confirmed) SlotCommitment.confirmed
    ≡ some (record (entry_of two_blocks 7) { confirmed = true })
unfolding get_block slot_at on_slot on_confirmed on_block_meta lookup put entry_of
slot_confirmed = refl
