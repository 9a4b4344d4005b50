-- ===== src/Richat/Blockhash.antt =====
-- What the block metadata storage of richat/src/grpc/block_meta.rs answers after a message.
use dragonmouth.Base.{
  ℕ, ◌+◌, ◌^◌, ◌≤◌, ◌<◌, ◌==◌, ==_iff, ltb, leb, lt→ltb, ◌≡◌, refl, sym, ap, ◌∙◌, inl, inr, Bool,
  true, false, List, [], ◌∷◌, Option, none, some, if◌then◌else◌, Bool-cases, arith,
}
use dragonmouth.Base.Ring.{wrapping_add}
use dragonmouth.Plugin.Message.{Bytes}
use dragonmouth.Filter.Sets.{bytes_eq, bytes_eq_self}
use dragonmouth.Filter.Slots.{SlotCommitment}
use dragonmouth.Richat.BlockMeta.{
  BlockMeta, BlockStatus, lookup, put, retain, Storage, entry_of, status_of, on_finalized,
  on_block_meta, slot_at, get_block, is_blockhash_valid,
}

module _ {K V : Type 0} (eq : K → K → Bool) where
  lookup-put :
      ((k : K) → eq k k ≡ true)
      → (k : K) (v : V) (m : List (K × V)) → lookup eq k (put eq k v m) ≡ some v
  unfolding lookup put
  lookup-put same k v [] = rw (same k) refl
  lookup-put same k v ((j, w) ∷ m) = elim (Bool-cases (eq j k)) [
    | inl e ↦ rw (e, same k) refl
    | inr e ↦ rw e (rw (lookup, e) (lookup-put same k v m))
  ]

  -- No key stands twice in the map.
  unfoldable pub IsDistinct : List (K × V) → Type 0
  IsDistinct [] = Unit
  IsDistinct ((k, v) ∷ m) = (lookup eq k m ≡ none) × IsDistinct m

  -- What a cleanup leaves of an entry, by a test on its value.
  unfoldable left_of : (V → Bool) → Option V → Option V
  left_of keep none = none
  left_of keep (some v) = if keep v then some v else none

-- An entry that the test on keys lets through is found behind `retain` as before.
lookup-retain_key :
    {V : Type 0} (keep : ℕ → Bool) (k : ℕ) (m : List (ℕ × V))
    → keep k ≡ true
    → lookup (λ a b. a == b) k (retain (λ e. keep e.0) m) ≡ lookup (λ a b. a == b) k m
unfolding lookup retain
lookup-retain_key keep k [] h = refl
lookup-retain_key keep k ((j, w) ∷ m) h = elim (Bool-cases (keep j)) [
  | inl f ↦ rw f (ap (λ o. if j == k then some w else o) (lookup-retain_key keep k m h))
  | inr f ↦ rw f (lookup-retain_key keep k m h ∙ sym (skip f))
]
  where
    differ : keep j ≡ false → (j == k) ≡ false
    differ f = elim (Bool-cases (j == k)) [
      | inr g ↦ g
      | inl g ↦ absurd (ground (arith, f, h, ap keep ((==_iff j k).0 g)))
    ]

    skip :
        keep j ≡ false
        → (if j == k then some w else lookup (λ a b. a == b) k m) ≡ lookup (λ a b. a == b) k m
    skip f = ap (λ b. if b then some w else lookup (λ a b. a == b) k m) (differ f)

nat_same : (k : ℕ) → (k == k) ≡ true
nat_same k = ground arith

-- The finalized block is what a request for it then gets.
pub get_block-on_finalized :
    (age : ℕ) (s : Storage) (slot : ℕ)
    → get_block (on_finalized age s slot) SlotCommitment.finalized
      ≡ some (record (entry_of s slot) { finalized = true })
unfolding get_block slot_at on_finalized
get_block-on_finalized age s slot =
    lookup-retain_key (λ k. leb slot k) slot
      (put (λ a b. a == b) slot (record (entry_of s slot) { finalized = true }) s.blocks)
      (ground arith)
    ∙ lookup-put (λ a b. a == b) nat_same slot (record (entry_of s slot) { finalized = true })
        s.blocks

answer : BlockMeta → Option BlockStatus → Option (Bool × ℕ)
answer block none = none
answer block (some entry) = some (ltb block.block_height entry.last_valid_block_height, block.slot)

is_blockhash_valid-answer :
    (s : Storage) (hash : Bytes) (commitment : SlotCommitment) (block : BlockMeta)
    (o : Option BlockStatus)
    → get_block s commitment ≡ some block
    → lookup bytes_eq hash s.blockhashes ≡ o
    → is_blockhash_valid s hash commitment ≡ answer block o
unfolding is_blockhash_valid answer
is_blockhash_valid-answer s hash commitment block none e f = rw (is_blockhash_valid, e, f) refl
is_blockhash_valid-answer s hash commitment block (some b) e f = rw (is_blockhash_valid, e, f) refl

-- What is known of a hash when a slot is finalized: the block of that slot marks its own hash, which
-- gets a new status if there is none.
abbrev pub known : Storage → ℕ → Bytes → Option BlockStatus
known s slot hash =
    if bytes_eq (entry_of s slot).blockhash hash
    then some (status_of s (entry_of s slot).blockhash)
    else lookup bytes_eq hash s.blockhashes

-- No, where the hash has expired at the height of the block, and nothing where it has not.
abbrev pub only_expired : BlockMeta → Option BlockStatus → Option (Bool × ℕ)
only_expired block none = none
only_expired block (some status) =
    if ltb status.last_valid_block_height block.block_height then some (false, block.slot) else none

-- A block's own hash is valid as soon as its metadata is there, at the commitment processed, if no
-- later slot was processed and the last valid height does not come round.
pub is_blockhash_valid-on_block_meta :
    (age : ℕ) (s : Storage) (slot : ℕ) (hash : Bytes) (height : ℕ)
    → 0 < age
    → height + age < 2 ^ 64
    → s.processed ≤ slot
    → is_blockhash_valid (on_block_meta age s slot hash (some height)) hash SlotCommitment.processed
      ≡ some (true, slot)
unfolding answer on_block_meta get_block slot_at
is_blockhash_valid-on_block_meta age s slot hash height pos small le =
    is_blockhash_valid-answer (on_block_meta age s slot hash (some height)) hash
      SlotCommitment.processed block (some status)
      (ap (λ k. lookup (λ a b. a == b) k (put (λ a b. a == b) slot block s.blocks)) latest
        ∙ lookup-put (λ a b. a == b) nat_same slot block s.blocks)
      (lookup-put bytes_eq bytes_eq_self hash status s.blockhashes)
    ∙ ap (λ b. some (b, slot)) in_time
  where
    block : BlockMeta
    block = record (entry_of s slot) {
      slot = slot;
      blockhash = hash;
      block_height = height;
      processed = true;
    }

    status : BlockStatus
    status = record (status_of s hash) {
      last_valid_block_height = wrapping_add height age;
      processed = true;
    }

    latest : (if ltb s.processed slot then slot else s.processed) ≡ slot
    latest = ground (arith, le)

    in_time : ltb height (wrapping_add height age) ≡ true
    in_time = lt→ltb height (wrapping_add height age) (omega (arith, pos, small))
