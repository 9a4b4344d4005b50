-- ===== src/Filter/Blocks.antt =====
-- `FilterBlocks` of filter/src/filter.rs: which accounts and transactions of a block an update has.
use dragonmouth.Base.{
  ℕ, suc, Bool, true, false, not, ◌&&◌, List, [], ◌∷◌, Option, some, if◌then◌else◌, is_empty, map,
  replicate,
}
use dragonmouth.Plugin.Message.{Bytes}
use dragonmouth.Filter.Sets.{contains, intersects}
use dragonmouth.Filter.Message.{MessageAccount, MessageTransaction, MessageBlock}

pub record FilterBlocksInner : Type 0 where
  pub account_include : List Bytes
  pub include_transactions : Option Bool
  pub include_accounts : Option Bool
  pub include_entries : Option Bool

-- `FilteredUpdate` with the type `Block`.
pub record BlockUpdate : Type 0 where
  pub filters : List Bytes
  pub accounts : List ℕ
  pub transactions : List ℕ
  pub entries : Bool

-- `iter().enumerate().filter_map(…)`, from a first index on.
unfoldable pub indices : {A : Type 0} → (A → Bool) → ℕ → List A → List ℕ
indices keep i [] = []
indices keep i (x ∷ xs) = let rest = indices keep (suc i) xs in if keep x then i ∷ rest else rest

abbrev pub is_true : Option Bool → Bool
is_true (some true) = true
is_true _ = false

abbrev pub is_none_or_true : Option Bool → Bool
is_none_or_true (some false) = false
is_none_or_true _ = true

unfoldable pub keeps_account : FilterBlocksInner → MessageAccount → Bool
keeps_account filter account =
    not (
      not (is_empty filter.account_include) && not (contains filter.account_include account.pubkey))

unfoldable pub keeps_transaction : FilterBlocksInner → MessageTransaction → Bool
keeps_transaction filter tx = not (
    not (is_empty filter.account_include)
    && not (intersects filter.account_include tx.account_keys))

-- The closure of `get_updates`. `smallvec_inline![name; 8]` is eight copies of the name.
unfoldable pub block_update : Bytes × FilterBlocksInner → MessageBlock → BlockUpdate
block_update (name, filter) message = record {
  filters = replicate 8 name;
  accounts =
      if is_true filter.include_accounts
      then indices (keeps_account filter) 0 message.accounts
      else [];
  transactions =
      if is_none_or_true filter.include_transactions
      then indices (keeps_transaction filter) 0 message.transactions
      else [];
  entries = is_true filter.include_entries;
}

unfoldable pub blocks_get_updates :
    List (Bytes × FilterBlocksInner) → MessageBlock → List BlockUpdate
blocks_get_updates filters message = map (λ f. block_update f message) filters
