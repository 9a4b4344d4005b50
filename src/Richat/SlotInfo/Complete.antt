-- ===== src/Richat/SlotInfo/Complete.antt =====
-- What a `SlotInfo` of richat/src/channel.rs says of the messages of its slot, and when these are
-- complete.
use dragonmouth.Base.{
  ℕ, ◌≡◌, refl, ap, ◌∙◌, Bool, true, false, List, [], ◌∷◌, ◌++◌, Option, none, some, length,
  if◌then◌else◌,
}
use dragonmouth.Filter.Message.{
  MessageBlockMeta, Message, slot_message, account_message, transaction_message, entry_message,
  block_meta_message, block_message,
}
use dragonmouth.Richat.SlotInfo.{
  SlotInfo, slot_info_new, gather, get_transaction, get_entry, mark_landed, lands, counts_match,
}
use dragonmouth.Richat.SlotInfo.Gather.{pick}
use dragonmouth.Richat.SlotInfo.Stored.{Accounts, Accounts-nil}

abbrev pub NotBlock : Message → Type 0
NotBlock (block_message m) = ⊥
NotBlock _ = Unit

unfoldable pub get_meta : Message → Option MessageBlockMeta
get_meta (block_meta_message m) = some m
get_meta _ = none

-- The last block metadata among the messages.
abbrev pub last_of : Option MessageBlockMeta → Option MessageBlockMeta → Option MessageBlockMeta
last_of o none = o
last_of o (some m) = some m

unfoldable pub last_meta : List Message → Option MessageBlockMeta
last_meta [] = none
last_meta (m ∷ ms) = last_of (get_meta m) (last_meta ms)

last_of_assoc :
    (a b c : Option MessageBlockMeta) → last_of a (last_of b c) ≡ last_of (last_of a b) c
last_of_assoc a b none = refl
last_of_assoc a b (some m) = refl

pub last_meta-append :
    (xs ys : List Message) → last_meta (xs ++ ys) ≡ last_of (last_meta xs) (last_meta ys)
unfolding last_meta
last_meta-append [] ys = nil (last_meta ys)
  where
    nil : (o : Option MessageBlockMeta) → o ≡ last_of none o
    nil none = refl
    nil (some m) = refl
last_meta-append (m ∷ xs) ys =
    ap (last_of (get_meta m)) (last_meta-append xs ys)
    ∙ last_of_assoc (get_meta m) (last_meta xs) (last_meta ys)

-- Are these all the messages of the slot, by the counts of the last metadata?
abbrev pub complete_by : Option MessageBlockMeta → ℕ → ℕ → Bool
complete_by none transactions entries = false
complete_by (some meta) transactions entries = counts_match meta transactions entries

unfoldable pub is_complete : List Message → Bool
is_complete seen =
    complete_by (last_meta seen) (length (pick get_transaction seen)) (length (pick get_entry seen))

-- The shortest beginning of `ms`, behind `seen`, that is complete.
unfoldable pub first_complete : List Message → List Message → Option (List Message)
first_complete seen [] = none
first_complete seen (m ∷ ms) =
    let later = first_complete (seen ++ (m ∷ [])) ms in
    if is_complete (seen ++ (m ∷ [])) then some (seen ++ (m ∷ [])) else later

-- What `SlotInfo` says of the messages that came.
pub record Collects (seen : List Message) (info : SlotInfo) : Type 0 where
  pub transactions : gather get_transaction info.messages ≡ pick get_transaction seen
  pub entries : gather get_entry info.messages ≡ pick get_entry seen
  pub transactions_count : info.transactions_count ≡ length (pick get_transaction seen)
  pub entries_count : info.entries_count ≡ length (pick get_entry seen)
  pub meta : info.block_meta ≡ last_meta seen
  pub accounts : Accounts seen info.messages info.accounts_dedup
  pub uncreated : info.block_created ≡ false

pub slot_info_new-Collects : (slot : ℕ) → Collects [] (slot_info_new slot)
unfolding slot_info_new gather pick last_meta
slot_info_new-Collects slot = record {
  transactions = refl;
  entries = refl;
  transactions_count = refl;
  entries_count = refl;
  meta = refl;
  accounts = Accounts-nil;
  uncreated = refl;
}

pub mark_landed-Collects :
    (seen : List Message) (info : SlotInfo) (m : Message)
    → Collects seen info
    → Collects seen (mark_landed info m)
unfolding mark_landed
mark_landed-Collects seen info (slot_message m) c = by_level (lands m.commitment)
  where
    by_level : (b : Bool) → Collects seen (if b then record info { landed = true } else info)
    by_level true = record {
      transactions = c.transactions;
      entries = c.entries;
      transactions_count = c.transactions_count;
      entries_count = c.entries_count;
      meta = c.meta;
      accounts = c.accounts;
      uncreated = c.uncreated;
    }
    by_level false = c
mark_landed-Collects seen info (account_message m) c = c
mark_landed-Collects seen info (transaction_message m) c = c
mark_landed-Collects seen info (entry_message m) c = c
mark_landed-Collects seen info (block_meta_message m) c = c
mark_landed-Collects seen info (block_message m) c = c
