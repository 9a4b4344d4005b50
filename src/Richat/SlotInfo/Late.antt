-- ===== src/Richat/SlotInfo/Late.antt =====
-- An update of an account that comes behind a newer one, in `SlotInfo::get_block_message`.
use mathlib.Core.List.{Memᴰ}
use dragonmouth.Base.{◌≤◌, ◌≡◌, refl, sym, ap, ◌∙◌, false, List, [], ◌∷◌, ◌++◌, some, arith, ltb}
use dragonmouth.Plugin.Channel.{ok}
use dragonmouth.Filter.Message.{MessageAccount, Message, account_message}
use dragonmouth.Richat.SlotInfo.{
  SlotInfo, lookup, gather, cons_some, get_account, store_account, store_message,
}
use dragonmouth.Richat.SlotInfo.Gather.{pick, gather-append, gather-Mem}
use dragonmouth.Richat.SlotInfo.Complete.{Collects}

-- Where the messages that came hold an update of the same account that is no older, the late one
-- is kept behind all accounts that were kept, among which there is still one of its key that is no
-- older.
pub store_message-late :
    (seen : List Message) (info : SlotInfo) (n a : MessageAccount)
    → Collects seen info
    → Memᴰ a (pick get_account seen)
    → a.pubkey ≡ n.pubkey
    → n.write_version ≤ a.write_version
    → (info' : SlotInfo) × (store_message info (account_message n) ≡ ok info')
      × (gather get_account info'.messages ≡ gather get_account info.messages ++ (n ∷ []))
      × ((kept : MessageAccount) × Memᴰ kept (gather get_account info.messages)
          × (kept.pubkey ≡ n.pubkey)
          × (n.write_version ≤ kept.write_version))
unfolding store_message store_account gather cons_some get_account
store_message-late seen info n a c came key late =
    let (v, i, found, le) = c.accounts.newest a came in
    let found' : lookup n.pubkey info.accounts_dedup ≡ some (v, i) =
      ap (λ k. lookup k info.accounts_dedup) (sym key) ∙ found in
    let (kept, there, same, version) = c.accounts.indexed n.pubkey v i found' in
    let old : ltb v n.write_version ≡ false = ground arith in
    (
      record info { messages = info.messages ++ (some (account_message n) ∷ []) },
      rw (found', old, store_account) refl,
      gather-append get_account info.messages (some (account_message n) ∷ []),
      (
        kept,
        gather-Mem get_account info.messages i (account_message kept) kept there refl,
        same,
        omega arith,
      ),
    )
