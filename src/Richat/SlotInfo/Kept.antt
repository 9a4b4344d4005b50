-- ===== src/Richat/SlotInfo/Kept.antt =====
-- The second `match` of `SlotInfo::get_block_message`, which stores a message.
use dragonmouth.Base.{
  ℕ, ◌+◌, ◌≡◌, refl, sym, ap, ◌∙◌, inl, inr, true, false, List, [], ◌∷◌, ◌++◌, append-nil, Option,
  none, some, length, length-append, get_elem?, set, arith, ltb, Bool-cases, Option-cases,
}
use dragonmouth.Plugin.Channel.{ok}
use dragonmouth.Filter.Message.{
  MessageAccount, Message, slot_message, account_message, transaction_message, entry_message,
  block_meta_message, block_message,
}
use dragonmouth.Richat.SlotInfo.{
  SlotInfo, lookup, gather, cons_some, get_account, get_transaction, get_entry, clear_at,
  store_account, store_message,
}
use dragonmouth.Richat.SlotInfo.Gather.{
  pick, pick-append, gather-append, gather-set, get_elem?-append_left,
}
use dragonmouth.Richat.SlotInfo.Stored.{
  Accounts, Accounts-skip, Accounts-keep, Accounts-stale, Accounts-first, Accounts-newer,
}
use dragonmouth.Richat.SlotInfo.Complete.{
  NotBlock, get_meta, last_meta, last_meta-append, last_of, Collects,
}

module _ {A : Type 0} (f : Message → Option A) (messages : List (Option Message))
    (seen : List Message) (m : Message) (same : gather f messages ≡ pick f seen) where
  kept_both : gather f (messages ++ (some m ∷ [])) ≡ pick f (seen ++ (m ∷ []))
  unfolding gather pick
  kept_both =
      gather-append f messages (some m ∷ [])
      ∙ ap (λ l. l ++ cons_some (f m) []) same
      ∙ sym (pick-append f seen (m ∷ []))

pick-none :
    {A : Type 0} (f : Message → Option A) (seen : List Message) (m : Message)
    → f m ≡ none
    → pick f (seen ++ (m ∷ [])) ≡ pick f seen
unfolding pick cons_some
pick-none f seen m e =
    pick-append f seen (m ∷ [])
    ∙ ap (λ o. pick f seen ++ cons_some o []) e
    ∙ append-nil (pick f seen)

length-pick-some :
    {A : Type 0} (f : Message → Option A) (seen : List Message) (m : Message) (a : A)
    → f m ≡ some a
    → length (pick f (seen ++ (m ∷ []))) ≡ length (pick f seen) + 1
unfolding pick cons_some
length-pick-some f seen m a e =
    ap length (pick-append f seen (m ∷ []) ∙ ap (λ o. pick f seen ++ cons_some o []) e)
    ∙ length-append (pick f seen) (a ∷ [])

last_meta-none :
    (seen : List Message) (m : Message)
    → get_meta m ≡ none
    → last_meta (seen ++ (m ∷ [])) ≡ last_meta seen
unfolding last_meta
last_meta-none seen m e = last_meta-append seen (m ∷ []) ∙ ap (λ o. last_of (last_meta seen) o) e

abbrev pub Stores : List Message → SlotInfo → Message → Type 0
Stores seen info m =
    (info' : SlotInfo) × (store_message info m ≡ ok info') × Collects (seen ++ (m ∷ [])) info'

-- A message of an account, by the ways in which its key is found.
module _ (seen : List Message) (info : SlotInfo) (n : MessageAccount) (c : Collects seen info) where
  abbrev appended : List (Option Message)
  appended = info.messages ++ (some (account_message n) ∷ [])

  account_fields :
      (messages : List (Option Message)) (dedup : List (List ℕ × (ℕ × ℕ)))
      → gather get_transaction messages ≡ gather get_transaction appended
      → gather get_entry messages ≡ gather get_entry appended
      → Accounts (seen ++ (account_message n ∷ [])) messages dedup
      → Collects
          (seen ++ (account_message n ∷ []))
          (record info { messages = messages; accounts_dedup = dedup })
  unfolding get_transaction get_entry get_meta
  account_fields messages dedup tx en accounts = record {
    transactions =
        tx ∙ kept_both get_transaction info.messages seen (account_message n) c.transactions;
    entries = en ∙ kept_both get_entry info.messages seen (account_message n) c.entries;
    transactions_count =
        c.transactions_count
        ∙ ap length (sym (pick-none get_transaction seen (account_message n) refl));
    entries_count =
        c.entries_count ∙ ap length (sym (pick-none get_entry seen (account_message n) refl));
    meta = c.meta ∙ sym (last_meta-none seen (account_message n) refl);
    accounts = accounts;
    uncreated = c.uncreated;
  }

  store_account-first :
      lookup n.pubkey info.accounts_dedup ≡ none → Stores seen info (account_message n)
  unfolding store_message store_account
  store_account-first e = (
    _,
    rw (e, store_account) refl,
    account_fields appended _ refl refl
        (Accounts-first seen info.messages info.accounts_dedup n c.accounts e),
  )

  store_account-stale :
      (v i : ℕ)
      → lookup n.pubkey info.accounts_dedup ≡ some (v, i)
      → ltb v n.write_version ≡ false
      → Stores seen info (account_message n)
  unfolding store_message store_account
  store_account-stale v i e old = (
    _,
    rw (e, old, store_account) refl,
    account_fields appended _ refl refl
        (Accounts-stale seen info.messages info.accounts_dedup n c.accounts v i e (ground arith)),
  )

  store_account-newer :
      (v i : ℕ)
      → lookup n.pubkey info.accounts_dedup ≡ some (v, i)
      → ltb v n.write_version ≡ true
      → Stores seen info (account_message n)
  unfolding store_message store_account clear_at get_transaction get_entry
  store_account-newer v i e new =
      let at = c.accounts.indexed n.pubkey v i e in
      let found : get_elem? appended i ≡ some (some (account_message at.0)) =
        get_elem?-append_left info.messages (some (account_message n) ∷ []) i at.1 in
      (
        _,
        rw (e, new, found, clear_at, store_account) refl,
        account_fields (set appended i none) _
            (gather-set get_transaction appended i (account_message at.0) found refl)
            (gather-set get_entry appended i (account_message at.0) found refl)
            (Accounts-newer seen info.messages info.accounts_dedup n c.accounts v i e
              (ground arith)),
      )

pub store_message-Collects :
    (seen : List Message) (info : SlotInfo) (m : Message)
    → NotBlock m
    → Collects seen info
    → Stores seen info m
unfolding store_message get_transaction get_entry get_account get_meta last_meta
store_message-Collects seen info (account_message n) _ c =
    elim (Option-cases (lookup n.pubkey info.accounts_dedup)) [
      | inl e ↦ store_account-first seen info n c e
      | inr ((v, i), e) ↦ elim (Bool-cases (ltb v n.write_version)) [
        | inl new ↦ store_account-newer seen info n c v i e new
        | inr old ↦ store_account-stale seen info n c v i e old
      ]
    ]
store_message-Collects seen info (slot_message n) _ c = (
  info,
  refl,
  record {
    transactions = c.transactions ∙ sym (pick-none get_transaction seen (slot_message n) refl);
    entries = c.entries ∙ sym (pick-none get_entry seen (slot_message n) refl);
    transactions_count =
        c.transactions_count
        ∙ ap length (sym (pick-none get_transaction seen (slot_message n) refl));
    entries_count =
        c.entries_count ∙ ap length (sym (pick-none get_entry seen (slot_message n) refl));
    meta = c.meta ∙ sym (last_meta-none seen (slot_message n) refl);
    accounts =
        Accounts-skip seen info.messages info.accounts_dedup (slot_message n) c.accounts refl;
    uncreated = c.uncreated;
  },
)
store_message-Collects seen info (transaction_message n) _ c = (
  _,
  refl,
  record {
    transactions =
        kept_both get_transaction info.messages seen (transaction_message n) c.transactions;
    entries = kept_both get_entry info.messages seen (transaction_message n) c.entries;
    transactions_count =
        ap (λ k. k + 1) c.transactions_count
        ∙ sym (length-pick-some get_transaction seen (transaction_message n) n refl);
    entries_count =
        c.entries_count ∙ ap length (sym (pick-none get_entry seen (transaction_message n) refl));
    meta = c.meta ∙ sym (last_meta-none seen (transaction_message n) refl);
    accounts =
        Accounts-keep seen info.messages info.accounts_dedup (transaction_message n) c.accounts
          refl;
    uncreated = c.uncreated;
  },
)
store_message-Collects seen info (entry_message n) _ c = (
  _,
  refl,
  record {
    transactions = kept_both get_transaction info.messages seen (entry_message n) c.transactions;
    entries = kept_both get_entry info.messages seen (entry_message n) c.entries;
    transactions_count =
        c.transactions_count
        ∙ ap length (sym (pick-none get_transaction seen (entry_message n) refl));
    entries_count =
        ap (λ k. k + 1) c.entries_count
        ∙ sym (length-pick-some get_entry seen (entry_message n) n refl);
    meta = c.meta ∙ sym (last_meta-none seen (entry_message n) refl);
    accounts =
        Accounts-keep seen info.messages info.accounts_dedup (entry_message n) c.accounts refl;
    uncreated = c.uncreated;
  },
)
store_message-Collects seen info (block_meta_message n) _ c = (
  _,
  refl,
  record {
    transactions =
        kept_both get_transaction info.messages seen (block_meta_message n) c.transactions;
    entries = kept_both get_entry info.messages seen (block_meta_message n) c.entries;
    transactions_count =
        c.transactions_count
        ∙ ap length (sym (pick-none get_transaction seen (block_meta_message n) refl));
    entries_count =
        c.entries_count ∙ ap length (sym (pick-none get_entry seen (block_meta_message n) refl));
    meta = sym (last_meta-append seen (block_meta_message n ∷ []));
    accounts =
        Accounts-keep seen info.messages info.accounts_dedup (block_meta_message n) c.accounts refl;
    uncreated = c.uncreated;
  },
)
store_message-Collects seen info (block_message n) nb c = absurd nb
