-- ===== src/Filter/Total.antt =====
-- That a filter within its limits finds the updates of every message, filter/src/filter.rs.
use dragonmouth.Base.{
  ◌≡◌, refl, sym, subst, ap, ◌∙◌, Bool, false, List, [], ◌∷◌, ◌++◌, Option, none, some, map, All,
  is_empty,
}
use dragonmouth.Plugin.Message.{Bytes}
use dragonmouth.Filter.Message.{MessageAccount, MessageBlock}
use dragonmouth.Filter.Sets.{nonempty}
use dragonmouth.Filter.Selects.{Taken}
use dragonmouth.Filter.Accounts.{FilterAccountsInner, accounts_new, accounts_get_update}
use dragonmouth.Filter.AccountUpdates.{Accepts, IsCompilable, accounts_get_update-Taken}
use dragonmouth.Filter.Transactions.{transactions_get_update}
use dragonmouth.Filter.TransactionUpdates.{transactions_get_update-Taken}
use dragonmouth.Filter.Slots.{CommitmentLevel, slots_get_update-Taken}
use dragonmouth.Filter.Blocks.{FilterBlocksInner, block_update, blocks_get_updates}
use dragonmouth.Filter.Updates.{
  Filter, ConfigFilter, filter_of, filter_new, MessageRef, slot_ref, account_ref, transaction_ref,
  entry_ref, block_meta_ref, block_ref, FilteredUpdate, slot_update, account_update,
  transaction_update, transaction_status_update, entry_update, block_meta_update, block_update_of,
  push_some, names_get_update, get_updates_ref,
}

abbrev pub names_of : FilteredUpdate → List Bytes
names_of (slot_update names) = names
names_of (account_update names) = names
names_of (transaction_update names) = names
names_of (transaction_status_update names) = names
names_of (entry_update names) = names
names_of (block_meta_update names) = names
names_of (block_update_of u) = u.filters

-- An update names a filter.
abbrev pub IsNamed : FilteredUpdate → Type 0
IsNamed u = is_empty (names_of u) ≡ false

All-append : {A : Type 0} (P : A → Type 0) (xs ys : List A) → All P xs → All P ys → All P (xs ++ ys)
All-append P [] ys p q = q
All-append P (x ∷ xs) ys p q = (p.0, All-append P xs ys p.1 q)

push_some-IsNamed :
    (kind : List Bytes → FilteredUpdate)
    → ((ns : List Bytes) → names_of (kind ns) ≡ ns)
    → (o : Option (List Bytes)) (ns : List Bytes) → o ≡ nonempty ns
    → All IsNamed (push_some kind o)
push_some-IsNamed kind h o [] e = rw e tt
push_some-IsNamed kind h o (n ∷ ns) e = rw e (rw (h (n ∷ ns)) refl, tt)

blocks-IsNamed :
    (fs : List (Bytes × FilterBlocksInner)) (message : MessageBlock)
    → All IsNamed (map block_update_of (blocks_get_updates fs message))
unfolding blocks_get_updates block_update
blocks-IsNamed [] message = tt
blocks-IsNamed ((name, f) ∷ fs) message = (refl, blocks-IsNamed fs message)

some_inj : {A : Type 0} {a b : A} → some a ≡ some b → a ≡ b
some_inj {a = a} e = ap (λ o. elim o [ none ↦ a | some x ↦ x ]) e

abbrev nothing : MessageAccount
nothing = record {
  pubkey = [];
  owner = [];
  lamports = 0;
  contents = [];
  nonempty_txn_signature = false;
  write_version = 0;
  slot = 0;
  is_startup = false;
  created_at = record { seconds = 0; nanos = 0 };
  size = 0;
}

module _ (valid : Bytes → Bool) where
  -- The updates on a message, each of which names a filter.
  abbrev pub HasUpdates : Filter → MessageRef → CommitmentLevel → Type 0
  HasUpdates f message level =
      (us : List FilteredUpdate) × (get_updates_ref valid f message level ≡ some us)
      × All IsNamed us

  accounts-HasUpdates :
      (f : Filter) (m : MessageAccount) (level : CommitmentLevel) (ns : List Bytes)
      → accounts_get_update valid f.accounts m ≡ some (nonempty ns)
      → HasUpdates f (account_ref m) level
  unfolding get_updates_ref
  accounts-HasUpdates f m level ns e = (
    push_some account_update (nonempty ns),
    rw (get_updates_ref, e) refl,
    push_some-IsNamed account_update (λ ns. refl) (nonempty ns) ns refl,
  )

  served :
      (f : Filter)
      → ((m : MessageAccount)
          → (ns : List Bytes) × (accounts_get_update valid f.accounts m ≡ some (nonempty ns)))
      → (message : MessageRef) (level : CommitmentLevel) → HasUpdates f message level
  unfolding get_updates_ref names_get_update
  served f h (slot_ref m) level = (
    _,
    refl,
    push_some-IsNamed slot_update (λ ns. refl) _ (slots_get_update-Taken m level f.slots).0
        (slots_get_update-Taken m level f.slots).1,
  )
  served f h (account_ref m) level = accounts-HasUpdates f m level (h m).0 (h m).1
  served f h (transaction_ref m) level = (
    _,
    refl,
    All-append IsNamed (push_some transaction_update (transactions_get_update f.transactions m)) _
        (push_some-IsNamed transaction_update (λ ns. refl) _
          (transactions_get_update-Taken m f.transactions).0
          (transactions_get_update-Taken m f.transactions).1)
        (push_some-IsNamed transaction_status_update (λ ns. refl) _
          (transactions_get_update-Taken m f.transactions_status).0
          (transactions_get_update-Taken m f.transactions_status).1),
  )
  served f h entry_ref level =
      (_, refl, push_some-IsNamed entry_update (λ ns. refl) _ f.entries refl)
  served f h block_meta_ref level =
      (_, refl, push_some-IsNamed block_meta_update (λ ns. refl) _ f.blocks_meta refl)
  served f h (block_ref m) level = (_, refl, blocks-IsNamed f.blocks m)

  new_accounts :
      (config : ConfigFilter) (fs : List (Bytes × FilterAccountsInner))
      → accounts_new config.accounts ≡ some fs
      → filter_new config ≡ some (filter_of config fs)
  unfolding filter_new
  new_accounts config fs e = rw (filter_new, e) refl

  -- A configuration whose account filters are within the limits, with no range of bytes that ends
  -- past 2 ^ 64, makes a filter, and that filter finds the updates of every message without a
  -- panic, each of which names a filter.
  pub filter_new-HasUpdates :
      (config : ConfigFilter)
      → All IsCompilable config.accounts
      → (f : Filter) × (filter_new config ≡ some f)
        × ((message : MessageRef) (level : CommitmentLevel) → HasUpdates f message level)
  filter_new-HasUpdates config h = (
    filter_of config fs,
    new_accounts config fs (accounts_get_update-Taken valid nothing config.accounts h).1,
    served (filter_of config fs)
        (λ m. names m (accounts_get_update-Taken valid m config.accounts h)),
  )
    where
      fs : List (Bytes × FilterAccountsInner)
      fs = (accounts_get_update-Taken valid nothing config.accounts h).0

      names :
          (m : MessageAccount)
          → ((fs' : List (Bytes × FilterAccountsInner)) × (accounts_new config.accounts ≡ some fs')
              × ((ns : List Bytes) × (accounts_get_update valid fs' m ≡ some (nonempty ns))
                  × Taken (Accepts valid m) config.accounts ns))
          → (ns : List Bytes) × (accounts_get_update valid fs m ≡ some (nonempty ns))
      names m r = (
        r.2.0,
        subst (λ l. accounts_get_update valid l m ≡ some (nonempty r.2.0))
            (some_inj (sym r.1 ∙ (accounts_get_update-Taken valid nothing config.accounts h).1))
            r.2.1,
      )
