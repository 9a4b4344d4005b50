-- ===== src/Filter/BlockUpdates.antt =====
-- What an update on a block has, `FilterBlocks` of filter/src/filter.rs.
use mathlib.Core.List.{Memᴰ}
use mathlib.Core.List.Memᴰ
use dragonmouth.Base.{
  ℕ, zero, suc, ◌+◌, ◌≡◌, refl, ap, subst, ◌∙◌, ◌≢◌, ◌↔◌, inl, inr, Bool, true, false, not, ◌&&◌,
  List, [], ◌∷◌, Option, none, some, if◌then◌else◌, Bool-cases, is_empty, get_elem?, arith,
}
use dragonmouth.Plugin.Message.{Bytes}
use dragonmouth.Filter.Message.{MessageAccount, MessageTransaction, MessageBlock}
use dragonmouth.Filter.Sets.{contains, intersects}
use dragonmouth.Filter.Selects.{contains-Mem, Shared, intersects-Shared, IfAny, set_test}
use dragonmouth.Filter.Blocks.{
  FilterBlocksInner, indices, keeps_account, keeps_transaction, block_update, is_true,
  is_none_or_true,
}

module _ {A : Type 0} (keep : A → Bool) where
  -- An element that is kept, at a distance from the first index.
  abbrev pub KeptAt : List A → ℕ → Type 0
  KeptAt xs j = (x : A) × (get_elem? xs j ≡ some x) × (keep x ≡ true)

  abbrev Found : List A → ℕ → ℕ → Type 0
  Found xs i k = (j : ℕ) × (k ≡ i + j) × KeptAt xs j

  later : (x : A) (xs : List A) (i k : ℕ) → Found xs (suc i) k → Found (x ∷ xs) i k
  later x xs i k f = (suc f.0, omega (arith, f.1), f.2)

  -- An index in the list points at a kept element.
  indices_sound : (xs : List A) (i k : ℕ) → Memᴰ k (indices keep i xs) → Found xs i k
  unfolding indices
  indices_sound [] i k m = absurd (Memᴰ.not-nil m)
  indices_sound (x ∷ xs) i k m = elim (Bool-cases (keep x)) [
    | inl e ↦ first e (indices_sound xs (suc i) k) (
        subst (λ b. Memᴰ k (if b then i ∷ indices keep (suc i) xs else indices keep (suc i) xs)) e
          m)
    | inr e ↦ later x xs i k (
        indices_sound xs (suc i) k (
          subst (λ b. Memᴰ k (if b then i ∷ indices keep (suc i) xs else indices keep (suc i) xs)) e
            m))
  ]
    where
      first :
          keep x ≡ true
          → (Memᴰ k (indices keep (suc i) xs) → Found xs (suc i) k)
          → Memᴰ k (i ∷ indices keep (suc i) xs)
          → Found (x ∷ xs) i k
      first e ih (Memᴰ.head f) = (0, omega (arith, f), (x, refl, e))
      first e ih (Memᴰ.tail m) = later x xs i k (ih m)

  -- The index of a kept element is in the list.
  indices_complete : (xs : List A) (i j : ℕ) → KeptAt xs j → Memᴰ (i + j) (indices keep i xs)
  unfolding indices
  indices_complete [] i j q = absurd (ground (arith, q.1))
  indices_complete (x ∷ xs) i zero q = rw here (Memᴰ.head (omega arith))
    where
      here : keep x ≡ true
      here = ap (λ o. elim o [ none ↦ true | some y ↦ keep y ]) q.1 ∙ q.2
  indices_complete (x ∷ xs) i (suc j) q = elim (Bool-cases (keep x)) [
    | inl e ↦ rw e (Memᴰ.tail (on (indices_complete xs (suc i) j q)))
    | inr e ↦ rw e (on (indices_complete xs (suc i) j q))
  ]
    where
      on : Memᴰ (suc i + j) (indices keep (suc i) xs) → Memᴰ (i + suc j) (indices keep (suc i) xs)
      on m = subst (λ n. Memᴰ n (indices keep (suc i) xs)) (omega arith) m

  pub indices-KeptAt : (xs : List A) (k : ℕ) → Memᴰ k (indices keep 0 xs) ↔ KeptAt xs k
  indices-KeptAt xs k = (
    (λ m. at k (indices_sound xs 0 k m)),
    (λ q. subst (λ n. Memᴰ n (indices keep 0 xs)) (omega arith) (indices_complete xs 0 k q)),
  )
    where
      at : (k : ℕ) → Found xs 0 k → KeptAt xs k
      at k f = subst (λ n. KeptAt xs n) (omega (arith, f.1)) f.2

-- What a block filter asks of an account and of a transaction.
abbrev pub AccountWanted : FilterBlocksInner → MessageAccount → Type 0
AccountWanted f a = IfAny f.account_include (Memᴰ a.pubkey f.account_include)

abbrev pub TransactionWanted : FilterBlocksInner → MessageTransaction → Type 0
TransactionWanted f t = IfAny f.account_include (Shared f.account_include t.account_keys)

not_iff : (b : Bool) → (not b ≡ true) ↔ (b ≡ false)
not_iff true = ground arith
not_iff false = ground arith

keeps_account-Wanted :
    (f : FilterBlocksInner) (a : MessageAccount) → (keeps_account f a ≡ true) ↔ AccountWanted f a
unfolding keeps_account
keeps_account-Wanted f a = ((λ h. test.0 ((not_iff _).0 h)), (λ w. (not_iff _).1 (test.1 w)))
  where
    test :
        ((not (is_empty f.account_include) && not (contains f.account_include a.pubkey)) ≡ false)
        ↔ AccountWanted f a
    test = set_test f.account_include _ _ (contains-Mem f.account_include a.pubkey)

keeps_transaction-Wanted :
    (f : FilterBlocksInner) (t : MessageTransaction)
    → (keeps_transaction f t ≡ true) ↔ TransactionWanted f t
unfolding keeps_transaction
keeps_transaction-Wanted f t = ((λ h. test.0 ((not_iff _).0 h)), (λ w. (not_iff _).1 (test.1 w)))
  where
    test :
        ((not (is_empty f.account_include) && not (intersects f.account_include t.account_keys))
          ≡ false)
        ↔ TransactionWanted f t
    test = set_test f.account_include _ _ (intersects-Shared f.account_include t.account_keys)

-- An element of a list at a place, with a property.
abbrev pub ElemAt : {A : Type 0} → (A → Type 0) → List A → ℕ → Type 0
ElemAt {A} P xs k = (x : A) × (get_elem? xs k ≡ some x) × P x

kept_wanted :
    {A : Type 0} (keep : A → Bool) (P : A → Type 0)
    → ((x : A) → (keep x ≡ true) ↔ P x)
    → (xs : List A) (k : ℕ) → Memᴰ k (indices keep 0 xs) ↔ ElemAt P xs k
kept_wanted keep P iff xs k = (
  (λ m. forth ((indices-KeptAt keep xs k).0 m)),
  (λ q. (indices-KeptAt keep xs k).1 (q.0, q.1, (iff q.0).1 q.2)),
)
  where
    forth : KeptAt keep xs k → ElemAt P xs k
    forth q = (q.0, q.1, (iff q.0).0 q.2)

-- What an update on a block has for one filter. An account's index is in it exactly if accounts are
-- asked for and the account at that place is wanted; a transaction's exactly if transactions are not
-- refused and the transaction at that place is wanted; so no index is out of range. It says whether
-- entries are asked for.
pub block_update-Wanted :
    (name : Bytes) (f : FilterBlocksInner) (message : MessageBlock)
    → ((k : ℕ)
        → Memᴰ k (block_update (name, f) message).accounts
          ↔ ((f.include_accounts ≡ some true) × ElemAt (AccountWanted f) message.accounts k))
      × ((k : ℕ)
          → Memᴰ k (block_update (name, f) message).transactions ↔ (
              (f.include_transactions ≢ some false)
              × ElemAt (TransactionWanted f) message.transactions k))
      × (((block_update (name, f) message).entries ≡ true) ↔ (f.include_entries ≡ some true))
unfolding block_update
block_update-Wanted name f message = (
  (λ k. accounts k f.include_accounts),
  (λ k. transactions k f.include_transactions),
  entries f.include_entries,
)
  where
    accounts :
        (k : ℕ) (o : Option Bool)
        → Memᴰ k (if is_true o then indices (keeps_account f) 0 message.accounts else [])
          ↔ ((o ≡ some true) × ElemAt (AccountWanted f) message.accounts k)
    accounts k (some true) = (
      (λ m. (
        refl,
        (kept_wanted (keeps_account f) _ (keeps_account-Wanted f) message.accounts k).0 m,
      )),
      (λ q. (kept_wanted (keeps_account f) _ (keeps_account-Wanted f) message.accounts k).1 q.1),
    )
    accounts k (some false) = ((λ m. absurd (Memᴰ.not-nil m)), (λ q. absurd (ground (arith, q.0))))
    accounts k none = ((λ m. absurd (Memᴰ.not-nil m)), (λ q. absurd (ground (arith, q.0))))

    transactions :
        (k : ℕ) (o : Option Bool)
        → Memᴰ k
            (if is_none_or_true o then indices (keeps_transaction f) 0 message.transactions else [])
          ↔ ((o ≢ some false) × ElemAt (TransactionWanted f) message.transactions k)
    transactions k (some true) = (
      (λ m. (
        (λ e. ground (arith, e)),
        (kept_wanted (keeps_transaction f) _ (keeps_transaction-Wanted f) message.transactions k).0
            m,
      )),
      (λ q.
          (kept_wanted (keeps_transaction f) _ (keeps_transaction-Wanted f) message.transactions
              k).1
            q.1),
    )
    transactions k none = (
      (λ m. (
        (λ e. ground (arith, e)),
        (kept_wanted (keeps_transaction f) _ (keeps_transaction-Wanted f) message.transactions k).0
            m,
      )),
      (λ q.
          (kept_wanted (keeps_transaction f) _ (keeps_transaction-Wanted f) message.transactions
              k).1
            q.1),
    )
    transactions k (some false) = ((λ m. absurd (Memᴰ.not-nil m)), (λ q. absurd (q.0 refl)))

    entries : (o : Option Bool) → (is_true o ≡ true) ↔ (o ≡ some true)
    entries (some true) = ((λ h. refl), (λ h. refl))
    entries (some false) = ground arith
    entries none = ground arith
