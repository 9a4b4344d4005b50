-- ===== src/Filter/TransactionUpdates.antt =====
-- Which filters take a transaction, `FilterTransactions` of filter/src/filter.rs.
use mathlib.Core.List.{Memᴰ}
use mathlib.Core.List.Memᴰ
use dragonmouth.Base.{
  ◌≡◌, refl, ◌↔◌, inl, inr, false, not, ◌&&◌, List, [], ◌∷◌, Option, none, some, Bool-cases, All,
  is_empty, arith,
}
use dragonmouth.Plugin.Message.{Bytes}
use dragonmouth.Filter.Message.{MessageTransaction}
use dragonmouth.Filter.Sets.{
  bytes_eq, bytes_eq_sound, bytes_eq_self, intersects, is_subset, flag_differs, filter_map,
  nonempty,
}
use dragonmouth.Filter.Selects.{
  false-true, Shared, intersects-Shared, is_subset-All, IfAny, set_test, Agrees,
  flag_differs-Agrees, Taken, Selects, filter_map-Taken,
}
use dragonmouth.Filter.Transactions.{
  FilterTransactionsInner, transaction_select, transactions_get_update, signature_differs,
}

module _ (message : MessageTransaction) where
  abbrev pub SignatureIs : Option Bytes → Type 0
  SignatureIs none = Unit
  SignatureIs (some signature) = signature ≡ message.signature

  -- What a filter asks of a transaction.
  abbrev pub Accepts : FilterTransactionsInner → Type 0
  Accepts f =
      Agrees f.vote message.vote
      × Agrees f.failed message.failed
      × SignatureIs f.signature
      × IfAny f.account_include (Shared f.account_include message.account_keys)
      × (Shared f.account_exclude message.account_keys → ⊥)
      × All (λ k. Memᴰ k message.account_keys) f.account_required

  signature_differs-SignatureIs :
      (o : Option Bytes) → (signature_differs o message.signature ≡ false) ↔ SignatureIs o
  signature_differs-SignatureIs none = ((λ h. tt), (λ u. refl))
  signature_differs-SignatureIs (some s) = elim (Bool-cases (bytes_eq s message.signature)) [
    | inl e ↦ rw e ((λ h. bytes_eq_sound s message.signature e), (λ u. refl))
    | inr e ↦
        rw e
          ((λ h. absurd (ground (arith, h))), (λ u. absurd (ground (arith, e, bytes_eq_self s, u))))
  ]

  exclude_test :
      (ks : List Bytes)
      → ((not (is_empty ks) && intersects ks message.account_keys) ≡ false)
        ↔ (Shared ks message.account_keys → ⊥)
  unfolding intersects
  exclude_test [] = ((λ h u. Memᴰ.not-nil u.1), (λ u. refl))
  exclude_test (k ∷ ks) = elim (Bool-cases (intersects (k ∷ ks) message.account_keys)) [
    | inl e ↦ (
      (λ h u. false-true e h),
      (λ n. absurd (n ((intersects-Shared (k ∷ ks) message.account_keys).0 e))),
    )
    | inr e ↦
        ((λ h u. false-true ((intersects-Shared (k ∷ ks) message.account_keys).1 u) e), (λ n. e))
  ]

  required_test :
      (ks : List Bytes)
      → ((not (is_empty ks) && not (is_subset ks message.account_keys)) ≡ false)
        ↔ All (λ k. Memᴰ k message.account_keys) ks
  required_test [] = ((λ h. tt), (λ u. refl))
  required_test (k ∷ ks) = elim (Bool-cases (is_subset (k ∷ ks) message.account_keys)) [
    | inl e ↦ rw e ((λ h. (is_subset-All (k ∷ ks) message.account_keys).0 e), (λ u. refl))
    | inr e ↦ rw e (
      (λ h. absurd (ground (arith, h))),
      (λ q. absurd (false-true ((is_subset-All (k ∷ ks) message.account_keys).1 q) e)),
    )
  ]

  transaction_select-Accepts :
      (f : Bytes × FilterTransactionsInner)
      → Selects Accepts (λ f. some (transaction_select f message)) f
  unfolding transaction_select
  transaction_select-Accepts (name, f) = elim (Bool-cases (flag_differs f.vote message.vote)) [
    | inl a ↦
        inr (rw (transaction_select, a) refl, (λ q. false-true a ((flag_differs-Agrees _ _).1 q.0)))
    | inr a ↦ elim (Bool-cases (flag_differs f.failed message.failed)) [
      | inl b ↦ inr (
        rw (transaction_select, a, b) refl,
        (λ q. false-true b ((flag_differs-Agrees _ _).1 q.1)),
      )
      | inr b ↦ elim (Bool-cases (signature_differs f.signature message.signature)) [
        | inl c ↦ inr (
          rw (transaction_select, a, b, c) refl,
          (λ q. false-true c ((signature_differs-SignatureIs _).1 q.2)),
        )
        | inr c ↦
            elim (Bool-cases (
              not (is_empty f.account_include)
              && not (intersects f.account_include message.account_keys))) [
                | inl d ↦
                    inr (
                      rw (transaction_select, a, b, c, d) refl,
                      (λ q. false-true d (included.1 q.3)),
                    )
                | inr d ↦
                    elim (Bool-cases (
                      not (is_empty f.account_exclude)
                      && intersects f.account_exclude message.account_keys)) [
                        | inl e ↦ inr (
                          rw (transaction_select, a, b, c, d, e) refl,
                          (λ q. false-true e ((exclude_test _).1 q.4)),
                        )
                        | inr e ↦
                            elim (Bool-cases (
                              not (is_empty f.account_required)
                              && not (is_subset f.account_required message.account_keys))) [
                                | inl g ↦ inr (
                                  rw (transaction_select, a, b, c, d, e, g) refl,
                                  (λ q. false-true g ((required_test _).1 q.5)),
                                )
                                | inr g ↦ inl (
                                  rw (transaction_select, a, b, c, d, e, g) refl,
                                  (
                                    (flag_differs-Agrees _ _).0 a,
                                    (flag_differs-Agrees _ _).0 b,
                                    (signature_differs-SignatureIs _).0 c,
                                    included.0 d,
                                    (exclude_test _).0 e,
                                    (required_test _).0 g,
                                  ),
                                )
                              ]
                      ]
              ]
      ]
    ]
  ]
    where
      included :
          ((not (is_empty f.account_include)
              && not (intersects f.account_include message.account_keys))
            ≡ false)
          ↔ IfAny f.account_include (Shared f.account_include message.account_keys)
      included =
          set_test f.account_include _ _ (intersects-Shared f.account_include message.account_keys)

  Selects-all :
      (fs : List (Bytes × FilterTransactionsInner))
      → All (Selects Accepts (λ f. some (transaction_select f message))) fs
  Selects-all [] = tt
  Selects-all (f ∷ fs) = (transaction_select-Accepts f, Selects-all fs)

  -- An update names, in order, exactly the filters that accept the transaction: its flags and its
  -- signature are those asked for, it has a key of a set to include that is not empty, no key to
  -- exclude, and every required key. If there is none, there is no update.
  pub transactions_get_update-Taken :
      (fs : List (Bytes × FilterTransactionsInner))
      → (names : List Bytes) × (transactions_get_update fs message ≡ nonempty names)
        × Taken Accepts fs names
  unfolding transactions_get_update
  transactions_get_update-Taken fs = go (filter_map-Taken Accepts _ fs (Selects-all fs))
    where
      go :
          ((ns : List Bytes) × (filter_map (λ f. some (transaction_select f message)) fs ≡ some ns)
            × Taken Accepts fs ns)
          → (names : List Bytes) × (transactions_get_update fs message ≡ nonempty names)
            × Taken Accepts fs names
      go r = (r.0, rw (transactions_get_update, r.1) refl, r.2)
