-- ===== src/Filter/AccountUpdates.antt =====
-- `FilterAccounts` of filter/src/filter.rs, from its configuration to the names in an update.
use mathlib.Core.List.{Memᴰ}
use dragonmouth.Base.{
  ◌≡◌, refl, ◌↔◌, ◌⊎◌, inl, inr, Bool, true, false, not, ◌&&◌, List, [], ◌∷◌, Option, none, some,
  Bool-cases, All, is_empty,
}
use dragonmouth.Plugin.Message.{Bytes}
use dragonmouth.Filter.Message.{MessageAccount}
use dragonmouth.Filter.Sets.{contains, flag_differs, filter_map, nonempty, Decides}
use dragonmouth.Filter.Selects.{
  false-true, contains-Mem, IfAny, set_test, Agrees, flag_differs-Agrees, Taken, taken_none, taken,
  passed,
}
use dragonmouth.Filter.Holds.{Holds}
use dragonmouth.Filter.Compile.{IsAllowed, IsNoWrap, state_new-Holds}
use dragonmouth.Filter.Accounts.{
  ConfigFilterAccountsFilter, FilterAccountsState, FilterAccountsInner, ConfigFilterAccounts,
  state_new, is_match, tests_new, accounts_inner_new, accounts_new, state_is_match, account_select,
  accounts_get_update,
}

-- Within the limits, with no range of bytes that ends past 2 ^ 64.
abbrev pub IsCompilable : Bytes × ConfigFilterAccounts → Type 0
IsCompilable c = IsAllowed c.1.filters × All IsNoWrap c.1.filters

module _ (valid : Bytes → Bool) (message : MessageAccount) where
  -- What a configured filter asks of the account in a message.
  abbrev pub Accepts : ConfigFilterAccounts → Type 0
  Accepts f =
      IfAny f.account (Memᴰ message.pubkey f.account)
      × IfAny f.owner (Memᴰ message.owner f.owner)
      × All (Holds valid message.lamports message.contents) f.filters
      × Agrees f.nonempty_txn_signature message.nonempty_txn_signature

  tests_new-Holds :
      (ts : List ConfigFilterAccountsFilter)
      → IsAllowed ts
      → All IsNoWrap ts
      → (o : Option FilterAccountsState) × (tests_new ts ≡ some o)
        × Decides
            (state_is_match valid o message)
            (All (Holds valid message.lamports message.contents) ts)
  unfolding tests_new
  tests_new-Holds [] a n = (none, refl, (true, refl, ((λ h. tt), (λ u. refl))))
  tests_new-Holds (t ∷ ts) a n =
      go (state_new-Holds valid message.lamports message.contents (t ∷ ts) a n)
    where
      go :
          ((s : FilterAccountsState) × (state_new (t ∷ ts) ≡ some s)
            × Decides
                (is_match valid s message.lamports message.contents)
                (All (Holds valid message.lamports message.contents) (t ∷ ts)))
          → (o : Option FilterAccountsState) × (tests_new (t ∷ ts) ≡ some o)
            × Decides
                (state_is_match valid o message)
                (All (Holds valid message.lamports message.contents) (t ∷ ts))
      go d = (some d.0, rw (tests_new, d.1) refl, d.2)

  abbrev compiled : ConfigFilterAccounts → Option FilterAccountsState → FilterAccountsInner
  compiled f o = record {
    account = f.account;
    owner = f.owner;
    filters = o;
    nonempty_txn_signature = f.nonempty_txn_signature;
  }

  account_select-Accepts :
      (name : Bytes) (f : ConfigFilterAccounts) (o : Option FilterAccountsState)
      → Decides
          (state_is_match valid o message)
          (All (Holds valid message.lamports message.contents) f.filters)
      → ((account_select valid (name, compiled f o) message ≡ some (some name)) × Accepts f)
        ⊎ ((account_select valid (name, compiled f o) message ≡ some none) × (Accepts f → ⊥))
  unfolding account_select
  account_select-Accepts name f o d =
      elim (Bool-cases (not (is_empty f.account) && not (contains f.account message.pubkey))) [
        | inl e ↦ inr (rw (account_select, e) refl, (λ a. false-true e (keys.1 a.0)))
        | inr e ↦
            elim (Bool-cases (not (is_empty f.owner) && not (contains f.owner message.owner))) [
              | inl g ↦ inr (rw (account_select, e, g) refl, (λ a. false-true g (owners.1 a.1)))
              | inr g ↦ elim (Bool-cases d.0) [
                | inr h ↦
                    inr (rw (account_select, e, g, d.1, h) refl, (λ a. false-true (d.2.1 a.2) h))
                | inl h ↦
                    elim (Bool-cases
                      (flag_differs f.nonempty_txn_signature message.nonempty_txn_signature)) [
                        | inl i ↦ inr (
                          rw (account_select, e, g, d.1, h, i) refl,
                          (λ a. false-true i (flags.1 a.3)),
                        )
                        | inr i ↦ inl (
                          rw (account_select, e, g, d.1, h, i) refl,
                          (keys.0 e, owners.0 g, d.2.0 h, flags.0 i),
                        )
                      ]
              ]
            ]
      ]
    where
      keys :
          ((not (is_empty f.account) && not (contains f.account message.pubkey)) ≡ false)
          ↔ IfAny f.account (Memᴰ message.pubkey f.account)
      keys = set_test f.account _ _ (contains-Mem f.account message.pubkey)

      owners :
          ((not (is_empty f.owner) && not (contains f.owner message.owner)) ≡ false)
          ↔ IfAny f.owner (Memᴰ message.owner f.owner)
      owners = set_test f.owner _ _ (contains-Mem f.owner message.owner)

      flags :
          (flag_differs f.nonempty_txn_signature message.nonempty_txn_signature ≡ false)
          ↔ Agrees f.nonempty_txn_signature message.nonempty_txn_signature
      flags = flag_differs-Agrees f.nonempty_txn_signature message.nonempty_txn_signature

  -- The filters compiled, and the names that the loop over them takes.
  abbrev Runs : List (Bytes × ConfigFilterAccounts) → Type 0
  Runs configs =
      (fs : List (Bytes × FilterAccountsInner)) × (accounts_new configs ≡ some fs)
      × ((names : List Bytes) × (filter_map (λ f. account_select valid f message) fs ≡ some names)
          × Taken Accepts configs names)

  inner_new :
      (f : ConfigFilterAccounts) (o : Option FilterAccountsState)
      → tests_new f.filters ≡ some o
      → accounts_inner_new f ≡ some (compiled f o)
  unfolding accounts_inner_new
  inner_new f o e = rw (accounts_inner_new, e) refl

  Runs-more :
      (name : Bytes) (f : ConfigFilterAccounts) (configs : List (Bytes × ConfigFilterAccounts))
      (o : Option FilterAccountsState)
      → accounts_inner_new f ≡ some (compiled f o)
      → ((account_select valid (name, compiled f o) message ≡ some (some name)) × Accepts f)
        ⊎ ((account_select valid (name, compiled f o) message ≡ some none) × (Accepts f → ⊥))
      → Runs configs
      → Runs ((name, f) ∷ configs)
  unfolding accounts_new filter_map
  Runs-more name f configs o e (inl q) r = (
    (name, compiled f o) ∷ r.0,
    rw (accounts_new, e, r.1) refl,
    (name ∷ r.2.0, rw (filter_map, q.0, r.2.1) refl, taken q.1 r.2.2),
  )
  Runs-more name f configs o e (inr q) r = (
    (name, compiled f o) ∷ r.0,
    rw (accounts_new, e, r.1) refl,
    (r.2.0, rw (filter_map, q.0, r.2.1) refl, passed q.1 r.2.2),
  )

  runs : (configs : List (Bytes × ConfigFilterAccounts)) → All IsCompilable configs → Runs configs
  unfolding accounts_new filter_map
  runs [] h = ([], refl, ([], refl, taken_none))
  runs ((name, f) ∷ configs) h = one (tests_new-Holds f.filters h.0.0 h.0.1) (runs configs h.1)
    where
      one :
          ((o : Option FilterAccountsState) × (tests_new f.filters ≡ some o)
            × Decides
                (state_is_match valid o message)
                (All (Holds valid message.lamports message.contents) f.filters))
          → Runs configs
          → Runs ((name, f) ∷ configs)
      one d r =
          Runs-more name f configs d.0 (inner_new f d.0 d.1) (account_select-Accepts name f d.0 d.2)
            r

  -- Account filters within the limits of the configuration, whose ranges of bytes do not end past
  -- 2 ^ 64, compile and run without a panic. The update names, in order, exactly the filters that
  -- accept the account: its key and its owner are in the sets that are not empty, every configured
  -- test holds of it, and the flag on its signature agrees. If there is none, there is no update.
  pub accounts_get_update-Taken :
      (configs : List (Bytes × ConfigFilterAccounts))
      → All IsCompilable configs
      → (fs : List (Bytes × FilterAccountsInner)) × (accounts_new configs ≡ some fs)
        × ((names : List Bytes) × (accounts_get_update valid fs message ≡ some (nonempty names))
            × Taken Accepts configs names)
  unfolding accounts_get_update
  accounts_get_update-Taken configs h = update (runs configs h)
    where
      update :
          Runs configs
          → (fs : List (Bytes × FilterAccountsInner)) × (accounts_new configs ≡ some fs)
            × ((names : List Bytes) × (accounts_get_update valid fs message ≡ some (nonempty names))
                × Taken Accepts configs names)
      update r = (r.0, r.1, (r.2.0, rw (accounts_get_update, r.2.1) refl, r.2.2))
