-- ===== src/Filter/Holds.antt =====
-- What the tests of an account filter say, and that `FilterAccountsState::new` and `is_match` of
-- filter/src/filter.rs decide it.
use dragonmouth.Base.{
  ℕ, ◌<◌, ◌≡◌, refl, ◌≢◌, ◌↔◌, inl, inr, Bool, true, false, not, ◌&&◌, List, [], ◌∷◌, Option, none,
  some, Bool-cases, All, length, arith,
}
use dragonmouth.Plugin.Message.{Bytes}
use dragonmouth.Filter.Sets.{Decides}
use dragonmouth.Filter.Occurs.{OccursAt, NoWrap, Stands, Decides-no, memcmp_match-Decides}
use dragonmouth.Filter.Accounts.{
  FilterAccountsLamports, equal, not_equal, less, greater, ConfigFilterAccountsFilter,
  memcmp_filter, data_size, token_account_state, lamports_filter, lamports_is_match,
  FilterAccountsState, any_mismatch, size_differs, memcmp_match, is_match,
}

-- The comparison that a test of lamports asks for, of the account's lamports to its own.
abbrev pub Compares : ℕ → FilterAccountsLamports → Type 0
Compares lamports (equal value) = lamports ≡ value
Compares lamports (not_equal value) = lamports ≢ value
Compares lamports (less value) = lamports < value
Compares lamports (greater value) = value < lamports

pub lamports_is_match-Compares :
    (f : FilterAccountsLamports) (lamports : ℕ)
    → (lamports_is_match f lamports ≡ true) ↔ Compares lamports f
unfolding lamports_is_match
lamports_is_match-Compares (equal value) lamports = ground arith
lamports_is_match-Compares (not_equal value) lamports = ground arith
lamports_is_match-Compares (less value) lamports = ground arith
lamports_is_match-Compares (greater value) lamports = ground arith

any_mismatch-Compares :
    (fs : List FilterAccountsLamports) (lamports : ℕ)
    → (any_mismatch fs lamports ≡ false) ↔ All (Compares lamports) fs
unfolding any_mismatch
any_mismatch-Compares [] lamports = ((λ e. tt), (λ u. refl))
any_mismatch-Compares (f ∷ fs) lamports = elim (Bool-cases (lamports_is_match f lamports)) [
  | inl e ↦ rw e (
    (λ h. ((lamports_is_match-Compares f lamports).0 e, (any_mismatch-Compares fs lamports).0 h)),
    (λ q. (any_mismatch-Compares fs lamports).1 q.1),
  )
  | inr e ↦ rw e (
    (λ h. absurd (ground (arith, h))),
    (λ q. absurd (ground (arith, e, (lamports_is_match-Compares f lamports).1 q.0))),
  )
]

module _ (valid : Bytes → Bool) (lamports : ℕ) (contents : Bytes) where
  -- What one configured test says of an account.
  abbrev pub Holds : ConfigFilterAccountsFilter → Type 0
  Holds (memcmp_filter offset bytes) = OccursAt offset bytes contents
  Holds (data_size size) = length contents ≡ size
  Holds token_account_state = valid contents ≡ true
  Holds (lamports_filter f) = Compares lamports f

  abbrev pub HasSize : Option ℕ → Type 0
  HasSize none = Unit
  HasSize (some size) = length contents ≡ size

  -- What a compiled filter says.
  abbrev pub Matches : FilterAccountsState → Type 0
  Matches s =
      HasSize s.datasize
      × (s.token_account ≡ true → valid contents ≡ true)
      × All (Compares lamports) s.lamports
      × All (Stands contents) s.memcmp

  size_differs-HasSize : (o : Option ℕ) → (size_differs o contents ≡ false) ↔ HasSize o
  size_differs-HasSize none = ((λ e. tt), (λ u. refl))
  size_differs-HasSize (some size) = ground arith

  token_test : (t v : Bool) → ((t && not v) ≡ false) ↔ (t ≡ true → v ≡ true)
  token_test true v = ground arith
  token_test false v = ((λ e h. absurd (ground (arith, h))), (λ u. refl))

  false-true : {b : Bool} → b ≡ true → b ≡ false → ⊥
  false-true e f = ground (arith, e, f)

  -- `is_match` decides it, and does not panic, where no range of bytes wraps.
  pub is_match-Decides :
      (s : FilterAccountsState)
      → All NoWrap s.memcmp
      → Decides (is_match valid s lamports contents) (Matches s)
  unfolding is_match
  is_match-Decides s h = elim (Bool-cases (size_differs s.datasize contents)) [
    | inl e ↦
        rw e (Decides-no (λ q. absurd (false-true e ((size_differs-HasSize s.datasize).1 q.0))))
    | inr e ↦ elim (Bool-cases (s.token_account && not (valid contents))) [
      | inl f ↦
          rw (e, f)
            (Decides-no
              (λ q. absurd (false-true f ((token_test s.token_account (valid contents)).1 q.1))))
      | inr f ↦ elim (Bool-cases (any_mismatch s.lamports lamports)) [
        | inl g ↦
            rw (e, f, g)
              (Decides-no
                (λ q. absurd (false-true g ((any_mismatch-Compares s.lamports lamports).1 q.2))))
        | inr g ↦ rw (e, f, g) (rest e f g (memcmp_match-Decides s.memcmp contents h))
      ]
    ]
  ]
    where
      rest :
          size_differs s.datasize contents ≡ false
          → (s.token_account && not (valid contents)) ≡ false
          → any_mismatch s.lamports lamports ≡ false
          → Decides (memcmp_match s.memcmp contents) (All (Stands contents) s.memcmp)
          → Decides (memcmp_match s.memcmp contents) (Matches s)
      rest e f g d = (
        d.0,
        d.1,
        (
          (λ h. (
            (size_differs-HasSize s.datasize).0 e,
            (token_test s.token_account (valid contents)).0 f,
            (any_mismatch-Compares s.lamports lamports).0 g,
            d.2.0 h,
          )),
          (λ q. d.2.1 q.3),
        ),
      )
