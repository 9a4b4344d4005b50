-- ===== src/Filter/Limits.antt =====
-- The limits on account filters, `ConfigLimitsAccounts` of filter/src/config.rs, and that what they
-- let through is what the filters need.
use dragonmouth.Base.{
  ℕ, ◌+◌, ◌≤◌, ◌≡◌, refl, Bool, true, false, not, ◌&&◌, ◌||◌, List, [], ◌∷◌, ◌++◌, Option, none,
  some, ltb, leb, if◌then◌else◌, length, is_empty, All, arith,
}
use dragonmouth.Base.Ring.{wrapping_add}
use dragonmouth.Plugin.Message.{Bytes}
use dragonmouth.Filter.Sets.{contains}
use dragonmouth.Filter.Accounts.{
  ConfigFilterAccountsFilter, memcmp_filter, data_size, token_account_state, lamports_filter,
  ConfigFilterAccounts, max_filters, max_data_size,
}
use dragonmouth.Filter.Slices.{DataSlice}
use dragonmouth.Filter.Compile.{IsShort, sizes, IsAllowed}

-- The parts of a block that `BlocksNotAllowed` names.
pub data BlockPart : Type 0 where
  transactions_part accounts_part entries_part : BlockPart

-- `ConfigLimitsError`
pub data ConfigLimitsError : Type 0 where
  filter_name_overflow filters_overflow : ℕ → ConfigLimitsError
  empty_not_allowed : ConfigLimitsError
  pubkeys_overflow : ℕ → ConfigLimitsError
  pubkey_not_allowed : Bytes → ConfigLimitsError
  blocks_not_allowed : BlockPart → ConfigLimitsError
  too_much_filters : ℕ → ConfigLimitsError
  filter_data_overflow datasize_duplicated data_slice_out_of_order data_slice_overlap :
      ConfigLimitsError

-- A check: its error, or none. The first error counts.
abbrev pub Checked : Type 0
Checked = Option ConfigLimitsError

infixl 20 ◌also◌
unfoldable pub ◌also◌ : Checked → Checked → Checked
none also c = c
some e also c = some e

pub record ConfigLimitsAccounts : Type 0 where
  pub max : ℕ
  pub any : Bool
  pub account_max : ℕ
  pub account_reject : List Bytes
  pub owner_max : ℕ
  pub owner_reject : List Bytes
  pub data_slice_max : ℕ

unfoldable pub check_max : ℕ → ℕ → Checked
check_max n max = if leb n max then none else some (filters_overflow max)

unfoldable pub check_name_max : ℕ → ℕ → Checked
check_name_max n max = if leb n max then none else some (filter_name_overflow max)

unfoldable pub check_names_max : {A : Type 0} → List (Bytes × A) → ℕ → Checked
check_names_max [] max = none
check_names_max ((name, a) ∷ fs) max = check_name_max (length name) max also check_names_max fs max

unfoldable pub check_any : Bool → Bool → Checked
check_any empty any = if not empty || any then none else some empty_not_allowed

unfoldable pub check_pubkey_max : ℕ → ℕ → Checked
check_pubkey_max n max = if leb n max then none else some (pubkeys_overflow max)

-- `check_pubkey_reject` for each key.
unfoldable pub check_pubkeys_reject : List Bytes → List Bytes → Checked
check_pubkeys_reject [] set = none
check_pubkeys_reject (k ∷ ks) set =
    (if not (contains set k) then none else some (pubkey_not_allowed k))
    also check_pubkeys_reject ks set

-- The loop over the tests, with `datasize_defined`.
unfoldable pub check_tests : Bool → List ConfigFilterAccountsFilter → Checked
check_tests defined [] = none
check_tests defined (memcmp_filter offset bytes ∷ ts) =
    (if ltb max_data_size (length bytes) then some filter_data_overflow else none)
    also check_tests defined ts
check_tests defined (data_size n ∷ ts) =
    (if defined then some datasize_duplicated else none) also check_tests true ts
check_tests defined (token_account_state ∷ ts) = check_tests defined ts
check_tests defined (lamports_filter f ∷ ts) = check_tests defined ts

unfoldable pub check_order : DataSlice → List DataSlice → Checked
check_order a [] = none
check_order a (b ∷ bs) =
    (if ltb b.offset a.offset then some data_slice_out_of_order else none) also check_order a bs

unfoldable pub check_overlap : DataSlice → List DataSlice → Checked
check_overlap a [] = none
check_overlap a (b ∷ bs) =
    (if ltb a.offset (wrapping_add b.offset b.length) then some data_slice_overlap else none)
    also check_overlap a bs

-- The loop over the slices; those before the current one are the first argument.
unfoldable pub check_slices : List DataSlice → List DataSlice → Checked
check_slices before [] = none
check_slices before (a ∷ after) =
    check_order a after also check_overlap a before also check_slices (before ++ (a ∷ [])) after

module _ (limits : ConfigLimitsAccounts) where
  -- The body of the loop over the filters.
  unfoldable pub check_account : ConfigFilterAccounts → Checked
  check_account f =
      check_any (is_empty f.account && is_empty f.owner) limits.any
      also check_pubkey_max (length f.account) limits.account_max
      also check_pubkey_max (length f.owner) limits.owner_max
      also check_pubkeys_reject f.account limits.account_reject
      also check_pubkeys_reject f.owner limits.owner_reject
      also (if ltb max_filters (length f.filters)
          then some (too_much_filters max_filters)
          else none)
      also check_tests false f.filters

  unfoldable pub check_accounts : List (Bytes × ConfigFilterAccounts) → Checked
  check_accounts [] = none
  check_accounts ((name, f) ∷ fs) = check_account f also check_accounts fs

  -- `ConfigLimitsAccounts::check_filter`
  unfoldable pub check_filter : ℕ → List (Bytes × ConfigFilterAccounts) → List DataSlice → Checked
  check_filter name_max filters slices =
      check_names_max filters name_max
      also check_max (length filters) limits.max
      also check_accounts filters
      also check_max (length slices) limits.data_slice_max
      also check_slices [] slices

pub also-none : (a b : Checked) → (a also b) ≡ none → (a ≡ none) × (b ≡ none)
unfolding ◌also◌
also-none none b e = (refl, e)
also-none (some x) b e = absurd (ground (arith, e))

pub if_fails : (b : Bool) (e : ConfigLimitsError) → (if b then some e else none) ≡ none → b ≡ false
if_fails true e h = absurd (ground (arith, h))
if_fails false e h = refl

check_tests-IsShort :
    (d : Bool) (ts : List ConfigFilterAccountsFilter) → check_tests d ts ≡ none → All IsShort ts
unfolding check_tests
check_tests-IsShort d [] e = tt
check_tests-IsShort d (memcmp_filter offset bytes ∷ ts) e =
    (ground (arith, if_fails _ _ (also-none _ _ e).0), check_tests-IsShort d ts (also-none _ _ e).1)
check_tests-IsShort d (data_size n ∷ ts) e = (tt, check_tests-IsShort true ts (also-none _ _ e).1)
check_tests-IsShort d (token_account_state ∷ ts) e = (tt, check_tests-IsShort d ts e)
check_tests-IsShort d (lamports_filter f ∷ ts) e = (tt, check_tests-IsShort d ts e)

abbrev defined_sizes : Bool → ℕ
defined_sizes true = 1
defined_sizes false = 0

check_tests-sizes :
    (d : Bool) (ts : List ConfigFilterAccountsFilter)
    → check_tests d ts ≡ none
    → defined_sizes d + sizes ts ≤ 1
unfolding check_tests
check_tests-sizes true [] e = omega arith
check_tests-sizes false [] e = omega arith
check_tests-sizes d (memcmp_filter offset bytes ∷ ts) e = check_tests-sizes d ts (also-none _ _ e).1
check_tests-sizes true (data_size n ∷ ts) e =
    absurd (ground (arith, (also-none (some datasize_duplicated) (check_tests true ts) e).0))
check_tests-sizes false (data_size n ∷ ts) e =
    omega (arith, check_tests-sizes true ts (also-none _ _ e).1)
check_tests-sizes d (token_account_state ∷ ts) e = check_tests-sizes d ts e
check_tests-sizes d (lamports_filter f ∷ ts) e = check_tests-sizes d ts e

check_account-IsAllowed :
    (limits : ConfigLimitsAccounts) (f : ConfigFilterAccounts)
    → check_account limits f ≡ none
    → IsAllowed f.filters
unfolding check_account
check_account-IsAllowed limits f e = record {
  few = ground (arith, if_fails _ _ (also-none _ _ (also-none _ _ e).0).1);
  short = check_tests-IsShort false f.filters (also-none _ _ e).1;
  one_size = omega (arith, check_tests-sizes false f.filters (also-none _ _ e).1);
}

check_accounts-IsAllowed :
    (limits : ConfigLimitsAccounts) (fs : List (Bytes × ConfigFilterAccounts))
    → check_accounts limits fs ≡ none
    → All (λ f. IsAllowed f.1.filters) fs
unfolding check_accounts
check_accounts-IsAllowed limits [] e = tt
check_accounts-IsAllowed limits ((name, f) ∷ fs) e = (
  check_account-IsAllowed limits f (also-none _ _ e).0,
  check_accounts-IsAllowed limits fs (also-none _ _ e).1,
)

-- Account filters that the check accepts, whatever the configured limits, have at most four tests,
-- with at most one on the size and byte strings of at most 128 bytes: what compiling them needs.
pub check_filter-IsAllowed :
    (limits : ConfigLimitsAccounts) (name_max : ℕ) (fs : List (Bytes × ConfigFilterAccounts))
    (slices : List DataSlice)
    → check_filter limits name_max fs slices ≡ none
    → All (λ f. IsAllowed f.1.filters) fs
unfolding check_filter
check_filter-IsAllowed limits name_max fs slices e =
    check_accounts-IsAllowed limits fs (also-none _ _ (also-none _ _ (also-none _ _ e).0).0).1
