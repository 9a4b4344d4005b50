-- ===== src/Filter/Accounts.antt =====
-- The account filters of filter/src/filter.rs: what they test, and which names a message gets.
use dragonmouth.Base.{
  ℕ, ◌-◌, Bool, true, false, not, ◌&&◌, List, [], ◌∷◌, ◌++◌, Option, none, some, ◌==◌, ltb, leb,
  if◌then◌else◌, length, take, drop, is_empty,
}
use dragonmouth.Base.Ring.{wrapping_add}
use dragonmouth.Plugin.Message.{Bytes}
use dragonmouth.Filter.Message.{MessageAccount}
use dragonmouth.Filter.Sets.{bytes_eq, contains, filter_map, flag_differs, nonempty}

-- `ConfigFilterAccountsFilterLamports`, and `FilterAccountsLamports`, which is its copy.
pub data FilterAccountsLamports : Type 0 where
  equal not_equal less greater : ℕ → FilterAccountsLamports

pub data ConfigFilterAccountsFilter : Type 0 where
  memcmp_filter : ℕ → Bytes → ConfigFilterAccountsFilter
  data_size : ℕ → ConfigFilterAccountsFilter
  token_account_state : ConfigFilterAccountsFilter
  lamports_filter : FilterAccountsLamports → ConfigFilterAccountsFilter

unfoldable pub lamports_is_match : FilterAccountsLamports → ℕ → Bool
lamports_is_match (equal value) lamports = value == lamports
lamports_is_match (not_equal value) lamports = not (value == lamports)
lamports_is_match (less value) lamports = ltb lamports value
lamports_is_match (greater value) lamports = ltb value lamports

pub record FilterAccountsState : Type 0 where
  pub memcmp : List (ℕ × Bytes)
  pub datasize : Option ℕ
  pub token_account : Bool
  pub lamports : List FilterAccountsLamports

abbrev pub empty_state : FilterAccountsState
empty_state = record { memcmp = []; datasize = none; token_account = false; lamports = [] }

-- The capacities `MAX_FILTERS` and `MAX_DATA_SIZE` of the vectors.
abbrev pub max_filters : ℕ
max_filters = 4

abbrev pub max_data_size : ℕ
max_data_size = 128

-- One round of `FilterAccountsState::new`. A push on a full `ArrayVec` panics, which is `none`.
unfoldable pub add_filter :
    FilterAccountsState → ConfigFilterAccountsFilter → Option FilterAccountsState
add_filter s (memcmp_filter offset bytes) =
    if ltb max_data_size (length bytes)
    then none
    else if leb max_filters (length s.memcmp)
    then none
    else some (record s { memcmp = s.memcmp ++ ((offset, bytes) ∷ []) })
add_filter s (data_size size) = some (record s { datasize = some size })
add_filter s token_account_state = some (record s { token_account = true })
add_filter s (lamports_filter value) =
    if leb max_filters (length s.lamports)
    then none
    else some (record s { lamports = s.lamports ++ (value ∷ []) })

unfoldable pub add_filters :
    FilterAccountsState → List ConfigFilterAccountsFilter → Option FilterAccountsState
add_filters s [] = some s
add_filters s (filter ∷ filters) = elim (add_filter s filter) [
  | none ↦ none
  | some s' ↦ add_filters s' filters
]

-- `FilterAccountsState::new`
unfoldable pub state_new : List ConfigFilterAccountsFilter → Option FilterAccountsState
state_new filters = add_filters empty_state filters

-- `self.lamports.iter().any(|f| !f.is_match(lamports))`
unfoldable pub any_mismatch : List FilterAccountsLamports → ℕ → Bool
any_mismatch [] lamports = false
any_mismatch (f ∷ fs) lamports =
    let rest = any_mismatch fs lamports in if lamports_is_match f lamports then rest else true

abbrev pub size_differs : Option ℕ → Bytes → Bool
size_differs none contents = false
size_differs (some size) contents = not (length contents == size)

-- The loop over `memcmp`. The end of the range wraps; a range that ends before it starts panics.
unfoldable pub memcmp_match : List (ℕ × Bytes) → Bytes → Option Bool
memcmp_match [] contents = some true
memcmp_match ((offset, bytes) ∷ filters) contents =
    let rest = memcmp_match filters contents in
    let end = wrapping_add offset (length bytes) in
    if ltb (length contents) end
    then some false
    else if ltb end offset
    then none
    else if bytes_eq (take (end - offset) (drop offset contents)) bytes
    then rest
    else some false

-- `valid` is `TokenAccount::valid_account_data` of the crate `spl_token_2022`.
module _ (valid : Bytes → Bool) where
  unfoldable pub is_match : FilterAccountsState → ℕ → Bytes → Option Bool
  is_match s lamports contents =
      if size_differs s.datasize contents
      then some false
      else if s.token_account && not (valid contents)
      then some false
      else if any_mismatch s.lamports lamports
      then some false
      else memcmp_match s.memcmp contents

pub record FilterAccountsInner : Type 0 where
  pub account : List Bytes
  pub owner : List Bytes
  pub filters : Option FilterAccountsState
  pub nonempty_txn_signature : Option Bool

pub record ConfigFilterAccounts : Type 0 where
  pub account : List Bytes
  pub owner : List Bytes
  pub filters : List ConfigFilterAccountsFilter
  pub nonempty_txn_signature : Option Bool

-- The field `filters`: none if there is no test. A panic is the outer `none`.
unfoldable pub tests_new : List ConfigFilterAccountsFilter → Option (Option FilterAccountsState)
tests_new [] = some none
tests_new (t ∷ ts) = elim (state_new (t ∷ ts)) [ none ↦ none | some s ↦ some (some s) ]

-- The body of the loop of `FilterAccounts::new`.
unfoldable pub accounts_inner_new : ConfigFilterAccounts → Option FilterAccountsInner
accounts_inner_new f = elim (tests_new f.filters) [
  | none ↦ none
  | some tests ↦ some (record {
    account = f.account;
    owner = f.owner;
    filters = tests;
    nonempty_txn_signature = f.nonempty_txn_signature;
  })
]

-- `FilterAccounts::new`, where the map of the configuration is the list of its entries.
unfoldable pub accounts_new :
    List (Bytes × ConfigFilterAccounts) → Option (List (Bytes × FilterAccountsInner))
accounts_new [] = some []
accounts_new ((name, f) ∷ fs) = elim (accounts_inner_new f) [
  | none ↦ none
  | some inner ↦ elim (accounts_new fs) [
    | none ↦ none
    | some inners ↦ some ((name, inner) ∷ inners)
  ]
]

module _ (valid : Bytes → Bool) where
  abbrev pub state_is_match : Option FilterAccountsState → MessageAccount → Option Bool
  state_is_match none message = some true
  state_is_match (some s) message = is_match valid s message.lamports message.contents

  -- The closure of `FilterAccounts::get_update`, on one named filter.
  unfoldable pub account_select :
      Bytes × FilterAccountsInner → MessageAccount → Option (Option Bytes)
  account_select (name, filter) message =
      if not (is_empty filter.account) && not (contains filter.account message.pubkey)
      then some none
      else if not (is_empty filter.owner) && not (contains filter.owner message.owner)
      then some none
      else elim (state_is_match filter.filters message) [
        | none ↦ none
        | some false ↦ some none
        | some true ↦
            if flag_differs filter.nonempty_txn_signature message.nonempty_txn_signature
            then some none
            else some (some name)
      ]

  -- The names in an update, or none if no filter takes the message; a panic is the outer `none`.
  unfoldable pub accounts_get_update :
      List (Bytes × FilterAccountsInner) → MessageAccount → Option (Option (List Bytes))
  accounts_get_update filters message = elim (filter_map (λ f. account_select f message) filters) [
    | none ↦ none
    | some names ↦ some (nonempty names)
  ]
