-- ===== src/Filter/Transactions.antt =====
-- `FilterTransactions` of filter/src/filter.rs.
use dragonmouth.Base.{Bool, false, not, ◌&&◌, List, Option, none, some, if◌then◌else◌, is_empty}
use dragonmouth.Plugin.Message.{Bytes}
use dragonmouth.Filter.Message.{MessageTransaction}
use dragonmouth.Filter.Sets.{bytes_eq, intersects, is_subset, flag_differs, filter_map, nonempty}

-- `FilterTransactionsInner`, and `ConfigFilterTransactions`, of which it is a copy.
pub record FilterTransactionsInner : Type 0 where
  pub vote : Option Bool
  pub failed : Option Bool
  pub signature : Option Bytes
  pub account_include : List Bytes
  pub account_exclude : List Bytes
  pub account_required : List Bytes

abbrev pub signature_differs : Option Bytes → Bytes → Bool
signature_differs none s = false
signature_differs (some signature) s = not (bytes_eq signature s)

-- The closure of `get_update`, on one named filter.
unfoldable pub transaction_select :
    Bytes × FilterTransactionsInner → MessageTransaction → Option Bytes
transaction_select (name, filter) message =
    if flag_differs filter.vote message.vote
    then none
    else if flag_differs filter.failed message.failed
    then none
    else if signature_differs filter.signature message.signature
    then none
    else if not (is_empty filter.account_include)
        && not (intersects filter.account_include message.account_keys)
    then none
    else if not (is_empty filter.account_exclude)
        && intersects filter.account_exclude message.account_keys
    then none
    else if not (is_empty filter.account_required)
        && not (is_subset filter.account_required message.account_keys)
    then none
    else some name

-- The names in an update, or none if no filter takes the message.
unfoldable pub transactions_get_update :
    List (Bytes × FilterTransactionsInner) → MessageTransaction → Option (List Bytes)
transactions_get_update filters message =
    elim (filter_map (λ f. some (transaction_select f message)) filters) [
      | none ↦ none
      | some names ↦ nonempty names
    ]
