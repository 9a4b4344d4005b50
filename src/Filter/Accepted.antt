-- ===== src/Filter/Accepted.antt =====
-- What `ConfigLimits::check_filter` of filter/src/config.rs promises of a configuration that it
-- accepts.
use dragonmouth.Base.{
  ℕ, ◌^◌, ◌≤◌, ◌<◌, ◌≡◌, refl, sym, ap, Bool, List, [], ◌∷◌, ◌++◌, inl, inr, Option, none, some,
  arith, All, append_assoc, subst, Option-cases, length,
}
use dragonmouth.Base.Ring.{wrapping_add}
use dragonmouth.Plugin.Message.{Bytes}
use dragonmouth.Filter.Accounts.{ConfigFilterAccounts, FilterAccountsInner, accounts_new}
use dragonmouth.Filter.Compile.{IsAllowed, IsNoWrap}
use dragonmouth.Filter.AccountUpdates.{IsCompilable}
use dragonmouth.Filter.Slots.{CommitmentLevel}
use dragonmouth.Filter.Slices.{
  DataSlice, slices_new, get_slice, Cut, total, IsInRange, get_slice-Cut,
}
use dragonmouth.Filter.Updates.{Filter, ConfigFilter, filter_of, filter_new, MessageRef}
use dragonmouth.Filter.Total.{HasUpdates, filter_new-HasUpdates}
use dragonmouth.Filter.Limits.{
  also-none, if_fails, check_order, check_overlap, check_slices, check_filter,
  check_filter-IsAllowed,
}
use dragonmouth.Filter.Config.{ConfigLimits, check_config}

accounts_checked :
    (limits : ConfigLimits) (config : ConfigFilter)
    → check_config limits config ≡ none
    → check_filter limits.accounts limits.name_max config.accounts config.accounts_data_slice ≡ none
unfolding check_config
accounts_checked limits config e =
    (also-none _ _
      (also-none _ _ (also-none _ _ (also-none _ _ (also-none _ _ (also-none _ _ e).0).0).0).0).0).1

both :
    (fs : List (Bytes × ConfigFilterAccounts))
    → All (λ f. IsAllowed f.1.filters) fs
    → All (λ f. All IsNoWrap f.1.filters) fs
    → All IsCompilable fs
both [] a b = tt
both (f ∷ fs) a b = ((a.0, b.0), both fs a.1 b.1)

-- A configuration that the check accepts makes a filter that finds the updates of every message.
pub check_config-HasUpdates :
    (valid : Bytes → Bool) (limits : ConfigLimits) (config : ConfigFilter)
    → check_config limits config ≡ none
    → All (λ f. All IsNoWrap f.1.filters) config.accounts
    → (f : Filter) × (filter_new config ≡ some f)
      × ((message : MessageRef) (level : CommitmentLevel) → HasUpdates valid f message level)
check_config-HasUpdates valid limits config e h = filter_new-HasUpdates valid config (
    both config.accounts
      (check_filter-IsAllowed limits.accounts limits.name_max config.accounts
        config.accounts_data_slice (accounts_checked limits config e))
      h)

filter_new-slices :
    (config : ConfigFilter) (f : Filter)
    → filter_new config ≡ some f
    → f.accounts_data_slices ≡ slices_new config.accounts_data_slice
unfolding filter_new
filter_new-slices config f e = elim (Option-cases (accounts_new config.accounts)) [
  | inl none_made ↦ cc (made none none_made)
  | inr (accounts, some_made) ↦
      let same : f ≡ filter_of config accounts = cc (made (some accounts) some_made) in
      ap (λ (g : Filter). g.accounts_data_slices) same
]
  where
    made :
        (o : Option (List (Bytes × FilterAccountsInner)))
        → accounts_new config.accounts ≡ o
        → elim o [ none ↦ none | some accounts ↦ some (filter_of config accounts) ] ≡ some f
    made o h =
        subst
          (λ x. elim x [ none ↦ none | some accounts ↦ some (filter_of config accounts) ] ≡ some f)
          h e

-- The data of an account behind the slices: all of it if there are none.
abbrev pub IsCut : List DataSlice → Bytes → Bytes → Type 0
IsCut [] source copied = copied ≡ source
IsCut (s ∷ ss) source copied = Cut source (s ∷ ss) copied

abbrev IsSliced : List DataSlice → Bytes → Type 0
IsSliced ss source =
    (n : ℕ) × (copied : Bytes) × (get_slice (slices_new ss) source ≡ some (n, copied))
    × IsCut ss source copied

get_slice-IsSliced :
    (ss : List DataSlice) (source : Bytes)
    → All IsInRange ss
    → total ss < 2 ^ 63
    → IsSliced ss source
unfolding get_slice slices_new
get_slice-IsSliced [] source h t = (length source, source, refl, refl)
get_slice-IsSliced (s ∷ ss) source h t =
    let (copied, e, cut) = get_slice-Cut source s ss h t in (total (s ∷ ss), copied, e, cut)

-- What a filter does for a client without a panic: it finds the updates of a message, and cuts the
-- data of an account for them.
abbrev pub Serves : (Bytes → Bool) → List DataSlice → Filter → Type 0
Serves valid ss f =
    ((message : MessageRef) (level : CommitmentLevel) → HasUpdates valid f message level)
    × ((source : Bytes)
        → (n : ℕ) × (copied : Bytes) × (get_slice f.accounts_data_slices source ≡ some (n, copied))
          × IsCut ss source copied)

-- A configuration that ConfigLimits::check_filter accepts, whatever the limits, makes a filter if
-- no range of bytes of its account filters and none of its slices ends past 2 ^ 64 and the slices
-- are less than 2 ^ 63 bytes together. That filter finds the updates of every message without a
-- panic, each update naming a filter, and cuts the data of every account without a panic, each
-- slice that the data reaches to the end of being copied from its place, in order; without slices
-- all data is copied.
pub check_config-Serves :
    (valid : Bytes → Bool) (limits : ConfigLimits) (config : ConfigFilter)
    → check_config limits config ≡ none
    → All (λ f. All IsNoWrap f.1.filters) config.accounts
    → All IsInRange config.accounts_data_slice
    → total config.accounts_data_slice < 2 ^ 63
    → (f : Filter) × (filter_new config ≡ some f) × Serves valid config.accounts_data_slice f
check_config-Serves valid limits config e h in_range small =
    let (f, made, updates) = check_config-HasUpdates valid limits config e h in
    (
      f,
      made,
      (
        updates,
        λ source.
            subst
              (λ rs.
                (n : ℕ) × (copied : Bytes) × (get_slice rs source ≡ some (n, copied))
                × IsCut config.accounts_data_slice source copied)
              (sym (filter_new-slices config f made))
              (get_slice-IsSliced config.accounts_data_slice source in_range small),
      ),
    )

-- `b` does not start before `a` does, and not before the end of `a`, as a u64 has it.
abbrev pub Apart : DataSlice → DataSlice → Type 0
Apart a b = (a.offset ≤ b.offset) × (wrapping_add a.offset a.length ≤ b.offset)

abbrev pub AllApart : List DataSlice → Type 0
AllApart [] = Unit
AllApart (a ∷ ds) = All (Apart a) ds × AllApart ds

check_order-All :
    (a : DataSlice) (ds : List DataSlice)
    → check_order a ds ≡ none
    → All (λ b. a.offset ≤ b.offset) ds
unfolding check_order
check_order-All a [] e = tt
check_order-All a (b ∷ ds) e =
    (ground (arith, if_fails _ _ (also-none _ _ e).0), check_order-All a ds (also-none _ _ e).1)

check_overlap-All :
    (b : DataSlice) (before : List DataSlice)
    → check_overlap b before ≡ none
    → All (λ a. wrapping_add a.offset a.length ≤ b.offset) before
unfolding check_overlap
check_overlap-All b [] e = tt
check_overlap-All b (a ∷ before) e = (
  ground (arith, if_fails _ _ (also-none _ _ e).0),
  check_overlap-All b before (also-none _ _ e).1,
)

All-middle :
    (P : DataSlice → Type 0) (xs : List DataSlice) (a : DataSlice) (ys : List DataSlice)
    → All P (xs ++ (a ∷ ys))
    → P a
All-middle P [] a ys h = h.0
All-middle P (x ∷ xs) a ys h = All-middle P xs a ys h.1

-- The rounds of the later slices compare them with `a`, which then stands among those before.
overlaps_after :
    (before : List DataSlice) (a : DataSlice) (between after : List DataSlice)
    → check_slices (before ++ (a ∷ between)) after ≡ none
    → All (λ b. wrapping_add a.offset a.length ≤ b.offset) after
unfolding check_slices
overlaps_after before a between [] e = tt
overlaps_after before a between (b ∷ after) e =
    let first = also-none _ _ e in
    (
      All-middle (λ d. wrapping_add d.offset d.length ≤ b.offset) before a between
          (check_overlap-All b (before ++ (a ∷ between)) (also-none _ _ first.0).1),
      overlaps_after before a (between ++ (b ∷ [])) after (
          subst (λ l. check_slices l after ≡ none) (append_assoc before (a ∷ between) (b ∷ []))
            first.1),
    )

All-both :
    (a : DataSlice) (ds : List DataSlice)
    → All (λ b. a.offset ≤ b.offset) ds
    → All (λ b. wrapping_add a.offset a.length ≤ b.offset) ds
    → All (Apart a) ds
All-both a [] g h = tt
All-both a (b ∷ ds) g h = ((g.0, h.0), All-both a ds g.1 h.1)

check_slices-AllApart : (before ds : List DataSlice) → check_slices before ds ≡ none → AllApart ds
unfolding check_slices
check_slices-AllApart before [] e = tt
check_slices-AllApart before (a ∷ ds) e =
    let first = also-none _ _ e in
    (
      All-both a ds (check_order-All a ds (also-none _ _ first.0).0)
          (overlaps_after before a [] ds first.1),
      check_slices-AllApart (before ++ (a ∷ [])) ds first.1,
    )

-- The slices of account data in a configuration that the check accepts are in the order of their
-- offsets, and each starts where those before it have ended, or later, if their ends are counted as
-- 64-bit numbers.
pub check_config-AllApart :
    (limits : ConfigLimits) (config : ConfigFilter)
    → check_config limits config ≡ none
    → AllApart config.accounts_data_slice
unfolding check_filter
check_config-AllApart limits config e =
    check_slices-AllApart [] config.accounts_data_slice
      (also-none _ _ (accounts_checked limits config e)).1
