-- ===== src/Filter/Request/Restore.antt =====
-- A configuration sent as a request and converted back, in filter/src/config.rs.
use dragonmouth.Base.{
  ◌≤◌, ◌≡◌, refl, Bool, false, List, [], ◌∷◌, Option, none, some, arith, ltb, length, map, All,
}
use dragonmouth.Plugin.Message.{Bytes}
use dragonmouth.Filter.Slots.{SlotCommitment, CommitmentLevel, level_of}
use dragonmouth.Filter.Accounts.{
  FilterAccountsLamports, equal, not_equal, less, greater, ConfigFilterAccountsFilter,
  memcmp_filter, data_size, token_account_state, lamports_filter, ConfigFilterAccounts, max_filters,
  max_data_size,
}
use dragonmouth.Filter.Transactions.{FilterTransactionsInner}
use dragonmouth.Filter.Blocks.{FilterBlocksInner}
use dragonmouth.Filter.Compile.{IsShort}
use dragonmouth.Filter.Slices.{DataSlice}
use dragonmouth.Filter.Updates.{ConfigFilter}
use dragonmouth.Filter.Parse.Keys.{IsKey}
use dragonmouth.Filter.Request.{
  Converted, converted, ◌>>=◌, need, bad_pubkey, Texts, convert_all, try_conv_map, transpose,
  conv_map, lamports_try_from, lamports_from, level_try_from,
}
use dragonmouth.Filter.Request.Convert.{
  parse_vec_pubkeys, conv_vec_pubkeys, memcmp_data, within_size, filter_try_from, filter_from,
  filters_try_from, accounts_try_from, accounts_from, signature_try_from, signature_from,
  transactions_try_from, transactions_from, blocks_try_from, blocks_from, commitment_try_from,
  commitment_from, config_try_from, config_from,
}

-- What the other crates promise: a key's or a signature's text is parsed to it, and the number of a
-- commitment level is that level's.
pub record IsFaithful (t : Texts) : Type 0 where
  pub pubkeys : (k : Bytes) → length k ≡ 32 → t.parse_pubkey (t.pubkey_to_string k) ≡ some k
  pub signatures :
      (s : Bytes) → length s ≡ 64 → t.parse_signature (t.signature_to_string s) ≡ some s
  pub levels : (c : SlotCommitment) → t.level_of_i32 (t.commitment_as_i32 c) ≡ some c

-- A list is restored where each of its elements is.
module _ {A B : Type 0} (P : A → Type 0) (from : A → B) (to : B → Converted A)
    (each : (x : A) → P x → to (from x) ≡ converted x) where
  convert_all-map : (xs : List A) → All P xs → convert_all to (map from xs) ≡ converted xs
  unfolding convert_all
  convert_all-map [] h = refl
  convert_all-map (x ∷ xs) h = rw (each x h.0, ◌>>=◌) (rw (convert_all-map xs h.1, ◌>>=◌) refl)

  try_conv_map-conv_map :
      (xs : List (Bytes × A))
      → All (λ x. P x.1) xs
      → try_conv_map to (conv_map from xs) ≡ converted xs
  unfolding try_conv_map conv_map
  try_conv_map-conv_map [] h = refl
  try_conv_map-conv_map ((key, x) ∷ xs) h =
      rw (each x h.0, ◌>>=◌) (rw (try_conv_map-conv_map xs h.1, ◌>>=◌) refl)

-- What a configuration has that can be sent: keys of 32 and signatures of 64 bytes, and for an
-- account at most four tests, whose byte strings are of at most 128 bytes.
abbrev pub Sendable : ConfigFilterAccounts → Type 0
Sendable f =
    All IsKey f.account × All IsKey f.owner × (length f.filters ≤ 4) × All IsShort f.filters

abbrev pub IsSignature : Option Bytes → Type 0
IsSignature none = Unit
IsSignature (some s) = length s ≡ 64

abbrev pub SendableTransaction : FilterTransactionsInner → Type 0
SendableTransaction f =
    IsSignature f.signature
    × All IsKey f.account_include
    × All IsKey f.account_exclude
    × All IsKey f.account_required

abbrev pub SendableBlock : FilterBlocksInner → Type 0
SendableBlock f = All IsKey f.account_include

lamports_restored : (v : FilterAccountsLamports) → lamports_try_from (lamports_from v) ≡ converted v
unfolding lamports_try_from lamports_from
lamports_restored (equal v) = refl
lamports_restored (not_equal v) = refl
lamports_restored (less v) = refl
lamports_restored (greater v) = refl

level_restored : (c : CommitmentLevel) → level_try_from (level_of c) ≡ converted c
unfolding level_try_from
level_restored CommitmentLevel.processed = refl
level_restored CommitmentLevel.confirmed = refl
level_restored CommitmentLevel.finalized = refl

length-map : {A B : Type 0} (f : A → B) (xs : List A) → length (map f xs) ≡ length xs
length-map f [] = refl
length-map f (x ∷ xs) = omega (arith, length-map f xs)

module _ (t : Texts) (faithful : IsFaithful t) where
  pubkeys_restored :
      (ks : List Bytes) → All IsKey ks → parse_vec_pubkeys t (conv_vec_pubkeys t ks) ≡ converted ks
  unfolding parse_vec_pubkeys conv_vec_pubkeys
  pubkeys_restored =
      convert_all-map IsKey t.pubkey_to_string
        (λ (k : Bytes). need (bad_pubkey k) (t.parse_pubkey k))
        (λ k h. rw (faithful.pubkeys k h) refl)

  filter_restored :
      (f : ConfigFilterAccountsFilter)
      → IsShort f
      → filter_try_from t (filter_from t f) ≡ converted f
  unfolding filter_try_from filter_from memcmp_data within_size
  filter_restored (memcmp_filter offset contents) h =
      let fits : ltb max_data_size (length contents) ≡ false = ground arith in rw fits refl
  filter_restored (data_size n) h = refl
  filter_restored token_account_state h = refl
  filter_restored (lamports_filter v) h = rw (lamports_restored v, ◌>>=◌) refl

  filters_restored :
      (fs : List ConfigFilterAccountsFilter)
      → length fs ≤ 4
      → All IsShort fs
      → filters_try_from t (map (filter_from t) fs) ≡ converted fs
  unfolding filters_try_from
  filters_restored fs few short =
      let fits : ltb max_filters (length (map (filter_from t) fs)) ≡ false =
        ground (arith, length-map (filter_from t) fs) in
      rw (fits, filters_try_from)
        (convert_all-map IsShort (filter_from t) (filter_try_from t) filter_restored fs short)

  accounts_restored :
      (f : ConfigFilterAccounts)
      → Sendable f
      → accounts_try_from t (accounts_from t f) ≡ converted f
  unfolding accounts_try_from accounts_from
  accounts_restored f (a, o, few, short) =
      rw (pubkeys_restored f.account a, ◌>>=◌)
        (rw (pubkeys_restored f.owner o, ◌>>=◌)
          (rw (filters_restored f.filters few short, ◌>>=◌) refl))

  signature_restored :
      (s : Option Bytes)
      → IsSignature s
      → transpose (signature_try_from t) (signature_from t s) ≡ converted s
  unfolding transpose signature_try_from signature_from
  signature_restored none h = refl
  signature_restored (some s) h = rw (faithful.signatures s h) refl

  transactions_restored :
      (f : FilterTransactionsInner)
      → SendableTransaction f
      → transactions_try_from t (transactions_from t f) ≡ converted f
  unfolding transactions_try_from transactions_from
  transactions_restored f (s, i, e, r) =
      rw (signature_restored f.signature s, ◌>>=◌)
        (rw (pubkeys_restored f.account_include i, ◌>>=◌)
          (rw (pubkeys_restored f.account_exclude e, ◌>>=◌)
            (rw (pubkeys_restored f.account_required r, ◌>>=◌) refl)))

  blocks_restored :
      (f : FilterBlocksInner) → SendableBlock f → blocks_try_from t (blocks_from t f) ≡ converted f
  unfolding blocks_try_from blocks_from
  blocks_restored f h = rw (pubkeys_restored f.account_include h, ◌>>=◌) refl

  commitment_restored :
      (c : Option CommitmentLevel)
      → transpose (commitment_try_from t) (commitment_from t c) ≡ converted c
  unfolding transpose commitment_try_from commitment_from
  commitment_restored none = refl
  commitment_restored (some c) =
      rw (faithful.levels (level_of c)) (rw (level_restored c, ◌>>=◌) refl)

  any_slots : (xs : List (Bytes × Option Bool)) → All (λ x. Unit {0}) xs
  any_slots [] = tt
  any_slots (x ∷ xs) = (tt, any_slots xs)

  any_slices : (xs : List DataSlice) → All (λ x. Unit {0}) xs
  any_slices [] = tt
  any_slices (x ∷ xs) = (tt, any_slices xs)

  -- A configuration whose keys have 32 and whose signatures 64 bytes, with at most four tests of an
  -- account and byte strings of at most 128 bytes, is restored from the request that is made of it,
  -- if the other crates parse the texts that they print and know the numbers of their levels.
  pub config_try_from-config_from :
      (config : ConfigFilter)
      → All (λ f. Sendable f.1) config.accounts
      → All (λ f. SendableTransaction f.1) config.transactions
      → All (λ f. SendableTransaction f.1) config.transactions_status
      → All (λ f. SendableBlock f.1) config.blocks
      → config_try_from t (config_from t config) ≡ converted config
  unfolding config_try_from config_from
  config_try_from-config_from config a x y b =
      rw
        (
          try_conv_map-conv_map (λ _. Unit {0}) (λ (f : Option Bool). f)
              (λ (f : Option Bool). converted f) (λ f h. refl) config.slots
              (any_slots config.slots),
          ◌>>=◌,
        )
        (rw
          (
            try_conv_map-conv_map Sendable (accounts_from t) (accounts_try_from t) accounts_restored
                config.accounts a,
            ◌>>=◌,
          )
          (rw
            (
              convert_all-map (λ _. Unit {0}) (λ (s : DataSlice). s)
                  (λ (s : DataSlice). converted s) (λ s h. refl) config.accounts_data_slice
                  (any_slices config.accounts_data_slice),
              ◌>>=◌,
            )
            (rw
              (
                try_conv_map-conv_map SendableTransaction (transactions_from t)
                    (transactions_try_from t) transactions_restored config.transactions x,
                ◌>>=◌,
              )
              (rw
                (
                  try_conv_map-conv_map SendableTransaction (transactions_from t)
                      (transactions_try_from t) transactions_restored config.transactions_status y,
                  ◌>>=◌,
                )
                (rw
                  (
                    try_conv_map-conv_map SendableBlock (blocks_from t) (blocks_try_from t)
                        blocks_restored config.blocks b,
                    ◌>>=◌,
                  )
                  (rw (commitment_restored config.commitment, ◌>>=◌) refl))))))
