-- ===== src/Filter/Compile.antt =====
-- `FilterAccountsState::new` of filter/src/filter.rs: the compiled filter says what the configured
-- tests say.
use dragonmouth.Base.{
  ℕ, suc, ◌+◌, ◌≤◌, ◌<◌, ◌≡◌, refl, subst, ◌↔◌, Bool, true, false, List, [], ◌∷◌, ◌++◌, Option,
  none, some, ltb, leb, All, length, length-append, arith,
}
use dragonmouth.Plugin.Message.{Bytes}
use dragonmouth.Filter.Sets.{Decides}
use dragonmouth.Filter.Occurs.{NoWrap}
use dragonmouth.Filter.Holds.{Holds, HasSize, Matches, is_match-Decides}
use dragonmouth.Filter.Accounts.{
  ConfigFilterAccountsFilter, memcmp_filter, data_size, token_account_state, lamports_filter,
  FilterAccountsState, FilterAccountsLamports, empty_state, add_filter, add_filters, state_new,
  is_match,
}

-- What the limits of the configuration let through: few tests, short texts, one size.
abbrev pub IsShort : ConfigFilterAccountsFilter → Type 0
IsShort (memcmp_filter offset bytes) = length bytes ≤ 128
IsShort _ = Unit

abbrev pub IsNoWrap : ConfigFilterAccountsFilter → Type 0
IsNoWrap (memcmp_filter offset bytes) = NoWrap (offset, bytes)
IsNoWrap _ = Unit

abbrev pub sizes : List ConfigFilterAccountsFilter → ℕ
sizes [] = 0
sizes (data_size n ∷ filters) = suc (sizes filters)
sizes (_ ∷ filters) = sizes filters

pub record IsAllowed (filters : List ConfigFilterAccountsFilter) : Type 0 where
  pub few : length filters ≤ 4
  pub short : All IsShort filters
  pub one_size : sizes filters ≤ 1

abbrev has_size : Option ℕ → ℕ
has_size none = 0
has_size (some n) = 1

-- Room for more tests in a state that is being built.
record HasRoom (s : FilterAccountsState) (filters : List ConfigFilterAccountsFilter) : Type 0 where
  memcmps : length s.memcmp + length filters ≤ 4
  lamportss : length s.lamports + length filters ≤ 4
  short : All IsShort filters
  one_size : has_size s.datasize + sizes filters ≤ 1

module _ {A : Type 0} (P : A → Type 0) where
  All-snoc : (xs : List A) (x : A) → All P (xs ++ (x ∷ [])) ↔ (All P xs × P x)
  All-snoc [] x = ((λ h. (tt, h.0)), (λ h. (h.1, tt)))
  All-snoc (y ∷ ys) x = (
    (λ h. ((h.0, ((All-snoc ys x).0 h.1).0), ((All-snoc ys x).0 h.1).1)),
    (λ h. (h.0.0, (All-snoc ys x).1 (h.0.1, h.1))),
  )

at_most : (a b : ℕ) → a ≤ b → ltb b a ≡ false
at_most a b h = ground arith

below : (a b : ℕ) → a < b → leb b a ≡ false
below a b h = ground arith

add_memcmp :
    (s : FilterAccountsState) (offset : ℕ) (bytes : Bytes)
    → length bytes ≤ 128
    → length s.memcmp < 4
    → add_filter s (memcmp_filter offset bytes)
      ≡ some (record s { memcmp = s.memcmp ++ ((offset, bytes) ∷ []) })
unfolding add_filter
add_memcmp s offset bytes h k = rw (at_most (length bytes) 128 h, below (length s.memcmp) 4 k) refl

add_lamports :
    (s : FilterAccountsState) (value : FilterAccountsLamports)
    → length s.lamports < 4
    → add_filter s (lamports_filter value)
      ≡ some (record s { lamports = s.lamports ++ (value ∷ []) })
unfolding add_filter
add_lamports s value k = rw (below (length s.lamports) 4 k) refl

add_filters-step :
    (s s' : FilterAccountsState) (f : ConfigFilterAccountsFilter)
    (filters : List ConfigFilterAccountsFilter)
    → add_filter s f ≡ some s'
    → add_filters s' filters ≡ add_filters s (f ∷ filters)
unfolding add_filters
add_filters-step s s' f filters e = rw (add_filters, e) refl

module _ (valid : Bytes → Bool) (lamports : ℕ) (contents : Bytes) where
  -- A state built from another by more tests.
  record Built (s : FilterAccountsState) (filters : List ConfigFilterAccountsFilter)
      (o : Option FilterAccountsState) : Type 0 where
    state : FilterAccountsState
    is_state : o ≡ some state
    says :
        Matches valid lamports contents state
        ↔ (Matches valid lamports contents s × All (Holds valid lamports contents) filters)
    no_wrap : All NoWrap s.memcmp → All IsNoWrap filters → All NoWrap state.memcmp

  -- One test more in front.
  further :
      (s s' : FilterAccountsState) (f : ConfigFilterAccountsFilter)
      (filters : List ConfigFilterAccountsFilter) (o : Option FilterAccountsState)
      → (Matches valid lamports contents s'
          ↔ (Matches valid lamports contents s × Holds valid lamports contents f))
      → (All NoWrap s.memcmp → IsNoWrap f → All NoWrap s'.memcmp)
      → Built s' filters o
      → Built s (f ∷ filters) o
  further s s' f filters o iff keeps b = record {
    state = b.state;
    is_state = b.is_state;
    says = (
      (λ h. ((iff.0 (b.says.0 h).0).0, ((iff.0 (b.says.0 h).0).1, (b.says.0 h).1))),
      (λ h. b.says.1 (iff.1 (h.0, h.1.0), h.1.1)),
    );
    no_wrap = λ h u. b.no_wrap (keeps h u.0) u.1;
  }

  built :
      (s : FilterAccountsState) (filters : List ConfigFilterAccountsFilter)
      → HasRoom s filters
      → Built s filters (add_filters s filters)
  unfolding add_filters add_filter
  built s [] room = record {
    state = s;
    is_state = refl;
    says = ((λ h. (h, tt)), (λ h. h.0));
    no_wrap = λ h u. h;
  }
  built s (memcmp_filter offset bytes ∷ filters) room =
      subst (Built s (memcmp_filter offset bytes ∷ filters))
        (add_filters-step s _ (memcmp_filter offset bytes) filters
          (add_memcmp s offset bytes room.short.0 (ground (arith, room.memcmps))))
        (further s (record s { memcmp = s.memcmp ++ ((offset, bytes) ∷ []) })
          (memcmp_filter offset bytes) filters _
          (
            (λ h. (
              (h.0, h.1, h.2, ((All-snoc _ s.memcmp (offset, bytes)).0 h.3).0),
              ((All-snoc _ s.memcmp (offset, bytes)).0 h.3).1,
            )),
            (λ h. (h.0.0, h.0.1, h.0.2, (All-snoc _ s.memcmp (offset, bytes)).1 (h.0.3, h.1))),
          )
          (λ h u. (All-snoc _ s.memcmp (offset, bytes)).1 (h, u))
          (built _ filters (record {
            memcmps = ground (arith, room.memcmps, length-append s.memcmp ((offset, bytes) ∷ []));
            lamportss = ground (arith, room.lamportss);
            short = room.short.1;
            one_size = room.one_size;
          })))
  built s (data_size n ∷ filters) room =
      further s (record s { datasize = some n }) (data_size n) filters _
        (
          (λ h. ((none_fits s.datasize (no_size s.datasize room.one_size), h.1, h.2, h.3), h.0)),
          (λ h. (h.1, h.0.1, h.0.2, h.0.3)),
        )
        (λ h u. h)
        (built _ filters (record {
          memcmps = ground (arith, room.memcmps);
          lamportss = ground (arith, room.lamportss);
          short = room.short.1;
          one_size = ground (arith, room.one_size);
        }))
    where
      no_size : (o : Option ℕ) → has_size o + suc (sizes filters) ≤ 1 → o ≡ none
      no_size none h = refl
      no_size (some k) h = absurd (omega arith)

      none_fits : (o : Option ℕ) → o ≡ none → HasSize valid lamports contents o
      none_fits none e = tt
      none_fits (some k) e = ground (arith, e)
  built s (token_account_state ∷ filters) room =
      further s (record s { token_account = true }) token_account_state filters _
        (
          (λ h. ((h.0, (λ u. h.1 refl), h.2, h.3), h.1 refl)),
          (λ h. (h.0.0, (λ u. h.1), h.0.2, h.0.3)),
        )
        (λ h u. h)
        (built _ filters (record {
          memcmps = ground (arith, room.memcmps);
          lamportss = ground (arith, room.lamportss);
          short = room.short.1;
          one_size = room.one_size;
        }))
  built s (lamports_filter value ∷ filters) room =
      subst (Built s (lamports_filter value ∷ filters))
        (add_filters-step s _ (lamports_filter value) filters
          (add_lamports s value (ground (arith, room.lamportss))))
        (further s (record s { lamports = s.lamports ++ (value ∷ []) }) (lamports_filter value)
          filters _
          (
            (λ h. (
              (h.0, h.1, ((All-snoc _ s.lamports value).0 h.2).0, h.3),
              ((All-snoc _ s.lamports value).0 h.2).1,
            )),
            (λ h. (h.0.0, h.0.1, (All-snoc _ s.lamports value).1 (h.0.2, h.1), h.0.3)),
          )
          (λ h u. h)
          (built _ filters (record {
            memcmps = ground (arith, room.memcmps);
            lamportss = ground (arith, room.lamportss, length-append s.lamports (value ∷ []));
            short = room.short.1;
            one_size = room.one_size;
          })))

  -- A list of tests within the limits of the configuration compiles without a panic, and the filter
  -- that it gives matches an account exactly if every test holds of it, provided that no range of
  -- bytes in a test ends past 2 ^ 64.
  pub state_new-Holds :
      (filters : List ConfigFilterAccountsFilter)
      → IsAllowed filters
      → All IsNoWrap filters
      → (s : FilterAccountsState) × (state_new filters ≡ some s)
        × Decides (is_match valid s lamports contents) (All (Holds valid lamports contents) filters)
  unfolding state_new
  state_new-Holds filters a n = (
    start.state,
    start.is_state,
    (
      decided.0,
      decided.1,
      (
        (λ h. (start.says.0 (decided.2.0 h)).1),
        (λ h. decided.2.1 (start.says.1 ((tt, (λ u. absurd (ground (arith, u))), tt, tt), h))),
      ),
    ),
  )
    where
      start : Built empty_state filters (add_filters empty_state filters)
      start = built empty_state filters (record {
        memcmps = ground (arith, a.few);
        lamportss = ground (arith, a.few);
        short = a.short;
        one_size = omega (arith, a.one_size);
      })

      decided :
          Decides
            (is_match valid start.state lamports contents)
            (Matches valid lamports contents start.state)
      decided = is_match-Decides valid lamports contents start.state (start.no_wrap tt n)
