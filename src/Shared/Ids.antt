-- ===== src/Shared/Ids.antt =====
-- The ids of the handles, shared/src/shutdown.rs: a new one belongs to no live handle.
use dragonmouth.Base.{
  ℕ, suc, ◌+◌, ◌≤◌, ◌<◌, ◌==◌, ◌≡◌, refl, sym, ◌∙◌, subst, ◌≢◌, inl, inr, List, [], ◌∷◌, Option,
  none, some, if◌then◌else◌, Bool-cases, length, arith,
}
use dragonmouth.Plugin.BTree.{get, Above, IsSorted, get-insert}
use dragonmouth.Shared.Shutdown.{State, first_gap, get_next_id, clone}

abbrev pub Wakers : Type 0
Wakers = List (ℕ × Option ℕ)

AtLeast : ℕ → Wakers → Type 0
AtLeast n [] = Unit
AtLeast n ((k, w) ∷ m) = (n ≤ k) × AtLeast n m

Above-AtLeast : (k : ℕ) (m : Wakers) → Above k m → AtLeast (suc k) m
unfolding AtLeast
Above-AtLeast k [] a = tt
Above-AtLeast k ((j, w) ∷ m) a = (omega (arith, a.0), Above-AtLeast k m a.1)

get-AtLeast : (n k : ℕ) (m : Wakers) → AtLeast n m → k < n → get k m ≡ none
unfolding AtLeast get
get-AtLeast n k [] a h = refl
get-AtLeast n k ((j, w) ∷ m) a h = ground (arith, a.0, get-AtLeast n k m a.1 h)

-- The first index from `index` on that is no key.
next_from : ℕ → Wakers → ℕ
next_from index [] = index
next_from index ((key, w) ∷ m) =
    let rest = next_from (suc index) m in if index == key then rest else index

or_length : ℕ → Wakers → Option ℕ → ℕ
or_length index m none = index + length m
or_length index m (some i) = i

gap_next : (index : ℕ) (m : Wakers) → or_length index m (first_gap index m) ≡ next_from index m
unfolding first_gap next_from or_length
gap_next index [] = omega arith
gap_next index ((key, w) ∷ m) = elim (Bool-cases (index == key)) [
  | inr e ↦ rw e refl
  | inl e ↦ rw e (shift (first_gap (suc index) m) ∙ gap_next (suc index) m)
]
  where
    shift : (o : Option ℕ) → or_length index ((key, w) ∷ m) o ≡ or_length (suc index) m o
    shift none = omega arith
    shift (some i) = refl

next_from-free :
    (index : ℕ) (m : Wakers)
    → IsSorted m
    → AtLeast index m
    → (get (next_from index m) m ≡ none) × (index ≤ next_from index m)
unfolding AtLeast get next_from
next_from-free index [] s a = (refl, omega arith)
next_from-free index ((key, w) ∷ m) s a =
    ground (arith, next_from-free (suc index) m s.1, at_index, above)
  where
    at_index : index ≡ key → AtLeast (suc index) m
    at_index e = subst (λ k. AtLeast (suc k) m) (sym e) (Above-AtLeast key m s.0)

    above : index < key → get index m ≡ none
    above lt = get-AtLeast (suc key) index m (Above-AtLeast key m s.0) (omega (arith, lt))

IsSorted-AtLeast : (m : Wakers) → AtLeast 0 m
unfolding AtLeast
IsSorted-AtLeast [] = tt
IsSorted-AtLeast ((k, w) ∷ m) = (omega arith, IsSorted-AtLeast m)

next_is : (s : State) → get_next_id s ≡ next_from 0 s.map
unfolding get_next_id or_length
next_is s = same (first_gap 0 s.map) ∙ gap_next 0 s.map
  where
    same :
        (o : Option ℕ) → (elim o [ none ↦ length s.map | some index ↦ index ]) ≡ or_length 0 s.map o
    same none = omega arith
    same (some i) = refl

-- A new handle's id belongs to no live handle; it is then in the map, and every other handle has in
-- it what it had before.
pub clone-fresh :
    (s : State)
    → IsSorted s.map
    → (get (clone s).1 s.map ≡ none)
      × (get (clone s).1 (clone s).0.map ≡ some none)
      × ((id : ℕ) → id ≢ (clone s).1 → get id (clone s).0.map ≡ get id s.map)
unfolding clone
clone-fresh s sorted = (
  rw (next_is s) (next_from-free 0 s.map sorted (IsSorted-AtLeast s.map)).0,
  ground (arith, get-insert (get_next_id s) (get_next_id s) none s.map),
  (λ id ne. ground (arith, get-insert (get_next_id s) id none s.map, ne)),
)
