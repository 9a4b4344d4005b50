-- ===== src/Filter/Sets.antt =====
-- Byte strings compared, and sets of keys as lists of their elements.
use dragonmouth.Base.{
  ◌≡◌, refl, ◌↔◌, Bool, true, false, not, ◌&&◌, List, [], ◌∷◌, Option, none, some, ◌==◌,
  if◌then◌else◌, arith,
}
use dragonmouth.Plugin.Message.{Bytes}

unfoldable pub bytes_eq : Bytes → Bytes → Bool
bytes_eq [] [] = true
bytes_eq [] (y ∷ ys) = false
bytes_eq (x ∷ xs) [] = false
bytes_eq (x ∷ xs) (y ∷ ys) = x == y && bytes_eq xs ys

pub bytes_eq_sound : (xs ys : Bytes) → bytes_eq xs ys ≡ true → xs ≡ ys
unfolding bytes_eq
bytes_eq_sound [] [] h = refl
bytes_eq_sound [] (y ∷ ys) h = ground (arith, h)
bytes_eq_sound (x ∷ xs) [] h = ground (arith, h)
bytes_eq_sound (x ∷ xs) (y ∷ ys) h = ground (arith, h, bytes_eq_sound xs ys)

pub bytes_eq_self : (xs : Bytes) → bytes_eq xs xs ≡ true
unfolding bytes_eq
bytes_eq_self [] = refl
bytes_eq_self (x ∷ xs) = ground (arith, bytes_eq_self xs)

-- `set.contains(key)`
unfoldable pub contains : List Bytes → Bytes → Bool
contains [] key = false
contains (k ∷ ks) key = let rest = contains ks key in if bytes_eq k key then true else rest

-- `a.intersection(b).next().is_some()`
unfoldable pub intersects : List Bytes → List Bytes → Bool
intersects [] keys = false
intersects (k ∷ ks) keys = let rest = intersects ks keys in if contains keys k then true else rest

-- `a.is_subset(b)`
unfoldable pub is_subset : List Bytes → List Bytes → Bool
is_subset [] keys = true
is_subset (k ∷ ks) keys = let rest = is_subset ks keys in if contains keys k then rest else false

abbrev bool_eq : Bool → Bool → Bool
bool_eq true b = b
bool_eq false b = not b

-- Does an optional flag ask for another value than the message has?
unfoldable pub flag_differs : Option Bool → Bool → Bool
flag_differs none b = false
flag_differs (some flag) b = not (bool_eq flag b)

-- `filters.is_empty().not().then(…)`
abbrev pub nonempty : List Bytes → Option (List Bytes)
nonempty [] = none
nonempty (x ∷ xs) = some (x ∷ xs)

module _ {A B : Type 0} where
  -- `iter().filter_map(f)`, for an `f` that can panic, which is the outer `none`.
  unfoldable pub filter_map : (A → Option (Option B)) → List A → Option (List B)
  filter_map f [] = some []
  filter_map f (x ∷ xs) = elim (f x) [
    | none ↦ none
    | some found ↦ elim (filter_map f xs) [
      | none ↦ none
      | some rest ↦ some (elim found [ none ↦ rest | some y ↦ y ∷ rest ])
    ]
  ]

-- Where a computation that can panic, `none`, decides a proposition.
abbrev pub Decides : Option Bool → Type 0 → Type 0
Decides o P = (b : Bool) × (o ≡ some b) × ((b ≡ true) ↔ P)
