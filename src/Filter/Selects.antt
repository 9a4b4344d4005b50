-- ===== src/Filter/Selects.antt =====
-- What the tests on sets and flags in filter/src/filter.rs decide, and the names that a loop over
-- named filters takes.
use mathlib.Core.List.{Memᴰ}
use mathlib.Core.List.Memᴰ
use dragonmouth.Base.{
  ◌≡◌, refl, sym, subst, ◌↔◌, ◌⊎◌, inl, inr, Bool, true, false, not, ◌&&◌, List, [], ◌∷◌, Option,
  none, some, Bool-cases, All, is_empty, arith,
}
use dragonmouth.Plugin.Message.{Bytes}
use dragonmouth.Filter.Sets.{
  bytes_eq, bytes_eq_sound, bytes_eq_self, contains, intersects, is_subset, flag_differs,
  filter_map,
}

pub false-true : {b : Bool} → b ≡ true → b ≡ false → ⊥
false-true e f = ground (arith, e, f)

pub contains-Mem : (ks : List Bytes) (k : Bytes) → (contains ks k ≡ true) ↔ Memᴰ k ks
unfolding contains
contains-Mem [] k = ((λ h. absurd (ground (arith, h))), (λ m. absurd (Memᴰ.not-nil m)))
contains-Mem (x ∷ ks) k = elim (Bool-cases (bytes_eq x k)) [
  | inl e ↦ rw e ((λ u. Memᴰ.head (sym (bytes_eq_sound x k e))), (λ m. refl))
  | inr e ↦
      rw e ((λ h. Memᴰ.tail ((contains-Mem ks k).0 h)), (λ m. later e (contains-Mem ks k).1 m))
]
  where
    later :
        bytes_eq x k ≡ false
        → (Memᴰ k ks → contains ks k ≡ true)
        → Memᴰ k (x ∷ ks)
        → contains ks k ≡ true
    later e ih (Memᴰ.head f) =
        absurd (false-true (subst (λ l. bytes_eq l k ≡ true) f (bytes_eq_self k)) e)
    later e ih (Memᴰ.tail m) = ih m

-- A key of both sets.
abbrev pub Shared : List Bytes → List Bytes → Type 0
Shared ks keys = (k : Bytes) × Memᴰ k ks × Memᴰ k keys

pub intersects-Shared : (ks keys : List Bytes) → (intersects ks keys ≡ true) ↔ Shared ks keys
unfolding intersects
intersects-Shared [] keys = ((λ h. absurd (ground (arith, h))), (λ s. absurd (Memᴰ.not-nil s.1)))
intersects-Shared (x ∷ ks) keys = elim (Bool-cases (contains keys x)) [
  | inl e ↦ rw e ((λ u. (x, Memᴰ.head refl, (contains-Mem keys x).0 e)), (λ s. refl))
  | inr e ↦ rw e (
    (λ h. more ((intersects-Shared ks keys).0 h)),
    (λ s. later e (intersects-Shared ks keys).1 s.0 s.1 s.2),
  )
]
  where
    more : Shared ks keys → Shared (x ∷ ks) keys
    more s = (s.0, Memᴰ.tail s.1, s.2)

    later :
        contains keys x ≡ false
        → (Shared ks keys → intersects ks keys ≡ true)
        → (k : Bytes) → Memᴰ k (x ∷ ks)
        → Memᴰ k keys
        → intersects ks keys ≡ true
    later e ih k (Memᴰ.head f) n =
        absurd (false-true ((contains-Mem keys x).1 (subst (λ l. Memᴰ l keys) f n)) e)
    later e ih k (Memᴰ.tail m) n = ih (k, m, n)

pub is_subset-All : (ks keys : List Bytes) → (is_subset ks keys ≡ true) ↔ All (λ k. Memᴰ k keys) ks
unfolding is_subset
is_subset-All [] keys = ((λ h. tt), (λ u. refl))
is_subset-All (x ∷ ks) keys = elim (Bool-cases (contains keys x)) [
  | inl e ↦ rw e (
    (λ h. ((contains-Mem keys x).0 e, (is_subset-All ks keys).0 h)),
    (λ q. (is_subset-All ks keys).1 q.1),
  )
  | inr e ↦ rw e (
    (λ h. absurd (ground (arith, h))),
    (λ q. absurd (false-true ((contains-Mem keys x).1 q.0) e)),
  )
]

-- An empty set of keys asks nothing.
abbrev pub IfAny : List Bytes → Type 0 → Type 0
IfAny ks P = (ks ≡ []) ⊎ P

empty_cases : (ks : List Bytes) → (ks ≡ []) ⊎ (is_empty ks ≡ false)
empty_cases [] = inl refl
empty_cases (k ∷ ks) = inr refl

-- The test `!set.is_empty() && !wanted`, which turns a message down.
pub set_test :
    (ks : List Bytes) (b : Bool) (P : Type 0)
    → (b ≡ true) ↔ P
    → ((not (is_empty ks) && not b) ≡ false) ↔ IfAny ks P
set_test [] b P iff = ((λ h. inl refl), (λ q. refl))
set_test (k ∷ ks) true P iff = ((λ h. inr (iff.0 refl)), (λ q. refl))
set_test (k ∷ ks) false P iff = ((λ h. absurd (ground (arith, h))), (λ q. refute q))
  where
    refute : IfAny (k ∷ ks) P → (not (is_empty (k ∷ ks)) && not false) ≡ false
    refute (inl e) = absurd (ground (arith, e))
    refute (inr p) = absurd (ground (arith, iff.1 p))

-- An optional flag agrees with a message.
abbrev pub Agrees : Option Bool → Bool → Type 0
Agrees none b = Unit
Agrees (some flag) b = flag ≡ b

pub flag_differs-Agrees : (o : Option Bool) (b : Bool) → (flag_differs o b ≡ false) ↔ Agrees o b
unfolding flag_differs
flag_differs-Agrees none b = ((λ h. tt), (λ u. refl))
flag_differs-Agrees (some true) true = ((λ h. refl), (λ u. refl))
flag_differs-Agrees (some false) false = ((λ h. refl), (λ u. refl))
flag_differs-Agrees (some true) false = ground arith
flag_differs-Agrees (some false) true = ground arith

module _ {I : Type 0} (P : I → Type 0) where
  -- The names, in order, of the filters that accept.
  pub data Taken : List (Bytes × I) → List Bytes → Type 0 where
    taken_none : Taken [] []
    taken :
        {name : Bytes} {f : I} {fs : List (Bytes × I)} {ns : List Bytes}
        → P f
        → Taken fs ns
        → Taken ((name, f) ∷ fs) (name ∷ ns)
    passed :
        {name : Bytes} {f : I} {fs : List (Bytes × I)} {ns : List Bytes}
        → (P f → ⊥)
        → Taken fs ns
        → Taken ((name, f) ∷ fs) ns

  -- A closure that takes the name or not, as the filter accepts or not.
  abbrev pub Selects : (Bytes × I → Option (Option Bytes)) → Bytes × I → Type 0
  Selects select f = ((select f ≡ some (some f.0)) × P f.1) ⊎ ((select f ≡ some none) × (P f.1 → ⊥))

  pub filter_map-Taken :
      (select : Bytes × I → Option (Option Bytes)) (fs : List (Bytes × I))
      → All (Selects select) fs
      → (ns : List Bytes) × (filter_map select fs ≡ some ns) × Taken fs ns
  unfolding filter_map
  filter_map-Taken select [] h = ([], refl, taken_none)
  filter_map-Taken select ((name, f) ∷ fs) h = go h.0 (filter_map-Taken select fs h.1)
    where
      go :
          Selects select (name, f)
          → ((ns : List Bytes) × (filter_map select fs ≡ some ns) × Taken fs ns)
          → (ns : List Bytes) × (filter_map select ((name, f) ∷ fs) ≡ some ns)
            × Taken ((name, f) ∷ fs) ns
      go (inl q) r = (name ∷ r.0, rw (filter_map, q.0, r.1) refl, taken q.1 r.2)
      go (inr q) r = (r.0, rw (filter_map, q.0, r.1) refl, passed q.1 r.2)
