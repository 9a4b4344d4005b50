-- ===== src/Plugin/BTree.antt =====
-- The standard library's `BTreeMap<u64, V>`: entries in the order of their keys, none twice.
use dragonmouth.Base.{
  ℕ, ◌<◌, ◌≤◌, ◌≡◌, refl, List, [], ◌∷◌, Option, none, some, if◌then◌else◌, ltb, ◌==◌, arith,
  length,
}

module _ {V : Type 0} where
  unfoldable pub get : ℕ → List (ℕ × V) → Option V
  get k [] = none
  get k ((j, v) ∷ m) = if j == k then some v else get k m

  unfoldable pub insert : ℕ → V → List (ℕ × V) → List (ℕ × V)
  insert k v [] = (k, v) ∷ []
  insert k v ((j, w) ∷ m) =
      if ltb k j then (k, v) ∷ (j, w) ∷ m else if j == k then (k, v) ∷ m else (j, w) ∷ insert k v m

  unfoldable pub remove : ℕ → List (ℕ × V) → List (ℕ × V)
  remove k [] = []
  remove k ((j, v) ∷ m) = if j == k then m else (j, v) ∷ remove k m

  -- `first_key_value`, for the key.
  abbrev pub first_key : List (ℕ × V) → Option ℕ
  first_key [] = none
  first_key ((k, v) ∷ m) = some k

  -- Every key is above `b`.
  abbrev pub Above : ℕ → List (ℕ × V) → Type 0
  Above b [] = Unit
  Above b ((k, v) ∷ m) = (b < k) × Above b m

  -- The keys rise.
  abbrev pub IsSorted : List (ℕ × V) → Type 0
  IsSorted [] = Unit
  IsSorted ((k, v) ∷ m) = Above k m × IsSorted m

  -- What is left when the entries with keys up to `b` are dropped from the front.
  unfoldable pub drop_upto : ℕ → List (ℕ × V) → List (ℕ × V)
  drop_upto b [] = []
  drop_upto b ((k, v) ∷ m) = if ltb b k then (k, v) ∷ m else drop_upto b m

  pub Above-mono : (a b : ℕ) (m : List (ℕ × V)) → a ≤ b → Above b m → Above a m
  Above-mono a b [] h s = tt
  Above-mono a b ((k, v) ∷ m) h s = (omega arith, Above-mono a b m h s.1)

  pub get-Above : (b k : ℕ) (m : List (ℕ × V)) (v : V) → Above b m → get k m ≡ some v → b < k
  unfolding get
  get-Above b k [] v a e = cc
  get-Above b k ((j, w) ∷ m) v a e = ground (arith, get-Above b k m v)

  pub get-insert :
      (k j : ℕ) (v : V) (m : List (ℕ × V))
      → get j (insert k v m) ≡ (if k == j then some v else get j m)
  unfolding get insert
  get-insert k j v [] = refl
  get-insert k j v ((i, w) ∷ m) = ground (arith, get-insert k j v m)

  insert-Above : (b k : ℕ) (v : V) (m : List (ℕ × V)) → b < k → Above b m → Above b (insert k v m)
  unfolding insert
  insert-Above b k v [] h a = (h, tt)
  insert-Above b k v ((j, w) ∷ m) h a = ground (arith, insert-Above b k v m)

  pub insert-IsSorted : (k : ℕ) (v : V) (m : List (ℕ × V)) → IsSorted m → IsSorted (insert k v m)
  unfolding insert
  insert-IsSorted k v [] s = (tt, tt)
  insert-IsSorted k v ((j, w) ∷ m) s =
      ground (arith, insert-IsSorted k v m, insert-Above j k v m, Above-mono k j m)

  pub drop_upto-Above : (b : ℕ) (m : List (ℕ × V)) → IsSorted m → Above b (drop_upto b m)
  unfolding drop_upto
  drop_upto-Above b [] s = tt
  drop_upto-Above b ((k, v) ∷ m) s = ground (arith, drop_upto-Above b m, Above-mono b k m)

  pub drop_upto-IsSorted : (b : ℕ) (m : List (ℕ × V)) → IsSorted m → IsSorted (drop_upto b m)
  unfolding drop_upto
  drop_upto-IsSorted b [] s = tt
  drop_upto-IsSorted b ((k, v) ∷ m) s = ground (arith, drop_upto-IsSorted b m)

  pub length-drop_upto : (b : ℕ) (m : List (ℕ × V)) → length (drop_upto b m) ≤ length m
  unfolding drop_upto
  length-drop_upto b [] = omega arith
  length-drop_upto b ((k, v) ∷ m) = ground (arith, length-drop_upto b m)

  -- An entry that is left was there before.
  pub get-drop_upto :
      (b k : ℕ) (m : List (ℕ × V)) (v : V)
      → IsSorted m
      → get k (drop_upto b m) ≡ some v
      → get k m ≡ some v
  unfolding get drop_upto
  get-drop_upto b k [] v s e = e
  get-drop_upto b k ((j, w) ∷ m) v s e =
      ground (arith, get-drop_upto b k m v s.1, get-Above j k m v s.0)

  pub remove-Above : (b : ℕ) (m : List (ℕ × V)) (k : ℕ) → Above b m → k ≤ b → remove k m ≡ m
  unfolding remove
  remove-Above b [] k a h = refl
  remove-Above b ((j, w) ∷ m) k a h = ground (arith, remove-Above b m k a.1 h)
