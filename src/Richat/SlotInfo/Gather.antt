-- ===== src/Richat/SlotInfo/Gather.antt =====
-- Gathering the messages of one kind, through the appends and the clearing of an entry.
use mathlib.Core.List.{Memᴰ}
use dragonmouth.Base.{
  ℕ, zero, suc, ◌≡◌, refl, ◌∙◌, List, [], ◌∷◌, ◌++◌, Option, none, some, length, get_elem?, set,
  sym, subst, ap,
}
use dragonmouth.Filter.Message.{Message}
use dragonmouth.Richat.SlotInfo.{gather, cons_some}

-- The messages of one kind among those that came.
unfoldable pub pick : {A : Type 0} → (Message → Option A) → List Message → List A
pick f [] = []
pick f (m ∷ ms) = cons_some (f m) (pick f ms)

module _ {ℓ} {A : Type ℓ} where
  pub get_elem?-append_left :
      (xs ys : List A) (i : ℕ) {x : A} → get_elem? xs i ≡ some x → get_elem? (xs ++ ys) i ≡ some x
  get_elem?-append_left [] ys i e = cc
  get_elem?-append_left (x ∷ xs) ys zero e = e
  get_elem?-append_left (x ∷ xs) ys (suc i) e = get_elem?-append_left xs ys i e

  pub get_elem?-append_last :
      (xs : List A) (x : A) → get_elem? (xs ++ (x ∷ [])) (length xs) ≡ some x
  get_elem?-append_last [] x = refl
  get_elem?-append_last (y ∷ xs) x = get_elem?-append_last xs x

module _ {A : Type 0} where
  cons_some-append : (o : Option A) (xs ys : List A) → cons_some o (xs ++ ys) ≡ cons_some o xs ++ ys
  unfolding cons_some
  cons_some-append none xs ys = refl
  cons_some-append (some a) xs ys = refl

  cons_some-Mem : (o : Option A) (xs : List A) (a : A) → Memᴰ a xs → Memᴰ a (cons_some o xs)
  unfolding cons_some
  cons_some-Mem none xs a h = h
  cons_some-Mem (some b) xs a h = Memᴰ.tail h

  cons_some_sub :
      (o : Option A) (xs ys : List A) (a : A)
      → (Memᴰ a xs → Memᴰ a ys)
      → Memᴰ a (cons_some o xs)
      → Memᴰ a (cons_some o ys)
  unfolding cons_some
  cons_some_sub none xs ys a g h = g h
  cons_some_sub (some b) xs ys a g (Memᴰ.head e) = Memᴰ.head e
  cons_some_sub (some b) xs ys a g (Memᴰ.tail m) = Memᴰ.tail (g m)

module _ {A : Type 0} (f : Message → Option A) where
  pub pick-append : (xs ys : List Message) → pick f (xs ++ ys) ≡ pick f xs ++ pick f ys
  unfolding pick
  pick-append [] ys = refl
  pick-append (m ∷ xs) ys =
      ap (cons_some (f m)) (pick-append xs ys) ∙ cons_some-append (f m) (pick f xs) (pick f ys)

  pub gather-append :
      (xs ys : List (Option Message)) → gather f (xs ++ ys) ≡ gather f xs ++ gather f ys
  unfolding gather
  gather-append [] ys = refl
  gather-append (none ∷ xs) ys = gather-append xs ys
  gather-append (some m ∷ xs) ys =
      ap (cons_some (f m)) (gather-append xs ys)
      ∙ cons_some-append (f m) (gather f xs) (gather f ys)

  -- Clearing a message of another kind changes nothing.
  pub gather-set :
      (xs : List (Option Message)) (i : ℕ) (m : Message)
      → get_elem? xs i ≡ some (some m)
      → f m ≡ none
      → gather f (set xs i none) ≡ gather f xs
  unfolding gather cons_some
  gather-set [] i m e h = cc
  gather-set (none ∷ xs) zero m e h = cc
  gather-set (some n ∷ xs) zero m e h =
      let same : n ≡ m = cc in let other : f n ≡ none = ap f same ∙ h in rw (gather, other) refl
  gather-set (none ∷ xs) (suc i) m e h = gather-set xs i m e h
  gather-set (some n ∷ xs) (suc i) m e h = ap (cons_some (f n)) (gather-set xs i m e h)

  -- Clearing adds nothing.
  pub gather-set_sub :
      (xs : List (Option Message)) (i : ℕ) (a : A)
      → Memᴰ a (gather f (set xs i none))
      → Memᴰ a (gather f xs)
  unfolding gather
  gather-set_sub [] i a h = h
  gather-set_sub (none ∷ xs) zero a h = h
  gather-set_sub (some n ∷ xs) zero a h = cons_some-Mem (f n) (gather f xs) a h
  gather-set_sub (none ∷ xs) (suc i) a h = gather-set_sub xs i a h
  gather-set_sub (some n ∷ xs) (suc i) a h =
      cons_some_sub (f n) (gather f (set xs i none)) (gather f xs) a (gather-set_sub xs i a) h

  -- What stands at an index is gathered.
  pub gather-Mem :
      (xs : List (Option Message)) (i : ℕ) (m : Message) (a : A)
      → get_elem? xs i ≡ some (some m)
      → f m ≡ some a
      → Memᴰ a (gather f xs)
  unfolding gather cons_some
  gather-Mem [] i m a e h = cc
  gather-Mem (none ∷ xs) zero m a e h = cc
  gather-Mem (some n ∷ xs) zero m a e h =
      let same : n ≡ m = cc in
      let found : f n ≡ some a = ap f same ∙ h in
      subst (λ o. Memᴰ a (cons_some o (gather f xs))) (sym found) (Memᴰ.head refl)
  gather-Mem (none ∷ xs) (suc i) m a e h = gather-Mem xs i m a e h
  gather-Mem (some n ∷ xs) (suc i) m a e h =
      cons_some-Mem (f n) (gather f xs) a (gather-Mem xs i m a e h)
