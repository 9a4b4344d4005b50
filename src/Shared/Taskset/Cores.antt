-- ===== src/Shared/Taskset/Cores.antt =====
-- The cores that `parse_taskset` of shared/src/config.rs reads.
use dragonmouth.Base.{
  ℕ, zero, suc, ◌+◌, ◌-◌, ◌≤◌, ◌<◌, ◌≡◌, refl, sym, ap, ◌∙◌, Bool, true, false, ◌&&◌, ◌||◌, ◌⊎◌,
  inl, inr, List, [], ◌∷◌, Option, none, some, arith, ltb, leb, ◌==◌, All, Bool-cases,
}
use dragonmouth.Plugin.Message.{Bytes}
use dragonmouth.Shared.Taskset.{
  TasksetError, split, split_once, parse_usize, has_core, insert, insert_range, insert_part,
  insert_parts, insert_sorted, sort, last, max_core, check_last, parse_taskset,
}

-- A part of the text is a number, or two numbers in order with a dash between them.
abbrev pub Reads : Bytes → ℕ × ℕ → Type 0
Reads part i =
    ((split_once 45 part ≡ none) × (parse_usize part ≡ some i.0) × (i.0 ≡ i.1))
    ⊎ ((start : Bytes) × (end : Bytes) × (split_once 45 part ≡ some (start, end))
        × (parse_usize start ≡ some i.0)
        × (parse_usize end ≡ some i.1)
        × (i.0 ≤ i.1))

abbrev pub AllRead : List Bytes → List (ℕ × ℕ) → Type 0
AllRead [] [] = Unit
AllRead [] (i ∷ is) = ⊥
AllRead (part ∷ parts) [] = ⊥
AllRead (part ∷ parts) (i ∷ is) = Reads part i × AllRead parts is

abbrev pub inside : ℕ → ℕ × ℕ → Bool
inside n i = leb i.0 n && leb n i.1

-- A number is in one of the intervals.
unfoldable pub covered : ℕ → List (ℕ × ℕ) → Bool
covered n [] = false
covered n (i ∷ is) = inside n i || covered n is

abbrev IsDistinct : List ℕ → Type 0
IsDistinct [] = Unit
IsDistinct (n ∷ set) = (has_core n set ≡ false) × IsDistinct set

abbrev pub IsIncreasing : List ℕ → Type 0
IsIncreasing [] = Unit
IsIncreasing (n ∷ vec) = All (λ m. n < m) vec × IsIncreasing vec

has_core-insert :
    (n m : ℕ) (set : List ℕ) → has_core n (insert m set) ≡ ((n == m) || has_core n set)
unfolding insert has_core
has_core-insert n m set = elim (Bool-cases (has_core m set)) [
  | inl e ↦ elim (Bool-cases (n == m)) [
    | inl same ↦ let at : n ≡ m = ground arith in rw (e, same) (ap (λ k. has_core k set) at ∙ e)
    | inr other ↦ rw (e, other) refl
  ]
  | inr e ↦ rw e refl
]

insert-IsDistinct : (m : ℕ) (set : List ℕ) → IsDistinct set → IsDistinct (insert m set)
unfolding insert
insert-IsDistinct m set d = elim (Bool-cases (has_core m set)) [
  | inl e ↦ rw (e, insert) d
  | inr e ↦ rw (e, insert) (e, d)
]

has_core-insert_range :
    (n count start : ℕ) (set : List ℕ)
    → has_core n (insert_range count start set)
      ≡ ((leb start n && ltb n (start + count)) || has_core n set)
unfolding insert_range
has_core-insert_range n zero start set = ground arith
has_core-insert_range n (suc count) start set =
    has_core-insert_range n count (suc start) (insert start set)
    ∙ ap (λ b. (leb (suc start) n && ltb n (suc start + count)) || b) (has_core-insert n start set)
    ∙ ground arith

insert_range-IsDistinct :
    (count start : ℕ) (set : List ℕ) → IsDistinct set → IsDistinct (insert_range count start set)
unfolding insert_range
insert_range-IsDistinct zero start set d = d
insert_range-IsDistinct (suc count) start set d =
    insert_range-IsDistinct count (suc start) (insert start set) (insert-IsDistinct start set d)

-- A set that got an interval.
abbrev Gets : ℕ × ℕ → List ℕ → TasksetError ⊎ List ℕ → Type 0
Gets i set o =
    (set' : List ℕ) × (o ≡ inr set')
    × IsDistinct set'
    × ((n : ℕ) → has_core n set' ≡ (inside n i || has_core n set))

insert_part-Gets :
    (part : Bytes) (i : ℕ × ℕ) (set : List ℕ)
    → Reads part i
    → IsDistinct set
    → Gets i set (insert_part part set)
unfolding insert_part
insert_part-Gets part (a, b) set (inl (e, p, same)) d = (
  insert a set,
  rw e (rw p refl),
  insert-IsDistinct a set d,
  λ n. has_core-insert n a set ∙ ground (arith, same),
)
insert_part-Gets part (a, b) set (inr (start, end, e, p, q, le)) d =
    let ordered : ltb b a ≡ false = ground (arith, le) in
    (
      insert_range (suc b - a) a set,
      rw e (rw p (rw q (rw ordered refl))),
      insert_range-IsDistinct (suc b - a) a set d,
      λ n. has_core-insert_range n (suc b - a) a set ∙ ground (arith, le),
    )

insert_parts-Gets :
    (parts : List Bytes) (is : List (ℕ × ℕ)) (set : List ℕ)
    → AllRead parts is
    → IsDistinct set
    → (set' : List ℕ) × (insert_parts parts set ≡ inr set')
      × IsDistinct set'
      × ((n : ℕ) → has_core n set' ≡ (covered n is || has_core n set))
unfolding insert_parts covered
insert_parts-Gets [] [] set r d = (set, refl, d, λ n. refl)
insert_parts-Gets [] (i ∷ is) set r d = elim r [ ]
insert_parts-Gets (part ∷ parts) [] set r d = elim r [ ]
insert_parts-Gets (part ∷ parts) (i ∷ is) set r d =
    let (set₁, e₁, d₁, g₁) = insert_part-Gets part i set r.0 d in
    let (set', e, d', g) = insert_parts-Gets parts is set₁ r.1 d₁ in
    (set', rw (e₁, insert_parts) e, d', λ n. grind (arith, g n, g₁ n))

has_core-insert_sorted :
    (n m : ℕ) (vec : List ℕ) → has_core n (insert_sorted m vec) ≡ ((n == m) || has_core n vec)
unfolding insert_sorted has_core
has_core-insert_sorted n m [] = refl
has_core-insert_sorted n m (k ∷ vec) = elim (Bool-cases (leb m k)) [
  | inl e ↦ rw e refl
  | inr e ↦ rw e (ap (λ b. (n == k) || b) (has_core-insert_sorted n m vec) ∙ ground arith)
]

has_core-sort : (n : ℕ) (set : List ℕ) → has_core n (sort set) ≡ has_core n set
unfolding sort has_core
has_core-sort n [] = refl
has_core-sort n (m ∷ set) =
    has_core-insert_sorted n m (sort set) ∙ ap (λ b. (n == m) || b) (has_core-sort n set)

All-insert_sorted :
    (k m : ℕ) (vec : List ℕ) → k < m → All (λ x. k < x) vec → All (λ x. k < x) (insert_sorted m vec)
unfolding insert_sorted
All-insert_sorted k m [] h a = (h, tt)
All-insert_sorted k m (x ∷ vec) h a = elim (Bool-cases (leb m x)) [
  | inl e ↦ rw e (h, a)
  | inr e ↦ rw e (a.0, All-insert_sorted k m vec h a.1)
]

All-above : (k m : ℕ) (vec : List ℕ) → k < m → All (λ x. m < x) vec → All (λ x. k < x) vec
All-above k m [] h a = tt
All-above k m (x ∷ vec) h a = (omega (arith, a.0, h), All-above k m vec h a.1)

insert_sorted-IsIncreasing :
    (m : ℕ) (vec : List ℕ)
    → has_core m vec ≡ false
    → IsIncreasing vec
    → IsIncreasing (insert_sorted m vec)
unfolding insert_sorted has_core
insert_sorted-IsIncreasing m [] e s = (tt, tt)
insert_sorted-IsIncreasing m (k ∷ vec) e s = elim (Bool-cases (leb m k)) [
  | inl le ↦
      let less : m < k = ground (arith, e, le) in rw le ((less, All-above m k vec less s.0), s)
  | inr gt ↦
      let more : k < m = ground (arith, gt) in
      let absent : has_core m vec ≡ false = ground (arith, e) in
      rw gt (All-insert_sorted k m vec more s.0, insert_sorted-IsIncreasing m vec absent s.1)
]

sort-IsIncreasing : (set : List ℕ) → IsDistinct set → IsIncreasing (sort set)
unfolding sort
sort-IsIncreasing [] d = tt
sort-IsIncreasing (m ∷ set) d =
    insert_sorted-IsIncreasing m (sort set) (has_core-sort m set ∙ d.0) (sort-IsIncreasing set d.1)

or_true : (b : Bool) → (b || true) ≡ true
or_true true = refl
or_true false = refl

or_false : (b : Bool) → (b || false) ≡ b
or_false true = refl
or_false false = refl

has_core-last : (vec : List ℕ) (m : ℕ) → last vec ≡ some m → has_core m vec ≡ true
unfolding last has_core
has_core-last [] m e = cc e
has_core-last (n ∷ []) m e = let same : n ≡ m = cc e in ground (arith, same)
has_core-last (n ∷ k ∷ vec) m e =
    let later : has_core m (k ∷ vec) ≡ true = has_core-last (k ∷ vec) m e in
    ap (λ b. (m == n) || b) later ∙ or_true (m == n)

covered-within :
    (n bound : ℕ) (is : List (ℕ × ℕ)) → All (λ i. i.1 ≤ bound) is → covered n is ≡ true → n ≤ bound
unfolding covered
covered-within n bound [] a e = cc e
covered-within n bound (i ∷ is) a e = elim (Bool-cases (inside n i)) [
  | inl here ↦ ground (arith, here, a.0)
  | inr not_here ↦ covered-within n bound is a.1 (ground (arith, e, not_here))
]

check_last-within :
    (cores vec : List ℕ) (o : Option ℕ)
    → ((m : ℕ) → o ≡ some m → m ≤ max_core cores)
    → check_last (some cores) vec o ≡ inr vec
check_last-within cores vec none h = refl
check_last-within cores vec (some m) h =
    let fits : ltb (max_core cores) m ≡ false = ground (arith, h m refl) in rw fits refl

-- If each part of the text between commas reads as a number or as an interval whose ends are in
-- order, and none of them ends past the highest core of the machine, the text is accepted. The
-- result is increasing, so it has no number twice, and has exactly the numbers in those intervals.
pub parse_taskset-Exact :
    (cores : List ℕ) (text : Bytes) (is : List (ℕ × ℕ))
    → AllRead (split 44 text) is
    → All (λ i. i.1 ≤ max_core cores) is
    → (vec : List ℕ) × (parse_taskset (some cores) text ≡ inr vec)
      × IsIncreasing vec
      × ((n : ℕ) → has_core n vec ≡ covered n is)
unfolding parse_taskset has_core
parse_taskset-Exact cores text is r a =
    let (set, e, d, g) = insert_parts-Gets (split 44 text) is [] r tt in
    let exact : (n : ℕ) → has_core n (sort set) ≡ covered n is =
      λ n. has_core-sort n set ∙ g n ∙ or_false (covered n is) in
    (
      sort set,
      rw (e, parse_taskset)
          (check_last-within cores (sort set) (last (sort set)) (λ m f.
            covered-within m (max_core cores) is a (sym (exact m) ∙ has_core-last (sort set) m f))),
      sort-IsIncreasing set d,
      exact,
    )
