-- ===== src/Filter/Slices.antt =====
-- `FilterAccountDataSlices` of filter/src/filter.rs, the parts of an account's data that an update
-- has.
use dragonmouth.Base.{
  ◌∙◌, ℕ, zero, suc, ◌+◌, ◌-◌, ◌^◌, ◌%◌, ◌<◌, ◌≡◌, refl, ap, inl, inr, true, false, List, [], ◌∷◌,
  ◌++◌, Option, none, some, ltb, leb, if◌then◌else◌, Bool-cases, All, length, take, drop, map,
  arith,
}
use dragonmouth.Base.Ring.{wrapping_add}
use dragonmouth.Plugin.Message.{Bytes}
use dragonmouth.Filter.Occurs.{OccursAt, occurs_from, length-take}

-- `ConfigFilterAccountsDataSlice`
pub record DataSlice : Type 0 where
  pub offset : ℕ
  pub length : ℕ

-- `Range<usize>`
pub record Range : Type 0 where
  pub start : ℕ
  pub end : ℕ

unfoldable pub range_of : DataSlice → Range
range_of s = record { start = s.offset; end = wrapping_add s.offset s.length }

-- `FilterAccountDataSlices::new`
unfoldable pub slices_new : List DataSlice → List Range
slices_new slices = map range_of slices

abbrev wrapping_sub : ℕ → ℕ → ℕ
wrapping_sub a b = (a + 2 ^ 64 - b) % 2 ^ 64

-- The sum under `with_capacity`.
unfoldable pub reserved_for : List Range → ℕ
reserved_for [] = 0
reserved_for (r ∷ rs) = wrapping_add (wrapping_sub r.end r.start) (reserved_for rs)

-- The loop. A range that ends before it starts panics.
unfoldable pub copy_slices : List Range → Bytes → Option Bytes
copy_slices [] source = some []
copy_slices (r ∷ rs) source =
    let rest = copy_slices rs source in
    if leb r.end (length source)
    then (if ltb r.end r.start then none else elim rest [
      | none ↦ none
      | some copied ↦ some (take (r.end - r.start) (drop r.start source) ++ copied)
    ])
    else rest

-- The slices of the data with the bytes reserved for them; the whole data if there is no slice. To
-- reserve 2 ^ 63 bytes or more panics.
unfoldable pub get_slice : List Range → Bytes → Option (ℕ × Bytes)
get_slice [] source = some (length source, source)
get_slice (r ∷ rs) source =
    if leb (2 ^ 63) (reserved_for (r ∷ rs)) then none else elim (copy_slices (r ∷ rs) source) [
      | none ↦ none
      | some copied ↦ some (reserved_for (r ∷ rs), copied)
    ]

abbrev pub total : List DataSlice → ℕ
total [] = 0
total (s ∷ ss) = s.length + total ss

abbrev pub IsInRange : DataSlice → Type 0
IsInRange s = s.offset + s.length < 2 ^ 64

-- The data cut by slices: a slice that the source reaches to the end of is copied from its offset
-- on, and one that it does not is left out.
pub data Cut (source : Bytes) : List DataSlice → Bytes → Type 0 where
  cut_none : Cut source [] []
  cut_copied :
      {s : DataSlice} {ss : List DataSlice} {copied : Bytes}
      → (piece : Bytes) → OccursAt s.offset piece source
      → length piece ≡ s.length
      → Cut source ss copied
      → Cut source (s ∷ ss) (piece ++ copied)
  cut_left :
      {s : DataSlice} {ss : List DataSlice} {copied : Bytes}
      → length source < s.offset + s.length
      → Cut source ss copied
      → Cut source (s ∷ ss) copied

range_end : (s : DataSlice) → IsInRange s → (range_of s).end ≡ s.offset + s.length
unfolding range_of
range_end s h = omega arith

width :
    (s : DataSlice)
    → IsInRange s
    → wrapping_sub (wrapping_add s.offset s.length) s.offset ≡ s.length
width s h = omega arith

reserved_total :
    (ss : List DataSlice)
    → All IsInRange ss
    → total ss < 2 ^ 63
    → reserved_for (slices_new ss) ≡ total ss
unfolding slices_new reserved_for range_of
reserved_total [] h t = refl
reserved_total (s ∷ ss) h t =
    omega (arith, width s h.0, reserved_total ss h.1 (omega (arith, t)), t)

length-drop : (n : ℕ) (xs : Bytes) → length (drop n xs) ≡ length xs - n
length-drop zero xs = omega arith
length-drop (suc n) [] = omega arith
length-drop (suc n) (x ∷ xs) = omega (arith, length-drop n xs)

not_before : (a b : ℕ) → ltb (a + b) a ≡ false
not_before a b = ground arith

range_len : (s : DataSlice) → IsInRange s → (range_of s).end - (range_of s).start ≡ s.length
unfolding range_of
range_len s h = omega arith

copy_far :
    (source : Bytes) (s : DataSlice) (ss : List DataSlice)
    → IsInRange s
    → leb (s.offset + s.length) (length source) ≡ false
    → copy_slices (slices_new (s ∷ ss)) source ≡ copy_slices (slices_new ss) source
unfolding slices_new copy_slices range_of
copy_far source s ss h e = rw (copy_slices, range_end s h, e) refl

copy_near :
    (source : Bytes) (s : DataSlice) (ss : List DataSlice) (copied : Bytes)
    → IsInRange s
    → leb (s.offset + s.length) (length source) ≡ true
    → copy_slices (slices_new ss) source ≡ some copied
    → copy_slices (slices_new (s ∷ ss)) source
      ≡ some (take s.length (drop s.offset source) ++ copied)
unfolding slices_new copy_slices range_of
copy_near source s ss copied h e f =
    rw (copy_slices, range_end s h, e, not_before s.offset s.length, f, range_len s h) refl

copy_Cut :
    (source : Bytes) (ss : List DataSlice)
    → All IsInRange ss
    → (copied : Bytes) × (copy_slices (slices_new ss) source ≡ some copied) × Cut source ss copied
unfolding slices_new copy_slices
copy_Cut source [] h = ([], refl, cut_none)
copy_Cut source (s ∷ ss) h = elim (Bool-cases (leb (s.offset + s.length) (length source))) [
  | inr e ↦ far e (copy_Cut source ss h.1)
  | inl e ↦ near e (copy_Cut source ss h.1)
]
  where
    far :
        leb (s.offset + s.length) (length source) ≡ false
        → ((copied : Bytes) × (copy_slices (slices_new ss) source ≡ some copied)
            × Cut source ss copied)
        → (copied : Bytes) × (copy_slices (slices_new (s ∷ ss)) source ≡ some copied)
          × Cut source (s ∷ ss) copied
    far e r = (r.0, copy_far source s ss h.0 e ∙ r.1, cut_left (ground (arith, e)) r.2)

    near :
        leb (s.offset + s.length) (length source) ≡ true
        → ((copied : Bytes) × (copy_slices (slices_new ss) source ≡ some copied)
            × Cut source ss copied)
        → (copied : Bytes) × (copy_slices (slices_new (s ∷ ss)) source ≡ some copied)
          × Cut source (s ∷ ss) copied
    near e r = (
      take s.length (drop s.offset source) ++ r.0,
      copy_near source s ss r.0 h.0 e r.1,
      cut_copied (take s.length (drop s.offset source)) occurs piece_len r.2,
    )
      where
        piece_len : length (take s.length (drop s.offset source)) ≡ s.length
        piece_len =
            length-take s.length (drop s.offset source)
              (ground (arith, e, length-drop s.offset source))

        occurs : OccursAt s.offset (take s.length (drop s.offset source)) source
        occurs =
            occurs_from s.offset (take s.length (drop s.offset source)) source
              (ground (arith, e, piece_len)) (ap (λ n. take n (drop s.offset source)) piece_len)

-- Slices that do not end past 2 ^ 64 and are less than 2 ^ 63 bytes together are cut without a
-- panic: each that the data reaches to the end of is copied from its place, in order, and the others
-- are left out. The bytes reserved are those of all slices, whatever the length of the data.
pub get_slice-Cut :
    (source : Bytes) (s : DataSlice) (ss : List DataSlice)
    → All IsInRange (s ∷ ss)
    → total (s ∷ ss) < 2 ^ 63
    → (copied : Bytes) × (get_slice (slices_new (s ∷ ss)) source ≡ some (total (s ∷ ss), copied))
      × Cut source (s ∷ ss) copied
unfolding get_slice slices_new
get_slice-Cut source s ss h t = go (copy_Cut source (s ∷ ss) h)
  where
    at_most : leb (2 ^ 63) (total (s ∷ ss)) ≡ false
    at_most = ground (arith, t)

    go :
        ((copied : Bytes) × (copy_slices (slices_new (s ∷ ss)) source ≡ some copied)
          × Cut source (s ∷ ss) copied)
        → (copied : Bytes) × (get_slice (slices_new (s ∷ ss)) source
            ≡ some (total (s ∷ ss), copied))
          × Cut source (s ∷ ss) copied
    go r = (
      r.0,
      rw (get_slice, reserved_total (s ∷ ss) h t, at_most, r.1)
          (ap (λ n. some (n, r.0)) (reserved_total (s ∷ ss) h t)),
      r.2,
    )
