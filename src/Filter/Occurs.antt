-- ===== src/Filter/Occurs.antt =====
-- Where a byte string stands inside another, and the byte comparisons of the account filters, which
-- find that out; filter/src/filter.rs.
use dragonmouth.Base.{
  ℕ, zero, suc, ◌+◌, ◌-◌, ◌^◌, ◌≤◌, ◌<◌, ◌≡◌, refl, sym, ap, ◌∙◌, subst, ◌⊎◌, inl, inr, Bool,
  Option, true, false, List, [], ◌∷◌, ◌++◌, none, some, ltb, lt→ltb, if◌then◌else◌, Bool-cases, All,
  length, length-append, take, drop, arith,
}
use dragonmouth.Base.Ring.{wrapping_add}
use dragonmouth.Plugin.Message.{Bytes}
use dragonmouth.Filter.Sets.{bytes_eq, bytes_eq_sound, bytes_eq_self, Decides}
use dragonmouth.Filter.Accounts.{memcmp_match}

-- `bytes` stands at `offset`.
pub record OccursAt (offset : ℕ) (bytes contents : Bytes) : Type 0 where
  pub before : Bytes
  pub after : Bytes
  pub splits : contents ≡ before ++ (bytes ++ after)
  pub at_offset : length before ≡ offset

take-drop_append : (xs ys zs : Bytes) → take (length ys) (drop (length xs) (xs ++ (ys ++ zs))) ≡ ys
take-drop_append [] [] zs = refl
take-drop_append [] (y ∷ ys) zs = ap (λ l. y ∷ l) (take-drop_append [] ys zs)
take-drop_append (x ∷ xs) ys zs = take-drop_append xs ys zs

take_append_drop : (n : ℕ) (xs : Bytes) → take n xs ++ drop n xs ≡ xs
take_append_drop zero xs = refl
take_append_drop (suc n) [] = refl
take_append_drop (suc n) (x ∷ xs) = ap (λ l. x ∷ l) (take_append_drop n xs)

pub length-take : (n : ℕ) (xs : Bytes) → n ≤ length xs → length (take n xs) ≡ n
length-take zero xs h = refl
length-take (suc n) [] h = absurd (omega arith)
length-take (suc n) (x ∷ xs) h = omega (arith, length-take n xs (omega arith))

pub occurs_from :
    (offset : ℕ) (bytes contents : Bytes)
    → offset + length bytes ≤ length contents
    → take (length bytes) (drop offset contents) ≡ bytes
    → OccursAt offset bytes contents
occurs_from offset bytes contents le e = record {
  before = take offset contents;
  after = drop (length bytes) (drop offset contents);
  splits = sym (
      ap (λ l. take offset contents ++ (l ++ drop (length bytes) (drop offset contents))) (sym e)
      ∙ ap (λ l. take offset contents ++ l) (take_append_drop (length bytes) (drop offset contents))
      ∙ take_append_drop offset contents);
  at_offset = length-take offset contents (omega arith);
}

pub occurs_to :
    (offset : ℕ) (bytes contents : Bytes)
    → OccursAt offset bytes contents
    → (offset + length bytes ≤ length contents)
      × (take (length bytes) (drop offset contents) ≡ bytes)
occurs_to offset bytes contents o =
    subst (λ l. (offset + length bytes ≤ length l) × (take (length bytes) (drop offset l) ≡ bytes))
      (sym o.splits)
      (subst
        (λ k.
          (k + length bytes ≤ length (o.before ++ (bytes ++ o.after)))
          × (take (length bytes) (drop k (o.before ++ (bytes ++ o.after))) ≡ bytes))
        o.at_offset
        (
          omega (arith, length-append o.before (bytes ++ o.after), length-append bytes o.after),
          take-drop_append o.before bytes o.after,
        ))

abbrev pub NoWrap : ℕ × Bytes → Type 0
NoWrap m = m.0 + length m.1 < 2 ^ 64

abbrev pub Stands : Bytes → ℕ × Bytes → Type 0
Stands contents m = OccursAt m.0 m.1 contents

no_wrap : (offset n : ℕ) → offset + n < 2 ^ 64 → wrapping_add offset n ≡ offset + n
no_wrap offset n h = omega arith

at_least : (a b : ℕ) → b ≤ a → ltb a b ≡ false
at_least a b h = ground arith

pub Decides-no : {P : Type 0} → (P → false ≡ true) → Decides (some false) P
Decides-no refute = (false, refl, ((λ h. absurd (ground (arith, h))), refute))

-- The comparison where the end of its range does not wrap.
memcmp_step :
    (offset : ℕ) (bytes : Bytes) (filters : List (ℕ × Bytes)) (contents : Bytes)
    → offset + length bytes < 2 ^ 64
    → memcmp_match ((offset, bytes) ∷ filters) contents ≡ (
        if ltb (length contents) (offset + length bytes)
        then some false
        else if bytes_eq (take (length bytes) (drop offset contents)) bytes
        then memcmp_match filters contents
        else some false)
unfolding memcmp_match
memcmp_step offset bytes filters contents small =
    rw
      (
        no_wrap offset (length bytes) small,
        at_least (offset + length bytes) offset (omega arith),
        width,
      )
      refl
  where
    width : offset + length bytes - offset ≡ length bytes
    width = omega arith

-- One comparison, in front of a decided rest.
memcmp_one :
    (offset : ℕ) (bytes : Bytes) (filters : List (ℕ × Bytes)) (contents : Bytes)
    → offset + length bytes < 2 ^ 64
    → Decides (memcmp_match filters contents) (All (Stands contents) filters)
    → Decides
        (memcmp_match ((offset, bytes) ∷ filters) contents)
        (All (Stands contents) ((offset, bytes) ∷ filters))
memcmp_one offset bytes filters contents small d =
    subst (λ o. Decides o (All (Stands contents) ((offset, bytes) ∷ filters)))
      (sym (memcmp_step offset bytes filters contents small))
      (elim (Bool-cases (ltb (length contents) (offset + length bytes))) [
        | inl e ↦ rw e (Decides-no (λ q. absurd (short e q.0)))
        | inr e ↦ elim (Bool-cases (bytes_eq (take (length bytes) (drop offset contents)) bytes)) [
          | inl f ↦ rw (e, f) (d.0, d.1, ((λ h. (here e f, d.2.0 h)), (λ q. d.2.1 q.1)))
          | inr f ↦ rw (e, f) (Decides-no (λ q. absurd (other f q.0)))
        ]
      ])
  where
    short :
        ltb (length contents) (offset + length bytes) ≡ true → OccursAt offset bytes contents → ⊥
    short e q = ground (arith, e, (occurs_to offset bytes contents q).0)

    here :
        ltb (length contents) (offset + length bytes) ≡ false
        → bytes_eq (take (length bytes) (drop offset contents)) bytes ≡ true
        → OccursAt offset bytes contents
    here e f = occurs_from offset bytes contents (ground (arith, e)) (bytes_eq_sound _ _ f)

    other :
        bytes_eq (take (length bytes) (drop offset contents)) bytes ≡ false
        → OccursAt offset bytes contents
        → ⊥
    other f q = ground (
      arith,
      f,
      ap (λ l. bytes_eq l bytes) (occurs_to offset bytes contents q).1,
      bytes_eq_self bytes,
    )

pub memcmp_match-Decides :
    (filters : List (ℕ × Bytes)) (contents : Bytes)
    → All NoWrap filters
    → Decides (memcmp_match filters contents) (All (Stands contents) filters)
unfolding memcmp_match
memcmp_match-Decides [] contents h = (true, refl, ((λ e. tt), (λ u. refl)))
memcmp_match-Decides ((offset, bytes) ∷ filters) contents h =
    memcmp_one offset bytes filters contents h.0 (memcmp_match-Decides filters contents h.1)

past_end :
    (offset n : ℕ)
    → offset < 2 ^ 64
    → n ≤ 128
    → 2 ^ 64 ≤ offset + n
    → (wrapping_add offset n < offset) × (wrapping_add offset n ≤ 128)
past_end offset n lt small wraps = (omega arith, omega arith)

-- The test itself, where the loop comes to it.
memcmp_here :
    (offset : ℕ) (bytes : Bytes) (filters : List (ℕ × Bytes)) (contents : Bytes)
    → offset < 2 ^ 64
    → length bytes ≤ 128
    → 2 ^ 64 ≤ offset + length bytes
    → 128 ≤ length contents
    → memcmp_match ((offset, bytes) ∷ filters) contents ≡ none
unfolding memcmp_match
memcmp_here offset bytes filters contents lt small wraps long =
    rw
      (
        at_least (length contents) (wrapping_add offset (length bytes))
            (omega (arith, (past_end offset (length bytes) lt small wraps).1, long)),
        lt→ltb (wrapping_add offset (length bytes)) offset
            (past_end offset (length bytes) lt small wraps).0,
      )
      refl

-- What a comparison does that comes to a panic behind some tests: it panics if they all hold, and
-- else does not come to it.
abbrev pub PanicsBehind : List (ℕ × Bytes) → Bytes → Option Bool → Type 0
PanicsBehind before contents o =
    (All (Stands contents) before × (o ≡ none))
    ⊎ ((All (Stands contents) before → ⊥) × (o ≡ some false))

-- Tests that do not end past 2 ^ 64, and behind them one of at most 128 bytes that does, compared
-- with an account of 128 bytes or more: the comparison panics if all tests in front hold of the
-- account, since the end of the range wraps and lies before its start, and else it is no match.
pub memcmp_match-wraps :
    (before : List (ℕ × Bytes)) (offset : ℕ) (bytes : Bytes) (filters : List (ℕ × Bytes))
    (contents : Bytes)
    → All NoWrap before
    → offset < 2 ^ 64
    → length bytes ≤ 128
    → 2 ^ 64 ≤ offset + length bytes
    → 128 ≤ length contents
    → PanicsBehind before contents (memcmp_match (before ++ ((offset, bytes) ∷ filters)) contents)
memcmp_match-wraps [] offset bytes filters contents h lt small wraps long =
    inl (tt, memcmp_here offset bytes filters contents lt small wraps long)
memcmp_match-wraps ((at, test) ∷ before) offset bytes filters contents h lt small wraps long =
    let behind = before ++ ((offset, bytes) ∷ filters) in
    let step = memcmp_step at test behind contents h.0 in
    elim (Bool-cases (ltb (length contents) (at + length test))) [
      | inl e ↦ inr ((λ q. ground (arith, e, (occurs_to at test contents q.0).0)), step ∙ rw e refl)
      | inr e ↦ elim (Bool-cases (bytes_eq (take (length test) (drop at contents)) test)) [
        | inr f ↦ inr (
          (λ q. ground (
            arith,
            f,
            ap (λ l. bytes_eq l test) (occurs_to at test contents q.0).1,
            bytes_eq_self test,
          )),
          step ∙ rw (e, f) refl,
        )
        | inl f ↦
            let on : memcmp_match ((at, test) ∷ behind) contents ≡ memcmp_match behind contents =
              step ∙ rw (e, f) refl in
            elim (memcmp_match-wraps before offset bytes filters contents h.1 lt small wraps long) [
              | inl x ↦ inl (
                (occurs_from at test contents (ground (arith, e)) (bytes_eq_sound _ _ f), x.0),
                on ∙ x.1,
              )
              | inr x ↦ inr ((λ q. x.0 q.1), on ∙ x.1)
            ]
      ]
    ]
