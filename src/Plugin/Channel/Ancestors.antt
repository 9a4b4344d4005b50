-- ===== src/Plugin/Channel/Ancestors.antt =====
-- The walk of `push` up the parents of a slot, to those that missed a status.
use dragonmouth.Base.{
  ℕ, zero, suc, ◌≤◌, ◌<◌, ◌≡◌, refl, true, false, List, [], ◌∷◌, Option, none, some, arith, length,
  ltb, if◌then◌else◌, Bool-cases, Option-cases, inl, inr, sym, ap, ◌∙◌,
}
use dragonmouth.Plugin.BTree.{get}
use dragonmouth.Plugin.Message.{SlotStatus}
use dragonmouth.Plugin.Channel.{ok, stuck, ◌>>=◌, SlotInfo, SlotMap}
use dragonmouth.Plugin.Channel.Push.{missed, missed_status}

-- Every parent in the map is below its slot.
pub record ParentsBelow (m : SlotMap) : Type 0 where
  pub below :
      (k : ℕ) (info : SlotInfo) (p : ℕ) → get k m ≡ some info → info.parent_slot ≡ some p → p < k

count_below : ℕ → SlotMap → ℕ
count_below k [] = 0
count_below k ((j, v) ∷ m) = if ltb j k then suc (count_below k m) else count_below k m

count_below-le : (k : ℕ) (m : SlotMap) → count_below k m ≤ length m
unfolding count_below
count_below-le k [] = omega arith
count_below-le k ((j, v) ∷ m) = ground (arith, count_below-le k m)

count_below_mono : (p k : ℕ) (m : SlotMap) → p ≤ k → count_below p m ≤ count_below k m
unfolding count_below
count_below_mono p k [] h = omega arith
count_below_mono p k ((j, v) ∷ m) h = ground (arith, count_below_mono p k m h)

count_below-lt :
    (p k : ℕ) (info : SlotInfo) (m : SlotMap)
    → p < k
    → get p m ≡ some info
    → count_below p m < count_below k m
unfolding count_below get
count_below-lt p k info [] h g = cc
count_below-lt p k info ((j, v) ∷ m) h g =
    ground (arith, count_below-lt p k info m h, count_below_mono p k m (omega arith))

-- The ancestors on a list, from `o` on: each is in the map, with the parent given, and lacks the
-- status; each but the first is the parent of the one before; and the list ends only where there is no
-- parent, where the map does not have it, or where it has the status.
pub data Chain (m : SlotMap) (status : SlotStatus) : Option ℕ → List (ℕ × Option ℕ) → Type 0 where
  chain_end :
      {o : Option ℕ}
      → ((p : ℕ) (info : SlotInfo)
          → o ≡ some p
          → get p m ≡ some info
          → missed_status status info ≡ false)
      → Chain m status o []
  chain_next :
      {p : ℕ} {o : Option ℕ} {l : List (ℕ × Option ℕ)} (info : SlotInfo)
      → get p m ≡ some info
      → missed_status status info ≡ true
      → o ≡ info.parent_slot
      → Chain m status o l
      → Chain m status (some p) ((p, o) ∷ l)

-- The parent of a slot, where the map has the slot.
pub parent_of : SlotMap → ℕ → Option ℕ
parent_of m slot = elim (get slot m) [ none ↦ none | some info ↦ info.parent_slot ]

-- A round of the walk that goes on.
missed-next :
    (fuel : ℕ) (m : SlotMap) (status : SlotStatus) (slot p : ℕ) (info entry : SlotInfo)
    → get slot m ≡ some info
    → info.parent_slot ≡ some p
    → get p m ≡ some entry
    → missed_status status entry ≡ true
    → missed (suc fuel) m status slot
      ≡ (missed fuel m status p >>= λ rest. ok ((p, entry.parent_slot) ∷ rest))
unfolding missed
missed-next fuel m status slot p info entry g e g' t =
    rw (g, missed) (rw (e, missed) (rw (g', missed) (rw (t, missed))))

parent_of-some :
    (m : SlotMap) (slot : ℕ) (info : SlotInfo)
    → get slot m ≡ some info
    → parent_of m slot ≡ info.parent_slot
unfolding parent_of
parent_of-some m slot info g = rw (g, parent_of)

parent_of-none : (m : SlotMap) (slot : ℕ) → get slot m ≡ none → parent_of m slot ≡ none
unfolding parent_of
parent_of-none m slot n = rw (n, parent_of)

abbrev Walks : ℕ → SlotMap → SlotStatus → ℕ → Option ℕ → Type 0
Walks fuel m status slot o =
    (l : List (ℕ × Option ℕ)) × (missed fuel m status slot ≡ ok l) × Chain m status o l

module _ (fuel : ℕ) (m : SlotMap) (status : SlotStatus) (slot : ℕ) (info : SlotInfo)
    (g : get slot m ≡ some info) where
  walk-root : info.parent_slot ≡ none → Walks (suc fuel) m status slot info.parent_slot
  unfolding missed
  walk-root n = (
    [],
    rw (g, missed) (rw (n, missed)),
    chain_end {o = info.parent_slot} (λ p i e g'. cc (n, e)),
  )

  module _ (p : ℕ) (e : info.parent_slot ≡ some p) where
    walk-unknown : get p m ≡ none → Walks (suc fuel) m status slot (some p)
    unfolding missed
    walk-unknown n = (
      [],
      rw (g, missed) (rw (e, missed) (rw (n, missed))),
      chain_end {o = some p} (λ k i q g'. ground (arith, q, g', n)),
    )

    walk-has_status :
        (entry : SlotInfo)
        → get p m ≡ some entry
        → missed_status status entry ≡ false
        → Walks (suc fuel) m status slot (some p)
    unfolding missed
    walk-has_status entry g' f = (
      [],
      rw (g, missed) (rw (e, missed) (rw (g', missed) (rw (f, missed)))),
      chain_end {o = some p} (λ k i q g''. let e : p ≡ k = cc q in same e g'' f g'),
    )
      where
        same :
            {k : ℕ} {i : SlotInfo}
            → p ≡ k
            → get k m ≡ some i
            → missed_status status entry ≡ false
            → get p m ≡ some entry
            → missed_status status i ≡ false
        same {i = i} q g'' f g' =
            let same_entry : entry ≡ i = cc (sym g' ∙ ap (λ x. get x m) q ∙ g'') in
            ap (missed_status status) (sym same_entry) ∙ f

    walk-on :
        (entry : SlotInfo)
        → get p m ≡ some entry
        → missed_status status entry ≡ true
        → Walks fuel m status p entry.parent_slot
        → Walks (suc fuel) m status slot (some p)
    walk-on entry g' t (l, w, c) = (
      (p, entry.parent_slot) ∷ l,
      missed-next fuel m status slot p info entry g e g' t
          ∙ ap (λ o. o >>= λ rest. ok ((p, entry.parent_slot) ∷ rest)) w,
      chain_next entry g' t refl c,
    )

-- A walk ends with a chain of ancestors, if parents are below their slots.
missed-walk :
    (fuel : ℕ) (m : SlotMap) (status : SlotStatus) (slot : ℕ) (info : SlotInfo)
    → ParentsBelow m
    → count_below slot m < fuel
    → get slot m ≡ some info
    → Walks fuel m status slot info.parent_slot
missed-walk zero m status slot info b h g = elim h [ ]
missed-walk (suc fuel) m status slot info b h g = elim (Option-cases info.parent_slot) [
  | inl n ↦ walk-root fuel m status slot info g n
  | inr (p, e) ↦ rw e (elim (Option-cases (get p m)) [
    | inl n ↦ walk-unknown fuel m status slot info g p e n
    | inr (entry, g') ↦ elim (Bool-cases (missed_status status entry)) [
      | inr f ↦ walk-has_status fuel m status slot info g p e entry g' f
      | inl t ↦ walk-on fuel m status slot info g p e entry g' t (
          missed-walk fuel m status p entry b
            (omega (arith, count_below-lt p slot entry m (b.below slot info p g e) g')) g')
    ]
  ])
]

-- Where every parent is below its slot, the walk from a slot ends within as many rounds as the map
-- has entries, and finds exactly the chain of ancestors that lack the status, from the parent of the
-- slot on up to the first that does not.
pub missed-Chain :
    (m : SlotMap) (status : SlotStatus) (slot : ℕ)
    → ParentsBelow m
    → (l : List (ℕ × Option ℕ)) × (missed (suc (length m)) m status slot ≡ ok l)
      × Chain m status (parent_of m slot) l
missed-Chain m status slot b = elim (Option-cases (get slot m)) [
  | inl n ↦ (
    [],
    unfold missed in rw (n, missed),
    chain_end {o = parent_of m slot} (λ p i e g. cc (parent_of-none m slot n, e)),
  )
  | inr (info, g) ↦
      rw (parent_of-some m slot info g)
        (missed-walk (suc (length m)) m status slot info b (omega (arith, count_below-le slot m)) g)
]

-- A slot that is its own parent and lacks the status is walked without end: no number of rounds is
-- enough.
pub missed-loops :
    (fuel : ℕ) (m : SlotMap) (status : SlotStatus) (slot : ℕ) (info : SlotInfo)
    → get slot m ≡ some info
    → info.parent_slot ≡ some slot
    → missed_status status info ≡ true
    → missed fuel m status slot ≡ stuck
missed-loops zero m status slot info g e t = unfold missed in refl
missed-loops (suc fuel) m status slot info g e t =
    missed-next fuel m status slot slot info info g e g t
    ∙ ap (λ o. o >>= λ rest. ok ((slot, info.parent_slot) ∷ rest))
        (missed-loops fuel m status slot info g e t)
