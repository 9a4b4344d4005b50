-- ===== src/Filter/Slots.antt =====
-- `FilterSlots` of filter/src/filter.rs.
use dragonmouth.Base.{
  ◌≡◌, refl, ◌↔◌, inl, inr, Bool, true, false, not, ◌||◌, List, [], ◌∷◌, Option, none, some,
  if◌then◌else◌, Bool-cases, All,
}
use dragonmouth.Plugin.Message.{Bytes}
use dragonmouth.Filter.Sets.{filter_map, nonempty}
use dragonmouth.Filter.Selects.{false-true, Taken, Selects, filter_map-Taken}

-- `CommitmentLevelProto`, the state that a slot message reports.
pub data SlotCommitment : Type 0 where
  processed confirmed finalized first_shred_received completed created_bank dead : SlotCommitment

-- `CommitmentLevel`, what a subscription asks for.
pub data CommitmentLevel : Type 0 where
  processed confirmed finalized : CommitmentLevel

pub record FilterSlotsInner : Type 0 where
  pub filter_by_commitment : Bool

-- `FilterSlotsInner::new`
abbrev pub slots_inner_new : Option Bool → FilterSlotsInner
slots_inner_new none = record { filter_by_commitment = false }
slots_inner_new (some flag) = record { filter_by_commitment = flag }

abbrev same_level : SlotCommitment → CommitmentLevel → Bool
same_level SlotCommitment.processed CommitmentLevel.processed = true
same_level SlotCommitment.confirmed CommitmentLevel.confirmed = true
same_level SlotCommitment.finalized CommitmentLevel.finalized = true
same_level _ _ = false

unfoldable pub slot_select :
    Bytes × FilterSlotsInner → SlotCommitment → CommitmentLevel → Option Bytes
slot_select (name, inner) reported commitment =
    if not inner.filter_by_commitment || same_level reported commitment then some name else none

unfoldable pub slots_get_update :
    List (Bytes × FilterSlotsInner) → SlotCommitment → CommitmentLevel → Option (List Bytes)
slots_get_update filters reported commitment =
    elim (filter_map (λ f. some (slot_select f reported commitment)) filters) [
      | none ↦ none
      | some names ↦ nonempty names
    ]

abbrev pub level_of : CommitmentLevel → SlotCommitment
level_of CommitmentLevel.processed = SlotCommitment.processed
level_of CommitmentLevel.confirmed = SlotCommitment.confirmed
level_of CommitmentLevel.finalized = SlotCommitment.finalized

same_level_sound :
    (r : SlotCommitment) (c : CommitmentLevel) → same_level r c ≡ true → r ≡ level_of c
same_level_sound SlotCommitment.processed CommitmentLevel.processed h = refl
same_level_sound SlotCommitment.processed CommitmentLevel.confirmed h = absurd (false-true h refl)
same_level_sound SlotCommitment.processed CommitmentLevel.finalized h = absurd (false-true h refl)
same_level_sound SlotCommitment.confirmed CommitmentLevel.processed h = absurd (false-true h refl)
same_level_sound SlotCommitment.confirmed CommitmentLevel.confirmed h = refl
same_level_sound SlotCommitment.confirmed CommitmentLevel.finalized h = absurd (false-true h refl)
same_level_sound SlotCommitment.finalized CommitmentLevel.processed h = absurd (false-true h refl)
same_level_sound SlotCommitment.finalized CommitmentLevel.confirmed h = absurd (false-true h refl)
same_level_sound SlotCommitment.finalized CommitmentLevel.finalized h = refl
same_level_sound SlotCommitment.first_shred_received CommitmentLevel.processed h =
    absurd (false-true h refl)
same_level_sound SlotCommitment.first_shred_received CommitmentLevel.confirmed h =
    absurd (false-true h refl)
same_level_sound SlotCommitment.first_shred_received CommitmentLevel.finalized h =
    absurd (false-true h refl)
same_level_sound SlotCommitment.completed CommitmentLevel.processed h = absurd (false-true h refl)
same_level_sound SlotCommitment.completed CommitmentLevel.confirmed h = absurd (false-true h refl)
same_level_sound SlotCommitment.completed CommitmentLevel.finalized h = absurd (false-true h refl)
same_level_sound SlotCommitment.created_bank CommitmentLevel.processed h =
    absurd (false-true h refl)
same_level_sound SlotCommitment.created_bank CommitmentLevel.confirmed h =
    absurd (false-true h refl)
same_level_sound SlotCommitment.created_bank CommitmentLevel.finalized h =
    absurd (false-true h refl)
same_level_sound SlotCommitment.dead CommitmentLevel.processed h = absurd (false-true h refl)
same_level_sound SlotCommitment.dead CommitmentLevel.confirmed h = absurd (false-true h refl)
same_level_sound SlotCommitment.dead CommitmentLevel.finalized h = absurd (false-true h refl)

same_level-of : (c : CommitmentLevel) → same_level (level_of c) c ≡ true
same_level-of CommitmentLevel.processed = refl
same_level-of CommitmentLevel.confirmed = refl
same_level-of CommitmentLevel.finalized = refl

module _ (reported : SlotCommitment) (commitment : CommitmentLevel) where
  abbrev pub Accepts : FilterSlotsInner → Type 0
  Accepts f = f.filter_by_commitment ≡ true → reported ≡ level_of commitment

  same_level_iff : (same_level reported commitment ≡ true) ↔ (reported ≡ level_of commitment)
  same_level_iff = (same_level_sound reported commitment, (λ e. rw e (same_level-of commitment)))

  slot_select-Accepts :
      (f : Bytes × FilterSlotsInner)
      → Selects Accepts (λ f. some (slot_select f reported commitment)) f
  unfolding slot_select
  slot_select-Accepts (name, f) = elim (Bool-cases f.filter_by_commitment) [
    | inr e ↦ inl (rw (slot_select, e) refl, (λ h. absurd (false-true h e)))
    | inl e ↦ elim (Bool-cases (same_level reported commitment)) [
      | inl g ↦ inl (rw (slot_select, e, g) refl, (λ h. same_level_iff.0 g))
      | inr g ↦ inr (rw (slot_select, e, g) refl, (λ q. false-true (same_level_iff.1 (q e)) g))
    ]
  ]

  Selects-all :
      (fs : List (Bytes × FilterSlotsInner))
      → All (Selects Accepts (λ f. some (slot_select f reported commitment))) fs
  Selects-all [] = tt
  Selects-all (f ∷ fs) = (slot_select-Accepts f, Selects-all fs)

  -- A slot update names, in order, the filters that do not ask for the commitment, and those that
  -- do if the slot reports the very level of the subscription. If there is none, there is no update.
  pub slots_get_update-Taken :
      (fs : List (Bytes × FilterSlotsInner))
      → (names : List Bytes) × (slots_get_update fs reported commitment ≡ nonempty names)
        × Taken Accepts fs names
  unfolding slots_get_update
  slots_get_update-Taken fs = go (filter_map-Taken Accepts _ fs (Selects-all fs))
    where
      go :
          ((ns : List Bytes) × (filter_map (λ f. some (slot_select f reported commitment)) fs
              ≡ some ns)
            × Taken Accepts fs ns)
          → (names : List Bytes) × (slots_get_update fs reported commitment ≡ nonempty names)
            × Taken Accepts fs names
      go r = (r.0, rw (slots_get_update, r.1) refl, r.2)
