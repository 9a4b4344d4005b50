-- ===== src/Plugin/Channel/Slots.antt =====
-- `State::remove_slots` drops the entries up to a slot: its loop has enough fuel, and reading the
-- first entry after each removal comes to dropping a prefix.
use dragonmouth.Base.{
  ℕ, zero, suc, ◌+◌, ◌≤◌, ◌<◌, ◌≡◌, refl, ◌∙◌, sym, [], ◌∷◌, none, some, arith, length, leb, true,
  Bool-cases, inl, inr, ℕ_discrete, leb→le,
}
use dragonmouth.Plugin.BTree.{remove, drop_upto, Above, Above-mono, IsSorted, remove-Above}
use dragonmouth.Plugin.Channel.{SlotInfo, SlotMap, remove_from, remove_slots}

remove-first : (k : ℕ) (v : SlotInfo) (m : SlotMap) → remove k ((k, v) ∷ m) ≡ m
unfolding remove
remove-first k v m = ground arith

remove_from-first :
    (fuel upto k : ℕ) (v : SlotInfo) (m : SlotMap)
    → length m < fuel
    → remove_from fuel k upto ((k, v) ∷ m) ≡ drop_upto upto ((k, v) ∷ m)
unfolding remove_from drop_upto
remove_from-first zero upto k v m h = elim h [ ]
remove_from-first (suc fuel) upto k v [] h = ground (arith, remove-first k v [])
remove_from-first (suc fuel) upto k v ((j, w) ∷ m) h =
    ground (arith, remove-first k v ((j, w) ∷ m), remove_from-first fuel upto j w m (omega arith))

-- `remove_slots(None, upto)`
pub remove_slots-none : (upto : ℕ) (m : SlotMap) → remove_slots none upto m ≡ drop_upto upto m
unfolding remove_slots
remove_slots-none upto [] = unfold drop_upto in refl
remove_slots-none upto ((k, v) ∷ m) =
    remove_from-first (suc (suc (length m))) upto k v m (omega arith)

-- The first round, where it removes `slot` and leaves `m`.
remove_from-after :
    (fuel slot upto : ℕ) (m₀ m : SlotMap)
    → leb slot upto ≡ true
    → remove slot m₀ ≡ m
    → length m ≤ fuel
    → remove_from (suc fuel) slot upto m₀ ≡ drop_upto upto m
unfolding remove_from
remove_from-after fuel slot upto m₀ [] t e h = rw (t, e, remove_from) (unfold drop_upto in e)
remove_from-after fuel slot upto m₀ ((k, v) ∷ m) t e h =
    rw (t, e, remove_from) (rw e (remove_from-first fuel upto k v m (omega arith)))

drop_upto-low :
    (upto k : ℕ) (v : SlotInfo) (m : SlotMap)
    → k ≤ upto
    → drop_upto upto ((k, v) ∷ m) ≡ drop_upto upto m
unfolding drop_upto
drop_upto-low upto k v m h = ground arith

-- `remove_slots(Some(slot + 1), upto)`, where the entry of `slot` was the first one.
pub remove_slots-some :
    (slot upto : ℕ) (m : SlotMap)
    → IsSorted m
    → Above slot m
    → remove_slots (some (slot + 1)) upto m ≡ drop_upto upto m
unfolding remove_slots
remove_slots-some slot upto [] s a = unfold remove_from remove drop_upto in ground arith
remove_slots-some slot upto ((k, v) ∷ m) s a = elim (Bool-cases (leb (slot + 1) upto)) [
  | inr f ↦ unfold remove_from drop_upto in ground arith
  | inl t ↦ elim (ℕ_discrete k (slot + 1)) [
    | yes e ↦
        remove_from-after (suc (length m)) (slot + 1) upto ((k, v) ∷ m) m t
          (rw (← e) (remove-first k v m)) (omega arith)
        ∙ sym (drop_upto-low upto k v m (omega (arith, leb→le (slot + 1) upto t)))
    | no ne ↦
        remove_from-after (suc (length m)) (slot + 1) upto ((k, v) ∷ m) ((k, v) ∷ m) t
          (remove-Above (slot + 1) ((k, v) ∷ m) (slot + 1)
            (omega arith, Above-mono (slot + 1) k m (omega arith) s.0) (omega arith))
          (omega arith)
  ]
]
