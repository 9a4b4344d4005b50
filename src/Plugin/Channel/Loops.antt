-- ===== src/Plugin/Channel/Loops.antt =====
-- The loops of `push_msg` that drop messages: each leaves the ring with a suffix of its messages.
use dragonmouth.Base.{
  ℕ, zero, suc, ◌+◌, ◌-◌, ◌%◌, ◌^◌, ◌≤◌, ◌<◌, ◌≡◌, refl, sym, ap, ◌∙◌, subst, Bool, true, List, [],
  ◌∷◌, ◌++◌, none, some, arith, length, ltb, ◌==◌, Bool-cases, inl, inr, ==_iff,
}
use dragonmouth.Plugin.BTree.{get, Above, drop_upto, length-drop_upto, get-Above}
use dragonmouth.Plugin.Channel.{
  ◌>>=◌, SlotInfo, SlotMap, Shared, remove_slots, remove_before, remove_same, drop_extra_slots,
  drop_extra_bytes,
}
use dragonmouth.Plugin.Channel.Inv.{Entry, Ring, Live, Ring-slots, Live-step, Live-drop_upto}
use dragonmouth.Plugin.Channel.Evict.{
  taken, oldest, oldest-slot, head_item_lem, take_head_lem, taken-Ring, head_item-empty,
}
use dragonmouth.Plugin.Channel.Slots.{remove_slots-none, remove_slots-some}
use dragonmouth.Plugin.Channel.Keeps.{
  Ends, Ends-mono, Ends->>=, Keeps, Keeps-self, Keeps-step, Keeps-trans,
}

drop_upto-keeps_Above : (a b : ℕ) (m : SlotMap) → Above a m → Above a (drop_upto b m)
unfolding drop_upto
drop_upto-keeps_Above a b [] h = tt
drop_upto-keeps_Above a b ((k, v) ∷ m) h = ground (arith, drop_upto-keeps_Above a b m)

-- One message leaves, and with it the entries of the slot map up to its slot.
pub step-Live :
    (e x : Entry) (q : List Entry) {m₀ : SlotMap} (head h : ℕ) (m : SlotMap)
    → h ≡ head + 1
    → m ≡ drop_upto x.slot m₀
    → Live head (x ∷ (q ++ (e ∷ []))) m₀
    → Live h (q ++ (e ∷ [])) m
step-Live e x q head h m eh em l = rw (eh, em) (Live-drop_upto l)

module _ {cap : ℕ} {b : Bool} {n : ℕ} {s : Shared} {x : Entry} {q : List Entry}
    (r : Ring cap b n s (x ∷ q)) where
  -- The state behind the oldest message, with the slot map `m`.
  abbrev pub behind : SlotMap → Shared
  behind m = record (taken s (oldest r) (length x.bytes)) { slots = m }

  pub behind-Ring : (m : SlotMap) → Ring cap b n (behind m) q
  behind-Ring m = Ring-slots m (taken-Ring r)

-- A round of `drop_extra_slots`.
pub extra_slot :
    (fuel : ℕ) (s : Shared) (slot : ℕ) (info : SlotInfo) (m : SlotMap)
    → ltb s.slots_max (length s.slots) ≡ true
    → s.slots ≡ (slot, info) ∷ m
    → drop_extra_slots (suc fuel) s ≡ (
        remove_before (suc (s.tail - s.head)) slot info.head (record s { slots = m }) >>= λ s'.
        remove_same (suc (s'.tail - s'.head)) slot s' >>= λ s''. drop_extra_slots fuel s'')
unfolding drop_extra_slots
extra_slot fuel s slot info m t e = rw (t, drop_extra_slots) (rw (e, drop_extra_slots))

get-tail :
    (slot k : ℕ) (v : SlotInfo) (m : SlotMap) (info : SlotInfo)
    → Above slot m
    → get k m ≡ some info
    → get k ((slot, v) ∷ m) ≡ some info
unfolding get
get-tail slot k v m info a g = let lt : slot < k = get-Above slot k m info a g in ground arith

Live-tail :
    {head slot : ℕ} {info : SlotInfo} {q : List Entry} {m : SlotMap}
    → Live head q ((slot, info) ∷ m)
    → Live head q m
Live-tail {slot = slot} {m = m} l = record {
  sorted = l.sorted.1;
  points = λ k info g. l.points k info (get-tail slot k _ m info l.sorted.0 g);
}

module _ (cap : ℕ) (b : Bool) (n : ℕ) (e : Entry) where
  -- What `drop_extra_bytes` leaves.
  abbrev pub Trimmed : List Entry → Shared → Shared → Type 0
  Trimmed q s s' = Keeps cap b n e q s s' × (s'.bytes_total ≤ s'.bytes_max)

  pub next_head :
      (x : Entry) (q : List Entry) (s : Shared)
      → Ring cap b n s (x ∷ q)
      → (s.head + 1) % 2 ^ 64 ≡ s.head + 1
  next_head x q s r = omega (arith, r.tail_is, r.counted)

  pub drop_extra_bytes-Ends :
      (fuel : ℕ) (q : List Entry) (s : Shared)
      → length q < fuel
      → Ring cap b n s q
      → Live s.head (q ++ (e ∷ [])) s.slots
      → Ends (Trimmed q s) (drop_extra_bytes fuel s)
  unfolding drop_extra_bytes
  drop_extra_bytes-Ends zero q s h r l = elim h [ ]
  drop_extra_bytes-Ends (suc fuel) [] s h r l = elim (Bool-cases (ltb s.bytes_max s.bytes_total)) [
    | inl t ↦ rw (t, head_item-empty r refl, drop_extra_bytes) tt
    | inr f ↦ rw (f, drop_extra_bytes) (Keeps-self e r l, ground arith)
  ]
  drop_extra_bytes-Ends (suc fuel) (x ∷ q) s h r l =
      elim (Bool-cases (ltb s.bytes_max s.bytes_total)) [
        | inl t ↦
            let m = remove_slots none (oldest r).slot s.slots in
            let dropped : m ≡ drop_upto x.slot s.slots =
              remove_slots-none (oldest r).slot s.slots
              ∙ ap (λ k. drop_upto k s.slots) (oldest-slot r) in
            rw (t, head_item_lem r, take_head_lem r, drop_extra_bytes)
              (Ends-mono (Trimmed q (behind r m)) (Trimmed (x ∷ q) s) _
                (λ s' k. (
                  Keeps-step e (x ∷ []) refl refl refl refl
                      (rw dropped (length-drop_upto x.slot s.slots)) k.0,
                  k.1,
                ))
                (drop_extra_bytes-Ends fuel q (behind r m) (omega arith) (behind-Ring r m)
                  (step-Live e x q s.head _ m (next_head x q s r) dropped l)))
        | inr f ↦ rw (f, drop_extra_bytes) (Keeps-self e r l, ground arith)
      ]

  -- What the loops of one removed slot leave: the entries that are left stay above it.
  abbrev AboveSlot : ℕ → List Entry → Shared → Shared → Type 0
  AboveSlot slot q s s' = Keeps cap b n e q s s' × Above slot s'.slots

  remove_before-Ends :
      (fuel slot upto : ℕ) (q : List Entry) (s : Shared)
      → length q < fuel
      → Ring cap b n s q
      → Live s.head (q ++ (e ∷ [])) s.slots
      → Above slot s.slots
      → Ends (AboveSlot slot q s) (remove_before fuel slot upto s)
  unfolding remove_before
  remove_before-Ends zero slot upto q s h r l a = elim h [ ]
  remove_before-Ends (suc fuel) slot upto [] s h r l a = elim (Bool-cases (ltb s.head upto)) [
    | inl t ↦ rw (t, head_item-empty r refl, remove_before) tt
    | inr f ↦ rw (f, remove_before) (Keeps-self e r l, a)
  ]
  remove_before-Ends (suc fuel) slot upto (x ∷ q) s h r l a = elim (Bool-cases (ltb s.head upto)) [
    | inl t ↦
        let m = remove_slots (some (slot + 1)) (oldest r).slot s.slots in
        let dropped : m ≡ drop_upto x.slot s.slots =
          remove_slots-some slot (oldest r).slot s.slots l.sorted a
          ∙ ap (λ k. drop_upto k s.slots) (oldest-slot r) in
        rw (t, head_item_lem r, take_head_lem r, remove_before)
          (Ends-mono (AboveSlot slot q (behind r m)) (AboveSlot slot (x ∷ q) s) _
            (λ s' k. (
              Keeps-step e (x ∷ []) refl refl refl refl
                  (rw dropped (length-drop_upto x.slot s.slots)) k.0,
              k.1,
            ))
            (remove_before-Ends fuel slot upto q (behind r m) (omega arith) (behind-Ring r m)
              (step-Live e x q s.head _ m (next_head x q s r) dropped l)
              (rw dropped (drop_upto-keeps_Above slot x.slot s.slots a))))
    | inr f ↦ rw (f, remove_before) (Keeps-self e r l, a)
  ]

  -- `remove_same` removes no entry: that of its slot is gone already.
  same-Live :
      (x : Entry) (q : List Entry) (head h : ℕ) (m : SlotMap)
      → h ≡ head + 1
      → Live head (x ∷ (q ++ (e ∷ []))) m
      → Above x.slot m
      → Live h (q ++ (e ∷ [])) m
  same-Live x q head h m eh l a = rw eh (
      Live-step m l l.sorted (λ k info g.
        (g, λ eq. let lt : x.slot < k = get-Above x.slot k m info a g in absurd (omega arith))))

  remove_same-Ends :
      (fuel slot : ℕ) (q : List Entry) (s : Shared)
      → length q < fuel
      → Ring cap b n s q
      → Live s.head (q ++ (e ∷ [])) s.slots
      → Above slot s.slots
      → Ends (AboveSlot slot q s) (remove_same fuel slot s)
  unfolding remove_same
  remove_same-Ends zero slot q s h r l a = elim h [ ]
  remove_same-Ends (suc fuel) slot [] s h r l a = rw (head_item-empty r refl, remove_same) tt
  remove_same-Ends (suc fuel) slot (x ∷ q) s h r l a = elim (Bool-cases (slot == (oldest r).slot)) [
    | inl t ↦
        let same : slot ≡ x.slot = (==_iff slot (oldest r).slot).0 t ∙ oldest-slot r in
        rw (head_item_lem r, remove_same, t, take_head_lem r, ◌>>=◌)
          (Ends-mono (AboveSlot slot q (behind r s.slots)) (AboveSlot slot (x ∷ q) s) _
            (λ s' k. (Keeps-step e (x ∷ []) refl refl refl refl (omega arith) k.0, k.1))
            (remove_same-Ends fuel slot q (behind r s.slots) (omega arith) (behind-Ring r s.slots)
              (same-Live x q s.head _ s.slots (next_head x q s r) l (rw (← same) a)) a))
    | inr f ↦ rw (head_item_lem r, remove_same, f, ◌>>=◌) (Keeps-self e r l, a)
  ]

  -- What `drop_extra_slots` leaves.
  abbrev pub Fits : List Entry → Shared → Shared → Type 0
  Fits q s s' = Keeps cap b n e q s s' × (length s'.slots ≤ s'.slots_max)

  pub drop_extra_slots-Ends :
      (fuel : ℕ) (q : List Entry) (s : Shared) (m : SlotMap)
      → s.slots ≡ m
      → length m < fuel
      → Ring cap b n s q
      → Live s.head (q ++ (e ∷ [])) m
      → Ends (Fits q s) (drop_extra_slots fuel s)
  unfolding drop_extra_slots
  drop_extra_slots-Ends zero q s m em h r l = elim h [ ]
  drop_extra_slots-Ends (suc fuel) q s [] em h r l =
      elim (Bool-cases (ltb s.slots_max (length s.slots))) [
        | inl t ↦ rw (t, em, drop_extra_slots) tt
        | inr f ↦ rw (f, drop_extra_slots) (Keeps-self e r (rw em l), ground arith)
      ]
  drop_extra_slots-Ends (suc fuel) q s ((slot, info) ∷ m) em h r l =
      elim (Bool-cases (ltb s.slots_max (length s.slots))) [
        | inr f ↦ rw (f, drop_extra_slots) (Keeps-self e r (rw em l), ground arith)
        | inl t ↦
            let s₀ : Shared = record s { slots = m } in
            subst (Ends (Fits q s)) (sym (extra_slot fuel s slot info m t em)) (
              Ends->>= (AboveSlot slot q s₀) (Fits q s) _ _
                (λ s' k.
                  Ends->>= (AboveSlot slot k.0.rest s') (Fits q s) _ _
                    (λ s'' k'.
                      Ends-mono (Fits k'.0.rest s'') (Fits q s) _
                        (λ s₃ k''. (
                          Keeps-step e [] refl refl refl refl (rw em (omega arith))
                              (Keeps-trans e k.0 (Keeps-trans e k'.0 k''.0)),
                          k''.1,
                        ))
                        (drop_extra_slots-Ends fuel k'.0.rest s'' s''.slots refl
                          (omega (arith, k.0.fewer, k'.0.fewer)) k'.0.ring k'.0.live))
                    (remove_same-Ends (suc (s'.tail - s'.head)) slot k.0.rest s'
                      (omega (arith, k.0.ring.tail_is)) k.0.ring k.0.live k.1))
                (remove_before-Ends (suc (s.tail - s.head)) slot info.head q s₀
                  (omega (arith, r.tail_is)) (Ring-slots m r) (Live-tail l) l.sorted.0))
      ]
