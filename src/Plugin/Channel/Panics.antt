-- ===== src/Plugin/Channel/Panics.antt =====
-- Two classes of messages on which `push_msg` panics, on any valid state.
use dragonmouth.Base.{
  ℕ, zero, suc, ◌+◌, ◌-◌, ◌%◌, ◌^◌, ◌<◌, ◌≡◌, refl, ◌∙◌, Bool, true, false, List, [], ◌∷◌, none,
  some, arith, length, ltb, leb, Bool-cases, inl, inr, lt→ltb,
}
use dragonmouth.Plugin.BTree.{get, insert, Above}
use dragonmouth.Plugin.Message.{Bytes, ProtobufMessage, get_slot}
use dragonmouth.Plugin.Channel.{
  Outcome, ok, panic, stuck, ◌>>=◌, SlotInfo, SlotMap, Shared, remove_slots, remove_before,
  remove_same, drop_extra_slots, drop_extra_bytes,
}
use dragonmouth.Plugin.Channel.Inv.{Entry, Ring, IsValid, Ring-slots}
use dragonmouth.Plugin.Channel.Evict.{oldest, head_item_lem, take_head_lem, head_item-empty}
use dragonmouth.Plugin.Channel.Loops.{Fits, behind, behind-Ring, extra_slot, drop_extra_slots-Ends}
use dragonmouth.Plugin.Channel.Keeps.{Ends}
use dragonmouth.Plugin.Channel.Push.{slot_entry, update_entry, add_bytes, store, push_msg}
use dragonmouth.Plugin.Channel.Store.{entry_of}
use dragonmouth.Plugin.Channel.Pushed.{entered, entered-Live, count-Ring, update_entry-head}

module _ {cap : ℕ} {b : Bool} {n : ℕ} where
  -- Removing up to the tail empties the ring.
  remove_before-all :
      (fuel slot upto : ℕ) (q : List Entry) (s : Shared)
      → length q < fuel
      → upto ≡ s.tail
      → Ring cap b n s q
      → (s' : Shared) × (remove_before fuel slot upto s ≡ ok s') × Ring cap b n s' []
  unfolding remove_before
  remove_before-all zero slot upto q s h e r = elim h [ ]
  remove_before-all (suc fuel) slot upto [] s h e r =
      let t : ltb s.head upto ≡ false = ground (arith, r.tail_is) in (s, rw (t, remove_before), r)
  remove_before-all (suc fuel) slot upto (x ∷ q) s h e r =
      let t : ltb s.head upto ≡ true = lt→ltb s.head upto (omega (arith, r.tail_is)) in
      let m = remove_slots (some (slot + 1)) (oldest r).slot s.slots in
      let (s', p, r') =
        remove_before-all fuel slot upto q (behind r m) (omega arith) e (behind-Ring r m) in
      (s', rw (t, head_item_lem r, take_head_lem r, remove_before) p, r')

  -- Where more bytes are on their way than may be kept, the loop empties the ring and panics.
  drop_extra_bytes-over :
      (fuel : ℕ) (q : List Entry) (s : Shared)
      → length q < fuel
      → s.bytes_max < n
      → Ring cap b n s q
      → drop_extra_bytes fuel s ≡ panic
  unfolding drop_extra_bytes
  drop_extra_bytes-over zero q s h o r = elim h [ ]
  drop_extra_bytes-over (suc fuel) [] s h o r =
      let t : ltb s.bytes_max s.bytes_total ≡ true = lt→ltb _ _ (omega (arith, r.total_is)) in
      rw (t, head_item-empty r refl, drop_extra_bytes)
  drop_extra_bytes-over (suc fuel) (x ∷ q) s h o r =
      let t : ltb s.bytes_max s.bytes_total ≡ true = lt→ltb _ _ (omega (arith, r.total_is)) in
      let m = remove_slots none (oldest r).slot s.slots in
      rw (t, head_item_lem r, take_head_lem r, drop_extra_bytes)
        (drop_extra_bytes-over fuel q (behind r m) (omega arith) o (behind-Ring r m))

insert-front : (k : ℕ) (v : SlotInfo) (m : SlotMap) → Above k m → insert k v m ≡ (k, v) ∷ m
unfolding insert
insert-front k v [] a = refl
insert-front k v ((j, w) ∷ m) a = ground arith

get-none : (k : ℕ) (m : SlotMap) → Above k m → get k m ≡ none
unfolding get
get-none k [] a = refl
get-none k ((j, w) ∷ m) a = ground (arith, get-none k m a.1)

slot_entry-head :
    (s : Shared) (slot : ℕ) → get slot s.slots ≡ none → (slot_entry s slot).head ≡ s.tail
unfolding slot_entry
slot_entry-head s slot e = rw (e, slot_entry)

remove_same-empty :
    {cap : ℕ} {b : Bool} {n : ℕ} (fuel slot : ℕ) (s : Shared)
    → Ring cap b n s []
    → remove_same (suc fuel) slot s ≡ panic
unfolding remove_same
remove_same-empty fuel slot s r = rw (head_item-empty r refl, remove_same)

module _ {T : Type 0} (message : ProtobufMessage T) (bytes : Bytes) {cap : ℕ} {b : Bool}
    {s : Shared} {q : List Entry} (v : IsValid cap b s q) where
  -- The loop over the slots panics.
  drop_extra_slots-late :
      (fuel : ℕ) (m : SlotMap) (info : SlotInfo)
      → length m ≡ s.slots_max
      → info.head ≡ s.tail
      → drop_extra_slots (suc fuel) (record s { slots = (get_slot message, info) ∷ m }) ≡ panic
  drop_extra_slots-late fuel m info full e =
      let s₀ : Shared = record s { slots = (get_slot message, info) ∷ m } in
      let (s', p, r') =
        remove_before-all (suc (s.tail - s.head)) (get_slot message) info.head q
          (record s { slots = m }) (omega (arith, v.ring.tail_is)) e (Ring-slots m v.ring) in
      extra_slot fuel s₀ (get_slot message) info m (lt→ltb _ _ (omega arith)) refl
      ∙ rw p (rw (remove_same-empty (s'.tail - s'.head) (get_slot message) s' r'))

  -- A message of a slot below all those of the slot map panics when the map is full: the loop removes
  -- the entry just made, and with it every message, and then asserts that there is one.
  pub push_msg-late :
      length s.slots ≡ s.slots_max
      → Above (get_slot message) s.slots
      → push_msg s message bytes ≡ panic
  unfolding push_msg
  push_msg-late full a =
      let info = update_entry message (slot_entry s (get_slot message)) in
      let e : info.head ≡ s.tail =
        update_entry-head message bytes (slot_entry s (get_slot message))
        ∙ slot_entry-head s (get_slot message) (get-none (get_slot message) s.slots a) in
      let front : entered message bytes s ≡ (get_slot message, info) ∷ s.slots =
        insert-front (get_slot message) info s.slots a in
      let p : drop_extra_slots (suc (length (entered message bytes s)))
            (record s { slots = entered message bytes s })
          ≡ panic =
        rw front (drop_extra_slots-late (suc (length s.slots)) s.slots info full e) in
      rw p

  -- So does any message that is longer than the limit on all bytes.
  pub push_msg-oversized : s.bytes_max < length bytes → push_msg s message bytes ≡ panic
  unfolding push_msg
  push_msg-oversized over =
      go
        (drop_extra_slots (suc (length (entered message bytes s)))
          (record s { slots = entered message bytes s }))
        (drop_extra_slots-Ends cap b 0 (entry_of message bytes)
          (suc (length (entered message bytes s))) q (record s { slots = entered message bytes s })
          (entered message bytes s) refl (omega arith) (Ring-slots (entered message bytes s) v.ring)
          (entered-Live message bytes v.ring v.live))
    where
      rest : Shared → Outcome Shared
      rest s₁ = do
        s₂ ← add_bytes s₁ (length bytes)
        s₃ ← drop_extra_bytes (suc (s₂.tail - s₂.head)) s₂
        store (record s₃ { tail = (s₃.tail + 1) % 2 ^ 64 }) s.tail message bytes

      over_ok :
          (s₁ : Shared)
          → Fits cap b 0
              (entry_of message bytes)
              q
              (record s { slots = entered message bytes s })
              s₁
          → rest s₁ ≡ panic
      over_ok s₁ k = elim (Bool-cases (leb (2 ^ 64) (s₁.bytes_total + length bytes))) [
        | inl t ↦ unfold add_bytes in rw t
        | inr f ↦
            let s₂ : Shared = record s₁ { bytes_total = s₁.bytes_total + length bytes } in
            let p : drop_extra_bytes (suc (s₂.tail - s₂.head)) s₂ ≡ panic =
              drop_extra_bytes-over (suc (s₂.tail - s₂.head)) k.0.rest s₂
                (omega (arith, k.0.ring.tail_is)) (omega (arith, k.0.bytes_max_is))
                (count-Ring message bytes (length bytes) k.0.ring) in
            unfold add_bytes in rw f (rw p)
      ]

      go :
          (o : Outcome Shared)
          → Ends
              (Fits cap b 0
                (entry_of message bytes)
                q
                (record s { slots = entered message bytes s }))
              o
          → (o >>= rest) ≡ panic
      go (ok s₁) k = over_ok s₁ k
      go panic k = refl
      go stuck k = elim k [ ]
