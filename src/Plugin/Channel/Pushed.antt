-- ===== src/Plugin/Channel/Pushed.antt =====
-- `push_msg` keeps the invariant of the ring, and what it adds and drops.
use dragonmouth.Base.{
  ℕ, zero, suc, ◌+◌, ◌-◌, ◌^◌, ◌≤◌, ◌<◌, ◌≡◌, ◌≢◌, refl, sym, ap, ◌∙◌, subst, Bool, List, [], ◌∷◌,
  ◌++◌, none, some, arith, length, get_elem?, dec_lt, append_assoc, leb, ◌==◌, Bool-cases,
  Option-cases, inl, inr, ==_iff,
}
use dragonmouth.Base.Ring.{wrapping_add, capacity_pos}
use dragonmouth.Plugin.BTree.{get, insert, get-insert, insert-IsSorted, drop_upto, length-drop_upto}
use dragonmouth.Plugin.Message.{
  Bytes, ProtobufMessage, account_message, slot_message, transaction_message, entry_message,
  block_meta_message, get_slot,
}
use dragonmouth.Plugin.Channel.{
  Outcome, ◌>>=◌, SlotInfo, SlotMap, Shared, remove_slots, drop_extra_bytes,
}
use dragonmouth.Plugin.Channel.Inv.{Entry, Ring, Live, IsValid, Ring-slots}
use dragonmouth.Plugin.Channel.Evict.{oldest, oldest-slot}
use dragonmouth.Plugin.Channel.Slots.{remove_slots-none}
use dragonmouth.Plugin.Channel.Loops.{
  Fits, Trimmed, drop_extra_slots-Ends, drop_extra_bytes-Ends, behind, behind-Ring, step-Live,
  next_head,
}
use dragonmouth.Plugin.Channel.Keeps.{Ends, Ends-mono, Ends->>=, Keeps}
use dragonmouth.Plugin.Channel.Push.{slot_entry, update_entry, add_bytes, store, push_msg}
use dragonmouth.Plugin.Channel.Store.{
  entry_of, store_room, stored-Ring, store_full, get_elem?-append_self, get_elem?-append_ne,
}

-- What `push_msg` leaves of the state `s` that holds `q`, for the message `e`: a valid state that
-- holds a suffix of `q` and then `e`, under the same limits.
pub record Pushed (cap : ℕ) (b : Bool) (e : Entry) (q : List Entry) (s s' : Shared) : Type 0 where
  pub gone : List Entry
  pub rest : List Entry
  pub split : q ≡ gone ++ rest
  pub valid : IsValid cap b s' (rest ++ (e ∷ []))
  pub tail_is : s'.tail ≡ s.tail + 1
  pub slots_max_is : s'.slots_max ≡ s.slots_max
  pub bytes_max_is : s'.bytes_max ≡ s.bytes_max
  pub wakers_is : s'.wakers ≡ s.wakers

-- What it is that an entry points at a message.
abbrev Points : ℕ → List Entry → ℕ → SlotInfo → Type 0
Points head q k info =
    (i : ℕ) × (x : Entry) × (info.head ≡ head + i) × (get_elem? q i ≡ some x) × (x.slot ≡ k)

get_elem?-ne-length : (q : List Entry) (i : ℕ) (x : Entry) → get_elem? q i ≡ some x → i ≢ length q
get_elem?-ne-length [] i x g = cc
get_elem?-ne-length (y ∷ q) zero x g = omega arith
get_elem?-ne-length (y ∷ q) (suc i) x g =
    let ih : i ≢ length q = get_elem?-ne-length q i x g in omega arith

-- An entry that points at a message of `q` points at it when one more follows.
Points-append :
    (head : ℕ) (q : List Entry) (e : Entry) (k : ℕ) (info : SlotInfo)
    → Points head q k info
    → Points head (q ++ (e ∷ [])) k info
Points-append head q e k info (i, x, h, g, sl) =
    (i, x, h, get_elem?-append_ne q e i (get_elem?-ne-length q i x g) ∙ g, sl)

module _ {T : Type 0} (message : ProtobufMessage T) (bytes : Bytes) where
  pub update_entry-head : (info : SlotInfo) → (update_entry message info).head ≡ info.head
  unfolding update_entry
  update_entry-head info = go message
    where
      go : (m : ProtobufMessage T) → (update_entry m info).head ≡ info.head
      go (slot_message s none t) = ground arith
      go (slot_message s (some p) t) = ground arith
      go (account_message s a) = refl
      go (transaction_message s t) = refl
      go (entry_message x) = refl
      go (block_meta_message x) = refl

  -- The slot map with the entry of the message.
  abbrev pub entered : Shared → SlotMap
  entered s =
      insert (get_slot message) (update_entry message (slot_entry s (get_slot message))) s.slots

  module _ {cap : ℕ} {b : Bool} {n : ℕ} {s : Shared} {q : List Entry} (r : Ring cap b n s q)
      (l : Live s.head q s.slots) where
    own_entry :
        Points s.head
          (q ++ (entry_of message bytes ∷ []))
          (get_slot message)
          (slot_entry s (get_slot message))
    unfolding slot_entry
    own_entry = elim (Option-cases (get (get_slot message) s.slots)) [
      | inl e ↦
          rw (e, slot_entry)
            (length q, entry_of message bytes, r.tail_is, get_elem?-append_self q _, refl)
      | inr (info, e) ↦
          rw (e, slot_entry)
            (Points-append s.head q (entry_of message bytes) (get_slot message) info
              (l.points (get_slot message) info e))
    ]

    points :
        (k : ℕ) (info : SlotInfo)
        → get k (entered s) ≡ some info
        → Points s.head (q ++ (entry_of message bytes ∷ [])) k info
    points k info g = elim (Bool-cases (get_slot message == k)) [
      | inl t ↦
          let same : update_entry message (slot_entry s (get_slot message)) ≡ info = ground (
            arith,
            g,
            get-insert (get_slot message) k (update_entry message (slot_entry s (get_slot message)))
                s.slots,
            t,
          ) in
          let (i, x, h, gi, sl) = own_entry in
          (
            i,
            x,
            ap (λ (w : SlotInfo). w.head) (sym same) ∙ update_entry-head _ ∙ h,
            gi,
            sl ∙ (==_iff (get_slot message) k).0 t,
          )
      | inr f ↦ Points-append s.head q (entry_of message bytes) k info (
          l.points k info (
            ground (
              arith,
              g,
              get-insert (get_slot message) k
                  (update_entry message (slot_entry s (get_slot message))) s.slots,
              f,
            )))
    ]

    pub entered-Live : Live s.head (q ++ (entry_of message bytes ∷ [])) (entered s)
    entered-Live = record {
      sorted = insert-IsSorted (get_slot message) _ s.slots l.sorted;
      points = points;
    }

  -- The end of `push_msg`, where the slots and the bytes fit already.
  module _ {cap : ℕ} {b : Bool} {s : Shared} (slots_fit : length s.slots ≤ s.slots_max)
      (bytes_fit : s.bytes_total ≤ s.bytes_max) (fits : s.tail + 1 < 2 ^ 64) where
    store-room :
        {q : List Entry} (r : Ring cap b (length bytes) s q)
        → Live s.head (q ++ (entry_of message bytes ∷ [])) s.slots
        → length q < cap
        → Ends
            (Pushed cap b (entry_of message bytes) q s)
            (store (record s { tail = wrapping_add s.tail 1 }) s.tail message bytes)
    store-room {q} r l room = rw (store_room message bytes r room fits) (record {
      gone = [];
      rest = q;
      split = refl;
      valid = record {
        ring = stored-Ring message bytes r room fits;
        live = l;
        slots_fit = slots_fit;
        bytes_fit = bytes_fit;
      };
      tail_is = omega arith;
      slots_max_is = refl;
      bytes_max_is = refl;
      wakers_is = refl;
    })

  -- A full ring gives up its oldest message first.
  store-full :
      {cap : ℕ} {b : Bool} (s : Shared) (x : Entry) (q : List Entry)
      → length s.slots ≤ s.slots_max
      → s.bytes_total ≤ s.bytes_max
      → s.tail + 1 < 2 ^ 64
      → (r : Ring cap b (length bytes) s (x ∷ q))
      → Live s.head ((x ∷ q) ++ (entry_of message bytes ∷ [])) s.slots
      → length (x ∷ q) ≡ cap
      → Ends
          (Pushed cap b (entry_of message bytes) (x ∷ q) s)
          (store (record s { tail = wrapping_add s.tail 1 }) s.tail message bytes)
  store-full {cap} {b} s x q slots_fit bytes_fit fits r l full =
      let m = remove_slots none (oldest r).slot s.slots in
      let dropped : m ≡ drop_upto x.slot s.slots =
        remove_slots-none (oldest r).slot s.slots ∙ ap (λ k. drop_upto k s.slots) (oldest-slot r) in
      let fewer : length m ≤ length s.slots = rw dropped (length-drop_upto x.slot s.slots) in
      rw (store_full message bytes r full) (
        Ends-mono (Pushed cap b (entry_of message bytes) q (behind r m))
          (Pushed cap b (entry_of message bytes) (x ∷ q) s) _
          (λ s' p. record {
            gone = x ∷ p.gone;
            rest = p.rest;
            split = ap (◌∷◌ x) p.split;
            valid = p.valid;
            tail_is = p.tail_is;
            slots_max_is = p.slots_max_is;
            bytes_max_is = p.bytes_max_is;
            wakers_is = p.wakers_is;
          })
          (store-room {s = behind r m} (omega arith) (omega arith) fits (behind-Ring r m)
            (step-Live (entry_of message bytes) x q s.head _ m
              (next_head cap b (length bytes) (entry_of message bytes) x q s r) dropped l)
            (omega arith)))

  store-Ends :
      {cap : ℕ} {b : Bool} (s : Shared) (q : List Entry)
      → length s.slots ≤ s.slots_max
      → s.bytes_total ≤ s.bytes_max
      → s.tail + 1 < 2 ^ 64
      → (r : Ring cap b (length bytes) s q)
      → Live s.head (q ++ (entry_of message bytes ∷ [])) s.slots
      → Ends
          (Pushed cap b (entry_of message bytes) q s)
          (store (record s { tail = wrapping_add s.tail 1 }) s.tail message bytes)
  store-Ends s [] sf bf fits r l = store-room sf bf fits r l (capacity_pos r.is_capacity)
  store-Ends {cap} s (x ∷ q) sf bf fits r l = elim (dec_lt (length (x ∷ q)) cap) [
    | yes room ↦ store-room sf bf fits r l room
    | no full ↦ store-full s x q sf bf fits r l (omega (arith, r.in_range))
  ]

  -- Counting the bytes of the message before it is stored.
  pub count-Ring :
      {cap : ℕ} {b : Bool} {s : Shared} {q : List Entry} (n : ℕ)
      → Ring cap b 0 s q
      → Ring cap b n (record s { bytes_total = s.bytes_total + n }) q
  count-Ring n r = record {
    is_capacity = r.is_capacity;
    mask_is = r.mask_is;
    size = r.size;
    in_range = r.in_range;
    tail_is = r.tail_is;
    counted = r.counted;
    total_is = omega (arith, r.total_is);
    cells = r.cells;
  }

  Pushed-after :
      {cap : ℕ} {b : Bool} {n m : ℕ} {e : Entry} {q : List Entry} {s s₁ s₃ s' : Shared}
      (k : Keeps cap b n e q s s₁) (k' : Keeps cap b m e k.rest s₁ s₃)
      → Pushed cap b e k'.rest s₃ s'
      → Pushed cap b e q s s'
  Pushed-after k k' p = record {
    gone = k.gone ++ (k'.gone ++ p.gone);
    rest = p.rest;
    split =
        k.split
        ∙ ap (◌++◌ k.gone)
            (k'.split ∙ ap (◌++◌ k'.gone) p.split ∙ sym (append_assoc k'.gone p.gone p.rest))
        ∙ sym (append_assoc k.gone (k'.gone ++ p.gone) p.rest);
    valid = p.valid;
    tail_is = p.tail_is ∙ ap (λ k. k + 1) (k'.tail_is ∙ k.tail_is);
    slots_max_is = p.slots_max_is ∙ k'.slots_max_is ∙ k.slots_max_is;
    bytes_max_is = p.bytes_max_is ∙ k'.bytes_max_is ∙ k.bytes_max_is;
    wakers_is = p.wakers_is ∙ k'.wakers_is ∙ k.wakers_is;
  }

  -- The part of `push_msg` behind the loop over the slots.
  finish_push : Shared → ℕ → Outcome Shared
  finish_push s₁ pos = do
    s₂ ← add_bytes s₁ (length bytes)
    s₃ ← drop_extra_bytes (suc (s₂.tail - s₂.head)) s₂
    store (record s₃ { tail = wrapping_add s₃.tail 1 }) pos message bytes

  finish_push-Ends :
      {cap : ℕ} {b : Bool} {q : List Entry} {s₀ s₁ : Shared}
      → s₀.tail + 1 < 2 ^ 64
      → (k : Keeps cap b 0 (entry_of message bytes) q s₀ s₁) → length s₁.slots ≤ s₁.slots_max
      → Ends (Pushed cap b (entry_of message bytes) q s₀) (finish_push s₁ s₀.tail)
  unfolding finish_push add_bytes
  finish_push-Ends {cap} {b} {q} {s₀} {s₁} fits k slots_fit =
      elim (Bool-cases (leb (2 ^ 64) (s₁.bytes_total + length bytes))) [
        | inl t ↦ rw (t, add_bytes) tt
        | inr f ↦
            let s₂ : Shared = record s₁ { bytes_total = s₁.bytes_total + length bytes } in
            rw (f, add_bytes)
              (Ends->>= (Trimmed cap b (length bytes) (entry_of message bytes) k.rest s₂)
                (Pushed cap b (entry_of message bytes) q s₀) _ _
                (λ s₃ k'.
                  Ends-mono (Pushed cap b (entry_of message bytes) k'.0.rest s₃)
                    (Pushed cap b (entry_of message bytes) q s₀) _
                    (λ s' p. Pushed-after k (counted k'.0) p)
                    (subst
                      (λ pos.
                        Ends (Pushed cap b (entry_of message bytes) k'.0.rest s₃)
                          (store (record s₃ { tail = wrapping_add s₃.tail 1 }) pos message bytes))
                      (k'.0.tail_is ∙ k.tail_is)
                      (store-Ends s₃ k'.0.rest (omega (arith, k'.0.fewer, k'.0.slots_max_is)) k'.1
                        (omega (arith, k'.0.tail_is, k.tail_is)) k'.0.ring k'.0.live)))
                (drop_extra_bytes-Ends cap b (length bytes) (entry_of message bytes)
                  (suc (s₂.tail - s₂.head)) k.rest s₂ (omega (arith, k.ring.tail_is))
                  (count-Ring (length bytes) k.ring) k.live))
      ]
    where
      -- The same facts, told of the state before the bytes were counted.
      counted :
          {s₃ : Shared}
          → Keeps cap b
              (length bytes)
              (entry_of message bytes)
              k.rest
              (record s₁ { bytes_total = s₁.bytes_total + length bytes })
              s₃
          → Keeps cap b (length bytes) (entry_of message bytes) k.rest s₁ s₃
      counted k' = record {
        gone = k'.gone;
        rest = k'.rest;
        split = k'.split;
        ring = k'.ring;
        live = k'.live;
        tail_is = k'.tail_is;
        slots_max_is = k'.slots_max_is;
        bytes_max_is = k'.bytes_max_is;
        wakers_is = k'.wakers_is;
        fewer = k'.fewer;
      }

  -- On a valid state `push_msg` ends, and if it does not panic it leaves a valid state: the ring holds
  -- the messages that it held, less some of the oldest, and the new message behind them; the slot map
  -- points at live messages; and the limits on slots, bytes and messages are kept.
  pub push_msg-Pushed :
      {cap : ℕ} {b : Bool} {s : Shared} {q : List Entry}
      → IsValid cap b s q
      → s.tail + 1 < 2 ^ 64
      → Ends (Pushed cap b (entry_of message bytes) q s) (push_msg s message bytes)
  unfolding push_msg finish_push
  push_msg-Pushed {cap} {b} {s} {q} v fits =
      let s₀ : Shared = record s { slots = entered s } in
      Ends->>= (Fits cap b 0 (entry_of message bytes) q s₀)
        (Pushed cap b (entry_of message bytes) q s) _ _
        (λ s₁ k.
          Ends-mono (Pushed cap b (entry_of message bytes) q s₀)
            (Pushed cap b (entry_of message bytes) q s) _ (λ s' p. of_entered p)
            (finish_push-Ends fits k.0 k.1))
        (drop_extra_slots-Ends cap b 0 (entry_of message bytes) (suc (length (entered s))) q s₀
          (entered s) refl (omega arith) (Ring-slots (entered s) v.ring)
          (entered-Live v.ring v.live))
    where
      of_entered :
          {s' : Shared}
          → Pushed cap b (entry_of message bytes) q (record s { slots = entered s }) s'
          → Pushed cap b (entry_of message bytes) q s s'
      of_entered p = record {
        gone = p.gone;
        rest = p.rest;
        split = p.split;
        valid = p.valid;
        tail_is = p.tail_is;
        slots_max_is = p.slots_max_is;
        bytes_max_is = p.bytes_max_is;
        wakers_is = p.wakers_is;
      }
