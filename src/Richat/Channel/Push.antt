-- ===== src/Richat/Channel/Push.antt =====
-- `SenderShared::push` of richat/src/channel.rs on a valid ring.
use native.Mathlib.Nat.{add-zero, add-mod_right}
use dragonmouth.Base.{
  ℕ, ◌+◌, ◌-◌, ◌%◌, ◌^◌, ◌<◌, ◌≡◌, refl, sym, ap, ◌∙◌, true, false, List, [], ◌∷◌, ◌++◌, none, some,
  arith, length, length-append, length-set, get_elem?, set, if◌then◌else◌, ltb, leb, dec_lt, subst,
}
use dragonmouth.Base.Ring.{capacity_pos, wrapping_add}
use dragonmouth.Base.Turn.{Cells, Cells-append, Cells-replace, get_elem?_out}
use dragonmouth.Plugin.Channel.{ok}
use dragonmouth.Filter.Message.{Message, message_size}
use dragonmouth.Richat.Channel.{
  Item, SenderShared, get_idx, item_at, put_item, remove_slot, step_over, drop_existed, store_at,
  enter_slot, push,
}
use dragonmouth.Richat.Channel.Ring.{Entry, total, Cell, Ring, tail_index}

-- The last `cap` messages, when one more comes.
unfoldable pub pushed : ℕ → List Entry → Entry → List Entry
pushed cap [] e = e ∷ []
pushed cap (x ∷ q) e = if ltb (length (x ∷ q)) cap then (x ∷ q) ++ (e ∷ []) else q ++ (e ∷ [])

total-append : (q : List Entry) (e : Entry) → total (q ++ (e ∷ [])) ≡ total q + message_size e.1
total-append [] e = omega arith
total-append (x ∷ q) e = omega (arith, total-append q e)

abbrev item_of : ℕ → ℕ → Message → Item
item_of pos slot m = record { pos = pos; slot = slot; contents = some m }

abbrev stored : SenderShared → ℕ → ℕ → Message → SenderShared
stored s pos slot m = record s {
  bytes_total = s.bytes_total + message_size m;
  shared = record (put_item s.shared pos (item_of pos slot m)) { tail = pos };
}

-- What a push promises: it returns, the ring holds `q'`, and the tails have moved.
abbrev pub Pushes : ℕ → SenderShared → ℕ → Message → List Entry → Type 0
Pushes cap s slot m q' =
    (s' : SenderShared) × (push s slot m ≡ ok s')
    × Ring cap s' q'
    × (s'.tail ≡ s.tail + 1)
    × (s'.shared.tail ≡ s.tail)

push_step :
    (s s₁ s₂ : SenderShared) (slot : ℕ) (m : Message) (item : Item)
    → item_at s.shared s.tail ≡ ok item
    → drop_existed (record s { tail = wrapping_add s.tail 1 }) item ≡ ok s₁
    → store_at s₁ s.tail slot m ≡ ok s₂
    → push s slot m ≡ ok (enter_slot slot s.tail s₂)
unfolding push
push_step s s₁ s₂ slot m item a d t = rw (a, push) (rw (d, push) (rw (t, push) refl))

store_at_lem :
    (s : SenderShared) (pos slot : ℕ) (m : Message)
    → s.bytes_total + message_size m < 2 ^ 64
    → store_at s pos slot m ≡ ok (stored s pos slot m)
unfolding store_at
store_at_lem s pos slot m h =
    let below : leb (2 ^ 64) (s.bytes_total + message_size m) ≡ false = ground arith in
    rw (below, store_at) refl

module _ (cap : ℕ) (s : SenderShared) (slot : ℕ) (m : Message) where
  push_room :
      (q : List Entry)
      → Ring cap s q
      → length q < cap
      → s.tail + 1 < 2 ^ 64
      → total q + message_size m < 2 ^ 64
      → Pushes cap s slot m (q ++ ((slot, m) ∷ []))
  unfolding drop_existed item_at enter_slot put_item
  push_room q r room fits small =
      let (item, g, c) = r.cells (length q) room in
      let empty : Cell cap (s.head + length q) item none =
        subst (λ o. Cell cap (s.head + length q) item o) (get_elem?_out q (length q) (omega arith))
          c in
      let t = stored (record s { tail = wrapping_add s.tail 1 }) s.tail slot m in
      (
        enter_slot slot s.tail t,
        push_step s (record s { tail = wrapping_add s.tail 1 }) t slot m item
            (rw (ap (get_elem? s.shared.buffer) (tail_index r) ∙ g, item_at) refl)
            (rw (empty.1, drop_existed) refl)
            (store_at_lem (record s { tail = wrapping_add s.tail 1 }) s.tail slot m
              (omega (arith, r.total_is))),
        record {
          is_capacity = r.is_capacity;
          mask_is = r.mask_is;
          size = length-set s.shared.buffer _ _ ∙ r.size;
          in_range = omega (arith, length-append q ((slot, m) ∷ []));
          tail_is = omega (arith, length-append q ((slot, m) ∷ []), r.tail_is);
          counted = omega arith;
          total_is = omega (arith, total-append q (slot, m), r.total_is);
          published = (omega arith, omega arith);
          cells =
              subst
                (λ k.
                  Cells (Cell cap) cap s.head (set s.shared.buffer k (item_of s.tail slot m))
                    (q ++ ((slot, m) ∷ [])))
                (sym (tail_index r))
                (Cells-append (Cell cap) cap s.head s.shared.buffer r.size
                  (capacity_pos r.is_capacity) q (item_of s.tail slot m) (slot, m) room
                  (r.tail_is, refl, refl) r.cells);
        },
        omega arith,
        refl,
      )

  push_full :
      (x : Entry) (q : List Entry)
      → Ring cap s (x ∷ q)
      → length (x ∷ q) ≡ cap
      → s.tail + 1 < 2 ^ 64
      → total q + message_size m < 2 ^ 64
      → Pushes cap s slot m (q ++ ((slot, m) ∷ []))
  unfolding drop_existed item_at enter_slot put_item step_over remove_slot get_idx
  push_full x q r full fits small =
      let (item, g, c) = r.cells 0 (capacity_pos r.is_capacity) in
      let enough : ltb s.bytes_total (message_size x.1) ≡ false = ground (arith, r.total_is) in
      let same : (s.head + length (x ∷ q)) % cap ≡ (s.head + 0) % cap =
        ap (λ k. (s.head + k) % cap) full
        ∙ add-mod_right s.head cap
        ∙ ap (λ k. k % cap) (sym (add-zero s.head)) in
      let before = record s { tail = wrapping_add s.tail 1 } in
      let s₁ = remove_slot item.slot (record before {
        head = wrapping_add s.head 1;
        bytes_total = s.bytes_total - message_size x.1;
      }) in
      let t = stored s₁ s.tail slot m in
      (
        enter_slot slot s.tail t,
        push_step s s₁ t slot m item
            (rw (ap (get_elem? s.shared.buffer) (tail_index r ∙ same) ∙ g, item_at) refl)
            (rw (c.2, drop_existed) (rw (enough, step_over) refl))
            (store_at_lem s₁ s.tail slot m (omega (arith, r.total_is))),
        record {
          is_capacity = r.is_capacity;
          mask_is = r.mask_is;
          size = length-set s.shared.buffer _ _ ∙ r.size;
          in_range = omega (arith, length-append q ((slot, m) ∷ []));
          tail_is = omega (arith, length-append q ((slot, m) ∷ []), r.tail_is, r.counted);
          counted = omega arith;
          total_is = omega (arith, total-append q (slot, m), r.total_is);
          published = (omega arith, omega arith);
          cells =
              moved (wrapping_add s.head 1) (get_idx s.shared s.tail)
                (omega (arith, r.tail_is, r.counted)) (tail_index r ∙ same);
        },
        omega arith,
        refl,
      )
    where
      moved :
          (h i : ℕ)
          → h ≡ s.head + 1
          → i ≡ (s.head + 0) % cap
          → Cells
              (Cell cap)
              cap
              h
              (set s.shared.buffer i (item_of s.tail slot m))
              (q ++ ((slot, m) ∷ []))
      moved h i eh ei =
          rw (eh, ei)
            (Cells-replace (Cell cap) cap s.head s.shared.buffer r.size (capacity_pos r.is_capacity)
              x q (item_of s.tail slot m) (slot, m) full
              (r.tail_is ∙ ap (λ k. s.head + k) full, refl, refl) r.cells)

  -- A push on a valid ring, whose positions and bytes stay within 64 bits, returns: the ring then
  -- holds the last messages, as many as there are cells, the new one behind the others. The sender's
  -- tail moves by one, and the receivers' tail is the position of the new message.
  pub push-Ring :
      (q : List Entry)
      → Ring cap s q
      → s.tail + 1 < 2 ^ 64
      → total q + message_size m < 2 ^ 64
      → (s' : SenderShared) × (push s slot m ≡ ok s')
        × Ring cap s' (pushed cap q (slot, m))
        × (s'.tail ≡ s.tail + 1)
        × (s'.shared.tail ≡ s.tail)
  unfolding pushed
  push-Ring [] r fits small = push_room [] r (capacity_pos r.is_capacity) fits small
  push-Ring (x ∷ q) r fits small = elim (dec_lt (length (x ∷ q)) cap) [
    | yes p ↦
        let e : ltb (length (x ∷ q)) cap ≡ true = ground arith in
        rw e (push_room (x ∷ q) r p fits small)
    | no p ↦
        let e : ltb (length (x ∷ q)) cap ≡ false = ground arith in
        rw e (push_full x q r (omega (arith, r.in_range)) fits (omega arith))
  ]
