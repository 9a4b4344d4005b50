-- ===== src/Richat/Channel/Read.antt =====
-- `ReceiverSync::try_recv` of richat/src/channel.rs on a valid ring.
use native.Mathlib.Nat.{add-mul-mod_self_left}
use dragonmouth.Base.{
  ℕ, ◌+◌, ◌-◌, ◌*◌, ◌%◌, ◌≤◌, ◌<◌, ◌≡◌, refl, sym, ap, ◌∙◌, ◌⊎◌, inl, inr, true, false, List,
  Option, none, some, arith, length, get_elem?, get_elem?_in, if◌then◌else◌, ltb, ◌==◌, dec_lt,
}
use dragonmouth.Base.Ring.{capacity_pos}
use dragonmouth.Base.Turn.{turns_back}
use dragonmouth.Plugin.Channel.{ok}
use dragonmouth.Plugin.Channel.Receive.{RecvError, lagged}
use dragonmouth.Filter.Message.{Message}
use dragonmouth.Richat.Channel.{Item, SenderShared, item_at, read_item, try_recv}
use dragonmouth.Richat.Channel.Ring.{Entry, Cell, Ring, index_at}

-- What a receiver at a position is told: nothing from the receivers' tail on, that it lagged where
-- the head has passed, and else the message of its position.
abbrev pub at_position : Option Entry → RecvError ⊎ Option Message
at_position none = inl lagged
at_position (some e) = inr (some e.1)

unfoldable pub told : SenderShared → List Entry → ℕ → RecvError ⊎ Option Message
told s q p =
    if ltb p s.shared.tail
    then if ltb p s.head then inl lagged else at_position (get_elem? q (p - s.head))
    else inr none

module _ {cap : ℕ} {s : SenderShared} {q : List Entry} (r : Ring cap s q) where
  try_recv_item :
      (p : ℕ) (item : Item)
      → p < s.shared.tail
      → get_elem? s.shared.buffer (p % cap) ≡ some item
      → try_recv s.shared p ≡ ok (read_item p item)
  unfolding try_recv item_at
  try_recv_item p item h g =
      let before : ltb p s.shared.tail ≡ true = ground arith in
      rw (before, try_recv) (rw (ap (get_elem? s.shared.buffer) (index_at r p) ∙ g, item_at) refl)

  -- The cell of a position that the head has passed.
  read_passed :
      (p i k : ℕ) (item : Item) (o : Option Entry)
      → s.head + i ≡ p + cap * k
      → 0 < k
      → p < s.head
      → Cell cap (s.head + i) item o
      → read_item p item ≡ inl lagged
  unfolding read_item
  read_passed p i k item (some e) eq hk lt c =
      let other : (item.pos == p) ≡ false = ground (arith, c.0) in rw (other, read_item) refl
  read_passed p i k item none eq hk lt c = elim (dec_lt p item.pos) [
    | yes later ↦ let other : (item.pos == p) ≡ false = ground arith in rw (other, read_item) refl
    | no here ↦
        let at_least : cap ≤ cap * k = grind arith in
        let same : (item.pos == p) ≡ true = ground (arith, c.0) in
        rw (same, read_item) (rw c.1 refl)
  ]

  read_live :
      (p : ℕ) (item : Item) (e : Entry)
      → item.pos ≡ p
      → item.contents ≡ some e.1
      → read_item p item ≡ inr (some e.1)
  unfolding read_item
  read_live p item e here full =
      let same : (item.pos == p) ≡ true = ground (arith, here) in
      rw (same, read_item) (rw full refl)

  pub told_live :
      (p : ℕ) (e : Entry)
      → p < s.shared.tail
      → s.head ≤ p
      → get_elem? q (p - s.head) ≡ some e
      → told s q p ≡ inr (some e.1)
  unfolding told
  told_live p e h ge g =
      let before : ltb p s.shared.tail ≡ true = ground arith in
      let passed : ltb p s.head ≡ false = ground arith in rw (before, told) (rw passed (rw g refl))

  told_passed : (p : ℕ) → p < s.shared.tail → p < s.head → told s q p ≡ inl lagged
  unfolding told
  told_passed p h lt =
      let before : ltb p s.shared.tail ≡ true = ground arith in
      let passed : ltb p s.head ≡ true = ground arith in rw (before, told) (rw passed refl)

  pub told_after : (p : ℕ) → s.shared.tail ≤ p → told s q p ≡ inr none
  unfolding told
  told_after p h = let after : ltb p s.shared.tail ≡ false = ground arith in rw (after, told) refl

  try_recv_live : (p : ℕ) → p < s.shared.tail → s.head ≤ p → try_recv s.shared p ≡ ok (told s q p)
  try_recv_live p h ge =
      let i = p - s.head in
      let inside : i < length q = omega (arith, r.tail_is, r.published.0) in
      let (e, g) = get_elem?_in q i inside in
      let (item, gi, c) = r.cells i (omega (arith, r.in_range)) in
      let cell = cell_of item (s.head + i) (get_elem? q i) e g c in
      let here : s.head + i ≡ p = omega arith in
      try_recv_item p item h (ap (λ k. get_elem? s.shared.buffer (k % cap)) (sym here) ∙ gi)
      ∙ ap ok (read_live p item e (cell.0 ∙ here) cell.1 ∙ sym (told_live p e h ge g))
    where
      cell_of :
          (item : Item) (pos : ℕ) (o : Option Entry) (e : Entry)
          → o ≡ some e
          → Cell cap pos item o
          → (item.pos ≡ pos) × (item.contents ≡ some e.1)
      cell_of item pos none e eq c = cc
      cell_of item pos (some x) e eq c =
          let same : x ≡ e = cc in (c.0, c.2 ∙ ap (λ (y : Entry). some y.1) same)

  try_recv_passed : (p : ℕ) → p < s.shared.tail → p < s.head → try_recv s.shared p ≡ ok (told s q p)
  try_recv_passed p h lt =
      let (i, k, hi, eq, hk) = turns_back cap s.head p (capacity_pos r.is_capacity) lt in
      let (item, g, c) = r.cells i hi in
      let cell : get_elem? s.shared.buffer (p % cap) ≡ some item =
        ap (get_elem? s.shared.buffer)
          (sym (add-mul-mod_self_left p cap k) ∙ ap (λ x. x % cap) (sym eq))
        ∙ g in
      try_recv_item p item h cell
      ∙ ap ok (read_passed p i k item (get_elem? q i) eq hk lt c ∙ sym (told_passed p h lt))

  -- On a valid ring a receiver at any position is told, without a panic: nothing, if its position is
  -- the receivers' tail or later; else that it lagged, if the head has passed it; else the message
  -- that the ring holds at that position.
  pub try_recv-told : (p : ℕ) → try_recv s.shared p ≡ ok (told s q p)
  unfolding try_recv told
  try_recv-told p = elim (dec_lt p s.shared.tail) [
    | yes h ↦ elim (dec_lt p s.head) [
      | yes lt ↦ try_recv_passed p h lt
      | no ge ↦ try_recv_live p h (omega arith)
    ]
    | no h ↦
        let after : ltb p s.shared.tail ≡ false = ground arith in rw (after, try_recv, told) refl
  ]
