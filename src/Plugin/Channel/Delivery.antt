-- ===== src/Plugin/Channel/Delivery.antt =====
-- What a receiver gets from a valid ring: the messages from its position on, in order and without a
-- gap, or an error where it is too late.
use native.Mathlib.Nat.{add-zero, add-mul-mod_self_left}
use dragonmouth.Base.{
  ℕ, zero, suc, ◌+◌, ◌-◌, ◌*◌, ◌%◌, ◌≤◌, ◌<◌, ◌≡◌, refl, sym, ap, ◌∙◌, subst, Bool, false, List, [],
  ◌∷◌, ◌++◌, Option, none, some, arith, length, drop, get_elem?, if◌then◌else◌, Bool-cases, inl,
  inr, ◌⊎◌, dec_lt,
}
use dragonmouth.Base.Ring.{wrapping_add, capacity_pos}
use dragonmouth.Plugin.Message.{PluginNotification}
use dragonmouth.Base.Turn.{turns_back}
use dragonmouth.Plugin.Channel.{ok, Item, Shared, get_idx}
use dragonmouth.Plugin.Channel.Inv.{Entry, Cell, Ring}
use dragonmouth.Plugin.Channel.Receive.{
  Receiver, Received, item_of, waiting, failed, lagged, is_enabled, recv_rounds, recv_ref,
}
use dragonmouth.Plugin.Channel.Rounds.{
  index_at, tail_item, drop-nil, drop-cons, is_enabled-next, round-waiting, round-lagged,
  round-emptied, round-enabled, round-skipped,
}

-- The first message of the list that the receiver is subscribed to, and how many messages it passes,
-- that one included.
unfoldable pub deliver : (PluginNotification → Bool) → List Entry → Received
deliver enabled [] = waiting
deliver enabled (e ∷ q) = if enabled e.notification then item_of e.bytes else deliver enabled q

unfoldable pub passed : (PluginNotification → Bool) → List Entry → ℕ
passed enabled [] = 0
passed enabled (e ∷ q) = if enabled e.notification then 1 else suc (passed enabled q)

-- A receiver that waits leaves its waker.
unfoldable pub waits : ℕ → Received → Shared → Shared
waits waker waiting s = record s { wakers = s.wakers ++ (waker ∷ []) }
waits waker _ s = s

-- The result of `recv_ref` for the messages `t` that the receiver has not seen.
abbrev pub delivery :
    (PluginNotification → Bool) → List Entry → ℕ → Shared → Receiver → Shared × Receiver × Received
delivery enabled t waker s r = (
  waits waker (deliver enabled t) s,
  record r { next = r.next + passed enabled t },
  deliver enabled t,
)

module _ {cap n : ℕ} {s : Shared} {q : List Entry} (ring : Ring cap false n s q) (waker : ℕ) where
  pub at_tail :
      (fuel : ℕ) (r : Receiver)
      → r.next ≡ s.tail
      → recv_rounds (suc fuel) s r waker
        ≡ ok (record s { wakers = s.wakers ++ (waker ∷ []) }, r, waiting)
  at_tail fuel r e =
      let (item, g, p, c) = tail_item ring in
      round-waiting fuel s r waker item (ap (λ k. get_elem? s.buffer (get_idx s k)) e ∙ g) c
        (omega arith)

  -- The cell of a live message.
  live_item :
      (i : ℕ) (e : Entry) (r : Receiver)
      → r.next ≡ s.head + i
      → i < length q
      → get_elem? q i ≡ some e
      → (item : Item) × (get_elem? s.buffer (get_idx s r.next) ≡ some item)
        × (item.closed ≡ false)
        × (item.pos ≡ r.next)
        × (item.contents ≡ some (e.notification, e.bytes))
  live_item i e r en h g =
      let (item, gi, c) = ring.cells i (omega (arith, ring.in_range)) in
      let c' : Cell cap (s.head + i) false item (some e) =
        subst (Cell cap (s.head + i) false item) g c in
      (
        item,
        ap (get_elem? s.buffer) (index_at ring r.next ∙ ap (λ k. k % cap) en) ∙ gi,
        c'.3,
        c'.0 ∙ sym en,
        c'.2,
      )

  pub rounds :
      (fuel i : ℕ) (t : List Entry) (enabled : PluginNotification → Bool) (r : Receiver)
      → ((x : PluginNotification) → is_enabled r x ≡ enabled x)
      → drop i q ≡ t
      → i ≤ length q
      → r.next ≡ s.head + i
      → length t < fuel
      → recv_rounds fuel s r waker ≡ ok (delivery enabled t waker s r)
  unfolding deliver passed waits
  rounds zero i t enabled r en d hi e h = elim h [ ]
  rounds (suc fuel) i [] enabled r en d hi e h =
      at_tail fuel r (omega (arith, drop-nil q i hi d, ring.tail_is))
      ∙ ap
          (λ k. ok (record s { wakers = s.wakers ++ (waker ∷ []) }, record r { next = k }, waiting))
          (sym (add-zero r.next))
  rounds (suc fuel) i (x ∷ t) enabled r en d hi e h =
      let (g, d', lt) = drop-cons q i x t d in
      let (item, cell, op, pos, c) = live_item i x r e lt g in
      let wrap : wrapping_add r.next 1 ≡ r.next + 1 = omega (arith, ring.tail_is, ring.counted) in
      elim (Bool-cases (enabled x.notification)) [
        | inl on ↦ rw on (
            round-enabled fuel s r waker item cell op x.notification x.bytes pos c
              (en x.notification ∙ on)
            ∙ ap (λ k. ok (s, record r { next = k }, item_of x.bytes)) wrap)
        | inr off ↦ rw off (
            round-skipped fuel s r waker item cell op x.notification x.bytes pos c
              (en x.notification ∙ off)
            ∙ ap (λ k. recv_rounds fuel s (record r { next = k }) waker) wrap
            ∙ rounds fuel (suc i) t enabled (record r { next = r.next + 1 })
                (λ y. is_enabled-next r (r.next + 1) y ∙ en y) d' (omega arith) (omega arith)
                (omega arith)
            ∙ ap
                (λ k.
                  ok (waits waker (deliver enabled t) s, record r { next = k }, deliver enabled t))
                (let a : r.next + 1 + passed enabled t ≡ r.next + suc (passed enabled t) =
                    omega arith in
                  a))
      ]

  pub length-drop : (q : List Entry) (i : ℕ) → length (drop i q) ≡ length q - i
  length-drop q zero = omega arith
  length-drop [] (suc i) = omega arith
  length-drop (x ∷ q) (suc i) = omega (arith, length-drop q i)

  -- A receiver whose position lies between the head and the tail gets the first message from there on
  -- that it is subscribed to and steps behind it; if there is none it goes to the tail, leaves its
  -- waker and waits. No message that it is subscribed to is passed over, and nothing fails.
  pub recv_ref-delivers :
      (i : ℕ) (r : Receiver)
      → i ≤ length q
      → r.next ≡ s.head + i
      → recv_ref s r waker ≡ ok (delivery (is_enabled r) (drop i q) waker s r)
  unfolding recv_ref
  recv_ref-delivers i r hi e =
      rounds (suc (s.tail - r.next)) i (drop i q) (is_enabled r) r (λ x. refl) refl hi e
        (omega (arith, length-drop q i, ring.tail_is))

module _ {cap n : ℕ} {s : Shared} {q : List Entry} (ring : Ring cap false n s q) (waker : ℕ) where
  -- What the cell of a passed position holds: a later position, or that one, emptied.
  passed_item :
      (p i k : ℕ) (item : Item) (o : Option Entry)
      → s.head + i ≡ p + cap * k
      → 0 < k
      → Cell cap (s.head + i) false item o
      → (p < item.pos) ⊎ ((item.pos ≡ p) × (item.contents ≡ none))
  passed_item p i k item (some e) eq hk c =
      inl (let pos : 0 < cap = capacity_pos ring.is_capacity in grind (arith, c.0))
  passed_item p i k item none eq hk c = elim (dec_lt p item.pos) [
    | yes lt ↦ inl lt
    | no ge ↦ inr (let at_least : cap ≤ cap * k = grind arith in omega (arith, c.0), c.1)
  ]

  closed_of :
      (p : ℕ) (item : Item) (o : Option Entry) → Cell cap p false item o → item.closed ≡ false
  closed_of p item none c = c.2
  closed_of p item (some e) c = c.3

  -- A receiver whose position the head has passed is told that it lagged, and not given a message of
  -- another position.
  pub recv_ref-lagged :
      (r : Receiver)
      → r.next < s.head
      → (r' : Receiver) × (recv_ref s r waker ≡ ok (s, r', failed lagged))
  unfolding recv_ref
  recv_ref-lagged r lt =
      let (i, k, hi, eq, hk) = turns_back cap s.head r.next (capacity_pos ring.is_capacity) lt in
      let (item, g, c) = ring.cells i hi in
      let cell : get_elem? s.buffer (get_idx s r.next) ≡ some item =
        ap (get_elem? s.buffer) (
          index_at ring r.next
          ∙ sym (add-mul-mod_self_left r.next cap k)
          ∙ ap (λ x. x % cap) (sym eq))
        ∙ g in
      let op : item.closed ≡ false = closed_of (s.head + i) item (get_elem? q i) c in
      elim (passed_item r.next i k item (get_elem? q i) eq hk c) [
        | inl later ↦ (r, round-lagged (s.tail - r.next) s r waker item cell op later)
        | inr (here, gone) ↦ (
          record r { next = wrapping_add r.next 1 },
          round-emptied (s.tail - r.next) s r waker item cell op here gone,
        )
      ]
