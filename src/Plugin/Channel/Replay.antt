-- ===== src/Plugin/Channel/Replay.antt =====
-- A subscriber of plugin-agave/src/channel.rs that starts from a slot, and what it receives until it
-- waits.
use dragonmouth.Base.{
  ℕ, zero, suc, ◌+◌, ◌-◌, ◌≤◌, ◌<◌, ◌≡◌, refl, sym, ap, ◌∙◌, ◌⊎◌, inl, inr, Bool, false, List, [],
  ◌∷◌, ◌++◌, Option, some, arith, if◌then◌else◌, length, drop, get_elem?, Bool-cases, dec_lt,
}
use dragonmouth.Base.Turn.{get_elem?_out}
use dragonmouth.Plugin.BTree.{get}
use dragonmouth.Plugin.Message.{Bytes, PluginNotification}
use dragonmouth.Plugin.Channel.{Outcome, ok, stuck, ◌>>=◌, Shared, SlotInfo}
use dragonmouth.Plugin.Channel.Inv.{Entry, Ring, IsValid}
use dragonmouth.Plugin.Channel.Receive.{
  Receiver, Received, item_of, waiting, failed, RichatFilter, subscribed, subscribe, recv_ref,
  is_enabled, new_receiver, filter_or_default,
}
use dragonmouth.Plugin.Channel.Rounds.{is_enabled-next}
use dragonmouth.Plugin.Channel.Delivery.{deliver, passed, waits, delivery, rounds, length-drop}

-- The messages that a receiver wants.
unfoldable pub wanted : (PluginNotification → Bool) → List Entry → List Bytes
wanted enabled [] = []
wanted enabled (e ∷ t) =
    let rest = wanted enabled t in if enabled e.notification then e.bytes ∷ rest else rest

-- What a call of `recv_ref` says of those: the first one, and how many entries it passes.
Says : (PluginNotification → Bool) → List Entry → Type 0
Says enabled t =
    ((deliver enabled t ≡ waiting) × (wanted enabled t ≡ []) × (passed enabled t ≡ length t))
    ⊎ ((bytes : Bytes) × (deliver enabled t ≡ item_of bytes)
        × (wanted enabled t ≡ bytes ∷ wanted enabled (drop (passed enabled t) t))
        × (0 < passed enabled t)
        × (passed enabled t ≤ length t))

says : (enabled : PluginNotification → Bool) (t : List Entry) → Says enabled t
unfolding Says deliver wanted passed
says enabled [] = inl (refl, refl, refl)
says enabled (e ∷ t) = elim (Bool-cases (enabled e.notification)) [
  | inl on ↦ rw on (inr (e.bytes, refl, refl, omega arith, omega arith))
  | inr off ↦ elim (says enabled t) [
    | inl (d, w, p) ↦ rw off (inl (d, w, ap suc p))
    | inr (bytes, d, w, pos, le) ↦ rw off (inr (bytes, d, w, omega arith, omega (arith, le)))
  ]
]

-- Calls of `recv_ref` until one gives no message.
abbrev pub after_item :
    (Shared → Receiver → Outcome (Shared × Receiver × List Bytes × Received))
    → Shared
    → Receiver
    → Received
    → Outcome (Shared × Receiver × List Bytes × Received)
after_item rest s r (item_of bytes) = do
  (s', r', items, last) ← rest s r
  ok (s', r', bytes ∷ items, last)
after_item rest s r waiting = ok (s, r, [], waiting)
after_item rest s r (failed error) = ok (s, r, [], failed error)

unfoldable pub recv_all :
    ℕ → Shared → Receiver → ℕ → Outcome (Shared × Receiver × List Bytes × Received)
recv_all zero s r waker = stuck
recv_all (suc fuel) s r waker = do
  (s', r', x) ← recv_ref s r waker
  after_item (λ s₁ r₁. recv_all fuel s₁ r₁ waker) s' r' x

drop-empty : (j : ℕ) → drop {A = Entry} j [] ≡ []
drop-empty zero = refl
drop-empty (suc j) = refl

drop-drop : (i j : ℕ) (q : List Entry) → drop j (drop i q) ≡ drop (i + j) q
drop-drop zero j q = let e : j ≡ 0 + j = omega arith in ap (λ k. drop k q) e
drop-drop (suc i) j [] = drop-empty j ∙ sym (drop-empty (suc i + j))
drop-drop (suc i) j (x ∷ q) =
    let e : suc (i + j) ≡ suc i + j = omega arith in drop-drop i j q ∙ ap (λ k. drop k (x ∷ q)) e

module _ {cap n : ℕ} {s : Shared} {q : List Entry} (ring : Ring cap false n s q) (waker : ℕ) where
  -- The end: the receiver is at the tail, has left its waker and waits.
  abbrev pub all_of : List Bytes → Receiver → Shared × Receiver × List Bytes × Received
  all_of items r =
      (record s { wakers = s.wakers ++ (waker ∷ []) }, record r { next = s.tail }, items, waiting)

  delivered :
      (i : ℕ) (enabled : PluginNotification → Bool) (r : Receiver)
      → ((x : PluginNotification) → is_enabled r x ≡ enabled x)
      → i ≤ length q
      → r.next ≡ s.head + i
      → recv_ref s r waker ≡ ok (delivery enabled (drop i q) waker s r)
  unfolding recv_ref
  delivered i enabled r en hi e =
      rounds ring waker (suc (s.tail - r.next)) i (drop i q) enabled r en refl hi e
        (omega (arith, length-drop ring waker q i, ring.tail_is))

  -- What follows a call, by what it gave.
  call_waits :
      (rest : Shared → Receiver → Outcome (Shared × Receiver × List Bytes × Received))
      (r : Receiver) (x : Received) (items : List Bytes) (k : ℕ)
      → x ≡ waiting
      → items ≡ []
      → k ≡ s.tail
      → after_item rest (waits waker x s) (record r { next = k }) x ≡ ok (all_of items r)
  unfolding waits
  call_waits rest r x items k e w at = rw (e, w, at) refl

  call_gives :
      (rest : Shared → Receiver → Outcome (Shared × Receiver × List Bytes × Received))
      (r : Receiver) (x : Received) (items items' : List Bytes) (k : ℕ) (bytes : Bytes)
      → x ≡ item_of bytes
      → items ≡ bytes ∷ items'
      → rest s (record r { next = k }) ≡ ok (all_of items' r)
      → after_item rest (waits waker x s) (record r { next = k }) x ≡ ok (all_of items r)
  unfolding waits
  call_gives rest r x items items' k bytes e w done = rw (e, w, done) refl

  drained :
      (fuel i : ℕ) (enabled : PluginNotification → Bool) (r : Receiver)
      → ((x : PluginNotification) → is_enabled r x ≡ enabled x)
      → i ≤ length q
      → r.next ≡ s.head + i
      → length q - i < fuel
      → recv_all fuel s r waker ≡ ok (all_of (wanted enabled (drop i q)) r)
  unfolding recv_all Says
  drained zero i enabled r en hi e h = elim h [ ]
  drained (suc fuel) i enabled r en hi e h =
      let t = drop i q in
      let p = passed enabled t in
      let given = delivered i enabled r en hi e in
      elim (says enabled t) [
        | inl (d, w, all) ↦
            let at : r.next + p ≡ s.tail =
              omega (arith, all, length-drop ring waker q i, ring.tail_is, e, hi) in
            rw (given, ◌>>=◌)
              (call_waits (λ s₁ r₁. recv_all fuel s₁ r₁ waker) r (deliver enabled t)
                (wanted enabled t) (r.next + p) d w at)
        | inr (bytes, d, w, pos, le) ↦
            let rest =
              drained fuel (i + p) enabled (record r { next = r.next + p })
                (λ x. is_enabled-next r (r.next + p) x ∙ en x)
                (omega (arith, le, length-drop ring waker q i, hi)) (omega (arith, e))
                (omega (arith, pos, le, length-drop ring waker q i, hi, h)) in
            rw (given, ◌>>=◌)
              (call_gives (λ s₁ r₁. recv_all fuel s₁ r₁ waker) r (deliver enabled t)
                (wanted enabled t) (wanted enabled (drop (i + p) q)) (r.next + p) bytes d
                (w ∙ ap (λ l. bytes ∷ wanted enabled l) (drop-drop i p q)) rest)
      ]

inside : (i : ℕ) (e : Entry) (q : List Entry) → get_elem? q i ≡ some e → i < length q
inside i e q g = elim (dec_lt i (length q)) [
  | yes h ↦ h
  | no h ↦ cc (get_elem?_out q i (omega (arith, h)), g)
]

-- Who subscribes from a slot of the slot map, in an open valid ring, starts at a message of that slot
-- which the ring holds. Its calls of `recv_ref` up to the first that waits, at most one more than the
-- ring has messages, give it exactly the messages from there to the tail that its filter leaves on,
-- in order, if nothing is pushed in between; then it stands at the tail, and its waker is left there.
pub subscribe-replays :
    {cap : ℕ} {s : Shared} {q : List Entry} (slot : ℕ) (filter : Option RichatFilter)
    (info : SlotInfo) (waker : ℕ)
    → IsValid cap false s q
    → get slot s.slots ≡ some info
    → (i : ℕ) × (e : Entry) × (r : Receiver) × (subscribe s (some slot) filter ≡ subscribed r)
      × (r ≡ new_receiver (s.head + i) (filter_or_default filter))
      × (get_elem? q i ≡ some e)
      × (e.slot ≡ slot)
      × (recv_all (suc (length q)) s r waker
          ≡ ok (
            record s { wakers = s.wakers ++ (waker ∷ []) },
            record r { next = s.tail },
            wanted (is_enabled r) (drop i q),
            waiting,
          ))
unfolding subscribe
subscribe-replays {s = s} {q} slot filter info waker v g =
    let (i, e, at, gi, same) = v.live.points slot info g in
    let r : Receiver = new_receiver info.head (filter_or_default filter) in
    (
      i,
      e,
      r,
      rw (g, subscribe) refl,
      ap (λ k. new_receiver k (filter_or_default filter)) at,
      gi,
      same,
      drained v.ring waker (suc (length q)) i (is_enabled r) r (λ x. refl)
          (let h = inside i e q gi in omega (arith, h)) at (omega arith),
    )
