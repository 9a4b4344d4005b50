-- ===== src/Plugin/Channel/Session.antt =====
-- A channel of plugin-agave/src/channel.rs from its creation to its close: pushes that do not panic
-- keep it valid, and a subscriber starts at the tail unless it asks for a slot.
use native.Mathlib.Nat.{mod-lt, mod-eq_of_lt, add-mod_left}
use dragonmouth.Base.{
  ℕ, zero, suc, ◌+◌, ◌-◌, ◌%◌, ◌^◌, ◌<◌, ◌≡◌, refl, ap, ◌∙◌, subst, Bool, false, List, [], ◌∷◌,
  ◌++◌, Option, none, some, arith, length, get_elem?, map,
}
use dragonmouth.Base.Ring.{IsCapacity, capacity_pos}
use dragonmouth.Plugin.BTree.{get}
use dragonmouth.Plugin.Message.{Bytes, ProtobufMessage}
use dragonmouth.Plugin.Channel.{ok, Item, Shared, new, new_items, get_idx}
use dragonmouth.Plugin.Channel.Inv.{Entry, Ring, IsValid}
use dragonmouth.Plugin.Channel.Keeps.{Ends, Ends->>=}
use dragonmouth.Plugin.Channel.Push.{push_all, close, close_item}
use dragonmouth.Plugin.Channel.Pushed.{Pushed, push_msg-Pushed}
use dragonmouth.Plugin.Channel.Store.{entry_of}
use dragonmouth.Plugin.Channel.Receive.{
  Receiver, waiting, failed, closed, recv_ref, recv_rounds, RichatFilter, subscribed, subscribe,
  new_receiver, filter_or_default,
}
use dragonmouth.Plugin.Channel.Delivery.{at_tail}
use dragonmouth.Plugin.Channel.Rounds.{index_at}

length-new_items : (i n : ℕ) → length (new_items i n) ≡ n
unfolding new_items
length-new_items i zero = refl
length-new_items i (suc n) = ap suc (length-new_items (i + 1) n)

get_elem?-new_items :
    (n i k : ℕ)
    → i < n
    → get_elem? (new_items k n) i
      ≡ some (record { pos = k + i; slot = 0; contents = none; closed = false })
unfolding new_items
get_elem?-new_items zero i k h = elim h [ ]
get_elem?-new_items (suc n) zero k h =
    let e : k ≡ k + 0 = omega arith in
    ap (λ (p : ℕ). some (record { pos = p; slot = 0; contents = none; closed = false })) e
get_elem?-new_items (suc n) (suc i) k h =
    get_elem?-new_items n i (k + 1) (omega arith)
    ∙ (let e : k + 1 + i ≡ k + suc i = omega arith in
        ap (λ (p : ℕ). some (record { pos = p; slot = 0; contents = none; closed = false })) e)

-- A new channel whose capacity is a power of two below 2 ^ 64 is valid and empty.
pub new-IsValid :
    (cap slots_max bytes_max : ℕ)
    → IsCapacity cap
    → cap < 2 ^ 64
    → IsValid cap false (new cap slots_max bytes_max) []
unfolding new
new-IsValid cap slots_max bytes_max k fits = record {
  ring = record {
    is_capacity = k;
    mask_is = refl;
    size = length-new_items 0 cap;
    in_range = omega arith;
    tail_is = omega arith;
    counted = fits;
    total_is = omega arith;
    cells = λ i h. (
      record { pos = i; slot = 0; contents = none; closed = false },
      ap (get_elem? (new_items 0 cap)) (add-mod_left cap i ∙ mod-eq_of_lt h)
          ∙ get_elem?-new_items cap i 0 h
          ∙ (let e : 0 + i ≡ i = omega arith in
              ap (λ (p : ℕ). some (record { pos = p; slot = 0; contents = none; closed = false }))
                e),
      (omega arith, refl, refl),
    );
  };
  live = record { sorted = tt; points = λ k info g. absurd (unfold get in cc g) };
  slots_fit = omega arith;
  bytes_fit = omega arith;
}

-- The state is valid and holds some messages.
abbrev pub Holds : ℕ → Bool → Shared → Type 0
Holds cap b s = (q : List Entry) × IsValid cap b s q

module _ {T : Type 0} (encode : ProtobufMessage T → Bytes) where
  -- Pushing a list of messages ends, and where nothing panics it leaves a valid state, with the tail
  -- moved by their number.
  pub push_all-Holds :
      {cap : ℕ} {b : Bool} (s : Shared) (messages : List (ProtobufMessage T))
      → Holds cap b s
      → s.tail + length messages < 2 ^ 64
      → Ends
          (λ s'. Holds cap b s' × (s'.tail ≡ s.tail + length messages))
          (push_all encode s messages)
  unfolding push_all
  push_all-Holds s [] v h = (v, omega arith)
  push_all-Holds {cap} {b} s (m ∷ rest) (q, v) h =
      Ends->>= (Pushed cap b (entry_of m (encode m)) q s)
        (λ s'. Holds cap b s' × (s'.tail ≡ s.tail + suc (length rest))) _ _
        (λ s' p.
          subst (λ k. Ends (λ s''. Holds cap b s'' × (s''.tail ≡ k)) (push_all encode s' rest))
            (omega (arith, p.tail_is))
            (push_all-Holds s' rest (p.rest ++ (entry_of m (encode m) ∷ []), p.valid)
              (omega (arith, p.tail_is))))
        (push_msg-Pushed m (encode m) v (omega arith))

-- Who subscribes without a slot stands at the tail, and waits until the next push.
pub subscribe-waits :
    {cap n : ℕ} {s : Shared} {q : List Entry} (filter : Option RichatFilter) (waker : ℕ)
    → Ring cap false n s q
    → (r : Receiver) × (subscribe s none filter ≡ subscribed r)
      × (recv_ref s r waker ≡ ok (record s { wakers = s.wakers ++ (waker ∷ []) }, r, waiting))
unfolding subscribe
subscribe-waits {s = s} filter waker ring =
    let r = new_receiver s.tail (filter_or_default filter) in
    (r, refl, unfold recv_ref in at_tail ring waker (s.tail - r.next) r refl)

get_elem?-map :
    (xs : List Item) (i : ℕ)
    → i < length xs
    → (x : Item) × (get_elem? (map close_item xs) i ≡ some (close_item x))
get_elem?-map [] i h = elim h [ ]
get_elem?-map (x ∷ xs) zero h = (x, refl)
get_elem?-map (x ∷ xs) (suc i) h = get_elem?-map xs i (omega arith)

-- After `close` every receiver, wherever it stands, is told that the channel is closed, and the close
-- wakes all that wait.
pub close-closes :
    {cap n : ℕ} {b : Bool} {s : Shared} {q : List Entry} (r : Receiver) (waker : ℕ)
    → Ring cap b n s q
    → (recv_ref (close s).0 r waker ≡ ok ((close s).0, r, failed closed))
      × ((close s).1 ≡ s.wakers)
      × ((close s).0.wakers ≡ [])
unfolding close recv_ref recv_rounds get_idx
close-closes {cap} {s = s} r waker ring =
    let (x, g) = get_elem?-map s.buffer (r.next % cap) (
      let l : r.next % cap < cap = mod-lt r.next (capacity_pos ring.is_capacity) in
      omega (arith, ring.size)) in
    let cell : get_elem? (map close_item s.buffer) (get_idx s r.next) ≡ some (close_item x) =
      ap (get_elem? (map close_item s.buffer)) (index_at ring r.next) ∙ g in
    (rw (get_idx, cell, recv_rounds), refl, refl)
