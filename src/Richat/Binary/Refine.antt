-- ===== src/Richat/Binary/Refine.antt =====
-- The ring refines the bounded queue: which cells hold what, and that each call keeps it.
use native.Mathlib.Nat.{add-zero, add-mod_right, mod-lt}
use dragonmouth.Base.{
  ℕ, zero, suc, ◌+◌, ◌-◌, ◌%◌, ◌^◌, ◌≤◌, ◌<◌, ◌≡◌, ◌≢◌, refl, sym, ap, ◌∙◌, inl, inr, List, [], ◌∷◌,
  ◌++◌, none, some, arith, dec_lt, ℕ_discrete, ltb, length, length-append, length-set, get_elem?,
  set, get_elem?-replicate, length-replicate, Bool-cases, false, bit_and, ltb→lt,
}
use dragonmouth.Base.Ring.{
  wrapping_add, IsCapacity, capacity_pos, wrap-mod, index_mask, wrap-add-mod, turn-set_self,
  turn-set_ne,
}
use dragonmouth.Richat.Binary.{Channel, channel, get_idx, get_locked, put_locked, send, recv, run}
use dragonmouth.Richat.Binary.Queue
use dragonmouth.Richat.Binary.Queue.{Op, send_op, recv_op, Reply, sent, received, fault}

module _ {A : Type 0} where
  -- The channel `c` of capacity `cap` holds the queue `q`: the cell `i` places behind the head holds
  -- the message `i` of the queue, and the cells beyond its end are empty.
  pub record Holds (cap : ℕ) (c : Channel A) (q : List A) : Type 0 where
    pub is_capacity : IsCapacity cap
    pub mask_is : c.shared.mask ≡ cap - 1
    pub size : length c.shared.buffer ≡ cap
    pub in_range : length q ≤ cap
    pub tail_is : c.tail ≡ (c.head + length q) % 2 ^ 64
    pub cells :
        (i : ℕ) → i < cap → get_elem? c.shared.buffer ((c.head + i) % cap) ≡ some (get_elem? q i)

  get_elem?-append_self : (q : List A) (x : A) → get_elem? (q ++ (x ∷ [])) (length q) ≡ some x
  get_elem?-append_self [] x = refl
  get_elem?-append_self (y ∷ q) x = get_elem?-append_self q x

  get_elem?-append_ne :
      (q : List A) (x : A) (i : ℕ) → i ≢ length q → get_elem? (q ++ (x ∷ [])) i ≡ get_elem? q i
  get_elem?-append_ne [] x zero h = absurd (h refl)
  get_elem?-append_ne [] x (suc i) h = refl
  get_elem?-append_ne (y ∷ q) x zero h = refl
  get_elem?-append_ne (y ∷ q) x (suc i) h = get_elem?-append_ne q x i (λ e. h (ap suc e))

  get_elem?_out : (q : List A) (i : ℕ) → length q ≤ i → get_elem? q i ≡ none
  get_elem?_out [] i h = refl
  get_elem?_out (y ∷ q) zero h = elim h [ ]
  get_elem?_out (y ∷ q) (suc i) h = get_elem?_out q i (omega arith)

  get_elem?-lt : (q : List A) (i : ℕ) (x : A) → get_elem? q i ≡ some x → i < length q
  get_elem?-lt [] i x e = cc
  get_elem?-lt (y ∷ q) zero x e = omega arith
  get_elem?-lt (y ∷ q) (suc i) x e = omega (arith, get_elem?-lt q i x e)

  -- A new channel holds the empty queue.
  pub channel-Holds : (cap : ℕ) → IsCapacity cap → Holds cap (channel cap) []
  unfolding channel
  channel-Holds cap k = record {
    is_capacity = k;
    mask_is = refl;
    size = length-replicate cap none;
    in_range = omega arith;
    tail_is = omega arith;
    cells = λ i h. get_elem?-replicate cap none ((0 + i) % cap) (mod-lt (0 + i) (capacity_pos k));
  }

  module _ {cap : ℕ} {c : Channel A} {q : List A} (h : Holds cap c q) where
    tail_index : bit_and c.tail c.shared.mask ≡ (c.head + length q) % cap
    tail_index =
        ap (bit_and c.tail) h.mask_is
        ∙ index_mask cap h.is_capacity c.tail
        ∙ ap (λ k. k % cap) h.tail_is
        ∙ wrap-mod cap h.is_capacity (c.head + length q)

    head_index : bit_and c.head c.shared.mask ≡ (c.head + 0) % cap
    head_index =
        ap (bit_and c.head) h.mask_is
        ∙ index_mask cap h.is_capacity c.head
        ∙ ap (λ k. k % cap) (sym (add-zero c.head))

    tail_cell : length q < cap → get_locked c.shared c.tail ≡ some none
    unfolding get_locked
    tail_cell lt =
        ap (get_elem? c.shared.buffer) tail_index
        ∙ h.cells (length q) lt
        ∙ ap some (get_elem?_out q (length q) (omega arith))

    head_cell : get_locked c.shared c.head ≡ some (get_elem? q 0)
    unfolding get_locked
    head_cell = ap (get_elem? c.shared.buffer) head_index ∙ h.cells 0 (capacity_pos h.is_capacity)

    tail_cell_full : length q ≡ cap → get_locked c.shared c.tail ≡ some (get_elem? q 0)
    unfolding get_locked
    tail_cell_full e =
        ap (get_elem? c.shared.buffer) (
          tail_index
          ∙ ap (λ k. (c.head + k) % cap) e
          ∙ add-mod_right c.head cap
          ∙ ap (λ k. k % cap) (sym (add-zero c.head)))
        ∙ h.cells 0 (capacity_pos h.is_capacity)

    cells_after_send :
        (x : A)
        → length q < cap
        → (i : ℕ) → i < cap
        → get_elem? (set c.shared.buffer ((c.head + length q) % cap) (some x)) ((c.head + i) % cap)
          ≡ some (get_elem? (q ++ (x ∷ [])) i)
    cells_after_send x lt i hi = elim (ℕ_discrete i (length q)) [
      | yes e ↦ rw e (
          turn-set_self c.shared.buffer cap c.head (length q) (some x) h.size
            (capacity_pos h.is_capacity)
          ∙ ap some (sym (get_elem?-append_self q x)))
      | no ne ↦
          turn-set_ne c.shared.buffer cap c.head (length q) (some x) i lt hi (λ e. ne (sym e))
          ∙ h.cells i hi
          ∙ ap some (sym (get_elem?-append_ne q x i ne))
    ]

    abbrev after_send : A → Channel A
    after_send x = record c {
      shared = put_locked c.shared c.tail (some x);
      tail = wrapping_add c.tail 1;
    }

    after_send-Holds : (x : A) → length q < cap → Holds cap (after_send x) (q ++ (x ∷ []))
    unfolding put_locked
    after_send-Holds x lt = record {
      is_capacity = h.is_capacity;
      mask_is = h.mask_is;
      size = length-set c.shared.buffer (bit_and c.tail c.shared.mask) (some x) ∙ h.size;
      in_range = omega (arith, length-append q (x ∷ []));
      tail_is = omega (arith, length-append q (x ∷ []), h.tail_is);
      cells = λ i hi. rw (get_idx, tail_index) (cells_after_send x lt i hi);
    }

  module _ {cap : ℕ} {c : Channel A} {x : A} {q : List A} (h : Holds cap c (x ∷ q)) where
    abbrev after_recv : Channel A
    after_recv = record c { shared = put_locked c.shared c.head none; head = wrapping_add c.head 1 }

    -- The cell `i` behind the new head, in the old numbering: one further, or the one just emptied.
    cells_after_recv :
        (i : ℕ)
        → i < cap
        → get_elem? (set c.shared.buffer ((c.head + 0) % cap) none) ((c.head + suc i) % cap)
          ≡ some (get_elem? q i)
    cells_after_recv i hi = elim (dec_lt (suc i) cap) [
      | yes p ↦
          turn-set_ne c.shared.buffer cap c.head 0 none (suc i) (capacity_pos h.is_capacity) p
            (λ e. absurd (omega arith))
          ∙ h.cells (suc i) p
      | no p ↦
          ap (get_elem? (set c.shared.buffer ((c.head + 0) % cap) none)) (last_turn p)
          ∙ turn-set_self c.shared.buffer cap c.head 0 none h.size (capacity_pos h.is_capacity)
          ∙ ap some (sym (get_elem?_out q i (omega (arith, h.in_range))))
    ]
      where
        last_turn : ¬ (suc i < cap) → (c.head + suc i) % cap ≡ (c.head + 0) % cap
        last_turn p =
            let e : suc i ≡ cap = omega arith in
            rw e (add-mod_right c.head cap ∙ ap (λ k. k % cap) (sym (add-zero c.head)))

    after_recv-Holds : Holds cap after_recv q
    unfolding put_locked
    after_recv-Holds = record {
      is_capacity = h.is_capacity;
      mask_is = h.mask_is;
      size = length-set c.shared.buffer (bit_and c.head c.shared.mask) none ∙ h.size;
      in_range = omega (arith, h.in_range);
      tail_is = omega (arith, h.tail_is);
      cells = λ i hi.
          rw (get_idx, head_index h, wrap-add-mod cap h.is_capacity (c.head + 1) i)
            (ap (λ k. get_elem? (set c.shared.buffer ((c.head + 0) % cap) none) (k % cap))
                (let e : c.head + 1 + i ≡ c.head + suc i = omega arith in e)
              ∙ cells_after_recv i hi);
    }

  -- A receive from an empty channel writes back the empty cell.
  empty_recv-Holds :
      {cap : ℕ} {c : Channel A}
      → Holds cap c []
      → Holds cap (record c { shared = put_locked c.shared c.head none }) []
  unfolding put_locked
  empty_recv-Holds {cap} {c} h = record {
    is_capacity = h.is_capacity;
    mask_is = h.mask_is;
    size = length-set c.shared.buffer (bit_and c.head c.shared.mask) none ∙ h.size;
    in_range = h.in_range;
    tail_is = h.tail_is;
    cells = λ i hi. rw (get_idx, head_index h) (cell i hi);
  }
    where
      cell :
          (i : ℕ)
          → i < cap
          → get_elem? (set c.shared.buffer ((c.head + 0) % cap) none) ((c.head + i) % cap)
            ≡ some none
      cell zero hi = turn-set_self c.shared.buffer cap c.head 0 none h.size hi
      cell (suc i) hi =
          turn-set_ne c.shared.buffer cap c.head 0 none (suc i) (capacity_pos h.is_capacity) hi
            (λ e. absurd (omega arith))
          ∙ h.cells (suc i) hi

  -- `send` does what the queue of capacity `cap` does: it never panics, appends the message if there
  -- is room, and hands it back otherwise.
  pub send_refines :
      {cap : ℕ} {c : Channel A} {q : List A} (x : A)
      → Holds cap c q
      → let (q', r) = Queue.push cap q x in
        (c' : Channel A) × (send c x ≡ some (c', r)) × Holds cap c' q'
  unfolding send Queue.push
  send_refines {cap} {c} {q} x h = elim (Bool-cases (ltb (length q) cap)) [
    | inl room ↦
        rw (room, tail_cell h (ltb→lt _ _ room), send)
          (after_send h x, refl, after_send-Holds h x (ltb→lt _ _ room))
    | inr full ↦ rw full (go q h full)
  ]
    where
      go :
          (q : List A)
          → Holds cap c q
          → ltb (length q) cap ≡ false
          → (c' : Channel A) × (send c x ≡ some (c', some x)) × Holds cap c' q
      go [] h full = absurd (ground (arith, capacity_pos h.is_capacity))
      go (y ∷ q) h full = (c, rw (tail_cell_full h (ground (arith, h.in_range)), send), h)

  -- `recv` does what the queue does: it never panics, and takes the oldest message if there is one.
  pub recv_refines :
      {cap : ℕ} {c : Channel A} (q : List A)
      → Holds cap c q
      → let (q', r) = Queue.pop q in (c' : Channel A) × (recv c ≡ some (c', r)) × Holds cap c' q'
  unfolding recv Queue.pop
  recv_refines [] h = (_, rw (head_cell h, recv), empty_recv-Holds h)
  recv_refines (x ∷ q) h = (after_recv h, rw (head_cell h, recv), after_recv-Holds h)

  run_from :
      (ops : List (Op A)) {cap : ℕ} {c : Channel A} {q : List A}
      → Holds cap c q
      → run c ops ≡ Queue.run cap q ops
  unfolding run Queue.run
  run_from [] h = refl
  run_from (send_op x ∷ ops) {cap = cap} {q = q} h =
      let (c', e, h') = send_refines x h in
      rw (e, run) (ap (◌∷◌ (sent (Queue.push cap q x).1)) (run_from ops h'))
  run_from (recv_op ∷ ops) {q = q} h =
      let (c', e, h') = recv_refines q h in
      rw (e, run) (ap (◌∷◌ (received (Queue.pop q).1)) (run_from ops h'))

  -- No sequence of calls of the sender and the receiver tells a new ring, whose capacity is a power of
  -- two up to 2 ^ 64, from the bounded queue of that capacity; in particular no call panics.
  pub run_refines :
      (cap : ℕ)
      → IsCapacity cap
      → (ops : List (Op A)) → run (channel cap) ops ≡ Queue.run cap [] ops
  run_refines cap k ops = run_from ops (channel-Holds cap k)
