-- ===== src/Richat/Grpc/Logged.antt =====
-- `MessagesCache` of richat/src/grpc/server.rs holds what the channel had at its positions.
use dragonmouth.Base.{
  ℕ, ◌-◌, ◌^◌, ◌%◌, ◌<◌, bit_and, ◌≡◌, refl, sym, ap, ◌∙◌, ◌⊎◌, inl, inr, List, Option, none, some,
  arith, ◌==◌, length, get_elem?, set, replicate, Bool-cases, length-set, length-replicate,
  get_elem?-set_self, get_elem?-set_ne, get_elem?-replicate, get_elem?_in, ℕ_discrete, dec_lt,
}
use native.Mathlib.Nat.{mod-lt}
use dragonmouth.Base.Ring.{IsCapacity, capacity_pos, index_mask}
use dragonmouth.Base.Turn.{get_elem?_out}
use dragonmouth.Plugin.Channel.{Outcome, ok, ◌>>=◌}
use dragonmouth.Plugin.Channel.Receive.{RecvError}
use dragonmouth.Filter.Message.{Message}
use dragonmouth.Richat.Grpc.Cache.{
  MessagesCacheItem, MessagesCache, vacant, cache_new, cache_get_idx, advance, inrange, save, hit,
  found, or_receive, cache_try_recv,
}

-- A cache of that many cells, whose messages are those of their positions; a cell without one has
-- the greatest position.
pub record IsCache (log : ℕ → Message) (n : ℕ) (cache : MessagesCache) : Type 0 where
  pub is_capacity : IsCapacity n
  pub mask_is : cache.mask ≡ n - 1
  pub cells : length cache.buffer ≡ n
  pub logged :
      (i : ℕ) (cell : MessagesCacheItem) (m : Message)
      → get_elem? cache.buffer i ≡ some cell
      → cell.msg ≡ some m
      → m ≡ log cell.pos
  pub empty_at :
      (i : ℕ) (cell : MessagesCacheItem)
      → get_elem? cache.buffer i ≡ some cell
      → cell.msg ≡ none
      → cell.pos ≡ 2 ^ 64 - 1

-- What may be said of a position: anything but another message.
abbrev pub Fits : (ℕ → Message) → ℕ → RecvError ⊎ Option Message → Type 0
Fits log head (inl error) = Unit
Fits log head (inr none) = Unit
Fits log head (inr (some m)) = m ≡ log head

module _ (log : ℕ → Message) (n : ℕ) where
  advance-IsCache :
      (cache : MessagesCache) (head : ℕ) → IsCache log n cache → IsCache log n (advance cache head)
  unfolding advance
  advance-IsCache cache head c = record {
    is_capacity = c.is_capacity;
    mask_is = c.mask_is;
    cells = c.cells;
    logged = c.logged;
    empty_at = c.empty_at;
  }

  abbrev Logged : List MessagesCacheItem → Type 0
  Logged xs =
      (i : ℕ) (cell : MessagesCacheItem) (m : Message)
      → get_elem? xs i ≡ some cell
      → cell.msg ≡ some m
      → m ≡ log cell.pos

  set-Logged :
      (xs : List MessagesCacheItem) (k head : ℕ) (item : Message)
      → k < length xs
      → item ≡ log head
      → Logged xs
      → Logged (set xs k (record { pos = head; msg = some item }))
  set-Logged xs k head item h e logged i cell m g full = elim (ℕ_discrete k i) [
    | yes same ↦
        let new : MessagesCacheItem = record { pos = head; msg = some item } in
        let here : new ≡ cell =
          cc (sym (get_elem?-set_self xs k new h) ∙ ap (get_elem? (set xs k new)) same ∙ g) in
        let at : m ≡ item = cc (full, here) in
        at ∙ e ∙ ap (λ (x : MessagesCacheItem). log x.pos) here
    | no other ↦ logged i cell m (sym (get_elem?-set_ne xs k i _ other) ∙ g) full
  ]

  set-empty :
      (xs : List MessagesCacheItem) (k head : ℕ) (item : Message)
      → k < length xs
      → ((i : ℕ) (cell : MessagesCacheItem)
          → get_elem? xs i ≡ some cell
          → cell.msg ≡ none
          → cell.pos ≡ 2 ^ 64 - 1)
      → (i : ℕ) (cell : MessagesCacheItem)
      → get_elem? (set xs k (record { pos = head; msg = some item })) i ≡ some cell
      → cell.msg ≡ none
      → cell.pos ≡ 2 ^ 64 - 1
  set-empty xs k head item h empty i cell g gone = elim (ℕ_discrete k i) [
    | yes same ↦
        let new : MessagesCacheItem = record { pos = head; msg = some item } in
        let here : new ≡ cell =
          cc (sym (get_elem?-set_self xs k new h) ∙ ap (get_elem? (set xs k new)) same ∙ g) in
        cc (gone, here)
    | no other ↦ empty i cell (sym (get_elem?-set_ne xs k i _ other) ∙ g) gone
  ]

  idx_in :
      (cache : MessagesCache) (head : ℕ)
      → IsCache log n cache
      → cache_get_idx cache head < length cache.buffer
  unfolding cache_get_idx
  idx_in cache head c =
      let at : bit_and head cache.mask ≡ head % n =
        ap (bit_and head) c.mask_is ∙ index_mask n c.is_capacity head in
      omega (arith, at, c.cells, mod-lt head (capacity_pos c.is_capacity))

  save-IsCache :
      (cache : MessagesCache) (head : ℕ) (item : RecvError ⊎ Option Message)
      → IsCache log n cache
      → Fits log head item
      → IsCache log n (save cache head item)
  unfolding save
  save-IsCache cache head (inl error) c f = c
  save-IsCache cache head (inr none) c f = c
  save-IsCache cache head (inr (some item)) c f = elim (Bool-cases (inrange cache head)) [
    | inl e ↦ rw e (record {
      is_capacity = c.is_capacity;
      mask_is = c.mask_is;
      cells = length-set cache.buffer _ _ ∙ c.cells;
      logged = set-Logged cache.buffer _ head item (idx_in cache head c) f c.logged;
      empty_at = set-empty cache.buffer _ head item (idx_in cache head c) c.empty_at;
    })
    | inr e ↦ rw e c
  ]

  -- What the cell of a position is found to hold fits the position.
  abbrev Found : ℕ → Option (Option Message) → Type 0
  Found head none = Unit
  Found head (some none) = head ≡ 2 ^ 64 - 1
  Found head (some (some m)) = m ≡ log head

  hit-Found :
      (head : ℕ) (cell : MessagesCacheItem) (o : Option Message)
      → cell.msg ≡ o
      → ((m : Message) → cell.msg ≡ some m → m ≡ log cell.pos)
      → (cell.msg ≡ none → cell.pos ≡ 2 ^ 64 - 1)
      → Found head (hit head cell)
  hit-Found head cell o e logged empty = elim (Bool-cases (cell.pos == head)) [
    | inl same ↦ rw same (held o e (ground arith))
    | inr other ↦ rw other tt
  ]
    where
      held : (o : Option Message) → cell.msg ≡ o → cell.pos ≡ head → Found head (some cell.msg)
      held none e at = rw e (sym at ∙ empty e)
      held (some m) e at = rw e (logged m e ∙ ap log at)

  found-Found :
      (cache : MessagesCache) (head : ℕ)
      → IsCache log n cache
      → (msg : Option (Option Message)) × (found cache head ≡ ok msg) × Found head msg
  unfolding found
  found-Found cache head c = elim (Bool-cases (inrange cache head)) [
    | inl e ↦
        let (cell, g) =
          get_elem?_in cache.buffer (cache_get_idx cache head) (idx_in cache head c) in
        (
          hit head cell,
          rw (e, g) refl,
          hit-Found head cell cell.msg refl (λ m f. c.logged (cache_get_idx cache head) cell m g f)
              (c.empty_at (cache_get_idx cache head) cell g),
        )
    | inr e ↦ (none, rw e refl, tt)
  ]

  -- The cache answers as the channel does, or with a message.
  abbrev pub Agrees : RecvError ⊎ Option Message → RecvError ⊎ Option Message → Type 0
  Agrees item answer = (item ≡ answer) ⊎ ((m : Message) × (answer ≡ inr (some m)))

  abbrev pub Answered :
      ℕ
      → RecvError ⊎ Option Message
      → Outcome (MessagesCache × (RecvError ⊎ Option Message))
      → Type 0
  Answered head item o =
      (cache' : MessagesCache) × (answer : RecvError ⊎ Option Message) × (o ≡ ok (cache', answer))
      × IsCache log n cache'
      × Fits log head answer
      × Agrees item answer

  or_receive-Answered :
      (cache : MessagesCache) (head : ℕ) (msg : Option (Option Message))
      (item : RecvError ⊎ Option Message)
      → head < 2 ^ 64 - 1
      → IsCache log n cache
      → Found head msg
      → Fits log head item
      → Answered head item (or_receive cache (ok item) head msg)
  or_receive-Answered cache head none item lt c h f =
      (save cache head item, item, refl, save-IsCache cache head item c f, f, inl refl)
  or_receive-Answered cache head (some none) item lt c h f = absurd (omega (arith, lt, h))
  or_receive-Answered cache head (some (some m)) item lt c h f =
      (cache, inr (some m), refl, c, h, inr (m, refl))

  -- If each message in a cache is the one that the log has at its position, and the channel answers
  -- without a panic and with no other message, then at a position below the greatest the cache
  -- answers without a panic, as the channel does or with a message, which is the log's; and its
  -- messages are still those of the log.
  pub cache_try_recv-Answered :
      (cache : MessagesCache) (head : ℕ) (item : RecvError ⊎ Option Message)
      → head < 2 ^ 64 - 1
      → IsCache log n cache
      → Fits log head item
      → Answered head item (cache_try_recv cache (ok item) head)
  unfolding cache_try_recv
  cache_try_recv-Answered cache head item lt c f =
      let c₁ = advance-IsCache cache head c in
      let (msg, e, h) = found-Found (advance cache head) head c₁ in
      let (cache', answer, r, c', f', agrees) =
        or_receive-Answered (advance cache head) head msg item lt c₁ h f in
      (cache', answer, rw (e, ◌>>=◌) r, c', f', agrees)

  pub cache_new-IsCache : IsCapacity n → IsCache log n (cache_new n)
  unfolding cache_new
  cache_new-IsCache k = record {
    is_capacity = k;
    mask_is = refl;
    cells = length-replicate n vacant;
    logged = λ i cell m g full. elim (dec_lt i n) [
      | yes h ↦
          let here : vacant ≡ cell = cc (sym (get_elem?-replicate n vacant i h) ∙ g) in
          cc (full, here)
      | no h ↦
          cc (get_elem?_out (replicate n vacant) i (omega (arith, length-replicate n vacant)), g)
    ];
    empty_at = λ i cell g gone. elim (dec_lt i n) [
      | yes h ↦
          let here : vacant ≡ cell = cc (sym (get_elem?-replicate n vacant i h) ∙ g) in
          ap (λ (x : MessagesCacheItem). x.pos) (sym here)
      | no h ↦
          cc (get_elem?_out (replicate n vacant) i (omega (arith, length-replicate n vacant)), g)
    ];
  }
