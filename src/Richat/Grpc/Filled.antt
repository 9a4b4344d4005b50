-- ===== src/Richat/Grpc/Filled.antt =====
-- The rounds of a client's turn, richat/src/grpc/server.rs: each gives the client the updates of the
-- next message in the ring of its commitment.
use dragonmouth.Base.{
  ℕ, zero, suc, ◌+◌, ◌^◌, ◌≤◌, ◌<◌, ◌≡◌, refl, sym, ap, ◌∙◌, Bool, true, false, ◌⊎◌, inl, inr, List,
  ◌++◌, Option, none, some, arith, length, append_assoc, append-nil, Bool-cases,
}
use native.Mathlib.Nat.{mod-eq_of_lt}
use dragonmouth.Base.Ring.{wrapping_add}
use dragonmouth.Plugin.Message.{Bytes}
use dragonmouth.Plugin.Channel.{Outcome, ok, ◌>>=◌}
use dragonmouth.Plugin.Channel.Receive.{RecvError}
use dragonmouth.Filter.Slots.{CommitmentLevel}
use dragonmouth.Filter.Message.{Message, sum}
use dragonmouth.Filter.Updates.{Filter, FilteredUpdate}
use dragonmouth.Filter.Slices.{Range}
use dragonmouth.Richat.Channel.Sender.{Sender, receive}
use dragonmouth.Richat.Grpc.{SubscribeClientState, wake, is_full, push_error, push_messages}
use dragonmouth.Richat.Grpc.Cache.{MessagesCache}
use dragonmouth.Richat.Grpc.Logged.{IsCache, Fits, Agrees, cache_try_recv-Answered}
use dragonmouth.Richat.Grpc.Worker.{
  status_of, push_items, filter_with, updates_of, filter_message, on_answer, filter_messages,
}
use dragonmouth.Richat.Grpc.Order.{IsCounted, push_messages-IsCounted}
use dragonmouth.Richat.Grpc.Turn.{
  served, push_messages-total, push_messages-queue, push_messages-Alike, Filled,
}

module _ (valid : Bytes → Bool) (encode : List Range → Message → FilteredUpdate → Option Bytes)
    (rings : ℕ → Sender) (log : ℕ → Message) (size : ℕ) (items : ℕ → List Bytes) (k : ℕ)
    (f : Filter) (c : CommitmentLevel)
    (answers : (i h : ℕ)
      → (r : RecvError ⊎ Option Message) × (receive (rings i) c h ≡ ok r) × Fits log h r)
    (serves : (h : ℕ) → updates_of valid encode f c (log h) ≡ some (items h))
    (small : (h : ℕ) → sum length (items h) ≤ k) where
  abbrev FillsTo :
      ℕ → ℕ → SubscribeClientState → Outcome (Bool × MessagesCache × SubscribeClientState) → Type 0
  FillsTo count left s o =
      (errored : Bool) × (cache : MessagesCache) × (s' : SubscribeClientState) × (o
        ≡ ok (errored, cache, s'))
      × Filled rings c log size items k count left s errored cache s'

  stays :
      (count left : ℕ) (s : SubscribeClientState) (cache : MessagesCache)
      → IsCache log size cache
      → IsCounted s
      → (0 ≡ left)
        ⊎ ((s.messages_len_max < s.messages_len_total)
            ⊎ ((i : ℕ) × (i ≡ count + 0) × (receive (rings i) c s.head ≡ ok (inr none))))
      → Filled rings c log size items k count left s false cache s
  unfolding served
  stays count left s cache h counted why = record {
    cached = h;
    n = 0;
    within = omega arith;
    head_is = omega arith;
    messages_are = sym (append-nil s.messages);
    alike = (refl, refl, refl);
    counted = counted;
    bounded = inr refl;
    ended = inr (refl, refl, why);
  }

  fails :
      (count left : ℕ) (s : SubscribeClientState) (error : RecvError) (cache : MessagesCache)
      → IsCache log size cache
      → IsCounted s
      → receive (rings count) c s.head ≡ ok (inl error)
      → Filled rings c log size items k count left s true cache (push_error s (status_of error))
  unfolding served push_error wake
  fails count left s error cache h counted told = record {
    cached = h;
    n = 0;
    within = omega arith;
    head_is = omega arith;
    messages_are = sym (append-nil s.messages);
    alike = (refl, refl, refl);
    counted = counted;
    bounded = inr refl;
    ended = inl (refl, count, error, omega arith, told, refl);
  }

  -- One message, given to the client.
  abbrev next : SubscribeClientState → SubscribeClientState
  next s = push_messages (record s { head = s.head + 1 }) (items s.head)

  filter_message-next :
      (s : SubscribeClientState)
      → s.filter ≡ some f
      → s.commitment ≡ c
      → s.head + 1 < 2 ^ 64
      → filter_message valid encode (record s { head = wrapping_add s.head 1 }) (log s.head)
        ≡ ok (next s)
  unfolding filter_message
  filter_message-next s e g h =
      let s₁ : SubscribeClientState = record s { head = wrapping_add s.head 1 } in
      ap (filter_with valid encode s₁ (log s.head)) e
      ∙ ap (push_items valid encode s₁)
          (ap (λ l. updates_of valid encode f l (log s.head)) g ∙ serves s.head)
      ∙ ap (λ p. ok (push_messages (record s { head = p }) (items s.head))) (mod-eq_of_lt h)

  -- The rounds behind the first one, put together with it.
  joined :
      (count left : ℕ) (s : SubscribeClientState) (errored : Bool) (cache : MessagesCache)
      (s' : SubscribeClientState)
      → s.messages_len_total ≤ s.messages_len_max
      → Filled rings c log size items k (suc count) left (next s) errored cache s'
      → Filled rings c log size items k count (suc left) s errored cache s'
  unfolding served
  joined count left s errored cache s' open_queue d =
      let s₁ : SubscribeClientState = record s { head = s.head + 1 } in
      let (same, at, err) = push_messages-Alike (items s.head) s₁ in
      let at₁ : (next s).head ≡ suc s.head = omega (arith, at) in
      record {
        cached = d.cached;
        n = suc d.n;
        within = omega (arith, d.within);
        head_is = omega (arith, d.head_is, at);
        messages_are =
            d.messages_are
            ∙ ap (λ l. l ++ served items d.n (next s).head) (push_messages-queue (items s.head) s₁)
            ∙ append_assoc s.messages (items s.head) (served items d.n (next s).head)
            ∙ ap (λ p. s.messages ++ (items s.head ++ served items d.n p)) at₁;
        alike = (d.alike.0 ∙ same.0, d.alike.1 ∙ same.1, d.alike.2 ∙ same.2);
        counted = d.counted;
        bounded = elim d.bounded [
          | inl b ↦ inl (omega (arith, b, same.2))
          | inr b ↦
              inl
                (omega (arith, b, push_messages-total (items s.head) s₁, small s.head, open_queue))
        ];
        ended = elim d.ended [
          | inl (x, i, error, at_round, told, kept) ↦
              inl (x, i, error, omega (arith, at_round), told, kept)
          | inr (e, same_error, inl all) ↦ inr (e, same_error ∙ err, inl (ap suc all))
          | inr (e, same_error, inr (inl full)) ↦ inr (e, same_error ∙ err, inr (inl full))
          | inr (e, same_error, inr (inr (i, at_round, told))) ↦
              inr (e, same_error ∙ err, inr (inr (i, omega (arith, at_round), told)))
        ];
      }

  -- A cache that does not give a message answers as the channel does.
  Agrees-error :
      (r : RecvError ⊎ Option Message) (error : RecvError)
      → Agrees log size r (inl error)
      → r ≡ inl error
  Agrees-error r error (inl e) = e
  Agrees-error r error (inr (m, e)) = cc e

  Agrees-none : (r : RecvError ⊎ Option Message) → Agrees log size r (inr none) → r ≡ inr none
  Agrees-none r (inl e) = e
  Agrees-none r (inr (m, e)) = cc e

  answered :
      (left count : ℕ) (cache : MessagesCache) (s : SubscribeClientState)
      (r answer : RecvError ⊎ Option Message)
      → receive (rings count) c s.head ≡ ok r
      → Agrees log size r answer
      → Fits log s.head answer
      → s.filter ≡ some f
      → s.commitment ≡ c
      → IsCounted s
      → s.messages_len_total ≤ s.messages_len_max
      → s.head + 1 < 2 ^ 64
      → IsCache log size cache
      → FillsTo
          (suc count)
          left
          (next s)
          (filter_messages valid encode rings left (suc count) cache (next s))
      → FillsTo count (suc left) s (
          on_answer valid encode
            (filter_messages valid encode rings left (suc count))
            cache
            s
            answer)
  unfolding on_answer
  answered left count cache s r (inl error) told agrees fits e g n o h i rest = (
    true,
    cache,
    push_error s (status_of error),
    refl,
    fails count (suc left) s error cache i n (told ∙ ap ok (Agrees-error r error agrees)),
  )
  answered left count cache s r (inr none) told agrees fits e g n o h i rest = (
    false,
    cache,
    s,
    refl,
    stays count (suc left) s cache i n
        (inr (inr (count, omega arith, told ∙ ap ok (Agrees-none r agrees)))),
  )
  answered left count cache s r (inr (some m)) told agrees fits e g n o h i rest =
      let (errored, cache', s', r, d) = rest in
      let given : filter_message valid encode (record s { head = wrapping_add s.head 1 }) m
          ≡ ok (next s) =
        ap (filter_message valid encode (record s { head = wrapping_add s.head 1 })) fits
        ∙ filter_message-next s e g h in
      (errored, cache', s', rw (given, ◌>>=◌) r, joined count left s errored cache' s' o d)

  over : (s : SubscribeClientState) → is_full s ≡ true → s.messages_len_max < s.messages_len_total
  unfolding is_full
  over s e = ground (arith, e)

  is_open :
      (s : SubscribeClientState) → is_full s ≡ false → s.messages_len_total ≤ s.messages_len_max
  unfolding is_full
  is_open s e = ground (arith, e)

  pub filter_messages-Filled :
      (left count : ℕ) (cache : MessagesCache) (s : SubscribeClientState)
      → IsCache log size cache
      → IsCounted s
      → s.filter ≡ some f
      → s.commitment ≡ c
      → s.head + left < 2 ^ 64
      → FillsTo count left s (filter_messages valid encode rings left count cache s)
  unfolding filter_messages
  filter_messages-Filled zero count cache s i n e g h =
      (false, cache, s, refl, stays count 0 s cache i n (inl refl))
  filter_messages-Filled (suc left) count cache s i n e g h = elim (Bool-cases (is_full s)) [
    | inl full ↦ (
      false,
      cache,
      s,
      rw (full, filter_messages) refl,
      stays count (suc left) s cache i n (inr (inl (over s full))),
    )
    | inr room ↦
        let s₁ : SubscribeClientState = record s { head = s.head + 1 } in
        let (same, at, err) = push_messages-Alike (items s.head) s₁ in
        let (r, e₁, fits) = answers count s.head in
        let (cache', answer, e₂, i', fits', agrees) =
          cache_try_recv-Answered log size cache s.head r (omega (arith, h)) i fits in
        let (errored, cache₂, s', e₃, d) =
          answered left count cache' s r answer e₁ agrees fits' e g n (is_open s room)
            (omega (arith, h)) i'
            (filter_messages-Filled left (suc count) cache' (next s) i'
              (push_messages-IsCounted (items s.head) s₁ n) (same.0 ∙ e) (same.1 ∙ g)
              (omega (arith, at, h))) in
        let told : receive (rings count) s.commitment s.head ≡ ok r =
          ap (λ l. receive (rings count) l s.head) g ∙ e₁ in
        (errored, cache₂, s', rw (room, filter_messages) (rw told (rw (e₂, ◌>>=◌) e₃)), d)
  ]
