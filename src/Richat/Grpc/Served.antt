-- ===== src/Richat/Grpc/Served.antt =====
-- What a worker gives a client, richat/src/grpc/server.rs: the updates of the messages that follow
-- one another in the ring of its commitment.
use dragonmouth.Base.{
  ℕ, ◌+◌, ◌-◌, ◌^◌, ◌≤◌, ◌<◌, ◌≡◌, ◌≢◌, subst, not, ◌&&◌, ◌==◌, refl, sym, ap, ◌∙◌, Bool, false,
  ◌⊎◌, inl, inr, List, [], ◌∷◌, ◌++◌, Option, some, arith, ltb, length, Bool-cases,
}
use dragonmouth.Plugin.Message.{Bytes}
use dragonmouth.Plugin.Channel.{Outcome, ok, ◌>>=◌}
use dragonmouth.Plugin.Channel.Receive.{RecvError}
use dragonmouth.Filter.Slots.{CommitmentLevel}
use dragonmouth.Filter.Message.{Message, sum}
use dragonmouth.Filter.Updates.{Filter, FilteredUpdate}
use dragonmouth.Filter.Slices.{Range}
use dragonmouth.Richat.Channel.Sender.{Sender, receive}
use dragonmouth.Richat.Grpc.{SubscribeClientState, wake, is_full, push_message}
use dragonmouth.Richat.Grpc.Cache.{MessagesCache}
use dragonmouth.Richat.Grpc.Logged.{IsCache, Fits}
use dragonmouth.Richat.Grpc.Worker.{
  updates_of, filter_messages, send_ping, Caches, cache_of, put_cache, serve_filter, serve_client,
}
use dragonmouth.Richat.Grpc.Order.{IsCounted, push_message-IsCounted}
use dragonmouth.Richat.Grpc.Filled.{filter_messages-Filled}
use dragonmouth.Richat.Grpc.Turn.{Alike, Filled}

cache_of-put_cache :
    (c : CommitmentLevel) (caches : Caches) (cache : MessagesCache)
    → cache_of (put_cache caches c cache) c ≡ cache
unfolding cache_of put_cache
cache_of-put_cache CommitmentLevel.processed caches cache = refl
cache_of-put_cache CommitmentLevel.confirmed caches cache = refl
cache_of-put_cache CommitmentLevel.finalized caches cache = refl

-- The client `p` is `s` behind the ping: with the ping queued last and its time noted, where the queue
-- is not full and more than the interval has passed since the last one; and as before where not.
abbrev pub Pinged : Bytes → ℕ → ℕ → SubscribeClientState → SubscribeClientState → Type 0
Pinged ping ts interval s p =
    ((p ≡ s) × ((s.messages_len_max < s.messages_len_total) ⊎ (ts - s.ping_ts_latest ≤ interval)))
    ⊎ ((s.messages_len_total ≤ s.messages_len_max)
        × (interval < ts - s.ping_ts_latest)
        × (p.messages ≡ s.messages ++ (ping ∷ []))
        × (p.messages_len_total ≡ s.messages_len_total + length ping)
        × (p.ping_ts_latest ≡ ts)
        × (p.head ≡ s.head)
        × (p.messages_error ≡ s.messages_error)
        × Alike s p)

send_ping-Pinged :
    (ping : Bytes) (ts interval : ℕ) (s : SubscribeClientState)
    → Pinged ping ts interval s (send_ping ping ts interval s)
unfolding send_ping is_full push_message wake
send_ping-Pinged ping ts interval s =
    elim (Bool-cases (ltb s.messages_len_max s.messages_len_total)) [
      | inl full ↦ rw (full, send_ping) (inl (refl, inl (ground (arith, full))))
      | inr room ↦ elim (Bool-cases (ltb interval (ts - s.ping_ts_latest))) [
        | inl due ↦
            rw (room, send_ping)
              (rw due (
                inr (
                  ground (arith, room),
                  ground (arith, due),
                  refl,
                  refl,
                  refl,
                  refl,
                  refl,
                  (refl, refl, refl),
                )))
        | inr early ↦ rw (room, send_ping) (rw early (inl (refl, inr (ground (arith, early)))))
      ]
    ]

module _ (valid : Bytes → Bool) (encode : List Range → Message → FilteredUpdate → Option Bytes)
    (rings : ℕ → Sender) (log : ℕ → Message) (size : ℕ) (items : ℕ → List Bytes) (k : ℕ)
    (f : Filter) (c : CommitmentLevel)
    (answers : (i h : ℕ)
      → (r : RecvError ⊎ Option Message) × (receive (rings i) c h ≡ ok r) × Fits log h r)
    (serves : (h : ℕ) → updates_of valid encode f c (log h) ≡ some (items h))
    (small : (h : ℕ) → sum length (items h) ≤ k) where
  module _ (per_tick : ℕ) (ping : Bytes) (ts interval : ℕ) where
    send_ping-ready :
        (s : SubscribeClientState)
        → IsCounted s
        → let s₁ = send_ping ping ts interval s in Alike s s₁ × (s₁.head ≡ s.head) × IsCounted s₁
    unfolding send_ping push_message wake
    send_ping-ready s n =
        elim (Bool-cases (not (is_full s) && ltb interval (ts - s.ping_ts_latest))) [
          | inl e ↦
              rw (e, send_ping)
                (
                  (refl, refl, refl),
                  refl,
                  push_message-IsCounted (record s { ping_ts_latest = ts }) ping n,
                )
          | inr e ↦ rw (e, send_ping) ((refl, refl, refl), refl, n)
        ]

    serve_filter-run :
        (caches : Caches) (s : SubscribeClientState) (errored : Bool) (cache : MessagesCache)
        (s' : SubscribeClientState)
        → s.commitment ≡ c
        → filter_messages valid encode rings per_tick 0 (cache_of caches c) s
          ≡ ok (errored, cache, s')
        → serve_filter valid encode rings per_tick caches s (some f)
          ≡ ok (not errored, put_cache caches c cache, s')
    unfolding serve_filter
    serve_filter-run caches s errored cache s' g r =
        let r' : filter_messages valid encode rings per_tick 0 (cache_of caches s.commitment) s
            ≡ ok (errored, cache, s') =
          ap (λ l. filter_messages valid encode rings per_tick 0 (cache_of caches l) s) g ∙ r in
        rw (r', ◌>>=◌) (ap (λ l. ok (not errored, put_cache caches l cache, s')) g)

    serve_client-run :
        (caches : Caches) (s : SubscribeClientState)
        (o : Outcome (Bool × Caches × SubscribeClientState))
        → s.filter ≡ some f
        → s.ref_count ≢ 1
        → serve_filter valid encode rings per_tick caches (send_ping ping ts interval s) (some f)
          ≡ o
        → serve_client valid encode rings per_tick ping ts interval caches s ≡ o
    unfolding serve_client
    serve_client-run caches s o e two r =
        let shared : (s.ref_count == 1) ≡ false = ground (arith, two) in
        rw (shared, serve_client)
          (ap (serve_filter valid encode rings per_tick caches (send_ping ping ts interval s)) e
            ∙ r)

    -- The client's turn, its commitment being known.
    serve_filter-Filled :
        (caches : Caches) (s : SubscribeClientState)
        → IsCache log size (cache_of caches c)
        → IsCounted s
        → s.filter ≡ some f
        → s.commitment ≡ c
        → s.head + per_tick < 2 ^ 64
        → (errored : Bool) × (caches' : Caches) × (s' : SubscribeClientState) × (serve_filter valid
              encode rings per_tick caches s
              (some f)
            ≡ ok (not errored, caches', s'))
          × Filled rings c log size items k 0 per_tick s errored (cache_of caches' c) s'
    serve_filter-Filled caches s i n e g h =
        let (errored, cache, s', r, d) =
          filter_messages-Filled valid encode rings log size items k f c answers serves small
            per_tick 0 (cache_of caches c) s i n e g h in
        let back : cache ≡ cache_of (put_cache caches c cache) c =
          sym (cache_of-put_cache c caches cache) in
        (
          errored,
          put_cache caches c cache,
          s',
          serve_filter-run caches s errored cache s' g r,
          subst (λ x. Filled rings c log size items k 0 per_tick s errored x s') back d,
        )

    -- Suppose that the channel answers each read of the client's ring with nothing, an error or
    -- the log's message of that position, that the cache's messages are the log's, that the filter
    -- and the encoding make items of each message, of `k` bytes at most together, without a panic,
    -- that the client's count of queued bytes is right and that positions stay below 2 ^ 64. Then
    -- a turn of a client with a filter, of which there is another instance, does not panic. First,
    -- if its queue is not full and the interval has passed, the ping is queued and its time noted,
    -- and else nothing changes. Then the client gets the items of the next messages of the log, of
    -- as many as the limit of a turn at most, none missing and none twice, and stands behind them,
    -- with its queue over its limit by at most the items of one message, or not grown behind the
    -- ping. The turn ends when the channel has an error at the client's position: this becomes the
    -- client's error, and the client does not go back to the workers' queue. In all other cases
    -- the client's error is as before and it goes back, and the limit of a turn was reached, its
    -- queue is full or the channel had nothing at its position.
    pub serve_client-Filled :
        (caches : Caches) (s : SubscribeClientState)
        → IsCache log size (cache_of caches c)
        → IsCounted s
        → s.filter ≡ some f
        → s.commitment ≡ c
        → s.head + per_tick < 2 ^ 64
        → s.ref_count ≢ 1
        → (errored : Bool) × (caches' : Caches) × (p s' : SubscribeClientState) × (serve_client
              valid encode rings per_tick ping ts interval caches s
            ≡ ok (not errored, caches', s'))
          × Pinged ping ts interval s p
          × Filled rings c log size items k 0 per_tick p errored (cache_of caches' c) s'
    serve_client-Filled caches s i n e g h two =
        let (same, at, n₁) = send_ping-ready s n in
        let (errored, caches', s', r, d) =
          serve_filter-Filled caches (send_ping ping ts interval s) i n₁ (same.0 ∙ e) (same.1 ∙ g)
            (omega (arith, at, h)) in
        (
          errored,
          caches',
          send_ping ping ts interval s,
          s',
          serve_client-run caches s (ok (not errored, caches', s')) e two r,
          send_ping-Pinged ping ts interval s,
          d,
        )
