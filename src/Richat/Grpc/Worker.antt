-- ===== src/Richat/Grpc/Worker.antt =====
-- `GrpcServer::worker_messages` of richat/src/grpc/server.rs: what a round of a worker does with the
-- client that it takes from the queue. The client's mutex is held throughout, while the sender goes
-- on: `rings` has the sender as it is at each read of a round. `valid` is what the filters take from
-- solana, and `encode` the bytes of an update of a message, which prost makes; it is `none` where
-- `FilteredUpdate::encode` panics, as it may where it cuts an account's data by the slices.
use dragonmouth.Base.{
  ℕ, zero, suc, ◌-◌, ◌==◌, Bool, true, false, not, ◌&&◌, ◌⊎◌, inl, inr, List, [], ◌∷◌, Option, none,
  some, if◌then◌else◌, ltb,
}
use dragonmouth.Base.Ring.{wrapping_add}
use dragonmouth.Plugin.Message.{Bytes}
use dragonmouth.Plugin.Channel.{Outcome, ok, panic, ◌>>=◌}
use dragonmouth.Plugin.Channel.Receive.{RecvError, lagged, closed}
use dragonmouth.Filter.Slots.{CommitmentLevel}
use dragonmouth.Filter.Message.{
  Message, slot_message, account_message, transaction_message, entry_message, block_meta_message,
  block_message,
}
use dragonmouth.Filter.Updates.{
  Filter, FilteredUpdate, MessageRef, slot_ref, account_ref, transaction_ref, entry_ref,
  block_meta_ref, block_ref, get_updates_ref,
}
use dragonmouth.Filter.Slices.{Range}
use dragonmouth.Richat.Channel.Sender.{Sender, receive}
use dragonmouth.Richat.Grpc.{
  Status, data_loss_lagged, data_loss_closed, SubscribeClientState, is_full, push_error,
  push_message, push_messages,
}
use dragonmouth.Richat.Grpc.Cache.{MessagesCache, cache_try_recv}

-- `From<&ParsedMessage> for MessageRef`
unfoldable pub message_ref : Message → MessageRef
message_ref (slot_message m) = slot_ref m.commitment
message_ref (account_message m) = account_ref m
message_ref (transaction_message m) = transaction_ref m
message_ref (entry_message m) = entry_ref
message_ref (block_meta_message m) = block_meta_ref
message_ref (block_message m) = block_ref m

unfoldable pub status_of : RecvError → Status
status_of lagged = data_loss_lagged
status_of closed = data_loss_closed

-- `if !state.is_full() && ts.duration_since(state.ping_ts_latest).unwrap_or_default() > ping_interval`
unfoldable pub send_ping : Bytes → ℕ → ℕ → SubscribeClientState → SubscribeClientState
send_ping ping ts ping_interval state =
    if not (is_full state) && ltb ping_interval (ts - state.ping_ts_latest)
    then push_message (record state { ping_ts_latest = ts }) ping
    else state

-- The worker's three caches.
pub record Caches : Type 0 where
  pub messages_cache_processed : MessagesCache
  pub messages_cache_confirmed : MessagesCache
  pub messages_cache_finalized : MessagesCache

unfoldable pub cache_of : Caches → CommitmentLevel → MessagesCache
cache_of caches CommitmentLevel.processed = caches.messages_cache_processed
cache_of caches CommitmentLevel.confirmed = caches.messages_cache_confirmed
cache_of caches CommitmentLevel.finalized = caches.messages_cache_finalized

unfoldable pub put_cache : Caches → CommitmentLevel → MessagesCache → Caches
put_cache caches CommitmentLevel.processed cache = record caches {
  messages_cache_processed = cache;
}
put_cache caches CommitmentLevel.confirmed cache = record caches {
  messages_cache_confirmed = cache;
}
put_cache caches CommitmentLevel.finalized cache = record caches {
  messages_cache_finalized = cache;
}

-- `map(|msg| msg.encode()).collect()`; a panic of one of them is `none`.
unfoldable pub encode_all :
    (FilteredUpdate → Option Bytes) → List FilteredUpdate → Option (List Bytes)
encode_all encode [] = some []
encode_all encode (update ∷ updates) = elim (encode update) [
  | none ↦ none
  | some bytes ↦ elim (encode_all encode updates) [
    | none ↦ none
    | some items ↦ some (bytes ∷ items)
  ]
]

module _ (valid : Bytes → Bool)
    (encode : List Range → Message → FilteredUpdate → Option Bytes) where
  -- The encoded updates of a message; `none` is a panic of the filter or of an encoding.
  unfoldable pub updates_of : Filter → CommitmentLevel → Message → Option (List Bytes)
  updates_of filter commitment message =
      elim (get_updates_ref valid filter (message_ref message) commitment) [
        | none ↦ none
        | some updates ↦ encode_all (encode filter.accounts_data_slices message) updates
      ]

  -- `for message in items { state.push_message(message); }`, behind the filter.
  abbrev pub push_items : SubscribeClientState → Option (List Bytes) → Outcome SubscribeClientState
  push_items state none = panic
  push_items state (some items) = ok (push_messages state items)

  -- `if let Some(filter) = state.filter.as_ref()`
  abbrev pub filter_with :
      SubscribeClientState → Message → Option Filter → Outcome SubscribeClientState
  filter_with state message none = ok state
  filter_with state message (some filter) =
      push_items state (updates_of filter state.commitment message)

  unfoldable pub filter_message : SubscribeClientState → Message → Outcome SubscribeClientState
  filter_message state message = filter_with state message state.filter

  -- What follows the answer of the cache, `rest` being the rounds that are left. The result says
  -- whether the client errored.
  unfoldable pub on_answer :
      (MessagesCache → SubscribeClientState → Outcome (Bool × MessagesCache × SubscribeClientState))
      → MessagesCache
      → SubscribeClientState
      → RecvError ⊎ Option Message
      → Outcome (Bool × MessagesCache × SubscribeClientState)
  on_answer rest cache state (inl error) = ok (true, cache, push_error state (status_of error))
  on_answer rest cache state (inr none) = ok (false, cache, state)
  on_answer rest cache state (inr (some message)) = do
    state' ← filter_message (record state { head = wrapping_add state.head 1 }) message
    rest cache state'

  -- `while !state.is_full() && count < messages_max_per_tick`; `left` rounds are left.
  unfoldable pub filter_messages :
      (ℕ → Sender)
      → ℕ
      → ℕ
      → MessagesCache
      → SubscribeClientState
      → Outcome (Bool × MessagesCache × SubscribeClientState)
  filter_messages rings zero count cache state = ok (false, cache, state)
  filter_messages rings (suc left) count cache state = elim (is_full state) [
    | true ↦ ok (false, cache, state)
    | false ↦ do
      (cache', answer) ←
          cache_try_recv cache (receive (rings count) state.commitment state.head) state.head
      on_answer (filter_messages rings left (suc count)) cache' state answer
  ]

  -- `filter messages`: nothing without a filter, else the loop with the cache of the commitment.
  unfoldable pub serve_filter :
      (ℕ → Sender)
      → ℕ
      → Caches
      → SubscribeClientState
      → Option Filter
      → Outcome (Bool × Caches × SubscribeClientState)
  serve_filter rings messages_max_per_tick caches state none = ok (true, caches, state)
  serve_filter rings messages_max_per_tick caches state (some filter) = do
    (errored, cache, state') ←
        filter_messages rings messages_max_per_tick 0 (cache_of caches state.commitment) state
    ok (not errored, put_cache caches state.commitment cache, state')

  -- A round of the loop with the client that it took; the result says whether the client goes back
  -- to the queue. A client of which there is no other instance is dropped.
  unfoldable pub serve_client :
      (ℕ → Sender)
      → ℕ
      → Bytes
      → ℕ
      → ℕ
      → Caches
      → SubscribeClientState
      → Outcome (Bool × Caches × SubscribeClientState)
  serve_client rings messages_max_per_tick ping ts ping_interval caches state =
      if state.ref_count == 1
      then ok (false, caches, state)
      else serve_filter rings messages_max_per_tick caches (send_ping ping ts ping_interval state)
          state.filter
