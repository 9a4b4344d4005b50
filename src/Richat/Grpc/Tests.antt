-- ===== src/Richat/Grpc/Tests.antt =====
-- A client of the gRPC server at small states, and the theorems there.
use dragonmouth.Base.{
  ℕ, zero, suc, ◌≤◌, ◌≡◌, refl, inl, inr, Bool, true, false, not, ◌==◌, List, [], ◌∷◌, Option, none,
  some, arith, if◌then◌else◌, All, length,
}
use dragonmouth.Base.Ring.{IsCapacity}
use dragonmouth.Base.Turn.{Cells}
use dragonmouth.Plugin.Message.{Bytes}
use dragonmouth.Plugin.Channel.{ok}
use dragonmouth.Filter.Slots.{CommitmentLevel}
use dragonmouth.Filter.Message.{Timestamp, Message, entry_message, message_size, sum}
use dragonmouth.Filter.Updates.{Filter, FilteredUpdate, get_updates_ref, names_get_update}
use dragonmouth.Filter.Slices.{Range}
use dragonmouth.Richat.Channel.{SenderShared, try_recv, item_at, get_idx, read_item}
use dragonmouth.Richat.Channel.Ring.{Entry, Cell, Ring}
use dragonmouth.Richat.Channel.Sender.{Sender, receive, shared_of}
use dragonmouth.Richat.Grpc.{
  data_loss_lagged, SubscribeClientState, is_full, push_messages, ReceiverStream, Poll, pending,
  end_of_stream, ready, stream_poll_next, pop_message, pop_front, push_message, push_error, wake,
}
use dragonmouth.Richat.Grpc.Cache.{
  cache_new, cache_try_recv, found, advance, inrange, save, cache_get_idx,
}
use dragonmouth.Richat.Grpc.Logged.{IsCache, cache_new-IsCache}
use dragonmouth.Richat.Grpc.Worker.{
  encode_all, serve_filter, put_cache, filter_messages, on_answer, filter_message, Caches, cache_of,
  message_ref, updates_of, send_ping, serve_client,
}
use dragonmouth.Richat.Grpc.Order.{
  IsCounted, Step, push, fail, poll, run, Ordered, run-Ordered, run-fails,
}
use dragonmouth.Richat.Grpc.Served.{Pinged, serve_client-Filled}
use dragonmouth.Richat.Grpc.Turn.{Filled}
use dragonmouth.Richat.Grpc.Rings.{IsLogged, receive-Fits}

abbrev now : Timestamp
now = record { seconds = 7; nanos = 1 }

abbrev entry : ℕ → ℕ → Message
entry slot size = entry_message (record { slot = slot; created_at = now; size = size })

-- Position 4 has an entry of slot 12, and every other one of slot 11.
abbrev log : ℕ → Message
log h = entry (if h == 4 then 12 else 11) 20

abbrev ring : SenderShared
ring = record {
  shared = record {
    tail = 6;
    mask = 3;
    buffer =
        record { pos = 4; slot = 12; contents = some (log 4) }
        ∷ record { pos = 5; slot = 11; contents = some (log 5) }
        ∷ record { pos = 2; slot = 0; contents = none }
        ∷ record { pos = 3; slot = 0; contents = none }
        ∷ [];
    slots = (11, 5) ∷ (12, 4) ∷ [];
  };
  head = 4;
  tail = 6;
  bytes_total = 40;
  slots = (11, 5) ∷ (12, 4) ∷ [];
}

abbrev held : List Entry
held = (12, log 4) ∷ (11, log 5) ∷ []

four : IsCapacity 4
four = record { exponent = 2; is_power = refl; fits = omega arith }

ring-Cells : Cells (Cell 4) 4 4 ring.shared.buffer held
ring-Cells zero h = (_, refl, (refl, refl, refl))
ring-Cells (suc zero) h = (_, refl, (refl, refl, refl))
ring-Cells (suc (suc zero)) h = (_, refl, (refl, refl))
ring-Cells (suc (suc (suc zero))) h = (_, refl, (refl, refl))
ring-Cells (suc (suc (suc (suc i)))) h = absurd (omega arith)

ring-Ring : Ring 4 ring held
unfolding message_size
ring-Ring = record {
  is_capacity = four;
  mask_is = refl;
  size = refl;
  in_range = omega arith;
  tail_is = refl;
  counted = omega arith;
  total_is = refl;
  published = (omega arith, omega arith);
  cells = ring-Cells;
}

ring-IsLogged : IsLogged log ring held
ring-IsLogged zero e g = cc g
ring-IsLogged (suc zero) e g = cc g
ring-IsLogged (suc (suc i)) e g = cc g

abbrev sender : Sender
sender = record {
  slots_max = 4;
  bytes_max = 1000;
  slots = [];
  grpc = true;
  processed = ring;
  confirmed = ring;
  finalized = ring;
}

-- A filter that wants all entries, and the bytes of its updates.
abbrev filter : Filter
filter = record {
  slots = [];
  accounts = [];
  accounts_data_slices = [];
  transactions = [];
  transactions_status = [];
  entries = (1 ∷ []) ∷ [];
  blocks_meta = [];
  blocks = [];
  commitment = CommitmentLevel.processed;
}

abbrev valid : Bytes → Bool
valid key = true

abbrev encode : List Range → Message → FilteredUpdate → Option Bytes
encode slices message update = some (5 ∷ 6 ∷ 7 ∷ [])

abbrev items : ℕ → List Bytes
items h = (5 ∷ 6 ∷ 7 ∷ []) ∷ []

abbrev client : SubscribeClientState
client = record {
  id = 3;
  ref_count = 2;
  commitment = CommitmentLevel.processed;
  head = 4;
  filter = some filter;
  messages_error = none;
  messages_len_max = 4;
  messages_len_total = 2;
  messages = (1 ∷ 2 ∷ []) ∷ [];
  messages_waker = some 9;
  ping_ts_latest = 100;
  woken = [];
}

abbrev caches : Caches
caches = record {
  messages_cache_processed = cache_new 2;
  messages_cache_confirmed = cache_new 2;
  messages_cache_finalized = cache_new 2;
}

two : IsCapacity 2
two = record { exponent = 1; is_power = refl; fits = omega arith }

processed-IsCache : IsCache log 2 (cache_of caches CommitmentLevel.processed)
unfolding cache_of
processed-IsCache = cache_new-IsCache log 2 two

makes_items :
    (h : ℕ) → updates_of valid encode filter CommitmentLevel.processed (log h) ≡ some (items h)
unfolding updates_of encode_all message_ref get_updates_ref names_get_update
makes_items h = refl

small : (h : ℕ) → sum length (items h) ≤ 3
unfolding sum
small h = omega arith

counted : IsCounted client
unfolding sum
counted = refl

serve_client-Filled_example :
    (errored : Bool) × (caches' : Caches) × (p s' : SubscribeClientState) × (serve_client valid
        encode
        (λ i. sender)
        10
        (8 ∷ [])
        105
        30
        caches
        client
      ≡ ok (not errored, caches', s'))
    × Pinged (8 ∷ []) 105 30 client p
    × Filled
        (λ i. sender)
        CommitmentLevel.processed
        log
        2
        items
        3
        0
        10
        p
        errored
        (cache_of caches' CommitmentLevel.processed)
        s'
serve_client-Filled_example =
    serve_client-Filled valid encode (λ i. sender) log 2 items 3 filter CommitmentLevel.processed
      (λ i h. receive-Fits log sender CommitmentLevel.processed 4 held h ring-Ring ring-IsLogged)
      makes_items small 10 (8 ∷ []) 105 30 caches client processed-IsCache counted refl refl
      (omega arith) (λ e. omega (arith, e))

-- That turn: one message fills the queue, so the client stands behind it, and its reader is woken.
turn :
    (caches' : Caches) × (serve_client valid encode (λ i. sender) 10 (8 ∷ []) 105 30 caches client
      ≡ ok (
        true,
        caches',
        record client {
          head = 5;
          messages_len_total = 5;
          messages = (1 ∷ 2 ∷ []) ∷ (5 ∷ 6 ∷ 7 ∷ []) ∷ [];
          messages_waker = none;
          woken = 9 ∷ [];
        },
      ))
unfolding serve_client serve_filter send_ping is_full cache_of put_cache filter_messages on_answer
    filter_message updates_of encode_all message_ref get_updates_ref names_get_update push_messages
    push_message wake receive shared_of try_recv item_at get_idx read_item cache_try_recv found
    advance inrange save cache_get_idx cache_new
turn = (_, refl)

abbrev stream : ReceiverStream
stream = record { client = client; finished = false }

abbrev steps : List Step
steps =
    poll 1 ∷ poll 1 ∷ push (3 ∷ []) ∷ fail data_loss_lagged ∷ push (4 ∷ []) ∷ poll 2 ∷ poll 2 ∷ []

run-Ordered_example : Ordered steps stream
run-Ordered_example = run-Ordered steps stream counted

run-fails_example :
    (stream' : ReceiverStream) × (ps : List Poll) × (run
        (fail data_loss_lagged ∷ poll 1 ∷ steps)
        stream
      ≡ ok (stream', ready (inl data_loss_lagged) ∷ ps))
    × All (λ p. p ≡ end_of_stream) ps
run-fails_example = run-fails data_loss_lagged 1 steps stream refl

-- That run: the queued message is given, then nothing, then the error and the end.
given_run :
    (r : ReceiverStream) × (run steps stream
      ≡ ok (
        r,
        ready (inr (1 ∷ 2 ∷ [])) ∷ pending ∷ ready (inl data_loss_lagged) ∷ end_of_stream ∷ [],
      ))
unfolding run stream_poll_next pop_message pop_front push_message push_error wake
given_run = (_, refl)
