-- ===== src/Richat/Grpc.antt =====
-- A subscriber of the relay's gRPC server, richat/src/grpc/server.rs: its state behind the mutex,
-- which the workers and the task of its requests fill, and the stream that empties it. `woken` are
-- the wakers that were woken, the last one first; it is no field of the source. The count of queued
-- bytes cannot overflow, since they are in memory; where it would fall below 0, `panic` results.
pub mod Cache
pub mod Worker
pub mod Order
pub mod Logged
pub mod Turn
pub mod Filled
pub mod Served
pub mod Rings
pub mod Request
mod Tests
mod RequestTests
use dragonmouth.Base.{
  ℕ, ◌+◌, ◌-◌, Bool, true, false, ◌⊎◌, inl, inr, List, [], ◌∷◌, ◌++◌, Option, none, some,
  if◌then◌else◌, ltb, length,
}
use dragonmouth.Plugin.Message.{Bytes}
use dragonmouth.Plugin.Channel.{Outcome, ok, panic, stuck, ◌>>=◌}
use dragonmouth.Filter.Slots.{CommitmentLevel}
use dragonmouth.Filter.Updates.{Filter}

-- The errors that the server ends a subscription with.
pub data Status : Type 0 where
  data_loss_lagged data_loss_closed failed_to_create_filter failed_to_check_filter : Status
  failed_to_get_slot : Option ℕ → Status
  internal_shutdown : Status

pub record SubscribeClientState : Type 0 where
  pub id : ℕ
  pub ref_count : ℕ
  pub commitment : CommitmentLevel
  pub head : ℕ
  pub filter : Option Filter
  pub messages_error : Option Status
  pub messages_len_max : ℕ
  pub messages_len_total : ℕ
  pub messages : List Bytes
  pub messages_waker : Option ℕ
  pub ping_ts_latest : ℕ
  pub woken : List ℕ

-- `SubscribeClientState::new`, at the time `now`.
unfoldable pub client_state_new : ℕ → ℕ → ℕ → SubscribeClientState
client_state_new id messages_len_max now = record {
  id = id;
  ref_count = 1;
  commitment = CommitmentLevel.finalized;
  head = 0;
  filter = none;
  messages_error = none;
  messages_len_max = messages_len_max;
  messages_len_total = 0;
  messages = [];
  messages_waker = none;
  ping_ts_latest = now;
  woken = [];
}

-- `SubscribeClientState::is_full`
unfoldable pub is_full : SubscribeClientState → Bool
is_full state = ltb state.messages_len_max state.messages_len_total

-- `if let Some(waker) = self.messages_waker.take() { waker.wake(); }`
abbrev pub woken_with : Option ℕ → List ℕ → List ℕ
woken_with none woken = woken
woken_with (some waker) woken = waker ∷ woken

unfoldable pub wake : SubscribeClientState → SubscribeClientState
wake state = record state {
  messages_waker = none;
  woken = woken_with state.messages_waker state.woken;
}

-- `SubscribeClientState::push_error`
unfoldable pub push_error : SubscribeClientState → Status → SubscribeClientState
push_error state error = wake (record state { messages_error = some error })

-- `SubscribeClientState::push_message`
unfoldable pub push_message : SubscribeClientState → Bytes → SubscribeClientState
push_message state message = wake (record state {
  messages_len_total = state.messages_len_total + length message;
  messages = state.messages ++ (message ∷ []);
})

-- `for message in items { state.push_message(message); }`
unfoldable pub push_messages : SubscribeClientState → List Bytes → SubscribeClientState
push_messages state [] = state
push_messages state (m ∷ ms) = push_messages (push_message state m) ms

-- `pop_front`, and the length that leaves with the message.
unfoldable pub pop_front :
    ℕ → SubscribeClientState → List Bytes → Outcome (SubscribeClientState × Option Bytes)
pop_front waker state [] = ok (record state { messages_waker = some waker }, none)
pop_front waker state (message ∷ messages) =
    if ltb state.messages_len_total (length message)
    then panic
    else ok (
      record state {
        messages_len_total = state.messages_len_total - length message;
        messages = messages;
      },
      some message,
    )

abbrev pub answer : Option Bytes → Option (Status ⊎ Bytes)
answer none = none
answer (some message) = some (inr message)

-- `SubscribeClientState::pop_message`, with the waker of its context.
unfoldable pub pop_message :
    ℕ → SubscribeClientState → Outcome (SubscribeClientState × Option (Status ⊎ Bytes))
pop_message waker state = elim state.messages_error [
  | some error ↦ ok (record state { messages_error = none }, some (inl error))
  | none ↦ do (state', message) ← pop_front waker state state.messages; ok (state', answer message)
]

-- `ReceiverStream`
pub record ReceiverStream : Type 0 where
  pub client : SubscribeClientState
  pub finished : Bool

pub data Poll : Type 0 where
  pending end_of_stream : Poll
  ready : Status ⊎ Bytes → Poll

abbrev pub is_err : Status ⊎ Bytes → Bool
is_err (inl error) = true
is_err (inr message) = false

abbrev pub polled : SubscribeClientState → Option (Status ⊎ Bytes) → ReceiverStream × Poll
polled state none = (record { client = state; finished = false }, pending)
polled state (some item) = (record { client = state; finished = is_err item }, ready item)

-- `ReceiverStream::poll_next`
unfoldable pub stream_poll_next : ℕ → ReceiverStream → Outcome (ReceiverStream × Poll)
stream_poll_next waker stream =
    if stream.finished
    then ok (stream, end_of_stream)
    else do (state, item) ← pop_message waker stream.client; ok (polled state item)
