-- ===== src/Richat/Grpc/Request.antt =====
-- The task of a subscription's requests, in `subscribe` of richat/src/grpc/server.rs: what it does
-- to the client with each thing that it waits for. `pong` is the message that answers a ping, which
-- prost encodes.
use dragonmouth.Base.{ℕ, ◌≡◌, refl, Bool, true, false, ◌⊎◌, inl, inr, Option, none, some, All}
use dragonmouth.Plugin.Message.{Bytes}
use dragonmouth.Plugin.Channel.{Outcome, ok, panic, ◌>>=◌}
use dragonmouth.Filter.Slots.{CommitmentLevel}
use dragonmouth.Filter.Updates.{Filter, ConfigFilter, MessageRef, filter_new}
use dragonmouth.Filter.Compile.{IsNoWrap}
use dragonmouth.Filter.Total.{HasUpdates}
use dragonmouth.Filter.Limits.{ConfigLimitsError}
use dragonmouth.Filter.Config.{ConfigLimits, check_config}
use dragonmouth.Filter.Accepted.{check_config-HasUpdates}
use dragonmouth.Filter.Request.{Texts, SubscribeRequest, Converted, converted, refused}
use dragonmouth.Filter.Request.Convert.{config_try_from}
use dragonmouth.Richat.Channel.Sender.{Sender, current_tail}
use dragonmouth.Richat.Grpc.{
  Status, failed_to_create_filter, failed_to_check_filter, failed_to_get_slot, internal_shutdown,
  SubscribeClientState, wake, push_error, push_message,
}

-- A message of the stream, the request's end, an error of it, and the shutdown signal.
pub data Event : Type 0 where
  request : Option ℕ → Option ℕ → SubscribeRequest → Event
  finished failed shutdown : Event

abbrev made_filter : Option Filter → Outcome (Status ⊎ Filter)
made_filter none = panic
made_filter (some filter) = ok (inr filter)

-- `limits.check_filter(&config).map(|()| Filter::new(&config))`
abbrev checked_filter : ConfigFilter → Option ConfigLimitsError → Outcome (Status ⊎ Filter)
checked_filter config (some error) = ok (inl failed_to_check_filter)
checked_filter config none = made_filter (filter_new config)

-- `ConfigFilter::try_from(message)` and what follows.
abbrev filter_from_config : ConfigLimits → Converted ConfigFilter → Outcome (Status ⊎ Filter)
filter_from_config limits (refused error) = ok (inl failed_to_create_filter)
filter_from_config limits (converted config) = checked_filter config (check_config limits config)

unfoldable pub new_filter : Texts → ConfigLimits → SubscribeRequest → Outcome (Status ⊎ Filter)
new_filter t limits message = filter_from_config limits (config_try_from t message)

-- The client with the filter's commitment, and then the tail of that ring, or an error.
abbrev with_head : SubscribeClientState → Filter → Option ℕ → Option ℕ → Bool × SubscribeClientState
with_head state filter from_slot none = (false, push_error state (failed_to_get_slot from_slot))
with_head state filter from_slot (some head) =
    (true, record state { head = head; filter = some filter })

unfoldable pub set_filter :
    Sender → Option ℕ → SubscribeClientState → Status ⊎ Filter → Bool × SubscribeClientState
set_filter sender from_slot state (inl error) = (false, push_error state error)
set_filter sender from_slot state (inr filter) =
    with_head (record state { commitment = filter.commitment }) filter from_slot
      (current_tail sender filter.commitment from_slot)

-- What a round of the task does with a client; the result says whether the task goes on.
unfoldable pub on_event :
    Texts
    → ConfigLimits
    → (ℕ → Bytes)
    → Sender
    → Event
    → SubscribeClientState
    → Outcome (Bool × SubscribeClientState)
on_event t limits pong sender (request (some id) from_slot message) state =
    ok (true, push_message state (pong id))
on_event t limits pong sender (request none from_slot message) state = do
  filter ← new_filter t limits message
  ok (set_filter sender from_slot state filter)
on_event t limits pong sender finished state = ok (false, state)
on_event t limits pong sender failed state = ok (false, state)
on_event t limits pong sender shutdown state = ok (false, push_error state internal_shutdown)

-- A client whose request was accepted: it reads the ring of its filter's commitment from where the
-- ring was told to be read, and the filter finds the updates of every
-- message.
abbrev pub IsReady : (Bytes → Bool) → Sender → Option ℕ → SubscribeClientState → Type 0
IsReady valid sender from_slot s' =
    (f : Filter) × (s'.filter ≡ some f)
    × (s'.commitment ≡ f.commitment)
    × (current_tail sender f.commitment from_slot ≡ some s'.head)
    × ((message : MessageRef) (level : CommitmentLevel) → HasUpdates valid f message level)

abbrev HasFailed : SubscribeClientState → SubscribeClientState → Type 0
HasFailed s s' =
    (error : Status) × (s'.messages_error ≡ some error)
    × (s'.filter ≡ s.filter)
    × (s'.head ≡ s.head)

module _ (valid : Bytes → Bool) (sender : Sender) (from_slot : Option ℕ)
    (s : SubscribeClientState) where
  abbrev pub Handled : Outcome (Bool × SubscribeClientState) → Type 0
  Handled o =
      (goes_on : Bool) × (s' : SubscribeClientState) × (o ≡ ok (goes_on, s'))
      × (s'.messages ≡ s.messages)
      × (((goes_on ≡ true) × IsReady valid sender from_slot s')
          ⊎ ((goes_on ≡ false) × HasFailed s s'))

  headed :
      (f : Filter) (head : Option ℕ)
      → current_tail sender f.commitment from_slot ≡ head
      → ((message : MessageRef) (level : CommitmentLevel) → HasUpdates valid f message level)
      → Handled (ok (with_head (record s { commitment = f.commitment }) f from_slot head))
  unfolding push_error wake
  headed f none e h =
      (false, _, refl, refl, inr (refl, (failed_to_get_slot from_slot, refl, refl, refl)))
  headed f (some head) e h = (true, _, refl, refl, inl (refl, (f, refl, refl, e, h)))

  checked :
      (t : Texts) (limits : ConfigLimits) (config : ConfigFilter)
      (answer : Option ConfigLimitsError)
      → check_config limits config ≡ answer
      → All (λ f. All IsNoWrap f.1.filters) config.accounts
      → Handled
          (do filter ← checked_filter config answer; ok (set_filter sender from_slot s filter))
  unfolding set_filter push_error wake
  checked t limits config (some error) e h =
      (false, _, refl, refl, inr (refl, (failed_to_check_filter, refl, refl, refl)))
  checked t limits config none e h =
      let (f, made, serves) = check_config-HasUpdates valid limits config e h in
      let (goes_on, s', r, q, d) =
        headed f (current_tail sender f.commitment from_slot) refl serves in
      (goes_on, s', rw (made, ◌>>=◌) r, q, d)

  -- A request without a ping that is converted to a configuration, in which no range of bytes ends
  -- past 2 ^ 64, is handled without a panic, and what is queued for the client stays as it is. Either
  -- the task goes on, and the client has a filter that finds the updates of every message without a
  -- panic and reads the ring of that filter's commitment from the position that it was told for the
  -- slot of the request; or the task ends, the client has an error, and its filter and its position
  -- are as before.
  pub on_event-Handled :
      (t : Texts) (limits : ConfigLimits) (pong : ℕ → Bytes) (message : SubscribeRequest)
      (config : ConfigFilter)
      → config_try_from t message ≡ converted config
      → All (λ f. All IsNoWrap f.1.filters) config.accounts
      → Handled (on_event t limits pong sender (request none from_slot message) s)
  unfolding on_event new_filter
  on_event-Handled t limits pong message config e h =
      let (goes_on, s', r, q, d) = checked t limits config (check_config limits config) refl h in
      (goes_on, s', rw e r, q, d)
