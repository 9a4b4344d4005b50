-- ===== src/Plugin/Channel/Receive.antt =====
-- The receiver: `subscribe`, `recv_ref`, `poll` and `poll_next` of plugin-agave/src/channel.rs,
-- with the errors of shared/src/transports/mod.rs. A round of `recv_ref` reads its cell again under
-- the state's lock before it decides to wait; a push cannot come between that read and the waker's
-- entry, so the round is one step.
use dragonmouth.Base.{
  ℕ, zero, suc, ◌-◌, Bool, true, false, [], ◌∷◌, ◌++◌, Option, none, some, if◌then◌else◌, ltb, ◌==◌,
  get_elem?, not,
}
use dragonmouth.Base.Ring.{wrapping_add}
use dragonmouth.Plugin.BTree.{get, first_key}
use dragonmouth.Plugin.Message.{Bytes, PluginNotification}
use dragonmouth.Plugin.Channel.{Outcome, ok, panic, stuck, ◌>>=◌, Shared, get_idx}

pub data RecvError : Type 0 where
  lagged closed : RecvError

pub data SubscribeError : Type 0 where
  not_initialized : SubscribeError
  slot_not_available : ℕ → SubscribeError

-- `RichatFilter`.
pub record RichatFilter : Type 0 where
  pub disable_accounts : Bool
  pub disable_transactions : Bool
  pub disable_entries : Bool

pub record Receiver : Type 0 where
  pub next : ℕ
  pub finished : Bool
  pub enable_notifications_accounts : Bool
  pub enable_notifications_transactions : Bool
  pub enable_notifications_entries : Bool

-- `filter.unwrap_or_default()`
abbrev pub filter_or_default : Option RichatFilter → RichatFilter
filter_or_default none = record {
  disable_accounts = false;
  disable_transactions = false;
  disable_entries = false;
}
filter_or_default (some filter) = filter

abbrev pub new_receiver : ℕ → RichatFilter → Receiver
new_receiver next filter = record {
  next = next;
  finished = false;
  enable_notifications_accounts = not filter.disable_accounts;
  enable_notifications_transactions = not filter.disable_transactions;
  enable_notifications_entries = not filter.disable_entries;
}

pub data Subscribed : Type 0 where
  subscribed : Receiver → Subscribed
  refused : SubscribeError → Subscribed

-- `Sender::subscribe`
unfoldable pub subscribe : Shared → Option ℕ → Option RichatFilter → Subscribed
subscribe s none filter = subscribed (new_receiver s.tail (filter_or_default filter))
subscribe s (some slot) filter = elim (get slot s.slots) [
  | some info ↦ subscribed (new_receiver info.head (filter_or_default filter))
  | none ↦ elim (first_key s.slots) [
    | some key ↦ refused (slot_not_available key)
    | none ↦ refused not_initialized
  ]
]

-- What `recv_ref` returns: an item, `Ok(None)`, or an error.
pub data Received : Type 0 where
  item_of : Bytes → Received
  waiting : Received
  failed : RecvError → Received

-- Is the receiver subscribed to this kind of notification?
unfoldable pub is_enabled : Receiver → PluginNotification → Bool
is_enabled r PluginNotification.account = r.enable_notifications_accounts
is_enabled r PluginNotification.transaction = r.enable_notifications_transactions
is_enabled r PluginNotification.entry = r.enable_notifications_entries
is_enabled r _ = true

-- `recv_ref`. Each further round moves the receiver towards the tail.
unfoldable pub recv_rounds : ℕ → Shared → Receiver → ℕ → Outcome (Shared × Receiver × Received)
recv_rounds zero s r waker = stuck
recv_rounds (suc fuel) s r waker = elim (get_elem? s.buffer (get_idx s r.next)) [
  | none ↦ panic
  | some item ↦ elim item.closed [
    | true ↦ ok (s, r, failed closed)
    | false ↦ elim (item.pos == r.next) [
      | false ↦ ok (
          if ltb item.pos r.next
          then (record s { wakers = s.wakers ++ (waker ∷ []) }, r, waiting)
          else (s, r, failed lagged))
      | true ↦ elim item.contents [
        | none ↦ ok (s, record r { next = wrapping_add r.next 1 }, failed lagged)
        | some (notification, bytes) ↦ elim (is_enabled r notification) [
          | true ↦ ok (s, record r { next = wrapping_add r.next 1 }, item_of bytes)
          | false ↦ recv_rounds fuel s (record r { next = wrapping_add r.next 1 }) waker
        ]
      ]
    ]
  ]
]

unfoldable pub recv_ref : Shared → Receiver → ℕ → Outcome (Shared × Receiver × Received)
recv_ref s r waker = recv_rounds (suc (s.tail - r.next)) s r waker

-- What a poll of the stream returns; `done` is `Poll::Ready(None)`.
pub data Polled : Type 0 where
  ready : Bytes → Polled
  ready_error : RecvError → Polled
  pending : Polled
  done : Polled

abbrev poll_result : Shared × Receiver × Received → Shared × Receiver × Polled
poll_result (s, r, item_of bytes) = (s, r, ready bytes)
poll_result (s, r, waiting) = (s, r, pending)
poll_result (s, r, failed e) = (s, r, ready_error e)

abbrev finish : Shared × Receiver × Polled → Shared × Receiver × Polled
finish (s, r, ready_error e) = (s, record r { finished = true }, ready_error e)
finish (s, r, p) = (s, r, p)

-- `Recv::poll`
unfoldable pub poll : Shared → Receiver → ℕ → Outcome (Shared × Receiver × Polled)
poll s r waker = do x ← recv_ref s r waker; ok (poll_result x)

-- `Receiver::poll_next`: nothing comes after an error.
unfoldable pub poll_next : Shared → Receiver → ℕ → Outcome (Shared × Receiver × Polled)
poll_next s r waker =
    if r.finished then ok (s, r, done) else do x ← recv_ref s r waker; ok (finish (poll_result x))
