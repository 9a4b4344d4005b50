-- ===== src/Richat/Grpc/Turn.antt =====
-- What a turn of a worker promises a client, richat/src/grpc/server.rs, and what pushes change.
use dragonmouth.Base.{
  ℕ, zero, suc, ◌+◌, ◌≤◌, ◌<◌, ◌≡◌, refl, sym, ◌∙◌, Bool, true, false, ◌⊎◌, inl, inr, List, [], ◌∷◌,
  ◌++◌, none, some, arith, length, append_assoc, append-nil,
}
use dragonmouth.Plugin.Message.{Bytes}
use dragonmouth.Plugin.Channel.{ok}
use dragonmouth.Plugin.Channel.Receive.{RecvError}
use dragonmouth.Filter.Slots.{CommitmentLevel}
use dragonmouth.Filter.Message.{Message, sum}
use dragonmouth.Richat.Channel.Sender.{Sender, receive}
use dragonmouth.Richat.Grpc.{SubscribeClientState, wake, push_message, push_messages}
use dragonmouth.Richat.Grpc.Cache.{MessagesCache}
use dragonmouth.Richat.Grpc.Logged.{IsCache}
use dragonmouth.Richat.Grpc.Worker.{status_of}
use dragonmouth.Richat.Grpc.Order.{IsCounted}

-- The items of the next messages, in order.
unfoldable pub served : (ℕ → List Bytes) → ℕ → ℕ → List Bytes
served items zero head = []
served items (suc n) head = items head ++ served items n (suc head)

pub push_messages-total :
    (ms : List Bytes) (s : SubscribeClientState)
    → (push_messages s ms).messages_len_total ≡ s.messages_len_total + sum length ms
unfolding push_messages push_message wake sum
push_messages-total [] s = omega arith
push_messages-total (m ∷ ms) s = omega (arith, push_messages-total ms (push_message s m))

pub push_messages-queue :
    (ms : List Bytes) (s : SubscribeClientState) → (push_messages s ms).messages ≡ s.messages ++ ms
unfolding push_messages push_message wake
push_messages-queue [] s = sym (append-nil s.messages)
push_messages-queue (m ∷ ms) s =
    push_messages-queue ms (push_message s m) ∙ append_assoc s.messages (m ∷ []) ms

-- Pushes change neither where the client reads nor what it asks for.
abbrev pub Alike : SubscribeClientState → SubscribeClientState → Type 0
Alike s s' =
    (s'.filter ≡ s.filter)
    × (s'.commitment ≡ s.commitment)
    × (s'.messages_len_max ≡ s.messages_len_max)

pub push_messages-Alike :
    (ms : List Bytes) (s : SubscribeClientState)
    → Alike s (push_messages s ms)
      × ((push_messages s ms).head ≡ s.head)
      × ((push_messages s ms).messages_error ≡ s.messages_error)
unfolding push_messages push_message wake
push_messages-Alike [] s = ((refl, refl, refl), refl, refl)
push_messages-Alike (m ∷ ms) s = push_messages-Alike ms (push_message s m)

-- Why the rounds ended, after `n` of at most `left`, `count` rounds having gone before: the channel, as
-- it then was, had an error at the client's position, which is then the client's error; or the client
-- did not error, its error is as before, and all rounds were used, its queue is full or the channel had
-- nothing at its position.
abbrev pub Ended :
    (ℕ → Sender)
    → CommitmentLevel
    → ℕ
    → ℕ
    → ℕ
    → SubscribeClientState
    → Bool
    → SubscribeClientState
    → Type 0
Ended rings c count n left s errored s' =
    ((errored ≡ true)
      × (i : ℕ) × (e : RecvError) × (i ≡ count + n)
      × (receive (rings i) c s'.head ≡ ok (inl e))
      × (s'.messages_error ≡ some (status_of e)))
    ⊎ ((errored ≡ false)
        × (s'.messages_error ≡ s.messages_error)
        × ((n ≡ left)
            ⊎ ((s'.messages_len_max < s'.messages_len_total)
                ⊎ ((i : ℕ) × (i ≡ count + n) × (receive (rings i) c s'.head ≡ ok (inr none))))))

-- The client after some rounds: it got the items of `n` messages, `n` at most `left`, and stands
-- behind them. Its queue is over its limit by at most the items of one message, of `k` bytes at most,
-- or as long as before.
pub record Filled (rings : ℕ → Sender) (c : CommitmentLevel) (log : ℕ → Message) (size : ℕ)
    (items : ℕ → List Bytes) (k count left : ℕ) (s : SubscribeClientState) (errored : Bool)
    (cache : MessagesCache) (s' : SubscribeClientState) : Type 0 where
  pub cached : IsCache log size cache
  pub n : ℕ
  pub within : n ≤ left
  pub head_is : s'.head ≡ s.head + n
  pub messages_are : s'.messages ≡ s.messages ++ served items n s.head
  pub alike : Alike s s'
  pub counted : IsCounted s'
  pub bounded :
      (s'.messages_len_total ≤ s.messages_len_max + k)
      ⊎ (s'.messages_len_total ≡ s.messages_len_total)
  pub ended : Ended rings c count n left s errored s'
