-- ===== src/Richat/Grpc/Cache.antt =====
-- `MessagesCache` of richat/src/grpc/server.rs, a worker's copy of the messages that it has read
-- last from one ring. Arithmetic on positions wraps, as in a release build; an index out of bounds
-- is `panic`.
use dragonmouth.Base.{
  ℕ, ◌+◌, ◌-◌, ◌%◌, ◌^◌, bit_and, Bool, ◌⊎◌, inl, inr, List, Option, none, some, if◌then◌else◌, ltb,
  leb, ◌==◌, get_elem?, set, replicate,
}
use dragonmouth.Plugin.Channel.{Outcome, ok, panic, ◌>>=◌}
use dragonmouth.Plugin.Channel.Receive.{RecvError}
use dragonmouth.Filter.Message.{Message}

-- `msg` is the field of that name.
pub record MessagesCacheItem : Type 0 where
  pub pos : ℕ
  pub msg : Option Message

pub record MessagesCache : Type 0 where
  pub head : ℕ
  pub mask : ℕ
  pub buffer : List MessagesCacheItem

abbrev pub vacant : MessagesCacheItem
vacant = record { pos = 2 ^ 64 - 1; msg = none }

-- `MessagesCache::new`
unfoldable pub cache_new : ℕ → MessagesCache
cache_new max_messages = record {
  head = 0;
  mask = max_messages - 1;
  buffer = replicate max_messages vacant;
}

-- `MessagesCache::get_idx`
unfoldable pub cache_get_idx : MessagesCache → ℕ → ℕ
cache_get_idx cache pos = bit_and pos cache.mask

-- `if head > self.head { self.head = head; }`
unfoldable pub advance : MessagesCache → ℕ → MessagesCache
advance cache head = record cache { head = if ltb cache.head head then head else cache.head }

-- `let inrange = head >= self.head - self.mask;`
unfoldable pub inrange : MessagesCache → ℕ → Bool
inrange cache head = leb ((cache.head + (2 ^ 64 - cache.mask)) % 2 ^ 64) head

-- What the channel says goes on, and is kept if its position is in range.
unfoldable pub save : MessagesCache → ℕ → RecvError ⊎ Option Message → MessagesCache
save cache head (inl error) = cache
save cache head (inr none) = cache
save cache head (inr (some item)) =
    if inrange cache head
    then record cache {
      buffer = set cache.buffer (cache_get_idx cache head) (record { pos = head; msg = some item });
    }
    else cache

abbrev pub hit : ℕ → MessagesCacheItem → Option (Option Message)
hit head cell = if cell.pos == head then some cell.msg else none

-- `if inrange && self.buffer[idx].pos == head`
unfoldable pub found : MessagesCache → ℕ → Outcome (Option (Option Message))
found cache head =
    if inrange cache head
    then elim (get_elem? cache.buffer (cache_get_idx cache head)) [
      | none ↦ panic
      | some cell ↦ ok (hit head cell)
    ]
    else ok none

-- Behind that test: the cell's message, or the channel's answer.
abbrev pub or_receive :
    MessagesCache
    → Outcome (RecvError ⊎ Option Message)
    → ℕ
    → Option (Option Message)
    → Outcome (MessagesCache × (RecvError ⊎ Option Message))
or_receive cache received head (some msg) = ok (cache, inr msg)
or_receive cache received head none = do item ← received; ok (save cache head item, item)

-- `MessagesCache::try_recv`, where `receiver.try_recv(commitment, head)` has the outcome `received`
-- if it is called.
unfoldable pub cache_try_recv :
    MessagesCache
    → Outcome (RecvError ⊎ Option Message)
    → ℕ
    → Outcome (MessagesCache × (RecvError ⊎ Option Message))
cache_try_recv cache received head = do
  msg ← found (advance cache head) head
  or_receive (advance cache head) received head msg
