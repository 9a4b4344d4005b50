-- ===== src/Richat/Binary.antt =====
-- The single-producer, single-consumer ring of binary messages, module `binary` of
-- richat/src/channel.rs. The mutex of each cell is taken for one operation at a time, so a run is
-- a sequence of whole calls of `send` and `recv`. The message type is a parameter.
pub mod Queue
pub mod Refine
mod Tests
use dragonmouth.Base.{ℕ, ◌-◌, bit_and, List, [], ◌∷◌, Option, none, some, get_elem?, set, replicate}
use dragonmouth.Base.Ring.{wrapping_add}
use Queue.{Op, send_op, recv_op, Reply, sent, received, fault}

-- `Shared`: the cells of `buffer`, and the mask of a position's index.
pub record Shared (A : Type 0) : Type 0 where
  pub mask : ℕ
  pub buffer : List (Option A)

-- The sender's `tail` and the receiver's `head`, over the cells that they share.
pub record Channel (A : Type 0) : Type 0 where
  pub shared : Shared A
  pub tail : ℕ
  pub head : ℕ

module _ {A : Type 0} where
  -- `Shared::new`; the mask `0 - 1` of an empty buffer is not reached, since its caller rounds
  -- the capacity up to a power of two.
  pub new_shared : ℕ → Shared A
  new_shared max_messages = record { mask = max_messages - 1; buffer = replicate max_messages none }

  unfoldable pub channel : ℕ → Channel A
  unfolding new_shared
  channel max_messages = record { shared = new_shared max_messages; tail = 0; head = 0 }

  pub get_idx : Shared A → ℕ → ℕ
  get_idx s pos = bit_and pos s.mask

  -- The cell of a position; `none` is an index out of bounds, where the code panics.
  pub get_locked : Shared A → ℕ → Option (Option A)
  unfolding get_idx
  get_locked s pos = get_elem? s.buffer (get_idx s pos)

  -- A write through the guard that `get_locked` returns.
  pub put_locked : Shared A → ℕ → Option A → Shared A
  unfolding get_idx
  put_locked s pos v = record s { buffer = set s.buffer (get_idx s pos) v }

  -- `Sender::send`: a full cell hands the message back. The outer `none` is a panic.
  pub send : Channel A → A → Option (Channel A × Option A)
  unfolding get_locked put_locked
  send c item = elim (get_locked c.shared c.tail) [
    | none ↦ none
    | some (some _) ↦ some (c, some item)
    | some none ↦ some (
      record c { shared = put_locked c.shared c.tail (some item); tail = wrapping_add c.tail 1 },
      none,
    )
  ]

  -- `Receiver::recv`: `take` leaves the cell empty, and the head moves if it was not.
  pub recv : Channel A → Option (Channel A × Option A)
  unfolding get_locked put_locked
  recv c = elim (get_locked c.shared c.head) [
    | none ↦ none
    | some none ↦ some (record c { shared = put_locked c.shared c.head none }, none)
    | some (some item) ↦ some (
      record c { shared = put_locked c.shared c.head none; head = wrapping_add c.head 1 },
      some item,
    )
  ]

  -- A run of whole calls, with what each returns; it ends at a panic.
  pub run : Channel A → List (Op A) → List (Reply A)
  run c [] = []
  run c (send_op x ∷ ops) = elim (send c x) [
    | none ↦ fault ∷ []
    | some (c', r) ↦ sent r ∷ run c' ops
  ]
  run c (recv_op ∷ ops) = elim (recv c) [
    | none ↦ fault ∷ []
    | some (c', r) ↦ received r ∷ run c' ops
  ]
