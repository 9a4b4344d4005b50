-- ===== src/Richat/Binary/Queue.antt =====
-- What the binary ring promises: a queue of at most `cap` messages, oldest first.
use dragonmouth.Base.{ℕ, List, [], ◌∷◌, ◌++◌, Option, none, some, if◌then◌else◌, ltb, length}

-- A call of the sender or of the receiver.
pub data Op (A : Type 0) : Type 0 where
  send_op : A → Op A
  recv_op : Op A

-- What a call returns; `fault` is an access out of bounds, a panic.
pub data Reply (A : Type 0) : Type 0 where
  sent : Option A → Reply A
  received : Option A → Reply A
  fault : Reply A

module _ {A : Type 0} where
  -- A full queue hands the message back.
  unfoldable pub push : ℕ → List A → A → List A × Option A
  push cap q x = if ltb (length q) cap then (q ++ (x ∷ []), none) else (q, some x)

  unfoldable pub pop : List A → List A × Option A
  pop [] = ([], none)
  pop (x ∷ q) = (q, some x)

  unfoldable pub run : ℕ → List A → List (Op A) → List (Reply A)
  run cap q [] = []
  run cap q (send_op x ∷ ops) = let (q', r) = push cap q x in sent r ∷ run cap q' ops
  run cap q (recv_op ∷ ops) = let (q', r) = pop q in received r ∷ run cap q' ops
