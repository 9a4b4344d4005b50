-- ===== src/Shared/Shutdown.antt =====
-- The shutdown signal of shared/src/shutdown.rs: its state behind the mutex, and each operation of a
-- handle as a step on it. A task is the number of its waker.
use dragonmouth.Base.{
  ℕ, suc, ◌==◌, Bool, true, false, List, [], ◌∷◌, Option, none, some, if◌then◌else◌, length,
}
use dragonmouth.Plugin.BTree.{insert, remove}

pub record State : Type 0 where
  pub shutdown : Bool
  pub map : List (ℕ × Option ℕ)

-- The loop of `get_next_id`, from an index on: the first index that is not the key at its place.
unfoldable pub first_gap : ℕ → List (ℕ × Option ℕ) → Option ℕ
first_gap index [] = none
first_gap index ((key, waker) ∷ map) =
    let rest = first_gap (suc index) map in if index == key then rest else some index

unfoldable pub get_next_id : State → ℕ
get_next_id s = elim (first_gap 0 s.map) [ none ↦ length s.map | some index ↦ index ]

-- `Shutdown::clone`, with the id of the new handle. `Shutdown::new` is the clone of no handle.
unfoldable pub clone : State → State × ℕ
clone s = (record s { map = insert (get_next_id s) none s.map }, get_next_id s)

unfoldable pub new : State × ℕ
new = clone (record { shutdown = false; map = [] })

-- `Shutdown::drop`
unfoldable pub drop : State → ℕ → State
drop s id = record s { map = remove id s.map }

-- `Shutdown::poll`; the result is whether it is ready.
unfoldable pub poll : State → ℕ → ℕ → State × Bool
poll s id waker =
    if s.shutdown then (s, true) else (record s { map = insert id (some waker) s.map }, false)

-- `value.take()` for every value, and the wakers that were there.
unfoldable pub take_all : List (ℕ × Option ℕ) → List (ℕ × Option ℕ)
take_all [] = []
take_all ((key, waker) ∷ map) = (key, none) ∷ take_all map

unfoldable pub wakers : List (ℕ × Option ℕ) → List ℕ
wakers [] = []
wakers ((key, none) ∷ map) = wakers map
wakers ((key, some waker) ∷ map) = waker ∷ wakers map

-- `Shutdown::shutdown`, with the wakers that it wakes.
unfoldable pub set_shutdown : State → State × List ℕ
set_shutdown s = (record s { shutdown = true; map = take_all s.map }, wakers s.map)

-- A step of some handle. A clone makes the handle whose id it returns.
pub data Op : Type 0 where
  clone_op : Op
  drop_op : ℕ → Op
  poll_op : ℕ → ℕ → Op
  shutdown_op : Op

unfoldable pub step : State → Op → State
step s clone_op = (clone s).0
step s (drop_op id) = drop s id
step s (poll_op id waker) = (poll s id waker).0
step s shutdown_op = (set_shutdown s).0

unfoldable pub run : State → List Op → State
run s [] = s
run s (op ∷ ops) = run (step s op) ops
