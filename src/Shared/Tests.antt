-- ===== src/Shared/Tests.antt =====
-- The shutdown signal at concrete states.
use mathlib.Core.List.{Memᴰ}
use dragonmouth.Base.{◌≡◌, refl, false, List, [], ◌∷◌, none, some, arith}
use dragonmouth.Plugin.BTree.{insert, remove, IsSorted}
use dragonmouth.Shared.Shutdown.{
  State, first_gap, get_next_id, clone, drop, poll, wakers, set_shutdown, Op, clone_op, drop_op,
  poll_op, step, run,
}
use dragonmouth.Shared.Wakes.{set_shutdown-wakes}

-- Three handles, of which the second was dropped.
abbrev two_handles : State
two_handles = record { shutdown = false; map = (0, none) ∷ (2, some 7) ∷ [] }

sorted : IsSorted two_handles.map
sorted = ((omega arith, tt), (tt, tt))

next_id : (clone two_handles).1 ≡ 1
unfolding clone get_next_id first_gap
next_id = refl

abbrev others : List Op
others = clone_op ∷ poll_op 1 9 ∷ drop_op 2 ∷ []

woken : (set_shutdown (run (poll two_handles 0 5).0 others)).1 ≡ 5 ∷ 9 ∷ []
unfolding set_shutdown run step poll clone drop get_next_id first_gap wakers insert remove
woken = refl

set_shutdown-wakes_example : Memᴰ 5 (set_shutdown (run (poll two_handles 0 5).0 others)).1
set_shutdown-wakes_example =
    set_shutdown-wakes two_handles 0 5 others sorted refl
      (tt, ((λ e. omega (arith, e)), ((λ e. omega (arith, e)), tt)))
