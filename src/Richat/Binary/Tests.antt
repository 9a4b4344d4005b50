-- ===== src/Richat/Binary/Tests.antt =====
-- Runs of the binary ring.
use dragonmouth.Base.{ℕ, List, [], ◌∷◌, none, some, ◌≡◌, refl, arith}
use dragonmouth.Richat.Binary.{channel, run, send, recv}
use dragonmouth.Richat.Binary.Queue
use dragonmouth.Richat.Binary.Refine.{run_refines}
use dragonmouth.Base.Ring.{IsCapacity}
use dragonmouth.Richat.Binary.Queue.{Op, send_op, recv_op, sent, received}

abbrev calls : List (Op ℕ)
calls = recv_op ∷ send_op 1 ∷ send_op 2 ∷ send_op 3 ∷ recv_op ∷ send_op 4 ∷ recv_op ∷ recv_op ∷ []

run_two_cells :
    run (channel 2) calls
    ≡ received none
      ∷ sent none
      ∷ sent none
      ∷ sent (some 3)
      ∷ received (some 1)
      ∷ sent none
      ∷ received (some 2)
      ∷ received (some 4)
      ∷ []
unfolding run channel send recv
run_two_cells = refl

abbrev capacity : IsCapacity 2
capacity = record { exponent = 1; is_power = refl; fits = omega arith }

run_refines_example : run (channel 2) calls ≡ Queue.run 2 [] calls
run_refines_example = run_refines 2 capacity calls
