-- ===== src/Shared/Wakes.antt =====
-- What the shutdown signal of shared/src/shutdown.rs promises: no task sleeps through a shutdown.
use mathlib.Core.List.{Memᴰ}
use dragonmouth.Base.{
  ℕ, ◌==◌, ◌≡◌, refl, sym, ap, ◌∙◌, subst, ◌≢◌, inl, inr, true, false, List, [], ◌∷◌, Option, none,
  some, if◌then◌else◌, Bool-cases, All, arith,
}
use dragonmouth.Plugin.BTree.{get, insert, remove, Above, IsSorted, get-insert, insert-IsSorted}
use dragonmouth.Shared.Shutdown.{
  State, get_next_id, clone, drop, poll, take_all, wakers, set_shutdown, Op, clone_op, drop_op,
  poll_op, shutdown_op, step, run,
}
use dragonmouth.Shared.Ids.{Wakers, clone-fresh}

remove-Above_lem : (b k : ℕ) (m : Wakers) → Above b m → Above b (remove k m)
unfolding remove
remove-Above_lem b k [] a = tt
remove-Above_lem b k ((j, w) ∷ m) a = ground (arith, remove-Above_lem b k m a.1)

remove-IsSorted : (k : ℕ) (m : Wakers) → IsSorted m → IsSorted (remove k m)
unfolding remove
remove-IsSorted k [] s = tt
remove-IsSorted k ((j, w) ∷ m) s =
    ground (arith, remove-IsSorted k m s.1, remove-Above_lem j k m s.0)

get-remove_ne : (k j : ℕ) (m : Wakers) → j ≢ k → get j (remove k m) ≡ get j m
unfolding get remove
get-remove_ne k j [] ne = refl
get-remove_ne k j ((i, w) ∷ m) ne = ground (arith, get-remove_ne k j m ne, ne)

take_all-Above : (b : ℕ) (m : Wakers) → Above b m → Above b (take_all m)
unfolding take_all
take_all-Above b [] a = tt
take_all-Above b ((j, w) ∷ m) a = (a.0, take_all-Above b m a.1)

take_all-IsSorted : (m : Wakers) → IsSorted m → IsSorted (take_all m)
unfolding take_all
take_all-IsSorted [] s = tt
take_all-IsSorted ((j, w) ∷ m) s = (take_all-Above j m s.0, take_all-IsSorted m s.1)

step-IsSorted : (s : State) (op : Op) → IsSorted s.map → IsSorted (step s op).map
unfolding step clone drop poll set_shutdown
step-IsSorted s clone_op h = insert-IsSorted (get_next_id s) none s.map h
step-IsSorted s (drop_op id) h = remove-IsSorted id s.map h
step-IsSorted s (poll_op id w) h = ground (arith, h, insert-IsSorted id (some w) s.map h)
step-IsSorted s shutdown_op h = take_all-IsSorted s.map h

-- A step that is not a shutdown, nor of the handle `id`.
abbrev pub IsOther : ℕ → Op → Type 0
IsOther id clone_op = Unit
IsOther id (drop_op j) = id ≢ j
IsOther id (poll_op j w) = id ≢ j
IsOther id shutdown_op = ⊥

-- The task of the handle `id` sleeps.
record Sleeps (id waker : ℕ) (s : State) : Type 0 where
  sorted : IsSorted s.map
  open_is : s.shutdown ≡ false
  waits : get id s.map ≡ some (some waker)

-- A poll before and after a shutdown.
poll-pending :
    (s : State) (id w : ℕ)
    → s.shutdown ≡ false
    → poll s id w ≡ (record s { map = insert id (some w) s.map }, false)
unfolding poll
poll-pending s id w h =
    ap (λ b. if b then (s, true) else (record s { map = insert id (some w) s.map }, false)) h

poll-ready : (s : State) (id w : ℕ) → s.shutdown ≡ true → poll s id w ≡ (s, true)
unfolding poll
poll-ready s id w h =
    ap (λ b. if b then (s, true) else (record s { map = insert id (some w) s.map }, false)) h

-- A clone takes an id that is not asleep.
not_next : (id waker : ℕ) (s : State) → Sleeps id waker s → id ≢ (clone s).1
not_next id waker s h e = taken (subst (λ k. get k s.map ≡ some (some waker)) e h.waits)
  where
    taken : get (clone s).1 s.map ≡ some (some waker) → ⊥
    taken f = ground (arith, f, (clone-fresh s h.sorted).0)

clone-shutdown : (s : State) → (clone s).0.shutdown ≡ s.shutdown
unfolding clone
clone-shutdown s = refl

step-Sleeps :
    (id waker : ℕ) (s : State) (op : Op)
    → IsOther id op
    → Sleeps id waker s
    → Sleeps id waker (step s op)
unfolding step drop poll
step-Sleeps id waker s clone_op o h = record {
  sorted = step-IsSorted s clone_op h.sorted;
  open_is = clone-shutdown s ∙ h.open_is;
  waits = (clone-fresh s h.sorted).2 id (not_next id waker s h) ∙ h.waits;
}
step-Sleeps id waker s (drop_op j) o h = record {
  sorted = step-IsSorted s (drop_op j) h.sorted;
  open_is = h.open_is;
  waits = get-remove_ne j id s.map o ∙ h.waits;
}
step-Sleeps id waker s (poll_op j w) o h =
    subst (λ r. Sleeps id waker r.0) (sym (poll-pending s j w h.open_is))
      (record {
        sorted = insert-IsSorted j (some w) s.map h.sorted;
        open_is = h.open_is;
        waits = ground (arith, get-insert j id (some w) s.map, o, h.waits);
      })
step-Sleeps id waker s shutdown_op o h = elim o [ ]

run-Sleeps :
    (id waker : ℕ) (s : State) (ops : List Op)
    → All (IsOther id) ops
    → Sleeps id waker s
    → Sleeps id waker (run s ops)
unfolding run
run-Sleeps id waker s [] o h = h
run-Sleeps id waker s (op ∷ ops) o h =
    run-Sleeps id waker (step s op) ops o.1 (step-Sleeps id waker s op o.0 h)

wakers-Mem : (id waker : ℕ) (m : Wakers) → get id m ≡ some (some waker) → Memᴰ waker (wakers m)
unfolding get wakers
wakers-Mem id waker [] e = absurd (ground (arith, e))
wakers-Mem id waker ((k, w) ∷ m) e = elim (Bool-cases (k == id)) [
  | inl f ↦ at w (subst (λ b. (if b then some w else get id m) ≡ some (some waker)) f e)
  | inr f ↦ past w (
      wakers-Mem id waker m (subst (λ b. (if b then some w else get id m) ≡ some (some waker)) f e))
]
  where
    at : (w : Option ℕ) → some w ≡ some (some waker) → Memᴰ waker (wakers ((k, w) ∷ m))
    at none g = absurd (ground (arith, g))
    at (some v) g = Memᴰ.head (ground (arith, g))

    past : (w : Option ℕ) → Memᴰ waker (wakers m) → Memᴰ waker (wakers ((k, w) ∷ m))
    past none n = n
    past (some v) n = Memᴰ.tail n

-- A task that polls before a shutdown is woken by it: whatever other handles do in between, clones,
-- drops and polls of their own, the shutdown wakes the task's waker.
pub set_shutdown-wakes :
    (s : State) (id waker : ℕ) (ops : List Op)
    → IsSorted s.map
    → s.shutdown ≡ false
    → All (IsOther id) ops
    → Memᴰ waker (set_shutdown (run (poll s id waker).0 ops)).1
unfolding set_shutdown poll
set_shutdown-wakes s id waker ops sorted not_set others =
    wakers-Mem id waker (run (poll s id waker).0 ops).map
      (run-Sleeps id waker (poll s id waker).0 ops others asleep).waits
  where
    asleep : Sleeps id waker (poll s id waker).0
    asleep =
        subst (λ r. Sleeps id waker r.0) (sym (poll-pending s id waker not_set))
          (record {
            sorted = insert-IsSorted id (some waker) s.map sorted;
            open_is = not_set;
            waits = ground (arith, get-insert id id (some waker) s.map);
          })

step-stays : (s : State) (op : Op) → s.shutdown ≡ true → (step s op).shutdown ≡ true
unfolding step clone drop poll set_shutdown
step-stays s clone_op h = h
step-stays s (drop_op id) h = h
step-stays s (poll_op id w) h = ap (λ r. r.0.shutdown) (poll-ready s id w h) ∙ h
step-stays s shutdown_op h = refl

run-stays : (s : State) (ops : List Op) → s.shutdown ≡ true → (run s ops).shutdown ≡ true
unfolding run
run-stays s [] h = h
run-stays s (op ∷ ops) h = run-stays (step s op) ops (step-stays s op h)

set_shutdown-sets : (s : State) → (set_shutdown s).0.shutdown ≡ true
unfolding set_shutdown
set_shutdown-sets s = refl

-- After a shutdown every poll is ready and leaves no waker, whatever happened since.
pub poll-stays :
    (s : State) (ops : List Op) (id waker : ℕ)
    → poll (run (set_shutdown s).0 ops) id waker ≡ (run (set_shutdown s).0 ops, true)
poll-stays s ops id waker =
    poll-ready (run (set_shutdown s).0 ops) id waker
      (run-stays (set_shutdown s).0 ops (set_shutdown-sets s))
