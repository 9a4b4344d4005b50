-- ===== src/Shared/Taskset/Tests.antt =====
-- Lists of cores that are read, and some that are refused.
use dragonmouth.Base.{ℕ, ◌≤◌, ◌≡◌, refl, inl, inr, List, [], ◌∷◌, some, arith, All}
use dragonmouth.Plugin.Message.{Bytes}
use dragonmouth.Shared.Taskset.{
  failed_to_parse, invalid_interval, out_of_range, split, split_once, parse_digits, parse_usize,
  has_core, insert, insert_range, insert_part, insert_parts, insert_sorted, sort, last, max_core,
  parse_taskset,
}
use dragonmouth.Shared.Taskset.Cores.{AllRead, covered, IsIncreasing, parse_taskset-Exact}

-- `12,0-2,1`
abbrev text : Bytes
text = 49 ∷ 50 ∷ 44 ∷ 48 ∷ 45 ∷ 50 ∷ 44 ∷ 49 ∷ []

abbrev intervals : List (ℕ × ℕ)
intervals = (12, 12) ∷ (0, 2) ∷ (1, 1) ∷ []

abbrev cores : List ℕ
cores = 0 ∷ 15 ∷ 7 ∷ []

reads : AllRead (split 44 text) intervals
unfolding split split_once parse_usize parse_digits
reads = (
  inl (refl, refl, refl),
  (inr (48 ∷ [], 50 ∷ [], refl, refl, refl, omega arith), (inl (refl, refl, refl), tt)),
)

allowed : All (λ i. i.1 ≤ max_core cores) intervals
unfolding max_core
allowed = (omega arith, (omega arith, (omega arith, tt)))

parse_taskset-Exact_example :
    (vec : List ℕ) × (parse_taskset (some cores) text ≡ inr vec)
    × IsIncreasing vec
    × ((n : ℕ) → has_core n vec ≡ covered n intervals)
parse_taskset-Exact_example = parse_taskset-Exact cores text intervals reads allowed

read : parse_taskset (some cores) text ≡ inr (0 ∷ 1 ∷ 2 ∷ 12 ∷ [])
unfolding parse_taskset insert_parts insert_part insert_range insert sort insert_sorted last
    max_core has_core split split_once parse_usize parse_digits
read = refl

-- `3-1`, a dash alone, and a core that the machine lacks.
backwards :
    parse_taskset (some cores) (51 ∷ 45 ∷ 49 ∷ []) ≡ inl (invalid_interval (51 ∷ 45 ∷ 49 ∷ []))
unfolding parse_taskset insert_parts insert_part split split_once parse_usize parse_digits
backwards = refl

dash : parse_taskset (some cores) (45 ∷ []) ≡ inl (failed_to_parse [])
unfolding parse_taskset insert_parts insert_part split split_once parse_usize
dash = refl

absent : parse_taskset (some cores) (49 ∷ 54 ∷ []) ≡ inl (out_of_range 15)
unfolding parse_taskset insert_parts insert_part insert sort insert_sorted last max_core has_core
    split split_once parse_usize parse_digits
absent = refl
