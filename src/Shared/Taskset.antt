-- ===== src/Shared/Taskset.antt =====
-- `parse_taskset` of shared/src/config.rs, which reads a list of cores. A text is the list of its
-- bytes, 44 being a comma, 45 a dash, 43 a plus sign and 48 the digit 0. The cores that the crate
-- affinity tells of are a parameter, `none` being its error.
pub mod Cores
mod Tests
use dragonmouth.Base.{
  ℕ, zero, suc, ◌+◌, ◌-◌, ◌*◌, ◌^◌, Bool, true, false, ◌&&◌, ◌||◌, ◌⊎◌, inl, inr, List, [], ◌∷◌,
  Option, none, some, if◌then◌else◌, ltb, leb, ◌==◌,
}
use dragonmouth.Plugin.Message.{Bytes}

pub data TasksetError : Type 0 where
  failed_to_parse invalid_interval : Bytes → TasksetError
  failed_to_get_affinity : TasksetError
  out_of_range : ℕ → TasksetError

abbrev first_of : ℕ → List Bytes → List Bytes
first_of c [] = (c ∷ []) ∷ []
first_of c (part ∷ parts) = (c ∷ part) ∷ parts

-- `text.split(separator)`
unfoldable pub split : ℕ → Bytes → List Bytes
split separator [] = [] ∷ []
split separator (c ∷ text) =
    let parts = split separator text in if c == separator then [] ∷ parts else first_of c parts

abbrev longer : ℕ → Option (Bytes × Bytes) → Option (Bytes × Bytes)
longer c none = none
longer c (some (before, after)) = some (c ∷ before, after)

-- `text.split_once(separator)`
unfoldable pub split_once : ℕ → Bytes → Option (Bytes × Bytes)
split_once separator [] = none
split_once separator (c ∷ text) =
    let rest = split_once separator text in
    if c == separator then some ([], text) else longer c rest

-- The digits of a usize; one that is too large is refused.
unfoldable pub parse_digits : ℕ → Bytes → Option ℕ
parse_digits value [] = some value
parse_digits value (c ∷ text) =
    let next = value * 10 + (c - 48) in
    let rest = parse_digits next text in
    if leb 48 c && leb c 57 && ltb next (2 ^ 64) then rest else none

-- `text.parse::<usize>()`
unfoldable pub parse_usize : Bytes → Option ℕ
parse_usize [] = none
parse_usize (c ∷ []) = parse_digits 0 (c ∷ [])
parse_usize (c ∷ d ∷ text) =
    if c == 43 then parse_digits 0 (d ∷ text) else parse_digits 0 (c ∷ d ∷ text)

unfoldable pub has_core : ℕ → List ℕ → Bool
has_core n [] = false
has_core n (m ∷ set) = (n == m) || has_core n set

-- `set.insert(n)`
unfoldable pub insert : ℕ → List ℕ → List ℕ
insert n set = if has_core n set then set else n ∷ set

-- `for idx in start..=end { set.insert(idx); }`, of `count` numbers.
unfoldable pub insert_range : ℕ → ℕ → List ℕ → List ℕ
insert_range zero start set = set
insert_range (suc count) start set = insert_range count (suc start) (insert start set)

abbrev pub insert_interval : Bytes → ℕ → ℕ → List ℕ → TasksetError ⊎ List ℕ
insert_interval part start end set =
    if ltb end start
    then inl (invalid_interval part)
    else inr (insert_range (suc end - start) start set)

-- An interval, its two ends being parsed one after the other.
abbrev pub insert_ends :
    Bytes → Bytes → Bytes → Option ℕ → Option ℕ → List ℕ → TasksetError ⊎ List ℕ
insert_ends part start end none b set = inl (failed_to_parse start)
insert_ends part start end (some a) none set = inl (failed_to_parse end)
insert_ends part start end (some a) (some b) set = insert_interval part a b set

abbrev pub insert_one : Bytes → Option ℕ → List ℕ → TasksetError ⊎ List ℕ
insert_one part none set = inl (failed_to_parse part)
insert_one part (some n) set = inr (insert n set)

-- The match on `taskset2.split_once('-')`.
abbrev pub insert_split : Bytes → Option (Bytes × Bytes) → List ℕ → TasksetError ⊎ List ℕ
insert_split part none set = insert_one part (parse_usize part) set
insert_split part (some (start, end)) set =
    insert_ends part start end (parse_usize start) (parse_usize end) set

unfoldable pub insert_part : Bytes → List ℕ → TasksetError ⊎ List ℕ
insert_part part set = insert_split part (split_once 45 part) set

-- `for taskset2 in taskset.split(',')`
unfoldable pub insert_parts : List Bytes → List ℕ → TasksetError ⊎ List ℕ
insert_parts [] set = inr set
insert_parts (part ∷ parts) set = elim (insert_part part set) [
  | inl error ↦ inl error
  | inr set' ↦ insert_parts parts set'
]

-- `vec.sort()`
unfoldable pub insert_sorted : ℕ → List ℕ → List ℕ
insert_sorted n [] = n ∷ []
insert_sorted n (m ∷ vec) =
    let rest = insert_sorted n vec in if leb n m then n ∷ m ∷ vec else m ∷ rest

unfoldable pub sort : List ℕ → List ℕ
sort [] = []
sort (n ∷ vec) = insert_sorted n (sort vec)

-- `vec.last().copied()`
unfoldable pub last : List ℕ → Option ℕ
last [] = none
last (n ∷ []) = some n
last (n ∷ m ∷ vec) = last (m ∷ vec)

-- `.max().unwrap_or(0)`
unfoldable pub max_core : List ℕ → ℕ
max_core [] = 0
max_core (n ∷ cores) = let rest = max_core cores in if ltb rest n then n else rest

abbrev pub check_last : Option (List ℕ) → List ℕ → Option ℕ → TasksetError ⊎ List ℕ
check_last affinity vec none = inr vec
check_last none vec (some set_max_index) = inl failed_to_get_affinity
check_last (some cores) vec (some set_max_index) =
    if ltb (max_core cores) set_max_index then inl (out_of_range (max_core cores)) else inr vec

unfoldable pub parse_taskset : Option (List ℕ) → Bytes → TasksetError ⊎ List ℕ
parse_taskset affinity taskset = elim (insert_parts (split 44 taskset) []) [
  | inl error ↦ inl error
  | inr set ↦ check_last affinity (sort set) (last (sort set))
]
