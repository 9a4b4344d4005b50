-- ===== src/Plugin/Encoding/Decimal.antt =====
-- What the table of plugin-agave/src/protobuf/encoding/mod.rs promises: each text is the decimal
-- numeral of its place.
use dragonmouth.Base.{
  ℕ, zero, suc, ◌+◌, ◌-◌, ◌*◌, ◌<◌, ◌≡◌, refl, ap, subst, List, [], ◌∷◌, get_elem?, Option, none,
  some, Bool, true, false, ◌&&◌, not, ◌==◌, ==_iff, leb, ltb, length, is_empty, if◌then◌else◌,
  arith,
}
use dragonmouth.Plugin.Message.{Bytes}
use dragonmouth.Plugin.Encoding.Digits.{num_strings, u8_to_static_str}

-- What a decimal text says: digits only, and no zero in front.
unfoldable pub read_from : ℕ → Bytes → Option ℕ
read_from n [] = some n
read_from n (d ∷ ds) =
    let rest = read_from (n * 10 + (d - 48)) ds in if leb 48 d && ltb d 58 then rest else none

unfoldable pub read_decimal : Bytes → Option ℕ
read_decimal [] = none
read_decimal (d ∷ ds) =
    let rest = read_from 0 (d ∷ ds) in if d == 48 && not (is_empty ds) then none else rest

says : Option ℕ → ℕ → Bool
says none n = false
says (some m) n = m == n

says_sound : (o : Option ℕ) (n : ℕ) → says o n ≡ true → o ≡ some n
unfolding says
says_sound none n h = ground (arith, h)
says_sound (some m) n h = ap some ((==_iff m n).0 h)

-- Each text says its place in the table.
in_place : ℕ → List Bytes → Bool
in_place i [] = true
in_place i (text ∷ texts) = says (read_decimal text) i && in_place (suc i) texts

text_at : List Bytes → ℕ → Bytes
text_at texts k = elim (get_elem? texts k) [ none ↦ [] | some text ↦ text ]

in_place_at :
    (texts : List Bytes) (i k : ℕ)
    → in_place i texts ≡ true
    → k < length texts
    → says (read_decimal (text_at texts k)) (i + k) ≡ true
unfolding in_place text_at
in_place_at [] i k h lt = absurd (omega arith)
in_place_at (text ∷ texts) i zero h lt = ground (arith, h)
in_place_at (text ∷ texts) i (suc k) h lt = ground (arith, h, in_place_at texts (suc i) k)

table_in_place : in_place 0 num_strings ≡ true
unfolding in_place says read_decimal read_from
table_in_place = refl

-- The text of a byte is its decimal numeral.
pub u8_to_static_str-reads : (n : ℕ) → n < 256 → read_decimal (u8_to_static_str n) ≡ some n
unfolding u8_to_static_str text_at
u8_to_static_str-reads n h = says_sound (read_decimal (u8_to_static_str n)) n (
    subst (λ m. says (read_decimal (text_at num_strings n)) m ≡ true) (omega arith)
      (in_place_at num_strings 0 n table_in_place h))
