-- ===== src/Base/Ring.antt =====
-- Positions of a ring buffer: counters of 64 bits that wrap, taken modulo a capacity that is a
-- power of two.
use Prim.Native.Nat.{◌∣◌}
use native.Mathlib.Nat.{
  mod-mod_of_dvd, mod-lt, mod-eq_of_lt, mod-eq-sub-mod, mod-add-mod, pow-suc, one-le-pow, dvd_refl,
  dvd-mul_right_of_dvd,
}
use dragonmouth.Base.{
  ℕ, zero, suc, ◌+◌, ◌-◌, ◌%◌, ◌^◌, ◌≤◌, ◌<◌, bit_and, ◌≡◌, ◌≢◌, sym, ap, ◌∙◌, arith, dec_lt, List,
  some, length, get_elem?, set, get_elem?-set_self, get_elem?-set_ne,
}
use dragonmouth.Base.Bits.{bit_and_mask}

-- `wrapping_add` on a u64.
abbrev pub wrapping_add : ℕ → ℕ → ℕ
wrapping_add a b = (a + b) % 2 ^ 64

-- A capacity: a power of two that a u64 can count.
pub record IsCapacity (n : ℕ) : Type 0 where
  pub exponent : ℕ
  pub is_power : n ≡ 2 ^ exponent
  pub fits : exponent ≤ 64

pow-dvd : (n k : ℕ) → k ≤ n → 2 ^ k ∣ 2 ^ n
pow-dvd zero zero h = dvd_refl (2 ^ 0)
pow-dvd zero (suc k) h = elim h [ ]
pow-dvd (suc n) k h = elim (dec_lt n k) [
  | yes p ↦ let e : k ≡ suc n = omega arith in rw e (dvd_refl (2 ^ suc n))
  | no p ↦ rw (pow-suc 2 n) (dvd-mul_right_of_dvd (2 ^ k) (pow-dvd n k (omega arith)) 2)
]

pub capacity_pos : {n : ℕ} → IsCapacity n → 0 < n
capacity_pos c = rw c.is_power (one-le-pow c.exponent 2 (omega arith))

-- A wrap at 2 ^ 64 does not move a position.
pub wrap-mod : (n : ℕ) → IsCapacity n → (a : ℕ) → a % 2 ^ 64 % n ≡ a % n
wrap-mod n c a = rw c.is_power (mod-mod_of_dvd (2 ^ c.exponent) a (pow-dvd 64 c.exponent c.fits))

-- The index of a position, as the code computes it.
pub index_mask : (n : ℕ) → IsCapacity n → (a : ℕ) → bit_and a (n - 1) ≡ a % n
index_mask n c a = bit_and_mask c.exponent n a c.is_power

pub wrap-add-mod : (n : ℕ) → IsCapacity n → (a i : ℕ) → (a % 2 ^ 64 + i) % n ≡ (a + i) % n
wrap-add-mod n c a i =
    sym (mod-add-mod (a % 2 ^ 64) n i) ∙ ap (λ k. (k + i) % n) (wrap-mod n c a) ∙ mod-add-mod a n i

-- Two positions less than a capacity apart have two indices.
mod-add-ne : (n r d : ℕ) → r < n → 0 < d → d < n → (r + d) % n ≢ r
mod-add-ne n r d hr h hd = elim (dec_lt (r + d) n) [
  | yes p ↦ omega (arith, mod-eq_of_lt p)
  | no p ↦ omega (
    arith,
    mod-eq-sub-mod {n = r + d} {m = n} (omega arith),
    mod-eq_of_lt {n = r + d - n} {m = n} (omega arith),
  )
]

pub index_ne : (n a i j : ℕ) → i < n → j < n → i < j → (a + i) % n ≢ (a + j) % n
index_ne n a i j hi hj h e =
    mod-add-ne n ((a + i) % n) (j - i) (mod-lt (a + i) (omega arith)) (omega arith) (omega arith) (
      mod-add-mod (a + i) n (j - i)
      ∙ ap (λ k. k % n) (let s : (a + i) + (j - i) ≡ a + j = omega arith in s)
      ∙ sym e)

pub index-injective : (n a i j : ℕ) → i < n → j < n → i ≢ j → (a + i) % n ≢ (a + j) % n
index-injective n a i j hi hj ne = elim (dec_lt i j) [
  | yes p ↦ index_ne n a i j hi hj p
  | no p ↦ λ e. index_ne n a j i hj hi (omega arith) (sym e)
]

-- A write at a position: what it leaves at that position, and at the others of one turn.
module _ {ℓ} {A : Type ℓ} (b : List A) (n a i : ℕ) (v : A) where
  pub turn-set_self :
      length b ≡ n → 0 < n → get_elem? (set b ((a + i) % n) v) ((a + i) % n) ≡ some v
  turn-set_self e h =
      get_elem?-set_self b ((a + i) % n) v
        (let l : (a + i) % n < n = mod-lt (a + i) h in omega arith)

  pub turn-set_ne :
      (j : ℕ)
      → i < n
      → j < n
      → i ≢ j
      → get_elem? (set b ((a + i) % n) v) ((a + j) % n) ≡ get_elem? b ((a + j) % n)
  turn-set_ne j hi hj ne =
      get_elem?-set_ne b ((a + i) % n) ((a + j) % n) v (index-injective n a i j hi hj ne)
