-- ===== src/Base/Turn.antt =====
-- The cells of a ring buffer, one turn from its head, and the queue that they hold.
use native.Mathlib.Nat.{add-zero, add-mod_right}
use dragonmouth.Base.{
  ℕ, zero, suc, ◌+◌, ◌-◌, ◌*◌, ◌/◌, ◌%◌, ◌≤◌, ◌<◌, ◌≡◌, ◌≢◌, refl, sym, ap, ◌∙◌, subst, List, [],
  ◌∷◌, ◌++◌, Option, none, some, arith, length, get_elem?, set, dec_lt, ℕ_discrete,
}
use dragonmouth.Base.Ring.{turn-set_self, turn-set_ne}

-- The turn of the ring on which a position lies that the head has passed.
pub turns_back :
    (cap head p : ℕ)
    → 0 < cap
    → p < head
    → (i : ℕ) × (k : ℕ) × (i < cap) × (head + i ≡ p + cap * k) × (0 < k)
turns_back cap head p pos lt = (
  cap * ((head - p + (cap - 1)) / cap) - (head - p),
  (head - p + (cap - 1)) / cap,
  grind arith,
  grind arith,
  grind arith,
)

module _ {ℓ} {A : Type ℓ} where
  pub get_elem?_out : (q : List A) (i : ℕ) → length q ≤ i → get_elem? q i ≡ none
  get_elem?_out [] i h = refl
  get_elem?_out (x ∷ q) zero h = elim h [ ]
  get_elem?_out (x ∷ q) (suc i) h = get_elem?_out q i (omega arith)

  pub get_elem?-append_end :
      (q : List A) (x : A) (i : ℕ) → i ≡ length q → get_elem? (q ++ (x ∷ [])) i ≡ some x
  get_elem?-append_end [] x zero h = refl
  get_elem?-append_end [] x (suc i) h = absurd (omega arith)
  get_elem?-append_end (y ∷ q) x zero h = absurd (omega arith)
  get_elem?-append_end (y ∷ q) x (suc i) h = get_elem?-append_end q x i (omega arith)

  pub get_elem?-append_other :
      (q : List A) (x : A) (i : ℕ) → i ≢ length q → get_elem? (q ++ (x ∷ [])) i ≡ get_elem? q i
  get_elem?-append_other [] x zero h = absurd (h refl)
  get_elem?-append_other [] x (suc i) h = refl
  get_elem?-append_other (y ∷ q) x zero h = refl
  get_elem?-append_other (y ∷ q) x (suc i) h = get_elem?-append_other q x i (λ e. h (ap suc e))

-- `P p a o`: the cell `a` is right for the position `p`, which holds `o`.
module _ {A Q : Type 0} (P : ℕ → A → Option Q → Type 0) (cap : ℕ) where
  abbrev pub Cells : ℕ → List A → List Q → Type 0
  Cells head b q =
      (i : ℕ)
      → i < cap
      → (a : A) × (get_elem? b ((head + i) % cap) ≡ some a) × P (head + i) a (get_elem? q i)

  module _ (head : ℕ) (b : List A) (size : length b ≡ cap) (pos : 0 < cap) where
    last_index : (i : ℕ) → suc i ≡ cap → (head + 1 + i) % cap ≡ (head + 0) % cap
    last_index i e =
        ap (λ k. k % cap) (let s : head + 1 + i ≡ head + cap = omega arith in s)
        ∙ add-mod_right head cap
        ∙ ap (λ k. k % cap) (sym (add-zero head))

    -- A write at the head, behind which the turn then starts: the written cell is the last of it.
    written :
        (v : A) (i : ℕ)
        → suc i ≡ cap
        → get_elem? (set b ((head + 0) % cap) v) ((head + 1 + i) % cap) ≡ some v
    written v i e =
        ap (get_elem? (set b ((head + 0) % cap) v)) (last_index i e)
        ∙ turn-set_self b cap head 0 v size pos

    unwritten :
        (v : A) (i : ℕ)
        → suc i < cap
        → get_elem? (set b ((head + 0) % cap) v) ((head + 1 + i) % cap)
          ≡ get_elem? b ((head + suc i) % cap)
    unwritten v i h =
        ap (λ k. get_elem? (set b ((head + 0) % cap) v) (k % cap))
          (let s : head + 1 + i ≡ head + suc i = omega arith in s)
        ∙ turn-set_ne b cap head 0 v (suc i) pos h (λ e. absurd (omega arith))

    -- The oldest entry leaves; its cell becomes the empty one at the end of the turn.
    pub Cells-drop :
        (x : Q) (q : List Q) (v : A)
        → length (x ∷ q) ≤ cap
        → P (head + cap) v none
        → Cells head b (x ∷ q)
        → Cells (head + 1) (set b ((head + 0) % cap) v) q
    Cells-drop x q v fits empty cells i hi = elim (dec_lt (suc i) cap) [
      | yes p ↦
          let (a, g, c) = cells (suc i) p in
          (
            a,
            unwritten v i p ∙ g,
            subst (λ k. P k a (get_elem? q i))
                (let s : head + suc i ≡ head + 1 + i = omega arith in s) c,
          )
      | no p ↦
          let e : suc i ≡ cap = omega arith in
          (
            v,
            written v i e,
            subst (λ o. P (head + 1 + i) v o) (sym (get_elem?_out q i (omega arith)))
                (subst (λ k. P k v none) (let s : head + cap ≡ head + 1 + i = omega arith in s)
                  empty),
          )
    ]

    -- In a full ring the oldest entry makes room for a new one behind the others.
    pub Cells-replace :
        (x : Q) (q : List Q) (v : A) (y : Q)
        → length (x ∷ q) ≡ cap
        → P (head + cap) v (some y)
        → Cells head b (x ∷ q)
        → Cells (head + 1) (set b ((head + 0) % cap) v) (q ++ (y ∷ []))
    Cells-replace x q v y full new cells i hi = elim (dec_lt (suc i) cap) [
      | yes p ↦
          let (a, g, c) = cells (suc i) p in
          (
            a,
            unwritten v i p ∙ g,
            subst (λ o. P (head + 1 + i) a o)
                (sym (get_elem?-append_other q y i (λ e. absurd (omega arith))))
                (subst (λ k. P k a (get_elem? q i))
                  (let s : head + suc i ≡ head + 1 + i = omega arith in s) c),
          )
      | no p ↦
          let e : suc i ≡ cap = omega arith in
          (
            v,
            written v i e,
            subst (λ o. P (head + 1 + i) v o) (sym (get_elem?-append_end q y i (omega arith)))
                (subst (λ k. P k v (some y)) (let s : head + cap ≡ head + 1 + i = omega arith in s)
                  new),
          )
    ]

    -- With room left, a new entry goes behind the others.
    pub Cells-append :
        (q : List Q) (v : A) (y : Q)
        → length q < cap
        → P (head + length q) v (some y)
        → Cells head b q
        → Cells head (set b ((head + length q) % cap) v) (q ++ (y ∷ []))
    Cells-append q v y room new cells i hi = elim (ℕ_discrete i (length q)) [
      | yes e ↦ (
        v,
        ap (λ k. get_elem? (set b ((head + length q) % cap) v) ((head + k) % cap)) e
            ∙ turn-set_self b cap head (length q) v size pos,
        subst (λ o. P (head + i) v o) (sym (get_elem?-append_end q y i e))
            (subst (λ k. P (head + k) v (some y)) (sym e) new),
      )
      | no ne ↦
          let (a, g, c) = cells i hi in
          (
            a,
            turn-set_ne b cap head (length q) v i room hi (λ e. ne (sym e)) ∙ g,
            subst (λ o. P (head + i) a o) (sym (get_elem?-append_other q y i ne)) c,
          )
    ]
