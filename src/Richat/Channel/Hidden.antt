-- ===== src/Richat/Channel/Hidden.antt =====
-- When a pushed message of the relay can be received: `SenderShared::push` stores the position of
-- the new message as the receivers' tail, and not the position behind it.
use dragonmouth.Base.{
  ℕ, zero, suc, ◌+◌, ◌-◌, ◌^◌, ◌≤◌, ◌<◌, ◌≡◌, refl, sym, ap, ◌∙◌, inr, true, false, List, [], ◌∷◌,
  ◌++◌, none, some, arith, length, length-append, get_elem?, ltb, dec_lt,
}
use dragonmouth.Base.Turn.{get_elem?-append_end, get_elem?-append_other}
use dragonmouth.Plugin.Channel.{ok}
use dragonmouth.Filter.Message.{Message, message_size}
use dragonmouth.Richat.Channel.{SenderShared, push, try_recv}
use dragonmouth.Richat.Channel.Ring.{Entry, total, Ring}
use dragonmouth.Richat.Channel.Push.{pushed, push-Ring}
use dragonmouth.Richat.Channel.Read.{told, told_live, told_after, try_recv-told}

total-append_le : (q : List Entry) (e : Entry) → total (q ++ (e ∷ [])) ≤ total q + message_size e.1
total-append_le [] e = omega arith
total-append_le (x ∷ q) e = omega (arith, total-append_le q e)

total-pushed_le :
    (cap : ℕ) (q : List Entry) (e : Entry) → total (pushed cap q e) ≤ total q + message_size e.1
unfolding pushed
total-pushed_le cap [] e = omega arith
total-pushed_le cap (x ∷ q) e = ground (arith, total-append_le (x ∷ q) e, total-append_le q e)

-- The new message stands last.
pushed-last :
    (cap : ℕ) (q : List Entry) (e : Entry) (i : ℕ)
    → suc i ≡ length (pushed cap q e)
    → get_elem? (pushed cap q e) i ≡ some e
unfolding pushed
pushed-last cap [] e zero h = refl
pushed-last cap [] e (suc i) h = absurd (omega arith)
pushed-last cap (x ∷ q) e i h = ground (
  arith,
  length-append (x ∷ q) (e ∷ []),
  length-append q (e ∷ []),
  get_elem?-append_end (x ∷ q) e i,
  get_elem?-append_end q e i,
)

-- One before it stands the message that was last.
pushed_before :
    (cap : ℕ) (q : List Entry) (e l : Entry) (i j : ℕ)
    → get_elem? q j ≡ some l
    → suc j ≡ length q
    → suc (suc i) ≡ length (pushed cap q e)
    → get_elem? (pushed cap q e) i ≡ some l
unfolding pushed
pushed_before cap [] e l i j g h k = absurd (omega arith)
pushed_before cap (x ∷ q) e l i j g h k = elim (dec_lt (length (x ∷ q)) cap) [
  | yes p ↦
      let room : ltb (length (x ∷ q)) cap ≡ true = ground arith in
      let same : i ≡ j = ground (arith, length-append (x ∷ q) (e ∷ [])) in
      rw (room, same) (get_elem?-append_other (x ∷ q) e j (λ c. absurd (omega arith)) ∙ g)
  | no p ↦
      let full : ltb (length (x ∷ q)) cap ≡ false = ground arith in
      let next : j ≡ suc i = ground (arith, length-append q (e ∷ [])) in
      rw full (
        get_elem?-append_other q e i (λ c. absurd (omega arith))
        ∙ ap (get_elem? (x ∷ q)) (sym next)
        ∙ g)
]

length-pushed_pos : (cap : ℕ) (q : List Entry) (e : Entry) → 0 < length (pushed cap q e)
unfolding pushed
length-pushed_pos cap [] e = omega arith
length-pushed_pos cap (x ∷ q) e =
    ground (arith, length-append (x ∷ q) (e ∷ []), length-append q (e ∷ []))

length-pushed_two :
    (cap : ℕ) (q : List Entry) (e : Entry) → 1 < cap → 0 < length q → 1 < length (pushed cap q e)
unfolding pushed
length-pushed_two cap [] e c h = absurd (omega arith)
length-pushed_two cap (x ∷ q) e c h =
    ground (arith, length-append (x ∷ q) (e ∷ []), length-append q (e ∷ []))

-- Behind the second push, the first of the two messages is told.
told_second :
    (cap : ℕ) (s s' : SenderShared) (q : List Entry) (e e' : Entry) (p : ℕ)
    → 1 < cap
    → 0 < length q
    → Ring cap s q
    → Ring cap s' (pushed cap q e')
    → s.tail ≡ p + 1
    → s'.tail ≡ p + 2
    → s'.shared.tail ≡ p + 1
    → ((i : ℕ) → suc i ≡ length q → get_elem? q i ≡ some e)
    → told s' (pushed cap q e') p ≡ inr (some e.1)
told_second cap s s' q e e' p two some_left r r' t t' v last =
    let longer = length-pushed_two cap q e' two some_left in
    let at : suc (suc (p - s'.head)) ≡ length (pushed cap q e') = omega (arith, r'.tail_is) in
    told_live r' p e (omega arith) (omega (arith, r'.tail_is)) (
      pushed_before cap q e' e (p - s'.head) (length q - 1) (last (length q - 1) (omega arith))
        (omega arith) at)

-- On a valid ring of two cells or more, whose positions and bytes stay within 64 bits, two pushes
-- return, and a receiver that stands at the position of the first message is told between the two
-- that there is nothing, and after the second it gets that message: the newest message is hidden
-- until the next one comes.
pub push-hidden :
    (cap : ℕ) (s : SenderShared) (q : List Entry) (slot slot' : ℕ) (m m' : Message)
    → Ring cap s q
    → 1 < cap
    → s.tail + 2 < 2 ^ 64
    → total q + message_size m + message_size m' < 2 ^ 64
    → (s' : SenderShared) × (s'' : SenderShared) × (push s slot m ≡ ok s')
      × (push s' slot' m' ≡ ok s'')
      × (try_recv s'.shared s.tail ≡ ok (inr none))
      × (try_recv s''.shared s.tail ≡ ok (inr (some m)))
push-hidden cap s q slot slot' m m' r two fits small =
    let q' = pushed cap q (slot, m) in
    let (s', e, r', t, v) = push-Ring cap s slot m q r (omega arith) (omega arith) in
    let less = total-pushed_le cap q (slot, m) in
    let (s'', e', r'', t', v') = push-Ring cap s' slot' m' q' r' (omega arith) (omega arith) in
    (
      s',
      s'',
      e,
      e',
      try_recv-told r' s.tail ∙ ap ok (told_after r' s.tail (omega arith)),
      try_recv-told r'' s.tail
          ∙ ap ok (
              told_second cap s' s'' q' (slot, m) (slot', m') s.tail two
                (length-pushed_pos cap q (slot, m)) r' r'' t (omega arith) (omega arith)
                (λ i. pushed-last cap q (slot, m) i)),
    )
