-- ===== src/Richat/Channel/Levels.antt =====
-- The slots that `Sender::push` of richat/src/channel.rs keeps, over all its branches.
use dragonmouth.Base.{
  ℕ, zero, suc, ◌≡◌, refl, sym, ap, ◌∙◌, subst, inl, inr, Bool, true, false, List, [], ◌∷◌, Option,
  none, some, arith, length, if◌then◌else◌, leb, ◌==◌, Bool-cases, is_some, All,
}
use dragonmouth.Plugin.BTree.{
  get, insert, remove, IsSorted, Above, Above-mono, get-insert, insert-IsSorted,
}
use dragonmouth.Plugin.Channel.{Outcome, ok, panic, stuck, ◌>>=◌}
use dragonmouth.Filter.Slots.{SlotCommitment}
use dragonmouth.Filter.Message.{
  Message, MessageSlot, MessageBlock, slot_message, account_message, transaction_message,
  entry_message, block_meta_message, block_message, message_slot,
}
use dragonmouth.Richat.SlotInfo.{SlotInfo, get_block_message}
use dragonmouth.Richat.Channel.{SenderShared, push, try_clear}
use dragonmouth.Richat.Channel.Sender.{
  Sender, replay, replay_level, remove_upto, forget, push_levels, before_processed, push_one,
  push_block, slot_info_of, push_message,
}

-- The two steps of a chain that returns.
bind_inv :
    {A B : Type 0} (first : Outcome A) (next : A → Outcome B) {result : B}
    → (first >>= next) ≡ ok result
    → (x : A) × (first ≡ ok x) × (next x ≡ ok result)
bind_inv (ok x) next e = (x, refl, e)
bind_inv panic next e = cc
bind_inv stuck next e = cc

ok_inj {ℓ} : {A : Type ℓ} {a b : A} → ok a ≡ ok b → a ≡ b
ok_inj {a = a} e = ap (λ o. elim o [ ok x ↦ x | panic ↦ a | stuck ↦ a ]) e

remove-first : (k : ℕ) (v : SlotInfo) (m : List (ℕ × SlotInfo)) → remove k ((k, v) ∷ m) ≡ m
unfolding remove
remove-first k v m = let same : (k == k) ≡ true = ground arith in rw same refl

Above-below :
    (slot k : ℕ) (v : SlotInfo) (m : List (ℕ × SlotInfo))
    → leb k slot ≡ false
    → IsSorted ((k, v) ∷ m)
    → Above slot ((k, v) ∷ m)
Above-below slot k v m e s = (ground arith, Above-mono slot k m (ground arith) s.0)

-- What the loop leaves is above the finalized slot.
remove_upto-Above :
    (fuel slot : ℕ) (m m' : List (ℕ × SlotInfo))
    → IsSorted m
    → remove_upto fuel slot m ≡ ok m'
    → Above slot m' × IsSorted m'
unfolding remove_upto
remove_upto-Above zero slot m m' s e = cc
remove_upto-Above (suc fuel) slot [] m' s e =
    subst (λ l. Above slot l × IsSorted l) (ok_inj e) (tt, tt)
remove_upto-Above (suc fuel) slot ((k, v) ∷ m) m' s e = elim (Bool-cases (leb k slot)) [
  | inl t ↦
      remove_upto-Above fuel slot m m' s.1
        (ap (remove_upto fuel slot) (sym (remove-first k v m)) ∙ (rw (t, remove_upto) at e))
  | inr f ↦
      subst (λ l. Above slot l × IsSorted l) (ok_inj (rw (f, remove_upto) at e))
        (Above-below slot k v m f s, s)
]

forget-Above :
    (s s' : Sender) (slot : ℕ)
    → IsSorted s.slots
    → forget SlotCommitment.finalized s slot ≡ ok s'
    → Above slot s'.slots × IsSorted s'.slots
unfolding forget
forget-Above s s' slot sorted e =
    let (slots, run, last) =
      bind_inv (remove_upto (suc (length s.slots)) slot s.slots)
        (λ (l : List (ℕ × SlotInfo)). ok (record s { slots = l })) e in
    subst (λ (t : Sender). Above slot t.slots × IsSorted t.slots) (ok_inj last)
      (remove_upto-Above _ slot s.slots slots sorted run)

-- Giving a ring the messages of a slot leaves the slots alone.
replay_level-slots :
    (c : SlotCommitment) (s s' : Sender) (slot : ℕ)
    → replay_level c s slot ≡ ok s'
    → s'.slots ≡ s.slots
unfolding replay_level
replay_level-slots SlotCommitment.confirmed s s' slot e =
    let (ring, run, last) =
      bind_inv (replay s slot s.confirmed) (λ (t : SenderShared). ok (record s { confirmed = t }))
        e in
    sym (ap (λ (t : Sender). t.slots) (ok_inj last))
replay_level-slots SlotCommitment.finalized s s' slot e =
    let (ring, run, last) =
      bind_inv (replay s slot s.finalized) (λ (t : SenderShared). ok (record s { finalized = t }))
        e in
    sym (ap (λ (t : Sender). t.slots) (ok_inj last))
replay_level-slots SlotCommitment.processed s s' slot e =
    sym (ap (λ (t : Sender). t.slots) (ok_inj e))
replay_level-slots SlotCommitment.first_shred_received s s' slot e =
    sym (ap (λ (t : Sender). t.slots) (ok_inj e))
replay_level-slots SlotCommitment.completed s s' slot e =
    sym (ap (λ (t : Sender). t.slots) (ok_inj e))
replay_level-slots SlotCommitment.created_bank s s' slot e =
    sym (ap (λ (t : Sender). t.slots) (ok_inj e))
replay_level-slots SlotCommitment.dead s s' slot e = sym (ap (λ (t : Sender). t.slots) (ok_inj e))

push_levels-Above :
    (s s' : Sender) (slot : ℕ) (m : MessageSlot)
    → IsSorted s.slots
    → m.commitment ≡ SlotCommitment.finalized
    → push_levels s slot m ≡ ok s'
    → Above slot s'.slots × IsSorted s'.slots
unfolding push_levels
push_levels-Above s s' slot m sorted fin e =
    let (confirmed, _, e₁) = bind_inv (push s.confirmed slot (slot_message m)) _ e in
    let (finalized, _, e₂) = bind_inv (push s.finalized slot (slot_message m)) _ e₁ in
    let (t, replayed, e₃) =
      bind_inv
        (replay_level m.commitment (record s { confirmed = confirmed; finalized = finalized }) slot)
        (λ (u : Sender). forget m.commitment u slot) e₂ in
    forget-Above t s' slot
      (subst IsSorted
        (sym (
          replay_level-slots m.commitment
            (record s { confirmed = confirmed; finalized = finalized }) t slot replayed))
        sorted)
      (ap (λ c. forget c t slot) (sym fin) ∙ e₃)

-- The slots of a round are those that `before_processed` leaves.
push_one-slots :
    (s s' : Sender) (slot : ℕ) (m : Message)
    → push_one s slot m ≡ ok s'
    → (t : Sender) × (before_processed s slot m ≡ ok t) × (s'.slots ≡ t.slots) × (s'.grpc ≡ t.grpc)
unfolding push_one
push_one-slots s s' slot m e =
    let (t, run, e₁) =
      bind_inv (before_processed s slot m)
        (λ (u : Sender).
          push u.processed slot m >>= λ (p : SenderShared). ok (record u { processed = p }))
        e in
    let (p, _, e₂) =
      bind_inv (push t.processed slot m) (λ (p : SenderShared). ok (record t { processed = p }))
        e₁ in
    (
      t,
      run,
      sym (ap (λ (u : Sender). u.slots) (ok_inj e₂)),
      sym (ap (λ (u : Sender). u.grpc) (ok_inj e₂)),
    )

push_block-slots :
    (s s' : Sender) (slot : ℕ) (b : Option MessageBlock)
    → push_block s slot b ≡ ok s'
    → (s'.slots ≡ s.slots) × (s'.grpc ≡ s.grpc)
unfolding push_block before_processed
push_block-slots s s' slot none e =
    (sym (ap (λ (u : Sender). u.slots) (ok_inj e)), sym (ap (λ (u : Sender). u.grpc) (ok_inj e)))
push_block-slots s s' slot (some b) e =
    let (t, run, slots, grpc) = push_one-slots s s' slot (block_message b) e in
    (
      slots ∙ sym (ap (λ (u : Sender). u.slots) (ok_inj run)),
      grpc ∙ sym (ap (λ (u : Sender). u.grpc) (ok_inj run)),
    )

-- The rounds of a whole push that returns.
push_message-rounds :
    (s s' : Sender) (m : Message)
    → push_message s m ≡ ok s'
    → (info : SlotInfo) × (s₁ : Sender) × (push_one
          (record s { slots = insert (message_slot m) info s.slots })
          (message_slot m)
          m
        ≡ ok s₁)
      × (s'.slots ≡ s₁.slots)
      × (s'.grpc ≡ s₁.grpc)
unfolding push_message
push_message-rounds s s' m e =
    let (c, _, e₁) = bind_inv (get_block_message (slot_info_of s (message_slot m)) m) _ e in
    let (s₁, run, e₂) =
      bind_inv
        (push_one (record s { slots = insert (message_slot m) c.info s.slots }) (message_slot m) m)
        _ e₁ in
    let (s₂, blocked, e₃) = bind_inv (push_block s₁ (message_slot m) c.block) _ e₂ in
    let (p, _, e₄) =
      bind_inv (try_clear s₂.processed s₂.bytes_max s₂.slots_max)
        (λ (p : SenderShared). ok (record s₂ { processed = p })) e₃ in
    let (slots, grpc) = push_block-slots s₁ s₂ (message_slot m) c.block blocked in
    (
      c.info,
      s₁,
      run,
      sym (ap (λ (u : Sender). u.slots) (ok_inj e₄)) ∙ slots,
      sym (ap (λ (u : Sender). u.grpc) (ok_inj e₄)) ∙ grpc,
    )

-- With gRPC, when the push of a finalized slot's message returns, the slots that are still collected
-- are all above that slot, and in order.
pub push_message-forgets :
    (s s' : Sender) (m : MessageSlot)
    → IsSorted s.slots
    → s.grpc ≡ true
    → m.commitment ≡ SlotCommitment.finalized
    → push_message s (slot_message m) ≡ ok s'
    → Above m.slot s'.slots × IsSorted s'.slots
unfolding before_processed message_slot
push_message-forgets s s' m sorted on fin e =
    let (info, s₁, run, slots, _) = push_message-rounds s s' (slot_message m) e in
    let entered = record s { slots = insert m.slot info s.slots } in
    let (t, before, slots₁, _) = push_one-slots entered s₁ m.slot (slot_message m) run in
    let levels : push_levels entered m.slot m ≡ ok t =
      sym (ap (λ b. if b then push_levels entered m.slot m else ok entered) on) ∙ before in
    subst (λ l. Above m.slot l × IsSorted l) (sym (slots ∙ slots₁))
      (push_levels-Above entered t m.slot m (insert-IsSorted m.slot info s.slots sorted) fin levels)

before_processed_off :
    (s t : Sender) (slot : ℕ) (m : Message)
    → s.grpc ≡ false
    → before_processed s slot m ≡ ok t
    → s ≡ t
unfolding before_processed
before_processed_off s t slot (slot_message m) off e =
    ok_inj (sym (ap (λ b. if b then push_levels s slot m else ok s) off) ∙ e)
before_processed_off s t slot (account_message m) off e = ok_inj e
before_processed_off s t slot (transaction_message m) off e = ok_inj e
before_processed_off s t slot (entry_message m) off e = ok_inj e
before_processed_off s t slot (block_meta_message m) off e = ok_inj e
before_processed_off s t slot (block_message m) off e = ok_inj e

-- Without gRPC the message's slot is entered, and nothing else happens to the slots.
push_message_off :
    (s s' : Sender) (m : Message)
    → s.grpc ≡ false
    → push_message s m ≡ ok s'
    → (info : SlotInfo) × (s'.slots ≡ insert (message_slot m) info s.slots) × (s'.grpc ≡ false)
push_message_off s s' m off e =
    let (info, s₁, run, slots, grpc) = push_message-rounds s s' m e in
    let entered = record s { slots = insert (message_slot m) info s.slots } in
    let (t, before, slots₁, grpc₁) = push_one-slots entered s₁ (message_slot m) m run in
    let same = before_processed_off entered t (message_slot m) m off before in
    (
      info,
      slots ∙ slots₁ ∙ sym (ap (λ (u : Sender). u.slots) same),
      grpc ∙ grpc₁ ∙ sym (ap (λ (u : Sender). u.grpc) same) ∙ off,
    )

-- A sequence of pushes.
unfoldable pub push_messages : Sender → List Message → Outcome Sender
push_messages s [] = ok s
push_messages s (m ∷ ms) = do s' ← push_message s m; push_messages s' ms

abbrev pub Kept : ℕ → Sender → Type 0
Kept k s = is_some (get k s.slots) ≡ true

is_some-insert :
    (k j : ℕ) (info : SlotInfo) (m : List (ℕ × SlotInfo))
    → is_some (get j m) ≡ true
    → is_some (get j (insert k info m)) ≡ true
is_some-insert k j info m h = ap is_some (get-insert k j info m) ∙ by_key (k == j)
  where
    by_key : (b : Bool) → is_some (if b then some info else get j m) ≡ true
    by_key true = refl
    by_key false = h

is_some-insert_self :
    (k : ℕ) (info : SlotInfo) (m : List (ℕ × SlotInfo)) → is_some (get k (insert k info m)) ≡ true
is_some-insert_self k info m =
    ap is_some (get-insert k k info m) ∙ (let same : (k == k) ≡ true = ground arith in rw same refl)

push_messages_keep :
    (k : ℕ) (s s' : Sender) (ms : List Message)
    → s.grpc ≡ false
    → push_messages s ms ≡ ok s'
    → Kept k s
    → Kept k s'
unfolding push_messages
push_messages_keep k s s' [] off e h = subst (Kept k) (ok_inj e) h
push_messages_keep k s s' (m ∷ ms) off e h =
    let (t, one, rest) = bind_inv (push_message s m) (λ (u : Sender). push_messages u ms) e in
    let (info, slots, off') = push_message_off s t m off one in
    push_messages_keep k t s' ms off' rest
      (ap (λ l. is_some (get k l)) slots ∙ is_some-insert (message_slot m) k info s.slots h)

-- Without gRPC, after any sequence of pushes that return, the slot of every message that came is
-- still collected: nothing ever removes one.
pub push_messages-Kept :
    (s s' : Sender) (ms : List Message)
    → s.grpc ≡ false
    → push_messages s ms ≡ ok s'
    → All (λ m. Kept (message_slot m) s') ms
unfolding push_messages
push_messages-Kept s s' [] off e = tt
push_messages-Kept s s' (m ∷ ms) off e =
    let (t, one, rest) = bind_inv (push_message s m) (λ (u : Sender). push_messages u ms) e in
    let (info, slots, off') = push_message_off s t m off one in
    (
      push_messages_keep (message_slot m) t s' ms off' rest (
          ap (λ l. is_some (get (message_slot m) l)) slots
          ∙ is_some-insert_self (message_slot m) info s.slots),
      push_messages-Kept t s' ms off' rest,
    )
