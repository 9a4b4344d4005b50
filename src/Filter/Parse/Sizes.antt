-- ===== src/Filter/Parse/Sizes.antt =====
-- What the size of a parsed block counts, `MessageParserProst::parse` and `MessageBlock::size` of
-- filter/src/message.rs.
use dragonmouth.Base.{
  Bool, true, false, ℕ, ◌+◌, ◌*◌, ◌≡◌, refl, sym, ap, ◌∙◌, List, [], ◌∷◌, arith, ◌==◌, length,
}
use dragonmouth.Filter.Message.{
  Timestamp, MessageAccount, MessageTransaction, MessageEntry, MessageBlock, sum, block_size,
}
use dragonmouth.Filter.Parse.{
  Parsed, parsed, failed, ◌>>=◌, ok_or, ensure, MessageParseError, invalid_pubkey,
  invalid_signature, field_not_defined, meta, SubscribeUpdateAccountInfo,
  SubscribeUpdateTransactionInfo, SubscribeUpdateEntry, SubscribeUpdateBlock, gen_account_keys,
  account_of, entry_of, block_meta_of, map_parsed, block_account, block_entries, transaction_of,
  parse_block, pubkey_bytes, signature_bytes,
}

-- The two steps of a chain that parses.
bind_inv :
    {A B : Type 0} (first : Parsed A) (next : A → Parsed B) {result : B}
    → (first >>= next) ≡ parsed result
    → (x : A) × (first ≡ parsed x) × (next x ≡ parsed result)
bind_inv (parsed x) next e = (x, refl, e)
bind_inv (failed fault) next e = cc

parsed_inj : {A : Type 0} {a b : A} → parsed a ≡ parsed b → a ≡ b
parsed_inj {a = a} e = ap (λ o. elim o [ parsed x ↦ x | failed _ ↦ a ]) e

ensure-eq-parsed :
    {A : Type 0} (test : Bool) (e : MessageParseError) (m : Parsed A) {a : A}
    → ensure test e m ≡ parsed a
    → m ≡ parsed a
ensure-eq-parsed true e m h = h
ensure-eq-parsed false e m h = cc

-- A measure of what is parsed, summed up.
map_parsed-sum :
    {A B : Type 0} (f : A → Parsed B) (g k : B → ℕ) (h : A → ℕ)
    → ((x : A) (y : B) → f x ≡ parsed y → g y ≡ h x + k y)
    → (xs : List A) (ys : List B) → map_parsed f xs ≡ parsed ys
    → sum g ys ≡ sum h xs + sum k ys
unfolding map_parsed sum
map_parsed-sum f g k h each [] ys e = ground (arith, parsed_inj e)
map_parsed-sum f g k h each (x ∷ xs) ys e =
    let (y, first, e₁) = bind_inv (f x) _ e in
    let (rest, later, e₂) = bind_inv (map_parsed f xs) (λ r. parsed (y ∷ r)) e₁ in
    ap (sum g) (sym (parsed_inj e₂))
    ∙ (let here = each x y first in
        let there = map_parsed-sum f g k h each xs rest later in
        let step : g y + sum g rest ≡ h x + sum h xs + (k y + sum k rest) = omega arith in step)
    ∙ ap (λ l. sum h (x ∷ xs) + sum k l) (parsed_inj e₂)

sum-zero : {B : Type 0} (ys : List B) → sum (λ _. 0) ys ≡ 0
unfolding sum
sum-zero [] = refl
sum-zero (y ∷ ys) = omega (arith, sum-zero ys)

sum-const : {A : Type 0} (c : ℕ) (xs : List A) → sum (λ _. c) xs ≡ length xs * c
unfolding sum
sum-const c [] = omega arith
sum-const c (x ∷ xs) = grind (arith, sum-const c xs)

block_account-size :
    (slot : ℕ) (time : Timestamp) (info : SubscribeUpdateAccountInfo) (m : MessageAccount)
    → block_account slot time info ≡ parsed m
    → m.size ≡ (info.encoded_len + 136) + 0
unfolding block_account account_of
block_account-size slot time info m e =
    let e₁ = ensure-eq-parsed (length info.pubkey == pubkey_bytes) invalid_pubkey _ e in
    let e₂ = ensure-eq-parsed (length info.owner == pubkey_bytes) invalid_pubkey _ e₁ in
    let same = ap (λ (a : MessageAccount). a.size) (parsed_inj e₂) in omega arith

-- The bytes of a transaction's keys.
abbrev pub keys_size : (ℕ → ℕ) → MessageTransaction → ℕ
keys_size capacity m = capacity (length m.account_keys) * 32

transaction_of-size :
    (capacity : ℕ → ℕ) (slot : ℕ) (time : Timestamp) (len : ℕ)
    (info : SubscribeUpdateTransactionInfo) (m : MessageTransaction)
    → transaction_of capacity slot time len info ≡ parsed m
    → m.size ≡ (len + 64) + keys_size capacity m
unfolding transaction_of
transaction_of-size capacity slot time len info m e =
    let (status, _, e₁) = bind_inv (ok_or info.meta (field_not_defined meta)) _ e in
    let (keys, _, e₂) = bind_inv (gen_account_keys info status) _ e₁ in
    let e₃ = ensure-eq-parsed (length info.signature == signature_bytes) invalid_signature _ e₂ in
    let whole = parsed_inj e₃ in
    let size = ap (λ (t : MessageTransaction). t.size) whole in
    let same = ap (keys_size capacity) whole in omega arith

block_entries-size :
    (time : Timestamp) (es : List SubscribeUpdateEntry)
    → sum (λ (m : MessageEntry). m.size) (block_entries time es)
      ≡ sum (λ (i : SubscribeUpdateEntry). i.encoded_len) es
unfolding sum block_entries entry_of
block_entries-size time [] = refl
block_entries-size time (e ∷ es) = omega (arith, block_entries-size time es)

-- The size of a parsed block is the lengths of its accounts and 136 bytes for each, for each of its
-- transactions the length of the whole update and 64 bytes, the room for the transactions' keys, the
-- lengths of its entries, and that of its metadata: not the length of a transaction, but that of
-- the update is counted once for each of them.
pub parse_block-size :
    (capacity : ℕ → ℕ) (len : ℕ) (time : Timestamp) (message : SubscribeUpdateBlock)
    (b : MessageBlock)
    → parse_block capacity len time message ≡ parsed b
    → block_size b
      ≡ sum (λ (i : SubscribeUpdateAccountInfo). i.encoded_len + 136) message.accounts
        + length message.transactions * (len + 64)
        + sum (keys_size capacity) b.transactions
        + sum (λ (i : SubscribeUpdateEntry). i.encoded_len) message.entries
        + message.block_meta.encoded_len
unfolding parse_block block_size block_meta_of
parse_block-size capacity len time message b e =
    let (accounts, read, e₁) =
      bind_inv (map_parsed (block_account message.slot time) message.accounts) _ e in
    let (transactions, read', e₂) =
      bind_inv (map_parsed (transaction_of capacity message.slot time len) message.transactions) _
        e₁ in
    let counted =
      map_parsed-sum (block_account message.slot time) (λ (m : MessageAccount). m.size) (λ _. 0)
        (λ (i : SubscribeUpdateAccountInfo). i.encoded_len + 136)
        (block_account-size message.slot time) message.accounts accounts read in
    let nothing = sum-zero accounts in
    let counted' =
      map_parsed-sum (transaction_of capacity message.slot time len)
        (λ (m : MessageTransaction). m.size) (keys_size capacity) (λ _. len + 64)
        (transaction_of-size capacity message.slot time len) message.transactions transactions
        read' in
    let all = sum-const (len + 64) message.transactions in
    let entries = block_entries-size time message.entries in
    ap block_size (sym (parsed_inj e₂))
    ∙ omega arith
    ∙ ap
        (λ (c : MessageBlock).
          sum (λ (i : SubscribeUpdateAccountInfo). i.encoded_len + 136) message.accounts
          + length message.transactions * (len + 64)
          + sum (keys_size capacity) c.transactions
          + sum (λ (i : SubscribeUpdateEntry). i.encoded_len) message.entries
          + message.block_meta.encoded_len)
        (parsed_inj e₂)
