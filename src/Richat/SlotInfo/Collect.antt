-- ===== src/Richat/SlotInfo/Collect.antt =====
-- The messages of one slot, given to `SlotInfo::get_block_message` one after the other: when the
-- block is made, and what it holds.
use mathlib.Core.List.{Memᴰ}
use dragonmouth.Base.{
  ℕ, ◌≤◌, ◌≡◌, refl, sym, ap, ◌∙◌, ◌⊎◌, inl, inr, Bool, true, false, List, [], ◌∷◌, ◌++◌, Option,
  none, some, arith, if◌then◌else◌, Bool-cases, Option-cases, All,
}
use dragonmouth.Plugin.Channel.{Outcome, ok, ◌>>=◌}
use dragonmouth.Filter.Message.{
  MessageAccount, MessageBlockMeta, MessageBlockCreatedAt, MessageBlock, Message, slot_message,
  account_message, transaction_message, entry_message, block_meta_message, block_message,
  unchecked_create_block,
}
use dragonmouth.Richat.SlotInfo.{
  SlotInfo, slot_info_new, cons_some, get_account, get_transaction, get_entry, store_message,
  mark_landed, lands, try_block, try_with, store_and_try, after_block, block_of, counts_match,
  Collected, get_block_message,
}
use dragonmouth.Richat.SlotInfo.Gather.{pick, gather-Mem}
use dragonmouth.Richat.SlotInfo.Complete.{
  NotBlock, last_meta, is_complete, complete_by, first_complete, Collects, slot_info_new-Collects,
  mark_landed-Collects,
}
use dragonmouth.Richat.SlotInfo.Kept.{store_message-Collects}

-- A slot's messages in their order, with the blocks that are made.
unfoldable pub collect : SlotInfo → List Message → Outcome (SlotInfo × List MessageBlock)
collect info [] = ok (info, [])
collect info (m ∷ ms) = do
  c ← get_block_message info m
  r ← collect c.info ms
  ok (r.0, cons_some c.block r.1)

-- The block of the messages `seen`: all their transactions and entries in order, their last
-- metadata, accounts that are among theirs, and for each of theirs one of its key that is no older.
pub record Assembled (seen : List Message) (b : MessageBlock) : Type 0 where
  pub transactions : b.transactions ≡ pick get_transaction seen
  pub entries : b.entries ≡ pick get_entry seen
  pub meta : last_meta seen ≡ some b.block_meta
  pub created_at : b.created_at ≡ MessageBlockCreatedAt.prost b.block_meta.created_at
  pub came : (a : MessageAccount) → Memᴰ a b.accounts → Memᴰ a (pick get_account seen)
  pub newest :
      (a : MessageAccount)
      → Memᴰ a (pick get_account seen)
      → (kept : MessageAccount) × Memᴰ kept b.accounts
        × (kept.pubkey ≡ a.pubkey)
        × (a.write_version ≤ kept.write_version)

abbrev pub Made : Option (List Message) → List MessageBlock → Type 0
Made none blocks = blocks ≡ []
Made (some seen) blocks = (b : MessageBlock) × (blocks ≡ b ∷ []) × Assembled seen b

mark_landed_created :
    (info : SlotInfo) (m : Message) → (mark_landed info m).block_created ≡ info.block_created
unfolding mark_landed
mark_landed_created info (slot_message m) = by_level (lands m.commitment)
  where
    by_level :
        (b : Bool)
        → (if b then record info { landed = true } else info).block_created ≡ info.block_created
    by_level true = refl
    by_level false = refl
mark_landed_created info (account_message m) = refl
mark_landed_created info (transaction_message m) = refl
mark_landed_created info (entry_message m) = refl
mark_landed_created info (block_meta_message m) = refl
mark_landed_created info (block_message m) = refl

after_block_created :
    (info : SlotInfo) (m : Message)
    → ((after_block info m).info.block_created ≡ info.block_created)
      × ((after_block info m).block ≡ none)
unfolding after_block
after_block_created info m = elim (Bool-cases info.failed) [
  | inl e ↦ rw (e, after_block) (refl, refl)
  | inr e ↦ rw (e, after_block) (refl, refl)
]

get_block_message_created :
    (info : SlotInfo) (m : Message)
    → info.block_created ≡ true
    → get_block_message info m ≡ ok (after_block (mark_landed info m) m)
unfolding get_block_message
get_block_message_created info m e = rw (mark_landed_created info m, e, get_block_message) refl

get_block_message_uncreated :
    (info : SlotInfo) (m : Message)
    → info.block_created ≡ false
    → get_block_message info m ≡ store_and_try (mark_landed info m) m
unfolding get_block_message
get_block_message_uncreated info m e = rw (mark_landed_created info m, e, get_block_message) refl

-- One round of `collect`.
collect_step :
    (info : SlotInfo) (m : Message) (ms : List Message) {c : Collected} {info' : SlotInfo}
    {blocks : List MessageBlock}
    → get_block_message info m ≡ ok c
    → collect c.info ms ≡ ok (info', blocks)
    → collect info (m ∷ ms) ≡ ok (info', cons_some c.block blocks)
unfolding collect
collect_step info m ms e f = rw (e, f, collect) refl

-- After the block no other is made.
pub collect_created :
    (info : SlotInfo) (ms : List Message)
    → info.block_created ≡ true
    → (info' : SlotInfo) × (collect info ms ≡ ok (info', []))
unfolding collect cons_some
collect_created info [] e = (info, refl)
collect_created info (m ∷ ms) e =
    let after = after_block_created (mark_landed info m) m in
    let rest =
      collect_created (after_block (mark_landed info m) m).info ms
        (after.0 ∙ mark_landed_created info m ∙ e) in
    (
      rest.0,
      collect_step info m ms (get_block_message_created info m e) rest.1
          ∙ ap (λ b. ok (rest.0, cons_some b [])) after.1,
    )

-- What `try_block` does, by the messages that came.
Tried : List Message → SlotInfo → Type 0
Tried seen info =
    ((is_complete seen ≡ true)
      × ((try_block info).0.block_created ≡ true)
      × ((b : MessageBlock) × ((try_block info).1 ≡ some b) × Assembled seen b))
    ⊎ ((is_complete seen ≡ false) × (try_block info ≡ (info, none)))

block_of-Assembled :
    (seen : List Message) (info : SlotInfo) (meta : MessageBlockMeta)
    → Collects seen info
    → info.block_meta ≡ some meta
    → Assembled seen (block_of info meta)
unfolding block_of unchecked_create_block get_account
block_of-Assembled seen info meta c e = record {
  transactions = c.transactions;
  entries = c.entries;
  meta = sym c.meta ∙ e;
  created_at = refl;
  came = c.accounts.came;
  newest = λ a h.
      let (v, i, found, le) = c.accounts.newest a h in
      let (kept, there, key, version) = c.accounts.indexed a.pubkey v i found in
      (
        kept,
        gather-Mem get_account info.messages i (account_message kept) kept there refl,
        key,
        omega arith,
      );
}

complete_eq :
    (seen : List Message) (info : SlotInfo)
    → Collects seen info
    → is_complete seen ≡ complete_by info.block_meta info.transactions_count info.entries_count
unfolding is_complete
complete_eq seen info c = rw (c.meta, c.transactions_count, c.entries_count) refl

try_block-Tried : (seen : List Message) (info : SlotInfo) → Collects seen info → Tried seen info
unfolding Tried try_block try_with
try_block-Tried seen info c = elim (Option-cases info.block_meta) [
  | inl e ↦ inr (
    complete_eq seen info c ∙ ap (λ o. complete_by o info.transactions_count info.entries_count) e,
    ap (try_with info) e,
  )
  | inr (meta, e) ↦
      let same : is_complete seen ≡ counts_match meta info.transactions_count info.entries_count =
        complete_eq seen info c
        ∙ ap (λ o. complete_by o info.transactions_count info.entries_count) e in
      let opened : try_block info ≡ try_with info (some meta) = ap (try_with info) e in
      elim (Bool-cases (counts_match meta info.transactions_count info.entries_count)) [
        | inl t ↦ inl (
          same ∙ t,
          ap (λ p. p.0.block_created) opened ∙ rw t refl,
          (
            block_of info meta,
            ap (λ p. p.1) opened ∙ rw t refl,
            block_of-Assembled seen info meta c e,
          ),
        )
        | inr f ↦ inr (same ∙ f, opened ∙ rw f refl)
      ]
]

-- One round of `get_block_message` before the block.
store_and_try_eq :
    (info : SlotInfo) (m : Message) {stored : SlotInfo}
    → store_message info m ≡ ok stored
    → store_and_try info m
      ≡ ok (record { info = (try_block stored).0; block = (try_block stored).1; report = none })
unfolding store_and_try
store_and_try_eq info m e = rw (e, store_and_try) refl

abbrev Result : List Message → SlotInfo → List Message → Type 0
Result seen info ms =
    (info' : SlotInfo) × (blocks : List MessageBlock) × (collect info ms ≡ ok (info', blocks))
    × Made (first_complete seen ms) blocks

collect-Made_from :
    (seen : List Message) (info : SlotInfo) (ms : List Message)
    → Collects seen info
    → All NotBlock ms
    → Result seen info ms
unfolding first_complete collect cons_some Tried
collect-Made_from seen info [] c nb = (info, [], refl, refl)
collect-Made_from seen info (m ∷ ms) c nb =
    let landed = mark_landed-Collects seen info m c in
    let (stored, e, c') = store_message-Collects seen (mark_landed info m) m nb.0 landed in
    let called =
      get_block_message_uncreated info m c.uncreated ∙ store_and_try_eq (mark_landed info m) m e in
    by_try stored called (collect-Made_from (seen ++ (m ∷ [])) stored ms c' nb.1)
      (try_block-Tried (seen ++ (m ∷ [])) stored c')
  where
    by_try :
        (stored : SlotInfo)
        → get_block_message info m
          ≡ ok (record { info = (try_block stored).0; block = (try_block stored).1; report = none })
        → Result (seen ++ (m ∷ [])) stored ms
        → Tried (seen ++ (m ∷ [])) stored
        → Result seen info (m ∷ ms)
    by_try stored called later (inl (whole, created, (b, made, good))) =
        let rest = collect_created (try_block stored).0 ms created in
        (
          rest.0,
          b ∷ [],
          collect_step info m ms called rest.1 ∙ ap (λ o. ok (rest.0, cons_some o [])) made,
          rw whole (b, refl, good),
        )
    by_try stored called (info', blocks, run, made) (inr (part, same)) = (
      info',
      blocks,
      collect_step info m ms called
            (ap (λ (p : SlotInfo × Option MessageBlock). collect p.0 ms) same ∙ run)
          ∙ ap (λ (p : SlotInfo × Option MessageBlock). ok (info', cons_some p.1 blocks)) same,
      rw part made,
    )

-- From a new `SlotInfo`, messages of a slot that are no blocks are taken without a panic. If no
-- beginning of theirs is complete, no block is made. Otherwise one block is made, of the shortest
-- complete beginning: it has all transactions and entries of that beginning in their order and
-- the last metadata, each of its accounts came, and for each account that came it has one of the
-- same key that is no older. Complete is what has as many transactions and entries as its last
-- metadata says.
pub collect-Made :
    (slot : ℕ) (ms : List Message)
    → All NotBlock ms
    → (info : SlotInfo) × (blocks : List MessageBlock) × (collect (slot_info_new slot) ms
        ≡ ok (info, blocks))
      × Made (first_complete [] ms) blocks
collect-Made slot ms nb =
    collect-Made_from [] (slot_info_new slot) ms (slot_info_new-Collects slot) nb
