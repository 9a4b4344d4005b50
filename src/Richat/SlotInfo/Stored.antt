-- ===== src/Richat/SlotInfo/Stored.antt =====
-- The deduplication of accounts in `SlotInfo::get_block_message`: what the map of keys says of the
-- messages that are kept.
use mathlib.Core.List.{Memᴰ}
use mathlib.Core.List.Memᴰ
use dragonmouth.Base.{
  ℕ, ◌≤◌, ◌<◌, ◌≡◌, ◌≢◌, refl, sym, ap, ◌∙◌, subst, inl, inr, true, false, List, [], ◌∷◌, ◌++◌,
  append-nil, Option, none, some, length, get_elem?, set, arith, Bool-cases, get_elem?-set_ne,
}
use dragonmouth.Plugin.Message.{Bytes}
use dragonmouth.Filter.Sets.{bytes_eq, bytes_eq_sound, bytes_eq_self}
use dragonmouth.Filter.Message.{MessageAccount, Message, account_message}
use dragonmouth.Richat.SlotInfo.{Dedup, lookup, put, gather, cons_some, get_account}
use dragonmouth.Richat.SlotInfo.Gather.{
  pick, pick-append, gather-append, gather-set_sub, get_elem?-append_left, get_elem?-append_last,
}

abbrev Items : Type 0
Items = List (Option Message)

-- The account at an index, by its key and version.
abbrev IndexedAt : Items → Bytes → ℕ → ℕ → Type 0
IndexedAt messages k v i =
    (a : MessageAccount) × (get_elem? messages i ≡ some (some (account_message a)))
    × (a.pubkey ≡ k)
    × (a.write_version ≡ v)

-- Every kept account came; of each key that came the map has a version that is not exceeded, and
-- the map leads to the account of that version.
pub record Accounts (seen : List Message) (messages : List (Option Message)) (m : Dedup)
    : Type 0 where
  pub came :
      (a : MessageAccount) → Memᴰ a (gather get_account messages) → Memᴰ a (pick get_account seen)
  pub newest :
      (a : MessageAccount)
      → Memᴰ a (pick get_account seen)
      → (v : ℕ) × (i : ℕ) × (lookup a.pubkey m ≡ some (v, i)) × (a.write_version ≤ v)
  pub indexed :
      (k : Bytes) (v i : ℕ)
      → lookup k m ≡ some (v, i)
      → (a : MessageAccount) × (get_elem? messages i ≡ some (some (account_message a)))
        × (a.pubkey ≡ k)
        × (a.write_version ≡ v)

pub Accounts-nil : Accounts [] [] []
unfolding gather pick lookup
Accounts-nil = record {
  came = λ a h. h;
  newest = λ a h. absurd (Memᴰ.not-nil h);
  indexed = λ k v i e. cc;
}

-- A message of another kind, kept or not.
module _ (seen : List Message) (messages : Items) (m : Dedup) (n : Message)
    (acc : Accounts seen messages m) (other : get_account n ≡ none) where
  pick_other : pick get_account (seen ++ (n ∷ [])) ≡ pick get_account seen
  unfolding pick cons_some
  pick_other =
      pick-append get_account seen (n ∷ [])
      ∙ ap (λ o. pick get_account seen ++ cons_some o []) other
      ∙ append-nil (pick get_account seen)

  gather_other : gather get_account (messages ++ (some n ∷ [])) ≡ gather get_account messages
  unfolding gather cons_some
  gather_other =
      gather-append get_account messages (some n ∷ [])
      ∙ ap (λ o. gather get_account messages ++ cons_some o []) other
      ∙ append-nil (gather get_account messages)

  pub Accounts-skip : Accounts (seen ++ (n ∷ [])) messages m
  Accounts-skip = record {
    came = λ a h. subst (λ l. Memᴰ a l) (sym pick_other) (acc.came a h);
    newest = λ a h. acc.newest a (subst (λ l. Memᴰ a l) pick_other h);
    indexed = acc.indexed;
  }

  pub Accounts-keep : Accounts (seen ++ (n ∷ [])) (messages ++ (some n ∷ [])) m
  Accounts-keep = record {
    came = λ a h.
        subst (λ l. Memᴰ a l) (sym pick_other) (acc.came a (subst (λ l. Memᴰ a l) gather_other h));
    newest = λ a h. acc.newest a (subst (λ l. Memᴰ a l) pick_other h);
    indexed = λ k v i e.
        let at = acc.indexed k v i e in
        (at.0, get_elem?-append_left messages (some n ∷ []) i at.1, at.2, at.3);
  }

get_elem?-length : (xs : Items) → get_elem? xs (length xs) ≡ none
get_elem?-length [] = refl
get_elem?-length (x ∷ xs) = get_elem?-length xs

pair_inj : {a b c d : ℕ} → ◌≡◌ {A = Option (ℕ × ℕ)} (some (a, b)) (some (c, d)) → (a ≡ c) × (b ≡ d)
pair_inj e = (cc, cc)

lookup-put_same :
    (j k : Bytes) (v : ℕ × ℕ) (m : Dedup) → bytes_eq j k ≡ true → lookup k (put j v m) ≡ some v
unfolding lookup
lookup-put_same j k v m e = rw (lookup, e) refl

lookup-put_other :
    (j k : Bytes) (v : ℕ × ℕ) (m : Dedup) → bytes_eq j k ≡ false → lookup k (put j v m) ≡ lookup k m
unfolding lookup
lookup-put_other j k v m e = rw (lookup, e) refl

-- An account that is kept behind the others.
module _ (seen : List Message) (messages : Items) (m : Dedup) (n : MessageAccount)
    (acc : Accounts seen messages m) where
  abbrev appended : Items
  appended = messages ++ (some (account_message n) ∷ [])

  pick_account :
      pick get_account (seen ++ (account_message n ∷ [])) ≡ pick get_account seen ++ (n ∷ [])
  unfolding pick cons_some get_account
  pick_account = pick-append get_account seen (account_message n ∷ [])

  came_append :
      (a : MessageAccount)
      → Memᴰ a (gather get_account appended)
      → Memᴰ a (pick get_account (seen ++ (account_message n ∷ [])))
  unfolding gather cons_some get_account
  came_append a h =
      subst (λ l. Memᴰ a l) (sym pick_account)
        (elim (Memᴰ.append_cases (gather get_account messages) (
          subst (λ l. Memᴰ a l) (gather-append get_account messages (some (account_message n) ∷ []))
            h)) [
              | inl old ↦ Memᴰ.append_left (n ∷ []) (acc.came a old)
              | inr new ↦ Memᴰ.append_right (pick get_account seen) new
            ])

  -- The key's version is not exceeded: the map stays.
  pub Accounts-stale :
      (v i : ℕ)
      → lookup n.pubkey m ≡ some (v, i)
      → n.write_version ≤ v
      → Accounts (seen ++ (account_message n ∷ [])) (messages ++ (some (account_message n) ∷ [])) m
  Accounts-stale v i found stale = record {
    came = came_append;
    newest = λ a h.
        elim (Memᴰ.append_cases (pick get_account seen) (subst (λ l. Memᴰ a l) pick_account h)) [
          | inl old ↦ acc.newest a old
          | inr (Memᴰ.head e) ↦ (
            v,
            i,
            subst (λ (b : MessageAccount). lookup b.pubkey m ≡ some (v, i)) (sym e) found,
            subst (λ (b : MessageAccount). b.write_version ≤ v) (sym e) stale,
          )
          | inr (Memᴰ.tail none_left) ↦ absurd (Memᴰ.not-nil none_left)
        ];
    indexed = λ k w j e.
        let at = acc.indexed k w j e in (at.0, get_elem?-append_left messages _ j at.1, at.2, at.3);
  }

  abbrev newer : Dedup
  newer = put n.pubkey (n.write_version, length messages) m

  newest_put :
      ((v i : ℕ) → lookup n.pubkey m ≡ some (v, i) → v ≤ n.write_version)
      → (a : MessageAccount) → Memᴰ a (pick get_account (seen ++ (account_message n ∷ [])))
      → (v : ℕ) × (i : ℕ) × (lookup a.pubkey newer ≡ some (v, i)) × (a.write_version ≤ v)
  newest_put older a h =
      elim (Memᴰ.append_cases (pick get_account seen) (subst (λ l. Memᴰ a l) pick_account h)) [
        | inl old ↦ before (acc.newest a old)
        | inr (Memᴰ.head e) ↦ (
          n.write_version,
          length messages,
          lookup-put_same n.pubkey a.pubkey _ m (
              subst (λ (b : MessageAccount). bytes_eq n.pubkey b.pubkey ≡ true) (sym e)
                (bytes_eq_self n.pubkey)),
          subst (λ (b : MessageAccount). b.write_version ≤ n.write_version) (sym e) (omega arith),
        )
        | inr (Memᴰ.tail none_left) ↦ absurd (Memᴰ.not-nil none_left)
      ]
    where
      before :
          ((v : ℕ) × (i : ℕ) × (lookup a.pubkey m ≡ some (v, i)) × (a.write_version ≤ v))
          → (v : ℕ) × (i : ℕ) × (lookup a.pubkey newer ≡ some (v, i)) × (a.write_version ≤ v)
      before (v, i, e, le) = elim (Bool-cases (bytes_eq n.pubkey a.pubkey)) [
        | inl same ↦ (
          n.write_version,
          length messages,
          lookup-put_same n.pubkey a.pubkey _ m same,
          let bound =
                older v i (ap (λ k. lookup k m) (bytes_eq_sound n.pubkey a.pubkey same) ∙ e) in
              omega arith,
        )
        | inr differs ↦ (v, i, lookup-put_other n.pubkey a.pubkey _ m differs ∙ e, le)
      ]

  -- The map leads to the new account, and elsewhere to where it led.
  indexed_put :
      (kept : Items)
      → (get_elem? kept (length messages) ≡ some (some (account_message n)))
      → ((k : Bytes) (v i : ℕ)
          → bytes_eq n.pubkey k ≡ false
          → IndexedAt messages k v i
          → IndexedAt kept k v i)
      → (k : Bytes) (v i : ℕ) → lookup k newer ≡ some (v, i)
      → IndexedAt kept k v i
  indexed_put kept there old k v i e = elim (Bool-cases (bytes_eq n.pubkey k)) [
    | inl same ↦
        let eq = pair_inj (sym (lookup-put_same n.pubkey k _ m same) ∙ e) in
        (
          n,
          subst (λ j. get_elem? kept j ≡ some (some (account_message n))) eq.1 there,
          bytes_eq_sound n.pubkey k same,
          eq.0,
        )
    | inr differs ↦
        old k v i differs (acc.indexed k v i (sym (lookup-put_other n.pubkey k _ m differs) ∙ e))
  ]

  pub Accounts-first :
      lookup n.pubkey m ≡ none
      → Accounts
          (seen ++ (account_message n ∷ []))
          (messages ++ (some (account_message n) ∷ []))
          (put n.pubkey (n.write_version, length messages) m)
  Accounts-first missing = record {
    came = came_append;
    newest = newest_put (λ v i e. cc);
    indexed =
        indexed_put appended (get_elem?-append_last messages (some (account_message n)))
          (λ k v i differs at. (at.0, get_elem?-append_left messages _ i at.1, at.2, at.3));
  }

  pub Accounts-newer :
      (v i : ℕ)
      → lookup n.pubkey m ≡ some (v, i)
      → v < n.write_version
      → Accounts
          (seen ++ (account_message n ∷ []))
          (set (messages ++ (some (account_message n) ∷ [])) i none)
          (put n.pubkey (n.write_version, length messages) m)
  Accounts-newer v i found less = record {
    came = λ a h. came_append a (gather-set_sub get_account appended i a h);
    newest = newest_put (λ w j e.
        let eq : some (v, i) ≡ some (w, j) = sym found ∙ e in let p : v ≡ w = cc in omega arith);
    indexed =
        indexed_put (set appended i none)
          (get_elem?-set_ne appended i (length messages) none
              (λ e. cc (here.1, get_elem?-length messages, e))
            ∙ get_elem?-append_last messages (some (account_message n)))
          (λ k w j differs at. (
            at.0,
            get_elem?-set_ne appended i j none (λ e. apart k w j differs at e)
                ∙ get_elem?-append_left messages _ j at.1,
            at.2,
            at.3,
          ));
  }
    where
      here : IndexedAt messages n.pubkey v i
      here = acc.indexed n.pubkey v i found

      apart : (k : Bytes) (w j : ℕ) → bytes_eq n.pubkey k ≡ false → IndexedAt messages k w j → i ≢ j
      apart k w j differs at e =
          let one : some (some (account_message here.0)) ≡ some (some (account_message at.0)) =
            sym here.1 ∙ ap (λ p. get_elem? messages p) e ∙ at.1 in
          let same : here.0 ≡ at.0 = cc in
          let keys : n.pubkey ≡ k =
            sym here.2 ∙ ap (λ (b : MessageAccount). b.pubkey) same ∙ at.2 in
          let clash : bytes_eq n.pubkey k ≡ true =
            subst (λ p. bytes_eq n.pubkey p ≡ true) keys (bytes_eq_self n.pubkey) in
          cc
