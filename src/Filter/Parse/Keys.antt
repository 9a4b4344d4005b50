-- ===== src/Filter/Parse/Keys.antt =====
-- The account keys of a transaction, `gen_account_keys_prost` of filter/src/message.rs.
use mathlib.Core.List.{Memᴰ}
use mathlib.Core.List.Memᴰ
use dragonmouth.Base.{
  ◌≡◌, refl, sym, subst, ◌↔◌, ◌⊎◌, inl, inr, true, List, [], ◌∷◌, ◌++◌, some, arith, ◌==◌, length,
  All, Bool-cases,
}
use dragonmouth.Plugin.Message.{Bytes}
use dragonmouth.Filter.Sets.{contains}
use dragonmouth.Filter.Selects.{contains-Mem, false-true}
use dragonmouth.Filter.Parse.{
  parsed, ◌>>=◌, insert_key, add_keys, static_keys, Transaction, SubscribeUpdateTransactionInfo,
  TransactionStatusMeta, gen_account_keys, pubkey_bytes,
}

abbrev pub IsKey : Bytes → Type 0
IsKey key = length key ≡ 32

abbrev pub Distinct : List Bytes → Type 0
Distinct [] = Unit
Distinct (k ∷ ks) = (Memᴰ k ks → ⊥) × Distinct ks

concat-Distinct :
    (ks : List Bytes) (k : Bytes) → Distinct ks → (Memᴰ k ks → ⊥) → Distinct (ks ++ (k ∷ []))
concat-Distinct [] k d n = (Memᴰ.not-nil, tt)
concat-Distinct (j ∷ ks) k d n = (
  λ m. elim (Memᴰ.append_cases ks m) [
    | inl old ↦ d.0 old
    | inr (Memᴰ.head e) ↦ n (Memᴰ.head (sym e))
    | inr (Memᴰ.tail t) ↦ Memᴰ.not-nil t
  ],
  concat-Distinct ks k d.1 (λ m. n (Memᴰ.tail m)),
)

insert_key-Distinct : (ks : List Bytes) (k : Bytes) → Distinct ks → Distinct (insert_key ks k)
unfolding insert_key
insert_key-Distinct ks k d = elim (Bool-cases (contains ks k)) [
  | inl e ↦ rw (e, insert_key) d
  | inr e ↦
      rw (e, insert_key) (concat-Distinct ks k d (λ m. false-true ((contains-Mem ks k).1 m) e))
]

insert_key-Mem : (ks : List Bytes) (k j : Bytes) → Memᴰ j (insert_key ks k) ↔ (Memᴰ j ks ⊎ (j ≡ k))
unfolding insert_key
insert_key-Mem ks k j = elim (Bool-cases (contains ks k)) [
  | inl e ↦
      rw (e, insert_key)
        (
          inl,
          λ s. elim s [
            | inl m ↦ m
            | inr q ↦ subst (λ x. Memᴰ x ks) (sym q) ((contains-Mem ks k).0 e)
          ],
        )
  | inr e ↦
      rw (e, insert_key)
        (
          λ m. elim (Memᴰ.append_cases ks m) [
            | inl old ↦ inl old
            | inr (Memᴰ.head q) ↦ inr q
            | inr (Memᴰ.tail t) ↦ absurd (Memᴰ.not-nil t)
          ],
          λ s. elim s [
            | inl m ↦ Memᴰ.append_left (k ∷ []) m
            | inr q ↦ Memᴰ.append_right ks (Memᴰ.head q)
          ],
        )
]

abbrev Adds : List Bytes → List Bytes → List Bytes → Type 0
Adds ks more r = Distinct r × ((j : Bytes) → Memᴰ j r ↔ (Memᴰ j ks ⊎ Memᴰ j more))

add_keys-Adds :
    (ks more : List Bytes)
    → Distinct ks
    → All IsKey more
    → (r : List Bytes) × (add_keys ks more ≡ parsed r) × Adds ks more r
unfolding add_keys
add_keys-Adds ks [] d a =
    (ks, refl, (d, λ j. (inl, λ s. elim s [ inl m ↦ m | inr m ↦ absurd (Memᴰ.not-nil m) ])))
add_keys-Adds ks (k ∷ more) d a =
    let (r, e, (d', mem)) = add_keys-Adds (insert_key ks k) more (insert_key-Distinct ks k d) a.1 in
    let long : (length k == pubkey_bytes) ≡ true = ground (arith, a.0) in
    (r, rw long e, (d', λ j. (there j (mem j).0, back j (mem j).1)))
  where
    there :
        (j : Bytes) {r : List Bytes}
        → (Memᴰ j r → Memᴰ j (insert_key ks k) ⊎ Memᴰ j more)
        → Memᴰ j r
        → Memᴰ j ks ⊎ Memᴰ j (k ∷ more)
    there j f m = elim (f m) [
      | inl i ↦ elim ((insert_key-Mem ks k j).0 i) [ inl old ↦ inl old | inr q ↦ inr (Memᴰ.head q) ]
      | inr l ↦ inr (Memᴰ.tail l)
    ]

    back :
        (j : Bytes) {r : List Bytes}
        → (Memᴰ j (insert_key ks k) ⊎ Memᴰ j more → Memᴰ j r)
        → Memᴰ j ks ⊎ Memᴰ j (k ∷ more)
        → Memᴰ j r
    back j f (inl old) = f (inl ((insert_key-Mem ks k j).1 (inl old)))
    back j f (inr (Memᴰ.head q)) = f (inl ((insert_key-Mem ks k j).1 (inr q)))
    back j f (inr (Memᴰ.tail l)) = f (inr l)

-- The account keys of a transaction whose keys all have 32 bytes are made without an error: no key
-- stands twice, and they are exactly the keys of its message, which may be missing, and the loaded
-- writable and read-only addresses.
pub gen_account_keys-Distinct :
    (info : SubscribeUpdateTransactionInfo) (status : TransactionStatusMeta) (body : Transaction)
    → info.transaction ≡ some body
    → All IsKey (static_keys body.message)
    → All IsKey status.loaded_writable_addresses
    → All IsKey status.loaded_readonly_addresses
    → (keys : List Bytes) × (gen_account_keys info status ≡ parsed keys)
      × Distinct keys
      × ((j : Bytes)
          → Memᴰ j keys ↔ (
              Memᴰ j (static_keys body.message)
              ⊎ Memᴰ j status.loaded_writable_addresses
              ⊎ Memᴰ j status.loaded_readonly_addresses))
unfolding gen_account_keys
gen_account_keys-Distinct info status body given a b c =
    let (k₁, e₁, (d₁, m₁)) = add_keys-Adds [] (static_keys body.message) tt a in
    let (k₂, e₂, (d₂, m₂)) = add_keys-Adds k₁ status.loaded_writable_addresses d₁ b in
    let (k₃, e₃, (d₃, m₃)) = add_keys-Adds k₂ status.loaded_readonly_addresses d₂ c in
    (
      k₃,
      rw (given, gen_account_keys) (rw (e₁, ◌>>=◌) (rw (e₂, ◌>>=◌) e₃)),
      d₃,
      λ j. (
        λ m. elim ((m₃ j).0 m) [
          | inl x ↦ elim ((m₂ j).0 x) [
            | inl y ↦ elim ((m₁ j).0 y) [ inl z ↦ absurd (Memᴰ.not-nil z) | inr z ↦ inl z ]
            | inr y ↦ inr (inl y)
          ]
          | inr x ↦ inr (inr x)
        ],
        λ s. elim s [
          | inl x ↦ (m₃ j).1 (inl ((m₂ j).1 (inl ((m₁ j).1 (inr x)))))
          | inr (inl x) ↦ (m₃ j).1 (inl ((m₂ j).1 (inr x)))
          | inr (inr x) ↦ (m₃ j).1 (inr x)
        ],
      ),
    )
