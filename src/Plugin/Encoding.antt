-- ===== src/Plugin/Encoding.antt =====
-- What plugin-agave/src/protobuf/encoding takes from other crates, and how it puts fields on a buffer.
pub mod Slot
pub mod Digits
pub mod Reward
pub mod Account
pub mod Entry
pub mod BlockMeta
pub mod Instruction
pub mod Token
pub mod Sanitized
pub mod Meta
pub mod Transaction
pub mod Vector
pub mod Decimal
mod Tests
use dragonmouth.Base.{
  ℕ, zero, suc, ◌+◌, ◌*◌, ◌≡◌, refl, Bool, true, false, List, [], ◌∷◌, Option, none, some, ◌++◌,
  length, length-append, All, if◌then◌else◌, map, ap, subst, is_empty, arith,
}
use dragonmouth.Plugin.Message.{Bytes}

-- `n` counts the bytes.
pub record Fits (xs : Bytes) (n : ℕ) : Type 0 where
  pub size : length xs ≡ n

-- The encoding of a field with a tag, and its length, as a module of `prost::encoding` has them.
pub record Codec (A : Type 0) : Type 0 where
  pub encode : ℕ → A → Bytes
  pub encoded_len : ℕ → A → ℕ
  pub fits : (tag : ℕ) (value : A) → Fits (encode tag value) (encoded_len tag value)

-- A value with the trait `prost::Message`, as its two methods see it.
pub record Encoded : Type 0 where
  pub encode_raw : Bytes
  pub encoded_len : ℕ

abbrev pub IsEncoded : Encoded → Type 0
IsEncoded m = Fits m.encode_raw m.encoded_len

-- The crates `prost` and `yellowstone_grpc_proto`. A law says that `encode` writes as many bytes as
-- `encoded_len` counts; for a message, if that holds of the message.
pub record Crates : Type 1 where
  pub uint64 : Codec ℕ
  pub int64 : Codec ℕ
  pub uint32 : Codec ℕ
  pub int32 : Codec ℕ
  pub bool : Codec Bool
  pub double : Codec ℕ
  pub string : Codec Bytes
  pub bytes : Codec Bytes
  pub packed : Codec (List ℕ)
  pub strings : Codec (List Bytes)
  -- `encode_key` with the wire type of length-delimited fields, and `encode_varint`.
  pub encode_key : ℕ → Bytes
  pub key_len : ℕ → ℕ
  pub encode_varint : ℕ → Bytes
  pub encoded_len_varint : ℕ → ℕ
  pub encode : ℕ → Encoded → Bytes
  pub encoded_len : ℕ → ℕ → ℕ
  pub encode_repeated : ℕ → List Encoded → Bytes
  pub encoded_len_repeated : ℕ → List ℕ → ℕ
  -- `CommitmentLevel::default() as i32`.
  pub default_commitment : ℕ
  -- The messages that `convert_to` makes of a number.
  pub create_timestamp : ℕ → Encoded
  pub create_block_height : ℕ → Encoded
  pub create_num_partitions : ℕ → Encoded
  pub key_fits : (tag : ℕ) → Fits (encode_key tag) (key_len tag)
  pub varint_fits : (n : ℕ) → Fits (encode_varint n) (encoded_len_varint n)
  pub encode_fits :
      (tag : ℕ) (m : Encoded) → IsEncoded m → Fits (encode tag m) (encoded_len tag m.encoded_len)
  pub repeated_fits :
      (tag : ℕ) (ms : List Encoded)
      → All IsEncoded ms
      → Fits (encode_repeated tag ms) (encoded_len_repeated tag (map (λ m. m.encoded_len) ms))
  pub timestamp_fits : (n : ℕ) → IsEncoded (create_timestamp n)
  pub block_height_fits : (n : ℕ) → IsEncoded (create_block_height n)
  pub num_partitions_fits : (n : ℕ) → IsEncoded (create_num_partitions n)

-- One write to the buffer, then another.
infixl 30 ◌⨾◌
unfoldable pub ◌⨾◌ : Bytes → Bytes → Bytes
xs ⨾ ys = xs ++ ys

module _ {ℓ κ} {A : Type ℓ} {B : Type κ} where
  abbrev pub map_or : B → (A → B) → Option A → B
  map_or b f none = b
  map_or b f (some a) = f a

pub Fits-then : {xs ys : Bytes} {m n : ℕ} → Fits xs m → Fits ys n → Fits (xs ⨾ ys) (m + n)
unfolding ◌⨾◌
Fits-then {xs} {ys} p q = record { size = rw (← p.size, ← q.size) (length-append xs ys) }

pub Fits-none : Fits [] 0
Fits-none = record { size = refl }

pub Fits-if :
    {xs ys : Bytes} {m n : ℕ} (b : Bool)
    → Fits xs m
    → Fits ys n
    → Fits (if b then xs else ys) (if b then m else n)
Fits-if true p q = p
Fits-if false p q = q

pub Fits-map_or :
    {A : Type 0} {xs : Bytes} {n : ℕ} {f : A → Bytes} {g : A → ℕ}
    → Fits xs n
    → ((a : A) → Fits (f a) (g a))
    → (o : Option A) → Fits (map_or xs f o) (map_or n g o)
Fits-map_or q p none = q
Fits-map_or q p (some a) = p a

module _ (c : Crates) where
  unfoldable pub bytes_encode : ℕ → Bytes → Bytes
  bytes_encode tag value = c.encode_key tag ⨾ c.encode_varint (length value) ⨾ value

  unfoldable pub bytes_encoded_len : ℕ → Bytes → ℕ
  bytes_encoded_len tag value = c.key_len tag + c.encoded_len_varint (length value) + length value

  pub bytes_len :
      (tag : ℕ) (value : Bytes)
      → bytes_encoded_len tag value
        ≡ c.key_len tag + c.encoded_len_varint (length value) + length value
  unfolding bytes_encoded_len
  bytes_len tag value = refl

  pub Fits-bytes :
      (tag : ℕ) (value : Bytes) → Fits (bytes_encode tag value) (bytes_encoded_len tag value)
  unfolding bytes_encode bytes_encoded_len
  Fits-bytes tag value =
      Fits-then (Fits-then (c.key_fits tag) (c.varint_fits (length value))) (record { size = refl })

abbrev pub message : Bytes → ℕ → Encoded
message raw len = record { encode_raw = raw; encoded_len = len }

module _ {A : Type 0} where
  -- A slice of a wrapper's values, with the wrapper's two methods.
  unfoldable pub messages : (A → Bytes) → (A → ℕ) → List A → List Encoded
  messages f g xs = map (λ x. message (f x) (g x)) xs

  messages-lens :
      (f : A → Bytes) (g : A → ℕ) (xs : List A)
      → map (λ m. m.encoded_len) (messages f g xs) ≡ map g xs
  unfolding messages
  messages-lens f g [] = refl
  messages-lens f g (x ∷ xs) = ap (λ ns. g x ∷ ns) (messages-lens f g xs)

  messages-All :
      (f : A → Bytes) (g : A → ℕ)
      → ((x : A) → Fits (f x) (g x))
      → (xs : List A) → All IsEncoded (messages f g xs)
  unfolding messages
  messages-All f g p [] = tt
  messages-All f g p (x ∷ xs) = (p x, messages-All f g p xs)

module _ (c : Crates) where
  pub Fits-message :
      (tag : ℕ) {xs : Bytes} {n : ℕ}
      → Fits xs n
      → Fits (c.encode tag (message xs n)) (c.encoded_len tag n)
  Fits-message tag p = c.encode_fits tag _ p

  pub Fits-messages :
      {A : Type 0} (tag : ℕ) {f : A → Bytes} {g : A → ℕ}
      → ((x : A) → Fits (f x) (g x))
      → (xs : List A)
      → Fits (c.encode_repeated tag (messages f g xs)) (c.encoded_len_repeated tag (map g xs))
  Fits-messages tag {f} {g} p xs =
      subst (λ ns. Fits (c.encode_repeated tag (messages f g xs)) (c.encoded_len_repeated tag ns))
        (messages-lens f g xs) (c.repeated_fits tag (messages f g xs) (messages-All f g p xs))

pub ruleset fits =
    (Fits-then, Fits-none, Fits-if, Fits-map_or, Fits-bytes, Fits-message, Fits-messages)
