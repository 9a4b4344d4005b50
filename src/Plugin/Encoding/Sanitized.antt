-- ===== src/Plugin/Encoding/Sanitized.antt =====
-- The wrappers of the transaction's message, of
-- plugin-agave/src/protobuf/encoding/transaction.rs.
use dragonmouth.Base.{
  ℕ, suc, ◌+◌, ◌*◌, List, [], ◌∷◌, if◌then◌else◌, Bool, true, false, map, length, subst, arith,
}
use dragonmouth.Plugin.Message.{Bytes}
use dragonmouth.Plugin.Transaction.{
  Array, Signature, Pubkey, SanitizedMessage, legacy, v0, SanitizedTransaction,
}
use dragonmouth.Plugin.Encoding.{
  Crates, Fits, ◌⨾◌, fits, Fits-then, Fits-bytes, bytes_len, message, messages, bytes_encode,
  bytes_encoded_len,
}
use dragonmouth.Plugin.Encoding.Instruction.{
  header_encode_raw, header_encoded_len, header-Fits, compiled_encode_raw, compiled_encoded_len,
  compiled-Fits, lookup_encode_raw, lookup_encoded_len, lookup-Fits,
}

Fits-cons : {xs ys : Bytes} (k n : ℕ) → Fits xs k → Fits ys (k * n) → Fits (xs ⨾ ys) (k * suc n)
Fits-cons {xs} {ys} k n p q = subst (λ m. Fits (xs ⨾ ys) m) (grind arith) (Fits-then p q)

module _ (c : Crates) where
  -- Every array of one size takes as many bytes.
  Fits-array :
      (tag n : ℕ) (x : Array n)
      → Fits (bytes_encode c tag x.as_ref) (c.key_len tag + c.encoded_len_varint n + n)
  Fits-array tag n x =
      subst (λ m. Fits (bytes_encode c tag x.as_ref) (c.key_len tag + c.encoded_len_varint m + m))
        x.size
        (subst (λ m. Fits (bytes_encode c tag x.as_ref) m) (bytes_len c tag x.as_ref)
          (Fits-bytes c tag x.as_ref))

  unfoldable pub signatures_encode : ℕ → List Signature → Bytes
  signatures_encode tag [] = []
  signatures_encode tag (x ∷ xs) = bytes_encode c tag x.as_ref ⨾ signatures_encode tag xs

  unfoldable pub signatures_encoded_len : ℕ → List Signature → ℕ
  signatures_encoded_len tag xs = (c.key_len tag + c.encoded_len_varint 64 + 64) * length xs

  pub signatures-Fits :
      (tag : ℕ) (xs : List Signature)
      → Fits (signatures_encode tag xs) (signatures_encoded_len tag xs)
  unfolding signatures_encode signatures_encoded_len
  signatures-Fits tag [] = record { size = omega arith }
  signatures-Fits tag (x ∷ xs) =
      Fits-cons (c.key_len tag + c.encoded_len_varint 64 + 64) (length xs) (Fits-array tag 64 x)
        (signatures-Fits tag xs)

  unfoldable pub pubkeys_encode : ℕ → List Pubkey → Bytes
  pubkeys_encode tag [] = []
  pubkeys_encode tag (x ∷ xs) = bytes_encode c tag x.as_ref ⨾ pubkeys_encode tag xs

  unfoldable pub pubkeys_encoded_len : ℕ → List Pubkey → ℕ
  pubkeys_encoded_len tag xs = (c.key_len tag + c.encoded_len_varint 32 + 32) * length xs

  pub pubkeys-Fits :
      (tag : ℕ) (xs : List Pubkey) → Fits (pubkeys_encode tag xs) (pubkeys_encoded_len tag xs)
  unfolding pubkeys_encode pubkeys_encoded_len
  pubkeys-Fits tag [] = record { size = omega arith }
  pubkeys-Fits tag (x ∷ xs) =
      Fits-cons (c.key_len tag + c.encoded_len_varint 32 + 32) (length xs) (Fits-array tag 32 x)
        (pubkeys-Fits tag xs)

  unfoldable pub versioned_encode : ℕ → Bool → Bytes
  versioned_encode tag versioned = if versioned then c.bool.encode tag versioned else []

  unfoldable pub versioned_encoded_len : ℕ → Bool → ℕ
  versioned_encoded_len tag versioned = if versioned then c.bool.encoded_len tag versioned else 0

  versioned-Fits :
      (tag : ℕ) (v : Bool) → Fits (versioned_encode tag v) (versioned_encoded_len tag v)
  unfolding versioned_encode versioned_encoded_len
  versioned-Fits tag v = search (fits, c.bool.fits) depth 24

  unfoldable pub message_encode_raw : SanitizedMessage → Bytes
  message_encode_raw (legacy b) =
      c.encode 1 (message (header_encode_raw c b.header) (header_encoded_len c b.header))
      ⨾ pubkeys_encode 2 b.account_keys
      ⨾ bytes_encode c 3 b.recent_blockhash.as_ref
      ⨾ c.encode_repeated 4
          (messages (compiled_encode_raw c) (compiled_encoded_len c) b.instructions)
      ⨾ versioned_encode 5 false
      ⨾ c.encode_repeated 6 (messages (lookup_encode_raw c) (lookup_encoded_len c) [])
  message_encode_raw (v0 b lookups) =
      c.encode 1 (message (header_encode_raw c b.header) (header_encoded_len c b.header))
      ⨾ pubkeys_encode 2 b.account_keys
      ⨾ bytes_encode c 3 b.recent_blockhash.as_ref
      ⨾ c.encode_repeated 4
          (messages (compiled_encode_raw c) (compiled_encoded_len c) b.instructions)
      ⨾ versioned_encode 5 true
      ⨾ c.encode_repeated 6 (messages (lookup_encode_raw c) (lookup_encoded_len c) lookups)

  unfoldable pub message_encoded_len : SanitizedMessage → ℕ
  message_encoded_len (legacy b) =
      c.encoded_len 1 (header_encoded_len c b.header)
      + pubkeys_encoded_len 2 b.account_keys
      + bytes_encoded_len c 3 b.recent_blockhash.as_ref
      + c.encoded_len_repeated 4 (map (compiled_encoded_len c) b.instructions)
      + versioned_encoded_len 5 false
      + c.encoded_len_repeated 6 (map (lookup_encoded_len c) [])
  message_encoded_len (v0 b lookups) =
      c.encoded_len 1 (header_encoded_len c b.header)
      + pubkeys_encoded_len 2 b.account_keys
      + bytes_encoded_len c 3 b.recent_blockhash.as_ref
      + c.encoded_len_repeated 4 (map (compiled_encoded_len c) b.instructions)
      + versioned_encoded_len 5 true
      + c.encoded_len_repeated 6 (map (lookup_encoded_len c) lookups)

  message-Fits : (m : SanitizedMessage) → Fits (message_encode_raw m) (message_encoded_len m)
  unfolding message_encode_raw message_encoded_len
  message-Fits (legacy b) =
      search (fits, header-Fits, compiled-Fits, lookup-Fits, pubkeys-Fits, versioned-Fits) depth 40
  message-Fits (v0 b lookups) =
      search (fits, header-Fits, compiled-Fits, lookup-Fits, pubkeys-Fits, versioned-Fits) depth 40

  unfoldable pub sanitized_encode_raw : SanitizedTransaction → Bytes
  sanitized_encode_raw t =
      signatures_encode 1 t.signatures
      ⨾ c.encode 2 (message (message_encode_raw t.contents) (message_encoded_len t.contents))

  unfoldable pub sanitized_encoded_len : SanitizedTransaction → ℕ
  sanitized_encoded_len t =
      signatures_encoded_len 1 t.signatures + c.encoded_len 2 (message_encoded_len t.contents)

  pub sanitized-Fits :
      (t : SanitizedTransaction) → Fits (sanitized_encode_raw t) (sanitized_encoded_len t)
  unfolding sanitized_encode_raw sanitized_encoded_len
  sanitized-Fits t = search (fits, signatures-Fits, message-Fits) depth 40
