-- ===== src/Plugin/Encoding/Vector.antt =====
-- `ProtobufMessage::encode_raw` of plugin-agave/src/protobuf/message.rs, which reserves the bytes of
-- the whole message and then writes it.
use dragonmouth.Base.{ℕ, ◌+◌, length, ◌≡◌, refl}
use dragonmouth.Plugin.Message.{
  Bytes, ProtobufMessage, account_message, slot_message, transaction_message, entry_message,
  block_meta_message,
}
use dragonmouth.Plugin.Transaction.{TransactionInfo}
use dragonmouth.Plugin.Encoding.{Crates, Encoded, IsEncoded, Fits, ◌⨾◌, fits, message}
use dragonmouth.Plugin.Encoding.Slot.{slot_encode_raw, slot_encoded_len, slot-Fits}
use dragonmouth.Plugin.Encoding.Account.{account_encode_raw, account_encoded_len, account-Fits}
use dragonmouth.Plugin.Encoding.Entry.{entry_encode_raw, entry_encoded_len, entry-Fits}
use dragonmouth.Plugin.Encoding.BlockMeta.{
  block_meta_encode_raw, block_meta_encoded_len, block_meta-Fits,
}
use dragonmouth.Plugin.Encoding.Meta.{error_buffer, meta_encode_raw}
use dragonmouth.Plugin.Encoding.Transaction.{
  info_buffer, info_encode_raw, transaction_encode_raw, transaction_encoded_len, transaction-Fits,
}

-- A vector, with the bytes that were reserved for it.
pub record Vector : Type 0 where
  pub reserved : ℕ
  pub contents : Bytes

module _ (c : Crates) {E : Type 0} (serialize : E → Bytes) where
  unfoldable pub body_len : ProtobufMessage (TransactionInfo E) → ℕ
  body_len (account_message slot a) = c.encoded_len 2 (account_encoded_len c slot a)
  body_len (slot_message slot parent status) =
      c.encoded_len 3 (slot_encoded_len c slot parent status)
  body_len (transaction_message slot t) =
      c.encoded_len 4 (transaction_encoded_len c serialize slot t)
  body_len (block_meta_message b) = c.encoded_len 7 (block_meta_encoded_len c b)
  body_len (entry_message e) = c.encoded_len 8 (entry_encoded_len c e)

  -- The thread's `BUFFER` after the lengths are computed.
  unfoldable pub body_buffer : ProtobufMessage (TransactionInfo E) → Bytes → Bytes
  body_buffer (transaction_message slot t) buffer = info_buffer c serialize t buffer
  body_buffer _ buffer = buffer

  unfoldable pub body : ProtobufMessage (TransactionInfo E) → Bytes → Bytes
  body (account_message slot a) buffer =
      c.encode 2 (message (account_encode_raw c slot a) (account_encoded_len c slot a))
  body (slot_message slot parent status) buffer =
      c.encode 3
        (message (slot_encode_raw c slot parent status) (slot_encoded_len c slot parent status))
  body (transaction_message slot t) buffer = c.encode 4 (
      message (transaction_encode_raw c serialize slot t (info_buffer c serialize t buffer))
        (transaction_encoded_len c serialize slot t))
  body (block_meta_message b) buffer =
      c.encode 7 (message (block_meta_encode_raw c b) (block_meta_encoded_len c b))
  body (entry_message e) buffer =
      c.encode 8 (message (entry_encode_raw c e) (entry_encoded_len c e))

  unfoldable pub encode_raw : ProtobufMessage (TransactionInfo E) → Encoded → Bytes → Vector
  encode_raw m created_at buffer = record {
    reserved = body_len m + c.encoded_len 11 created_at.encoded_len;
    contents = body m (body_buffer m buffer) ⨾ c.encode 11 created_at;
  }

  body-Fits :
      (m : ProtobufMessage (TransactionInfo E)) (buffer : Bytes) → Fits (body m buffer) (body_len m)
  unfolding body body_len
  body-Fits (account_message slot a) buffer = search (fits, account-Fits)
  body-Fits (slot_message slot parent status) buffer = search (fits, slot-Fits)
  body-Fits (transaction_message slot t) buffer = search (fits, transaction-Fits)
  body-Fits (block_meta_message b) buffer = search (fits, block_meta-Fits)
  body-Fits (entry_message e) buffer = search (fits, entry-Fits)

  encode_raw-Fits :
      (m : ProtobufMessage (TransactionInfo E)) (created_at : Encoded) (buffer : Bytes)
      → IsEncoded created_at
      → Fits (encode_raw m created_at buffer).contents (encode_raw m created_at buffer).reserved
  unfolding encode_raw
  encode_raw-Fits m created_at buffer h = search (fits, body-Fits, c.encode_fits)

  -- A message fills exactly the bytes reserved for it, so the vector neither grows nor wastes room:
  -- every length that goes before a nested message counts the bytes that follow. The one condition
  -- is that the timestamp, a message of another crate, counts its own bytes.
  pub encode_raw-reserved :
      (m : ProtobufMessage (TransactionInfo E)) (created_at : Encoded) (buffer : Bytes)
      → IsEncoded created_at
      → length (encode_raw m created_at buffer).contents ≡ (encode_raw m created_at buffer).reserved
  encode_raw-reserved m created_at buffer h = (encode_raw-Fits m created_at buffer h).size

  -- The bytes of a message do not depend on what an earlier message left in the thread's `BUFFER`.
  pub encode_raw-fresh :
      (m : ProtobufMessage (TransactionInfo E)) (created_at : Encoded) (b b' : Bytes)
      → encode_raw m created_at b ≡ encode_raw m created_at b'
  unfolding encode_raw body body_buffer transaction_encode_raw info_encode_raw meta_encode_raw
      error_buffer
  encode_raw-fresh (account_message slot a) t b b' = refl
  encode_raw-fresh (slot_message slot parent status) t b b' = refl
  encode_raw-fresh (transaction_message slot x) t b b' = refl
  encode_raw-fresh (block_meta_message x) t b b' = refl
  encode_raw-fresh (entry_message e) t b b' = refl
