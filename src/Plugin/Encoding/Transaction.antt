-- ===== src/Plugin/Encoding/Transaction.antt =====
-- The wrappers of the transaction itself, of
-- plugin-agave/src/protobuf/encoding/transaction.rs.
use dragonmouth.Base.{ℕ, ◌+◌, ◌==◌, not, [], if◌then◌else◌}
use dragonmouth.Plugin.Message.{Bytes}
use dragonmouth.Plugin.Transaction.{TransactionInfo}
use dragonmouth.Plugin.Encoding.{Crates, Fits, ◌⨾◌, fits, message, bytes_encode, bytes_encoded_len}
use dragonmouth.Plugin.Encoding.Sanitized.{
  sanitized_encode_raw, sanitized_encoded_len, sanitized-Fits,
}
use dragonmouth.Plugin.Encoding.Meta.{meta_buffer, meta_encode_raw, meta_encoded_len, meta-Fits}

module _ (c : Crates) {E : Type 0} (serialize : E → Bytes) where
  -- The buffer after `encoded_len`.
  unfoldable pub info_buffer : TransactionInfo E → Bytes → Bytes
  info_buffer t buffer = meta_buffer c serialize t.status_meta buffer

  unfoldable pub info_encode_raw : TransactionInfo E → Bytes → Bytes
  info_encode_raw t buffer =
      bytes_encode c 1 t.signature.as_ref
      ⨾ (if t.is_vote then c.bool.encode 2 t.is_vote else [])
      ⨾ c.encode 3
          (message (sanitized_encode_raw c t.transaction) (sanitized_encoded_len c t.transaction))
      ⨾ c.encode 4 (
          message
            (meta_encode_raw c serialize t.status_meta
              (meta_buffer c serialize t.status_meta buffer))
            (meta_encoded_len c serialize t.status_meta))
      ⨾ (if not (t.index == 0) then c.uint64.encode 5 t.index else [])

  unfoldable pub info_encoded_len : TransactionInfo E → ℕ
  info_encoded_len t =
      bytes_encoded_len c 1 t.signature.as_ref
      + (if t.is_vote then c.bool.encoded_len 2 t.is_vote else 0)
      + c.encoded_len 3 (sanitized_encoded_len c t.transaction)
      + c.encoded_len 4 (meta_encoded_len c serialize t.status_meta)
      + (if not (t.index == 0) then c.uint64.encoded_len 5 t.index else 0)

  pub info-Fits :
      (t : TransactionInfo E) (buffer : Bytes)
      → Fits (info_encode_raw t buffer) (info_encoded_len t)
  unfolding info_encode_raw info_encoded_len
  info-Fits t buffer = search (fits, c.uint64.fits, c.bool.fits, sanitized-Fits, meta-Fits) depth 40

  unfoldable pub transaction_encode_raw : ℕ → TransactionInfo E → Bytes → Bytes
  transaction_encode_raw slot t buffer =
      c.encode 1 (message (info_encode_raw t (info_buffer t buffer)) (info_encoded_len t))
      ⨾ (if not (slot == 0) then c.uint64.encode 2 slot else [])

  unfoldable pub transaction_encoded_len : ℕ → TransactionInfo E → ℕ
  transaction_encoded_len slot t =
      c.encoded_len 1 (info_encoded_len t)
      + (if not (slot == 0) then c.uint64.encoded_len 2 slot else 0)

  pub transaction-Fits :
      (slot : ℕ) (t : TransactionInfo E) (buffer : Bytes)
      → Fits (transaction_encode_raw slot t buffer) (transaction_encoded_len slot t)
  unfolding transaction_encode_raw transaction_encoded_len
  transaction-Fits slot t buffer = search (fits, c.uint64.fits, info-Fits) depth 40
