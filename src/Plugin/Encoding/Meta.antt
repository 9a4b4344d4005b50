-- ===== src/Plugin/Encoding/Meta.antt =====
-- The wrappers of the transaction's error and of its status, of
-- plugin-agave/src/protobuf/encoding/transaction.rs. `buffer` is the content of the thread's `BUFFER`, which
-- `encoded_len` of an error fills and `encode_raw` reads.
use dragonmouth.Base.{ℕ, ◌+◌, ◌==◌, not, [], if◌then◌else◌, is_empty, is_none, map}
use dragonmouth.Plugin.Message.{Bytes}
use dragonmouth.Plugin.Transaction.{StatusMeta}
use dragonmouth.Plugin.Encoding.{Crates, Fits, ◌⨾◌, map_or, fits, message, messages}
use dragonmouth.Plugin.Encoding.Instruction.{inners_encode_raw, inners_encoded_len, inners-Fits}
use dragonmouth.Plugin.Encoding.Sanitized.{pubkeys_encode, pubkeys_encoded_len, pubkeys-Fits}
use dragonmouth.Plugin.Encoding.Token.{
  balance_encode_raw, balance_encoded_len, balance-Fits, return_data_encode_raw,
  return_data_encoded_len, return_data-Fits,
}
use dragonmouth.Plugin.Encoding.Reward.{reward_encode_raw, reward_encoded_len, reward-Fits}

-- `serialize` is that of the crate `bincode`, on a `TransactionError`.
module _ (c : Crates) {E : Type 0} (serialize : E → Bytes) where
  -- The buffer as `encoded_len` leaves it: cleared, then filled.
  unfoldable pub error_buffer : E → Bytes → Bytes
  error_buffer err buffer = serialize err

  unfoldable pub error_encoded_len : E → ℕ
  error_encoded_len err =
      if not (is_empty (serialize err)) then c.bytes.encoded_len 1 (serialize err) else 0

  unfoldable pub error_encode_raw : Bytes → Bytes
  error_encode_raw buffer = if not (is_empty buffer) then c.bytes.encode 1 buffer else []

  error-Fits :
      (err : E) (buffer : Bytes)
      → Fits (error_encode_raw (error_buffer err buffer)) (error_encoded_len err)
  unfolding error_encode_raw error_encoded_len error_buffer
  error-Fits err buffer = search (fits, c.bytes.fits) depth 24

  unfoldable pub meta_buffer : StatusMeta E → Bytes → Bytes
  meta_buffer m buffer = map_or buffer (λ err. error_buffer err buffer) m.err

  unfoldable pub meta_encode_raw : StatusMeta E → Bytes → Bytes
  meta_encode_raw m buffer =
      map_or []
        (λ err.
          c.encode 1 (message (error_encode_raw (error_buffer err buffer)) (error_encoded_len err)))
        m.err
      ⨾ (if not (m.fee == 0) then c.uint64.encode 2 m.fee else [])
      ⨾ c.packed.encode 3 m.pre_balances
      ⨾ c.packed.encode 4 m.post_balances
      ⨾ map_or []
          (λ inner.
            c.encode_repeated 5 (messages (inners_encode_raw c) (inners_encoded_len c) inner))
          m.inner_instructions
      ⨾ map_or [] (λ logs. c.strings.encode 6 logs) m.log_messages
      ⨾ map_or []
          (λ balances.
            c.encode_repeated 7 (messages (balance_encode_raw c) (balance_encoded_len c) balances))
          m.pre_token_balances
      ⨾ map_or []
          (λ balances.
            c.encode_repeated 8 (messages (balance_encode_raw c) (balance_encoded_len c) balances))
          m.post_token_balances
      ⨾ map_or []
          (λ rewards.
            c.encode_repeated 9 (messages (reward_encode_raw c) (reward_encoded_len c) rewards))
          m.rewards
      ⨾ (if is_none m.inner_instructions
          then c.bool.encode 10 (is_none m.inner_instructions)
          else [])
      ⨾ (if is_none m.log_messages then c.bool.encode 11 (is_none m.log_messages) else [])
      ⨾ pubkeys_encode c 12 m.writable
      ⨾ pubkeys_encode c 13 m.readonly
      ⨾ map_or []
          (λ r. c.encode 14 (message (return_data_encode_raw c r) (return_data_encoded_len c r)))
          m.return_data
      ⨾ (if is_none m.return_data then c.bool.encode 15 (is_none m.return_data) else [])
      ⨾ map_or [] (λ units. c.uint64.encode 16 units) m.compute_units_consumed

  unfoldable pub meta_encoded_len : StatusMeta E → ℕ
  meta_encoded_len m =
      map_or 0 (λ err. c.encoded_len 1 (error_encoded_len err)) m.err
      + (if not (m.fee == 0) then c.uint64.encoded_len 2 m.fee else 0)
      + c.packed.encoded_len 3 m.pre_balances
      + c.packed.encoded_len 4 m.post_balances
      + map_or 0 (λ inner. c.encoded_len_repeated 5 (map (inners_encoded_len c) inner))
          m.inner_instructions
      + map_or 0 (λ logs. c.strings.encoded_len 6 logs) m.log_messages
      + map_or 0 (λ balances. c.encoded_len_repeated 7 (map (balance_encoded_len c) balances))
          m.pre_token_balances
      + map_or 0 (λ balances. c.encoded_len_repeated 8 (map (balance_encoded_len c) balances))
          m.post_token_balances
      + map_or 0 (λ rewards. c.encoded_len_repeated 9 (map (reward_encoded_len c) rewards))
          m.rewards
      + (if is_none m.inner_instructions
          then c.bool.encoded_len 10 (is_none m.inner_instructions)
          else 0)
      + (if is_none m.log_messages then c.bool.encoded_len 11 (is_none m.log_messages) else 0)
      + pubkeys_encoded_len c 12 m.writable
      + pubkeys_encoded_len c 13 m.readonly
      + map_or 0 (λ r. c.encoded_len 14 (return_data_encoded_len c r)) m.return_data
      + (if is_none m.return_data then c.bool.encoded_len 15 (is_none m.return_data) else 0)
      + map_or 0 (λ units. c.uint64.encoded_len 16 units) m.compute_units_consumed

  pub meta-Fits :
      (m : StatusMeta E) (buffer : Bytes) → Fits (meta_encode_raw m buffer) (meta_encoded_len m)
  unfolding meta_encode_raw meta_encoded_len
  meta-Fits m buffer =
      search
        (
          fits, c.uint64.fits, c.bool.fits, c.packed.fits, c.strings.fits, error-Fits, inners-Fits,
          pubkeys-Fits, balance-Fits, return_data-Fits, reward-Fits,
        )
        depth 40
