-- ===== src/Plugin/Encoding/Token.antt =====
-- The wrappers of token balances and of return data, of
-- plugin-agave/src/protobuf/encoding/transaction.rs.
use dragonmouth.Base.{ℕ, ◌+◌, ◌^◌, ◌==◌, not, ◌||◌, [], if◌then◌else◌, is_empty, Bool}
use dragonmouth.Plugin.Message.{Bytes}
use dragonmouth.Plugin.Transaction.{UiTokenAmount, TokenBalance, ReturnData}
use dragonmouth.Plugin.Encoding.{
  Crates, Fits, ◌⨾◌, map_or, fits, message, bytes_encode, bytes_encoded_len,
}

-- `x == 0f64` of the bit pattern, true also of the negative zero.
unfoldable pub is_zero : ℕ → Bool
is_zero bits = bits == 0 || bits == 2 ^ 63

module _ (c : Crates) where
  unfoldable pub amount_encode_raw : UiTokenAmount → Bytes
  amount_encode_raw u =
      (if not (is_zero (map_or 0 (λ bits. bits) u.ui_amount))
        then c.double.encode 1 (map_or 0 (λ bits. bits) u.ui_amount)
        else [])
      ⨾ (if not (u.decimals == 0) then c.uint32.encode 2 u.decimals else [])
      ⨾ (if not (is_empty u.amount) then c.string.encode 3 u.amount else [])
      ⨾ (if not (is_empty u.ui_amount_string) then c.string.encode 4 u.ui_amount_string else [])

  unfoldable pub amount_encoded_len : UiTokenAmount → ℕ
  amount_encoded_len u =
      (if not (is_zero (map_or 0 (λ bits. bits) u.ui_amount))
        then c.double.encoded_len 1 (map_or 0 (λ bits. bits) u.ui_amount)
        else 0)
      + (if not (u.decimals == 0) then c.uint32.encoded_len 2 u.decimals else 0)
      + (if not (is_empty u.amount) then c.string.encoded_len 3 u.amount else 0)
      + (if not (is_empty u.ui_amount_string) then c.string.encoded_len 4 u.ui_amount_string else 0)

  pub amount-Fits : (u : UiTokenAmount) → Fits (amount_encode_raw u) (amount_encoded_len u)
  unfolding amount_encode_raw amount_encoded_len
  amount-Fits u = search (fits, c.double.fits, c.uint32.fits, c.string.fits) depth 40

  unfoldable pub balance_encode_raw : TokenBalance → Bytes
  balance_encode_raw t =
      (if not (t.account_index == 0) then c.uint32.encode 1 t.account_index else [])
      ⨾ (if not (is_empty t.mint) then c.string.encode 2 t.mint else [])
      ⨾ c.encode 3
          (message (amount_encode_raw t.ui_token_amount) (amount_encoded_len t.ui_token_amount))
      ⨾ (if not (is_empty t.owner) then c.string.encode 4 t.owner else [])
      ⨾ (if not (is_empty t.program_id) then c.string.encode 5 t.program_id else [])

  unfoldable pub balance_encoded_len : TokenBalance → ℕ
  balance_encoded_len t =
      (if not (t.account_index == 0) then c.uint32.encoded_len 1 t.account_index else 0)
      + (if not (is_empty t.mint) then c.string.encoded_len 2 t.mint else 0)
      + c.encoded_len 3 (amount_encoded_len t.ui_token_amount)
      + (if not (is_empty t.owner) then c.string.encoded_len 4 t.owner else 0)
      + (if not (is_empty t.program_id) then c.string.encoded_len 5 t.program_id else 0)

  pub balance-Fits : (t : TokenBalance) → Fits (balance_encode_raw t) (balance_encoded_len t)
  unfolding balance_encode_raw balance_encoded_len
  balance-Fits t = search (fits, c.uint32.fits, c.string.fits, amount-Fits) depth 40

  unfoldable pub return_data_encode_raw : ReturnData → Bytes
  return_data_encode_raw r =
      bytes_encode c 1 r.program_id.as_ref
      ⨾ (if not (is_empty r.contents) then bytes_encode c 2 r.contents else [])

  unfoldable pub return_data_encoded_len : ReturnData → ℕ
  return_data_encoded_len r =
      bytes_encoded_len c 1 r.program_id.as_ref
      + (if not (is_empty r.contents) then bytes_encoded_len c 2 r.contents else 0)

  pub return_data-Fits :
      (r : ReturnData) → Fits (return_data_encode_raw r) (return_data_encoded_len r)
  unfolding return_data_encode_raw return_data_encoded_len
  return_data-Fits r = search (fits) depth 40
