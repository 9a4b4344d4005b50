-- ===== src/Plugin/Encoding/Account.antt =====
-- The wrappers of plugin-agave/src/protobuf/encoding/account.rs.
use dragonmouth.Base.{ℕ, ◌+◌, ◌==◌, not, [], if◌then◌else◌, is_empty}
use dragonmouth.Plugin.Message.{Bytes, AccountInfo}
use dragonmouth.Plugin.Encoding.{
  Crates, Fits, ◌⨾◌, map_or, fits, message, bytes_encode, bytes_encoded_len,
}

module _ (c : Crates) where
  unfoldable pub replica_encode_raw : AccountInfo → Bytes
  replica_encode_raw a =
      bytes_encode c 1 a.pubkey
      ⨾ (if not (a.lamports == 0) then c.uint64.encode 2 a.lamports else [])
      ⨾ bytes_encode c 3 a.owner
      ⨾ (if a.executable then c.bool.encode 4 a.executable else [])
      ⨾ (if not (a.rent_epoch == 0) then c.uint64.encode 5 a.rent_epoch else [])
      ⨾ (if not (is_empty a.contents) then bytes_encode c 6 a.contents else [])
      ⨾ (if not (a.write_version == 0) then c.uint64.encode 7 a.write_version else [])
      ⨾ map_or [] (λ signature. bytes_encode c 8 signature) a.txn

  unfoldable pub replica_encoded_len : AccountInfo → ℕ
  replica_encoded_len a =
      bytes_encoded_len c 1 a.pubkey
      + (if not (a.lamports == 0) then c.uint64.encoded_len 2 a.lamports else 0)
      + bytes_encoded_len c 3 a.owner
      + (if a.executable then c.bool.encoded_len 4 a.executable else 0)
      + (if not (a.rent_epoch == 0) then c.uint64.encoded_len 5 a.rent_epoch else 0)
      + (if not (is_empty a.contents) then bytes_encoded_len c 6 a.contents else 0)
      + (if not (a.write_version == 0) then c.uint64.encoded_len 7 a.write_version else 0)
      + map_or 0 (λ signature. bytes_encoded_len c 8 signature) a.txn

  pub replica-Fits : (a : AccountInfo) → Fits (replica_encode_raw a) (replica_encoded_len a)
  unfolding replica_encode_raw replica_encoded_len
  replica-Fits a = search (fits, c.uint64.fits, c.bool.fits) depth 24

  unfoldable pub account_encode_raw : ℕ → AccountInfo → Bytes
  account_encode_raw slot a =
      c.encode 1 (message (replica_encode_raw a) (replica_encoded_len a))
      ⨾ (if not (slot == 0) then c.uint64.encode 2 slot else [])

  unfoldable pub account_encoded_len : ℕ → AccountInfo → ℕ
  account_encoded_len slot a =
      c.encoded_len 1 (replica_encoded_len a)
      + (if not (slot == 0) then c.uint64.encoded_len 2 slot else 0)

  pub account-Fits :
      (slot : ℕ) (a : AccountInfo) → Fits (account_encode_raw slot a) (account_encoded_len slot a)
  unfolding account_encode_raw account_encoded_len
  account-Fits slot a = search (fits, c.uint64.fits, replica-Fits) depth 24
