-- ===== src/Plugin/Encoding/Entry.antt =====
-- The wrapper `Entry` of plugin-agave/src/protobuf/encoding/entry.rs.
use dragonmouth.Base.{ℕ, ◌+◌, ◌==◌, not, [], if◌then◌else◌}
use dragonmouth.Plugin.Message.{Bytes, EntryInfo}
use dragonmouth.Plugin.Encoding.{Crates, Fits, ◌⨾◌, fits, bytes_encode, bytes_encoded_len}

module _ (c : Crates) where
  unfoldable pub entry_encode_raw : EntryInfo → Bytes
  entry_encode_raw e =
      (if not (e.slot == 0) then c.uint64.encode 1 e.slot else [])
      ⨾ (if not (e.index == 0) then c.uint64.encode 2 e.index else [])
      ⨾ (if not (e.num_hashes == 0) then c.uint64.encode 3 e.num_hashes else [])
      ⨾ bytes_encode c 4 e.hash
      ⨾ (if not (e.executed_transaction_count == 0)
          then c.uint64.encode 5 e.executed_transaction_count
          else [])
      ⨾ (if not (e.starting_transaction_index == 0)
          then c.uint64.encode 6 e.starting_transaction_index
          else [])

  unfoldable pub entry_encoded_len : EntryInfo → ℕ
  entry_encoded_len e =
      (if not (e.slot == 0) then c.uint64.encoded_len 1 e.slot else 0)
      + (if not (e.index == 0) then c.uint64.encoded_len 2 e.index else 0)
      + (if not (e.num_hashes == 0) then c.uint64.encoded_len 3 e.num_hashes else 0)
      + bytes_encoded_len c 4 e.hash
      + (if not (e.executed_transaction_count == 0)
          then c.uint64.encoded_len 5 e.executed_transaction_count
          else 0)
      + (if not (e.starting_transaction_index == 0)
          then c.uint64.encoded_len 6 e.starting_transaction_index
          else 0)

  pub entry-Fits : (e : EntryInfo) → Fits (entry_encode_raw e) (entry_encoded_len e)
  unfolding entry_encode_raw entry_encoded_len
  entry-Fits e = search (fits, c.uint64.fits) depth 24
