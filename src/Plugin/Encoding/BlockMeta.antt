-- ===== src/Plugin/Encoding/BlockMeta.antt =====
-- The wrappers of plugin-agave/src/protobuf/encoding/block_meta.rs.
use dragonmouth.Base.{ℕ, ◌+◌, ◌==◌, not, [], if◌then◌else◌, is_empty, map}
use dragonmouth.Plugin.Message.{Bytes, BlockInfo}
use dragonmouth.Plugin.Encoding.{
  Crates, Fits, ◌⨾◌, map_or, fits, message, messages, bytes_encode, bytes_encoded_len,
}
use dragonmouth.Plugin.Encoding.Reward.{reward_encode_raw, reward_encoded_len, reward-Fits}

module _ (c : Crates) where
  unfoldable pub rewards_encode_raw : BlockInfo → Bytes
  rewards_encode_raw b =
      c.encode_repeated 1 (messages (reward_encode_raw c) (reward_encoded_len c) b.rewards)
      ⨾ map_or [] (λ n. c.encode 2 (c.create_num_partitions n)) b.num_partitions

  unfoldable pub rewards_encoded_len : BlockInfo → ℕ
  rewards_encoded_len b =
      c.encoded_len_repeated 1 (map (reward_encoded_len c) b.rewards)
      + map_or 0 (λ n. c.encoded_len 2 (c.create_num_partitions n).encoded_len) b.num_partitions

  pub rewards-Fits : (b : BlockInfo) → Fits (rewards_encode_raw b) (rewards_encoded_len b)
  unfolding rewards_encode_raw rewards_encoded_len
  rewards-Fits b = search (fits, c.encode_fits, c.num_partitions_fits, reward-Fits) depth 24

  unfoldable pub block_meta_encode_raw : BlockInfo → Bytes
  block_meta_encode_raw b =
      (if not (b.slot == 0) then c.uint64.encode 1 b.slot else [])
      ⨾ (if not (is_empty b.blockhash) then bytes_encode c 2 b.blockhash else [])
      ⨾ c.encode 3 (message (rewards_encode_raw b) (rewards_encoded_len b))
      ⨾ map_or [] (λ t. c.encode 4 (c.create_timestamp t)) b.block_time
      ⨾ map_or [] (λ h. c.encode 5 (c.create_block_height h)) b.block_height
      ⨾ (if not (b.parent_slot == 0) then c.uint64.encode 6 b.parent_slot else [])
      ⨾ (if not (is_empty b.parent_blockhash) then bytes_encode c 7 b.parent_blockhash else [])
      ⨾ (if not (b.executed_transaction_count == 0)
          then c.uint64.encode 8 b.executed_transaction_count
          else [])
      ⨾ (if not (b.entry_count == 0) then c.uint64.encode 9 b.entry_count else [])

  unfoldable pub block_meta_encoded_len : BlockInfo → ℕ
  block_meta_encoded_len b =
      (if not (b.slot == 0) then c.uint64.encoded_len 1 b.slot else 0)
      + (if not (is_empty b.blockhash) then bytes_encoded_len c 2 b.blockhash else 0)
      + c.encoded_len 3 (rewards_encoded_len b)
      + map_or 0 (λ t. c.encoded_len 4 (c.create_timestamp t).encoded_len) b.block_time
      + map_or 0 (λ h. c.encoded_len 5 (c.create_block_height h).encoded_len) b.block_height
      + (if not (b.parent_slot == 0) then c.uint64.encoded_len 6 b.parent_slot else 0)
      + (if not (is_empty b.parent_blockhash) then bytes_encoded_len c 7 b.parent_blockhash else 0)
      + (if not (b.executed_transaction_count == 0)
          then c.uint64.encoded_len 8 b.executed_transaction_count
          else 0)
      + (if not (b.entry_count == 0) then c.uint64.encoded_len 9 b.entry_count else 0)

  pub block_meta-Fits : (b : BlockInfo) → Fits (block_meta_encode_raw b) (block_meta_encoded_len b)
  unfolding block_meta_encode_raw block_meta_encoded_len
  block_meta-Fits b =
      search
        (fits, c.uint64.fits, c.encode_fits, c.timestamp_fits, c.block_height_fits, rewards-Fits)
        depth 24
