-- ===== src/Plugin/Encoding/Reward.antt =====
-- The wrapper of a reward, of plugin-agave/src/protobuf/encoding/mod.rs.
use dragonmouth.Base.{ℕ, ◌+◌, ◌==◌, not, [], Option, none, some, if◌then◌else◌, is_empty}
use dragonmouth.Plugin.Message.{Bytes, Reward, RewardType, fee, rent, staking, voting}
use dragonmouth.Base.{is_some}
use dragonmouth.Plugin.Encoding.{Crates, Fits, ◌⨾◌, map_or, fits, bytes_encode, bytes_encoded_len}
use dragonmouth.Plugin.Encoding.Digits.{u8_to_static_str}

unfoldable pub reward_type_as_i32 : Option RewardType → ℕ
reward_type_as_i32 none = 0
reward_type_as_i32 (some fee) = 1
reward_type_as_i32 (some rent) = 2
reward_type_as_i32 (some staking) = 3
reward_type_as_i32 (some voting) = 4

module _ (c : Crates) where
  unfoldable pub reward_encode_raw : Reward → Bytes
  reward_encode_raw r =
      (if not (is_empty r.pubkey) then c.string.encode 1 r.pubkey else [])
      ⨾ (if not (r.lamports == 0) then c.int64.encode 2 r.lamports else [])
      ⨾ (if not (r.post_balance == 0) then c.uint64.encode 3 r.post_balance else [])
      ⨾ (if is_some r.reward_type then c.int32.encode 4 (reward_type_as_i32 r.reward_type) else [])
      ⨾ map_or [] (λ commission. bytes_encode c 5 (u8_to_static_str commission)) r.commission

  unfoldable pub reward_encoded_len : Reward → ℕ
  reward_encoded_len r =
      (if not (is_empty r.pubkey) then c.string.encoded_len 1 r.pubkey else 0)
      + (if not (r.lamports == 0) then c.int64.encoded_len 2 r.lamports else 0)
      + (if not (r.post_balance == 0) then c.uint64.encoded_len 3 r.post_balance else 0)
      + (if is_some r.reward_type
          then c.int32.encoded_len 4 (reward_type_as_i32 r.reward_type)
          else 0)
      + map_or 0 (λ commission. bytes_encoded_len c 5 (u8_to_static_str commission)) r.commission

  pub reward-Fits : (r : Reward) → Fits (reward_encode_raw r) (reward_encoded_len r)
  unfolding reward_encode_raw reward_encoded_len
  reward-Fits r = search (fits, c.string.fits, c.int64.fits, c.uint64.fits, c.int32.fits) depth 24
