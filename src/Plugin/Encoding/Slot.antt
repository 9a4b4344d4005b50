-- ===== src/Plugin/Encoding/Slot.antt =====
-- The wrapper `Slot` of plugin-agave/src/protobuf/encoding/slot.rs.
use dragonmouth.Base.{ℕ, ◌+◌, ◌==◌, not, [], Option, none, some, if◌then◌else◌}
use dragonmouth.Plugin.Message.{
  Bytes, SlotStatus, processed, rooted, confirmed, first_shred_received, completed, created_bank,
  dead,
}
use dragonmouth.Plugin.Encoding.{Crates, Fits, ◌⨾◌, map_or, fits}

unfoldable pub slot_status_as_i32 : SlotStatus → ℕ
slot_status_as_i32 processed = 0
slot_status_as_i32 rooted = 2
slot_status_as_i32 confirmed = 1
slot_status_as_i32 first_shred_received = 3
slot_status_as_i32 completed = 4
slot_status_as_i32 created_bank = 5
slot_status_as_i32 (dead error) = 6

unfoldable pub slot_status_as_dead_error : SlotStatus → Option Bytes
slot_status_as_dead_error (dead error) = some error
slot_status_as_dead_error _ = none

module _ (c : Crates) where
  unfoldable pub slot_encode_raw : ℕ → Option ℕ → SlotStatus → Bytes
  slot_encode_raw slot parent status =
      (if not (slot == 0) then c.uint64.encode 1 slot else [])
      ⨾ map_or [] (λ value. c.uint64.encode 2 value) parent
      ⨾ (if not (slot_status_as_i32 status == c.default_commitment)
          then c.int32.encode 3 (slot_status_as_i32 status)
          else [])
      ⨾ map_or [] (λ value. c.string.encode 4 value) (slot_status_as_dead_error status)

  unfoldable pub slot_encoded_len : ℕ → Option ℕ → SlotStatus → ℕ
  slot_encoded_len slot parent status =
      (if not (slot == 0) then c.uint64.encoded_len 1 slot else 0)
      + map_or 0 (λ value. c.uint64.encoded_len 2 value) parent
      + (if not (slot_status_as_i32 status == c.default_commitment)
          then c.int32.encoded_len 3 (slot_status_as_i32 status)
          else 0)
      + map_or 0 (λ value. c.string.encoded_len 4 value) (slot_status_as_dead_error status)

  pub slot-Fits :
      (slot : ℕ) (parent : Option ℕ) (status : SlotStatus)
      → Fits (slot_encode_raw slot parent status) (slot_encoded_len slot parent status)
  unfolding slot_encode_raw slot_encoded_len
  slot-Fits slot parent status = search (fits, c.uint64.fits, c.int32.fits, c.string.fits)
