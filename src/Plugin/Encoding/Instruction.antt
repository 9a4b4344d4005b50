-- ===== src/Plugin/Encoding/Instruction.antt =====
-- The wrappers of the header, the instructions and the table lookups, of
-- plugin-agave/src/protobuf/encoding/transaction.rs.
use dragonmouth.Base.{ℕ, ◌+◌, ◌==◌, not, [], if◌then◌else◌, is_empty, map}
use dragonmouth.Plugin.Message.{Bytes}
use dragonmouth.Plugin.Transaction.{
  MessageHeader, CompiledInstruction, AddressTableLookup, InnerInstruction, InnerInstructions,
}
use dragonmouth.Plugin.Encoding.{
  Crates, Fits, ◌⨾◌, map_or, fits, messages, bytes_encode, bytes_encoded_len,
}

module _ (c : Crates) where
  unfoldable pub header_encode_raw : MessageHeader → Bytes
  header_encode_raw h =
      (if not (h.num_required_signatures == 0)
        then c.uint32.encode 1 h.num_required_signatures
        else [])
      ⨾ (if not (h.num_readonly_signed_accounts == 0)
          then c.uint32.encode 2 h.num_readonly_signed_accounts
          else [])
      ⨾ (if not (h.num_readonly_unsigned_accounts == 0)
          then c.uint32.encode 3 h.num_readonly_unsigned_accounts
          else [])

  unfoldable pub header_encoded_len : MessageHeader → ℕ
  header_encoded_len h =
      (if not (h.num_required_signatures == 0)
        then c.uint32.encoded_len 1 h.num_required_signatures
        else 0)
      + (if not (h.num_readonly_signed_accounts == 0)
          then c.uint32.encoded_len 2 h.num_readonly_signed_accounts
          else 0)
      + (if not (h.num_readonly_unsigned_accounts == 0)
          then c.uint32.encoded_len 3 h.num_readonly_unsigned_accounts
          else 0)

  pub header-Fits : (h : MessageHeader) → Fits (header_encode_raw h) (header_encoded_len h)
  unfolding header_encode_raw header_encoded_len
  header-Fits h = search (fits, c.uint32.fits) depth 40

  unfoldable pub lookup_encode_raw : AddressTableLookup → Bytes
  lookup_encode_raw t =
      bytes_encode c 1 t.account_key.as_ref
      ⨾ (if not (is_empty t.writable_indexes) then bytes_encode c 2 t.writable_indexes else [])
      ⨾ (if not (is_empty t.readonly_indexes) then bytes_encode c 3 t.readonly_indexes else [])

  unfoldable pub lookup_encoded_len : AddressTableLookup → ℕ
  lookup_encoded_len t =
      bytes_encoded_len c 1 t.account_key.as_ref
      + (if not (is_empty t.writable_indexes) then bytes_encoded_len c 2 t.writable_indexes else 0)
      + (if not (is_empty t.readonly_indexes) then bytes_encoded_len c 3 t.readonly_indexes else 0)

  pub lookup-Fits : (t : AddressTableLookup) → Fits (lookup_encode_raw t) (lookup_encoded_len t)
  unfolding lookup_encode_raw lookup_encoded_len
  lookup-Fits t = search (fits) depth 40

  unfoldable pub compiled_encode_raw : CompiledInstruction → Bytes
  compiled_encode_raw i =
      (if not (i.program_id_index == 0) then c.uint32.encode 1 i.program_id_index else [])
      ⨾ (if not (is_empty i.accounts) then bytes_encode c 2 i.accounts else [])
      ⨾ (if not (is_empty i.contents) then bytes_encode c 3 i.contents else [])

  unfoldable pub compiled_encoded_len : CompiledInstruction → ℕ
  compiled_encoded_len i =
      (if not (i.program_id_index == 0) then c.uint32.encoded_len 1 i.program_id_index else 0)
      + (if not (is_empty i.accounts) then bytes_encoded_len c 2 i.accounts else 0)
      + (if not (is_empty i.contents) then bytes_encoded_len c 3 i.contents else 0)

  pub compiled-Fits :
      (i : CompiledInstruction) → Fits (compiled_encode_raw i) (compiled_encoded_len i)
  unfolding compiled_encode_raw compiled_encoded_len
  compiled-Fits i = search (fits, c.uint32.fits) depth 40

  unfoldable pub inner_encode_raw : InnerInstruction → Bytes
  inner_encode_raw i =
      (if not (i.instruction.program_id_index == 0)
        then c.uint32.encode 1 i.instruction.program_id_index
        else [])
      ⨾ (if not (is_empty i.instruction.accounts)
          then bytes_encode c 2 i.instruction.accounts
          else [])
      ⨾ (if not (is_empty i.instruction.contents)
          then bytes_encode c 3 i.instruction.contents
          else [])
      ⨾ map_or [] (λ stack_height. c.uint32.encode 4 stack_height) i.stack_height

  unfoldable pub inner_encoded_len : InnerInstruction → ℕ
  inner_encoded_len i =
      (if not (i.instruction.program_id_index == 0)
        then c.uint32.encoded_len 1 i.instruction.program_id_index
        else 0)
      + (if not (is_empty i.instruction.accounts)
          then bytes_encoded_len c 2 i.instruction.accounts
          else 0)
      + (if not (is_empty i.instruction.contents)
          then bytes_encoded_len c 3 i.instruction.contents
          else 0)
      + map_or 0 (λ stack_height. c.uint32.encoded_len 4 stack_height) i.stack_height

  pub inner-Fits : (i : InnerInstruction) → Fits (inner_encode_raw i) (inner_encoded_len i)
  unfolding inner_encode_raw inner_encoded_len
  inner-Fits i = search (fits, c.uint32.fits) depth 40

  unfoldable pub inners_encode_raw : InnerInstructions → Bytes
  inners_encode_raw i =
      (if not (i.index == 0) then c.uint32.encode 1 i.index else [])
      ⨾ c.encode_repeated 2 (messages inner_encode_raw inner_encoded_len i.instructions)

  unfoldable pub inners_encoded_len : InnerInstructions → ℕ
  inners_encoded_len i =
      (if not (i.index == 0) then c.uint32.encoded_len 1 i.index else 0)
      + c.encoded_len_repeated 2 (map inner_encoded_len i.instructions)

  pub inners-Fits : (i : InnerInstructions) → Fits (inners_encode_raw i) (inners_encoded_len i)
  unfolding inners_encode_raw inners_encoded_len
  inners-Fits i = search (fits, c.uint32.fits, inner-Fits) depth 40
