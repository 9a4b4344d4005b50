-- ===== src/Plugin/Encoding/Tests.antt =====
-- The theorems on the encoding at concrete messages, with the wire format written out.
use dragonmouth.Base.{
  ℕ, zero, suc, ◌+◌, ◌*◌, ◌/◌, ◌%◌, ◌≡◌, refl, true, List, [], ◌∷◌, ◌++◌, none, some, length,
  length-append, length-replicate, if◌then◌else◌, ltb, map, All, arith, replicate,
}
use dragonmouth.Plugin.Message.{Bytes, ProtobufMessage, transaction_message, slot_message, dead}
use dragonmouth.Plugin.Transaction.{Array, v0, TransactionInfo}
use dragonmouth.Plugin.Encoding.{Codec, Encoded, IsEncoded, Fits, Crates, message, ◌⨾◌}
use dragonmouth.Plugin.Encoding.Vector.{
  encode_raw, body, body_len, body_buffer, encode_raw-reserved,
}
use dragonmouth.Plugin.Encoding.Slot.{
  slot_encode_raw, slot_encoded_len, slot_status_as_i32, slot_status_as_dead_error,
}
use dragonmouth.Plugin.Encoding.Digits.{u8_to_static_str}
use dragonmouth.Plugin.Encoding.Decimal.{read_decimal, u8_to_static_str-reads}

-- Ten groups of seven bits are enough for 64.
unfoldable varint : ℕ → ℕ → Bytes
varint zero n = []
varint (suc fuel) n =
    let rest = varint fuel (n / 128) in if ltb n 128 then n ∷ [] else (n % 128 + 128) ∷ rest

abbrev put_varint : ℕ → Bytes
put_varint n = varint 10 n

abbrev put_key : ℕ → ℕ → Bytes
put_key tag wire_type = put_varint (tag * 8 + wire_type)

abbrev delimited : ℕ → Bytes → Bytes
delimited tag xs = put_key tag 2 ++ (put_varint (length xs) ++ xs)

abbrev codec : {A : Type 0} → (ℕ → A → Bytes) → Codec A
codec f = record {
  encode = f;
  encoded_len = λ tag value. length (f tag value);
  fits = λ tag value. record { size = refl };
}

abbrev numbers : Codec ℕ
numbers = codec (λ tag n. put_key tag 0 ++ put_varint n)

abbrev little_endian : ℕ → ℕ → Bytes
little_endian zero n = []
little_endian (suc k) n = (n % 256) ∷ little_endian k (n / 256)

abbrev concat_map : {A : Type 0} → (A → Bytes) → List A → Bytes
concat_map f [] = []
concat_map f (x ∷ xs) = f x ++ concat_map f xs

abbrev packed : ℕ → List ℕ → Bytes
packed tag [] = []
packed tag (n ∷ ns) = delimited tag (concat_map put_varint (n ∷ ns))

abbrev framed_len : ℕ → ℕ → ℕ
framed_len tag n = length (put_key tag 2) + (length (put_varint n) + n)

-- A message is its key, its own count, and its bytes.
abbrev framed : ℕ → Encoded → Bytes
framed tag m = put_key tag 2 ++ (put_varint m.encoded_len ++ m.encode_raw)

framed-Fits :
    (tag : ℕ) (m : Encoded) → IsEncoded m → Fits (framed tag m) (framed_len tag m.encoded_len)
framed-Fits tag m h = record {
  size = ground (
    arith,
    length-append (put_key tag 2) (put_varint m.encoded_len ++ m.encode_raw),
    length-append (put_varint m.encoded_len) m.encode_raw,
    h.size,
  );
}

abbrev frames_len : ℕ → List ℕ → ℕ
frames_len tag [] = 0
frames_len tag (n ∷ ns) = framed_len tag n + frames_len tag ns

frames-Fits :
    (tag : ℕ) (ms : List Encoded)
    → All IsEncoded ms
    → Fits (concat_map (framed tag) ms) (frames_len tag (map (λ m. m.encoded_len) ms))
frames-Fits tag [] h = record { size = refl }
frames-Fits tag (m ∷ ms) h = record {
  size = ground (
    arith,
    length-append (framed tag m) (concat_map (framed tag) ms),
    (framed-Fits tag m h.0).size,
    (frames-Fits tag ms h.1).size,
  );
}

abbrev one_number : ℕ → Encoded
one_number n = message (numbers.encode 1 n) (numbers.encoded_len 1 n)

abbrev wire : Crates
wire = record {
  uint64 = numbers;
  int64 = numbers;
  uint32 = numbers;
  int32 = numbers;
  bool = codec (λ tag b. put_key tag 0 ++ (if b then 1 ∷ [] else 0 ∷ []));
  double = codec (λ tag bits. put_key tag 1 ++ little_endian 8 bits);
  string = codec delimited;
  bytes = codec delimited;
  packed = codec packed;
  strings = codec (λ tag xs. concat_map (delimited tag) xs);
  encode_key = λ tag. put_key tag 2;
  key_len = λ tag. length (put_key tag 2);
  encode_varint = put_varint;
  encoded_len_varint = λ n. length (put_varint n);
  encode = framed;
  encoded_len = framed_len;
  encode_repeated = λ tag ms. concat_map (framed tag) ms;
  encoded_len_repeated = frames_len;
  default_commitment = 0;
  create_timestamp = one_number;
  create_block_height = one_number;
  create_num_partitions = one_number;
  key_fits = λ tag. record { size = refl };
  varint_fits = λ n. record { size = refl };
  encode_fits = framed-Fits;
  repeated_fits = frames-Fits;
  timestamp_fits = λ n. record { size = refl };
  block_height_fits = λ n. record { size = refl };
  num_partitions_fits = λ n. record { size = refl };
}

abbrev ones : (n : ℕ) → Array n
ones n = record { as_ref = replicate n 1; size = length-replicate n 1 }

abbrev failed_vote : TransactionInfo ℕ
failed_vote = record {
  signature = ones 64;
  is_vote = true;
  transaction = record {
    signatures = ones 64 ∷ [];
    contents =
        v0
          (record {
            header = record {
              num_required_signatures = 1;
              num_readonly_signed_accounts = 0;
              num_readonly_unsigned_accounts = 2;
            };
            account_keys = ones 32 ∷ ones 32 ∷ [];
            recent_blockhash = ones 32;
            instructions =
                record { program_id_index = 1; accounts = 0 ∷ []; contents = 7 ∷ 7 ∷ [] } ∷ [];
          })
          (record { account_key = ones 32; writable_indexes = 3 ∷ []; readonly_indexes = [] } ∷ []);
  };
  status_meta = record {
    err = some 300;
    fee = 5000;
    pre_balances = 1 ∷ 200 ∷ [];
    post_balances = 0 ∷ [];
    inner_instructions = some (
        record {
          index = 0;
          instructions =
              record {
                instruction = record { program_id_index = 0; accounts = []; contents = 9 ∷ [] };
                stack_height = some 2;
              }
              ∷ [];
        }
        ∷ []);
    log_messages = none;
    pre_token_balances = some (
        record {
          account_index = 1;
          mint = 65 ∷ [];
          ui_token_amount = record {
            ui_amount = some 4607182418800017408;
            decimals = 6;
            amount = 49 ∷ [];
            ui_amount_string = 49 ∷ [];
          };
          owner = [];
          program_id = 66 ∷ [];
        }
        ∷ []);
    post_token_balances = none;
    rewards = some [];
    writable = ones 32 ∷ [];
    readonly = [];
    return_data = none;
    compute_units_consumed = some 150;
  };
  index = 3;
}

-- The error's number, of two bytes.
abbrev serialize : ℕ → Bytes
serialize n = little_endian 2 n

abbrev dead_message : ProtobufMessage (TransactionInfo ℕ)
dead_message = slot_message 300 (some 299) (dead (66 ∷ 65 ∷ []))

dead_slot : encode_raw wire serialize dead_message (one_number 1) [] ≡ record {
  reserved = 18;
  contents = 26 ∷ 12 ∷ 8 ∷ 172 ∷ 2 ∷ 16 ∷ 171 ∷ 2 ∷ 24 ∷ 6 ∷ 34 ∷ 2 ∷ 66 ∷ 65 ∷ 90 ∷ 2 ∷ 8 ∷ 1 ∷ [];
}
unfolding encode_raw body body_len body_buffer ◌⨾◌ varint slot_encode_raw slot_encoded_len
    slot_status_as_i32 slot_status_as_dead_error
dead_slot = refl

encode_raw-reserved_example :
    length
      (encode_raw wire serialize
        (transaction_message 5 failed_vote)
        (one_number 1)
        (9 ∷ [])).contents
    ≡ (encode_raw wire serialize
        (transaction_message 5 failed_vote)
        (one_number 1)
        (9 ∷ [])).reserved
encode_raw-reserved_example =
    encode_raw-reserved wire serialize (transaction_message 5 failed_vote) (one_number 1) (9 ∷ [])
      (record { size = refl })

u8_to_static_str-reads_example : read_decimal (u8_to_static_str 205) ≡ some 205
u8_to_static_str-reads_example = u8_to_static_str-reads 205 (omega arith)
