-- ===== src/Richat/Grpc/RequestTests.antt =====
-- A request of a client that is accepted, and one that is refused.
use dragonmouth.Base.{ℕ, ◌≡◌, refl, Bool, true, false, [], ◌∷◌, none, some, if◌then◌else◌, ◌==◌}
use dragonmouth.Plugin.Message.{Bytes}
use dragonmouth.Filter.Slots.{SlotCommitment, CommitmentLevel}
use dragonmouth.Filter.Accounts.{data_size}
use dragonmouth.Filter.Config.{ConfigLimits}
use dragonmouth.Filter.Updates.{ConfigFilter}
use dragonmouth.Filter.Request.{
  Texts, SubscribeRequest, converted, datasize, convert_all, try_conv_map, transpose,
  level_try_from,
}
use dragonmouth.Filter.Request.Convert.{
  config_try_from, accounts_try_from, parse_vec_pubkeys, filters_try_from, filter_try_from,
  commitment_try_from,
}
use dragonmouth.Richat.Channel.{SenderShared}
use dragonmouth.Richat.Channel.Sender.{Sender}
use dragonmouth.Richat.Grpc.{client_state_new}
use dragonmouth.Richat.Grpc.Request.{request, on_event, Handled, on_event-Handled}

abbrev texts : Texts
texts = record {
  parse_pubkey = λ k. some k;
  pubkey_to_string = λ k. k;
  parse_signature = λ s. some s;
  signature_to_string = λ s. s;
  decode_base58 = λ s. some s;
  decode_base64 = λ s. some s;
  level_of_i32 = λ n. if n == 1 then some SlotCommitment.confirmed else none;
  commitment_as_i32 = λ c. 1;
}

abbrev limits : ConfigLimits
limits = record {
  name_max = 16;
  slots_max = 2;
  accounts = record {
    max = 8;
    any = false;
    account_max = 4;
    account_reject = [];
    owner_max = 4;
    owner_reject = [];
    data_slice_max = 2;
  };
  transactions = record {
    max = 8;
    any = false;
    account_include_max = 4;
    account_include_reject = [];
    account_exclude_max = 4;
    account_required_max = 4;
  };
  transactions_status = record {
    max = 8;
    any = false;
    account_include_max = 4;
    account_include_reject = [];
    account_exclude_max = 4;
    account_required_max = 4;
  };
  entries_max = 1;
  blocks_meta_max = 1;
  blocks = record {
    max = 1;
    account_include_max = 4;
    account_include_any = false;
    account_include_reject = [];
    include_transactions = true;
    include_accounts = true;
    include_entries = false;
  };
}

abbrev message : SubscribeRequest
message = record {
  slots = [];
  accounts =
      (
        2 ∷ [],
        record {
          account = (7 ∷ []) ∷ [];
          owner = [];
          filters = some (datasize 4) ∷ [];
          nonempty_txn_signature = none;
        },
      )
      ∷ [];
  accounts_data_slice = [];
  transactions = [];
  transactions_status = [];
  entry = (6 ∷ []) ∷ [];
  blocks_meta = [];
  blocks = [];
  commitment = some 1;
}

abbrev config : ConfigFilter
config = record {
  slots = [];
  accounts =
      (
        2 ∷ [],
        record {
          account = (7 ∷ []) ∷ [];
          owner = [];
          filters = data_size 4 ∷ [];
          nonempty_txn_signature = none;
        },
      )
      ∷ [];
  accounts_data_slice = [];
  transactions = [];
  transactions_status = [];
  entries = (6 ∷ []) ∷ [];
  blocks_meta = [];
  blocks = [];
  commitment = some CommitmentLevel.confirmed;
}

converts : config_try_from texts message ≡ converted config
unfolding config_try_from accounts_try_from parse_vec_pubkeys filters_try_from filter_try_from
    commitment_try_from convert_all try_conv_map transpose level_try_from
converts = refl

-- A sender whose rings are to be read from position 5, or 4 for slot 12.
abbrev ring : SenderShared
ring = record {
  shared = record { tail = 5; mask = 0; buffer = []; slots = (12, 4) ∷ [] };
  head = 5;
  tail = 5;
  bytes_total = 0;
  slots = (12, 4) ∷ [];
}

abbrev sender : Sender
sender = record {
  slots_max = 4;
  bytes_max = 1000;
  slots = [];
  grpc = true;
  processed = ring;
  confirmed = ring;
  finalized = ring;
}

abbrev valid : Bytes → Bool
valid key = true

abbrev pong : ℕ → Bytes
pong id = id ∷ []

on_event-Handled_example :
    Handled valid sender (some 12) (client_state_new 1 100 50) (
      on_event texts limits pong sender
        (request none (some 12) message)
        (client_state_new 1 100 50))
on_event-Handled_example =
    on_event-Handled valid sender (some 12) (client_state_new 1 100 50) texts limits pong message
      config converts ((tt, tt), tt)
