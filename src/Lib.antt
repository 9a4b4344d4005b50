-- ===== src/Lib.antt =====
-- A verification library for the message relay: the validator plugin that broadcasts account,
-- slot, transaction, entry and block messages, and the process that receives and filters them.
--
-- Plugin.Channel models plugin-agave/src/channel.rs, the broadcast ring of the plugin: `Shared` is the
-- state behind the locks, with the fields of the source's `State` and `Shared`; `new`,
-- `push_msg`, `push`, `close`, `subscribe`, `recv_ref`, `poll` and `poll_next` are its functions
-- under their own names. Channel itself has the state and the loops that drop messages, Push the
-- sender and Receive the receiver. The other children prove: Inv states the invariant, Evict and
-- Slots treat one message that leaves, Keeps and Loops the loops, Store and Pushed the whole of
-- `push_msg`, Rounds and Delivery the receiver, Panics two classes of input on which the sender
-- panics, Ancestors the walk up the parents of a slot, Session a channel from its creation on,
-- Replay a subscriber that starts from a slot.
-- Plugin.Message has the messages (plugin-agave/src/protobuf/message.rs and plugin.rs),
-- Plugin.BTree the standard library's ordered map.
-- Plugin.Encoding models plugin-agave/src/protobuf/encoding and `ProtobufMessage::encode_raw`:
-- each wrapper has its two methods, `…_encode_raw` and `…_encoded_len`, in the child named for
-- its file or for its part of transaction.rs; Vector is the whole message, Digits the table of
-- numerals and Decimal what it promises. Plugin.Transaction has the validator's records. The
-- crates prost and yellowstone_grpc_proto are the record `Crates`, whose laws say that an encoder
-- writes as many bytes as it counts; Tests has an instance with the wire format written out.
-- Filter models filter/src/filter.rs: Accounts, Transactions, Slots, Blocks and Slices have the
-- filters and what they do with a message, Updates has `Filter::new` and `get_updates_ref`. Sets
-- has the tests on sets and flags, and Selects what they decide; Occurs, Holds and Compile treat
-- the tests on an account's data, AccountUpdates, TransactionUpdates and BlockUpdates the filters
-- as a whole, Total all of them. A map is the list of its entries, in the order in which the
-- source iterates, and a key or a name is the list of its bytes.
-- Filter.Message and Filter.Parse model filter/src/message.rs, the messages and their parser, from
-- what prost has decoded; Keys treats the account keys of a transaction, Sizes the size of a block.
-- Filter.Limits models the check of account filters in filter/src/config.rs, Config the checks of
-- all filters there, and Accepted what these promise. Filter.Request has the protobuf request of a
-- subscription, Request.Convert the conversions from and to it, and Restore the way there and back.
-- Shared.Shutdown models shared/src/shutdown.rs, the shutdown signal: State and each operation of
-- a handle as a step; Ids and Wakes are what it promises. Shared.Taskset models `parse_taskset` of
-- shared/src/config.rs, and Cores is what it promises.
-- Richat.Binary models the module `binary` of richat/src/channel.rs, a single-producer,
-- single-consumer ring; Queue is what it promises, and Refine proves that it does.
-- Richat.Channel models the rest of richat/src/channel.rs: `Shared`, `SenderShared` and
-- `ReceiverSync`, the rings that the relay's clients read; Sender has `Messages` and `Sender`, the
-- three commitment levels. Ring states the invariant, Push, Read and Clear treat `push`, `try_recv`
-- and `try_clear`, Hidden when a message can be received, Levels which slots the sender keeps.
-- Richat.SlotInfo models `SlotInfo` there, which collects the messages of a slot and makes its
-- block: Gather, Stored and Kept follow one message, Complete says when the messages are complete,
-- Collect treats the whole sequence, and Late an account update out of order.
-- Richat.BlockMeta models richat/src/grpc/block_meta.rs, the variables of `work` and its
-- branches; Blockhash is what the requests get.
-- Richat.Grpc models richat/src/grpc/server.rs: the state of a client and its stream; Cache has
-- `MessagesCache`, Worker a client's turn in `worker_messages`, Request a round of the task that
-- `subscribe` spawns. Order treats the stream, Logged the cache, Turn and Filled the rounds of a turn,
-- Served the turn as a whole, and Rings puts it on the rings of Richat.Channel.
-- Base has the shared names, lists over the native numbers, the arithmetic of ring positions, and
-- in Turn the cells of a ring and the queue that they hold.
--
-- State is passed explicitly. `push_msg` holds the state's mutex from first to last, so a push is
-- one step; each round of `recv_ref` is one step too. Positions are 64-bit counters:
-- `wrapping_add` is written out, and the theorems on the broadcast ring ask that the counter has
-- not come round. A panic is a value, `panic`, or the outer `none` of a filter; `stuck` says that
-- the fuel of a loop has run out, and the theorems exclude it: the loops that drop messages get
-- one more round than there are messages or slots, which is enough. The walk up the parents of a
-- slot gets one more round than there are slots, which is enough where parents are below their
-- slots.
--
-- Not modelled: the sockets and tasks of the transports, of client/ and of the gRPC server's
-- `spawn`, which pass bytes on; the command line in cli/, configuration through serde, logs and
-- metrics; the encoding of updates in filter/src/protobuf, which prost carries out and which is the
-- parameter `encode` of Richat.Grpc.Worker; and the types that the build generates. Overflow of a
-- count of bytes in memory is left out, since memory ends before.
pub mod Base
pub mod Plugin
pub mod Filter
pub mod Shared
pub mod Richat
