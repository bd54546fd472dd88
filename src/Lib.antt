-- ===== src/Lib.antt =====
-- Verification library of go-boilerplate: the domain logic of the money and ledger packages of the
-- platform, of the orders and payments services, of the in-memory rate limiter, of the retry topology
-- of Kafka records, and the delivery of messages: transactions, the inbox, the outbox and its relay,
-- the typed consumer, the gateway's read model and the pipeline of commands; and the audit log with
-- its chains of hashes, the consumer that redelivers from the retry topics, and the gateway's streams
-- of order statuses.
--
-- Parts and files
--   Prelude (Prelude/Tests, Int, Lists, Text): Boolean tests, results, the integers with the 64-bit
--     wrap of a Go `int`, lists and decimal text. Dict is a Go map.
--   Decimal: the third-party package shopspring/decimal. `Decimal` is the record of the operations
--     that the code calls and `DecimalLaws` the documented facts about their values, both parameters
--     of everything that uses them. Decimal/Whole is an instance over the integers that has the laws.
--   Money: platform/money. Money/Error is error.go; Money/Asset is asset.go, with `Register` and
--     `Lookup` (Asset/Register: its theorems); Money/Amount is money.go (Amount/Minor); Money/Arith
--     is arith.go and the rounding of dec.go; Money/Compare is compare.go, convert.go and round.go;
--     Money/Format is format.go;
--     Money/Alloc is alloc.go, with `Split` and `Allocate` (Alloc/Shares: the integer algorithm,
--     Alloc/Conserve and Alloc/Fair: the amounts); Money/Validate is validate.go (Validate/Laws).
--   Ledger: platform/ledger, the double-entry store of mem.go with the checks of validate.go.
--     Ledger/Balanced describes a valid posting with no map, Ledger/Invariant the store over all
--     calls. It uses the amounts and the asset registry of Money.
--   Orders: examples/orders/internal/domain/order, the state machine, the service and the SQL
--     statements of its repository as functions on a table of rows, and `RunInTx` of
--     platform/storage/pg/tx.go. Orders/Machine and Orders/Timeout are about sequences of calls.
--   Payments: examples/payments/internal/domain/payment, `Process` and the decline rule
--     (Payments/Process).
--   Limits: platform/web/ratelimit/memory.go, the table of limiters (Limits/Bounds).
--   Retry: platform/messaging/retry, retry.go and escalate.go: headers, topic names and the route of
--     a failed record (Retry/Truncate, Retry/Routing). Retry/Escalator is the rest of escalate.go,
--     with the table of parked keys and the handler of `WrapHandler`, and `BaseTopic` (Retry/Parking).
--     Retry/Redrive is consumer.go, the consumer of the retry topics: the batches it holds until they
--     are due, the wakes and the revoked partitions (Retry/Passes: one pass over a partition's
--     records; Retry/Kept: any events). A paused partition delivers no records, as the client
--     documents.
--   Tx: `RunInTx` of platform/storage/pg/tx.go over any state, used by Inbox and Cqrs.
--   Inbox: platform/messaging/inbox/inbox.go, `ProcessOnce` and `ProcessBatchOnce` over the table of
--     keys beside any further state (Inbox/Once: deliveries in any order; Inbox/Batch).
--   Outbox: platform/messaging/outbox, the table with its statements and the relay: a batch, the drain
--     and the back-off (Outbox/Sending, Outbox/Draining, Outbox/Sharding, Outbox/Backoff).
--   Partitions: platform/messaging/outbox/partition.go, the maintenance of the outbox's time partitions
--     (Partitions/Kept: what it may not drop; Partitions/Ahead: what is there before inserts come).
--   Lineage: the context that travels in headers, of platform/messaging/msgctx,
--     platform/security/auth/propagate.go and platform/security/tenant, with `StampChainHeaders` of
--     the outbox (Lineage/Hops: one hop from a handler to the next).
--   Consume: platform/messaging/consume, typed handlers, the path of one record and the batch path, each
--     shard a database with its inbox (Consume/Hooks). It uses Inbox and Lineage.
--   Projection: examples/gateway/internal/projection, the handlers that build the read model
--     (Projection/Terminal).
--   Stream: examples/gateway/internal/sse/sse.go, the mailbox of a stream, the registry and the
--     subscriber. Stream/Handler is the reads, `Notify` and the handler `Stream`; Stream/Gateway puts
--     them beside the projection and the broadcast channel, each step that others can observe an
--     operation, with the reader pool taken as the writer's. Registry, Covers, Others, Own, Woken,
--     Elsewhere, Shared and Delivered carry Caught; Ids carries Rising; Owned is about the answers to
--     callers and about reads that fail. Redis, the bulkhead and the JSON of a broadcast are parameters.
--   Redelivery: platform/messaging/kafka/run.go, the records of one partition in one poll and the pause
--     of a partition that fails (Redelivery/Pause).
--   Cqrs: platform/cqrs, the behaviours around a command handler and their order (Cqrs/Guards).
--   Audit: platform/security/audit. Audit is the tables and `Record` of audit.go beside the batch
--     write; Audit/Hash the hash of an entry and its canonical bytes, Audit/Record `Record`,
--     `RecordBatchSameChain` and `RecordOutOfBand`, Audit/Verify `VerifyChain` and the walk of one
--     chain, Audit/Pending pending.go. `Crypto` (sha256 and HMAC), `MetaCodec` (the JSON of the
--     metadata) and `fnv32a` are parameters. Audit/Encoding, Clean, Reachable and Verified are about
--     the rows that the code writes, Tamper and Shown about rows that somebody else changed, Drained
--     about the pending table. The index of a chain is taken to fit an `int16`.
--   Tests, with Tests/Services, Tests/Messaging, Tests/Delivery, Tests/Hooks, Tests/Guards,
--     Tests/Audit, Tests/Stream, Tests/Partitions: runs at concrete inputs.
--
-- How the code corresponds to the definitions
--   A function of the package is a definition of the same name in snake case; a method of `Money`
--   whose name is a common word has `_money` behind it (`Add` is `add_money`). Each call of a store or
--   limiter holds its lock from end to end, or is one transaction, so it is one function from the state
--   to the state and the result, and an interleaving of callers is a list of calls. An error is a value
--   of an error type, and a Go panic a case of it. What the driver, the producer or the outbox reports
--   is an argument, so that every error path can be taken.
--
-- Bounds and fuel
--   `drain` runs on fuel, one for each batch, since other sessions may add rows while it runs; a relay
--   with no fault needs one more than the messages that wait, and then it returns. Nothing else runs on
--   fuel. `group_rest` runs for the number of groups and `fast_loop` for the number of attempts that are
--   left. `hand_out` runs for the positive part of the remainder, which the source's loop takes down by
--   one in each round; `backoff_loop` for the failures behind the first. A Go `int` is an integer that
--   `wrap64` brings into 64 bits, after the sum of the ratios and after the shift of a pause. Counts and
--   times are natural numbers.
--
-- Not modelled
--   Money: text, JSON, SQL, protobuf and null forms. Ledger: the Postgres store. Retry: the poll loop and
--   the timers of the consumer. Audit: `Query`, retention, the buffered writer and the limiter of
--   denials. Stream: the timers, the headers of the response and a reader pool that lags. Limits: the
--   floating-point headers of a result. Outbox: `Enqueue` as a whole, the lock of the leader and the
--   publisher to Kafka. Partitions: the gauges. Consume: the option that skips the inbox. Projection: the
--   pending insert, the lists and the cache. Redelivery: polls, commits and seeks. Cqrs: caching, tracing,
--   logging and metrics. The other packages of the platform, the other parts of the gateway, the
--   notifications example and the commands are left out: most of it drives third-party packages.

pub mod Prelude
pub mod Dict
pub mod Decimal
pub mod Money
pub mod Ledger
pub mod Orders
pub mod Payments
pub mod Limits
pub mod Retry
pub mod Tx
pub mod Inbox
pub mod Outbox
pub mod Partitions
pub mod Lineage
pub mod Consume
pub mod Projection
pub mod Redelivery
pub mod Cqrs
pub mod Audit
pub mod Stream
pub mod Tests
