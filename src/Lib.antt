-- ===== src/Lib.antt =====
-- A model of the control plane of astra-sync (control-plane/), with proofs.
--
-- astra-sync moves data between connectors. Its control plane keeps one record for each sync job and
-- replicates what is needed to move a job to another region. Parts and files:
--
-- * Job (Job.antt, Job/): the package control-plane/job. Error.antt has the states of model.go and
--   one constructor for each error message; Spec.antt, Status.antt and Model.antt have keys, specs,
--   statuses and records of model.go with their `Validate`; Lifecycle.antt has lifecycle.go
--   (`ReplaceSpec`, `Deletable`, `RequestStart`, `RequestStop`, `Advance`); Memory.antt has
--   memory/repository.go (`Create`, `Get`, `List`, `Update`, `Delete`) and the pages of
--   repository.go; Mutation.antt has the validations of mutation.go. The users' requests and the
--   controller's reports are the operations of Lifecycle; the record they return goes through
--   `Update`, which compares versions.
-- * Wal (Wal.antt, Wal/): control-plane/replication/wal/wal.go. Bytes.antt and Crc.antt have what
--   encoding/binary and hash/crc32 compute; Entry.antt has `MarshalBinary` and `UnmarshalBinary`;
--   Keys.antt has `entryKey` and `parseSequenceFromKey`; Storage.antt is the interface
--   `ObjectStorage`; Writer.antt has `append`, `runFlusher`, `Close` and `flushLocked`; Reader.antt
--   has `ReadNext` and `ReadBatch`. Writer and reader meet only in the store.
-- * Promotion (Promotion.antt, Promotion/): control-plane/replication/promotion/promotion.go.
--   Record.antt has the record and `TransitionTo`; Manager.antt has `Promote`.
-- * Recovery (Recovery.antt, Recovery/): control-plane/replication/recovery/recovery.go. Record.antt
--   has the record and `TransitionTo`; Manager.antt has `Recover` and `downloadFile`.
-- * Replicator (Replicator.antt, Replicator/): control-plane/replication/runtime/replicator.go.
--   Send.antt has `sendWithRetry`; Loop.antt has `Run`. It takes what a reader of the log returns.
-- * Publisher (Publisher.antt, Publisher/): control-plane/replication/checkpoint/publisher.go.
--   Publish.antt has `Publish`, the client of the writer's `AppendDurable`.
-- * Connection (Connection.antt, Connection/): the package control-plane/connection and
--   connection/memory/repository.go. Settings.antt and Model.antt have model.go (`Validate`, `New`,
--   `Replace`, `Rotate`, `SetState`, `SortSettings`); Policy.antt has test_policy.go; Operation.antt and Mutation.antt
--   have the types and validations of repository.go; Store.antt has the state of the in-memory
--   repository and its reads, Apply.antt `Apply` and `applyLocked`, Limits.antt `hasActiveTest` and
--   `testLimitExceeded`, Expiry.antt `ExpireTests` and `expireLocked`, Claims.antt `ClaimTests` and
--   `CompleteTest`; Calls.antt has runs of all of these. A client edits a copy of a connection and
--   applies it at the version that it got.
-- * Topology (Topology.antt, Topology/): control-plane/replication/topology/config.go. Config.antt has
--   the checks of `parseTopology`, Loader.antt the `Loader`: `load`, `Reload` and the lookups.
--   Promotion asks it which regions stand by.
-- * Auth (Auth.antt, Auth/): control-plane/auth. Permissions.antt, Principal.antt and Authorizer.antt
--   have the files of these names, Audit.antt the validations of audit.go, Session.antt those of
--   session.go and `Authenticate` of authentication.go.
-- * Egress (Egress.antt, Egress/): control-plane/scheduler/internal/connectiontest/egress.go. Address.antt
--   is what it uses of net/netip, Denied.antt has the classes of addresses, Host.antt the names of hosts,
--   Guard.antt `Resolve`, which takes the policy of Connection, and `DialContext`.
-- * Prelude (Prelude.antt, Prelude/): Boolean tests, lists, maps, sorting, signed machine integers, Go strings as
--   bytes, results, and Exec.antt, the monad of code that changes a record, lists the calls that it
--   makes, and may fail.
--
-- The proofs are in the modules Laws of each part, the tests and instances in its module Tests.
--
-- Conventions. An `int64` or `int32` is an integer, and an increment wraps at the width of its type. A
-- time is a number of nanoseconds since the zero `time.Time`; the current time is an argument. An error
-- is a value of the type that names it. A method under a mutex is one step; `Close` of the writer gives
-- its mutex up once and is two steps. Slices that a caller shares with the program are values, so what
-- a caller does to them afterwards is not modelled. A read past the end of a slice is the error that is
-- named for it. Calls of an injected component that may fail are values of a record (`Services`,
-- `Sources`) or a list of what happens in the calls to come (`Store`, `World`). A put of the object store that
-- fails leaves the objects as they were. The states of promotions and recoveries are open integers, as
-- in the code.
--
-- Bounds. All loops are recursion over a list or a text. The width of `%016d` is counted up to 20
-- digits, which holds every `int64`. CRC-32C is computed bit by bit.
--
-- Parameters. Whether a text parses as a UUID is `is_uuid`, the answer of github.com/google/uuid. In
-- Connection, the record `Outside` also holds what net/netip makes of a prefix and crypto/sha256 of a
-- text. In Egress, the record `Network` holds the
-- parsers of addresses, prefixes and ports, and the resolver; `dial` answers the attempts to connect. In
-- Topology, `unmarshal` is what gopkg.in/yaml.v3 makes of a text.
--
-- Not modelled: metrics, logs, contexts and timeouts; `resumeSequence` of a restarted writer; the
-- repositories on PostgreSQL; `NewLoader` and the topology watcher; the rest of the scheduler; the verification of tokens, the API server, the
-- controller and the console; generated code; the Java data plane.
pub mod Prelude
pub mod Job
pub mod Wal
pub mod Promotion
pub mod Recovery
pub mod Replicator
pub mod Publisher
pub mod Connection
pub mod Topology
pub mod Auth
pub mod Egress
