-- ===== src/Lib.antt =====
-- A verification library for aws-build-farm: a server of the remote execution protocol, whose blobs
-- and action results live in a content-addressable store and whose actions run in micro VMs.
--
-- The parts, and the files of this library that model them:
-- - internal/digest/digest.go: `Digest`. FromBytes, IsEmpty, Key and Validate are from_bytes, is_empty,
--   key and validate. A nil *repb.Digest is `none`.
-- - internal/cas/cas.go: `Cas.Interface` is the interface Store, as a record of the operations and the
--   laws that its clients rely on; `Cas.Reader` has the readers that a store returns.
-- - internal/cas/memstore.go: `Cas.MemStore`, and `Cas.MemStore.Laws` makes it a `Store`. Each method
--   runs under the lock, so it is a function of the two maps.
-- - internal/cas/cas.go again: `Cas.S3Store` is S3Store with NewS3Store, blobKey, acKey, byteRange, isNotFound and
--   all methods, over the parameter `Cas.S3`; `Cas.S3Store.Laws` makes it a `Store`.
-- - internal/server/cas_service.go: `Server.Blobs` (BatchUpdateBlobs, putOne, BatchReadBlobs),
--   `Server.Missing` (FindMissingBlobs), `Server.Tree` (GetTree), `Server.Resource` (parseReadResource,
--   parseWriteResource, digestFrom) and `Server.ByteStream` (Read, Write, QueryWriteStatus).
-- - internal/server/actioncache.go: `Server.ActionCache`.
-- - internal/server/operations.go: `Server.Operation` is one opEntry, its publish, and the loop of
--   `stream` as a machine whose steps interleave with the updates (`Server.Operation.Watching`);
--   `Server.Waiting` is the loop of WaitOperation in the same way;
--   `Server.Operations` is OperationManager with New, lookup, GetOperation, ListOperations,
--   DeleteOperation and CancelOperation.
-- - internal/server/execution.go: `Server.Execution` is fetchAction and runAction, which gives the
--   operations that it publishes and the store that it leaves; Execute and WaitExecution, up to the
--   stream that they return, are in `Server.Operations`. The interface Runner of
--   internal/server/server.go is a record of that name.
-- - internal/server/server.go also has GetCapabilities: `Server.Capabilities`.
-- - internal/task/task.go: `Task`, the messages between the executor and the agent.
-- - internal/microvm/executor.go: `Microvm` (the configuration and the helpers), `Microvm.Boot`
--   (waitRunning and waitHealthy) and `Microvm.Run` (dispatch and Run). `Microvm.Run.Delivery` joins
--   the executor and the agent.
-- - internal/casfs/casfs.go: `Casfs.Materialize` (Materialize, checkName) and `Casfs.Capture`
--   (CaptureFile, CaptureDirectory, buildDirectory). `Casfs.Trees` has directories as data: what a host
--   shows, the messages and blobs of a directory, and the calls that make it.
-- - cmd/executor-agent/main.go: `Agent` has outputPaths, attachStream and buildEnv, `Agent.Outputs`
--   captureOutputs, `Agent.Work` runTask in a given store, `Agent.Remote`
--   runTask with the store that it makes of its task, `Agent.Handler` handleExecute and writeResult, and `Agent.Routes`
--   the handlers that main registers.
-- - cmd/buildfarm-server/main.go: `Farm` is run, from the parsed flags to the server that it serves, with
--   connectors, defaultIngress and defaultEgress; Server, New and ExecutionEnabled of
--   internal/server/server.go are there too.
-- `Prelude` and `GoText` are the shared helpers: Boolean tests, lists, integers, results, Go maps, and
-- encoding/hex, strconv, strings.Split, strings.TrimSpace, utf8.Valid and path.Join as the program uses them. `Server.Status` has the
-- statuses, with one constructor for each error format. `Proto` has the fields of the messages that are read.
--
-- How it is modelled. Handlers take the state of the store and return the next one. An error is a value
-- of `Result`, whose third constructor is a run-time panic. Every handler is proved over any `Store`, so
-- a store may fail at any call. The goroutines of FindMissingBlobs are orders of their final steps. Go
-- strings and byte slices are lists of byte values.
--
-- A store keeps its blobs apart only under some hashes, the names of `IsName`: in memory all of them, in S3
-- those that path.Join leaves alone, and always the hashes of valid digests. A call that may also run out
-- of fuel is an Option of an outcome and a state (`Prelude.Calls`).
--
-- Parameters: SHA-256 (`Sha256`), the encoding of messages by protobuf (`Codec`) and as JSON
-- (`JsonCodec`), the store (`Store`), the runner (`Runner`), the client of S3 (`S3`), the API of the machines with the HTTP client and the
-- clock (`World`), the calls of the packages os and os/exec (`Os`), the texts of errors, the names
-- that uuid gives, the order in which range visits a map, the AWS configuration with the network
-- (`Platform`), and the faults of streams and of the temporary file. The laws of `Sha256` say the
-- length of a sum and its value at no bytes, and do not exclude collisions. Those of `JsonCodec` say that a
-- message is decoded to itself if its strings are valid UTF-8, since encoding/json alters other strings. A
-- `Runner` has no laws: what a theorem asks of one is among its hypotheses.
--
-- Fuel and bounds: the digits of n take the fuel n + 1, since each step divides by ten; cutting a content
-- into chunks takes its length as fuel, since each chunk has a byte at least; GetTree takes one step for
-- each directory of the tree and one for the end. A cycle of directories, which Write can bring about,
-- has no tree, and no fuel is enough for it, as the loop of the source does not end on it.
-- The loops that wait for a machine take one round more than the seconds of the start-up timeout, since
-- each round but the last sleeps a second. Materialize and buildDirectory take a unit for each level of the tree.
-- Sizes and offsets are integers without a bound, and `parse_int` keeps the bound of int64. The address
-- of an update and the number of a channel are natural numbers, as the source compares pointers only.
--
-- Not modelled: Register and the registration of services with gRPC; flag.Parse; the redirections of
-- net/http; the metadata of an execution; logging, contexts other than as
-- lost connections, deadlines and interrupted sleeps, and the texts of errors that are only passed on.
pub mod Prelude
pub mod GoText
pub mod Digest
pub mod Proto
pub mod Cas
pub mod Server
pub mod Task
pub mod Os
pub mod Casfs
pub mod Agent
pub mod Microvm
pub mod Farm
mod Tests
