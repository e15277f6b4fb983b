-- ===== src/Lib.antt =====
-- The Node.js driver of TypeDB (nodejs/): its connection to the servers of a database, the stream
-- that a transaction runs on, and the values that it gives to its callers.
--
-- A driver holds a stub for each server. A database keeps the replicas that the servers advertise and
-- runs each task on one of them, with a failover to the others; the database manager keeps a cache of
-- databases; a session is opened on a database and makes transactions; a transaction owns a
-- bidirectional stream, whose dispatcher writes requests in batches and whose collectors hand each
-- response to the request with its id. Errors carry the template that the failover recognises them by.
--
-- Prelude holds what the parts share, and Prelude.Assoc JavaScript's maps. Effect is the monad of the
-- asynchronous methods: a method takes a state to a result, or an error, and a state. Awaiting is the
-- composition of methods, so methods that run at once are sequences of events where a part says so
-- (Transport) and run one after the other elsewhere.
--   Errors.Templates, Errors.Code: nodejs/common/errors/ErrorMessage.ts, the constants and `code`.
--   Errors.DriverError: nodejs/common/errors/TypeDBDriverError.ts, its constructor as `of_string`,
--     `of_template`, `of_service` and `of_cause`.
--   Rpc.Messages: the messages of nodejs/common/rpc/RequestBuilder.ts that the connection sends.
--   Rpc.Stub: nodejs/common/rpc/TypeDBStub.ts and nodejs/connection/TypeDBStubImpl.ts; `unary` is the
--     promise around a call, and `may_renew_token` is `mayRenewToken`.
--   Transport.BlockingQueue, Collector, Dispatcher, Transmitter, Bidirectional, PartIterator:
--     nodejs/common/util/BlockingQueue.ts and nodejs/stream/; objects that are shared stand in a heap.
--   Stream: nodejs/common/util/Stream.ts.
--   Connection.Network: what the connection uses of the stubs, as an interface.
--   Connection.Stubs: the stubs of Rpc.Stub as such a network.
--   Connection.Database, Databases: nodejs/connection/TypeDBDatabaseImpl.ts and
--     TypeDBDatabaseManagerImpl.ts; the loops `primary_from` and `seek_from` are on the rounds left.
--   Connection.Driver: nodejs/connection/TypeDBDriverImpl.ts; `open_servers` is `openCloud` once the
--     servers' addresses are known.
--   Connection.TypeDb: nodejs/TypeDB.ts, nodejs/api/connection/TypeDBCredential.ts, and the getters of
--     a driver that is open; Connection.TypeDb.Channel has the channel of a stub.
--   Connection.Users: nodejs/user/.
--   Connection.Options: nodejs/api/connection/TypeDBOptions.ts.
--   Connection.Session, Transaction: nodejs/connection/TypeDBSessionImpl.ts and
--     TypeDBTransactionImpl.ts.
--     Connection.Transaction.Managers has the fields that opening a transaction sets, and
--     Connection.Session.Pulses has the pulse as steps, between which the session may be closed.
--   Answer.ConceptMap, Label: nodejs/concept/answer/ConceptMapImpl.ts and nodejs/common/Label.ts.
--     Answer.Groups reads maps whose concepts may not be readable, and groups of answers
--     (nodejs/concept/answer/ConceptMapGroupImpl.ts, ValueGroupImpl.ts).
--   Concept: nodejs/concept/, its types, things and values as data. Concept.Casting has the methods
--     `isX` and `asX`, Values those of values by their type, Equality `equals`, Annotations the class
--     `Annotation` of nodejs/api/concept/type/ThingType.ts, Bytes nodejs/common/util/Bytes.ts, Reading
--     the functions `of...Proto` and nodejs/common/rpc/ResponseReader.ts, Tree
--     nodejs/concept/answer/ReadableConceptTreeImpl.ts, RolePlayers `getRolePlayers` of
--     nodejs/concept/thing/RelationImpl.ts, Manager nodejs/concept/ConceptManagerImpl.ts and the
--     methods `isDeleted`, and Overloads the methods of types and things whose arguments choose among
--     overloads.
--   Methods: the methods of nodejs/concept/type and nodejs/concept/thing that send a request and read
--     its answer, a module for each class; Messages has the requests of
--     nodejs/common/rpc/RequestBuilder.ts, and Calls the methods `execute` and `stream`.
--   Logic: nodejs/logic/.
--   Query: nodejs/query/QueryManagerImpl.ts; `in_parts` is the body of the methods that give a stream,
--     and `one_by_one` that of `explain`; Query.Readers has what each method reads of an answer.
--   Examples: tests, and each result at concrete inputs.
-- The child modules of a part hold its laws.
--
-- Fuel: the loops of the failover have the ten rounds of the source. `show` of a number has a round
-- for each unit, and every round divides by ten. `iterate` has a round for each element received and
-- one more. All other loops go through a list.
--
-- gRPC, its channels and TLS, `uuid`, timers, the clock and the file system are parameters.
-- Protobuf messages are records of the fields that are read; the options and the latency in the
-- requests that open a session or a transaction, and the byte form of request ids, are left out.
-- Logging is left out. Numbers of JavaScript are of any type, `==` on them and `toISOString` are
-- parameters, and so is Node's `Buffer`. A plain object that is asked with `in` has the keys of
-- `Object.prototype`; that assigning to `__proto__` changes what an object inherits, and that
-- integers come first among the keys of an object, is left out. A `Date` that is read of a message
-- is one object for all messages of a stream. Steps between the pulses of a session are those of
-- the pulses and `close`; a reconnection is not one of them. Not modelled: the drivers of other
-- languages.
pub mod Prelude
pub mod Errors
pub mod Effect
pub mod Rpc
pub mod Transport
pub mod Stream
pub mod Connection
pub mod Answer
pub mod Concept
pub mod Logic
pub mod Query
pub mod Methods
pub mod Examples
