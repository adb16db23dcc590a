-- ===== src/Lib.antt =====
-- The server of rsmsg, a messenger whose messages are encrypted on the devices, the requests and
-- responses that it shares with its clients, the cryptography of the clients, their core and
-- what their application keeps (crates/server, crates/shared, crates/crypto, crates/client-core and
-- crates/client-ui).
--
-- The parts. A request reaches router.rs, where version_gate.rs turns old clients away. A handler of
-- handlers/ authorizes the device by auth.rs, where it must, and calls the operation in domain/, which
-- checks the request and calls repository/, one function for each SQL statement on the tables of
-- migrations/. services/messages.rs is the transaction that gives out pending messages, shared by the
-- handler that fetches them and by the WebSocket session of domain/realtime.rs. Beside the tables there
-- are the presence of devices (realtime.rs), the queue of call signals (call_signaling.rs) and the login
-- rate limiter (login_rate_limit.rs).
--
-- A client keeps a session for each peer: a shared key, derived from both identity keys, and a chain of
-- keys for each direction, which moves on by one with every message (the ratchet of core.rs). core.rs
-- seals texts, sends them through transport.rs, and decrypts what it fetches; files go as encrypted blobs
-- in chunks. The sessions and the keys of the device are kept in JSON files, encrypted under a password
-- where there is one (session_store.rs, key_store.rs and local_vault.rs).
--
-- The files. Base has lists, texts, tests and the laws of tables. Shared has the records of
-- crates/shared/src/lib.rs. Server.State has the tables, with the columns that the program reads, and
-- the state in memory. Server.Monad has the shape of a handler: it takes a `Moment` and the state, and it
-- returns a value or an `ApiError`, with the state that it leaves; `query` is a call of the repository,
-- `transaction` is begin, a body and commit. Server.Library has what other packages do (uuid, base64,
-- argon2, sha2, the collation and ILIKE of PostgreSQL) as the fields of a record that the code is given;
-- what is documented of them is a record of laws. Server.Repository.*, LoginRateLimit, Realtime, Auth,
-- VersionGate, Services.*, Domain.* and Handlers.* have the functions of the source file of that name,
-- under the source's names; domain/user.rs is Domain.Registration, Domain.User and Domain.Blocking, and
-- domain/realtime.rs is Realtime and Domain.Session. Handlers.Router.serve is the whole of build_router.
-- Server.History runs lists of requests. Server.Keeps, Statements and Preserved carry an invariant of the
-- statements through every handler to every request; WellFormed, Lasting and Undone use them. The other
-- modules of Server have the theorems about one component, and Tests the runs at concrete inputs.
-- Crypto.Engine is crates/crypto/src/lib.rs, with its primitives as the fields of Crypto.Primitives and
-- the bytes that its functions draw as arguments. Client is crates/client-core: Types, Storage, Vault,
-- KeyStore and SessionStore are the files of these names (local_vault.rs is Vault), Transport with its
-- children is transport.rs, and Ratchet and Core with its children are core.rs, under the names of its
-- methods. Client.Act has the shape of a method: it takes a state, and returns a value or an error with
-- the state that it leaves. Client.Library has what other packages do (serde_json, argon2, uuid), and
-- Client.Network has the network: what it answers to a request, of which the body is a route of
-- Server.Handlers.Router. Client.Core.Setup is what does not change of a client, and
-- Client.Core.ClientCore its state, with its files, its network and the number of random draws.
-- Ui is crates/client-ui, as far as it decides and does not draw: Localization, History, Settings,
-- Updater and Bubble (message_ui.rs) are files, and State, Identity, Messages, Incoming, Sync and Workers
-- the methods of app.rs on chats and identities. An operation there takes the state of the application and
-- gives the next one, whose effects are what it started; what a worker ended with is an argument.
--
-- The bounds. A time is a number of milliseconds and a number is natural, or an integer where the
-- source has a signed one; the parser of versions keeps to 64 bits. Sizes of rows, sequences of
-- the database and the `u32` counters of the server are not bounded (those of the application
-- wrap): the limiter's counter starts anew with every window. Loops are recursions on the list
-- that they go through. The loop that skips messages in the ratchet has as many rounds as there
-- are messages to skip, after which its condition is false; chunks has as many rounds as there are
-- bytes. The counters of the ratchet are 64 bits and wrap.
--
-- What a request meets. A `Moment` has the time, which is one and the same for all clocks that a request
-- reads, the calls of the database that fail, the random values, and the rows that other transactions
-- hold locked, which FOR UPDATE SKIP LOCKED passes over. A statement that fails changes nothing, and a
-- commit that fails rolls back. Requests run one after the other: the interleaving of the statements of
-- two requests is not modelled beyond the locked rows. Rows that ORDER BY leaves equal come in the order
-- of the table.
--
-- A call of a client runs on its own: the locks around the sessions and the password are not modelled. A
-- HashMap is an association list, whose order stands for the one in which it is gone through.
--
-- What is not modelled: HTTP and JSON, beyond what comes back of a request and what is read of it, and the
-- limit on the size of a body; time-outs; directories; logging, tracing and statistics in the log;
-- connecting to the database, reading the environment and starting up (main.rs and most of
-- bin/generate_invite.rs), which only do I/O; of crates/client-ui drawing, media, the tray, notifications
-- beyond their texts, the workers of app.rs that run the methods of core.rs, logging in and out, and calls
-- beyond their ringing.
pub mod Base
pub mod Shared
pub mod Server
pub mod Crypto
pub mod Client
pub mod Ui
pub mod Tests
