-- ===== src/Lib.antt =====
-- T.U.S.H.E.R keeps shared folders of several nodes in step. Every node has a catalog of files and
-- a log of changes in SQLite (crates/tusher-metadata). Nodes tell each other their changes since a
-- sequence number, each change is judged against the local catalog, and contents are then pulled
-- over the peer connection as messages in frames (crates/tusher-core). A coordinator reacts to
-- local changes, to messages and to a timer (crates/tusher-sync), over connections that a manager
-- keeps alive (crates/tusher-network). Three programs run these services: a desktop program with a
-- web dashboard and a tray icon (crates/tusher-desktop), a library for Android (crates/tusher-ffi)
-- and a command line (crates/tusher-cli).
--
-- Base holds what the parts share: lists, decidable equality, texts as lists of UTF-8 bytes, paths
-- as std::path reads them, `i64` values as integers with the casts from `u64`, and outcomes of code
-- that returns, fails or panics.
--
-- Core: crates/tusher-core/src. Core/Keys has crypto.rs and node ids made of keys, Core/Identity
-- the kept identity of identity.rs, Core/Types has types.rs and the identifiers of identity.rs,
-- Core/Protocol the messages of protocol.rs, Core/Codec the functions `decode` and `encode` of
-- `MessageCodec`; a buffer is a list of bytes, and what a call leaves in it is returned.
--
-- Metadata: crates/tusher-metadata/src. Metadata/Models has models.rs. Metadata/Tables has the
-- tables that db.rs declares as lists of rows, with the constraints its statements run into.
-- Metadata/Db has the operations of `MetadataDb` in db.rs under their names, each from the database
-- before to the one after; the modules under it state what they do. Metadata/Reconciler has
-- `reconcile_event` and `generate_conflict_path` of reconciler.rs, and Metadata/Service the methods
-- of service.rs that do more than forward a call.
--
-- Transfer: crates/tusher-transfer/src. Transfer/Hash has hash.rs, Transfer/State `TransferState`
-- of state.rs, Transfer/Disk the files as a lookup function on paths and the calls of tokio::fs on
-- them, Transfer/Receiver the handlers of `FileReceiver` in receiver.rs, from the receiver and the
-- disk to what is left of both and the answer, Transfer/Service the dispatch in service.rs, and
-- Transfer/Sender `FileSender` of sender.rs over a connection that is a parameter.
--
-- Network: crates/tusher-network/src. Network/Transport has addresses, beacons and the endpoints of
-- Tailscale (transport.rs, discovery.rs, tailscale.rs), Network/Discovery the loops that send and
-- receive beacons and the use of the Tailscale command, Network/Connection the handshake, the
-- reader task and pings of connection.rs and the PIN of pairing.rs, Network/Pairing its
-- invitations, Network/Manager `ConnectionManager` of manager.rs with the trusted peers: each
-- operation from the manager before to the one after.
--
-- Sync: crates/tusher-sync/src. Sync/Watcher has watcher.rs: the state of the debouncer, and its
-- loop over the instants at which it wakes, alone and among the suppressions of other tasks.
-- Sync/State has the state of `SyncCoordinator` in
-- coordinator.rs, made of catalog, transfer and watcher, with its own maps and the messages sent;
-- Sync/Messages `handle_peer_message`, whose spawned tasks are returned; Sync/Reconcile
-- `reconcile_with_peer`; Sync/Local registration, the initial scan and the bodies of the tasks of
-- `start`. Operations run one after the other, without interleaving. A connection is what it lets
-- through and what answers when a manifest is awaited; the connections that the manager keeps are
-- the subject of Network.
--
-- Mesh: what the three programs share: the services of a running node as one record, their start
-- over a catalog, and the calls that share a folder, send a file, connect and trust. What a program
-- runs on (the crates below, the clock, directories and the network) is the record `Host`.
--
-- Desktop: crates/tusher-desktop/src. Desktop/Web has the handlers of web.rs, from the state of the
-- program to what they answer, Desktop/Shell the entries of the context menu in shell.rs over a
-- registry that is a parameter, Desktop/Tray the loop of tray.rs over the messages of Windows, with
-- the callbacks of main.rs, and Desktop/Subcommands the subcommands of main.rs.
--
-- Cli: crates/tusher-cli/src/main.rs. Cli and Cli/Folders have a function for every command,
-- Cli/Dispatch the choice of a command by the first word and the loop over the lines. What is
-- printed is a list of values. Base/Words has the words of a line as the standard library cuts
-- them.
--
-- Ffi: crates/tusher-ffi/src/lib.rs, the operations of `TusherNode` and its start.
--
-- Tests holds runs at concrete data and the theorems at inputs that meet their hypotheses.
--
-- Parameters: serde_json (`SerdeJson` and `StateJson`: what was written is read back), the hasher
-- of sha2 (`Sha256`: updates one behind the other hash the bytes one behind the other), the reading
-- of an integer column as `u64` by rusqlite (`Rusqlite`: negative values are refused), the text
-- that chrono makes of a time stamp, the encodings and cryptography of a connection (`Crypto`),
-- what is reached at a network address, what walkdir lists, what notify reports, the registry of
-- Windows (`Winreg`: keys that are made are there, and gone once deleted), and the clock, an
-- argument of each operation that reads it. A transaction that fails is rolled back, so an error
-- carries no database.
--
-- Bounds: sizes and versions are stored as `i64`, so theorems on reading them back ask for values
-- below 2 ^ 63. Reading a stream of frames runs on fuel, and fuel above the number of messages is
-- enough. Hashing a file runs on as much fuel as it has bytes, and every read gives one at least.
-- Sizes of files are below 2 ^ 63, so rounding up to whole chunks does not overflow.
--
-- The loop of the debouncer runs over the list of its wakes, and a count of missed pings stays
-- below three. Durations are in milliseconds, round trips in microseconds.
--
-- A file is known by the text of its path, so two texts for one file, by `..` or a link, count as
-- two. The set of completed chunks is kept in ascending order, which a `HashSet` does not promise.
-- Folders are registered where their directory is there or can be made.
--
-- Not modelled: opening and locking a database file, SQLite failures other than constraints,
-- directories and I/O faults of the staged files, sockets, the writer task of a connection, tasks
-- that interleave inside an operation, the reading of the programs' arguments, the routes of HTTP
-- and the texts of its errors, windows, icons and labels of the tray, the layout of printed text, the
-- generator of bindings (crates/tusher-ffi/src/bin/uniffi-bindgen.rs), and the Android application.
pub mod Base
pub mod Core
pub mod Mesh
pub mod Desktop
pub mod Cli
pub mod Ffi
pub mod Metadata
pub mod Transfer
pub mod Network
pub mod Sync
pub mod Tests
