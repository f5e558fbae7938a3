-- ===== src/Lib.antt =====
-- Backuply: replication of folders between peers, with an index of each folder, atomic installation of
-- files, and a block protocol over TLS.
--
-- The parts, and how they meet. A peer's folder is scanned into an index (internal/store/scan.go,
-- internal/store/store.go). Another peer asks for that index and for blocks of its files
-- (internal/transport/transport.go), which are served from the index and the disk, and it installs the
-- files with what it has fetched (internal/store/apply.go). Paths and entries that come from a peer are
-- checked first (internal/store/files.go). A device is known by its certificate
-- (internal/identity/identity.go), and its folders and peers come from a file
-- (internal/config/config.go). The daemon (internal/daemon/daemon.go) scans its own folders, replicates
-- those of its peers, and decides which peer is served what.
--
-- - Model: internal/model/model.go. Fields that a peer sends are integers, statistics are 64-bit words.
-- - Text, Text.Split: Go strings as lists of bytes, with what is used of strings and unicode/utf8.
-- - Store.Limits, Store.Error: the constants of internal/store/store.go, and the errors of the package.
-- - Store.Path, Store.Validate: `validPath`, `validHash` and `ValidateEntry` of files.go.
-- - Store.Codec: JSON of entries and SHA-256, as parameters.
-- - Store.Index: the tables and triggers of `Open`, `get`, `put`, `checkCapacity` and the transaction of
--   `Scan`, as functions on a `Db`. Store.Index.Open: how `Open` computes the totals anew.
--   Store.Listing: `List`.
-- - Store.Disk, Store.Root: the file system as os.Root shows it, and its calls.
-- - Store.Exec: actions on a `World` of disk and index. Before each call of the operating system or of
--   the database an `Event` of the environment may change the disk and make the call fail.
--   Store.Exec.Keeps has the rules for proofs about actions, Store.Exec.Inversion those about runs
--   that return.
-- - Store.Folder, Store.Fingerprint, Store.Init: the other functions of files.go.
-- - Store.Apply: `Apply`, cut into its stages. Store.Source: `ReadBlock`. Store.Scan: `Scan`.
-- - Store.Runs: runs of `Apply` and `Scan` one after the other.
-- - Config: `Config`, `Peer` and `Folder` of internal/config/config.go. Config.Parse: `Parse` up to its
--   checks, line by line. Config.Names, Config.Address, Config.Paths: the patterns, `validAddress`,
--   `containsPath` and `canonicalPath`. Config.Validate: `Validate`. Config.Library has what is used of
--   strconv, time and the file system, as parameters.
-- - Identity.Certificate, Identity.Tls: `validateCertificate`, `verifyPeer`, `ServerTLS` and `ClientTLS`
--   of internal/identity/identity.go. Identity.Pair, Identity.Load, Identity.Create: `Load`,
--   `LoadOrCreate` and `writeExclusive`, on a directory whose calls may fail (Identity.Directory).
-- - Base.Action: actions on the state of a package, for Identity and Daemon.
-- - Daemon.Status: `FolderStatus` and `update` of internal/daemon/daemon.go. Daemon.Access: `authorize`,
--   `List` and `ReadBlock`, which serve the requests of Transport.Server with the store's functions.
--   Daemon.Scan: `scan`. Daemon.Replicate: a round of `replicate`, with the store's `Apply`.
-- - Transport.Conn: one side of a connection, as the bytes that came and the bytes written.
-- - Transport.Frame, Transport.Message: frames and control messages. Transport.Server:
--   `handleRequest` and the loop of `serveConn`. Transport.Client: `Client.List` and
--   `Client.ReadBlock`. Transport.Exchange: both sides together.
-- - Transport.Session: `validateTLS`, the greeting of `Dial` and `serveConn`, and the loop of the latter.
--   Transport.Serve: `Serve`, as steps of the accept loop, the shutdown goroutine and the sessions, and
--   which of them are bound to come.
-- - Command: `execute` of cmd/backuply/main.go, with the flags that each command defines, up to the
--   operation that it runs. Parsing the arguments for the defined flags is a parameter.
--
-- Fuel: the loop of `fingerprint` runs on the number of blocks that the size gives, which covers the
-- file. The recursion of `Scan`'s walk runs on 4098 levels, since a path that deep is longer than
-- `validPath` accepts. The loop of `Client.List` counts down the entries that may still come. The
-- loop of `serveConn` runs on a number of requests, and has ended by itself before that number when
-- it is more than the bytes that come.
--
-- Not modelled: mutexes and the closing of handles, which leave no trace in one call; what JSON,
-- SHA-256, crypto/x509 and crypto/tls compute, which are parameters; the opening of the database;
-- deadlines, beyond a call that fails; the gate of `Client.operation`, and a context of a client's call
-- that ends before the call; the goroutines and sockets that `Run` starts, `QueryStatus`, the
-- log and the lock file of internal/daemon; and what the operations of cmd/backuply print.
pub mod Base
pub mod Text
pub mod Model
pub mod Config
pub mod Store
pub mod Identity
pub mod Transport
pub mod Daemon
pub mod Command
