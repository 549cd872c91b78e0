-- ===== src/Lib.antt =====
-- tailsync keeps a directory tree in step between the machines of one tailnet. A daemon scans
-- its tree into an index of files and tombstones, exchanges manifests with its peers, decides
-- by a last-writer-wins order which version of a path stays, and pulls content whole or as an
-- rsync-style delta.
--
-- The parts, and the files that model them:
--
-- - Common: what the parts share. Booleans, keys and comparison (Common), lists over the native
--   natural numbers (Common/Lists), comparators (Common/Cmp), maps as association lists
--   (Common/Table), and Go's int where it can be negative (Common/Int). A Go string is the list
--   of its bytes (Text).
-- - Index (internal/index/index.go): Entry, the map of entries, Wins as wins and
--   compare_entries, and the mutating methods. Index/Order is about the order, Index/Merge
--   about SetIfWins as a merge of replicas, Index/Methods and Index/Gc about the methods,
--   Index/Disk about load and save. A time is the number of nanoseconds since the zero time.
--   The JSON codec and the reading of a file are parameters; the write of an index is part of the
--   interface FileIo, which AtomicFile's write_file fills (atomic_io).
-- - Delta (internal/delta/delta.go): the weak checksum and its rolling form (Delta,
--   Delta/Checksum), SignBytes (Delta/Sign), EncodeBytes with the rolling search
--   (Delta/Encode), Apply (Delta/Apply), and both binary forms (Delta/Wire/Numbers,
--   Delta/Wire/Deltas, Delta/Wire/Signatures, Delta/Wire/Bounds). Delta/Expand and Delta/Patch
--   give the meaning of a list of ops on its own, Delta/RoundTrip relates it to the code, and
--   Delta/Size counts ops. The strong hash is a parameter of the model.
-- - Proto (internal/proto/proto.go): the messages, their constructors, Encode and Decode. The
--   JSON codec of the header is the record HeaderCodec, the stream the record Writer.
--   Proto/Frame and Proto/Bounds are about the framing.
-- - AtomicFile (internal/atomicfile/atomicfile.go): WriteFile and WriteFileRoot over the
--   operations of a file system (FileOps), each of which may fail; AtomicFile/Atomic states what
--   is relied on of them (Lawful) and what the writers then leave.
-- - PathUtil (internal/pathutil/pathutil.go, daemon/path.go): the reserved names, CleanRel and
--   relPath (PathUtil/Clean), with PathUtil/Confined about the paths they accept. The functions
--   of path/filepath are parameters, and the separator is the slash.
-- - Scan (internal/scan/scan.go): the walk over a tree, the comparison with the index, and
--   Apply. Scan/Walk, Scan/Changes and Scan/Reconcile are about the two loops of Scan, Scan/Listed
--   says without the walk which files it has to find, Scan/InStep puts them together, and
--   Scan/Stamp is about the clock of a local change. The hash of a file is a parameter, and the
--   tree is a list of directory items in the order of the walk.
-- - Daemon (daemon/*.go): Daemon/Decide is decideApply, Daemon/Apply what changes index and
--   directory under syncMu, Daemon/Apply/Remote applyRemote as two steps with the lock released
--   between them, Daemon/Exchange the requests for a manifest, a file and a delta, Daemon/Pull
--   pullFromSession with the whole of applyRemote, Daemon/Serve and Daemon/Stream the answers to
--   requests up to handleStream, Daemon/Reconcile reconcile, Daemon/Flight pullFlight
--   with schedulePull,
--   Daemon/Notify the bookkeeping of advertisements, Daemon/Notify/FanOut scheduleNotify,
--   Daemon/MeshTrust who may join, and Daemon/Net what is made of the answers of Tailscale's
--   LocalAPI (net.go). Daemon/Ledger takes the index as one entry for each path and the daemon as
--   a step relation over it.
--   Daemon/Apply/Safe, Daemon/Apply/Verified, Daemon/Apply/Clock, Daemon/Exchange/PullDelta,
--   Daemon/Reconcile/Saved, Daemon/Reconcile/Unsaved, Daemon/Net/Hello, Daemon/Net/Listed,
--   Daemon/Serve/Answers and Daemon/Notify/Once are about them. The operations on the directory
--   are the record Tree, so that any of them may fail; what a peer answers, relPath, time.Now and
--   the hashes are arguments, and what other goroutines do while the lock is released is a
--   function on the state (Around in Daemon/Pull).
-- - Peer (internal/peer): Peer/Roster has the roster with a store of sessions, since a session
--   is shared by reference, and the decisions of session.go and manager.go on which session
--   stays; Peer/Race is about two nodes that dial each other. Peer/Handshake has both ends of
--   the handshake over decoded messages, Peer/Manager the way from a connection to an installed
--   session, with Peer/Manager/Settled about it. Peer/Discovery has the tables of dials in
--   flight and of backoffs.
--
-- Loops run on the list they read, or on fuel: encode_loop has one more round than the target
-- has bytes, and each round consumes at least one of them, so the fuel is enough; backoff_loop
-- has as many rounds as the source's counter. Integers of w bits keep their wrap-around
-- written out; a Go int has 64 bits.
--
-- Not modelled: the QUIC endpoint and its streams with their deadlines, the accept loop and the
-- heartbeats, the start and stop of the daemon and its listeners, the file watcher, the login
-- URL watching, the parsing of the peer list, and the writing of one notification to a stream, which are
-- goroutines, sockets and calls of libraries for the most part.

pub mod Common
pub mod Index
pub mod Delta
pub mod PathUtil
pub mod Scan
pub mod Daemon
pub mod Peer
pub mod AtomicFile
pub mod Proto
