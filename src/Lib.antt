-- ===== src/Lib.antt =====
-- Wanix: models of its file systems, with proofs.
--
-- Wanix gives programs in a browser a Plan 9 style namespace of file systems. Each task has a
-- namespace (fs/vfs/vfs.go) that binds files and directories of other file systems at its paths.
-- The functions of package fs (fs/context.go and its neighbours) call a file system through the
-- interfaces that it has, and pass on in a context where a request began. Among the file systems
-- are the one in memory (fs/memfs/memfs.go), whose files are the nodes of fs/fskit/node.go, the
-- view of a directory (fs/sub.go), the pipes (fs/pipe), the cache of metadata
-- (fs/metacache/metacache.go), which stands in front of a slow file system, the file system that
-- keeps changes in a second one (fs/cowfs/cowfs.go), the one that synchronises a
-- local file system with a remote one (fs/syncfs/syncfs.go), and the one of an HTTP server with its
-- cache (fs/httpfs/cacher.go).
--
-- Files:
--   Base (Base/Tests, Lists, Text, Strings, Maps, Ints): Boolean tests, lists measured by native numbers,
--     Go strings as lists of code points, Go maps as association lists, signed integers.
--   Errors: the sentinel errors, PathError, and results.
--   Paths (Clean, Dir, Join): fs.ValidPath and Clean, Dir, Base and Join of package path.
--   Contexts: fs/context.go. A context is a record of the values under its keys.
--   Metacache: fs/metacache/metacache.go. The state `Fs` is the cache, its time to live, the state
--     of the file system below, and the refreshes that were started. The file system below is the
--     record `Backing`. Ops has Stat, Lstat and ReadDir and the refreshes, Handle the open files,
--     Writes the changes. Expiry, Fresh, Below, Coherence, Listing, Trees, Stale and
--     Iterate are proofs.
--   Pipe: fs/pipe/buffer.go, pipe.go and portfile.go. A method of a buffer is one step, and a read
--     that waits is a value. Fifo is about one buffer, Duplex about the two ports of a pipe.
--   Subdir: fs/sub.go, over the record `Whole` of the functions of package fs that it calls. Names
--     is about the names that it makes and takes back.
--   Nodes: fs/fskit/node.go: RawNode, Entry, and the file that is open on a node. Splice says what
--     a write leaves in the data, Contents what a run of calls does.
--   Memfs: fs/memfs/memfs.go with Exists, IsDir and IsEmpty of fs/util.go. Changes and Rename have
--     the methods that change the map of nodes, Frame and Methods say what they leave alone, and
--     Rename and Results what they make.
--   Actions: code that changes a state and may fail, with do blocks, and triples about it.
--   Cowfs: fs/cowfs/cowfs.go, over the record `Layers` of what it calls of its two file systems.
--     Changes has Rename, Remove, Symlink and Mkdir, Views the reads and OpenFile and Whiteout.
--     Chains is about resolveTerminal, Removal about Remove, Redirect, Moves and Renamed about Rename,
--     Records and Filing about the files that Whiteout reads.
--     Listed is about the directories that Open makes, with Listings.
--   Listings: fs/fskit/diriter.go, dirfile.go, overlayfile.go and uniondir.go. Order, Merge and
--     Duplicates say what is listed, Pages how an iterator gives it. Layered has the methods of an
--     OverlayFile that are not about entries, and InStep is about its two files.
--   Tasks: task.go, over the record `Calls` of what a task asks of its namespace and files. A task is
--     known by its number. Descriptors is about OpenFD, CloseFD and FD, Table about Alloc and aliases.
--   Signals: fs/signal/broadcaster.go as a step relation: what runs under the lock is one step, and so
--     is each send. Sound and Calm are about the states that it reaches.
--   Unions: fs/fskit/unionfs.go, over the record `Members`. First is about the member that answers,
--     and about the root.
--   Modes: fs/pstat/unixmode.go, with the bits of a mode by division.
--   Backends: what is called of a file system that the code holds as an interface value.
--   Copy: fs/copy.go, over two file systems of the record in Backends. Total is about its end, Laws
--     about its result.
--   Syncfs: fs/syncfs/syncfs.go: the methods and the record of changes. Scan, Push, Pull and Run are
--     the parts of Sync, over the record `Parts`. Agreement, Tracking and Distinct are about the
--     record, Removed about a removal, Archive and Acceptance about what is pushed, Decisions and
--     FirstSync about the scans, Workers about the pull.
--   Httpfs: fs/httpfs/cacher.go and fs_node.go, over the record `Server` of requests. Fetch, Reads and
--     Writes have the methods of the cache, Handle those of an open node. Forgetting and Complete are
--     about InvalidateNode, Fresh about what is cached after a change, Crashes about a panic, Writing about
--     Write beside that of Nodes.
--   Vfs: fs/vfs/vfs.go: Bind, Unbind, UnbindAll, and in Resolve ResolveFS with MatchPaths of
--     fs/fskit/misc.go. The file systems that are bound are the record `Files`. Bindings and Undo
--     are about the table, Lookup about the binding that a name is resolved through. Open has
--     OpenContext, over the record `Opens`, and Listed is about the directories that it makes.
--   The module Tests of a component has concrete runs.
--
-- Choices: locks, logging and goroutines are left out, and what runs under one lock is one step. A
-- refresh of the cache is one step too, so that a change between its fetch and its store is not
-- modelled. Times are numbers of nanoseconds, and a time to live is not negative. Ranging over a Go
-- map follows the order of the list. A namespace publishes changed copies of its table, so that an
-- operation is a function from table to table. The node files know the largest int of the machine
-- as `max_int`, and Seek adds as an int64 does. MkdirAll of the metadata cache climbs to the root by fuel,
-- for which one more than the length of the path is enough. A chain of renames has the limit of 1000
-- hops of the source as its fuel, and the decimal digits of a number one round more than the number.
--
-- CopyFS and the deletions of the HTTP cache recurse on fuel: that for the levels of a tree and that
-- for the entries of a cache are enough. In a sync the push and the pull come one after the other, in
-- the order that an argument says, and the pulled files are handled in the order of their list.
--
-- Not modelled: StatContext, Binds and String of a namespace, links that the memory file system
-- follows, its function From, nodes that are shared between its map and an open file, the requests
-- and responses of HTTP, the other file systems (R2, 9P, FUSE), the files and drivers of a task, the shell and the
-- browser's bindings.
pub mod Actions
pub mod Backends
pub mod Base
pub mod Contexts
pub mod Copy
pub mod Cowfs
pub mod Errors
pub mod Httpfs
pub mod Listings
pub mod Memfs
pub mod Metacache
pub mod Modes
pub mod Nodes
pub mod Paths
pub mod Pipe
pub mod Signals
pub mod Subdir
pub mod Syncfs
pub mod Tasks
pub mod Unions
pub mod Vfs
