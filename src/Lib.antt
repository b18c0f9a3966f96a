-- ===== src/Lib.antt =====
-- Verification of Rclaude: a server that shows the workspace of a daemon as a file system.
--
-- A daemon connects to the server, sends the list of its files and then each change of them; the
-- server keeps them in a tree, caches file contents, and sends file requests back over the same
-- stream. The parts that are modelled, and where:
--
--   Paths            Go's packages path and path/filepath on Unix, as far as the code calls them
--   SafePath         pkg/safepath/safepath.go: cleaning of relative paths, joining to a base
--   Normalize        the function normalize that pkg/fstree/fstree.go, pkg/contentcache/cache.go
--                    share word for word
--   ContentCache     pkg/contentcache/cache.go: whole-file contents under a byte budget
--   FsTree           pkg/fstree/fstree.go: the tree of files, as a map from paths to nodes
--   Pending          pkg/session/session.go: the channels of the requests in flight
--   Session          pkg/session/session.go: the rest of the state of one daemon
--   Manager          pkg/session/manager.go: the sessions and the PTYs of the users
--   Service          pkg/session/service.go: one connection of a daemon
--   Syncer           pkg/syncer/handle.go and pkg/fusefs/view.go: the windows of a read, and by its
--                    parts the daemon: SelfWrite (selfwrite.go) the filter of its own writes,
--                    Sensitive (sensitive_filter.go) the files that it hides, Resolution
--                    (path_resolution.go) paths through symbolic links, Locker (locker.go) the
--                    locks of paths, with Locker/Entries and Locker/Threads the goroutines over
--                    them, Messages, Handle and Audit (handle.go, handle_write.go, audit.go) the
--                    requests of the server, Scan (scan.go, workspace.go) the first list of files,
--                    Watch (watch.go) the changes that are reported
--   Startup          pkg/startup: the order of the components, and their retries
--   Ratelimit        pkg/ratelimit/limiter.go: the token bucket, over the operations of float64
--   PtyHost          pkg/ptyhost/policy.go: directory, environment and program of a terminal
--   PtyService       pkg/ptyservice/service.go: a terminal from its first frame to its return
--   PtyRegistry      app/server/pty_runtime.go: the session manager as the registry of terminals
--   Sorting          sort.Strings
--   Prelude          what the parts share: texts, maps, int64, results
--   Tests            runs on concrete inputs, and the theorems at concrete inputs
--
-- A session owns a tree, a cache and the pending requests; the manager owns the sessions. A method
-- keeps its name in snake case and returns the new state beside its result. What a method does
-- under one lock is one step; Get has two locks, and what the second one finds, which others may
-- have changed, is given to it. In Pending the steps of different goroutines between the locks are
-- moves in any order, since that is where the order matters; so are in Syncer/Locker the regions
-- of the lockers' mutex. PtyService asks of its registry the laws of a record (GivesBack), which
-- PtyRegistry proves of the manager. The operating system, path matching, the stream and the host
-- of a terminal are parameters; each of their calls may fail. So are the operations of float64 in
-- the limiter, whose law is a record (Rounds): a total order and monotone rounding of finite
-- numbers.
--
-- Texts are lists of code points: strings are valid UTF-8. A Go map is an association list, whose
-- order stands for the order of a range over it. A pointer is a number where it is compared: the
-- list elements of the cache, the channels, the sessions. An int64 keeps its wrap-around; the cache
-- theorems take a budget below 2^62, so that no sum of sizes wraps. A time is a number of
-- nanoseconds, 0 the zero time, and an operation that calls time.Now() is given the time.
--
-- Loops take fuel where Go recurs: evictLocked as many rounds as there are elements, of which each
-- takes one away; ensureAncestors the length of the path, and a parent is shorter; deleteLocked one
-- more than the longest path of the tree, and each call is on a longer path; the climb over the
-- parents of a path its length and 2; ensureAcyclic one more than the specs, of which each call
-- colors one. The theorems about these functions have no hypothesis on fuel: what they start with is
-- enough. The 40 rounds over symbolic links are the source's own bound.
--
-- Not modelled: receivers that are nil; the list values of the cache that are no entries
-- (deleteUnknownElement), which Put never stores; the loops that select between channels, contexts
-- and timers (of a session and of the daemon over their gRPC streams, of Watch, of the startup
-- goroutines), of which the bodies are modelled as steps; a send to a full channel, which blocks;
-- the texts of errors, which are kept as what they tell; the FUSE mount and its prefetch; the
-- processes and terminal modes of the system, gRPC, configuration, audit stores and logging; paths
-- of Windows, but for the drive letters that the code rejects.
pub mod ContentCache
pub mod FsTree
pub mod Manager
pub mod Normalize
pub mod Paths
pub mod Pending
pub mod Prelude
pub mod PtyHost
pub mod PtyRegistry
pub mod PtyService
pub mod Ratelimit
pub mod SafePath
pub mod Service
pub mod Session
pub mod Sorting
pub mod Startup
pub mod Syncer
pub mod Tests
