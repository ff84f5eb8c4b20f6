-- ===== src/Lib.antt =====
-- The core of resticscope, a terminal program that shows restic repositories: what it makes of restic's
-- output before anything is drawn, and how it extracts files from a snapshot. Backends, processes and
-- the terminal are outside.
--
-- A snapshot diff goes through internal/model/diff.go: the JSON lines become entries, the entries a
-- tree of rows with counts per directory, and for an extraction two lists of paths to restore, one per
-- snapshot. The interface asks for the tree and the lists; extraction hands the lists to restic. The
-- snapshots themselves are ordered, summarised, grouped and collapsed before the list shows them, in a
-- window that holds the cursor. An extraction is planned from a request, restored into a staging
-- directory with arguments that the restic client asserts again, and published only then. A refresh
-- replaces a repository's cached state or keeps its observation with an error. The health of a repository is a
-- function of its cached state and the time, and decides the exit code. A search ranks the entries of a
-- directory listing.
--
-- Paths.antt      internal/model/browse.go (CleanBrowsePath, JoinBrowsePath, BrowseName), DiffParentOf
--                 and diffNameOf of internal/model/diff.go, and the functions of Go's path that they
--                 call; the walk from a path to the root.
-- Diff.antt       internal/model/diff.go: Diff/Kinds (ModifierKind, DiffStats, parseModifier,
--                 ModifierString), Diff/Entry (newDiffEntry, ScanDiffNDJSON, ParseDiffNDJSON), Diff/Tree
--                 (BuildDiffTree), Diff/Extract (DiffExtractIncludes).
-- Status.antt     internal/model/status.go, RepoState of internal/model/state.go, and RowsFromStates,
--                 statusRow and WorstExitCode of internal/app/status.go.
-- Fuzzy.antt      internal/model/fuzzy.go (FuzzyScore, BetterFuzzy, RankFuzzy).
-- Snapshots.antt  internal/model/snapshot.go and internal/model/observe.go.
-- SnapGroup.antt  internal/tui/snapgroup.go: buildSnapDisplay, collapseTreeRuns, snapSectionsBy,
--                 normalizedDetailMarks, indexOfSnap.
-- Windows.antt    internal/tui/layout.go (clampCursor, scrollWindow, modalWindow, modalScrollBy) and the
--                 tokens and the window of internal/tui/group.go.
-- Arrange.antt    internal/tui/arrange.go (urgencyRank, sortRows, browseLess, sortedBrowseRows).
-- BackendEnv.antt internal/model/backendenv.go.
-- FindVersions.antt internal/model/find.go (GroupFileVersions).
-- Profiles.antt   internal/config/profiles.go (mergeRepoProfile, mergeStringMaps).
-- TreeNodes.antt  internal/model/treenode.go (CompareTreeNodes and the lists of differing attributes).
-- Extract.antt    internal/app/extract.go: Extract/Slug (SanitizeExtractSlug), Extract/Plan (PlanExtractPaths,
--                 checkExtractModeGate, extractTreeParams), Extract/Publish (FreshTargetCheck,
--                 runExtractPipeline, publishExtract, Extract); Extract/Args: buildExtractTreeArgs, the
--                 patterns and the scrubbing of internal/resticx/extract_tree.go.
-- ResticErrors.antt internal/resticx/errors.go (classify, Error), the stream and the end of ExtractTree in
--                 internal/resticx/extract_tree.go, and the codes of the root helper in
--                 internal/app/extract_helper.go and internal/app/extract_privileged.go.
-- BrowseSession.antt internal/app/browsesession.go: ensureStore, beginOp, release and Close as steps of
--                 threads, IndexSnapshot with its deferred functions, and browseProgressFunc.
-- BrowseSearch.antt internal/browsedb/queries.go (Search, insertTopN); the database chooses the rows.
-- Refresh.antt    internal/app/refresh.go (refreshOne, Refresh, RefreshRow, RefreshAll).
-- Prune.antt      internal/app/prune.go (PruneCache) and RepoCacheName of internal/resticx/resticx.go.
-- Prelude.antt    shared types, tests, lists, texts, stable sorting and integers.
--
-- A local variable that a loop changes is an argument of the loop, named as in the source; a closure of
-- the source is a function with what it captures as arguments. A Go map is an association list with one
-- entry for each key. Text is a list of code points, and a time the nanoseconds since Go's zero time. An
-- int is an integer without bounds, since lengths and indices stay far below them; where the sum of two
-- durations can leave int64, in the status, it wraps as in Go. ModifierKind is the record of its bits.
--
-- Loops over slices are recursion on lists. The only loop with fuel is the walk from a path up to the
-- root: its fuel is the length of the path, which is enough because each parent is shorter.
--
-- The file system of an extraction is a record of operations over a state of any type; what is relied on
-- of it is the record IsFileSystem: creating a directory keeps what is there, the restore and the
-- normaliser stay below their directory, a hard link never replaces, and a success puts a node. The
-- threads of a session take turns at the steps between which another can run; RefreshAll's goroutines
-- run one behind the other in any order.
--
-- Parameters: what encoding/json and the scanner return for each line, unicode.ToLower, strings.ToLower,
-- unicode.IsSpace, the digest of a staging name, the redaction of secrets, the store and the answers of
-- restic, the secrets and the system. Not modelled: rendering and key handling, processes and their
-- pipes, secrets, the normaliser of metadata, the reading of the configuration, the cache's files and
-- the browser's SQLite index.
pub mod Prelude
pub mod Paths
pub mod Diff
pub mod Status
pub mod Fuzzy
pub mod Snapshots
pub mod SnapGroup
pub mod Windows
pub mod Arrange
pub mod BackendEnv
pub mod FindVersions
pub mod Profiles
pub mod TreeNodes
pub mod Extract
pub mod ResticErrors
pub mod BrowseSession
pub mod BrowseSearch
pub mod Refresh
pub mod Prune
