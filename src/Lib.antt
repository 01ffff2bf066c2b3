-- ===== src/Lib.antt =====
-- libfossil: the delta format, the store of artifacts and their expansion, manifests, the cards of
-- the sync protocol, the status of unversioned files, the line diff, the three-way merge, the
-- search for paths, the bisection over it, and the locks on check-ins.
--
-- The program reads and writes repositories of Fossil. Its storage keeps a version of a file as a
-- delta against another (internal/delta) in the tables of a database (internal/blob), and expands
-- it along the chain of deltas, through a cache (internal/content); its manifests are lists of
-- cards with a checksum (internal/deck), which escape white space in a text; clients and servers
-- exchange cards (internal/xfer), which carry file contents as they are, as deltas, or compressed;
-- two versions of a file are compared line by line (internal/diff), and merged where they have a
-- common ancestor (internal/merge/threeway.go); a bisection (internal/bisect) tests check-ins in
-- the middle of the shortest path (internal/path) between a good and a bad one; a server lets one
-- client at a time lock a check-in (internal/sync/ckin_lock.go). These parts are modelled:
--
--   Delta          internal/delta/delta.go, `Apply`: the reader and its integers in base 64, the
--                  commands `@`, `:` and `;`, and `Checksum`; also `appendInt`. The children hold the
--                  integers (Ints), a delta as a list of commands (Commands, Apply, Builds), and what
--                  holds of any input (Safety).
--   Delta/Create   internal/delta/delta.go, `Create`: `buildHashTable`, `matchLen`, `rollingHash`,
--                  `emitMatches` and `createInsertAll`. The children hold the invariant of the table
--                  (Chains), the search (Matches) and the round trip (RoundTrip).
--   Blob           internal/blob/blob.go and compress.go: `Store`, `StoreDelta`, `StorePhantom`, `Load`,
--                  `Exists`, `Compress`, `Decompress`, on the tables as lists of rows. The children
--                  hold what makes the tables valid (Tables, Valid), that rows stay (Keeps), what is
--                  read back (Loads, RoundTrip), and a case that fails (Collision).
--   Content        internal/content/content.go: `Expand`, `walkDeltaChain`, `Verify`, `IsPhantom`. The
--                  children hold the walk (Walk), what a content is (Expansion), and `Expand` after
--                  stores (Stored).
--   Content/Cache  internal/content/cache.go: the cache, its critical sections and its eviction (Evict,
--                  Bounds), and goroutines that share it, as any list of events (Shared).
--   Deck           internal/deck/deck.go (Artifact), marshal.go (Marshal), parse.go (Parse), zcard.go
--                  (Checksum), rcard.go (Hash): manifests. The children of Parse hold the loop on lines
--                  that are known (Lines), the cards read back one by one (Cards, WordCards, Segments,
--                  Content) and any text (Always, Safety, Calm); Carried says which decks the format
--                  can carry, RoundTrip and Refused what is read back and what is not.
--   Deck/Encode    internal/deck/encode.go: `FossilEncode` and `FossilDecode`.
--   Xfer/Card      internal/xfer/card.go and card_tablesync.go: one constructor for each card.
--   Xfer/Encode    internal/xfer/encode.go: `EncodeCard` and the functions `encode...`; the fields that
--                  a card needs (Fields).
--   Xfer/Args      internal/xfer/decode.go: the parsers of cards that are one line.
--   Xfer/Payload   internal/xfer/decode.go: the parsers of cards with a payload, and its reading.
--   Xfer/Decode    internal/xfer/decode.go: `DecodeCard` and `parseLine`.
--   Xfer/Message   internal/xfer/message.go: messages, compressed or not.
--   Xfer/Frame     the wire format as data, independent of the code: a command word, argument words
--                  and a payload for each card, and `IsCarried`, which cards the format can carry:
--                  no byte of a word is one with which white space begins, in UTF-8 too, which
--                  leaves out some words that are read back all the same.
--   Diff           internal/diff/diff.go: lines and edit scripts; the edit script of Myers (Myers) with
--                  its way back (Walk, Unwind), its rounds (Step, Good, Round, Level, Next,
--                  First), the result (Total), and that no script has fewer edits (Furthest,
--                  Least); the hunks (Hunks) with the ranges of changes (Changes) and what the
--                  hunks do as a patch (Sides, Patch); the unified output and the counts (Unified,
--                  Whole).
--   Merge/Lines    internal/merge/threeway.go: `splitLines`.
--   Merge/Diff     internal/merge/threeway.go: `longestCommonSubseq` and `diffLines`; what a list of
--                  hunks means (Rebuild), and that no common subsequence is longer (Longest).
--   Merge/Hunks    internal/merge/threeway.go: `merge3` and `handleOverlappingHunks`; hunks
--                  of the two sides that stand apart (Apart) and their merge (Clean), and two that
--                  start at one line (Meeting).
--   Merge/ThreeWay internal/merge/threeway.go: `Merge`.
--   Path           internal/path/path.go: `Shortest`, `neighbors`, `reconstruct`. The children hold what a
--                  path is (Routes), the search's invariant (Search) and the result (Shortest).
--   Bisect         internal/bisect/bisect.go: `MarkGood`, `MarkBad`, `Skip`, `Next`, `Reset`, over the
--                  variables in the table vvar. The children hold the choice (Midpoint), the parts of
--                  a path (Between), the two ends (Ends), the progress (Progress), the log (Log) and the
--                  number of tests (Few).
--   Bisect/Report  internal/bisect/bisect.go: `Status` and `List`. The children hold the parts of a list
--                  (Listed), the places of the ends (Placed) and their labels (Labels), the label NEXT
--                  (Agreed, Blocked), and the steps of a status (Steps).
--   Sync/CkinLock  internal/sync/ckin_lock.go: `processCkinLock` and `expireStaleLocks`, over the tables
--                  config, blob and leaf. The children hold the table config (Config) and the
--                  exclusion of other clients (Exclusion).
--   Uv             internal/uv/status.go: `Status`, which side of a sync has the newer version of a
--                  file that is not under version control.
--   Text           what the code uses of Go's strings and strconv.
--   Base           shared tests, lists, results of calls, integers and lemmas.
--
-- A string or a slice of bytes is a list of bytes, a reader is what is left to read, and a buffer
-- is what was written so far. A call gives back `ok`, `err`, `panicked` for a run-time panic, or
-- `stuck`, which is no behaviour of the code: it says that the fuel of a loop has run out. The
-- loop of `Apply`, that of `DecodeCard` and that of `DecodeUncompressed` have the number of bytes
-- left, and one, as their fuel, since each round reads a byte; the loop over a chain of the hash
-- table has the number of entries, and one, since the indices fall; the loop of `Parse` on a
-- manifest has the number of bytes, and one; the loop of `emitMatches` has the number of bytes of
-- the target, since each round takes one. `appendInt` has 13 places, and 11 digits in base 64 hold
-- a uint64; `walkDeltaChain` has the number of rows of the table delta, and one, since each round
-- but the last sees a row for the first time; the eviction has the number of entries; the search
-- for a path has twice the number of edges, and two, since a rid is queued once; the loop of
-- `myers` has as many rounds as there are lines, and one, as in the code. The loops of the merge
-- need no fuel: each round takes a line or a hunk. Unsigned integers wrap around where the code's
-- do; offsets and lengths of slices are below 2^62 in the theorems that add them (`InMemory`).
--
-- Parameters: `max_cap` is the largest capacity that `make` gives a slice of bytes, and `Machine`
-- holds compress/zlib, with what its documentation and RFC 1950 say, and the longest slice that
-- `make` gives. `Tools` holds SHA1, SHA3 and zlib for the store. A statement of SQL does not fail,
-- and a new row has the rid behind the largest one. Between the two critical sections of
-- `Cache.Expand` the expansion is one step. `Environment` holds MD5 and package time for the
-- manifests. `Json` holds encoding/json for the locks, whose two readings of the clock are
-- arguments. `sort.Slice` is an insertion sort, where Go leaves the order of equal keys open. An
-- error is its class, without its text. A list is never nil: the panics on nil arguments are left
-- out. Sharing of slices is not modelled: no function here writes to a slice that it was given.
--
-- Not modelled: the rest of the repository, which works on SQLite, files and HTTP, and whose pure
-- parts (the rounds of a sync, the propagation of tags) are left for later; and a nil cache.
pub mod Base
pub mod Bisect
pub mod Blob
pub mod Content
pub mod Deck
pub mod Delta
pub mod Diff
pub mod Merge
pub mod Path
pub mod Sync
pub mod Text
pub mod Uv
pub mod Xfer
