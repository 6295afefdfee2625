-- ===== src/Lib.antt =====
-- k-lsm-engine: an LSM key-value engine. A Put or Delete goes to the write-ahead log and to the
-- memtable, a skip list; a full memtable is written to a level-0 SSTable with a bloom filter beside
-- it, and five such tables are merged with level 1 by a compaction. A Get asks the memtable, then
-- the tables of level 0 from the newest, then those of level 1.
--
-- Go strings and byte slices are lists of bytes (Prelude/Strings). A pair (value, error) is a
-- `Result` (Prelude/Errors), which also has the run that panics.
--
-- - Entry: internal/storage/entry.go and ssTableEntry.
-- - Table: internal/storage/block_based_table.go. A file is the list of its bytes; the functions have
--   the names of the source. Table/Padded treats the padded fields, Table/Block a data block,
--   Table/Pages the loop that writes the pages, Table/Index the index block, Table/Open opening and
--   lookup, Table/Accepts what is refused.
-- - Bloom: internal/storage/bloom_filter.go. The hash murmur3 is a parameter. The sidecar file is the
--   list of its bytes.
-- - Std: what the program uses of the standard library: sort.Search, crc64 with the ECMA table, and
--   little-endian numbers, crc32, the strings of encoding/json, bufio.Scanner, strings.TrimSpace,
--   strings.Fields, strings.ToUpper, where unicode.ToUpper beyond ASCII is given, decimal numbers, and
--   strconv.Quote with strconv.Unquote, where which runes are printable is given.
--   `sort.Search` runs on as many rounds as there are indices, and each round halves the range.
-- - SkipList: internal/storage/memtable_skiplist.go. The nodes are a list, the head at index 0, and a
--   pointer is an index. The random level is read from a list of coins. A walk along a level has the
--   number of nodes as its fuel, and visits a node once at most. SkipList/Chain sees the linked levels
--   as one list of cells, SkipList/Walk has the search, SkipList/Link and SkipList/Round the loop that
--   links a new node, SkipList/Insert and SkipList/Overwrite the two branches of `add`, and
--   SkipList/Invariant the invariant.
-- - MemTable: internal/storage/memtable.go, the skip list behind a lock. MemTable/Interface makes it
--   the memtable of the engine, MemTable/Snapshot relates it to the table that is written of it.
-- - Engine: internal/storage/engine.go, over interfaces of its parts (Engine/Parts), which say what
--   the memtable, the table store and the log promise; each reports whether a call succeeded. The
--   parts of the program meet them: MemTable/Interface has the memtable, Engine/OnDisk the store of
--   sstable.go and compaction.go, with Engine/OnDisk/Levels and Engine/OnDisk/Saves for what a save
--   leaves in the levels, and Wal/Interface the log. The store promises its answers while it is valid:
--   its tables can be read, and the numbers of the saves that are left fit into an integer, so that
--   the number of saves is bounded; its compactions are those in which os.Stat finds the tables that
--   are there. The log promises to read back what it took if all its lines can be read back, and says
--   nothing of a log behind an entry that cannot, as behind a line that was written in part.
--   Engine/View has what a client sees and that the store stays valid, Engine/Recovery the restart,
--   which opens the store again, and Engine/Sample an engine of the program's parts.
-- - Store: internal/storage/sstable.go, the levels in memory, the names of tables, and getKey. The
--   files are a function from level and name to the bytes, or to none where opening fails. Store/Disk
--   has the loading of the filters and the pruning of tables that are gone. Store/Manifest has the text
--   of the manifest and its reading; the sort by level is an insertion sort. Store/Publish has what
--   changes the disk: each failure of a call of the operating system is a value, with what was done
--   before it, and the temporary files are left out. Removals of sidecars may fail as well.
-- - Wal: internal/storage/wal.go. The file is the list of its bytes, or none while it does not exist.
--   Each failure of a call of the operating system is a value, with what was written before it.
--   json.Unmarshal is a parameter: it takes back the line that the encoder wrote, if its strings are
--   valid UTF-8. Std/Json has the strings of json.Marshal and Std/Crc32 the checksum.
-- - Compaction: internal/storage/compaction.go. The loop of `advance` has as many rounds as blocks are
--   left. Compaction/Readers follows a reader through its file. Compaction/Merge has the merge of
--   `compactSSTables` from the files to the new tables: the heap is the list of its items, of which a
--   pop takes the least; the loop has fuel, for which the number of entries is enough, and ends with an
--   error of the model when it runs out of it; the outcome of
--   os.Stat on a number, and whether writing its file fails, are functions of the number, and the
--   search for a free number ends with an error after a number of rounds that is given. Merge/Least
--   and Merge/Newest have the entries that the tables still hold, Merge/Steps and Merge/Advance a
--   round, Merge/Answers, Merge/Loop and Merge/Rising the rounds, Merge/Opened and Merge/Tables the
--   whole merge, Merge/Success and Merge/Runs its runs without faults. Compaction/Publish has the rest
--   of `compactSSTables`: the pruning, the writes of the new tables, the manifest, and the removals,
--   with each failure of a call of the operating system as a value. Publish/Answer, Publish/Unique,
--   Publish/Merged and Publish/Values compare what the tables answer before and after,
--   Publish/Reads and Publish/Placed
--   have the tables that getKey reads, Publish/Numbers and Publish/Rounds the numbers of the new
--   tables, Publish/Names and Publish/Files the files that are touched, Publish/Levels, Publish/Kept
--   and Publish/Pruned the levels in memory, Publish/Failed, Publish/New and Publish/Safe the ways a
--   compaction ends, and Publish/Compact and Publish/Runs the whole of it.
-- - Server: cmd/server/main.go, the handler of keys.
-- - Gen: cmd/gen/main.go. A draw is a number, of which `rand.IntN(n)` takes the remainder; a run that
--   has no draws left returns none. Each round of a loop takes a draw, so that as many rounds as draws
--   are enough. A Go map is a list of its keys and values. Gen/Draws has the random keys and values,
--   Gen/Range the ranges of a SCAN line, Gen/Script the lines and the loops, Gen/Valid and Gen/Ops what
--   a round writes, and Gen/Within, Gen/Successor and Gen/Exact what a range lists.
-- - Client: cmd/client/main.go. Client/Script reads a script into steps, Client/Requests sends them and
--   checks the replies; what is printed is a list of reports, each with the number and the text of its
--   line. The semaphore of `main` has room for one request, so that the steps run one after the other,
--   and waiting for a batch changes nothing. The server is given by what it answers to a request, and
--   to one that is sent again, whose body the first attempt may have read.
--   Client/Lines and Client/Steps read the lines of the generator, Client/Passes has a server that
--   keeps a map, and Client/EndToEnd the handler of keys as that server.
--
-- Not modelled: failures of the operating system while a table is read; the lock-free part of Get
-- against a concurrent flush; the metrics of the server; the command lines, the transport of HTTP, and
-- files that cannot be opened or written in the programs under cmd.
pub mod Prelude
pub mod Std
pub mod Entry
pub mod Table
pub mod Bloom
pub mod SkipList
pub mod MemTable
pub mod Engine
pub mod Store
pub mod Compaction
pub mod Server
pub mod Wal
pub mod Gen
pub mod Client
